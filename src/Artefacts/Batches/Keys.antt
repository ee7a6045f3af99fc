-- ===== src/Artefacts/Batches/Keys.antt =====
-- Files and their keys, and what clear_parents leaves of them.
use mathlib.Core.Path.{subst}
use arcology.Base.{
  ℕ, zero, suc, ◌≡◌, refl, sym, ap, Bool, true, false, not, ◌&&◌, ◌||◌, List, [], ◌∷◌, map, select,
  take, all, ltb, ◌==◌, ==_iff, if◌then◌else◌, arith, Bool-cases, if_cases, ◌⊎◌, none, inl, inr,
  and-eq_true,
}
use arcology.Artefacts.{in_ids, ExtractedFileRow}
use arcology.Artefacts.Delete.{file_ids}

-- No id stands twice.
abbrev pub is_distinct : List ℕ → Bool
is_distinct [] = true
is_distinct (x ∷ xs) = not (in_ids x xs) && is_distinct xs

pub all-imp {ℓ} :
    {A : Type ℓ} (p q : A → Bool) (xs : List A)
    → ((x : A) → p x ≡ true → q x ≡ true)
    → all p xs ≡ true
    → all q xs ≡ true
all-imp p q [] h k = refl
all-imp p q (x ∷ xs) h k =
    let (one, more) = and-eq_true (p x) (all p xs) k in rw (h x one) (all-imp p q xs h more)

pub in_ids-take : (x n : ℕ) (xs : List ℕ) → in_ids x (take n xs) ≡ true → in_ids x xs ≡ true
unfolding in_ids
in_ids-take x zero xs h = absurd (cc h)
in_ids-take x (suc n) [] h = h
in_ids-take x (suc n) (y ∷ xs) h = elim (Bool-cases (y == x)) [
  | inl e ↦ rw e refl
  | inr e ↦ rw e (in_ids-take x n xs (rw e at h))
]

pub select-in_nil : (rows : List ℕ) → select (λ r. not (in_ids r [])) rows ≡ rows
unfolding in_ids
select-in_nil [] = refl
select-in_nil (r ∷ rows) = ap (λ rs. r ∷ rs) (select-in_nil rows)

pub keep_out : (g a b : Bool) → (a ≡ true → b ≡ true) → (g || not b) ≡ true → (g || not a) ≡ true
keep_out true a b h k = refl
keep_out false true b h k = absurd (cc (h refl, k))
keep_out false false b h k = refl

pub weaker : (g a b : Bool) → (g || not a) ≡ true → (g || not (a && b)) ≡ true
weaker true a b h = refl
weaker false false b h = refl
weaker false true b h = absurd (cc h)

pub select-none_gone :
    (partition_ids : List ℕ) (files : List ExtractedFileRow)
    → file_ids partition_ids files ≡ []
    → select (λ f. not (in_ids f.partition_id partition_ids)) files ≡ files
unfolding file_ids
select-none_gone partition_ids [] e = refl
select-none_gone partition_ids (f ∷ files) e =
    elim (Bool-cases (in_ids f.partition_id partition_ids)) [
      | inl g ↦ absurd (cc (rw g at e))
      | inr g ↦ rw g (ap (λ fs. f ∷ fs) (select-none_gone partition_ids files (rw g at e)))
    ]

pub or_true : (b : Bool) → (b || true) ≡ true
or_true true = refl
or_true false = refl

pub lower_cursor :
    (c : ℕ) (g : Bool) (i : ℕ) → (not g || ltb c i) ≡ true → (not g || ltb 0 i) ≡ true
lower_cursor c true i h = ground (arith, h)
lower_cursor c false i h = refl

pub List-cases : (xs : List ℕ) → (xs ≡ []) ⊎ ((y : ℕ) × (ys : List ℕ) × (xs ≡ y ∷ ys))
List-cases [] = inl refl
List-cases (x ∷ xs) = inr (x, xs, refl)

pub in_ids-head : (x : ℕ) (xs : List ℕ) → in_ids x (x ∷ xs) ≡ true
unfolding in_ids
in_ids-head x xs = rw ((==_iff x x).1 refl) refl

abbrev pub clear : List ℕ → ExtractedFileRow → ExtractedFileRow
clear partition_ids f =
    if in_ids f.partition_id partition_ids then record f { parent_file_id = none } else f

-- The break of the references changes only files that go, and no key.
pub clear_keys :
    (partition_ids : List ℕ) (f : ExtractedFileRow)
    → ((clear partition_ids f).id ≡ f.id) × ((clear partition_ids f).partition_id ≡ f.partition_id)
clear_keys partition_ids f =
    if_cases (λ g. (g.id ≡ f.id) × (g.partition_id ≡ f.partition_id))
      (in_ids f.partition_id partition_ids) (record f { parent_file_id = none }) f
      (λ e. (refl, refl)) (λ e. (refl, refl))

pub file_ids-clear :
    (partition_ids : List ℕ) (files : List ExtractedFileRow)
    → file_ids partition_ids (map (clear partition_ids) files) ≡ file_ids partition_ids files
unfolding file_ids
file_ids-clear partition_ids [] = refl
file_ids-clear partition_ids (f ∷ files) = elim (Bool-cases (in_ids f.partition_id partition_ids)) [
  | inl g ↦ rw (g, g) (ap (λ ids. f.id ∷ ids) (file_ids-clear partition_ids files))
  | inr g ↦ rw (g, g) (file_ids-clear partition_ids files)
]

pub stay-clear :
    (partition_ids : List ℕ) (files : List ExtractedFileRow)
    → select (λ f. not (in_ids f.partition_id partition_ids)) (map (clear partition_ids) files)
      ≡ select (λ f. not (in_ids f.partition_id partition_ids)) files
stay-clear partition_ids [] = refl
stay-clear partition_ids (f ∷ files) = elim (Bool-cases (in_ids f.partition_id partition_ids)) [
  | inl g ↦ rw (g, g) (stay-clear partition_ids files)
  | inr g ↦ rw (g, g) (ap (λ fs. f ∷ fs) (stay-clear partition_ids files))
]

pub all-clear :
    (p : ℕ → ℕ → Bool) (partition_ids : List ℕ) (files : List ExtractedFileRow)
    → all (λ f. p f.id f.partition_id) files ≡ true
    → all (λ f. p f.id f.partition_id) (map (clear partition_ids) files) ≡ true
all-clear p partition_ids [] h = refl
all-clear p partition_ids (f ∷ files) h =
    let (one, more) =
      and-eq_true (p f.id f.partition_id) (all (λ g. p g.id g.partition_id) files) h in
    let (i, q) = clear_keys partition_ids f in rw (i, q, one) (all-clear p partition_ids files more)

pub apart-cons :
    (partition_ids : List ℕ) (i : ℕ) (rest : List ℕ) (files : List ExtractedFileRow)
    → in_ids i (map (λ f. f.id) files) ≡ false
    → all (λ f. in_ids f.partition_id partition_ids || not (in_ids f.id rest)) files ≡ true
    → all (λ f. in_ids f.partition_id partition_ids || not (in_ids f.id (i ∷ rest))) files ≡ true
unfolding in_ids
apart-cons partition_ids i rest [] h k = refl
apart-cons partition_ids i rest (f ∷ files) h k =
    let (one, more) =
      and-eq_true (in_ids f.partition_id partition_ids || not (in_ids f.id rest))
        (all (λ g. in_ids g.partition_id partition_ids || not (in_ids g.id rest)) files) k in
    elim (Bool-cases (f.id == i)) [
      | inl e ↦ absurd (cc (rw e at h))
      | inr e ↦
          let other : (i == f.id) ≡ false = ground (arith, e) in
          rw (other, one) (apart-cons partition_ids i rest files (rw e at h) more)
    ]

pub in_ids-file_ids :
    (partition_ids : List ℕ) (x : ℕ) (files : List ExtractedFileRow)
    → in_ids x (map (λ f. f.id) files) ≡ false
    → in_ids x (file_ids partition_ids files) ≡ false
unfolding in_ids file_ids
in_ids-file_ids partition_ids x [] h = refl
in_ids-file_ids partition_ids x (f ∷ files) h = elim (Bool-cases (f.id == x)) [
  | inl e ↦ absurd (cc (rw e at h))
  | inr e ↦ elim (Bool-cases (in_ids f.partition_id partition_ids)) [
    | inl g ↦ rw (g, e) (in_ids-file_ids partition_ids x files (rw e at h))
    | inr g ↦ rw g (in_ids-file_ids partition_ids x files (rw e at h))
  ]
]

-- With distinct keys a file that stays has the key of none that goes.
pub distinct_apart :
    (partition_ids : List ℕ) (files : List ExtractedFileRow)
    → is_distinct (map (λ f. f.id) files) ≡ true
    → all
        (λ f.
          in_ids f.partition_id partition_ids || not (in_ids f.id (file_ids partition_ids files)))
        files
      ≡ true
unfolding file_ids in_ids
distinct_apart partition_ids [] h = refl
distinct_apart partition_ids (f ∷ files) h =
    let (out, more) =
      and-eq_true (not (in_ids f.id (map (λ g. g.id) files))) (is_distinct (map (λ g. g.id) files))
        h in
    let alone : in_ids f.id (map (λ g. g.id) files) ≡ false = ground (arith, out) in
    let ih = distinct_apart partition_ids files more in
    let apart = λ (ids : List ℕ).
      all (λ g. in_ids g.partition_id partition_ids || not (in_ids g.id ids)) (f ∷ files) ≡ true in
    elim (Bool-cases (in_ids f.partition_id partition_ids)) [
      | inl g ↦
          let shape : file_ids partition_ids (f ∷ files) ≡ f.id ∷ file_ids partition_ids files =
            rw g refl in
          subst apart (sym shape)
            (rw g (apart-cons partition_ids f.id (file_ids partition_ids files) files alone ih))
      | inr g ↦
          let shape : file_ids partition_ids (f ∷ files) ≡ file_ids partition_ids files =
            rw g refl in
          subst apart (sym shape) (rw (g, in_ids-file_ids partition_ids f.id files alone) ih)
    ]
