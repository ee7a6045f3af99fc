-- ===== src/Artefacts/Batches/Sorted.antt =====
-- The ids of a batch: what sorting keeps, and where the cursor stands after a batch.
use arcology.Base.{
  ℕ, zero, suc, ◌≤◌, ◌<◌, ◌≡◌, refl, Bool, true, false, ◌&&◌, ◌||◌, List, [], ◌∷◌, take, all, leb,
  ◌==◌, ==_iff, arith, Bool-cases, inl, inr, and-eq_true, leb→le, if_cases,
}
use arcology.Artefacts.{in_ids}
use arcology.Artefacts.Batches.{insert_id, sort_ids, last_id}

abbrev pub is_sorted : List ℕ → Bool
is_sorted [] = true
is_sorted (x ∷ xs) = all (leb x) xs && is_sorted xs

swap_or : (a b c : Bool) → (a || (b || c)) ≡ (b || (a || c))
swap_or true true c = refl
swap_or true false c = refl
swap_or false true c = refl
swap_or false false c = refl

in_ids-insert : (x y : ℕ) (ys : List ℕ) → in_ids x (insert_id y ys) ≡ ((y == x) || in_ids x ys)
unfolding in_ids insert_id
in_ids-insert x y [] = refl
in_ids-insert x y (z ∷ ys) =
    if_cases (λ zs. in_ids x zs ≡ ((y == x) || ((z == x) || in_ids x ys))) (leb y z) (y ∷ z ∷ ys)
      (z ∷ insert_id y ys) (λ e. refl)
      (λ e. rw (in_ids-insert x y ys) (swap_or (z == x) (y == x) (in_ids x ys)))

pub in_ids-sort : (x : ℕ) (xs : List ℕ) → in_ids x (sort_ids xs) ≡ in_ids x xs
unfolding in_ids sort_ids
in_ids-sort x [] = refl
in_ids-sort x (y ∷ xs) = rw (in_ids-insert x y (sort_ids xs), in_ids-sort x xs) refl

all-insert :
    (a y : ℕ) (ys : List ℕ)
    → leb a y ≡ true
    → all (leb a) ys ≡ true
    → all (leb a) (insert_id y ys) ≡ true
unfolding insert_id
all-insert a y [] h k = rw h refl
all-insert a y (z ∷ ys) h k =
    let (one, more) = and-eq_true (leb a z) (all (leb a) ys) k in
    if_cases (λ zs. all (leb a) zs ≡ true) (leb y z) (y ∷ z ∷ ys) (z ∷ insert_id y ys)
      (λ e. rw (h, one) more) (λ e. rw one (all-insert a y ys h more))

all-weaken : (a b : ℕ) (xs : List ℕ) → a ≤ b → all (leb b) xs ≡ true → all (leb a) xs ≡ true
all-weaken a b [] h k = refl
all-weaken a b (x ∷ xs) h k =
    let (one, more) = and-eq_true (leb b x) (all (leb b) xs) k in
    let first : leb a x ≡ true = ground (arith, one) in rw first (all-weaken a b xs h more)

insert-IsSorted : (y : ℕ) (ys : List ℕ) → is_sorted ys ≡ true → is_sorted (insert_id y ys) ≡ true
unfolding insert_id
insert-IsSorted y [] h = refl
insert-IsSorted y (z ∷ ys) h =
    let (one, more) = and-eq_true (all (leb z) ys) (is_sorted ys) h in
    if_cases (λ zs. is_sorted zs ≡ true) (leb y z) (y ∷ z ∷ ys) (z ∷ insert_id y ys)
      (λ e. rw (e, all-weaken y z ys (leb→le y z e) one, one) more)
      (λ e.
        let back : leb z y ≡ true = ground arith in
        rw (all-insert z y ys back one) (insert-IsSorted y ys more))

pub sort-IsSorted : (xs : List ℕ) → is_sorted (sort_ids xs) ≡ true
unfolding sort_ids
sort-IsSorted [] = refl
sort-IsSorted (x ∷ xs) = insert-IsSorted x (sort_ids xs) (sort-IsSorted xs)

all-member : (a y : ℕ) (xs : List ℕ) → all (leb a) xs ≡ true → in_ids y xs ≡ true → a ≤ y
unfolding in_ids
all-member a y [] h k = absurd (cc k)
all-member a y (x ∷ xs) h k =
    let (one, more) = and-eq_true (leb a x) (all (leb a) xs) h in
    elim (Bool-cases (x == y)) [
      | inl e ↦ ground (arith, one, (==_iff x y).0 e)
      | inr e ↦ all-member a y xs more (rw e at k)
    ]

-- An id that a batch from a sorted list leaves out is above the last of the batch.
pub after_batch :
    (b x y : ℕ) (xs : List ℕ)
    → is_sorted (x ∷ xs) ≡ true
    → in_ids y (x ∷ xs) ≡ true
    → in_ids y (take (suc b) (x ∷ xs)) ≡ false
    → last_id x (take b xs) < y
unfolding in_ids last_id
after_batch zero x y xs s h k = elim (Bool-cases (x == y)) [
  | inl e ↦ absurd (cc (rw e at k))
  | inr e ↦
      let above = all-member x y xs (and-eq_true (all (leb x) xs) (is_sorted xs) s).0 (rw e at h) in
      ground (arith, above, e)
]
after_batch (suc b) x y [] s h k = elim (Bool-cases (x == y)) [
  | inl e ↦ absurd (cc (rw e at k))
  | inr e ↦ absurd (cc (rw e at h))
]
after_batch (suc b) x y (z ∷ zs) s h k = elim (Bool-cases (x == y)) [
  | inl e ↦ absurd (cc (rw e at k))
  | inr e ↦
      after_batch b z y zs (and-eq_true (all (leb x) (z ∷ zs)) (is_sorted (z ∷ zs)) s).1 (rw e at h)
        (rw e at k)
]
