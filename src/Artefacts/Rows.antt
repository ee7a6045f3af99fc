-- ===== src/Artefacts/Rows.antt =====
-- Rows that a DELETE leaves, and what still refers to them.
use mathlib.Core.Logic.Or
use arcology.Base.{
  ℕ, ◌≡◌, refl, ap, Bool, true, false, not, ◌||◌, List, [], ◌∷◌, ◌++◌, map, ◌==◌, ==_iff, select,
  any, all, arith, Bool-cases, inl, inr, and-eq_true, Mem, mem-cons,
}
use arcology.Artefacts.{in_ids}

module _ {ℓ} {A : Type ℓ} (q k : A → Bool) where
  -- A search finds after a deletion what it found before, if what it looks for is kept.
  pub any-select :
      (xs : List A) → ((x : A) → q x ≡ true → k x ≡ true) → any q (select k xs) ≡ any q xs
  any-select [] h = refl
  any-select (x ∷ xs) h = elim (Bool-cases (k x)) [
    | inl e ↦ rw e (ap (λ b. q x || b) (any-select xs h))
    | inr e ↦ elim (Bool-cases (q x)) [
      | inl f ↦ absurd (cc (h x f))
      | inr f ↦ rw (e, f) (any-select xs h)
    ]
  ]

module _ {ℓ} {A : Type ℓ} (p q k : A → Bool) where
  -- What holds of the rows that are kept, from what held of them among all.
  pub all-select :
      (xs : List A)
      → ((x : A) → Mem x xs → k x ≡ true → p x ≡ true → q x ≡ true)
      → all p xs ≡ true
      → all q (select k xs) ≡ true
  all-select [] h e = refl
  all-select (x ∷ xs) h e =
      let (one, more) = and-eq_true (p x) (all p xs) e in
      let rest = all-select xs (λ y m. h y (mem-cons.1 (Or.inr m))) more in
      elim (Bool-cases (k x)) [
        | inl f ↦ rw (f, h x (mem-cons.1 (Or.inl refl)) f one) rest
        | inr f ↦ rw f rest
      ]

pub in_ids-append : (x : ℕ) (xs ys : List ℕ) → in_ids x (xs ++ ys) ≡ (in_ids x xs || in_ids x ys)
unfolding in_ids
in_ids-append x [] ys = refl
in_ids-append x (y ∷ xs) ys = ground (arith, in_ids-append x xs ys)

-- The keys of the selected rows are those that a selected row has.
pub in_ids-map {ℓ} :
    {A : Type ℓ} (key : A → ℕ) (x : ℕ) (rows : List A)
    → in_ids x (map key rows) ≡ any (λ r. key r == x) rows
unfolding in_ids
in_ids-map key x [] = refl
in_ids-map key x (r ∷ rows) = ap (λ b. (key r == x) || b) (in_ids-map key x rows)

-- A row that a deletion by key leaves is found by its key.
pub any-delete {ℓ} :
    {A : Type ℓ} (key : A → ℕ) (ids : List ℕ) (x : ℕ) (rows : List A)
    → in_ids x ids ≡ false
    → any (λ r. key r == x) (select (λ r. not (in_ids (key r) ids)) rows)
      ≡ any (λ r. key r == x) rows
any-delete key ids x rows h =
    any-select (λ r. key r == x) (λ r. not (in_ids (key r) ids)) rows
      (λ r e. rw ((==_iff (key r) x).0 e, h) refl)

-- A key that no row to be deleted has is found among those that are left.
pub any-left {ℓ} :
    {A : Type ℓ} (key : A → ℕ) (bad : A → Bool) (x : ℕ) (rows : List A)
    → in_ids x (map key (select bad rows)) ≡ false
    → any (λ r. key r == x) (select (λ r. not (bad r)) rows) ≡ any (λ r. key r == x) rows
unfolding in_ids
any-left key bad x [] h = refl
any-left key bad x (r ∷ rows) h = elim (Bool-cases (bad r)) [
  | inl e ↦
      let here : ((key r == x) || in_ids x (map key (select bad rows))) ≡ false = rw e at h in
      elim (Bool-cases (key r == x)) [
        | inl f ↦ absurd (cc (rw f at here))
        | inr f ↦ rw (e, f) (any-left key bad x rows (rw f at here))
      ]
  | inr e ↦ rw e (ap (λ b. (key r == x) || b) (any-left key bad x rows (rw e at h)))
]
