-- ===== src/Base/Select.antt =====
-- Membership in what a Boolean condition selects, and what a Boolean quantifier says of members.
use mathlib.Core.Logic.Or
use mathlib.Core.HLevel.{×_prop}
use arcology.Base.Tests.{if◌then◌else◌, Bool-cases}
use arcology.Base.Lists.{select, any}
use mathlib.Core.Path.{◌≡◌, refl, ap}
use mathlib.Core.Logic.{inl, inr}
use mathlib.Core.Bool.{Bool, true, false, ◌||◌}
use mathlib.Core.List.{List, [], ◌∷◌, ◌++◌, Mem, Mem-prop, mem-cons, not-mem-nil}
use native.Mathlib.Omega.{arith}

pub Bool-set : (a b : Bool) → IsProp (a ≡ b)
Bool-set = hlevel

-- A Boolean equation follows from the two directions of "is true".
pub bool_ext : (a b : Bool) → (a ≡ true → b ≡ true) → (b ≡ true → a ≡ true) → a ≡ b
bool_ext true b f g = elim (Bool-cases b) [ inl e ↦ cc | inr e ↦ cc (f refl) ]
bool_ext false b f g = elim (Bool-cases b) [ inl e ↦ cc (g e) | inr e ↦ cc ]

module _ {ℓ} {A : Type ℓ} (p : A → Bool) where
  pub any-eq_false : (x : A) (xs : List A) → any p xs ≡ false → Mem x xs → p x ≡ false
  any-eq_false x [] h m = absurd (not-mem-nil m)
  any-eq_false x (y ∷ xs) h m =
      Or.elim (Bool-set _ _) (mem-cons.0 m) (λ e. rw e (ground arith))
        (any-eq_false x xs (ground arith))

  pub any-eq_false_of : (xs : List A) → ((x : A) → Mem x xs → p x ≡ false) → any p xs ≡ false
  any-eq_false_of [] h = refl
  any-eq_false_of (y ∷ xs) h = ground (
    arith,
    h y (mem-cons.1 (Or.inl refl)),
    any-eq_false_of xs (λ x m. h x (mem-cons.1 (Or.inr m))),
  )

  pub any-eq_true_of : (x : A) (xs : List A) → Mem x xs → p x ≡ true → any p xs ≡ true
  any-eq_true_of x xs m h = elim (Bool-cases (any p xs)) [
    | inl e ↦ e
    | inr e ↦ cc (any-eq_false x xs e m)
  ]

  pub mem_of_mem-select : (x : A) (xs : List A) → Mem x (select p xs) → Mem x xs × (p x ≡ true)
  mem_of_mem-select x [] m = absurd (not-mem-nil m)
  mem_of_mem-select x (y ∷ xs) m = elim (Bool-cases (p y)) [
    | inl e ↦
        Or.elim (×_prop Mem-prop (Bool-set _ _)) (mem-cons.0 (rw (e, if◌then◌else◌) at m))
          (λ q. (mem-cons.1 (Or.inl q), rw q e))
          (λ q. let r = mem_of_mem-select x xs q in (mem-cons.1 (Or.inr r.0), r.1))
    | inr e ↦
        let r = mem_of_mem-select x xs (rw (e, if◌then◌else◌) at m) in
        (mem-cons.1 (Or.inr r.0), r.1)
  ]

  pub mem-select : (x : A) (xs : List A) → Mem x xs → p x ≡ true → Mem x (select p xs)
  mem-select x [] m h = absurd (not-mem-nil m)
  mem-select x (y ∷ xs) m h = elim (Bool-cases (p y)) [
    | inl e ↦ rw e (
        Or.elim Mem-prop (mem-cons.0 m) (λ q. mem-cons.1 (Or.inl q))
          (λ q. mem-cons.1 (Or.inr (mem-select x xs q h))))
    | inr e ↦
        rw e (Or.elim Mem-prop (mem-cons.0 m) (λ q. cc (e, h, ap p q)) (λ q. mem-select x xs q h))
  ]

  pub any-witness : (xs : List A) → any p xs ≡ true → (x : A) × Mem x xs × (p x ≡ true)
  any-witness [] h = cc
  any-witness (y ∷ xs) h = elim (Bool-cases (p y)) [
    | inl e ↦ (y, mem-cons.1 (Or.inl refl), e)
    | inr e ↦ let (x, m, q) = any-witness xs (ground arith) in (x, mem-cons.1 (Or.inr m), q)
  ]

  pub any-append : (xs ys : List A) → any p (xs ++ ys) ≡ any p xs || any p ys
  any-append [] ys = refl
  any-append (x ∷ xs) ys = ground (arith, any-append xs ys)
