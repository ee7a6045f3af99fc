-- ===== src/Slugs/Unique.antt =====
-- That ensure_unique_slug ends with a slug that is free.
use arcology.Base.{
  ℕ, zero, suc, ◌+◌, ◌<◌, ◌≡◌, ◌⊎◌, inl, inr, refl, Bool, true, false, some, [], ◌∷◌, ◌++◌, arith,
  Bool-cases, Option-cases,
}
use arcology.Base.Text.{Text, starts_with}
use arcology.Slugs.{numbered, digits, first_free, ensure_unique_slug}

starts_with-append : (base s : Text) → starts_with (base ++ s) base ≡ true
unfolding starts_with
starts_with-append [] [] = refl
starts_with-append [] (c ∷ s) = refl
starts_with-append (b ∷ base) s = ground (arith, starts_with-append base s)

starts_with-numbered : (base : Text) (n : ℕ) → starts_with (numbered base n) base ≡ true
unfolding numbered
starts_with-numbered base n = starts_with-append base (45 ∷ digits (suc n) n)

starts_with_self : (base : Text) → starts_with base base ≡ true
unfolding starts_with
starts_with_self [] = refl
starts_with_self (b ∷ base) = ground (arith, starts_with_self base)

Nat-cases : (n : ℕ) → (n ≡ 0) ⊎ ((m : ℕ) × (n ≡ suc m))
Nat-cases zero = inl refl
Nat-cases (suc m) = inr (m, refl)

add_zero : (n : ℕ) → n + 0 ≡ n
add_zero n = omega arith

add_suc : (n m : ℕ) → n + suc m ≡ suc n + m
add_suc n m = omega arith

module _ (is_taken : Text → Bool) (base : Text) where
  -- A slug that may be given out: free, and the base or the base with a suffix.
  abbrev pub IsFree : Text → Type 0
  IsFree slug = (is_taken slug ≡ false) × (starts_with slug base ≡ true)

  first_free-IsFree :
      (turns counter : ℕ) (slug : Text)
      → first_free is_taken base turns counter ≡ some slug
      → IsFree slug
  unfolding first_free
  first_free-IsFree zero counter slug h = cc
  first_free-IsFree (suc turns) counter slug h =
      elim (Bool-cases (is_taken (numbered base counter))) [
        | inl e ↦ first_free-IsFree turns (suc counter) slug (rw e at h)
        | inr e ↦
            let same : some (numbered base counter) ≡ some slug = rw e at h in
            let q : numbered base counter ≡ slug = ground arith in
            let free : IsFree (numbered base counter) = (e, starts_with-numbered base counter) in
            rw q at free
      ]

  first_free_found :
      (turns counter k : ℕ)
      → k < turns
      → is_taken (numbered base (counter + k)) ≡ false
      → (slug : Text) × (first_free is_taken base turns counter ≡ some slug)
  unfolding first_free
  first_free_found zero counter k l h = absurd (omega arith)
  first_free_found (suc turns) counter k l h =
      elim (Bool-cases (is_taken (numbered base counter))) [
        | inr e ↦ (numbered base counter, rw e refl)
        | inl e ↦ elim (Nat-cases k) [
          | inl z ↦ cc (rw (z, add_zero counter) at h, e)
          | inr (k', q) ↦
              let (slug, r) =
                first_free_found turns (suc counter) k' (omega arith)
                  (rw (q, add_suc counter k') at h) in
              (slug, rw e r)
        ]
      ]

  -- If one of the numbers that the last loop tries is free, the call ends, with a slug that is free and
  -- that starts with the base.
  ensure_unique_slug-IsFree :
      (seed offsets offset : ℕ)
      → offset < offsets
      → is_taken (numbered base (seed + offset)) ≡ false
      → (slug : Text) × (ensure_unique_slug is_taken seed offsets base ≡ some slug) × IsFree slug
  unfolding ensure_unique_slug
  ensure_unique_slug-IsFree seed offsets offset l h = elim (Bool-cases (is_taken base)) [
    | inr e ↦ (base, rw e refl, (e, starts_with_self base))
    | inl e ↦ elim (Option-cases (first_free is_taken base 998 2)) [
      | inr (slug, q) ↦ (slug, rw (e, q) refl, first_free-IsFree 998 2 slug q)
      | inl q ↦
          let (slug, r) = first_free_found offsets seed offset l h in
          (slug, rw (e, q) r, first_free-IsFree offsets seed slug r)
    ]
  ]
