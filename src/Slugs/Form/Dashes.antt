-- ===== src/Slugs/Form/Dashes.antt =====
-- What the string operations of generate_slug do to dashes and to the characters of a slug.
use mathlib.Core.List.{reverse, reverse-cons, reverse-append}
use arcology.Base.{
  ℕ, zero, suc, ◌≤◌, ◌≡◌, inl, inr, refl, ap, ◌∙◌, Bool, true, false, not, ◌&&◌, ◌||◌, [], ◌∷◌,
  ◌++◌, all, take, length, if◌then◌else◌, arith, Bool-cases,
}
use arcology.Base.Text.{Text, is_empty, drop_while, rstrip}
use arcology.Slugs.{is_slug_char, is_dash, collapse}

abbrev pub starts_dash : Text → Bool
starts_dash [] = false
starts_dash (c ∷ cs) = is_dash c

abbrev pub ends_dash : Text → Bool
ends_dash [] = false
ends_dash (c ∷ cs) = if is_empty cs then is_dash c else ends_dash cs

abbrev pub no_double : Text → Bool
no_double [] = true
no_double (c ∷ cs) = not (is_dash c && starts_dash cs) && no_double cs

drop_while-last :
    (p : ℕ → Bool) (xs : Text) (c : ℕ)
    → drop_while p (xs ++ (c ∷ [])) ≡ (
        if is_empty (drop_while p xs)
        then (if p c then [] else c ∷ [])
        else drop_while p xs ++ (c ∷ []))
unfolding drop_while
drop_while-last p [] c = refl
drop_while-last p (x ∷ xs) c = elim (Bool-cases (p x)) [
  | inl e ↦ rw e (drop_while-last p xs c)
  | inr e ↦ rw e refl
]

reverse_full : (c : ℕ) (xs : Text) → is_empty (reverse (c ∷ xs)) ≡ false
reverse_full c xs = rw (reverse-cons c xs) (go (reverse xs))
  where
    go : (ys : Text) → is_empty (ys ++ (c ∷ [])) ≡ false
    go [] = refl
    go (y ∷ ys) = refl

rstrip-step :
    (p : ℕ → Bool) (c : ℕ) (xs : Text)
    → reverse (if is_empty xs then (if p c then [] else c ∷ []) else xs ++ (c ∷ []))
      ≡ (if is_empty (reverse xs) && p c then [] else c ∷ reverse xs)
rstrip-step p c [] = elim (Bool-cases (p c)) [ inl e ↦ rw e refl | inr e ↦ rw e refl ]
rstrip-step p c (x ∷ xs) = rw (reverse_full x xs) (reverse-append (x ∷ xs) (c ∷ []))

rstrip-cons :
    (p : ℕ → Bool) (c : ℕ) (s : Text)
    → rstrip p (c ∷ s) ≡ (if is_empty (rstrip p s) && p c then [] else c ∷ rstrip p s)
unfolding rstrip
rstrip-cons p c s =
    ap (λ r. reverse (drop_while p r)) (reverse-cons c s)
    ∙ ap reverse (drop_while-last p (reverse s) c)
    ∙ rstrip-step p c (drop_while p (reverse s))

rstrip-nil : (p : ℕ → Bool) → rstrip p [] ≡ []
unfolding rstrip drop_while
rstrip-nil p = refl

pub rstrip_clean :
    (s : Text)
    → (ends_dash (rstrip is_dash s) ≡ false)
      × (length (rstrip is_dash s) ≤ length s)
      × (not (starts_dash (rstrip is_dash s)) || starts_dash s ≡ true)
rstrip_clean [] = rw (rstrip-nil is_dash) (refl, omega arith, refl)
rstrip_clean (c ∷ s) =
    rw (rstrip-cons is_dash c s) (elim (Bool-cases (is_empty (rstrip is_dash s) && is_dash c)) [
      | inl e ↦ rw e (refl, omega arith, refl)
      | inr e ↦
          let (last, short, first) = rstrip_clean s in
          rw e (ground arith, omega arith, ground arith)
    ])

pub rstrip_keeps :
    (s : Text)
    → (not (all is_slug_char s) || all is_slug_char (rstrip is_dash s) ≡ true)
      × (not (no_double s) || no_double (rstrip is_dash s) ≡ true)
rstrip_keeps [] = rw (rstrip-nil is_dash) (refl, refl)
rstrip_keeps (c ∷ s) =
    rw (rstrip-cons is_dash c s) (elim (Bool-cases (is_empty (rstrip is_dash s) && is_dash c)) [
      | inl e ↦ rw e (ground arith, ground arith)
      | inr e ↦
          let (chars, double) = rstrip_keeps s in
          let (last, short, first) = rstrip_clean s in rw e (ground arith, ground arith)
    ])

pub drop_while_lem :
    (s : Text)
    → (starts_dash (drop_while is_dash s) ≡ false)
      × (not (all is_slug_char s) || all is_slug_char (drop_while is_dash s) ≡ true)
      × (not (no_double s) || no_double (drop_while is_dash s) ≡ true)
unfolding drop_while
drop_while_lem [] = (refl, refl, refl)
drop_while_lem (c ∷ s) = elim (Bool-cases (is_dash c)) [
  | inl e ↦
      let (first, chars, double) = drop_while_lem s in rw e (first, ground arith, ground arith)
  | inr e ↦ rw e (e, ground arith, ground arith)
]

pub take_lem :
    (n : ℕ) (s : Text)
    → (not (starts_dash (take n s)) || starts_dash s ≡ true)
      × (not (all is_slug_char s) || all is_slug_char (take n s) ≡ true)
      × (not (no_double s) || no_double (take n s) ≡ true)
take_lem zero s = (refl, ground arith, ground arith)
take_lem (suc n) [] = (refl, refl, refl)
take_lem (suc n) (c ∷ s) =
    let (first, chars, double) = take_lem n s in (ground arith, ground arith, ground arith)

pub collapse_lem :
    (s : Text)
    → (starts_dash (collapse s) ≡ starts_dash s)
      × (no_double (collapse s) ≡ true)
      × (not (all is_slug_char s) || all is_slug_char (collapse s) ≡ true)
unfolding collapse
collapse_lem [] = (refl, refl, refl)
collapse_lem (c ∷ []) = (refl, ground arith, ground arith)
collapse_lem (c ∷ d ∷ s) =
    let (first, double, chars) = collapse_lem (d ∷ s) in
    elim (Bool-cases (is_dash c && is_dash d)) [
      | inl e ↦ rw e (ground arith, double, ground arith)
      | inr e ↦ rw e (refl, ground arith, ground arith)
    ]
