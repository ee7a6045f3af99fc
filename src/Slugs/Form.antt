-- ===== src/Slugs/Form.antt =====
-- The form of the slugs that generate_slug gives.
pub mod Dashes
use arcology.Base.{
  ℕ, zero, suc, ◌≤◌, ◌≡◌, inl, inr, refl, ap, ◌∙◌, Bool, true, false, not, ◌&&◌, ◌||◌, [], ◌∷◌,
  ◌++◌, select, all, take, length, ltb, length-take, if◌then◌else◌, arith, Bool-cases,
}
use arcology.Base.Text.{Text, codes, is_empty, drop_while, rstrip}
use arcology.Slugs.{is_slug_char, is_dash, collapse, replace_separators, generate_slug}
use arcology.Slugs.Form.Dashes.{
  starts_dash, ends_dash, no_double, rstrip_clean, rstrip_keeps, drop_while_lem, take_lem,
  collapse_lem,
}

all-select : (s : Text) → all is_slug_char (select is_slug_char s) ≡ true
all-select [] = refl
all-select (c ∷ s) = elim (Bool-cases (is_slug_char c)) [
  | inl e ↦ rw e (ground (arith, all-select s))
  | inr e ↦ rw e (all-select s)
]

-- What a slug looks like: letters, digits and single dashes, with none at either end.
abbrev pub is_slug : Text → Bool
is_slug s =
    not (is_empty s)
    && all is_slug_char s
    && no_double s
    && not (starts_dash s)
    && not (ends_dash s)

cut : ℕ → Text → Text
cut max_length s = if ltb max_length (length s) then rstrip is_dash (take max_length s) else s

cut_lem :
    (max_length : ℕ) (s : Text)
    → all is_slug_char s ≡ true
    → no_double s ≡ true
    → starts_dash s ≡ false
    → ends_dash s ≡ false
    → (is_empty (cut max_length s) || is_slug (cut max_length s) ≡ true)
      × (length (cut max_length s) ≤ max_length)
unfolding cut
cut_lem max_length s a d f l = elim (Bool-cases (ltb max_length (length s))) [
  | inl e ↦
      let (first, chars, double) = take_lem max_length s in
      let (last, short, first') = rstrip_clean (take max_length s) in
      let (chars', double') = rstrip_keeps (take max_length s) in
      rw e (ground arith, omega (arith, length-take max_length s))
  | inr e ↦ rw e (ground arith, ground arith)
]

safe_text : Text → Text
safe_text s = select is_slug_char (replace_separators s)

untitled : Text
untitled = codes "untitled"

slug_of :
    (max_length : ℕ) (s : Text)
    → (is_empty (cut max_length (rstrip is_dash (drop_while is_dash (collapse (safe_text s)))))
          || is_slug (cut max_length (rstrip is_dash (drop_while is_dash (collapse (safe_text s)))))
        ≡ true)
      × (length (cut max_length (rstrip is_dash (drop_while is_dash (collapse (safe_text s)))))
          ≤ max_length)
unfolding safe_text
slug_of max_length s =
    let a = all-select (replace_separators s) in
    let (first, double, chars) = collapse_lem (safe_text s) in
    let (first', chars', double') = drop_while_lem (collapse (safe_text s)) in
    let (last, short, first'') = rstrip_clean (drop_while is_dash (collapse (safe_text s))) in
    let (chars'', double'') = rstrip_keeps (drop_while is_dash (collapse (safe_text s))) in
    cut_lem max_length (rstrip is_dash (drop_while is_dash (collapse (safe_text s)))) (ground arith)
      (ground arith) (ground arith) last

-- `slug if slug else 'untitled'`, after the test of the text.
pick : Bool → Text → Text
pick blank s = if blank then untitled else if is_empty s then untitled else s

generate_slug-pick :
    (lower : Text → Text) (max_length : ℕ) (text : Text)
    → generate_slug lower max_length text
      ≡ pick
          (is_empty text)
          (cut max_length (rstrip is_dash (drop_while is_dash (collapse (safe_text (lower text))))))
unfolding generate_slug cut safe_text pick untitled
generate_slug-pick lower max_length text = refl

untitled_lem : (is_slug untitled ≡ true) × (length untitled ≡ 8)
unfolding untitled is_slug_char is_dash
untitled_lem = (refl, refl)

right_of : (a b : Bool) → a || b ≡ true → a ≡ false → b ≡ true
right_of a b h e = ground arith

pick_full :
    (max_length : ℕ) (s : Text)
    → is_empty s ≡ false
    → is_slug s ≡ true
    → length s ≤ max_length
    → (is_slug (pick false s) ≡ true) × (length (pick false s) ≤ max_length)
unfolding pick
pick_full max_length [] e h l = cc
pick_full max_length (c ∷ s) e h l = (h, l)

pick_lem :
    (blank : Bool) (max_length : ℕ) (s : Text)
    → 8 ≤ max_length
    → is_empty s || is_slug s ≡ true
    → length s ≤ max_length
    → (is_slug (pick blank s) ≡ true) × (length (pick blank s) ≤ max_length)
unfolding pick
pick_lem true max_length s room form short = let (u, l) = untitled_lem in (u, omega arith)
pick_lem false max_length s room form short = elim (Bool-cases (is_empty s)) [
  | inl e ↦ let (u, l) = untitled_lem in rw e (u, omega arith)
  | inr e ↦ pick_full max_length s e (right_of (is_empty s) (is_slug s) form e) short
]

-- Whatever the text and whatever `str.lower` makes of it, the slug is a sequence of the characters
-- a-z, 0-9 and single dashes, is not empty, does not begin or end with a dash, and is no longer than the
-- limit, if the limit leaves room for "untitled".
pub generate_slug_lem :
    (lower : Text → Text) (max_length : ℕ) (text : Text)
    → 8 ≤ max_length
    → (is_slug (generate_slug lower max_length text) ≡ true)
      × (length (generate_slug lower max_length text) ≤ max_length)
generate_slug_lem lower max_length text room =
    let (form, short) = slug_of max_length (lower text) in
    rw (generate_slug-pick lower max_length text) (
      pick_lem (is_empty text) max_length
        (cut max_length (rstrip is_dash (drop_while is_dash (collapse (safe_text (lower text))))))
        room form short)
