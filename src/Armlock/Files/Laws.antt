-- ===== src/Armlock/Files/Laws.antt =====
-- That the loop which puts a file together may stop early.
use mathlib.Core.Path.{subst}
use mathlib.Core.List.{append-nil, append_assoc}
use arcology.Base.{
  ℕ, zero, suc, ◌+◌, ◌≤◌, ◌<◌, ◌≡◌, ◌⊎◌, inl, inr, refl, sym, ap, ◌∙◌, false, List, [], ◌∷◌, ◌++◌,
  length, length-append, length-drop, take, drop, ltb, arith, if_cases, ltb→lt,
}
use arcology.Disc.{Bytes, Image}
use arcology.Armlock.{read_between}
use arcology.Armlock.Zones.{Fragment}
use arcology.Armlock.Files.{fragment_stop, join_fragments, file_part}

-- All the bytes of the fragments.
abbrev pub whole_object : Image → List Fragment → Bytes
whole_object image [] = []
whole_object image (f ∷ fs) =
    read_between image f.0 (fragment_stop image f) ++ whole_object image fs

-- What a stop at `max_bytes` gives of an object: all of it, or a part from its start that is longer than that.
abbrev IsStart : ℕ → Bytes → Bytes → Type 0
IsStart max_bytes part whole =
    (part ≡ whole) ⊎ ((max_bytes < length part) × ((rest : Bytes) × (part ++ rest ≡ whole)))

join_fragments-IsStart :
    (image : Image) (max_bytes : ℕ) (obj : Bytes) (fs : List Fragment)
    → IsStart max_bytes (join_fragments image max_bytes obj fs) (obj ++ whole_object image fs)
unfolding join_fragments
join_fragments-IsStart image max_bytes obj [] = inl (sym (append-nil obj))
join_fragments-IsStart image max_bytes obj (f ∷ fs) =
    let piece = read_between image f.0 (fragment_stop image f) in
    let longer = obj ++ piece in
    let same = append_assoc obj piece (whole_object image fs) in
    if_cases (λ part. IsStart max_bytes part (obj ++ (piece ++ whole_object image fs)))
      (ltb max_bytes (length longer)) longer (join_fragments image max_bytes longer fs)
      (λ e. inr (ltb→lt max_bytes (length longer) e, (whole_object image fs, same)))
      (λ e.
        subst (IsStart max_bytes (join_fragments image max_bytes longer fs)) same
          (join_fragments-IsStart image max_bytes longer fs))

drop-append : (s : ℕ) (xs ys : Bytes) → s ≤ length xs → drop s (xs ++ ys) ≡ drop s xs ++ ys
drop-append zero xs ys h = refl
drop-append (suc s) [] ys h = absurd (omega (arith, h))
drop-append (suc s) (x ∷ xs) ys h = drop-append s xs ys (omega (arith, h))

take-append : (n : ℕ) (xs ys : Bytes) → n ≤ length xs → take n (xs ++ ys) ≡ take n xs
take-append zero xs ys h = refl
take-append (suc n) [] ys h = absurd (omega (arith, h))
take-append (suc n) (x ∷ xs) ys h = ap (λ l. x ∷ l) (take-append n xs ys (omega (arith, h)))

not_short : (a b : ℕ) → b ≤ a → ltb a b ≡ false
not_short a b h = ground arith

file_part-append :
    (start n : ℕ) (xs ys : Bytes)
    → start + n ≤ length xs
    → file_part start n (xs ++ ys) ≡ file_part start n xs
unfolding file_part
file_part-append start n xs ys h =
    let long = not_short (length xs) (start + n) h in
    let longer =
      not_short (length (xs ++ ys)) (start + n) (omega (arith, length-append xs ys, h)) in
    rw (long, longer)
      (ap (take n) (drop-append start xs ys (omega (arith, h)))
        ∙ take-append n (drop start xs) ys (omega (arith, length-drop start xs, h)))

-- The file that a chain of fragments holds is its part of all their bytes, although the loop stops as soon as it
-- has more than the cap, when the file ends within the cap.
file_part-join_fragments :
    (image : Image) (max_bytes start file_length : ℕ) (fs : List Fragment)
    → start + file_length ≤ max_bytes
    → file_part start file_length (join_fragments image max_bytes [] fs)
      ≡ file_part start file_length (whole_object image fs)
file_part-join_fragments image max_bytes start file_length fs h =
    elim (join_fragments-IsStart image max_bytes [] fs) [
      | inl e ↦ ap (file_part start file_length) e
      | inr l ↦
          sym (
            file_part-append start file_length (join_fragments image max_bytes [] fs) l.1.0
              (omega (arith, l.0, h)))
          ∙ ap (file_part start file_length) l.1.1
    ]
