-- ===== src/Disc/Label/Laws.antt =====
-- Which entry of a root directory the volume label is taken from.
use mathlib.Core.List.{append_assoc}
use arcology.Base.{
  ℕ, zero, suc, ◌+◌, ◌≤◌, ◌≡◌, ◌≢◌, ◌⊎◌, refl, ap, ◌∙◌, true, false, Option, none, some, List, [],
  ◌∷◌, ◌++◌, length, length-append, take, drop, All, arith,
}
use arcology.Base.Text.{Text}
use arcology.Disc.{Bytes, byte_at, slice, bit}
use arcology.Disc.Label.{is_last, or_rest, decode_fat_label, entry_label, root_label}

take-append_exact : (n : ℕ) (xs ys : Bytes) → length xs ≡ n → take n (xs ++ ys) ≡ xs
take-append_exact zero [] ys h = refl
take-append_exact zero (x ∷ xs) ys h = absurd (omega (arith, h))
take-append_exact (suc n) [] ys h = absurd (omega (arith, h))
take-append_exact (suc n) (x ∷ xs) ys h =
    ap (λ l. x ∷ l) (take-append_exact n xs ys (omega (arith, h)))

drop-append_exact : (n : ℕ) (xs ys : Bytes) → length xs ≡ n → drop n (xs ++ ys) ≡ ys
drop-append_exact zero [] ys h = refl
drop-append_exact zero (x ∷ xs) ys h = absurd (omega (arith, h))
drop-append_exact (suc n) [] ys h = absurd (omega (arith, h))
drop-append_exact (suc n) (x ∷ xs) ys h = drop-append_exact n xs ys (omega (arith, h))

abbrev pub join_entries : List Bytes → Bytes
join_entries [] = []
join_entries (e ∷ es) = e ++ join_entries es

module _ (decode_cp850 upper : Text → Text) where
  -- An entry of 32 bytes that is not the last: deleted, a part of a long name, not a volume, a directory, or without a
  -- name in its first 11 bytes.
  abbrev pub IsSkipped : Bytes → Type 0
  IsSkipped e =
      (length e ≡ 32)
      × (byte_at e 0 ≢ 0)
      × ((byte_at e 0 ≡ 0xe5)
          ⊎ (byte_at e 11 ≡ 0x0f)
          ⊎ (bit (byte_at e 11) 3 ≡ false)
          ⊎ (bit (byte_at e 11) 4 ≡ true)
          ⊎ (decode_fat_label decode_cp850 upper (slice e 0 11) ≡ none))

  -- An entry of 32 bytes, neither the last nor deleted nor a part of a long name, with the attribute of a volume and
  -- without that of a directory, and with this name in its first 11 bytes.
  abbrev pub IsLabelled : Text → Bytes → Type 0
  IsLabelled label e =
      (length e ≡ 32)
      × (byte_at e 0 ≢ 0)
      × (byte_at e 0 ≢ 0xe5)
      × (byte_at e 11 ≢ 0x0f)
      × (bit (byte_at e 11) 3 ≡ true)
      × (bit (byte_at e 11) 4 ≡ false)
      × (decode_fat_label decode_cp850 upper (slice e 0 11) ≡ some label)

  entry_label-skipped : (e : Bytes) → IsSkipped e → entry_label decode_cp850 upper e ≡ none
  unfolding entry_label
  entry_label-skipped e (size, live, why) = ground arith

  entry_label-labelled :
      (label : Text) (e : Bytes)
      → IsLabelled label e
      → entry_label decode_cp850 upper e ≡ some label
  unfolding entry_label
  entry_label-labelled label e v = ground arith

  is_live : (e : Bytes) → byte_at e 0 ≢ 0 → is_last e ≡ false
  is_live e h = ground arith

  all_bytes :
      (e : Bytes) (es : List Bytes) (rest : Bytes)
      → length (join_entries (e ∷ es) ++ rest) ≡ length e + length (join_entries es ++ rest)
  all_bytes e es rest =
      ap length (append_assoc e (join_entries es) rest) ∙ length-append e (join_entries es ++ rest)

  step :
      (fuel : ℕ) (e rest : Bytes) (o : Option Text)
      → length e ≡ 32
      → is_last e ≡ false
      → entry_label decode_cp850 upper e ≡ o
      → root_label decode_cp850 upper (suc fuel) (e ++ rest)
        ≡ or_rest o (root_label decode_cp850 upper fuel rest)
  unfolding root_label
  step fuel e rest o size live label =
      rw (take-append_exact 32 e rest size, drop-append_exact 32 e rest size, size, live, label)
        refl

  -- The label is that of the first volume entry with a name, whatever comes after it: deleted entries, parts of long
  -- names, files, directories (also one with the attribute of a volume) and volumes without a name before it are passed
  -- over, and one turn for each byte is enough.
  pub root_label-first :
      (fuel : ℕ) (skipped : List Bytes) (entry rest : Bytes) (label : Text)
      → All IsSkipped skipped
      → IsLabelled label entry
      → length (join_entries skipped ++ (entry ++ rest)) ≤ fuel
      → root_label decode_cp850 upper fuel (join_entries skipped ++ (entry ++ rest)) ≡ some label
  root_label-first zero [] entry rest label h v k =
      absurd (omega (arith, length-append entry rest, v.0, k))
  root_label-first (suc fuel) [] entry rest label h v k =
      step fuel entry rest (some label) v.0 (is_live entry v.1) (entry_label-labelled label entry v)
  root_label-first zero (e ∷ es) entry rest label h v k =
      absurd (omega (arith, all_bytes e es (entry ++ rest), h.0.0, k))
  root_label-first (suc fuel) (e ∷ es) entry rest label h v k =
      let after = join_entries es ++ (entry ++ rest) in
      let shorter = all_bytes e es (entry ++ rest) in
      ap (root_label decode_cp850 upper (suc fuel))
        (append_assoc e (join_entries es) (entry ++ rest))
      ∙ step fuel e after none h.0.0 (is_live e h.0.1) (entry_label-skipped e h.0)
      ∙ root_label-first fuel es entry rest label h.1 v (omega (arith, shorter, h.0.0, k))
