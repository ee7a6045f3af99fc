-- ===== src/Carve/Whole.antt =====
-- The handler as a whole: from what the detectors find to what it does with it.
use arcology.Base.{
  ℕ, suc, ◌+◌, ◌<◌, ◌≡◌, refl, Bool, true, false, ◌||◌, Option, none, some, List, [], ◌∷◌, ◌++◌,
  map, length, any, all, ltb, leb, arith, if◌then◌else◌, Bool-cases, inl, inr, lt→ltb, and-eq_true,
  if_cases,
}
use arcology.Base.Text.{Text}
use arcology.Base.Int.{ℤ, pos, negsuc, ltb_ℤ}
use arcology.Disc.{Bytes, Image, Detection, not_detected, detected}
use arcology.Disc.Fat.{Fat}
use arcology.Carve.{
  Found, end_byte, Gap, GapLabel, between, post_partition, nexus_firmware, pre_partition, gap_to,
  gaps_after, insert_part, sort_parts, gaps_of_sorted, unpartitioned, offset_index,
  should_register_derived, choose_partitions, is_nexus,
}
use arcology.Carve.Cover.{in_gap, in_partition, and-of, unpartitioned_covers}
use arcology.Carve.Effects.{gap_effects, derived_effects, original_effects, process_partitions}
use arcology.Disc.Schemes.{detect_acorn_partitions}
use arcology.Carve.Acorn.{choose_partitions_nonneg}
use arcology.Carve.Restore.{
  keeps, is_nonneg, ends_nonneg, probe_passes, partitions_kept, after_kept, gaps_kept,
}

abbrev starts_nonneg : Gap → Bool
starts_nonneg g = is_nonneg g.start

gap_to_nonneg :
    (label : GapLabel) (e : ℤ) (c : ℕ)
    → is_nonneg e ≡ true
    → all starts_nonneg (gap_to label e c) ≡ true
unfolding gap_to
gap_to_nonneg label e c h =
    if_cases (λ gs. all starts_nonneg gs ≡ true) (ltb_ℤ e (pos c)) _ [] (λ k. rw h refl) (λ k. refl)

all-append :
    (p : Gap → Bool) (xs ys : List Gap)
    → all p xs ≡ true
    → all p ys ≡ true
    → all p (xs ++ ys) ≡ true
all-append p [] ys h k = k
all-append p (x ∷ xs) ys h k =
    let (one, more) = and-eq_true (p x) (all p xs) h in
    and-of (p x) (all p (xs ++ ys)) one (all-append p xs ys more k)

gaps_after_nonneg :
    (image : Image) (p : Found) (ps : List Found)
    → all ends_nonneg (p ∷ ps) ≡ true
    → all starts_nonneg (gaps_after image p ps) ≡ true
unfolding gaps_after
gaps_after_nonneg image p [] h =
    gap_to_nonneg post_partition (end_byte p) image.size (and-eq_true (ends_nonneg p) true h).0
gaps_after_nonneg image p (q ∷ qs) h =
    let (one, more) = and-eq_true (ends_nonneg p) (all ends_nonneg (q ∷ qs)) h in
    all-append starts_nonneg (gap_to (between p.index q.index) (end_byte p) q.start_byte)
      (gaps_after image q qs)
      (gap_to_nonneg (between p.index q.index) (end_byte p) q.start_byte one)
      (gaps_after_nonneg image q qs more)

module _ (f : Found → Bool) where
  all-insert_part :
      (p : Found) (ps : List Found) → f p ≡ true → all f ps ≡ true → all f (insert_part p ps) ≡ true
  unfolding insert_part
  all-insert_part p [] h k = and-of (f p) true h refl
  all-insert_part p (q ∷ qs) h k =
      let (one, more) = and-eq_true (f q) (all f qs) k in
      if_cases (λ xs. all f xs ≡ true) (leb p.start_byte q.start_byte) (p ∷ q ∷ qs)
        (q ∷ insert_part p qs) (λ e. and-of (f p) (all f (q ∷ qs)) h k)
        (λ e. and-of (f q) (all f (insert_part p qs)) one (all-insert_part p qs h more))

  all-sort_parts : (ps : List Found) → all f ps ≡ true → all f (sort_parts ps) ≡ true
  unfolding sort_parts
  all-sort_parts [] h = refl
  all-sort_parts (p ∷ ps) h =
      let (one, more) = and-eq_true (f p) (all f ps) h in
      all-insert_part p (sort_parts ps) one (all-sort_parts ps more)

sorted_nonneg :
    (image : Image) (firmware : Bool) (ps : List Found)
    → all ends_nonneg ps ≡ true
    → all starts_nonneg (gaps_of_sorted image firmware ps) ≡ true
unfolding gaps_of_sorted
sorted_nonneg image firmware [] h = refl
sorted_nonneg image firmware (p ∷ ps) h =
    let label = if firmware then nexus_firmware else pre_partition in
    all-append starts_nonneg (gap_to label (pos 0) p.start_byte) (gaps_after image p ps)
      (gap_to_nonneg label (pos 0) p.start_byte refl) (gaps_after_nonneg image p ps h)

unpartitioned_nonneg :
    (image : Image) (firmware : Bool) (ps : List Found)
    → all ends_nonneg ps ≡ true
    → all starts_nonneg (unpartitioned image firmware ps) ≡ true
unfolding unpartitioned
unpartitioned_nonneg image firmware ps h =
    sorted_nonneg image firmware (sort_parts ps) (all-sort_parts ends_nonneg ps h)

derived_kept :
    (image : Image) (registers : Found → Bool) (raises : Found → Bytes → Bool) (firmware : Bool)
    (b : ℕ) (ps : List Found)
    → b < image.size
    → 0 < length ps
    → all ends_nonneg ps ≡ true
    → all (probe_passes image registers raises) ps ≡ true
    → any (keeps b (image.byte b)) (derived_effects image registers raises firmware ps) ≡ true
unfolding derived_effects
derived_kept image registers raises firmware b ps h k n pass =
    let gaps = gap_effects image registers raises (unpartitioned image firmware ps) in
    elim (Bool-cases (any (in_partition b) ps)) [
      | inl e ↦ partitions_kept image b h registers raises ps gaps pass e
      | inr e ↦
          let rest : any (in_gap b) (unpartitioned image firmware ps) ≡ true =
            rw e at (unpartitioned_covers image firmware b ps h k) in
          after_kept image b h registers raises ps gaps pass (
            gaps_kept image b h registers raises (unpartitioned image firmware ps)
              (unpartitioned_nonneg image firmware ps n) rest)
    ]

below_end : (z : ℤ) (n b : ℕ) → b < n → ltb_ℤ z (pos n) ≡ false → ltb_ℤ (pos b) z ≡ true
below_end (pos a) n b h k = ground (arith, k)
below_end (negsuc a) n b h k = absurd (cc (k, lt→ltb (0 + 0) (n + suc a) (omega arith)))

or-eq_false : (a b : Bool) → (a || b) ≡ false → (a ≡ false) × (b ≡ false)
or-eq_false true b h = absurd (cc h)
or-eq_false false b h = (refl, h)

-- A partition that is not registered for itself is the whole disc.
original_kept :
    (image : Image) (is_compressed : Bool) (b : ℕ) (p : Found)
    → b < image.size
    → should_register_derived image (p ∷ []) ≡ false
    → any (keeps b (image.byte b)) (original_effects is_compressed (p ∷ [])) ≡ true
unfolding should_register_derived original_effects
original_kept image is_compressed b p h k =
    let (from, to) = or-eq_false (ltb 0 p.start_byte) (ltb_ℤ (end_byte p) (pos image.size)) k in
    let inside : in_partition b p ≡ true =
      and-of (leb p.start_byte b) (ltb_ℤ (pos b) (end_byte p)) (ground (arith, from))
        (below_end (end_byte p) image.size b h to) in
    probe_kept is_compressed inside
  where
    probe_kept :
        (c : Bool)
        → in_partition b p ≡ true
        → any (keeps b (image.byte b)) (original_effects c (p ∷ [])) ≡ true
    probe_kept true e = rw e refl
    probe_kept false e = rw e refl

offset_nonneg :
    (base : ℕ) (ps : List Found)
    → all ends_nonneg ps ≡ true
    → all ends_nonneg (map (offset_index base) ps) ≡ true
unfolding offset_index
offset_nonneg base [] h = refl
offset_nonneg base (p ∷ ps) h =
    let (one, more) = and-eq_true (ends_nonneg p) (all ends_nonneg ps) h in
    and-of (ends_nonneg p) (all ends_nonneg (map (offset_index base) ps)) one
      (offset_nonneg base ps more)

process_kept :
    (image : Image) (registers : Found → Bool) (raises : Found → Bytes → Bool)
    (firmware is_compressed : Bool) (base b : ℕ) (ps : List Found)
    → b < image.size
    → 0 < length ps
    → all ends_nonneg ps ≡ true
    → all (probe_passes image registers raises) (map (offset_index base) ps) ≡ true
    → any
        (keeps b (image.byte b))
        (process_partitions image registers raises firmware is_compressed base ps)
      ≡ true
unfolding process_partitions should_register_derived
process_kept image registers raises firmware is_compressed base b [] h k n pass =
    absurd (omega (arith, k))
process_kept image registers raises firmware is_compressed base b (p ∷ []) h k n pass =
    let q = offset_index base p in
    if_cases (λ es. any (keeps b (image.byte b)) es ≡ true) (should_register_derived image (q ∷ []))
      (derived_effects image registers raises firmware (q ∷ []))
      (original_effects is_compressed (q ∷ []))
      (λ e.
        derived_kept image registers raises firmware b (q ∷ []) h (omega arith)
          (offset_nonneg base (p ∷ []) n) pass)
      (λ e. original_kept image is_compressed b q h e)
process_kept image registers raises firmware is_compressed base b (p ∷ q ∷ ps) h k n pass =
    derived_kept image registers raises firmware b (map (offset_index base) (p ∷ q ∷ ps)) h
      (omega arith) (offset_nonneg base (p ∷ q ∷ ps) n) pass

-- Whichever detector is believed, there is a partition.
chosen :
    (image : Image) (acorn : Detection) (adfs : Option Text) (sfdisk : List Found) (hint : Text)
    (fat : Option Fat)
    → 0 < length (choose_partitions image acorn adfs sfdisk hint fat)
unfolding choose_partitions
chosen image (detected scheme header (p ∷ ps)) adfs sfdisk hint fat = omega arith
chosen image (detected scheme header []) adfs sfdisk hint fat = omega arith
chosen image not_detected (some label) sfdisk hint fat = omega arith
chosen image not_detected none [] hint fat = omega arith
chosen image not_detected none (p ∷ ps) hint fat = omega arith

-- Nothing of a disc is lost in partition detection, unless the protection probe of a partition that the API has taken,
-- or the request that follows from the probe, raises, or sfdisk lists a partition that ends below byte 0. Whatever Acorn scheme is found on the disc, whatever the other
-- detectors find, in whatever order and however the partitions overlap, each byte of the disc is in an image of a
-- partition or of a gap that is handed to the API, or in a gap whose fill byte is noted and is that byte, or in a
-- partition that is probed on the original.
pub process_partitions_restores :
    (image : Image) (adfs : Option Text) (sfdisk : List Found) (hint : Text) (fat : Option Fat)
    (registers : Found → Bool) (raises : Found → Bytes → Bool) (is_compressed : Bool) (base b : ℕ)
    → b < image.size
    → all ends_nonneg sfdisk ≡ true
    → all (probe_passes image registers raises) (
        map
          (offset_index base)
          (choose_partitions image (detect_acorn_partitions image) adfs sfdisk hint fat))
      ≡ true
    → any (keeps b (image.byte b)) (
        process_partitions image registers raises
          (is_nexus (detect_acorn_partitions image))
          is_compressed
          base
          (choose_partitions image (detect_acorn_partitions image) adfs sfdisk hint fat))
      ≡ true
process_partitions_restores image adfs sfdisk hint fat registers raises is_compressed base b h n
      pass =
    let acorn = detect_acorn_partitions image in
    process_kept image registers raises (is_nexus acorn) is_compressed base b
      (choose_partitions image acorn adfs sfdisk hint fat) h
      (chosen image acorn adfs sfdisk hint fat)
      (choose_partitions_nonneg image adfs sfdisk hint fat n) pass
