-- ===== src/Disc/Ics/Laws.antt =====
-- What the loop over the ICS table finds.
use arcology.Base.{
  ℕ, zero, suc, ◌+◌, ◌*◌, ◌≤◌, ◌≡◌, inl, inr, refl, false, List, [], ◌∷◌, length, ltb, leb, ◌==◌,
  arith, Bool-cases, All,
}
use arcology.Base.Int.{pos_part, neg_part}
use arcology.Disc.{Bytes, Image, Partition, u32, bit}
use arcology.Disc.Ics.{ics_partition, ics_entries}

-- The partition ends in the image, and its size is below 0 exactly when it starts past the end.
abbrev pub IsClamped : Image → Partition → Type 0
IsClamped image p =
    (p.start_byte + pos_part p.size_bytes ≤ image.size + neg_part p.size_bytes)
    × (ltb 0 (neg_part p.size_bytes) ≡ ltb image.size p.start_byte)

ics_partition-IsClamped :
    (image : Image) (count start_sector size_sectors : ℕ)
    → (size_sectors == 0) ≡ false
    → IsClamped image (ics_partition image count start_sector size_sectors)
unfolding ics_partition
ics_partition-IsClamped image count start_sector size_sectors h = ground arith

-- Numbered in order.
abbrev pub IsNumbered : ℕ → List Partition → Type 0
IsNumbered n [] = Unit
IsNumbered n (p ∷ ps) = (p.index ≡ n) × IsNumbered (suc n) ps

index_of :
    (image : Image) (count start size : ℕ) → (ics_partition image count start size).index ≡ count
unfolding ics_partition
index_of image count start size = refl

-- The detector finds at most four partitions, numbered in order; each ends inside the image; and the size of
-- one is negative exactly when its table entry starts past the end of the image.
pub ics_entries_lem :
    (image : Image) (sector : Bytes) (left entry count : ℕ)
    → count ≤ 4
    → let ps = ics_entries image sector left entry count in
      (count + length ps ≤ 4) × IsNumbered count ps × All (IsClamped image) ps
unfolding ics_entries
ics_entries_lem image sector zero entry count h = (omega arith, tt, tt)
ics_entries_lem image sector (suc left) entry count h = elim (Bool-cases (leb 4 count)) [
  | inl full ↦ rw full (omega arith, tt, tt)
  | inr room ↦ rw room (elim (Bool-cases (u32 sector (entry * 8 + 4) == 0)) [
    | inl end ↦ rw end (omega arith, tt, tt)
    | inr more ↦ rw more (elim (Bool-cases (bit (u32 sector (entry * 8 + 4)) 31)) [
      | inl deleted ↦ rw deleted (ics_entries_lem image sector left (suc entry) count h)
      | inr used ↦
          let start = u32 sector (entry * 8) in
          let size = u32 sector (entry * 8 + 4) in
          let (short, numbered, all) =
            ics_entries_lem image sector left (suc entry) (suc count) (ground arith) in
          rw used (
            omega arith,
            (index_of image count start size, numbered),
            (ics_partition-IsClamped image count start size more, all),
          )
    ])
  ])
]
