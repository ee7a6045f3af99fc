-- ===== src/Disc/Nexus/Laws.antt =====
-- What the loop over the Nexus table finds.
use arcology.Base.{
  ℕ, zero, suc, ◌+◌, ◌-◌, ◌*◌, ◌/◌, ◌%◌, ◌≤◌, ◌≡◌, ◌⊎◌, inl, inr, refl, Bool, true, false, List, [],
  length, ltb, ◌==◌, arith, Bool-cases, if◌then◌else◌, All,
}
use arcology.Base.Int.{pos, pos_part}
use arcology.Disc.{Bytes, Image, Partition, byte_at, u32, bit}
use arcology.Disc.Nexus.{nexus_partition, nexus_entries}

-- The partition is in the image, or empty.
abbrev pub IsInside : Image → Partition → Type 0
IsInside image p =
    (p.size_bytes ≡ pos (pos_part p.size_bytes))
    × ((pos_part p.size_bytes ≡ 0) ⊎ (p.start_byte + pos_part p.size_bytes ≤ image.size))

inside_or_empty :
    (image_size start size : ℕ)
    → ((if ltb image_size (start + size) then image_size - start else size) ≡ 0)
      ⊎ (start + (if ltb image_size (start + size) then image_size - start else size) ≤ image_size)
inside_or_empty image_size start size = elim (Bool-cases (ltb image_size (start + size))) [
  | inr e ↦ inr (ground arith)
  | inl e ↦ elim (Bool-cases (ltb start image_size)) [
    | inl f ↦ inr (ground arith)
    | inr f ↦ inl (ground arith)
  ]
]

nexus_partition-IsInside :
    (image : Image) (index flags station start size drive : ℕ)
    → IsInside image (nexus_partition image index flags station start size drive)
unfolding nexus_partition
nexus_partition-IsInside image index flags station start size drive =
    (refl, inside_or_empty image.size (start * 512) (size * 512))

abbrev IsFine : Image → ℕ → List Partition → Type 0
IsFine image n ps = All (IsInside image) ps × (length ps ≤ n)

cut_off :
    (image : Image) (b : Bool) (n : ℕ) (ps : List Partition)
    → IsFine image n ps
    → IsFine image n (if b then [] else ps)
cut_off image true n ps h = (tt, omega arith)
cut_off image false n ps h = h

-- Every partition that the table gives is in the image or empty, and there are no more than entries.
pub nexus_entries_lem :
    (image : Image) (table : Bytes) (left index : ℕ)
    → All (IsInside image) (nexus_entries image table left index)
      × (length (nexus_entries image table left index) ≤ left)
unfolding nexus_entries
nexus_entries_lem image table zero index = (tt, omega arith)
nexus_entries_lem image table (suc left) index =
    let eo = 16 + index * 16 in
    let size_drive = u32 table (eo + 8) in
    let (all, short) =
      cut_off image (bit (byte_at table eo) 7) left (nexus_entries image table left (suc index))
        (nexus_entries_lem image table left (suc index)) in
    elim (Bool-cases (ltb (length table) (eo + 16))) [
      | inl end ↦ rw end (tt, omega arith)
      | inr more ↦ rw more (elim (Bool-cases (size_drive % 16777216 * 512 == 0)) [
        | inl empty ↦ rw empty (all, omega arith)
        | inr used ↦ rw used (
          (
            nexus_partition-IsInside image index (byte_at table eo) (byte_at table (eo + 1))
                (u32 table (eo + 4)) (size_drive % 16777216) (size_drive / 16777216 % 256),
            all,
          ),
          omega arith,
        )
      ])
    ]
