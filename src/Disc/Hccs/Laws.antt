-- ===== src/Disc/Hccs/Laws.antt =====
-- What the HCCS loop finds, and that the size of the image is enough fuel for it.
use arcology.Base.{
  ℕ, zero, suc, ◌+◌, ◌≤◌, ◌<◌, ◌≡◌, refl, ap, Bool, true, false, not, List, [], ◌∷◌, length, ltb,
  ◌==◌, arith, Bool-cases, inl, inr, if◌then◌else◌,
}
use arcology.Base.Int.{pos, pos_part}
use arcology.Disc.{Image, Partition, read}
use arcology.Disc.Filecore.{boot_block_offset, boot_block_size}
use arcology.Disc.Hccs.{has_magic, record_size, clamped, hccs_partition, hccs_partitions}

-- Partitions that follow one another from `offset` on, none empty, all in the image, and numbered in order.
abbrev pub IsChain : ℕ → ℕ → ℕ → List Partition → Type 0
IsChain image_size offset index [] = Unit
IsChain image_size offset index (p ∷ ps) =
    (p.index ≡ index)
    × (p.start_byte ≡ offset)
    × (p.size_bytes ≡ pos (pos_part p.size_bytes))
    × (0 < pos_part p.size_bytes)
    × (offset + pos_part p.size_bytes ≤ image_size)
    × IsChain image_size (offset + pos_part p.size_bytes) (suc index) ps

-- Whether the loop goes on at an offset.
goes_on : Image → ℕ → Bool
goes_on image offset =
    let boot_block = read image (offset + boot_block_offset) boot_block_size in
    if ltb image.size (offset + boot_block_offset + boot_block_size)
    then false
    else if ltb (length boot_block) boot_block_size
    then false
    else if not (has_magic boot_block)
    then false
    else if record_size boot_block == 0
    then false
    else true

size_at : Image → ℕ → ℕ
size_at image offset =
    clamped image.size offset
      (record_size (read image (offset + boot_block_offset) boot_block_size))

found_at : Image → ℕ → ℕ → Partition
found_at image offset index =
    hccs_partition (read image (offset + boot_block_offset) boot_block_size) index offset
      (size_at image offset)

partitions_step :
    (image : Image) (fuel offset index : ℕ)
    → hccs_partitions image (suc fuel) offset index ≡ (
        if goes_on image offset
        then found_at image offset index
          ∷ hccs_partitions image fuel (offset + size_at image offset) (suc index)
        else [])
unfolding hccs_partitions goes_on size_at found_at
partitions_step image fuel offset index = ground arith

size_at_bounds :
    (image : Image) (offset : ℕ)
    → goes_on image offset ≡ true
    → (0 < size_at image offset) × (offset + size_at image offset ≤ image.size)
unfolding goes_on size_at
size_at_bounds image offset h = ground arith

found_at_fields :
    (image : Image) (offset index : ℕ)
    → ((found_at image offset index).index ≡ index)
      × ((found_at image offset index).start_byte ≡ offset)
      × ((found_at image offset index).size_bytes ≡ pos (size_at image offset))
unfolding found_at hccs_partition
found_at_fields image offset index = (refl, refl, refl)

-- The partitions that are found follow one another from the offset on with no gap, each longer than 0 and
-- inside the image, and are numbered in order.
pub hccs_partitions-IsChain :
    (image : Image) (fuel offset index : ℕ)
    → IsChain image.size offset index (hccs_partitions image fuel offset index)
unfolding hccs_partitions
hccs_partitions-IsChain image zero offset index = tt
hccs_partitions-IsChain image (suc fuel) offset index =
    rw (partitions_step image fuel offset index) (elim (Bool-cases (goes_on image offset)) [
      | inr e ↦ rw e tt
      | inl e ↦
          let (i, o, s) = found_at_fields image offset index in
          let (positive, inside) = size_at_bounds image offset e in
          rw (e, s)
            (
              i,
              o,
              refl,
              positive,
              inside,
              hccs_partitions-IsChain image fuel (offset + size_at image offset) (suc index),
            )
    ])

stops : (image : Image) (offset : ℕ) → image.size ≤ 0 + offset → goes_on image offset ≡ false
unfolding goes_on
stops image offset h = ground arith

-- Fuel of at least the bytes that remain is enough: more changes nothing.
hccs_partitions_enough :
    (image : Image) (n m offset index : ℕ)
    → image.size ≤ n + offset
    → image.size ≤ m + offset
    → hccs_partitions image n offset index ≡ hccs_partitions image m offset index
unfolding hccs_partitions
hccs_partitions_enough image zero zero offset index h k = refl
hccs_partitions_enough image zero (suc m) offset index h k =
    rw (partitions_step image m offset index, stops image offset h) refl
hccs_partitions_enough image (suc n) zero offset index h k =
    rw (partitions_step image n offset index, stops image offset k) refl
hccs_partitions_enough image (suc n) (suc m) offset index h k =
    rw (partitions_step image n offset index, partitions_step image m offset index)
      (elim (Bool-cases (goes_on image offset)) [
        | inr e ↦ rw e refl
        | inl e ↦
            let (positive, inside) = size_at_bounds image offset e in
            rw e (
              ap (λ ps. found_at image offset index ∷ ps)
                (hccs_partitions_enough image n m (offset + size_at image offset) (suc index)
                  (omega arith) (omega arith)))
      ])
