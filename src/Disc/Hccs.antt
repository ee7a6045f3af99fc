-- ===== src/Disc/Hccs.antt =====
-- _detect_hccs_partitions: partitions that follow one another from the start of the disc, each with the
-- magic word in its boot block; and _detect_simtec_signature.
pub mod Laws
use Prim.Native.Nat.{bit_xor}
use arcology.Base.{
  ℕ, zero, suc, ◌+◌, ◌-◌, Bool, true, false, not, List, [], ◌∷◌, take, drop, length, ltb, leb, ◌==◌,
  if◌then◌else◌,
}
use arcology.Base.Int.{ℤ, pos}
use arcology.Base.Text.{codes, same_text, rstrip}
use arcology.Disc.{
  Bytes, Image, read, slice, u16, Partition, Detail, hccs, Detection, not_detected, detected,
  hccs_scheme, simtec,
}
use arcology.Disc.Filecore.{boot_block_offset, boot_block_size, disc_record_offset, name_and_size}
use arcology.Disc.Ics.{if_any}

abbrev xor_key : Bytes
xor_key = 0x06 ∷ 0x14 ∷ 0x1f ∷ 0x07 ∷ 0x02 ∷ 0x1d ∷ 0x17 ∷ 0x17 ∷ []

unfoldable pub xor_with : Bytes → Bytes → Bytes
xor_with (b ∷ bs) (k ∷ ks) = bit_xor b k ∷ xor_with bs ks
xor_with _ _ = []

unfoldable pub decode_hccs_password : Bytes → Bytes
unfolding xor_with
decode_hccs_password obfuscated = rstrip (λ b. b == 0) (xor_with (take 8 obfuscated) xor_key)

unfoldable pub hccs_partition : Bytes → ℕ → ℕ → ℕ → Partition
unfolding decode_hccs_password
hccs_partition boot_block index offset size = record {
  index = index;
  start_byte = offset;
  size_bytes = pos size;
  is_adfs = true;
  disc_name = (name_and_size (drop disc_record_offset boot_block)).0;
  detail =
      hccs (decode_hccs_password (slice boot_block 0x1b4 0x1bc)) (u16 boot_block 0x1bc)
        (u16 boot_block 0x1be);
}

unfoldable pub has_magic : Bytes → Bool
has_magic boot_block = same_text (slice boot_block 0x1b0 0x1b4) (codes "Andy")

-- `partition_size`, and what the image leaves of it.
unfoldable pub record_size : Bytes → ℕ
record_size boot_block = (name_and_size (drop disc_record_offset boot_block)).1

abbrev pub clamped : ℕ → ℕ → ℕ → ℕ
clamped image_size offset size =
    if ltb image_size (offset + size) then image_size - offset else size

-- The loop, from `offset` on; the fuel is spent on a partition each.
unfoldable pub hccs_partitions : Image → ℕ → ℕ → ℕ → List Partition
unfolding hccs_partition has_magic record_size
hccs_partitions image zero offset index = []
hccs_partitions image (suc fuel) offset index =
    let boot_block = read image (offset + boot_block_offset) boot_block_size in
    let size = clamped image.size offset (record_size boot_block) in
    let found =
      hccs_partition boot_block index offset size
      ∷ hccs_partitions image fuel (offset + size) (suc index) in
    if ltb image.size (offset + boot_block_offset + boot_block_size)
    then []
    else if ltb (length boot_block) boot_block_size
    then []
    else if not (has_magic boot_block)
    then []
    else if record_size boot_block == 0
    then []
    else found

unfoldable pub detect_hccs_partitions : Image → Detection
unfolding hccs_partitions
detect_hccs_partitions image =
    let partitions = hccs_partitions image image.size 0 0 in
    if_any (detected hccs_scheme [] partitions) partitions

unfoldable pub detect_simtec_signature : Image → Detection
detect_simtec_signature image =
    if ltb image.size (boot_block_offset + boot_block_size)
    then not_detected
    else if same_text (read image (boot_block_offset + 0x1b0) 4) (codes "andy")
    then detected simtec [] []
    else not_detected
