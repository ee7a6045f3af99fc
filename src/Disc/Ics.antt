-- ===== src/Disc/Ics.antt =====
-- _detect_ics_partitions: the partition table of ICS IDEFS in sector 0.
pub mod Laws
use arcology.Base.{
  ℕ, zero, suc, ◌+◌, ◌*◌, ◌%◌, ◌/◌, ◌^◌, Bool, true, false, not, ◌&&◌, ◌||◌, Option, none, some,
  List, [], ◌∷◌, take, drop, length, ltb, leb, ◌==◌, if◌then◌else◌,
}
use arcology.Base.Int.{ℤ, pos, sub_ℕ}
use arcology.Base.Text.{Text}
use arcology.Disc.{
  Bytes, Image, read, byte_at, u32, bit, Partition, Detail, ics, Detection, not_detected, detected,
  ics_idefs,
}
use arcology.Disc.Filecore.{
  boot_block_offset, boot_block_size, disc_record_offset, validate_boot_block_checksum,
  name_and_size, is_valid_disc_record, is_valid_disc_record_strict,
}

abbrev total : Bytes → ℕ
total [] = 0
total (b ∷ bs) = b + total bs

-- The seed is ICS_CHECKSUM_SEED.
unfoldable pub validate_ics_checksum : Bytes → Bool
validate_ics_checksum sector =
    if ltb (length sector) 512
    then false
    else (0x50617274 + total (take 0x1fc sector)) % 4294967296 == u32 sector 0x1fc

-- The level of _decode_ics_protection, and the words of _extract_ics_password_hashes.
abbrev pub protection : Bytes → ℕ × ℕ × ℕ
protection boot_block = (byte_at boot_block 0x1a7 % 4, u32 boot_block 0x1a8, u32 boot_block 0x1ac)

unfoldable pub ics_name : Bytes → Text
ics_name boot_block =
    let d = drop disc_record_offset boot_block in
    if validate_boot_block_checksum boot_block && is_valid_disc_record d
    then (name_and_size d).0
    else if is_valid_disc_record_strict boot_block
    then (name_and_size d).0
    else []

-- The dict for a table entry, of which `count` came before. Its size is what the image holds from the
-- start on, if that is less: below 0 for a start past the end.
unfoldable pub ics_partition : Image → ℕ → ℕ → ℕ → Partition
unfolding ics_name
ics_partition image count start_sector size_sectors =
    let start_byte = start_sector * 512 in
    let size_bytes = size_sectors * 512 in
    let clamped =
      if ltb image.size (start_byte + size_bytes)
      then sub_ℕ image.size start_byte
      else pos size_bytes in
    let offset = start_byte + boot_block_offset in
    let boot_block = read image offset boot_block_size in
    let has_block =
      leb (offset + boot_block_size) image.size && length boot_block == boot_block_size in
    record {
      index = count;
      start_byte = start_byte;
      size_bytes = clamped;
      is_adfs = true;
      disc_name = if has_block then ics_name boot_block else [];
      detail =
          ics start_sector size_sectors (has_block && validate_boot_block_checksum boot_block)
            (if has_block then some (protection boot_block) else none);
    }

-- The loop over the entries: `left` of them from `entry` on, with `count` partitions found.
unfoldable pub ics_entries : Image → Bytes → ℕ → ℕ → ℕ → List Partition
unfolding ics_partition
ics_entries image sector zero entry count = []
ics_entries image sector (suc left) entry count =
    let start_sector = u32 sector (entry * 8) in
    let size_sectors = u32 sector (entry * 8 + 4) in
    let skip = ics_entries image sector left (suc entry) count in
    let keep =
      ics_partition image count start_sector size_sectors
      ∷ ics_entries image sector left (suc entry) (suc count) in
    if leb 4 count
    then []
    else if size_sectors == 0
    then []
    else if bit size_sectors 31
    then skip
    else keep

abbrev pub if_any : Detection → List Partition → Detection
if_any found [] = not_detected
if_any found (p ∷ ps) = found

unfoldable pub detect_ics_partitions : Image → Detection
unfolding validate_ics_checksum ics_entries
detect_ics_partitions image =
    let sector = read image 0 512 in
    let partitions = ics_entries image sector 63 0 0 in
    if ltb image.size 512
    then not_detected
    else if ltb (length sector) 512
    then not_detected
    else if not (validate_ics_checksum sector)
    then not_detected
    else if_any (detected ics_idefs (u32 sector 0x1f8 ∷ []) partitions) partitions
