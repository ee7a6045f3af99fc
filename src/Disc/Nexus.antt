-- ===== src/Disc/Nexus.antt =====
-- _detect_nexus_partitions: the partition table of the Nexus Disc Sharer at byte 0x20000. Printer
-- partitions are kept as 'other', as NEXUS_PRINTER_FILESYSTEM has it.
pub mod Laws
use arcology.Base.{
  ℕ, zero, suc, ◌+◌, ◌-◌, ◌*◌, ◌/◌, ◌%◌, ◌^◌, Bool, true, false, not, ◌&&◌, ◌||◌, List, [], ◌∷◌,
  take, drop, length, ltb, leb, ◌==◌, if◌then◌else◌,
}
use arcology.Base.Int.{ℤ, pos}
use arcology.Base.Text.{Text, codes, same_text}
use arcology.Disc.{
  Bytes, Image, read, byte_at, u32, bit, Partition, Detail, nexus, Detection, not_detected,
  detected, nexus_scheme,
}
use arcology.Disc.Filecore.{
  boot_block_offset, boot_block_size, disc_record_offset, validate_boot_block_checksum,
  name_and_size,
}
use arcology.Disc.Ics.{if_any}

-- The name, where the boot block is in the image and its checksum holds.
unfoldable pub nexus_name : Image → ℕ → Text
nexus_name image start_byte =
    let offset = start_byte + boot_block_offset in
    let boot_block =
      if leb (offset + boot_block_size) image.size then read image offset boot_block_size else [] in
    if leb boot_block_size (length boot_block) && validate_boot_block_checksum boot_block
    then (name_and_size (drop disc_record_offset boot_block)).0
    else []

unfoldable pub nexus_partition : Image → ℕ → ℕ → ℕ → ℕ → ℕ → ℕ → Partition
unfolding nexus_name
nexus_partition image index flags station start_sector size_in_sectors drive_number =
    let start_byte = start_sector * 512 in
    let size_bytes = size_in_sectors * 512 in
    record {
      index = index;
      start_byte = start_byte;
      size_bytes = pos (
          if ltb image.size (start_byte + size_bytes) then image.size - start_byte else size_bytes);
      is_adfs = not (bit flags 3);
      disc_name = nexus_name image start_byte;
      detail = nexus drive_number station flags;
    }

-- The loop over the entries: `left` of them from `index` on.
unfoldable pub nexus_entries : Image → Bytes → ℕ → ℕ → List Partition
unfolding nexus_partition
nexus_entries image table zero index = []
nexus_entries image table (suc left) index =
    let eo = 16 + index * 16 in
    let flags = byte_at table eo in
    let size_drive = u32 table (eo + 8) in
    let found =
      nexus_partition image index flags (byte_at table (eo + 1)) (u32 table (eo + 4))
        (size_drive % 16777216) (size_drive / 16777216 % 256) in
    let rest = if bit flags 7 then [] else nexus_entries image table left (suc index) in
    if ltb (length table) (eo + 16)
    then []
    else if size_drive % 16777216 * 512 == 0
    then rest
    else found ∷ rest

unfoldable pub detect_nexus_partitions : Image → Detection
unfolding nexus_entries
detect_nexus_partitions image =
    let table = read image 0x20000 256 in
    let partitions = nexus_entries image table 15 0 in
    let header =
      byte_at table 4 ∷ byte_at table 5 ∷ (byte_at table 7 * 256 + byte_at table 6) ∷ [] in
    if ltb image.size (0x20000 + 16 + 16)
    then not_detected
    else if ltb (length table) 16 || not (same_text (take 4 table) (codes "Net1"))
    then not_detected
    else if_any (detected nexus_scheme header partitions) partitions
