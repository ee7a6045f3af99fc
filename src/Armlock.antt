-- ===== src/Armlock.antt =====
-- worker/arcworker/tools/fs_riscos_armlock.py: the addresses that ARMlock uses, the check byte of a zone of the
-- map, and the reads that the detector makes through class SectorReader of worker/arcworker/tools/base.py.
-- A multiplication by a power of two is written where the code shifts.
pub mod Check
pub mod File
pub mod Remove
pub mod Zones
pub mod Files
pub mod Options
pub mod Header
pub mod Detect
use Prim.Native.Nat.{bit_xor}
use arcology.Base.{
  ℕ, suc, Bool, true, false, ◌&&◌, ◌+◌, ◌-◌, ◌*◌, ◌/◌, ◌%◌, Option, none, some, List, [], ◌∷◌,
  length, min, ltb, ◌==◌, if◌then◌else◌,
}
use arcology.Base.Int.{ℤ, pos, negsuc, sub_ℕ, shift}
use arcology.Disc.{Bytes, Image, read, byte_at, u32}
use arcology.Disc.Filecore.{
  DiscRecord, boot_block_offset, disc_record_offset, parse_filecore_disc_record,
}

-- DISC_RECORD_ADDR, FILECORE_DIR_SIZE and ARMLOCK_STASH_ADDR
abbrev pub disc_record_addr : ℕ
disc_record_addr = boot_block_offset + disc_record_offset

abbrev pub dir_size : ℕ
dir_size = 0x800

abbrev pub stash_addr : ℕ
stash_addr = 0x400

-- Where a slice of the reader starts or ends: a negative index counts from the end.
abbrev pub slice_index : Image → ℤ → ℕ
slice_index image (pos a) = min a image.size
slice_index image (negsuc a) = image.size - suc a

-- `image[a:b]` and `image[a:a + n]`
unfoldable pub read_between : Image → ℤ → ℤ → Bytes
unfolding read
read_between image a b =
    let start = slice_index image a in read image start (slice_index image b - start)

unfoldable pub read_at : Image → ℤ → ℕ → Bytes
unfolding read_between
read_at image a n = read_between image a (shift a n)

-- `a > len(image)`
abbrev pub is_past : Image → ℤ → Bool
is_past image (pos a) = ltb image.size a
is_past image (negsuc a) = false

-- `image[a]`, which raises outside the image.
unfoldable pub index_at : Image → ℤ → Option ℕ
index_at image (pos a) = if ltb a image.size then some (image.byte a) else none
index_at image (negsuc a) =
    if ltb image.size (suc a) then none else some (image.byte (image.size - suc a))

-- _read_disc_record, of the bytes that the slice gives.
unfoldable pub read_disc_record : Bytes → Option DiscRecord
unfolding parse_filecore_disc_record
read_disc_record d = if ltb (length d) 0x20 then none else some (parse_filecore_disc_record d)

-- _compute_zone_disc_address: (sector_size - 64) * 8 units in zone 0 and (sector_size - 4) * 8 in each other,
-- an integer that is negative for a sector of a few bytes.
unfoldable pub zone_disc_address : DiscRecord → ℕ → ℤ
zone_disc_address rec zone =
    if zone == 0
    then pos 0
    else sub_ℕ ((rec.sector_size * 8 + (zone - 1) * (rec.sector_size * 8)) * rec.bpmb)
        ((64 * 8 + (zone - 1) * (4 * 8)) * rec.bpmb)

pub record Addresses : Type 0 where
  pub map_primary : ℤ
  pub map_backup : ℤ
  pub root_dir : ℤ
  pub signature : ℤ

unfoldable pub armlock_addresses : DiscRecord → Addresses
unfolding zone_disc_address
armlock_addresses rec =
    let map_start = zone_disc_address rec (rec.nzones / 2) in
    let stride = rec.nzones * rec.sector_size in
    record {
      map_primary = map_start;
      map_backup = shift map_start stride;
      root_dir = shift map_start (2 * stride);
      signature = shift map_start (2 * stride + 0x400);
    }

-- The accumulator and the carry after the words of the sector, from the last to the first.
unfoldable pub add_words : Bytes → ℕ × ℕ
add_words (a ∷ b ∷ c ∷ d ∷ rest) =
    let (acc, carry) = add_words rest in
    let total = acc + u32 (a ∷ b ∷ c ∷ d ∷ []) 0 + carry in
    (total % 4294967296, if ltb 4294967295 total then 1 else 0)
add_words _ = (0, 0)

-- `s ^= s >> 16; s ^= s >> 8; s & 0xFF`
unfoldable pub fold_word : ℕ → ℕ
fold_word s = let t = bit_xor s (s / 65536) in bit_xor t (t / 256) % 256

-- `none` is the failed assertion, or the IndexError of a sector without bytes.
unfoldable pub compute_zone_check : Bytes → Option ℕ
unfolding add_words fold_word
compute_zone_check sector =
    let (acc, carry) = add_words sector in
    if length sector % 4 == 0 && ltb 0 (length sector)
    then some (fold_word ((acc + 4294967296 - byte_at sector 0) % 4294967296))
    else none

unfoldable pub decode_armlock_boot_option : ℕ → ℕ
decode_armlock_boot_option stored = stored / 4
