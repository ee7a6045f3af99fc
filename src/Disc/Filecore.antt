-- ===== src/Disc/Filecore.antt =====
-- The FileCore boot block of partition.py: its checksum, its disc record, and the plausibility checks.
pub mod Checksum
use arcology.Base.{
  ℕ, ◌+◌, ◌*◌, ◌/◌, ◌%◌, ◌^◌, Bool, true, false, not, ◌&&◌, ◌||◌, List, [], ◌∷◌, take, drop, length,
  ltb, leb, ◌==◌, if◌then◌else◌,
}
use arcology.Base.Text.{Text, is_space, strip}
use arcology.Disc.{Bytes, byte_at, slice, u16, u32}

-- FILECORE_BOOT_BLOCK_OFFSET, FILECORE_BOOT_BLOCK_SIZE and FILECORE_BB_DISC_RECORD_OFFSET
abbrev pub boot_block_offset : ℕ
boot_block_offset = 0xc00

abbrev pub boot_block_size : ℕ
boot_block_size = 0x200

abbrev pub disc_record_offset : ℕ
disc_record_offset = 0x1c0

-- The sum with carry, from the last byte to the first.
unfoldable pub carry_sum : Bytes → ℕ
carry_sum [] = 0
carry_sum (b ∷ bs) = (carry_sum bs + b) % 256 + (carry_sum bs + b) / 256

unfoldable pub validate_boot_block_checksum : Bytes → Bool
unfolding carry_sum
validate_boot_block_checksum boot_block =
    if ltb (length boot_block) boot_block_size
    then false
    else carry_sum (take 511 boot_block) % 256 == byte_at boot_block 511

unfoldable pub cut_at : ℕ → Bytes → Bytes
cut_at t [] = []
cut_at t (b ∷ bs) = if b == t then [] else b ∷ cut_at t bs

unfoldable pub has_byte : ℕ → Bytes → Bool
has_byte t [] = false
has_byte t (b ∷ bs) = b == t || has_byte t bs

-- The first CR cuts the name; the first NUL does only where there is no CR.
unfoldable pub decode_disc_name : Bytes → Text
unfolding cut_at has_byte
decode_disc_name disc_record =
    let raw = slice disc_record 0x16 (0x16 + 10) in
    if ltb (length disc_record) (0x16 + 10)
    then []
    else if has_byte 0x0d raw
    then strip (cut_at 0x0d raw)
    else strip (cut_at 0 raw)

pub record DiscRecord : Type 0 where
  pub log2_sector_size : ℕ
  pub sectors_per_track : ℕ
  pub heads : ℕ
  pub density : ℕ
  pub idlen : ℕ
  pub log2_bpmb : ℕ
  pub skew : ℕ
  pub boot_option : ℕ
  pub low_sector : ℕ
  pub nzones : ℕ
  pub zone_spare : ℕ
  pub root_dir : ℕ
  pub disc_size_lo : ℕ
  pub disc_name : Text
  pub disc_id : ℕ
  pub disc_size_hi : ℕ
  pub share_size : ℕ
  pub big_flag : ℕ
  pub format_version : ℕ
  pub disc_size : ℕ
  pub sector_size : ℕ
  pub bpmb : ℕ

-- A field that a short record lacks is 0; so is a byte read past the end.
abbrev pub if_long : ℕ → Bytes → ℕ → ℕ
if_long n d value = if leb n (length d) then value else 0

unfoldable pub parse_filecore_disc_record : Bytes → DiscRecord
unfolding decode_disc_name
parse_filecore_disc_record d = record {
  log2_sector_size = byte_at d 0;
  sectors_per_track = byte_at d 1;
  heads = byte_at d 2;
  density = byte_at d 3;
  idlen = byte_at d 4;
  log2_bpmb = byte_at d 5;
  skew = byte_at d 6;
  boot_option = byte_at d 7;
  low_sector = byte_at d 8;
  nzones = byte_at d 9 + 256 * if_long 0x30 d (byte_at d 0x2a);
  zone_spare = if_long 0x14 d (u16 d 0x0a);
  root_dir = if_long 0x14 d (u32 d 0x0c);
  disc_size_lo = if_long 0x14 d (u32 d 0x10);
  disc_name = decode_disc_name d;
  disc_id = if_long 0x30 d (u16 d 0x14);
  disc_size_hi = if_long 0x30 d (u32 d 0x24);
  share_size = if_long 0x30 d (byte_at d 0x28);
  big_flag = if_long 0x30 d (byte_at d 0x29);
  format_version = if_long 0x30 d (u32 d 0x2c);
  disc_size = if_long 0x14 d (u32 d 0x10) + 4294967296 * if_long 0x30 d (u32 d 0x24);
  sector_size = 2 ^ byte_at d 0;
  bpmb = 2 ^ byte_at d 5;
}

-- _parse_filecore_disc_record: the fields 'disc_name' and 'disc_size'.
unfoldable pub name_and_size : Bytes → Text × ℕ
unfolding parse_filecore_disc_record
name_and_size d =
    let full = parse_filecore_disc_record d in
    if ltb (length d) 0x14 then ([], 0) else (full.disc_name, full.disc_size_lo)

unfoldable pub is_valid_disc_record : Bytes → Bool
is_valid_disc_record d =
    if ltb (length d) 0x14
    then false
    else if not (byte_at d 0 == 8 || byte_at d 0 == 9 || byte_at d 0 == 10 || byte_at d 0 == 12)
    then false
    else ltb 0 (u32 d 0x10)

unfoldable pub is_valid_disc_record_strict : Bytes → Bool
unfolding is_valid_disc_record
is_valid_disc_record_strict boot_block =
    let d = drop disc_record_offset boot_block in
    if ltb (length boot_block) boot_block_size
    then false
    else if not (is_valid_disc_record d)
    then false
    else if byte_at d 1 == 0 || byte_at d 2 == 0
    then false
    else u32 d 0x10 % 2 ^ byte_at d 0 == 0
