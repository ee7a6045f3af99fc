-- ===== src/Disc/Fat.antt =====
-- detect_fat_filesystem of partition.py, on the bytes of the boot sector.
pub mod Laws
use Prim.Native.Nat.{bit_and}
use arcology.Base.{
  ℕ, ◌+◌, ◌-◌, ◌*◌, ◌/◌, Bool, true, false, not, ◌&&◌, ◌||◌, Option, none, some, List, [], ◌∷◌,
  length, ltb, leb, ◌==◌, if◌then◌else◌,
}
use arcology.Base.Text.{Text, codes, same_text, rstrip}
use arcology.Disc.{Bytes, byte_at, slice, u16, u32}

pub data Fat : Type 0 where
  fat12 fat16 fat32 : Fat

-- `.rstrip(b' \x00')` of the type string.
abbrev pub fs_type : Bytes → ℕ → ℕ → Text
fs_type sector first last = rstrip (λ b. b == 0x20 || b == 0) (slice sector first last)

-- The structural checks of the boot sector, in their order.
unfoldable pub is_valid_bps : ℕ → Bool
is_valid_bps bps = bps == 512 || bps == 1024 || bps == 2048 || bps == 4096

unfoldable pub is_valid_spc : ℕ → Bool
is_valid_spc spc = not (spc == 0 || not (bit_and spc (spc - 1) == 0) || ltb 128 spc)

unfoldable pub is_valid_media : ℕ → Bool
is_valid_media media = media == 0xf0 || leb 0xf8 media && leb media 0xff

-- `total_sectors`
abbrev pub total_sectors : Bytes → ℕ
total_sectors sector = if u16 sector 19 == 0 then u32 sector 32 else u16 sector 19

-- `count_of_clusters`, or 0 where the source's number is negative: both are below 4085.
unfoldable pub count_of_clusters : Bytes → ℕ
count_of_clusters sector =
    let root_dir_sectors = (u16 sector 17 * 32 + u16 sector 11 - 1) / u16 sector 11 in
    (total_sectors sector - u16 sector 14 - byte_at sector 16 * u16 sector 22 - root_dir_sectors)
    / byte_at sector 13

-- The variant, for a sector that has passed.
unfoldable pub fat_variant : Bytes → Option Fat
unfolding count_of_clusters
fat_variant sector =
    if u16 sector 22 == 0
    then if same_text (fs_type sector 82 90) (codes "FAT32")
      then some fat32
      else if u32 sector 36 == 0
      then none
      else some fat32
    else if same_text (fs_type sector 54 62) (codes "FAT12")
    then some fat12
    else if same_text (fs_type sector 54 62) (codes "FAT16")
    then some fat16
    else if total_sectors sector == 0
    then none
    else if ltb (count_of_clusters sector) 4085
    then some fat12
    else if ltb (count_of_clusters sector) 65525
    then some fat16
    else some fat32

unfoldable pub detect_fat_filesystem : Bytes → Option Fat
unfolding fat_variant is_valid_bps is_valid_spc is_valid_media
detect_fat_filesystem sector =
    if ltb (length sector) 512
    then none
    else if not (byte_at sector 510 == 0x55) || not (byte_at sector 511 == 0xaa)
    then none
    else if not (is_valid_bps (u16 sector 11))
    then none
    else if not (is_valid_spc (byte_at sector 13))
    then none
    else if ltb (u16 sector 14) 1
    then none
    else if not (byte_at sector 16 == 1 || byte_at sector 16 == 2)
    then none
    else if not (is_valid_media (byte_at sector 21))
    then none
    else fat_variant sector
