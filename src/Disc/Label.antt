-- ===== src/Disc/Label.antt =====
-- read_fat_volume_label of partition.py. The code page 850 decoder, `str.upper` and which characters `str.rstrip`
-- drops are those of Python; the first two are arguments.
pub mod Laws
use arcology.Base.{
  ℕ, zero, suc, ◌+◌, ◌-◌, ◌*◌, Bool, true, false, not, ◌&&◌, ◌||◌, Option, none, some, List, [],
  ◌∷◌, length, take, drop, ltb, ◌==◌, if◌then◌else◌,
}
use arcology.Base.Text.{Text, codes, same_text, is_empty, is_space, rstrip}
use arcology.Disc.{Bytes, Image, read, byte_at, slice, u16, u32, bit}
use arcology.Disc.Filecore.{cut_at}
use arcology.Disc.Fat.{is_valid_bps}

-- A first byte of 0x05 stands for 0xE5.
unfoldable pub restore_first : Bytes → Bytes
restore_first [] = []
restore_first (b ∷ bs) = (if b == 0x05 then 0xe5 else b) ∷ bs

-- Whether an entry ends the directory, and whether the loop passes over one.
abbrev pub is_last : Bytes → Bool
is_last entry = byte_at entry 0 == 0

abbrev pub is_passed : Bytes → Bool
is_passed entry = byte_at entry 0 == 0xe5 || byte_at entry 11 == 0x0f

-- _FAT_ATTR_VOLUME_ID without _FAT_ATTR_DIRECTORY
abbrev pub is_volume : Bytes → Bool
is_volume entry = bit (byte_at entry 11) 3 && not (bit (byte_at entry 11) 4)

-- The label that is found, or what comes after it.
abbrev pub or_rest : Option Text → Option Text → Option Text
or_rest none rest = rest
or_rest (some label) rest = some label

module _ (decode_cp850 upper : Text → Text) where
  unfoldable pub decode_fat_label : Bytes → Option Text
  unfolding cut_at rstrip restore_first same_text
  decode_fat_label raw =
      let stripped = rstrip (λ b. b == 0x20) (cut_at 0 raw) in
      let label = rstrip is_space (decode_cp850 (restore_first stripped)) in
      if is_empty stripped
      then none
      else if is_empty label || same_text (upper label) (codes "NO NAME")
      then none
      else some label

  -- The label of an entry that the loop does not pass over.
  unfoldable pub entry_label : Bytes → Option Text
  unfolding decode_fat_label
  entry_label entry =
      if is_passed entry
      then none
      else if is_volume entry
      then decode_fat_label (slice entry 0 11)
      else none

  -- The loop over the entries of the root directory, of 32 bytes each.
  unfoldable pub root_label : ℕ → Bytes → Option Text
  root_label zero root_data = none
  root_label (suc fuel) root_data =
      let entry = take 32 root_data in
      let rest = root_label fuel (drop 32 root_data) in
      if ltb (length entry) 32
      then none
      else if is_last entry
      then none
      else or_rest (entry_label entry) rest

  -- The root directory of FAT32 is read from its first cluster on, that of the others from after the FATs.
  unfoldable pub root_data : Image → Bytes → Bytes
  unfolding read
  root_data image sector =
      let bps = u16 sector 11 in
      let spc = byte_at sector 13 in
      let fats = byte_at sector 16 in
      if u16 sector 22 == 0
      then if u32 sector 36 == 0 || ltb (u32 sector 44) 2
        then []
        else read image ((u16 sector 14 + fats * u32 sector 36 + (u32 sector 44 - 2) * spc) * bps)
            (spc * bps)
      else read image ((u16 sector 14 + fats * u16 sector 22) * bps) (u16 sector 17 * 32)

  abbrev pub bpb_label : Bytes → Bytes
  bpb_label sector = if u16 sector 22 == 0 then slice sector 71 82 else slice sector 43 54

  unfoldable pub is_labelled_sector : Bytes → Bool
  unfolding is_valid_bps
  is_labelled_sector sector =
      not (ltb (length sector) 512)
      && byte_at sector 510 == 0x55
      && byte_at sector 511 == 0xaa
      && is_valid_bps (u16 sector 11)
      && not (byte_at sector 13 == 0)
      && (byte_at sector 16 == 1 || byte_at sector 16 == 2)

  unfoldable pub read_fat_volume_label : Image → Option Text
  unfolding read is_labelled_sector root_data root_label decode_fat_label
  read_fat_volume_label image =
      let sector = read image 0 512 in
      let root = root_data image sector in
      if not (is_labelled_sector sector)
      then none
      else or_rest (root_label (length root) root) (decode_fat_label (bpb_label sector))
