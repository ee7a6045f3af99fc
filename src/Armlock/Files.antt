-- ===== src/Armlock/Files.antt =====
-- Files and directories of the disc: _extract_file_by_sin, _parse_directory, _read_subdir_by_sin, and
-- _get_riscos_filetype of worker/arcworker/tools/extraction.py.
pub mod Laws
use arcology.Base.{
  ℕ, zero, suc, ◌+◌, ◌-◌, ◌*◌, ◌/◌, ◌%◌, ◌^◌, Bool, not, ◌||◌, Option, none, some, List, [], ◌∷◌,
  ◌++◌, map, length, take, drop, ltb, leb, ◌==◌, if◌then◌else◌,
}
use arcology.Base.Text.{Text, same_text, codes, is_empty}
use arcology.Base.Int.{ℤ, pos}
use arcology.Disc.{Bytes, Image, byte_at, slice, u16, u32, bit}
use arcology.Disc.Filecore.{DiscRecord}
use arcology.Armlock.{dir_size, is_past, read_at, read_between}
use arcology.Base.Int.{shift}
use arcology.Armlock.Zones.{Fragment, walk_zone_map}

-- _MAX_FILECORE_FILE_BYTES
abbrev pub max_file_bytes : ℕ
max_file_bytes = 67108864

-- Where the read of a fragment stops: at the end of the image at the latest.
abbrev pub fragment_stop : Image → Fragment → ℤ
fragment_stop image (a, n) = if is_past image (shift a n) then pos image.size else shift a n

-- The loop over the fragments, until the object is longer than what is ever returned.
unfoldable pub join_fragments : Image → ℕ → Bytes → List Fragment → Bytes
unfolding read_between
join_fragments image max_bytes obj_data [] = obj_data
join_fragments image max_bytes obj_data (f ∷ fs) =
    let longer = obj_data ++ read_between image f.0 (fragment_stop image f) in
    let rest = join_fragments image max_bytes longer fs in
    if ltb max_bytes (length longer) then longer else rest

-- Where in a shared object a file starts.
unfoldable pub share_start : DiscRecord → ℕ → ℕ
share_start rec sharing_offset =
    let share_unit =
      if ltb 0 rec.share_size then rec.sector_size * 2 ^ rec.share_size else rec.sector_size in
    if ltb 0 sharing_offset then (sharing_offset - 1) * share_unit else 0

-- The file's part of the object.
unfoldable pub file_part : ℕ → ℕ → Bytes → Bytes
file_part start file_length obj_data =
    if ltb (length obj_data) (start + file_length)
    then drop start obj_data
    else take file_length (drop start obj_data)

unfoldable pub extract_file_by_sin : Image → DiscRecord → ℕ → ℕ → Option Bytes
unfolding join_fragments share_start file_part walk_zone_map
extract_file_by_sin image rec sin file_length =
    if ltb (sin / 256) 2
    then none
    else if ltb max_file_bytes file_length
    then none
    else elim (walk_zone_map image rec (sin / 256)) [
      | [] ↦ none
      | f ∷ fs ↦ some (
          file_part (share_start rec (sin % 256)) file_length
            (join_fragments image max_file_bytes [] (f ∷ fs)))
    ]

-- A directory entry. The file type is the number that the code writes in hexadecimal.
pub record Entry : Type 0 where
  pub name : Text
  pub load : ℕ
  pub exec : ℕ
  pub length : ℕ
  pub sin : ℕ
  pub attr : ℕ
  pub is_dir : Bool
  pub filetype : Option ℕ

-- `.decode('ascii', errors='replace')`
abbrev pub decode_ascii : Bytes → Text
decode_ascii = map (λ b. if ltb b 128 then b else 0xfffd)

unfoldable pub cut_name : Bytes → Bytes
cut_name [] = []
cut_name (b ∷ bs) = if b == 0x00 || b == 0x0d then [] else b ∷ cut_name bs

unfoldable pub get_riscos_filetype : ℕ → Option ℕ
get_riscos_filetype load_addr =
    if load_addr / 1048576 == 0xfff then some (load_addr / 256 % 4096) else none

unfoldable pub read_entry : Bytes → ℕ → Entry
unfolding cut_name get_riscos_filetype
read_entry block offset = record {
  name = decode_ascii (cut_name (slice block offset (offset + 10)));
  load = u32 block (offset + 0x0a);
  exec = u32 block (offset + 0x0e);
  length = u32 block (offset + 0x12);
  sin = u16 block (offset + 0x16) + 65536 * byte_at block (offset + 0x18);
  attr = byte_at block (offset + 0x19);
  is_dir = bit (byte_at block (offset + 0x19)) 3;
  filetype = get_riscos_filetype (u32 block (offset + 0x0a));
}

-- FILECORE_DIR_SIZE - FILECORE_DIR_TAIL_SIZE
abbrev pub entries_end : ℕ
entries_end = dir_size - 0x29

-- The entries of a block from an offset on, up to an empty one.
unfoldable pub read_entries : Bytes → ℕ → ℕ → List Entry
unfolding read_entry
read_entries block zero offset = []
read_entries block (suc fuel) offset =
    let rest = read_entries block fuel (offset + 26) in
    if not (leb (offset + 26) entries_end)
    then []
    else if byte_at block offset == 0
    then []
    else read_entry block offset ∷ rest

-- A block of FILECORE_DIR_SIZE bytes; `none` is (False, []).
unfoldable pub parse_block : Bytes → Option (List Entry)
unfolding same_text read_entries
parse_block block =
    let magic = slice block 1 5 in
    if ltb (length block) dir_size
    then none
    else if same_text magic (codes "Hugo") || same_text magic (codes "Nick")
    then some (read_entries block dir_size 5)
    else none

unfoldable pub parse_directory : Image → ℤ → Option (List Entry)
unfolding parse_block read_at
parse_directory image addr =
    if is_past image (shift addr dir_size) then none else parse_block (read_at image addr dir_size)

unfoldable pub read_subdir_by_sin : Image → DiscRecord → ℕ → Option (List Entry)
unfolding extract_file_by_sin parse_block
read_subdir_by_sin image rec sin = elim (extract_file_by_sin image rec sin dir_size) [
  | none ↦ none
  | some raw ↦ if is_empty raw then none else parse_block (take dir_size raw)
]
