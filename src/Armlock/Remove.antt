-- ===== src/Armlock/Remove.antt =====
-- remove_armlock: the patches of the copied image. A failure is what the caller gets; the image that it leaves
-- half patched is not used.
pub mod Laws
pub mod Writes
pub mod Restored
use arcology.Base.{
  ℕ, zero, suc, ◌+◌, ◌-◌, Bool, true, false, ◌||◌, Option, none, some, List, [], ◌∷◌, length, set,
  replicate, ltb, ◌==◌, if◌then◌else◌,
}
use arcology.Base.Int.{ℤ, pos, negsuc}
use arcology.Base.Result.{Result, ok, raised, ◌>>=◌}
use arcology.Disc.{Bytes, Image, read, slice, byte_at}
use arcology.Disc.Filecore.{DiscRecord}
use arcology.Armlock.{
  Addresses, disc_record_addr, dir_size, stash_addr, read_disc_record, armlock_addresses,
  compute_zone_check, decode_armlock_boot_option,
}
use arcology.Armlock.File.{write}

-- The texts of 'error', and the IndexError or AssertionError of a sector of a few bytes.
pub data RemovalFailure : Type 0 where
  too_small_for_boot_block too_small_for_disc_record old_map truncated_map cannot_write uncaught :
      RemovalFailure

-- `f.seek(a)`: a negative offset is an OSError, which the code reports.
abbrev pub seek : ℤ → Result RemovalFailure ℕ
seek (pos a) = ok a
seek (negsuc a) = raised cannot_write

-- The sector of the map with its boot option decoded, and the check byte for it.
unfoldable pub patched_sector : Bytes → Result RemovalFailure Bytes
unfolding compute_zone_check decode_armlock_boot_option
patched_sector sector =
    let decoded = set sector 0x0b (decode_armlock_boot_option (byte_at sector 0x0b)) in
    if ltb 0x0b (length sector)
    then elim (compute_zone_check decoded) [
      | none ↦ raised uncaught
      | some check ↦ ok (set decoded 0 check)
    ]
    else raised uncaught

-- The turn of the loop for one copy of the map.
unfoldable pub patch_map : ℕ → ℕ → Image → Result RemovalFailure Image
unfolding patched_sector
patch_map sector_size map_addr file =
    let sector = read file map_addr sector_size in
    if ltb (length sector) sector_size
    then raised truncated_map
    else patched_sector sector >>= λ patched. ok (write map_addr patched file)

-- `b'\x00' * FILECORE_DIR_SIZE`
unfoldable pub blank_dir : Bytes
blank_dir = replicate dir_size 0

-- Steps 2 and 3: the stashed root goes to its place, and the stash is zeroed.
unfoldable pub restore_root : ℕ → Image → Image
restore_root root_dir file =
    write stash_addr blank_dir (write root_dir (read file stash_addr dir_size) file)

unfoldable pub patch_image : DiscRecord → Image → Result RemovalFailure Image
unfolding patch_map restore_root
patch_image rec file =
    let addrs = armlock_addresses rec in
    seek addrs.map_primary >>= λ primary. patch_map rec.sector_size primary file >>= λ first.
    seek addrs.map_backup >>= λ backup. patch_map rec.sector_size backup first >>= λ second.
    seek addrs.root_dir >>= λ root. ok (restore_root root second)

unfoldable pub remove_armlock : Image → Result RemovalFailure Image
unfolding read_disc_record patch_image
remove_armlock image =
    let head = read image 0 0x1000 in
    if ltb (length head) 0xe00
    then raised too_small_for_boot_block
    else elim (read_disc_record (slice head disc_record_addr (disc_record_addr + 0x40))) [
      | none ↦ raised too_small_for_disc_record
      | some rec ↦ if rec.idlen == 0 then raised old_map else patch_image rec image
    ]
