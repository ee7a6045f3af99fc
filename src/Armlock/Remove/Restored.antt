-- ===== src/Armlock/Remove/Restored.antt =====
-- The image that remove_armlock gives: its root directory, its stash, its two maps, and all its other bytes.
use mathlib.Core.Path.{subst}
use native.Mathlib.Nat.{mul-le-mul_right}
use arcology.Base.{
  ℕ, ◌+◌, ◌*◌, ◌/◌, ◌≤◌, ◌<◌, ◌≡◌, inr, refl, sym, ap, ◌∙◌, false, some, length, ltb, arith,
}
use arcology.Base.Int.{pos, pos_part}
use arcology.Base.Result.{ok}
use arcology.Disc.{Image, read, slice}
use arcology.Disc.Words.{length-read}
use arcology.Disc.Filecore.{DiscRecord}
use arcology.Armlock.{
  disc_record_addr, dir_size, read_disc_record, zone_disc_address, armlock_addresses,
}
use arcology.Armlock.File.{write, size-write, byte-write_ne, read-write_ne}
use arcology.Armlock.Remove.{restore_root, patch_image, remove_armlock}
use arcology.Armlock.Remove.Laws.{IsLockable, IsPatched, map_start, patch_map_lem}
use arcology.Armlock.Remove.Writes.{IsRestored, restored}

-- The addresses of a disc with its map at `m`.
pub addresses_at :
    (rec : DiscRecord) (m : ℕ)
    → zone_disc_address rec (rec.nzones / 2) ≡ pos m
    → (armlock_addresses rec).map_primary ≡ pos m
      × ((armlock_addresses rec).map_backup ≡ pos (m + rec.nzones * rec.sector_size))
      × ((armlock_addresses rec).root_dir ≡ pos (m + 2 * (rec.nzones * rec.sector_size)))
      × ((armlock_addresses rec).signature ≡ pos (m + (2 * (rec.nzones * rec.sector_size) + 0x400)))
unfolding armlock_addresses
addresses_at rec m e = rw e (refl, refl, refl, refl)

pub past_stash_at :
    (rec : DiscRecord) (m : ℕ)
    → IsLockable rec
    → zone_disc_address rec (rec.nzones / 2) ≡ pos m
    → 0xe00 ≤ m
past_stash_at rec m v at =
    let (m', e, far) = map_start rec v in omega (arith, far, ap pos_part (sym at ∙ e))

patch_image-IsRestored :
    (image : Image) (rec : DiscRecord) (m : ℕ)
    → IsLockable rec
    → zone_disc_address rec (rec.nzones / 2) ≡ pos m
    → m + 2 * (rec.nzones * rec.sector_size) + dir_size ≤ image.size
    → ((o : ℕ) → image.byte o < 256)
    → (out : Image) × (patch_image rec image ≡ ok out)
      × IsRestored rec.sector_size m (rec.nzones * rec.sector_size) image out
unfolding patch_image
patch_image-IsRestored image rec m v at fits small =
    let n = rec.sector_size in
    let stride = rec.nzones * n in
    let past : 0xc00 ≤ m = omega (arith, past_stash_at rec m v at) in
    let wide : n ≤ stride =
      omega (arith, mul-le-mul_right {m = 1} {n = rec.nzones} n (omega (arith, v.zones))) in
    let (one, e1, length_one, v1) =
      patch_map_lem n m image v.sectors v.words (omega (arith, wide, fits)) (small m) in
    let same = size-write m one image (omega (arith, length_one, wide, fits)) in
    let untouched : (write m one image).byte (m + stride) ≡ image.byte (m + stride) =
      byte-write_ne m one image (m + stride) (inr (omega (arith, length_one, wide)))
        (omega (arith, fits)) in
    let (two, e2, length_two, v2) =
      patch_map_lem n (m + stride) (write m one image) v.sectors v.words
        (omega (arith, wide, fits, same)) (omega (arith, untouched, small (m + stride))) in
    let unread : read (write m one image) (m + stride) n ≡ read image (m + stride) n =
      read-write_ne m one image (m + stride) n (omega (arith, length_one, wide, fits))
        (inr (omega (arith, length_one, wide))) (omega (arith, wide, fits)) in
    let (a1, a2, a3, a4) = addresses_at rec m at in
    (
      restore_root (m + 2 * stride) (write (m + stride) two (write m one image)),
      rw (a1, a2, a3, e1, e2) refl,
      restored n m stride image one two past wide fits v.sectors length_one length_two v1
          (subst (λ d. IsPatched d two) unread v2),
    )

-- On a disc that the module was written for, its map at `m` and the stripped root inside the image, removal succeeds
-- whether or not the signature is there: the real root is in its place, the stash is zeroed, both copies of the map
-- have their boot option decoded and a right check byte, and no other byte is changed.
pub remove_armlock-IsRestored :
    (image : Image) (rec : DiscRecord) (m : ℕ)
    → read_disc_record (slice (read image 0 0x1000) disc_record_addr (disc_record_addr + 0x40))
      ≡ some rec
    → IsLockable rec
    → zone_disc_address rec (rec.nzones / 2) ≡ pos m
    → m + 2 * (rec.nzones * rec.sector_size) + dir_size ≤ image.size
    → ((o : ℕ) → image.byte o < 256)
    → (out : Image) × (remove_armlock image ≡ ok out)
      × IsRestored rec.sector_size m (rec.nzones * rec.sector_size) image out
unfolding remove_armlock
remove_armlock-IsRestored image rec m found v at fits small =
    let map_past : 0x1000 ≤ image.size = omega (arith, past_stash_at rec m v at, fits) in
    let head : ltb (length (read image 0 0x1000)) 0xe00 ≡ false =
      ground (arith, length-read image 0 0x1000, map_past) in
    rw (head, found, v.new_map) (patch_image-IsRestored image rec m v at fits small)
