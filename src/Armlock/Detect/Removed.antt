-- ===== src/Armlock/Detect/Removed.antt =====
-- The detector on the image that remove_armlock gives.
use mathlib.Core.Path.{ap₂}
use arcology.Base.{
  ℕ, zero, suc, ◌+◌, ◌-◌, ◌*◌, ◌/◌, ◌≤◌, ◌<◌, ◌≡◌, refl, sym, ap, ◌∙◌, Bool, true, false, ◌||◌,
  some, ◌∷◌, take, drop, min, ltb, ◌==◌, ==_iff, arith,
}
use arcology.Base.Text.{same_text}
use arcology.Base.Int.{pos}
use arcology.Base.Result.{ok}
use arcology.Disc.{Image, bytes_from, read, slice}
use arcology.Disc.Filecore.{DiscRecord}
use arcology.Armlock.{
  disc_record_addr, dir_size, stash_addr, read_disc_record, zone_disc_address, armlock_addresses,
  read_at, read_between, is_past,
}
use arcology.Base.Int.{shift}
use arcology.Armlock.File.{bytes_from_ext}
use arcology.Armlock.Remove.{remove_armlock}
use arcology.Armlock.Remove.Laws.{IsLockable}
use arcology.Armlock.Remove.Writes.{IsRestored, is_patched}
use arcology.Armlock.Remove.Restored.{addresses_at, past_stash_at, remove_armlock-IsRestored}
use arcology.Armlock.Detect.{no_signature, signature_text, scan_disc, detect_armlock_scan}

take-bytes_from : (f : ℕ → ℕ) (a b n : ℕ) → take b (bytes_from f a n) ≡ bytes_from f a (min b n)
unfolding bytes_from
take-bytes_from f a zero n = let none_left : min 0 n ≡ 0 = omega arith in rw none_left refl
take-bytes_from f a (suc b) zero =
    let none_there : min (suc b) 0 ≡ 0 = omega arith in rw none_there refl
take-bytes_from f a (suc b) (suc n) =
    let more : min (suc b) (suc n) ≡ suc (min b n) = omega arith in
    rw more (ap (λ bs. f a ∷ bs) (take-bytes_from f (suc a) b n))

drop-bytes_from : (f : ℕ → ℕ) (a k n : ℕ) → drop k (bytes_from f a n) ≡ bytes_from f (a + k) (n - k)
unfolding bytes_from
drop-bytes_from f a zero n = ap₂ (bytes_from f) (omega arith) (omega arith)
drop-bytes_from f a (suc k) zero = let none_left : 0 - suc k ≡ 0 = omega arith in rw none_left refl
drop-bytes_from f a (suc k) (suc n) =
    drop-bytes_from f (suc a) k n ∙ ap₂ (bytes_from f) (omega arith) (omega arith)

-- A part of what is read is what a read of that part gives.
read-part :
    (image : Image) (a n k j : ℕ)
    → k + j ≤ n
    → slice (read image a n) k (k + j) ≡ read image (a + k) j
unfolding read
read-part image a n k j h =
    let whole = min n (image.size - a) in
    ap (drop k) (take-bytes_from image.byte a (k + j) whole)
    ∙ drop-bytes_from image.byte a k (min (k + j) whole)
    ∙ ap (bytes_from image.byte (a + k)) (omega (arith, h))

not_small : (a b : ℕ) → b ≤ a → ltb a b ≡ false
not_small a b h = ground arith

not_patched :
    (size n m stride o : ℕ)
    → 0xc00 ≤ o
    → o < 0xe00
    → 0xe00 ≤ m
    → m ≤ size
    → is_patched size n m stride o ≡ false
not_patched size n m stride o h k l s = ground arith

kept_byte : (x y : ℕ) (b : Bool) → b ≡ false → (b || x == y) ≡ true → x ≡ y
kept_byte x y b e h = (==_iff x y).0 (rw e at h)

record_kept :
    (image out : Image) (n m stride : ℕ)
    → 0xe00 ≤ m
    → m ≤ image.size
    → IsRestored n m stride image out
    → read out disc_record_addr 0x40 ≡ read image disc_record_addr 0x40
unfolding read
record_kept image out n m stride far k v = rw v.same_size (
    bytes_from_ext out.byte image.byte disc_record_addr (min 0x40 (image.size - disc_record_addr))
      (λ i h.
        let o = disc_record_addr + i in
        kept_byte (out.byte o) (image.byte o) (is_patched image.size n m stride o)
          (not_patched image.size n m stride o (omega arith) (omega (arith, h)) far k)
          (v.others o)))

read_at_inside :
    (image : Image) (a n : ℕ) → a + n ≤ image.size → read_at image (pos a) n ≡ read image a n
unfolding read_at read_between read
read_at_inside image a n h = ap₂ (bytes_from image.byte) (omega (arith, h)) (omega (arith, h))

undetected :
    (image : Image) (rec : DiscRecord)
    → is_past image (shift (armlock_addresses rec).signature 17) ≡ false
    → same_text (read_at image (armlock_addresses rec).signature 17) signature_text ≡ false
    → scan_disc image rec ≡ no_signature rec (armlock_addresses rec)
unfolding scan_disc
undetected image rec e h = rw (e, h) refl

-- The bytes where the signature was are those of the stash.
signature_read :
    (image out : Image) (rec : DiscRecord) (m : ℕ)
    → zone_disc_address rec (rec.nzones / 2) ≡ pos m
    → m + 2 * (rec.nzones * rec.sector_size) + dir_size ≤ image.size
    → IsRestored rec.sector_size m (rec.nzones * rec.sector_size) image out
    → read_at out (armlock_addresses rec).signature 17 ≡ read image (stash_addr + 0x400) 17
signature_read image out rec m at fits r =
    let root = m + 2 * (rec.nzones * rec.sector_size) in
    let place : m + (2 * (rec.nzones * rec.sector_size) + 0x400) ≡ root + 0x400 = omega arith in
    ap (λ a. read_at out a 17) ((addresses_at rec m at).3 ∙ ap pos place)
    ∙ read_at_inside out (root + 0x400) 17 (omega (arith, r.same_size, fits))
    ∙ sym (read-part out root dir_size 0x400 17 (omega arith))
    ∙ ap (λ b. slice b 0x400 (0x400 + 17)) r.root
    ∙ read-part image stash_addr dir_size 0x400 17 (omega arith)

-- A disc from which ARMlock has been removed is scanned to the end and found without the signature, unless the
-- text of the signature stands in the stash itself, in the middle of the real root directory. The hypotheses are those of removal: a disc that
-- the module was written for, its map at `m`, and the stripped root inside the image.
pub detect_armlock_scan-removed :
    (image : Image) (rec : DiscRecord) (m : ℕ)
    → read_disc_record (slice (read image 0 0x1000) disc_record_addr (disc_record_addr + 0x40))
      ≡ some rec
    → IsLockable rec
    → zone_disc_address rec (rec.nzones / 2) ≡ pos m
    → m + 2 * (rec.nzones * rec.sector_size) + dir_size ≤ image.size
    → ((o : ℕ) → image.byte o < 256)
    → same_text (read image (stash_addr + 0x400) 17) signature_text ≡ false
    → (out : Image) × (remove_armlock image ≡ ok out)
      × (detect_armlock_scan out ≡ no_signature rec (armlock_addresses rec))
unfolding detect_armlock_scan
detect_armlock_scan-removed image rec m found v at fits small other =
    let n = rec.sector_size in
    let stride = rec.nzones * n in
    let (out, removed, r) = remove_armlock-IsRestored image rec m found v at fits small in
    let far = past_stash_at rec m v at in
    let on_disc : read_disc_record (read out disc_record_addr 0x40) ≡ some rec =
      ap read_disc_record (
        record_kept image out n m stride far (omega (arith, fits)) r
        ∙ sym (read-part image 0 0x1000 disc_record_addr 0x40 (omega arith)))
      ∙ found in
    let large : ltb out.size 0xe00 ≡ false =
      not_small out.size 0xe00 (omega (arith, r.same_size, fits, far)) in
    let text = signature_read image out rec m at fits r in
    let place = (addresses_at rec m at).3 in
    let there : is_past out (shift (armlock_addresses rec).signature 17) ≡ false =
      ap (λ a. is_past out (shift a 17)) place
      ∙ not_small out.size (m + (2 * stride + 0x400) + 17) (omega (arith, r.same_size, fits)) in
    (
      out,
      removed,
      rw (large, on_disc, v.new_map)
          (undetected out rec there (ap (λ t. same_text t signature_text) text ∙ other)),
    )
