-- ===== src/Armlock/Remove/Laws.antt =====
-- What remove_armlock leaves on a disc whose map lies past the stash.
use native.Mathlib.Nat.{mul-le-mul_left, mul-le-mul_right, add-mul}
use arcology.Base.{
  ℕ, zero, suc, ◌+◌, ◌-◌, ◌*◌, ◌/◌, ◌%◌, ◌≤◌, ◌<◌, ◌≡◌, refl, sym, ap, ◌∙◌, true, false, some, [],
  ◌∷◌, length, length-set, set, min, ltb, leb, ◌==◌, arith, lt→ltb,
}
use arcology.Base.Int.{pos}
use arcology.Base.Result.{ok}
use arcology.Disc.{Bytes, Image, bytes_from, read, byte_at}
use arcology.Disc.Words.{length-read}
use arcology.Disc.Filecore.{DiscRecord}
use arcology.Armlock.{zone_disc_address, compute_zone_check, fold_word, add_words}
use arcology.Armlock.Check.{fold_word-IsByte, compute_zone_check-set}
use arcology.Armlock.File.{write}
use arcology.Armlock.Remove.{patched_sector, patch_map}

-- A disc that the module was written for: a new map of two zones or more, and sectors of 512 bytes or more.
pub record IsLockable (rec : DiscRecord) : Type 0 where
  pub new_map : (rec.idlen == 0) ≡ false
  pub sectors : 512 ≤ rec.sector_size
  pub words : rec.sector_size % 4 ≡ 0
  pub units : 1 ≤ rec.bpmb
  pub zones : 2 ≤ rec.nzones

zone_bound :
    (b s h : ℕ) → 512 ≤ s → 1 ≤ b → (64 * 8 + h * (4 * 8)) * b + 3584 ≤ (s * 8 + h * (s * 8)) * b
zone_bound b s h p q =
    let row : 4 * 8 ≤ s * 8 = omega (arith, p) in
    let rows : h * (4 * 8) ≤ h * (s * 8) = mul-le-mul_left h row in
    let wide : 64 * 8 + h * (4 * 8) + 3584 ≤ s * 8 + h * (s * 8) = omega (arith, p, rows) in
    let scaled = mul-le-mul_right b wide in
    omega (arith, scaled, add-mul (64 * 8 + h * (4 * 8)) 3584 b, mul-le-mul_right 3584 q)

-- The map lies past the stash.
pub map_start :
    (rec : DiscRecord)
    → IsLockable rec
    → (m : ℕ) × (zone_disc_address rec (rec.nzones / 2) ≡ pos m) × (0xe00 ≤ m)
unfolding zone_disc_address
map_start rec v =
    let h = rec.nzones / 2 in
    let far = zone_bound rec.bpmb rec.sector_size (h - 1) v.sectors v.units in
    let up = (rec.sector_size * 8 + (h - 1) * (rec.sector_size * 8)) * rec.bpmb in
    let down = (64 * 8 + (h - 1) * (4 * 8)) * rec.bpmb in
    let some_zones : (h == 0) ≡ false = ground (arith, v.zones) in
    let above : leb down up ≡ true = ground (arith, far) in
    (up - down, rw (some_zones, above), omega (arith, far))

-- A copy of the map with its boot option decoded, changed in its check byte only beside, which is right for it.
abbrev pub IsPatched : Bytes → Bytes → Type 0
IsPatched old new =
    (new ≡ set (set old 0x0b (byte_at old 0x0b / 4)) 0 (byte_at new 0))
    × (compute_zone_check new ≡ some (byte_at new 0))

byte_at-set_zero : (d : Bytes) (x : ℕ) → 0 < length d → byte_at (set d 0 x) 0 ≡ x
byte_at-set_zero [] x h = absurd (omega (arith, h))
byte_at-set_zero (b ∷ d) x h = refl

first-set : (d : Bytes) (i x : ℕ) → byte_at (set d (suc i) x) 0 ≡ byte_at d 0
first-set [] i x = refl
first-set (b ∷ d) i x = refl

check_byte :
    (d : Bytes)
    → length d % 4 ≡ 0
    → 0 < length d
    → (c : ℕ) × (compute_zone_check d ≡ some c) × (c < 256)
unfolding compute_zone_check
check_byte d h k =
    let s = ((add_words d).0 + 4294967296 - byte_at d 0) % 4294967296 in
    (fold_word s, rw (h, lt→ltb 0 (length d) k) refl, fold_word-IsByte s)

pub patched :
    (d : Bytes)
    → 0x0b < length d
    → length d % 4 ≡ 0
    → byte_at d 0 < 256
    → (new : Bytes) × (patched_sector d ≡ ok new) × (length new ≡ length d) × IsPatched d new
unfolding patched_sector
patched d h k l =
    let decoded = set d 0x0b (byte_at d 0x0b / 4) in
    let same_length = length-set d 0x0b (byte_at d 0x0b / 4) in
    let first = first-set d 0x0a (byte_at d 0x0b / 4) in
    let (c, e, small) =
      check_byte decoded (ap (λ n. n % 4) same_length ∙ k) (omega (arith, same_length, h)) in
    let new = set decoded 0 c in
    let at : byte_at new 0 ≡ c = byte_at-set_zero decoded c (omega (arith, same_length, h)) in
    (
      new,
      rw (lt→ltb 0x0b (length d) h, e) refl,
      length-set decoded 0 c ∙ same_length,
      (
        ap (set decoded 0) (sym at),
        compute_zone_check-set decoded c (omega (arith, first, l)) small ∙ e ∙ ap some (sym at),
      ),
    )

byte_at-bytes_from : (byte : ℕ → ℕ) (a n : ℕ) → 0 < n → byte_at (bytes_from byte a n) 0 ≡ byte a
unfolding bytes_from
byte_at-bytes_from byte a zero h = absurd (omega (arith, h))
byte_at-bytes_from byte a (suc n) h = refl

byte_at-read :
    (image : Image) (a n : ℕ) → 0 < n → a < image.size → byte_at (read image a n) 0 ≡ image.byte a
unfolding read
byte_at-read image a n h k =
    byte_at-bytes_from image.byte a (min n (image.size - a)) (omega (arith, h, k))

not_below : (n : ℕ) → ltb n n ≡ false
not_below n = ground arith

pub patch_map_lem :
    (n a : ℕ) (file : Image)
    → 512 ≤ n
    → n % 4 ≡ 0
    → a + n ≤ file.size
    → file.byte a < 256
    → (new : Bytes) × (patch_map n a file ≡ ok (write a new file))
      × (length new ≡ n)
      × IsPatched (read file a n) new
unfolding patch_map
patch_map_lem n a file h k l small =
    let size : length (read file a n) ≡ n = omega (arith, length-read file a n, l) in
    let first = byte_at-read file a n (omega (arith, h)) (omega (arith, h, l)) in
    let (new, e, same, v) =
      patched (read file a n) (omega (arith, size, h)) (ap (λ s. s % 4) size ∙ k)
        (omega (arith, first, small)) in
    let whole : ltb (length (read file a n)) n ≡ false = ap (λ k. ltb k n) size ∙ not_below n in
    (new, rw (whole, e) refl, same ∙ size, v)
