-- ===== src/Disc/Fat/Laws.antt =====
-- What a boot sector that is taken for FAT has.
use arcology.Base.{
  all, List, [], ◌∷◌, Bool-cases, ==_iff, inl, inr, and-eq_true, ap, ◌∙◌, ℕ, zero, suc, ◌≤◌, ◌<◌,
  ◌≡◌, ◌⊎◌, refl, Bool, true, false, not, ◌&&◌, ◌||◌, Option, none, some, length, ltb, ◌==◌,
  if◌then◌else◌, arith,
}
use arcology.Disc.{Bytes, byte_at, u16}
use arcology.Disc.Fat.{Fat, is_valid_bps, is_valid_spc, is_valid_media, detect_fat_filesystem}

-- The legal values of the BIOS parameter block.
pub record IsBootSector (sector : Bytes) : Type 0 where
  pub long_enough : 512 ≤ length sector
  pub signature : (byte_at sector 510 ≡ 0x55) × (byte_at sector 511 ≡ 0xaa)
  pub bytes_per_sector :
      (u16 sector 11 ≡ 512)
      ⊎ (u16 sector 11 ≡ 1024)
      ⊎ (u16 sector 11 ≡ 2048)
      ⊎ (u16 sector 11 ≡ 4096)
  pub cluster_size : is_valid_spc (byte_at sector 13) ≡ true
  pub reserved : 1 ≤ u16 sector 14
  pub fats : (byte_at sector 16 ≡ 1) ⊎ (byte_at sector 16 ≡ 2)
  pub media : (byte_at sector 21 ≡ 0xf0) ⊎ (0xf8 ≤ byte_at sector 21)

-- The bytes below a bound, from the largest, as a list to run a test on.
bytes_below : ℕ → List ℕ
bytes_below zero = []
bytes_below (suc k) = k ∷ bytes_below k

test-bytes_below :
    (test : ℕ → Bool) (b k : ℕ) → b < k → all test (bytes_below k) ≡ true → test b ≡ true
unfolding bytes_below
test-bytes_below test b zero small checked = absurd (omega (arith, small))
test-bytes_below test b (suc k) small checked =
    let (top, others) = and-eq_true (test k) (all test (bytes_below k)) checked in
    elim (Bool-cases (b == k)) [
      | inl same ↦ ap test ((==_iff b k).0 same) ∙ top
      | inr other ↦ test-bytes_below test b k (ground arith) others
    ]

abbrev pub is_power : ℕ → Bool
is_power s = s == 1 || s == 2 || s == 4 || s == 8 || s == 16 || s == 32 || s == 64 || s == 128

spc_table : all (λ s. not (is_valid_spc s) || is_power s) (bytes_below 129) ≡ true
unfolding bytes_below is_valid_spc
spc_table = refl

spc_bound : (s : ℕ) → is_valid_spc s ≡ true → s < 129
unfolding is_valid_spc
spc_bound s h = ground arith

-- The sectors per cluster that the bit trick of the check lets through are the powers of two up to 128.
pub is_valid_spc_lem : (s : ℕ) → is_valid_spc s ≡ true → is_power s ≡ true
is_valid_spc_lem s h = ground (
  arith,
  test-bytes_below (λ v. not (is_valid_spc v) || is_power v) s 129 (spc_bound s h) spc_table,
)

passed :
    (b : Bool) (o : Option Fat) (t : Fat)
    → (if b then none else o) ≡ some t
    → (b ≡ false) × (o ≡ some t)
passed true o t h = cc
passed false o t h = (refl, h)

holds : (b : Bool) → not b ≡ false → b ≡ true
holds true h = refl
holds false h = cc

neither : (a b : Bool) → not a || not b ≡ false → a && b ≡ true
neither a b h = ground arith

-- What every check has let through.
checks :
    (sector : Bytes) (t : Fat)
    → detect_fat_filesystem sector ≡ some t
    → (ltb (length sector) 512 ≡ false)
      × ((byte_at sector 510 == 0x55) && (byte_at sector 511 == 0xaa) ≡ true)
      × (is_valid_bps (u16 sector 11) ≡ true)
      × (is_valid_spc (byte_at sector 13) ≡ true)
      × (ltb (u16 sector 14) 1 ≡ false)
      × ((byte_at sector 16 == 1) || (byte_at sector 16 == 2) ≡ true)
      × (is_valid_media (byte_at sector 21) ≡ true)
unfolding detect_fat_filesystem
checks sector t h =
    let (long, h1) = passed _ _ t h in
    let (signature, h2) = passed _ _ t h1 in
    let (bps, h3) = passed _ _ t h2 in
    let (spc, h4) = passed _ _ t h3 in
    let (rsvd, h5) = passed _ _ t h4 in
    let (fats, h6) = passed _ _ t h5 in
    let (media, h7) = passed _ _ t h6 in
    (long, neither _ _ signature, holds _ bps, holds _ spc, rsvd, holds _ fats, holds _ media)

bps_cases : (b : ℕ) → is_valid_bps b ≡ true → (b ≡ 512) ⊎ (b ≡ 1024) ⊎ (b ≡ 2048) ⊎ (b ≡ 4096)
unfolding is_valid_bps
bps_cases b h = ground arith

media_cases : (m : ℕ) → is_valid_media m ≡ true → (m ≡ 0xf0) ⊎ (0xf8 ≤ m)
unfolding is_valid_media
media_cases m h = ground arith

one_or_two : (n : ℕ) → (n == 1) || (n == 2) ≡ true → (n ≡ 1) ⊎ (n ≡ 2)
one_or_two n h = ground arith

both : (a b : ℕ) → (a == 0x55) && (b == 0xaa) ≡ true → (a ≡ 0x55) × (b ≡ 0xaa)
both a b h = ground arith

-- A sector that is taken for FAT, of whatever variant, is a legal boot sector, and its sectors per cluster
-- are a power of two of at most 128.
pub detect_fat_filesystem-IsBootSector :
    (sector : Bytes) (t : Fat)
    → detect_fat_filesystem sector ≡ some t
    → IsBootSector sector × (is_power (byte_at sector 13) ≡ true)
detect_fat_filesystem-IsBootSector sector t h =
    let (long, signature, bps, spc, rsvd, fats, media) = checks sector t h in
    (
      record {
        long_enough = ground (arith, long);
        signature = both _ _ signature;
        bytes_per_sector = bps_cases _ bps;
        cluster_size = spc;
        reserved = ground (arith, rsvd);
        fats = one_or_two _ fats;
        media = media_cases _ media;
      },
      is_valid_spc_lem _ spc,
    )
