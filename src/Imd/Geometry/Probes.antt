-- ===== src/Imd/Geometry/Probes.antt =====
-- Each probe of detect_geometry_from_boot_data by itself: a result is one that a drive can have.
use mathlib.Core.Path.{subst}
use arcology.Base.{
  ℕ, ◌*◌, ◌/◌, ◌^◌, ◌<◌, ◌≡◌, ◌⊎◌, inl, inr, refl, ap, Bool, true, false, not, ◌&&◌, ◌||◌, Option,
  none, some, take, drop, length, ltb, ◌==◌, if◌then◌else◌, arith, Option-cases, ==_iff,
}
use arcology.Disc.{Bytes, byte_at, u16}
use arcology.Disc.Filecore.{is_valid_disc_record, validate_boot_block_checksum, disc_record_offset}
use arcology.Disc.Fat.{detect_fat_filesystem, total_sectors}
use arcology.Disc.Fat.Laws.{detect_fat_filesystem-IsBootSector}
use arcology.Imd.Track0.{find_sector, Track0}
use arcology.Imd.Geometry.{
  Geometry, Probe, probe_b, probe_c, probe_d, adfs, fat, on_base, probe_e, on_record, assemble,
  sort_sectors, is_plausible, probe_adfs_floppy, probe_adfs_hard_disc, probe_old_map, probe_fat,
  on_sector, or_next,
}

abbrev pub IsSectorSize : ℕ → Type 0
IsSectorSize s = (s ≡ 256) ⊎ (s ≡ 512) ⊎ (s ≡ 1024) ⊎ (s ≡ 2048) ⊎ (s ≡ 4096)

-- At least one sector on a track and one head, and a sector size of the formats.
pub record IsUsable (g : Geometry) : Type 0 where
  pub sectors_per_track : 0 < g.sectors_per_track
  pub heads : 0 < g.heads
  pub sector_size : IsSectorSize g.sector_size

-- A result that is usable where there is one.
pub record OnSome (o : Option Geometry) : Type 0 where
  pub usable : (g : Geometry) → o ≡ some g → IsUsable g

pub OnSome-none : OnSome none
OnSome-none = record { usable = λ g h. absurd (cc h) }

get_geometry : Geometry → Option Geometry → Geometry
get_geometry d none = d
get_geometry d (some g) = g

pub OnSome-some : (g : Geometry) → IsUsable g → OnSome (some g)
unfolding get_geometry
OnSome-some g v = record { usable = λ h e. subst IsUsable (ap (get_geometry g) e) v }

pub OnSome-if :
    (b : Bool) (o p : Option Geometry)
    → (b ≡ true → OnSome o)
    → (b ≡ false → OnSome p)
    → OnSome (if b then o else p)
OnSome-if true o p h k = h refl
OnSome-if false o p h k = k refl

pub OnSome-or_next : (o p : Option Geometry) → OnSome o → OnSome p → OnSome (or_next o p)
OnSome-or_next none p h k = k
OnSome-or_next (some g) p h k = h

power_size : (b : ℕ) → (b ≡ 8) ⊎ (b ≡ 9) ⊎ (b ≡ 10) ⊎ (b ≡ 12) → IsSectorSize (2 ^ b)
power_size b (inl e) = rw e (inl refl)
power_size b (inr (inl e)) = rw e (inr (inl refl))
power_size b (inr (inr (inl e))) = rw e (inr (inr (inl refl)))
power_size b (inr (inr (inr e))) = rw e (inr (inr (inr (inr refl))))

log2_cases :
    (b : ℕ)
    → not (b == 8 || b == 9 || b == 10 || b == 12) ≡ false
    → (b ≡ 8) ⊎ (b ≡ 9) ⊎ (b ≡ 10) ⊎ (b ≡ 12)
log2_cases b h = ground arith

valid_log2 :
    (d : Bytes)
    → is_valid_disc_record d ≡ true
    → not (byte_at d 0 == 8 || byte_at d 0 == 9 || byte_at d 0 == 10 || byte_at d 0 == 12) ≡ false
unfolding is_valid_disc_record
valid_log2 d h = ground arith

record-IsSectorSize : (d : Bytes) → is_valid_disc_record d ≡ true → IsSectorSize (2 ^ byte_at d 0)
record-IsSectorSize d h = power_size (byte_at d 0) (log2_cases (byte_at d 0) (valid_log2 d h))

on_record-IsUsable :
    (track0 : Track0) (d : Bytes) (probe : Probe)
    → is_valid_disc_record d ≡ true
    → 0 < byte_at d 1
    → 0 < byte_at d 2
    → IsUsable (on_record track0 d probe)
on_record-IsUsable track0 d probe v spt heads = record {
  sectors_per_track = spt;
  heads = heads;
  sector_size = record-IsSectorSize d v;
}

valid_of_not : (b : Bool) → not b ≡ false → b ≡ true
valid_of_not true h = refl
valid_of_not false h = cc

both_positive : (a b : ℕ) → ltb 0 a && ltb 0 b ≡ true → (0 < a) × (0 < b)
both_positive a b h = ground arith

both_positive_and : (a b : ℕ) (c : Bool) → ltb 0 a && ltb 0 b && c ≡ true → (0 < a) × (0 < b)
both_positive_and a b c h = ground arith

pub floppy_lem : (track0 : Track0) (sec0 : Bytes) → OnSome (probe_adfs_floppy track0 sec0)
unfolding probe_adfs_floppy
floppy_lem track0 sec0 =
    let d = drop 4 sec0 in
    let positive = ltb 0 (byte_at d 1) && ltb 0 (byte_at d 2) && is_plausible sec0 d in
    let made = if positive then some (on_record track0 d probe_d) else none in
    OnSome-if (ltb (length sec0) 512) none (if not (is_valid_disc_record d) then none else made)
      (λ _. OnSome-none)
      (λ _.
        OnSome-if (not (is_valid_disc_record d)) none made (λ _. OnSome-none)
          (λ v.
            OnSome-if positive (some (on_record track0 d probe_d)) none
              (λ h.
                let (spt, heads) =
                  both_positive_and (byte_at d 1) (byte_at d 2) (is_plausible sec0 d) h in
                OnSome-some _ (
                  on_record-IsUsable track0 d probe_d (valid_of_not (is_valid_disc_record d) v) spt
                    heads))
              (λ _. OnSome-none)))

pub hard_disc_lem : (track0 : Track0) (sec3 : Bytes) → OnSome (probe_adfs_hard_disc track0 sec3)
unfolding probe_adfs_hard_disc
hard_disc_lem track0 sec3 =
    let d = drop disc_record_offset sec3 in
    let summed = validate_boot_block_checksum (take 512 sec3) in
    let positive = ltb 0 (byte_at d 1) && ltb 0 (byte_at d 2) in
    let made = if positive then some (on_record track0 d probe_e) else none in
    let checked = if not (is_valid_disc_record d) then none else made in
    OnSome-if (ltb (length sec3) 512) none (if not summed then none else checked) (λ _. OnSome-none)
      (λ _.
        OnSome-if (not summed) none checked (λ _. OnSome-none)
          (λ _.
            OnSome-if (not (is_valid_disc_record d)) none made (λ _. OnSome-none)
              (λ v.
                OnSome-if positive (some (on_record track0 d probe_e)) none
                  (λ h.
                    let (spt, heads) = both_positive (byte_at d 1) (byte_at d 2) h in
                    OnSome-some _ (
                      on_record-IsUsable track0 d probe_e (valid_of_not (is_valid_disc_record d) v)
                        spt heads))
                  (λ _. OnSome-none))))

pub on_sector_lem :
    (track0 : Track0) (id : ℕ) (probe : Track0 → Bytes → Option Geometry)
    → ((d : Bytes) → OnSome (probe track0 d))
    → OnSome (on_sector track0 id probe)
on_sector_lem track0 id probe h =
    elim (find_sector id track0.sectors)
      as (λ o. OnSome (elim o as (λ _. Option Geometry) [
        | none ↦ none
        | some d ↦ if track0.sector_size == 1024 then probe track0 d else none
      ])) [
        | none ↦ OnSome-none
        | some d ↦
            OnSome-if (track0.sector_size == 1024) (probe track0 d) none (λ _. h d)
              (λ _. OnSome-none)
      ]

pub old_map_lem :
    (track0 : Track0)
    → 0 < track0.heads
    → OnSome (if track0.sector_size == 256 then probe_old_map track0 else none)
unfolding probe_old_map
old_map_lem track0 heads =
    OnSome-if (track0.sector_size == 256) _ none
      (λ size.
        OnSome-if _ _ none
          (λ _. OnSome-some (on_base track0 adfs 16 probe_b) (record {
            sectors_per_track = omega arith;
            heads = heads;
            sector_size = inl ((==_iff track0.sector_size 256).0 size);
          }))
          (λ _. OnSome-none))
      (λ _. OnSome-none)

bps_size : (b : ℕ) → (b ≡ 512) ⊎ (b ≡ 1024) ⊎ (b ≡ 2048) ⊎ (b ≡ 4096) → IsSectorSize b
bps_size b h = inr h

abbrev fat_geometry : Track0 → Bytes → Geometry
fat_geometry track0 bpb = record (on_base track0 fat (u16 bpb 24) probe_c) {
  heads = u16 bpb 26;
  cylinders = total_sectors bpb / (u16 bpb 24 * u16 bpb 26);
  sector_size = u16 bpb 11;
}

pub fat_lem : (track0 : Track0) → OnSome (probe_fat track0)
unfolding probe_fat
fat_lem track0 =
    let bpb = take 512 (assemble (sort_sectors track0.sectors)) in
    let positive = ltb 0 (u16 bpb 24) && ltb 0 (u16 bpb 26) && ltb 0 (total_sectors bpb) in
    elim (Option-cases (detect_fat_filesystem bpb)) [
      | inl n ↦ rw (probe_fat, n) OnSome-none
      | inr (t, f) ↦
          rw (probe_fat, f)
            (OnSome-if positive (some (fat_geometry track0 bpb)) none
              (λ h.
                let (spt, heads) =
                  both_positive_and (u16 bpb 24) (u16 bpb 26) (ltb 0 (total_sectors bpb)) h in
                OnSome-some (fat_geometry track0 bpb) (record {
                  sectors_per_track = spt;
                  heads = heads;
                  sector_size =
                      bps_size (u16 bpb 11)
                        (detect_fat_filesystem-IsBootSector bpb t f).0.bytes_per_sector;
                }))
              (λ _. OnSome-none))
    ]
