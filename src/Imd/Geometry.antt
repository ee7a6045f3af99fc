-- ===== src/Imd/Geometry.antt =====
-- detect_geometry_from_boot_data of imd.py: the five probes of track 0, in their order.
pub mod Probes
pub mod Laws
use arcology.Base.{
  ℕ, ◌+◌, ◌*◌, ◌/◌, ◌%◌, ◌^◌, Bool, true, false, not, ◌&&◌, ◌||◌, Option, none, some, List, [], ◌∷◌,
  ◌++◌, take, drop, length, ltb, leb, ◌==◌, any, if◌then◌else◌,
}
use arcology.Base.Text.{codes, same_text}
use arcology.Disc.{Bytes, byte_at, slice, u16, u32}
use arcology.Disc.Filecore.{is_valid_disc_record, validate_boot_block_checksum, disc_record_offset}
use arcology.Disc.Fat.{Fat, detect_fat_filesystem, total_sectors}
use arcology.Imd.Track0.{Sectors, find_sector, Track0}

pub data Filesystem : Type 0 where
  dfs adfs fat : Filesystem

pub data Probe : Type 0 where
  probe_a probe_b probe_c probe_d probe_e : Probe

pub record Geometry : Type 0 where
  pub filesystem : Filesystem
  pub is_fm : Bool
  pub cylinders : ℕ
  pub heads : ℕ
  pub sectors_per_track : ℕ
  pub sector_size : ℕ
  pub probe : Probe

-- `{**base, 'filesystem': …, 'sectors_per_track': …, 'probe': …}`
abbrev pub on_base : Track0 → Filesystem → ℕ → Probe → Geometry
on_base track0 filesystem sectors_per_track probe = record {
  filesystem = filesystem;
  is_fm = track0.is_fm;
  cylinders = track0.cylinders;
  heads = track0.heads;
  sectors_per_track = sectors_per_track;
  sector_size = track0.sector_size;
  probe = probe;
}

-- `sum(data)`
unfoldable pub byte_sum : Bytes → ℕ
byte_sum [] = 0
byte_sum (b ∷ bs) = b + byte_sum bs

-- The geometry that a disc record gives, with the cylinders from the size of the disc.
abbrev pub on_record : Track0 → Bytes → Probe → Geometry
on_record track0 disc_record probe =
    let sector_size_dr = 2 ^ byte_at disc_record 0 in
    let per_cylinder = byte_at disc_record 1 * sector_size_dr * byte_at disc_record 2 in
    let disc_size_bytes = u32 disc_record 0x10 in
    record (on_base track0 adfs (byte_at disc_record 1) probe) {
      cylinders =
          if ltb 0 disc_size_bytes then disc_size_bytes / per_cylinder else track0.cylinders;
      heads = byte_at disc_record 2;
      sector_size = sector_size_dr;
    }

-- `checksum_ok or size_aligned`
unfoldable pub is_plausible : Bytes → Bytes → Bool
unfolding byte_sum
is_plausible sec0 disc_record =
    let disc_size_bytes = u32 disc_record 0x10 in
    let checksum_ok = byte_sum (take 512 sec0) % 256 == 0 || byte_sum sec0 % 256 == 0 in
    let size_aligned = ltb 0 disc_size_bytes && disc_size_bytes % 2 ^ byte_at disc_record 0 == 0 in
    checksum_ok || size_aligned

unfoldable pub probe_adfs_floppy : Track0 → Bytes → Option Geometry
unfolding is_plausible
probe_adfs_floppy track0 sec0 =
    let disc_record = drop 4 sec0 in
    if ltb (length sec0) 512
    then none
    else if not (is_valid_disc_record disc_record)
    then none
    else if ltb 0 (byte_at disc_record 1)
        && ltb 0 (byte_at disc_record 2)
        && is_plausible sec0 disc_record
    then some (on_record track0 disc_record probe_d)
    else none

unfoldable pub probe_adfs_hard_disc : Track0 → Bytes → Option Geometry
probe_adfs_hard_disc track0 sec3 =
    let disc_record = drop disc_record_offset sec3 in
    if ltb (length sec3) 512
    then none
    else if not (validate_boot_block_checksum (take 512 sec3))
    then none
    else if not (is_valid_disc_record disc_record)
    then none
    else if ltb 0 (byte_at disc_record 1) && ltb 0 (byte_at disc_record 2)
    then some (on_record track0 disc_record probe_e)
    else none

-- `len(sec_data) >= 5 and sec_data[1:5] == b'Hugo'`, for one of the sectors.
unfoldable pub is_hugo : ℕ × Bytes → Bool
is_hugo (id, d) = leb 5 (length d) && same_text (slice d 1 5) (codes "Hugo")

unfoldable pub probe_old_map : Track0 → Option Geometry
unfolding is_hugo
probe_old_map track0 =
    if any is_hugo track0.sectors then some (on_base track0 adfs 16 probe_b) else none

-- `sorted(sectors.items())`: the ids of a dict are distinct.
unfoldable pub insert_sector : ℕ × Bytes → Sectors → Sectors
insert_sector s [] = s ∷ []
insert_sector s (t ∷ ts) =
    let rest = insert_sector s ts in if leb s.0 t.0 then s ∷ t ∷ ts else t ∷ rest

unfoldable pub sort_sectors : Sectors → Sectors
unfolding insert_sector
sort_sectors [] = []
sort_sectors (s ∷ ss) = insert_sector s (sort_sectors ss)

unfoldable pub assemble : Sectors → Bytes
assemble [] = []
assemble ((id, d) ∷ ss) = d ++ assemble ss

unfoldable pub probe_fat : Track0 → Option Geometry
unfolding sort_sectors assemble
probe_fat track0 =
    let bpb = take 512 (assemble (sort_sectors track0.sectors)) in
    elim (detect_fat_filesystem bpb) [
      | none ↦ none
      | some fat_type ↦
          if ltb 0 (u16 bpb 24) && ltb 0 (u16 bpb 26) && ltb 0 (total_sectors bpb)
          then some (record (on_base track0 fat (u16 bpb 24) probe_c) {
            heads = u16 bpb 26;
            cylinders = total_sectors bpb / (u16 bpb 24 * u16 bpb 26);
            sector_size = u16 bpb 11;
          })
          else none
    ]

-- A probe of one sector, where the sectors are of 1024 bytes and it is there.
abbrev pub on_sector : Track0 → ℕ → (Track0 → Bytes → Option Geometry) → Option Geometry
on_sector track0 id probe = elim (find_sector id track0.sectors) [
  | none ↦ none
  | some d ↦ if track0.sector_size == 1024 then probe track0 d else none
]

abbrev pub or_next : Option Geometry → Option Geometry → Option Geometry
or_next (some g) o = some g
or_next none o = o

unfoldable pub detect_geometry_from_boot_data : Track0 → Option Geometry
unfolding probe_adfs_floppy probe_adfs_hard_disc probe_old_map probe_fat
detect_geometry_from_boot_data track0 =
    if track0.is_fm
    then some (record (on_base track0 dfs 10 probe_a) { sector_size = 256 })
    else or_next (on_sector track0 0 probe_adfs_floppy) (
        or_next (on_sector track0 3 probe_adfs_hard_disc) (
          or_next (if track0.sector_size == 256 then probe_old_map track0 else none)
            (if ltb 0 (length track0.sectors) then probe_fat track0 else none)))
