-- ===== src/Imd/Geometry/Laws.antt =====
-- The geometries that detect_geometry_from_boot_data gives are ones a drive can have.
use mathlib.Core.Path.{subst}
use arcology.Base.{
  ℕ, ◌<◌, ◌≡◌, inl, inr, refl, Option, none, some, length, ltb, arith, Option-cases,
}
use arcology.Disc.{Bytes}
use arcology.Imd.{read_imd_data}
use arcology.Imd.Track0.{Track0, Extents, no_extents, extents_from, track0_of, parse_imd_track0}
use arcology.Imd.Geometry.{
  Geometry, probe_a, dfs, on_base, probe_adfs_floppy, probe_adfs_hard_disc,
  detect_geometry_from_boot_data,
}
use arcology.Imd.Geometry.Probes.{
  IsUsable, OnSome, OnSome-none, OnSome-some, OnSome-if, OnSome-or_next, floppy_lem, hard_disc_lem,
  on_sector_lem, old_map_lem, fat_lem,
}

detect_lem : (track0 : Track0) → 0 < track0.heads → OnSome (detect_geometry_from_boot_data track0)
unfolding detect_geometry_from_boot_data
detect_lem track0 heads =
    OnSome-if track0.is_fm _ _
      (λ _.
        OnSome-some (record (on_base track0 dfs 10 probe_a) { sector_size = 256 })
          (record { sectors_per_track = omega arith; heads = heads; sector_size = inl refl }))
      (λ _. OnSome-or_next _ _ (on_sector_lem track0 0 probe_adfs_floppy (floppy_lem track0)) (
        OnSome-or_next _ _ (on_sector_lem track0 3 probe_adfs_hard_disc (hard_disc_lem track0)) (
          OnSome-or_next _ _ (old_map_lem track0 heads) (
            OnSome-if (ltb 0 (length track0.sectors)) _ none (λ _. fat_lem track0)
              (λ _. OnSome-none)))))

heads_of : Option Track0 → ℕ
heads_of none = 1
heads_of (some r) = r.heads

track0_of-heads : (e : Extents) → 0 < heads_of (track0_of e)
unfolding heads_of
track0_of-heads e = elim (Option-cases e.first) [
  | inl n ↦ rw n (omega arith)
  | inr (x, n) ↦ rw n (omega arith)
]

data_heads :
    (o : Option Bytes)
    → 0
      < heads_of (elim o [
        | none ↦ none
        | some bytes ↦ track0_of (extents_from (length bytes) bytes no_extents)
      ])
unfolding heads_of
data_heads none = omega arith
data_heads (some bytes) = track0_of-heads (extents_from (length bytes) bytes no_extents)

parse_imd_track0-heads : (file : Option Bytes) → 0 < heads_of (parse_imd_track0 file)
unfolding parse_imd_track0
parse_imd_track0-heads file = data_heads (read_imd_data file)

-- A geometry that is found for the track 0 of a file, by whichever probe, has at least one sector on a track
-- and one head, and its sectors are of 256, 512, 1024, 2048 or 4096 bytes.
pub detect_geometry_from_boot_data-IsUsable :
    (file : Option Bytes) (r : Track0) (g : Geometry)
    → parse_imd_track0 file ≡ some r
    → detect_geometry_from_boot_data r ≡ some g
    → IsUsable g
unfolding heads_of
detect_geometry_from_boot_data-IsUsable file r g h k =
    let heads : 0 < r.heads = subst (λ o. 0 < heads_of o) h (parse_imd_track0-heads file) in
    (detect_lem r heads).usable g k
