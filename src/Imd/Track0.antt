-- ===== src/Imd/Track0.antt =====
-- parse_imd_track0 of imd.py: the extents of a file, and the sectors of cylinder 0, head 0.
pub mod Laws
use arcology.Base.{
  ℕ, zero, suc, ◌+◌, Bool, true, false, not, ◌&&◌, ◌||◌, Option, none, some, List, [], ◌∷◌, ◌++◌,
  length, max, replicate, ◌==◌, get_elem?, if◌then◌else◌,
}
use arcology.Disc.{Bytes}
use arcology.Imd.{
  TrackHeader, HeaderRead, no_header, truncated, header, parse_track_header, read_imd_data,
}
use arcology.Imd.Sectors.{walk_sectors}

-- `dict[int, bytes]` in the order of insertion.
abbrev pub Sectors : Type 0
Sectors = List (ℕ × Bytes)

unfoldable pub find_sector : ℕ → Sectors → Option Bytes
find_sector id [] = none
find_sector id ((k, d) ∷ rest) = if k == id then some d else find_sector id rest

-- `if sector_ids[i] not in track0_sectors: track0_sectors[sector_ids[i]] = …`
unfoldable pub add_sector : ℕ → Bytes → Sectors → Sectors
unfolding find_sector
add_sector id d sectors = elim (find_sector id sectors) [
  | none ↦ sectors ++ ((id, d) ∷ [])
  | some e ↦ sectors
]

-- `is_track0 and i < len(sector_ids)`
unfoldable pub store_sector : TrackHeader → ℕ → Bytes → Sectors → Sectors
unfolding add_sector
store_sector hdr i d sectors = elim (get_elem? hdr.sector_ids i) [
  | none ↦ sectors
  | some id ↦ if hdr.cylinder == 0 && hdr.head == 0 then add_sector id d sectors else sectors
]

abbrev pub store_fill : TrackHeader → ℕ → ℕ → Sectors → Sectors
store_fill hdr i fill sectors = store_sector hdr i (replicate hdr.sector_size fill) sectors

-- The variables of the loop.
pub record Extents : Type 0 where
  pub max_cylinder : ℕ
  pub max_head : ℕ
  pub first : Option (Bool × ℕ)
  pub sectors : Sectors

abbrev pub no_extents : Extents
no_extents = record { max_cylinder = 0; max_head = 0; first = none; sectors = [] }

abbrev pub or_first : TrackHeader → Option (Bool × ℕ) → Option (Bool × ℕ)
or_first hdr none = some (hdr.is_fm, hdr.sector_size)
or_first hdr (some f) = some f

-- What a header adds, also one whose maps are cut off.
unfoldable pub see_header : TrackHeader → Extents → Extents
see_header hdr e = record e {
  max_cylinder = max e.max_cylinder hdr.cylinder;
  max_head = max e.max_head hdr.head;
  first = or_first hdr e.first;
}

abbrev pub walk_track0 : TrackHeader → Bytes → Sectors → Sectors × Bytes
walk_track0 hdr rest sectors =
    walk_sectors (store_sector hdr) (store_fill hdr) hdr.sector_size 0 hdr.nsec rest sectors

-- `while pos < len(data)`
unfoldable pub extents_from : ℕ → Bytes → Extents → Extents
unfolding see_header store_sector
extents_from zero bytes e = e
extents_from (suc fuel) bytes e = elim (parse_track_header bytes) [
  | no_header ↦ e
  | truncated hdr ↦ see_header hdr e
  | header hdr rest ↦
      let (sectors, left) = walk_track0 hdr rest e.sectors in
      extents_from fuel left (record (see_header hdr e) { sectors = sectors })
]

-- The dict that parse_imd_track0 returns.
pub record Track0 : Type 0 where
  pub is_fm : Bool
  pub sector_size : ℕ
  pub cylinders : ℕ
  pub heads : ℕ
  pub sectors : Sectors

abbrev pub track0_of : Extents → Option Track0
track0_of e = elim e.first [
  | none ↦ none
  | some (is_fm, sector_size) ↦ some (record {
    is_fm = is_fm;
    sector_size = sector_size;
    cylinders = e.max_cylinder + 1;
    heads = e.max_head + 1;
    sectors = e.sectors;
  })
]

unfoldable pub parse_imd_track0 : Option Bytes → Option Track0
unfolding extents_from
parse_imd_track0 file = elim (read_imd_data file) [
  | none ↦ none
  | some bytes ↦ track0_of (extents_from (length bytes) bytes no_extents)
]
