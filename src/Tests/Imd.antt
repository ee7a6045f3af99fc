-- ===== src/Tests/Imd.antt =====
-- Imd and its modules on a file of two tracks, and on made-up tracks.
use arcology.Base.{
  map, ℕ, ◌*◌, ◌<◌, ◌≡◌, refl, true, false, Option, some, List, [], ◌∷◌, ◌++◌, All, count,
  replicate, arith,
}
use arcology.Base.Text.{codes, starts_with, same_text}
use arcology.Disc.{Bytes}
use arcology.Imd.{TrackHeader, header, read_imd_data, parse_track_header}
use arcology.Imd.Header.{print_track_header, IsHeader, parse_track_header-print}
use arcology.Imd.Sectors.{walk_sectors}
use arcology.Imd.Tracks.{Track, parse_imd_tracks}
use arcology.Imd.Track0.{Track0, find_sector, parse_imd_track0}
use arcology.Imd.Track0.Laws.{IsWithin, parse_imd_track0-covers}
use arcology.Imd.Density.Laws.{IsOwnCylinder, is_checked, is_on_0}
use arcology.Imd.Geometry.{Geometry, adfs, probe_b, detect_geometry_from_boot_data}
use arcology.Imd.Geometry.Probes.{IsUsable}
use arcology.Imd.Geometry.Laws.{detect_geometry_from_boot_data-IsUsable}

-- A header with a cylinder map and no head map.
abbrev mapped_header : TrackHeader
mapped_header = record {
  mode = 5;
  cylinder = 3;
  head = 1;
  nsec = 2;
  size_code = 1;
  sector_size = 256;
  is_fm = false;
  sector_ids = 1 ∷ 2 ∷ [];
  sector_cyls = 1 ∷ 1 ∷ [];
  idam_heads = 1 ∷ 1 ∷ [];
}

mapped_header-IsHeader : IsHeader true false mapped_header
mapped_header-IsHeader = record {
  head = omega arith;
  ids = refl;
  cyls = refl;
  heads = refl;
  plain_cyls = λ h. absurd (cc h);
  plain_heads = λ _. refl;
  size = refl;
  encoding = refl;
}

parse_track_header-print_example :
    parse_track_header (print_track_header true false mapped_header ++ (7 ∷ 8 ∷ []))
    ≡ header mapped_header (7 ∷ 8 ∷ [])
parse_track_header-print_example =
    parse_track_header-print true false mapped_header (7 ∷ 8 ∷ []) mapped_header-IsHeader

-- Two tracks of one sector: an old-map directory on cylinder 0, and a filled sector on head 1.
abbrev hugo : Bytes
hugo = 0 ∷ codes "Hugo" ++ replicate 251 0

abbrev track_bytes : Bytes
track_bytes = (5 ∷ 0 ∷ 0 ∷ 1 ∷ 1 ∷ 2 ∷ 1 ∷ []) ++ hugo ++ (5 ∷ 1 ∷ 1 ∷ 1 ∷ 1 ∷ 9 ∷ 2 ∷ 0xe5 ∷ [])

abbrev imd_file : Option Bytes
imd_file = some (codes "IMD 1.18" ++ (0x1a ∷ track_bytes))

abbrev hugo_track : Track
hugo_track = record {
  physical_index = 0;
  cylinder = 0;
  head = 0;
  is_fm = false;
  sector_size = 256;
  sector_ids = 2 ∷ [];
  sector_cyls = 0 ∷ [];
  idam_heads = 0 ∷ [];
  has_data = true;
  is_uniform_fill = false;
}

abbrev filled_track : Track
filled_track = record {
  physical_index = 1;
  cylinder = 1;
  head = 1;
  is_fm = false;
  sector_size = 256;
  sector_ids = 9 ∷ [];
  sector_cyls = 1 ∷ [];
  idam_heads = 1 ∷ [];
  has_data = true;
  is_uniform_fill = true;
}

imd_tracks : parse_imd_tracks imd_file ≡ some (hugo_track ∷ filled_track ∷ [])
unfolding parse_imd_tracks read_imd_data parse_track_header walk_sectors starts_with
imd_tracks = refl

abbrev imd_track0 : Track0
imd_track0 = record {
  is_fm = false;
  sector_size = 256;
  cylinders = 2;
  heads = 2;
  sectors = (2, hugo) ∷ [];
}

imd_extents : parse_imd_track0 imd_file ≡ some imd_track0
unfolding parse_imd_track0 read_imd_data parse_track_header walk_sectors starts_with
imd_extents = refl

parse_imd_track0-covers_example :
    (r : Track0) × (parse_imd_track0 imd_file ≡ some r)
    × All (IsWithin r) (hugo_track ∷ filled_track ∷ [])
parse_imd_track0-covers_example =
    parse_imd_track0-covers imd_file (hugo_track ∷ filled_track ∷ []) imd_tracks

abbrev hugo_geometry : Geometry
hugo_geometry = record {
  filesystem = adfs;
  is_fm = false;
  cylinders = 2;
  heads = 2;
  sectors_per_track = 16;
  sector_size = 256;
  probe = probe_b;
}

finds_hugo : detect_geometry_from_boot_data imd_track0 ≡ some hugo_geometry
unfolding detect_geometry_from_boot_data find_sector same_text
finds_hugo = refl

detect_geometry_from_boot_data-IsUsable_example : IsUsable hugo_geometry
detect_geometry_from_boot_data-IsUsable_example =
    detect_geometry_from_boot_data-IsUsable imd_file imd_track0 hugo_geometry imd_extents finds_hugo

-- Three sectors, of which the middle one is absent and the others are filled with different bytes.
abbrev three_sectors : TrackHeader
three_sectors = record mapped_header { nsec = 3; sector_ids = 1 ∷ 2 ∷ 3 ∷ [] }

-- A track that says its own cylinder.
abbrev plain_track : ℕ → Track
plain_track c = record filled_track { cylinder = c; sector_cyls = c ∷ [] }

plain_track-IsOwnCylinder : (c : ℕ) → IsOwnCylinder (plain_track c)
plain_track-IsOwnCylinder c h = (omega arith, (refl, tt))

abbrev plain_tracks : List Track
plain_tracks = map plain_track (0 ∷ 2 ∷ 4 ∷ 6 ∷ 8 ∷ 10 ∷ [])

plain_tracks-AreOwn : (cs : List ℕ) → All IsOwnCylinder (map plain_track cs)
plain_tracks-AreOwn [] = tt
plain_tracks-AreOwn (c ∷ cs) = (plain_track-IsOwnCylinder c, plain_tracks-AreOwn cs)

plain_tracks-few : 10 * count is_on_0 plain_tracks < 7 * count is_checked plain_tracks
unfolding is_on_0 is_checked
plain_tracks-few = omega arith
