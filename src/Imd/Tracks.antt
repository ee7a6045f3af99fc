-- ===== src/Imd/Tracks.antt =====
-- parse_imd_tracks of imd.py: the tracks of a file with what is known of their sectors.
pub mod Laws
pub mod Uniform
use arcology.Base.{
  ℕ, zero, suc, Bool, true, false, not, ◌&&◌, Option, none, some, List, [], ◌∷◌, length, all, ◌==◌,
  if◌then◌else◌,
}
use arcology.Disc.{Bytes}
use arcology.Imd.{
  TrackHeader, HeaderRead, no_header, truncated, header, parse_track_header, read_imd_data,
}
use arcology.Imd.Sectors.{walk_sectors}

pub record Track : Type 0 where
  pub physical_index : ℕ
  pub cylinder : ℕ
  pub head : ℕ
  pub is_fm : Bool
  pub sector_size : ℕ
  pub sector_ids : List ℕ
  pub sector_cyls : List ℕ
  pub idam_heads : List ℕ
  pub has_data : Bool
  pub is_uniform_fill : Bool

-- The variables of the loop over the sectors.
pub record Content : Type 0 where
  pub has_data : Bool
  pub is_uniform_fill : Bool
  pub track_fill : Option ℕ

abbrev pub no_content : Content
no_content = record { has_data = false; is_uniform_fill = true; track_fill = none }

-- A sector of one byte, while the track is uniform.
unfoldable pub see_fill : ℕ → Option ℕ → Content
see_fill fill none = record { has_data = true; is_uniform_fill = true; track_fill = some fill }
see_fill fill (some f) = record {
  has_data = true;
  is_uniform_fill = f == fill;
  track_fill = some f;
}

unfoldable pub on_fill : ℕ → ℕ → Content → Content
unfolding see_fill
on_fill i fill c =
    if c.is_uniform_fill then see_fill fill c.track_fill else record c { has_data = true }

unfoldable pub on_raw : ℕ → Bytes → Content → Content
unfolding see_fill
on_raw i [] c = record c { has_data = true }
on_raw i (b ∷ bs) c =
    if not c.is_uniform_fill
    then record c { has_data = true }
    else if all (λ x. x == b) bs
    then see_fill b c.track_fill
    else record c { has_data = true; is_uniform_fill = false }

abbrev pub track_of : ℕ → TrackHeader → Content → Track
track_of index hdr c = record {
  physical_index = index;
  cylinder = hdr.cylinder;
  head = hdr.head;
  is_fm = hdr.is_fm;
  sector_size = hdr.sector_size;
  sector_ids = hdr.sector_ids;
  sector_cyls = hdr.sector_cyls;
  idam_heads = hdr.idam_heads;
  has_data = c.has_data;
  is_uniform_fill = c.is_uniform_fill;
}

-- The sectors of one track: what they hold, and the bytes after them.
abbrev pub walk_track : TrackHeader → Bytes → Content × Bytes
walk_track hdr rest = walk_sectors on_raw on_fill hdr.sector_size 0 hdr.nsec rest no_content

-- `while pos < len(data)`: the second argument is the number of the track.
unfoldable pub tracks_from : ℕ → ℕ → Bytes → List Track
unfolding on_raw on_fill
tracks_from zero index bytes = []
tracks_from (suc fuel) index bytes = elim (parse_track_header bytes) [
  | no_header ↦ []
  | truncated hdr ↦ []
  | header hdr rest ↦
      let (c, left) = walk_track hdr rest in
      track_of index hdr c ∷ tracks_from fuel (suc index) left
]

-- None for no tracks.
abbrev pub or_none : List Track → Option (List Track)
or_none [] = none
or_none (t ∷ ts) = some (t ∷ ts)

unfoldable pub parse_imd_tracks : Option Bytes → Option (List Track)
unfolding tracks_from
parse_imd_tracks file = elim (read_imd_data file) [
  | none ↦ none
  | some bytes ↦ or_none (tracks_from (length bytes) 0 bytes)
]
