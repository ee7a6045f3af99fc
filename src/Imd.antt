-- ===== src/Imd.antt =====
-- worker/arcworker/tools/imd.py: disc images in the ImageDisk format. A position in the file is modelled by
-- the bytes from there on, so `pos + n > len(data)` asks whether fewer than n are left.
pub mod Header
pub mod Sectors
pub mod Track0
pub mod Tracks
pub mod Density
pub mod Geometry
use arcology.Base.{
  ℕ, zero, suc, ◌+◌, ◌*◌, ◌%◌, ◌/◌, ◌^◌, Bool, true, false, not, ◌&&◌, Option, none, some, List, [],
  ◌∷◌, take, drop, length, ltb, leb, ◌==◌, replicate, if◌then◌else◌,
}
use arcology.Base.Text.{codes, starts_with}
use arcology.Disc.{Bytes, bit}

-- `data[data.find(b'\x1A') + 1:]`
unfoldable pub after_sentinel : Bytes → Option Bytes
after_sentinel [] = none
after_sentinel (b ∷ bs) = if b == 0x1a then some bs else after_sentinel bs

-- `none` is a file that cannot be read.
unfoldable pub read_imd_data : Option Bytes → Option Bytes
unfolding after_sentinel
read_imd_data none = none
read_imd_data (some bytes) = if starts_with bytes (codes "IMD ") then after_sentinel bytes else none

-- _IMD_SECTOR_SIZES
abbrev pub sector_size_of : ℕ → ℕ
sector_size_of code = if leb code 6 then 128 * 2 ^ code else 0

pub record TrackHeader : Type 0 where
  pub mode : ℕ
  pub cylinder : ℕ
  pub head : ℕ
  pub nsec : ℕ
  pub size_code : ℕ
  pub sector_size : ℕ
  pub is_fm : Bool
  pub sector_ids : List ℕ
  pub sector_cyls : List ℕ
  pub idam_heads : List ℕ

-- `(None, None)`, `(hdr, None)` and `(hdr, pos)`.
pub data HeaderRead : Type 0 where
  no_header : HeaderRead
  truncated : TrackHeader → HeaderRead
  header : TrackHeader → Bytes → HeaderRead

-- An optional map of n bytes, in place of the list that stands for it.
abbrev pub read_map :
    Bool
    → ℕ
    → Bytes
    → TrackHeader
    → (List ℕ → TrackHeader)
    → (TrackHeader → Bytes → HeaderRead)
    → HeaderRead
read_map present n rest hdr with_map next =
    if not present
    then next hdr rest
    else if ltb (length rest) n
    then truncated hdr
    else next (with_map (take n rest)) (drop n rest)

-- The maps that follow the five bytes.
unfoldable pub read_maps : Bool → Bool → TrackHeader → Bytes → HeaderRead
read_maps cyl_map head_map hdr rest =
    read_map true hdr.nsec rest hdr (λ ids. record hdr { sector_ids = ids })
      (λ hdr1 rest1.
        read_map cyl_map hdr.nsec rest1 hdr1 (λ cyls. record hdr1 { sector_cyls = cyls })
          (λ hdr2 rest2.
            read_map head_map hdr.nsec rest2 hdr2 (λ heads. record hdr2 { idam_heads = heads })
              header))

unfoldable pub parse_track_header : Bytes → HeaderRead
unfolding read_maps
parse_track_header (mode ∷ cylinder ∷ head_raw ∷ nsec ∷ size_code ∷ rest) =
    read_maps (bit head_raw 7) (bit head_raw 6)
      (record {
        mode = mode;
        cylinder = cylinder;
        head = head_raw % 2;
        nsec = nsec;
        size_code = size_code;
        sector_size = sector_size_of size_code;
        is_fm = leb mode 2;
        sector_ids = [];
        sector_cyls = replicate nsec cylinder;
        idam_heads = replicate nsec (head_raw % 2);
      })
      rest
parse_track_header _ = no_header

-- One sector record: the end of the data, a break inside it, and the three kinds of sector, each with what
-- follows.
pub data SectorRead : Type 0 where
  stopped : Bytes → SectorRead
  absent : Bytes → SectorRead
  raw : Bytes → Bytes → SectorRead
  filled : ℕ → Bytes → SectorRead

unfoldable pub read_fill : Bytes → SectorRead
read_fill [] = stopped []
read_fill (fill ∷ rest) = filled fill rest

unfoldable pub read_sector : ℕ → Bytes → SectorRead
unfolding read_fill
read_sector size [] = stopped []
read_sector size (stype ∷ rest) =
    if stype == 0
    then absent rest
    else if stype % 2 == 1
    then if ltb (length rest) size then stopped rest else raw (take size rest) (drop size rest)
    else read_fill rest
