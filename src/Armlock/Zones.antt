-- ===== src/Armlock/Zones.antt =====
-- _walk_zone_map, and _extract_file_by_sin, which puts a file together from its fragments.
pub mod Ascending
pub mod Bounds
use arcology.Base.{
  ℕ, zero, suc, ◌+◌, ◌-◌, ◌*◌, ◌/◌, ◌%◌, ◌^◌, Bool, true, false, not, ◌&&◌, List, [], ◌∷◌, ◌++◌,
  length, take, drop, ltb, leb, ◌==◌, Option, none, some, if◌then◌else◌,
}
use arcology.Base.Int.{ℤ, pos, negsuc}
use arcology.Disc.{Bytes, Image, byte_at}
use arcology.Disc.Filecore.{DiscRecord}
use arcology.Armlock.{slice_index, read_at, is_past, zone_disc_address}
use arcology.Base.Int.{shift}

-- `zone_data[pos >> 3] & (1 << (pos & 7))`
unfoldable pub zone_bit : Bytes → ℕ → Bool
zone_bit zone_data bit_pos = byte_at zone_data (bit_pos / 8) / 2 ^ (bit_pos % 8) % 2 == 1

-- The identifier of a fragment, from bit b of it on, of which `n` are left.
unfoldable pub frag_id : Bytes → ℕ → ℕ → ℕ → ℕ
unfolding zone_bit
frag_id zone_data bit_pos b zero = 0
frag_id zone_data bit_pos b (suc n) =
    (if zone_bit zone_data bit_pos then 2 ^ b else 0) + frag_id zone_data (suc bit_pos) (suc b) n

-- The position after the bit that ends a fragment, with `left` bits to the end of the zone.
unfoldable pub frag_end : Bytes → ℕ → ℕ → ℕ
unfolding zone_bit
frag_end zone_data bit_pos zero = bit_pos
frag_end zone_data bit_pos (suc left) =
    if zone_bit zone_data bit_pos then suc bit_pos else frag_end zone_data (suc bit_pos) left

-- A fragment: its disc address and its length in bytes.
abbrev pub Fragment : Type 0
Fragment = ℤ × ℕ

abbrev pub header_bits : ℕ → ℕ
header_bits z = if z == 0 then 64 * 8 else 4 * 8

abbrev pub zone_end_bits : DiscRecord → ℕ
zone_end_bits rec = rec.sector_size * 8

module _ (rec : DiscRecord) (target z : ℕ) (zone_data : Bytes) where
  abbrev pub is_spare : ℕ → Bool
  is_spare alloc_unit = ltb 0 z && ltb alloc_unit rec.zone_spare

  -- Where the turn at a position ends: a spare unit, or a fragment that fits.
  unfoldable pub next_pos : ℕ → ℕ → ℕ
  unfolding frag_end
  next_pos bit_pos alloc_unit =
      if is_spare alloc_unit
      then suc bit_pos
      else frag_end zone_data (bit_pos + rec.idlen) (zone_end_bits rec - (bit_pos + rec.idlen))

  -- The fragment from a unit on, where its identifier is the target.
  unfoldable pub found_fragment : ℕ → ℕ → ℕ → List Fragment
  unfolding frag_id zone_disc_address
  found_fragment bit_pos alloc_unit units =
      if frag_id zone_data bit_pos 0 rec.idlen == target
      then (shift (zone_disc_address rec z) (alloc_unit * rec.bpmb), units * rec.bpmb) ∷ []
      else []

  -- `while bit_pos < zone_end_bits`, on fuel.
  unfoldable pub walk_zone : ℕ → ℕ → ℕ → List Fragment
  unfolding next_pos found_fragment
  walk_zone zero bit_pos alloc_unit = []
  walk_zone (suc fuel) bit_pos alloc_unit =
      let next = next_pos bit_pos alloc_unit in
      let rest = walk_zone fuel next (alloc_unit + (next - bit_pos)) in
      if not (ltb bit_pos (zone_end_bits rec))
      then []
      else if is_spare alloc_unit
      then rest
      else if ltb (zone_end_bits rec) (bit_pos + rec.idlen)
      then []
      else found_fragment bit_pos alloc_unit (next - bit_pos) ++ rest

-- The zones from z on; a zone whose map block is not in the image is passed over.
unfoldable pub walk_zones : Image → DiscRecord → ℕ → ℕ → ℕ → List Fragment
unfolding walk_zone read_at zone_disc_address
walk_zones image rec target z zero = []
walk_zones image rec target z (suc n) =
    let map_block = shift (zone_disc_address rec (rec.nzones / 2)) (z * rec.sector_size) in
    let zone_data = read_at image map_block rec.sector_size in
    let rest = walk_zones image rec target (suc z) n in
    if is_past image (shift map_block rec.sector_size)
    then rest
    else walk_zone rec target z zone_data (zone_end_bits rec) (header_bits z) 0 ++ rest

unfoldable pub walk_zone_map : Image → DiscRecord → ℕ → List Fragment
unfolding walk_zones
walk_zone_map image rec target = walk_zones image rec target 0 rec.nzones
