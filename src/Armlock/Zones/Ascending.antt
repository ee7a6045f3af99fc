-- ===== src/Armlock/Zones/Ascending.antt =====
-- The fragments of a file: where the walk of the map finds them on the disc.
use mathlib.Core.Path.{subst}
use native.Mathlib.Nat.{
  zero-add, add-zero, add_assoc, zero-mul, add-mul, mul-le-mul_right, one-le-mul,
}
use arcology.Base.{
  ℕ, zero, suc, ◌+◌, ◌-◌, ◌*◌, ◌/◌, ◌≤◌, ◌<◌, ◌≡◌, refl, sym, ap, ◌∙◌, true, false, not, List, [],
  ◌∷◌, ◌++◌, ltb, leb, ◌==◌, arith, Bool-cases, inl, inr, if_cases,
}
use arcology.Base.Int.{pos, negsuc, pos_part, sub_ℕ}
use arcology.Disc.{Bytes, Image}
use arcology.Disc.Filecore.{DiscRecord}
use arcology.Armlock.{zone_disc_address, read_at, is_past}
use arcology.Base.Int.{shift}
use arcology.Armlock.Zones.Bounds.{next_pos-spare, next_pos-bounds}
use arcology.Armlock.Zones.{
  Fragment, header_bits, frag_id, zone_end_bits, is_spare, next_pos, found_fragment, walk_zone,
  walk_zones, walk_zone_map,
}

-- Fragments in the order of the disc, none over another, from an address on and up to an address.
abbrev pub AreBetween : ℕ → ℕ → List Fragment → Type 0
AreBetween lo hi [] = lo ≤ hi
AreBetween lo hi ((pos a, n) ∷ fs) = (lo ≤ a) × (0 < n) × AreBetween (a + n) hi fs
AreBetween lo hi ((negsuc a, n) ∷ fs) = ⊥

AreBetween-weaken :
    (lo lo' hi : ℕ) (fs : List Fragment) → lo' ≤ lo → AreBetween lo hi fs → AreBetween lo' hi fs
AreBetween-weaken lo lo' hi [] h k = omega (arith, h, k)
AreBetween-weaken lo lo' hi ((pos a, n) ∷ fs) h k = (omega (arith, h, k.0), k.1, k.2)
AreBetween-weaken lo lo' hi ((negsuc a, n) ∷ fs) h k = k

AreBetween-append :
    (lo mid hi : ℕ) (fs gs : List Fragment)
    → AreBetween lo mid fs
    → AreBetween mid hi gs
    → AreBetween lo hi (fs ++ gs)
AreBetween-append lo mid hi [] gs h k = AreBetween-weaken mid lo hi gs h k
AreBetween-append lo mid hi ((pos a, n) ∷ fs) gs h k =
    (h.0, h.1, AreBetween-append (a + n) mid hi fs gs h.2 k)
AreBetween-append lo mid hi ((negsuc a, n) ∷ fs) gs h k = absurd h

-- The first allocation unit of a zone.
zone_units : ℕ → ℕ → ℕ
zone_units s zero = 0
zone_units s (suc z) = zone_units s z + (s * 8 - header_bits z)

not_zero : (k : ℕ) → (suc k == 0) ≡ false
not_zero k = ground arith

zone_units_sum :
    (s k : ℕ) → 64 ≤ s → zone_units s (suc k) + (64 * 8 + k * (4 * 8)) ≡ s * 8 + k * (s * 8)
unfolding zone_units
zone_units_sum s zero h = omega (arith, h)
zone_units_sum s (suc k) h =
    let step : zone_units s (suc (suc k)) ≡ zone_units s (suc k) + (s * 8 - 4 * 8) =
      rw (not_zero k) refl in
    let row : suc k * (s * 8) ≡ s * 8 + k * (s * 8) = omega (arith, add-mul 1 k (s * 8)) in
    let sum = zone_units_sum s k h in omega (arith, step, row, sum, h)

sub_ℕ_sum : (a b u : ℕ) → u + b ≡ a → sub_ℕ a b ≡ pos u
sub_ℕ_sum a b u e =
    let above : leb b a ≡ true = ground (arith, e) in rw above (ap pos (omega (arith, e)))

zone_start :
    (rec : DiscRecord) (z : ℕ)
    → 64 ≤ rec.sector_size
    → zone_disc_address rec z ≡ pos (zone_units rec.sector_size z * rec.bpmb)
unfolding zone_disc_address zone_units
zone_start rec zero h = ap pos (sym (zero-mul rec.bpmb))
zone_start rec (suc k) h =
    let s = rec.sector_size in
    let before : suc k - 1 ≡ k = omega arith in
    rw (not_zero k, before)
      (sub_ℕ_sum ((s * 8 + k * (s * 8)) * rec.bpmb) ((64 * 8 + k * (4 * 8)) * rec.bpmb)
        (zone_units s (suc k) * rec.bpmb)
        (sym (add-mul (zone_units s (suc k)) (64 * 8 + k * (4 * 8)) rec.bpmb)
          ∙ ap (λ u. u * rec.bpmb) (zone_units_sum s k h)))

module _ (rec : DiscRecord) (target z : ℕ) (d : Bytes) (wide : 64 ≤ rec.sector_size)
    (unit : 1 ≤ rec.bpmb) where
  -- The address of an allocation unit of the zone.
  unit_address : ℕ → ℕ
  unit_address u = (zone_units rec.sector_size z + u) * rec.bpmb

  unit_address_mono : (u v : ℕ) → u ≤ v → unit_address u ≤ unit_address v
  unfolding unit_address
  unit_address_mono u v h = mul-le-mul_right rec.bpmb (omega (arith, h))

  found_fragment-AreBetween :
      (p u n : ℕ)
      → 0 < n
      → AreBetween (unit_address u) (unit_address (u + n)) (found_fragment rec target z d p u n)
  unfolding found_fragment unit_address
  found_fragment-AreBetween p u n h =
      let start = zone_units rec.sector_size z in
      elim (Bool-cases (frag_id d p 0 rec.idlen == target)) [
        | inl e ↦
            rw (e, zone_start rec z wide)
              (
                omega (arith, add-mul start u rec.bpmb),
                one-le-mul h unit,
                omega (
                  arith,
                  add-mul start u rec.bpmb,
                  add-mul (start + u) n rec.bpmb,
                  add_assoc start u n,
                ),
              )
        | inr e ↦ rw e (unit_address_mono u (u + n) (omega arith))
      ]

  -- The walk from a position on stays between there and the end of the zone.
  walk_zone-AreBetween :
      (fuel p u : ℕ)
      → p ≡ header_bits z + u
      → p ≤ zone_end_bits rec
      → AreBetween
          (unit_address u)
          (unit_address (zone_end_bits rec - header_bits z))
          (walk_zone rec target z d fuel p u)
  unfolding walk_zone
  walk_zone-AreBetween zero p u e h = unit_address_mono u _ (omega (arith, e, h))
  walk_zone-AreBetween (suc fuel) p u e h =
      let end = zone_end_bits rec in
      let top = unit_address (end - header_bits z) in
      let next = next_pos rec target z d p u in
      let here = unit_address_mono u (end - header_bits z) (omega (arith, e, h)) in
      let ih = walk_zone-AreBetween fuel next (u + (next - p)) in
      let between = AreBetween (unit_address u) top in
      if_cases between (not (ltb p end)) _ _ (λ k. here)
        (λ inside.
          if_cases between (is_spare rec target z d u) _ _
            (λ k.
              let skip = next_pos-spare rec target z d p u k in
              AreBetween-weaken (unit_address (u + (next - p))) (unit_address u) top _
                (unit_address_mono u (u + (next - p)) (omega arith))
                (ih (omega (arith, skip, e)) (ground (arith, skip, inside))))
            (λ k.
              if_cases between (ltb end (p + rec.idlen)) _ _ (λ l. here)
                (λ l.
                  let (later, high) =
                    next_pos-bounds rec target z d p u k (ground (arith, inside))
                      (ground (arith, l)) in
                  AreBetween-append (unit_address u) (unit_address (u + (next - p))) top _ _
                    (found_fragment-AreBetween p u (next - p) (omega (arith, later)))
                    (ih (omega (arith, later, e)) high))))

zone_units_mono : (s z : ℕ) → zone_units s z ≤ zone_units s (suc z)
unfolding zone_units
zone_units_mono s z = omega arith

-- The walk of a whole zone.
walk_zone_whole :
    (rec : DiscRecord) (target z : ℕ) (d : Bytes)
    → 64 ≤ rec.sector_size
    → 1 ≤ rec.bpmb
    → AreBetween
        (zone_units rec.sector_size z * rec.bpmb)
        (zone_units rec.sector_size (suc z) * rec.bpmb)
        (walk_zone rec target z d (zone_end_bits rec) (header_bits z) 0)
unfolding unit_address zone_units
walk_zone_whole rec target z d wide unit =
    AreBetween-weaken (unit_address rec target z d wide unit 0) _ _ _ (omega arith) (
      walk_zone-AreBetween rec target z d wide unit (zone_end_bits rec) (header_bits z) 0
        (omega arith) (ground (arith, wide)))

walk_zones-AreBetween :
    (image : Image) (rec : DiscRecord) (target z n : ℕ)
    → 64 ≤ rec.sector_size
    → 1 ≤ rec.bpmb
    → AreBetween
        (zone_units rec.sector_size z * rec.bpmb)
        (zone_units rec.sector_size (z + n) * rec.bpmb)
        (walk_zones image rec target z n)
unfolding walk_zones
walk_zones-AreBetween image rec target z zero wide unit = rw (add-zero z) (omega arith)
walk_zones-AreBetween image rec target z (suc n) wide unit =
    let s = rec.sector_size in
    let lo = zone_units s z * rec.bpmb in
    let next = zone_units s (suc z) * rec.bpmb in
    let hi = zone_units s (z + suc n) * rec.bpmb in
    let moved : suc z + n ≡ z + suc n = omega arith in
    let ih : AreBetween next hi (walk_zones image rec target (suc z) n) =
      subst
        (λ k. AreBetween next (zone_units s k * rec.bpmb) (walk_zones image rec target (suc z) n))
        moved (walk_zones-AreBetween image rec target (suc z) n wide unit) in
    let map_block = shift (zone_disc_address rec (rec.nzones / 2)) (z * s) in
    let rest = walk_zones image rec target (suc z) n in
    let zone =
      walk_zone rec target z (read_at image map_block s) (zone_end_bits rec) (header_bits z) 0 in
    if_cases (AreBetween lo hi) (is_past image (shift map_block s)) rest (zone ++ rest)
      (λ past. AreBetween-weaken next lo hi _ (mul-le-mul_right rec.bpmb (zone_units_mono s z)) ih)
      (λ inside.
        AreBetween-append lo next hi zone rest
          (walk_zone_whole rec target z (read_at image map_block s) wide unit) ih)

-- The fragments that the walk of the map finds for a file lie one after another on the disc, none over another and
-- none empty, and all of them before the address at which a zone past the last would start. The sectors are of 64
-- bytes or more and the unit of allocation of one or more.
pub walk_zone_map-AreBetween :
    (image : Image) (rec : DiscRecord) (target hi : ℕ)
    → 64 ≤ rec.sector_size
    → 1 ≤ rec.bpmb
    → zone_disc_address rec rec.nzones ≡ pos hi
    → AreBetween 0 hi (walk_zone_map image rec target)
unfolding walk_zone_map
walk_zone_map-AreBetween image rec target hi wide unit e =
    let same : zone_units rec.sector_size (0 + rec.nzones) * rec.bpmb ≡ hi =
      rw (zero-add rec.nzones) (ap pos_part (sym (zone_start rec rec.nzones wide) ∙ e)) in
    subst (λ h. AreBetween 0 h (walk_zones image rec target 0 rec.nzones)) same
      (AreBetween-weaken (zone_units rec.sector_size 0 * rec.bpmb) 0 _ _ (omega arith)
        (walk_zones-AreBetween image rec target 0 rec.nzones wide unit))
