-- ===== src/Armlock/Zones/Bounds.antt =====
-- The loop of _walk_zone_map over the map of a zone: each turn takes a bit or more.
use arcology.Base.{
  ℕ, zero, suc, ◌+◌, ◌-◌, ◌≤◌, ◌<◌, ◌≡◌, refl, true, false, not, List, [], ◌++◌, ltb, if_cases,
  arith, Bool-cases, inl, inr,
}
use arcology.Disc.{Bytes}
use arcology.Disc.Filecore.{DiscRecord}
use arcology.Armlock.Zones.{
  Fragment, zone_bit, frag_end, zone_end_bits, is_spare, next_pos, found_fragment, walk_zone,
}

-- A fragment ends inside the zone, past its identifier.
pub frag_end-bounds :
    (d : Bytes) (p left : ℕ) → (p ≤ frag_end d p left) × (frag_end d p left ≤ p + left)
unfolding frag_end
frag_end-bounds d p zero = (omega arith, omega arith)
frag_end-bounds d p (suc left) =
    let rest = frag_end-bounds d (suc p) left in
    elim (Bool-cases (zone_bit d p)) [
      | inl e ↦ rw e (omega arith, omega arith)
      | inr e ↦ rw e (omega (arith, rest.0), omega (arith, rest.1))
    ]

-- It takes a bit at least, where there is one left.
pub frag_end-past : (d : Bytes) (p left : ℕ) → 0 < left → p < frag_end d p left
unfolding frag_end
frag_end-past d p zero h = absurd (omega (arith, h))
frag_end-past d p (suc left) h =
    let rest = (frag_end-bounds d (suc p) left).0 in
    elim (Bool-cases (zone_bit d p)) [
      | inl e ↦ rw e (omega arith)
      | inr e ↦ rw e (omega (arith, rest))
    ]

module _ (rec : DiscRecord) (target z : ℕ) (d : Bytes) where
  pub next_pos-spare :
      (p u : ℕ) → is_spare rec target z d u ≡ true → next_pos rec target z d p u ≡ suc p
  unfolding next_pos
  next_pos-spare p u h = rw h refl

  pub next_pos-bounds :
      (p u : ℕ)
      → is_spare rec target z d u ≡ false
      → p < zone_end_bits rec
      → p + rec.idlen ≤ zone_end_bits rec
      → (p < next_pos rec target z d p u) × (next_pos rec target z d p u ≤ zone_end_bits rec)
  unfolding next_pos
  next_pos-bounds p u h k l =
      let left = zone_end_bits rec - (p + rec.idlen) in
      let (low, high) = frag_end-bounds d (p + rec.idlen) left in
      let past = frag_end-past d (p + rec.idlen) left in
      rw h (ground (arith, low, past), omega (arith, high, l))

  -- The runs of the loop that end, with what they find, in the source's own turns and without fuel.
  pub data Walked : ℕ → ℕ → List Fragment → Type 0 where
    at_end : {p u : ℕ} → zone_end_bits rec ≤ p → Walked p u []
    spare_unit :
        {p u : ℕ} {fs : List Fragment}
        → p < zone_end_bits rec
        → is_spare rec target z d u ≡ true
        → Walked (suc p) (suc u) fs
        → Walked p u fs
    no_room :
        {p u : ℕ}
        → p < zone_end_bits rec
        → is_spare rec target z d u ≡ false
        → zone_end_bits rec < p + rec.idlen
        → Walked p u []
    fragment :
        {p u q : ℕ} {fs : List Fragment}
        → p < zone_end_bits rec
        → is_spare rec target z d u ≡ false
        → p + rec.idlen ≤ zone_end_bits rec
        → q ≡ frag_end d (p + rec.idlen) (zone_end_bits rec - (p + rec.idlen))
        → Walked q (u + (q - p)) fs
        → Walked p u (found_fragment rec target z d p u (q - p) ++ fs)

  next_pos-fragment :
      (p u : ℕ)
      → is_spare rec target z d u ≡ false
      → next_pos rec target z d p u
        ≡ frag_end d (p + rec.idlen) (zone_end_bits rec - (p + rec.idlen))
  unfolding next_pos
  next_pos-fragment p u h = rw h refl

  -- The loop over the map of a zone ends from every position, and what the walk on fuel finds is what the loop has found
  -- when it ends, where the fuel is the number of bits from the position to the end of the zone, or more.
  pub walk_zone_ends :
      (fuel p u : ℕ) → zone_end_bits rec ≤ p + fuel → Walked p u (walk_zone rec target z d fuel p u)
  unfolding walk_zone
  walk_zone_ends zero p u h = at_end (omega (arith, h))
  walk_zone_ends (suc n) p u h =
      let end = zone_end_bits rec in
      let next = next_pos rec target z d p u in
      if_cases (Walked p u) (not (ltb p end)) _ _ (λ k. at_end (ground (arith, k)))
        (λ k.
          let inside : p < end = ground (arith, k) in
          if_cases (Walked p u) (is_spare rec target z d u) _ _
            (λ s.
              let skip = next_pos-spare p u s in
              let unit : u + (next - p) ≡ suc u = omega (arith, skip) in
              spare_unit inside s
                (rw (unit, skip) (walk_zone_ends n (suc p) (suc u) (omega (arith, h)))))
            (λ s.
              if_cases (Walked p u) (ltb end (p + rec.idlen)) _ _
                (λ l. no_room inside s (ground (arith, l)))
                (λ l.
                  let room : p + rec.idlen ≤ end = ground (arith, l) in
                  let past = (next_pos-bounds p u s inside room).0 in
                  fragment inside s room (next_pos-fragment p u s)
                    (walk_zone_ends n next (u + (next - p)) (omega (arith, past, h))))))
