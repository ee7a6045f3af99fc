-- ===== src/Disc/Schemes/Laws.antt =====
-- What detect_acorn_partitions promises its caller, whichever scheme is found.
use arcology.Base.{
  ℕ, suc, ◌+◌, ◌≤◌, ◌≡◌, ◌⊎◌, inl, inr, refl, Bool, true, false, not, List, [], ◌∷◌, length, ltb,
  arith, Bool-cases, if◌then◌else◌, All,
}
use arcology.Base.Int.{ℤ, pos, negsuc, pos_part, neg_part}
use arcology.Disc.{
  Image, Partition, Scheme, Detection, not_detected, detected, read, u32, ics_idefs,
}
use arcology.Disc.Ics.{if_any, ics_entries, detect_ics_partitions, validate_ics_checksum}
use arcology.Disc.Ics.Laws.{IsClamped, ics_entries_lem}
use arcology.Disc.Hccs.{hccs_partitions, detect_hccs_partitions, detect_simtec_signature}
use arcology.Disc.Hccs.Laws.{IsChain, hccs_partitions-IsChain}
use arcology.Disc.Nexus.{nexus_entries, detect_nexus_partitions}
use arcology.Disc.Nexus.Laws.{IsInside, nexus_entries_lem}
use arcology.Disc.Schemes.{or_else, detect_acorn_partitions}

-- The bytes to carve out for the partition are all in the image: none, or those from its start on.
abbrev pub IsCarvable : Image → Partition → Type 0
IsCarvable image p =
    (pos_part p.size_bytes ≡ 0) ⊎ (p.start_byte + pos_part p.size_bytes ≤ image.size)

pub data AreCarvable (image : Image) : Detection → Type 0 where
  nothing : AreCarvable image not_detected
  partitions :
      {scheme : Scheme} {header : List ℕ} {ps : List Partition}
      → All (IsCarvable image) ps
      → AreCarvable image (detected scheme header ps)

no_pos_part : (z : ℤ) → ltb 0 (neg_part z) ≡ true → pos_part z ≡ 0
no_pos_part (pos n) h = cc
no_pos_part (negsuc n) h = refl

clamped-IsCarvable :
    (image : Image) (ps : List Partition) → All (IsClamped image) ps → All (IsCarvable image) ps
clamped-IsCarvable image [] h = tt
clamped-IsCarvable image (p ∷ ps) h = (one p h.0, clamped-IsCarvable image ps h.1)
  where
    one : (p : Partition) → IsClamped image p → IsCarvable image p
    one p h = elim (Bool-cases (ltb 0 (neg_part p.size_bytes))) [
      | inl e ↦ inl (no_pos_part p.size_bytes e)
      | inr e ↦ inr (ground (arith, e))
    ]

inside-IsCarvable :
    (image : Image) (ps : List Partition) → All (IsInside image) ps → All (IsCarvable image) ps
inside-IsCarvable image [] h = tt
inside-IsCarvable image (p ∷ ps) h = (h.0.1, inside-IsCarvable image ps h.1)

chain-IsCarvable :
    (image : Image) (offset index : ℕ) (ps : List Partition)
    → IsChain image.size offset index ps
    → All (IsCarvable image) ps
chain-IsCarvable image offset index [] h = tt
chain-IsCarvable image offset index (p ∷ ps) h =
    (inr (omega arith), chain-IsCarvable image (offset + pos_part p.size_bytes) (suc index) ps h.5)

any_carvable :
    (image : Image) (scheme : Scheme) (header : List ℕ) (ps : List Partition)
    → All (IsCarvable image) ps
    → AreCarvable image (if_any (detected scheme header ps) ps)
any_carvable image scheme header [] h = nothing
any_carvable image scheme header (p ∷ ps) h = partitions h

or_else_carvable :
    (image : Image) (a b : Detection)
    → AreCarvable image a
    → AreCarvable image b
    → AreCarvable image (or_else a b)
or_else_carvable image not_detected b h k = k
or_else_carvable image (detected scheme header ps) b h k = h

if_carvable :
    (image : Image) (test : Bool) (a b : Detection)
    → AreCarvable image a
    → AreCarvable image b
    → AreCarvable image (if test then a else b)
if_carvable image true a b h k = h
if_carvable image false a b h k = k

ics_carvable : (image : Image) → AreCarvable image (detect_ics_partitions image)
unfolding detect_ics_partitions
ics_carvable image =
    let sector = read image 0 512 in
    let ps = ics_entries image sector 63 0 0 in
    let (short, numbered, all) = ics_entries_lem image sector 63 0 0 (omega arith) in
    if_carvable image (ltb image.size 512) _ _ nothing (
      if_carvable image (ltb (length sector) 512) _ _ nothing (
        if_carvable image (not (validate_ics_checksum sector)) _ _ nothing (
          any_carvable image ics_idefs (u32 sector 0x1f8 ∷ []) ps
            (clamped-IsCarvable image ps all))))

hccs_carvable : (image : Image) → AreCarvable image (detect_hccs_partitions image)
unfolding detect_hccs_partitions
hccs_carvable image =
    let ps = hccs_partitions image image.size 0 0 in
    any_carvable image _ _ ps
      (chain-IsCarvable image 0 0 ps (hccs_partitions-IsChain image image.size 0 0))

simtec_carvable : (image : Image) → AreCarvable image (detect_simtec_signature image)
unfolding detect_simtec_signature
simtec_carvable image =
    if_carvable image _ _ _ nothing (if_carvable image _ _ _ (partitions tt) nothing)

nexus_carvable : (image : Image) → AreCarvable image (detect_nexus_partitions image)
unfolding detect_nexus_partitions
nexus_carvable image =
    let table = read image 0x20000 256 in
    let ps = nexus_entries image table 15 0 in
    if_carvable image _ _ _ nothing (
      if_carvable image _ _ _ nothing (
        any_carvable image _ _ ps
          (inside-IsCarvable image ps (nexus_entries_lem image table 15 0).0)))

-- Whatever the image, every partition that is reported, by any of the four schemes, has all of its
-- bytes in the image, or has none.
pub detect_acorn_partitions_carvable :
    (image : Image) → AreCarvable image (detect_acorn_partitions image)
unfolding detect_acorn_partitions
detect_acorn_partitions_carvable image = or_else_carvable image _ _ (nexus_carvable image) (
    or_else_carvable image _ _ (ics_carvable image)
      (or_else_carvable image _ _ (hccs_carvable image) (simtec_carvable image)))
