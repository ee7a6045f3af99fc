-- ===== src/Imd/Header/Shape.antt =====
-- The shape of a header that has been read, and how much of the file it takes.
use arcology.Base.{
  ℕ, suc, ◌-◌, ◌%◌, ◌≤◌, ◌<◌, ◌≡◌, Bool, true, false, [], ◌∷◌, take, drop, length, ltb, arith,
  length-take, length-drop, length-replicate, Bool-cases, inl, inr,
}
use arcology.Disc.{Bytes, bit}
use arcology.Imd.{
  TrackHeader, HeaderRead, no_header, truncated, header, read_map, read_maps, parse_track_header,
}

-- A head of 0 or 1, and maps with an entry for each sector.
pub record IsTrackHeader (h : TrackHeader) : Type 0 where
  pub head : h.head < 2
  pub ids : length h.sector_ids ≡ h.nsec
  pub cyls : length h.sector_cyls ≡ h.nsec
  pub heads : length h.idam_heads ≡ h.nsec

-- A result of a read that had so many bytes before it.
abbrev pub IsHeaderRead : ℕ → HeaderRead → Type 0
IsHeaderRead n no_header = Unit
IsHeaderRead n (truncated h) = h.head < 2
IsHeaderRead n (header h rest) = IsTrackHeader h × (length rest ≤ n)

heads_read :
    (n : ℕ) (b : Bool) (h : TrackHeader) (rest : Bytes)
    → IsTrackHeader h
    → length rest ≤ n
    → IsHeaderRead n (read_map b h.nsec rest h (λ heads. record h { idam_heads = heads }) header)
heads_read n false h rest v k = (v, k)
heads_read n true h rest v k = elim (Bool-cases (ltb (length rest) h.nsec)) [
  | inl e ↦ rw e v.head
  | inr e ↦ rw e (
    record {
      head = v.head;
      ids = v.ids;
      cyls = v.cyls;
      heads = ground (arith, length-take h.nsec rest);
    },
    ground (arith, length-drop h.nsec rest),
  )
]

cyls_read :
    (n : ℕ) (b c : Bool) (h : TrackHeader) (rest : Bytes)
    → IsTrackHeader h
    → length rest ≤ n
    → IsHeaderRead n (
        read_map b h.nsec rest h
          (λ cyls. record h { sector_cyls = cyls })
          (λ h2 rest2.
            read_map c h.nsec rest2 h2 (λ heads. record h2 { idam_heads = heads }) header))
cyls_read n false c h rest v k = heads_read n c h rest v k
cyls_read n true c h rest v k = elim (Bool-cases (ltb (length rest) h.nsec)) [
  | inl e ↦ rw e v.head
  | inr e ↦
      let cyls = take h.nsec rest in
      rw e (
        heads_read n c (record h { sector_cyls = cyls }) (drop h.nsec rest)
          (record {
            head = v.head;
            ids = v.ids;
            cyls = ground (arith, length-take h.nsec rest);
            heads = v.heads;
          })
          (ground (arith, length-drop h.nsec rest)))
]

maps_read :
    (b c : Bool) (h : TrackHeader) (rest : Bytes)
    → h.head < 2
    → length h.sector_cyls ≡ h.nsec
    → length h.idam_heads ≡ h.nsec
    → IsHeaderRead (length rest) (read_maps b c h rest)
unfolding read_maps
maps_read b c h rest p q r = elim (Bool-cases (ltb (length rest) h.nsec)) [
  | inl e ↦ rw e p
  | inr e ↦
      let ids = take h.nsec rest in
      rw e (
        cyls_read (length rest) b c (record h { sector_ids = ids }) (drop h.nsec rest)
          (record { head = p; ids = ground (arith, length-take h.nsec rest); cyls = q; heads = r })
          (ground (arith, length-drop h.nsec rest)))
]

-- A header takes five bytes and its maps.
pub parse_track_header-IsHeaderRead :
    (bytes : Bytes) → IsHeaderRead (length bytes - 5) (parse_track_header bytes)
unfolding parse_track_header
parse_track_header-IsHeaderRead (mode ∷ cylinder ∷ head_raw ∷ nsec ∷ size_code ∷ rest) =
    let same : suc (suc (suc (suc (suc (length rest))))) - 5 ≡ length rest = omega arith in
    rw same (
      maps_read (bit head_raw 7) (bit head_raw 6) _ rest (omega arith)
        (length-replicate nsec cylinder) (length-replicate nsec (head_raw % 2)))
parse_track_header-IsHeaderRead [] = tt
parse_track_header-IsHeaderRead (a ∷ []) = tt
parse_track_header-IsHeaderRead (a ∷ b ∷ []) = tt
parse_track_header-IsHeaderRead (a ∷ b ∷ c ∷ []) = tt
parse_track_header-IsHeaderRead (a ∷ b ∷ c ∷ d ∷ []) = tt
