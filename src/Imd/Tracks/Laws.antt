-- ===== src/Imd/Tracks/Laws.antt =====
-- The tracks of parse_imd_tracks: their shape and their numbers, and that the length of the file is enough
-- fuel for the loop.
use arcology.Base.{
  ℕ, zero, suc, ◌-◌, ◌≤◌, ◌<◌, ◌≡◌, refl, sym, ap, ◌∙◌, List, [], ◌∷◌, length, arith,
}
use arcology.Disc.{Bytes}
use arcology.Imd.{HeaderRead, no_header, truncated, header, parse_track_header}
use arcology.Imd.Header.Shape.{IsHeaderRead, parse_track_header-IsHeaderRead}
use arcology.Imd.Sectors.{walk_sectors-length}
use arcology.Imd.Tracks.{Track, track_of, no_content, on_raw, on_fill, walk_track, tracks_from}

-- A head of 0 or 1, and maps of one length.
abbrev pub IsTrack : Track → Type 0
IsTrack t =
    (t.head < 2)
    × (length t.sector_cyls ≡ length t.sector_ids)
    × (length t.idam_heads ≡ length t.sector_ids)

-- Tracks numbered in order from an index on.
abbrev pub AreTracks : ℕ → List Track → Type 0
AreTracks index [] = Unit
AreTracks index (t ∷ ts) = (t.physical_index ≡ index) × IsTrack t × AreTracks (suc index) ts

-- The tracks that follow a header that has been read.
unfoldable pub tracks_after : ℕ → ℕ → HeaderRead → List Track
tracks_after fuel index no_header = []
tracks_after fuel index (truncated hdr) = []
tracks_after fuel index (header hdr rest) =
    let (c, left) = walk_track hdr rest in track_of index hdr c ∷ tracks_from fuel (suc index) left

pub tracks_from-step :
    (fuel index : ℕ) (bytes : Bytes)
    → tracks_from (suc fuel) index bytes ≡ tracks_after fuel index (parse_track_header bytes)
unfolding tracks_from tracks_after
tracks_from-step fuel index bytes = elim (parse_track_header bytes) [
  | no_header ↦ refl
  | truncated hdr ↦ refl
  | header hdr rest ↦ refl
]

tracks_after-AreTracks :
    (fuel index n : ℕ) (r : HeaderRead)
    → ((i : ℕ) (bytes : Bytes) → AreTracks i (tracks_from fuel i bytes))
    → IsHeaderRead n r
    → AreTracks index (tracks_after fuel index r)
unfolding tracks_after
tracks_after-AreTracks fuel index n no_header ih v = tt
tracks_after-AreTracks fuel index n (truncated hdr) ih v = tt
tracks_after-AreTracks fuel index n (header hdr rest) ih v =
    let h = v.0 in
    (
      refl,
      (h.head, h.cyls ∙ sym h.ids, h.heads ∙ sym h.ids),
      ih (suc index) (walk_track hdr rest).1,
    )

-- The tracks of a file are numbered in its order, and each has a head of 0 or 1 and maps with an entry for
-- each of its sectors.
pub tracks_from-AreTracks :
    (fuel index : ℕ) (bytes : Bytes) → AreTracks index (tracks_from fuel index bytes)
unfolding tracks_from
tracks_from-AreTracks zero index bytes = tt
tracks_from-AreTracks (suc fuel) index bytes = rw (tracks_from-step fuel index bytes) (
    tracks_after-AreTracks fuel index (length bytes - 5) (parse_track_header bytes)
      (tracks_from-AreTracks fuel) (parse_track_header-IsHeaderRead bytes))

-- A header of some bytes leaves less than they are, so the tracks after it have less to read.
tracks_after_enough :
    (n m index k : ℕ) (r : HeaderRead)
    → ((i : ℕ) (bytes : Bytes) → length bytes ≤ k → tracks_from n i bytes ≡ tracks_from m i bytes)
    → IsHeaderRead k r
    → tracks_after n index r ≡ tracks_after m index r
unfolding tracks_after
tracks_after_enough n m index k no_header ih v = refl
tracks_after_enough n m index k (truncated hdr) ih v = refl
tracks_after_enough n m index k (header hdr rest) ih v =
    let (c, left) = walk_track hdr rest in
    let shorter = walk_sectors-length on_raw on_fill hdr.sector_size 0 hdr.nsec rest no_content in
    ap (λ ts. track_of index hdr (walk_track hdr rest).0 ∷ ts)
      (ih (suc index) (walk_track hdr rest).1 (omega (arith, shorter, v.1)))

no_tracks : (n index : ℕ) → tracks_from n index [] ≡ []
unfolding tracks_from parse_track_header
no_tracks zero index = refl
no_tracks (suc n) index = refl

-- Fuel of at least the bytes that are left is enough for the loop: more finds no other tracks.
tracks_from_enough :
    (n m index : ℕ) (bytes : Bytes)
    → length bytes ≤ n
    → length bytes ≤ m
    → tracks_from n index bytes ≡ tracks_from m index bytes
tracks_from_enough n m index [] h k = no_tracks n index ∙ sym (no_tracks m index)
tracks_from_enough zero m index (b ∷ bytes) h k = absurd (omega (arith, h))
tracks_from_enough (suc n) zero index (b ∷ bytes) h k = absurd (omega (arith, k))
tracks_from_enough (suc n) (suc m) index (b ∷ bytes) h k =
    rw (tracks_from-step n index (b ∷ bytes), tracks_from-step m index (b ∷ bytes))
      (tracks_after_enough n m index (length (b ∷ bytes) - 5) (parse_track_header (b ∷ bytes))
        (λ i left e. tracks_from_enough n m i left (omega (arith, e, h)) (omega (arith, e, k)))
        (parse_track_header-IsHeaderRead (b ∷ bytes)))
