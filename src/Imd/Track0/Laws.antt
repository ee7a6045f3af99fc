-- ===== src/Imd/Track0/Laws.antt =====
-- The two readers of a file agree: the extents of parse_imd_track0 cover each track of parse_imd_tracks.
use arcology.Base.{
  Option-cases, inl, inr, ℕ, zero, suc, ◌+◌, ◌≤◌, ◌<◌, ◌≡◌, refl, sym, ap, Bool, true, false,
  Option, none, some, List, [], ◌∷◌, length, All, arith,
}
use arcology.Disc.{Bytes}
use arcology.Imd.{
  TrackHeader, HeaderRead, no_header, truncated, header, parse_track_header, read_imd_data,
}
use arcology.Imd.Sectors.{walk_sectors_rel}
use arcology.Imd.Tracks.{
  Track, no_content, on_raw, on_fill, walk_track, tracks_from, or_none, parse_imd_tracks,
}
use arcology.Imd.Tracks.Laws.{tracks_after, tracks_from-step}
use arcology.Imd.Track0.{
  Sectors, Extents, no_extents, Track0, store_sector, store_fill, see_header, walk_track0, or_first,
  extents_from, track0_of, parse_imd_track0,
}

abbrev is_some {ℓ} : {A : Type ℓ} → Option A → Bool
is_some none = false
is_some (some a) = true

-- The extents of one state are within those of a later one.
record Extends (e f : Extents) : Type 0 where
  cylinder : e.max_cylinder ≤ f.max_cylinder
  head : e.max_head ≤ f.max_head
  first : is_some e.first ≡ true → is_some f.first ≡ true

Extends-refl : (e : Extents) → Extends e e
Extends-refl e = record { cylinder = omega arith; head = omega arith; first = λ h. h }

Extends-trans : (e f g : Extents) → Extends e f → Extends f g → Extends e g
Extends-trans e f g p q = record {
  cylinder = omega (arith, p.cylinder, q.cylinder);
  head = omega (arith, p.head, q.head);
  first = λ h. q.first (p.first h);
}

-- What a header adds is there afterwards.
Covers : Extents → ℕ → ℕ → Type 0
Covers e cylinder head =
    (cylinder ≤ e.max_cylinder) × (head ≤ e.max_head) × (is_some e.first ≡ true)

or_first_lem : (hdr : TrackHeader) (o : Option (Bool × ℕ)) → is_some (or_first hdr o) ≡ true
or_first_lem hdr none = refl
or_first_lem hdr (some x) = refl

see_header-Extends : (hdr : TrackHeader) (e : Extents) → Extends e (see_header hdr e)
unfolding see_header
see_header-Extends hdr e = record {
  cylinder = omega arith;
  head = omega arith;
  first = λ _. or_first_lem hdr e.first;
}

see_header-Covers :
    (hdr : TrackHeader) (e : Extents) → Covers (see_header hdr e) hdr.cylinder hdr.head
unfolding see_header Covers
see_header-Covers hdr e = (omega arith, omega arith, or_first_lem hdr e.first)

Covers-Extends :
    (e f : Extents) (cylinder head : ℕ)
    → Covers e cylinder head
    → Extends e f
    → Covers f cylinder head
unfolding Covers
Covers-Extends e f cylinder head (c, h, s) x =
    (omega (arith, c, x.cylinder), omega (arith, h, x.head), x.first s)

-- The extents after a header that has been read.
extents_after : ℕ → Extents → HeaderRead → Extents
extents_after fuel e no_header = e
extents_after fuel e (truncated hdr) = see_header hdr e
extents_after fuel e (header hdr rest) =
    let (sectors, left) = walk_track0 hdr rest e.sectors in
    extents_from fuel left (record (see_header hdr e) { sectors = sectors })

extents_from-step :
    (fuel : ℕ) (bytes : Bytes) (e : Extents)
    → extents_from (suc fuel) bytes e ≡ extents_after fuel e (parse_track_header bytes)
unfolding extents_from extents_after
extents_from-step fuel bytes e = elim (parse_track_header bytes) [
  | no_header ↦ refl
  | truncated hdr ↦ refl
  | header hdr rest ↦ refl
]

extents_after-Extends :
    (fuel : ℕ) (e : Extents) (r : HeaderRead)
    → ((bytes : Bytes) (f : Extents) → Extends f (extents_from fuel bytes f))
    → Extends e (extents_after fuel e r)
unfolding extents_after
extents_after-Extends fuel e no_header ih = Extends-refl e
extents_after-Extends fuel e (truncated hdr) ih = see_header-Extends hdr e
extents_after-Extends fuel e (header hdr rest) ih =
    let (sectors, left) = walk_track0 hdr rest e.sectors in
    let seen : Extents = record (see_header hdr e) { sectors = sectors } in
    let seen_extends : Extends e seen = record {
      cylinder = (see_header-Extends hdr e).cylinder;
      head = (see_header-Extends hdr e).head;
      first = (see_header-Extends hdr e).first;
    } in
    Extends-trans e seen (extents_from fuel left seen) seen_extends (ih left seen)

extents_from-Extends :
    (fuel : ℕ) (bytes : Bytes) (e : Extents) → Extends e (extents_from fuel bytes e)
unfolding extents_from
extents_from-Extends zero bytes e = Extends-refl e
extents_from-Extends (suc fuel) bytes e =
    rw (extents_from-step fuel bytes e)
      (extents_after-Extends fuel e (parse_track_header bytes) (extents_from-Extends fuel))

-- Both loops read the same bytes of a track.
same_left :
    (hdr : TrackHeader) (rest : Bytes) (sectors : Sectors)
    → (walk_track0 hdr rest sectors).1 ≡ (walk_track hdr rest).1
same_left hdr rest sectors =
    (walk_sectors_rel (store_sector hdr) (store_fill hdr) on_raw on_fill (λ s t. Unit)
      (λ i d s t h. tt) (λ i b s t h. tt) hdr.sector_size 0 hdr.nsec rest sectors no_content tt).1

abbrev IsCovered : Extents → Track → Type 0
IsCovered e t = Covers e t.cylinder t.head

after-IsCovered :
    (fuel index : ℕ) (e : Extents) (r : HeaderRead)
    → ((i : ℕ) (bytes : Bytes) (f : Extents)
        → All (IsCovered (extents_from fuel bytes f)) (tracks_from fuel i bytes))
    → All (IsCovered (extents_after fuel e r)) (tracks_after fuel index r)
unfolding extents_after tracks_after Covers
after-IsCovered fuel index e no_header ih = tt
after-IsCovered fuel index e (truncated hdr) ih = tt
after-IsCovered fuel index e (header hdr rest) ih =
    let seen : Extents = record (see_header hdr e) {
      sectors = (walk_track0 hdr rest e.sectors).0;
    } in
    let left = (walk_track0 hdr rest e.sectors).1 in
    let covered : Covers seen hdr.cylinder hdr.head = see_header-Covers hdr e in
    let others : All (IsCovered (extents_from fuel left seen))
        (tracks_from fuel (suc index) (walk_track hdr rest).1) =
      rw (← same_left hdr rest e.sectors) (ih (suc index) left seen) in
    (
      Covers-Extends seen (extents_from fuel left seen) hdr.cylinder hdr.head covered
          (extents_from-Extends fuel left seen),
      others,
    )

All-IsCovered :
    (fuel index : ℕ) (bytes : Bytes) (e : Extents)
    → All (IsCovered (extents_from fuel bytes e)) (tracks_from fuel index bytes)
unfolding tracks_from
All-IsCovered zero index bytes e = tt
All-IsCovered (suc fuel) index bytes e =
    rw (tracks_from-step fuel index bytes, extents_from-step fuel bytes e)
      (after-IsCovered fuel index e (parse_track_header bytes) (All-IsCovered fuel))

-- The extents of a track of one file, in the result for the file.
abbrev pub IsWithin : Track0 → Track → Type 0
IsWithin r t = (t.cylinder < r.cylinders) × (t.head < r.heads)

abbrev found : Extents → Bool × ℕ → Track0
found e (is_fm, sector_size) = record {
  is_fm = is_fm;
  sector_size = sector_size;
  cylinders = e.max_cylinder + 1;
  heads = e.max_head + 1;
  sectors = e.sectors;
}

found_covers :
    (e : Extents) (x : Bool × ℕ) (ts : List Track)
    → All (IsCovered e) ts
    → All (IsWithin (found e x)) ts
unfolding Covers
found_covers e x [] c = tt
found_covers e x (t ∷ ts) ((cylinder, head, s), cs) =
    ((omega (arith, cylinder), omega (arith, head)), found_covers e x ts cs)

track0_of-some :
    (e : Extents) → is_some e.first ≡ true → (x : Bool × ℕ) × (track0_of e ≡ some (found e x))
track0_of-some e h = elim (Option-cases e.first) [
  | inl n ↦ absurd (cc (n, h))
  | inr (x, n) ↦ (x, rw n refl)
]

abbrev or_empty : Option (List Track) → List Track
or_empty none = []
or_empty (some ts) = ts

covers_lem :
    (e : Extents) (us ts : List Track)
    → or_none us ≡ some ts
    → All (IsCovered e) us
    → (r : Track0) × (track0_of e ≡ some r) × All (IsWithin r) ts
unfolding Covers
covers_lem e [] ts h c = absurd (cc h)
covers_lem e (u ∷ us) ts h c =
    let (x, n) = track0_of-some e c.0.2 in
    (found e x, n, rw (sym (ap or_empty h)) (found_covers e x (u ∷ us) c))

-- The two readers after the file has been read.
abbrev tracks_in : Option Bytes → Option (List Track)
tracks_in o = elim o [ none ↦ none | some bytes ↦ or_none (tracks_from (length bytes) 0 bytes) ]

abbrev track0_in : Option Bytes → Option Track0
track0_in o = elim o [
  | none ↦ none
  | some bytes ↦ track0_of (extents_from (length bytes) bytes no_extents)
]

data_covers :
    (o : Option Bytes) (ts : List Track)
    → tracks_in o ≡ some ts
    → (r : Track0) × (track0_in o ≡ some r) × All (IsWithin r) ts
data_covers none ts h = absurd (cc h)
data_covers (some bytes) ts h =
    covers_lem (extents_from (length bytes) bytes no_extents) (tracks_from (length bytes) 0 bytes)
      ts h (All-IsCovered (length bytes) 0 bytes no_extents)

-- Where parse_imd_tracks finds tracks, parse_imd_track0 has a result for the same file, and its numbers of
-- cylinders and heads are above those of each of the tracks.
pub parse_imd_track0-covers :
    (file : Option Bytes) (ts : List Track)
    → parse_imd_tracks file ≡ some ts
    → (r : Track0) × (parse_imd_track0 file ≡ some r) × All (IsWithin r) ts
unfolding parse_imd_tracks parse_imd_track0
parse_imd_track0-covers file ts h = data_covers (read_imd_data file) ts h
