-- ===== src/Imd/Header.antt =====
-- The track header of an IMD file: what a writer of the format writes is read back, and what is read is
-- well formed.
pub mod Shape
use mathlib.Core.List.{append_assoc}
use arcology.Base.{
  ℕ, zero, suc, ◌+◌, ◌-◌, ◌*◌, ◌/◌, ◌%◌, ◌^◌, ◌≤◌, ◌<◌, ◌≡◌, refl, ap, ◌∙◌, Bool, true, false, not,
  ◌&&◌, Option, none, some, List, [], ◌∷◌, ◌++◌, take, drop, length, ltb, leb, ◌==◌, replicate,
  if◌then◌else◌, arith, length-take, length-drop, length-replicate, length-append, Bool-cases, inl,
  inr, min,
}
use arcology.Disc.{Bytes, bit}
use arcology.Imd.{
  TrackHeader, HeaderRead, no_header, truncated, header, sector_size_of, read_map, read_maps,
  parse_track_header,
}

-- The flags of the head byte.
abbrev pub flag : Bool → ℕ → ℕ
flag true n = n
flag false n = 0

abbrev pub map_bytes : Bool → List ℕ → Bytes
map_bytes true m = m
map_bytes false m = []

-- A header as the format has it, with the maps whose flags are set.
unfoldable pub print_track_header : Bool → Bool → TrackHeader → Bytes
print_track_header cyl_map head_map h =
    h.mode
    ∷ h.cylinder
    ∷ (h.head + flag head_map 64 + flag cyl_map 128)
    ∷ h.nsec
    ∷ h.size_code
    ∷ (h.sector_ids ++ (map_bytes cyl_map h.sector_cyls ++ map_bytes head_map h.idam_heads))

-- A header that a file can hold: a map that is left out says what the header says.
pub record IsHeader (cyl_map head_map : Bool) (h : TrackHeader) : Type 0 where
  pub head : h.head < 2
  pub ids : length h.sector_ids ≡ h.nsec
  pub cyls : length h.sector_cyls ≡ h.nsec
  pub heads : length h.idam_heads ≡ h.nsec
  pub plain_cyls : cyl_map ≡ false → h.sector_cyls ≡ replicate h.nsec h.cylinder
  pub plain_heads : head_map ≡ false → h.idam_heads ≡ replicate h.nsec h.head
  pub size : h.sector_size ≡ sector_size_of h.size_code
  pub encoding : h.is_fm ≡ leb h.mode 2

take_all : (xs ys : List ℕ) (n : ℕ) → length xs ≡ n → take n (xs ++ ys) ≡ xs
take_all [] ys zero h = refl
take_all [] ys (suc n) h = absurd (omega (arith, h))
take_all (x ∷ xs) ys zero h = absurd (omega (arith, h))
take_all (x ∷ xs) ys (suc n) h = ap (λ r. x ∷ r) (take_all xs ys n (omega (arith, h)))

drop_all : (xs ys : List ℕ) (n : ℕ) → length xs ≡ n → drop n (xs ++ ys) ≡ ys
drop_all [] ys zero h = refl
drop_all [] ys (suc n) h = absurd (omega (arith, h))
drop_all (x ∷ xs) ys zero h = absurd (omega (arith, h))
drop_all (x ∷ xs) ys (suc n) h = drop_all xs ys n (omega (arith, h))

enough : (xs ys : List ℕ) (n : ℕ) → length xs ≡ n → ltb (length (xs ++ ys)) n ≡ false
enough xs ys n h = ground (arith, length-append xs ys)

-- The head byte gives back its three parts.
head_byte :
    (head : ℕ) (cyl_map head_map : Bool)
    → head < 2
    → ((head + flag head_map 64 + flag cyl_map 128) % 2 ≡ head)
      × (bit (head + flag head_map 64 + flag cyl_map 128) 7 ≡ cyl_map)
      × (bit (head + flag head_map 64 + flag cyl_map 128) 6 ≡ head_map)
head_byte head true true h = (omega arith, ground arith, ground arith)
head_byte head true false h = (omega arith, ground arith, ground arith)
head_byte head false true h = (omega arith, ground arith, ground arith)
head_byte head false false h = (omega arith, ground arith, ground arith)

read_map_lem :
    (b : Bool) (n : ℕ) (m : List ℕ) (rest : Bytes) (hdr : TrackHeader)
    (with_map : List ℕ → TrackHeader) (next : TrackHeader → Bytes → HeaderRead)
    → length m ≡ n
    → read_map b n (map_bytes b m ++ rest) hdr with_map next
      ≡ next (if b then with_map m else hdr) rest
read_map_lem false n m rest hdr with_map next h = refl
read_map_lem true n m rest hdr with_map next h =
    rw (enough m rest n h, take_all m rest n h, drop_all m rest n h) refl

-- The record after the maps, from what each map holds.
abbrev filled_in : Bool → Bool → TrackHeader → List ℕ → List ℕ → List ℕ → TrackHeader
filled_in cyl_map head_map hdr ids cyls heads = record hdr {
  sector_ids = ids;
  sector_cyls = if cyl_map then cyls else hdr.sector_cyls;
  idam_heads = if head_map then heads else hdr.idam_heads;
}

abbrev with_ids : TrackHeader → List ℕ → TrackHeader
with_ids h ids = record h { sector_ids = ids }

abbrev with_cyls : TrackHeader → List ℕ → TrackHeader
with_cyls h cyls = record h { sector_cyls = cyls }

abbrev with_heads : TrackHeader → List ℕ → TrackHeader
with_heads h heads = record h { idam_heads = heads }

-- What reads the maps that are left.
abbrev after_cyls : Bool → ℕ → TrackHeader → Bytes → HeaderRead
after_cyls head_map n hdr rest = read_map head_map n rest hdr (with_heads hdr) header

abbrev after_ids : Bool → Bool → ℕ → TrackHeader → Bytes → HeaderRead
after_ids cyl_map head_map n hdr rest =
    read_map cyl_map n rest hdr (with_cyls hdr) (after_cyls head_map n)

read_maps_lem :
    (cyl_map head_map : Bool) (hdr : TrackHeader) (ids cyls heads : List ℕ) (rest : Bytes)
    → length ids ≡ hdr.nsec
    → length cyls ≡ hdr.nsec
    → length heads ≡ hdr.nsec
    → read_maps cyl_map head_map hdr
        (ids ++ (map_bytes cyl_map cyls ++ (map_bytes head_map heads ++ rest)))
      ≡ header (filled_in cyl_map head_map hdr ids cyls heads) rest
unfolding read_maps
read_maps_lem true true hdr ids cyls heads rest h k l =
    read_map_lem true hdr.nsec ids (cyls ++ (heads ++ rest)) hdr (with_ids hdr)
      (after_ids true true hdr.nsec) h
    ∙ read_map_lem true hdr.nsec cyls (heads ++ rest) (with_ids hdr ids)
        (with_cyls (with_ids hdr ids)) (after_cyls true hdr.nsec) k
    ∙ read_map_lem true hdr.nsec heads rest (with_cyls (with_ids hdr ids) cyls)
        (with_heads (with_cyls (with_ids hdr ids) cyls)) header l
read_maps_lem true false hdr ids cyls heads rest h k l =
    read_map_lem true hdr.nsec ids (cyls ++ rest) hdr (with_ids hdr) (after_ids true false hdr.nsec)
      h
    ∙ read_map_lem true hdr.nsec cyls rest (with_ids hdr ids) (with_cyls (with_ids hdr ids))
        (after_cyls false hdr.nsec) k
read_maps_lem false true hdr ids cyls heads rest h k l =
    read_map_lem true hdr.nsec ids (heads ++ rest) hdr (with_ids hdr)
      (after_ids false true hdr.nsec) h
    ∙ read_map_lem true hdr.nsec heads rest (with_ids hdr ids) (with_heads (with_ids hdr ids))
        header l
read_maps_lem false false hdr ids cyls heads rest h k l =
    read_map_lem true hdr.nsec ids rest hdr (with_ids hdr) (after_ids false false hdr.nsec) h

-- The header before the maps, from the five bytes.
abbrev before_maps : ℕ → ℕ → ℕ → ℕ → ℕ → TrackHeader
before_maps mode cylinder head nsec size_code = record {
  mode = mode;
  cylinder = cylinder;
  head = head;
  nsec = nsec;
  size_code = size_code;
  sector_size = sector_size_of size_code;
  is_fm = leb mode 2;
  sector_ids = [];
  sector_cyls = replicate nsec cylinder;
  idam_heads = replicate nsec head;
}

parse_parts :
    (mode cylinder head_raw nsec size_code head : ℕ) (rest : Bytes) (cyl_map head_map : Bool)
    → head_raw % 2 ≡ head
    → bit head_raw 7 ≡ cyl_map
    → bit head_raw 6 ≡ head_map
    → parse_track_header (mode ∷ cylinder ∷ head_raw ∷ nsec ∷ size_code ∷ rest)
      ≡ read_maps cyl_map head_map (before_maps mode cylinder head nsec size_code) rest
unfolding parse_track_header
parse_parts mode cylinder head_raw nsec size_code head rest cyl_map head_map p q r =
    ap
      (λ b.
        read_maps b (bit head_raw 6) (before_maps mode cylinder (head_raw % 2) nsec size_code) rest)
      q
    ∙ ap (λ b. read_maps cyl_map b (before_maps mode cylinder (head_raw % 2) nsec size_code) rest) r
    ∙ ap (λ h. read_maps cyl_map head_map (before_maps mode cylinder h nsec size_code) rest) p

regroup : (a b c rest : Bytes) → (a ++ (b ++ c)) ++ rest ≡ a ++ (b ++ (c ++ rest))
regroup a b c rest = append_assoc a (b ++ c) rest ∙ ap (λ r. a ++ r) (append_assoc b c rest)

-- The header that comes of the maps is the one that was written.
same_header :
    (cyl_map head_map : Bool) (h : TrackHeader)
    → IsHeader cyl_map head_map h
    → filled_in cyl_map head_map
        (before_maps h.mode h.cylinder h.head h.nsec h.size_code)
        h.sector_ids
        h.sector_cyls
        h.idam_heads
      ≡ h
same_header true true h v = cc (v.size, v.encoding)
same_header true false h v = cc (v.size, v.encoding, v.plain_heads refl)
same_header false true h v = cc (v.size, v.encoding, v.plain_cyls refl)
same_header false false h v = cc (v.size, v.encoding, v.plain_cyls refl, v.plain_heads refl)

-- A track header that is written with any choice of maps is read back, and the reading ends at the byte
-- after it.
pub parse_track_header-print :
    (cyl_map head_map : Bool) (h : TrackHeader) (rest : Bytes)
    → IsHeader cyl_map head_map h
    → parse_track_header (print_track_header cyl_map head_map h ++ rest) ≡ header h rest
unfolding print_track_header
parse_track_header-print cyl_map head_map h rest v =
    let (p, q, r) = head_byte h.head cyl_map head_map v.head in
    let b = before_maps h.mode h.cylinder h.head h.nsec h.size_code in
    parse_parts h.mode h.cylinder (h.head + flag head_map 64 + flag cyl_map 128) h.nsec h.size_code
      h.head
      ((h.sector_ids ++ (map_bytes cyl_map h.sector_cyls ++ map_bytes head_map h.idam_heads))
        ++ rest)
      cyl_map head_map p q r
    ∙ ap (read_maps cyl_map head_map b) (
        regroup h.sector_ids (map_bytes cyl_map h.sector_cyls) (map_bytes head_map h.idam_heads)
          rest)
    ∙ read_maps_lem cyl_map head_map b h.sector_ids h.sector_cyls h.idam_heads rest v.ids v.cyls
        v.heads
    ∙ ap (λ k. header k rest) (same_header cyl_map head_map h v)
