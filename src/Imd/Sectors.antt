-- ===== src/Imd/Sectors.antt =====
-- The loop over the sector records of a track, which parse_imd_track0 and parse_imd_tracks each have: what
-- a record does to the state is an argument, for raw data and for a fill byte.
use arcology.Base.{
  ℕ, zero, suc, ◌≤◌, ◌≡◌, refl, Bool, true, false, [], ◌∷◌, length, if◌then◌else◌, arith,
  length-drop, Bool-cases, inl, inr,
}
use arcology.Disc.{Bytes}
use arcology.Imd.{SectorRead, stopped, absent, raw, filled, read_fill, read_sector}

-- What is left after a record.
abbrev pub left_after : SectorRead → Bytes
left_after (stopped rest) = rest
left_after (absent rest) = rest
left_after (raw data1 rest) = rest
left_after (filled fill rest) = rest

abbrev pub is_stopped : SectorRead → Bool
is_stopped (stopped rest) = true
is_stopped _ = false

module _ {S : Type 0} (on_raw : ℕ → Bytes → S → S) (on_fill : ℕ → ℕ → S → S) where
  unfoldable pub after_record : ℕ → SectorRead → S → S
  after_record i (stopped rest) s = s
  after_record i (absent rest) s = s
  after_record i (raw data1 rest) s = on_raw i data1 s
  after_record i (filled fill rest) s = on_fill i fill s

  -- `for i in range(nsec)`, with the break on the end of the data: the state and the bytes after it.
  unfoldable pub walk_sectors : ℕ → ℕ → ℕ → Bytes → S → S × Bytes
  unfolding after_record read_sector
  walk_sectors size i zero bytes s = (s, bytes)
  walk_sectors size i (suc n) bytes s =
      let r = read_sector size bytes in
      let next = walk_sectors size (suc i) n (left_after r) (after_record i r s) in
      if is_stopped r then (s, left_after r) else next

-- A record is read from what is there.
left_after-length :
    (size : ℕ) (bytes : Bytes) → length (left_after (read_sector size bytes)) ≤ length bytes
unfolding read_sector read_fill
left_after-length size [] = omega arith
left_after-length size (stype ∷ []) = ground arith
left_after-length size (stype ∷ b ∷ rest) = ground (arith, length-drop size (b ∷ rest))

pub walk_sectors-length :
    {S : Type 0} (on_raw : ℕ → Bytes → S → S) (on_fill : ℕ → ℕ → S → S) (size i n : ℕ)
    (bytes : Bytes) (s : S)
    → length (walk_sectors on_raw on_fill size i n bytes s).1 ≤ length bytes
unfolding walk_sectors
walk_sectors-length on_raw on_fill size i zero bytes s = omega arith
walk_sectors-length on_raw on_fill size i (suc n) bytes s =
    let r = read_sector size bytes in
    let shorter = left_after-length size bytes in
    let rest =
      walk_sectors-length on_raw on_fill size (suc i) n (left_after r)
        (after_record on_raw on_fill i r s) in
    elim (Bool-cases (is_stopped r)) [ inl e ↦ rw e shorter | inr e ↦ rw e (omega arith) ]

-- Two walks of the same bytes go together: what relates the states is kept, and the same bytes are left.
module _ {S T : Type 0} (on_raw : ℕ → Bytes → S → S) (on_fill : ℕ → ℕ → S → S)
    (on_raw1 : ℕ → Bytes → T → T) (on_fill1 : ℕ → ℕ → T → T) (Rel : S → T → Type 0)
    (raw_rel : (i : ℕ) (d : Bytes) (s : S) (t : T) → Rel s t → Rel (on_raw i d s) (on_raw1 i d t))
    (fill_rel : (i b : ℕ) (s : S) (t : T) → Rel s t → Rel (on_fill i b s) (on_fill1 i b t)) where
  after_record_rel :
      (i : ℕ) (r : SectorRead) (s : S) (t : T)
      → Rel s t
      → Rel (after_record on_raw on_fill i r s) (after_record on_raw1 on_fill1 i r t)
  unfolding after_record
  after_record_rel i (stopped rest) s t h = h
  after_record_rel i (absent rest) s t h = h
  after_record_rel i (raw data1 rest) s t h = raw_rel i data1 s t h
  after_record_rel i (filled fill rest) s t h = fill_rel i fill s t h

  pub walk_sectors_rel :
      (size i n : ℕ) (bytes : Bytes) (s : S) (t : T)
      → Rel s t
      → Rel
          (walk_sectors on_raw on_fill size i n bytes s).0
          (walk_sectors on_raw1 on_fill1 size i n bytes t).0
        × ((walk_sectors on_raw on_fill size i n bytes s).1
            ≡ (walk_sectors on_raw1 on_fill1 size i n bytes t).1)
  unfolding walk_sectors
  walk_sectors_rel size i zero bytes s t h = (h, refl)
  walk_sectors_rel size i (suc n) bytes s t h =
      let r = read_sector size bytes in
      let rest =
        walk_sectors_rel size (suc i) n (left_after r) (after_record on_raw on_fill i r s)
          (after_record on_raw1 on_fill1 i r t) (after_record_rel i r s t h) in
      elim (Bool-cases (is_stopped r)) [ inl e ↦ rw e (h, refl) | inr e ↦ rw e rest ]
