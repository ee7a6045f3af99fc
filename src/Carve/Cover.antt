-- ===== src/Carve/Cover.antt =====
-- The partitions and the gaps of a disc: together they are all of it.
use arcology.Base.{
  ℕ, suc, ◌+◌, ◌-◌, ◌≤◌, ◌<◌, ◌≡◌, refl, sym, ap, ◌∙◌, Bool, true, false, not, ◌&&◌, ◌||◌, List, [],
  ◌∷◌, length, any, ltb, leb, arith, if◌then◌else◌, Bool-cases, inl, inr, leb→le,
}
use arcology.Base.Select.{any-append}
use arcology.Base.Int.{ℤ, pos, negsuc, ltb_ℤ, shift}
use arcology.Disc.{Image}
use arcology.Carve.{
  Found, end_byte, Gap, GapLabel, between, post_partition, nexus_firmware, pre_partition, gap_to,
  gaps_after, insert_part, sort_parts, gaps_of_sorted, unpartitioned,
}

abbrev pub in_gap : ℕ → Gap → Bool
in_gap b g = not (ltb_ℤ (pos b) g.start) && ltb_ℤ (pos b) (shift g.start g.size)

abbrev pub in_partition : ℕ → Found → Bool
in_partition b p = leb p.start_byte b && ltb_ℤ (pos b) (end_byte p)

pub and-of : (a b : Bool) → a ≡ true → b ≡ true → (a && b) ≡ true
and-of a b h k = rw h k

pub or_left : (a b : Bool) → a ≡ true → (a || b) ≡ true
or_left true b h = refl
or_left false b h = absurd (cc h)

pub or_right : (a b : Bool) → b ≡ true → (a || b) ≡ true
or_right true b h = refl
or_right false b h = h

or_skip : (x y z w t : Bool) → t ≡ (z || w) → (y || w) ≡ true → ((x || y) || t) ≡ true
or_skip true y z w t e h = refl
or_skip false true z w t e h = refl
or_skip false false z w t e h = e ∙ or_right z w h

pub le→leb : (a b : ℕ) → a ≤ b → leb a b ≡ true
le→leb a b h = ground arith

-- The gap up to a byte has what is past its start and before that byte.
gap_to_covers :
    (label : GapLabel) (e : ℤ) (c b : ℕ)
    → b < c
    → ltb_ℤ (pos b) e ≡ false
    → any (in_gap b) (gap_to label e c) ≡ true
unfolding gap_to
gap_to_covers label (pos a) c b h k =
    let before : ltb (a + 0) (c + 0) ≡ true = ground (arith, h, k) in
    let inside : ltb (b + 0) (a + (c - a) + 0) ≡ true = ground (arith, h, k) in
    rw (before, k, inside) refl
gap_to_covers label (negsuc a) c b h k =
    let before : ltb (0 + 0) (c + suc a) ≡ true = ground arith in
    let above : leb (suc a) (c + suc a) ≡ true = ground arith in
    let inside : ltb (b + 0) (c + suc a - suc a + 0) ≡ true = ground (arith, h) in
    rw (before, k, above, inside) refl

-- After a partition, a byte is in a partition or in a gap.
covered_after :
    (image : Image) (b : ℕ) (p : Found) (ps : List Found)
    → b < image.size
    → p.start_byte ≤ b
    → (any (in_partition b) (p ∷ ps) || any (in_gap b) (gaps_after image p ps)) ≡ true
unfolding gaps_after
covered_after image b p [] h k =
    let from = le→leb p.start_byte b k in
    elim (Bool-cases (ltb_ℤ (pos b) (end_byte p))) [
      | inl e ↦ rw (from, e) refl
      | inr e ↦
          or_right (any (in_partition b) (p ∷ [])) _
            (gap_to_covers post_partition (end_byte p) image.size b h e)
    ]
covered_after image b p (q ∷ qs) h k =
    let from = le→leb p.start_byte b k in
    let label = between p.index q.index in
    let first = gap_to label (end_byte p) q.start_byte in
    elim (Bool-cases (ltb_ℤ (pos b) (end_byte p))) [
      | inl e ↦ rw (from, e) refl
      | inr e ↦ elim (Bool-cases (leb q.start_byte b)) [
        | inl f ↦
            or_skip (in_partition b p) (any (in_partition b) (q ∷ qs)) (any (in_gap b) first) _ _
              (any-append (in_gap b) first (gaps_after image q qs))
              (covered_after image b q qs h (leb→le q.start_byte b f))
        | inr f ↦
            let gap = gap_to_covers label (end_byte p) q.start_byte b (ground (arith, f)) e in
            or_right (any (in_partition b) (p ∷ q ∷ qs)) _ (
              any-append (in_gap b) first (gaps_after image q qs)
              ∙ or_left (any (in_gap b) first) _ gap)
      ]
    ]

-- The same of all the partitions, in any order.
covered_sorted :
    (image : Image) (firmware : Bool) (b : ℕ) (ps : List Found)
    → b < image.size
    → 0 < length ps
    → (any (in_partition b) ps || any (in_gap b) (gaps_of_sorted image firmware ps)) ≡ true
unfolding gaps_of_sorted
covered_sorted image firmware b [] h k = absurd (omega (arith, k))
covered_sorted image firmware b (p ∷ ps) h k =
    let label = if firmware then nexus_firmware else pre_partition in
    let first = gap_to label (pos 0) p.start_byte in
    let split = any-append (in_gap b) first (gaps_after image p ps) in
    elim (Bool-cases (leb p.start_byte b)) [
      | inl e ↦
          or_skip false (any (in_partition b) (p ∷ ps)) (any (in_gap b) first) _ _ split
            (covered_after image b p ps h (leb→le p.start_byte b e))
      | inr e ↦
          let past_start : ltb (b + 0) (0 + 0) ≡ false = ground arith in
          or_right (any (in_partition b) (p ∷ ps)) _ (
            split
            ∙ or_left (any (in_gap b) first) _
                (gap_to_covers label (pos 0) p.start_byte b (ground (arith, e)) past_start))
    ]

module _ (f : Found → Bool) where
  any-insert_part : (p : Found) (ps : List Found) → any f (insert_part p ps) ≡ f p || any f ps
  unfolding insert_part
  any-insert_part p [] = refl
  any-insert_part p (q ∷ qs) = elim (Bool-cases (leb p.start_byte q.start_byte)) [
    | inl e ↦ rw e refl
    | inr e ↦ rw (e, any-insert_part p qs) (swap (f q) (f p) (any f qs))
  ]
    where
      swap : (a b c : Bool) → (a || (b || c)) ≡ (b || (a || c))
      swap true true c = refl
      swap true false c = refl
      swap false true c = refl
      swap false false c = refl

  pub any-sort_parts : (ps : List Found) → any f (sort_parts ps) ≡ any f ps
  unfolding sort_parts
  any-sort_parts [] = refl
  any-sort_parts (p ∷ ps) =
      any-insert_part p (sort_parts ps) ∙ ap (λ b. f p || b) (any-sort_parts ps)

length-insert_part : (p : Found) (ps : List Found) → length (insert_part p ps) ≡ suc (length ps)
unfolding insert_part
length-insert_part p [] = refl
length-insert_part p (q ∷ qs) = elim (Bool-cases (leb p.start_byte q.start_byte)) [
  | inl e ↦ rw e refl
  | inr e ↦ rw e (ap suc (length-insert_part p qs))
]

length-sort_parts : (ps : List Found) → length (sort_parts ps) ≡ length ps
unfolding sort_parts
length-sort_parts [] = refl
length-sort_parts (p ∷ ps) = length-insert_part p (sort_parts ps) ∙ ap suc (length-sort_parts ps)

-- Each byte of the disc is in a partition or in a gap, wherever the partitions lie and however they overlap.
pub unpartitioned_covers :
    (image : Image) (firmware : Bool) (b : ℕ) (ps : List Found)
    → b < image.size
    → 0 < length ps
    → (any (in_partition b) ps || any (in_gap b) (unpartitioned image firmware ps)) ≡ true
unfolding unpartitioned
unpartitioned_covers image firmware b ps h k =
    ap (λ t. t || any (in_gap b) (gaps_of_sorted image firmware (sort_parts ps)))
      (sym (any-sort_parts (in_partition b) ps))
    ∙ covered_sorted image firmware b (sort_parts ps) h (omega (arith, length-sort_parts ps, k))
