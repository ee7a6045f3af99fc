-- ===== src/Carve/Restore.antt =====
-- That nothing of a disc is lost: each byte can be had back from what the handler registers, notes, or leaves in the
-- original.
use mathlib.Core.Option.{some-injective}
use arcology.Base.{
  ℕ, zero, suc, ◌+◌, ◌-◌, ◌≤◌, ◌<◌, ◌≡◌, refl, sym, ap, ◌∙◌, Bool, true, false, not, ◌&&◌, ◌||◌,
  Option, none, some, List, [], ◌∷◌, length, any, all, min, ltb, leb, ◌==◌, ==_iff, arith,
  Bool-cases, inl, inr, lt→ltb, leb→le, and-eq_true,
}
use arcology.Base.Int.{ℤ, pos, negsuc, ltb_ℤ, shift}
use arcology.Disc.{Bytes, Image, bytes_from, read, byte_at}
use arcology.Disc.Words.{length-read}
use arcology.Carve.{chunk_size, extract_partition_range, is_region_uniform, Found, end_byte, Gap}
use arcology.Carve.Chunks.{fill_of, extract_partition_range-read, is_region_uniform-read}
use arcology.Carve.Cover.{in_gap, in_partition, or_left, or_right, le→leb}
use arcology.Carve.Effects.{
  Effect, register_partition, register_gap, omit_gap, probe_original, partition_effects,
  gap_outcome, gap_effect, gap_effects,
}

-- Whether some bytes that were read from a start on have the value of a byte of the disc.
abbrev pub has_value : ℕ → Bytes → ℕ → ℕ → Bool
has_value start bytes b v =
    leb start b && ltb (b - start) (length bytes) && byte_at bytes (b - start) == v

abbrev pub gap_has_value : ℤ → Bytes → ℕ → ℕ → Bool
gap_has_value (pos a) bytes b v = has_value a bytes b v
gap_has_value (negsuc a) bytes b v = false

-- Whether a call keeps a value for a byte: in a partition or a gap that is registered, or as the note of the byte that
-- fills a gap; or leaves the byte in the original, for a partition of it.
abbrev pub keeps : ℕ → ℕ → Effect → Bool
keeps b v (register_partition p bytes) = has_value p.start_byte bytes b v
keeps b v (register_gap g bytes) = gap_has_value g.start bytes b v
keeps b v (omit_gap g fill) = in_gap b g && fill == v
keeps b v (probe_original p cached) = in_partition b p
keeps b v _ = false

byte_at-bytes_from : (f : ℕ → ℕ) (o n i : ℕ) → i < n → byte_at (bytes_from f o n) i ≡ f (o + i)
unfolding bytes_from
byte_at-bytes_from f o zero i h = absurd (omega (arith, h))
byte_at-bytes_from f o (suc n) zero h = ap f (omega arith)
byte_at-bytes_from f o (suc n) (suc i) h =
    byte_at-bytes_from f (suc o) n i (omega (arith, h)) ∙ ap f (omega arith)

byte_at-read :
    (image : Image) (s n b : ℕ)
    → s ≤ b
    → b < s + n
    → b < image.size
    → byte_at (read image s n) (b - s) ≡ image.byte b
unfolding read
byte_at-read image s n b h k l =
    byte_at-bytes_from image.byte s (min n (image.size - s)) (b - s) (omega (arith, h, k, l))
    ∙ ap image.byte (omega (arith, h))

has_value-read :
    (image : Image) (s n b : ℕ)
    → s ≤ b
    → b < s + n
    → b < image.size
    → has_value s (read image s n) b (image.byte b) ≡ true
has_value-read image s n b h k l =
    let inside : ltb (b - s) (length (read image s n)) ≡ true =
      lt→ltb (b - s) (length (read image s n)) (omega (arith, length-read image s n, h, k, l)) in
    rw (le→leb s b h, inside) ((==_iff _ _).1 (byte_at-read image s n b h k l))

-- A partition of a size below 0 holds nothing.
before_start : (n s b : ℕ) → s ≤ b → ltb_ℤ (pos b) (shift (negsuc n) s) ≡ false
before_start n s b h = elim (Bool-cases (leb (suc n) s)) [
  | inl e ↦ rw e (ground (arith, h))
  | inr e ↦ rw e (ground arith)
]

abbrev pub is_nonneg : ℤ → Bool
is_nonneg (pos n) = true
is_nonneg (negsuc n) = false

abbrev pub ends_nonneg : Found → Bool
ends_nonneg p = is_nonneg (end_byte p)

nonneg-pos : (z : ℤ) → is_nonneg z ≡ true → (n : ℕ) × (z ≡ pos n)
nonneg-pos (pos n) h = (n, refl)
nonneg-pos (negsuc n) h = absurd (cc h)

-- Whether the turn for a partition goes on: it is not probed, or its probe does not raise.
abbrev pub probe_passes : Image → (Found → Bool) → (Found → Bytes → Bool) → Found → Bool
probe_passes image registers raises p = not (
    registers p
    && not p.is_printer
    && raises p (extract_partition_range chunk_size image p.start_byte p.size_bytes))

partition_step :
    (image : Image) (registers : Found → Bool) (raises : Found → Bytes → Bool) (b v : ℕ) (p : Found)
    (ps : List Found) (after : List Effect)
    → probe_passes image registers raises p ≡ true
    → any (keeps b v) (partition_effects image registers raises (p ∷ ps) after) ≡ (
        keeps b v (
          register_partition p (extract_partition_range chunk_size image p.start_byte p.size_bytes))
        || any (keeps b v) (partition_effects image registers raises ps after))
unfolding partition_effects
partition_step image registers raises b v p ps after h =
    let bytes = extract_partition_range chunk_size image p.start_byte p.size_bytes in
    elim (Bool-cases (registers p && not p.is_printer)) [
      | inr e ↦ rw e refl
      | inl e ↦ elim (Bool-cases (raises p bytes)) [
        | inl r ↦ absurd (ground (arith, h, e, r))
        | inr r ↦ rw (e, r) refl
      ]
    ]

module _ (image : Image) (b : ℕ) (there : b < image.size) where
  partition_value :
      (s : ℕ) (z : ℤ)
      → (leb s b && ltb_ℤ (pos b) (shift z s)) ≡ true
      → has_value s (extract_partition_range chunk_size image s z) b (image.byte b) ≡ true
  partition_value s (pos n) h =
      let (from, to) = and-eq_true (leb s b) (ltb_ℤ (pos b) (shift (pos n) s)) h in
      rw (extract_partition_range-read chunk_size image s n (omega arith))
        (has_value-read image s n b (leb→le s b from) (ground (arith, to)) there)
  partition_value s (negsuc n) h =
      let (from, to) = and-eq_true (leb s b) (ltb_ℤ (pos b) (shift (negsuc n) s)) h in
      absurd (cc (to, before_start n s b (leb→le s b from)))

  pub partitions_kept :
      (registers : Found → Bool) (raises : Found → Bytes → Bool) (ps : List Found)
      (after : List Effect)
      → all (probe_passes image registers raises) ps ≡ true
      → any (in_partition b) ps ≡ true
      → any (keeps b (image.byte b)) (partition_effects image registers raises ps after) ≡ true
  partitions_kept registers raises [] after k h = absurd (cc h)
  partitions_kept registers raises (p ∷ ps) after k h =
      let passes = probe_passes image registers raises in
      let (one, more) = and-eq_true (passes p) (all passes ps) k in
      let rest = any (keeps b (image.byte b)) (partition_effects image registers raises ps after) in
      partition_step image registers raises b (image.byte b) p ps after one
      ∙ (elim (Bool-cases (in_partition b p)) [
        | inl e ↦ or_left _ rest (partition_value p.start_byte p.size_bytes e)
        | inr e ↦ or_right _ rest (partitions_kept registers raises ps after more (rw e at h))
      ])

  -- What comes after the partitions comes where no probe raises.
  pub after_kept :
      (registers : Found → Bool) (raises : Found → Bytes → Bool) (ps : List Found)
      (after : List Effect)
      → all (probe_passes image registers raises) ps ≡ true
      → any (keeps b (image.byte b)) after ≡ true
      → any (keeps b (image.byte b)) (partition_effects image registers raises ps after) ≡ true
  unfolding partition_effects
  after_kept registers raises [] after k h = h
  after_kept registers raises (p ∷ ps) after k h =
      let passes = probe_passes image registers raises in
      let (one, more) = and-eq_true (passes p) (all passes ps) k in
      partition_step image registers raises b (image.byte b) p ps after one
      ∙ or_right _
          (any (keeps b (image.byte b)) (partition_effects image registers raises ps after))
          (after_kept registers raises ps after more h)

  all-byte_at :
      (f : ℕ) (d : Bytes) (i : ℕ) → all (λ x. x == f) d ≡ true → i < length d → byte_at d i ≡ f
  all-byte_at f [] i h k = absurd (omega (arith, k))
  all-byte_at f (x ∷ d) zero h k = (==_iff x f).0 (and-eq_true (x == f) (all (λ x. x == f) d) h).0
  all-byte_at f (x ∷ d) (suc i) h k =
      all-byte_at f d i (and-eq_true (x == f) (all (λ x. x == f) d) h).1 (omega (arith, k))

  fill_of-byte_at : (d : Bytes) (f i : ℕ) → fill_of d ≡ some f → i < length d → byte_at d i ≡ f
  fill_of-byte_at [] f i h k = absurd (omega (arith, k))
  fill_of-byte_at (x ∷ d) f i h k = elim (Bool-cases (all (λ y. y == x) d)) [
    | inl e ↦
        let same : x ≡ f = some-injective x f (rw e at h) in
        all-byte_at x (x ∷ d) i (rw ((==_iff x x).1 refl) e) k ∙ same
    | inr e ↦ absurd (cc (rw e at h))
  ]

  inside_gap : (a : ℕ) (g : Gap) → g.start ≡ pos a → in_gap b g ≡ true → (a ≤ b) × (b < a + g.size)
  inside_gap a g e h =
      let (from, to) =
        and-eq_true (not (ltb (b + 0) (a + 0))) (ltb (b + 0) (a + g.size + 0)) (rw e at h) in
      (ground (arith, from), ground (arith, to))

  outcome_kept :
      (registers : Found → Bool) (raises : Found → Bytes → Bool) (a : ℕ) (g : Gap) (u : Option ℕ)
      → u ≡ fill_of (read image a g.size)
      → g.start ≡ pos a
      → in_gap b g ≡ true
      → keeps b (image.byte b) (gap_outcome image registers raises a g u) ≡ true
  unfolding gap_outcome
  outcome_kept registers raises a g none u e h =
      let (from, to) = inside_gap a g e h in
      rw (e, extract_partition_range-read chunk_size image a g.size (omega arith))
        (has_value-read image a g.size b from to there)
  outcome_kept registers raises a g (some f) u e h =
      let (from, to) = inside_gap a g e h in
      let inside : b - a < length (read image a g.size) =
        omega (arith, length-read image a g.size, from, to, there) in
      rw h (
        (==_iff f (image.byte b)).1 (
          sym (fill_of-byte_at (read image a g.size) f (b - a) (sym u) inside)
          ∙ byte_at-read image a g.size b from to there))

  gap_kept :
      (registers : Found → Bool) (raises : Found → Bytes → Bool) (a : ℕ) (g : Gap)
      → g.start ≡ pos a
      → in_gap b g ≡ true
      → keeps b (image.byte b) (gap_effect image registers raises a g) ≡ true
  unfolding gap_effect
  gap_kept registers raises a g e h =
      outcome_kept registers raises a g (is_region_uniform chunk_size image a g.size)
        (is_region_uniform-read chunk_size image a g.size (omega arith)) e h

  -- The gaps are gone through to the end where none starts below 0.
  pub gaps_kept :
      (registers : Found → Bool) (raises : Found → Bytes → Bool) (gs : List Gap)
      → all (λ g. is_nonneg g.start) gs ≡ true
      → any (in_gap b) gs ≡ true
      → any (keeps b (image.byte b)) (gap_effects image registers raises gs) ≡ true
  unfolding gap_effects
  gaps_kept registers raises [] n h = absurd (cc h)
  gaps_kept registers raises (g ∷ gs) n h =
      let kept = keeps b (image.byte b) in
      let rest = gap_effects image registers raises gs in
      let (first, more) = and-eq_true (is_nonneg g.start) (all (λ g. is_nonneg g.start) gs) n in
      let (a, e) = nonneg-pos g.start first in
      rw e (elim (Bool-cases (in_gap b g)) [
        | inl f ↦
            or_left (kept (gap_effect image registers raises a g)) (any kept rest)
              (gap_kept registers raises a g e f)
        | inr f ↦
            or_right (kept (gap_effect image registers raises a g)) (any kept rest)
              (gaps_kept registers raises gs more (rw f at h))
      ])
