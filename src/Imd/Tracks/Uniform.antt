-- ===== src/Imd/Tracks/Uniform.antt =====
-- What the two flags of a track mean, by the bytes that its sectors hold.
use mathlib.Core.List.{append_assoc, append-nil}
use mathlib.Core.Bool.{and_assoc, and-true, and-false}
use arcology.Base.{
  ==_iff, ℕ, ◌≡◌, refl, sym, ap, ◌∙◌, Bool, true, false, not, ◌&&◌, Option, none, some, List, [],
  ◌∷◌, ◌++◌, all, ◌==◌, arith, Bool-cases, inl, inr,
}
use arcology.Disc.{Bytes}
use arcology.Imd.{TrackHeader}
use arcology.Imd.Sectors.{walk_sectors}
use arcology.Imd.Tracks.{Content, see_fill, on_fill, on_raw}

-- The sectors that are present, as the bytes each stands for: a fill byte stands for itself.
abbrev pub add_raw : ℕ → Bytes → List Bytes → List Bytes
add_raw i d ds = ds ++ (d ∷ [])

abbrev pub add_fill : ℕ → ℕ → List Bytes → List Bytes
add_fill i fill ds = ds ++ ((fill ∷ []) ∷ [])

unfoldable pub present_sectors : TrackHeader → Bytes → List Bytes
present_sectors hdr rest = (walk_sectors add_raw add_fill hdr.sector_size 0 hdr.nsec rest []).0

-- The bytes of several sectors, one after the other.
abbrev pub joined : List Bytes → Bytes
joined [] = []
joined (d ∷ ds) = d ++ joined ds

-- Whether there is one byte that all of them are.
abbrev pub one_byte : Bytes → Bool
one_byte [] = true
one_byte (b ∷ bs) = all (λ x. x == b) bs

abbrev pub is_none_present : List Bytes → Bool
is_none_present [] = true
is_none_present (d ∷ ds) = false

abbrev pub first_byte : Bytes → Option ℕ
first_byte [] = none
first_byte (b ∷ bs) = some b

-- The state of the loop, from the sectors so far: the fill byte is the first one while the flag holds.
pub record Describes (c : Content) (ds : List Bytes) : Type 0 where
  pub data1 : c.has_data ≡ not (is_none_present ds)
  pub uniform : c.is_uniform_fill ≡ one_byte (joined ds)
  pub fill : c.is_uniform_fill ≡ true → c.track_fill ≡ first_byte (joined ds)

joined-snoc : (ds : List Bytes) (d : Bytes) → joined (ds ++ (d ∷ [])) ≡ joined ds ++ d
joined-snoc [] d = append-nil d
joined-snoc (e ∷ ds) d = ap (λ r. e ++ r) (joined-snoc ds d) ∙ sym (append_assoc e (joined ds) d)

snoc_present : (ds : List Bytes) (d : Bytes) → is_none_present (ds ++ (d ∷ [])) ≡ false
snoc_present [] d = refl
snoc_present (e ∷ ds) d = refl

all-append : (p : ℕ → Bool) (xs ys : Bytes) → all p (xs ++ ys) ≡ (all p xs && all p ys)
all-append p [] ys = refl
all-append p (x ∷ xs) ys =
    ap (λ r. p x && r) (all-append p xs ys) ∙ sym (and_assoc (p x) (all p xs) (all p ys))

-- Whether the bytes go with the fill byte that is known.
abbrev goes_with : Option ℕ → ℕ → Bool
goes_with none b = true
goes_with (some f) b = f == b

all-goes_with :
    (f b : ℕ) (bs : Bytes) → ((b == f) && all (λ x. x == f) bs) ≡ (all (λ x. x == b) bs && (f == b))
all-goes_with f b bs = elim (Bool-cases (b == f)) [
  | inl e ↦
      let same : b ≡ f = (==_iff b f).0 e in
      ap (λ t. t && all (λ x. x == f) bs) e
      ∙ ap (λ z. all (λ x. x == z) bs) (sym same)
      ∙ sym (and-true (all (λ x. x == b) bs))
      ∙ ap (λ t. all (λ x. x == b) bs && t) (sym ((==_iff f b).1 (sym same)))
  | inr e ↦
      let other : (f == b) ≡ false = ground arith in
      rw (e, other) (sym (and-false (all (λ x. x == b) bs)))
]

-- Bytes after others are one byte with them where they are one byte, and the one that the others are.
one_byte-append :
    (xs : Bytes) (b : ℕ) (bs : Bytes)
    → one_byte (xs ++ (b ∷ bs))
      ≡ (one_byte xs && (all (λ x. x == b) bs && goes_with (first_byte xs) b))
one_byte-append [] b bs = sym (and-true (all (λ x. x == b) bs))
one_byte-append (f ∷ xs) b bs =
    all-append (λ x. x == f) xs (b ∷ bs)
    ∙ ap (λ r. all (λ x. x == f) xs && r) (all-goes_with f b bs)

see_fill_first :
    (xs : Bytes) (b : ℕ) (bs : Bytes)
    → (see_fill b (first_byte xs)).track_fill ≡ first_byte (xs ++ (b ∷ bs))
unfolding see_fill
see_fill_first [] b bs = refl
see_fill_first (f ∷ xs) b bs = refl

see_fill_uniform :
    (b : ℕ) (o : Option ℕ)
    → ((see_fill b o).is_uniform_fill ≡ goes_with o b) × ((see_fill b o).has_data ≡ true)
unfolding see_fill
see_fill_uniform b none = (refl, refl)
see_fill_uniform b (some f) = (refl, refl)

-- The loop's state after sectors whose bytes are one more byte, several times.
see_fill_lem :
    (ds : List Bytes) (c : Content) (b : ℕ) (bs : Bytes)
    → Describes c ds
    → c.is_uniform_fill ≡ true
    → all (λ x. x == b) bs ≡ true
    → Describes (see_fill b c.track_fill) (ds ++ ((b ∷ bs) ∷ []))
see_fill_lem ds c b bs v h k =
    let xs = joined ds in
    let known : c.track_fill ≡ first_byte xs = v.fill h in
    let (flag, data2) = see_fill_uniform b (first_byte xs) in
    record {
      data1 = rw (known, snoc_present ds (b ∷ bs)) data2;
      uniform =
          rw (known, joined-snoc ds (b ∷ bs), one_byte-append xs b bs, k, sym v.uniform, h) flag;
      fill = λ _. rw (known, joined-snoc ds (b ∷ bs)) (see_fill_first xs b bs);
    }

-- A track that is no longer uniform stays so.
varied_lem :
    (ds : List Bytes) (d : Bytes) (c : Content)
    → c.has_data ≡ true
    → c.is_uniform_fill ≡ false
    → one_byte (joined ds ++ d) ≡ false
    → Describes c (ds ++ (d ∷ []))
varied_lem ds d c p q r = record {
  data1 = rw (snoc_present ds d) p;
  uniform = rw (joined-snoc ds d, r) q;
  fill = λ e. absurd (cc (q, e));
}

pub raw-Describes :
    (i : ℕ) (d : Bytes) (c : Content) (ds : List Bytes)
    → Describes c ds
    → Describes (on_raw i d c) (add_raw i d ds)
unfolding on_raw
raw-Describes i [] c ds v = record {
  data1 = rw (snoc_present ds []) refl;
  uniform = rw (joined-snoc ds [], append-nil (joined ds)) v.uniform;
  fill = λ e. rw (joined-snoc ds [], append-nil (joined ds)) (v.fill e);
}
raw-Describes i (b ∷ bs) c ds v = elim (Bool-cases c.is_uniform_fill) [
  | inr e ↦ rw e (
      varied_lem ds (b ∷ bs) (record c { has_data = true; is_uniform_fill = false }) refl refl
        (rw (one_byte-append (joined ds) b bs, sym v.uniform, e) refl))
  | inl e ↦ elim (Bool-cases (all (λ x. x == b) bs)) [
    | inl k ↦ rw (e, k) (see_fill_lem ds c b bs v e k)
    | inr k ↦
        rw (e, k)
          (varied_lem ds (b ∷ bs) (record c { has_data = true; is_uniform_fill = false }) refl refl
            (rw (one_byte-append (joined ds) b bs, k) (and-false (one_byte (joined ds)))))
  ]
]

pub fill-Describes :
    (i b : ℕ) (c : Content) (ds : List Bytes)
    → Describes c ds
    → Describes (on_fill i b c) (add_fill i b ds)
unfolding on_fill on_raw
fill-Describes i b c ds v = elim (Bool-cases c.is_uniform_fill) [
  | inl e ↦ rw e (see_fill_lem ds c b [] v e refl)
  | inr e ↦ rw e (
      varied_lem ds (b ∷ []) (record c { has_data = true; is_uniform_fill = false }) refl refl
        (rw (one_byte-append (joined ds) b [], sym v.uniform, e) refl))
]
