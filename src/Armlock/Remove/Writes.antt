-- ===== src/Armlock/Remove/Writes.antt =====
-- The four blocks that remove_armlock writes, one after another, and the image that they leave.
use mathlib.Core.Path.{subst}
use arcology.Base.{
  ℕ, ◌+◌, ◌*◌, ◌&&◌, ◌||◌, ◌≤◌, ◌<◌, ◌≡◌, ◌⊎◌, inl, inr, refl, sym, ◌∙◌, Bool, true, false, length,
  length-replicate, ltb, leb, ◌==◌, arith, ==_iff,
}
use arcology.Disc.{Bytes, Image, read}
use arcology.Disc.Words.{length-read}
use arcology.Armlock.{dir_size, stash_addr}
use arcology.Armlock.File.{write, size-write, byte-write_ne, read-write_self, read-write_ne}
use arcology.Armlock.Remove.{blank_dir, restore_root}
use arcology.Armlock.Remove.Laws.{IsPatched}

abbrev in_region : ℕ → ℕ → ℕ → Bool
in_region a n o = leb a o && ltb o (a + n)

-- The bytes that removal may change, those past the end among them.
abbrev pub is_patched : ℕ → ℕ → ℕ → ℕ → ℕ → Bool
is_patched size sector_size m stride o =
    leb size o
    || in_region stash_addr dir_size o
    || in_region m sector_size o
    || in_region (m + stride) sector_size o
    || in_region (m + 2 * stride) dir_size o

-- The disc after removal, its map at `m` and the copies `stride` bytes apart.
pub record IsRestored (sector_size m stride : ℕ) (image out : Image) : Type 0 where
  pub same_size : out.size ≡ image.size
  pub root : read out (m + 2 * stride) dir_size ≡ read image stash_addr dir_size
  pub cleared : read out stash_addr dir_size ≡ blank_dir
  pub primary : IsPatched (read image m sector_size) (read out m sector_size)
  pub backup : IsPatched (read image (m + stride) sector_size) (read out (m + stride) sector_size)
  pub others :
      (o : ℕ) → (is_patched image.size sector_size m stride o || out.byte o == image.byte o) ≡ true

or-of : (a b : Bool) → (a ≡ false → b ≡ true) → a || b ≡ true
or-of true b h = refl
or-of false b h = h refl

all_false :
    (a b c d e : Bool)
    → (a || b || c || d || e) ≡ false
    → (a ≡ false) × (b ≡ false) × (c ≡ false) × (d ≡ false) × (e ≡ false)
all_false false false false false e h = (refl, refl, refl, refl, h)
all_false false false false true e h = absurd (cc h)
all_false false false true d e h = absurd (cc h)
all_false false true c d e h = absurd (cc h)
all_false true b c d e h = absurd (cc h)

length-blank_dir : length blank_dir ≡ dir_size
unfolding blank_dir
length-blank_dir = length-replicate {A = ℕ} dir_size 0

module _ (n m stride : ℕ) (image : Image) (one two : Bytes) (past : 0xc00 ≤ m) (wide : n ≤ stride)
    (fits : m + 2 * stride + dir_size ≤ image.size) (large : 512 ≤ n) (length_one : length one ≡ n)
    (length_two : length two ≡ n) where
  abbrev first : Image
  first = write m one image

  abbrev second : Image
  second = write (m + stride) two first

  abbrev root_block : Bytes
  root_block = read second stash_addr dir_size

  abbrev third : Image
  third = write (m + 2 * stride) root_block second

  size_first : first.size ≡ image.size
  size_first = size-write m one image (omega (arith, length_one, wide, fits))

  size_second : second.size ≡ image.size
  size_second =
      size-write (m + stride) two first (omega (arith, length_two, wide, fits, size_first))
      ∙ size_first

  length_root : length root_block ≡ dir_size
  length_root = omega (arith, length-read second stash_addr dir_size, size_second, past, fits)

  size_third : third.size ≡ image.size
  size_third =
      size-write (m + 2 * stride) root_block second (omega (arith, length_root, fits, size_second))
      ∙ size_second

  abbrev out : Image
  out = write stash_addr blank_dir third

  fits_blank : stash_addr + length blank_dir ≤ third.size
  fits_blank = omega (arith, length-blank_dir, size_third, past, fits)

  -- The last write leaves what lies past the stash.
  past_stash : (a k : ℕ) → 0xc00 ≤ a → a + k ≤ image.size → read out a k ≡ read third a k
  past_stash a k h l =
      read-write_ne stash_addr blank_dir third a k fits_blank
        (inr (omega (arith, length-blank_dir, h))) (omega (arith, l, size_third))

  -- The last two leave the maps.
  before_root : (a k : ℕ) → 0xc00 ≤ a → a + k ≤ m + 2 * stride → read out a k ≡ read second a k
  before_root a k h l =
      past_stash a k h (omega (arith, l, fits))
      ∙ read-write_ne (m + 2 * stride) root_block second a k
          (omega (arith, length_root, fits, size_second)) (inl l)
          (omega (arith, l, fits, size_second))

  out-first : read out m n ≡ one
  out-first =
      before_root m n past (omega (arith, wide))
      ∙ read-write_ne (m + stride) two first m n (omega (arith, length_two, wide, fits, size_first))
          (inl (omega (arith, wide))) (omega (arith, wide, fits, size_first))
      ∙ subst (λ k. read first m k ≡ one) length_one
          (read-write_self m one image (omega (arith, length_one, wide, fits)))

  out-second : read out (m + stride) n ≡ two
  out-second =
      before_root (m + stride) n (omega (arith, past)) (omega (arith, wide))
      ∙ subst (λ k. read second (m + stride) k ≡ two) length_two
          (read-write_self (m + stride) two first
            (omega (arith, length_two, wide, fits, size_first)))

  out-root : read out (m + 2 * stride) dir_size ≡ read image stash_addr dir_size
  out-root =
      past_stash (m + 2 * stride) dir_size (omega (arith, past)) fits
      ∙ subst (λ k. read third (m + 2 * stride) k ≡ root_block) length_root
          (read-write_self (m + 2 * stride) root_block second
            (omega (arith, length_root, fits, size_second)))
      ∙ read-write_ne (m + stride) two first stash_addr dir_size
          (omega (arith, length_two, wide, fits, size_first)) (inl (omega (arith, past)))
          (omega (arith, past, fits, size_first))
      ∙ read-write_ne m one image stash_addr dir_size (omega (arith, length_one, wide, fits))
          (inl past) (omega (arith, past, fits))

  elsewhere :
      (o : ℕ)
      → o < image.size
      → (o < stash_addr) ⊎ (stash_addr + dir_size ≤ o)
      → (o < m) ⊎ (m + n ≤ o)
      → (o < m + stride) ⊎ (m + stride + n ≤ o)
      → (o < m + 2 * stride) ⊎ (m + 2 * stride + dir_size ≤ o)
      → (restore_root (m + 2 * stride) second).byte o ≡ image.byte o
  unfolding restore_root
  elsewhere o h a b c d =
      byte-write_ne stash_addr blank_dir third o (rw length-blank_dir a)
        (omega (arith, h, size_third))
      ∙ byte-write_ne (m + 2 * stride) root_block second o (rw length_root d)
          (omega (arith, h, size_second))
      ∙ byte-write_ne (m + stride) two first o (rw length_two c) (omega (arith, h, size_first))
      ∙ byte-write_ne m one image o (rw length_one b) h

  below : (k o : ℕ) → leb k o ≡ false → o < k
  below k o h = ground arith

  outside : (a k o : ℕ) → in_region a k o ≡ false → (o < a) ⊎ (a + k ≤ o)
  outside a k o h = ground arith

  others :
      (o : ℕ)
      → (is_patched image.size n m stride o
          || (restore_root (m + 2 * stride) second).byte o == image.byte o)
        ≡ true
  others o = or-of (is_patched image.size n m stride o) _ (λ h.
      let (past_end, a, b, c, d) =
        all_false (leb image.size o) (in_region stash_addr dir_size o) (in_region m n o)
          (in_region (m + stride) n o) (in_region (m + 2 * stride) dir_size o) h in
      (==_iff _ _).1 (
        elsewhere o (below image.size o past_end) (outside stash_addr dir_size o a)
          (outside m n o b) (outside (m + stride) n o c) (outside (m + 2 * stride) dir_size o d)))

  pub restored :
      IsPatched (read image m n) one
      → IsPatched (read image (m + stride) n) two
      → IsRestored n m stride image (restore_root (m + 2 * stride) second)
  unfolding restore_root
  restored h k = record {
    same_size = size-write stash_addr blank_dir third fits_blank ∙ size_third;
    root = out-root;
    cleared =
        subst (λ l. read out stash_addr l ≡ blank_dir) length-blank_dir
          (read-write_self stash_addr blank_dir third fits_blank);
    primary = subst (IsPatched (read image m n)) (sym out-first) h;
    backup = subst (IsPatched (read image (m + stride) n)) (sym out-second) k;
    others = others;
  }
