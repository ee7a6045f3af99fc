-- ===== src/Carve/Chunks.antt =====
-- The loops that read a range in chunks: what they give is what one read of the range gives.
use mathlib.Core.Path.{ap₂}
use arcology.Base.{
  ℕ, zero, suc, ◌+◌, ◌-◌, ◌≤◌, ◌<◌, ◌≡◌, refl, sym, ap, ◌∙◌, Bool, true, false, ◌&&◌, Option, none,
  some, List, [], ◌∷◌, ◌++◌, length, all, min, ltb, ◌==◌, arith, ltb→lt, if◌then◌else◌, Bool-cases,
  inl, inr,
}
use arcology.Base.Text.{is_empty}
use arcology.Base.Int.{pos}
use arcology.Disc.{Bytes, Image, bytes_from, read}
use arcology.Disc.Words.{length-read, length-bytes_from}
use arcology.Carve.{read_chunks, join, extract_partition_range, is_region_uniform}

bytes_from-append :
    (f : ℕ → ℕ) (o k n : ℕ) → bytes_from f o k ++ bytes_from f (o + k) n ≡ bytes_from f o (k + n)
unfolding bytes_from
bytes_from-append f o zero n = ap₂ (λ a m. bytes_from f a m) (omega arith) (omega arith)
bytes_from-append f o (suc k) n =
    let next : suc o + k ≡ o + suc k = omega arith in
    let sum : suc k + n ≡ suc (k + n) = omega arith in
    rw sum (
      ap (λ bs. f o ∷ bs)
        (ap (λ a. bytes_from f (suc o) k ++ bytes_from f a n) (sym next)
          ∙ bytes_from-append f (suc o) k n))

-- A read goes on where a shorter one ended.
read-append :
    (image : Image) (o k n : ℕ)
    → k ≤ n
    → read image o k ++ read image (o + length (read image o k)) (n - length (read image o k))
      ≡ read image o n
unfolding read
read-append image o k n h =
    let got = min k (image.size - o) in
    let size : length (bytes_from image.byte o got) ≡ got = length-bytes_from image.byte o got in
    rw size (
      bytes_from-append image.byte o got (min (n - got) (image.size - (o + got)))
      ∙ ap (bytes_from image.byte o) (omega (arith, h)))

empty-length : (d : Bytes) → is_empty d ≡ true → length d ≡ 0
empty-length [] h = refl
empty-length (b ∷ d) h = absurd (cc h)

nonempty-length : (d : Bytes) → is_empty d ≡ false → 0 < length d
nonempty-length [] h = absurd (cc h)
nonempty-length (b ∷ d) h = omega arith

no_bytes : (d : Bytes) → length d ≡ 0 → d ≡ []
no_bytes [] h = refl
no_bytes (b ∷ d) h = absurd (omega (arith, h))

join-read_chunks :
    (size : ℕ) (image : Image) (o fuel n : ℕ)
    → 0 < size
    → n ≤ fuel
    → join (read_chunks size image o fuel n) ≡ read image o n
unfolding read_chunks
join-read_chunks size image o zero n h k =
    sym (no_bytes (read image o n) (omega (arith, length-read image o n, k)))
join-read_chunks size image o (suc fuel) n h k =
    let chunk = read image o (min n size) in
    let len = length-read image o (min n size) in
    elim (Bool-cases (n == 0)) [
      | inl e ↦ rw e (sym (no_bytes (read image o n) (ground (arith, length-read image o n))))
      | inr e ↦ elim (Bool-cases (is_empty chunk)) [
        | inl f ↦
            rw (e, f)
              (sym (
                no_bytes (read image o n)
                  (ground (arith, length-read image o n, len, empty-length chunk f))))
        | inr f ↦
            let some_read = nonempty-length chunk f in
            rw (e, f)
              (ap (λ bs. chunk ++ bs)
                  (join-read_chunks size image (o + length chunk) fuel (n - length chunk) h
                    (omega (arith, some_read, k)))
                ∙ read-append image o (min n size) n (omega arith))
      ]
    ]

-- The partition image that is carved out is the range of the disc, as far as the disc goes, whatever the size of
-- the chunks.
pub extract_partition_range-read :
    (size : ℕ) (image : Image) (start_byte n : ℕ)
    → 0 < size
    → extract_partition_range size image start_byte (pos n) ≡ read image start_byte n
unfolding extract_partition_range
extract_partition_range-read size image start_byte n h =
    join-read_chunks size image start_byte n n h (omega arith)

-- The byte that fills some bytes.
abbrev pub fill_of : Bytes → Option ℕ
fill_of [] = some 0
fill_of (b ∷ bs) = if all (λ x. x == b) bs then some b else none

all-append : (p : ℕ → Bool) (xs ys : Bytes) → all p (xs ++ ys) ≡ (all p xs && all p ys)
all-append p [] ys = refl
all-append p (x ∷ xs) ys = ground (arith, all-append p xs ys)

all-join : (p : ℕ → Bool) (chunks : List Bytes) → all (all p) chunks ≡ all p (join chunks)
all-join p [] = refl
all-join p (chunk ∷ chunks) =
    ap (λ b. all p chunk && b) (all-join p chunks) ∙ sym (all-append p chunk (join chunks))

read-first :
    (image : Image) (a k : ℕ)
    → a < image.size
    → read image a (suc k) ≡ image.byte a ∷ read image (suc a) k
unfolding read bytes_from
read-first image a k h =
    let more : min (suc k) (image.size - a) ≡ suc (min k (image.size - suc a)) = omega (arith, h) in
    rw more refl

read-past : (image : Image) (a k : ℕ) → image.size ≤ a → read image a k ≡ []
read-past image a k h = no_bytes (read image a k) (omega (arith, length-read image a k, h))

fill_of-first :
    (size : ℕ) (image : Image) (a k : ℕ)
    → 0 < size
    → fill_of (image.byte a ∷ join (read_chunks size image (suc a) k k)) ≡ (
        if all (all (λ b. b == image.byte a)) (read_chunks size image (suc a) k k)
        then some (image.byte a)
        else none)
fill_of-first size image a k h =
    ap (λ t. if t then some (image.byte a) else none)
      (sym (all-join (λ b. b == image.byte a) (read_chunks size image (suc a) k k)))

-- A region is uniform, with a byte that fills it, as a comparison of all its bytes at once says, whatever the size of
-- the chunks; a region without bytes is filled with 0.
pub is_region_uniform-read :
    (size : ℕ) (image : Image) (start_byte n : ℕ)
    → 0 < size
    → is_region_uniform size image start_byte n ≡ fill_of (read image start_byte n)
unfolding is_region_uniform
is_region_uniform-read size image a zero h =
    sym (ap fill_of (no_bytes (read image a 0) (omega (arith, length-read image a 0))))
is_region_uniform-read size image a (suc k) h =
    let other : (suc k == 0) ≡ false = ground arith in
    let less : suc k - 1 ≡ k = omega arith in
    elim (Bool-cases (ltb a image.size)) [
      | inl e ↦
          let inside = ltb→lt a image.size e in
          rw (other, read-first image a 0 inside, read-first image a k inside, less)
            (sym (fill_of-first size image a k h)
              ∙ ap (λ bs. fill_of (image.byte a ∷ bs))
                  (join-read_chunks size image (suc a) k k h (omega arith)))
      | inr e ↦
          let outside : image.size ≤ a = ground (arith, e) in
          rw (other, read-past image a 1 outside, read-past image a (suc k) outside) refl
    ]
