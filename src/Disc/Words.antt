-- ===== src/Disc/Words.antt =====
-- Little-endian words: what the reads of two and four bytes give for the bytes that a word is written as.
use arcology.Base.{
  ℕ, ◌+◌, ◌/◌, ◌%◌, ◌<◌, ◌≡◌, refl, [], ◌∷◌, ◌++◌, All, arith, length, zero, suc, min, ◌-◌, ap,
}
use arcology.Disc.{Bytes, Image, bytes_from, read, byte_at, u32}

pub length-bytes_from : (byte : ℕ → ℕ) (offset n : ℕ) → length (bytes_from byte offset n) ≡ n
unfolding bytes_from
length-bytes_from byte offset zero = refl
length-bytes_from byte offset (suc n) = ap suc (length-bytes_from byte (suc offset) n)

-- A read gives what was asked for, or what there is.
pub length-read :
    (image : Image) (offset n : ℕ) → length (read image offset n) ≡ min n (image.size - offset)
unfolding read
length-read image offset n = length-bytes_from image.byte offset (min n (image.size - offset))

-- `struct.pack('<I', w)`
abbrev pub word_bytes : ℕ → Bytes
word_bytes w = (w % 256) ∷ (w / 256 % 256) ∷ (w / 65536 % 256) ∷ (w / 16777216 % 256) ∷ []

pub u32-word_bytes : (w : ℕ) (rest : Bytes) → w < 4294967296 → u32 (word_bytes w ++ rest) 0 ≡ w
u32-word_bytes w rest h = omega arith

abbrev pub IsByte : ℕ → Type 0
IsByte b = b < 256

pub byte_at-IsByte : (d : Bytes) (i : ℕ) → All IsByte d → byte_at d i < 256
byte_at-IsByte [] i h = omega arith
byte_at-IsByte (b ∷ d) zero h = h.0
byte_at-IsByte (b ∷ d) (suc i) h = byte_at-IsByte d i h.1

pub u32_bound : (d : Bytes) (o : ℕ) → All IsByte d → u32 d o < 4294967296
u32_bound d o h = omega (
  arith,
  byte_at-IsByte d o h,
  byte_at-IsByte d (o + 1) h,
  byte_at-IsByte d (o + 2) h,
  byte_at-IsByte d (o + 2 + 1) h,
)
