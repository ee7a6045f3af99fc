-- ===== src/Armlock/File.antt =====
-- A file that is written in place (`f.seek(offset); f.write(data)`), and what reads give after a write.
use arcology.Base.{
  ℕ, zero, suc, ◌+◌, ◌-◌, ◌≤◌, ◌<◌, ◌≡◌, ◌⊎◌, refl, ap, ◌∙◌, ◌&&◌, [], ◌∷◌, length, max, min, ltb,
  leb, arith, if◌then◌else◌,
}
use mathlib.Core.Path.{ap₂}
use arcology.Disc.{Bytes, Image, bytes_from, read, byte_at}

-- What was there stays outside what is written, and a hole before it is 0.
unfoldable pub write : ℕ → Bytes → Image → Image
write offset [] file = file
write offset (b ∷ bs) file = record {
  size = max file.size (offset + length (b ∷ bs));
  byte = λ o.
      if leb offset o && ltb o (offset + length (b ∷ bs))
      then byte_at (b ∷ bs) (o - offset)
      else if ltb o file.size
      then file.byte o
      else 0;
}

pub size-write :
    (offset : ℕ) (d : Bytes) (file : Image)
    → offset + length d ≤ file.size
    → (write offset d file).size ≡ file.size
unfolding write
size-write offset [] file h = refl
size-write offset (b ∷ bs) file h = omega arith

pub byte-write_ne :
    (offset : ℕ) (d : Bytes) (file : Image) (o : ℕ)
    → (o < offset) ⊎ (offset + length d ≤ o)
    → o < file.size
    → (write offset d file).byte o ≡ file.byte o
unfolding write
byte-write_ne offset [] file o h k = refl
byte-write_ne offset (b ∷ bs) file o h k = ground arith

pub byte-write_self :
    (offset : ℕ) (d : Bytes) (file : Image) (i : ℕ)
    → i < length d
    → (write offset d file).byte (offset + i) ≡ byte_at d i
unfolding write
byte-write_self offset [] file i h = absurd (omega (arith, h))
byte-write_self offset (b ∷ bs) file i h = ground arith

pub bytes_from_ext :
    (f g : ℕ → ℕ) (o n : ℕ)
    → ((i : ℕ) → i < n → f (o + i) ≡ g (o + i))
    → bytes_from f o n ≡ bytes_from g o n
unfolding bytes_from
bytes_from_ext f g o zero h = refl
bytes_from_ext f g o (suc n) h =
    ap₂ ◌∷◌ (ap f (omega arith) ∙ h 0 (omega arith) ∙ ap g (omega arith)) (
      bytes_from_ext f g (suc o) n
        (λ i k. ap f (omega arith) ∙ h (suc i) (omega (arith, k)) ∙ ap g (omega arith)))

bytes_from-eq :
    (f : ℕ → ℕ) (o : ℕ) (d : Bytes)
    → ((i : ℕ) → i < length d → f (o + i) ≡ byte_at d i)
    → bytes_from f o (length d) ≡ d
unfolding bytes_from
bytes_from-eq f o [] h = refl
bytes_from-eq f o (b ∷ bs) h =
    ap₂ ◌∷◌ (ap f (omega arith) ∙ h 0 (omega arith))
      (bytes_from-eq f (suc o) bs (λ i k. ap f (omega arith) ∙ h (suc i) (omega (arith, k))))

pub read-write_self :
    (offset : ℕ) (d : Bytes) (file : Image)
    → offset + length d ≤ file.size
    → read (write offset d file) offset (length d) ≡ d
unfolding read
read-write_self offset d file h =
    let whole : min (length d) ((write offset d file).size - offset) ≡ length d =
      omega (arith, size-write offset d file h, h) in
    rw whole (bytes_from-eq (write offset d file).byte offset d (byte-write_self offset d file))

pub read-write_ne :
    (offset : ℕ) (d : Bytes) (file : Image) (o n : ℕ)
    → offset + length d ≤ file.size
    → (o + n ≤ offset) ⊎ (offset + length d ≤ o)
    → o + n ≤ file.size
    → read (write offset d file) o n ≡ read file o n
unfolding read
read-write_ne offset d file o n h k l = rw (size-write offset d file h) (
    bytes_from_ext (write offset d file).byte file.byte o (min n (file.size - o))
      (λ i e. byte-write_ne offset d file (o + i) (ground (arith, e)) (omega (arith, e, l))))
