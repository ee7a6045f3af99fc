-- ===== src/Disc/Filecore/Checksum.antt =====
-- The boot block checksum against the sum of the bytes modulo 255.
use arcology.Base.{
  ℕ, suc, zero, ◌+◌, ◌-◌, ◌%◌, ◌<◌, ◌≡◌, refl, true, false, [], ◌∷◌, All, arith, if◌then◌else◌,
  ◌==◌, take, length, ◌++◌, ap, ◌≢◌, ◌∙◌, ==_iff, ltb, Bool-cases, inl, inr,
}
use arcology.Disc.{Bytes, byte_at}
use arcology.Disc.Words.{IsByte}
use arcology.Disc.Filecore.{carry_sum, validate_boot_block_checksum}

abbrev pub sum : Bytes → ℕ
sum [] = 0
sum (b ∷ bs) = b + sum bs

-- The end-around carry adds modulo 255, with 255 in place of 0 once a byte is not 0.
pub carry_sum-sum :
    (bs : Bytes)
    → All IsByte bs
    → carry_sum bs ≡ (if sum bs == 0 then 0 else 1 + (sum bs - 1) % 255)
unfolding carry_sum
carry_sum-sum [] h = refl
carry_sum-sum (b ∷ bs) h = ground (arith, carry_sum-sum bs h.1)

sum-append : (front back : Bytes) → sum (front ++ back) ≡ sum front + sum back
sum-append [] back = omega arith
sum-append (x ∷ front) back = omega (arith, sum-append front back)

take_past :
    (front : Bytes) (b : ℕ) (back : Bytes) (n k : ℕ)
    → n ≡ length front + suc k
    → take n (front ++ b ∷ back) ≡ front ++ b ∷ take k back
take_past front b back zero k h = absurd (omega (arith, h))
take_past [] b back (suc n) k h = let e : n ≡ k = omega (arith, h) in rw e refl
take_past (x ∷ front) b back (suc n) k h =
    ap (λ r. x ∷ r) (take_past front b back n k (omega (arith, h)))

at_past :
    (front : Bytes) (b : ℕ) (back : Bytes) (n k : ℕ)
    → n ≡ length front + suc k
    → byte_at (front ++ b ∷ back) n ≡ byte_at back k
at_past front b back zero k h = absurd (omega (arith, h))
at_past [] b back (suc n) k h = let e : n ≡ k = omega (arith, h) in rw e refl
at_past (x ∷ front) b back (suc n) k h = at_past front b back n k (omega (arith, h))

All-append : (front back : Bytes) → All IsByte front → All IsByte back → All IsByte (front ++ back)
All-append [] back h k = k
All-append (x ∷ front) back h k = (h.0, All-append front back h.1 k)

All-take : (n : ℕ) (s : Bytes) → All IsByte s → All IsByte (take n s)
All-take zero s h = tt
All-take (suc n) [] h = tt
All-take (suc n) (x ∷ s) h = (h.0, All-take n s h.1)

abbrev residue : ℕ → ℕ
residue total = if total == 0 then 0 else 1 + (total - 1) % 255

checked :
    (s : Bytes)
    → validate_boot_block_checksum s ≡ true
    → carry_sum (take 511 s) % 256 ≡ byte_at s 511
unfolding validate_boot_block_checksum
checked s h = elim (Bool-cases (ltb (length s) 512)) [
  | inl e ↦ cc (rw e at h)
  | inr e ↦ (==_iff _ _).0 (rw e at h)
]

small : (total x y : ℕ) → x ≡ residue total → x % 256 ≡ y → y ≡ residue total
small total x y e h = ground arith

-- The stored byte of a block that passes.
stored :
    (front : Bytes) (b : ℕ) (back : Bytes)
    → length front < 511
    → All IsByte front
    → b < 256
    → All IsByte back
    → validate_boot_block_checksum (front ++ b ∷ back) ≡ true
    → byte_at back (510 - length front)
      ≡ residue (sum front + (b + sum (take (510 - length front) back)))
stored front b back l hf hb hk h =
    let k = 510 - length front in
    let t = take_past front b back 511 k (omega arith) in
    let a = at_past front b back 511 k (omega arith) in
    let all = All-append front (b ∷ take k back) hf (hb, All-take k back hk) in
    let c = carry_sum-sum (front ++ b ∷ take k back) all in
    let s = sum-append front (b ∷ take k back) in
    small (sum front + (b + sum (take k back))) (carry_sum (take 511 (front ++ b ∷ back)))
      (byte_at back k) (ap carry_sum t ∙ c ∙ ap residue s) (checked (front ++ b ∷ back) h ∙ a)

-- A boot block that passes the check fails it once any one byte before the checksum has changed, unless the
-- change is between 0 and 255, which are equal modulo 255.
pub validate_boot_block_checksum_damage :
    (front : Bytes) (b c : ℕ) (back : Bytes)
    → length front < 511
    → All IsByte front
    → b < 256
    → c < 256
    → All IsByte back
    → (b % 255) ≢ (c % 255)
    → validate_boot_block_checksum (front ++ b ∷ back) ≡ true
    → validate_boot_block_checksum (front ++ c ∷ back) ≡ false
validate_boot_block_checksum_damage front b c back l hf hb hc hk ne h =
    elim (Bool-cases (validate_boot_block_checksum (front ++ c ∷ back))) [
      | inr e ↦ e
      | inl e ↦
          let p = stored front b back l hf hb hk h in
          let q = stored front c back l hf hc hk e in absurd (ne (ground arith))
    ]
