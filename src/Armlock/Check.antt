-- ===== src/Armlock/Check.antt =====
-- The check byte of a zone: it does not depend on the byte that it is stored in, and is a byte.
use arcology.Base.{
  ℕ, ◌&&◌, ltb, ◌+◌, ◌-◌, ◌%◌, ◌<◌, ◌≡◌, refl, none, some, [], ◌∷◌, length, set, ◌==◌, arith, ap,
  if◌then◌else◌,
}
use arcology.Disc.{Bytes, byte_at, u32}
use arcology.Armlock.{add_words, fold_word, compute_zone_check}

pub fold_word-IsByte : (s : ℕ) → fold_word s < 256
unfolding fold_word
fold_word-IsByte s = omega arith

-- The sum less the first byte does not depend on it.
sum_less_first :
    (x y acc b c d carry : ℕ)
    → x < 256
    → y < 256
    → ((acc + u32 (x ∷ b ∷ c ∷ d ∷ []) 0 + carry) % 4294967296 + 4294967296 - x) % 4294967296
      ≡ ((acc + u32 (y ∷ b ∷ c ∷ d ∷ []) 0 + carry) % 4294967296 + 4294967296 - y) % 4294967296
sum_less_first x y acc b c d carry h k = omega arith

pub compute_zone_check-set :
    (sector : Bytes) (x : ℕ)
    → byte_at sector 0 < 256
    → x < 256
    → compute_zone_check (set sector 0 x) ≡ compute_zone_check sector
unfolding compute_zone_check add_words
compute_zone_check-set [] x h k = refl
compute_zone_check-set (a ∷ []) x h k = refl
compute_zone_check-set (a ∷ b ∷ []) x h k = refl
compute_zone_check-set (a ∷ b ∷ c ∷ []) x h k = refl
compute_zone_check-set (a ∷ b ∷ c ∷ d ∷ rest) x h k =
    ap
      (λ s.
        if length (a ∷ b ∷ c ∷ d ∷ rest) % 4 == 0 && ltb 0 (length (a ∷ b ∷ c ∷ d ∷ rest))
        then some (fold_word s)
        else none)
      (sum_less_first x a (add_words rest).0 b c d (add_words rest).1 k h)
