-- ===== src/Upload/Assemble/Bounds.antt =====
-- What assemble_to_storage copies: all of the chunks, or no more than a buffer beyond the limit.
use mathlib.Core.List.{append-nil, append_assoc}
use arcology.Base.{
  ℕ, zero, suc, ◌+◌, ◌-◌, ◌≤◌, ◌<◌, ◌≡◌, ◌⊎◌, refl, ap, ◌∙◌, true, false, Option, some, List, [],
  ◌∷◌, ◌++◌, ltb, if◌then◌else◌, map, arith, min, take, drop, length, length-append, length-take,
  length-drop, Bool-cases, inl, inr,
}
use arcology.Base.Text.{is_empty}
use arcology.Upload.Chunks.{Bytes}
use arcology.Upload.Assemble.{copy, whole, oversize, spool_chunks}

abbrev pub concat : List Bytes → Bytes
concat [] = []
concat (d ∷ ds) = d ++ concat ds

take-drop : (n : ℕ) (xs : Bytes) → take n xs ++ drop n xs ≡ xs
take-drop zero xs = refl
take-drop (suc n) [] = refl
take-drop (suc n) (x ∷ xs) = ap (λ ys. x ∷ ys) (take-drop n xs)

take_more : (buffer : ℕ) (x : ℕ) (xs : Bytes) → 0 < buffer → is_empty (take buffer (x ∷ xs)) ≡ false
take_more zero x xs h = absurd (omega arith)
take_more (suc n) x xs h = refl

nil_of_short : (xs : Bytes) → length xs ≡ 0 → xs ≡ []
nil_of_short [] h = refl
nil_of_short (x ∷ xs) h = absurd (omega (arith, h))

take_none : (n : ℕ) → is_empty (take {A = ℕ} n []) ≡ true
take_none zero = refl
take_none (suc n) = refl

spool_step :
    (buffer max_size : ℕ) (spool bytes : Bytes) (files : List (Option Bytes))
    → spool_chunks buffer max_size spool (some bytes ∷ files) ≡ (
        if (copy (suc (length bytes)) buffer max_size spool bytes).1
        then oversize (copy (suc (length bytes)) buffer max_size spool bytes).0
        else spool_chunks buffer max_size
            (copy (suc (length bytes)) buffer max_size spool bytes).0
            files)
unfolding spool_chunks
spool_step buffer max_size spool bytes files = refl

module _ (buffer max_size : ℕ) (positive : 0 < buffer) where
  copy_step :
      (n : ℕ) (spool : Bytes) (x : ℕ) (xs : Bytes)
      → copy (suc n) buffer max_size spool (x ∷ xs) ≡ (
          if ltb max_size (length (spool ++ take buffer (x ∷ xs)))
          then (spool ++ take buffer (x ∷ xs), true)
          else copy n buffer max_size (spool ++ take buffer (x ∷ xs)) (drop buffer (x ∷ xs)))
  unfolding copy
  copy_step n spool x xs = rw (take_more buffer x xs positive) refl

  copy_nil : (n : ℕ) (spool : Bytes) → copy n buffer max_size spool [] ≡ (spool, false)
  unfolding copy
  copy_nil zero spool = refl
  copy_nil (suc n) spool = rw (take_none buffer) refl

  length-buffer :
      (spool xs : Bytes)
      → (length (spool ++ take buffer xs) ≡ length spool + min buffer (length xs))
        × (length (drop buffer xs) ≡ length xs - buffer)
  length-buffer spool xs = (
    length-append spool (take buffer xs) ∙ ap (λ k. length spool + k) (length-take buffer xs),
    length-drop buffer xs,
  )

  copy_fits :
      (n : ℕ) (spool bytes : Bytes)
      → length bytes < n
      → length spool + length bytes ≤ max_size
      → copy n buffer max_size spool bytes ≡ (spool ++ bytes, false)
  copy_fits zero spool bytes k h = absurd (omega arith)
  copy_fits (suc n) spool [] k h = rw (append-nil spool) (copy_nil (suc n) spool)
  copy_fits (suc n) spool (x ∷ xs) k h =
      let (l, d) = length-buffer spool (x ∷ xs) in
      let small : ltb max_size (length (spool ++ take buffer (x ∷ xs))) ≡ false =
        ground (arith, l) in
      let rest =
        copy_fits n (spool ++ take buffer (x ∷ xs)) (drop buffer (x ∷ xs)) (omega (arith, d))
          (omega (arith, l, d)) in
      copy_step n spool x xs
      ∙ rw (small, rest)
          (ap (λ (s : Bytes). (s, false))
            (append_assoc spool (take buffer (x ∷ xs)) (drop buffer (x ∷ xs))
              ∙ ap (λ s. spool ++ s) (take-drop buffer (x ∷ xs))))

  copy_overflows :
      (n : ℕ) (spool bytes : Bytes)
      → length bytes < n
      → length spool ≤ max_size
      → max_size < length spool + length bytes
      → ((copy n buffer max_size spool bytes).1 ≡ true)
        × (length (copy n buffer max_size spool bytes).0 ≤ max_size + buffer)
  copy_overflows zero spool bytes k l h = absurd (omega arith)
  copy_overflows (suc n) spool [] k l h = absurd (omega arith)
  copy_overflows (suc n) spool (x ∷ xs) k l h =
      let (m, d) = length-buffer spool (x ∷ xs) in
      rw (copy_step n spool x xs)
        (elim (Bool-cases (ltb max_size (length (spool ++ take buffer (x ∷ xs))))) [
          | inl e ↦ rw e (refl, omega (arith, m))
          | inr e ↦
              let small : length (spool ++ take buffer (x ∷ xs)) ≤ max_size = ground (arith, e) in
              rw e (
                copy_overflows n (spool ++ take buffer (x ∷ xs)) (drop buffer (x ∷ xs))
                  (omega (arith, d)) small (omega (arith, m, d)))
        ])

  spool_fits :
      (spool : Bytes) (chunks : List Bytes)
      → length spool + length (concat chunks) ≤ max_size
      → spool_chunks buffer max_size spool (map some chunks) ≡ whole (spool ++ concat chunks)
  unfolding spool_chunks
  spool_fits spool [] h = rw (append-nil spool) refl
  spool_fits spool (bytes ∷ chunks) h =
      let l = length-append bytes (concat chunks) in
      let l' = length-append spool bytes in
      rw (copy_fits (suc (length bytes)) spool bytes (omega arith) (omega (arith, l))) (
        spool_fits (spool ++ bytes) chunks (omega (arith, l, l'))
        ∙ ap whole (append_assoc spool bytes (concat chunks)))

  spool_overflows :
      (spool : Bytes) (chunks : List Bytes)
      → length spool ≤ max_size
      → max_size < length spool + length (concat chunks)
      → (spooled : Bytes) × (spool_chunks buffer max_size spool (map some chunks)
          ≡ oversize spooled)
        × (length spooled ≤ max_size + buffer)
  spool_overflows spool [] k h = absurd (omega arith)
  spool_overflows spool (bytes ∷ chunks) k h =
      let n = suc (length bytes) in
      let step = spool_step buffer max_size spool bytes (map some chunks) in
      elim (Bool-cases (ltb max_size (length spool + length bytes))) [
        | inl e ↦
            let (over, bound) = copy_overflows n spool bytes (omega arith) k (ground (arith, e)) in
            ((copy n buffer max_size spool bytes).0, step ∙ rw over refl, bound)
        | inr e ↦
            let fits : length spool + length bytes ≤ max_size = ground (arith, e) in
            let same = copy_fits n spool bytes (omega arith) fits in
            let l = length-append spool bytes in
            let l' = length-append bytes (concat chunks) in
            let (spooled, q, bound) =
              spool_overflows (spool ++ bytes) chunks (omega (arith, l)) (omega (arith, l, l')) in
            (spooled, step ∙ rw same q, bound)
      ]

-- With a buffer that is not empty and no chunk missing, the assembly copies the chunks joined in order
-- when their size is within the limit, and otherwise stops as oversize with at most one buffer
-- more than the limit copied.
pub spool_chunks_lem :
    (buffer max_size : ℕ) (chunks : List Bytes)
    → 0 < buffer
    → ((spool_chunks buffer max_size [] (map some chunks) ≡ whole (concat chunks))
        × (length (concat chunks) ≤ max_size))
      ⊎ ((max_size < length (concat chunks))
          × ((spooled : Bytes) × (spool_chunks buffer max_size [] (map some chunks)
                ≡ oversize spooled)
              × (length spooled ≤ max_size + buffer)))
spool_chunks_lem buffer max_size chunks positive =
    elim (Bool-cases (ltb max_size (length (concat chunks)))) [
      | inl e ↦ inr (
        ground (arith, e),
        spool_overflows buffer max_size positive [] chunks (omega arith) (ground (arith, e)),
      )
      | inr e ↦
          inl (spool_fits buffer max_size positive [] chunks (ground (arith, e)), ground (arith, e))
    ]
