-- ===== src/Upload/Chunks.antt =====
-- The chunk files of a session: write_chunk, missing_chunks and _delete_chunk_files.
use arcology.Base.{
  ℕ, zero, suc, ◌≡◌, refl, Bool, true, false, not, Option, none, some, List, [], ◌∷◌, ltb, ◌==◌,
  if◌then◌else◌, select, map, arith, Option-cases, inl, inr,
}

-- Bytes.
abbrev pub Bytes : Type 0
Bytes = List ℕ

-- The numbered files by their index.
abbrev pub Files : Type 0
Files = ℕ → Option Bytes

unfoldable pub write_chunk : ℕ → Bytes → Files → Files
write_chunk index bytes files i = if i == index then some bytes else files i

abbrev pub exists : Option Bytes → Bool
exists none = false
exists (some bytes) = true

-- `range(first, first + n)`
unfoldable pub range : ℕ → ℕ → List ℕ
range first zero = []
range first (suc n) = first ∷ range (suc first) n

unfoldable pub missing_chunks : Files → ℕ → List ℕ
unfolding range
missing_chunks files total = select (λ i. not (exists (files i))) (range 0 total)

unfoldable pub delete_chunk_files : ℕ → Files → Files
delete_chunk_files total files i = if ltb i total then none else files i

missing-write_chunk :
    (files : Files) (index : ℕ) (bytes : Bytes) (is : List ℕ)
    → select (λ i. not (exists (write_chunk index bytes files i))) is
      ≡ select (λ i. not (i == index)) (select (λ i. not (exists (files i))) is)
unfolding write_chunk
missing-write_chunk files index bytes [] = refl
missing-write_chunk files index bytes (i ∷ is) =
    ground (arith, missing-write_chunk files index bytes is)

-- Writing a chunk takes its index, and no other, off the list of missing chunks.
pub missing_chunks-write_chunk :
    (files : Files) (index : ℕ) (bytes : Bytes) (total : ℕ)
    → missing_chunks (write_chunk index bytes files) total
      ≡ select (λ i. not (i == index)) (missing_chunks files total)
unfolding missing_chunks
missing_chunks-write_chunk files index bytes total =
    missing-write_chunk files index bytes (range 0 total)

-- The bytes of the files in a list of indices, of which none is missing.
present :
    (files : Files) (is : List ℕ)
    → select (λ i. not (exists (files i))) is ≡ []
    → (datas : List Bytes) × (map files is ≡ map some datas)
present files [] h = ([], refl)
present files (i ∷ is) h = elim (Option-cases (files i)) [
  | inl e ↦ cc (rw e at h)
  | inr (bytes, e) ↦
      let (datas, q) = present files is (rw e at h) in (bytes ∷ datas, ground (arith, e, q))
]

-- If no chunk is missing, every file that the assembly opens is there.
missing_chunks-present :
    (files : Files) (total : ℕ)
    → missing_chunks files total ≡ []
    → (datas : List Bytes) × (map files (range 0 total) ≡ map some datas)
unfolding missing_chunks
missing_chunks-present files total h = present files (range 0 total) h
