-- ===== src/Artefacts/Batches/Files.antt =====
-- The files of some partitions: what a batch takes from them.
use arcology.Base.{
  ℕ, ◌≤◌, ◌<◌, ◌≡◌, refl, ap, ◌∙◌, Bool, true, false, not, ◌&&◌, ◌||◌, List, [], ◌∷◌, map, select,
  all, length, ltb, ◌==◌, ==_iff, arith, Bool-cases, inl, inr, and-eq_true,
}
use arcology.Artefacts.{in_ids, ExtractedFileRow, ArtefactTables}
use arcology.Artefacts.Delete.{file_ids, delete_extracted_files}
use arcology.Artefacts.Batches.Keys.{or_true}

module _ (partition_ids : List ℕ) where
  -- Whether a file goes, and its id.
  abbrev pub goes : ExtractedFileRow → Bool
  goes f = in_ids f.partition_id partition_ids

  abbrev pub gone : List ExtractedFileRow → List ℕ
  gone files = file_ids partition_ids files

  abbrev pub without : List ℕ → List ExtractedFileRow → List ExtractedFileRow
  without ids = select (λ f. not (in_ids f.id ids))

  -- A file that stays has the id of none that goes.
  abbrev pub is_apart : List ExtractedFileRow → List ℕ → Bool
  is_apart files ids = all (λ f. goes f || not (in_ids f.id ids)) files

  abbrev pub is_above : ℕ → List ExtractedFileRow → Bool
  is_above cursor files = all (λ f. not (goes f) || ltb cursor f.id) files

  abbrev pub spec : ArtefactTables → ArtefactTables
  spec t = delete_extracted_files partition_ids t

  pub gone-without :
      (x : ℕ) (ids : List ℕ) (files : List ExtractedFileRow)
      → in_ids x (gone (without ids files)) ≡ (in_ids x (gone files) && not (in_ids x ids))
  unfolding file_ids in_ids
  gone-without x ids [] = refl
  gone-without x ids (f ∷ files) =
      let ih = gone-without x ids files in
      elim (Bool-cases (in_ids f.id ids)) [
        | inl e ↦ elim (Bool-cases (goes f)) [
          | inl g ↦ elim (Bool-cases (f.id == x)) [
            | inl h ↦
                let same : in_ids x ids ≡ true = rw (← (==_iff f.id x).0 h) e in
                rw (e, g, h, same) (ih ∙ rw same (and_false (in_ids x (gone files))))
            | inr h ↦ rw (e, g, h) ih
          ]
          | inr g ↦ rw (e, g) ih
        ]
        | inr e ↦ elim (Bool-cases (goes f)) [
          | inl g ↦ elim (Bool-cases (f.id == x)) [
            | inl h ↦
                let same : in_ids x ids ≡ false = rw (← (==_iff f.id x).0 h) e in
                rw (e, g, h, same) refl
            | inr h ↦ rw (e, g, h) ih
          ]
          | inr g ↦ rw (e, g) ih
        ]
      ]
    where
      and_false : (b : Bool) → (b && false) ≡ false
      and_false true = refl
      and_false false = refl

  pub stay-without :
      (ids : List ℕ) (files : List ExtractedFileRow)
      → is_apart files ids ≡ true
      → select (λ f. not (goes f)) (without ids files) ≡ select (λ f. not (goes f)) files
  stay-without ids [] h = refl
  stay-without ids (f ∷ files) h =
      let (one, more) = and-eq_true (goes f || not (in_ids f.id ids)) (is_apart files ids) h in
      let ih = stay-without ids files more in
      elim (Bool-cases (goes f)) [
        | inl g ↦ elim (Bool-cases (in_ids f.id ids)) [
          | inl e ↦ rw (g, e) ih
          | inr e ↦ rw (g, e, g) ih
        ]
        | inr g ↦
            let out : in_ids f.id ids ≡ false = ground (arith, one, g) in
            rw (g, out, g) (ap (λ fs. f ∷ fs) ih)
      ]

  pub restrictions-without :
      (ids ids' all_ids : List ℕ) (rows : List ℕ)
      → ((x : ℕ) → in_ids x ids' ≡ (in_ids x all_ids && not (in_ids x ids)))
      → ((x : ℕ) → in_ids x ids ≡ true → in_ids x all_ids ≡ true)
      → select (λ r. not (in_ids r ids')) (select (λ r. not (in_ids r ids)) rows)
        ≡ select (λ r. not (in_ids r all_ids)) rows
  restrictions-without ids ids' all_ids [] h k = refl
  restrictions-without ids ids' all_ids (r ∷ rows) h k =
      let ih = restrictions-without ids ids' all_ids rows h k in
      elim (Bool-cases (in_ids r ids)) [
        | inl e ↦ rw (e, k r e) ih
        | inr e ↦ elim (Bool-cases (in_ids r all_ids)) [
          | inl g ↦ rw (e, h r, g, e) ih
          | inr g ↦ rw (e, h r, g) (ap (λ rs. r ∷ rs) ih)
        ]
      ]

  pub length-without :
      (x : ℕ) (ids : List ℕ) (files : List ExtractedFileRow)
      → (length (gone (without ids files)) ≤ length (gone files))
        × (in_ids x (gone files) ≡ true
            → in_ids x ids ≡ true
            → length (gone (without ids files)) < length (gone files))
  unfolding file_ids in_ids
  length-without x ids [] = (omega arith, λ h k. absurd (cc h))
  length-without x ids (f ∷ files) =
      let (short, shorter) = length-without x ids files in
      elim (Bool-cases (in_ids f.id ids)) [
        | inl e ↦ elim (Bool-cases (goes f)) [
          | inl g ↦ rw (e, g) (omega arith, λ h k. omega arith)
          | inr g ↦ rw (e, g) (short, shorter)
        ]
        | inr e ↦ elim (Bool-cases (goes f)) [
          | inl g ↦
              rw (e, g)
                (
                  omega arith,
                  λ h k. elim (Bool-cases (f.id == x)) [
                    | inl i ↦ absurd (cc (k, e, ap (λ y. in_ids y ids) ((==_iff f.id x).0 i)))
                    | inr i ↦ omega (arith, shorter (rw i at h) k)
                  ],
                )
          | inr g ↦ rw (e, g) (short, shorter)
        ]
      ]

  pub select-above :
      (cursor : ℕ) (files : List ExtractedFileRow)
      → is_above cursor files ≡ true
      → map (λ f. f.id) (select (λ f. goes f && ltb cursor f.id) files) ≡ gone files
  unfolding file_ids
  select-above cursor [] h = refl
  select-above cursor (f ∷ files) h =
      let (one, more) = and-eq_true (not (goes f) || ltb cursor f.id) (is_above cursor files) h in
      let ih = select-above cursor files more in
      elim (Bool-cases (goes f)) [
        | inl g ↦
            let over : ltb cursor f.id ≡ true = rw g at one in
            rw (g, over) (ap (λ ids. f.id ∷ ids) ih)
        | inr g ↦ rw g ih
      ]

  -- Each file that goes, by its id.
  pub above_of :
      (cursor : ℕ) (files : List ExtractedFileRow)
      → ((x : ℕ) → in_ids x (gone files) ≡ true → cursor < x)
      → is_above cursor files ≡ true
  unfolding file_ids in_ids
  above_of cursor [] h = refl
  above_of cursor (f ∷ files) h = elim (Bool-cases (goes f)) [
    | inl g ↦
        let over : ltb cursor f.id ≡ true =
          ground (arith, h f.id (rw (g, (==_iff f.id f.id).1 refl) refl)) in
        rw (g, over) (above_of cursor files (λ x k. h x (rw (g, k) (or_true (f.id == x)))))
    | inr g ↦ rw g (above_of cursor files (λ x k. h x (rw g k)))
  ]
