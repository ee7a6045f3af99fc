-- ===== src/Artefacts/Batches/Turn.antt =====
-- One turn of the loop over the batches, and what it keeps.
use arcology.Base.{
  ℕ, suc, ◌≡◌, refl, sym, ap, ◌∙◌, true, not, ◌||◌, List, [], ◌∷◌, select, take, ==_iff, arith,
  and-eq_true,
}
use arcology.Artefacts.{in_ids, ExtractedFileRow, ArtefactTables}
use arcology.Artefacts.Rows.{all-select}
use arcology.Artefacts.Delete.{delete_extracted_files}
use arcology.Artefacts.Batches.{sort_ids, next_batch, delete_batch, last_id}
use arcology.Artefacts.Batches.Sorted.{is_sorted, in_ids-sort, sort-IsSorted, after_batch}
use arcology.Artefacts.Batches.Keys.{
  all-imp, in_ids-take, select-in_nil, keep_out, weaker, select-none_gone,
}
use arcology.Artefacts.Batches.Files.{
  goes, gone, without, is_apart, is_above, spec, gone-without, stay-without, restrictions-without,
  select-above, above_of,
}

module _ (partition_ids : List ℕ) where
  pub none_gone : (t : ArtefactTables) → gone partition_ids t.files ≡ [] → spec partition_ids t ≡ t
  unfolding delete_extracted_files
  none_gone t h =
      let restrictions_stay : select (λ r. not (in_ids r (gone partition_ids t.files)))
            t.restrictions
          ≡ t.restrictions =
        rw h (select-in_nil t.restrictions) in
      λ i. record t {
        restrictions = restrictions_stay i;
        files = select-none_gone partition_ids t.files h i;
      }

  -- What the loop keeps: what one statement would come to, and the order of what is left.
  pub record IsLoop (t0 : ArtefactTables) (cursor : ℕ) (t : ArtefactTables) : Type 0 where
    pub same : spec partition_ids t ≡ spec partition_ids t0
    pub apart : is_apart partition_ids t.files (gone partition_ids t.files) ≡ true
    pub above : is_above partition_ids cursor t.files ≡ true

  pub IsLoop-batch :
      (t0 t : ArtefactTables) (cursor b y : ℕ) (ys : List ℕ)
      → sort_ids (gone partition_ids t.files) ≡ y ∷ ys
      → IsLoop t0 cursor t
      → IsLoop t0 (last_id y (take b ys)) (delete_batch (y ∷ take b ys) t)
  unfolding delete_batch delete_extracted_files
  IsLoop-batch t0 t cursor b y ys e v =
      let ids = y ∷ take b ys in
      let whole = λ (x : ℕ) (k : in_ids x ids ≡ true).
        sym (in_ids-sort x (gone partition_ids t.files))
        ∙ ap (in_ids x) e
        ∙ in_ids-take x (suc b) (y ∷ ys) k in
      let apart_ids : is_apart partition_ids t.files ids ≡ true =
        all-imp (λ f. goes partition_ids f || not (in_ids f.id (gone partition_ids t.files)))
          (λ f. goes partition_ids f || not (in_ids f.id ids)) t.files
          (λ f h.
            keep_out (goes partition_ids f) (in_ids f.id ids)
              (in_ids f.id (gone partition_ids t.files)) (whole f.id) h)
          v.apart in
      record {
        same =
            (λ i. record t {
              restrictions =
                  (restrictions-without partition_ids) ids
                    (gone partition_ids (without partition_ids ids t.files))
                    (gone partition_ids t.files) t.restrictions
                    (λ x. (gone-without partition_ids) x ids t.files) whole i;
              files = (stay-without partition_ids) ids t.files apart_ids i;
            })
            ∙ v.same;
        apart =
            all-select (λ f. goes partition_ids f || not (in_ids f.id (gone partition_ids t.files)))
              (λ f.
                goes partition_ids f
                || not (in_ids f.id (gone partition_ids (without partition_ids ids t.files))))
              (λ f. not (in_ids f.id ids)) t.files
              (λ f m k h.
                rw ((gone-without partition_ids) f.id ids t.files)
                  (weaker (goes partition_ids f) _ _ h))
              v.apart;
        above =
            (above_of partition_ids) (last_id y (take b ys)) (without partition_ids ids t.files)
              (λ x h.
                let (there, out) =
                  and-eq_true (in_ids x (gone partition_ids t.files)) (not (in_ids x ids))
                    (sym ((gone-without partition_ids) x ids t.files) ∙ h) in
                after_batch b y x ys
                  (ap is_sorted (sym e) ∙ sort-IsSorted (gone partition_ids t.files))
                  (ap (in_ids x) (sym e) ∙ in_ids-sort x (gone partition_ids t.files) ∙ there)
                  (ground (arith, out)));
      }

  pub next_batch-above :
      (b cursor : ℕ) (files : List ExtractedFileRow)
      → is_above partition_ids cursor files ≡ true
      → next_batch partition_ids b cursor files ≡ take b (sort_ids (gone partition_ids files))
  unfolding next_batch
  next_batch-above b cursor files h =
      ap (λ ids. take b (sort_ids ids)) ((select-above partition_ids) cursor files h)

  pub sort-nil : (ids : List ℕ) → sort_ids ids ≡ [] → ids ≡ []
  unfolding in_ids
  sort-nil [] e = refl
  sort-nil (x ∷ ids) e =
      let there : in_ids x (sort_ids (x ∷ ids)) ≡ true =
        in_ids-sort x (x ∷ ids) ∙ rw ((==_iff x x).1 refl) refl in
      absurd (cc (rw e at there))
