-- ===== src/Artefacts/Delete/Left.antt =====
-- The foreign keys of the tables, and the rows that a deletion leaves.
use arcology.Base.{
  ℕ, ◌≡◌, refl, ◌∙◌, ap, Bool, true, false, not, ◌&&◌, Option, none, some, List, [], ◌∷◌, map, ◌==◌,
  select, any, all, arith, Bool-cases, inl, inr,
}
use arcology.Queue.{Analysis}
use arcology.Artefacts.{in_ids, refers, ArtefactRow, Attachment, ArtefactTables}
use arcology.Artefacts.Rows.{all-select, any-delete, any-left}
use arcology.Artefacts.Delete.{on_artefacts}

-- Whether a column that may be NULL refers to a row.
abbrev pub found {ℓ} : {A : Type ℓ} → (A → ℕ) → List A → Option ℕ → Bool
found key rows none = true
found key rows (some x) = any (λ r. key r == x) rows

abbrev pub same_ref : Option ℕ → Option ℕ → Bool
same_ref none none = true
same_ref (some x) (some y) = x == y
same_ref _ _ = false

-- Whether an artefact's source is an analysis of its parent.
abbrev pub source_found : List Analysis → Option ℕ → Option ℕ → Bool
source_found analyses parent none = true
source_found analyses parent (some n) =
    any (λ r. r.id == n && same_ref r.artefact_id parent) analyses

-- Each reference below is to a row that is there; and what was derived was derived by an analysis of the artefact that
-- it is derived from. The reference of a file to the archive that it is in is not among them.
pub record IsConsistent (t : ArtefactTables) : Type 0 where
  pub parents : all (λ a. found (λ r. r.id) t.artefacts a.parent_artefact_id) t.artefacts ≡ true
  pub sources :
      all (λ a. source_found t.analyses a.parent_artefact_id a.derived_from_analysis_id) t.artefacts
      ≡ true
  pub owners : all (λ r. found (λ a. a.id) t.artefacts r.artefact_id) t.analyses ≡ true
  pub movies : all (λ m. found (λ a. a.id) t.artefacts (some m.artefact_id)) t.replay_movies ≡ true
  pub media : all (λ m. found (λ a. a.id) t.artefacts (some m.artefact_id)) t.media_files ≡ true
  pub partitions : all (λ p. found (λ a. a.id) t.artefacts (some p.artefact_id)) t.partitions ≡ true
  pub products : all (λ p. found (λ r. r.id) t.partitions (some p)) t.products ≡ true
  pub files : all (λ f. found (λ r. r.id) t.partitions (some f.partition_id)) t.files ≡ true
  pub restrictions : all (λ r. found (λ f. f.id) t.files (some r)) t.restrictions ≡ true
  pub attachments :
      (k : Attachment) → all (λ x. found (λ a. a.id) t.artefacts (some x)) (t.attachments k) ≡ true

module _ {ℓ} {A : Type ℓ} (key : A → ℕ) (ids : List ℕ) where
  -- A reference to none of the ids, to a table from which these are deleted.
  pub found-delete :
      (targets : List A) (o : Option ℕ)
      → not (refers o ids) ≡ true
      → found key targets o ≡ true
      → found key (select (λ a. not (in_ids (key a) ids)) targets) o ≡ true
  unfolding refers
  found-delete targets none k h = refl
  found-delete targets (some x) k h = any-delete key ids x targets (ground (arith, k)) ∙ h

  pub all-found {κ} :
      {B : Type κ} (ref : B → Option ℕ) (targets : List A) (rows : List B)
      → all (λ r. found key targets (ref r)) rows ≡ true
      → all
          (λ r. found key (select (λ a. not (in_ids (key a) ids)) targets) (ref r))
          (select (λ r. not (refers (ref r) ids)) rows)
        ≡ true
  all-found ref targets rows =
      all-select (λ r. found key targets (ref r))
        (λ r. found key (select (λ a. not (in_ids (key a) ids)) targets) (ref r))
        (λ r. not (refers (ref r) ids)) rows (λ r m k h. found-delete targets (ref r) k h)

-- Rows whose own target is not among those that are deleted by another column.
module _ {ℓ} {A : Type ℓ} (key : A → ℕ) (bad : A → Bool) where
  pub all-left {κ} :
      {B : Type κ} (ref : B → ℕ) (targets : List A) (rows : List B)
      → all (λ r. found key targets (some (ref r))) rows ≡ true
      → all
          (λ r. found key (select (λ a. not (bad a)) targets) (some (ref r)))
          (select (λ r. not (in_ids (ref r) (map key (select bad targets)))) rows)
        ≡ true
  all-left ref targets rows =
      all-select (λ r. found key targets (some (ref r)))
        (λ r. found key (select (λ a. not (bad a)) targets) (some (ref r)))
        (λ r. not (in_ids (ref r) (map key (select bad targets)))) rows
        (λ r m k h. any-left key bad (ref r) targets (ground (arith, k)) ∙ h)

-- The artefacts that are left are as they were: only those that go are updated first.
pub survivors :
    (f : ArtefactRow → ArtefactRow) (ids : List ℕ) (artefacts : List ArtefactRow)
    → ((a : ArtefactRow) → (f a).id ≡ a.id)
    → select (λ a. not (in_ids a.id ids)) (on_artefacts f ids artefacts)
      ≡ select (λ a. not (in_ids a.id ids)) artefacts
survivors f ids [] h = refl
survivors f ids (a ∷ artefacts) h = elim (Bool-cases (in_ids a.id ids)) [
  | inl e ↦ rw (e, h a, e) (survivors f ids artefacts h)
  | inr e ↦ rw (e, e) (ap (λ rows. a ∷ rows) (survivors f ids artefacts h))
]
