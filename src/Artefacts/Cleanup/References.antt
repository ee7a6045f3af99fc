-- ===== src/Artefacts/Cleanup/References.antt =====
-- References to a blob, from what goes and from what stays.
use arcology.Base.{
  ℕ, ◌≡◌, refl, sym, ap, ◌∙◌, Bool, true, false, not, ◌&&◌, ◌||◌, Option, none, some, List, [], ◌∷◌,
  ◌++◌, map, select, any, all, ◌==◌, ==_iff, Bool-cases, Option-cases, inl, inr, and-eq_true,
}
use arcology.Base.Text.{Text}
use arcology.Artefacts.{in_ids, is_ref, ArtefactRow, Blob, ArtefactTables}
use arcology.Artefacts.Cleanup.{
  not_null, output_only, orphans, transcodes, all_movies, orphaned_uploads, orphaned_outputs,
  orphaned_transcodes, collect_item_cleanup_keys,
}

pub and_false : (b : Bool) → (b && false) ≡ false
and_false true = refl
and_false false = refl

pub or_false : (b : Bool) → (b || false) ≡ b
or_false true = refl
or_false false = refl

-- The keys of the rows that a condition on the key selects.
pub in_ids-select :
    (p : ℕ → Bool) (b : ℕ) (rows : List Blob)
    → in_ids b (map (λ r. r.id) (select (λ r. p r.id) rows)) ≡ (any (λ r. r.id == b) rows && p b)
unfolding in_ids
in_ids-select p b [] = refl
in_ids-select p b (r ∷ rows) =
    let ih = in_ids-select p b rows in
    elim (Bool-cases (r.id == b)) [
      | inl e ↦ elim (Bool-cases (p r.id)) [
        | inl f ↦ rw (f, e) (sym (ap p (sym ((==_iff r.id b).0 e)) ∙ f))
        | inr f ↦
            let out : p b ≡ false = ap p (sym ((==_iff r.id b).0 e)) ∙ f in
            rw (f, e) (ih ∙ rw out (and_false (any (λ s. s.id == b) rows)))
      ]
      | inr e ↦ elim (Bool-cases (p r.id)) [ inl f ↦ rw (f, e) ih | inr f ↦ rw (f, e) ih ]
    ]

pub any-not_null :
    (column : ArtefactRow → Option ℕ) (b : ℕ) (rows : List ArtefactRow)
    → in_ids b (not_null (map column rows)) ≡ any (λ a. is_ref (column a) b) rows
unfolding not_null in_ids
any-not_null column b [] = refl
any-not_null column b (a ∷ rows) = elim (Option-cases (column a)) [
  | inl e ↦ rw (e, not_null, is_ref) (any-not_null column b rows)
  | inr (x, e) ↦ rw (e, not_null, is_ref) (ap (λ c. (x == b) || c) (any-not_null column b rows))
]

pub in_ids-two :
    (b : ℕ) (o p : Option ℕ) → in_ids b (not_null (o ∷ p ∷ [])) ≡ (is_ref o b || is_ref p b)
unfolding not_null in_ids
in_ids-two b none none = refl
in_ids-two b none (some y) = or_false (y == b)
in_ids-two b (some x) none = refl
in_ids-two b (some x) (some y) = ap (λ c. (x == b) || c) (or_false (y == b))

pub any-select_and {ℓ} :
    {A : Type ℓ} (q k : A → Bool) (xs : List A) → any q (select k xs) ≡ any (λ x. k x && q x) xs
any-select_and q k [] = refl
any-select_and q k (x ∷ xs) = elim (Bool-cases (k x)) [
  | inl e ↦ rw e (ap (λ c. q x || c) (any-select_and q k xs))
  | inr e ↦ rw e (any-select_and q k xs)
]

-- Some row that goes, and none that stays: some row, and none that stays.
pub last_reference {ℓ} :
    {A : Type ℓ} (q k : A → Bool) (xs : List A)
    → (any (λ x. k x && q x) xs && not (any (λ x. q x && not (k x)) xs))
      ≡ (any q xs && not (any (λ x. q x && not (k x)) xs))
last_reference q k [] = refl
last_reference q k (x ∷ xs) = elim (Bool-cases (q x)) [
  | inl e ↦ elim (Bool-cases (k x)) [
    | inl f ↦ rw (e, f) refl
    | inr f ↦ rw (e, f) (and_false (any (λ y. k y && q y) xs))
  ]
  | inr e ↦ elim (Bool-cases (k x)) [
    | inl f ↦ rw (e, f) (last_reference q k xs)
    | inr f ↦ rw (e, f) (last_reference q k xs)
  ]
]

-- CheckConstraint ck_artefact_at_most_one_blob
abbrev pub is_single : ArtefactRow → Bool
is_single a = elim a.upload_blob_id [
  | none ↦ true
  | some x ↦ elim a.output_blob_id [ none ↦ true | some y ↦ false ]
]

pub single-output : (a : ArtefactRow) → is_single a ≡ true → output_only a ≡ a.output_blob_id
unfolding output_only
single-output a h = elim (Option-cases a.upload_blob_id) [
  | inl e ↦ rw (e, output_only) refl
  | inr (x, e) ↦ elim (Option-cases a.output_blob_id) [
    | inl f ↦ rw (e, f, output_only) refl
    | inr (y, f) ↦ absurd (cc (rw (e, f, is_single) at h))
  ]
]

pub single_refs :
    (b : ℕ) (k : ArtefactRow → Bool) (artefacts : List ArtefactRow)
    → all is_single artefacts ≡ true
    → any (λ a. k a && is_ref (output_only a) b) artefacts
      ≡ any (λ a. k a && is_ref a.output_blob_id b) artefacts
single_refs b k [] h = refl
single_refs b k (a ∷ artefacts) h =
    let (one, more) = and-eq_true (is_single a) (all is_single artefacts) h in
    rw (single-output a one)
      (ap (λ c. (k a && is_ref a.output_blob_id b) || c) (single_refs b k artefacts more))

pub any-and_false {ℓ} :
    {A : Type ℓ} (q k : A → Bool) (xs : List A)
    → any q xs ≡ false
    → any (λ x. q x && k x) xs ≡ false
any-and_false q k [] h = refl
any-and_false q k (x ∷ xs) h = elim (Bool-cases (q x)) [
  | inl e ↦ absurd (cc (rw e at h))
  | inr e ↦ rw e (any-and_false q k xs (rw e at h))
]

pub and_true : (a b : Bool) → (a && true && b) ≡ (a && b)
and_true true b = refl
and_true false b = refl

-- The blob is an artefact's file or a transcode: then one of the two tests decides.
pub both :
    (row art art_stays movie movie_goes movie_stays orphan : Bool)
    → (art ≡ false → art_stays ≡ false)
    → (movie ≡ false → movie_stays ≡ false)
    → (movie_goes && not movie_stays) ≡ (movie && not movie_stays)
    → (art && movie) ≡ false
    → orphan ≡ (row && (art && not art_stays))
    → (orphan || (row && (movie_goes && not orphan && not (art_stays || movie_stays))))
      ≡ (row && ((art || movie) && not (art_stays || movie_stays)))
both false art art_stays movie movie_goes movie_stays orphan f g same apart e = rw e refl
both true false art_stays movie movie_goes movie_stays orphan f g same apart e =
    rw (e, f refl) (and_true movie_goes (not movie_stays) ∙ same)
both true true true movie movie_goes movie_stays orphan f g same apart e =
    rw e (and_false (movie_goes && true))
both true true false movie movie_goes movie_stays orphan f g same apart e = rw (e, g apart) refl

-- With nothing to delete no blob goes.
pub none_in {ℓ} : {A : Type ℓ} (key : A → ℕ) (xs : List A) → select (λ x. in_ids (key x) []) xs ≡ []
unfolding in_ids
none_in key [] = refl
none_in key (x ∷ xs) = none_in key xs

pub none_of {ℓ} :
    {A : Type ℓ} (q : A → Bool) (xs : List A) → ((x : A) → q x ≡ false) → select q xs ≡ []
none_of q [] h = refl
none_of q (x ∷ xs) h = rw (h x) (none_of q xs h)

pub uploads-nil : (t : ArtefactTables) → orphaned_uploads t [] ≡ []
unfolding orphaned_uploads orphans not_null in_ids
uploads-nil t = none_of _ t.upload_blobs (λ b. rw (none_in (λ a. a.id) t.artefacts) refl)

pub outputs-nil : (t : ArtefactTables) → orphaned_outputs t [] ≡ []
unfolding orphaned_outputs orphans not_null in_ids
outputs-nil t = none_of _ t.output_blobs (λ b. rw (none_in (λ a. a.id) t.artefacts) refl)

pub transcodes-nil : (t : ArtefactTables) → orphaned_transcodes t [] ≡ []
unfolding orphaned_transcodes transcodes in_ids
transcodes-nil t =
    none_of _ t.output_blobs (λ b. rw (none_in (λ m. m.artefact_id) (all_movies t)) refl)

pub upload_ids :
    (filenames : Text → List Text) (t : ArtefactTables) (ids : List ℕ)
    → (collect_item_cleanup_keys filenames t ids).upload_blob_ids
      ≡ map (λ b. b.id) (orphaned_uploads t ids)
unfolding collect_item_cleanup_keys
upload_ids filenames t [] = rw (uploads-nil t) refl
upload_ids filenames t (x ∷ xs) = refl

pub output_ids :
    (filenames : Text → List Text) (t : ArtefactTables) (ids : List ℕ)
    → (collect_item_cleanup_keys filenames t ids).output_blob_ids
      ≡ map (λ b. b.id) (orphaned_outputs t ids) ++ map (λ b. b.id) (orphaned_transcodes t ids)
unfolding collect_item_cleanup_keys
output_ids filenames t [] = sym (
    ap (λ bs. map (λ b. b.id) bs ++ map (λ b. b.id) (orphaned_transcodes t [])) (outputs-nil t)
    ∙ ap (map (λ b. b.id)) (transcodes-nil t))
output_ids filenames t (x ∷ xs) = refl
