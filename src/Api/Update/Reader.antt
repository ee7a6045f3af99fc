-- ===== src/Api/Update/Reader.antt =====
-- A request whose key is not the worker's.
use mathlib.Core.Bool.{and-false, or-true}
use arcology.Base.{
  ℕ, ◌≡◌, refl, Bool, true, false, ◌||◌, none, some, List, [], ◌∷◌, arith, Bool-cases, Option-cases,
  inl, inr, ◌==◌,
}
use arcology.Queue.{Analysis, update}
use arcology.Runner.{find}
use arcology.Api.{Field, is_given}
use arcology.Api.Update.{
  Patch, Call, Tables, has_nul_error, has_progress, is_worker_only, set_fields, stamp_times,
  is_beating, stamp_progress, clear_progress, updated_row, write_row, update_analysis,
}

not_given {ℓ} : {A : Type ℓ} (f : Field A) → is_given f ≡ false → f ≡ none
not_given none h = refl
not_given (some v) h = absurd (cc h)

neither : (a b : Bool) → (a || b) ≡ false → (a ≡ false) × (b ≡ false)
neither true b h = absurd (cc h)
neither false b h = (refl, h)

-- A patch that gives none of the fields of the worker.
record IsPlain (p : Patch) : Type 0 where
  status : p.status ≡ none
  tool_name : p.tool_name ≡ none
  tool_version : p.tool_version ≡ none
  output_url : p.output_url ≡ none
  output_path : p.output_path ≡ none
  success : p.success ≡ none
  summary : p.summary ≡ none
  details : p.details ≡ none
  error_message : p.error_message ≡ none
  progress_message : p.progress_message ≡ none
  progress_current : p.progress_current ≡ none
  progress_total : p.progress_total ≡ none

plain_row :
    (c : Call) (p : Patch) (a : Analysis)
    → IsPlain p
    → c.is_worker ≡ false
    → updated_row c p none a ≡ a
unfolding updated_row set_fields stamp_times stamp_progress clear_progress is_beating
plain_row c p a v w =
    rw
      (
        v.status, v.tool_name, v.tool_version, v.output_url, v.output_path, v.success, v.summary,
        v.details, v.error_message, v.progress_message, v.progress_current, v.progress_total, w,
      )
      refl

IsPlain-worker_only : (p : Patch) → is_worker_only p ≡ false → IsPlain p
unfolding is_worker_only has_progress
IsPlain-worker_only p h = record {
  status = not_given p.status (ground arith);
  tool_name = not_given p.tool_name (ground arith);
  tool_version = not_given p.tool_version (ground arith);
  output_url = not_given p.output_url (ground arith);
  output_path = not_given p.output_path (ground arith);
  success = not_given p.success (ground arith);
  summary = not_given p.summary (ground arith);
  details = not_given p.details (ground arith);
  error_message = not_given p.error_message (ground arith);
  progress_message = not_given p.progress_message (ground arith);
  progress_current = not_given p.progress_current (ground arith);
  progress_total = not_given p.progress_total (ground arith);
}

update_same :
    (f : Analysis → Analysis) (p : Analysis → Bool) (rows : List Analysis)
    → ((a : Analysis) → f a ≡ a)
    → update p f rows ≡ rows
update_same f p [] h = refl
update_same f p (a ∷ rows) h = elim (Bool-cases (p a)) [
  | inl e ↦ rw (e, h a, update_same f p rows h) refl
  | inr e ↦ rw (e, update_same f p rows h) refl
]

plain_write :
    (window : ℕ) (c : Call) (p : Patch) (a : Analysis) (t : Tables)
    → IsPlain p
    → c.is_worker ≡ false
    → (write_row window c p a t).0 ≡ t
unfolding write_row is_beating
plain_write window c p a t v w =
    let same =
      update_same (updated_row c p none) (λ b. b.id == a.id) t.analyses
        (λ b. plain_row c p b v w) in
    elim (Bool-cases c.is_deleted) [
      | inl e ↦ simp (write_row, v.status, e)
      | inr e ↦ simp (write_row, v.status, e, w, same)
    ]

-- A request whose key is not the worker's changes no row of the job table or of the worker registry, whatever
-- it sends.
pub update_analysis-reader :
    (deferred_reset : Analysis → List Analysis → List Analysis) (window id : ℕ) (c : Call)
    (p : Patch) (t : Tables)
    → c.is_worker ≡ false
    → (update_analysis deferred_reset window id c p t).0 ≡ t
unfolding update_analysis
update_analysis-reader deferred_reset window id c p t w = elim (Bool-cases (has_nul_error p)) [
  | inl n ↦ rw n refl
  | inr n ↦ elim (Bool-cases (is_worker_only p)) [
    | inl only ↦ rw (n, only, w) refl
    | inr free ↦
        let v = IsPlain-worker_only p free in
        elim (Option-cases (find id t.analyses)) [
          | inl e ↦ rw (n, free, v.status, e, and-false p.claim_worker) refl
          | inr (a, e) ↦ elim (Bool-cases (c.may_view a)) [
            | inl sees ↦
                rw (n, free, v.status, e, and-false p.claim_worker, sees, or-true c.is_worker)
                  (plain_write window c p a t v w)
            | inr blind ↦ rw (n, free, v.status, e, and-false p.claim_worker, w, blind) refl
          ]
        ]
  ]
]
