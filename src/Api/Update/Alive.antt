-- ===== src/Api/Update/Alive.antt =====
-- A worker's report of progress, or a bare heartbeat, keeps its job from the stale reset.
use mathlib.Core.Bool.{and-false}
use arcology.Base.{
  Bool, ap, ◌∙◌, ◌&&◌, ℕ, ◌+◌, ◌≤◌, ◌≡◌, true, false, ◌||◌, none, some, List, [], ◌∷◌, All, arith,
  Bool-cases, Option-cases, inl, inr, ◌==◌, ==_iff, ltb,
}
use arcology.Enums.{is_running}
use arcology.Queue.{Analysis, update}
use arcology.Queue.Stale.{is_stale}
use arcology.Runner.{find}
use arcology.Api.Update.{
  Patch, Call, Tables, has_nul_error, has_progress, set_fields, stamp_times, is_beating,
  stamp_progress, clear_progress, updated_row, write_row, update_analysis,
}

beaten_row :
    (c : Call) (p : Patch) (a : Analysis) (timeout later : ℕ)
    → c.is_worker ≡ true
    → p.status ≡ none
    → (has_progress p || p.heartbeat) ≡ true
    → later ≤ c.now + timeout
    → is_stale timeout later (updated_row c p none a) ≡ false
unfolding updated_row set_fields stamp_times stamp_progress clear_progress is_beating is_stale
beaten_row c p a timeout later w s b l = elim (Bool-cases (is_running a.status)) [
  | inr e ↦ simp (s, w, b, e)
  | inl e ↦
      let early : ltb (c.now + timeout) later ≡ false = ground arith in simp (s, w, b, e, early)
]

-- Not a stale row of the job.
abbrev pub IsAlive : ℕ → ℕ → ℕ → Analysis → Type 0
IsAlive id timeout later b = (is_stale timeout later b && b.id == id) ≡ false

found_id : (id : ℕ) (a : Analysis) (rows : List Analysis) → find id rows ≡ some a → a.id ≡ id
unfolding find
found_id id a [] h = absurd (cc h)
found_id id a (b ∷ rows) h = elim (Bool-cases (b.id == id)) [
  | inl e ↦ cc (rw (find, e) at h, (==_iff b.id id).0 e)
  | inr e ↦ found_id id a rows (rw (find, e) at h)
]

other_row : (stale same : Bool) → same ≡ false → (stale && same) ≡ false
other_row stale same e = ap (λ s. stale && s) e ∙ and-false stale

none-IsAlive :
    (id timeout later : ℕ) (rows : List Analysis)
    → find id rows ≡ none
    → All (IsAlive id timeout later) rows
unfolding find
none-IsAlive id timeout later [] h = tt
none-IsAlive id timeout later (b ∷ rows) h = elim (Bool-cases (b.id == id)) [
  | inl e ↦ absurd (cc (rw (find, e) at h))
  | inr e ↦ (
    other_row (is_stale timeout later b) (b.id == id) e,
    none-IsAlive id timeout later rows (rw (find, e) at h),
  )
]

updated-IsAlive :
    (id timeout later : ℕ) (f : Analysis → Analysis) (rows : List Analysis)
    → ((b : Analysis) → is_stale timeout later (f b) ≡ false)
    → All (IsAlive id timeout later) (update (λ b. b.id == id) f rows)
updated-IsAlive id timeout later f [] h = tt
updated-IsAlive id timeout later f (b ∷ rows) h = elim (Bool-cases (b.id == id)) [
  | inl e ↦ rw e (ap (λ s. s && (f b).id == id) (h b), updated-IsAlive id timeout later f rows h)
  | inr e ↦ rw e (
    other_row (is_stale timeout later b) (b.id == id) e,
    updated-IsAlive id timeout later f rows h,
  )
]

-- After a worker has reported progress or sent a heartbeat for a job, with no NUL character and no status, no
-- row of the job is stale at any time up to `now + timeout`, if the row was not deleted meanwhile.
pub update_analysis-IsAlive :
    (deferred_reset : Analysis → List Analysis → List Analysis) (window id timeout later : ℕ)
    (c : Call) (p : Patch) (t : Tables)
    → c.is_worker ≡ true
    → c.is_deleted ≡ false
    → has_nul_error p ≡ false
    → p.status ≡ none
    → (has_progress p || p.heartbeat) ≡ true
    → later ≤ c.now + timeout
    → All (IsAlive id timeout later) (update_analysis deferred_reset window id c p t).0.analyses
unfolding update_analysis write_row
update_analysis-IsAlive deferred_reset window id timeout later c p t w d n s b l =
    elim (Option-cases (find id t.analyses)) [
      | inl e ↦
          let same : (update_analysis deferred_reset window id c p t).0.analyses ≡ t.analyses =
            simp (update_analysis, n, w, s, e, and-false) in
          rw same (none-IsAlive id timeout later t.analyses e)
      | inr (a, e) ↦
          let same : (update_analysis deferred_reset window id c p t).0.analyses
              ≡ update (λ r. r.id == a.id) (updated_row c p none) t.analyses =
            simp (update_analysis, write_row, n, w, s, e, d, and-false) in
          rw (same, found_id id a t.analyses e)
            (updated-IsAlive id timeout later (updated_row c p none) t.analyses
              (λ r. beaten_row c p r timeout later w s b l))
    ]
