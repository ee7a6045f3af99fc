-- ===== src/Queue/Lifecycle.antt =====
-- The life of a job, as a relation on its states, and the operations on the table that follow it: the two
-- claims, the heartbeat, the end of a job in the task runner and the stale reset.
use arcology.Base.{
  ℕ, ◌≡◌, inl, inr, refl, Bool, true, Option, none, some, List, [], ◌∷◌, leb, ◌==◌, Bool-cases,
  Option-cases, and-eq_true, map,
}
use arcology.Base.Int.{ℤ}
use arcology.Base.Text.{Text}
use arcology.Enums.{AnalysisStatus, pending, running, completed, failed, is_pending, is_running}
use arcology.Queue.{Analysis, Message, update, update_row}
use arcology.Queue.Claimable.{
  candidate, is_claim_target, claimed_by_worker, claimed_by_runner, worker_claim, claim_one,
}
use arcology.Queue.Stale.{budget, is_stale, reset_stale_analyses_core}
use arcology.Queue.Stale.Laws.{reset_row, reset_stale_rows}
use arcology.Runner.{
  JobResult, heartbeat, is_running_job, completed_row, failed_row, complete, fail,
}

-- One step in the life of a job, or none.
pub data Move : AnalysisStatus → AnalysisStatus → Type 0 where
  stay : {s : AnalysisStatus} → Move s s
  claim : Move pending running
  succeed : Move running completed
  give_up : Move running failed
  requeue : Move running pending

-- The same rows in the same order, each with at most one step taken.
abbrev pub Evolves : List Analysis → List Analysis → Type 0
Evolves [] [] = Unit
Evolves [] (b ∷ bs) = ⊥
Evolves (a ∷ as') [] = ⊥
Evolves (a ∷ as') (b ∷ bs) = (a.id ≡ b.id) × Move a.status b.status × Evolves as' bs

-- The operations of the task runner and of the queue, with what each call is given; the report of a worker over the
-- API (update_analysis) sets any status and is not one of them. The table of the runner's candidate query is an older one.
pub data Operation : Type 0 where
  worker_claims : ℕ → ℕ → Operation
  runner_claims : ℕ → List Analysis → Operation
  beats : ℕ → ℕ → Option ℕ → Option ℕ → Option Text → Operation
  completes : ℕ → ℕ → JobResult → Operation
  fails : ℕ → ℕ → Message → Operation
  resets : ℕ → ℤ → ℕ → ℕ → Operation

unfoldable pub perform : Operation → List Analysis → List Analysis
perform (worker_claims id now) rows = (worker_claim id now rows).0
perform (runner_claims now seen) rows = (claim_one now seen rows).0
perform (beats id now current total label) rows = heartbeat id now current total label rows
perform (completes id now result) rows = complete id now result rows
perform (fails id now message) rows = fail id now message rows
perform (resets timeout max_retries now ended) rows =
    (reset_stale_analyses_core timeout max_retries now ended rows).0

Evolves-refl : (rows : List Analysis) → Evolves rows rows
Evolves-refl [] = tt
Evolves-refl (a ∷ rows) = (refl, stay, Evolves-refl rows)

-- What is the same row or one step on.
abbrev IsMoved : Analysis → Analysis → Type 0
IsMoved a b = (a.id ≡ b.id) × Move a.status b.status

map-Evolves :
    (f : Analysis → Analysis) (rows : List Analysis)
    → ((a : Analysis) → IsMoved a (f a))
    → Evolves rows (map f rows)
map-Evolves f [] h = tt
map-Evolves f (a ∷ rows) h = ((h a).0, (h a).1, map-Evolves f rows h)

update-Evolves :
    (p : Analysis → Bool) (f : Analysis → Analysis) (rows : List Analysis)
    → ((a : Analysis) → p a ≡ true → IsMoved a (f a))
    → Evolves rows (update p f rows)
update-Evolves p f rows h = map-Evolves (update_row p f) rows step
  where
    step : (a : Analysis) → IsMoved a (update_row p f a)
    step a = elim (Bool-cases (p a)) [ inl e ↦ rw e (h a e) | inr e ↦ rw e (refl, stay) ]

pending_claim : (s : AnalysisStatus) → is_pending s ≡ true → Move s running
unfolding is_pending
pending_claim pending h = claim
pending_claim running h = absurd (cc h)
pending_claim completed h = absurd (cc h)
pending_claim failed h = absurd (cc h)

running-Move : (s t : AnalysisStatus) → is_running s ≡ true → Move running t → Move s t
unfolding is_running
running-Move pending t h m = absurd (cc h)
running-Move running t h m = m
running-Move completed t h m = absurd (cc h)
running-Move failed t h m = absurd (cc h)

worker-Evolves : (id now : ℕ) (rows : List Analysis) → Evolves rows (worker_claim id now rows).0
unfolding worker_claim is_claim_target
worker-Evolves id now rows =
    update-Evolves (is_claim_target id) (claimed_by_worker now) rows
      (λ a h. (refl, pending_claim a.status (and-eq_true (a.id == id) (is_pending a.status) h).1))

runner-Evolves : (now : ℕ) (seen rows : List Analysis) → Evolves rows (claim_one now seen rows).0
unfolding claim_one is_claim_target
runner-Evolves now seen rows = elim (Option-cases (candidate seen)) [
  | inl n ↦ rw (claim_one, n) (Evolves-refl rows)
  | inr (c, n) ↦
      rw (claim_one, n)
        (update-Evolves (is_claim_target c.id) (claimed_by_runner now) rows (λ a h.
          (refl, pending_claim a.status (and-eq_true (a.id == c.id) (is_pending a.status) h).1)))
]

-- The two ends of a job are for a running one.
ends-Evolves :
    (id : ℕ) (f : Analysis → Analysis) (t : AnalysisStatus) (rows : List Analysis)
    → Move running t
    → ((a : Analysis) → (a.id ≡ (f a).id) × ((f a).status ≡ t))
    → Evolves rows (update (is_running_job id) f rows)
unfolding is_running_job
ends-Evolves id f t rows m h = update-Evolves (is_running_job id) f rows (λ a e. (
  (h a).0,
  rw (h a).1 (running-Move a.status t (and-eq_true (a.id == id) (is_running a.status) e).1 m),
))

stale_running :
    (timeout now : ℕ) (a : Analysis) → is_stale timeout now a ≡ true → is_running a.status ≡ true
unfolding is_stale
stale_running timeout now a h = (and-eq_true (is_running a.status) _ h).0

reset_row-IsMoved :
    (o : Option ℕ) (timeout now ended : ℕ) (a : Analysis)
    → IsMoved a (reset_row o timeout now ended a)
reset_row-IsMoved none timeout now ended a = elim (Bool-cases (is_stale timeout now a)) [
  | inr e ↦ rw e (refl, stay)
  | inl e ↦ rw e (refl, running-Move a.status pending (stale_running timeout now a e) requeue)
]
reset_row-IsMoved (some m) timeout now ended a = elim (Bool-cases (is_stale timeout now a)) [
  | inr e ↦ rw e (refl, stay)
  | inl e ↦
      let active = stale_running timeout now a e in
      elim (Bool-cases (leb m a.stale_reset_count)) [
        | inl spent ↦ rw (e, spent) (refl, running-Move a.status failed active give_up)
        | inr kept ↦ rw (e, kept) (refl, running-Move a.status pending active requeue)
      ]
]

-- The claim of a worker, the claim, the heartbeat, the completion and the failure of the task runner, and the stale
-- reset: each takes each row of the table at most one step of the life of a job, and keeps the rows in their order.
-- The report of a worker over the API, a manual retry and the deletion of a job are not among them.
pub perform-Evolves : (op : Operation) (rows : List Analysis) → Evolves rows (perform op rows)
unfolding perform heartbeat complete fail
perform-Evolves (worker_claims id now) rows = worker-Evolves id now rows
perform-Evolves (runner_claims now seen) rows = runner-Evolves now seen rows
perform-Evolves (beats id now current total label) rows =
    update-Evolves _ _ rows (λ a h. (refl, stay))
perform-Evolves (completes id now result) rows =
    ends-Evolves id (completed_row now result) completed rows succeed (λ a. (refl, refl))
perform-Evolves (fails id now message) rows =
    ends-Evolves id (failed_row now message) failed rows give_up (λ a. (refl, refl))
perform-Evolves (resets timeout max_retries now ended) rows =
    rw (reset_stale_rows timeout max_retries now ended rows).0 (
      map-Evolves (reset_row (budget max_retries) timeout now ended) rows
        (reset_row-IsMoved (budget max_retries) timeout now ended))
