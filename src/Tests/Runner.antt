-- ===== src/Tests/Runner.antt =====
-- The task runner on concrete tables and passes.
use arcology.Base.{◌≡◌, refl, ap, Option, none, some, List, [], ◌∷◌, count, ◌==◌, if◌then◌else◌}
use arcology.Base.Int.{pos}
use arcology.Base.Text.{codes}
use arcology.Enums.{
  AnalysisType, pending, running, hash_rescan, is_control_plane, is_pending, is_running, is_cleanup,
}
use arcology.Queue.{Analysis}
use arcology.Queue.Claimable.{candidate, is_claimable, passes_barrier, under_cap, claim_one}
use arcology.Runner.{
  Outcome, JobResult, returned, job_cancelled, Handler, is_running_job, finish, claim_and_process,
}
use arcology.Runner.Jobs.{IsCancelled, claim_and_process_ends}
use arcology.Runner.Loop.{Turn, LastRuns, Pass, stopped_at_test, periodics_raised, processed}
use arcology.Tests.Queue.{job}

abbrev done : JobResult
done = record { summary = some (codes "ok"); json = codes "{}" }

abbrev waiting : Analysis
waiting = job 1 (some 8) hash_rescan pending 0

abbrev busy : List Analysis
busy = job 1 (some 8) hash_rescan running 0 ∷ []

-- The row was put back to PENDING while the job ran: the late result is dropped.
cancel_survives : finish 1 70 (waiting ∷ [], returned done) ≡ waiting ∷ []
unfolding finish is_running is_running_job
cancel_survives = refl

abbrev dispatch : AnalysisType → Option Handler
dispatch t = some (λ a rows. (rows, returned done))

-- What `dispatch` runs.
outcome_of : Analysis → List Analysis → Option Handler → Outcome
outcome_of a rows none = job_cancelled
outcome_of a rows (some f) = (f a rows).1

not-IsCancelled : (rows : List Analysis) → ¬ IsCancelled dispatch 1 rows
unfolding outcome_of
not-IsCancelled rows (a, f, found, e, c) = cc (c, ap (outcome_of a rows) e)

candidate-waiting : candidate (waiting ∷ []) ≡ some waiting
unfolding candidate is_claimable is_control_plane is_pending is_running is_cleanup passes_barrier
    under_cap
candidate-waiting = refl

one_processed : (claim_and_process dispatch 60 70 (waiting ∷ []) (waiting ∷ [])).1 ≡ 1
unfolding claim_and_process claim_one is_claimable is_control_plane is_pending is_running is_cleanup
    passes_barrier under_cap
one_processed = refl

claim_and_process_ends_example :
    count (is_running_job 1) (claim_and_process dispatch 60 70 (waiting ∷ []) (waiting ∷ [])).0 ≡ 0
claim_and_process_ends_example =
    claim_and_process_ends dispatch 60 70 (waiting ∷ []) (waiting ∷ []) waiting (not-IsCancelled _)
      candidate-waiting one_processed

abbrev passes : List Pass
passes = processed 0 ∷ processed 0 ∷ periodics_raised ∷ processed 1 ∷ stopped_at_test ∷ []

abbrev turns : List Turn
turns =
    record { task = record { interval = pos 300; name = 1 }; tested = 500; stamped = 501 }
    ∷ record { task = record { interval = pos 0; name = 2 }; tested = 502; stamped = 503 }
    ∷ []

abbrev stamps : LastRuns
stamps n = if n == 1 then some 400 else none
