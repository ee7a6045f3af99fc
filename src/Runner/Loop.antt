-- ===== src/Runner/Loop.antt =====
-- TaskRunner._run_periodics and TaskRunner.run: when a periodic task is due, and how the poll loop
-- backs off. Delays are in ticks.
pub mod Laws
use arcology.Base.{
  ℕ, zero, suc, ◌-◌, ◌*◌, Bool, true, false, Option, none, some, List, [], ◌∷◌, ltb, ◌==◌,
  if◌then◌else◌, min,
}
use arcology.Base.Int.{ℤ, pos, negsuc}

-- One entry of `_periodics`: its interval and its name. The callable's own effect is outside.
pub record Periodic : Type 0 where
  pub interval : ℤ
  pub name : ℕ

-- `_periodic_last`, by name.
abbrev pub LastRuns : Type 0
LastRuns = ℕ → Option ℕ

abbrev pub set_last : LastRuns → ℕ → ℕ → LastRuns
set_last last name now n = if n == name then some now else last n

unfoldable pub is_due : LastRuns → ℕ → Periodic → Bool
is_due last now p = elim p.interval [
  | pos zero ↦ false
  | pos (suc n) ↦ elim (last p.name) [
    | none ↦ true
    | some t ↦ if ltb (now - t) (suc n) then false else true
  ]
  | negsuc n ↦ false
]

-- A turn of a task in the pass: its clock readings, for the test and for the stamp.
pub record Turn : Type 0 where
  pub task : Periodic
  pub tested : ℕ
  pub stamped : ℕ

-- The names of the tasks that run, in order, and the new stamps. An exception of a task is caught, so
-- it changes neither.
unfoldable pub run_periodics : List Turn → LastRuns → List ℕ × LastRuns
unfolding is_due
run_periodics [] last = ([], last)
run_periodics (t ∷ ts) last =
    let ran = run_periodics ts (set_last last t.task.name t.stamped) in
    let skipped = run_periodics ts last in
    if is_due last t.tested t.task then (t.task.name ∷ ran.0, ran.1) else skipped

-- What one pass through the loop's body meets: where the shutdown flag is found set, what raises, and
-- what claim_and_process returns.
pub data Pass : Type 0 where
  stopped_at_test : Pass
  periodics_raised : Pass
  stopped_after_periodics : Pass
  claim_raised : Pass
  processed_then_stopped : ℕ → Pass
  processed : ℕ → Pass

pub record Poll : Type 0 where
  pub current_delay : ℕ
  pub is_over : Bool
  pub slept : List ℕ

-- `except Exception: … self._idle_sleep(self.backoff_ceiling)`
abbrev caught : ℕ → Poll → Poll
caught ceiling s = record s { slept = ceiling ∷ s.slept }

unfoldable pub poll_step : ℕ → ℕ → Pass → Poll → Poll
poll_step floor ceiling stopped_at_test s = record s { is_over = true }
poll_step floor ceiling periodics_raised s = caught ceiling s
poll_step floor ceiling stopped_after_periodics s = record s { is_over = true }
poll_step floor ceiling claim_raised s = caught ceiling s
poll_step floor ceiling (processed_then_stopped n) s = record s { is_over = true }
poll_step floor ceiling (processed n) s =
    if n == 0
    then record s {
      current_delay = min (s.current_delay * 2) ceiling;
      slept = s.current_delay ∷ s.slept;
    }
    else record s { current_delay = floor }

-- `while`: the passes up to the one that ends the loop.
unfoldable pub run : ℕ → ℕ → List Pass → Poll → Poll
unfolding poll_step
run floor ceiling [] s = s
run floor ceiling (p ∷ ps) s =
    let rest = run floor ceiling ps (poll_step floor ceiling p s) in if s.is_over then s else rest

-- The state at the start of `run`.
abbrev pub start : ℕ → Poll
start floor = record { current_delay = floor; is_over = false; slept = [] }
