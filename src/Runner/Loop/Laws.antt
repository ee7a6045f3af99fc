-- ===== src/Runner/Loop/Laws.antt =====
-- Back-off of the poll loop, and spacing of the periodic tasks.
use native.Mathlib.Nat.{pow-suc}
use native.Mathlib.Decide.{dec_le}
use arcology.Base.{
  if_cases, ℕ, zero, suc, ◌+◌, ◌*◌, ◌^◌, ◌≤◌, ◌<◌, ◌≡◌, ◌≢◌, refl, ◌∙◌, ◌⊎◌, inl, inr, true, false,
  Option, none, some, List, [], ◌∷◌, arith, count, All, replicate, Bool-cases, min, max, ◌==◌,
}
use arcology.Base.Int.{ℤ, pos, negsuc}
use arcology.Runner.Loop.{
  Periodic, Turn, LastRuns, set_last, is_due, run_periodics, Pass, processed, Poll, poll_step, run,
  start,
}

-- The delay stays between the smaller and the larger of the two bounds, and so does every sleep.
pub record IsBounded (floor ceiling : ℕ) (s : Poll) : Type 0 where
  pub at_least : min floor ceiling ≤ s.current_delay
  pub at_most : s.current_delay ≤ max floor ceiling
  pub sleeps : All (λ d. (min floor ceiling ≤ d) × (d ≤ max floor ceiling)) s.slept

poll_step-IsBounded :
    (floor ceiling : ℕ) (p : Pass) (s : Poll)
    → IsBounded floor ceiling s
    → IsBounded floor ceiling (poll_step floor ceiling p s)
unfolding poll_step
poll_step-IsBounded floor ceiling (processed n) s h = ground arith
poll_step-IsBounded floor ceiling _ s h = ground arith

run_from-IsBounded :
    (floor ceiling : ℕ) (ps : List Pass) (s : Poll)
    → IsBounded floor ceiling s
    → IsBounded floor ceiling (run floor ceiling ps s)
unfolding run
run_from-IsBounded floor ceiling [] s h = h
run_from-IsBounded floor ceiling (p ∷ ps) s h =
    if_cases (IsBounded floor ceiling) s.is_over s
      (run floor ceiling ps (poll_step floor ceiling p s)) (λ _. h)
      (λ _.
        run_from-IsBounded floor ceiling ps (poll_step floor ceiling p s)
          (poll_step-IsBounded floor ceiling p s h))

-- Whatever the passes do, the current delay and every sleep of the loop stay between the smaller and
-- the larger of the floor and the ceiling.
run-IsBounded :
    (floor ceiling : ℕ) (passes : List Pass)
    → IsBounded floor ceiling (run floor ceiling passes (start floor))
run-IsBounded floor ceiling passes =
    run_from-IsBounded floor ceiling passes (start floor) (omega arith)

pow_pos : (n : ℕ) → 1 ≤ 2 ^ n
pow_pos zero = omega arith
pow_pos (suc n) = omega (arith, pow_pos n, pow-suc 2 n)

mul_mono : (a b p : ℕ) → a ≤ b → a * p ≤ b * p
mul_mono a b p h = grind arith

min_doubled : (x c p q : ℕ) → 1 ≤ p → q ≡ p * 2 → min (min (x * 2) c * p) c ≡ min (x * q) c
min_doubled x c p q h e =
    let scaled : x * q ≡ x * 2 * p = rw e (omega arith) in
    let grown : c ≤ c * p = grind arith in
    elim (dec_le c (x * 2)) [
      | yes k ↦
          let above = mul_mono c (x * 2) p k in
          let inner : min (x * 2) c ≡ c = omega arith in
          rw (inner, scaled) (omega (arith, above, grown))
      | no k ↦ let inner : min (x * 2) c ≡ x * 2 = omega arith in rw (inner, scaled)
    ]

idle_from :
    (ceiling floor n : ℕ) (s : Poll)
    → s.is_over ≡ false
    → (run floor ceiling (replicate (suc n) (processed 0)) s).current_delay
      ≡ min (s.current_delay * 2 ^ suc n) ceiling
unfolding run
idle_from ceiling floor zero s e = rw e (omega arith)
idle_from ceiling floor (suc n) s e =
    let s' : Poll = record {
      current_delay = min (s.current_delay * 2) ceiling;
      is_over = false;
      slept = s.current_delay ∷ s.slept;
    } in
    rw e (
      idle_from ceiling floor n s' refl
      ∙ min_doubled s.current_delay ceiling (2 ^ suc n) (2 ^ suc (suc n)) (pow_pos (suc n))
          (pow-suc 2 (suc n)))

-- After `n` idle passes the delay has doubled each time, up to the ceiling.
idle_backoff :
    (floor ceiling n : ℕ)
    → floor ≤ ceiling
    → (run floor ceiling (replicate n (processed 0)) (start floor)).current_delay
      ≡ min (floor * 2 ^ n) ceiling
unfolding run
idle_backoff floor ceiling zero h = omega arith
idle_backoff floor ceiling (suc n) h = idle_from ceiling floor n (start floor) refl

-- The task is off, or its interval has not gone by since the stamp `last`.
abbrev pub IsEarly : Option ℕ → ℕ → ℤ → Type 0
IsEarly last tested (pos zero) = Unit
IsEarly last tested (negsuc n) = Unit
IsEarly none tested (pos (suc n)) = ⊥
IsEarly (some t) tested (pos (suc n)) = tested < t + suc n

not_due :
    (last : LastRuns) (tested : ℕ) (p : Periodic)
    → IsEarly (last p.name) tested p.interval
    → is_due last tested p ≡ false
unfolding is_due
not_due last tested p h = go p.interval (last p.name) refl refl h
  where
    go :
        (i : ℤ) (o : Option ℕ)
        → p.interval ≡ i
        → last p.name ≡ o
        → IsEarly o tested i
        → is_due last tested p ≡ false
    go (pos zero) o e f early = ground arith
    go (negsuc n) o e f early = ground arith
    go (pos (suc n)) none e f early = absurd early
    go (pos (suc n)) (some t) e f early = ground arith

other_task :
    (name : ℕ) (last : LastRuns) (t : Turn)
    → is_due last t.tested t.task ≡ true
    → (t.task.name ≢ name) ⊎ IsEarly (last name) t.tested t.task.interval
    → t.task.name ≢ name
other_task name last t due (inl other) = other
other_task name last t due (inr early) = λ e. cc (due, not_due last t.tested t.task (rw e early))

-- In a pass whose turns of the task `name` all come too early, or find it switched off by an interval
-- that is not positive, the task does not run, whatever the other tasks do.
run_periodics_spacing :
    (name : ℕ) (ts : List Turn) (last : LastRuns)
    → All (λ t. (t.task.name ≢ name) ⊎ IsEarly (last name) t.tested t.task.interval) ts
    → count (λ n. n == name) (run_periodics ts last).0 ≡ 0
unfolding run_periodics
run_periodics_spacing name [] last h = refl
run_periodics_spacing name (t ∷ ts) last (h, hs) =
    let next = set_last last t.task.name t.stamped in
    elim (Bool-cases (is_due last t.tested t.task)) [
      | inl due ↦
          let other = other_task name last t due h in
          let kept : next name ≡ last name = ground arith in
          rw (due, run_periodics) (ground (arith, run_periodics_spacing name ts next (rw kept hs)))
      | inr waits ↦ rw (waits, run_periodics) (run_periodics_spacing name ts last hs)
    ]
