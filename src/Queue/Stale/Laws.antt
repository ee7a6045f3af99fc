-- ===== src/Queue/Stale/Laws.antt =====
-- What the stale reset does to each row, and its two counts.
use arcology.Base.{
  ℕ, ◌+◌, ◌≡◌, refl, ap, false, Option, none, some, List, [], ◌∷◌, map, arith, leb, if◌then◌else◌,
  count,
}
use arcology.Base.Int.{ℤ}
use arcology.Enums.{is_running}
use arcology.Queue.{Analysis, update, update_row, rowcount}
use arcology.Queue.Stale.{
  is_stale, dead_lettered, requeued, budget, reset_stale, reset_stale_analyses_core,
}

-- One transition for one row: a stale job fails if its budget is used up, and is queued again
-- otherwise; any other row stays as it is.
abbrev pub reset_row : Option ℕ → ℕ → ℕ → ℕ → Analysis → Analysis
reset_row none timeout now completed a = if is_stale timeout now a then requeued a else a
reset_row (some m) timeout now completed a =
    if is_stale timeout now a
    then (if leb m a.stale_reset_count then dead_lettered m completed a else requeued a)
    else a

not_stale_dead :
    (timeout now m completed : ℕ) (a : Analysis)
    → is_stale timeout now (dead_lettered m completed a) ≡ false
unfolding is_stale is_running
not_stale_dead timeout now m completed a = refl

module _ (timeout now completed : ℕ) where
  rows_unbounded :
      (rows : List Analysis)
      → (update (is_stale timeout now) requeued rows
          ≡ map (reset_row none timeout now completed) rows)
        × (rowcount (is_stale timeout now) rows + 0 ≡ count (is_stale timeout now) rows)
  rows_unbounded [] = (refl, omega arith)
  rows_unbounded (a ∷ rows) =
      (ap (◌∷◌ (update_row (is_stale timeout now) requeued a)) (rows_unbounded rows).0, omega arith)

  rows_bounded :
      (m : ℕ) (rows : List Analysis)
      → let (rows', again, dead) = reset_stale (some m) (is_stale timeout now) completed rows in
        (rows' ≡ map (reset_row (some m) timeout now completed) rows)
        × (again + dead ≡ count (is_stale timeout now) rows)
  unfolding reset_stale
  rows_bounded m [] = (refl, omega arith)
  rows_bounded m (a ∷ rows) =
      ground (arith, not_stale_dead timeout now m completed a, rows_bounded m rows)

-- The reset moves each stale row exactly once, as `reset_row` says, leaves every other row alone, and
-- its two counts, of the rows queued again and of the rows failed, add up to the stale rows.
pub reset_stale_rows :
    (timeout : ℕ) (max_retries : ℤ) (now completed : ℕ) (rows : List Analysis)
    → let (rows', again, dead) = reset_stale_analyses_core timeout max_retries now completed rows in
      (rows' ≡ map (reset_row (budget max_retries) timeout now completed) rows)
      × (again + dead ≡ count (is_stale timeout now) rows)
unfolding reset_stale_analyses_core
reset_stale_rows timeout max_retries now completed rows = go (budget max_retries)
  where
    go :
        (o : Option ℕ)
        → let (rows', again, dead) = reset_stale o (is_stale timeout now) completed rows in
          (rows' ≡ map (reset_row o timeout now completed) rows)
          × (again + dead ≡ count (is_stale timeout now) rows)
    go none = rows_unbounded timeout now completed rows
    go (some m) = rows_bounded timeout now completed m rows
