-- ===== src/Queue/Cap.antt =====
-- resolve_heavy_cap of myapp/services/analysis_queue.py: the configured limit on heavy jobs, as a
-- number of workers. Python's conversions are a parameter, since there are no floats here.
pub mod Bounds
use arcology.Base.{
  ℕ, zero, suc, ◌-◌, Bool, ◌&&◌, not, Option, none, some, max, leb, if◌then◌else◌, ◌==◌,
}
use arcology.Base.Int.{ℤ, pos, negsuc}
use arcology.Base.Result.{Result, ok, raised, ◌>>=◌}
use arcology.Base.Text.{Text, is_empty, strip, ends_with_char, drop_last}

-- `int(s)` and `float(s)` of a text (`none` is a ValueError), and `round(pct / 100.0 * workers)`
-- (`none` is the exception that `round` raises for a NaN or an infinity).
pub record Conversions : Type 1 where
  pub Float : Type 0
  pub parse_int : Text → Option ℤ
  pub parse_float : Text → Option Float
  pub round_share : Float → ℕ → Option ℤ

-- What ANALYSIS_HEAVY_RUNNING_CAP holds: a value that `int()` converts, a text, an infinite float, or a
-- value that `int()` refuses with a TypeError or a ValueError.
pub data RawCap : Type 0 where
  number : ℤ → RawCap
  text : Text → RawCap
  infinity : RawCap
  other : RawCap

-- The exceptions that leave `resolve_heavy_cap`: of `round`, and the OverflowError of `int()` on an infinity.
pub data CapError : Type 0 where
  round_error overflow_error : CapError

-- `max(1, n)`
abbrev pub at_least_one : ℤ → ℕ
at_least_one (pos n) = max 1 n
at_least_one (negsuc n) = 1

module _ (py : Conversions) where
  open py use {Float, parse_int, parse_float, round_share}

  -- The locals `pct` and `value` after the parse, of which one is set.
  pub data Setting : Type 0 where
    percent : Float → Setting
    value : ℤ → Setting

  read_text : Text → Option Setting
  read_text s =
      if is_empty s
      then none
      else if ends_with_char b'%' s
      then elim (parse_float (drop_last s)) [ none ↦ none | some p ↦ some (percent p) ]
      else elim (parse_int s) [ none ↦ none | some n ↦ some (value n) ]

  pub read_setting : RawCap → Result CapError (Option Setting)
  unfolding read_text
  read_setting (number n) = ok (some (value n))
  read_setting (text raw) = ok (read_text (strip raw))
  read_setting infinity = raised overflow_error
  read_setting other = ok none

  -- The cap before the last check.
  pub cap_of : Setting → ℕ → Result CapError (Option ℕ)
  cap_of (percent p) workers = if workers == 0 then ok none else elim (round_share p workers) [
    | none ↦ raised round_error
    | some r ↦ ok (some (at_least_one r))
  ]
  cap_of (value (pos zero)) workers = ok none
  cap_of (value (pos (suc n))) workers = ok (some (suc n))
  cap_of (value (negsuc k)) workers =
      if workers == 0 then ok none else ok (some (max 1 (workers - suc k)))

  -- No effective throttle if the cap is at or above the live worker count.
  pub effective : ℕ → Option ℕ → Option ℕ
  effective workers none = none
  effective workers (some cap) = if not (workers == 0) && leb workers cap then none else some cap

  unfoldable pub resolve_heavy_cap : RawCap → ℕ → Result CapError (Option ℕ)
  unfolding read_setting cap_of effective
  resolve_heavy_cap raw workers = elim (read_setting raw) [
    | raised e ↦ raised e
    | ok none ↦ ok none
    | ok (some s) ↦ cap_of s workers >>= λ c. ok (effective workers c)
  ]
