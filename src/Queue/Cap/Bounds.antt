-- ===== src/Queue/Cap/Bounds.antt =====
-- What the resolved cap can be.
use arcology.Base.{ℕ, zero, suc, ◌≤◌, ◌<◌, ◌≡◌, refl, ◌⊎◌, Option, none, some, arith}
use arcology.Base.Int.{pos, negsuc}
use arcology.Base.Result.{Result, ok, raised, ◌>>=◌}
use arcology.Queue.Cap.{
  Conversions, RawCap, CapError, Setting, percent, value, read_setting, cap_of, effective,
  resolve_heavy_cap,
}

module _ (py : Conversions) where
  cap_of_pos : (s : Setting py) (workers cap : ℕ) → cap_of py s workers ≡ ok (some cap) → 1 ≤ cap
  unfolding cap_of
  cap_of_pos (percent p) workers cap h = ground arith
  cap_of_pos (value (pos zero)) workers cap h = ground arith
  cap_of_pos (value (pos (suc n))) workers cap h = ground arith
  cap_of_pos (value (negsuc k)) workers cap h = ground arith

  effective_bounds :
      (workers : ℕ) (c : Option ℕ) (cap : ℕ)
      → effective py workers c ≡ some cap
      → (c ≡ some cap) × ((workers ≡ 0) ⊎ (cap < workers))
  unfolding effective
  effective_bounds workers none cap h = cc
  effective_bounds workers (some k) cap h = ground arith

  after_cap :
      (r : Result CapError (Option ℕ)) (workers cap : ℕ)
      → (r >>= λ c. ok (effective py workers c)) ≡ ok (some cap)
      → (r ≡ ok (some cap)) × ((workers ≡ 0) ⊎ (cap < workers))
  after_cap (raised e) workers cap h = cc
  after_cap (ok c) workers cap h = ground (arith, effective_bounds workers c cap)

  from_setting :
      (o : Result CapError (Option (Setting py))) (raw : RawCap) (workers cap : ℕ)
      → read_setting py raw ≡ o
      → resolve_heavy_cap py raw workers ≡ ok (some cap)
      → (1 ≤ cap) × ((workers ≡ 0) ⊎ (cap < workers))
  unfolding resolve_heavy_cap
  from_setting (raised e) raw workers cap same h = cc (rw (same, resolve_heavy_cap) at h)
  from_setting (ok none) raw workers cap same h = cc (rw (same, resolve_heavy_cap) at h)
  from_setting (ok (some s)) raw workers cap same h =
      let r = after_cap (cap_of py s workers) workers cap (rw (same, resolve_heavy_cap) at h) in
      (cap_of_pos s workers cap r.0, r.1)

  -- Whatever the setting holds, a cap that is returned lets at least one heavy job run, and is below the number of live
  -- workers unless no worker is live.
  pub resolve_heavy_cap_bounds :
      (raw : RawCap) (workers cap : ℕ)
      → resolve_heavy_cap py raw workers ≡ ok (some cap)
      → (1 ≤ cap) × ((workers ≡ 0) ⊎ (cap < workers))
  resolve_heavy_cap_bounds raw workers cap h =
      from_setting (read_setting py raw) raw workers cap refl h
