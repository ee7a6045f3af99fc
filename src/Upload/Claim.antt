-- ===== src/Upload/Claim.antt =====
-- The finalise claim under every order of the calls on one session: requests that claim it, the heartbeat
-- of a runner, and the results that runners record.
use arcology.Base.{
  ℕ, ◌+◌, ◌≤◌, ◌≡◌, refl, ◌⊎◌, inl, inr, Bool, true, false, not, ◌&&◌, ◌||◌, Option, none, some,
  List, [], ◌∷◌, All, arith,
}
use arcology.Upload.{
  Meta, is_assembling, is_final, finalize_is_stale, claimed, claim_finalize, heartbeat, Ending,
  succeeded, raised, ended, set_finalize_result,
}

-- A call on the session, at a time.
pub data Call : Type 0 where
  claim : ℕ → Call
  beat : ℕ → Call
  result : ℕ → Ending → Call

-- The meta.json after a call, and the claims that it won.
abbrev pub won : Bool → ℕ
won true = 1
won false = 0

unfoldable pub call : ℕ → Call → Option Meta → Option Meta × ℕ
call stale (claim now) m = let (m', w) = claim_finalize stale now m in (m', won w)
call stale (beat now) m = let (m', goes_on) = heartbeat now m in (m', 0)
call stale (result now ending) m = (set_finalize_result now ending m, 0)

unfoldable pub calls : ℕ → List Call → Option Meta → Option Meta × ℕ
unfolding call
calls stale [] m = (m, 0)
calls stale (c ∷ cs) m =
    let (m', w) = call stale c m in let (m'', ws) = calls stale cs m' in (m'', w + ws)

-- `meta.get('attempts', 0)`
abbrev pub attempts_of : Option Meta → ℕ
attempts_of none = 0
attempts_of (some m) = m.attempts

call-attempts :
    (stale : ℕ) (c : Call) (m : Option Meta)
    → attempts_of (call stale c m).0 ≡ attempts_of m + (call stale c m).1
unfolding call claim_finalize heartbeat set_finalize_result
call-attempts stale (claim now) none = omega arith
call-attempts stale (claim now) (some m) = ground arith
call-attempts stale (beat now) none = omega arith
call-attempts stale (beat now) (some m) = ground arith
call-attempts stale (result now ending) none = omega arith
call-attempts stale (result now (succeeded uuid)) (some m) = omega arith
call-attempts stale (result now (raised code message)) (some m) = omega arith

-- Whatever calls come in whatever order, the attempts that meta.json counts grow by the claims that were won.
pub calls-attempts :
    (stale : ℕ) (cs : List Call) (m : Option Meta)
    → attempts_of (calls stale cs m).0 ≡ attempts_of m + (calls stale cs m).1
unfolding calls
calls-attempts stale [] m = omega arith
calls-attempts stale (c ∷ cs) m =
    ground (arith, call-attempts stale c m, calls-attempts stale cs (call stale c m).0)

-- A claim wins exactly on a pending session or on one that finalize_is_stale reports.
pub claim_finalize-finalize_is_stale :
    (stale now : ℕ) (m : Meta)
    → (claim_finalize stale now (some m)).1 ≡ (
        not (is_assembling m.finalize_state) && not (is_final m.finalize_state)
        || finalize_is_stale stale now (some m))
unfolding claim_finalize finalize_is_stale
claim_finalize-finalize_is_stale stale now m = ground arith

-- A session on which no claim can win within `stale` ticks of `last`: it is final, or that was its last
-- heartbeat.
IsHeld : ℕ → Option Meta → Type 0
IsHeld last none = Unit
IsHeld last (some m) =
    (is_final m.finalize_state ≡ true)
    ⊎ ((is_assembling m.finalize_state ≡ true) × (m.heartbeat_at ≡ last))

-- Every claim comes within `stale` ticks of the last heartbeat before it, the first of which is `last`.
abbrev pub IsFresh : ℕ → ℕ → List Call → Type 0
IsFresh stale last [] = Unit
IsFresh stale last (claim now ∷ cs) = (now ≤ last + stale) × IsFresh stale last cs
IsFresh stale last (beat now ∷ cs) = IsFresh stale now cs
IsFresh stale last (result now ending ∷ cs) = IsFresh stale last cs

calls-IsHeld :
    (stale last : ℕ) (cs : List Call) (m : Option Meta)
    → IsFresh stale last cs
    → IsHeld last m
    → (calls stale cs m).1 ≡ 0
unfolding calls IsHeld call claim_finalize heartbeat set_finalize_result
calls-IsHeld stale last [] m t h = refl
calls-IsHeld stale last (claim now ∷ cs) none t h =
    ground (arith, calls-IsHeld stale last cs none t.1)
calls-IsHeld stale last (claim now ∷ cs) (some m) t h =
    ground (arith, calls-IsHeld stale last cs (some m) t.1 h)
calls-IsHeld stale last (beat now ∷ cs) none t h = ground (arith, calls-IsHeld stale now cs none t)
calls-IsHeld stale last (beat now ∷ cs) (some m) t (inl h) =
    ground (arith, calls-IsHeld stale now cs (some m) t (inl h))
calls-IsHeld stale last (beat now ∷ cs) (some m) t (inr h) =
    ground (
      arith,
      calls-IsHeld stale now cs (some (record m { heartbeat_at = now })) t (inr (h.0, refl)),
    )
calls-IsHeld stale last (result now ending ∷ cs) none t h =
    ground (arith, calls-IsHeld stale last cs none t)
calls-IsHeld stale last (result now (succeeded uuid) ∷ cs) (some m) t h =
    ground (arith, calls-IsHeld stale last cs (some (ended now (succeeded uuid) m)) t (inl refl))
calls-IsHeld stale last (result now (raised code message) ∷ cs) (some m) t h =
    ground
      (arith, calls-IsHeld stale last cs (some (ended now (raised code message) m)) t (inl refl))

-- Once a claim on a session has won, no later call of any kind in any order wins another, provided that
-- each later claim comes within `stale` ticks of the last heartbeat before it.
pub calls-claim :
    (stale now : ℕ) (cs : List Call) (m : Option Meta)
    → (claim_finalize stale now m).1 ≡ true
    → IsFresh stale now cs
    → (calls stale (claim now ∷ cs) m).1 ≡ 1
unfolding calls claim_finalize IsHeld call
calls-claim stale now cs none h t = cc
calls-claim stale now cs (some m) h t =
    ground (arith, calls-IsHeld stale now cs (some (claimed now m)) t (inr (refl, refl)))

abbrev pub records_result : Call → Bool
records_result (claim now) = false
records_result (beat now) = false
records_result (result now ending) = true

-- No claim and no heartbeat changes a session that is done or has failed.
calls-final :
    (stale : ℕ) (cs : List Call) (m : Meta)
    → is_final m.finalize_state ≡ true
    → All (λ c. records_result c ≡ false) cs
    → calls stale cs (some m) ≡ (some m, 0)
unfolding calls call claim_finalize heartbeat
calls-final stale [] m f h = refl
calls-final stale (claim now ∷ cs) m f h = ground (arith, calls-final stale cs m f h.1)
calls-final stale (beat now ∷ cs) m f h = ground (arith, calls-final stale cs m f h.1)
calls-final stale (result now ending ∷ cs) m f h = cc (h.0)
