-- ===== src/Upload.antt =====
-- myapp/services/chunked_upload.py: a session's chunks, and the finalise state in its meta.json. The
-- assembly of the chunks is in Upload.Assemble. Times are in ticks of the clock.
pub mod Chunks
pub mod Assemble
pub mod Claim
pub mod Finalize
use arcology.Base.{
  ℕ, ◌+◌, Bool, true, false, not, ◌&&◌, ◌||◌, Option, none, some, List, [], ◌∷◌, ltb, leb,
  if◌then◌else◌, select,
}
use arcology.Base.Text.{Text}

-- FINALIZE_ASSEMBLING, FINALIZE_DONE and FINALIZE_FAILED; a session with no finalize_state is pending.
pub data FinalizeState : Type 0 where
  pending assembling done failed : FinalizeState

pub data ErrorCode : Type 0 where
  too_large storage internal : ErrorCode

-- What the finalise code reads and writes of meta.json. A number that `meta.get` may find absent is 0.
pub record Meta : Type 0 where
  pub total_chunks : ℕ
  pub filename : Text
  pub finalize_state : FinalizeState
  pub heartbeat_at : ℕ
  pub attempts : ℕ
  pub finalized_at : ℕ
  pub artefact_uuid : Option Text
  pub error : Option Text
  pub error_code : Option ErrorCode

abbrev pub is_assembling : FinalizeState → Bool
is_assembling assembling = true
is_assembling _ = false

-- `in (FINALIZE_DONE, FINALIZE_FAILED)`
abbrev pub is_final : FinalizeState → Bool
is_final done = true
is_final failed = true
is_final _ = false

-- The dict of finalize_status: 'state' and what goes with it.
pub data Status : Type 0 where
  in_state : FinalizeState → Status
  is_done : Option Text → Status
  is_failed : Option Text → Option ErrorCode → Status

unfoldable pub finalize_status : Option Meta → Option Status
finalize_status none = none
finalize_status (some m) = elim m.finalize_state [
  | pending ↦ some (in_state pending)
  | assembling ↦ some (in_state assembling)
  | done ↦ some (is_done m.artefact_uuid)
  | failed ↦ some (is_failed m.error m.error_code)
]

unfoldable pub finalize_is_stale : ℕ → ℕ → Option Meta → Bool
finalize_is_stale stale now none = false
finalize_is_stale stale now (some m) =
    if not (is_assembling m.finalize_state) then false else ltb (m.heartbeat_at + stale) now

-- What claim_finalize writes.
abbrev pub claimed : ℕ → Meta → Meta
claimed now m = record m {
  finalize_state = assembling;
  heartbeat_at = now;
  attempts = m.attempts + 1;
  error = none;
  error_code = none;
}

-- The meta.json after the call, and whether the caller won. The clock does not run in the locks.
unfoldable pub claim_finalize : ℕ → ℕ → Option Meta → Option Meta × Bool
claim_finalize stale now none = (none, false)
claim_finalize stale now (some m) = elim m.finalize_state [
  | pending ↦ (some (claimed now m), true)
  | assembling ↦
      if leb now (m.heartbeat_at + stale) then (some m, false) else (some (claimed now m), true)
  | done ↦ (some m, false)
  | failed ↦ (some m, false)
]

-- One turn of _heartbeat_loop, and whether the loop goes on.
unfoldable pub heartbeat : ℕ → Option Meta → Option Meta × Bool
heartbeat now none = (none, false)
heartbeat now (some m) =
    if not (is_assembling m.finalize_state)
    then (some m, false)
    else (some (record m { heartbeat_at = now }), true)

-- The outcomes that _set_finalize_result merges into meta.json.
pub data Ending : Type 0 where
  succeeded : Text → Ending
  raised : ErrorCode → Text → Ending

abbrev pub ended : ℕ → Ending → Meta → Meta
ended now (succeeded uuid) m = record m {
  finalize_state = done;
  artefact_uuid = some uuid;
  finalized_at = now;
}
ended now (raised code message) m = record m {
  finalize_state = failed;
  error = some message;
  error_code = some code;
  finalized_at = now;
}

unfoldable pub set_finalize_result : ℕ → Ending → Option Meta → Option Meta
set_finalize_result now ending none = none
set_finalize_result now ending (some m) = some (ended now ending m)

-- A session directory: when it was last touched, and its meta.json.
pub record Directory : Type 0 where
  pub mtime : ℕ
  pub meta : Option Meta

-- Whether purge_stale_chunks removes the directory: CHUNK_STALE_SECONDS is `abandoned` ticks.
unfoldable pub is_reaped : ℕ → ℕ → ℕ → Directory → Bool
is_reaped abandoned result_ttl now d = if ltb (d.mtime + abandoned) now then true else elim d.meta [
  | none ↦ false
  | some m ↦ is_final m.finalize_state && ltb (m.finalized_at + result_ttl) now
]

unfoldable pub purge_stale_chunks : ℕ → ℕ → ℕ → List Directory → List Directory
unfolding is_reaped
purge_stale_chunks abandoned result_ttl now =
    select (λ d. not (is_reaped abandoned result_ttl now d))
