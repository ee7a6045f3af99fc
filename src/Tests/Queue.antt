-- ===== src/Tests/Queue.antt =====
-- The queue and the heavy cap on concrete tables.
use arcology.Base.{
  inl, ◌≤◌, ◌⊎◌, ℕ, ◌+◌, ◌<◌, ◌≡◌, refl, inr, ◌↔◌, true, Option, none, some, List, [], ◌∷◌, Mem,
  map, arith, any, count, length, All, ◌==◌, if◌then◌else◌,
}
use arcology.Base.Int.{pos, negsuc}
use arcology.Base.Result.{ok, raised}
use arcology.Base.Text.{codes, strip, ends_with_char, drop_last}
use arcology.Enums.{
  AnalysisType, AnalysisStatus, pending, running, cleanup, file_extraction, hash_rescan,
  item_delete, is_heavy, is_control_plane, is_cleanup, is_pending, is_running,
}
use arcology.Queue.{Analysis}
use arcology.Queue.Cap.{Conversions, RawCap, round_error, overflow_error, resolve_heavy_cap}
use arcology.Queue.Cap.Bounds.{resolve_heavy_cap_bounds}
use arcology.Queue.Heartbeat.{WorkerHeartbeat}
use arcology.Queue.Claimable.{
  pending_claimable_query, candidate, is_claimable, is_claim_target, claim_one, passes_barrier,
  under_cap,
}
use arcology.Queue.Claimable.Barrier.{MayRun, pending_claimable_query_iff}
use arcology.Queue.Claimable.Claim.{winners, worker_claims, worker_claims_one_winner}
use arcology.Queue.Stale.{is_stale, budget, reset_stale_analyses_core}
use arcology.Queue.Stale.Laws.{reset_row, reset_stale_rows}
use arcology.Queue.Stale.Poison.{Round, HasFailed, rounds, poison_ends}

abbrev pub job : ℕ → Option ℕ → AnalysisType → AnalysisStatus → ℕ → Analysis
job id artefact type status priority = record {
  id = id;
  artefact_id = artefact;
  analysis_type = type;
  status = status;
  tool_name = none;
  tool_version = none;
  hints = none;
  output_url = none;
  output_path = none;
  success = none;
  summary = none;
  details = none;
  error_message = none;
  progress_message = none;
  progress_current = none;
  progress_total = none;
  progress_updated_at = none;
  stale_reset_count = 0;
  priority = pos priority;
  created_at = id;
  started_at = none;
  completed_at = none;
}

-- Artefact 7 is being cleaned up; artefact 8 is not.
abbrev table : List Analysis
table =
    job 1 (some 7) file_extraction pending 0
    ∷ job 2 (some 7) cleanup running 0
    ∷ job 3 (some 8) hash_rescan pending 0
    ∷ job 4 (some 8) item_delete pending 10
    ∷ []

abbrev urgent : Analysis
urgent = job 4 (some 8) item_delete pending 10

-- Numbers that stand for themselves, and a rounding that refuses the percentage 0.
abbrev conversions : Conversions
conversions = record {
  Float = ℕ;
  parse_int = λ s. some (pos (length s));
  parse_float = λ s. some (length s);
  round_share = λ p n. if p == 0 then none else some (pos n);
}

abbrev live : ℕ
live = 4

-- A negative setting of minus 1 keeps one slot of four free.
one_slot_free : resolve_heavy_cap conversions (RawCap.number (negsuc 0)) 4 ≡ ok (some 3)
unfolding resolve_heavy_cap
one_slot_free = refl

resolve_heavy_cap_bounds_example : (1 ≤ 3) × ((live ≡ 0) ⊎ (3 < live))
resolve_heavy_cap_bounds_example =
    resolve_heavy_cap_bounds conversions (RawCap.number (negsuc 0)) live 3 one_slot_free

infinity_raises : resolve_heavy_cap conversions RawCap.infinity 4 ≡ raised overflow_error
unfolding resolve_heavy_cap
infinity_raises = refl

percentage_raises : resolve_heavy_cap conversions (RawCap.text (codes " % ")) 4 ≡ raised round_error
unfolding resolve_heavy_cap strip ends_with_char drop_last
percentage_raises = refl

abbrev workers : List WorkerHeartbeat
workers = record { worker_id = codes "w1"; last_seen = 100; first_seen = 90; hostname = none } ∷ []

pending_claimable_query_iff_example :
    (eligible : List Analysis) × (pending_claimable_query true (ok (some 2)) table ≡ ok eligible)
    × (Mem urgent eligible ↔ (Mem urgent table × MayRun (some 2) table urgent))
pending_claimable_query_iff_example = pending_claimable_query_iff (some 2) table urgent

eligible_of_table :
    pending_claimable_query true (ok (some 2)) table
    ≡ ok (job 3 (some 8) hash_rescan pending 0 ∷ urgent ∷ [])
unfolding pending_claimable_query is_claimable is_pending is_running is_cleanup is_heavy
    passes_barrier under_cap
eligible_of_table = refl

candidate_of_table : candidate table ≡ some urgent
unfolding candidate is_claimable is_control_plane is_pending is_running is_cleanup passes_barrier
    under_cap
candidate_of_table = refl

abbrev rescan : Analysis
rescan = job 3 (some 8) hash_rescan pending 0

rescan_claimable : is_claimable none table rescan ≡ true
unfolding is_claimable is_pending is_running is_cleanup passes_barrier under_cap
rescan_claimable = refl

worker_claims_one_winner_example :
    winners (worker_claims 4 (50 ∷ 51 ∷ 52 ∷ []) table)
    ≡ (if any (is_claim_target 4) table then 1 else 0)
worker_claims_one_winner_example = worker_claims_one_winner 4 50 (51 ∷ 52 ∷ []) table

-- Another claimant has started the job in the meantime.
abbrev raced : List Analysis
raced = job 4 (some 8) item_delete running 10 ∷ []

urgent_claimed : (claim_one 60 table table).1 ≡ some 4
unfolding claim_one is_claimable is_control_plane is_pending is_running is_cleanup passes_barrier
    under_cap
urgent_claimed = refl

reset_stale_rows_example :
    let (rows', again, dead) = reset_stale_analyses_core 3600 (pos 5) 9000 9001 table in
    (rows' ≡ map (reset_row (budget (pos 5)) 3600 9000 9001) table)
    × (again + dead ≡ count (is_stale 3600 9000) table)
reset_stale_rows_example = reset_stale_rows 3600 (pos 5) 9000 9001 table

abbrev stalls : List Round
stalls =
    record { claimed = 0; now = 50; completed = 51 }
    ∷ record { claimed = 60; now = 90; completed = 91 }
    ∷ []

-- A budget of one reset, in a table with three other jobs: the second stall is the last.
poison_ends_example :
    All (HasFailed 4) (rounds 20 (pos 1) 4 stalls table)
    × (map (λ (a : Analysis). a.id) (rounds 20 (pos 1) 4 stalls table)
        ≡ map (λ (a : Analysis). a.id) table)
poison_ends_example =
    poison_ends 20 1 4 stalls table (omega arith) (omega arith) (
      inl refl,
      (inl refl, (inl refl, (inr (inr (refl, refl, refl, omega arith, omega arith)), tt))),
    )
