-- ===== src/Queue/Claimable/Claim.antt =====
-- Claims: one winner for each job, and what the loser of a race leaves behind.
use arcology.Base.{
  ℕ, ◌≡◌, refl, Bool, false, none, some, List, [], ◌∷◌, arith, any, count, if◌then◌else◌,
}
use arcology.Enums.{is_pending}
use arcology.Queue.{Analysis, rowcount}
use arcology.Queue.Rows.{update_none, any-count, count_none, update_clears}
use arcology.Queue.Claimable.{
  is_claim_target, claimed_by_worker, claimed_by_runner, worker_claim, claim_one, candidate,
}

-- Workers that claim the job `id` one after the other, at these times: who is told "claimed".
pub worker_claims : ℕ → List ℕ → List Analysis → List Bool
worker_claims id [] rows = []
worker_claims id (t ∷ times) rows =
    (worker_claim id t rows).1 ∷ worker_claims id times (worker_claim id t rows).0

abbrev pub winners : List Bool → ℕ
winners = count (λ b. b)

claimed_not_target :
    (id now : ℕ) (a : Analysis) → is_claim_target id (claimed_by_worker now a) ≡ false
unfolding is_claim_target is_pending
claimed_not_target id now a = ground arith

claimed_not_target' :
    (id now : ℕ) (a : Analysis) → is_claim_target id (claimed_by_runner now a) ≡ false
unfolding is_claim_target is_pending
claimed_not_target' id now a = ground arith

no_winner :
    (id : ℕ) (times : List ℕ) (rows : List Analysis)
    → rowcount (is_claim_target id) rows ≡ 0
    → winners (worker_claims id times rows) ≡ 0
unfolding worker_claims worker_claim
no_winner id [] rows h = refl
no_winner id (t ∷ times) rows h =
    rw (update_none (is_claim_target id) (claimed_by_worker t) rows h)
      (ground (arith, no_winner id times rows h))

-- Of any workers that claim a job, however many, exactly one is told that it has claimed it, if the
-- job was waiting, and none otherwise.
pub worker_claims_one_winner :
    (id t : ℕ) (times : List ℕ) (rows : List Analysis)
    → winners (worker_claims id (t ∷ times) rows) ≡ (if any (is_claim_target id) rows then 1 else 0)
unfolding worker_claims worker_claim
worker_claims_one_winner id t times rows = ground (
  arith,
  no_winner id times _
      (update_clears (is_claim_target id) (claimed_by_worker t) rows (claimed_not_target id t)),
  any-count (is_claim_target id) rows,
)

-- When the task runner's UPDATE finds its candidate no longer waiting, the claim is lost and the table
-- stays as the others left it.
claim_one_lost :
    (now : ℕ) (rows rows' : List Analysis) (c : Analysis)
    → candidate rows ≡ some c
    → any (is_claim_target c.id) rows' ≡ false
    → claim_one now rows rows' ≡ (rows', none)
unfolding claim_one
claim_one_lost now rows rows' c e h =
    let z = count_none (is_claim_target c.id) rows' h in
    ground (arith, e, z, update_none (is_claim_target c.id) (claimed_by_runner now) rows' z)

-- A claim of the task runner that succeeds is of its candidate, hits exactly one row, which was
-- waiting, and leaves no row with that id waiting.
pub claim_one_won :
    (now id : ℕ) (rows rows' : List Analysis) (c : Analysis)
    → candidate rows ≡ some c
    → (claim_one now rows rows').1 ≡ some id
    → (id ≡ c.id)
      × (rowcount (is_claim_target id) rows' ≡ 1)
      × (rowcount (is_claim_target id) (claim_one now rows rows').0 ≡ 0)
unfolding claim_one
claim_one_won now id rows rows' c e h =
    let target = is_claim_target c.id in
    let q : id ≡ c.id = ground arith in
    (
      q,
      rw q (ground arith),
      rw (q, e, claim_one)
          (update_clears target (claimed_by_runner now) rows' (claimed_not_target' c.id now)),
    )
