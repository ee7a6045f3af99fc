-- ===== src/Queue/Claimable/Barrier.antt =====
-- Which rows the query hands out: the CLEANUP dispatch barrier and the fairness cap.
use arcology.Base.{
  ℕ, ◌≤◌, ◌<◌, ◌≡◌, refl, ap, ◌≢◌, ◌⊎◌, inl, inr, ◌↔◌, true, false, Option, none, some, List, [],
  ◌∷◌, Mem, arith, ltb, any, count, select, Bool-cases, ==_iff,
}
use arcology.Base.Result.{ok}
use arcology.Base.Select.{any-eq_false, any-eq_false_of, mem_of_mem-select, mem-select}
use arcology.Enums.{pending, running, cleanup, is_pending, is_running, is_cleanup, is_heavy}
use arcology.Enums.Laws.{
  pending_of_is_pending, running_of_is_running, cleanup_of_is_cleanup, cleanup-is_cleanup,
}
use arcology.Queue.{Analysis}
use arcology.Queue.Claimable.{
  blocks, passes_barrier, is_running_heavy, under_cap, is_claimable, pending_claimable_query,
}

-- A CLEANUP job of the artefact `x` that has not ended.
pub record IsOutstandingCleanup (x : ℕ) (r : Analysis) : Type 0 where
  pub is_cleanup_job : r.analysis_type ≡ cleanup
  pub unfinished : (r.status ≡ pending) ⊎ (r.status ≡ running)
  pub of_artefact : r.artefact_id ≡ some x

-- What makes a row eligible, said of the table and not by the query's tests.
pub record MayRun (cap : Option ℕ) (rows : List Analysis) (a : Analysis) : Type 0 where
  pub waits : a.status ≡ pending
  pub no_barrier :
      a.analysis_type ≢ cleanup
      → (x : ℕ) → a.artefact_id ≡ some x
      → (r : Analysis) → Mem r rows
      → IsOutstandingCleanup x r
      → ⊥
  pub has_room :
      (n : ℕ) → cap ≡ some n → is_heavy a.analysis_type ≡ true → count is_running_heavy rows < n

blocks_of : (x : ℕ) (r : Analysis) → IsOutstandingCleanup x r → blocks x r ≡ true
unfolding blocks is_cleanup is_pending is_running
blocks_of x r o = ground (arith, ==_iff x x)

outstanding_of_blocks : (x : ℕ) (r : Analysis) → blocks x r ≡ true → IsOutstandingCleanup x r
unfolding blocks
outstanding_of_blocks x r h = record {
  is_cleanup_job = cleanup_of_is_cleanup r.analysis_type (ground arith);
  unfinished = elim (Bool-cases (is_pending r.status)) [
    | inl e ↦ inl (pending_of_is_pending r.status e)
    | inr e ↦ inr (running_of_is_running r.status (ground arith))
  ];
  of_artefact = ground arith;
}

barrier_of_passes :
    (rows : List Analysis) (a : Analysis)
    → passes_barrier rows a ≡ true
    → a.analysis_type ≢ cleanup
    → (x : ℕ) → a.artefact_id ≡ some x
    → any (blocks x) rows ≡ false
unfolding passes_barrier
barrier_of_passes rows a h other x e = elim (Bool-cases (is_cleanup a.analysis_type)) [
  | inl c ↦ absurd (other (cleanup_of_is_cleanup a.analysis_type c))
  | inr c ↦ ground arith
]

passes_of_barrier :
    (rows : List Analysis) (a : Analysis)
    → (a.analysis_type ≢ cleanup → (x : ℕ) → a.artefact_id ≡ some x → any (blocks x) rows ≡ false)
    → passes_barrier rows a ≡ true
unfolding passes_barrier
passes_of_barrier rows a h = elim (Bool-cases (is_cleanup a.analysis_type)) [
  | inl e ↦ rw e
  | inr e ↦ go a.artefact_id refl (λ c. cc (e, ap is_cleanup c, cleanup-is_cleanup))
]
  where
    go :
        (o : Option ℕ)
        → a.artefact_id ≡ o
        → a.analysis_type ≢ cleanup
        → passes_barrier rows a ≡ true
    go none e other = ground arith
    go (some x) e other = ground (arith, h other x e)

room_of_under :
    (cap : Option ℕ) (rows : List Analysis) (a : Analysis)
    → under_cap cap rows a ≡ true
    → (n : ℕ) → cap ≡ some n
    → is_heavy a.analysis_type ≡ true
    → count is_running_heavy rows < n
unfolding under_cap
room_of_under none rows a h n e heavy = cc
room_of_under (some m) rows a h n e heavy = ground arith

under_of_room :
    (cap : Option ℕ) (rows : List Analysis) (a : Analysis)
    → ((n : ℕ) → cap ≡ some n → is_heavy a.analysis_type ≡ true → count is_running_heavy rows < n)
    → under_cap cap rows a ≡ true
unfolding under_cap
under_of_room none rows a h = refl
under_of_room (some m) rows a h = ground (arith, h m refl)

pub claimable-MayRun :
    (cap : Option ℕ) (rows : List Analysis) (a : Analysis)
    → is_claimable cap rows a ≡ true
    → MayRun cap rows a
unfolding is_claimable
claimable-MayRun cap rows a h = record {
  waits = pending_of_is_pending a.status (ground arith);
  no_barrier = λ other x e r m o. cc (
    blocks_of x r o,
    any-eq_false (blocks x) r rows (barrier_of_passes rows a (ground arith) other x e) m,
  );
  has_room = room_of_under cap rows a (ground arith);
}

pub MayRun-claimable :
    (cap : Option ℕ) (rows : List Analysis) (a : Analysis)
    → MayRun cap rows a
    → is_claimable cap rows a ≡ true
unfolding is_claimable is_pending
MayRun-claimable cap rows a m =
    let gate = passes_of_barrier rows a (λ other x e. any-eq_false_of (blocks x) rows (λ r i.
      elim (Bool-cases (blocks x r)) [
        | inl b ↦ absurd (m.no_barrier other x e r i (outstanding_of_blocks x r b))
        | inr b ↦ b
      ])) in
    ground (arith, gate, under_of_room cap rows a m.has_room)

-- With a resolved cap, the query returns a row exactly when it is a row of the table that waits, that
-- no outstanding CLEANUP of its artefact holds back, unless it is a CLEANUP itself, and that is not
-- heavy or finds fewer heavy jobs running than the cap.
pub pending_claimable_query_iff :
    (cap : Option ℕ) (rows : List Analysis) (a : Analysis)
    → (eligible : List Analysis) × (pending_claimable_query true (ok cap) rows ≡ ok eligible)
      × (Mem a eligible ↔ (Mem a rows × MayRun cap rows a))
unfolding pending_claimable_query
pending_claimable_query_iff cap rows a = (
  select (is_claimable cap rows) rows,
  refl,
  (
    (λ m.
        let r = mem_of_mem-select (is_claimable cap rows) a rows m in
        (r.0, claimable-MayRun cap rows a r.1)),
    (λ m. mem-select (is_claimable cap rows) a rows m.0 (MayRun-claimable cap rows a m.1)),
  ),
)

count_zero :
    (rows : List Analysis) (n : ℕ)
    → count is_running_heavy rows ≡ 0
    → 1 ≤ n
    → ltb (count is_running_heavy rows) n ≡ true
count_zero rows n z h = ground arith

-- A cap that lets one job run starves nobody: while no heavy job runs, the capped query returns what
-- the query with no cap returns.
no_starvation :
    (n : ℕ) (rows : List Analysis)
    → 1 ≤ n
    → count is_running_heavy rows ≡ 0
    → pending_claimable_query true (ok (some n)) rows
      ≡ pending_claimable_query false (ok (some n)) rows
unfolding pending_claimable_query is_claimable under_cap
no_starvation n rows h z = ap ok (go rows)
  where
    go :
        (xs : List Analysis)
        → select (is_claimable (some n) rows) xs ≡ select (is_claimable none rows) xs
    go [] = refl
    go (a ∷ xs) = ground (arith, count_zero rows n z h, go xs)
