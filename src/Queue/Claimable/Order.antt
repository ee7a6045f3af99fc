-- ===== src/Queue/Claimable/Order.antt =====
-- ORDER BY priority DESC, created_at: the rows come sorted, and none is lost or made up.
use mathlib.Core.List.{Perm}
use mathlib.Core.List.Perm
use mathlib.Core.Logic.Or
use arcology.Base.{
  ◌≡◌, refl, inl, inr, true, false, none, some, List, [], ◌∷◌, Mem, mem-cons, not-mem-nil, arith,
  Bool-cases, All, select,
}
use arcology.Base.Select.{Bool-set, mem_of_mem-select, mem-select}
use arcology.Enums.{is_control_plane}
use arcology.Queue.{Analysis}
use arcology.Queue.Claimable.{before, insert, order_by, first, is_claimable, candidate}
use arcology.Queue.Claimable.Barrier.{MayRun, claimable-MayRun, MayRun-claimable}

-- Each row comes before no row that stands in front of it.
abbrev pub IsOrdered : List Analysis → Type 0
IsOrdered [] = Unit
IsOrdered (a ∷ rest) = All (λ b. before b a ≡ false) rest × IsOrdered rest

before_trans : (a b c : Analysis) → before b a ≡ false → before c b ≡ false → before c a ≡ false
before_trans a b c h k = ground arith

before_asym : (a b : Analysis) → before b a ≡ true → before a b ≡ false
before_asym a b h = ground arith

before_irrefl : (a : Analysis) → before a a ≡ false
before_irrefl a = ground arith

All-weaken :
    (a b : Analysis) (rest : List Analysis)
    → before b a ≡ false
    → All (λ c. before c b ≡ false) rest
    → All (λ c. before c a ≡ false) rest
All-weaken a b [] h k = tt
All-weaken a b (c ∷ rest) h (k, ks) = (before_trans a b c h k, All-weaken a b rest h ks)

All-insert :
    (a x : Analysis) (rest : List Analysis)
    → before x a ≡ false
    → All (λ c. before c a ≡ false) rest
    → All (λ c. before c a ≡ false) (insert x rest)
unfolding insert
All-insert a x [] h k = (h, tt)
All-insert a x (c ∷ rest) h (k, ks) = elim (Bool-cases (before c x)) [
  | inl e ↦ rw e (k, All-insert a x rest h ks)
  | inr e ↦ rw e (h, (k, ks))
]

insert-IsOrdered :
    (x : Analysis) (rest : List Analysis) → IsOrdered rest → IsOrdered (insert x rest)
unfolding insert
insert-IsOrdered x [] o = (tt, tt)
insert-IsOrdered x (c ∷ rest) (k, o) = elim (Bool-cases (before c x)) [
  | inl e ↦ rw e (All-insert c x rest (before_asym x c e) k, insert-IsOrdered x rest o)
  | inr e ↦ rw e ((e, All-weaken x c rest e k), (k, o))
]

insert-perm : (x : Analysis) (rest : List Analysis) → Perm (insert x rest) (x ∷ rest)
unfolding insert
insert-perm x [] = Perm.refl (x ∷ [])
insert-perm x (c ∷ rest) = elim (Bool-cases (before c x)) [
  | inl e ↦ rw e (Perm.trans (Perm.cons c (insert-perm x rest)) (Perm.swap x c rest))
  | inr e ↦ rw e (Perm.refl (x ∷ c ∷ rest))
]

-- The ordered rows are sorted by falling priority, then by rising creation time, and are a
-- permutation of the rows.
order_by_lem : (rows : List Analysis) → IsOrdered (order_by rows) × Perm (order_by rows) rows
unfolding order_by
order_by_lem [] = (tt, Perm.refl [])
order_by_lem (a ∷ rows) =
    let (o, p) = order_by_lem rows in
    (
      insert-IsOrdered a (order_by rows) o,
      Perm.trans (insert-perm a (order_by rows)) (Perm.cons a p),
    )

All-mem :
    (a b : Analysis) (rest : List Analysis)
    → All (λ c. before c a ≡ false) rest
    → Mem b rest
    → before b a ≡ false
All-mem a b [] h m = absurd (not-mem-nil m)
All-mem a b (c ∷ rest) (h, hs) m =
    Or.elim (Bool-set _ _) (mem-cons.0 m) (λ e. rw e h) (All-mem a b rest hs)

first_of :
    (rows : List Analysis) (c : Analysis)
    → first rows ≡ some c
    → (rest : List Analysis) × (rows ≡ c ∷ rest)
first_of [] c h = cc
first_of (a ∷ rest) c h = (rest, cc)

-- The candidate of the task runner is a row of the table that may run under no cap and that the task
-- runner owns.
pub candidate-MayRun :
    (rows : List Analysis) (c : Analysis)
    → candidate rows ≡ some c
    → Mem c rows × MayRun none rows c × (is_control_plane c.analysis_type ≡ true)
unfolding candidate
candidate-MayRun rows c h =
    let eligible = select (is_claimable none rows) rows in
    let owned = select (λ (a : Analysis). is_control_plane a.analysis_type) eligible in
    let (rest, e) = first_of (order_by owned) c h in
    let i = (Perm.mem_iff (order_by_lem owned).1).0 (rw e (mem-cons.1 (Or.inl refl))) in
    let (j, control) = mem_of_mem-select _ c eligible i in
    let (k, may) = mem_of_mem-select _ c rows j in (k, claimable-MayRun none rows c may, control)

-- No row that the task runner could claim instead has a higher priority, or the same priority and an
-- earlier creation time.
candidate_first :
    (rows : List Analysis) (c b : Analysis)
    → candidate rows ≡ some c
    → Mem b rows
    → MayRun none rows b
    → is_control_plane b.analysis_type ≡ true
    → before b c ≡ false
unfolding candidate
candidate_first rows c b h m may control =
    let eligible = select (is_claimable none rows) rows in
    let owned = select (λ (a : Analysis). is_control_plane a.analysis_type) eligible in
    let (rest, e) = first_of (order_by owned) c h in
    let i =
      mem-select (λ (a : Analysis). is_control_plane a.analysis_type) b eligible
        (mem-select (is_claimable none rows) b rows m (MayRun-claimable none rows b may)) control in
    let j = rw e at ((Perm.mem_iff (order_by_lem owned).1).1 i) in
    let (o, p) = order_by_lem owned in
    Or.elim (Bool-set _ _) (mem-cons.0 j) (λ q. rw q (before_irrefl c))
      (All-mem c b rest (rw e at o).0)
