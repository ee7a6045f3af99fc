-- ===== src/Visibility/Share.antt =====
-- _accessible_via_share_subquery: the recursive query as a relation, and that the walk up the parent
-- chain of _has_share_access finds the same items.
use mathlib.Core.Logic.Or
use arcology.Base.{
  ℕ, zero, suc, ◌-◌, ◌≤◌, ◌<◌, ◌≡◌, refl, ap, inl, inr, ◌↔◌, true, false, ◌||◌, Option, none, some,
  List, [], ◌∷◌, map, Mem, mem-cons, not-mem-nil, arith, any, select, Bool-cases, Option-cases,
  ◌==◌,
}
use arcology.Base.Select.{Bool-set, any-eq_true_of, any-witness, any-append}
use arcology.Visibility.{
  viewer, ItemShare, Db, ancestors, grants, contains, contains_id, chain_ids, group_ids,
  is_direct_share, is_group_share, is_nil, share_access, has_share_access,
}

-- A share row that is an anchor of the query for the user `uid`: to the user, or to a group of theirs.
pub data IsAnchor (db : Db) (uid : ℕ) (s : ItemShare) : Type 0 where
  direct : s.user_id ≡ some uid → IsAnchor db uid s
  via_group : (g : ℕ) → s.group_id ≡ some g → Mem (uid, g) db.group_memberships → IsAnchor db uid s

-- The ids that the recursive query yields: anchors, and the children of what it has yielded.
pub data Accessible (db : Db) (uid : ℕ) : ℕ → Type 0 where
  anchor :
      {id : ℕ} (s : ItemShare)
      → Mem s db.shares
      → s.item_id ≡ id
      → IsAnchor db uid s
      → Accessible db uid id
  child :
      {id : ℕ} (p : ℕ)
      → (db.item id).parent_id ≡ some p
      → Accessible db uid p
      → Accessible db uid id

-- The parent links make a forest: along each the rank falls, and `depth` is enough to walk up.
pub record IsForest (db : Db) (rank : ℕ → ℕ) : Type 0 where
  pub falls : (id p : ℕ) → (db.item id).parent_id ≡ some p → rank p < rank id
  pub bounded : (id : ℕ) → rank id ≤ db.depth

-- A share row that the walk from `id` meets.
record IsMet (db : Db) (uid id : ℕ) (s : ItemShare) : Type 0 where
  member : Mem s db.shares
  on_chain : contains (chain_ids db id) s.item_id ≡ true
  is_anchor : IsAnchor db uid s

module _ (db : Db) (uid : ℕ) where
  contains_parent :
      (n id p x : ℕ)
      → (db.item id).parent_id ≡ some p
      → contains (id ∷ ancestors db.item (suc n) id) x
        ≡ (id == x || contains (p ∷ ancestors db.item n p) x)
  unfolding ancestors
  contains_parent n id p x q =
      rw (q, ancestors) (ground (arith, any-append (λ m. m == x) (ancestors db.item n p) (p ∷ [])))

  Accessible-up :
      (n id x : ℕ)
      → contains (id ∷ ancestors db.item n id) x ≡ true
      → Accessible db uid x
      → Accessible db uid id
  unfolding ancestors
  Accessible-up zero id x h a = let e : x ≡ id = ground arith in rw e at a
  Accessible-up (suc n) id x h a = elim (Bool-cases (id == x)) [
    | inl e ↦ let e' : x ≡ id = ground arith in rw e' at a
    | inr e ↦ elim (Option-cases (db.item id).parent_id) [
      | inl root ↦ cc (e, rw (root, ancestors) at h)
      | inr (p, q) ↦
          child p q
            (Accessible-up n p x (ground (arith, rw (contains_parent n id p x q) at h, e)) a)
    ]
  ]

  ancestors_stable :
      (rank : ℕ → ℕ)
      → ((id p : ℕ) → (db.item id).parent_id ≡ some p → rank p < rank id)
      → (n m id : ℕ) → rank id ≤ n
      → rank id ≤ m
      → ancestors db.item n id ≡ ancestors db.item m id
  unfolding ancestors
  ancestors_stable rank falls zero zero id h k = refl
  ancestors_stable rank falls (suc n) (suc m) id h k = elim (Option-cases (db.item id).parent_id) [
    | inl root ↦ rw (root, ancestors)
    | inr (p, q) ↦
        let f = falls id p q in
        rw (q, ancestors) (rw (ancestors_stable rank falls n m p (omega arith) (omega arith)))
  ]
  ancestors_stable rank falls zero (suc m) id h k = elim (Option-cases (db.item id).parent_id) [
    | inl root ↦ rw (root, ancestors)
    | inr (p, q) ↦ let f = falls id p q in absurd (omega arith)
  ]
  ancestors_stable rank falls (suc n) zero id h k = elim (Option-cases (db.item id).parent_id) [
    | inl root ↦ rw (root, ancestors)
    | inr (p, q) ↦ let f = falls id p q in absurd (omega arith)
  ]

  chain_up :
      (rank : ℕ → ℕ) (forest : IsForest db rank) (id p x : ℕ)
      → (db.item id).parent_id ≡ some p
      → contains (chain_ids db p) x ≡ true
      → contains (chain_ids db id) x ≡ true
  chain_up rank forest id p x q h =
      let f = forest.falls id p q in
      let b = forest.bounded id in
      let d : db.depth ≡ suc (db.depth - 1) = omega arith in
      let same =
        ancestors_stable rank forest.falls (db.depth - 1) db.depth p (omega arith) (omega arith) in
      rw d (rw (contains_parent (db.depth - 1) id p x q) (rw same (ground (arith, h))))

  -- An item that the query yields has a share row on its own chain.
  found :
      (rank : ℕ → ℕ) (forest : IsForest db rank) (id : ℕ)
      → Accessible db uid id
      → (s : ItemShare) × IsMet db uid id s
  found rank forest id (anchor s m e k) =
      (s, record { member = m; on_chain = ground (arith, e); is_anchor = k })
  found rank forest id (child p q a) =
      let (s, met) = found rank forest p a in
      (
        s,
        record {
          member = met.member;
          on_chain = chain_up rank forest id p s.item_id q met.on_chain;
          is_anchor = met.is_anchor;
        },
      )

  memberships_of :
      (g : ℕ) → Mem (uid, g) db.group_memberships → contains (group_ids db uid) g ≡ true
  memberships_of g m = go db.group_memberships m
    where
      go :
          (rows : List (ℕ × ℕ))
          → Mem (uid, g) rows
          → contains (map (λ r. r.1) (select (λ (r : ℕ × ℕ). r.0 == uid) rows)) g ≡ true
      go [] m = absurd (not-mem-nil m)
      go ((u, k) ∷ rows) m =
          Or.elim (Bool-set _ _) (mem-cons.0 m)
            (λ e. ground (arith, ap (λ (r : ℕ × ℕ). r.0) e, ap (λ (r : ℕ × ℕ). r.1) e))
            (λ r. ground (arith, go rows r))

  of_memberships :
      (g : ℕ) → contains (group_ids db uid) g ≡ true → Mem (uid, g) db.group_memberships
  of_memberships g h = go db.group_memberships h
    where
      go :
          (rows : List (ℕ × ℕ))
          → contains (map (λ r. r.1) (select (λ (r : ℕ × ℕ). r.0 == uid) rows)) g ≡ true
          → Mem (uid, g) rows
      go [] h = cc
      go ((u, k) ∷ rows) h = elim (Bool-cases (u == uid)) [
        | inl e ↦ elim (Bool-cases (k == g)) [
          | inl f ↦ mem-cons.1 (Or.inl (ground arith))
          | inr f ↦ mem-cons.1 (Or.inr (go rows (ground arith)))
        ]
        | inr e ↦ mem-cons.1 (Or.inr (go rows (ground arith)))
      ]

  not_nil : (ids : List ℕ) (g : ℕ) → contains ids g ≡ true → is_nil ids ≡ false
  not_nil [] g h = cc
  not_nil (x ∷ ids) g h = refl

  shared_of_met :
      (id : ℕ) (s : ItemShare) → IsMet db uid id s → share_access db id uid viewer ≡ true
  unfolding share_access grants
  shared_of_met id s met = elim met.is_anchor [
    | direct e ↦ ground (
      arith,
      any-eq_true_of (is_direct_share (chain_ids db id) uid viewer) s db.shares met.member
          (ground (arith, met.on_chain)),
    )
    | via_group g e m ↦
        let in_group = memberships_of g m in
        ground (
          arith,
          not_nil (group_ids db uid) g in_group,
          any-eq_true_of (is_group_share (chain_ids db id) (group_ids db uid) viewer) s db.shares
              met.member (ground (arith, met.on_chain)),
        )
  ]

  of_group :
      (groups : List ℕ) (o : Option ℕ)
      → contains_id groups o ≡ true
      → (g : ℕ) × (o ≡ some g) × (contains groups g ≡ true)
  of_group groups none h = cc
  of_group groups (some g) h = (g, refl, h)

  Accessible-of_shared : (id : ℕ) → share_access db id uid viewer ≡ true → Accessible db uid id
  unfolding share_access grants
  Accessible-of_shared id h =
      elim (Bool-cases (any (is_direct_share (chain_ids db id) uid viewer) db.shares)) [
        | inl d ↦
            let (s, m, t) =
              any-witness (is_direct_share (chain_ids db id) uid viewer) db.shares d in
            Accessible-up db.depth id s.item_id (ground arith)
              (anchor s m refl (direct (ground arith)))
        | inr d ↦
            let (s, m, t) =
              any-witness (is_group_share (chain_ids db id) (group_ids db uid) viewer) db.shares
                (ground arith) in
            let (g, e, k) = of_group (group_ids db uid) s.group_id (ground arith) in
            Accessible-up db.depth id s.item_id (ground arith)
              (anchor s m refl (via_group g e (of_memberships g k)))
      ]

-- In a forest of items, a user has a viewer share on an item or an ancestor exactly when the recursive
-- query of the list filters yields the item for the user.
pub has_share_access_iff :
    (db : Db) (rank : ℕ → ℕ) (uid id : ℕ)
    → IsForest db rank
    → (has_share_access db id (some uid) viewer ≡ true) ↔ Accessible db uid id
unfolding has_share_access
has_share_access_iff db rank uid id forest = (
  Accessible-of_shared db uid id,
  (λ a. let (s, met) = found db uid rank forest id a in shared_of_met db uid id s met),
)
