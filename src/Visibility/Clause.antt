-- ===== src/Visibility/Clause.antt =====
-- item_visibility_clause and artefact_visibility_clause: the list filters as predicates on a row, and
-- that they pass exactly what the checks on single objects pass.
use arcology.Base.{
  ℕ, ◌≡◌, ◌⊎◌, inl, inr, ◌↔◌, Bool, true, false, not, ◌||◌, Option, none, some, arith, Bool-cases,
  if◌then◌else◌,
}
use arcology.Visibility.{
  viewer, Db, Artefact, Caller, nobody, anonymous, signed_in, is_admin, user_id, is_id,
  has_share_access, can_view_item, can_view_artefact,
}
use arcology.Visibility.Share.{Accessible, IsForest, has_share_access_iff}

-- The condition behind `not_pending` for a caller with this id, who is not exempt.
abbrev pub PassesForUser : Db → ℕ → Option ℕ → Type 0
PassesForUser db id none = (db.item id).private_effective ≡ false
PassesForUser db id (some uid) =
    ((db.item id).private_effective ≡ false)
    ⊎ ((db.item id).owner_id ≡ some uid)
    ⊎ Accessible db uid id

-- item_visibility_clause, on the row of the item `id`.
abbrev pub ItemClause : Db → ℕ → Caller → Bool → Type 0
ItemClause db id user sees_all =
    ((db.item id).pending_deletion ≡ false)
    × (if sees_all || is_admin user then Unit {0} else PassesForUser db id (user_id user))

-- The condition behind `not_pending` on an artefact joined to its item `id`.
abbrev pub JoinPassesForUser : Db → ℕ → Artefact → Option ℕ → Type 0
JoinPassesForUser db id a none = (a.is_private ≡ false) × ((db.item id).private_effective ≡ false)
JoinPassesForUser db id a (some uid) =
    ((a.is_private ≡ false) × ((db.item id).private_effective ≡ false))
    ⊎ ((db.item id).owner_id ≡ some uid)
    ⊎ (((db.item id).private_effective ≡ true) × Accessible db uid id)
    ⊎ (((db.item id).private_effective ≡ false) × (a.owner_id ≡ some uid))

-- artefact_visibility_clause.
abbrev pub ArtefactClause : Db → ℕ → Artefact → Caller → Bool → Type 0
ArtefactClause db id a user sees_all =
    ((a.pending_deletion ≡ false) × ((db.item id).pending_deletion ≡ false))
    × (if sees_all || is_admin user then Unit {0} else JoinPassesForUser db id a (user_id user))

module _ (db : Db) (rank : ℕ → ℕ) (forest : IsForest db rank) where
  share_of : (uid id : ℕ) → Accessible db uid id → has_share_access db id (some uid) viewer ≡ true
  share_of uid id = (has_share_access_iff db rank uid id forest).1

  access_of : (uid id : ℕ) → has_share_access db id (some uid) viewer ≡ true → Accessible db uid id
  access_of uid id = (has_share_access_iff db rank uid id forest).0

  owner_of : (o : Option ℕ) (uid : ℕ) → is_id o uid ≡ true → o ≡ some uid
  owner_of none uid h = cc
  owner_of (some n) uid h = ground arith

  is_owner_of : (o : Option ℕ) (uid : ℕ) → o ≡ some uid → is_id o uid ≡ true
  is_owner_of none uid h = cc
  is_owner_of (some n) uid h = ground arith

  -- What a signed-in user who is not exempt may see of an item, and what the filter says of the row.
  passes_of :
      (id uid : ℕ)
      → (not (db.item id).private_effective
          || is_id (db.item id).owner_id uid
          || has_share_access db id (some uid) viewer)
        ≡ true
      → PassesForUser db id (some uid)
  passes_of id uid h = elim (Bool-cases (db.item id).private_effective) [
    | inr e ↦ inl e
    | inl e ↦ elim (Bool-cases (is_id (db.item id).owner_id uid)) [
      | inl o ↦ inr (inl (owner_of (db.item id).owner_id uid o))
      | inr o ↦ inr (inr (access_of uid id (ground arith)))
    ]
  ]

  of_passes :
      (id uid : ℕ)
      → PassesForUser db id (some uid)
      → (not (db.item id).private_effective
          || is_id (db.item id).owner_id uid
          || has_share_access db id (some uid) viewer)
        ≡ true
  of_passes id uid (inl e) = ground arith
  of_passes id uid (inr (inl o)) = ground (arith, is_owner_of (db.item id).owner_id uid o)
  of_passes id uid (inr (inr a)) = ground (arith, share_of uid id a)

  -- An item passes the list filter exactly when the check on the single item passes, for every caller,
  -- exempt or not, in a forest of items.
  pub can_view_item_iff :
      (id : ℕ) (user : Caller) (sees_all : Bool)
      → (can_view_item db id user sees_all ≡ true) ↔ ItemClause db id user sees_all
  unfolding can_view_item
  can_view_item_iff id user true = ground arith
  can_view_item_iff id nobody false = ground arith
  can_view_item_iff id anonymous false = ground arith
  can_view_item_iff id (signed_in u) false = elim (Bool-cases u.is_admin) [
    | inl e ↦ ground arith
    | inr e ↦ (
      (λ h. (ground arith, rw e (passes_of id u.id (ground arith)))),
      (λ c. let p = of_passes id u.id (rw e at c.1) in ground arith),
    )
  ]

  -- The same for an artefact, by the flags of the artefact and of its item.
  join_passes_of :
      (id : ℕ) (a : Artefact) (uid : ℕ)
      → (not (a.is_private || (db.item id).private_effective)
          || (if (db.item id).private_effective
              then is_id (db.item id).owner_id uid || has_share_access db id (some uid) viewer
              else is_id a.owner_id uid || is_id (db.item id).owner_id uid))
        ≡ true
      → JoinPassesForUser db id a (some uid)
  join_passes_of id a uid h = elim (Bool-cases (is_id (db.item id).owner_id uid)) [
    | inl o ↦ inr (inl (owner_of (db.item id).owner_id uid o))
    | inr o ↦ elim (Bool-cases (db.item id).private_effective) [
      | inl e ↦ inr (inr (inl (e, access_of uid id (ground arith))))
      | inr e ↦ elim (Bool-cases a.is_private) [
        | inl f ↦ inr (inr (inr (e, owner_of a.owner_id uid (ground arith))))
        | inr f ↦ inl (f, e)
      ]
    ]
  ]

  of_join_passes :
      (id : ℕ) (a : Artefact) (uid : ℕ)
      → JoinPassesForUser db id a (some uid)
      → (not (a.is_private || (db.item id).private_effective)
          || (if (db.item id).private_effective
              then is_id (db.item id).owner_id uid || has_share_access db id (some uid) viewer
              else is_id a.owner_id uid || is_id (db.item id).owner_id uid))
        ≡ true
  of_join_passes id a uid (inl (f, e)) = ground arith
  of_join_passes id a uid (inr (inl o)) = ground (arith, is_owner_of (db.item id).owner_id uid o)
  of_join_passes id a uid (inr (inr (inl (e, s)))) = ground (arith, share_of uid id s)
  of_join_passes id a uid (inr (inr (inr (e, o)))) = ground (arith, is_owner_of a.owner_id uid o)

  -- An artefact of an item passes the list filter exactly when the check on the single artefact passes,
  -- for every caller, exempt or not, in a forest of items.
  pub can_view_artefact_iff :
      (id : ℕ) (a : Artefact) (user : Caller) (sees_all : Bool)
      → a.item_id ≡ some id
      → (can_view_artefact db a user sees_all ≡ true) ↔ ArtefactClause db id a user sees_all
  unfolding can_view_artefact
  can_view_artefact_iff id a user true q = ground arith
  can_view_artefact_iff id a nobody false q = ground arith
  can_view_artefact_iff id a anonymous false q = ground arith
  can_view_artefact_iff id a (signed_in u) false q = elim (Bool-cases u.is_admin) [
    | inl e ↦ ground arith
    | inr e ↦ (
      (λ h.
          let h' = rw q at h in
          ((ground arith, ground arith), rw e (join_passes_of id a u.id (ground arith)))),
      (λ c. let p = of_join_passes id a u.id (rw e at c.1) in rw q (ground arith)),
    )
  ]
