-- ===== src/Visibility/Levels.antt =====
-- How the permissions of myapp/visibility.py order: the share levels, what each check implies, and what
-- no permission overrides.
use arcology.Base.{
  ℕ, ◌≡◌, refl, Bool, true, false, not, ◌&&◌, ◌||◌, Option, none, some, arith, any, Bool-cases,
  Option-cases, ◌≤◌, inl, inr,
}
use arcology.Base.Select.{any-eq_true_of, any-witness}
use arcology.Visibility.{
  Level, viewer, editor, curator, Db, Artefact, Caller, nobody, anonymous, signed_in, is_admin,
  is_owner, grants, share_access, has_share_access, has_level, can_claim_item, can_manage_shares,
  can_manage_privacy, can_view_item, can_contribute_to_item, can_curate_item, can_view_artefact,
  is_direct_share, is_group_share, chain_ids, group_ids,
}

abbrev pub rank : Level → ℕ
rank viewer = 0
rank editor = 1
rank curator = 2

grants-rank :
    (low high permission : Level)
    → rank low ≤ rank high
    → grants high permission ≡ true
    → grants low permission ≡ true
unfolding grants
grants-rank viewer high permission h g = refl
grants-rank editor viewer permission h g = absurd (omega arith)
grants-rank editor editor permission h g = g
grants-rank editor curator viewer h g = g
grants-rank editor curator editor h g = refl
grants-rank editor curator curator h g = refl
grants-rank curator viewer permission h g = absurd (omega arith)
grants-rank curator editor permission h g = absurd (omega arith)
grants-rank curator curator permission h g = g

module _ (db : Db) (id : ℕ) where
  share_access-rank :
      (uid : ℕ) (low high : Level)
      → rank low ≤ rank high
      → share_access db id uid high ≡ true
      → share_access db id uid low ≡ true
  unfolding share_access
  share_access-rank uid low high h g =
      elim (Bool-cases (any (is_direct_share (chain_ids db id) uid high) db.shares)) [
        | inl d ↦
            let (s, m, t) = any-witness (is_direct_share (chain_ids db id) uid high) db.shares d in
            ground (
              arith,
              grants-rank low high s.permission h,
              any-eq_true_of (is_direct_share (chain_ids db id) uid low) s db.shares m,
            )
        | inr d ↦
            let (s, m, t) =
              any-witness (is_group_share (chain_ids db id) (group_ids db uid) high) db.shares
                (ground arith) in
            ground (
              arith,
              grants-rank low high s.permission h,
              any-eq_true_of (is_group_share (chain_ids db id) (group_ids db uid) low) s db.shares
                  m,
            )
      ]

  -- Whoever has share access to an item at one level has it at every lower level.
  pub has_share_access-rank :
      (o : Option ℕ) (low high : Level)
      → rank low ≤ rank high
      → has_share_access db id o high ≡ true
      → has_share_access db id o low ≡ true
  unfolding has_share_access
  has_share_access-rank none low high h g = cc
  has_share_access-rank (some uid) low high h g = share_access-rank uid low high h g

  -- Whoever may curate an item may contribute to it.
  pub can_contribute_to_item-curator :
      (user : Caller) (sees_all : Bool)
      → can_curate_item db id user sees_all ≡ true
      → can_contribute_to_item db id user sees_all ≡ true
  unfolding has_level can_curate_item can_contribute_to_item
  can_contribute_to_item-curator nobody sees_all h = h
  can_contribute_to_item-curator anonymous sees_all h = h
  can_contribute_to_item-curator (signed_in u) sees_all h =
      ground (arith, has_share_access-rank (some u.id) editor curator (omega arith))

  -- Whoever may contribute to an item that is not queued for deletion may view it.
  pub can_view_item-contributor :
      (user : Caller) (sees_all : Bool)
      → (db.item id).pending_deletion ≡ false
      → can_contribute_to_item db id user sees_all ≡ true
      → can_view_item db id user sees_all ≡ true
  unfolding has_level can_view_item can_contribute_to_item is_owner
  can_view_item-contributor nobody sees_all p h = ground arith
  can_view_item-contributor anonymous sees_all p h = ground arith
  can_view_item-contributor (signed_in u) sees_all p h =
      ground (arith, has_share_access-rank (some u.id) viewer editor (omega arith))

  -- Whoever may claim an item may toggle its privacy, and unless an administrator, may not manage its
  -- shares.
  pub can_claim_item_lem :
      (user : Caller)
      → can_claim_item db id user ≡ true
      → (can_manage_privacy (db.item id).owner_id user
          && (is_admin user || not (can_manage_shares db id user)))
        ≡ true
  unfolding can_claim_item can_manage_privacy can_manage_shares is_owner
  can_claim_item_lem nobody h = cc
  can_claim_item_lem anonymous h = cc
  can_claim_item_lem (signed_in u) h = elim (Option-cases (db.item id).owner_id) [
    | inl e ↦ let h' = rw e at h in rw e (ground arith)
    | inr (n, e) ↦ cc (rw e at h)
  ]

  -- Whoever may view an artefact of an item may view the item: owning the artefact alone does not
  -- open a private item.
  pub can_view_artefact-can_view_item :
      (a : Artefact) (user : Caller) (sees_all : Bool)
      → a.item_id ≡ some id
      → can_view_artefact db a user sees_all ≡ true
      → can_view_item db id user sees_all ≡ true
  unfolding can_view_artefact can_view_item
  can_view_artefact-can_view_item a nobody sees_all q h = ground arith
  can_view_artefact-can_view_item a anonymous sees_all q h = ground arith
  can_view_artefact-can_view_item a (signed_in u) sees_all q h = let h' = rw q at h in ground arith
