-- ===== src/Visibility.antt =====
-- myapp/visibility.py: who may see, change and share an item, and who may see an artefact. The tables
-- that the checks read are a value of `Db`. Classes Item, Artefact, User and ItemShare are those of
-- myapp/database.py, with the columns that the checks read.
pub mod Share
pub mod Clause
pub mod Levels
use arcology.Base.{
  ℕ, zero, suc, Bool, true, false, not, ◌&&◌, ◌||◌, Option, none, some, List, [], ◌∷◌, ◌++◌, map,
  any, select, ◌==◌, if◌then◌else◌,
}

-- SHARE_PERMISSIONS
pub data Level : Type 0 where
  viewer editor curator : Level

pub record ItemShare : Type 0 where
  pub item_id : ℕ
  pub user_id : Option ℕ
  pub group_id : Option ℕ
  pub permission : Level

pub record Item : Type 0 where
  pub parent_id : Option ℕ
  pub private_effective : Bool
  pub owner_id : Option ℕ
  pub pending_deletion : Bool

pub record Artefact : Type 0 where
  pub item_id : Option ℕ
  pub is_private : Bool
  pub owner_id : Option ℕ
  pub pending_deletion : Bool

pub record User : Type 0 where
  pub id : ℕ
  pub is_admin : Bool

-- `user`: None, an anonymous user, or a signed-in one.
pub data Caller : Type 0 where
  nobody : Caller
  anonymous : Caller
  signed_in : User → Caller

-- Items by id, the shares, and the rows (user, group) of group_memberships. `depth` bounds the walk
-- up the parent chain.
pub record Db : Type 0 where
  pub item : ℕ → Item
  pub shares : List ItemShare
  pub group_memberships : List (ℕ × ℕ)
  pub depth : ℕ

abbrev pub is_authenticated : Caller → Bool
is_authenticated (signed_in u) = true
is_authenticated _ = false

abbrev pub is_admin : Caller → Bool
is_admin (signed_in u) = u.is_admin
is_admin _ = false

abbrev pub user_id : Caller → Option ℕ
user_id (signed_in u) = some u.id
user_id _ = none

-- `a == uid` for a nullable column.
abbrev pub is_id : Option ℕ → ℕ → Bool
is_id none uid = false
is_id (some n) uid = n == uid

-- `owner_id == uid` of *obj*, an item or an artefact, by its owner.
unfoldable pub is_owner : Option ℕ → Caller → Bool
is_owner owner user = elim (user_id user) [ none ↦ false | some uid ↦ is_id owner uid ]

abbrev pub is_unowned : Option ℕ → Bool
is_unowned none = true
is_unowned (some n) = false

unfoldable pub can_manage_privacy : Option ℕ → Caller → Bool
unfolding is_owner
can_manage_privacy owner user =
    is_admin user || is_owner owner user || is_unowned owner && is_authenticated user

unfoldable pub can_change_owner : Option ℕ → Caller → Bool
unfolding is_owner
can_change_owner owner user = is_admin user || is_owner owner user

-- Item.ancestors: [root, ..., parent].
unfoldable pub ancestors : (ℕ → Item) → ℕ → ℕ → List ℕ
ancestors item zero id = []
ancestors item (suc n) id = elim (item id).parent_id [
  | none ↦ []
  | some p ↦ ancestors item n p ++ p ∷ []
]

-- _share_permission_filter
unfoldable pub grants : Level → Level → Bool
grants viewer permission = true
grants editor editor = true
grants editor curator = true
grants curator curator = true
grants _ _ = false

abbrev pub contains : List ℕ → ℕ → Bool
contains ids n = any (λ m. m == n) ids

abbrev pub contains_id : List ℕ → Option ℕ → Bool
contains_id ids none = false
contains_id ids (some n) = contains ids n

abbrev pub chain_ids : Db → ℕ → List ℕ
chain_ids db id = id ∷ ancestors db.item db.depth id

abbrev pub group_ids : Db → ℕ → List ℕ
group_ids db uid = map (λ r. r.1) (select (λ (r : ℕ × ℕ). r.0 == uid) db.group_memberships)

abbrev pub is_direct_share : List ℕ → ℕ → Level → ItemShare → Bool
is_direct_share chain uid level s =
    contains chain s.item_id && is_id s.user_id uid && grants level s.permission

abbrev pub is_group_share : List ℕ → List ℕ → Level → ItemShare → Bool
is_group_share chain groups level s =
    contains chain s.item_id && contains_id groups s.group_id && grants level s.permission

abbrev pub is_nil : List ℕ → Bool
is_nil [] = true
is_nil (x ∷ xs) = false

-- _has_share_access
share_access : Db → ℕ → ℕ → Level → Bool
share_access db id uid level =
    if any (is_direct_share (chain_ids db id) uid level) db.shares
    then true
    else if is_nil (group_ids db uid)
    then false
    else any (is_group_share (chain_ids db id) (group_ids db uid) level) db.shares

unfoldable pub has_share_access : Db → ℕ → Option ℕ → Level → Bool
unfolding share_access
has_share_access db id none level = false
has_share_access db id (some uid) level = share_access db id uid level

unfoldable pub can_claim_item : Db → ℕ → Caller → Bool
unfolding has_share_access
can_claim_item db id user =
    if not (is_authenticated user)
    then false
    else if not (is_unowned (db.item id).owner_id)
    then false
    else if is_admin user
    then true
    else not (has_share_access db id (user_id user) curator)

unfoldable pub can_manage_shares : Db → ℕ → Caller → Bool
unfolding is_owner has_share_access
can_manage_shares db id user =
    is_admin user
    || is_owner (db.item id).owner_id user
    || has_share_access db id (user_id user) curator

-- The flag is `sees_all`.
unfoldable pub can_view_item : Db → ℕ → Caller → Bool → Bool
can_view_item db id user sees_all =
    let item = db.item id in
    if item.pending_deletion
    then false
    else if not item.private_effective
    then true
    else if sees_all || is_admin user
    then true
    else elim (user_id user) [
      | none ↦ false
      | some uid ↦ is_id item.owner_id uid || has_share_access db id (some uid) viewer
    ]

-- The body that can_contribute_to_item and can_curate_item share, at their share level.
has_level : Level → Db → ℕ → Caller → Bool → Bool
unfolding is_owner
has_level level db id user sees_all =
    if sees_all || is_admin user || is_owner (db.item id).owner_id user
    then true
    else elim (user_id user) [
      | none ↦ false
      | some uid ↦ (db.item id).private_effective && has_share_access db id (some uid) level
    ]

unfoldable pub can_contribute_to_item : Db → ℕ → Caller → Bool → Bool
unfolding has_level
can_contribute_to_item = has_level editor

unfoldable pub can_curate_item : Db → ℕ → Caller → Bool → Bool
unfolding has_level
can_curate_item = has_level curator

-- Artefact.effective_private, and the fields read through `artefact.item`, which may be None.
abbrev pub item_flag : Db → (Item → Bool) → Artefact → Bool
item_flag db f a = elim a.item_id [ none ↦ false | some id ↦ f (db.item id) ]

abbrev pub effective_private : Db → Artefact → Bool
effective_private db a = a.is_private || item_flag db (λ i. i.private_effective) a

unfoldable pub can_view_artefact : Db → Artefact → Caller → Bool → Bool
can_view_artefact db a user sees_all =
    if a.pending_deletion || item_flag db (λ i. i.pending_deletion) a
    then false
    else if not (effective_private db a)
    then true
    else if sees_all || is_admin user
    then true
    else elim (user_id user) [
      | none ↦ false
      | some uid ↦ elim a.item_id [
        | none ↦ is_id a.owner_id uid
        | some id ↦
            if (db.item id).private_effective
            then is_id (db.item id).owner_id uid || has_share_access db id (some uid) viewer
            else is_id a.owner_id uid || is_id (db.item id).owner_id uid
      ]
    ]
