-- ===== src/Tests/Visibility.antt =====
-- Visibility on a collection of two items: item 1 is private and owned by user 10, item 2 lies in it.
-- User 20 has an editor share of item 1 through group 5, user 30 has none.
use arcology.Base.{ℕ, zero, suc, ◌≡◌, refl, ◌↔◌, ◌<◌, ◌≤◌, true, false, none, some, [], ◌∷◌, arith}
use arcology.Visibility.{
  editor, curator, Item, Artefact, Db, Caller, signed_in, ancestors, grants, is_owner,
  has_share_access, can_claim_item, can_view_item, can_contribute_to_item, can_view_artefact,
}
use arcology.Visibility.Share.{IsForest}
use arcology.Visibility.Clause.{ArtefactClause, can_view_artefact_iff}

abbrev inside : ℕ → Item
inside (suc (suc zero)) = record {
  parent_id = some 1;
  private_effective = true;
  owner_id = none;
  pending_deletion = false;
}
inside _ = record {
  parent_id = none;
  private_effective = true;
  owner_id = some 10;
  pending_deletion = false;
}

abbrev collection : Db
collection = record {
  item = inside;
  shares =
      record { item_id = 1; user_id = none; group_id = some 5; permission = editor }
      ∷ record { item_id = 1; user_id = some 40; group_id = none; permission = curator }
      ∷ [];
  group_memberships = (20, 5) ∷ (30, 6) ∷ [];
  depth = 2;
}

abbrev user : ℕ → Caller
user n = signed_in (record { id = n; is_admin = false })

abbrev drawing : Artefact
drawing = record {
  item_id = some 2;
  is_private = false;
  owner_id = some 30;
  pending_deletion = false;
}

abbrev rank : ℕ → ℕ
rank (suc (suc zero)) = 1
rank _ = 0

rank_falls : (id p : ℕ) → (inside id).parent_id ≡ some p → rank p < rank id
rank_falls zero p e = cc
rank_falls (suc zero) p e = cc
rank_falls (suc (suc zero)) zero e = cc
rank_falls (suc (suc zero)) (suc zero) e = omega arith
rank_falls (suc (suc zero)) (suc (suc n)) e = cc
rank_falls (suc (suc (suc n))) p e = cc

rank_bounded : (id : ℕ) → rank id ≤ 2
rank_bounded zero = omega arith
rank_bounded (suc zero) = omega arith
rank_bounded (suc (suc zero)) = omega arith
rank_bounded (suc (suc (suc n))) = omega arith

forest : IsForest collection rank
forest = record { falls = rank_falls; bounded = rank_bounded }

member_views : can_view_item collection 2 (user 20) false ≡ true
unfolding can_view_item has_share_access ancestors grants
member_views = refl

stranger_views : can_view_item collection 2 (user 30) false ≡ false
unfolding can_view_item has_share_access ancestors grants
stranger_views = refl

-- The owner of an artefact in a private item does not see it without access to the item.
owner_without_item : can_view_artefact collection drawing (user 30) false ≡ false
unfolding can_view_artefact has_share_access ancestors grants
owner_without_item = refl

can_view_artefact_iff_example :
    (can_view_artefact collection drawing (user 30) false ≡ true)
    ↔ ArtefactClause collection 2 drawing (user 30) false
can_view_artefact_iff_example =
    can_view_artefact_iff collection rank forest 2 drawing (user 30) false refl

group_edits : has_share_access collection 2 (some 20) editor ≡ true
unfolding has_share_access ancestors grants
group_edits = refl

contributes : can_contribute_to_item collection 2 (user 20) false ≡ true
unfolding can_contribute_to_item has_share_access ancestors grants is_owner
contributes = refl

claims : can_claim_item collection 2 (user 20) ≡ true
unfolding can_claim_item has_share_access ancestors grants
claims = refl

-- A curator of an unowned item does not become its owner.
curator_claims : can_claim_item collection 2 (user 40) ≡ false
unfolding can_claim_item has_share_access ancestors grants
curator_claims = refl

member_views_artefact : can_view_artefact collection drawing (user 20) false ≡ true
unfolding can_view_artefact has_share_access ancestors grants
member_views_artefact = refl
