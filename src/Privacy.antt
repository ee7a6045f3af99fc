-- ===== src/Privacy.antt =====
-- myapp/utils/privacy.py: an item is private if it or an item above it is marked so. The column
-- `private_effective` holds that, and recompute_item_privacy restores it below an item that changed.
use mathlib.Core.Option
use arcology.Base.{
  ℕ, zero, suc, ◌≡◌, refl, ap, ◌∙◌, Bool, false, ◌||◌, Option, none, some, List, [], ◌∷◌, arith,
}

-- An item with its children. The second flag is the column `private_effective`.
mutual
  pub data Item : Type 0 where
    item : Bool → Bool → Items → Item

  pub data Items : Type 0 where
    no_more : Items
    more : Item → Items → Items

abbrev pub is_private : Item → Bool
is_private (item own effective children) = own

abbrev pub private_effective : Item → Bool
private_effective (item own effective children) = effective

-- The parent is None for an item at the root.
abbrev pub parent_flag : Option Item → Bool
parent_flag none = false
parent_flag (some parent) = private_effective parent

abbrev pub compute_effective_private : Option Item → Item → Bool
compute_effective_private parent i = is_private i || parent_flag parent

unfoldable mutual
  pub recompute : Bool → Item → Item
  recompute parent_effective (item own effective children) =
      item own (own || parent_effective) (recompute_children (own || parent_effective) children)

  pub recompute_children : Bool → Items → Items
  recompute_children parent_effective no_more = no_more
  recompute_children parent_effective (more child rest) =
      more (recompute parent_effective child) (recompute_children parent_effective rest)

-- The call from outside, with `_parent_effective` None.
unfoldable pub recompute_item_privacy : Option Item → Item → Item
unfolding recompute
recompute_item_privacy parent = recompute (parent_flag parent)

-- The item at a path of child positions, and whether an item on the path, the end included, is marked.
unfoldable mutual
  pub descend : List ℕ → Item → Option Item
  descend [] i = some i
  descend (n ∷ path) (item own effective children) = descend_children n path children

  pub descend_children : ℕ → List ℕ → Items → Option Item
  descend_children n path no_more = none
  descend_children zero path (more child rest) = descend path child
  descend_children (suc n) path (more child rest) = descend_children n path rest

unfoldable mutual
  pub marked : List ℕ → Item → Bool
  marked [] i = is_private i
  marked (n ∷ path) (item own effective children) = own || marked_children n path children

  pub marked_children : ℕ → List ℕ → Items → Bool
  marked_children n path no_more = false
  marked_children zero path (more child rest) = marked path child
  marked_children (suc n) path (more child rest) = marked_children n path rest

flag_order : (own below above : Bool) → (below || (own || above)) ≡ (own || below || above)
flag_order own below above = ground arith

mutual
  unfolding recompute descend marked

  descend_lem :
      (i : Item) (path : List ℕ) (p : Bool)
      → Option.map private_effective (descend path (recompute p i))
        ≡ Option.map (λ s. marked path i || p) (descend path i)
  descend_lem (item own effective children) [] p = refl
  descend_lem (item own effective children) (n ∷ path) p =
      descend_children_lem children n path (own || p)
      ∙ ap (λ b. Option.map (λ s. b) (descend_children n path children))
          (flag_order own (marked_children n path children) p)

  descend_children_lem :
      (is : Items) (n : ℕ) (path : List ℕ) (p : Bool)
      → Option.map private_effective (descend_children n path (recompute_children p is))
        ≡ Option.map (λ s. marked_children n path is || p) (descend_children n path is)
  descend_children_lem no_more n path p = refl
  descend_children_lem (more child rest) zero path p = descend_lem child path p
  descend_children_lem (more child rest) (suc n) path p = descend_children_lem rest n path p

-- After recompute_item_privacy, the column of each item below is set exactly when an item on the way to it,
-- from the recomputed item down, is marked private or the parent above is effectively private: the
-- items stay where they were, whatever the columns held before.
pub recompute_item_privacy-descend :
    (parent : Option Item) (i : Item) (path : List ℕ)
    → Option.map private_effective (descend path (recompute_item_privacy parent i))
      ≡ Option.map (λ s. marked path i || parent_flag parent) (descend path i)
unfolding recompute_item_privacy
recompute_item_privacy-descend parent i path = descend_lem i path (parent_flag parent)

mutual
  unfolding recompute

  recompute_twice : (i : Item) (p : Bool) → recompute p (recompute p i) ≡ recompute p i
  recompute_twice (item own effective children) p =
      ap (item own (own || p)) (recompute_children_twice children (own || p))

  recompute_children_twice :
      (is : Items) (p : Bool)
      → recompute_children p (recompute_children p is) ≡ recompute_children p is
  recompute_children_twice no_more p = refl
  recompute_children_twice (more child rest) p =
      rw (recompute_twice child p, recompute_children_twice rest p)

-- A second recomputation under the same parent changes nothing, and the column of the recomputed item
-- is what compute_effective_private gives.
pub recompute_item_privacy_lem :
    (parent : Option Item) (i : Item)
    → (recompute_item_privacy parent (recompute_item_privacy parent i)
        ≡ recompute_item_privacy parent i)
      × (private_effective (recompute_item_privacy parent i) ≡ compute_effective_private parent i)
unfolding recompute_item_privacy recompute
recompute_item_privacy_lem parent (item own effective children) =
    (recompute_twice (item own effective children) (parent_flag parent), refl)
