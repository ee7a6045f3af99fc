-- ===== src/Tests/Privacy.antt =====
-- A public item whose first child is marked private, with a grandchild that the column calls public.
use mathlib.Core.Option
use arcology.Base.{◌≡◌, refl, true, false, ◌||◌, none, some, [], ◌∷◌}
use arcology.Privacy.{
  Item, item, no_more, more, private_effective, recompute, recompute_item_privacy, descend, marked,
  recompute_item_privacy-descend,
}

abbrev collection : Item
collection = item false false (
    more (item true false (more (item false false no_more) no_more))
      (more (item false true no_more) no_more))

grandchild :
    Option.map private_effective (descend (0 ∷ 0 ∷ []) (recompute_item_privacy none collection))
    ≡ some true
unfolding descend recompute_item_privacy recompute
grandchild = refl

recompute_item_privacy-descend_example :
    Option.map private_effective (descend (0 ∷ 0 ∷ []) (recompute_item_privacy none collection))
    ≡ Option.map (λ s. marked (0 ∷ 0 ∷ []) collection || false) (descend (0 ∷ 0 ∷ []) collection)
recompute_item_privacy-descend_example = recompute_item_privacy-descend none collection (0 ∷ 0 ∷ [])
