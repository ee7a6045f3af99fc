-- ===== src/Artefacts/Tree.antt =====
-- get_all_derived_artefact_ids and _collect_item_artefact_ids: the recursive queries for what is derived from an artefact.

pub mod Edges
pub mod Laws
use arcology.Base.{ℕ, zero, suc, ◌+◌, max, Bool, List, [], ◌∷◌, ◌++◌, map, select}
use arcology.Artefacts.{in_ids, refers, ArtefactRow, artefact_ids}

-- The rows whose `parent_artefact_id` is in the list.
unfoldable pub children : List ArtefactRow → List ℕ → List ℕ
unfolding refers
children artefacts ids = artefact_ids (select (λ a. refers a.parent_artefact_id ids) artefacts)

-- The recursive CTE: it is evaluated in rounds, each with the rows of the one before, until one gives none.
unfoldable pub cte_rounds : ℕ → List ArtefactRow → List ℕ → List ℕ
unfolding children
cte_rounds zero artefacts ids = []
cte_rounds (suc fuel) artefacts ids = elim (children artefacts ids) [
  | [] ↦ []
  | x ∷ xs ↦ (x ∷ xs) ++ cte_rounds fuel artefacts (x ∷ xs)
]

-- A number above all the ids, which is enough rounds where an artefact is created after its parent.
unfoldable pub next_id : List ArtefactRow → ℕ
next_id [] = 0
next_id (a ∷ artefacts) = max (suc a.id) (next_id artefacts)

unfoldable pub get_all_derived_artefact_ids : List ArtefactRow → ℕ → List ℕ
unfolding cte_rounds next_id
get_all_derived_artefact_ids artefacts artefact_id =
    cte_rounds (next_id artefacts) artefacts (artefact_id ∷ [])

unfoldable pub collect_item_artefact_ids : List ArtefactRow → List ℕ → List ℕ
unfolding cte_rounds next_id in_ids
collect_item_artefact_ids artefacts item_ids =
    let direct_ids = artefact_ids (select (λ a. in_ids a.item_id item_ids) artefacts) in
    direct_ids ++ cte_rounds (next_id artefacts) artefacts direct_ids
