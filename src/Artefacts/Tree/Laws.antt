-- ===== src/Artefacts/Tree/Laws.antt =====
-- That the recursive queries give the descendants, all of them and nothing else.
use arcology.Base.{
  ℕ, zero, suc, ◌+◌, ◌≤◌, ◌<◌, ◌≡◌, ◌↔◌, refl, max, Bool, true, false, ◌&&◌, Option, none, some,
  List, [], ◌∷◌, ◌++◌, select, all, ltb, ◌==◌, ==_iff, arith, inl, inr, ◌⊎◌, and-eq_true,
}
use arcology.Artefacts.{in_ids, refers, is_ref, ArtefactRow, artefact_ids}
use arcology.Artefacts.Rows.{in_ids-append}
use arcology.Artefacts.Tree.{
  children, cte_rounds, next_id, get_all_derived_artefact_ids, collect_item_artefact_ids,
}
use arcology.Artefacts.Tree.Edges.{
  is_edge, Descends, child, further, is_later, or_cases, or_intro, children_edge, edge_children,
}

children-nil : (artefacts : List ArtefactRow) → children artefacts [] ≡ []
unfolding children refers in_ids
children-nil [] = refl
children-nil (a ∷ artefacts) = rw (none_refers a.parent_artefact_id) (children-nil artefacts)
  where
    none_refers : (o : Option ℕ) → refers o [] ≡ false
    none_refers none = refl
    none_refers (some y) = refl

cte_rounds-nil : (fuel : ℕ) (artefacts : List ArtefactRow) → cte_rounds fuel artefacts [] ≡ []
unfolding cte_rounds
cte_rounds-nil zero artefacts = refl
cte_rounds-nil (suc fuel) artefacts = rw (children-nil artefacts, cte_rounds) refl

not_in_rounds :
    (artefacts : List ArtefactRow) (ids : List ℕ) (x : ℕ)
    → ¬ (in_ids x (cte_rounds zero artefacts ids) ≡ true)
unfolding cte_rounds in_ids
not_in_rounds artefacts ids x h = cc (h)

-- A round and the ones after it.
cte_rounds-suc :
    (fuel : ℕ) (artefacts : List ArtefactRow) (ids : List ℕ)
    → cte_rounds (suc fuel) artefacts ids
      ≡ children artefacts ids ++ cte_rounds fuel artefacts (children artefacts ids)
unfolding cte_rounds
cte_rounds-suc fuel artefacts ids = split (children artefacts ids)
  where
    split :
        (xs : List ℕ)
        → elim xs as (λ _. List ℕ) [
          | [] ↦ []
          | y ∷ ys ↦ (y ∷ ys) ++ cte_rounds fuel artefacts (y ∷ ys)
        ]
          ≡ xs ++ cte_rounds fuel artefacts xs
    split [] = rw (cte_rounds-nil fuel artefacts) refl
    split (y ∷ ys) = refl

widen :
    (artefacts : List ArtefactRow) (ids : List ℕ) {x : ℕ}
    → Descends artefacts (children artefacts ids) x
    → Descends artefacts ids x
widen artefacts ids (child p {x} h e) =
    let (r, h', k') = edge_children artefacts ids p h in further p (child r h' k') e
widen artefacts ids (further p d e) = further p (widen artefacts ids d) e

pub cte_rounds-Descends :
    (fuel : ℕ) (artefacts : List ArtefactRow) (ids : List ℕ) (x : ℕ)
    → in_ids x (cte_rounds fuel artefacts ids) ≡ true
    → Descends artefacts ids x
unfolding in_ids
cte_rounds-Descends zero artefacts ids x h = absurd (not_in_rounds artefacts ids x h)
cte_rounds-Descends (suc fuel) artefacts ids x h =
    let kids = children artefacts ids in
    let both =
      rw (cte_rounds-suc fuel artefacts ids, in_ids-append x kids (cte_rounds fuel artefacts kids))
        at h in
    elim (or_cases (in_ids x kids) (in_ids x (cte_rounds fuel artefacts kids)) both) [
      | inl k ↦ let (p, h', k') = edge_children artefacts ids x k in child p h' k'
      | inr k ↦ widen artefacts ids (cte_rounds-Descends fuel artefacts kids x k)
    ]

edge_later :
    (artefacts : List ArtefactRow) (p x : ℕ)
    → all is_later artefacts ≡ true
    → is_edge artefacts p x ≡ true
    → (p < x) × (x < next_id artefacts)
unfolding next_id
edge_later [] p x h k = absurd (cc k)
edge_later (a ∷ artefacts) p x h k =
    let (one, more) = and-eq_true (is_later a) (all is_later artefacts) h in
    elim (or_cases (is_ref a.parent_artefact_id p && a.id == x) (is_edge artefacts p x) k) [
      | inl e ↦
          let (r, same) = and-eq_true (is_ref a.parent_artefact_id p) (a.id == x) e in
          above a.parent_artefact_id a.id r ((==_iff a.id x).0 same) one
      | inr e ↦ let (l, u) = edge_later artefacts p x more e in (l, omega arith)
    ]
  where
    above :
        (o : Option ℕ) (i : ℕ)
        → is_ref o p ≡ true
        → i ≡ x
        → elim o as (λ _. Bool) [ none ↦ true | some q ↦ ltb q i ] ≡ true
        → (p < x) × (x < max (suc i) (next_id artefacts))
    above none i r same h = absurd (cc r)
    above (some q) i r same h = (ground (arith, same, h, r), omega (arith, same))

children_above :
    (m : ℕ) (artefacts : List ArtefactRow) (ids : List ℕ)
    → all is_later artefacts ≡ true
    → ((p : ℕ) → in_ids p ids ≡ true → m ≤ p)
    → (x : ℕ) → in_ids x (children artefacts ids) ≡ true
    → suc m ≤ x
children_above m artefacts ids later low x h =
    let (p, h', e) = edge_children artefacts ids x h in
    omega (arith, low p h', (edge_later artefacts p x later e).0)

-- With rounds enough, what is derived from a descendant or from one of the artefacts is a descendant.
rounds_closed :
    (fuel m : ℕ) (artefacts : List ArtefactRow) (ids : List ℕ)
    → all is_later artefacts ≡ true
    → ((p : ℕ) → in_ids p ids ≡ true → m ≤ p)
    → next_id artefacts ≤ m + fuel
    → (p x : ℕ) → (in_ids p ids ≡ true) ⊎ (in_ids p (cte_rounds fuel artefacts ids) ≡ true)
    → is_edge artefacts p x ≡ true
    → in_ids x (cte_rounds fuel artefacts ids) ≡ true
unfolding in_ids
rounds_closed zero m artefacts ids later low room p x (inl h) e =
    let (l, u) = edge_later artefacts p x later e in absurd (omega (arith, low p h))
rounds_closed zero m artefacts ids later low room p x (inr h) e =
    absurd (not_in_rounds artefacts ids p h)
rounds_closed (suc fuel) m artefacts ids later low room p x h e =
    let kids = children artefacts ids in
    let rest = cte_rounds fuel artefacts kids in
    rw (cte_rounds-suc fuel artefacts ids, in_ids-append x kids rest)
      (or_intro (in_ids x kids) (in_ids x rest) (elim h [
        | inl k ↦ inl (children_edge artefacts ids p x k e)
        | inr k ↦ inr (
            rounds_closed fuel (suc m) artefacts kids later
              (children_above m artefacts ids later low) (omega arith) p x
              (or_cases (in_ids p kids) (in_ids p rest)
                (rw (cte_rounds-suc fuel artefacts ids, in_ids-append p kids rest) at k))
              e)
      ]))

Descends-rounds :
    (artefacts : List ArtefactRow) (ids : List ℕ)
    → all is_later artefacts ≡ true
    → {x : ℕ} → Descends artefacts ids x
    → in_ids x (cte_rounds (next_id artefacts) artefacts ids) ≡ true
Descends-rounds artefacts ids later (child p {x} h e) =
    rounds_closed (next_id artefacts) 0 artefacts ids later (λ p h. omega arith) (omega arith) p x
      (inl h) e
Descends-rounds artefacts ids later (further p {x} d e) =
    rounds_closed (next_id artefacts) 0 artefacts ids later (λ p h. omega arith) (omega arith) p x
      (inr (Descends-rounds artefacts ids later d)) e

-- Where each artefact is created after the one that it is derived from, the ids that get_all_derived_artefact_ids
-- gives are those of the artefacts that are derived from the artefact, in any number of steps, all of them.
pub get_all_derived_artefact_ids_iff :
    (artefacts : List ArtefactRow) (artefact_id x : ℕ)
    → all is_later artefacts ≡ true
    → (in_ids x (get_all_derived_artefact_ids artefacts artefact_id) ≡ true)
      ↔ Descends artefacts (artefact_id ∷ []) x
unfolding get_all_derived_artefact_ids
get_all_derived_artefact_ids_iff artefacts artefact_id x later = (
  cte_rounds-Descends (next_id artefacts) artefacts (artefact_id ∷ []) x,
  Descends-rounds artefacts (artefact_id ∷ []) later,
)

-- A list of ids that holds with each artefact what is derived from it.
abbrev pub IsClosed : List ArtefactRow → List ℕ → Type 0
IsClosed artefacts ids =
    (p x : ℕ) → in_ids p ids ≡ true → is_edge artefacts p x ≡ true → in_ids x ids ≡ true

with_rounds-IsClosed :
    (artefacts : List ArtefactRow) (ids : List ℕ)
    → all is_later artefacts ≡ true
    → IsClosed artefacts (ids ++ cte_rounds (next_id artefacts) artefacts ids)
with_rounds-IsClosed artefacts ids later p x h e =
    let rest = cte_rounds (next_id artefacts) artefacts ids in
    rw (in_ids-append x ids rest) (
      or_intro (in_ids x ids) (in_ids x rest) (
        inr (
          rounds_closed (next_id artefacts) 0 artefacts ids later (λ p h. omega arith) (omega arith)
            p x (or_cases (in_ids p ids) (in_ids p rest) (rw (in_ids-append p ids rest) at h)) e)))

pub artefact_subtree-IsClosed :
    (artefacts : List ArtefactRow) (artefact_id : ℕ)
    → all is_later artefacts ≡ true
    → IsClosed artefacts (artefact_id ∷ get_all_derived_artefact_ids artefacts artefact_id)
unfolding get_all_derived_artefact_ids
artefact_subtree-IsClosed artefacts artefact_id later =
    with_rounds-IsClosed artefacts (artefact_id ∷ []) later

pub item_subtree-IsClosed :
    (artefacts : List ArtefactRow) (item_ids : List ℕ)
    → all is_later artefacts ≡ true
    → IsClosed artefacts (collect_item_artefact_ids artefacts item_ids)
unfolding collect_item_artefact_ids
item_subtree-IsClosed artefacts item_ids later =
    with_rounds-IsClosed artefacts
      (artefact_ids (select (λ a. in_ids a.item_id item_ids) artefacts)) later
