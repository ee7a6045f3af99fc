-- ===== src/Artefacts/Tree/Edges.antt =====
-- What is derived from what, and the rows that one round gives.
use arcology.Base.{
  ℕ, ◌≡◌, refl, Bool, true, false, ◌&&◌, ◌||◌, Option, none, some, List, [], ◌∷◌, any, ltb, ◌==◌,
  ==_iff, Bool-cases, inl, inr, ◌⊎◌, and-eq_true,
}
use arcology.Artefacts.{in_ids, refers, is_ref, ArtefactRow}
use arcology.Artefacts.Tree.{children}

-- Whether the artefact `x` is derived from `p`.
abbrev pub is_edge : List ArtefactRow → ℕ → ℕ → Bool
is_edge artefacts p x = any (λ a. is_ref a.parent_artefact_id p && a.id == x) artefacts

-- What is derived from one of the artefacts, at any number of steps.
pub data Descends (artefacts : List ArtefactRow) (ids : List ℕ) : ℕ → Type 0 where
  child :
      (p : ℕ) {x : ℕ}
      → in_ids p ids ≡ true
      → is_edge artefacts p x ≡ true
      → Descends artefacts ids x
  further :
      (p : ℕ) {x : ℕ}
      → Descends artefacts ids p
      → is_edge artefacts p x ≡ true
      → Descends artefacts ids x

-- An artefact is created after the one that it is derived from.
abbrev pub is_later : ArtefactRow → Bool
is_later a = elim a.parent_artefact_id [ none ↦ true | some p ↦ ltb p a.id ]

pub or_cases : (a b : Bool) → (a || b) ≡ true → (a ≡ true) ⊎ (b ≡ true)
or_cases true b h = inl refl
or_cases false b h = inr h

pub or_intro : (a b : Bool) → (a ≡ true) ⊎ (b ≡ true) → (a || b) ≡ true
or_intro true b h = refl
or_intro false b (inl h) = absurd (cc h)
or_intro false b (inr h) = h

pub refers_ref :
    (o : Option ℕ) (p : ℕ) (ids : List ℕ)
    → in_ids p ids ≡ true
    → is_ref o p ≡ true
    → refers o ids ≡ true
unfolding refers
refers_ref none p ids h k = absurd (cc k)
refers_ref (some y) p ids h k = rw ((==_iff y p).0 k) h

pub ref_refers :
    (o : Option ℕ) (ids : List ℕ)
    → refers o ids ≡ true
    → (p : ℕ) × (in_ids p ids ≡ true) × (is_ref o p ≡ true)
unfolding refers
ref_refers none ids h = absurd (cc h)
ref_refers (some y) ids h = (y, h, (==_iff y y).1 refl)

pub children_edge :
    (artefacts : List ArtefactRow) (ids : List ℕ) (p x : ℕ)
    → in_ids p ids ≡ true
    → is_edge artefacts p x ≡ true
    → in_ids x (children artefacts ids) ≡ true
unfolding children in_ids
children_edge [] ids p x h k = absurd (cc k)
children_edge (a ∷ artefacts) ids p x h k =
    elim (Bool-cases (is_ref a.parent_artefact_id p && a.id == x)) [
      | inl e ↦
          let (r, same) = and-eq_true (is_ref a.parent_artefact_id p) (a.id == x) e in
          rw (refers_ref a.parent_artefact_id p ids h r, same) refl
      | inr e ↦
          let more = children_edge artefacts ids p x h (rw e at k) in
          elim (Bool-cases (refers a.parent_artefact_id ids)) [
            | inl f ↦ rw f (or_intro (a.id == x) _ (inr more))
            | inr f ↦ rw f more
          ]
    ]

pub edge_children :
    (artefacts : List ArtefactRow) (ids : List ℕ) (x : ℕ)
    → in_ids x (children artefacts ids) ≡ true
    → (p : ℕ) × (in_ids p ids ≡ true) × (is_edge artefacts p x ≡ true)
unfolding children in_ids
edge_children [] ids x h = absurd (cc h)
edge_children (a ∷ artefacts) ids x h = elim (Bool-cases (refers a.parent_artefact_id ids)) [
  | inl e ↦ elim (Bool-cases (a.id == x)) [
    | inl f ↦ let (p, h', k') = ref_refers a.parent_artefact_id ids e in (p, h', rw (k', f) refl)
    | inr f ↦
        let (p, h', k') = edge_children artefacts ids x (rw (e, f) at h) in
        (p, h', or_intro (is_ref a.parent_artefact_id p && a.id == x) _ (inr k'))
  ]
  | inr e ↦
      let (p, h', k') = edge_children artefacts ids x (rw e at h) in
      (p, h', or_intro (is_ref a.parent_artefact_id p && a.id == x) _ (inr k'))
]
