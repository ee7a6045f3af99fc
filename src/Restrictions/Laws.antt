-- ===== src/Restrictions/Laws.antt =====
-- What the download gates of myapp/visibility.py let through.
use arcology.Base.{
  ℕ, ◌≡◌, refl, inl, inr, Bool, true, false, not, ◌&&◌, ◌||◌, Option, none, some, List, [], ◌∷◌,
  map, any, all, select, arith, Bool-cases, if◌then◌else◌,
}
use arcology.Base.Text.{Text}
use arcology.Restrictions.{
  RestrictionType, explicit, same_type, Chain, derived, User, ExtractedFile, ancestor_ids,
  effective_restrictions, has_type, is_nil, contains, specific_types, can_bypass_all_restrictions,
  can_download_despite_restrictions, output_blocked_for, gate_restrictions, content_gate_flags,
}

-- A bypass of the type that counts on the artefacts `ids`: an administrator's, a bypass of the type, or
-- a grant on one of them.
abbrev pub bypasses : User → List ℕ → RestrictionType → Bool
bypasses user ids r =
    user.is_admin
    || has_type user.restriction_bypasses r
    || any (λ (g : ℕ × RestrictionType). contains ids g.0 && same_type r g.1) user.artefact_bypasses

has_type-specific_types :
    (ids : List ℕ) (r : RestrictionType) (grants : List (ℕ × RestrictionType))
    → has_type (map (λ g. g.1) (select (λ (g : ℕ × RestrictionType). contains ids g.0) grants)) r
      ≡ any (λ (g : ℕ × RestrictionType). contains ids g.0 && same_type r g.1) grants
has_type-specific_types ids r [] = refl
has_type-specific_types ids r (g ∷ grants) = ground (arith, has_type-specific_types ids r grants)

module _ (f g : RestrictionType → Bool) where
  all-missing :
      (rs : List RestrictionType) → all g (select (λ r. not (f r)) rs) ≡ all (λ r. f r || g r) rs
  all-missing [] = refl
  all-missing (r ∷ rs) = ground (arith, all-missing rs)

  none_missing :
      (rs : List RestrictionType)
      → is_nil (select (λ r. not (f r)) rs) ≡ true
      → all (λ r. f r || g r) rs ≡ true
  none_missing [] h = refl
  none_missing (r ∷ rs) h = ground (arith, none_missing rs)

all-ext :
    (f g : RestrictionType → Bool) (rs : List RestrictionType)
    → ((r : RestrictionType) → f r ≡ g r)
    → all f rs ≡ all g rs
all-ext f g [] h = refl
all-ext f g (r ∷ rs) h = ground (arith, h r, all-ext f g rs h)

all-true :
    (f : RestrictionType → Bool) (rs : List RestrictionType)
    → ((r : RestrictionType) → f r ≡ true)
    → all f rs ≡ true
all-true f [] h = refl
all-true f (r ∷ rs) h = ground (arith, h r, all-true f rs h)

bypasses_split :
    (user : User) (ids : List ℕ) (r : RestrictionType)
    → user.is_admin ≡ false
    → (has_type user.restriction_bypasses r || has_type (specific_types user ids) r)
      ≡ bypasses user ids r
unfolding specific_types
bypasses_split user ids r h =
    ground (arith, h, has_type-specific_types ids r user.artefact_bypasses)

can_bypass_all :
    (user : User) (ids : List ℕ) (rs : List RestrictionType)
    → (if user.is_admin
        then true
        else if is_nil (select (λ r. not (has_type user.restriction_bypasses r)) rs)
        then true
        else all
            (has_type (specific_types user ids))
            (select (λ r. not (has_type user.restriction_bypasses r)) rs))
      ≡ all (bypasses user ids) rs
can_bypass_all user ids rs = elim (Bool-cases user.is_admin) [
  | inl e ↦ ground (arith, e, all-true (bypasses user ids) rs (λ r. ground (arith, e)))
  | inr e ↦
      let f = has_type user.restriction_bypasses in
      let g = has_type (specific_types user ids) in
      let split =
        all-ext (λ r. f r || g r) (bypasses user ids) rs (λ r. bypasses_split user ids r e) in
      ground (arith, e, none_missing f g rs, all-missing f g rs, split)
]

same_type-explicit : (r : RestrictionType) → same_type explicit r ≡ true → r ≡ explicit
unfolding same_type
same_type-explicit explicit h = refl
same_type-explicit _ h = cc

all-explicit :
    (f : RestrictionType → Bool) (rs : List RestrictionType)
    → all f rs ≡ true
    → has_type rs explicit ≡ true
    → f explicit ≡ true
all-explicit f [] h m = cc
all-explicit f (r ∷ rs) h m = elim (Bool-cases (same_type explicit r)) [
  | inl e ↦ let same = same_type-explicit r e in let h' = rw same at h in ground arith
  | inr e ↦ all-explicit f rs (ground arith) (ground arith)
]

all_mono :
    (f g : RestrictionType → Bool) (rs : List RestrictionType)
    → ((r : RestrictionType) → f r ≡ true → g r ≡ true)
    → all f rs ≡ true
    → all g rs ≡ true
all_mono f g [] h k = refl
all_mono f g (r ∷ rs) h k = ground (arith, h r, all_mono f g rs h)

granted_above :
    (id : ℕ) (ids : List ℕ) (r : RestrictionType) (grants : List (ℕ × RestrictionType))
    → any (λ (g : ℕ × RestrictionType). contains ids g.0 && same_type r g.1) grants ≡ true
    → any (λ (g : ℕ × RestrictionType). contains (id ∷ ids) g.0 && same_type r g.1) grants ≡ true
granted_above id ids r [] h = h
granted_above id ids r (g ∷ grants) h = ground (arith, granted_above id ids r grants)

pub can_download_lem :
    (user : User) (restrictions : List RestrictionType) (artefact : Chain)
    → (can_download_despite_restrictions none restrictions artefact ≡ is_nil restrictions)
      × (can_download_despite_restrictions (some user) restrictions artefact
          ≡ all (bypasses user (ancestor_ids artefact)) restrictions)
unfolding can_download_despite_restrictions can_bypass_all_restrictions specific_types
can_download_lem user [] artefact = (refl, refl)
can_download_lem user (r ∷ rs) artefact =
    (refl, can_bypass_all user (ancestor_ids artefact) (r ∷ rs))

-- Output that is flagged for the consent overlay is not restricted, and the user bypasses EXPLICIT: as
-- an administrator, by its type, or by a grant on the artefact or an ancestor of it.
content_gate_flags_lem :
    (files : List ExtractedFile) (user : User) (artefact : Chain) (source : Option Text)
    → (content_gate_flags files (some user) (some artefact) source).1 ≡ true
    → ((content_gate_flags files (some user) (some artefact) source).0 ≡ false)
      × (bypasses user (ancestor_ids artefact) explicit ≡ true)
unfolding content_gate_flags
content_gate_flags_lem files user artefact source h =
    let rs = gate_restrictions files artefact source in
    let (nobody, signed_in) = can_download_lem user rs artefact in
    (
      ground arith,
      all-explicit (bypasses user (ancestor_ids artefact)) rs (ground arith) (ground arith),
    )

-- A user to whom an artefact's outputs are open also sees those of an artefact derived from it that has no
-- restriction of its own: grants and restrictions follow the same chain.
output_blocked_for-derived :
    (user : User) (id : ℕ) (parent : Chain)
    → output_blocked_for (some user) parent ≡ false
    → output_blocked_for (some user) (derived id [] parent) ≡ false
unfolding output_blocked_for effective_restrictions ancestor_ids
output_blocked_for-derived user id parent h =
    let (nobody, above) = can_download_lem user (effective_restrictions parent) parent in
    let (nobody', below) =
      can_download_lem user (effective_restrictions parent) (derived id [] parent) in
    ground (
      arith,
      below,
      all_mono (bypasses user (ancestor_ids parent)) (bypasses user (id ∷ ancestor_ids parent))
          (effective_restrictions parent)
          (λ r b. ground (arith, granted_above id (ancestor_ids parent) r user.artefact_bypasses))
          (ground arith),
    )
