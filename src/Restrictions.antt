-- ===== src/Restrictions.antt =====
-- Download restrictions: User's bypass checks and Artefact's walks up the derivation chain in
-- myapp/database.py, the collectors of myapp/services/restrictions.py, and the gates of
-- myapp/visibility.py. A restriction is its type: the checks read nothing else of it.
pub mod Laws
use arcology.Base.{
  ℕ, Bool, true, false, not, ◌&&◌, ◌||◌, Option, none, some, List, [], ◌∷◌, ◌++◌, map, any, all,
  select, ◌==◌, if◌then◌else◌,
}
use arcology.Base.Text.{Text, same_text, is_empty}

pub data RestrictionType : Type 0 where
  malware pii copyright legal_hold explicit corrupted : RestrictionType

unfoldable pub same_type : RestrictionType → RestrictionType → Bool
same_type malware malware = true
same_type pii pii = true
same_type copyright copyright = true
same_type legal_hold legal_hold = true
same_type explicit explicit = true
same_type corrupted corrupted = true
same_type _ _ = false

-- An artefact with the chain of `parent_artefact` above it: its id and its restrictions.
pub data Chain : Type 0 where
  original : ℕ → List RestrictionType → Chain
  derived : ℕ → List RestrictionType → Chain → Chain

-- An extracted file with the chain of `parent_file` above it.
pub data FileChain : Type 0 where
  top_level : List RestrictionType → FileChain
  inside : List RestrictionType → FileChain → FileChain

pub record ExtractedFile : Type 0 where
  pub path : Text
  pub artefact_id : ℕ
  pub chain : FileChain

-- The bypasses of a User: by type, and by artefact id and type.
pub record User : Type 0 where
  pub is_admin : Bool
  pub restriction_bypasses : List RestrictionType
  pub artefact_bypasses : List (ℕ × RestrictionType)

unfoldable pub artefact_id : Chain → ℕ
artefact_id (original id own) = id
artefact_id (derived id own parent) = id

unfoldable pub ancestor_ids : Chain → List ℕ
ancestor_ids (original id own) = id ∷ []
ancestor_ids (derived id own parent) = id ∷ ancestor_ids parent

unfoldable pub effective_restrictions : Chain → List RestrictionType
effective_restrictions (original id own) = own
effective_restrictions (derived id own parent) = own ++ effective_restrictions parent

-- `r in types`
abbrev pub has_type : List RestrictionType → RestrictionType → Bool
has_type types r = any (same_type r) types

unfoldable pub can_bypass_restriction : User → RestrictionType → Bool
can_bypass_restriction user r = if user.is_admin then true else has_type user.restriction_bypasses r

abbrev pub is_nil : List RestrictionType → Bool
is_nil [] = true
is_nil (r ∷ rs) = false

abbrev pub contains : List ℕ → ℕ → Bool
contains ids id = any (λ n. n == id) ids

-- `specific_types`
unfoldable pub specific_types : User → List ℕ → List RestrictionType
specific_types user ids =
    map (λ g. g.1) (select (λ (g : ℕ × RestrictionType). contains ids g.0) user.artefact_bypasses)

unfoldable pub can_bypass_all_restrictions : User → List RestrictionType → Option (List ℕ) → Bool
unfolding specific_types
can_bypass_all_restrictions user restrictions ids =
    let missing = select (λ r. not (has_type user.restriction_bypasses r)) restrictions in
    if is_nil restrictions
    then true
    else if user.is_admin
    then true
    else if is_nil missing
    then true
    else elim ids [
      | none ↦ false
      | some allowed ↦ all (has_type (specific_types user allowed)) missing
    ]

-- A caller is None where no user has signed in, as for the worker key.
unfoldable pub can_download_despite_restrictions : Option User → List RestrictionType → Chain → Bool
unfolding can_bypass_all_restrictions
can_download_despite_restrictions caller restrictions artefact =
    if is_nil restrictions then true else elim caller [
      | none ↦ false
      | some user ↦ can_bypass_all_restrictions user restrictions (some (ancestor_ids artefact))
    ]

unfoldable pub output_blocked_for : Option User → Chain → Bool
unfolding can_download_despite_restrictions
output_blocked_for caller artefact =
    not (can_download_despite_restrictions caller (effective_restrictions artefact) artefact)

unfoldable pub can_reveal_explicit : Option User → Bool
unfolding can_bypass_restriction
can_reveal_explicit none = false
can_reveal_explicit (some user) = can_bypass_restriction user explicit

unfoldable pub own_restrictions : FileChain → List RestrictionType
own_restrictions (top_level own) = own
own_restrictions (inside own parent) = own

unfoldable pub collect_ancestor_file_restrictions : FileChain → List RestrictionType
unfolding own_restrictions
collect_ancestor_file_restrictions (top_level own) = []
collect_ancestor_file_restrictions (inside own parent) =
    own_restrictions parent ++ collect_ancestor_file_restrictions parent

-- file_restrictions_by_path for one path that is not empty, at that path.
unfoldable pub file_restrictions_by_path : List ExtractedFile → Chain → Text → List RestrictionType
unfolding own_restrictions
file_restrictions_by_path [] artefact path = []
file_restrictions_by_path (ef ∷ files) artefact path =
    let rest = file_restrictions_by_path files artefact path in
    if ef.artefact_id == artefact_id artefact && same_text ef.path path
    then own_restrictions ef.chain ++ collect_ancestor_file_restrictions ef.chain ++ rest
    else rest

-- The artefact and the source file may be None; an empty source file counts as None.
unfoldable pub gate_restrictions : List ExtractedFile → Chain → Option Text → List RestrictionType
gate_restrictions files artefact none = effective_restrictions artefact
gate_restrictions files artefact (some path) =
    if is_empty path
    then effective_restrictions artefact
    else effective_restrictions artefact ++ file_restrictions_by_path files artefact path

unfoldable pub content_gate_flags :
    List ExtractedFile → Option User → Option Chain → Option Text → Bool × Bool
unfolding gate_restrictions
content_gate_flags files caller none source_file = (false, false)
content_gate_flags files caller (some artefact) source_file =
    let restrictions = gate_restrictions files artefact source_file in
    let restricted = not (can_download_despite_restrictions caller restrictions artefact) in
    (restricted, not restricted && has_type restrictions explicit)
