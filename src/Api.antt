-- ===== src/Api.antt =====
-- myapp/blueprints/api.py: the requests that write the `analyses` table. A request that does not parse never
-- gets here. Of a JSON object, the fields that the handlers read are modelled, each with the type that the
-- worker sends; a field may be missing, null or a value.
pub mod Update
pub mod Requests
use arcology.Base.{
  ℕ, Bool, true, false, ◌&&◌, ◌||◌, Option, none, some, List, [], ◌∷◌, any, ◌==◌, if◌then◌else◌,
}
use arcology.Base.Text.{Text, codes, same_text}
use arcology.Enums.{AnalysisStatus, pending, running, completed, failed}

-- A field of the object.
abbrev pub Field {ℓ} : Type ℓ → Type ℓ
Field A = Option (Option A)

abbrev pub is_given {ℓ} : {A : Type ℓ} → Field A → Bool
is_given none = false
is_given (some v) = true

-- `if field in data: setattr(analysis, field, data[field])`
abbrev pub set_field {ℓ} : {A : Type ℓ} → Field A → Option A → Option A
set_field none old = old
set_field (some v) old = v

-- `data.get(field) == word`
abbrev pub says : Field Text → Text → Bool
says (some (some t)) word = same_text t word
says _ word = false

-- AnalysisStatus(value)
unfoldable pub status_of : Option Text → Option AnalysisStatus
status_of none = none
status_of (some t) =
    if same_text t (codes "pending")
    then some pending
    else if same_text t (codes "running")
    then some running
    else if same_text t (codes "completed")
    then some completed
    else if same_text t (codes "failed")
    then some failed
    else none

-- The fields whose texts are checked for NUL characters.
abbrev has_nul : Field Text → Bool
has_nul (some (some t)) = any (λ c. c == 0) t
has_nul _ = false

unfoldable pub nul_error : List (Field Text) → Bool
nul_error fields = any has_nul fields

-- The answers of the handlers.
pub data Response : Type 0 where
  bad_request forbidden not_found deleted updated existing created : Response
  claim_answer : Bool → Response
