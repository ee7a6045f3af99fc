-- ===== src/Protection.antt =====
-- worker/arcworker/analyses/_protections.py and armlock.py: which job follows the detection of a partition, and the
-- handler that removes ARMlock.
pub mod Handover
use arcology.Base.{
  ℕ, Bool, true, false, not, ◌&&◌, Option, none, some, List, [], ◌∷◌, ◌++◌, any, if◌then◌else◌,
}
use arcology.Base.Text.{Text, codes, same_text, is_empty}
use arcology.Base.Result.{Result, ok, raised}
use arcology.Enums.{AnalysisType, file_extraction, armlock_remove}
use arcology.Disc.{Bytes, Image}
use arcology.Armlock.Detect.{
  Scan, failed, no_signature, locked, uncaught, is_detected, detect_armlock_scan,
}
use arcology.Armlock.Remove.{RemovalFailure, remove_armlock}
use arcology.Armlock.Remove

-- `detect` gives `none` where it raises.
pub record ProtectionScheme : Type 0 where
  pub applicable_filesystems : List Text
  pub analysis_type : AnalysisType
  pub detect : Image → Option Bool

-- `detect_armlock(path).get('detected', False)`
unfoldable pub detect_scheme : Scan → Option Bool
detect_scheme uncaught = none
detect_scheme scan = some (is_detected scan)

unfoldable pub armlock_scheme : ProtectionScheme
armlock_scheme = record {
  applicable_filesystems = codes "adfs" ∷ [];
  analysis_type = armlock_remove;
  detect = λ image. detect_scheme (detect_armlock_scan image);
}

-- PROTECTION_SCHEMES, to which armlock.py adds the only scheme.
unfoldable pub protection_schemes : List ProtectionScheme
unfolding armlock_scheme
protection_schemes = armlock_scheme ∷ []

-- A job that is queued, with its hints; the last is whether it reads a cached image.
pub record Job : Type 0 where
  pub analysis_type : AnalysisType
  pub filesystem : Text
  pub partition_index : ℕ
  pub container_format : Option Text
  pub is_cached : Bool

-- The loop over the schemes: the analysis of the first that applies and detects.
unfoldable pub choose_analysis : List ProtectionScheme → Image → Text → Option AnalysisType
unfolding same_text
choose_analysis [] image fs = some file_extraction
choose_analysis (scheme ∷ schemes) image fs =
    let rest = choose_analysis schemes image fs in
    if not (any (same_text fs) scheme.applicable_filesystems)
    then rest
    else elim (scheme.detect image) [
      | none ↦ none
      | some true ↦ some scheme.analysis_type
      | some false ↦ rest
    ]

-- `none` is an exception of a probe.
unfoldable pub queue_extraction_or_protection_remove :
    List ProtectionScheme → Image → Text → ℕ → Option Text → Bool → Option Job
unfolding choose_analysis
queue_extraction_or_protection_remove schemes image fs index format cached =
    elim (choose_analysis schemes image fs) [
      | none ↦ none
      | some type ↦ some (record {
        analysis_type = type;
        filesystem = fs;
        partition_index = index;
        container_format = format;
        is_cached = cached;
      })
    ]

-- The texts of 'summary'.
pub data Summary : Type 0 where
  second_pass registration_failed : Summary
  removed : Bool → Summary
  removal_failed : RemovalFailure → Summary

pub data RemovalCall : Type 0 where
  -- queue_file_extraction on the artefact itself, or on the cleaned one
  queue_original : Text → ℕ → RemovalCall
  queue_cleaned : Image → Text → ℕ → RemovalCall
  -- register_derived_artefact with the module, or with the cleaned image
  register_module : Bytes → RemovalCall
  register_cleaned : Image → RemovalCall
  complete_analysis : Summary → RemovalCall

-- `if detection.get('module_data')`
abbrev pub has_module : Option Bytes → Bool
has_module none = false
has_module (some d) = not (is_empty d)

unfoldable pub module_calls : Option Bytes → List RemovalCall
module_calls none = []
module_calls (some d) = if is_empty d then [] else register_module d ∷ []

-- From the registration of the cleaned image on; `registers` is whether the API takes it.
unfoldable pub cleaned_calls : Image → Text → ℕ → Bool → Option Bytes → List RemovalCall
cleaned_calls cleaned fs index registers module_file =
    if registers
    then register_cleaned cleaned
      ∷ queue_cleaned cleaned fs index
      ∷ complete_analysis (removed (has_module module_file))
      ∷ []
    else register_cleaned cleaned ∷ complete_analysis registration_failed ∷ []

-- After the removal; `none` is an exception.
unfoldable pub after_removal :
    Text → ℕ → Bool → Option Bytes → Result RemovalFailure Image → Option (List RemovalCall)
after_removal fs index registers module_file (ok cleaned) =
    some (module_calls module_file ++ cleaned_calls cleaned fs index registers module_file)
after_removal fs index registers module_file (raised Remove.uncaught) = none
after_removal fs index registers module_file (raised e) =
    some (module_calls module_file ++ (complete_analysis (removal_failed e) ∷ []))

unfoldable pub after_scan : Image → Text → ℕ → Bool → Scan → Option (List RemovalCall)
after_scan image fs index registers uncaught = none
after_scan image fs index registers (locked rec addrs report) =
    after_removal fs index registers report.module_file (remove_armlock image)
after_scan image fs index registers scan =
    some (queue_original fs index ∷ complete_analysis second_pass ∷ [])

-- The handler: its calls, or `none` where it raises.
unfoldable pub process_armlock_remove : Image → Text → ℕ → Bool → Option (List RemovalCall)
process_armlock_remove image fs index registers =
    after_scan image fs index registers (detect_armlock_scan image)
