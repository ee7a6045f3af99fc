-- ===== src/Tests/Restrictions.antt =====
-- Download restrictions on an archive (artefact 1, explicit) and a disc image taken from it (artefact 2).
use arcology.Base.{◌≡◌, refl, true, false, none, some, [], ◌∷◌}
use arcology.Restrictions.{
  malware, explicit, same_type, Chain, original, derived, User, ancestor_ids,
  effective_restrictions, specific_types, can_bypass_all_restrictions,
  can_download_despite_restrictions, output_blocked_for, gate_restrictions, content_gate_flags,
}

abbrev archive : Chain
archive = original 1 (explicit ∷ [])

abbrev image : Chain
image = derived 2 [] archive

-- Their grant is on the archive.
abbrev researcher : User
researcher = record {
  is_admin = false;
  restriction_bypasses = [];
  artefact_bypasses = (1, explicit) ∷ [];
}

overlay : (content_gate_flags [] (some researcher) (some image) none).1 ≡ true
unfolding content_gate_flags gate_restrictions effective_restrictions ancestor_ids
    can_download_despite_restrictions can_bypass_all_restrictions specific_types same_type
overlay = refl

open_archive : output_blocked_for (some researcher) archive ≡ false
unfolding output_blocked_for effective_restrictions ancestor_ids can_download_despite_restrictions
    can_bypass_all_restrictions specific_types same_type
open_archive = refl

-- A grant for one type does not open another.
other_type : output_blocked_for (some researcher) (original 1 (explicit ∷ malware ∷ [])) ≡ true
unfolding output_blocked_for effective_restrictions ancestor_ids can_download_despite_restrictions
    can_bypass_all_restrictions specific_types same_type
other_type = refl
