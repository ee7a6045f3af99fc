-- ===== src/Enums/Laws.antt =====
-- What the tests on the enums of arcology_shared/enums.py say of the value tested.
use arcology.Base.{◌≡◌, refl, true}
use arcology.Enums.{
  AnalysisType, AnalysisStatus, is_cleanup, is_pending, is_running, running, pending, cleanup,
}

pub pending_of_is_pending : (s : AnalysisStatus) → is_pending s ≡ true → s ≡ pending
unfolding is_pending
pending_of_is_pending pending h = refl
pending_of_is_pending _ h = cc

pub running_of_is_running : (s : AnalysisStatus) → is_running s ≡ true → s ≡ running
unfolding is_running
running_of_is_running running h = refl
running_of_is_running _ h = cc

pub cleanup_of_is_cleanup : (t : AnalysisType) → is_cleanup t ≡ true → t ≡ cleanup
unfolding is_cleanup
cleanup_of_is_cleanup cleanup h = refl
cleanup_of_is_cleanup _ h = cc

pub cleanup-is_cleanup : is_cleanup cleanup ≡ true
unfolding is_cleanup
cleanup-is_cleanup = refl
