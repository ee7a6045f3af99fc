-- ===== src/Enums.antt =====
-- arcology_shared/enums.py: the states of an analysis job, its types, and the two sets of types
-- that decide which consumer runs a job and which jobs the fairness cap counts.
pub mod Laws
use arcology.Base.{ℕ, Bool, true, false}

pub data AnalysisStatus : Type 0 where
  pending running completed failed : AnalysisStatus

pub data AnalysisType : Type 0 where
  flux_visualisation flux_decode detect_track_density : AnalysisType
  sector_dump file_extraction archive_extract : AnalysisType
  metadata_extract partition_detect checksum_compute format_identify : AnalysisType
  disc_mastering_detect disc_protection_detect armlock_remove : AnalysisType
  product_recognition hashdb_link hashdb_recognition hashdb_delete : AnalysisType
  format_convert media_transcode riscos_module_parse replay_process : AnalysisType
  hash_rescan cleanup similarity_refresh item_delete artefact_delete : AnalysisType

-- CONTROL_PLANE_ANALYSIS_TYPES
unfoldable pub is_control_plane : AnalysisType → Bool
is_control_plane hash_rescan = true
is_control_plane product_recognition = true
is_control_plane hashdb_link = true
is_control_plane hashdb_delete = true
is_control_plane hashdb_recognition = true
is_control_plane similarity_refresh = true
is_control_plane item_delete = true
is_control_plane artefact_delete = true
is_control_plane _ = false

-- HEAVY_ANALYSIS_TYPES
unfoldable pub is_heavy : AnalysisType → Bool
is_heavy file_extraction = true
is_heavy archive_extract = true
is_heavy replay_process = true
is_heavy media_transcode = true
is_heavy flux_decode = true
is_heavy partition_detect = true
is_heavy armlock_remove = true
is_heavy _ = false

-- Comparisons with one member, `x == AnalysisType.CLEANUP` and the like.
unfoldable pub is_cleanup : AnalysisType → Bool
is_cleanup cleanup = true
is_cleanup _ = false

unfoldable pub is_pending : AnalysisStatus → Bool
is_pending pending = true
is_pending _ = false

unfoldable pub is_running : AnalysisStatus → Bool
is_running running = true
is_running _ = false

-- The place of a member, to compare members by.
unfoldable pub type_code : AnalysisType → ℕ
type_code flux_visualisation = 0
type_code flux_decode = 1
type_code detect_track_density = 2
type_code sector_dump = 3
type_code file_extraction = 4
type_code archive_extract = 5
type_code metadata_extract = 6
type_code partition_detect = 7
type_code checksum_compute = 8
type_code format_identify = 9
type_code disc_mastering_detect = 10
type_code disc_protection_detect = 11
type_code armlock_remove = 12
type_code product_recognition = 13
type_code hashdb_link = 14
type_code hashdb_recognition = 15
type_code hashdb_delete = 16
type_code format_convert = 17
type_code media_transcode = 18
type_code riscos_module_parse = 19
type_code replay_process = 20
type_code hash_rescan = 21
type_code cleanup = 22
type_code similarity_refresh = 23
type_code item_delete = 24
type_code artefact_delete = 25
