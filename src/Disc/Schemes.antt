-- ===== src/Disc/Schemes.antt =====
-- detect_acorn_partitions: the detectors in the order of _ACORN_SCHEMES; the first that detects wins.
pub mod Laws
use arcology.Base.{ℕ, ◌≡◌, refl, List, [], ◌∷◌}
use arcology.Disc.{Image, Detection, not_detected, detected}
use arcology.Disc.Ics.{detect_ics_partitions}
use arcology.Disc.Hccs.{detect_hccs_partitions, detect_simtec_signature}
use arcology.Disc.Nexus.{detect_nexus_partitions}

abbrev pub or_else : Detection → Detection → Detection
or_else not_detected other = other
or_else (detected scheme header partitions) other = detected scheme header partitions

unfoldable pub detect_acorn_partitions : Image → Detection
unfolding detect_ics_partitions detect_hccs_partitions detect_simtec_signature
    detect_nexus_partitions
detect_acorn_partitions image = or_else (detect_nexus_partitions image) (
    or_else (detect_ics_partitions image)
      (or_else (detect_hccs_partitions image) (detect_simtec_signature image)))
