-- ===== src/Tests.antt =====
-- Runs on concrete data, and the theorems at inputs that meet their hypotheses.
mod Queue
mod Runner
mod Visibility
mod Restrictions
mod Privacy
mod Upload
mod Slugs
mod Disc
mod Imd
mod Jobs
mod Storage
mod Armlock
mod Artefacts
mod Carve
