-- ===== src/Lib.antt =====
-- Arcology is a catalogue of computer media. People upload artefacts (disc images, archives) into a
-- tree of items; each artefact gets a row of analyses, which workers and the web host's task runner
-- carry out; and what a person may see, change or download depends on owners, shares, privacy flags
-- and download restrictions. These modules model the parts of the Python application that decide
-- those questions. The code is a Flask application (myapp/), a package shared with the workers
-- (arcology_shared/) and the workers (worker/).
--
-- How the parts interact: a request inserts rows in the `analyses` table; workers poll the API
-- (myapp/blueprints/api.py) and claim what pending_claimable_query offers them, the task runner
-- (myapp/taskrunner/runner.py) claims the types that only the web host may run, and a periodic task of
-- the runner resets jobs whose worker has died. Large artefacts arrive in chunks
-- (myapp/services/chunked_upload.py), assembled in the background by whichever request wins the claim
-- on the session. The web pages and the API ask myapp/visibility.py what a caller may see.
--
-- Enums             arcology_shared/enums.py: AnalysisStatus, AnalysisType and its two sets
-- Queue             class Analysis of myapp/database.py, UPDATE and its row count; and, below it,
--   Heartbeat         record_worker_heartbeat, active_worker_count, gc_stale_worker_heartbeats,
--   Cap               resolve_heavy_cap,
--   Claimable         pending_claimable_query, its order, and both claims,
--   Stale             reset_stale_analyses_core, all of myapp/services/analysis_queue.py,
--   Rows              lemmas on UPDATE,
--   Lifecycle         the states of a job as a step relation, and the operations that follow it
-- Api               update_analysis and request_analysis of myapp/blueprints/api.py
-- Runner            class TaskRunner: callbacks, claim, completion and failure of a job; Runner.Loop has
--                   the periodic tasks and the poll loop
-- Visibility        myapp/visibility.py: permissions on items and artefacts, shares, list filters
-- Restrictions      the download gates of myapp/visibility.py, the bypasses of class User, and
--                   myapp/services/restrictions.py
-- Privacy           myapp/utils/privacy.py
-- Upload            myapp/services/chunked_upload.py: chunks, assembly, finalise state, purge
-- Storage           arcology_shared/storage.py: the keys of objects, cut to the limit of the store
-- Slugs             myapp/utils/slugs.py and myapp/utils/safe_redirect.py
-- Disc              worker/arcworker/tools/partition.py: Disc.Filecore has the boot block and the disc
--                   record, Disc.Ics, Disc.Hccs and Disc.Nexus a detector of a partition table each,
--                   Disc.Schemes detect_acorn_partitions, Disc.Fat detect_fat_filesystem, and
--                   Disc.Label read_fat_volume_label
-- Carve             worker/arcworker/analyses/partition.py, from what the detectors find to what is registered, and
--                   the reads of a range in worker/arcworker/compression.py; Carve.Effects has the calls
-- Armlock           worker/arcworker/tools/fs_riscos_armlock.py and class SectorReader of base.py: the addresses and
--                   the check byte; below it Zones, _walk_zone_map, Files, _extract_file_by_sin and
--                   _parse_directory, Options, the two settings files, Header, the header of the module, Detect,
--                   _detect_armlock_scan, File and Remove, a file written in place and remove_armlock
-- Protection        worker/arcworker/analyses/_protections.py and armlock.py: the job that follows the detection of
--                   a partition, and the handler that removes ARMlock
-- Imd               worker/arcworker/tools/imd.py: the header of a track; below it Sectors, the loop over the
--                   sectors of a track, Track0, parse_imd_track0, Tracks, parse_imd_tracks, Density, the
--                   two detectors on tracks, and Geometry, detect_geometry_from_boot_data
-- Artefacts         myapp/services/artefact_lifecycle.py, on the tables as lists of rows: Tree has
--                   get_all_derived_artefact_ids and _collect_item_artefact_ids, Cleanup
--                   _collect_item_cleanup_keys, Delete the DELETEs and _delete_artefact_subtree, Batches
--                   _delete_extracted_files in batches, and Jobs run_artefact_delete_job
-- Base              tests, lists, texts, results and integers that the others share
-- Tests             runs on concrete data
--
-- Modelling. A table is a list of rows in the order in which the database would give rows that tie. An
-- UPDATE maps the rows that its WHERE selects, and its row count is their number. A claim reads one
-- table and updates another, the table as it is by then, so that other claimants may come between.
-- A method that mutates is a function from the old state to the new. Calls on an upload session are
-- a list of calls in the order in which the locks let them through. Times are natural numbers of ticks;
-- comparisons of a difference with a limit are written as sums, since the clock is never before 0.
--
-- A disc image is its size and a function to bytes, of which a read gives what is inside the size. A position
-- in an IMD file is modelled by the bytes from there on, and a dict of sectors by its entries in the order of
-- insertion. The addresses that ARMlock uses are integers, since they are negative for sectors of a few bytes; a
-- slice or a seek there does what Python does, and a bit of a zone whose block is cut off by that reads as 0. A confidence of 0.70 or more, which the code takes as a float, is written as
-- 7 * checked <= 10 * matching: a quotient of numbers of tracks that is below 0.7 is further below than
-- a rounding can bring it back.
--
-- Bounds. Item.ancestors takes `depth` steps at most; where a theorem needs the whole chain, its
-- hypothesis IsForest says that a rank, no larger than `depth`, falls along each parent link. The copy of
-- a chunk has one unit of fuel more than the chunk has bytes, which is enough because each turn reads at
-- least one. The last loop of ensure_unique_slug tries `offsets` numbers; its theorem asks that
-- one of them be free. The fuel of `digits` is the number itself and one. The HCCS loop has as much
-- fuel as the image has bytes and each loop over an IMD file as much as the file, which is enough since a partition
-- is not empty and a track header takes five bytes. A recursive query has as many rounds as
-- the largest id, which is enough since an artefact is created after the one that it is derived from; the deletion in
-- batches has a turn for each file and one more. The walk of a zone of a FileCore map has the bits of the zone, of
-- which each turn takes one or more; a directory has fewer entries than bytes, and a file of settings fewer strings.
--
-- Arguments of the model. The results of sfdisk and of the ADFS detector, floats, int() and round() of a setting, str.lower, str.upper, the decoder of code page 850, the hashes, the deferred reset
-- of a re-analysis, what json.loads finds in the details of an analysis, the storage backend, the ingest of an upload, the job functions, which partitions the API takes and which
-- protection probes raise are arguments, as
-- they are libraries or other services.
--
-- Not modelled. The commits, heartbeats and cancellation of a deletion, but that a run may end between two batches;
-- the deletion of the rows of items; the parsing of requests, forms, templates and serialisation; SQL beyond the queries above;
-- storage backends; the decoders of disc images and media other than those above and the tools that they call; the
-- command line; migrations; and the lookups of slugs by UUID prefix.
pub mod Base
pub mod Api
pub mod Armlock
pub mod Artefacts
pub mod Carve
pub mod Disc
pub mod Enums
pub mod Imd
pub mod Privacy
pub mod Protection
pub mod Queue
pub mod Restrictions
pub mod Runner
pub mod Slugs
pub mod Storage
pub mod Upload
pub mod Visibility
pub mod Tests
