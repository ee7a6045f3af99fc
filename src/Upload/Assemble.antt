-- ===== src/Upload/Assemble.antt =====
-- assemble_to_storage: the chunks are copied to one file in buffers, under a limit on its size, hashed
-- as they are copied, and stored. Storage and hashes are arguments.
pub mod Bounds
use arcology.Base.{
  ℕ, zero, suc, ◌+◌, ◌-◌, ◌≤◌, ◌<◌, ◌≡◌, ◌⊎◌, refl, ap, ◌∙◌, Bool, true, false, Option, none, some,
  List, [], ◌∷◌, ◌++◌, ltb, if◌then◌else◌, map, arith, min, take, drop, length, length-append,
  length-take, length-drop, Bool-cases, inl, inr,
}
use arcology.Base.Result.{Result, ok, raised}
use arcology.Base.Text.{Text, is_empty}
use arcology.Upload.Chunks.{Bytes, Files, range}

-- One chunk file copied after what the file holds already, and whether the limit was passed. Each turn of
-- the fuel reads a buffer.
unfoldable pub copy : ℕ → ℕ → ℕ → Bytes → Bytes → Bytes × Bool
copy zero buffer max_size spool bytes = (spool, false)
copy (suc n) buffer max_size spool bytes =
    let rest = copy n buffer max_size (spool ++ take buffer bytes) (drop buffer bytes) in
    if is_empty (take buffer bytes)
    then (spool, false)
    else if ltb max_size (length (spool ++ take buffer bytes))
    then (spool ++ take buffer bytes, true)
    else rest

pub data Spooled : Type 0 where
  whole : Bytes → Spooled
  oversize : Bytes → Spooled
  unreadable : Spooled

-- The chunk files in order; opening one that is missing raises.
unfoldable pub spool_chunks : ℕ → ℕ → Bytes → List (Option Bytes) → Spooled
unfolding copy
spool_chunks buffer max_size spool [] = whole spool
spool_chunks buffer max_size spool (none ∷ files) = unreadable
spool_chunks buffer max_size spool (some bytes ∷ files) =
    let (spool', over) = copy (suc (length bytes)) buffer max_size spool bytes in
    let rest = spool_chunks buffer max_size spool' files in if over then oversize spool' else rest

pub data Failure : Type 0 where
  upload_too_large : Failure
  storage_unavailable : Text → Failure
  other_exception : Failure

pub record AssembledUpload : Type 0 where
  pub storage_name : Text
  pub file_size : ℕ
  pub md5 : Text
  pub sha256 : Text

-- The backend: `put` gives the message of the OSError, if one is raised.
pub record Backend : Type 0 where
  pub put : Text → Bytes → Option Text
  pub storage_key : Text → Text
  pub md5 : Bytes → Text
  pub sha256 : Bytes → Text

-- What is stored of a file that was spooled, whole or not.
unfoldable pub store : Backend → Text → Spooled → Result Failure AssembledUpload
store backend name (oversize spool) = raised upload_too_large
store backend name unreadable = raised other_exception
store backend name (whole spool) = elim (backend.put (backend.storage_key name) spool) [
  | some message ↦ raised (storage_unavailable message)
  | none ↦ ok (record {
    storage_name = name;
    file_size = length spool;
    md5 = backend.md5 spool;
    sha256 = backend.sha256 spool;
  })
]

unfoldable pub assemble_to_storage : Backend → Text → ℕ → ℕ → Files → Result Failure AssembledUpload
unfolding store spool_chunks range
assemble_to_storage backend name total_chunks max_size files =
    store backend name (spool_chunks 65536 max_size [] (map files (range 0 total_chunks)))
