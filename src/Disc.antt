-- ===== src/Disc.antt =====
-- worker/arcworker/tools/partition.py: raw disc images, and the byte and word reads that the detectors of
-- partitions make. An image is its size and its bytes; what is read past the end is not there.
pub mod Words
pub mod Filecore
pub mod Ics
pub mod Hccs
pub mod Nexus
pub mod Schemes
pub mod Fat
pub mod Label
use arcology.Base.{
  ℕ, zero, suc, ◌+◌, ◌-◌, ◌*◌, ◌/◌, ◌%◌, ◌^◌, Bool, true, false, ◌&&◌, List, [], ◌∷◌, min, get_or,
  take, drop, ◌==◌, Option,
}
use arcology.Base.Text.{Text}
use arcology.Base.Int.{ℤ}

abbrev pub Bytes : Type 0
Bytes = List ℕ

pub record Image : Type 0 where
  pub size : ℕ
  pub byte : ℕ → ℕ

-- The bytes from an offset on, as many as asked for.
unfoldable pub bytes_from : (ℕ → ℕ) → ℕ → ℕ → Bytes
bytes_from byte offset zero = []
bytes_from byte offset (suc n) = byte offset ∷ bytes_from byte (suc offset) n

-- `f.seek(offset); f.read(n)`
unfoldable pub read : Image → ℕ → ℕ → Bytes
unfolding bytes_from
read image offset n = bytes_from image.byte offset (min n (image.size - offset))

-- `d[i]` for an index that the code has checked.
abbrev pub byte_at : Bytes → ℕ → ℕ
byte_at d i = get_or d i 0

-- `d[first:last]`
abbrev pub slice : Bytes → ℕ → ℕ → Bytes
slice d first last = drop first (take last d)

-- `struct.unpack_from('<H', d, o)[0]` and `'<I'`.
abbrev pub u16 : Bytes → ℕ → ℕ
u16 d o = byte_at d o + 256 * byte_at d (o + 1)

abbrev pub u32 : Bytes → ℕ → ℕ
u32 d o = u16 d o + 65536 * u16 d (o + 2)

-- Whether bit k of a number is set: `bool(x & (1 << k))`.
abbrev pub bit : ℕ → ℕ → Bool
bit x k = x / 2 ^ k % 2 == 1

-- What a scheme keeps of a partition beside its place.
pub data Detail : Type 0 where
  -- boot_block_valid, and the protection level with the two hash words where the boot block was read
  ics : ℕ → ℕ → Bool → Option (ℕ × ℕ × ℕ) → Detail
  -- the obfuscated password, and the two access words
  hccs : Bytes → ℕ → ℕ → Detail
  -- drive number, station and flags
  nexus : ℕ → ℕ → ℕ → Detail

-- A dict of the list 'partitions'. The filesystem is 'adfs', or else 'other'.
pub record Partition : Type 0 where
  pub index : ℕ
  pub start_byte : ℕ
  pub size_bytes : ℤ
  pub is_adfs : Bool
  pub disc_name : Text
  pub detail : Detail

-- The dict of a detector: not 'detected', or the scheme, its header words, and the partitions.
pub data Scheme : Type 0 where
  ics_idefs hccs_scheme nexus_scheme simtec : Scheme

pub data Detection : Type 0 where
  not_detected : Detection
  detected : Scheme → List ℕ → List Partition → Detection
