-- ===== src/Carve.antt =====
-- worker/arcworker/analyses/partition.py, process_partition_detect: the partitions of a disc, the space between
-- them, and what is done with each; the protection probe of worker/arcworker/analyses/_protections.py; and the
-- two functions of worker/arcworker/compression.py that read a part of an image.
pub mod Chunks
pub mod Effects
pub mod Cover
pub mod Restore
pub mod Acorn
pub mod Whole
use arcology.Base.{
  ℕ, zero, suc, ◌+◌, ◌-◌, Bool, true, false, not, ◌&&◌, ◌||◌, Option, none, some, List, [], ◌∷◌,
  ◌++◌, map, length, all, min, ltb, leb, ◌==◌, if◌then◌else◌,
}
use arcology.Base.Text.{Text, codes, is_empty}
use arcology.Base.Int.{ℤ, pos, negsuc, ltb_ℤ, shift, pos_part}
use arcology.Disc.{
  Bytes, Image, Partition, Detail, ics, hccs, nexus, Scheme, nexus_scheme, Detection, not_detected,
  detected, read, bit,
}
use arcology.Disc.Fat.{Fat, fat12, fat16, fat32}

-- CHUNK_SIZE
abbrev pub chunk_size : ℕ
chunk_size = 1048576

-- The chunks that the loop on `remaining` reads: up to the end of the range or of the file.
unfoldable pub read_chunks : ℕ → Image → ℕ → ℕ → ℕ → List Bytes
unfolding read
read_chunks size image offset zero remaining = []
read_chunks size image offset (suc fuel) remaining =
    let chunk = read image offset (min remaining size) in
    let rest = read_chunks size image (offset + length chunk) fuel (remaining - length chunk) in
    if remaining == 0 then [] else if is_empty chunk then [] else chunk ∷ rest

abbrev pub join : List Bytes → Bytes
join [] = []
join (chunk ∷ chunks) = chunk ++ join chunks

-- extract_partition_range: what is written, for a start that is not below 0.
unfoldable pub extract_partition_range : ℕ → Image → ℕ → ℤ → Bytes
unfolding read_chunks
extract_partition_range size image start_byte size_bytes =
    join (read_chunks size image start_byte (pos_part size_bytes) (pos_part size_bytes))

-- is_region_uniform: the byte that fills the region, or `none` where the bytes differ.
unfoldable pub is_region_uniform : ℕ → Image → ℕ → ℕ → Option ℕ
unfolding read_chunks read
is_region_uniform size image start_byte size_bytes =
    if size_bytes == 0 then some 0 else elim (read image start_byte 1) [
      | [] ↦ some 0
      | fill_value ∷ rest ↦
          if all (all (λ b. b == fill_value))
            (read_chunks size image (suc start_byte) (size_bytes - 1) (size_bytes - 1))
          then some fill_value
          else none
    ]

-- A dict of `detected_partitions`, with the keys that the handler reads.
pub record Found : Type 0 where
  pub index : ℕ
  pub start_byte : ℕ
  pub size_bytes : ℤ
  pub filesystem : Text
  pub disc_name : Text
  pub container_format : Option Text
  pub is_printer : Bool

-- `partition.get('nexus_flags', {}).get('printer', False)`
abbrev pub printer_flag : Detail → Bool
printer_flag (nexus drive station flags) = bit flags 3
printer_flag _ = false

unfoldable pub of_partition : Partition → Found
of_partition p = record {
  index = p.index;
  start_byte = p.start_byte;
  size_bytes = p.size_bytes;
  filesystem = if p.is_adfs then codes "adfs" else codes "other";
  disc_name = p.disc_name;
  container_format = none;
  is_printer = printer_flag p.detail;
}

-- One partition for the whole disc.
unfoldable pub whole_disc : Image → Text → Option Text → Found
whole_disc image filesystem container_format = record {
  index = 0;
  start_byte = 0;
  size_bytes = pos image.size;
  filesystem = filesystem;
  disc_name = [];
  container_format = container_format;
  is_printer = false;
}

unfoldable pub fat_name : Option Fat → Text
fat_name none = codes "unknown"
fat_name (some fat12) = codes "fat12"
fat_name (some fat16) = codes "fat16"
fat_name (some fat32) = codes "fat32"

-- `filesystem_hint or inferred_fs`
unfoldable pub inferred : Text → Option Fat → Text
unfolding fat_name
inferred hint fat = if is_empty hint then fat_name fat else hint

-- Steps 1 to 5: the first detector that finds something. `adfs` is the label that the ADFS detector gives, where it
-- finds a signature, and `sfdisk` the partitions that sfdisk lists, or none where it fails.
unfoldable pub choose_partitions :
    Image → Detection → Option Text → List Found → Text → Option Fat → List Found
unfolding of_partition whole_disc inferred
choose_partitions image (detected scheme header (p ∷ ps)) adfs sfdisk hint fat =
    map of_partition (p ∷ ps)
choose_partitions image (detected scheme header []) adfs sfdisk hint fat =
    whole_disc image (codes "adfs") none ∷ []
choose_partitions image not_detected (some label) sfdisk hint fat =
    whole_disc image (codes "adfs") (some label) ∷ []
choose_partitions image not_detected none [] hint fat =
    whole_disc image (inferred hint fat) none ∷ []
choose_partitions image not_detected none (p ∷ ps) hint fat = p ∷ ps

unfoldable pub offset_index : ℕ → Found → Found
offset_index base p = record p { index = p.index + base }

abbrev pub end_byte : Found → ℤ
end_byte p = shift p.size_bytes p.start_byte

unfoldable pub should_register_derived : Image → List Found → Bool
should_register_derived image [] = false
should_register_derived image (p ∷ []) = ltb 0 p.start_byte || ltb_ℤ (end_byte p) (pos image.size)
should_register_derived image (p ∷ q ∷ ps) = true

-- The texts of 'label'.
pub data GapLabel : Type 0 where
  nexus_firmware pre_partition post_partition : GapLabel
  between : ℕ → ℕ → GapLabel

pub record Gap : Type 0 where
  pub start : ℤ
  pub size : ℕ
  pub label : GapLabel

-- b - a, where a < b.
abbrev pub distance : ℤ → ℕ → ℕ
distance (pos a) b = b - a
distance (negsuc a) b = b + suc a

-- The gap from the end of a partition to a byte, if there is one.
unfoldable pub gap_to : GapLabel → ℤ → ℕ → List Gap
gap_to label a b =
    if ltb_ℤ a (pos b) then record { start = a; size = distance a b; label = label } ∷ [] else []

-- The gaps after a partition: between it and the next, and so on, up to the end of the disc.
unfoldable pub gaps_after : Image → Found → List Found → List Gap
unfolding gap_to
gaps_after image p [] = gap_to post_partition (end_byte p) image.size
gaps_after image p (q ∷ qs) =
    gap_to (between p.index q.index) (end_byte p) q.start_byte ++ gaps_after image q qs

-- `sorted(..., key=start_byte)`, which is stable.
unfoldable pub insert_part : Found → List Found → List Found
insert_part p [] = p ∷ []
insert_part p (q ∷ qs) = if leb p.start_byte q.start_byte then p ∷ q ∷ qs else q ∷ insert_part p qs

unfoldable pub sort_parts : List Found → List Found
unfolding insert_part
sort_parts [] = []
sort_parts (p ∷ ps) = insert_part p (sort_parts ps)

abbrev pub is_nexus : Detection → Bool
is_nexus (detected nexus_scheme header partitions) = true
is_nexus _ = false

unfoldable pub gaps_of_sorted : Image → Bool → List Found → List Gap
unfolding gap_to gaps_after
gaps_of_sorted image firmware [] = []
gaps_of_sorted image firmware (p ∷ ps) =
    gap_to (if firmware then nexus_firmware else pre_partition) (pos 0) p.start_byte
    ++ gaps_after image p ps

unfoldable pub unpartitioned : Image → Bool → List Found → List Gap
unfolding sort_parts gaps_of_sorted
unpartitioned image firmware ps = gaps_of_sorted image firmware (sort_parts ps)
