-- ===== src/Tests/Disc.antt =====
-- Disc and its modules on small images, given by the bytes that are not 0.
use arcology.Base.{
  inl, inr, ℕ, zero, suc, ◌+◌, ◌%◌, ◌≤◌, ◌≡◌, ◌≢◌, refl, true, false, some, List, [], ◌∷◌, ◌++◌,
  map, length, All, replicate, ◌==◌, arith, if◌then◌else◌,
}
use arcology.Base.Text.{codes, same_text, rstrip}
use arcology.Base.Int.{ℤ, pos, negsuc}
use arcology.Disc.{Bytes, Image, Partition, bytes_from, read, slice}
use arcology.Disc.Words.{IsByte}
use arcology.Disc.Filecore.{name_and_size, validate_boot_block_checksum}
use arcology.Disc.Filecore.Checksum.{validate_boot_block_checksum_damage}
use arcology.Disc.Ics.{ics_entries}
use arcology.Disc.Ics.Laws.{IsNumbered, IsClamped, ics_entries_lem}
use arcology.Disc.Hccs.{hccs_partitions}
use arcology.Disc.Hccs.Laws.{IsChain, hccs_partitions-IsChain}
use arcology.Disc.Schemes.{detect_acorn_partitions}
use arcology.Disc.Schemes.Laws.{AreCarvable, detect_acorn_partitions_carvable}
use arcology.Disc.Label.{entry_label, decode_fat_label, root_label}
use arcology.Disc.Label.Laws.{join_entries, root_label-first}
use arcology.Disc.Fat.{fat12, detect_fat_filesystem}

abbrev byte_in : List (ℕ × ℕ) → ℕ → ℕ
byte_in [] o = 0
byte_in ((k, b) ∷ rest) o = if o == k then b else byte_in rest o

abbrev place : Partition → ℕ × ℤ
place p = (p.start_byte, p.size_bytes)

-- Two partitions of 4096 bytes: the magic word and the size of each are in its boot block.
abbrev hccs_disc : Image
hccs_disc = record {
  size = 8192;
  byte = λ o.
      byte_in ((0xdb0, 65) ∷ (0xdb1, 110) ∷ (0xdb2, 100) ∷ (0xdb3, 121) ∷ (0xdd1, 0x10) ∷ [])
        (o % 4096);
}

hccs_sizes : map place (hccs_partitions hccs_disc 3 0 0) ≡ (0, pos 4096) ∷ (4096, pos 4096) ∷ []
unfolding hccs_partitions read same_text name_and_size
hccs_sizes = refl

hccs_partitions-IsChain_example : IsChain 8192 0 0 (hccs_partitions hccs_disc 3 0 0)
hccs_partitions-IsChain_example = hccs_partitions-IsChain hccs_disc 3 0 0

detect_acorn_partitions_carvable_example : AreCarvable hccs_disc (detect_acorn_partitions hccs_disc)
detect_acorn_partitions_carvable_example = detect_acorn_partitions_carvable hccs_disc

-- A table whose only entry starts past the end of the image.
abbrev ics_disc : Image
ics_disc = record { size = 1024; byte = byte_in ((0, 4) ∷ (4, 2) ∷ []) }

abbrev ics_sector : Bytes
ics_sector = 4 ∷ 0 ∷ 0 ∷ 0 ∷ 2 ∷ []

ics_sizes : map place (ics_entries ics_disc ics_sector 63 0 0) ≡ (2048, negsuc 1023) ∷ []
unfolding ics_entries
ics_sizes = refl

ics_entries_lem_example :
    let ps = ics_entries ics_disc ics_sector 63 0 0 in
    (0 + length ps ≤ 4) × IsNumbered 0 ps × All (IsClamped ics_disc) ps
ics_entries_lem_example = ics_entries_lem ics_disc ics_sector 63 0 0 (omega arith)

-- A boot block of a 1, zeros, and the checksum 1.
abbrev block_end : Bytes
block_end = replicate 510 0 ++ (1 ∷ [])

ends_in_bytes : (n : ℕ) → All IsByte (replicate n 0 ++ (1 ∷ []))
ends_in_bytes zero = (omega arith, tt)
ends_in_bytes (suc n) = (omega arith, ends_in_bytes n)

block_checks : validate_boot_block_checksum ([] ++ 1 ∷ block_end) ≡ true
unfolding validate_boot_block_checksum
block_checks = refl

one_not_two : (1 % 255) ≢ (2 % 255)
one_not_two h = cc h

validate_boot_block_checksum_damage_example :
    validate_boot_block_checksum ([] ++ 2 ∷ block_end) ≡ false
validate_boot_block_checksum_damage_example =
    validate_boot_block_checksum_damage [] 1 2 block_end (omega arith) tt (omega arith)
      (omega arith) (ends_in_bytes 510) one_not_two block_checks

-- A boot sector of a floppy disc.
abbrev fat_sector : Bytes
fat_sector =
    bytes_from
      (byte_in (
        (12, 2)
        ∷ (13, 2)
        ∷ (14, 1)
        ∷ (16, 2)
        ∷ (17, 112)
        ∷ (20, 5)
        ∷ (21, 0xf9)
        ∷ (22, 3)
        ∷ (510, 0x55)
        ∷ (511, 0xaa)
        ∷ []))
      0 512

fat_sector-fat12 : detect_fat_filesystem fat_sector ≡ some fat12
unfolding detect_fat_filesystem bytes_from same_text rstrip
fat_sector-fat12 = refl

-- A deleted entry, a part of a long name, a directory, a volume named DISC, and something after it.
abbrev dir_entry : ℕ → ℕ → Bytes
dir_entry first attr = first ∷ codes "ISC       " ++ (attr ∷ replicate 20 0)

disc_label : entry_label (λ t. t) (λ t. t) (dir_entry 68 8) ≡ some (codes "DISC")
unfolding entry_label decode_fat_label
disc_label = refl

disc_name : decode_fat_label (λ t. t) (λ t. t) (slice (dir_entry 68 8) 0 11) ≡ some (codes "DISC")
unfolding decode_fat_label
disc_name = refl

root_label-first_example :
    root_label
      (λ t. t)
      (λ t. t)
      162
      (join_entries (dir_entry 0xe5 8 ∷ dir_entry 65 0x0f ∷ dir_entry 66 24 ∷ [])
        ++ (dir_entry 68 8 ++ (1 ∷ 2 ∷ [])))
    ≡ some (codes "DISC")
root_label-first_example =
    root_label-first (λ t. t) (λ t. t) 162
      (dir_entry 0xe5 8 ∷ dir_entry 65 0x0f ∷ dir_entry 66 24 ∷ []) (dir_entry 68 8) (1 ∷ 2 ∷ [])
      (codes "DISC")
      (
        (refl, ground arith, inl refl),
        (
          (refl, ground arith, inr (inl refl)),
          ((refl, ground arith, inr (inr (inr (inl refl)))), tt),
        ),
      )
      (refl, ground arith, ground arith, ground arith, refl, refl, disc_name) (omega arith)
