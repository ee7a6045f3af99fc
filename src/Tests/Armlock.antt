-- ===== src/Tests/Armlock.antt =====
-- Armlock and its modules on a disc of two zones, given by the bytes that are not 0.
use arcology.Base.{
  ℕ, replicate, ltb, leb, get_or, ◌&&◌, none, ◌-◌, ◌+◌, ◌%◌, ◌≡◌, refl, true, false, some, List, [],
  ◌∷◌, ◌++◌, drop, arith, ◌==◌, if◌then◌else◌,
}
use arcology.Base.Text.{codes, same_text, strip}
use arcology.Base.Int.{pos}
use arcology.Base.Result.{ok, raised}
use arcology.Disc.{Bytes, Image, read, slice}
use arcology.Disc.Filecore.{DiscRecord}
use arcology.Armlock.{
  armlock_addresses, disc_record_addr, stash_addr, read_disc_record, zone_disc_address,
}
use arcology.Armlock.Remove.{remove_armlock, old_map, too_small_for_boot_block}
use arcology.Armlock.Remove.Laws.{IsLockable}
use arcology.Armlock.Remove.Writes.{IsRestored}
use arcology.Armlock.Remove.Restored.{remove_armlock-IsRestored}
use arcology.Armlock.Header.{parse_module_header}
use arcology.Armlock.Detect.{
  no_signature, ZoneMap, Report, no_config, no_header, detect_armlock_scan,
}
use arcology.Armlock.Detect.Removed.{detect_armlock_scan-removed}
use arcology.Armlock.Zones.{walk_zone, walk_zone_map}
use arcology.Armlock.Zones.Bounds.{Walked, walk_zone_ends}
use arcology.Armlock.Zones.Ascending.{AreBetween, walk_zone_map-AreBetween}
use arcology.Armlock.Options.{
  ArmlockOptions, BootupOptions, parse_armlock_options, parse_bootup_options,
}
use arcology.Armlock.Options.RoundTrip.{print_options, parse_armlock_options-print}

abbrev byte_in : List (ℕ × ℕ) → ℕ → ℕ
byte_in [] o = 0
byte_in ((k, b) ∷ rest) o = if o == k then b else byte_in rest o

-- Sectors of 512 bytes, identifiers of 3 bits, units of a byte and two zones; the map is at 3584. The map has a
-- fragment of identifier 2 in its first zone, and a boot option that is encoded.
abbrev locked_disc : Image
locked_disc = record {
  size = 8192;
  byte = λ o.
      byte_in
        ((0xdc0, 9)
          ∷ (0xdc4, 3)
          ∷ (0xdc9, 2)
          ∷ (3584 + 0x0b, 8)
          ∷ (3584 + 64, 0x42)
          ∷ (4608 + 0x0b, 8)
          ∷ (0x401, 0x48)
          ∷ [])
        o
      % 256;
}

abbrev locked_record : DiscRecord
locked_record = record {
  log2_sector_size = 9;
  sectors_per_track = 0;
  heads = 0;
  density = 0;
  idlen = 3;
  log2_bpmb = 0;
  skew = 0;
  boot_option = 0;
  low_sector = 0;
  nzones = 2;
  zone_spare = 0;
  root_dir = 0;
  disc_size_lo = 0;
  disc_name = [];
  disc_id = 0;
  disc_size_hi = 0;
  share_size = 0;
  big_flag = 0;
  format_version = 0;
  disc_size = 0;
  sector_size = 512;
  bpmb = 1;
}

read-locked_record :
    read_disc_record (slice (read locked_disc 0 0x1000) disc_record_addr (disc_record_addr + 0x40))
    ≡ some locked_record
unfolding read_disc_record read strip
read-locked_record = refl

locked_record-IsLockable : IsLockable locked_record
locked_record-IsLockable = record {
  new_map = refl;
  sectors = omega arith;
  words = refl;
  units = omega arith;
  zones = omega arith;
}

map_place : zone_disc_address locked_record 1 ≡ pos 3584
unfolding zone_disc_address
map_place = refl

remove_armlock-IsRestored_example :
    (out : Image) × (remove_armlock locked_disc ≡ ok out) × IsRestored 512 3584 1024 locked_disc out
remove_armlock-IsRestored_example =
    remove_armlock-IsRestored locked_disc locked_record 3584 read-locked_record
      locked_record-IsLockable map_place (omega arith) (λ o. omega arith)

no_text : same_text (read locked_disc (stash_addr + 0x400) 17) (codes "ARMlock installed") ≡ false
unfolding same_text read
no_text = refl

detect_armlock_scan-removed_example :
    (out : Image) × (remove_armlock locked_disc ≡ ok out)
    × (detect_armlock_scan out ≡ no_signature locked_record (armlock_addresses locked_record))
detect_armlock_scan-removed_example =
    detect_armlock_scan-removed locked_disc locked_record 3584 read-locked_record
      locked_record-IsLockable map_place (omega arith) (λ o. omega arith) no_text

-- The fragment with identifier 2: seven bits from the first unit on.
fragments_of_two : walk_zone_map locked_disc locked_record 2 ≡ (pos 0, 7) ∷ []
unfolding walk_zone_map
fragments_of_two = refl

end_of_disc : zone_disc_address locked_record 2 ≡ pos 7648
unfolding zone_disc_address
end_of_disc = refl

walk_zone_map-AreBetween_example : AreBetween 0 7648 (walk_zone_map locked_disc locked_record 2)
walk_zone_map-AreBetween_example =
    walk_zone_map-AreBetween locked_disc locked_record 2 7648 (omega arith) (omega arith)
      end_of_disc

walk_zone_ends_example :
    Walked locked_record 2 0 [] 512 0 (walk_zone locked_record 2 0 [] 4096 512 0)
walk_zone_ends_example = walk_zone_ends locked_record 2 0 [] 4096 512 0 (omega arith)

abbrev two_paths : ArmlockOptions
two_paths = record {
  hash_word1 = 0xdeadbeef;
  hash_word2 = 7;
  management_flag = 1;
  app_paths = codes "$.Apps.!Draw" ∷ codes "$.Lib" ∷ [];
}

abbrev serial_five : BootupOptions
serial_five = record { install_serial = 5; config_flag = 0; password_required = true }

path_one : strip (codes "$.Apps.!Draw") ≡ codes "$.Apps.!Draw"
unfolding strip
path_one = refl

path_two : strip (codes "$.Lib") ≡ codes "$.Lib"
unfolding strip
path_two = refl

parse_armlock_options-print_example :
    (parse_armlock_options (print_options two_paths serial_five ++ []) ≡ some two_paths)
    × (parse_bootup_options (drop 8 (print_options two_paths serial_five ++ [])) ≡ some serial_five)
parse_armlock_options-print_example =
    parse_armlock_options-print two_paths serial_five [] (omega arith) (omega arith) (omega arith)
      ((refl, refl, path_one), ((refl, refl, path_two), tt))

old_disc : remove_armlock (record { size = 4096; byte = λ o. 0 }) ≡ raised old_map
unfolding remove_armlock read
old_disc = refl

short_disc : remove_armlock (record { size = 100; byte = λ o. 0 }) ≡ raised too_small_for_boot_block
unfolding remove_armlock read
short_disc = refl

-- The same disc with the signature.
abbrev protected_disc : Image
protected_disc = record {
  size = 8192;
  byte = λ o.
      (if leb 6656 o && ltb o 6673
        then get_or (codes "ARMlock installed") (o - 6656) 0
        else locked_disc.byte o)
      % 256;
}

abbrev protected_map : ℕ → ℕ → ZoneMap
protected_map address check = record {
  address = pos address;
  stored_boot_option = 8;
  real_boot_option = 2;
  check_byte = 0;
  check_valid = false;
  expected_check = check;
}

abbrev protected_report : Report
protected_report = record {
  zone_map_primary = protected_map 3584 0x4a;
  zone_map_backup = protected_map 4608 0x08;
  stripped_root = [];
  real_root = [];
  config = no_config;
  module_file = none;
  module_header = no_header;
}

-- A module whose title and help are at offsets 24 and 32 of it.
abbrev small_module : Bytes
small_module =
    replicate 16 0
    ++ (24 ∷ 0 ∷ 0 ∷ 0 ∷ 32 ∷ 0 ∷ 0 ∷ 0 ∷ [])
    ++ codes "ARMlock"
    ++ (0 ∷ [])
    ++ codes "ARMlock"
    ++ (9 ∷ [])
    ++ codes "1.00"
    ++ (0 ∷ [])

small_module_header : parse_module_header small_module ≡ record {
  title = some (codes "ARMlock");
  help_text = some (codes "ARMlock" ++ (9 ∷ codes "1.00"));
  version = some (codes "1.00");
}
unfolding parse_module_header
small_module_header = refl
