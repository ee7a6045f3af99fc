-- ===== src/Armlock/Detect.antt =====
-- _detect_armlock_scan: what the detector reports of a disc.
pub mod Removed
use arcology.Base.{
  ℕ, ◌+◌, Bool, true, false, not, ◌&&◌, ◌||◌, Option, none, some, List, [], ◌∷◌, map, ltb, leb,
  ◌==◌, if◌then◌else◌,
}
use arcology.Base.Text.{Text, codes, same_text, is_empty}
use arcology.Base.Int.{ℤ, pos}
use arcology.Disc.{Bytes, Image, read}
use arcology.Disc.Filecore.{DiscRecord}
use arcology.Armlock.{
  Addresses, disc_record_addr, stash_addr, is_past, read_at, index_at, read_disc_record,
  armlock_addresses, compute_zone_check, decode_armlock_boot_option,
}
use arcology.Base.Int.{shift}
use arcology.Armlock.Files.{Entry, extract_file_by_sin, parse_directory, read_subdir_by_sin}
use arcology.Armlock.Header.{ModuleHeader, parse_module_header}
use arcology.Armlock.Options.{
  ArmlockOptions, BootupOptions, parse_armlock_options, parse_bootup_options,
}

infixl 5 ◌>>=◌
abbrev ◌>>=◌ {ℓ κ} : {A : Type ℓ} {B : Type κ} → Option A → (A → Option B) → Option B
none >>= f = none
some a >>= f = f a

pub record ZoneMap : Type 0 where
  pub address : ℤ
  pub stored_boot_option : ℕ
  pub real_boot_option : ℕ
  pub check_byte : ℕ
  pub check_valid : Bool
  pub expected_check : ℕ

-- The dict of one copy of the map; `none` is an exception.
unfoldable pub zone_map : Image → DiscRecord → ℤ → Option ZoneMap
unfolding index_at read_at compute_zone_check decode_armlock_boot_option
zone_map image rec map_addr = do
  stored ← index_at image (shift map_addr 0x0b)
  check ← index_at image map_addr
  expected ← compute_zone_check (read_at image map_addr rec.sector_size)
  some (record {
    address = map_addr;
    stored_boot_option = stored;
    real_boot_option = decode_armlock_boot_option stored;
    check_byte = check;
    check_valid = check == expected;
    expected_check = expected;
  })

-- `next((e for e in entries if ...), None)`
unfoldable pub find_entry : (Entry → Bool) → List Entry → Option Entry
find_entry p [] = none
find_entry p (e ∷ es) = if p e then some e else find_entry p es

-- `.lower()` of an ASCII name
abbrev pub lower : Text → Text
lower = map (λ c. if leb 65 c && leb c 90 then c + 32 else c)

-- What the files named Options say: of $.ARMlock.!ARMlock and of $.ARMlock.BootUp.
pub record SecurityConfig : Type 0 where
  pub options : Option (Option ArmlockOptions)
  pub bootup : Option (Option BootupOptions)

abbrev pub no_config : SecurityConfig
no_config = record { options = none; bootup = none }

-- The last lines of the inner loop: which of the two files this is.
unfoldable pub set_config : Text → Bytes → SecurityConfig → SecurityConfig
unfolding same_text parse_armlock_options parse_bootup_options
set_config directory file_data config =
    if same_text directory (codes "!armlock")
    then record config { options = some (parse_armlock_options file_data) }
    else if same_text directory (codes "bootup")
    then record config { bootup = some (parse_bootup_options file_data) }
    else config

module _ (image : Image) (rec : DiscRecord) where
  -- A turn of the inner loop: a file named Options that holds something and is not a directory.
  unfoldable pub read_config_file : Text → Entry → SecurityConfig → SecurityConfig
  unfolding same_text read_subdir_by_sin extract_file_by_sin set_config
  read_config_file directory sfe config =
      if not (same_text (lower sfe.name) (codes "options")) || sfe.length == 0
      then config
      else elim (read_subdir_by_sin image rec sfe.sin) [
        | some entries ↦ config
        | none ↦ elim (extract_file_by_sin image rec sfe.sin sfe.length) [
          | none ↦ config
          | some file_data ↦
              if is_empty file_data then config else set_config directory file_data config
        ]
      ]

  unfoldable pub read_config_files : Text → List Entry → SecurityConfig → SecurityConfig
  unfolding read_config_file
  read_config_files directory [] config = config
  read_config_files directory (e ∷ es) config =
      read_config_files directory es (read_config_file directory e config)

  -- The outer loop, over the subdirectories of $.ARMlock.
  unfoldable pub read_config_dirs : List Entry → SecurityConfig → SecurityConfig
  unfolding read_subdir_by_sin read_config_files
  read_config_dirs [] config = config
  read_config_dirs (fe ∷ fes) config =
      read_config_dirs fes (elim (read_subdir_by_sin image rec fe.sin) [
        | none ↦ config
        | some sd_entries ↦ read_config_files (lower fe.name) sd_entries config
      ])

  unfoldable pub armlock_config : List Entry → SecurityConfig
  unfolding same_text find_entry read_subdir_by_sin read_config_dirs
  armlock_config real_entries =
      elim (find_entry
        (λ e.
          same_text (lower e.name) (codes "armlock") || same_text (lower e.name) (codes "!armlock"))
        real_entries) [
          | none ↦ no_config
          | some dir ↦ elim (read_subdir_by_sin image rec dir.sin) [
            | none ↦ no_config
            | some entries ↦ read_config_dirs entries no_config
          ]
        ]

  -- The module, from the file !Boot of the stripped root.
  unfoldable pub module_data : List Entry → Option Bytes
  unfolding same_text find_entry extract_file_by_sin
  module_data stripped_entries =
      elim (find_entry (λ e. same_text e.name (codes "!Boot")) stripped_entries) [
        | none ↦ none
        | some boot ↦
            if ltb 0 boot.length then extract_file_by_sin image rec boot.sin boot.length else none
      ]

pub record Report : Type 0 where
  pub zone_map_primary : ZoneMap
  pub zone_map_backup : ZoneMap
  pub stripped_root : List Entry
  pub real_root : List Entry
  pub config : SecurityConfig
  pub module_file : Option Bytes
  pub module_header : ModuleHeader

abbrev pub no_header : ModuleHeader
no_header = record { title = none; help_text = none; version = none }

-- `if module_data:`
unfoldable pub header_of : Option Bytes → ModuleHeader
unfolding parse_module_header
header_of none = no_header
header_of (some d) = if is_empty d then no_header else parse_module_header d

-- The texts of 'error'.
pub data ScanError : Type 0 where
  small_for_boot_block small_for_disc_record old_map_disc small_for_addresses : ScanError

-- The dict that the scan returns: with an error, without a signature, or of a disc that is locked.
pub data Scan : Type 0 where
  failed : ScanError → Scan
  no_signature : DiscRecord → Addresses → Scan
  locked : DiscRecord → Addresses → Report → Scan
  uncaught : Scan

abbrev pub is_detected : Scan → Bool
is_detected (locked rec addrs report) = true
is_detected _ = false

abbrev pub entries_or_none : Option (List Entry) → List Entry
entries_or_none none = []
entries_or_none (some entries) = entries

unfoldable pub report : Image → DiscRecord → Addresses → Option Report
unfolding zone_map parse_directory armlock_config module_data header_of
report image rec addrs = do
  primary ← zone_map image rec addrs.map_primary
  backup ← zone_map image rec addrs.map_backup
  let stripped = entries_or_none (parse_directory image addrs.root_dir)
  let real = entries_or_none (parse_directory image (pos stash_addr))
  some (record {
    zone_map_primary = primary;
    zone_map_backup = backup;
    stripped_root = stripped;
    real_root = real;
    config = armlock_config image rec real;
    module_file = module_data image rec stripped;
    module_header = header_of (module_data image rec stripped);
  })

abbrev pub signature_text : Bytes
signature_text = codes "ARMlock installed"

-- From the disc record on.
unfoldable pub scan_disc : Image → DiscRecord → Scan
unfolding armlock_addresses read_at same_text report
scan_disc image rec =
    let addrs = armlock_addresses rec in
    if is_past image (shift addrs.signature 17)
    then failed small_for_addresses
    else if same_text (read_at image addrs.signature 17) signature_text
    then elim (report image rec addrs) [ none ↦ uncaught | some r ↦ locked rec addrs r ]
    else no_signature rec addrs

unfoldable pub detect_armlock_scan : Image → Scan
unfolding read_disc_record scan_disc
detect_armlock_scan image =
    if ltb image.size 0xe00
    then failed small_for_boot_block
    else elim (read_disc_record (read image disc_record_addr 0x40)) [
      | none ↦ failed small_for_disc_record
      | some rec ↦ if rec.idlen == 0 then failed old_map_disc else scan_disc image rec
    ]
