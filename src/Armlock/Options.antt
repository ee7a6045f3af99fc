-- ===== src/Armlock/Options.antt =====
-- The files that ARMlock keeps its settings in: _parse_armlock_options and _parse_bootup_options.
pub mod RoundTrip
use arcology.Base.{
  ℕ, zero, suc, Bool, true, false, not, Option, none, some, List, [], ◌∷◌, length, drop, ltb, ◌==◌,
  if◌then◌else◌,
}
use arcology.Base.Text.{Text, strip, is_empty}
use arcology.Disc.{Bytes, byte_at, u32}
use arcology.Disc.Filecore.{cut_at}
use arcology.Armlock.Files.{decode_ascii}

pub record ArmlockOptions : Type 0 where
  pub hash_word1 : ℕ
  pub hash_word2 : ℕ
  pub management_flag : ℕ
  pub app_paths : List Text

-- What follows the first NUL: nothing where there is none.
unfoldable pub after_nul : Bytes → Bytes
after_nul [] = []
after_nul (b ∷ bs) = if b == 0 then bs else after_nul bs

abbrev pub add_path : Text → List Text → List Text
add_path s paths = if is_empty s then paths else s ∷ paths

-- `while pos < len(data)`: the strings up to an empty one.
unfoldable pub app_paths_from : ℕ → Bytes → List Text
unfolding cut_at strip after_nul
app_paths_from zero bytes = []
app_paths_from (suc fuel) [] = []
app_paths_from (suc fuel) (b ∷ bs) =
    let rest = app_paths_from fuel (after_nul (b ∷ bs)) in
    if b == 0 then [] else add_path (strip (decode_ascii (cut_at 0 (b ∷ bs)))) rest

-- `none` is the empty dict.
unfoldable pub parse_armlock_options : Bytes → Option ArmlockOptions
unfolding app_paths_from
parse_armlock_options d =
    if ltb (length d) 0x0f
    then none
    else some (record {
      hash_word1 = u32 d 0;
      hash_word2 = u32 d 4;
      management_flag = byte_at d 0x0e;
      app_paths = app_paths_from (length d) (drop 0x0f d);
    })

pub record BootupOptions : Type 0 where
  pub install_serial : ℕ
  pub config_flag : ℕ
  pub password_required : Bool

unfoldable pub parse_bootup_options : Bytes → Option BootupOptions
parse_bootup_options d =
    if ltb (length d) 6
    then none
    else some (record {
      install_serial = u32 d 0;
      config_flag = byte_at d 4;
      password_required = not (byte_at d 5 == 0);
    })
