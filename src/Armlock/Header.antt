-- ===== src/Armlock/Header.antt =====
-- _parse_module_header: the title and the version of a RISC OS module.
use arcology.Base.{
  ℕ, suc, ◌+◌, Bool, ◌||◌, Option, none, some, List, [], ◌∷◌, ◌++◌, length, drop, all, ltb, leb,
  ◌==◌, if◌then◌else◌,
}
use arcology.Base.Text.{Text, codes, is_empty, starts_with, strip}
use arcology.Disc.{Bytes, u32}

abbrev pub is_end : ℕ → Bool
is_end b = b == 0x00 || b == 0x0d || b == 0xff

-- The bytes up to the first that ends a string.
unfoldable pub until_end : Bytes → Bytes
until_end [] = []
until_end (b ∷ bs) = if is_end b then [] else b ∷ until_end bs

-- `s if s else None`
abbrev pub text_or_none : Text → Option Text
text_or_none [] = none
text_or_none (c ∷ s) = some (c ∷ s)

-- _read_cstr: a string that is not there, is empty, or is not ASCII is None.
unfoldable pub read_cstr : Bytes → ℕ → Option Text
unfolding until_end strip
read_cstr d off =
    let s = until_end (drop off d) in
    if off == 0 || leb (length d) off
    then none
    else if all (λ b. ltb b 128) s
    then text_or_none (strip s)
    else none

-- `d.find(sub)`, with the index that the bytes start at.
unfoldable pub find_from : ℕ → Bytes → Bytes → Option ℕ
unfolding starts_with
find_from i sub [] = if is_empty sub then some i else none
find_from i sub (b ∷ bs) = if starts_with (b ∷ bs) sub then some i else find_from (suc i) sub bs

abbrev pub either_text : Option Text → Option Text → Option Text
either_text none other = other
either_text (some s) other = some s

unfoldable pub read_found : Bytes → Bytes → Option Text
unfolding find_from read_cstr
read_found d sub = elim (find_from 0 sub d) [ none ↦ none | some i ↦ read_cstr d i ]

-- The markers without their last byte; the first three are the same then.
unfoldable pub markers : List Bytes
markers =
    codes "ARMlock" ∷ codes "ARMlock" ∷ codes "ARMlock" ∷ codes "ARMLOCK" ∷ codes "ArmLock" ∷ []

unfoldable pub scan_markers : Bytes → List Bytes → Option Text
unfolding read_found
scan_markers d [] = none
scan_markers d (sub ∷ subs) = either_text (read_found d sub) (scan_markers d subs)

-- The second attempt: an offset from the address of the word.
unfoldable pub read_relative : Bytes → ℕ → ℕ → Option Text
unfolding read_cstr
read_relative d word raw = if ltb 0 raw then read_cstr d (word + raw) else none

unfoldable pub module_title : Bytes → Option Text
unfolding read_cstr read_relative scan_markers markers
module_title d =
    let title_raw = u32 d 0x10 in
    either_text (either_text (read_cstr d title_raw) (read_relative d 0x10 title_raw))
      (scan_markers d markers)

unfoldable pub help_string : Bytes → Option Text → Option Text
unfolding read_cstr read_relative read_found
help_string d title =
    let help_raw = u32 d 0x14 in
    let searched : Option Text = elim title [
      | none ↦ none
      | some s ↦ read_found d (s ++ (0x09 ∷ []))
    ] in
    either_text (either_text (read_cstr d help_raw) (read_relative d 0x14 help_raw)) searched

-- `s.split('\t', 1)[1].strip()`, where there is a tab.
unfoldable pub after_tab : Text → Option Text
unfolding strip
after_tab [] = none
after_tab (c ∷ s) = if c == 0x09 then some (strip s) else after_tab s

pub record ModuleHeader : Type 0 where
  pub title : Option Text
  pub help_text : Option Text
  pub version : Option Text

unfoldable pub parse_module_header : Bytes → ModuleHeader
unfolding module_title help_string after_tab
parse_module_header d =
    let title = module_title d in
    let help = help_string d title in
    if ltb (length d) 0x18
    then record { title = none; help_text = none; version = none }
    else record {
      title = title;
      help_text = help;
      version = elim help [ none ↦ none | some s ↦ after_tab s ];
    }
