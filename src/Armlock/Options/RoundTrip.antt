-- ===== src/Armlock/Options/RoundTrip.antt =====
-- The settings of ARMlock as its installer writes them, read back.
use mathlib.Core.Path.{ap₂}
use mathlib.Core.List.{append_assoc}
use arcology.Base.{
  ℕ, zero, suc, ◌≤◌, ◌<◌, ◌≡◌, refl, ap, ◌∙◌, Bool, true, false, not, ◌&&◌, some, List, [], ◌∷◌,
  ◌++◌, length, length-append, drop, All, all, ltb, ◌==◌, arith, and-eq_true, if◌then◌else◌,
}
use arcology.Base.Text.{Text, strip, is_empty}
use arcology.Disc.{Bytes}
use arcology.Disc.Words.{word_bytes, u32-word_bytes}
use arcology.Disc.Filecore.{cut_at}
use arcology.Armlock.Files.{decode_ascii}
use arcology.Armlock.Options.{
  ArmlockOptions, after_nul, app_paths_from, parse_armlock_options, add_path, BootupOptions,
  parse_bootup_options,
}

abbrev is_char : ℕ → Bool
is_char c = ltb 0 c && ltb c 128

-- A path that a string of the file can hold: some ASCII characters other than NUL, with no blanks round them.
abbrev pub IsPath : Text → Type 0
IsPath s = (is_empty s ≡ false) × (all is_char s ≡ true) × (strip s ≡ s)

abbrev pub print_paths : List Text → Bytes
print_paths [] = 0 ∷ []
print_paths (s ∷ ss) = s ++ (0 ∷ print_paths ss)

cut_at-append : (s : Text) (rest : Bytes) → all is_char s ≡ true → cut_at 0 (s ++ (0 ∷ rest)) ≡ s
unfolding cut_at
cut_at-append [] rest h = refl
cut_at-append (c ∷ s) rest h =
    let (one, more) = and-eq_true (is_char c) (all is_char s) h in
    let other : (c == 0) ≡ false = ground (arith, one) in
    rw other (ap (λ t. c ∷ t) (cut_at-append s rest more))

after_nul-append :
    (s : Text) (rest : Bytes) → all is_char s ≡ true → after_nul (s ++ (0 ∷ rest)) ≡ rest
unfolding after_nul
after_nul-append [] rest h = refl
after_nul-append (c ∷ s) rest h =
    let (one, more) = and-eq_true (is_char c) (all is_char s) h in
    let other : (c == 0) ≡ false = ground (arith, one) in rw other (after_nul-append s rest more)

decode_ascii_ascii : (s : Text) → all is_char s ≡ true → decode_ascii s ≡ s
decode_ascii_ascii [] h = refl
decode_ascii_ascii (c ∷ s) h =
    let (one, more) = and-eq_true (is_char c) (all is_char s) h in
    let low : ltb c 128 ≡ true = (and-eq_true (ltb 0 c) (ltb c 128) one).1 in
    rw low (ap (λ t. c ∷ t) (decode_ascii_ascii s more))

app_paths_from-print :
    (fuel : ℕ) (ss : List Text) (tail : Bytes)
    → All IsPath ss
    → length (print_paths ss) ≤ fuel
    → app_paths_from fuel (print_paths ss ++ tail) ≡ ss
unfolding app_paths_from
app_paths_from-print zero [] tail h k = absurd (omega (arith, k))
app_paths_from-print (suc fuel) [] tail h k = refl
app_paths_from-print fuel ([] ∷ ss) tail h k = absurd (cc h.0.0)
app_paths_from-print zero ((c ∷ s) ∷ ss) tail h k = absurd (omega (arith, k))
app_paths_from-print (suc fuel) ((c ∷ s) ∷ ss) tail h k =
    let (one, more) = and-eq_true (is_char c) (all is_char s) h.0.1 in
    let other : (c == 0) ≡ false = ground (arith, one) in
    let shorter = length-append s (0 ∷ print_paths ss) in
    rw
      (
        other,
        append_assoc s (0 ∷ print_paths ss) tail,
        cut_at-append s (print_paths ss ++ tail) more,
        after_nul-append s (print_paths ss ++ tail) more,
      )
      (ap₂ add_path (ap strip (decode_ascii_ascii (c ∷ s) h.0.1) ∙ h.0.2)
        (app_paths_from-print fuel ss tail h.1 (omega (arith, shorter, k))))

abbrev pub print_bootup : BootupOptions → Bytes
print_bootup bootup =
    word_bytes bootup.install_serial
    ++ (bootup.config_flag ∷ (if bootup.password_required then 1 else 0) ∷ [])

-- The file of the settings: two hash words, the copy of the boot settings, a flag, and the paths.
abbrev pub print_options : ArmlockOptions → BootupOptions → Bytes
print_options options bootup =
    word_bytes options.hash_word1
    ++ word_bytes options.hash_word2
    ++ print_bootup bootup
    ++ (options.management_flag ∷ print_paths options.app_paths)

options_of : ℕ → ℕ → ℕ → List Text → ArmlockOptions
options_of w1 w2 flag paths = record {
  hash_word1 = w1;
  hash_word2 = w2;
  management_flag = flag;
  app_paths = paths;
}

read_options :
    (options : ArmlockOptions) (bootup : BootupOptions) (tail : Bytes)
    → options.hash_word1 < 4294967296
    → options.hash_word2 < 4294967296
    → All IsPath options.app_paths
    → parse_armlock_options (print_options options bootup ++ tail) ≡ some options
unfolding parse_armlock_options options_of
read_options options bootup tail h1 h2 paths =
    let whole = print_options options bootup ++ tail in
    let long : ltb (length whole) 0x0f ≡ false = ground arith in
    let n = length-append (print_paths options.app_paths) tail in
    let one = u32-word_bytes options.hash_word1 [] h1 in
    let two = u32-word_bytes options.hash_word2 [] h2 in
    let same =
      app_paths_from-print (length whole) options.app_paths tail paths (omega (arith, n)) in
    rw long (λ i. some (options_of (one i) (two i) options.management_flag (same i)))

flag_back : (b : Bool) → not ((if b then 1 else 0) == 0) ≡ b
flag_back true = refl
flag_back false = refl

bootup_of : ℕ → ℕ → Bool → BootupOptions
bootup_of serial flag required = record {
  install_serial = serial;
  config_flag = flag;
  password_required = required;
}

read_bootup :
    (bootup : BootupOptions) (rest : Bytes)
    → bootup.install_serial < 4294967296
    → parse_bootup_options (print_bootup bootup ++ rest) ≡ some bootup
unfolding parse_bootup_options bootup_of
read_bootup bootup rest h =
    let long : ltb (length (print_bootup bootup ++ rest)) 6 ≡ false = ground arith in
    let serial = u32-word_bytes bootup.install_serial [] h in
    let required = flag_back bootup.password_required in
    rw long (λ i. some (bootup_of (serial i) bootup.config_flag (required i)))

-- The settings that the installer writes, the paths with a NUL after each and one after the last, are read back
-- as they are, and so is the copy of the boot settings in them; bytes after the last NUL do not matter. The hash
-- words and the serial number are of 32 bits, and each path is some ASCII text with no blanks round it.
pub parse_armlock_options-print :
    (options : ArmlockOptions) (bootup : BootupOptions) (tail : Bytes)
    → options.hash_word1 < 4294967296
    → options.hash_word2 < 4294967296
    → bootup.install_serial < 4294967296
    → All IsPath options.app_paths
    → (parse_armlock_options (print_options options bootup ++ tail) ≡ some options)
      × (parse_bootup_options (drop 8 (print_options options bootup ++ tail)) ≡ some bootup)
parse_armlock_options-print options bootup tail h1 h2 h3 paths =
    (read_options options bootup tail h1 h2 paths, read_bootup bootup _ h3)
