-- ===== src/Slugs.antt =====
-- myapp/utils/slugs.py: generate_slug and ensure_unique_slug; and myapp/utils/safe_redirect.py. A text is
-- its list of code points; `str.lower` is an argument.
pub mod Form
pub mod Unique
pub mod Redirect
use arcology.Base.{
  ℕ, zero, suc, ◌+◌, ◌/◌, ◌%◌, Bool, true, false, not, ◌&&◌, ◌||◌, Option, none, some, List, [],
  ◌∷◌, ◌++◌, map, any, select, take, length, ltb, leb, ◌==◌, if◌then◌else◌,
}
use arcology.Base.Text.{Text, codes, is_empty, drop_while, rstrip, starts_with}

abbrev pub dash : ℕ
dash = 0x2d

-- `separators`
abbrev pub separators : Text
separators = codes "/.:;,_ \t\n"

abbrev pub is_separator : ℕ → Bool
is_separator c = any (λ s. s == c) separators

-- `[a-z0-9-]`
unfoldable pub is_slug_char : ℕ → Bool
is_slug_char c = leb 97 c && leb c 122 || leb 48 c && leb c 57 || c == 45

unfoldable pub is_dash : ℕ → Bool
is_dash c = c == 45

-- `re.sub(r'-+', '-', slug)`
unfoldable pub collapse : Text → Text
unfolding is_dash
collapse [] = []
collapse (c ∷ []) = c ∷ []
collapse (c ∷ d ∷ cs) =
    let rest = collapse (d ∷ cs) in if is_dash c && is_dash d then rest else c ∷ rest

abbrev pub replace_separators : Text → Text
replace_separators = map (λ c. if is_separator c then 45 else c)

unfoldable pub generate_slug : (Text → Text) → ℕ → Text → Text
unfolding collapse is_dash is_slug_char
generate_slug lower max_length text =
    let safe = select is_slug_char (replace_separators (lower text)) in
    let slug = rstrip is_dash (drop_while is_dash (collapse safe)) in
    let short =
      if ltb max_length (length slug) then rstrip is_dash (take max_length slug) else slug in
    if is_empty text then codes "untitled" else if is_empty short then codes "untitled" else short

-- `str(n)`: the digits of n, at most one for each of the fuel, which n itself bounds.
unfoldable pub digits : ℕ → ℕ → Text
digits zero n = []
digits (suc fuel) n =
    let front = digits fuel (n / 10) in
    if ltb n 10 then (48 + n) ∷ [] else front ++ (48 + n % 10) ∷ []

unfoldable pub numbered : Text → ℕ → Text
unfolding digits
numbered base n = base ++ 45 ∷ digits (suc n) n

-- The loop over `counter`, with as many turns left as the fuel.
unfoldable pub first_free : (Text → Bool) → Text → ℕ → ℕ → Option Text
first_free is_taken base zero counter = none
first_free is_taken base (suc turns) counter =
    let rest = first_free is_taken base turns (suc counter) in
    if is_taken (numbered base counter) then rest else some (numbered base counter)

-- `_is_taken` is an argument: it tests the set `taken`, or asks the database. The seed is the clock, and
-- `offsets` bounds the last loop.
unfoldable pub ensure_unique_slug : (Text → Bool) → ℕ → ℕ → Text → Option Text
unfolding first_free
ensure_unique_slug is_taken seed offsets base =
    if not (is_taken base) then some base else elim (first_free is_taken base 998 2) [
      | some candidate ↦ some candidate
      | none ↦ first_free is_taken base offsets seed
    ]

-- `ord(ch) < 0x20 or ord(ch) == 0x7f`
abbrev pub is_control : ℕ → Bool
is_control c = ltb c 0x20 || c == 0x7f

-- A target that is None counts as empty.
unfoldable pub is_safe_redirect_path : Text → Bool
is_safe_redirect_path target =
    if is_empty target
    then false
    else if any is_control target
    then false
    else if any (λ c. c == 0x5c) target
    then false
    else if not (starts_with target (codes "/"))
    then false
    else if starts_with target (codes "//")
    then false
    else true

unfoldable pub safe_redirect_path : Text → Text → Text
unfolding is_safe_redirect_path
safe_redirect_path target default = if is_safe_redirect_path target then target else default
