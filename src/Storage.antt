-- ===== src/Storage.antt =====
-- arcology_shared/storage.py: object keys that stay within the limit of the store. A text is its code points,
-- none of them a surrogate, and `sha256(...).hexdigest()[:24]` is an argument.
pub mod Keys
use arcology.Base.{
  ℕ, zero, suc, ◌+◌, ◌-◌, Bool, true, false, List, [], ◌∷◌, ◌++◌, ltb, leb, ◌==◌, if◌then◌else◌,
}
use arcology.Base.Int.{ℤ, pos, negsuc, sub_ℕ}
use arcology.Base.Result.{Result, ok, raised}
use arcology.Base.Text.{Text, codes, drop_while, rstrip}

-- `len(ch.encode('utf-8'))`, and that of a text.
abbrev pub char_bytes : ℕ → ℕ
char_bytes c = if ltb c 0x80 then 1 else if ltb c 0x800 then 2 else if ltb c 0x10000 then 3 else 4

abbrev pub utf8_bytes : Text → ℕ
utf8_bytes [] = 0
utf8_bytes (c ∷ cs) = char_bytes c + utf8_bytes cs

-- The loop of _truncate_utf8, with the bytes that are left.
unfoldable pub fitting : ℕ → Text → Text
fitting left [] = []
fitting left (c ∷ cs) =
    let rest = fitting (left - char_bytes c) cs in if ltb left (char_bytes c) then [] else c ∷ rest

abbrev pub or_underscore : Text → Text
or_underscore [] = codes "_"
or_underscore (c ∷ cs) = c ∷ cs

unfoldable pub truncate_utf8 : Text → ℕ → Text
unfolding fitting
truncate_utf8 value max_bytes =
    if leb (utf8_bytes value) max_bytes then value else or_underscore (fitting max_bytes value)

-- The two refusals of compact_storage_relpath.
pub data KeyError : Type 0 where
  no_room still_over : KeyError

-- `relative_path.rsplit('/', 1)[-1]`: the text after the last slash, from the text since the one before.
unfoldable pub last_part : Text → Text → Text
last_part since [] = since
last_part since (c ∷ cs) = if c == 0x2f then last_part cs cs else last_part since cs

unfoldable pub marker : (Text → Text) → Text → Text
marker digest path = codes "__arcology_longpaths__/" ++ digest path ++ codes "_"

-- A path without leading slashes, for a budget that is not below 0.
unfoldable pub compacted : (Text → Text) → Text → ℕ → Result KeyError Text
unfolding marker last_part truncate_utf8
compacted digest path budget =
    let mark = marker digest path in
    let key =
      mark ++ truncate_utf8 (or_underscore (last_part path path)) (budget - utf8_bytes mark) in
    if leb (utf8_bytes path) budget
    then ok path
    else if leb budget (utf8_bytes mark)
    then raised no_room
    else if ltb budget (utf8_bytes key)
    then raised still_over
    else ok key

-- A budget below 0 holds no path and no marker.
unfoldable pub compact_storage_relpath : (Text → Text) → Text → ℤ → Result KeyError Text
unfolding compacted
compact_storage_relpath digest path (pos budget) =
    compacted digest (drop_while (λ c. c == 0x2f) path) budget
compact_storage_relpath digest path (negsuc n) = raised no_room

abbrev prepend : Text → Result KeyError Text → Result KeyError Text
prepend prefix (ok rel) = ok (prefix ++ rel)
prepend prefix (raised e) = raised e

unfoldable pub compact_storage_key : (Text → Text) → Text → Text → ℕ → Result KeyError Text
unfolding compact_storage_relpath
compact_storage_key digest prefix path max_key_bytes =
    let folder = rstrip (λ c. c == 0x2f) prefix ++ codes "/" in
    prepend folder (compact_storage_relpath digest path (sub_ℕ max_key_bytes (utf8_bytes folder)))
