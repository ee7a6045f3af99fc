-- ===== src/Storage/Keys.antt =====
-- The length of the keys, and when there is one.
use arcology.Base.{
  ◌==◌, ℕ, ◌+◌, ◌-◌, ◌≤◌, ◌<◌, ◌≡◌, ◌⊎◌, refl, false, [], ◌∷◌, ◌++◌, ltb, leb, arith, Bool-cases,
  inl, inr,
}
use arcology.Base.Result.{Result, ok, raised}
use arcology.Base.Text.{Text, codes, drop_while, rstrip}
use arcology.Storage.{
  char_bytes, utf8_bytes, fitting, or_underscore, truncate_utf8, KeyError, no_room, last_part,
  marker, compacted, compact_storage_relpath, compact_storage_key,
}

utf8_bytes-append : (a b : Text) → utf8_bytes (a ++ b) ≡ utf8_bytes a + utf8_bytes b
utf8_bytes-append [] b = omega arith
utf8_bytes-append (c ∷ a) b = omega (arith, utf8_bytes-append a b)

fitting_bytes : (left : ℕ) (cs : Text) → utf8_bytes (fitting left cs) ≤ left
unfolding fitting
fitting_bytes left [] = omega arith
fitting_bytes left (c ∷ cs) =
    let rest = fitting_bytes (left - char_bytes c) cs in
    elim (Bool-cases (ltb left (char_bytes c))) [
      | inl e ↦ rw e (omega arith)
      | inr e ↦ rw e (ground (arith, rest))
    ]

or_underscore_bytes :
    (cs : Text) (n : ℕ) → utf8_bytes cs ≤ n → 0 < n → utf8_bytes (or_underscore cs) ≤ n
or_underscore_bytes [] n h k = omega (arith, k)
or_underscore_bytes (c ∷ cs) n h k = h

-- A text that is cut to a length that is not 0 is no longer than it.
truncate_utf8_bytes : (value : Text) (n : ℕ) → 0 < n → utf8_bytes (truncate_utf8 value n) ≤ n
unfolding truncate_utf8
truncate_utf8_bytes value n h = elim (Bool-cases (leb (utf8_bytes value) n)) [
  | inl e ↦ rw e (ground (arith, e))
  | inr e ↦ rw e (or_underscore_bytes (fitting n value) n (fitting_bytes n value) h)
]

-- A key within a budget, or no key since the marker leaves nothing of it.
abbrev Fits : Result KeyError Text → ℕ → ℕ → Type 0
Fits r budget overhead =
    ((key : Text) × (r ≡ ok key) × (utf8_bytes key ≤ budget))
    ⊎ ((r ≡ raised no_room) × (budget ≤ overhead))

compacted-Fits :
    (digest : Text → Text) (path : Text) (budget : ℕ)
    → Fits (compacted digest path budget) budget (utf8_bytes (marker digest path))
unfolding compacted
compacted-Fits digest path budget =
    let mark = marker digest path in
    let tail = truncate_utf8 (or_underscore (last_part path path)) (budget - utf8_bytes mark) in
    elim (Bool-cases (leb (utf8_bytes path) budget)) [
      | inl short ↦ inl (path, rw short refl, ground (arith, short))
      | inr long ↦ elim (Bool-cases (leb budget (utf8_bytes mark))) [
        | inl full ↦ inr (rw (long, full) refl, ground (arith, full))
        | inr room ↦
            let cut =
              truncate_utf8_bytes (or_underscore (last_part path path)) (budget - utf8_bytes mark)
                (ground arith) in
            let bytes : utf8_bytes (mark ++ tail) ≤ budget =
              ground (arith, room, cut, utf8_bytes-append mark tail) in
            let inside : ltb budget (utf8_bytes (mark ++ tail)) ≡ false = ground (arith, bytes) in
            inl (mark ++ tail, rw (long, room, inside) refl, bytes)
      ]
    ]

-- The prefix with one slash at its end, and the path with none at its start.
abbrev pub folder : Text → Text
folder prefix = rstrip (λ c. c == 0x2f) prefix ++ codes "/"

abbrev pub relative : Text → Text
relative path = drop_while (λ c. c == 0x2f) path

-- Either an object key is made, of at most `max_key_bytes` bytes in UTF-8, or the call refuses for want of
-- room, and then the limit is no more than the bytes of the prefix, with its slash, and the marker: the
-- refusal after the cut never happens.
pub compact_storage_key_lem :
    (digest : Text → Text) (prefix path : Text) (max_key_bytes : ℕ)
    → ((key : Text) × (compact_storage_key digest prefix path max_key_bytes ≡ ok key)
        × (utf8_bytes key ≤ max_key_bytes))
      ⊎ ((compact_storage_key digest prefix path max_key_bytes ≡ raised no_room)
          × (max_key_bytes
              ≤ utf8_bytes (folder prefix) + utf8_bytes (marker digest (relative path))))
unfolding compact_storage_key compact_storage_relpath
compact_storage_key_lem digest prefix path max_key_bytes =
    elim (Bool-cases (leb (utf8_bytes (folder prefix)) max_key_bytes)) [
      | inr over ↦ inr (rw over refl, ground (arith, over))
      | inl fits ↦
          elim (compacted-Fits digest (relative path)
            (max_key_bytes - utf8_bytes (folder prefix))) [
              | inl (rel, made, short) ↦ inl (
                folder prefix ++ rel,
                rw (fits, made) refl,
                ground (arith, fits, short, utf8_bytes-append (folder prefix) rel),
              )
              | inr (refused, full) ↦ inr (rw (fits, refused) refl, ground (arith, fits, full))
            ]
    ]
