-- ===== src/Tests/Storage.antt =====
-- Object keys.
use arcology.Base.{◌+◌, ◌≤◌, ◌≡◌, ◌⊎◌, refl, ◌++◌, replicate}
use arcology.Base.Result.{ok, raised}
use arcology.Base.Text.{Text, codes, drop_while, rstrip}
use arcology.Storage.{utf8_bytes, no_room, marker, compact_storage_key}
use arcology.Storage.Keys.{folder, relative, compact_storage_key_lem}

abbrev digest : Text → Text
digest path = codes "0123456789abcdef01234567"

abbrev long_path : Text
long_path = codes "/disc/" ++ replicate 60 0x61

-- A path that is too long keeps the start of its last part.
long_key :
    compact_storage_key digest (codes "x//") long_path 55
    ≡ ok (codes "x/__arcology_longpaths__/0123456789abcdef01234567_aaaaa")
unfolding compact_storage_key rstrip drop_while
long_key = refl

compact_storage_key_lem_example :
    ((key : Text) × (compact_storage_key digest (codes "x//") long_path 55 ≡ ok key)
      × (utf8_bytes key ≤ 55))
    ⊎ ((compact_storage_key digest (codes "x//") long_path 55 ≡ raised no_room)
        × (55
            ≤ utf8_bytes (folder (codes "x//")) + utf8_bytes (marker digest (relative long_path))))
compact_storage_key_lem_example = compact_storage_key_lem digest (codes "x//") long_path 55
