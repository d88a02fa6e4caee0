-- ===== src/Tracker/Query.antt =====
-- The percent decoding and the raw query parameters of core/builtin_http_tracker.cc.
pub mod Decode
use torrent_link.Prelude.{
  ℕ, ◌+◌, ◌-◌, ◌*◌, leb, ◌==◌, Bool, true, false, ◌&&◌, Option, none, some, List, [], ◌∷◌, ◌++◌,
  length, drop, find?, if◌then◌else◌, Bytes, bytes, starts_with,
}

-- The lambda `hex`; `none` is -1.
unfoldable pub hex : ℕ → Option ℕ
hex ch =
    if leb b'0' ch && leb ch b'9'
    then some (ch - b'0')
    else if leb b'A' ch && leb ch b'F'
    then some (ch - b'A' + 10)
    else if leb b'a' ch && leb ch b'f'
    then some (ch - b'a' + 10)
    else none

-- `(hi << 4) | lo`, when both digits are there.
unfoldable pub hex_pair : Option ℕ → Option ℕ → Option ℕ
hex_pair (some hi) (some lo) = some (hi * 16 + lo)
hex_pair _ _ = none

-- A byte that begins no escape.
unfoldable pub decode_plain : ℕ → ℕ
decode_plain c = if c == b'+' then b' ' else c

-- The loop, on what is left of the input.
unfoldable pub percent_decode_query_value : Bytes → Bytes
percent_decode_query_value [] = []
percent_decode_query_value (c ∷ []) = decode_plain c ∷ []
percent_decode_query_value (c ∷ d ∷ []) = decode_plain c ∷ decode_plain d ∷ []
percent_decode_query_value (c ∷ d ∷ e ∷ rest) =
    let escaped = percent_decode_query_value rest in
    let shifted = percent_decode_query_value (d ∷ e ∷ rest) in
    if c == b'%'
    then (elim (hex_pair (hex d) (hex e)) [
      | some b ↦ b ∷ escaped
      | none ↦ decode_plain c ∷ shifted
    ])
    else decode_plain c ∷ shifted

extend_first : ℕ → List Bytes → List Bytes
extend_first b [] = (b ∷ []) ∷ []
extend_first b (t ∷ ts) = (b ∷ t) ∷ ts

-- The slices between the separators.
unfoldable pub split_at_ampersands : Bytes → List Bytes
unfolding extend_first
split_at_ampersands [] = [] ∷ []
split_at_ampersands (c ∷ s) =
    if c == b'&' then [] ∷ split_at_ampersands s else extend_first c (split_at_ampersands s)

-- The value of the first slice that begins with the key; empty if there is none.
unfoldable pub query_param_raw : Bytes → Bytes → Bytes
query_param_raw qs key =
    let needle = key ++ b'=' ∷ [] in
    elim (find? (starts_with needle) (split_at_ampersands qs)) [
      | none ↦ []
      | some slice ↦ percent_decode_query_value (drop (length needle) slice)
    ]
