-- ===== src/Tracker/Query/Decode.antt =====
-- The decoder inverts every spelling of a byte string in a query.
use torrent_link.Prelude.{
  ℕ, ◌+◌, ◌-◌, ◌/◌, ◌%◌, ◌<◌, ◌≡◌, ◌≢◌, refl, ap, ◌∙◌, ltb, Bool, some, [], ◌∷◌, arith,
  if◌then◌else◌, Bytes,
}
use torrent_link.Tracker.Query.{hex, hex_pair, decode_plain, percent_decode_query_value}

-- The hexadecimal digit of a number below 16; the flag chooses the case.
abbrev pub hex_digit : Bool → ℕ → ℕ
hex_digit upper v =
    if ltb v 10 then b'0' + v else if upper then b'A' + (v - 10) else b'a' + (v - 10)

-- The spellings of a byte string, as RFC 3986 and HTML forms have them: a byte other than `%` and
-- `+` may stand for itself, a space may be a `+`, and any byte may be `%` and two digits of either
-- case.
pub data Spells : Bytes → Bytes → Type 0 where
  done : Spells [] []
  literal : {e s : Bytes} (c : ℕ) → c ≢ b'%' → c ≢ b'+' → Spells e s → Spells (c ∷ e) (c ∷ s)
  space : {e s : Bytes} {c b : ℕ} → c ≡ b'+' → b ≡ b' ' → Spells e s → Spells (c ∷ e) (b ∷ s)
  escape :
      {e s : Bytes} {c h l : ℕ} (b : ℕ) (up up' : Bool)
      → b < 256
      → c ≡ b'%'
      → h ≡ hex_digit up (b / 16)
      → l ≡ hex_digit up' (b % 16)
      → Spells e s
      → Spells (c ∷ h ∷ l ∷ e) (b ∷ s)

hex-hex_digit : (up : Bool) (v : ℕ) → v < 16 → hex (hex_digit up v) ≡ some v
unfolding hex
hex-hex_digit up v h = ground arith

hex_pair-escape :
    (b : ℕ) (up up' : Bool)
    → b < 256
    → hex_pair (hex (hex_digit up (b / 16))) (hex (hex_digit up' (b % 16))) ≡ some b
unfolding hex_pair
hex_pair-escape b up up' h =
    rw (hex-hex_digit up (b / 16) (omega arith), hex-hex_digit up' (b % 16) (omega arith))
      (ap some (omega arith))

-- A byte that begins no escape is decoded alone.
decode-cons :
    (c : ℕ) (e : Bytes)
    → c ≢ b'%'
    → percent_decode_query_value (c ∷ e) ≡ decode_plain c ∷ percent_decode_query_value e
unfolding percent_decode_query_value
decode-cons c [] h = refl
decode-cons c (d ∷ []) h = refl
decode-cons c (d ∷ d' ∷ e) h = ground arith

-- Whatever spelling a client chooses for a byte string, decoding gives the string back.
pub percent_decode-Spells : {e s : Bytes} → Spells e s → percent_decode_query_value e ≡ s
unfolding percent_decode_query_value decode_plain
percent_decode-Spells done = refl
percent_decode-Spells (literal {e = e} c p q r) =
    decode-cons c e p ∙ ground (arith, percent_decode-Spells r)
percent_decode-Spells (space {e = e} {c = c} p q r) =
    decode-cons c e (omega arith) ∙ ground (arith, percent_decode-Spells r)
percent_decode-Spells (escape b up up' k p q m r) =
    rw (q, m) (ground (arith, hex_pair-escape b up up' k, percent_decode-Spells r))
