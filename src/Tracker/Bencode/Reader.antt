-- ===== src/Tracker/Bencode/Reader.antt =====
-- A reader of bencoded dictionaries, written from the format and not from the encoder.
use torrent_link.Prelude.{
  ℕ, zero, suc, ◌+◌, ◌-◌, ◌*◌, ◌==◌, ltb, Option, none, some, List, [], ◌∷◌, length, take, drop,
  if◌then◌else◌, Bytes,
}
use torrent_link.Tracker.Bencode.{is_digit}

pub data Value : Type 0 where
  num : ℕ → Value
  str : Bytes → Value

-- Digits up to a byte that is none: the number, and what follows.
unfoldable pub read_digits : ℕ → Bytes → ℕ × Bytes
read_digits n [] = (n, [])
read_digits n (c ∷ s) =
    let rest = read_digits (n * 10 + (c - b'0')) s in if is_digit c then rest else (n, c ∷ s)

-- The byte `c`, and what follows it.
unfoldable pub expect : ℕ → Bytes → Option Bytes
expect c [] = none
expect c (b ∷ s) = if b == c then some s else none

unfoldable pub cut : ℕ → Bytes → Option (Bytes × Bytes)
cut n s = if ltb (length s) n then none else some (take n s, drop n s)

infixl 5 ◌>>=◌
abbrev pub ◌>>=◌ : {A B : Type 0} → Option A → (A → Option B) → Option B
none >>= f = none
some a >>= f = f a

unfoldable pub string_body : ℕ × Bytes → Option (Bytes × Bytes)
unfolding expect
string_body (n, s) = do rest ← expect b':' s; cut n rest

-- `<length>:<bytes>`
unfoldable pub read_string : Bytes → Option (Bytes × Bytes)
read_string s = string_body (read_digits 0 s)

unfoldable pub int_end : ℕ × Bytes → Option (Value × Bytes)
unfolding expect
int_end (n, s) = do rest ← expect b'e' s; some (num n, rest)

unfoldable pub as_string : Bytes × Bytes → Option (Value × Bytes)
as_string (v, rest) = some (str v, rest)

-- `i<digits>e`, or a byte string.
unfoldable pub read_value : Bytes → Option (Value × Bytes)
unfolding int_end as_string
read_value [] = none
read_value (c ∷ s) =
    if c == b'i' then int_end (read_digits 0 s) else (read_string (c ∷ s) >>= as_string)

-- A dictionary's entries up to the closing `e`, which must end the text. An entry takes two bytes
-- at least, so the length of the text is fuel enough.
unfoldable pub read_entries : ℕ → Bytes → Option (List (Bytes × Value))
read_entries zero s = none
read_entries (suc f) [] = none
read_entries (suc f) (c ∷ s) =
    let entries = (do
      (k, t) ← read_string (c ∷ s)
      (v, u) ← read_value t
      es ← read_entries f u
      some ((k, v) ∷ es)) in
    if c == b'e' then (elim s [ [] ↦ some [] | _ ∷ _ ↦ none ]) else entries

unfoldable pub read_dict : Bytes → Option (List (Bytes × Value))
unfolding expect
read_dict s = do rest ← expect b'd' s; read_entries (length s) rest
