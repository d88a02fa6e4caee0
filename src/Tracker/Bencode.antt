-- ===== src/Tracker/Bencode.antt =====
-- core/bencode_minimal.cc. `QByteArray::number` is Qt's: it is the argument `number`, of which the
-- record below states what Qt documents for numbers that are not negative.
pub mod Reader
pub mod Parse
pub mod Decimal
use torrent_link.Prelude.{
  ℕ, ℤ, pos, ◌+◌, ◌-◌, ◌*◌, ◌≤◌, ◌≡◌, ◌≢◌, leb, Bool, true, ◌&&◌, String, List, [], ◌∷◌, ◌++◌, All,
  length, Bytes, bytes,
}

abbrev pub is_digit : ℕ → Bool
is_digit c = leb b'0' c && leb c b'9'

-- The number that a row of digits spells, after the digits read so far.
abbrev pub digits_value : ℕ → Bytes → ℕ
digits_value n [] = n
digits_value n (c ∷ s) = digits_value (n * 10 + (c - b'0')) s

-- `number` writes a number in decimal digits.
pub record IsDecimal (number : ℤ → Bytes) : Type 0 where
  pub all_digits : (n : ℕ) → All (λ c. is_digit c ≡ true) (number (pos n))
  pub some_digit : (n : ℕ) → number (pos n) ≢ []
  pub value : (n : ℕ) → digits_value 0 (number (pos n)) ≡ n

module _ (number : ℤ → Bytes) where
  unfoldable pub encode_int : ℤ → Bytes
  encode_int v = b'i' ∷ (number v ++ b'e' ∷ [])

  unfoldable pub encode_string : Bytes → Bytes
  encode_string s = number (pos (length s)) ++ b':' ∷ s

  unfoldable pub encode_announce_failure : Bytes → Bytes
  encode_announce_failure reason =
      b'd' ∷ (encode_string (bytes "failure reason") ++ (encode_string reason ++ b'e' ∷ []))

  unfoldable pub encode_announce_ok : ℤ → ℤ → ℤ → ℤ → Bytes → Bytes
  encode_announce_ok interval min_interval complete incomplete peers_compact =
      b'd'
      ∷ (encode_string (bytes "interval")
          ++ (encode_int interval
              ++ (encode_string (bytes "min interval")
                  ++ (encode_int min_interval
                      ++ (encode_string (bytes "complete")
                          ++ (encode_int complete
                              ++ (encode_string (bytes "incomplete")
                                  ++ (encode_int incomplete
                                      ++ (encode_string (bytes "peers")
                                          ++ (encode_string peers_compact ++ b'e' ∷ []))))))))))
