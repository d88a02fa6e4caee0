-- ===== src/Tracker/Bencode/Decimal.antt =====
-- Decimal digits as Qt's `QByteArray::number` documents them, to show that `IsDecimal` can hold.
use torrent_link.Prelude.{
  ℕ, zero, suc, ℤ, pos, negsuc, ◌+◌, ◌-◌, ◌*◌, ◌/◌, ◌%◌, ◌<◌, ◌≡◌, ◌≢◌, refl, ltb, true, [], ◌∷◌,
  ◌++◌, arith, All, All-append, Bool-cases, inl, inr, if◌then◌else◌, Bytes,
}
use torrent_link.Tracker.Bencode.{is_digit, digits_value, IsDecimal}

digits : ℕ → ℕ → Bytes
digits zero n = []
digits (suc f) n =
    let front = digits f (n / 10) in
    if ltb n 10 then (b'0' + n) ∷ [] else front ++ (b'0' + n % 10) ∷ []

unfoldable pub number : ℤ → Bytes
unfolding digits
number (pos n) = digits (suc n) n
number (negsuc n) = b'-' ∷ digits (suc (suc n)) (suc n)

abbrev AllDigits : Bytes → Type 0
AllDigits = All (λ c. is_digit c ≡ true)

digits-digit : (f n : ℕ) → AllDigits (digits f n)
unfolding digits
digits-digit zero n = tt
digits-digit (suc f) n = elim (Bool-cases (ltb n 10)) [
  | inl small ↦ rw small (ground arith, tt)
  | inr large ↦ rw large (
      All-append (λ c. is_digit c ≡ true) (digits f (n / 10)) ((b'0' + n % 10) ∷ [])
        (digits-digit f (n / 10)) (ground arith, tt))
]

append-ne-nil : (ds : Bytes) (c : ℕ) → ds ++ c ∷ [] ≢ []
append-ne-nil [] c h = cc
append-ne-nil (d ∷ ds) c h = cc

digits-ne-nil : (f n : ℕ) → digits (suc f) n ≢ []
unfolding digits
digits-ne-nil f n = elim (Bool-cases (ltb n 10)) [
  | inl small ↦ rw small (λ h. cc)
  | inr large ↦ rw large (append-ne-nil (digits f (n / 10)) (b'0' + n % 10))
]

digits_value-append :
    (ds : Bytes) (n c : ℕ) → digits_value n (ds ++ c ∷ []) ≡ digits_value n ds * 10 + (c - b'0')
digits_value-append [] n c = refl
digits_value-append (d ∷ ds) n c = digits_value-append ds (n * 10 + (d - b'0')) c

digits_value-digits : (f n : ℕ) → n < f → digits_value 0 (digits f n) ≡ n
unfolding digits
digits_value-digits zero n h = absurd (omega arith)
digits_value-digits (suc f) n h = ground (
  arith,
  digits_value-append (digits f (n / 10)) 0 (b'0' + n % 10),
  digits_value-digits f (n / 10),
)

pub number-IsDecimal : IsDecimal number
unfolding number
number-IsDecimal = record {
  all_digits = λ n. digits-digit (suc n) n;
  some_digit = λ n. digits-ne-nil n n;
  value = λ n. digits_value-digits (suc n) n (omega arith);
}
