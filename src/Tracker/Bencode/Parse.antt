-- ===== src/Tracker/Bencode/Parse.antt =====
-- The round trip of the tracker's replies through a reader of bencode.
use torrent_link.Prelude.{
  ℕ, suc, ℤ, pos, ◌+◌, ◌-◌, ◌*◌, ◌≤◌, ◌≡◌, ◌≢◌, refl, sym, ap, ◌∙◌, true, false, Option, some, List,
  [], ◌∷◌, ◌++◌, append_assoc, subst, length-append, arith, All, length, Bytes, bytes,
}
use torrent_link.Tracker.Bencode.{
  is_digit, digits_value, IsDecimal, encode_int, encode_string, encode_announce_failure,
  encode_announce_ok,
}
use torrent_link.Tracker.Bencode.Reader.{
  Value, num, str, read_digits, cut, ◌>>=◌, string_body, read_string, int_end, as_string,
  read_value, read_entries, read_dict,
}

read_digits-append :
    (ds : Bytes) (n c : ℕ) (rest : Bytes)
    → All (λ b. is_digit b ≡ true) ds
    → is_digit c ≡ false
    → read_digits n (ds ++ c ∷ rest) ≡ (digits_value n ds, c ∷ rest)
unfolding read_digits
read_digits-append [] n c rest h k = rw k
read_digits-append (b ∷ ds) n c rest h k =
    rw h.0 (read_digits-append ds (n * 10 + (b - b'0')) c rest h.1 k)

cut-append : (s rest : Bytes) → cut (length s) (s ++ rest) ≡ some (s, rest)
unfolding cut
cut-append [] rest = ground arith
cut-append (b ∷ s) rest = ground (arith, cut-append s rest)

module _ (number : ℤ → Bytes) (decimal : IsDecimal number) where
  read_number :
      (n c : ℕ) (rest : Bytes)
      → is_digit c ≡ false
      → read_digits 0 (number (pos n) ++ c ∷ rest) ≡ (n, c ∷ rest)
  read_number n c rest k =
      read_digits-append (number (pos n)) 0 c rest (decimal.all_digits n) k
      ∙ ap (λ m. (m, c ∷ rest)) (decimal.value n)

  read_string-encode_string :
      (s rest : Bytes) → read_string (encode_string number s ++ rest) ≡ some (s, rest)
  unfolding read_string encode_string string_body
  read_string-encode_string s rest =
      rw (append_assoc (number (pos (length s))) (b':' ∷ s) rest)
        (ap string_body (read_number (length s) b':' (s ++ rest) refl) ∙ cut-append s rest)

  read_value-encode_int :
      (n : ℕ) (rest : Bytes) → read_value (encode_int number (pos n) ++ rest) ≡ some (num n, rest)
  unfolding read_value encode_int
  read_value-encode_int n rest =
      rw (append_assoc (number (pos n)) (b'e' ∷ []) rest)
        (ap int_end (read_number n b'e' rest refl))

  -- A string begins with a digit, so it is read as no integer and ends no dictionary.
  record Begins (s : Bytes) : Type 0 where
    head : ℕ
    tail : Bytes
    split : s ≡ head ∷ tail
    digit : is_digit head ≡ true

  Begins-number :
      (ds rest : Bytes) → All (λ b. is_digit b ≡ true) ds → ds ≢ [] → Begins (ds ++ rest)
  Begins-number [] rest a h = absurd (h refl)
  Begins-number (c ∷ ds) rest a h = record {
    head = c;
    tail = ds ++ rest;
    split = refl;
    digit = a.0;
  }

  Begins-encode_string : (s rest : Bytes) → Begins (encode_string number s ++ rest)
  unfolding encode_string
  Begins-encode_string s rest =
      rw (append_assoc (number (pos (length s))) (b':' ∷ s) rest)
        (Begins-number _ _ (decimal.all_digits (length s)) (decimal.some_digit (length s)))

  read_value-digit : (s : Bytes) → Begins s → read_value s ≡ (read_string s >>= as_string)
  unfolding read_value
  read_value-digit s b = rw b.split (ground (arith, b.digit))

  read_value-encode_string :
      (v rest : Bytes) → read_value (encode_string number v ++ rest) ≡ some (str v, rest)
  unfolding as_string
  read_value-encode_string v rest =
      read_value-digit _ (Begins-encode_string v rest)
      ∙ ap (λ o. o >>= as_string) (read_string-encode_string v rest)

  read_entries-digit :
      (f c : ℕ) (s : Bytes) {t u k : Bytes} {v : Value} {es : List (Bytes × Value)}
      → is_digit c ≡ true
      → read_string (c ∷ s) ≡ some (k, t)
      → read_value t ≡ some (v, u)
      → read_entries f u ≡ some es
      → read_entries (suc f) (c ∷ s) ≡ some ((k, v) ∷ es)
  unfolding read_entries
  read_entries-digit f c s h p q r = ground arith

  -- One entry: a key, then a value that reads as `v`, then the entries `es`.
  read_entries-cons :
      (f : ℕ) (k w : Bytes) (v : Value) (u : Bytes) {es : List (Bytes × Value)}
      → read_value (w ++ u) ≡ some (v, u)
      → read_entries f u ≡ some es
      → read_entries (suc f) (encode_string number k ++ (w ++ u)) ≡ some ((k, v) ∷ es)
  read_entries-cons f k w v u q r =
      let b : Begins (encode_string number k ++ (w ++ u)) = Begins-encode_string k (w ++ u) in
      rw b.split (
        read_entries-digit f b.head b.tail b.digit
          (rw b.split at (read_string-encode_string k (w ++ u))) q r)

  read_entries-end : (f : ℕ) → read_entries (suc f) (b'e' ∷ []) ≡ some []
  unfolding read_entries
  read_entries-end f = refl

  failure_body :
      (f : ℕ) (reason : Bytes)
      → read_entries (suc (suc f)) (
          encode_string number (bytes "failure reason")
          ++ (encode_string number reason ++ b'e' ∷ []))
        ≡ some ((bytes "failure reason", str reason) ∷ [])
  failure_body f reason =
      read_entries-cons (suc f) (bytes "failure reason") (encode_string number reason) (str reason)
        (b'e' ∷ []) (read_value-encode_string reason _) (read_entries-end f)

  ok_body :
      (f interval min_interval complete incomplete : ℕ) (peers : Bytes)
      → read_entries (suc (suc (suc (suc (suc (suc f)))))) (
          encode_string number (bytes "interval")
          ++ (encode_int number (pos interval)
              ++ (encode_string number (bytes "min interval")
                  ++ (encode_int number (pos min_interval)
                      ++ (encode_string number (bytes "complete")
                          ++ (encode_int number (pos complete)
                              ++ (encode_string number (bytes "incomplete")
                                  ++ (encode_int number (pos incomplete)
                                      ++ (encode_string number (bytes "peers")
                                          ++ (encode_string number peers ++ b'e' ∷ []))))))))))
        ≡ some (
            (bytes "interval", num interval)
            ∷ (bytes "min interval", num min_interval)
            ∷ (bytes "complete", num complete)
            ∷ (bytes "incomplete", num incomplete)
            ∷ (bytes "peers", str peers)
            ∷ [])
  ok_body f interval min_interval complete incomplete peers =
      read_entries-cons _ (bytes "interval") (encode_int number (pos interval)) (num interval) _
        (read_value-encode_int interval _)
        (read_entries-cons _ (bytes "min interval") (encode_int number (pos min_interval))
          (num min_interval) _ (read_value-encode_int min_interval _)
          (read_entries-cons _ (bytes "complete") (encode_int number (pos complete)) (num complete)
            _ (read_value-encode_int complete _)
            (read_entries-cons _ (bytes "incomplete") (encode_int number (pos incomplete))
              (num incomplete) _ (read_value-encode_int incomplete _)
              (read_entries-cons _ (bytes "peers") (encode_string number peers) (str peers) _
                (read_value-encode_string peers _) (read_entries-end f)))))

  length-encode_string : (s : Bytes) → length s + 1 ≤ length (encode_string number s)
  unfolding encode_string
  length-encode_string s = omega (arith, length-append (number (pos (length s))) (b':' ∷ s))

  -- Any fuel of the given size may be written as a row of successors.
  with_fuel :
      (n : ℕ) (s : Bytes) {r : Option (List (Bytes × Value))}
      → ((f : ℕ) → read_entries (suc (suc (suc (suc (suc (suc f)))))) s ≡ r)
      → 6 ≤ n
      → read_entries n s ≡ r
  with_fuel n s {r} h k =
      let e : n ≡ suc (suc (suc (suc (suc (suc (n - 6)))))) = omega arith in
      subst (λ m. read_entries m s ≡ r) (sym e) (h (n - 6))

  -- Every failure reply of the tracker reads back as a dictionary with the one entry that BEP 3
  -- names, whatever the reason.
  pub read_dict-announce_failure :
      (reason : Bytes)
      → read_dict (encode_announce_failure number reason)
        ≡ some ((bytes "failure reason", str reason) ∷ [])
  unfolding read_dict encode_announce_failure
  read_dict-announce_failure reason =
      with_fuel _ _ (λ f. failure_body (suc (suc (suc (suc f)))) reason)
        (omega (
          arith,
          length-append (encode_string number (bytes "failure reason"))
              (encode_string number reason ++ b'e' ∷ []),
          length-encode_string (bytes "failure reason"),
        ))

  -- Every successful reply reads back as the five entries that were written, in the order of the
  -- code, for every interval and count that is not negative and every string of peers.
  pub read_dict-announce_ok :
      (interval min_interval complete incomplete : ℕ) (peers : Bytes)
      → read_dict (
          encode_announce_ok number
            (pos interval)
            (pos min_interval)
            (pos complete)
            (pos incomplete)
            peers)
        ≡ some (
            (bytes "interval", num interval)
            ∷ (bytes "min interval", num min_interval)
            ∷ (bytes "complete", num complete)
            ∷ (bytes "incomplete", num incomplete)
            ∷ (bytes "peers", str peers)
            ∷ [])
  unfolding read_dict encode_announce_ok
  read_dict-announce_ok interval min_interval complete incomplete peers =
      with_fuel _ _ (λ f. ok_body f interval min_interval complete incomplete peers)
        (omega (
          arith,
          length-append (encode_string number (bytes "interval")) _,
          length-encode_string (bytes "interval"),
        ))
