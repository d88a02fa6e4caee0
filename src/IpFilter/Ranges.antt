-- ===== src/IpFilter/Ranges.antt =====
-- Which rules are ranges, and that the rule of every line is one.
use torrent_link.Prelude.{
  ℕ, ℤ, pos, negsuc, zero, suc, ◌+◌, ◌≤◌, Bool, true, false, not, ◌||◌, String, Option, none, some,
  [], ◌∷◌, ◌≡◌, refl, ap, ◌∙◌, length, arith, if◌then◌else◌, Bool-cases, Option-cases, inl, inr,
}
use torrent_link.IpFilter.{
  Bits, Address, v4, v6, HostAddress, ipv4_protocol, ipv6_protocol, other_protocol, Rule, le_bits,
  in_order, blocked_v4, blocked_v6, ipv4_prefix_range, ipv6_apply_prefix_range,
}
use torrent_link.IpFilter.Masks.{keep, ipv4_prefix_range-range_of, ipv6_apply_prefix_range-range_of}
use torrent_link.IpFilter.Lines.{
  QtLine, before, line_looks_like_ipv6, strip_optional_brackets, parse_dotted_ipv4, valid_prefix,
  past_start, ipv4_of, ipv6_of, single_rule, or_else, ◌>>=◌, parse_any_single_ip, append_cidr_ipv4,
  append_cidr_ipv6, append_range_ipv4, append_range_ipv6, cidr_rule, range_rule, rule_of_line,
}

abbrev in_family_order : Address → Address → Bool
in_family_order (v4 a) (v4 b) = le_bits a b
in_family_order (v6 a) (v6 b) = le_bits a b
in_family_order _ _ = false

-- Two addresses of the same family, the first not past the last.
abbrev pub is_range : Rule → Bool
is_range r = in_family_order r.first r.last

abbrev pub adds_range : Option Rule → Bool
adds_range none = true
adds_range (some r) = is_range r

-- What is relied on of Qt and libtorrent: trimming twice is trimming once, and parsed addresses have
-- the size of their family.
pub record IsSound (q : QtLine) : Type 0 where
  pub trimmed_idem : (s : String) → q.trimmed (q.trimmed s) ≡ q.trimmed s
  pub ipv4_size : (s : String) (h : Bits) → q.set_address s ≡ some (ipv4_protocol h) → length h ≡ 32
  pub ipv6_size : (s : String) (a : Bits) → q.make_address s ≡ some (v6 a) → length a ≡ 128

le_bits_refl : (a : Bits) → le_bits a a ≡ true
unfolding le_bits
le_bits_refl [] = refl
le_bits_refl (true ∷ xs) = le_bits_refl xs
le_bits_refl (false ∷ xs) = le_bits_refl xs

le_bits_total : (a b : Bits) → le_bits a b ≡ false → le_bits b a ≡ true
unfolding le_bits
le_bits_total [] b h = ground (arith, h)
le_bits_total (a ∷ xs) [] h = refl
le_bits_total (true ∷ xs) (true ∷ ys) h = le_bits_total xs ys h
le_bits_total (true ∷ xs) (false ∷ ys) h = refl
le_bits_total (false ∷ xs) (true ∷ ys) h = ground (arith, h)
le_bits_total (false ∷ xs) (false ∷ ys) h = le_bits_total xs ys h

le_bits-in_order : (a b : Bits) → le_bits ((in_order a b).0) ((in_order a b).1) ≡ true
le_bits-in_order a b = elim (Bool-cases (le_bits a b)) [
  | inl h ↦ rw h h
  | inr h ↦ rw h (le_bits_total a b h)
]

le_bits-keep : (k : ℕ) (ip : Bits) → le_bits (keep false k ip) (keep true k ip) ≡ true
unfolding le_bits
le_bits-keep k [] = refl
le_bits-keep zero (b ∷ ip) = refl
le_bits-keep (suc k) (true ∷ ip) = le_bits-keep k ip
le_bits-keep (suc k) (false ∷ ip) = le_bits-keep k ip

valid_prefix-le : (limit k : ℕ) (o : Option ℤ) → valid_prefix limit o ≡ some k → k ≤ limit
valid_prefix-le limit k none h = cc
valid_prefix-le limit k (some (pos n)) h = ground (arith, h)
valid_prefix-le limit k (some (negsuc n)) h = cc

ipv4_of-some : (o : Option HostAddress) (h : Bits) → ipv4_of o ≡ some h → o ≡ some (ipv4_protocol h)
ipv4_of-some none h e = cc
ipv4_of-some (some (ipv4_protocol b)) h e = cc
ipv4_of-some (some ipv6_protocol) h e = cc
ipv4_of-some (some other_protocol) h e = cc

ipv6_of-some : (o : Option Address) (a : Bits) → ipv6_of o ≡ some a → o ≡ some (v6 a)
ipv6_of-some none a e = cc
ipv6_of-some (some (v4 b)) a e = cc
ipv6_of-some (some (v6 b)) a e = cc

is_range-ipv4 :
    (ip : Bits) (k : ℕ)
    → length ip ≡ 32
    → k ≤ 32
    → is_range (blocked_v4 (ipv4_prefix_range ip k)) ≡ true
is_range-ipv4 ip k w h =
    ap (λ r. le_bits (r.0) (r.1)) (ipv4_prefix_range-range_of ip k w h) ∙ le_bits-keep k ip

is_range-ipv6 :
    (ip : Bits) (k : ℕ)
    → length ip ≡ 128
    → k ≤ 128
    → is_range (blocked_v6 (ipv6_apply_prefix_range ip k)) ≡ true
is_range-ipv6 ip k w h =
    ap (λ r. le_bits (r.0) (r.1)) (ipv6_apply_prefix_range-range_of ip k w h) ∙ le_bits-keep k ip

cidr_ipv4-adds_range :
    (prefix : Option ℕ) (ip : Option Bits)
    → ((k : ℕ) → prefix ≡ some k → k ≤ 32)
    → ((a : Bits) → ip ≡ some a → length a ≡ 32)
    → adds_range (prefix >>= λ k. ip >>= λ a. some (blocked_v4 (ipv4_prefix_range a k))) ≡ true
cidr_ipv4-adds_range none ip h w = refl
cidr_ipv4-adds_range (some k) none h w = refl
cidr_ipv4-adds_range (some k) (some a) h w = is_range-ipv4 a k (w a refl) (h k refl)

cidr_ipv6-adds_range :
    (prefix : Option ℕ) (ip : Option Bits)
    → ((k : ℕ) → prefix ≡ some k → k ≤ 128)
    → ((a : Bits) → ip ≡ some a → length a ≡ 128)
    → adds_range (prefix >>= λ k. ip >>= λ a. some (blocked_v6 (ipv6_apply_prefix_range a k)))
      ≡ true
cidr_ipv6-adds_range none ip h w = refl
cidr_ipv6-adds_range (some k) none h w = refl
cidr_ipv6-adds_range (some k) (some a) h w = is_range-ipv6 a k (w a refl) (h k refl)

ends_ipv4-adds_range :
    (a b : Option Bits) → adds_range (a >>= λ x. b >>= λ y. some (blocked_v4 (in_order x y))) ≡ true
ends_ipv4-adds_range none b = refl
ends_ipv4-adds_range (some a) none = refl
ends_ipv4-adds_range (some a) (some b) = le_bits-in_order a b

ends_ipv6-adds_range :
    (a b : Option Bits) → adds_range (a >>= λ x. b >>= λ y. some (blocked_v6 (in_order x y))) ≡ true
ends_ipv6-adds_range none b = refl
ends_ipv6-adds_range (some a) none = refl
ends_ipv6-adds_range (some a) (some b) = le_bits-in_order a b

module _ (q : QtLine) (sound : IsSound q) where
  adds_range-append_cidr_ipv4 : (line : String) → adds_range (append_cidr_ipv4 q line) ≡ true
  unfolding append_cidr_ipv4
  adds_range-append_cidr_ipv4 line = elim (Option-cases (past_start (q.index_of line "/"))) [
    | inl e ↦ rw (e, append_cidr_ipv4) refl
    | inr (slash, e) ↦
        let prefix : Option ℤ = q.to_int (q.trimmed (q.mid line (slash + 1))) in
        let ip : String = q.trimmed (q.left line slash) in
        rw (e, append_cidr_ipv4)
          (cidr_ipv4-adds_range (valid_prefix 32 prefix) (ipv4_of (q.set_address ip))
            (λ k h. valid_prefix-le 32 k prefix h)
            (λ a h. sound.ipv4_size ip a (ipv4_of-some (q.set_address ip) a h)))
  ]

  adds_range-append_cidr_ipv6 : (line : String) → adds_range (append_cidr_ipv6 q line) ≡ true
  unfolding append_cidr_ipv6
  adds_range-append_cidr_ipv6 line = elim (Option-cases (past_start (q.index_of line "/"))) [
    | inl e ↦ rw (e, append_cidr_ipv6) refl
    | inr (slash, e) ↦
        let prefix : Option ℤ = q.to_int (q.trimmed (q.mid line (slash + 1))) in
        let ip : String = strip_optional_brackets q (q.trimmed (q.left line slash)) in
        rw (e, append_cidr_ipv6)
          (cidr_ipv6-adds_range (valid_prefix 128 prefix) (ipv6_of (q.make_address ip))
            (λ k h. valid_prefix-le 128 k prefix h)
            (λ a h. sound.ipv6_size ip a (ipv6_of-some (q.make_address ip) a h)))
  ]

  adds_range-append_range_ipv4 : (line : String) → adds_range (append_range_ipv4 q line) ≡ true
  unfolding append_range_ipv4
  adds_range-append_range_ipv4 line = elim (Option-cases (q.index_of (q.trimmed line) " - ")) [
    | inl e ↦ rw (e, append_range_ipv4) refl
    | inr (n, e) ↦
        rw (e, append_range_ipv4)
          (ends_ipv4-adds_range (parse_dotted_ipv4 q (q.left (q.trimmed line) n))
            (parse_dotted_ipv4 q (q.mid (q.trimmed line) (n + 3))))
  ]

  adds_range-append_range_ipv6 : (line : String) → adds_range (append_range_ipv6 q line) ≡ true
  unfolding append_range_ipv6
  adds_range-append_range_ipv6 line = elim (Option-cases (q.index_of (q.trimmed line) " - ")) [
    | inl e ↦ rw (e, append_range_ipv6) refl
    | inr (n, e) ↦
        rw (e, append_range_ipv6)
          (ends_ipv6-adds_range (ipv6_of (parse_any_single_ip q (q.left (q.trimmed line) n)))
            (ipv6_of (parse_any_single_ip q (q.mid (q.trimmed line) (n + 3)))))
  ]

  adds_range-or_else :
      (a b : Option Rule)
      → adds_range a ≡ true
      → adds_range b ≡ true
      → adds_range (or_else a b) ≡ true
  adds_range-or_else none b ha hb = hb
  adds_range-or_else (some r) b ha hb = ha

  adds_range-if :
      (c : Bool) (a b : Option Rule)
      → adds_range a ≡ true
      → adds_range b ≡ true
      → adds_range (if c then a else b) ≡ true
  adds_range-if true a b ha hb = ha
  adds_range-if false a b ha hb = hb

  adds_range-single_rule : (o : Option Address) → adds_range (single_rule o) ≡ true
  adds_range-single_rule none = refl
  adds_range-single_rule (some (v4 a)) = le_bits_refl a
  adds_range-single_rule (some (v6 a)) = le_bits_refl a

  adds_range-cidr_rule : (t : String) (slash : Option ℕ) → adds_range (cidr_rule q t slash) ≡ true
  unfolding cidr_rule
  adds_range-cidr_rule t slash =
      adds_range-if (line_looks_like_ipv6 q (before q slash t)) (append_cidr_ipv6 q t)
        (or_else (append_cidr_ipv4 q t) (append_cidr_ipv6 q t)) (adds_range-append_cidr_ipv6 t)
        (adds_range-or_else (append_cidr_ipv4 q t) (append_cidr_ipv6 q t)
          (adds_range-append_cidr_ipv4 t) (adds_range-append_cidr_ipv6 t))

  adds_range-range_rule : (t : String) (at : Option ℕ) → adds_range (range_rule q t at) ≡ true
  unfolding range_rule
  adds_range-range_rule t none = adds_range-append_range_ipv4 t
  adds_range-range_rule t (some n) =
      let left6 : Bool = line_looks_like_ipv6 q (q.trimmed (q.left t n)) in
      let right6 : Bool = line_looks_like_ipv6 q (q.trimmed (q.mid t (n + 3))) in
      let both : Option Rule = if not left6 || not right6 then none else append_range_ipv6 q t in
      adds_range-if (left6 || right6) both (append_range_ipv4 q t)
        (adds_range-if (not left6 || not right6) none (append_range_ipv6 q t) refl
          (adds_range-append_range_ipv6 t))
        (adds_range-append_range_ipv4 t)

  pub adds_range-rule_of_line : (t : String) → adds_range (rule_of_line q t) ≡ true
  unfolding rule_of_line
  adds_range-rule_of_line t =
      let single : Option Rule = single_rule (parse_any_single_ip q t) in
      let span : Option Rule = range_rule q t (q.index_of t " - ") in
      adds_range-if (q.contains t "/") (cidr_rule q t (q.index_of t "/"))
        (if q.contains t " - " then span else single) (adds_range-cidr_rule t (q.index_of t "/"))
        (adds_range-if (q.contains t " - ") span single
          (adds_range-range_rule t (q.index_of t " - "))
          (adds_range-single_rule (parse_any_single_ip q t)))
