-- ===== src/IpFilter/Lines.antt =====
-- lt/ip_filter_loader.cc: the lines of an IP filter file and the rules that they add. What Qt and
-- libtorrent do with a text is a record of functions.
use torrent_link.Prelude.{
  ℕ, ℤ, pos, negsuc, zero, suc, ◌+◌, ◌-◌, leb, Bool, true, false, not, ◌&&◌, ◌||◌, String, is_empty,
  Option, none, some, List, [], ◌∷◌, ◌++◌, if◌then◌else◌,
}
use torrent_link.IpFilter.{
  Bits, Address, v4, v6, HostAddress, ipv4_protocol, ipv6_protocol, other_protocol, Rule, le_bits,
  in_order, ipv4_prefix_range, ipv6_apply_prefix_range, blocked_v4, blocked_v6,
}

-- What the code takes from QStringView, QHostAddress and libtorrent.
pub record QtLine : Type 0 where
  pub trimmed : String → String
  pub size : String → ℕ
  pub starts_with : String → String → Bool
  pub ends_with : String → String → Bool
  pub contains : String → String → Bool
  -- `none` is -1.
  pub index_of : String → String → Option ℕ
  pub left : String → ℕ → String
  pub mid : String → ℕ → String
  -- mid(position, n)
  pub mid_of : String → ℕ → ℕ → String
  pub to_int : String → Option ℤ
  -- setAddress, `none` for the result false.
  pub set_address : String → Option HostAddress
  -- `none` if the error code is set.
  pub make_address : String → Option Address

-- `ok` and `0 <= prefix <= limit`
abbrev pub valid_prefix : ℕ → Option ℤ → Option ℕ
valid_prefix limit none = none
valid_prefix limit (some (pos n)) = if leb n limit then some n else none
valid_prefix limit (some (negsuc n)) = none

-- `slash > 0`
abbrev pub past_start : Option ℕ → Option ℕ
past_start none = none
past_start (some zero) = none
past_start (some (suc n)) = some (suc n)

abbrev pub ipv4_of : Option HostAddress → Option Bits
ipv4_of (some (ipv4_protocol h)) = some h
ipv4_of _ = none

abbrev pub ipv6_of : Option Address → Option Bits
ipv6_of (some (v6 a)) = some a
ipv6_of _ = none

abbrev pub single_rule : Option Address → Option Rule
single_rule none = none
single_rule (some a) = some (record { first = a; last = a })

abbrev pub or_else : Option Rule → Option Rule → Option Rule
or_else (some r) o = some r
or_else none o = o

-- add_rule, and whether there is one.
abbrev pub add_rule : Option Rule → List Rule → List Rule × Bool
add_rule none out = (out, false)
add_rule (some r) out = (out ++ r ∷ [], true)

infixl 5 ◌>>=◌
abbrev pub ◌>>=◌ : {A B : Type 0} → Option A → (A → Option B) → Option B
none >>= f = none
some a >>= f = f a

abbrev pub v6_of : Option Address → Option Address
v6_of (some (v6 a)) = some (v6 a)
v6_of _ = none

module _ (q : QtLine) where
  -- left(position), or the whole text for -1.
  abbrev pub before : Option ℕ → String → String
  before none s = s
  before (some n) s = q.left s n

  unfoldable pub strip_optional_brackets : String → String
  strip_optional_brackets s =
      let t = q.trimmed s in
      if leb 2 (q.size t) && q.starts_with t "[" && q.ends_with t "]"
      then q.mid_of t 1 (q.size t - 2)
      else t

  abbrev pub parse_dotted_ipv4 : String → Option Bits
  parse_dotted_ipv4 s = ipv4_of (q.set_address (q.trimmed s))

  unfoldable pub single_ip : String → Option HostAddress → Option Address
  single_ip token (some (ipv4_protocol h)) = some (v4 h)
  single_ip token (some ipv6_protocol) = v6_of (q.make_address token)
  single_ip token (some other_protocol) = none
  single_ip token none = none

  unfoldable pub parse_any_single_ip : String → Option Address
  unfolding single_ip strip_optional_brackets
  parse_any_single_ip s =
      let token = strip_optional_brackets s in single_ip token (q.set_address token)

  -- The functions below give the rule that they add, and `none` for the result false.
  unfoldable pub append_cidr_ipv4 : String → Option Rule
  unfolding ipv4_prefix_range
  append_cidr_ipv4 line = do
    slash ← past_start (q.index_of line "/")
    prefix ← valid_prefix 32 (q.to_int (q.trimmed (q.mid line (slash + 1))))
    ip ← ipv4_of (q.set_address (q.trimmed (q.left line slash)))
    some (blocked_v4 (ipv4_prefix_range ip prefix))

  unfoldable pub append_cidr_ipv6 : String → Option Rule
  unfolding ipv6_apply_prefix_range strip_optional_brackets
  append_cidr_ipv6 line = do
    slash ← past_start (q.index_of line "/")
    prefix ← valid_prefix 128 (q.to_int (q.trimmed (q.mid line (slash + 1))))
    base ← ipv6_of (q.make_address (strip_optional_brackets (q.trimmed (q.left line slash))))
    some (blocked_v6 (ipv6_apply_prefix_range base prefix))

  unfoldable pub append_range_ipv4 : String → Option Rule
  unfolding le_bits
  append_range_ipv4 line = do
    let s = q.trimmed line
    at ← q.index_of s " - "
    a ← parse_dotted_ipv4 (q.left s at)
    b ← parse_dotted_ipv4 (q.mid s (at + 3))
    some (blocked_v4 (in_order a b))

  unfoldable pub append_range_ipv6 : String → Option Rule
  unfolding le_bits parse_any_single_ip
  append_range_ipv6 line = do
    let s = q.trimmed line
    at ← q.index_of s " - "
    a ← ipv6_of (parse_any_single_ip (q.left s at))
    b ← ipv6_of (parse_any_single_ip (q.mid s (at + 3)))
    some (blocked_v6 (in_order a b))

  abbrev pub line_looks_like_ipv6 : String → Bool
  line_looks_like_ipv6 t = q.contains t ":" || q.starts_with t "["

  unfoldable pub cidr_rule : String → Option ℕ → Option Rule
  unfolding append_cidr_ipv4 append_cidr_ipv6
  cidr_rule t slash =
      if line_looks_like_ipv6 (before slash t)
      then append_cidr_ipv6 t
      else or_else (append_cidr_ipv4 t) (append_cidr_ipv6 t)

  unfoldable pub range_rule : String → Option ℕ → Option Rule
  unfolding append_range_ipv4 append_range_ipv6
  range_rule t none = append_range_ipv4 t
  range_rule t (some at) =
      let left6 = line_looks_like_ipv6 (q.trimmed (q.left t at)) in
      let right6 = line_looks_like_ipv6 (q.trimmed (q.mid t (at + 3))) in
      if left6 || right6
      then (if not left6 || not right6 then none else append_range_ipv6 t)
      else append_range_ipv4 t

  -- The rule of a line that is neither empty nor a comment.
  unfoldable pub rule_of_line : String → Option Rule
  unfolding cidr_rule range_rule parse_any_single_ip
  rule_of_line t =
      if q.contains t "/"
      then cidr_rule t (q.index_of t "/")
      else if q.contains t " - "
      then range_rule t (q.index_of t " - ")
      else single_rule (parse_any_single_ip t)

  abbrev pub is_skipped : String → Bool
  is_skipped t = is_empty t || q.starts_with t "#"

  -- The filter after the line, and the result.
  unfoldable pub append_ip_filter_line : String → List Rule → List Rule × Bool
  unfolding rule_of_line
  append_ip_filter_line line out =
      let t = q.trimmed line in if is_skipped t then (out, true) else add_rule (rule_of_line t) out

  -- The filter and the number of rules applied.
  unfoldable pub load_lines : List String → List Rule × ℕ → List Rule × ℕ
  unfolding append_ip_filter_line
  load_lines [] s = s
  load_lines (raw ∷ lines) (out, applied) =
      let t = q.trimmed raw in
      let (out', ok) = append_ip_filter_line t out in
      let rest =
        load_lines lines
          (if is_skipped t then (out, applied) else (out', if ok then suc applied else applied)) in
      rest

  -- The filter and the number of rules applied, `none` for the result false. The argument is `none` if
  -- the file cannot be opened.
  unfoldable pub load_ip_filter_file : Option (List String) → List Rule × Option ℕ
  unfolding load_lines
  load_ip_filter_file none = ([], none)
  load_ip_filter_file (some lines) =
      let (out, applied) = load_lines lines ([], 0) in (out, some applied)
