-- ===== src/Examples/Filters.antt =====
-- lt/ip_filter_loader.cc at concrete inputs.
use torrent_link.Prelude.{
  ◌==◌, ap, ℕ, pos, ◌≡◌, ◌≤◌, refl, arith, ◌&&◌, ◌||◌, Bool-cases, inl, inr, true, false, Bool,
  String, str_eq, Option, none, some, List, [], ◌∷◌, ◌++◌, length, if◌then◌else◌,
}
use torrent_link.IpFilter.{
  Bits, v4, HostAddress, ipv4_protocol, ipv6_protocol, other_protocol, le_bits,
}
use torrent_link.IpFilter.Lines.{QtLine, load_ip_filter_file}
use torrent_link.IpFilter.Blocks.{
  blocks, ipv4, prefix_rule, address_of, shares_prefix, prefix_rule-blocks,
}
use torrent_link.IpFilter.Ranges.{IsSound}
use torrent_link.IpFilter.Loading.{AreRanges, load_ip_filter_file-AreRanges}

abbrev ten : Bits
ten = false ∷ false ∷ false ∷ false ∷ true ∷ false ∷ true ∷ false ∷ []

abbrev two : Bits
two = false ∷ false ∷ false ∷ false ∷ false ∷ false ∷ true ∷ false ∷ []

-- 10.10.10.10 and 10.2.10.2
abbrev first_host : Bits
first_host = ten ++ ten ++ ten ++ ten

abbrev second_host : Bits
second_host = ten ++ two ++ ten ++ two

prefix_rule-blocks_example :
    blocks (prefix_rule ipv4 first_host 8) (address_of ipv4 second_host)
    ≡ shares_prefix 8 second_host first_host
prefix_rule-blocks_example =
    prefix_rule-blocks ipv4 8 first_host second_host refl refl (omega arith)

-- The first is in 10.10.10.10/8, and not in 10.10.10.10/16.
prefix_runs :
    (blocks (prefix_rule ipv4 first_host 8) (v4 second_host) ≡ true)
    × (blocks (prefix_rule ipv4 first_host 16) (v4 second_host) ≡ false)
unfolding prefix_rule le_bits
prefix_runs = (refl, refl)

-- It reads one address, one prefix, and one range.
abbrev small_text : QtLine
small_text = record {
  trimmed = λ s. s;
  size = λ s. 4;
  starts_with = λ s t. str_eq t "#" && str_eq s "# list";
  ends_with = λ s t. false;
  contains =
      λ s t. (str_eq s "host/8" && str_eq t "/") || (str_eq s "other - host" && str_eq t " - ");
  index_of = λ s t.
      if str_eq s "host/8" && str_eq t "/"
      then some 4
      else if str_eq s "other - host" && str_eq t " - "
      then some 5
      else none;
  left = λ s n. if str_eq s "host/8" then "host" else "other";
  mid = λ s n. if str_eq s "host/8" then "8" else "host";
  mid_of = λ s n m. s;
  to_int = λ s. if str_eq s "8" then some (pos 8) else none;
  set_address = λ s.
      if str_eq s "host"
      then some (ipv4_protocol first_host)
      else if str_eq s "other"
      then some (ipv4_protocol second_host)
      else none;
  make_address = λ s. none;
}

abbrev small_file : List String
small_file = "# list" ∷ "" ∷ "host/8" ∷ "other - host" ∷ "host" ∷ "nothing" ∷ []

abbrev all_sized : Option HostAddress → Bool
all_sized (some (ipv4_protocol h)) = length h == 32
all_sized _ = true

abbrev host_size : Option HostAddress → ℕ
host_size (some (ipv4_protocol h)) = length h
host_size _ = 0

size_of-host :
    (o : Option HostAddress) (h : Bits)
    → all_sized o ≡ true
    → o ≡ some (ipv4_protocol h)
    → length h ≡ 32
size_of-host none h k e = cc
size_of-host (some (ipv4_protocol b)) h k e = ground (arith, k, ap host_size e)
size_of-host (some ipv6_protocol) h k e = cc
size_of-host (some other_protocol) h k e = cc

small_text-IsSound : IsSound small_text
small_text-IsSound = record {
  trimmed_idem = λ s. refl;
  ipv4_size = λ s h e. size_of-host (small_text.set_address s) h (sized s) e;
  ipv6_size = λ s a e. cc;
}
  where
    sized : (s : String) → all_sized (small_text.set_address s) ≡ true
    sized s = elim (Bool-cases (str_eq s "host")) [
      | inl k ↦ rw k refl
      | inr k ↦ elim (Bool-cases (str_eq s "other")) [
        | inl m ↦ rw k (rw m refl)
        | inr m ↦ rw k (rw m refl)
      ]
    ]

load_ip_filter_file-AreRanges_example :
    AreRanges ((load_ip_filter_file small_text (some small_file)).0)
    × ((load_ip_filter_file small_text (some small_file)).1
        ≡ some (length ((load_ip_filter_file small_text (some small_file)).0)))
    × (length ((load_ip_filter_file small_text (some small_file)).0) ≤ length small_file)
load_ip_filter_file-AreRanges_example =
    load_ip_filter_file-AreRanges small_text small_text-IsSound small_file

load_run : (load_ip_filter_file small_text (some small_file)).1 ≡ some 3
unfolding load_ip_filter_file
load_run = refl
