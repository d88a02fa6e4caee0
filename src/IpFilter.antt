-- ===== src/IpFilter.antt =====
-- lt/ip_filter_loader.cc: addresses, rules and the ranges of prefixes.
pub mod Lines
pub mod Masks
pub mod Blocks
pub mod Ranges
pub mod Loading
use torrent_link.Prelude.{
  ℕ, ℤ, pos, negsuc, zero, suc, ◌+◌, ◌-◌, ◌==◌, leb, Bool, true, false, not, ◌&&◌, ◌||◌, String,
  is_empty, Option, none, some, List, [], ◌∷◌, ◌++◌, map, if◌then◌else◌,
}

-- An address of 32 or 128 bits, the most significant one first. Bit k of the bytes of an IPv6 address
-- is the one that the code reaches as byte k / 8 and mask 1 << (7 - k % 8).
abbrev pub Bits : Type 0
Bits = List Bool

-- libtorrent::address
pub data Address : Type 0 where
  v4 v6 : Bits → Address

-- The protocol of a QHostAddress, with toIPv4Address for the first.
pub data HostAddress : Type 0 where
  ipv4_protocol : Bits → HostAddress
  ipv6_protocol other_protocol : HostAddress

-- add_rule(first, last, ip_filter::blocked)
pub record Rule : Type 0 where
  pub first : Address
  pub last : Address

-- The order of memcmp on addresses of the same size.
unfoldable pub le_bits : Bits → Bits → Bool
le_bits [] bs = true
le_bits (a ∷ xs) [] = false
le_bits (true ∷ xs) (b ∷ ys) = b && le_bits xs ys
le_bits (false ∷ xs) (b ∷ ys) = b || le_bits xs ys

unfoldable pub zip_bits : (Bool → Bool → Bool) → Bits → Bits → Bits
zip_bits f [] bs = []
zip_bits f (a ∷ xs) [] = []
zip_bits f (a ∷ xs) (b ∷ ys) = f a b ∷ zip_bits f xs ys

unfoldable pub drop_bits : ℕ → Bits → Bits
drop_bits zero bs = bs
drop_bits (suc n) [] = []
drop_bits (suc n) (b ∷ ys) = drop_bits n ys

unfoldable pub copies : ℕ → Bool → Bits
copies zero b = []
copies (suc n) b = b ∷ copies n b

-- 0xFFFFFFFFu << n
unfoldable pub shifted_ones : ℕ → Bits
unfolding drop_bits copies
shifted_ones n = drop_bits n (copies 32 true) ++ copies n false

-- The range of a prefix, as appendCidrIpv4 computes it.
unfoldable pub ipv4_prefix_range : Bits → ℕ → Bits × Bits
unfolding zip_bits shifted_ones copies
ipv4_prefix_range ip zero = (copies 32 false, copies 32 true)
ipv4_prefix_range ip (suc p) =
    let mask = shifted_ones (32 - suc p) in
    let first_host = zip_bits (λ a b. a && b) ip mask in
    (first_host, zip_bits (λ a b. a || b) first_host (map not mask))

unfoldable pub set_bit : ℕ → Bool → Bits → Bits
set_bit k v [] = []
set_bit zero v (b ∷ ys) = v ∷ ys
set_bit (suc k) v (b ∷ ys) = b ∷ set_bit k v ys

-- The loop over the bits from k, which has n rounds left.
unfoldable pub fill_bits : ℕ → ℕ → Bits × Bits → Bits × Bits
unfolding set_bit
fill_bits zero k (first, last) = (first, last)
fill_bits (suc n) k (first, last) = fill_bits n (suc k) (set_bit k false first, set_bit k true last)

unfoldable pub ipv6_apply_prefix_range : Bits → ℕ → Bits × Bits
unfolding fill_bits copies
ipv6_apply_prefix_range ip prefix =
    if prefix == 0
    then (copies 128 false, copies 128 true)
    else if leb 128 prefix
    then (ip, ip)
    else fill_bits (128 - prefix) prefix (ip, ip)

abbrev pub blocked_v4 : Bits × Bits → Rule
blocked_v4 r = record { first = v4 (r.0); last = v4 (r.1) }

abbrev pub blocked_v6 : Bits × Bits → Rule
blocked_v6 r = record { first = v6 (r.0); last = v6 (r.1) }

-- std::swap(a, b) if memcmp gives a positive number.
abbrev pub in_order : Bits → Bits → Bits × Bits
in_order a b = if le_bits a b then (a, b) else (b, a)
