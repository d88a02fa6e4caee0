-- ===== src/IpFilter/Blocks.antt =====
-- What the rule of a prefix blocks.
use torrent_link.Prelude.{
  ℕ, zero, suc, ◌≤◌, Bool, true, false, not, ◌&&◌, [], ◌∷◌, ◌≡◌, refl, sym, ap, ap₂, ◌∙◌, length,
  arith,
}
use torrent_link.IpFilter.{
  Bits, Address, v4, v6, Rule, le_bits, ipv4_prefix_range, ipv6_apply_prefix_range, blocked_v4,
  blocked_v6,
}
use torrent_link.IpFilter.Masks.{
  keep, range_of, ipv4_prefix_range-range_of, ipv6_apply_prefix_range-range_of,
}

abbrev pub within : Bits → Bits × Bits → Bool
within x (first, last) = le_bits first x && le_bits x last

-- Whether an address is between two others, the ends included.
abbrev pub between : Address → Address → Address → Bool
between (v4 a) (v4 b) (v4 x) = within x (a, b)
between (v6 a) (v6 b) (v6 x) = within x (a, b)
between _ _ _ = false

abbrev pub blocks : Rule → Address → Bool
blocks r x = between r.first r.last x

pub data Family : Type 0 where
  ipv4 ipv6 : Family

abbrev pub width : Family → ℕ
width ipv4 = 32
width ipv6 = 128

abbrev pub address_of : Family → Bits → Address
address_of ipv4 x = v4 x
address_of ipv6 x = v6 x

-- The rule of a prefix, as the code computes it for each family.
unfoldable pub prefix_rule : Family → Bits → ℕ → Rule
unfolding ipv4_prefix_range ipv6_apply_prefix_range
prefix_rule ipv4 ip k = blocked_v4 (ipv4_prefix_range ip k)
prefix_rule ipv6 ip k = blocked_v6 (ipv6_apply_prefix_range ip k)

-- Whether two addresses have the same first k bits.
abbrev pub shares_prefix : ℕ → Bits → Bits → Bool
shares_prefix zero xs ys = true
shares_prefix (suc k) (true ∷ xs) (b ∷ ys) = b && shares_prefix k xs ys
shares_prefix (suc k) (false ∷ xs) (b ∷ ys) = not b && shares_prefix k xs ys
shares_prefix (suc k) _ _ = true

low_end : (x ip : Bits) → length ip ≡ length x → le_bits (keep false 0 ip) x ≡ true
unfolding le_bits
low_end x [] h = refl
low_end [] (b ∷ ip) h = ground (arith, h)
low_end (true ∷ x) (b ∷ ip) h = refl
low_end (false ∷ x) (b ∷ ip) h = low_end x ip (omega (arith, h))

high_end : (x ip : Bits) → length ip ≡ length x → le_bits x (keep true 0 ip) ≡ true
unfolding le_bits
high_end [] ip h = refl
high_end (a ∷ x) [] h = ground (arith, h)
high_end (true ∷ x) (b ∷ ip) h = high_end x ip (omega (arith, h))
high_end (false ∷ x) (b ∷ ip) h = refl

within-range_of :
    (k : ℕ) (x ip : Bits) → length ip ≡ length x → within x (range_of k ip) ≡ shares_prefix k x ip
unfolding le_bits
within-range_of zero x ip h = ap₂ (λ a b. a && b) (low_end x ip h) (high_end x ip h)
within-range_of (suc k) [] [] h = refl
within-range_of (suc k) [] (b ∷ ip) h = ground (arith, h)
within-range_of (suc k) (a ∷ x) [] h = ground (arith, h)
within-range_of (suc k) (true ∷ x) (true ∷ ip) h = within-range_of k x ip (omega (arith, h))
within-range_of (suc k) (true ∷ x) (false ∷ ip) h = ground arith
within-range_of (suc k) (false ∷ x) (true ∷ ip) h = refl
within-range_of (suc k) (false ∷ x) (false ∷ ip) h = within-range_of k x ip (omega (arith, h))

-- The rule of a prefix with k bits blocks exactly the addresses of its family that share their first k
-- bits with the address before the slash: with the masks of IPv4 for k up to 32, with the loop over
-- the bits of IPv6 for k up to 128.
pub prefix_rule-blocks :
    (f : Family) (k : ℕ) (ip x : Bits)
    → length ip ≡ width f
    → length x ≡ width f
    → k ≤ width f
    → blocks (prefix_rule f ip k) (address_of f x) ≡ shares_prefix k x ip
unfolding prefix_rule
prefix_rule-blocks ipv4 k ip x w wx h =
    ap (within x) (ipv4_prefix_range-range_of ip k w h) ∙ within-range_of k x ip (w ∙ sym wx)
prefix_rule-blocks ipv6 k ip x w wx h =
    ap (within x) (ipv6_apply_prefix_range-range_of ip k w h) ∙ within-range_of k x ip (w ∙ sym wx)
