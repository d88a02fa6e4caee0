-- ===== src/IpFilter/Masks.antt =====
-- The masks of an IPv4 prefix and the loop over the bits of an IPv6 prefix, as one function of the
-- prefix.
use torrent_link.Prelude.{
  ℕ, zero, suc, ◌+◌, ◌-◌, ◌≤◌, ◌==◌, leb, Bool, true, false, not, ◌&&◌, ◌||◌, [], ◌∷◌, ◌++◌, map,
  ◌≡◌, refl, sym, ap, ap₂, ◌∙◌, length, arith, Bool-cases, inl, inr,
}
use torrent_link.IpFilter.{
  Bits, zip_bits, drop_bits, copies, shifted_ones, ipv4_prefix_range, set_bit, fill_bits,
  ipv6_apply_prefix_range,
}

-- The first k bits of an address, and then v.
abbrev pub keep : Bool → ℕ → Bits → Bits
keep v k [] = []
keep v zero (b ∷ bs) = v ∷ keep v zero bs
keep v (suc k) (b ∷ bs) = b ∷ keep v k bs

keep-all : (v : Bool) (k : ℕ) (bs : Bits) → length bs ≤ k → keep v k bs ≡ bs
keep-all v k [] h = refl
keep-all v zero (b ∷ bs) h = ground (arith, h)
keep-all v (suc k) (b ∷ bs) h = ap (λ l. b ∷ l) (keep-all v k bs (omega (arith, h)))

keep-copies : (v : Bool) (n : ℕ) (bs : Bits) → length bs ≡ n → keep v 0 bs ≡ copies n v
unfolding copies
keep-copies v zero [] h = refl
keep-copies v (suc n) [] h = ground (arith, h)
keep-copies v zero (b ∷ bs) h = ground (arith, h)
keep-copies v (suc n) (b ∷ bs) h = ap (λ l. v ∷ l) (keep-copies v n bs (omega (arith, h)))

-- The mask with p ones and n zeros.
abbrev mask_of : ℕ → ℕ → Bits
mask_of p n = copies p true ++ copies n false

suc_add : (n p : ℕ) → suc n + p ≡ suc (n + p)
suc_add n p = omega arith

drop_bits-copies : (n p : ℕ) → drop_bits n (copies (n + p) true) ≡ copies p true
unfolding drop_bits copies
drop_bits-copies zero p = ap (λ n. copies n true) (omega arith)
drop_bits-copies (suc n) p =
    ap (λ w. drop_bits (suc n) (copies w true)) (suc_add n p) ∙ drop_bits-copies n p

shifted_ones-mask_of : (n p : ℕ) → n + p ≡ 32 → shifted_ones n ≡ mask_of p n
unfolding shifted_ones
shifted_ones-mask_of n p h =
    ap (λ l. l ++ copies n false)
      (ap (λ w. drop_bits n (copies w true)) (sym h) ∙ drop_bits-copies n p)

zip_bits-and :
    (p n : ℕ) (ip : Bits)
    → length ip ≡ p + n
    → zip_bits (λ a b. a && b) ip (mask_of p n) ≡ keep false p ip
unfolding zip_bits copies
zip_bits-and p n [] h = refl
zip_bits-and zero zero (b ∷ bs) h = ground (arith, h)
zip_bits-and zero (suc n) (false ∷ bs) h =
    ap (λ l. false ∷ l) (zip_bits-and zero n bs (omega (arith, h)))
zip_bits-and zero (suc n) (true ∷ bs) h =
    ap (λ l. false ∷ l) (zip_bits-and zero n bs (omega (arith, h)))
zip_bits-and (suc p) n (false ∷ bs) h = ap (λ l. false ∷ l) (zip_bits-and p n bs (omega (arith, h)))
zip_bits-and (suc p) n (true ∷ bs) h = ap (λ l. true ∷ l) (zip_bits-and p n bs (omega (arith, h)))

zip_bits-or :
    (p n : ℕ) (ip : Bits)
    → length ip ≡ p + n
    → zip_bits (λ a b. a || b) (keep false p ip) (map not (mask_of p n)) ≡ keep true p ip
unfolding zip_bits copies
zip_bits-or p n [] h = refl
zip_bits-or zero zero (b ∷ bs) h = ground (arith, h)
zip_bits-or zero (suc n) (b ∷ bs) h = ap (λ l. true ∷ l) (zip_bits-or zero n bs (omega (arith, h)))
zip_bits-or (suc p) n (false ∷ bs) h = ap (λ l. false ∷ l) (zip_bits-or p n bs (omega (arith, h)))
zip_bits-or (suc p) n (true ∷ bs) h = ap (λ l. true ∷ l) (zip_bits-or p n bs (omega (arith, h)))

-- The range that a prefix of k bits stands for.
abbrev pub range_of : ℕ → Bits → Bits × Bits
range_of k ip = (keep false k ip, keep true k ip)

pub ipv4_prefix_range-range_of :
    (ip : Bits) (p : ℕ) → length ip ≡ 32 → p ≤ 32 → ipv4_prefix_range ip p ≡ range_of p ip
unfolding ipv4_prefix_range
ipv4_prefix_range-range_of ip zero w h =
    ap₂ (λ a b. (a, b)) (sym (keep-copies false 32 ip w)) (sym (keep-copies true 32 ip w))
ipv4_prefix_range-range_of ip (suc p) w h =
    let n : ℕ = 32 - suc p in
    let mask : shifted_ones n ≡ mask_of (suc p) n =
      shifted_ones-mask_of n (suc p) (omega (arith, h)) in
    let wide : length ip ≡ suc p + n = omega (arith, w, h) in
    let first : zip_bits (λ a b. a && b) ip (shifted_ones n) ≡ keep false (suc p) ip =
      ap (zip_bits (λ a b. a && b) ip) mask ∙ zip_bits-and (suc p) n ip wide in
    ap₂ (λ a b. (a, b)) first
      (ap₂ (λ f m. zip_bits (λ a b. a || b) f (map not m)) first mask
        ∙ zip_bits-or (suc p) n ip wide)

keep-set_bit : (v : Bool) (k : ℕ) (bs : Bits) → keep v (suc k) (set_bit k v bs) ≡ keep v k bs
unfolding set_bit
keep-set_bit v k [] = refl
keep-set_bit v zero (b ∷ bs) = refl
keep-set_bit v (suc k) (b ∷ bs) = ap (λ l. b ∷ l) (keep-set_bit v k bs)

length-set_bit : (v : Bool) (k : ℕ) (bs : Bits) → length (set_bit k v bs) ≡ length bs
unfolding set_bit
length-set_bit v k [] = refl
length-set_bit v zero (b ∷ bs) = refl
length-set_bit v (suc k) (b ∷ bs) = ap suc (length-set_bit v k bs)

fill_bits-keep :
    (n k : ℕ) (f l : Bits)
    → length f ≡ k + n
    → length l ≡ k + n
    → fill_bits n k (f, l) ≡ (keep false k f, keep true k l)
unfolding fill_bits
fill_bits-keep zero k f l hf hl =
    ap₂ (λ a b. (a, b)) (sym (keep-all false k f (omega (arith, hf))))
      (sym (keep-all true k l (omega (arith, hl))))
fill_bits-keep (suc n) k f l hf hl =
    fill_bits-keep n (suc k) (set_bit k false f) (set_bit k true l)
      (omega (arith, hf, length-set_bit false k f)) (omega (arith, hl, length-set_bit true k l))
    ∙ ap₂ (λ a b. (a, b)) (keep-set_bit false k f) (keep-set_bit true k l)

pub ipv6_apply_prefix_range-range_of :
    (ip : Bits) (p : ℕ) → length ip ≡ 128 → p ≤ 128 → ipv6_apply_prefix_range ip p ≡ range_of p ip
unfolding ipv6_apply_prefix_range
ipv6_apply_prefix_range-range_of ip zero w h =
    ap₂ (λ a b. (a, b)) (sym (keep-copies false 128 ip w)) (sym (keep-copies true 128 ip w))
ipv6_apply_prefix_range-range_of ip (suc p) w h =
    let some_bits : (suc p == 0) ≡ false = ground arith in
    elim (Bool-cases (leb 128 (suc p))) [
      | inl whole ↦
          let all : length ip ≤ suc p = ground (arith, whole, w) in
          rw (some_bits, whole, ipv6_apply_prefix_range)
            (ap₂ (λ a b. (a, b)) (sym (keep-all false (suc p) ip all))
              (sym (keep-all true (suc p) ip all)))
      | inr part ↦
          let wide : length ip ≡ suc p + (128 - suc p) = omega (arith, w, h) in
          rw (some_bits, part, ipv6_apply_prefix_range)
            (fill_bits-keep (128 - suc p) (suc p) ip ip wide wide)
    ]
