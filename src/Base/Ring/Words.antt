-- ===== src/Base/Ring/Words.antt =====
-- Facts on remainders that the ring's slots rest on.
use native.Mathlib.Nat.{
  mod-mod_of_dvd, mod-eq-zero_of_dvd, dvd_of_mod-eq-zero, dvd-mul_right_of_dvd, mod_self, pow-suc,
}
use torrent_link.Prelude.{
  ℕ, zero, suc, ◌+◌, ◌-◌, ◌%◌, ◌^◌, ◌≤◌, ◌<◌, ◌≡◌, ◌≢◌, arith, ap, ◌∙◌, subst,
}
use torrent_link.Base.Ring.{word}

-- Two numbers less than `c` apart have different remainders.
pub mod_apart : (c t i j : ℕ) → i < j → j < c + i → (t + i) % c ≢ (t + j) % c
mod_apart c t i j h h' e = grind arith

power-mod : (k j : ℕ) → 2 ^ (k + j) % 2 ^ k ≡ 0
power-mod k zero = ap (λ n. 2 ^ n % 2 ^ k) (omega arith) ∙ mod_self (2 ^ k)
power-mod k (suc j) =
    ap (λ n. n % 2 ^ k) (ap (λ n. 2 ^ n) (omega arith) ∙ pow-suc 2 (k + j))
    ∙ mod-eq-zero_of_dvd (2 ^ k)
        (dvd-mul_right_of_dvd (2 ^ k) (dvd_of_mod-eq-zero (2 ^ k) (power-mod k j)) 2)

-- The counters wrap at a multiple of the capacity.
pub mod-word : (k x : ℕ) → k ≤ 64 → x % word % 2 ^ k ≡ x % 2 ^ k
mod-word k x h =
    let e : k + (64 - k) ≡ 64 = omega arith in
    mod-mod_of_dvd (2 ^ k) x
      (dvd_of_mod-eq-zero (2 ^ k) (subst (λ n. 2 ^ n % 2 ^ k ≡ 0) e (power-mod k (64 - k))))
