-- ===== src/Ring/Wrap.antt =====
-- Counts that never wrap, and the 64-bit indices of cpp/include/hft/ring_buffer.hpp that stand for
-- them.
use native.Mathlib.Nat.{
  pow-le-pow_right, mod-add-mod, mod-mod_of_dvd, dvd_refl, dvd-mul_right_of_dvd, pow-suc, add-suc,
}
use Prim.Native.Nat.{bit_and, ◌∣◌}
use high_frequency_trading.Base.{
  ℕ, zero, suc, ◌+◌, ◌-◌, ◌%◌, ◌^◌, ◌≤◌, ◌<◌, ◌≡◌, sym, ap, ◌∙◌, arith, word, inc64, sub64, subst,
}
use high_frequency_trading.Base.Bits.{bit_and_mask}

pow_dvd : (k m : ℕ) → 2 ^ k ∣ 2 ^ (k + m)
pow_dvd k zero = subst (λ e. 2 ^ k ∣ 2 ^ e) (omega arith) (dvd_refl (2 ^ k))
pow_dvd k (suc m) =
    subst (λ e. 2 ^ k ∣ e) (sym (ap (λ e. 2 ^ e) (add-suc k m) ∙ pow-suc 2 (k + m)))
      (dvd-mul_right_of_dvd (2 ^ k) (pow_dvd k m) 2)

-- A slot's number is the index's remainder by the capacity, and so that of the count.
pub slot_index : (k n : ℕ) → k ≤ 64 → bit_and (n % word) (2 ^ k - 1) ≡ n % 2 ^ k
slot_index k n h =
    let whole : k + (64 - k) ≡ 64 = omega arith in
    bit_and_mask k (n % word)
    ∙ mod-mod_of_dvd (2 ^ k) n (subst (λ e. 2 ^ k ∣ 2 ^ e) whole (pow_dvd k (64 - k)))

pub inc64_mod : (n : ℕ) → inc64 (n % word) ≡ (n + 1) % word
inc64_mod n = mod-add-mod n word 1

-- The difference of the indices is that of the counts.
pub distance : (t n : ℕ) → t ≤ n → n - t < word → sub64 (n % word) (t % word) ≡ n - t
distance t n h small = omega arith

pub same_index : (t n : ℕ) → t ≤ n → n - t < word → (t % word ≡ n % word) → t ≡ n
same_index t n h small e = omega arith

pub capacity_small : (k : ℕ) → k < 64 → 2 ^ k ≤ 2 ^ 63
capacity_small k h = let below : k ≤ 63 = omega arith in pow-le-pow_right (omega arith) below
