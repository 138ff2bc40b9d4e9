-- ===== src/Base/Bits.antt =====
-- Masks: `x & (2^k - 1)` is the remainder by `2^k`, from the digits that `bit_and` stands for.
use Prim.Native.Nat.{
  ℕ, zero, suc, ◌+◌, ◌-◌, ◌*◌, ◌/◌, ◌%◌, ◌^◌, ◌≤◌, ◌<◌, min, bit_and, digits, bit_and-bitwise,
}
use mathlib.Core.Path.{◌≡◌, refl, ap, subst, ◌∙◌}
use native.Mathlib.Omega.{arith}
use native.Mathlib.Nat.{pow-suc, div-add-mod, mod-lt, mod-eq_of_lt, add-mul-mod_self_left}

-- The digits do not depend on the fuel, once it reaches the number.
conjunction : ℕ → ℕ → ℕ → ℕ
conjunction fuel x y = digits (λ b. zero) min fuel x y

conjunction_stable : (x y f g : ℕ) → x ≤ f → x ≤ g → conjunction f x y ≡ conjunction g x y
unfolding conjunction
conjunction_stable zero y zero zero p q = refl
conjunction_stable zero y zero (suc g) p q = refl
conjunction_stable zero y (suc f) zero p q = refl
conjunction_stable zero y (suc f) (suc g) p q = refl
conjunction_stable (suc x) y zero g p q = absurd (omega arith)
conjunction_stable (suc x) y (suc f) zero p q = absurd (omega arith)
conjunction_stable (suc x) y (suc f) (suc g) p q =
    omega (arith, conjunction_stable (suc x / 2) (y / 2) f g (omega arith) (omega arith))

pub zero-bit_and : (y : ℕ) → bit_and 0 y ≡ 0
zero-bit_and y = bit_and-bitwise 0 y

pub bit_and_halves : (x y : ℕ) → bit_and x y ≡ 2 * bit_and (x / 2) (y / 2) + min (x % 2) (y % 2)
unfolding conjunction
bit_and_halves zero y = omega (arith, zero-bit_and y, zero-bit_and (y / 2))
bit_and_halves (suc x) y = omega (
  arith,
  bit_and-bitwise (suc x) y,
  bit_and-bitwise (suc x / 2) (y / 2),
  conjunction_stable (suc x / 2) (y / 2) x (suc x / 2) (omega arith) (omega arith),
)

bit_and-zero_below : (bound x : ℕ) → x ≤ bound → bit_and x 0 ≡ 0
bit_and-zero_below bound zero h = zero-bit_and 0
bit_and-zero_below zero (suc x) h = absurd (omega arith)
bit_and-zero_below (suc bound) (suc x) h =
    omega (arith, bit_and_halves (suc x) 0, bit_and-zero_below bound (suc x / 2) (omega arith))

pub bit_and-zero : (x : ℕ) → bit_and x 0 ≡ 0
bit_and-zero x = bit_and-zero_below x x (omega arith)

mod_halves : (x p : ℕ) → 0 < p → x % (2 * p) ≡ 2 * (x / 2 % p) + x % 2
mod_halves x p h = subst (λ (z : ℕ). z % (2 * p) ≡ rest) regroup reduced
  where
    q : ℕ
    q = x / 2 / p

    rest : ℕ
    rest = 2 * (x / 2 % p) + x % 2

    regroup : rest + 2 * p * q ≡ x
    regroup = omega (arith, div-add-mod (x / 2) p)

    reduced : (rest + 2 * p * q) % (2 * p) ≡ rest
    reduced = add-mul-mod_self_left rest (2 * p) q ∙ mod-eq_of_lt (omega (arith, mod-lt (x / 2) h))

pub pow_pos : (k : ℕ) → 0 < 2 ^ k
pow_pos zero = omega arith
pow_pos (suc k) = omega (arith, pow-suc 2 k, pow_pos k)

-- A mask of `k` ones takes the remainder by `2 ^ k`.
pub bit_and_mask : (k x : ℕ) → bit_and x (2 ^ k - 1) ≡ x % 2 ^ k
bit_and_mask zero x = omega (arith, bit_and-zero_below x x (omega arith))
bit_and_mask (suc k) x = omega (
  arith,
  bit_and_halves x (2 ^ suc k - 1),
  pow-suc 2 k,
  pow_pos k,
  ap (bit_and (x / 2)) half,
  bit_and_mask k (x / 2),
  mod_halves x (2 ^ k) (pow_pos k),
  ap (λ (m : ℕ). x % m) double,
)
  where
    double : 2 ^ suc k ≡ 2 * 2 ^ k
    double = omega (arith, pow-suc 2 k)

    half : (2 ^ suc k - 1) / 2 ≡ 2 ^ k - 1
    half = omega (arith, pow-suc 2 k, pow_pos k)
