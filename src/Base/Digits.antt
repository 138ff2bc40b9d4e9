-- ===== src/Base/Digits.antt =====
-- Single bits of a machine word: `w | (1 << i)`, `w & ~(1 << i)` and `w & (1 << i)`, read digit by
-- digit.
use Prim.Native.Nat.{
  ℕ, zero, suc, ◌+◌, ◌-◌, ◌*◌, ◌/◌, ◌%◌, ◌^◌, ◌≤◌, ◌<◌, max, bit_or, bit_and, digits,
  bit_or-bitwise,
}
use mathlib.Core.Path.{◌≡◌, refl, ap, ◌∙◌}
use native.Mathlib.Omega.{arith}
use native.Mathlib.Nat.{pow-suc, mod-eq_of_lt}
use high_frequency_trading.Base.Tests.{◌==◌, if◌then◌else◌}
use high_frequency_trading.Base.Bits.{bit_and_halves, bit_and-zero, bit_and_mask, pow_pos}

-- The bit at a place, 0 or 1.
abbrev pub digit : ℕ → ℕ → ℕ
digit w zero = w % 2
digit w (suc i) = digit (w / 2) i

disjunction : ℕ → ℕ → ℕ → ℕ
disjunction fuel x y = digits (λ b. b) max fuel x y

disjunction_stable : (x y f g : ℕ) → x ≤ f → x ≤ g → disjunction f x y ≡ disjunction g x y
unfolding disjunction
disjunction_stable zero y zero zero p q = refl
disjunction_stable zero y zero (suc g) p q = refl
disjunction_stable zero y (suc f) zero p q = refl
disjunction_stable zero y (suc f) (suc g) p q = refl
disjunction_stable (suc x) y zero g p q = absurd (omega arith)
disjunction_stable (suc x) y (suc f) zero p q = absurd (omega arith)
disjunction_stable (suc x) y (suc f) (suc g) p q =
    omega (arith, disjunction_stable (suc x / 2) (y / 2) f g (omega arith) (omega arith))

zero-bit_or : (y : ℕ) → bit_or 0 y ≡ y
zero-bit_or y = bit_or-bitwise 0 y

bit_or_halves : (x y : ℕ) → bit_or x y ≡ 2 * bit_or (x / 2) (y / 2) + max (x % 2) (y % 2)
unfolding disjunction
bit_or_halves zero y = omega (arith, zero-bit_or y, zero-bit_or (y / 2))
bit_or_halves (suc x) y = omega (
  arith,
  bit_or-bitwise (suc x) y,
  bit_or-bitwise (suc x / 2) (y / 2),
  disjunction_stable (suc x / 2) (y / 2) x (suc x / 2) (omega arith) (omega arith),
)

bit_or-zero_below : (bound x : ℕ) → x ≤ bound → bit_or x 0 ≡ x
bit_or-zero_below bound zero h = zero-bit_or 0
bit_or-zero_below zero (suc x) h = absurd (omega arith)
bit_or-zero_below (suc bound) (suc x) h =
    omega (arith, bit_or_halves (suc x) 0, bit_or-zero_below bound (suc x / 2) (omega arith))

pub bit_or-zero : (x : ℕ) → bit_or x 0 ≡ x
bit_or-zero x = bit_or-zero_below x x (omega arith)

one_bit_half : (i : ℕ) → (2 ^ suc i / 2 ≡ 2 ^ i) × (2 ^ suc i % 2 ≡ 0)
one_bit_half i = (omega (arith, pow-suc 2 i), omega (arith, pow-suc 2 i))

-- The halves of the words that the operations make.
or_bit_zero : (w : ℕ) → (bit_or w (2 ^ 0) / 2 ≡ w / 2) × (bit_or w (2 ^ 0) % 2 ≡ 1)
or_bit_zero w =
    let e = bit_or_halves w 1 in
    let z = bit_or-zero (w / 2) in (omega (arith, e, z), omega (arith, e, z))

or_bit_suc :
    (w i : ℕ)
    → (bit_or w (2 ^ suc i) / 2 ≡ bit_or (w / 2) (2 ^ i)) × (bit_or w (2 ^ suc i) % 2 ≡ w % 2)
or_bit_suc w i =
    let e = bit_or_halves w (2 ^ suc i) in
    let (half, even) = one_bit_half i in
    let same : bit_or (w / 2) (2 ^ suc i / 2) ≡ bit_or (w / 2) (2 ^ i) = ap (bit_or (w / 2)) half in
    (omega (arith, e, same, even), omega (arith, e, same, even))

-- `w | (1 << i)` sets that bit and no other.
pub digit-bit_or : (w i j : ℕ) → digit (bit_or w (2 ^ i)) j ≡ (if i == j then 1 else digit w j)
digit-bit_or w zero zero = (or_bit_zero w).1
digit-bit_or w zero (suc j) = ground (arith, ap (λ v. digit v j) (or_bit_zero w).0)
digit-bit_or w (suc i) zero = ground (arith, (or_bit_suc w i).1)
digit-bit_or w (suc i) (suc j) =
    ground (arith, ap (λ v. digit v j) (or_bit_suc w i).0, digit-bit_or (w / 2) i j)

pub bit_or-lt : (k w i : ℕ) → i < k → w < 2 ^ k → bit_or w (2 ^ i) < 2 ^ k
bit_or-lt zero w i h b = absurd (omega arith)
bit_or-lt (suc k) w zero h b = let (e, f) = or_bit_zero w in omega (arith, e, f, pow-suc 2 k, b)
bit_or-lt (suc k) w (suc i) h b =
    let (e, f) = or_bit_suc w i in
    omega (
      arith,
      e,
      f,
      pow-suc 2 k,
      b,
      bit_or-lt k (w / 2) i (omega arith) (omega (arith, pow-suc 2 k)),
    )

-- `~(1 << i)` in a word of `k` bits.
abbrev pub clear_mask : ℕ → ℕ → ℕ
clear_mask k i = 2 ^ k - 1 - 2 ^ i

pow_below : (k i : ℕ) → i < k → 2 ^ i < 2 ^ k
pow_below zero i h = absurd (omega arith)
pow_below (suc k) zero h = omega (arith, pow-suc 2 k, pow_pos k)
pow_below (suc k) (suc i) h = omega (arith, pow-suc 2 k, pow-suc 2 i, pow_below k i (omega arith))

clear_mask_zero : (k : ℕ) → (clear_mask (suc k) 0 / 2 ≡ 2 ^ k - 1) × (clear_mask (suc k) 0 % 2 ≡ 0)
clear_mask_zero k = (omega (arith, pow-suc 2 k, pow_pos k), omega (arith, pow-suc 2 k, pow_pos k))

clear_mask-suc :
    (k i : ℕ)
    → i < k
    → (clear_mask (suc k) (suc i) / 2 ≡ clear_mask k i) × (clear_mask (suc k) (suc i) % 2 ≡ 1)
clear_mask-suc k i h = (
  omega (arith, pow-suc 2 k, pow-suc 2 i, pow_below k i h),
  omega (arith, pow-suc 2 k, pow-suc 2 i, pow_below k i h),
)

and_clear_zero :
    (k w : ℕ)
    → w < 2 ^ suc k
    → (bit_and w (clear_mask (suc k) 0) / 2 ≡ w / 2) × (bit_and w (clear_mask (suc k) 0) % 2 ≡ 0)
and_clear_zero k w b =
    let e = bit_and_halves w (clear_mask (suc k) 0) in
    let (half, even) = clear_mask_zero k in
    let small : w / 2 < 2 ^ k = omega (arith, pow-suc 2 k) in
    let m : bit_and (w / 2) (clear_mask (suc k) 0 / 2) ≡ w / 2 =
      ap (bit_and (w / 2)) half ∙ bit_and_mask k (w / 2) ∙ mod-eq_of_lt small in
    (omega (arith, e, m, even), omega (arith, e, m, even))

and_clear_suc :
    (k w i : ℕ)
    → i < k
    → (bit_and w (clear_mask (suc k) (suc i)) / 2 ≡ bit_and (w / 2) (clear_mask k i))
      × (bit_and w (clear_mask (suc k) (suc i)) % 2 ≡ w % 2)
and_clear_suc k w i h =
    let e = bit_and_halves w (clear_mask (suc k) (suc i)) in
    let (half, odd) = clear_mask-suc k i h in
    let m : bit_and (w / 2) (clear_mask (suc k) (suc i) / 2) ≡ bit_and (w / 2) (clear_mask k i) =
      ap (bit_and (w / 2)) half in
    (omega (arith, e, m, odd), omega (arith, e, m, odd))

-- `w & ~(1 << i)` clears that bit and no other.
pub digit-clear :
    (k w i j : ℕ)
    → i < k
    → w < 2 ^ k
    → digit (bit_and w (clear_mask k i)) j ≡ (if i == j then 0 else digit w j)
digit-clear zero w i j h b = absurd (omega arith)
digit-clear (suc k) w zero zero h b = (and_clear_zero k w b).1
digit-clear (suc k) w zero (suc j) h b =
    ground (arith, ap (λ v. digit v j) (and_clear_zero k w b).0)
digit-clear (suc k) w (suc i) zero h b = ground (arith, (and_clear_suc k w i (omega arith)).1)
digit-clear (suc k) w (suc i) (suc j) h b = ground (
  arith,
  ap (λ v. digit v j) (and_clear_suc k w i (omega arith)).0,
  digit-clear k (w / 2) i j (omega arith) (omega (arith, pow-suc 2 k)),
)

pub clear-lt : (k w i : ℕ) → i < k → w < 2 ^ k → bit_and w (clear_mask k i) < 2 ^ k
clear-lt zero w i h b = absurd (omega arith)
clear-lt (suc k) w zero h b =
    let (e, f) = and_clear_zero k w b in omega (arith, e, f, pow-suc 2 k, b)
clear-lt (suc k) w (suc i) h b =
    let (e, f) = and_clear_suc k w i (omega arith) in
    omega
      (arith, e, f, pow-suc 2 k, b, clear-lt k (w / 2) i (omega arith) (omega (arith, pow-suc 2 k)))

-- `w & (1 << i)` is not zero exactly when the bit is set.
pub bit_and-one_bit : (w i : ℕ) → (bit_and w (2 ^ i) == 0) ≡ (digit w i == 0)
bit_and-one_bit w zero = ground (arith, bit_and_halves w 1, bit_and-zero (w / 2))
bit_and-one_bit w (suc i) =
    let e = bit_and_halves w (2 ^ suc i) in
    let (half, even) = one_bit_half i in
    let m : bit_and (w / 2) (2 ^ suc i / 2) ≡ bit_and (w / 2) (2 ^ i) = ap (bit_and (w / 2)) half in
    ground (arith, e, m, even, bit_and-one_bit (w / 2) i)

-- A word with no bit set is zero.
pub zero_of_digits : (k w : ℕ) → w < 2 ^ k → ((i : ℕ) → i < k → digit w i ≡ 0) → w ≡ 0
zero_of_digits zero w b h = omega arith
zero_of_digits (suc k) w b h = omega (
  arith,
  h 0 (omega arith),
  zero_of_digits k (w / 2) (omega (arith, pow-suc 2 k)) (λ i l. h (suc i) (omega arith)),
)

pub digit-zero : (i : ℕ) → digit 0 i ≡ 0
digit-zero zero = refl
digit-zero (suc i) = digit-zero i
