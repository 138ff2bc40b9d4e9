-- ===== src/Book/Bitmap/Scans.antt =====
-- The lowest and the highest bit of a word (`lowest_bit` and `highest_bit` of
-- cpp/src/order_book.cpp).
use native.Mathlib.Nat.{pow-suc}
use high_frequency_trading.Base.{
  ℕ, zero, suc, ◌/◌, ◌%◌, ◌^◌, ◌<◌, ◌≡◌, ◌≢◌, inl, inr, arith, ◌==◌, Bool-cases, subst, sym,
}
use high_frequency_trading.Base.Digits.{digit, digit-zero}
use high_frequency_trading.Book.Bitmap.{low_bit, high_bit}

-- The place is that of a bit that is set, and every bit below it is not.
abbrev pub Lowest : ℕ → ℕ → ℕ → Type 0
Lowest f w p = (p < f) × (digit w p ≡ 1) × ((j : ℕ) → j < p → digit w j ≡ 0)

abbrev pub Highest : ℕ → ℕ → ℕ → Type 0
Highest f w p = (p < f) × (digit w p ≡ 1) × ((j : ℕ) → p < j → digit w j ≡ 0)

Lowest-suc : (f w p : ℕ) → w % 2 ≡ 0 → Lowest f (w / 2) p → Lowest (suc f) w (suc p)
Lowest-suc f w p even (below, set, least) = (omega arith, set, all)
  where
    all : (j : ℕ) → j < suc p → digit w j ≡ 0
    all zero h = even
    all (suc j) h = least j (omega arith)

pub low_bit_lem : (f w : ℕ) → w < 2 ^ f → w ≢ 0 → Lowest f w (low_bit f w)
unfolding low_bit
low_bit_lem zero w b h = absurd (omega arith)
low_bit_lem (suc f) w b h = elim (Bool-cases (w % 2 == 1)) [
  | inl odd ↦ rw odd (omega arith, ground arith, λ j l. absurd (omega arith))
  | inr even ↦ rw even (
      Lowest-suc f w (low_bit f (w / 2)) (ground arith)
        (low_bit_lem f (w / 2) (omega (arith, pow-suc 2 f)) (λ e. ground arith)))
]

half_zero : (w j : ℕ) → w / 2 ≡ 0 → 0 < j → digit w j ≡ 0
half_zero w zero e h = absurd (omega arith)
half_zero w (suc j) e h = subst (λ v. digit v j ≡ 0) (sym e) (digit-zero j)

Highest-suc : (f w p : ℕ) → Highest f (w / 2) p → Highest (suc f) w (suc p)
Highest-suc f w p (below, set, most) = (omega arith, set, all)
  where
    all : (j : ℕ) → suc p < j → digit w j ≡ 0
    all zero h = absurd (omega arith)
    all (suc j) h = most j (omega arith)

pub high_bit_lem : (f w : ℕ) → w < 2 ^ f → w ≢ 0 → Highest f w (high_bit f w)
unfolding high_bit
high_bit_lem zero w b h = absurd (omega arith)
high_bit_lem (suc f) w b h = elim (Bool-cases (w / 2 == 0)) [
  | inl done ↦ rw done (omega arith, ground arith, λ j l. half_zero w j (ground arith) l)
  | inr more ↦ rw more (
      Highest-suc f w (high_bit f (w / 2))
        (high_bit_lem f (w / 2) (omega (arith, pow-suc 2 f)) (ground arith)))
]
