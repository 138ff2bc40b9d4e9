-- ===== src/Book/Bitmap/Tiers.antt =====
-- The invariant of the bitmap (LevelBitmap, cpp/src/order_book.cpp): each tier has a bit set for each
-- word below it that is not zero.
use high_frequency_trading.Base.{
  ℕ, ◌/◌, ◌%◌, ◌^◌, ◌≤◌, ◌<◌, ◌≡◌, refl, ap, ◌∙◌, not, arith, ◌==◌, get_or, length,
  length-replicate, get_or-replicate, replicate,
}
use high_frequency_trading.Base.Digits.{digit, digit-zero, bit_and-one_bit}
use high_frequency_trading.Book.Bitmap.{LevelBitmap, words_for, test_level, reset_levels}

-- The bit of a level in the lowest tier.
abbrev pub level_digit : LevelBitmap → ℕ → ℕ
level_digit m i = digit (get_or m.l0 (i / 64) 0) (i % 64)

pub record IsTiered (m : LevelBitmap) : Type 0 where
  pub sized0 : length m.l0 ≡ words_for m.n
  pub sized1 : length m.l1 ≡ words_for (words_for m.n)
  pub capped : length m.l1 ≤ 64
  pub small0 : (i : ℕ) → get_or m.l0 i 0 < 2 ^ 64
  pub small1 : (i : ℕ) → get_or m.l1 i 0 < 2 ^ 64
  pub small2 : m.l2_word < 2 ^ 64
  pub tier1 : (w : ℕ) → (digit (get_or m.l1 (w / 64) 0) (w % 64) == 0) ≡ (get_or m.l0 w 0 == 0)
  pub tier2 : (w : ℕ) → (digit m.l2_word w == 0) ≡ (get_or m.l1 w 0 == 0)

pub test_level_lem : (m : LevelBitmap) (i : ℕ) → test_level m i ≡ not (level_digit m i == 0)
unfolding test_level
test_level_lem m i = ap not (bit_and-one_bit (get_or m.l0 (i / 64) 0) (i % 64))

-- A bitmap with no bit set.
abbrev pub blank : ℕ → LevelBitmap
blank n = record {
  n = n;
  l0 = replicate (words_for n) 0;
  l1 = replicate (words_for (words_for n)) 0;
  l2_word = 0;
}

pub level_digit-blank : (n i : ℕ) → level_digit (blank n) i ≡ 0
level_digit-blank n i =
    ap (λ w. digit w (i % 64)) (get_or-replicate (words_for n) (i / 64) 0) ∙ digit-zero (i % 64)

pub blank-IsTiered : (n : ℕ) → words_for (words_for n) ≤ 64 → IsTiered (blank n)
blank-IsTiered n h = record {
  sized0 = length-replicate {A = ℕ} (words_for n) 0;
  sized1 = length-replicate {A = ℕ} (words_for (words_for n)) 0;
  capped = rw (length-replicate {A = ℕ} (words_for (words_for n)) 0) h;
  small0 = λ i. omega (arith, get_or-replicate {A = ℕ} (words_for n) i 0);
  small1 = λ i. omega (arith, get_or-replicate {A = ℕ} (words_for (words_for n)) i 0);
  small2 = omega arith;
  tier1 = λ w.
      rw
        (
          get_or-replicate {A = ℕ} (words_for (words_for n)) (w / 64) 0,
          get_or-replicate {A = ℕ} (words_for n) w 0,
          digit-zero (w % 64),
        )
        refl;
  tier2 = λ w. rw (get_or-replicate {A = ℕ} (words_for (words_for n)) w 0, digit-zero w) refl;
}

pub reset_levels_lem : (m : LevelBitmap) → IsTiered m → reset_levels m ≡ blank m.n
unfolding reset_levels
reset_levels_lem m t = rw (t.sized0, t.sized1) refl
