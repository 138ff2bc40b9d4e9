-- ===== src/Book/Bitmap.antt =====
-- The three-tier bitmap of the price levels: LevelBitmap in cpp/include/hft/order_book.hpp and
-- cpp/src/order_book.cpp. `npos` is `none`, as is a constructor that throws.
pub mod Scans
pub mod Tiers
pub mod Updates
pub mod Extremes
use Prim.Native.Nat.{bit_or, bit_and}
use high_frequency_trading.Base.{
  ℕ, zero, suc, ◌+◌, ◌-◌, ◌*◌, ◌/◌, ◌%◌, ◌^◌, Bool, true, false, not, Option, none, some, List,
  ◌==◌, leb, ltb, if◌then◌else◌, get_or, set, replicate, length,
}
use high_frequency_trading.Base.Digits.{clear_mask}

pub record LevelBitmap : Type 0 where
  pub n : ℕ
  pub l0 : List ℕ
  pub l1 : List ℕ
  pub l2_word : ℕ

-- `bit(i)`, and its complement in 64 bits.
abbrev pub bit : ℕ → ℕ
bit i = 2 ^ (i % 64)

abbrev pub no_bit : ℕ → ℕ
no_bit i = clear_mask 64 (i % 64)

-- The places of the lowest and of the highest bit that is set, with as many steps as the word has
-- bits.
unfoldable pub low_bit : ℕ → ℕ → ℕ
low_bit zero w = 0
low_bit (suc f) w = if w % 2 == 1 then 0 else suc (low_bit f (w / 2))

unfoldable pub high_bit : ℕ → ℕ → ℕ
high_bit zero w = 0
high_bit (suc f) w = if w / 2 == 0 then 0 else suc (high_bit f (w / 2))

abbrev pub lowest_bit : ℕ → ℕ
lowest_bit w = low_bit 64 w

abbrev pub highest_bit : ℕ → ℕ
highest_bit w = high_bit 64 w

abbrev pub words_for : ℕ → ℕ
words_for n = (n + 63) / 64

abbrev pub make_bitmap : ℕ → Option LevelBitmap
make_bitmap n =
    if ltb 64 (words_for (words_for n))
    then none
    else some (record {
      n = n;
      l0 = replicate (words_for n) 0;
      l1 = replicate (words_for (words_for n)) 0;
      l2_word = 0;
    })

unfoldable pub set_level : LevelBitmap → ℕ → LevelBitmap
set_level m i =
    let w0 = i / 64 in
    let w1 = w0 / 64 in
    record {
      n = m.n;
      l0 = set m.l0 w0 (bit_or (get_or m.l0 w0 0) (bit i));
      l1 = set m.l1 w1 (bit_or (get_or m.l1 w1 0) (bit w0));
      l2_word = bit_or m.l2_word (bit w1);
    }

-- A tier is written only when the word below it has become empty.
unfoldable pub clear_level : LevelBitmap → ℕ → LevelBitmap
clear_level m i =
    let w0 = i / 64 in
    let w1 = w0 / 64 in
    let v0 = bit_and (get_or m.l0 w0 0) (no_bit i) in
    let v1 = bit_and (get_or m.l1 w1 0) (no_bit w0) in
    record {
      n = m.n;
      l0 = set m.l0 w0 v0;
      l1 = if v0 == 0 then set m.l1 w1 v1 else m.l1;
      l2_word =
          if v0 == 0
          then (if v1 == 0 then bit_and m.l2_word (no_bit w1) else m.l2_word)
          else m.l2_word;
    }

unfoldable pub test_level : LevelBitmap → ℕ → Bool
test_level m i = not (bit_and (get_or m.l0 (i / 64) 0) (bit i) == 0)

unfoldable pub reset_levels : LevelBitmap → LevelBitmap
reset_levels m = record {
  n = m.n;
  l0 = replicate (length m.l0) 0;
  l1 = replicate (length m.l1) 0;
  l2_word = 0;
}

unfoldable pub find_highest : LevelBitmap → Option ℕ
find_highest m =
    if m.l2_word == 0
    then none
    else let w1 = highest_bit m.l2_word in
      let w0 = w1 * 64 + highest_bit (get_or m.l1 w1 0) in
      some (w0 * 64 + highest_bit (get_or m.l0 w0 0))

unfoldable pub find_lowest : LevelBitmap → Option ℕ
find_lowest m =
    if m.l2_word == 0
    then none
    else let w1 = lowest_bit m.l2_word in
      let w0 = w1 * 64 + lowest_bit (get_or m.l1 w1 0) in
      some (w0 * 64 + lowest_bit (get_or m.l0 w0 0))

-- The loops of scan_above and scan_below over the words, with the words that are left as fuel.
unfoldable pub scan_up : List ℕ → ℕ → ℕ → ℕ → Option ℕ
scan_up l0 zero w bits = none
scan_up l0 (suc f) w bits = elim (bits == 0) [
  | true ↦ if leb (length l0) (w + 1) then none else scan_up l0 f (w + 1) (get_or l0 (w + 1) 0)
  | false ↦ some (w * 64 + lowest_bit bits)
]

unfoldable pub scan_down : List ℕ → ℕ → ℕ → Option ℕ
scan_down l0 zero bits = if bits == 0 then none else some (highest_bit bits)
scan_down l0 (suc w) bits =
    if bits == 0 then scan_down l0 w (get_or l0 w 0) else some (suc w * 64 + highest_bit bits)

-- `~0ULL << k` is a mask of the bits from `k` up, `(1ULL << (b + 1)) - 1` one of those up to `b`.
unfoldable pub scan_above : List ℕ → ℕ → ℕ → Option ℕ
unfolding scan_up
scan_above l0 n i =
    if leb n (i + 1)
    then none
    else let j = i + 1 in
      let w = j / 64 in scan_up l0 (length l0) w (bit_and (get_or l0 w 0) (2 ^ 64 - 2 ^ (j % 64)))

unfoldable pub scan_below : List ℕ → ℕ → Option ℕ
unfolding scan_down
scan_below l0 i =
    if i == 0
    then none
    else let j = i - 1 in
      let w = j / 64 in scan_down l0 w (bit_and (get_or l0 w 0) (2 ^ (j % 64 + 1) - 1))
