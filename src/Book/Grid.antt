-- ===== src/Book/Grid.antt =====
-- The tick grid of the order book: index_of, price_at and in_band of
-- cpp/include/hft/order_book.hpp, check_band of cpp/src/order_book.cpp.
use native.Mathlib.Nat.{
  mul-mod_left, mul-div_left, mod-add-div', mul-le-mul_right, le-div_iff_mul-le, suc-mul,
}
use high_frequency_trading.Base.{ℕ, ◌+◌, ◌*◌, ◌/◌, ◌%◌, ◌<◌, ◌≤◌, ◌≡◌, refl, ap, ◌∙◌, true, arith}
use high_frequency_trading.Base.Int.{
  ℤ, pos, negsuc, ◌+ℤ◌, ◌-ℤ◌, ◌*ℤ◌, ◌≤ℤ◌, ◌<ℤ◌, leb_ℤ, eqb_ℤ, pos_part, int_laws,
}
use high_frequency_trading.Instruments.{rem_ℤ, quot_ℤ}
use high_frequency_trading.Book.Records.{OrderBook, in_band, index_of, price_at}

pos_mul : (i t : ℕ) → pos i *ℤ pos t ≡ pos (i * t)
unfolding ◌*ℤ◌
pos_mul i t = ground arith

-- The grid of a book: a positive tick, and a level for each of its prices up to the highest.
pub record Grid (b : OrderBook) (levels : ℕ) : Type 0 where
  pub coarse : pos 0 <ℤ b.tick_size
  pub reaches : b.base ≤ℤ b.max_price
  pub counted : levels ≡ pos_part (quot_ℤ (b.max_price -ℤ b.base) b.tick_size) + 1

offset : (base x : ℤ) → (base +ℤ x) -ℤ base ≡ x
offset base x = omega int_laws

rejoin : (base p : ℤ) → base +ℤ (p -ℤ base) ≡ p
rejoin base p = omega int_laws

index_back : (t : ℤ) (i : ℕ) → pos 0 <ℤ t → pos_part (quot_ℤ (pos i *ℤ t) t) ≡ i
unfolding quot_ℤ
index_back (pos t) i h = rw (pos_mul i t) (mul-div_left i (omega arith))
index_back (negsuc t) i h = absurd (omega arith)

price_back :
    (t d : ℤ)
    → pos 0 <ℤ t
    → pos 0 ≤ℤ d
    → eqb_ℤ (rem_ℤ d t) (pos 0) ≡ true
    → pos (pos_part (quot_ℤ d t)) *ℤ t ≡ d
unfolding quot_ℤ rem_ℤ
price_back (pos t) (pos d) h k e =
    pos_mul (d / t) t ∙ ap pos (omega (arith, mod-add-div' d t, exact))
  where
    exact : d % t ≡ 0
    exact = ground arith
price_back (pos t) (negsuc d) h k e = absurd (omega arith)
price_back (negsuc t) d h k e = absurd (ground arith)

quot_mono :
    (t d m : ℤ) → pos 0 <ℤ t → pos 0 ≤ℤ d → d ≤ℤ m → pos_part (quot_ℤ d t) ≤ pos_part (quot_ℤ m t)
unfolding quot_ℤ
quot_mono (pos t) (pos d) (pos m) h k l =
    (le-div_iff_mul-le {k = t} {x = d / t} {y = m} (omega arith)).1
      (omega (arith, mod-add-div' d t))
quot_mono (pos t) (pos d) (negsuc m) h k l = absurd (omega arith)
quot_mono (pos t) (negsuc d) m h k l = absurd (omega arith)
quot_mono (negsuc t) d m h k l = absurd (omega arith)

-- A level's offset from the lowest price.
level_offset :
    (t m : ℤ) (i : ℕ)
    → pos 0 <ℤ t
    → pos 0 ≤ℤ m
    → i ≤ pos_part (quot_ℤ m t)
    → (pos 0 ≤ℤ pos i *ℤ t) × (pos i *ℤ t ≤ℤ m) × (rem_ℤ (pos i *ℤ t) t ≡ pos 0)
unfolding quot_ℤ rem_ℤ
level_offset (pos t) (pos m) i h k l =
    let fits : i * t ≤ m = (le-div_iff_mul-le {k = t} {x = i} {y = m} (omega arith)).0 l in
    rw (pos_mul i t) (omega arith, omega arith, ap pos (mul-mod_left i t))
level_offset (pos t) (negsuc m) i h k l = absurd (omega arith)
level_offset (negsuc t) m i h k l = absurd (omega arith)

offset_mono : (t : ℤ) (i j : ℕ) → pos 0 <ℤ t → i < j → pos i *ℤ t <ℤ pos j *ℤ t
offset_mono (pos t) i j h l =
    rw (pos_mul i t, pos_mul j t) (omega (arith, mul-le-mul_right t l, suc-mul i t))
offset_mono (negsuc t) i j h l = absurd (omega arith)

module _ (b : OrderBook) (levels : ℕ) (g : Grid b levels) where
  -- On a book with a positive tick, the index of a level's price is the level.
  pub index_of-price_at : (i : ℕ) → index_of b (price_at b i) ≡ i
  unfolding index_of price_at
  index_of-price_at i =
      rw (offset b.base (pos i *ℤ b.tick_size)) (index_back b.tick_size i g.coarse)

  -- A price in the band is that of its level.
  pub price_at-index_of : (p : ℤ) → in_band b p ≡ true → price_at b (index_of b p) ≡ p
  unfolding index_of price_at in_band
  price_at-index_of p h =
      let low : leb_ℤ b.base p ≡ true = ground arith in
      let exact : eqb_ℤ (rem_ℤ (p -ℤ b.base) b.tick_size) (pos 0) ≡ true = ground arith in
      let above : b.base ≤ℤ p = ground arith in
      rw (price_back b.tick_size (p -ℤ b.base) g.coarse (omega int_laws) exact) (rejoin b.base p)

  pub index_of-lt : (p : ℤ) → in_band b p ≡ true → index_of b p < levels
  unfolding index_of in_band
  index_of-lt p h =
      let low : b.base ≤ℤ p = ground arith in
      let high : p ≤ℤ b.max_price = ground arith in
      omega (
        arith,
        g.counted,
        quot_mono b.tick_size (p -ℤ b.base) (b.max_price -ℤ b.base) g.coarse (omega int_laws)
            (omega int_laws),
      )

  pub in_band-price_at : (i : ℕ) → i < levels → in_band b (price_at b i) ≡ true
  unfolding in_band price_at
  in_band-price_at i h =
      let reached = g.reaches in
      let (low, high, exact) =
        level_offset b.tick_size (b.max_price -ℤ b.base) i g.coarse (omega int_laws)
          (omega (arith, g.counted)) in
      let at_least : b.base ≤ℤ b.base +ℤ pos i *ℤ b.tick_size = omega int_laws in
      let at_most : b.base +ℤ pos i *ℤ b.tick_size ≤ℤ b.max_price = omega int_laws in
      let lowest : leb_ℤ b.base (b.base +ℤ pos i *ℤ b.tick_size) ≡ true = ground arith in
      let highest : leb_ℤ (b.base +ℤ pos i *ℤ b.tick_size) b.max_price ≡ true = ground arith in
      rw (offset b.base (pos i *ℤ b.tick_size), lowest, highest, exact) refl

  pub price_at-mono : (i j : ℕ) → i < j → price_at b i <ℤ price_at b j
  unfolding price_at
  price_at-mono i j h = let l = offset_mono b.tick_size i j g.coarse h in omega int_laws

  -- On a grid with a positive tick, a price in the band has a level of the book, whose price it is, and
  -- the price of a level of the book is in the band and has that level.
  pub in_band-levels :
      (p : ℤ) (i : ℕ)
      → in_band b p ≡ true
      → i < levels
      → (index_of b p < levels)
        × (price_at b (index_of b p) ≡ p)
        × (in_band b (price_at b i) ≡ true)
        × (index_of b (price_at b i) ≡ i)
  in_band-levels p i h l =
      (index_of-lt p h, price_at-index_of p h, in_band-price_at i l, index_of-price_at i)
