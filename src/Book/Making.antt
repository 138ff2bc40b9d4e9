-- ===== src/Book/Making.antt =====
-- The constructor of OrderBook (cpp/src/order_book.cpp), on every band.
use high_frequency_trading.Base.{
  ℕ, ◌+◌, ◌≤◌, ◌≡◌, refl, ap, sym, ◌∙◌, subst, ◌≢◌, inl, inr, true, false, Bool, Option, none, some,
  [], arith, replicate, ltb, Bool-cases,
}
use mathlib.Core.Option.{some-injective}
use high_frequency_trading.Instruments.{quot_ℤ}
use high_frequency_trading.Base.Int.{ℤ, pos, pos_part, leb_ℤ, ltb_ℤ, ◌-ℤ◌}
use high_frequency_trading.Types.{Side, buy, sell}
use high_frequency_trading.IdIndex.{vacant}
use high_frequency_trading.Book.Bitmap.{words_for}
use high_frequency_trading.Book.Bitmap.Tiers.{blank}
use high_frequency_trading.Book.Records.{
  OrderBook, no_policy, ValidBand, blank_level, nil_node, no_price, side_bitmap, check_band,
  book_on, make, initial_cells, grid_base, grid_levels,
}
use high_frequency_trading.Book.Views.{best_bid, best_ask}
use high_frequency_trading.Book.Cancel.{IsBook, order_of}
use high_frequency_trading.Book.Start.{
  Blank, Blank-IsBook, best_ask-Blank, best_bid-Blank, first-Sizing, order_of-Blank,
}

no_book : {b : OrderBook} → none ≢ some b
no_book e = cc

module _ (lo hi tick : ℤ) where
  abbrev pub base : ℤ
  base = grid_base lo tick

  abbrev pub levels : ℕ
  levels = grid_levels lo hi tick

  -- The book that the constructor makes of a band that it takes.
  abbrev pub made : OrderBook
  made = record {
    min_price = lo;
    max_price = hi;
    tick_size = tick;
    base = base;
    bids = replicate levels blank_level;
    asks = replicate levels blank_level;
    bid_map = blank levels;
    ask_map = blank levels;
    smp = no_policy;
    smp_events = 0;
    aggressor_stopped = false;
    pool = [];
    free_head = nil_node;
    live_orders = 0;
    ids = vacant initial_cells 1023;
  }

  coarse : (band : ValidBand) → check_band lo hi tick ≡ some band → leb_ℤ tick (pos 0) ≡ false
  unfolding check_band
  coarse band e = ground arith

  proper : (band : ValidBand) → check_band lo hi tick ≡ some band → ltb_ℤ hi lo ≡ false
  unfolding check_band
  proper band e = ground arith

  reaches : (band : ValidBand) → check_band lo hi tick ≡ some band → ltb_ℤ hi base ≡ false
  unfolding check_band
  reaches band e = ground arith

  counted :
      leb_ℤ tick (pos 0) ≡ false
      → ltb_ℤ hi lo ≡ false
      → ltb_ℤ hi base ≡ false
      → levels ≡ pos_part (quot_ℤ (hi -ℤ base) tick) + 1
  unfolding grid_levels
  counted e f g = rw (e, f, g) refl

  band_of :
      (band : ValidBand)
      → check_band lo hi tick ≡ some band
      → band
        ≡ record { min_price = lo; max_price = hi; tick_size = tick; base = base; levels = levels }
  unfolding check_band
  band_of band e = ground arith

  abbrev many : Bool
  many = ltb 64 (words_for (words_for levels))

  abbrev band_here : ValidBand
  band_here = record {
    min_price = lo;
    max_price = hi;
    tick_size = tick;
    base = base;
    levels = levels;
  }

  book_many : many ≡ true → book_on band_here ≡ none
  unfolding book_on
  book_many e = rw (book_on, e) refl

  book_few : many ≡ false → book_on band_here ≡ some made
  unfolding book_on
  book_few e = rw (book_on, e) refl

  book_of :
      (b : OrderBook)
      → book_on band_here ≡ some b
      → (b ≡ made) × (words_for (words_for levels) ≤ 64)
  book_of b e = elim (Bool-cases many) [
    | inl m ↦ absurd (no_book (sym (book_many m) ∙ e))
    | inr m ↦ (sym (some-injective made b (sym (book_few m) ∙ e)), ground arith)
  ]

  module _ (b : OrderBook) (band : ValidBand) (e : check_band lo hi tick ≡ some band)
      (f : book_on band ≡ some b) where
    shape : (b ≡ made) × (words_for (words_for levels) ≤ 64)
    shape = book_of b (ap book_on (sym (band_of band e)) ∙ f)

    made-Blank : Blank b levels initial_cells 1023
    made-Blank =
        let l = coarse band e in
        let g = reaches band e in
        let n = counted l (proper band e) g in
        subst (λ (c : OrderBook). Blank c levels initial_cells 1023) (sym shape.0)
          (record {
            grid = record { coarse = ground arith; reaches = ground arith; counted = n };
            bids = refl;
            asks = refl;
            maps = blank_maps;
            few = shape.1;
            pool = refl;
            free_head = refl;
            ids = refl;
            sizing = first-Sizing;
          })
      where
        blank_maps : (side : Side) → side_bitmap made side ≡ blank levels
        blank_maps buy = refl
        blank_maps sell = refl

pub make-Blank :
    (lo hi tick : ℤ) (b : OrderBook)
    → make lo hi tick ≡ some b
    → Blank b (grid_levels lo hi tick) initial_cells 1023
unfolding make
make-Blank lo hi tick b e = go (check_band lo hi tick) refl e
  where
    go :
        (band : Option ValidBand)
        → check_band lo hi tick ≡ band
        → (elim band [ none ↦ none | some d ↦ book_on d ]) ≡ some b
        → Blank b (grid_levels lo hi tick) initial_cells 1023
    go none f g = absurd (no_book g)
    go (some band) f g = made-Blank lo hi tick b band f g

-- A book that the constructor makes, of a band that it takes, is in order and has no order, and both
-- its best prices are kNoPrice.
pub make_lem :
    (lo hi tick : ℤ) (b : OrderBook)
    → make lo hi tick ≡ some b
    → IsBook b
      × ((id : ℕ) → order_of b id ≡ none)
      × (best_bid b ≡ no_price)
      × (best_ask b ≡ no_price)
make_lem lo hi tick b e =
    let n = grid_levels lo hi tick in
    let d = make-Blank lo hi tick b e in
    (
      Blank-IsBook b n initial_cells 1023 d,
      order_of-Blank b n initial_cells 1023 d,
      best_bid-Blank b n initial_cells 1023 d,
      best_ask-Blank b n initial_cells 1023 d,
    )
