-- ===== src/Book/Clearing.antt =====
-- OrderBook::clear (cpp/src/order_book.cpp).
use high_frequency_trading.Base.{ℕ, ◌≡◌, refl, ap, ◌∙◌, none, arith, length, List, replicate}
use high_frequency_trading.Types.{Side, buy, sell}
use high_frequency_trading.IdIndex.{vacant, IdTable}
use high_frequency_trading.IdIndex.Invariant.{IsValid}
use high_frequency_trading.IdIndex.Rebuild.{Sizing}
use high_frequency_trading.Book.Bitmap.{words_for}
use high_frequency_trading.Book.Bitmap.Tiers.{blank, reset_levels_lem}
use high_frequency_trading.Book.Records.{
  OrderBook, no_price, blank_level, nil_node, side_bitmap, price_at,
}
use high_frequency_trading.Book.{clear}
use high_frequency_trading.Book.Views.{best_bid, best_ask}
use high_frequency_trading.Book.Invariant.{Holds, lights}
use high_frequency_trading.Book.Cancel.{IsBook, order_of}
use high_frequency_trading.Book.Start.{
  Blank, Blank-IsBook, order_of-Blank, best_bid-Blank, best_ask-Blank,
}

Sizing-of : (t : IdTable) → IsValid t → Sizing (length t.keys) t.mask
Sizing-of t v = record {
  some_cell = omega (arith, v.room, v.counted);
  word_size = v.fits;
  mask_mod = v.masked;
}

cleared-Blank :
    (b : OrderBook) (q : Side → ℕ → List ℕ) (free : List ℕ)
    → Holds b q free (lights q)
    → Blank (clear b) (length b.bids) (length b.ids.keys) b.ids.mask
unfolding clear
cleared-Blank b q free h = record {
  grid = record { coarse = h.grid.coarse; reaches = h.grid.reaches; counted = h.grid.counted };
  bids = refl;
  asks = ap (λ n. replicate n blank_level) h.even;
  maps = maps;
  few = omega (
    arith,
    (h.tiers buy).sized1,
    (h.tiers buy).capped,
    ap (λ n. words_for (words_for n)) (h.wide buy),
  );
  pool = refl;
  free_head = refl;
  ids =
      ap (λ n. record (vacant (length b.ids.keys) b.ids.mask) { vals = replicate n nil_node })
        h.indexed.sized;
  sizing = Sizing-of b.ids h.indexed;
}
  where
    maps : (side : Side) → side_bitmap (clear b) side ≡ blank (length b.bids)
    maps buy = reset_levels_lem b.bid_map (h.tiers buy) ∙ ap blank (h.wide buy)
    maps sell = reset_levels_lem b.ask_map (h.tiers sell) ∙ ap blank (h.wide sell)

price_at-clear : (b : OrderBook) (i : ℕ) → price_at (clear b) i ≡ price_at b i
unfolding clear price_at
price_at-clear b i = refl

-- On a book in order, `clear` leaves a book in order with no order, with kNoPrice as both best prices,
-- and with the same prices for its levels.
pub clear_lem :
    (b : OrderBook)
    → IsBook b
    → IsBook (clear b)
      × ((id : ℕ) → order_of (clear b) id ≡ none)
      × (best_bid (clear b) ≡ no_price)
      × (best_ask (clear b) ≡ no_price)
      × ((i : ℕ) → price_at (clear b) i ≡ price_at b i)
unfolding IsBook
clear_lem b (q, free, h) =
    let d = cleared-Blank b q free h in
    let n = length b.bids in
    let size = length b.ids.keys in
    (
      Blank-IsBook (clear b) n size b.ids.mask d,
      order_of-Blank (clear b) n size b.ids.mask d,
      best_bid-Blank (clear b) n size b.ids.mask d,
      best_ask-Blank (clear b) n size b.ids.mask d,
      price_at-clear b,
    )
