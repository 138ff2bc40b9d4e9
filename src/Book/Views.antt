-- ===== src/Book/Views.antt =====
-- What the order book shows: the accessors of OrderBook, cpp/src/order_book.cpp.
use high_frequency_trading.Base.{
  ℕ, zero, suc, Bool, not, ◌||◌, Option, none, some, List, [], ◌∷◌, ◌==◌, if◌then◌else◌,
}
use high_frequency_trading.Base.Int.{ℤ, pos, ◌-ℤ◌, eqb_ℤ}
use high_frequency_trading.Double.{Double, price_to_double}
use high_frequency_trading.Types.{Side, buy, sell}
use high_frequency_trading.IdIndex.{slot_for}
use high_frequency_trading.Book.Bitmap.{find_lowest, find_highest, scan_above, scan_below}
use high_frequency_trading.Book.Records.{
  LevelView, OrderBook, no_price, nil_node, in_band, index_of, price_at, level_at,
}
use high_frequency_trading.Book.Match.{best_level}

unfoldable pub has_order : OrderBook → ℕ → Bool
has_order b id = not (slot_for b.ids id == nil_node)

unfoldable pub best_price : OrderBook → Option ℕ → ℤ
best_price b none = no_price
best_price b (some i) = price_at b i

unfoldable pub best_bid : OrderBook → ℤ
unfolding best_price
best_bid b = best_price b (find_highest b.bid_map)

unfoldable pub best_ask : OrderBook → ℤ
unfolding best_price
best_ask b = best_price b (find_lowest b.ask_map)

unfoldable pub quantity_of : OrderBook → Side → Option ℕ → ℤ
quantity_of b side none = pos 0
quantity_of b side (some i) = (level_at b side i).total_quantity

unfoldable pub best_bid_quantity : OrderBook → ℤ
unfolding quantity_of
best_bid_quantity b = quantity_of b buy (find_highest b.bid_map)

unfoldable pub best_ask_quantity : OrderBook → ℤ
unfolding quantity_of
best_ask_quantity b = quantity_of b sell (find_lowest b.ask_map)

abbrev pub both_sides : OrderBook → Bool
both_sides b = not (eqb_ℤ (best_bid b) no_price || eqb_ℤ (best_ask b) no_price)

-- `none` where the source returns false.
unfoldable pub spread : OrderBook → Option ℤ
unfolding best_bid best_ask
spread b = if both_sides b then some (best_ask b -ℤ best_bid b) else none

-- `half` is the constant 0.5.
unfoldable pub mid_price : {D : Type 0} ⦃d : Double D⦄ → (half : D) → OrderBook → Option D
unfolding best_bid best_ask
mid_price ⦃d⦄ half b =
    if both_sides b
    then some (d.mul (d.add (price_to_double (best_bid b)) (price_to_double (best_ask b))) half)
    else none

unfoldable pub quantity_at : OrderBook → Side → ℤ → ℤ
quantity_at b side price =
    if in_band b price then (level_at b side (index_of b price)).total_quantity else pos 0

abbrev pub next_level : OrderBook → Side → ℕ → Option ℕ
next_level b buy i = scan_below b.bid_map.l0 i
next_level b sell i = scan_above b.ask_map.l0 b.ask_map.n i

-- The views of up to `rounds` levels from the given one on.
unfoldable pub views : ℕ → OrderBook → Side → Option ℕ → List LevelView
views zero b side at = []
views (suc rounds) b side none = []
views (suc rounds) b side (some i) =
    record {
      price = price_at b i;
      quantity = (level_at b side i).total_quantity;
      order_count = (level_at b side i).order_count;
    }
    ∷ views rounds b side (next_level b side i)

unfoldable pub depth : OrderBook → Side → ℕ → List LevelView
unfolding best_level views
depth b side levels = views levels b side (best_level b side)
