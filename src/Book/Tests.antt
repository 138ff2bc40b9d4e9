-- ===== src/Book/Tests.antt =====
-- Runs of the order book (cpp/src/order_book.cpp).
use high_frequency_trading.Base.{ℕ, ◌≡◌, refl, Option, none, some, List, [], ◌∷◌}
use high_frequency_trading.Base.Int.{ℤ, pos}
use high_frequency_trading.Types.{Side, buy, sell}
use high_frequency_trading.Base.Int.{◌+ℤ◌, ◌-ℤ◌, ◌*ℤ◌, neg}
use high_frequency_trading.Types.{opposite}
use high_frequency_trading.Instruments.{rem_ℤ, quot_ℤ}
use high_frequency_trading.IdIndex.{slot_for, walk, mix, place, put_at, erase, erase_at}
use high_frequency_trading.Book.Bitmap.{
  find_lowest, find_highest, low_bit, high_bit, set_level, clear_level,
}
use high_frequency_trading.Book.Records.{
  OrderBook, Trade, make, check_band, book_on, grid_base, grid_levels, in_band, index_of, price_at,
}
use high_frequency_trading.Book.Slab.{
  alloc_node, free_node, link_back, unlink, id_insert, id_grow, grow_cap,
}
use high_frequency_trading.Book.Match.{
  best_level, beyond_limit, self_match, close_level, drop_resting, less_total, remove_node,
  settle_level, sweep, sweep_level, trade_with, match,
}
use high_frequency_trading.Book.Views.{best_price, best_bid, best_ask, quantity_at}
use high_frequency_trading.Book.{add_limit, finish_add, refuses, rest_order}

-- What a run of adds leaves; `none` when a step has no result.
abbrev add_to : Option OrderBook → ℕ → Side → ℤ → ℤ → Option OrderBook
add_to none id side price qty = none
add_to (some b) id side price qty = elim (add_limit b id side price qty none 0) [
  | none ↦ none
  | some a ↦ some a.book
]

abbrev two_sides : Option OrderBook
two_sides =
    add_to
      (add_to (add_to (make (pos 100) (pos 400) (pos 5)) 1 buy (pos 120) (pos 10)) 2 buy (pos 125)
        (pos 4))
      3 sell (pos 130) (pos 7)

abbrev quotes : Option OrderBook → Option (ℤ × ℤ)
quotes none = none
quotes (some b) = some (best_bid b, best_ask b)

quotes_runs : quotes two_sides ≡ some (pos 125, pos 130)
unfolding make check_band book_on grid_base grid_levels in_band index_of price_at rem_ℤ quot_ℤ ◌+ℤ◌
    ◌-ℤ◌ ◌*ℤ◌ neg opposite find_lowest find_highest low_bit high_bit set_level clear_level
    best_level beyond_limit self_match close_level drop_resting less_total remove_node settle_level
    sweep sweep_level trade_with match alloc_node free_node link_back unlink id_insert id_grow
    grow_cap best_price finish_add refuses rest_order add_limit slot_for walk mix place put_at erase
    erase_at best_bid best_ask
quotes_runs = refl

abbrev sold : Option OrderBook → Option (ℤ × Option (List Trade) × ℤ × ℤ)
sold none = none
sold (some b) = elim (add_limit b 9 sell (pos 120) (pos 6) (some []) 0) [
  | none ↦ none
  | some a ↦ some (a.filled, a.out, best_bid a.book, quantity_at a.book buy (pos 120))
]

-- A sell of 6 at 120 takes the 4 bid at 125 first, and then 2 of the 10 at 120.
sold_runs :
    sold two_sides
    ≡ some (
      pos 6,
      some (
          record {
            aggressor_id = 9;
            resting_id = 2;
            aggressor_side = sell;
            price = pos 125;
            quantity = pos 4;
          }
          ∷ record {
            aggressor_id = 9;
            resting_id = 1;
            aggressor_side = sell;
            price = pos 120;
            quantity = pos 2;
          }
          ∷ []),
      pos 120,
      pos 8,
    )
unfolding make check_band book_on grid_base grid_levels in_band index_of price_at rem_ℤ quot_ℤ ◌+ℤ◌
    ◌-ℤ◌ ◌*ℤ◌ neg opposite find_lowest find_highest low_bit high_bit set_level clear_level
    best_level beyond_limit self_match close_level drop_resting less_total remove_node settle_level
    sweep sweep_level trade_with match alloc_node free_node link_back unlink id_insert id_grow
    grow_cap best_price finish_add refuses rest_order add_limit slot_for walk mix place put_at erase
    erase_at best_bid quantity_at
sold_runs = refl
