-- ===== src/Book/Examples.antt =====
-- Instances of the order book's theorems (cpp/src/order_book.cpp), on a small book.
use high_frequency_trading.Base.{
  ℕ, ◌^◌, ◌<◌, ◌≡◌, refl, true, false, ◌⊎◌, none, some, List, [], arith, ◌==◌, if◌then◌else◌,
  length,
}
use high_frequency_trading.Base.Int.{pos, ◌+ℤ◌, ◌-ℤ◌, ◌*ℤ◌, neg, leb_ℤ}
use high_frequency_trading.Types.{buy, sell, opposite}
use high_frequency_trading.Instruments.{rem_ℤ, quot_ℤ}
use high_frequency_trading.IdIndex.{slot_for, walk, mix, place, put_at}
use high_frequency_trading.Book.Bitmap.{set_level, find_lowest, find_highest, high_bit, low_bit}
use high_frequency_trading.Book.Records.{
  OrderBook, initial_cells, nil_node, no_price, make, check_band, book_on, grid_base, grid_levels,
  in_band, index_of, price_at,
}
use high_frequency_trading.Book.Slab.{alloc_node, link_back, id_insert, id_grow, grow_cap}
use high_frequency_trading.Book.Match.{Aggressor, Matching, match}
use high_frequency_trading.Book.{
  Answer, rejected, refuses, rest_order, add_limit, execute_market, cancel, modify, clear,
}
use high_frequency_trading.Book.Making.{made, make-Blank, make_lem}
use high_frequency_trading.Book.Views.{best_bid, best_ask, has_order}
use high_frequency_trading.Book.Clearing.{clear_lem}
use high_frequency_trading.Book.Cancel.{IsBook, order_of, cancel_lem}
use high_frequency_trading.IdIndex.Invariant.{IsValid}
use high_frequency_trading.IdIndex.Rebuild.{slot_for-vacant}
use high_frequency_trading.Book.Bitmap.Extremes.{
  IsDark, IsLowest, IsHighest, find_lowest_lem, find_highest_lem,
}
use high_frequency_trading.Book.Grid.{in_band-levels}
use high_frequency_trading.Book.Indexing.{id_insert_lem}
use high_frequency_trading.Book.Priority.{fill_levels}
use high_frequency_trading.Book.Sweeping.{push_all}
use high_frequency_trading.Book.Trading.{Matched, match_lem, resting_levels}
use high_frequency_trading.Book.Limit.{AddDone, expected, add_limit_lem, execute_market_lem}
use high_frequency_trading.Book.Modifying.{Amended, modify_lem}
use high_frequency_trading.Book.Invariant.{Queues, Holds, lights}
use high_frequency_trading.Book.Crossing.{is_uncrossed}
use high_frequency_trading.Book.Uncrossed.{add_limit-uncrossed}
use high_frequency_trading.Book.Adding.{MayRest, rest_of, rest_order_lem}

abbrev empty_grid : OrderBook
empty_grid = made (pos 100) (pos 400) (pos 5)

empty_runs : make (pos 100) (pos 400) (pos 5) ≡ some empty_grid
unfolding make check_band book_on grid_base grid_levels rem_ℤ quot_ℤ ◌+ℤ◌ ◌-ℤ◌ ◌*ℤ◌ neg
empty_runs = refl

make_lem_example :
    IsBook empty_grid
    × ((id : ℕ) → order_of empty_grid id ≡ none)
    × (best_bid empty_grid ≡ no_price)
    × (best_ask empty_grid ≡ no_price)
make_lem_example = make_lem (pos 100) (pos 400) (pos 5) empty_grid empty_runs

empty-IsBook : IsBook empty_grid
empty-IsBook = make_lem_example.0

abbrev bidder : Aggressor
bidder = record { id = 1; owner = 0; side = buy; limit = pos 120 }

bidder-MayRest : MayRest empty_grid bidder
unfolding grid_base grid_levels in_band rem_ℤ quot_ℤ ◌+ℤ◌ ◌-ℤ◌ ◌*ℤ◌ neg slot_for walk mix
bidder-MayRest = record {
  banded = refl;
  proper = refl;
  absent = refl;
  room = omega arith;
  few = omega arith;
}

abbrev one_bid : OrderBook
one_bid = rest_order empty_grid bidder (pos 10)

rest_order_lem_example :
    IsBook one_bid
    × ((j : ℕ)
        → order_of one_bid j
          ≡ (if j == 1 then some (rest_of bidder (pos 10)) else order_of empty_grid j))
rest_order_lem_example =
    rest_order_lem empty_grid bidder (pos 10) empty-IsBook bidder-MayRest (omega arith)

one_bid-IsBook : IsBook one_bid
one_bid-IsBook = rest_order_lem_example.0

cancel_lem_example :
    IsBook (cancel one_bid 1).0
    × ((cancel one_bid 1).1 ≡ has_order one_bid 1)
    × ((j : ℕ) → order_of (cancel one_bid 1).0 j ≡ (if j == 1 then none else order_of one_bid j))
cancel_lem_example = cancel_lem one_bid 1 one_bid-IsBook

clear_lem_example :
    IsBook (clear one_bid)
    × ((id : ℕ) → order_of (clear one_bid) id ≡ none)
    × (best_bid (clear one_bid) ≡ no_price)
    × (best_ask (clear one_bid) ≡ no_price)
    × ((i : ℕ) → price_at (clear one_bid) i ≡ price_at one_bid i)
clear_lem_example = clear_lem one_bid one_bid-IsBook

one_bid_room : (length one_bid.pool < nil_node) × (length one_bid.ids.keys < 2 ^ 60)
unfolding rest_order alloc_node link_back id_insert id_grow grow_cap place put_at walk mix index_of
    grid_base grid_levels rem_ℤ quot_ℤ ◌+ℤ◌ ◌-ℤ◌ ◌*ℤ◌ neg set_level
one_bid_room = (omega arith, omega arith)

one_bid_holds : (q : Queues) × (free : List ℕ) × Holds one_bid q free (lights q)
unfolding IsBook
one_bid_holds = one_bid-IsBook

abbrev seller : Aggressor
seller = record { id = 9; owner = 0; side = sell; limit = pos 115 }

match_lem_example :
    (m : Matching) × (match one_bid seller (pos 6) (some []) ≡ some m)
    × Matched one_bid seller
        (pos 6)
        (some [])
        one_bid_holds.0
        (fill_levels one_bid.smp seller (pos 6) (resting_levels one_bid one_bid_holds.0 buy))
        m
unfolding opposite
match_lem_example =
    match_lem one_bid seller (pos 6) (some []) one_bid_holds.0 one_bid_holds.1 one_bid_holds.2

add_limit_lem_example :
    (r : Answer) × (add_limit one_bid 9 sell (pos 115) (pos 6) (some []) 0 ≡ some r)
    × ((refuses one_bid 9 (pos 115) (pos 6) ≡ true) × (r ≡ rejected one_bid (some []))
        ⊎ ((refuses one_bid 9 (pos 115) (pos 6) ≡ false)
            × AddDone one_bid seller
                (pos 6)
                (some [])
                (expected one_bid one_bid_holds.0 seller (pos 6))
                r))
add_limit_lem_example =
    add_limit_lem one_bid one_bid_holds.0 one_bid_holds.1 9 sell (pos 115) (pos 6) (some []) 0
      one_bid_holds.2 one_bid_room.0 one_bid_room.1

abbrev market_seller : Aggressor
market_seller = record { id = 9; owner = 0; side = sell; limit = no_price }

execute_market_lem_example :
    (r : Answer) × (execute_market one_bid 9 sell (pos 6) (some []) 0 ≡ some r)
    × IsBook r.book
    × ((leb_ℤ (pos 6) (pos 0) ≡ true)
          × (r ≡ record { book = one_bid; filled = pos 0; out = some [] })
        ⊎ ((leb_ℤ (pos 6) (pos 0) ≡ false)
            × (r.filled +ℤ (expected one_bid one_bid_holds.0 market_seller (pos 6)).left ≡ pos 6)
            × (r.out
                ≡ push_all
                    (some [])
                    (expected one_bid one_bid_holds.0 market_seller (pos 6)).all_trades)))
execute_market_lem_example =
    execute_market_lem one_bid one_bid_holds.0 one_bid_holds.1 9 sell (pos 6) (some []) 0
      one_bid_holds.2

modify_lem_example :
    Amended one_bid 1
      (pos 120)
      (pos 4)
      none
      one_bid-IsBook
      one_bid_room.0
      one_bid_room.1
      (modify one_bid 1 (pos 120) (pos 4) none)
modify_lem_example =
    modify_lem one_bid 1 (pos 120) (pos 4) none one_bid-IsBook one_bid_room.0 one_bid_room.1

find_highest_lem_example :
    ((find_highest one_bid.bid_map ≡ none) × IsDark one_bid.bid_map)
    ⊎ ((i : ℕ) × (find_highest one_bid.bid_map ≡ some i) × IsHighest one_bid.bid_map i)
find_highest_lem_example = find_highest_lem one_bid.bid_map (one_bid_holds.2.tiers buy)

find_lowest_lem_example :
    ((find_lowest one_bid.bid_map ≡ none) × IsDark one_bid.bid_map)
    ⊎ ((i : ℕ) × (find_lowest one_bid.bid_map ≡ some i) × IsLowest one_bid.bid_map i)
find_lowest_lem_example = find_lowest_lem one_bid.bid_map (one_bid_holds.2.tiers buy)

in_band-levels_example :
    (index_of empty_grid (pos 120) < grid_levels (pos 100) (pos 400) (pos 5))
    × (price_at empty_grid (index_of empty_grid (pos 120)) ≡ pos 120)
    × (in_band empty_grid (price_at empty_grid 7) ≡ true)
    × (index_of empty_grid (price_at empty_grid 7) ≡ 7)
unfolding grid_base grid_levels in_band rem_ℤ quot_ℤ ◌+ℤ◌ ◌-ℤ◌ ◌*ℤ◌ neg
in_band-levels_example =
    in_band-levels empty_grid (grid_levels (pos 100) (pos 400) (pos 5))
      (make-Blank (pos 100) (pos 400) (pos 5) empty_grid empty_runs).grid (pos 120) 7 refl
      (omega arith)

id_insert_lem_example :
    IsValid (id_insert empty_grid.ids 7 3)
    × ((j : ℕ)
        → slot_for (id_insert empty_grid.ids 7 3) j
          ≡ (if j == 7 then 3 else slot_for empty_grid.ids j))
unfolding IsBook
id_insert_lem_example =
    id_insert_lem empty_grid.ids empty-IsBook.2.indexed (omega arith) 7 3 refl (λ e. omega arith)
      (slot_for-vacant initial_cells 1023 7)

-- A bid alone crosses nothing.
one_bid_uncrossed : is_uncrossed one_bid ≡ true
unfolding rest_order alloc_node link_back index_of grid_base grid_levels rem_ℤ quot_ℤ ◌+ℤ◌ ◌-ℤ◌ ◌*ℤ◌
    neg set_level find_highest find_lowest high_bit low_bit
one_bid_uncrossed = refl

add_limit-uncrossed_example :
    (r : Answer) × (add_limit one_bid 9 sell (pos 115) (pos 16) (some []) 0 ≡ some r)
    × (is_uncrossed r.book ≡ true)
add_limit-uncrossed_example =
    add_limit-uncrossed one_bid one_bid_holds.0 one_bid_holds.1 9 sell (pos 115) (pos 16) (some [])
      0 one_bid_holds.2 one_bid_room.0 one_bid_room.1 one_bid_uncrossed
