-- ===== src/Book.antt =====
-- The price-time-priority order book: cpp/src/order_book.cpp. Its levels' queues run through one slab
-- of nodes, by slot numbers; a reference to a node or a level is its number here, and the code that
-- writes through it returns the new book.
pub mod Bitmap
pub mod Records
pub mod Slab
pub mod Match
pub mod Priority
pub mod Grid
pub mod Queues
pub mod Links
pub mod Cutting
pub mod Slots
pub mod Invariant
pub mod Removal
pub mod Unlinking
pub mod Unlinked
pub mod Repaint
pub mod Closing
pub mod Requantify
pub mod Taking
pub mod Progress
pub mod Sweeping
pub mod LevelSteps
pub mod LevelFill
pub mod LevelBranches
pub mod LevelLoop
pub mod Ladder
pub mod Sweeps
pub mod LevelClosed
pub mod LevelRounds
pub mod Refinement
pub mod Trading
pub mod Start
pub mod Making
pub mod Indexing
pub mod Allocating
pub mod Addition
pub mod Joining
pub mod Rested
pub mod Shrinking
pub mod Shrunk
pub mod Adding
pub mod Limit
pub mod Leftover
pub mod Ranks
pub mod Crossing
pub mod Uncrossed
pub mod Modifying
pub mod Clearing
pub mod Cancel
pub mod Views
mod Tests
mod Examples
use high_frequency_trading.Base.{
  ℕ, zero, suc, ◌+◌, ◌-◌, Bool, true, false, not, ◌&&◌, ◌||◌, Option, none, some, List, [], ◌∷◌,
  ◌++◌, ◌==◌, ltb, if◌then◌else◌, set, length, replicate, inc64, sub64,
}
use high_frequency_trading.Base.Int.{ℤ, pos, negsuc, ◌+ℤ◌, ◌-ℤ◌, ltb_ℤ, leb_ℤ, eqb_ℤ, min_ℤ}
use high_frequency_trading.Double.{Double, price_to_double}
use high_frequency_trading.Types.{Side, buy, sell, opposite}
use high_frequency_trading.IdIndex.{empty_key, slot_for, erase, reserved}
use high_frequency_trading.Book.Bitmap.{
  find_lowest, find_highest, set_level, clear_level, reset_levels, scan_above, scan_below,
}
use high_frequency_trading.Book.Records.{
  SelfMatchPolicy, no_policy, cancel_resting, cancel_aggressor, Trade, OrderNode, PriceLevel,
  LevelView, OrderBook, no_price, nil_node, blank_level, in_band, index_of, price_at, side_levels,
  side_bitmap, level_at, with_level, with_bitmap, node_at,
}
use high_frequency_trading.Book.Slab.{alloc_node, free_node, link_back, unlink, id_insert}
use high_frequency_trading.Book.Match.{
  Aggressor, Matching, best_level, remove_node, less_total, settle_level, match,
}

-- The rest of a limit order takes a node at the back of its level.
unfoldable pub rest_order : OrderBook → Aggressor → ℤ → OrderBook
rest_order b a remaining =
    let i = index_of b a.limit in
    let (slot, b1) = alloc_node b in
    let node = record (node_at b1.pool slot) {
      id = a.id;
      price = a.limit;
      quantity = remaining;
      side = a.side;
      owner = a.owner;
      live = true;
    } in
    let (pool, level) = link_back (set b1.pool slot node) (level_at b1 a.side i) slot in
    let b2 =
      with_level (record b1 { pool = pool }) a.side i
        (record level { total_quantity = level.total_quantity +ℤ remaining }) in
    let b3 = with_bitmap b2 a.side (set_level (side_bitmap b2 a.side) i) in
    record b3 { ids = id_insert b3.ids a.id slot; live_orders = inc64 b3.live_orders }

-- A result of `add_limit` and `execute_market`: the book, the number returned, and the trades.
pub record Answer : Type 0 where
  pub book : OrderBook
  pub filled : ℤ
  pub out : Option (List Trade)

abbrev pub rejected : OrderBook → Option (List Trade) → Answer
rejected b out = record { book = b; filled = negsuc 0; out = out }

-- What add_limit does after `match`.
unfoldable pub finish_add : Aggressor → ℤ → Matching → Answer
unfolding rest_order
finish_add a qty m = record {
  book =
      if leb_ℤ (qty -ℤ m.filled) (pos 0)
      then m.book
      else if m.book.aggressor_stopped
      then m.book
      else rest_order m.book a (qty -ℤ m.filled);
  filled = m.filled;
  out = m.out;
}

unfoldable pub refuses : OrderBook → ℕ → ℤ → ℤ → Bool
refuses b id price qty =
    leb_ℤ qty (pos 0) || reserved id || not (in_band b price) || not (slot_for b.ids id == nil_node)

-- `none` when the fuel of `match` is short.
unfoldable pub add_limit : OrderBook → ℕ → Side → ℤ → ℤ → Option (List Trade) → ℕ → Option Answer
unfolding match finish_add refuses
add_limit b id side price qty out owner =
    let a : Aggressor = record { id = id; owner = owner; side = side; limit = price } in
    if refuses b id price qty
    then some (rejected b out)
    else elim (match b a qty out) [ none ↦ none | some m ↦ some (finish_add a qty m) ]

unfoldable pub execute_market : OrderBook → ℕ → Side → ℤ → Option (List Trade) → ℕ → Option Answer
unfolding match
execute_market b id side qty out owner =
    let a : Aggressor = record { id = id; owner = owner; side = side; limit = no_price } in
    if leb_ℤ qty (pos 0)
    then some (record { book = b; filled = pos 0; out = out })
    else elim (match b a qty out) [
      | none ↦ none
      | some m ↦ some (record { book = m.book; filled = m.filled; out = m.out })
    ]

-- A live order leaves the book.
unfoldable pub cancel_slot : OrderBook → ℕ → ℕ → OrderBook
unfolding less_total remove_node settle_level
cancel_slot b id slot =
    let node = node_at b.pool slot in
    let i = index_of b node.price in
    settle_level (remove_node (less_total b node.side i node.quantity) node.side i slot) node.side i

unfoldable pub cancel : OrderBook → ℕ → OrderBook × Bool
unfolding cancel_slot
cancel b id =
    let slot = slot_for b.ids id in
    if slot == nil_node then (b, false) else (cancel_slot b id slot, true)

-- A smaller quantity at the same price keeps the order's place.
unfoldable pub reduce : OrderBook → ℕ → ℤ → OrderBook
unfolding less_total
reduce b slot new_qty =
    let node = node_at b.pool slot in
    less_total (record b { pool = set b.pool slot (record node { quantity = new_qty }) }) node.side
      (index_of b node.price) (node.quantity -ℤ new_qty)

-- Any other amendment is a cancellation and a new order.
unfoldable pub replace : OrderBook → ℕ → ℕ → ℤ → ℤ → Option (List Trade) → Option Answer
unfolding cancel add_limit
replace b id slot new_price new_qty out =
    let node = node_at b.pool slot in
    add_limit (cancel b id).0 id node.side new_price new_qty out node.owner

abbrev pub amended : Option Answer → Option (OrderBook × Bool × Option (List Trade))
amended none = none
amended (some answer) = some (answer.book, true, answer.out)

-- The book, what is returned, and the trades.
unfoldable pub modify :
    OrderBook → ℕ → ℤ → ℤ → Option (List Trade) → Option (OrderBook × Bool × Option (List Trade))
modify b id new_price new_qty out =
    let slot = slot_for b.ids id in
    let node = node_at b.pool slot in
    if slot == nil_node
    then some (b, false, out)
    else if leb_ℤ new_qty (pos 0)
    then some ((cancel b id).0, (cancel b id).1, out)
    else if not (in_band b new_price)
    then some (b, false, out)
    else if eqb_ℤ new_price node.price && leb_ℤ new_qty node.quantity
    then some (reduce b slot new_qty, true, out)
    else amended (replace b id slot new_price new_qty out)

unfoldable pub clear : OrderBook → OrderBook
clear b = record b {
  bids = replicate (length b.bids) blank_level;
  asks = replicate (length b.asks) blank_level;
  bid_map = reset_levels b.bid_map;
  ask_map = reset_levels b.ask_map;
  pool = [];
  free_head = nil_node;
  live_orders = 0;
  ids = record b.ids {
    keys = replicate (length b.ids.keys) empty_key;
    vals = replicate (length b.ids.vals) nil_node;
    count = 0;
    tombstones = 0;
  };
  smp_events = 0;
  aggressor_stopped = false;
}

unfoldable pub set_self_match_policy : OrderBook → SelfMatchPolicy → OrderBook
set_self_match_policy b p = record b { smp = p }
