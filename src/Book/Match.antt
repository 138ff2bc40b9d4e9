-- ===== src/Book/Match.antt =====
-- Matching against the resting side of the order book: OrderBook::match, cpp/src/order_book.cpp.
use high_frequency_trading.Base.{
  ℕ, zero, suc, ◌+◌, Bool, true, false, not, ◌&&◌, ◌||◌, Option, none, some, List, [], ◌∷◌, ◌++◌,
  ◌==◌, if◌then◌else◌, set, length, inc64, sub64,
}
use high_frequency_trading.Base.Int.{ℤ, pos, ◌+ℤ◌, ◌-ℤ◌, ltb_ℤ, leb_ℤ, eqb_ℤ, min_ℤ}
use high_frequency_trading.Types.{Side, buy, sell, opposite}
use high_frequency_trading.IdIndex.{erase}
use high_frequency_trading.Book.Bitmap.{find_lowest, find_highest, clear_level}
use high_frequency_trading.Book.Records.{
  SelfMatchPolicy, no_policy, cancel_resting, Trade, OrderNode, OrderBook, no_price, nil_node,
  price_at, side_bitmap, level_at, with_level, with_bitmap, node_at,
}
use high_frequency_trading.Book.Slab.{free_node, unlink}

-- The arguments of `match` that its loops only read.
pub record Aggressor : Type 0 where
  pub id : ℕ
  pub owner : ℕ
  pub side : Side
  pub limit : ℤ

-- What they write: the book, the quantity left, the quantity filled, and the trades, if wanted.
pub record Matching : Type 0 where
  pub book : OrderBook
  pub qty : ℤ
  pub filled : ℤ
  pub out : Option (List Trade)

abbrev pub push_trade : Option (List Trade) → Trade → Option (List Trade)
push_trade none t = none
push_trade (some ts) t = some (ts ++ (t ∷ []))

abbrev pub policy_off : SelfMatchPolicy → Bool
policy_off no_policy = true
policy_off _ = false

-- The best level of a side, and whether the aggressor's limit stops before it.
unfoldable pub best_level : OrderBook → Side → Option ℕ
best_level b buy = find_highest b.bid_map
best_level b sell = find_lowest b.ask_map

unfoldable pub beyond_limit : Aggressor → ℤ → Bool
beyond_limit a level_price =
    not (eqb_ℤ a.limit no_price)
    && elim a.side [ buy ↦ ltb_ℤ a.limit level_price | sell ↦ ltb_ℤ level_price a.limit ]

unfoldable pub self_match : OrderBook → Aggressor → OrderNode → Bool
self_match b a node = not (policy_off b.smp) && not (a.owner == 0) && node.owner == a.owner

-- A node leaves its level, the id index and the slab.
unfoldable pub remove_node : OrderBook → Side → ℕ → ℕ → OrderBook
remove_node b side i slot =
    let (pool, level) = unlink b.pool (level_at b side i) slot in
    let b' = with_level (record b { pool = pool }) side i level in
    record (free_node (record b' { ids = erase b.ids (node_at b.pool slot).id }) slot) {
      live_orders = sub64 b.live_orders 1;
    }

unfoldable pub less_total : OrderBook → Side → ℕ → ℤ → OrderBook
less_total b side i q =
    let level = level_at b side i in
    with_level b side i (record level { total_quantity = level.total_quantity -ℤ q })

-- SelfMatchPolicy::CancelResting drops the resting order.
unfoldable pub drop_resting : OrderBook → Side → ℕ → ℕ → OrderBook
unfolding remove_node less_total
drop_resting b side i slot =
    remove_node (less_total b side i (node_at b.pool slot).quantity) side i slot

-- A trade with the node at the head of a level.
unfoldable pub trade_with : Aggressor → Side → ℕ → ℕ → Matching → Matching
unfolding remove_node less_total
trade_with a side i slot m =
    let b = m.book in
    let node = node_at b.pool slot in
    let traded = min_ℤ m.qty node.quantity in
    let left = node.quantity -ℤ traded in
    let b' =
      less_total (record b { pool = set b.pool slot (record node { quantity = left }) }) side i
        traded in
    record {
      book = if eqb_ℤ left (pos 0) then remove_node b' side i slot else b';
      qty = m.qty -ℤ traded;
      filled = m.filled +ℤ traded;
      out = push_trade m.out (record {
        aggressor_id = a.id;
        resting_id = node.id;
        aggressor_side = a.side;
        price = price_at b i;
        quantity = traded;
      });
    }

-- A level without orders leaves the bitmap.
unfoldable pub settle_level : OrderBook → Side → ℕ → OrderBook
settle_level b side i =
    if (level_at b side i).order_count == 0
    then with_bitmap b side (clear_level (side_bitmap b side) i)
    else b

unfoldable pub close_level : OrderBook → Side → ℕ → OrderBook
close_level b side i =
    if (level_at b side i).order_count == 0
    then with_bitmap (with_level b side i (record (level_at b side i) { total_quantity = pos 0 }))
        side (clear_level (side_bitmap b side) i)
    else b

-- How the loop over a level went on: the level is done, the function returns, or the fuel was short.
pub data Swept : Type 0 where
  done returned short : Matching → Swept

-- The loop over the orders of a level, oldest first.
unfoldable pub sweep_level : ℕ → Aggressor → Side → ℕ → Matching → Swept
unfolding self_match drop_resting trade_with settle_level
sweep_level zero a side i m = short m
sweep_level (suc f) a side i m =
    let b = m.book in
    let slot = (level_at b side i).head in
    let dropped = sweep_level f a side i (record m {
      book = drop_resting (record b { smp_events = inc64 b.smp_events }) side i slot;
    }) in
    let stopped = returned (record m {
      book =
          settle_level (record b { smp_events = inc64 b.smp_events; aggressor_stopped = true }) side
            i;
    }) in
    let traded = sweep_level f a side i (trade_with a side i slot m) in
    if leb_ℤ m.qty (pos 0) || slot == nil_node
    then done m
    else if self_match b a (node_at b.pool slot)
    then elim b.smp [ cancel_resting ↦ dropped | _ ↦ stopped ]
    else traded

-- The loop over the levels, best first. The fuel of a level is the number of its orders.
unfoldable pub sweep : ℕ → Aggressor → Matching → Option Matching
unfolding best_level beyond_limit sweep_level close_level
sweep zero a m = none
sweep (suc f) a m =
    if leb_ℤ m.qty (pos 0) then some m else elim (best_level m.book (opposite a.side)) [
      | none ↦ some m
      | some i ↦
          if beyond_limit a (price_at m.book i)
          then some m
          else elim (sweep_level ((level_at m.book (opposite a.side) i).order_count + 1) a
              (opposite a.side) i m) [
                | done m' ↦ sweep f a (record m' { book = close_level m'.book (opposite a.side) i })
                | returned m' ↦ some m'
                | short m' ↦ none
              ]
    ]

-- `match`: enough rounds for every level of a side. The flag is cleared first.
unfoldable pub match : OrderBook → Aggressor → ℤ → Option (List Trade) → Option Matching
unfolding sweep
match b a qty out =
    sweep (length b.bids + 1) a (record {
      book = record b { aggressor_stopped = false };
      qty = qty;
      filled = pos 0;
      out = out;
    })
