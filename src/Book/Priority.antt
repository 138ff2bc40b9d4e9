-- ===== src/Book/Priority.antt =====
-- Price-time priority, as a specification of OrderBook::match (cpp/src/order_book.cpp) on lists: an
-- aggressor meets the resting orders level by level from the best price on, and at a level in the
-- order of their arrival.
use high_frequency_trading.Base.{
  Bool, true, false, not, ◌&&◌, List, [], ◌∷◌, ◌++◌, ◌==◌, if◌then◌else◌,
}
use high_frequency_trading.Base.Int.{ℤ, pos, ◌-ℤ◌, leb_ℤ}
use high_frequency_trading.Book.Records.{
  SelfMatchPolicy, no_policy, cancel_resting, Trade, OrderNode,
}
use high_frequency_trading.Book.Match.{Aggressor, beyond_limit}

-- What an aggressor leaves: the quantity that is left to it, its trades, the orders that rest on, and
-- whether it was stopped.
pub record Filled : Type 0 where
  pub qty : ℤ
  pub trades : List Trade
  pub rest : List OrderNode
  pub stopped : Bool

-- The participant's own order, when the policy looks at it.
abbrev pub own : SelfMatchPolicy → Aggressor → OrderNode → Bool
own no_policy a n = false
own _ a n = not (a.owner == 0) && n.owner == a.owner

abbrev pub trade_of : Aggressor → ℤ → OrderNode → ℤ → Trade
trade_of a price n quantity = record {
  aggressor_id = a.id;
  resting_id = n.id;
  aggressor_side = a.side;
  price = price;
  quantity = quantity;
}

abbrev pub and_trade : Trade → Filled → Filled
and_trade t f = record f { trades = t ∷ f.trades }

unfoldable pub fill_queue : SelfMatchPolicy → Aggressor → ℤ → ℤ → List OrderNode → Filled
fill_queue p a price qty [] = record { qty = qty; trades = []; rest = []; stopped = false }
fill_queue p a price qty (n ∷ ns) =
    if leb_ℤ qty (pos 0)
    then record { qty = qty; trades = []; rest = n ∷ ns; stopped = false }
    else if own p a n
    then elim p [
      | cancel_resting ↦ fill_queue p a price qty ns
      | _ ↦ record { qty = qty; trades = []; rest = n ∷ ns; stopped = true }
    ]
    else if leb_ℤ n.quantity qty
    then and_trade (trade_of a price n n.quantity) (fill_queue p a price (qty -ℤ n.quantity) ns)
    else record {
      qty = pos 0;
      trades = trade_of a price n qty ∷ [];
      rest = record n { quantity = n.quantity -ℤ qty } ∷ ns;
      stopped = false;
    }

-- The levels of a side, best first, each with its price and its orders. The aggressor goes on while it
-- has quantity left, is not stopped, and its limit allows the next level that has orders.
pub record Level : Type 0 where
  pub price : ℤ
  pub orders : List OrderNode

pub record Swept : Type 0 where
  pub left : ℤ
  pub all_trades : List Trade
  pub book : List (List OrderNode)
  pub halted : Bool

abbrev pub untouched : List Level → List (List OrderNode)
untouched [] = []
untouched (l ∷ ls) = l.orders ∷ untouched ls

abbrev pub is_empty : List OrderNode → Bool
is_empty [] = true
is_empty (n ∷ ns) = false

unfoldable pub fill_levels : SelfMatchPolicy → Aggressor → ℤ → List Level → Swept
unfolding fill_queue
fill_levels p a qty [] = record { left = qty; all_trades = []; book = []; halted = false }
fill_levels p a qty (l ∷ ls) =
    let f = fill_queue p a l.price qty l.orders in
    let rest = fill_levels p a f.qty ls in
    let skipped = fill_levels p a qty ls in
    let stays : Swept = record {
      left = qty;
      all_trades = [];
      book = untouched (l ∷ ls);
      halted = false;
    } in
    if leb_ℤ qty (pos 0)
    then stays
    else if is_empty l.orders
    then record skipped { book = [] ∷ skipped.book }
    else if beyond_limit a l.price
    then stays
    else if f.stopped
    then record { left = f.qty; all_trades = f.trades; book = f.rest ∷ untouched ls; halted = true }
    else record {
      left = rest.left;
      all_trades = f.trades ++ rest.all_trades;
      book = f.rest ∷ rest.book;
      halted = rest.halted;
    }
