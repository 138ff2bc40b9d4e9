-- ===== src/Book/LevelBranches.antt =====
-- The branches of the loop of match (cpp/src/order_book.cpp) over a level against price-time priority.
use high_frequency_trading.Base.{
  ℕ, zero, suc, ◌<◌, ◌≡◌, refl, ap, sym, ◌∙◌, true, false, ◌||◌, Bool, List, [], ◌∷◌, arith, ◌==◌,
  if◌then◌else◌, length, inc64,
}
use high_frequency_trading.Base.Int.{ℤ, pos, ◌+ℤ◌, ◌-ℤ◌, ◌<ℤ◌, leb_ℤ, eqb_ℤ, min_ℤ, int_laws}
use high_frequency_trading.Types.{Side, buy, sell}
use high_frequency_trading.Book.Records.{
  cancel_resting, cancel_aggressor, OrderNode, OrderBook, nil_node, node_at, level_at, side_levels,
  price_at,
}
use high_frequency_trading.Book.Match.{
  Aggressor, Matching, done, returned, push_trade, remove_node, drop_resting, trade_with,
  settle_level, sweep_level,
}
use high_frequency_trading.Book.Priority.{Filled, fill_queue, own, trade_of, and_trade}
use high_frequency_trading.Book.Links.{data_of}
use high_frequency_trading.Book.Invariant.{Queues, Holds, put, same_place_self}
use high_frequency_trading.Book.Unlinking.{requantified}
use high_frequency_trading.Book.Repaint.{Repainted-flags, Repainted-Holds}
use high_frequency_trading.Book.Taking.{requantified_same}
use high_frequency_trading.Book.Progress.{
  orders, Step, removed-Step, removed_orders, lesser-Step, lesser_orders,
}
use high_frequency_trading.Book.Sweeping.{push_all, push_all-trade, push_all-nil, LevelResult}
use high_frequency_trading.Book.LevelSteps.{
  self_match-own, step_done, step_trade, step_drop, step_stop, spec_drop, spec_stop, spec_all,
  spec_part, min_all, min_part, no_left, some_left_over,
}
use high_frequency_trading.Book.LevelFill.{front_real, front_below, from_event, onward}

pub at_home : (q : Queues) (side : Side) (i : ℕ) (xs : List ℕ) → put q side i xs side i ≡ xs
at_home q side i xs = rw (same_place_self side i) refl

settle_level_busy :
    (b : OrderBook) (side : Side) (i n : ℕ)
    → (level_at b side i).order_count ≡ suc n
    → settle_level b side i ≡ b
unfolding settle_level
settle_level_busy b side i n e =
    let busy : ((level_at b side i).order_count == 0) ≡ false = ground arith in rw busy refl

module _ (f : ℕ) (a : Aggressor) (side : Side) (i : ℕ) (lit : Side → ℕ → ℕ) (m : Matching)
    (q : Queues) (free : List ℕ) (ss : List ℕ) (h : Holds m.book q free lit)
    (front : q side i ≡ (level_at m.book side i).head ∷ ss)
    (some_qty : leb_ℤ m.qty (pos 0) ≡ false) where
  abbrev pub slot : ℕ
  slot = (level_at m.book side i).head

  abbrev pub node : OrderNode
  node = node_at m.book.pool slot

  abbrev pub price : ℤ
  price = price_at m.book i

  abbrev pub behind : List OrderNode
  behind = orders m.book.pool ss

  -- The specification of the level.
  abbrev pub whole : Filled
  whole = fill_queue m.book.smp a price m.qty (data_of node ∷ behind)

  going : (leb_ℤ m.qty (pos 0) || slot == nil_node) ≡ false
  going =
      let r = front_real m.book q free lit side i slot ss h front in
      let e : (slot == nil_node) ≡ false = ground arith in rw (some_qty, e) refl

  abbrev pub Rest : Type 0
  Rest =
      (n : Matching) (free' : List ℕ)
      → Holds n.book (put q side i ss) free' lit
      → n.book.aggressor_stopped ≡ false
      → LevelResult f a side i lit n (put q side i ss)
          (fill_queue n.book.smp a (price_at n.book i) n.qty (orders n.book.pool ss))

  -- The resting order is dropped.
  abbrev dropped : OrderBook
  dropped =
      remove_node
        (requantified (record m.book { smp_events = inc64 m.book.smp_events }) side i slot
          node.quantity node.quantity)
        side i slot

  dropped_lem :
      drop_resting (record m.book { smp_events = inc64 m.book.smp_events }) side i slot ≡ dropped
  unfolding drop_resting
  dropped_lem =
      ap (λ (c : OrderBook). remove_node c side i slot)
        (sym (
          requantified_same (record m.book { smp_events = inc64 m.book.smp_events }) side i slot
            node.quantity (front_below m.book q free lit side i slot ss h front)))

  counted : Holds (record m.book { smp_events = inc64 m.book.smp_events }) q free lit
  counted =
      Repainted-Holds m.book (record m.book { smp_events = inc64 m.book.smp_events }) q free lit lit
        h (Repainted-flags m.book q free lit (inc64 m.book.smp_events) m.book.aggressor_stopped h)

  dropped-Step : Step side i lit m.book dropped q ss
  dropped-Step = from_event m.book (inc64 m.book.smp_events) side i lit dropped q ss (
      removed-Step (record m.book { smp_events = inc64 m.book.smp_events }) q free lit side i slot
        ss node.quantity node.quantity counted front refl)

  dropped_orders : orders dropped.pool ss ≡ behind
  dropped_orders =
      removed_orders (record m.book { smp_events = inc64 m.book.smp_events }) q free lit side i slot
        ss node.quantity node.quantity counted front refl

  pub drop_branch :
      own m.book.smp a (data_of node) ≡ true
      → m.book.smp ≡ cancel_resting
      → m.book.aggressor_stopped ≡ false
      → Rest
      → LevelResult (suc f) a side i lit m q whole
  drop_branch mine policy flag rest =
      let n : Matching = record m { book = dropped } in
      let moved : sweep_level (suc f) a side i m ≡ sweep_level f a side i n =
        step_drop f a side i m going (self_match-own m.book a node ∙ mine) policy
        ∙ ap (λ (c : OrderBook). sweep_level f a side i (record m { book = c })) dropped_lem in
      let e = spec_drop m.book.smp a price m.qty (data_of node) behind some_qty mine policy in
      onward f a side i lit m n q ss whole dropped-Step moved dropped_orders refl
        (ap (λ (k : Filled). push_all m.out k.trades) (sym e))
        (ap (λ k. k.rest) e, ap (λ k. k.qty) e, ap (λ k. k.stopped) e)
        (rest n dropped-Step.free dropped-Step.holds (dropped-Step.flag ∙ flag))

  -- The trade takes the whole resting order.
  abbrev traded : ℤ
  traded = min_ℤ m.qty node.quantity

  abbrev after_trade : OrderBook → Matching
  after_trade c = record {
    book = c;
    qty = m.qty -ℤ traded;
    filled = m.filled +ℤ traded;
    out = push_trade m.out (trade_of a price node traded);
  }

  abbrev taken : OrderBook
  taken = remove_node (requantified m.book side i slot (node.quantity -ℤ traded) traded) side i slot

  abbrev lessened : OrderBook
  lessened = requantified m.book side i slot (node.quantity -ℤ traded) traded

  trade_lem :
      trade_with a side i slot m
      ≡ after_trade (if eqb_ℤ (node.quantity -ℤ traded) (pos 0) then taken else lessened)
  unfolding trade_with
  trade_lem = refl

  amounts : (u v t : ℤ) → (u +ℤ t) +ℤ (v -ℤ t) ≡ u +ℤ v
  amounts u v t = omega int_laws

  pub all_branch :
      own m.book.smp a (data_of node) ≡ false
      → leb_ℤ node.quantity m.qty ≡ true
      → m.book.aggressor_stopped ≡ false
      → Rest
      → LevelResult (suc f) a side i lit m q whole
  all_branch other enough flag rest =
      let t : traded ≡ node.quantity = min_all m.qty node.quantity enough in
      let none_left : eqb_ℤ (node.quantity -ℤ traded) (pos 0) ≡ true =
        rw t (no_left node.quantity) in
      let n = after_trade taken in
      let step : Step side i lit m.book taken q ss =
        removed-Step m.book q free lit side i slot ss (node.quantity -ℤ traded) traded h front t in
      let moved : sweep_level (suc f) a side i m ≡ sweep_level f a side i n =
        step_trade f a side i m going (self_match-own m.book a node ∙ other)
        ∙ ap (sweep_level f a side i) trade_lem
        ∙ ap (λ z. sweep_level f a side i (after_trade (if z then taken else lessened)))
            none_left in
      let kept : orders taken.pool ss ≡ behind =
        removed_orders m.book q free lit side i slot ss (node.quantity -ℤ traded) traded h front
          t in
      let e : whole
          ≡ and_trade (trade_of a price node traded)
              (fill_queue m.book.smp a price (m.qty -ℤ traded) behind) =
        spec_all m.book.smp a price m.qty (data_of node) behind some_qty other enough
        ∙ ap
            (λ (z : ℤ).
              and_trade (trade_of a price node z)
                (fill_queue m.book.smp a price (m.qty -ℤ z) behind))
            (sym t) in
      onward f a side i lit m n q ss whole step moved kept (amounts m.filled m.qty traded)
        (push_all-trade m.out (trade_of a price node traded)
            (fill_queue m.book.smp a price (m.qty -ℤ traded) behind).trades
          ∙ ap (λ (k : Filled). push_all m.out k.trades) (sym e))
        (ap (λ k. k.rest) e, ap (λ k. k.qty) e, ap (λ k. k.stopped) e)
        (rest n step.free step.holds (step.flag ∙ flag))

  -- The trade takes a part of it, and all that the aggressor has left.
  idle :
      (k : ℕ) (n : Matching)
      → 0 < k
      → leb_ℤ n.qty (pos 0) ≡ true
      → sweep_level k a side i n ≡ done n
  idle zero n l e = absurd (omega arith)
  idle (suc k) n l e = step_done k a side i n (rw e refl)

  pub part_branch :
      own m.book.smp a (data_of node) ≡ false
      → leb_ℤ node.quantity m.qty ≡ false
      → m.book.aggressor_stopped ≡ false
      → 0 < f
      → LevelResult (suc f) a side i lit m q whole
  part_branch other short flag fuel =
      let t : traded ≡ m.qty = min_part m.qty node.quantity short in
      let (over, over_pos) = some_left_over m.qty node.quantity short in
      let some_kept : eqb_ℤ (node.quantity -ℤ traded) (pos 0) ≡ false = rw t over in
      let positive : pos 0 <ℤ node.quantity -ℤ traded = rw t over_pos in
      let n = after_trade lessened in
      let step : Step side i lit m.book lessened q (slot ∷ ss) =
        lesser-Step m.book q free lit side i slot ss (node.quantity -ℤ traded) traded h front
          positive (again node.quantity traded) in
      let nothing : m.qty -ℤ traded ≡ pos 0 = rw t (spent m.qty) in
      let e = spec_part m.book.smp a price m.qty (data_of node) behind some_qty other short in
      (
        n,
        step_trade f a side i m going (self_match-own m.book a node ∙ other)
            ∙ ap (sweep_level f a side i) trade_lem
            ∙ ap (λ z. sweep_level f a side i (after_trade (if z then taken else lessened)))
                some_kept
            ∙ idle f n fuel (rw nothing refl)
            ∙ ap (λ (z : Bool). if z then returned n else done n)
                (sym (ap (λ (k : Filled). k.stopped) e)),
        record {
          q' = put q side i (slot ∷ ss);
          free = step.free;
          holds = step.holds;
          progress = step.progress;
          rest_here =
              ap (orders lessened.pool) (at_home q side i (slot ∷ ss))
              ∙ lesser_orders m.book q free lit side i slot ss (node.quantity -ℤ traded) traded h
                  front positive (again node.quantity traded)
              ∙ ap (λ (z : ℤ). record (data_of node) { quantity = node.quantity -ℤ z } ∷ behind) t
              ∙ sym (ap (λ (k : Filled). k.rest) e);
          qty = nothing ∙ sym (ap (λ (k : Filled). k.qty) e);
          filled =
              ap (λ (z : ℤ). (m.filled +ℤ traded) +ℤ z) (ap (λ (k : Filled). k.qty) e ∙ sym nothing)
              ∙ amounts m.filled m.qty traded;
          out =
              ap (λ (z : ℤ). push_trade m.out (trade_of a price node z)) t
              ∙ sym (push_all-nil (push_trade m.out (trade_of a price node m.qty)))
              ∙ push_all-trade m.out (trade_of a price node m.qty) []
              ∙ ap (λ (k : Filled). push_all m.out k.trades) (sym e);
          flag = step.flag ∙ flag ∙ sym (ap (λ (k : Filled). k.stopped) e);
        },
      )
    where
      again : (u v : ℤ) → (u -ℤ v) +ℤ v ≡ u
      again u v = omega int_laws

      spent : (u : ℤ) → u -ℤ u ≡ pos 0
      spent u = omega int_laws

  -- The aggressor is stopped.
  abbrev halted : OrderBook
  halted = record m.book { smp_events = inc64 m.book.smp_events; aggressor_stopped = true }

  flagged : Holds halted q free lit
  flagged =
      Repainted-Holds m.book halted q free lit lit h
        (Repainted-flags m.book q free lit (inc64 m.book.smp_events) true h)

  halted_lem : settle_level halted side i ≡ halted
  halted_lem =
      settle_level_busy halted side i (length ss) (flagged.counted side i ∙ ap length front)

  pub stop_branch :
      own m.book.smp a (data_of node) ≡ true
      → m.book.smp ≡ cancel_aggressor
      → LevelResult (suc f) a side i lit m q whole
  stop_branch mine policy =
      let n : Matching = record m { book = halted } in
      let e = spec_stop m.book.smp a price m.qty (data_of node) behind some_qty mine policy in
      (
        n,
        step_stop f a side i m going (self_match-own m.book a node ∙ mine) policy
            ∙ ap (λ (c : OrderBook). returned (record m { book = c })) halted_lem
            ∙ ap (λ (z : Bool). if z then returned n else done n)
                (sym (ap (λ (k : Filled). k.stopped) e)),
        record {
          q' = q;
          free = free;
          holds = flagged;
          progress = record {
            same_grid = record { base = refl; tick = refl; max = refl; lengths = lengths };
            policy = refl;
            elsewhere = λ s j _. (refl, refl);
          };
          rest_here = ap (orders m.book.pool) front ∙ sym (ap (λ (k : Filled). k.rest) e);
          qty = sym (ap (λ (k : Filled). k.qty) e);
          filled = ap (λ (z : ℤ). m.filled +ℤ z) (ap (λ (k : Filled). k.qty) e);
          out =
              sym (push_all-nil m.out)
              ∙ ap (push_all m.out) (sym (ap (λ (k : Filled). k.trades) e));
          flag = sym (ap (λ (k : Filled). k.stopped) e);
        },
      )
    where
      lengths : (s : Side) → length (side_levels halted s) ≡ length (side_levels m.book s)
      lengths buy = refl
      lengths sell = refl
