-- ===== src/Book/Trading.antt =====
-- OrderBook::match and execute_market (cpp/src/order_book.cpp): what trades do to a book in order.
use high_frequency_trading.Base.{
  ℕ, zero, suc, ◌+◌, ◌≤◌, ◌≡◌, refl, ap, subst, inl, inr, false, Option, some, List, [], ◌∷◌, arith,
  length,
}
use high_frequency_trading.Base.Int.{ℤ, pos, ◌+ℤ◌}
use high_frequency_trading.Types.{Side, buy, sell, side_eq, opposite}
use high_frequency_trading.Book.Records.{Trade, OrderBook, price_at}
use high_frequency_trading.Book.Match.{Aggressor, Matching, match}
use high_frequency_trading.Book.Priority.{Swept, fill_levels, Level}
use high_frequency_trading.Book.Invariant.{Queues, Holds, lights}
use high_frequency_trading.Book.Repaint.{Repainted-flags, Repainted-Holds}
use high_frequency_trading.Book.Taking.{in_bids}
use high_frequency_trading.Book.Unlinked.{occupied-lt}
use high_frequency_trading.Book.Progress.{orders}
use high_frequency_trading.Book.Ladder.{ladder, rests, rank_at, Before, queue-cases}
use high_frequency_trading.Book.Sweeping.{push_all}
use high_frequency_trading.Book.Sweeps.{SweepDone}
use high_frequency_trading.Book.Refinement.{sweep_lem}

-- The state that `match` starts its loop from.
abbrev pub started : OrderBook → ℤ → Option (List Trade) → Matching
started b qty out = record {
  book = record b { aggressor_stopped = false };
  qty = qty;
  filled = pos 0;
  out = out;
}

-- The resting side of a book as price-time priority sees it, best level first.
abbrev pub resting_levels : OrderBook → Queues → Side → List Level
resting_levels b q side = ladder b q side (length b.bids) (length b.bids)

-- The levels past the last are empty.
pub empty_beyond :
    (b : OrderBook) (q : Queues) (free : List ℕ)
    → Holds b q free (lights q)
    → (side : Side) (j : ℕ) → length b.bids ≤ j
    → q side j ≡ []
empty_beyond b q free h side j l = elim (queue-cases (q side j)) [
  | inl e ↦ e
  | inr (s, ss, e) ↦ absurd (
      omega (
        arith,
        in_bids b q free (lights q) h side j
            (occupied-lt b q free (lights q) side j s h (rw e (inl refl))),
      ))
]

pub match-priority :
    (b : OrderBook) (a : Aggressor) (qty : ℤ) (out : Option (List Trade)) (q : Queues)
    (free : List ℕ)
    → Holds b q free (lights q)
    → (m : Matching) × (match b a qty out ≡ some m)
      × SweepDone
          (opposite a.side)
          (length b.bids)
          (length b.bids)
          (started b qty out)
          m
          q
          (fill_levels b.smp a qty (resting_levels b q (opposite a.side)))
unfolding match price_at
match-priority b a qty out q free h =
    let h' : Holds (record b { aggressor_stopped = false }) q free (lights q) =
      Repainted-Holds b (record b { aggressor_stopped = false }) q free (lights q) (lights q) h
        (Repainted-flags b q free (lights q) b.smp_events false h) in
    let n = length b.bids in
    let (m, run, d) =
      sweep_lem n (n + 1) a n (started b qty out) q free h' refl refl (omega arith) (omega arith)
        (passed (opposite a.side) n q (empty_beyond b q free h (opposite a.side))) in
    (m, run, subst (SweepDone (opposite a.side) n n (started b qty out) m q) (same n) d)
  where
    same :
        (n : ℕ)
        → fill_levels b.smp a qty
            (ladder (record b { aggressor_stopped = false }) q (opposite a.side) n n)
          ≡ fill_levels b.smp a qty (ladder b q (opposite a.side) n n)
    same n = ap (fill_levels b.smp a qty) (levels n n)
      where
        levels :
            (n r : ℕ)
            → ladder (record b { aggressor_stopped = false }) q (opposite a.side) n r
              ≡ ladder b q (opposite a.side) n r
        levels n zero = refl
        levels n (suc r) =
            ap
              (λ (ls : List Level).
                record {
                  price = price_at b (rank_at (opposite a.side) n r);
                  orders = orders b.pool (q (opposite a.side) (rank_at (opposite a.side) n r));
                }
                ∷ ls)
              (levels n r)

    passed :
        (side : Side) (n : ℕ) (q : Queues)
        → ((j : ℕ) → n ≤ j → q side j ≡ [])
        → (j : ℕ) → Before side n n j
        → q side j ≡ []
    passed buy n q out j before = out j before
    passed sell n q out j before = absurd (omega arith)

-- What `match` leaves, against price-time priority.
pub record Matched (b : OrderBook) (a : Aggressor) (qty : ℤ) (out : Option (List Trade))
    (q : Queues) (s : Swept) (m : Matching) : Type 0 where
  pub q' : Queues
  pub free : List ℕ
  pub holds : Holds m.book q' free (lights q')
  pub resting_side : rests m.book q' (opposite a.side) (length b.bids) (length b.bids) ≡ s.book
  pub own_side : (j : ℕ) → q' a.side j ≡ q a.side j
  pub left : m.qty ≡ s.left
  pub filled : m.filled +ℤ s.left ≡ pos 0 +ℤ qty
  pub trades : m.out ≡ push_all out s.all_trades
  pub flag : m.book.aggressor_stopped ≡ s.halted

pub other_side : (side : Side) → side_eq (opposite side) side ≡ false
unfolding opposite
other_side buy = refl
other_side sell = refl

-- On a book that holds queues of orders, `match` ends, with a book that holds queues again. The
-- quantity left, the trades, the orders that each level of the resting side keeps, and whether the
-- aggressor was stopped are those of price-time priority on the resting side; the queues of the
-- aggressor's own side are as they were, and what is filled and what is left make up the quantity.
pub match_lem :
    (b : OrderBook) (a : Aggressor) (qty : ℤ) (out : Option (List Trade)) (q : Queues)
    (free : List ℕ)
    → Holds b q free (lights q)
    → (m : Matching) × (match b a qty out ≡ some m)
      × Matched b a qty out q (fill_levels b.smp a qty (resting_levels b q (opposite a.side))) m
match_lem b a qty out q free h =
    let (m, run, d) = match-priority b a qty out q free h in
    (
      m,
      run,
      record {
        q' = d.q';
        free = d.free;
        holds = d.holds;
        resting_side = d.left;
        own_side = λ j. (d.others a.side j (inl (other_side a.side))).0;
        left = d.qty;
        filled = d.filled;
        trades = d.out;
        flag = d.flag;
      },
    )
