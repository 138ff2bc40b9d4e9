-- ===== src/Book/LevelFill.antt =====
-- The loop of match (cpp/src/order_book.cpp) over the orders of a level ends, and leaves what price-time
-- priority leaves.
use high_frequency_trading.Base.{
  ℕ, suc, ◌<◌, ◌≡◌, refl, ap, sym, ◌∙◌, subst, ◌≢◌, inl, List, [], ◌∷◌, if◌then◌else◌, length,
}
use high_frequency_trading.Base.Int.{ℤ, pos, ◌+ℤ◌, ◌<ℤ◌}
use high_frequency_trading.Types.{Side, buy, sell}
use high_frequency_trading.Book.Records.{
  OrderNode, OrderBook, nil_node, node_at, level_at, side_levels, price_at,
}
use high_frequency_trading.Book.Match.{Aggressor, Matching, done, returned, sweep_level}
use high_frequency_trading.Book.Priority.{Filled, fill_queue}
use high_frequency_trading.Book.Queues.{Chain}
use high_frequency_trading.Book.Invariant.{Queues, Holds, put}
use high_frequency_trading.Book.Removal.{SameGrid, price_at-same}
use high_frequency_trading.Book.Progress.{orders, Step}
use high_frequency_trading.Book.Sweeping.{push_all, LevelResult, continues}

-- The first slot of a queue that is not empty.
module _ (b : OrderBook) (q : Queues) (free : List ℕ) (lit : Side → ℕ → ℕ) (side : Side) (i s : ℕ)
    (ss : List ℕ) (h : Holds b q free lit) (front : q side i ≡ s ∷ ss) where
  chain_here : Chain b.pool nil_node (level_at b side i).head (level_at b side i).tail (s ∷ ss)
  chain_here =
      subst (Chain b.pool nil_node (level_at b side i).head (level_at b side i).tail) front
        (h.chained side i)

  pub front_head : (level_at b side i).head ≡ s
  front_head = chain_here.0

  pub front_real : s ≢ nil_node
  front_real = chain_here.1

  pub front_below : s < length b.pool
  front_below = chain_here.2

  pub front_positive : pos 0 <ℤ (node_at b.pool s).quantity
  front_positive = (h.resting side i s (rw front (inl refl))).positive

pub empty_head :
    (b : OrderBook) (q : Queues) (free : List ℕ) (lit : Side → ℕ → ℕ) (side : Side) (i : ℕ)
    → Holds b q free lit
    → q side i ≡ []
    → (level_at b side i).head ≡ nil_node
empty_head b q free lit side i h e =
    (subst (Chain b.pool nil_node (level_at b side i).head (level_at b side i).tail) e
      (h.chained side i)).0

-- A step from the book with another event counter is one from the book.
pub from_event :
    (b : OrderBook) (events : ℕ) (side : Side) (i : ℕ) (lit : Side → ℕ → ℕ) (b' : OrderBook)
    (q : Queues) (xs : List ℕ)
    → Step side i lit (record b { smp_events = events }) b' q xs
    → Step side i lit b b' q xs
from_event b events side i lit b' q xs s = record {
  free = s.free;
  holds = s.holds;
  progress = record {
    same_grid = record {
      base = s.progress.same_grid.base;
      tick = s.progress.same_grid.tick;
      max = s.progress.same_grid.max;
      lengths = lengths;
    };
    policy = s.progress.policy;
    elsewhere = s.progress.elsewhere;
  };
  flag = s.flag;
}
  where
    lengths : (t : Side) → length (side_levels b' t) ≡ length (side_levels b t)
    lengths buy = s.progress.same_grid.lengths buy
    lengths sell = s.progress.same_grid.lengths sell

-- The specification at a book is that at a later one with the same grid and policy.
spec_later :
    (b b' : OrderBook) (a : Aggressor) (i : ℕ) (qty : ℤ) (ns : List OrderNode)
    → SameGrid b b'
    → b'.smp ≡ b.smp
    → fill_queue b'.smp a (price_at b' i) qty ns ≡ fill_queue b.smp a (price_at b i) qty ns
spec_later b b' a i qty ns g p =
    ap (λ r. fill_queue r a (price_at b' i) qty ns) p
    ∙ ap (λ (x : ℤ). fill_queue b.smp a x qty ns) (price_at-same i g)

-- The loop goes on from `n`, by the result for the rest of the queue.
module _ (f : ℕ) (a : Aggressor) (side : Side) (i : ℕ) (lit : Side → ℕ → ℕ) (m n : Matching)
    (q : Queues) (ss : List ℕ) (g : Filled) (step : Step side i lit m.book n.book q ss)
    (moved : sweep_level (suc f) a side i m ≡ sweep_level f a side i n)
    (kept : orders n.book.pool ss ≡ orders m.book.pool ss)
    (amount : n.filled +ℤ n.qty ≡ m.filled +ℤ m.qty) where
  abbrev pub next_fill : Filled
  next_fill = fill_queue m.book.smp a (price_at m.book i) n.qty (orders m.book.pool ss)

  pub onward :
      push_all n.out next_fill.trades ≡ push_all m.out g.trades
      → (g.rest ≡ next_fill.rest) × (g.qty ≡ next_fill.qty) × (g.stopped ≡ next_fill.stopped)
      → LevelResult f a side i lit n
          (put q side i ss)
          (fill_queue n.book.smp a (price_at n.book i) n.qty (orders n.book.pool ss))
      → LevelResult (suc f) a side i lit m q g
  onward out same result =
      let later : fill_queue n.book.smp a (price_at n.book i) n.qty (orders n.book.pool ss)
          ≡ next_fill =
        ap (fill_queue n.book.smp a (price_at n.book i) n.qty) kept
        ∙ spec_later m.book n.book a i n.qty (orders m.book.pool ss) step.progress.same_grid
            step.progress.policy in
      let (m', e, d) =
        subst (λ (k : Filled). LevelResult f a side i lit n (put q side i ss) k) later result in
      (
        m',
        moved ∙ e ∙ ap (λ t. if t then returned m' else done m') (sym same.2),
        continues a side i lit m n m' q ss next_fill g step amount out same d,
      )
