-- ===== src/Book/Refinement.antt =====
-- OrderBook::match (cpp/src/order_book.cpp) ends and does what price-time priority says.
use high_frequency_trading.Base.{
  ℕ, zero, suc, ◌+◌, ◌<◌, ◌≤◌, ◌≡◌, refl, ap, sym, ◌∙◌, subst, inl, inr, true, false, some, List,
  [], ◌∷◌, arith, length, Bool-cases,
}
use mathlib.Core.List.{append-nil}
use high_frequency_trading.Base.Int.{ℤ, pos, leb_ℤ}
use high_frequency_trading.Types.{Side, buy, opposite}
use high_frequency_trading.Book.Records.{OrderNode, level_at, price_at}
use high_frequency_trading.Book.Match.{
  Aggressor, Matching, best_level, beyond_limit, sweep_level, close_level, sweep,
}
use high_frequency_trading.Book.Priority.{
  Filled, Swept, fill_queue, fill_levels, Level, untouched, is_empty,
}
use high_frequency_trading.Book.Invariant.{Queues, Holds, lights}
use high_frequency_trading.Book.Progress.{orders}
use high_frequency_trading.Book.Sweeping.{LevelDone, ended}
use high_frequency_trading.Book.LevelLoop.{sweep_level_lem}
use high_frequency_trading.Book.Ladder.{
  rank_at, Before, Before-split, ladder, rests, rank-lt, untouched-ladder, best_level-first,
  best_level-none, queue-cases,
}
use high_frequency_trading.Book.Sweeps.{SweepDone, sweep_stands, sweep_passes, Outside-place}
use high_frequency_trading.Book.LevelClosed.{
  LevelClosed, done-LevelClosed, stopped-LevelClosed, ladder_later, rests_later, sweep_closes,
}
use high_frequency_trading.Book.LevelRounds.{
  fill_queue-Standing, round_full, round_none, round_limit, round_done, round_returned, levels_nil,
  levels_full, levels_empty, levels_limit, levels_stop, levels_on, levels_spent, orders_empty,
  orders_busy,
}

abbrev SweepResult : ℕ → Aggressor → ℕ → ℕ → Matching → Queues → Swept → Type 0
SweepResult f a n r m q s =
    (m' : Matching) × (sweep f a m ≡ some m') × SweepDone (opposite a.side) n r m m' q s

abbrev Passed : Side → ℕ → ℕ → Queues → Type 0
Passed side n r q = (j : ℕ) → Before side n r j → q side j ≡ []

-- The loop ends at once when nothing is left.
spent_sweep :
    (f : ℕ) (a : Aggressor) (m : Matching)
    → 0 < f
    → leb_ℤ m.qty (pos 0) ≡ true
    → sweep f a m ≡ some m
spent_sweep zero a m l e = absurd (omega arith)
spent_sweep (suc f) a m l e = round_full f a m e

module _ (a : Aggressor) (n : ℕ) (m : Matching) (q : Queues) (free : List ℕ)
    (h : Holds m.book q free (lights q)) (sized : n ≡ length m.book.bids)
    (flag : m.book.aggressor_stopped ≡ false) where
  abbrev side : Side
  side = opposite a.side

  -- The loop stops before the levels that are left, which the specification leaves untouched.
  halts :
      (f r : ℕ) (s : Swept)
      → s ≡ record {
        left = m.qty;
        all_trades = [];
        book = untouched (ladder m.book q side n r);
        halted = false;
      }
      → sweep f a m ≡ some m
      → SweepResult f a n r m q s
  halts f r s e run = (
    m,
    run,
    sweep_stands side n r m q free s h (ap (λ (k : Swept). k.left) e)
        (ap (λ (k : Swept). k.all_trades) e)
        (ap (λ (k : Swept). k.book) e ∙ untouched-ladder m.book q side n r)
        (flag ∙ sym (ap (λ (k : Swept). k.halted) e)),
  )

  no_levels :
      (f : ℕ)
      → Passed side n 0 q
      → SweepResult (suc f) a n 0 m q (fill_levels m.book.smp a m.qty [])
  no_levels f passed = elim (Bool-cases (leb_ℤ m.qty (pos 0))) [
    | inl full ↦
        halts (suc f) 0 (fill_levels m.book.smp a m.qty []) (levels_nil m.book.smp a m.qty)
          (round_full f a m full)
    | inr some_qty ↦
        let best =
          best_level-none m.book q free side h (subst (λ k. Passed side k 0 q) sized passed) in
        halts (suc f) 0 (fill_levels m.book.smp a m.qty []) (levels_nil m.book.smp a m.qty)
          (round_none f a m some_qty best)
  ]

  module _ (f r : ℕ) (l : r < n) (fuel : 0 < f) where
    abbrev here : ℕ
    here = rank_at side n r

    abbrev level : Level
    level = record { price = price_at m.book here; orders = orders m.book.pool (q side here) }

    abbrev later : List Level
    later = ladder m.book q side n r

    abbrev filled_here : Filled
    filled_here = fill_queue m.book.smp a level.price m.qty level.orders

    abbrev Goal : Type 0
    Goal = SweepResult (suc f) a n (suc r) m q (fill_levels m.book.smp a m.qty (level ∷ later))

    module _ (some_qty : leb_ℤ m.qty (pos 0) ≡ false) where
      -- A level without orders is passed by.
      skips :
          q side here ≡ []
          → SweepResult (suc f) a n r m q (fill_levels m.book.smp a m.qty later)
          → Goal
      skips bare_level (m', run, d) =
          let bare : is_empty level.orders ≡ true = rw bare_level refl in
          let e = levels_empty m.book.smp a m.qty level later some_qty bare in
          (
            m',
            run,
            sweep_passes side n r m m' q (fill_levels m.book.smp a m.qty later)
                (fill_levels m.book.smp a m.qty (level ∷ later)) l (ap (λ (k : Swept). k.left) e)
                (ap (λ (k : Swept). k.all_trades) e)
                (ap (λ (k : Swept). k.book) e
                  ∙ ap
                      (λ (xs : List ℕ).
                        orders m.book.pool xs ∷ (fill_levels m.book.smp a m.qty later).book)
                      (sym bare_level))
                (ap (λ (k : Swept). k.halted) e) d,
          )

      module _ (busy : is_empty level.orders ≡ false)
          (best : best_level m.book side ≡ some here) where
        limits : beyond_limit a level.price ≡ true → Goal
        limits e =
            halts (suc f) (suc r) (fill_levels m.book.smp a m.qty (level ∷ later))
              (levels_limit m.book.smp a m.qty level later some_qty busy e)
              (round_limit f a m some_qty here best e)

        module _ (within : beyond_limit a level.price ≡ false) (m1 : Matching)
            (ran : sweep_level ((level_at m.book side here).order_count + 1) a side here m
              ≡ ended filled_here m1)
            (d : LevelDone a side here (lights q) m m1 q filled_here) where
          stops : filled_here.stopped ≡ true → is_empty filled_here.rest ≡ false → Goal
          stops halted some_rest =
              let t = fill_levels m.book.smp a m.qty (level ∷ later) in
              let e = levels_stop m.book.smp a m.qty level later some_qty busy within halted in
              let c =
                stopped-LevelClosed a side here m m1 q filled_here d
                  (orders_busy m.book.pool (q side here) busy)
                  (orders_busy m1.book.pool (d.q' side here)
                    (ap is_empty d.rest_here ∙ some_rest)) in
              let s : Swept = record {
                left = m1.qty;
                all_trades = [];
                book = rests m1.book c.q' side n r;
                halted = true;
              } in
              (
                m1,
                round_returned f a m some_qty here best within m1 (ran ∙ rw halted refl),
                sweep_closes side n r m m1 m1 q filled_here s t c l
                    (ap (λ (k : Swept). k.left) e ∙ sym c.qty)
                    (ap (λ (k : Swept). k.all_trades) e ∙ sym (append-nil filled_here.trades))
                    (ap (λ (k : Swept). k.book) e
                      ∙ ap (λ (ys : List (List OrderNode)). filled_here.rest ∷ ys)
                          (untouched-ladder m.book q side n r
                            ∙ sym (rests_later side n r r m m1 q filled_here c (omega arith) l)))
                    (ap (λ (k : Swept). k.halted) e)
                    (sweep_stands side n r m1 c.q' c.free s c.holds refl refl refl
                      (c.flag ∙ halted)),
              )

          module _ (going : filled_here.stopped ≡ false) where
            inside : here < length m1.book.bids
            inside = omega (arith, rank-lt side n r l, sized, d.progress.same_grid.lengths buy)

            abbrev closed :
                LevelClosed side here m
                  (record m1 { book = close_level m1.book side here })
                  q
                  filled_here
            closed =
                done-LevelClosed a side here m m1 q filled_here d
                  (orders_busy m.book.pool (q side here) busy) inside

            abbrev m2 : Matching
            m2 = record m1 { book = close_level m1.book side here }

            abbrev further : Swept
            further = fill_levels m.book.smp a filled_here.qty later

            -- The level is done with, and the loop goes on with the others.
            goes_on : SweepResult f a n r m2 closed.q' further → Goal
            goes_on (m', run, rest) =
                let e = levels_on m.book.smp a m.qty level later some_qty busy within going in
                (
                  m',
                  round_done f a m some_qty here best within m1 (ran ∙ rw going refl) ∙ run,
                  sweep_closes side n r m m2 m' q filled_here further
                      (fill_levels m.book.smp a m.qty (level ∷ later)) closed l
                      (ap (λ (k : Swept). k.left) e) (ap (λ (k : Swept). k.all_trades) e)
                      (ap (λ (k : Swept). k.book) e) (ap (λ (k : Swept). k.halted) e) rest,
                )

            -- With nothing left it ends there.
            ends : leb_ℤ filled_here.qty (pos 0) ≡ true → Goal
            ends spent =
                let e = levels_spent m.book.smp a filled_here.qty later spent in
                goes_on (
                  m2,
                  spent_sweep f a m2 fuel (ap (λ z. leb_ℤ z (pos 0)) closed.qty ∙ spent),
                  sweep_stands side n r m2 closed.q' closed.free further closed.holds
                      (ap (λ (k : Swept). k.left) e ∙ sym closed.qty)
                      (ap (λ (k : Swept). k.all_trades) e)
                      (ap (λ (k : Swept). k.book) e
                        ∙ untouched-ladder m.book q side n r
                        ∙ sym (rests_later side n r r m m2 q filled_here closed (omega arith) l))
                      (closed.flag ∙ going ∙ sym (ap (λ (k : Swept). k.halted) e)),
                )

            -- The levels before those that are left are without orders.
            still-Passed :
                filled_here.rest ≡ [] → Passed side n (suc r) q → Passed side n r closed.q'
            still-Passed none_rest passed j before = elim (Before-split side n r j l before) [
              | inl earlier ↦
                  (closed.progress.elsewhere side j
                    (Outside-place side n r side j l (inr (refl, earlier)))).0
                  ∙ passed j earlier
              | inr at ↦
                  subst (λ k. closed.q' side k ≡ []) at
                    (orders_empty m2.book.pool (closed.q' side here) (closed.rest_here ∙ none_rest))
            ]

            -- The specification of the rest is the same at the later book.
            same_further :
                fill_levels m2.book.smp a m2.qty (ladder m2.book closed.q' side n r) ≡ further
            same_further =
                ap (λ p. fill_levels p a m2.qty (ladder m2.book closed.q' side n r))
                  closed.progress.policy
                ∙ ap (λ (z : ℤ). fill_levels m.book.smp a z (ladder m2.book closed.q' side n r))
                    closed.qty
                ∙ ap (fill_levels m.book.smp a filled_here.qty)
                    (ladder_later side n r r m m2 q filled_here closed (omega arith) l)

-- The loop over the last `r` of a side's levels, when the levels before them have no orders, ends with
-- more fuel than levels, and does what the specification says.
pub sweep_lem :
    (r f : ℕ) (a : Aggressor) (n : ℕ) (m : Matching) (q : Queues) (free : List ℕ)
    → Holds m.book q free (lights q)
    → n ≡ length m.book.bids
    → m.book.aggressor_stopped ≡ false
    → r ≤ n
    → r < f
    → Passed (opposite a.side) n r q
    → SweepResult f a n r m q
        (fill_levels m.book.smp a m.qty (ladder m.book q (opposite a.side) n r))
sweep_lem r zero a n m q free h sized flag low fuel passed = absurd (omega arith)
sweep_lem zero (suc f) a n m q free h sized flag low fuel passed =
    no_levels a n m q free h sized flag f passed
sweep_lem (suc r) (suc f) a n m q free h sized flag low fuel passed =
    let side = opposite a.side in
    let i = rank_at side n r in
    let l : r < n = omega arith in
    let some_fuel : 0 < f = omega arith in
    let skipped = λ (e : q side i ≡ []).
      sweep_lem r (suc f) a n m q free h sized flag (omega arith) (omega arith) (λ j before.
        elim (Before-split side n r j l before) [
          | inl earlier ↦ passed j earlier
          | inr at ↦ subst (λ k. q side k ≡ []) at e
        ]) in
    elim (Bool-cases (leb_ℤ m.qty (pos 0))) [
      | inl full ↦
          halts a n m q free h sized flag (suc f) (suc r)
            (fill_levels m.book.smp a m.qty (ladder m.book q side n (suc r)))
            (levels_full m.book.smp a m.qty (level a n m q free h sized flag f r l some_fuel)
              (ladder m.book q side n r) full)
            (round_full f a m full)
      | inr some_qty ↦ elim (queue-cases (q side i)) [
        | inl bare ↦ skips a n m q free h sized flag f r l some_fuel some_qty bare (skipped bare)
        | inr (s, ss, front) ↦
            let busy : is_empty (orders m.book.pool (q side i)) ≡ false = rw front refl in
            let lit = orders_busy m.book.pool (q side i) busy in
            let best = best_level-first m.book q free side n r h l passed lit in
            elim (Bool-cases (beyond_limit a (price_at m.book i))) [
              | inl past ↦ limits a n m q free h sized flag f r l some_fuel some_qty busy best past
              | inr within ↦
                  let (m1, ran, d) =
                    sweep_level_lem ((level_at m.book side i).order_count + 1) a side i (lights q) m
                      q free (q side i) h refl (omega (arith, h.counted side i)) flag in
                  elim (fill_queue-Standing m.book.smp a (price_at m.book i) m.qty
                    (orders m.book.pool (q side i))) [
                      | inl (halted, some_rest) ↦
                          stops a n m q free h sized flag f r l some_fuel some_qty busy best within
                            m1 ran d halted some_rest
                      | inr (going, inl spent) ↦
                          ends a n m q free h sized flag f r l some_fuel some_qty busy best within
                            m1 ran d going spent
                      | inr (going, inr none_rest) ↦
                          let c =
                            closed a n m q free h sized flag f r l some_fuel some_qty busy best
                              within m1 ran d going in
                          let next =
                            m2 a n m q free h sized flag f r l some_fuel some_qty busy best within
                              m1 ran d going in
                          goes_on a n m q free h sized flag f r l some_fuel some_qty busy best
                            within m1 ran d going
                            (subst (SweepResult f a n r next c.q')
                              (same_further a n m q free h sized flag f r l some_fuel some_qty busy
                                best within m1 ran d going)
                              (sweep_lem r f a n next c.q' c.free c.holds
                                (sized ∙ sym (c.progress.same_grid.lengths buy)) (c.flag ∙ going)
                                (omega arith) (omega arith)
                                (still-Passed a n m q free h sized flag f r l some_fuel some_qty
                                  busy best within m1 ran d going none_rest passed)))
                    ]
            ]
      ]
    ]
