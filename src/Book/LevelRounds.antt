-- ===== src/Book/LevelRounds.antt =====
-- One round of the loop of match over the levels (cpp/src/order_book.cpp), and the specification of
-- price-time priority at one level, on each branch.
use high_frequency_trading.Base.{
  ℕ, suc, ◌+◌, ◌≡◌, refl, ◌⊎◌, inl, inr, true, false, none, some, List, [], ◌∷◌, ◌++◌, Bool-cases,
}
use high_frequency_trading.Base.Int.{ℤ, pos, ◌-ℤ◌, leb_ℤ}
use high_frequency_trading.Types.{Side, opposite}
use high_frequency_trading.Book.Records.{
  SelfMatchPolicy, no_policy, cancel_resting, cancel_aggressor, OrderNode, level_at, price_at,
}
use high_frequency_trading.Book.Match.{
  Aggressor, Matching, done, returned, short, best_level, beyond_limit, sweep_level, close_level,
  sweep,
}
use high_frequency_trading.Book.Priority.{
  Filled, fill_queue, fill_levels, Level, own, untouched, is_empty,
}
use high_frequency_trading.Book.Invariant.{occupied}
use high_frequency_trading.Book.Progress.{orders}

-- What is known of a level's specification by whether the aggressor was stopped.
abbrev pub Standing : Filled → Type 0
Standing f =
    ((f.stopped ≡ true) × (is_empty f.rest ≡ false))
    ⊎ ((f.stopped ≡ false) × ((leb_ℤ f.qty (pos 0) ≡ true) ⊎ (f.rest ≡ [])))

pub fill_queue-Standing :
    (p : SelfMatchPolicy) (a : Aggressor) (price qty : ℤ) (ns : List OrderNode)
    → Standing (fill_queue p a price qty ns)
unfolding fill_queue
fill_queue-Standing p a price qty [] = inr (refl, inr refl)
fill_queue-Standing p a price qty (n ∷ ns) = elim (Bool-cases (leb_ℤ qty (pos 0))) [
  | inl full ↦ rw full (inr (refl, inl full))
  | inr some_qty ↦ elim (Bool-cases (own p a n)) [
    | inl mine ↦ rw some_qty (rw mine (policy p (fill_queue-Standing p a price qty ns)))
    | inr other ↦ elim (Bool-cases (leb_ℤ n.quantity qty)) [
      | inl enough ↦
          rw some_qty (rw other (rw enough (fill_queue-Standing p a price (qty -ℤ n.quantity) ns)))
      | inr less ↦ rw some_qty (rw other (rw less (inr (refl, inl refl))))
    ]
  ]
]
  where
    policy :
        (r : SelfMatchPolicy)
        → Standing (fill_queue p a price qty ns)
        → Standing (elim r [
          | cancel_resting ↦ fill_queue p a price qty ns
          | _ ↦ record { qty = qty; trades = []; rest = n ∷ ns; stopped = true }
        ])
    policy no_policy s = inl (refl, refl)
    policy cancel_resting s = s
    policy cancel_aggressor s = inl (refl, refl)

-- One round of the loop over the levels.
module _ (f : ℕ) (a : Aggressor) (m : Matching) where
  abbrev pub side : Side
  side = opposite a.side

  pub round_full : leb_ℤ m.qty (pos 0) ≡ true → sweep (suc f) a m ≡ some m
  unfolding sweep
  round_full e = rw e refl

  module _ (some_qty : leb_ℤ m.qty (pos 0) ≡ false) where
    pub round_none : best_level m.book side ≡ none → sweep (suc f) a m ≡ some m
    unfolding sweep
    round_none e = rw (some_qty, e) refl

    module _ (i : ℕ) (best : best_level m.book side ≡ some i) where
      pub round_limit : beyond_limit a (price_at m.book i) ≡ true → sweep (suc f) a m ≡ some m
      unfolding sweep
      round_limit e = rw (some_qty, best, e) refl

      module _ (within : beyond_limit a (price_at m.book i) ≡ false) (n : Matching) where
        pub round_done :
            sweep_level ((level_at m.book side i).order_count + 1) a side i m ≡ done n
            → sweep (suc f) a m ≡ sweep f a (record n { book = close_level n.book side i })
        unfolding sweep
        round_done e = rw (some_qty, best, within, e) refl

        pub round_returned :
            sweep_level ((level_at m.book side i).order_count + 1) a side i m ≡ returned n
            → sweep (suc f) a m ≡ some n
        unfolding sweep
        round_returned e = rw (some_qty, best, within, e) refl

        pub round_short :
            sweep_level ((level_at m.book side i).order_count + 1) a side i m ≡ short n
            → sweep (suc f) a m ≡ none
        unfolding sweep
        round_short e = rw (some_qty, best, within, e) refl

-- The specification at the first of the levels, on each branch.
module _ (p : SelfMatchPolicy) (a : Aggressor) (qty : ℤ) (l : Level) (ls : List Level) where
  abbrev pub first : Filled
  first = fill_queue p a l.price qty l.orders

  pub levels_full :
      leb_ℤ qty (pos 0) ≡ true
      → fill_levels p a qty (l ∷ ls)
        ≡ record { left = qty; all_trades = []; book = untouched (l ∷ ls); halted = false }
  unfolding fill_levels
  levels_full e = rw e refl

  module _ (some_qty : leb_ℤ qty (pos 0) ≡ false) where
    pub levels_empty :
        is_empty l.orders ≡ true
        → fill_levels p a qty (l ∷ ls)
          ≡ record (fill_levels p a qty ls) { book = [] ∷ (fill_levels p a qty ls).book }
    unfolding fill_levels
    levels_empty e = rw some_qty (rw e refl)

    module _ (busy : is_empty l.orders ≡ false) where
      pub levels_limit :
          beyond_limit a l.price ≡ true
          → fill_levels p a qty (l ∷ ls)
            ≡ record { left = qty; all_trades = []; book = untouched (l ∷ ls); halted = false }
      unfolding fill_levels
      levels_limit e = rw some_qty (rw busy (rw e refl))

      module _ (within : beyond_limit a l.price ≡ false) where
        pub levels_stop :
            first.stopped ≡ true
            → fill_levels p a qty (l ∷ ls) ≡ record {
              left = first.qty;
              all_trades = first.trades;
              book = first.rest ∷ untouched ls;
              halted = true;
            }
        unfolding fill_levels
        levels_stop e = rw some_qty (rw busy (rw within (rw e refl)))

        pub levels_on :
            first.stopped ≡ false
            → fill_levels p a qty (l ∷ ls) ≡ record {
              left = (fill_levels p a first.qty ls).left;
              all_trades = first.trades ++ (fill_levels p a first.qty ls).all_trades;
              book = first.rest ∷ (fill_levels p a first.qty ls).book;
              halted = (fill_levels p a first.qty ls).halted;
            }
        unfolding fill_levels
        levels_on e = rw some_qty (rw busy (rw within (rw e refl)))

pub levels_nil :
    (p : SelfMatchPolicy) (a : Aggressor) (qty : ℤ)
    → fill_levels p a qty [] ≡ record { left = qty; all_trades = []; book = []; halted = false }
unfolding fill_levels
levels_nil p a qty = refl

-- With nothing left no level is touched.
pub levels_spent :
    (p : SelfMatchPolicy) (a : Aggressor) (qty : ℤ) (ls : List Level)
    → leb_ℤ qty (pos 0) ≡ true
    → fill_levels p a qty ls
      ≡ record { left = qty; all_trades = []; book = untouched ls; halted = false }
unfolding fill_levels
levels_spent p a qty [] e = refl
levels_spent p a qty (l ∷ ls) e = rw e refl

pub orders_empty : (pool : List OrderNode) (xs : List ℕ) → orders pool xs ≡ [] → xs ≡ []
orders_empty pool [] e = refl
orders_empty pool (s ∷ ss) e = cc

pub orders_busy :
    (pool : List OrderNode) (xs : List ℕ) → is_empty (orders pool xs) ≡ false → occupied xs ≡ 1
orders_busy pool [] e = cc
orders_busy pool (s ∷ ss) e = refl
