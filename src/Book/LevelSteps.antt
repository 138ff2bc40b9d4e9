-- ===== src/Book/LevelSteps.antt =====
-- One round of the loop of match (cpp/src/order_book.cpp) over a level, and one step of the
-- specification of price-time priority, on each branch.
use high_frequency_trading.Base.{
  ℕ, suc, ◌≡◌, refl, inl, inr, true, false, not, ◌&&◌, ◌||◌, ◌⊎◌, List, [], ◌∷◌, arith, ◌==◌,
  Bool-cases, inc64,
}
use high_frequency_trading.Base.Int.{
  ℤ, pos, ◌-ℤ◌, ◌<ℤ◌, leb_ℤ, ltb_ℤ, eqb_ℤ, min_ℤ, eq_of_parts, int_laws,
}
use high_frequency_trading.Types.{Side}
use high_frequency_trading.Book.Records.{
  SelfMatchPolicy, no_policy, cancel_resting, cancel_aggressor, OrderNode, OrderBook, nil_node,
  node_at, level_at,
}
use high_frequency_trading.Book.Match.{
  Aggressor, Matching, done, returned, self_match, drop_resting, trade_with, settle_level,
  sweep_level, policy_off,
}
use high_frequency_trading.Book.Priority.{Filled, fill_queue, own, trade_of, and_trade}
use high_frequency_trading.Book.Links.{data_of}

pub policy-cases :
    (p : SelfMatchPolicy) → (p ≡ no_policy) ⊎ ((p ≡ cancel_resting) ⊎ (p ≡ cancel_aggressor))
policy-cases no_policy = inl refl
policy-cases cancel_resting = inr (inl refl)
policy-cases cancel_aggressor = inr (inr refl)

own_lem :
    (p : SelfMatchPolicy) (a : Aggressor) (n : OrderNode)
    → (not (policy_off p) && not (a.owner == 0) && n.owner == a.owner) ≡ own p a (data_of n)
own_lem no_policy a n = refl
own_lem cancel_resting a n = refl
own_lem cancel_aggressor a n = refl

pub self_match-own :
    (b : OrderBook) (a : Aggressor) (n : OrderNode) → self_match b a n ≡ own b.smp a (data_of n)
unfolding self_match
self_match-own b a n = own_lem b.smp a n

module _ (f : ℕ) (a : Aggressor) (side : Side) (i : ℕ) (m : Matching) where
  abbrev head : ℕ
  head = (level_at m.book side i).head

  pub step_done :
      (leb_ℤ m.qty (pos 0) || head == nil_node) ≡ true → sweep_level (suc f) a side i m ≡ done m
  unfolding sweep_level
  step_done e = rw e refl

  abbrev pub counted_event : OrderBook
  counted_event = record m.book { smp_events = inc64 m.book.smp_events }

  abbrev pub stopped_event : OrderBook
  stopped_event = record m.book { smp_events = inc64 m.book.smp_events; aggressor_stopped = true }

  module _ (going : (leb_ℤ m.qty (pos 0) || head == nil_node) ≡ false) where
    pub step_trade :
        self_match m.book a (node_at m.book.pool head) ≡ false
        → sweep_level (suc f) a side i m ≡ sweep_level f a side i (trade_with a side i head m)
    unfolding sweep_level
    step_trade e = rw (going, e) refl

    pub step_drop :
        self_match m.book a (node_at m.book.pool head) ≡ true
        → m.book.smp ≡ cancel_resting
        → sweep_level (suc f) a side i m
          ≡ sweep_level f a side i (record m { book = drop_resting counted_event side i head })
    unfolding sweep_level
    step_drop e p = rw (going, e) (dropped m.book.smp p)
      where
        dropped :
            (r : SelfMatchPolicy)
            → r ≡ cancel_resting
            → (elim r [
              | cancel_resting ↦
                  sweep_level f a side i
                    (record m { book = drop_resting counted_event side i head })
              | _ ↦ returned (record m { book = settle_level stopped_event side i })
            ])
              ≡ sweep_level f a side i (record m { book = drop_resting counted_event side i head })
        dropped no_policy e = cc
        dropped cancel_resting e = refl
        dropped cancel_aggressor e = cc

    pub step_stop :
        self_match m.book a (node_at m.book.pool head) ≡ true
        → m.book.smp ≡ cancel_aggressor
        → sweep_level (suc f) a side i m
          ≡ returned (record m { book = settle_level stopped_event side i })
    unfolding sweep_level
    step_stop e p = rw (going, e) (stopped m.book.smp p)
      where
        stopped :
            (r : SelfMatchPolicy)
            → r ≡ cancel_aggressor
            → (elim r [
              | cancel_resting ↦
                  sweep_level f a side i
                    (record m { book = drop_resting counted_event side i head })
              | _ ↦ returned (record m { book = settle_level stopped_event side i })
            ])
              ≡ returned (record m { book = settle_level stopped_event side i })
        stopped no_policy e = cc
        stopped cancel_resting e = cc
        stopped cancel_aggressor e = refl

-- The specification, branch by branch.
module _ (p : SelfMatchPolicy) (a : Aggressor) (price qty : ℤ) (n : OrderNode)
    (ns : List OrderNode) where
  pub spec_idle :
      leb_ℤ qty (pos 0) ≡ true
      → fill_queue p a price qty (n ∷ ns)
        ≡ record { qty = qty; trades = []; rest = n ∷ ns; stopped = false }
  unfolding fill_queue
  spec_idle e = rw e refl

  module _ (some_left : leb_ℤ qty (pos 0) ≡ false) where
    pub spec_drop :
        own p a n ≡ true
        → p ≡ cancel_resting
        → fill_queue p a price qty (n ∷ ns) ≡ fill_queue p a price qty ns
    unfolding fill_queue
    spec_drop e c = rw some_left (rw e (dropped p c))
      where
        dropped :
            (r : SelfMatchPolicy)
            → r ≡ cancel_resting
            → (elim r [
              | cancel_resting ↦ fill_queue p a price qty ns
              | _ ↦ record { qty = qty; trades = []; rest = n ∷ ns; stopped = true }
            ])
              ≡ fill_queue p a price qty ns
        dropped no_policy e = cc
        dropped cancel_resting e = refl
        dropped cancel_aggressor e = cc

    pub spec_stop :
        own p a n ≡ true
        → p ≡ cancel_aggressor
        → fill_queue p a price qty (n ∷ ns)
          ≡ record { qty = qty; trades = []; rest = n ∷ ns; stopped = true }
    unfolding fill_queue
    spec_stop e c = rw some_left (rw e (stopped p c))
      where
        stopped :
            (r : SelfMatchPolicy)
            → r ≡ cancel_aggressor
            → ◌≡◌ {A = Filled}
                (elim r [
                  | cancel_resting ↦ fill_queue p a price qty ns
                  | _ ↦ record { qty = qty; trades = []; rest = n ∷ ns; stopped = true }
                ])
                (record { qty = qty; trades = []; rest = n ∷ ns; stopped = true })
        stopped no_policy e = cc
        stopped cancel_resting e = cc
        stopped cancel_aggressor e = refl

    pub spec_all :
        own p a n ≡ false
        → leb_ℤ n.quantity qty ≡ true
        → fill_queue p a price qty (n ∷ ns)
          ≡ and_trade (trade_of a price n n.quantity) (fill_queue p a price (qty -ℤ n.quantity) ns)
    unfolding fill_queue
    spec_all e l = rw some_left (rw e (rw l refl))

    pub spec_part :
        own p a n ≡ false
        → leb_ℤ n.quantity qty ≡ false
        → fill_queue p a price qty (n ∷ ns) ≡ record {
          qty = pos 0;
          trades = trade_of a price n qty ∷ [];
          rest = record n { quantity = n.quantity -ℤ qty } ∷ ns;
          stopped = false;
        }
    unfolding fill_queue
    spec_part e l = rw some_left (rw e (rw l refl))

pub min_all : (u v : ℤ) → leb_ℤ v u ≡ true → min_ℤ u v ≡ v
min_all u v h = elim (Bool-cases (ltb_ℤ v u)) [
  | inl lt ↦ rw lt refl
  | inr ge ↦ rw ge (eq_of_parts u v (ground arith))
]

pub min_part : (u v : ℤ) → leb_ℤ v u ≡ false → min_ℤ u v ≡ u
min_part u v h = let e : ltb_ℤ v u ≡ false = ground arith in rw e refl

pub no_left : (v : ℤ) → eqb_ℤ (v -ℤ v) (pos 0) ≡ true
no_left v = let e : v -ℤ v ≡ pos 0 = omega int_laws in rw e refl

pub some_left_over :
    (u v : ℤ) → leb_ℤ v u ≡ false → (eqb_ℤ (v -ℤ u) (pos 0) ≡ false) × (pos 0 <ℤ v -ℤ u)
some_left_over u v h =
    let l : u <ℤ v = ground arith in
    let p : pos 0 <ℤ v -ℤ u = omega int_laws in
    let e : eqb_ℤ (v -ℤ u) (pos 0) ≡ false = ground arith in (e, p)
