-- ===== src/Book/LevelLoop.antt =====
-- The whole loop of match (cpp/src/order_book.cpp) over a level against price-time priority.
use high_frequency_trading.Base.{
  ℕ, zero, suc, ◌<◌, ◌≡◌, refl, ap, sym, ◌∙◌, subst, inl, inr, true, false, ◌||◌, Bool, List, [],
  ◌∷◌, arith, ◌==◌, if◌then◌else◌, length, Bool-cases,
}
use high_frequency_trading.Base.Int.{pos, leb_ℤ}
use high_frequency_trading.Types.{Side}
use high_frequency_trading.Book.Records.{
  SelfMatchPolicy, no_policy, OrderNode, nil_node, node_at, level_at, price_at,
}
use high_frequency_trading.Book.Match.{Aggressor, Matching, done, returned}
use high_frequency_trading.Book.Priority.{Filled, fill_queue, own}
use high_frequency_trading.Book.Links.{data_of}
use high_frequency_trading.Book.Invariant.{Queues, Holds, put}
use high_frequency_trading.Book.Progress.{orders}
use high_frequency_trading.Book.Sweeping.{LevelResult, stands}
use high_frequency_trading.Book.LevelSteps.{policy-cases, step_done, spec_idle}
use high_frequency_trading.Book.LevelFill.{front_head, empty_head}
use high_frequency_trading.Book.LevelBranches.{
  at_home, drop_branch, all_branch, part_branch, stop_branch,
}

-- The aggressor has nothing left.
idle_branch :
    (f : ℕ) (a : Aggressor) (side : Side) (i : ℕ) (lit : Side → ℕ → ℕ) (m : Matching) (q : Queues)
    (free ss : List ℕ)
    → Holds m.book q free lit
    → q side i ≡ (level_at m.book side i).head ∷ ss
    → m.book.aggressor_stopped ≡ false
    → leb_ℤ m.qty (pos 0) ≡ true
    → LevelResult (suc f) a side i lit m q (
        fill_queue m.book.smp a
          (price_at m.book i)
          m.qty
          (orders m.book.pool ((level_at m.book side i).head ∷ ss)))
idle_branch f a side i lit m q free ss h front flag full =
    let slot = (level_at m.book side i).head in
    let e =
      spec_idle m.book.smp a (price_at m.book i) m.qty (data_of (node_at m.book.pool slot))
        (orders m.book.pool ss) full in
    let g = fill_queue m.book.smp a (price_at m.book i) m.qty (orders m.book.pool (slot ∷ ss)) in
    (
      m,
      step_done f a side i m (rw full refl)
          ∙ ap (λ (z : Bool). if z then returned m else done m)
              (sym (ap (λ (k : Filled). k.stopped) e)),
      stands a side i lit m q free g h (flag ∙ sym (ap (λ (k : Filled). k.stopped) e))
          (ap (λ (k : Filled). k.qty) e) (ap (λ (k : Filled). k.trades) e)
          (ap (λ (k : Filled). k.rest) e ∙ sym (ap (orders m.book.pool) front)),
    )

-- Without a policy no order counts as the participant's own.
nobody :
    (p : SelfMatchPolicy) (a : Aggressor) (n : OrderNode) → p ≡ no_policy → own p a n ≡ true → ⊥
nobody p a n e = rw e (λ (t : false ≡ true). cc)

-- The loop over a level ends within one round more than the level has orders, and leaves what the
-- specification leaves.
pub sweep_level_lem :
    (fuel : ℕ) (a : Aggressor) (side : Side) (i : ℕ) (lit : Side → ℕ → ℕ) (m : Matching)
    (q : Queues) (free xs : List ℕ)
    → Holds m.book q free lit
    → q side i ≡ xs
    → length xs < fuel
    → m.book.aggressor_stopped ≡ false
    → LevelResult fuel a side i lit m q
        (fill_queue m.book.smp a (price_at m.book i) m.qty (orders m.book.pool xs))
unfolding fill_queue
sweep_level_lem zero a side i lit m q free xs h e l flag = absurd (omega arith)
sweep_level_lem (suc f) a side i lit m q free [] h e l flag =
    let none : ((level_at m.book side i).head == nil_node) ≡ true =
      rw (empty_head m.book q free lit side i h e) refl in
    let stop : (leb_ℤ m.qty (pos 0) || (level_at m.book side i).head == nil_node) ≡ true =
      ground (arith, none) in
    (
      m,
      step_done f a side i m stop,
      stands a side i lit m q free (record { qty = m.qty; trades = []; rest = []; stopped = false })
          h flag refl refl (sym (ap (orders m.book.pool) e)),
    )
sweep_level_lem (suc f) a side i lit m q free (s ∷ ss) h e l flag =
    let headed = front_head m.book q free lit side i s ss h e in
    let front : q side i ≡ (level_at m.book side i).head ∷ ss =
      e ∙ ap (λ (k : ℕ). k ∷ ss) (sym headed) in
    let node = node_at m.book.pool (level_at m.book side i).head in
    let rest =
      λ (n : Matching) (free' : List ℕ) (h' : Holds n.book (put q side i ss) free' lit)
          (flag' : n.book.aggressor_stopped ≡ false).
        sweep_level_lem f a side i lit n (put q side i ss) free' ss h' (at_home q side i ss)
          (omega arith) flag' in
    subst
      (λ (k : ℕ).
        LevelResult (suc f) a side i lit m q
          (fill_queue m.book.smp a (price_at m.book i) m.qty (orders m.book.pool (k ∷ ss))))
      headed
      (elim (Bool-cases (leb_ℤ m.qty (pos 0))) [
        | inl full ↦ idle_branch f a side i lit m q free ss h front flag full
        | inr some_qty ↦ elim (Bool-cases (own m.book.smp a (data_of node))) [
          | inl mine ↦ elim (policy-cases m.book.smp) [
            | inl p ↦ absurd (nobody m.book.smp a (data_of node) p mine)
            | inr (inl p) ↦ drop_branch f a side i lit m q free ss h front some_qty mine p flag rest
            | inr (inr p) ↦ stop_branch f a side i lit m q free ss h front some_qty mine p
          ]
          | inr other ↦ elim (Bool-cases (leb_ℤ node.quantity m.qty)) [
            | inl enough ↦
                all_branch f a side i lit m q free ss h front some_qty other enough flag rest
            | inr short ↦
                part_branch f a side i lit m q free ss h front some_qty other short flag
                  (omega arith)
          ]
        ]
      ])
