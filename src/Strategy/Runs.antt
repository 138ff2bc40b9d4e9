-- ===== src/Strategy/Runs.antt =====
-- Runs of cpp/src/strategy.cpp over the ticks of many symbols.
use high_frequency_trading.Base.{
  ℕ, ◌<◌, ◌≡◌, refl, ap, ◌∙◌, inl, inr, false, ◌||◌, Option, some, List, [], ◌∷◌, arith, leb, ◌==◌,
  ==_iff, if◌then◌else◌, Bool-cases, get_or, length, get_or-reach, get_or-set-reach, subst,
}
use high_frequency_trading.Base.Int.{ℤ}
use high_frequency_trading.Types.{Side, Tick}
use high_frequency_trading.Strategy.{
  State, MovingAverageCrossover, no_state, is_empty, ready, roll, make, decide, signal_for, on_tick,
}
use high_frequency_trading.Strategy.Windows.{ready-Rolled}
use high_frequency_trading.Strategy.Signals.{crossing, Followed, decide-Followed}

-- The prices of a symbol in a run's ticks, newest first; other ticks stay in the order of arrival.
unfoldable pub history : ℕ → List (Tick × ℤ) → List ℤ → List ℤ
history symbol [] ps = ps
history symbol ((tick, price) ∷ ticks) ps =
    history symbol ticks (if tick.symbol == symbol then price ∷ ps else ps)

unfoldable pub run : MovingAverageCrossover → List (Tick × ℤ) → MovingAverageCrossover
run m [] = m
run m ((tick, price) ∷ ticks) = run (on_tick m tick price).0 ticks

-- Every symbol's state follows its own prices.
pub record Follows (m : MovingAverageCrossover) (prices : ℕ → List ℤ) : Type 0 where
  pub positive : 0 < m.fast
  pub shorter : m.fast < m.slow
  pub symbols :
      (symbol : ℕ)
      → Followed m.fast m.slow (prices symbol) (ready m.slow (get_or m.states symbol no_state))

filled_ring : (ps : List ℤ) → 0 < length ps → is_empty ps ≡ false
filled_ring [] h = absurd (omega arith)
filled_ring (p ∷ ps) h = refl

module _ (m : MovingAverageCrossover) (prices : ℕ → List ℤ) (f : Follows m prices) (tick : Tick)
    (price : ℤ) where
  abbrev stepped : State × Option Side
  stepped =
      decide m.fast m.slow
        (roll m.fast m.slow (ready m.slow (get_or m.states tick.symbol no_state)) price)

  stepped-Followed :
      Followed m.fast m.slow (price ∷ prices tick.symbol) stepped.0
      × (stepped.1 ≡ crossing m.fast m.slow (price ∷ prices tick.symbol))
  stepped-Followed =
      decide-Followed m.fast m.slow f.positive f.shorter (prices tick.symbol)
        (ready m.slow (get_or m.states tick.symbol no_state)) (f.symbols tick.symbol) price

  -- A live state is ready as it is.
  ready_live : (s : State) → length s.ring ≡ m.slow → ready m.slow s ≡ s
  unfolding ready
  ready_live s h = rw (filled_ring s.ring (omega (arith, h, f.shorter))) refl

  settled :
      (symbol : ℕ)
      → Followed m.fast m.slow
          (if tick.symbol == symbol then price ∷ prices symbol else prices symbol)
          (ready m.slow
            (if tick.symbol == symbol then stepped.0 else get_or m.states symbol no_state))
  settled symbol = elim (Bool-cases (tick.symbol == symbol)) [
    | inl same ↦
        let e : tick.symbol ≡ symbol = (==_iff tick.symbol symbol).0 same in
        rw (same, ready_live stepped.0 stepped-Followed.0.rolled.ring_lem)
          (subst (λ x. Followed m.fast m.slow (price ∷ prices x) stepped.0) e stepped-Followed.0)
    | inr other ↦ rw other (f.symbols symbol)
  ]

  on_tick-Follows :
      Follows
        (on_tick m tick price).0
        (λ x. if tick.symbol == x then price ∷ prices x else prices x)
  unfolding on_tick
  on_tick-Follows = record {
    positive = f.positive;
    shorter = f.shorter;
    symbols = λ symbol.
        rw
          (
            get_or-reach m.states tick.symbol tick.symbol no_state,
            get_or-set-reach m.states tick.symbol symbol stepped.0 no_state,
          )
          (settled symbol);
  }

  on_tick-crossing :
      (on_tick m tick price).1
      ≡ signal_for tick price (crossing m.fast m.slow (price ∷ prices tick.symbol))
  unfolding on_tick
  on_tick-crossing =
      rw (get_or-reach m.states tick.symbol tick.symbol no_state)
        (ap (signal_for tick price) stepped-Followed.1)

run-Follows :
    (m : MovingAverageCrossover) (ticks : List (Tick × ℤ)) (prices : ℕ → List ℤ)
    → Follows m prices
    → Follows (run m ticks) (λ x. history x ticks (prices x))
unfolding run history
run-Follows m [] prices f = f
run-Follows m ((tick, price) ∷ ticks) prices f =
    run-Follows (on_tick m tick price).0 ticks
      (λ x. if tick.symbol == x then price ∷ prices x else prices x)
      (on_tick-Follows m prices f tick price)

run_windows :
    (m : MovingAverageCrossover) (ticks : List (Tick × ℤ))
    → ((run m ticks).fast ≡ m.fast) × ((run m ticks).slow ≡ m.slow)
unfolding run on_tick
run_windows m [] = (refl, refl)
run_windows m ((tick, price) ∷ ticks) = run_windows (on_tick m tick price).0 ticks

unstarted : (slow : ℕ) → 0 < slow → (ready slow no_state).has_state ≡ leb slow 0
unfolding ready
unstarted slow h = ground arith

made :
    (fast slow : ℕ) (m : MovingAverageCrossover)
    → make fast slow ≡ some m
    → Follows m (λ x. []) × (m.fast ≡ fast) × (m.slow ≡ slow)
unfolding make
made fast slow m h = elim (Bool-cases (fast == 0 || leb slow fast)) [
  | inl refused ↦ absurd (ground arith)
  | inr accepted ↦
      let start : MovingAverageCrossover = record {
        fast = fast;
        slow = slow;
        states = [];
        signals = 0;
      } in
      let e : start ≡ m = ground arith in
      subst (λ x. Follows x (λ y. []) × (x.fast ≡ fast) × (x.slow ≡ slow)) e
        (
          record {
            positive = ground arith;
            shorter = ground arith;
            symbols = λ symbol. record {
              rolled = ready-Rolled fast slow (ground arith);
              has_lem = unstarted slow (ground arith);
              above_lem = λ late. absurd (ground arith);
            };
          },
          refl,
          refl,
        )
]

-- After any ticks of any symbols, from a strategy that the constructor accepts, a tick gives a
-- signal exactly when its symbol had a full slow window of prices before it and the comparison of
-- the two averages is now the other one: a buy when the fast average is above the slow one, a sell
-- when it is not. The averages are those of the last prices of that symbol, summed afresh.
pub run-crossing :
    (fast slow : ℕ) (m : MovingAverageCrossover) (ticks : List (Tick × ℤ)) (tick : Tick) (price : ℤ)
    → make fast slow ≡ some m
    → (on_tick (run m ticks) tick price).1
      ≡ signal_for tick price (crossing fast slow (price ∷ history tick.symbol ticks []))
run-crossing fast slow m ticks tick price h =
    let (f, same_fast, same_slow) = made fast slow m h in
    let (kept_fast, kept_slow) = run_windows m ticks in
    let e =
      on_tick-crossing (run m ticks) (λ x. history x ticks []) (run-Follows m ticks (λ x. []) f)
        tick price in
    e
    ∙ ap
        (λ w.
          signal_for tick price
            (crossing w (run m ticks).slow (price ∷ history tick.symbol ticks [])))
        (kept_fast ∙ same_fast)
    ∙ ap (λ w. signal_for tick price (crossing fast w (price ∷ history tick.symbol ticks [])))
        (kept_slow ∙ same_slow)
