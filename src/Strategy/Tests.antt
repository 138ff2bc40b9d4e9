-- ===== src/Strategy/Tests.antt =====
-- A run of the crossover with windows of one and two prices, and an instance of its theorem.
use high_frequency_trading.Base.{ℕ, ◌≡◌, refl, some, List, [], ◌∷◌}
use high_frequency_trading.Base.Int.{ℤ, pos, ◌+ℤ◌, ◌-ℤ◌, ◌*ℤ◌}
use high_frequency_trading.Types.{buy, TickType, Tick}
use high_frequency_trading.Strategy.{
  MovingAverageCrossover, make, ready, subtract, arrive, roll, decide, on_tick, signal_for,
}
use high_frequency_trading.Strategy.Signals.{crossing}
use high_frequency_trading.Strategy.Runs.{history, run, run-crossing}

abbrev trade_at : ℕ → Tick
trade_at symbol = record {
  symbol = symbol;
  type = TickType.trade;
  side = buy;
  price = pos 100;
  quantity = pos 1;
  order_id = 0;
  source_ts_ns = pos 0;
  ingest_ts_ns = pos 7;
  sequence = 1;
}

abbrev prices : List (Tick × ℤ)
prices = (trade_at 0, pos 100) ∷ (trade_at 1, pos 50) ∷ (trade_at 0, pos 90) ∷ []

abbrev started : MovingAverageCrossover
started = record { fast = 1; slow = 2; states = []; signals = 0 }

rise_buys :
    (on_tick (run started prices) (trade_at 0) (pos 95)).1
    ≡ signal_for (trade_at 0) (pos 95) (some buy)
unfolding on_tick run decide roll arrive subtract ready ◌+ℤ◌ ◌-ℤ◌ ◌*ℤ◌
rise_buys = refl

run-crossing_example :
    (on_tick (run started prices) (trade_at 0) (pos 95)).1
    ≡ signal_for (trade_at 0) (pos 95) (crossing 1 2 (pos 95 ∷ history 0 prices []))
unfolding make
run-crossing_example = run-crossing 1 2 started prices (trade_at 0) (pos 95) refl
