-- ===== src/Strategy.antt =====
-- The moving-average crossover: cpp/src/strategy.cpp, cpp/include/hft/strategy.hpp.
pub mod Windows
pub mod Signals
pub mod Runs
mod Tests
use high_frequency_trading.Base.{
  ℕ, ◌+◌, ◌-◌, ◌%◌, Bool, true, false, not, ◌||◌, ◌&&◌, Option, none, some, List, [], ◌∷◌, ◌==◌,
  ltb, leb, if◌then◌else◌, get_or, set, replicate, reach, length, inc64,
}
use high_frequency_trading.Base.Int.{ℤ, pos, ◌+ℤ◌, ◌-ℤ◌, ◌*ℤ◌, ltb_ℤ}
use high_frequency_trading.Types.{Side, buy, sell, Tick, Signal}
use high_frequency_trading.Double.{Double}

-- The rolling window of one symbol.
pub record State : Type 0 where
  pub ring : List ℤ
  pub head : ℕ
  pub filled : ℕ
  pub slow_sum : ℤ
  pub fast_sum : ℤ
  pub has_state : Bool
  pub fast_above : Bool

pub record MovingAverageCrossover : Type 0 where
  pub fast : ℕ
  pub slow : ℕ
  pub states : List State
  pub signals : ℕ

abbrev pub no_state : State
no_state = record {
  ring = [];
  head = 0;
  filled = 0;
  slow_sum = pos 0;
  fast_sum = pos 0;
  has_state = false;
  fast_above = false;
}

-- The constructor throws for windows that it cannot use.
unfoldable pub make : ℕ → ℕ → Option MovingAverageCrossover
make fast_window slow_window =
    if fast_window == 0 || leb slow_window fast_window
    then none
    else some (record { fast = fast_window; slow = slow_window; states = []; signals = 0 })

abbrev pub is_empty : List ℤ → Bool
is_empty [] = true
is_empty (p ∷ ps) = false

-- `state_for`, on the symbol's entry: an empty ring is assigned.
unfoldable pub ready : ℕ → State → State
ready slow s = if is_empty s.ring then record s { ring = replicate slow (pos 0) } else s

-- What leaves the windows is subtracted.
unfoldable pub subtract : ℕ → ℕ → State → State
subtract fast slow s = record s {
  slow_sum = if s.filled == slow then s.slow_sum -ℤ get_or s.ring s.head (pos 0) else s.slow_sum;
  fast_sum =
      if leb fast s.filled
      then s.fast_sum -ℤ get_or s.ring ((s.head + slow - fast) % slow) (pos 0)
      else s.fast_sum;
}

-- What arrives is added.
unfoldable pub arrive : ℕ → State → ℤ → State
arrive slow s price = record s {
  ring = set s.ring s.head price;
  head = (s.head + 1) % slow;
  slow_sum = s.slow_sum +ℤ price;
  fast_sum = s.fast_sum +ℤ price;
  filled = if ltb s.filled slow then s.filled + 1 else s.filled;
}

unfoldable pub roll : ℕ → ℕ → State → ℤ → State
roll fast slow s price = arrive slow (subtract fast slow s) price

abbrev pub differ : Bool → Bool → Bool
differ true b = not b
differ false b = b

-- The rest of `on_tick` for the symbol's state: the new state, and the side of a signal.
unfoldable pub decide : ℕ → ℕ → State → State × Option Side
decide fast slow s =
    let above = ltb_ℤ (s.slow_sum *ℤ pos fast) (s.fast_sum *ℤ pos slow) in
    let s' = record s { has_state = true; fast_above = above } in
    if ltb s.filled slow then (s, none) else (
      s',
      if s.has_state && differ s.fast_above above then some (if above then buy else sell) else none,
    )

abbrev pub signal_for : Tick → ℤ → Option Side → Option Signal
signal_for tick price none = none
signal_for tick price (some side) = some (record {
  symbol = tick.symbol;
  side = side;
  price = price;
  tick_ingest_ts_ns = tick.ingest_ts_ns;
})

abbrev pub count_signal : ℕ → Option Side → ℕ
count_signal n none = n
count_signal n (some side) = inc64 n

unfoldable pub on_tick : MovingAverageCrossover → Tick → ℤ → MovingAverageCrossover × Option Signal
on_tick m tick reference_price =
    let states = reach m.states tick.symbol no_state in
    let s = ready m.slow (get_or states tick.symbol no_state) in
    let (s', side) = decide m.fast m.slow (roll m.fast m.slow s reference_price) in
    (
      record m { states = set states tick.symbol s'; signals = count_signal m.signals side },
      signal_for tick reference_price side,
    )

unfoldable pub reset : MovingAverageCrossover → MovingAverageCrossover
reset m = record m { states = []; signals = 0 }

-- The fast and the slow average.
unfoldable pub averages : {D : Type 0} ⦃d : Double D⦄ → MovingAverageCrossover → ℕ → Option (D × D)
averages ⦃d⦄ m symbol =
    let s = get_or m.states symbol no_state in
    if is_empty s.ring || ltb s.filled m.slow
    then none
    else some (
      d.div (d.of_ℤ s.fast_sum) (d.of_ℤ (pos m.fast)),
      d.div (d.of_ℤ s.slow_sum) (d.of_ℤ (pos m.slow)),
    )
