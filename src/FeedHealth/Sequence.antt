-- ===== src/FeedHealth/Sequence.antt =====
-- What FeedMonitor::on_tick (cpp/src/feed_health.cpp) makes of a sequence number, and the account
-- of lost messages over a session.
use high_frequency_trading.Base.{
  ℕ, ◌+◌, ◌-◌, ◌≤◌, ◌<◌, ◌≡◌, true, List, [], ◌∷◌, arith, ltb, ◌==◌, if◌then◌else◌, word, add64,
}
use high_frequency_trading.Base.Int.{ℤ}
use high_frequency_trading.Types.{Tick}
use high_frequency_trading.FeedHealth.{
  FeedStatus, ok, gap, duplicate, reordered, unsequenced, FeedMonitor, on_tick, on_ticks, classify,
  on_gap,
}

-- How a sequence number stands to the last one, with no arithmetic on words.
unfoldable pub order_status : ℕ → ℕ → FeedStatus
order_status last sequence =
    if sequence == last + 1
    then ok
    else if sequence == last
    then duplicate
    else if ltb sequence last
    then reordered
    else gap

-- The last number and the messages missing that a status leaves.
unfoldable pub moved : FeedMonitor → ℕ → FeedStatus → ℕ × ℕ
moved m sequence ok = (sequence, m.stats.messages_missing)
moved m sequence gap = (sequence, add64 m.stats.messages_missing (sequence - m.last_sequence - 1))
moved m sequence _ = (m.last_sequence, m.stats.messages_missing)

-- Once a message was seen, a message with a sequence number n that is not zero is ok, duplicate,
-- reordered or a gap as n is the last number plus one, the last number, below it, or above the
-- next. A message that is ok or a gap makes n the last number, and another leaves it; a gap adds
-- the count of the numbers skipped to the messages missing, and nothing else does.
pub on_tick_status :
    (m : FeedMonitor) (tick : Tick) (now_ns : ℤ)
    → m.cfg.require_sequence ≡ true
    → m.seen_any ≡ true
    → 0 < tick.sequence
    → tick.sequence < word
    → m.last_sequence < word
    → let (after, status) = on_tick m tick now_ns in
      (status ≡ order_status m.last_sequence tick.sequence)
      × ((after.last_sequence, after.stats.messages_missing) ≡ moved m tick.sequence status)
unfolding on_tick classify on_gap order_status moved
on_tick_status m tick now_ns req seen positive fits last_fits = ground arith

-- How many of these messages moved the last number.
abbrev pub accepted : List FeedStatus → ℕ
accepted [] = 0
accepted (ok ∷ rest) = 1 + accepted rest
accepted (gap ∷ rest) = 1 + accepted rest
accepted (_ ∷ rest) = accepted rest

abbrev pub Fit : List (Tick × ℤ) → Type 0
Fit [] = Unit {0}
Fit ((tick, now_ns) ∷ ticks) = (tick.sequence < word) × Fit ticks

-- The monitor has begun, and its count of missing messages has not wrapped.
pub record Counting (m : FeedMonitor) : Type 0 where
  pub required : m.cfg.require_sequence ≡ true
  pub begun : m.seen_any ≡ true
  pub last_fits : m.last_sequence < word
  pub missing_fits : m.stats.messages_missing ≤ m.last_sequence

on_tick-Counting :
    (m : FeedMonitor) (tick : Tick) (now_ns : ℤ)
    → Counting m
    → tick.sequence < word
    → Counting (on_tick m tick now_ns).0
unfolding on_tick classify on_gap
on_tick-Counting m tick now_ns c fits = ground arith

on_tick-account :
    (m : FeedMonitor) (tick : Tick) (now_ns : ℤ)
    → Counting m
    → tick.sequence < word
    → let (after, status) = on_tick m tick now_ns in
      after.last_sequence + m.stats.messages_missing
      ≡ m.last_sequence + accepted (status ∷ []) + after.stats.messages_missing
unfolding on_tick classify on_gap
on_tick-account m tick now_ns c fits = ground arith

accepted-cons :
    (s : FeedStatus) (rest : List FeedStatus)
    → accepted (s ∷ rest) ≡ accepted (s ∷ []) + accepted rest
accepted-cons ok rest = omega arith
accepted-cons gap rest = omega arith
accepted-cons duplicate rest = omega arith
accepted-cons reordered rest = omega arith
accepted-cons unsequenced rest = omega arith

-- No sequence number is lost from the account: over any batch of messages, the last number grows
-- by the number of messages accepted (ok or gap) plus the growth of the messages missing. The
-- monitor requires sequence numbers, has seen a message and has not counted more missing messages
-- than its last number; each number is below 2 ^ 64.
pub on_ticks-account :
    (m : FeedMonitor) (ticks : List (Tick × ℤ))
    → Counting m
    → Fit ticks
    → let (after, statuses) = on_ticks m ticks in
      after.last_sequence + m.stats.messages_missing
      ≡ m.last_sequence + accepted statuses + after.stats.messages_missing
unfolding on_ticks
on_ticks-account m [] c fit = omega arith
on_ticks-account m ((tick, now_ns) ∷ ticks) c fit =
    let m₁ = (on_tick m tick now_ns).0 in
    omega (
      arith,
      on_tick-account m tick now_ns c fit.0,
      accepted-cons (on_tick m tick now_ns).1 (on_ticks m₁ ticks).1,
      on_ticks-account m₁ ticks (on_tick-Counting m tick now_ns c fit.0) fit.1,
    )
