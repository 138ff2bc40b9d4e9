-- ===== src/FeedHealth/Tests.antt =====
-- Runs of the feed monitor on small sessions, and instances of its theorems.
use high_frequency_trading.Base.{
  ℕ, ◌+◌, ◌≡◌, refl, true, false, ◌&&◌, List, [], ◌∷◌, arith, if◌then◌else◌,
}
use high_frequency_trading.Base.Int.{ℤ, pos, ◌-ℤ◌}
use high_frequency_trading.Types.{Tick, TickType, buy}
use high_frequency_trading.FeedHealth.{
  ok, gap, duplicate, reordered, FeedHealthConfig, FeedMonitor, make, on_tick, on_ticks, classify,
  on_gap, check_stale,
}
use high_frequency_trading.FeedHealth.Sequence.{
  order_status, moved, accepted, Counting, on_tick_status, on_ticks-account,
}
use high_frequency_trading.FeedHealth.Faults.{
  message, poll, run, run-faulted, is_gap, intolerable, on_tick-faulted, polls, stale_once,
}

abbrev tick_at : ℕ → Tick
tick_at sequence = record {
  symbol = 0;
  type = TickType.trade;
  side = buy;
  price = pos 10000;
  quantity = pos 1;
  order_id = 0;
  source_ts_ns = pos 0;
  ingest_ts_ns = pos 0;
  sequence = sequence;
}

abbrev watched : FeedHealthConfig
watched = record {
  require_sequence = true;
  halt_on_gap = true;
  tolerated_gap = 2;
  stale_after_ns = pos 50;
}

-- A monitor that resumes after message 10.
abbrev resumed : FeedMonitor
resumed = record (make watched) { last_sequence = 10; seen_any = true; last_message_ns = pos 5 }

abbrev session : List (Tick × ℤ)
session = (tick_at 11, pos 6) ∷ (tick_at 11, pos 7) ∷ (tick_at 15, pos 8) ∷ (tick_at 13, pos 9) ∷ []

session_statuses : (on_ticks resumed session).1 ≡ ok ∷ duplicate ∷ gap ∷ reordered ∷ []
unfolding on_ticks on_tick classify on_gap
session_statuses = refl

resumed-Counting : Counting resumed
resumed-Counting = ground arith

on_tick_status_example :
    let (after, status) = on_tick resumed (tick_at 15) (pos 8) in
    (status ≡ order_status 10 15)
    × ((after.last_sequence, after.stats.messages_missing) ≡ moved resumed 15 status)
on_tick_status_example =
    on_tick_status resumed (tick_at 15) (pos 8) refl refl (omega arith) (omega arith) (omega arith)

on_ticks-account_example :
    let (after, statuses) = on_ticks resumed session in
    after.last_sequence + 0 ≡ 10 + accepted statuses + after.stats.messages_missing
on_ticks-account_example = on_ticks-account resumed session resumed-Counting (omega arith)

on_tick-faulted_example :
    let (after, status) = on_tick resumed (tick_at 15) (pos 8) in
    (after.faulted ≡ (is_gap status && intolerable resumed (tick_at 15)))
    × (after.fault_reason ≡ (if after.faulted then gap else ok))
on_tick-faulted_example =
    on_tick-faulted resumed (tick_at 15) (pos 8) refl (omega arith) (omega arith)

abbrev broken : FeedMonitor
broken = record resumed { faulted = true; fault_reason = gap }

run-faulted_example : (run broken (message (tick_at 11) (pos 6) ∷ poll (pos 7) ∷ [])).faulted ≡ true
run-faulted_example = run-faulted broken (message (tick_at 11) (pos 6) ∷ poll (pos 7) ∷ []) refl

silent_twice : (polls resumed (pos 50 ∷ pos 60 ∷ pos 70 ∷ [])).1 ≡ false ∷ true ∷ true ∷ []
unfolding polls check_stale ◌-ℤ◌
silent_twice = refl

counted_once : (polls resumed (pos 50 ∷ pos 60 ∷ pos 70 ∷ [])).0 ≡ stale_once resumed
unfolding polls check_stale stale_once ◌-ℤ◌
counted_once = refl
