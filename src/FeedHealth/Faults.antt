-- ===== src/FeedHealth/Faults.antt =====
-- When the session of cpp/src/feed_health.cpp is faulted, and for how long.
use high_frequency_trading.Base.{
  ◌-◌, ◌<◌, ◌≡◌, Bool, true, false, not, ◌&&◌, ◌||◌, List, [], ◌∷◌, arith, ltb, if◌then◌else◌, word,
  inc64,
}
use high_frequency_trading.Base.Int.{ℤ, pos, ◌+ℤ◌, ltb_ℤ, leb_ℤ, eqb_ℤ}
use high_frequency_trading.Types.{Tick}
use high_frequency_trading.FeedHealth.{
  FeedStatus, gap, FeedMonitor, on_tick, check_stale, classify, on_gap,
}

-- What reaches a monitor between two resynchronisations: messages, and polls of the watchdog.
pub data Event : Type 0 where
  message : Tick → ℤ → Event
  poll : ℤ → Event

unfoldable pub step : FeedMonitor → Event → FeedMonitor
step m (message tick now_ns) = (on_tick m tick now_ns).0
step m (poll now_ns) = (check_stale m now_ns).0

unfoldable pub run : FeedMonitor → List Event → FeedMonitor
run m [] = m
run m (e ∷ es) = run (step m e) es

step-faulted : (m : FeedMonitor) (e : Event) → m.faulted ≡ true → (step m e).faulted ≡ true
unfolding step on_tick classify on_gap check_stale
step-faulted m (message tick now_ns) h = ground arith
step-faulted m (poll now_ns) h = ground arith

-- A fault is sticky: no sequence of messages and polls of the watchdog clears it.
pub run-faulted : (m : FeedMonitor) (es : List Event) → m.faulted ≡ true → (run m es).faulted ≡ true
unfolding run
run-faulted m [] h = h
run-faulted m (e ∷ es) h = run-faulted (step m e) es (step-faulted m e h)

-- The skipped numbers are more than the configuration tolerates.
unfoldable pub intolerable : FeedMonitor → Tick → Bool
intolerable m tick =
    m.cfg.halt_on_gap && ltb m.cfg.tolerated_gap (tick.sequence - m.last_sequence - 1)

unfoldable pub is_gap : FeedStatus → Bool
is_gap gap = true
is_gap _ = false

-- A message faults a session that was not faulted exactly when it is classified as a gap, the
-- configuration halts on gaps, and more numbers are skipped than it tolerates. The reason recorded
-- is then a gap, and otherwise it stays. Sequence numbers are below 2 ^ 64.
pub on_tick-faulted :
    (m : FeedMonitor) (tick : Tick) (now_ns : ℤ)
    → m.faulted ≡ false
    → tick.sequence < word
    → m.last_sequence < word
    → let (after, status) = on_tick m tick now_ns in
      (after.faulted ≡ (is_gap status && intolerable m tick))
      × (after.fault_reason ≡ (if after.faulted then gap else m.fault_reason))
unfolding on_tick classify on_gap intolerable is_gap
on_tick-faulted m tick now_ns h fits last_fits = ground arith

-- A sequence of polls of the watchdog, with the answer of each.
unfoldable pub polls : FeedMonitor → List ℤ → FeedMonitor × List Bool
polls m [] = (m, [])
polls m (now_ns ∷ times) =
    let (m₁, silent_now) = check_stale m now_ns in
    let (m₂, rest) = polls m₁ times in (m₂, silent_now ∷ rest)

-- The feed is watched, something has started its clock, and no message came for as long as the
-- configuration allows.
unfoldable pub is_silent : FeedMonitor → ℤ → Bool
is_silent m now_ns =
    ltb_ℤ (pos 0) m.cfg.stale_after_ns
    && (m.seen_any || not (eqb_ℤ m.last_message_ns (pos 0)))
    && leb_ℤ (m.last_message_ns +ℤ m.cfg.stale_after_ns) now_ns

unfoldable pub silences : FeedMonitor → List ℤ → List Bool
silences m [] = []
silences m (now_ns ∷ times) = is_silent m now_ns ∷ silences m times

unfoldable pub any : List Bool → Bool
any [] = false
any (b ∷ bs) = b || any bs

-- What the first poll that finds the feed silent leaves.
unfoldable pub stale_once : FeedMonitor → FeedMonitor
stale_once m = record m {
  stats = record (m.stats) { stale_events = inc64 m.stats.stale_events };
  stale = true;
  faulted = true;
  fault_reason = gap;
}

unfoldable pub counted : Bool → FeedMonitor → FeedMonitor
counted silent m = if silent && not m.stale then stale_once m else m
