-- ===== src/FeedHealth.antt =====
-- The feed monitor: sequence gaps, duplicates, reordering and staleness
-- (cpp/src/feed_health.cpp, cpp/include/hft/feed_health.hpp).
-- Sequence numbers and counters are unsigned 64-bit words and wrap; times are signed.
pub mod Sequence
pub mod Faults
mod Tests
use high_frequency_trading.Base.{
  ℕ, Bool, true, false, not, ◌&&◌, List, [], ◌∷◌, ◌==◌, ltb, if◌then◌else◌, inc64, add64, sub64,
}
use high_frequency_trading.Base.Int.{ℤ, pos, ◌-ℤ◌, ltb_ℤ, leb_ℤ, eqb_ℤ}
use high_frequency_trading.Types.{Tick}

pub data FeedStatus : Type 0 where
  ok gap duplicate reordered unsequenced : FeedStatus

pub record FeedHealthConfig : Type 0 where
  pub require_sequence : Bool
  pub halt_on_gap : Bool
  pub tolerated_gap : ℕ
  pub stale_after_ns : ℤ

pub record FeedHealthStats : Type 0 where
  pub messages : ℕ
  pub gaps : ℕ
  pub messages_missing : ℕ
  pub duplicates : ℕ
  pub reordered : ℕ
  pub unsequenced : ℕ
  pub largest_gap : ℕ
  pub stale_events : ℕ

pub record FeedMonitor : Type 0 where
  pub cfg : FeedHealthConfig
  pub stats : FeedHealthStats
  pub last_sequence : ℕ
  pub last_message_ns : ℤ
  pub seen_any : Bool
  pub stale : Bool
  pub faulted : Bool
  pub fault_reason : FeedStatus

abbrev pub no_stats : FeedHealthStats
no_stats = record {
  messages = 0;
  gaps = 0;
  messages_missing = 0;
  duplicates = 0;
  reordered = 0;
  unsequenced = 0;
  largest_gap = 0;
  stale_events = 0;
}

-- The constructor.
abbrev pub make : FeedHealthConfig → FeedMonitor
make config = record {
  cfg = config;
  stats = no_stats;
  last_sequence = 0;
  last_message_ns = pos 0;
  seen_any = false;
  stale = false;
  faulted = false;
  fault_reason = ok;
}

-- The forward jump at the end of `on_tick`: the messages from `expected` on are gone.
on_gap : FeedMonitor → ℕ → ℕ → FeedMonitor
on_gap m sequence expected =
    let missing = sub64 sequence expected in
    let fatal = m.cfg.halt_on_gap && ltb m.cfg.tolerated_gap missing in
    record m {
      stats = record (m.stats) {
        gaps = inc64 m.stats.gaps;
        messages_missing = add64 m.stats.messages_missing missing;
        largest_gap = if ltb m.stats.largest_gap missing then missing else m.stats.largest_gap;
      };
      last_sequence = sequence;
      faulted = if fatal then true else m.faulted;
      fault_reason = if fatal then gap else m.fault_reason;
    }

-- The classification that follows the first lines of `on_tick`.
classify : FeedMonitor → ℕ → FeedMonitor × FeedStatus
unfolding on_gap
classify m sequence =
    if not m.cfg.require_sequence
    then (m, ok)
    else if sequence == 0
    then (
      record m { stats = record (m.stats) { unsequenced = inc64 m.stats.unsequenced } },
      unsequenced,
    )
    else if not m.seen_any
    then (record m { seen_any = true; last_sequence = sequence }, ok)
    else if sequence == inc64 m.last_sequence
    then (record m { last_sequence = sequence }, ok)
    else if sequence == m.last_sequence
    then (
      record m { stats = record (m.stats) { duplicates = inc64 m.stats.duplicates } },
      duplicate,
    )
    else if ltb sequence m.last_sequence
    then (record m { stats = record (m.stats) { reordered = inc64 m.stats.reordered } }, reordered)
    else (on_gap m sequence (inc64 m.last_sequence), gap)

pub on_tick : FeedMonitor → Tick → ℤ → FeedMonitor × FeedStatus
unfolding classify
on_tick m tick now_ns =
    classify
      (record m {
        stats = record (m.stats) { messages = inc64 m.stats.messages };
        last_message_ns = now_ns;
        stale = false;
      })
      tick.sequence

pub check_stale : FeedMonitor → ℤ → FeedMonitor × Bool
check_stale m now_ns =
    if leb_ℤ m.cfg.stale_after_ns (pos 0)
    then (m, false)
    else if not m.seen_any && eqb_ℤ m.last_message_ns (pos 0)
    then (m, false)
    else if ltb_ℤ (now_ns -ℤ m.last_message_ns) m.cfg.stale_after_ns
    then (m, false)
    else if m.stale
    then (m, true)
    else (
      record m {
        stats = record (m.stats) { stale_events = inc64 m.stats.stale_events };
        stale = true;
        faulted = true;
        fault_reason = gap;
      },
      true,
    )

pub resynchronise : FeedMonitor → ℕ → FeedMonitor
resynchronise m from_sequence = record m {
  last_sequence = from_sequence;
  seen_any = not (from_sequence == 0);
  stale = false;
  faulted = false;
  fault_reason = ok;
}

pub reset : FeedMonitor → FeedMonitor
reset m = make m.cfg

pub healthy : FeedMonitor → Bool
healthy m = not m.faulted && m.stats.gaps == 0

-- A batch of messages in the order of their arrival, with what the monitor made of each.
pub on_ticks : FeedMonitor → List (Tick × ℤ) → FeedMonitor × List FeedStatus
on_ticks m [] = (m, [])
on_ticks m ((tick, now_ns) ∷ ticks) =
    let (m₁, status) = on_tick m tick now_ns in
    let (m₂, rest) = on_ticks m₁ ticks in (m₂, status ∷ rest)
