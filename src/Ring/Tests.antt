-- ===== src/Ring/Tests.antt =====
-- Runs of the queue of cpp/include/hft/ring_buffer.hpp, and instances of its theorems, for a queue
-- of two slots.
use high_frequency_trading.Base.{
  ℕ, ◌^◌, ◌*◌, ◌+◌, ◌≤◌, ◌<◌, ◌≡◌, ◌↔◌, ◌⊎◌, refl, true, false, List, [], ◌∷◌, ◌++◌, arith, length,
}
use high_frequency_trading.Ring.{
  System, Action, call_push, producer_runs, call_pop, consumer_runs, double_below, round_up_pow2,
  make, looks_full, looks_empty, begin_push, run_producer, begin_pop, run_consumer, act, run,
}
use high_frequency_trading.Ring.Fifo.{round_up_pow2_lem, run-fifo, run-full, run-empty}

-- Two calls of try_push and one of try_pop, interleaved, and a call of push_or_drop on a full queue.
abbrev interleaved : List (Action ℕ)
interleaved =
    call_push 11 false
    ∷ call_pop
    ∷ producer_runs
    ∷ consumer_runs
    ∷ producer_runs
    ∷ call_pop
    ∷ consumer_runs
    ∷ call_push 12 false
    ∷ consumer_runs
    ∷ producer_runs
    ∷ consumer_runs
    ∷ producer_runs
    ∷ call_push 13 false
    ∷ producer_runs
    ∷ producer_runs
    ∷ producer_runs
    ∷ call_push 14 true
    ∷ producer_runs
    ∷ producer_runs
    ∷ []

abbrev after : System ℕ
after = run 0 (make 0 2) interleaved

after_popped : after.popped ≡ 11 ∷ []
unfolding run act make begin_push run_producer begin_pop run_consumer round_up_pow2 double_below
after_popped = refl

after_pushed : after.pushed ≡ 11 ∷ 12 ∷ 13 ∷ []
unfolding run act make begin_push run_producer begin_pop run_consumer round_up_pow2 double_below
after_pushed = refl

after_dropped : after.ring.dropped ≡ 1
unfolding run act make begin_push run_producer begin_pop run_consumer round_up_pow2 double_below
after_dropped = refl

run-fifo_example :
    (rest : List ℕ) × (after.pushed ≡ after.popped ++ rest) × (length rest ≤ round_up_pow2 2)
run-fifo_example = run-fifo 0 2 interleaved (omega arith)

run-full_example :
    (looks_full (record (after.ring) { cached_tail = after.ring.tail }) ≡ true)
    ↔ (length after.pushed ≡ length after.popped + round_up_pow2 2)
run-full_example = run-full 0 2 interleaved (omega arith)

run-empty_example :
    (looks_empty (record (after.ring) { cached_head = after.ring.head }) ≡ true)
    ↔ (length after.pushed ≡ length after.popped)
run-empty_example = run-empty 0 2 interleaved (omega arith)

round_up_pow2_lem_example :
    (k : ℕ) × (k < 64)
    × (round_up_pow2 1000 ≡ 2 ^ k)
    × (1000 ≤ 2 ^ k)
    × ((2 ^ k ≡ 2) ⊎ (2 ^ k < 2 * 1000))
round_up_pow2_lem_example = round_up_pow2_lem 1000 (omega arith)
