-- ===== src/Ring.antt =====
-- The queue between the feed's thread and the engine's: cpp/include/hft/ring_buffer.hpp.
-- A call of the producer or of the consumer is a sequence of atomic actions, and a run is a list
-- of actions of the two threads in any order. A `release` store of an index and an `acquire` load
-- of it are one action each, in one order that both threads see: the source reads a slot only
-- after such a load, and the other accesses are of a thread to what it alone writes.
mod Wrap
mod Invariant
mod Pushing
mod Popping
pub mod Fifo
mod Tests
use Prim.Native.Nat.{bit_and}
use high_frequency_trading.Base.{
  ℕ, zero, suc, ◌+◌, ◌-◌, ◌*◌, ◌%◌, Bool, true, false, List, [], ◌∷◌, ◌++◌, ◌==◌, ltb,
  if◌then◌else◌, get_or, set, replicate, inc64, sub64, word,
}

-- `while (p < n) p <<= 1`. The fuel is the number of doublings left.
unfoldable pub double_below : ℕ → ℕ → ℕ → ℕ
double_below zero n p = p
double_below (suc fuel) n p = elim (ltb p n) [
  | true ↦ double_below fuel n (p * 2 % word)
  | false ↦ p
]

-- A size_t takes at most 64 doublings.
unfoldable pub round_up_pow2 : ℕ → ℕ
round_up_pow2 n = if ltb n 2 then 2 else double_below 64 n 1

pub record SpscRingBuffer (A : Type 0) : Type 0 where
  pub capacity : ℕ
  pub mask : ℕ
  pub slots : List A
  pub head : ℕ
  pub cached_tail : ℕ
  pub dropped : ℕ
  pub tail : ℕ
  pub cached_head : ℕ

-- Where the producer is in a call: before the load of the consumer's index, before the write of
-- the slot, before the store of its own index, or before it counts a drop. `drops` tells a call of
-- push_or_drop from one of try_push.
pub data Producer (A : Type 0) : Type 0 where
  resting : Producer A
  load_tail : (item : A) (drops : Bool) → Producer A
  write_slot : (item : A) → Producer A
  store_head : (item : A) → Producer A
  count_drop : Producer A

-- Where the consumer is in a call of try_pop.
pub data Consumer (A : Type 0) : Type 0 where
  waiting : Consumer A
  load_head : Consumer A
  read_slot : Consumer A
  store_tail : (out : A) → Consumer A

-- The queue, the two threads, and what the producer's calls put in and the consumer's took out.
pub record System (A : Type 0) : Type 0 where
  pub ring : SpscRingBuffer A
  pub producer : Producer A
  pub consumer : Consumer A
  pub pushed : List A
  pub popped : List A

pub data Action (A : Type 0) : Type 0 where
  call_push : (item : A) (drops : Bool) → Action A
  producer_runs : Action A
  call_pop : Action A
  consumer_runs : Action A

module _ {A : Type 0} where
  -- `next - cached_tail_ > capacity_`.
  abbrev pub looks_full : SpscRingBuffer A → Bool
  looks_full r = ltb r.capacity (sub64 (inc64 r.head) r.cached_tail)

  -- `tail == cached_head_`.
  abbrev pub looks_empty : SpscRingBuffer A → Bool
  looks_empty r = r.tail == r.cached_head

  unfoldable pub begin_push : System A → A → Bool → System A
  begin_push s item drops = record s {
    producer = if looks_full s.ring then load_tail item drops else write_slot item;
  }

  unfoldable pub run_producer : System A → Producer A → System A
  run_producer s resting = s
  run_producer s (load_tail item drops) =
      let ring = record (s.ring) { cached_tail = s.ring.tail } in
      record s {
        ring = ring;
        producer =
            if looks_full ring then (if drops then count_drop else resting) else write_slot item;
      }
  run_producer s (write_slot item) = record s {
    ring = record (s.ring) { slots = set s.ring.slots (bit_and s.ring.head s.ring.mask) item };
    producer = store_head item;
  }
  run_producer s (store_head item) = record s {
    ring = record (s.ring) { head = inc64 s.ring.head };
    producer = resting;
    pushed = s.pushed ++ (item ∷ []);
  }
  run_producer s count_drop = record s {
    ring = record (s.ring) { dropped = inc64 s.ring.dropped };
    producer = resting;
  }

  unfoldable pub begin_pop : System A → System A
  begin_pop s = record s { consumer = if looks_empty s.ring then load_head else read_slot }

-- `T` value-initialised is an argument.
module _ {A : Type 0} (blank : A) where
  unfoldable pub make : ℕ → System A
  make n =
      let capacity = round_up_pow2 n in
      record {
        ring = record {
          capacity = capacity;
          mask = capacity - 1;
          slots = replicate capacity blank;
          head = 0;
          cached_tail = 0;
          dropped = 0;
          tail = 0;
          cached_head = 0;
        };
        producer = resting;
        consumer = waiting;
        pushed = [];
        popped = [];
      }

  unfoldable pub run_consumer : System A → Consumer A → System A
  run_consumer s waiting = s
  run_consumer s load_head =
      let ring = record (s.ring) { cached_head = s.ring.head } in
      record s { ring = ring; consumer = if looks_empty ring then waiting else read_slot }
  run_consumer s read_slot = record s {
    consumer = store_tail (get_or s.ring.slots (bit_and s.ring.tail s.ring.mask) blank);
  }
  run_consumer s (store_tail out) = record s {
    ring = record (s.ring) { tail = inc64 s.ring.tail };
    consumer = waiting;
    popped = s.popped ++ (out ∷ []);
  }

  -- A thread starts a call only when its last one is over.
  unfoldable pub act : System A → Action A → System A
  act s (call_push item drops) = elim s.producer [ resting ↦ begin_push s item drops | _ ↦ s ]
  act s producer_runs = run_producer s s.producer
  act s call_pop = elim s.consumer [ waiting ↦ begin_pop s | _ ↦ s ]
  act s consumer_runs = run_consumer s s.consumer

  unfoldable pub run : System A → List (Action A) → System A
  run s [] = s
  run s (a ∷ rest) = run (act s a) rest
