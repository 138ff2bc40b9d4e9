-- ===== src/Ring/Invariant.antt =====
-- The invariant of the queue of cpp/include/hft/ring_buffer.hpp.
use high_frequency_trading.Base.{ℕ, ◌+◌, ◌-◌, ◌%◌, ◌^◌, ◌≤◌, ◌<◌, ◌≡◌, List, get_or, length, word}
use high_frequency_trading.Ring.{
  SpscRingBuffer, Producer, write_slot, store_head, Consumer, read_slot, store_tail, System,
}

module _ {A : Type 0} (blank : A) where
  -- What a producer in a call knows: `n` values were put in, it has seen `seen` taken out, and there
  -- is room for one more; after the write, the value stands in its slot.
  unfoldable pub Producing : ℕ → SpscRingBuffer A → ℕ → ℕ → Producer A → Type 0
  Producing k r n seen (write_slot item) = n < seen + 2 ^ k
  Producing k r n seen (store_head item) =
      (n < seen + 2 ^ k) × (get_or r.slots (n % 2 ^ k) blank ≡ item)
  Producing k r n seen _ = Unit {0}

  -- What a consumer in a call knows: `n` values were taken out, and it has seen `seen` put in.
  unfoldable pub Consuming : List A → ℕ → ℕ → Consumer A → Type 0
  Consuming pushed n seen read_slot = n < seen
  Consuming pushed n seen (store_tail out) = (n < seen) × (get_or pushed n blank ≡ out)
  Consuming pushed n seen _ = Unit {0}

  -- The indices stand for the counts of values put in and taken out, each thread's copy of the
  -- other's index for a count that it was at, and the slots hold the values in between.
  pub record IsValid (k : ℕ) (s : System A) : Type 0 where
    pub seen_popped : ℕ
    pub seen_pushed : ℕ
    pub small : k < 64
    pub capacity_lem : s.ring.capacity ≡ 2 ^ k
    pub mask_lem : s.ring.mask ≡ 2 ^ k - 1
    pub slots_lem : length s.ring.slots ≡ 2 ^ k
    pub head_lem : s.ring.head ≡ length s.pushed % word
    pub tail_lem : s.ring.tail ≡ length s.popped % word
    pub cached_tail_lem : s.ring.cached_tail ≡ seen_popped % word
    pub cached_head_lem : s.ring.cached_head ≡ seen_pushed % word
    pub old_tail : seen_popped ≤ length s.popped
    pub ahead : length s.popped ≤ seen_pushed
    pub old_head : seen_pushed ≤ length s.pushed
    pub fits : length s.pushed ≤ seen_popped + 2 ^ k
    pub held :
        (i : ℕ)
        → length s.popped ≤ i
        → i < length s.pushed
        → get_or s.ring.slots (i % 2 ^ k) blank ≡ get_or s.pushed i blank
    pub in_order : (i : ℕ) → i < length s.popped → get_or s.popped i blank ≡ get_or s.pushed i blank
    pub producing : Producing k s.ring (length s.pushed) seen_popped s.producer
    pub consuming : Consuming s.pushed (length s.popped) seen_pushed s.consumer
