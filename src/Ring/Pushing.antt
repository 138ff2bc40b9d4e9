-- ===== src/Ring/Pushing.antt =====
-- The producer's actions on the queue of cpp/include/hft/ring_buffer.hpp and its invariant.
use high_frequency_trading.Base.{
  ℕ, ◌+◌, ◌-◌, ◌%◌, ◌^◌, ◌≤◌, ◌<◌, ◌≡◌, refl, sym, ap, ◌∙◌, ◌≢◌, inl, inr, Bool, true, false, [],
  ◌∷◌, ◌++◌, arith, get_or, length, word, inc64, sub64, ltb, ltb→lt, ltb→ge, Bool-cases,
  if◌then◌else◌, get_or-set_self, get_or-set_ne, length-set, length-append, get_or-append_left,
  get_or-append_last, subst,
}
use native.Mathlib.Nat.{mod-lt}
use high_frequency_trading.Base.Bits.{pow_pos}
use high_frequency_trading.Base.Remainders.{slots_differ}
use high_frequency_trading.Ring.{
  SpscRingBuffer, Producer, resting, load_tail, write_slot, store_head, count_drop, Consumer,
  waiting, load_head, read_slot, store_tail, System, looks_full, begin_push, run_producer,
}
use high_frequency_trading.Ring.Wrap.{slot_index, inc64_mod, distance, capacity_small}
use high_frequency_trading.Ring.Invariant.{IsValid, Producing, Consuming}

module _ {A : Type 0} where
  -- The test of the producer is that of the counts, without a wrap.
  pub looks_full_lem :
      (r : SpscRingBuffer A) (k n t : ℕ)
      → k < 64
      → r.capacity ≡ 2 ^ k
      → r.head ≡ n % word
      → r.cached_tail ≡ t % word
      → t ≤ n
      → n ≤ t + 2 ^ k
      → looks_full r ≡ ltb (2 ^ k) (n + 1 - t)
  looks_full_lem r k n t small capacity head cached behind fits =
      let gap : sub64 ((n + 1) % word) (t % word) ≡ n + 1 - t =
        distance t (n + 1) (omega arith) (omega (arith, capacity_small k small)) in
      rw (capacity, head, cached, inc64_mod n, gap) refl

module _ {A : Type 0} (blank : A) (k : ℕ) (s : System A) (v : IsValid blank k s) where
  -- The producer's state may be replaced by one that knows what is so.
  turn_producer :
      (p : Producer A)
      → Producing blank k s.ring (length s.pushed) v.seen_popped p
      → IsValid blank k (record s { producer = p })
  turn_producer p h = record {
    seen_popped = v.seen_popped;
    seen_pushed = v.seen_pushed;
    small = v.small;
    capacity_lem = v.capacity_lem;
    mask_lem = v.mask_lem;
    slots_lem = v.slots_lem;
    head_lem = v.head_lem;
    tail_lem = v.tail_lem;
    cached_tail_lem = v.cached_tail_lem;
    cached_head_lem = v.cached_head_lem;
    old_tail = v.old_tail;
    ahead = v.ahead;
    old_head = v.old_head;
    fits = v.fits;
    held = v.held;
    in_order = v.in_order;
    producing = h;
    consuming = v.consuming;
  }

  -- A queue that does not look full has room.
  room : looks_full s.ring ≡ false → length s.pushed < v.seen_popped + 2 ^ k
  room h = omega (
    arith,
    ltb→ge (2 ^ k) (length s.pushed + 1 - v.seen_popped) (
        sym (
          looks_full_lem s.ring k (length s.pushed) v.seen_popped v.small v.capacity_lem v.head_lem
            v.cached_tail_lem (omega (arith, v.old_tail, v.ahead, v.old_head)) v.fits)
        ∙ h),
  )

  pub begin_push-IsValid : (item : A) (drops : Bool) → IsValid blank k (begin_push s item drops)
  unfolding begin_push Producing
  begin_push-IsValid item drops = elim (Bool-cases (looks_full s.ring)) [
    | inl full ↦ rw full (turn_producer (load_tail item drops) tt)
    | inr spare ↦ rw spare (turn_producer (write_slot item) (room spare))
  ]

  -- The load of the consumer's index.
  look :
      IsValid blank k
        (record s { ring = record (s.ring) { cached_tail = s.ring.tail }; producer = resting })
  unfolding Producing
  look = record {
    seen_popped = length s.popped;
    seen_pushed = v.seen_pushed;
    small = v.small;
    capacity_lem = v.capacity_lem;
    mask_lem = v.mask_lem;
    slots_lem = v.slots_lem;
    head_lem = v.head_lem;
    tail_lem = v.tail_lem;
    cached_tail_lem = v.tail_lem;
    cached_head_lem = v.cached_head_lem;
    old_tail = omega arith;
    ahead = v.ahead;
    old_head = v.old_head;
    fits = omega (arith, v.fits, v.old_tail);
    held = v.held;
    in_order = v.in_order;
    producing = tt;
    consuming = v.consuming;
  }

  -- The slot of the next value holds none of the values in the queue.
  next_slot :
      (i : ℕ)
      → length s.popped ≤ i
      → i < length s.pushed
      → length s.pushed < v.seen_popped + 2 ^ k
      → i % 2 ^ k ≢ length s.pushed % 2 ^ k
  next_slot i lo hi below =
      slots_differ (2 ^ k) i (length s.pushed) (pow_pos k) hi (omega (arith, v.old_tail))

  write-IsValid :
      (item : A)
      → length s.pushed < v.seen_popped + 2 ^ k
      → IsValid blank k (run_producer s (write_slot item))
  unfolding run_producer Producing
  write-IsValid item below = record {
    seen_popped = v.seen_popped;
    seen_pushed = v.seen_pushed;
    small = v.small;
    capacity_lem = v.capacity_lem;
    mask_lem = v.mask_lem;
    slots_lem = length-set s.ring.slots _ item ∙ v.slots_lem;
    head_lem = v.head_lem;
    tail_lem = v.tail_lem;
    cached_tail_lem = v.cached_tail_lem;
    cached_head_lem = v.cached_head_lem;
    old_tail = v.old_tail;
    ahead = v.ahead;
    old_head = v.old_head;
    fits = v.fits;
    held = λ i lo hi.
        rw (v.head_lem, v.mask_lem, slot_index k (length s.pushed) (omega (arith, v.small)))
          (get_or-set_ne s.ring.slots (length s.pushed % 2 ^ k) (i % 2 ^ k) item blank
              (λ e. next_slot i lo hi below (sym e))
            ∙ v.held i lo hi);
    in_order = v.in_order;
    producing = (
      below,
      rw (v.head_lem, v.mask_lem, slot_index k (length s.pushed) (omega (arith, v.small)))
          (get_or-set_self s.ring.slots (length s.pushed % 2 ^ k) item blank
            (omega (arith, v.slots_lem, mod-lt (length s.pushed) (pow_pos k)))),
    );
    consuming = v.consuming;
  }

  -- The consumer's knowledge survives one more value.
  still-Consuming :
      (item : A) (c : Consumer A)
      → Consuming blank s.pushed (length s.popped) v.seen_pushed c
      → Consuming blank (s.pushed ++ (item ∷ [])) (length s.popped) v.seen_pushed c
  unfolding Consuming
  still-Consuming item waiting h = h
  still-Consuming item load_head h = h
  still-Consuming item read_slot h = h
  still-Consuming item (store_tail out) (below, at) = (
    below,
    get_or-append_left s.pushed (item ∷ []) (length s.popped) blank (omega (arith, v.old_head))
        ∙ at,
  )

  length-pushed : (item : A) → length (s.pushed ++ (item ∷ [])) ≡ length s.pushed + 1
  length-pushed item = length-append s.pushed (item ∷ [])

  -- The slots hold the values in the queue, the new one among them.
  held_more :
      (item : A)
      → get_or s.ring.slots (length s.pushed % 2 ^ k) blank ≡ item
      → (i : ℕ) → length s.popped ≤ i
      → i < length (s.pushed ++ (item ∷ []))
      → get_or s.ring.slots (i % 2 ^ k) blank ≡ get_or (s.pushed ++ (item ∷ [])) i blank
  held_more item at i lo hi = elim (Bool-cases (ltb i (length s.pushed))) [
    | inl old ↦
        v.held i lo (ltb→lt i (length s.pushed) old)
        ∙ sym (get_or-append_left s.pushed (item ∷ []) i blank (ltb→lt i (length s.pushed) old))
    | inr new ↦
        let last : length s.pushed ≡ i =
          omega (arith, ltb→ge i (length s.pushed) new, length-pushed item) in
        subst
          (λ j. get_or s.ring.slots (j % 2 ^ k) blank ≡ get_or (s.pushed ++ (item ∷ [])) j blank)
          last (at ∙ sym (get_or-append_last s.pushed item blank))
  ]

  publish-IsValid :
      (item : A)
      → length s.pushed < v.seen_popped + 2 ^ k
      → get_or s.ring.slots (length s.pushed % 2 ^ k) blank ≡ item
      → IsValid blank k (run_producer s (store_head item))
  unfolding run_producer Producing
  publish-IsValid item below at = record {
    seen_popped = v.seen_popped;
    seen_pushed = v.seen_pushed;
    small = v.small;
    capacity_lem = v.capacity_lem;
    mask_lem = v.mask_lem;
    slots_lem = v.slots_lem;
    head_lem =
        ap inc64 v.head_lem
        ∙ inc64_mod (length s.pushed)
        ∙ ap (λ n. n % word) (sym (length-pushed item));
    tail_lem = v.tail_lem;
    cached_tail_lem = v.cached_tail_lem;
    cached_head_lem = v.cached_head_lem;
    old_tail = v.old_tail;
    ahead = v.ahead;
    old_head = omega (arith, length-pushed item, v.old_head);
    fits = omega (arith, length-pushed item);
    held = held_more item at;
    in_order = λ i below.
        v.in_order i below
        ∙ sym
            (get_or-append_left s.pushed (item ∷ []) i blank (omega (arith, v.ahead, v.old_head)));
    producing = tt;
    consuming = still-Consuming item s.consumer v.consuming;
  }

module _ {A : Type 0} (blank : A) (k : ℕ) (s : System A) (v : IsValid blank k s) where
  load-IsValid : (item : A) (drops : Bool) → IsValid blank k (run_producer s (load_tail item drops))
  unfolding run_producer Producing
  load-IsValid item drops =
      let ring = record (s.ring) { cached_tail = s.ring.tail } in
      let s' = record s { ring = ring; producer = resting } in
      let v' = look blank k s v in
      elim (Bool-cases (looks_full ring)) [
        | inl full ↦
            rw full
              (elim drops
                as (λ b.
                  IsValid blank k (record s' { producer = if b then count_drop else resting })) [
                    | true ↦ turn_producer blank k s' v' count_drop tt
                    | false ↦ turn_producer blank k s' v' resting tt
                  ])
        | inr spare ↦
            rw spare (turn_producer blank k s' v' (write_slot item) (room blank k s' v' spare))
      ]

  drop-IsValid : IsValid blank k (run_producer s count_drop)
  unfolding run_producer Producing
  drop-IsValid = record {
    seen_popped = v.seen_popped;
    seen_pushed = v.seen_pushed;
    small = v.small;
    capacity_lem = v.capacity_lem;
    mask_lem = v.mask_lem;
    slots_lem = v.slots_lem;
    head_lem = v.head_lem;
    tail_lem = v.tail_lem;
    cached_tail_lem = v.cached_tail_lem;
    cached_head_lem = v.cached_head_lem;
    old_tail = v.old_tail;
    ahead = v.ahead;
    old_head = v.old_head;
    fits = v.fits;
    held = v.held;
    in_order = v.in_order;
    producing = tt;
    consuming = v.consuming;
  }

  -- Whatever the producer does next.
  pub run_producer-IsValid :
      (p : Producer A)
      → Producing blank k s.ring (length s.pushed) v.seen_popped p
      → IsValid blank k (run_producer s p)
  unfolding Producing
  run_producer-IsValid resting h = unfold run_producer in v
  run_producer-IsValid (load_tail item drops) h = load-IsValid item drops
  run_producer-IsValid (write_slot item) h = write-IsValid blank k s v item h
  run_producer-IsValid (store_head item) (below, at) = publish-IsValid blank k s v item below at
  run_producer-IsValid count_drop h = drop-IsValid
