-- ===== src/Ring/Popping.antt =====
-- The consumer's actions on the queue of cpp/include/hft/ring_buffer.hpp and its invariant.
use Prim.Native.Nat.{bit_and}
use high_frequency_trading.Base.{
  ℕ, ◌+◌, ◌%◌, ◌<◌, ◌≡◌, sym, ap, ◌∙◌, inl, inr, false, [], ◌∷◌, ◌++◌, arith, get_or, length, word,
  inc64, ltb, ltb→lt, ltb→ge, Bool-cases, length-append, get_or-append_left, get_or-append_last,
  subst,
}
use high_frequency_trading.Ring.{
  Consumer, waiting, load_head, read_slot, store_tail, System, looks_empty, begin_pop, run_consumer,
}
use high_frequency_trading.Ring.Wrap.{slot_index, inc64_mod}
use high_frequency_trading.Ring.Invariant.{IsValid, Producing, Consuming}

module _ {A : Type 0} (blank : A) (k : ℕ) (s : System A) (v : IsValid blank k s) where
  -- The consumer's state may be replaced by one that knows what is so.
  turn_consumer :
      (c : Consumer A)
      → Consuming blank s.pushed (length s.popped) v.seen_pushed c
      → IsValid blank k (record s { consumer = c })
  turn_consumer c h = record {
    seen_popped = v.seen_popped;
    seen_pushed = v.seen_pushed;
    small = v.small;
    capacity_lem = v.capacity_lem;
    mask_lem = v.mask_lem;
    slots_lem = v.slots_lem;
    head_lem = v.head_lem;
    tail_lem = v.tail_lem;
    cached_tail_lem = v.cached_tail_lem;
    cached_head_lem = v.cached_head_lem;
    old_tail = v.old_tail;
    ahead = v.ahead;
    old_head = v.old_head;
    fits = v.fits;
    held = v.held;
    in_order = v.in_order;
    producing = v.producing;
    consuming = h;
  }

  -- A queue that does not look empty has a value.
  nonempty : looks_empty s.ring ≡ false → length s.popped < v.seen_pushed
  nonempty h = elim (Bool-cases (ltb (length s.popped) v.seen_pushed)) [
    | inl less ↦ ltb→lt (length s.popped) v.seen_pushed less
    | inr more ↦
        let same : length s.popped ≡ v.seen_pushed =
          omega (arith, ltb→ge (length s.popped) v.seen_pushed more, v.ahead) in
        let equal : s.ring.tail ≡ s.ring.cached_head =
          v.tail_lem ∙ ap (λ n. n % word) same ∙ sym v.cached_head_lem in
        absurd (ground arith)
  ]

  pub begin_pop-IsValid : IsValid blank k (begin_pop s)
  unfolding begin_pop Consuming
  begin_pop-IsValid = elim (Bool-cases (looks_empty s.ring)) [
    | inl empty ↦ rw empty (turn_consumer load_head tt)
    | inr some_left ↦ rw some_left (turn_consumer read_slot (nonempty some_left))
  ]

  -- The load of the producer's index.
  look_ahead :
      IsValid blank k
        (record s { ring = record (s.ring) { cached_head = s.ring.head }; consumer = waiting })
  unfolding Consuming Producing
  look_ahead = record {
    seen_popped = v.seen_popped;
    seen_pushed = length s.pushed;
    small = v.small;
    capacity_lem = v.capacity_lem;
    mask_lem = v.mask_lem;
    slots_lem = v.slots_lem;
    head_lem = v.head_lem;
    tail_lem = v.tail_lem;
    cached_tail_lem = v.cached_tail_lem;
    cached_head_lem = v.head_lem;
    old_tail = v.old_tail;
    ahead = omega (arith, v.ahead, v.old_head);
    old_head = omega arith;
    fits = v.fits;
    held = v.held;
    in_order = v.in_order;
    producing = v.producing;
    consuming = tt;
  }

  read-IsValid : length s.popped < v.seen_pushed → IsValid blank k (run_consumer blank s read_slot)
  unfolding run_consumer Consuming
  read-IsValid below =
      turn_consumer (store_tail (get_or s.ring.slots (bit_and s.ring.tail s.ring.mask) blank)) (
        below,
        rw (v.tail_lem, v.mask_lem, slot_index k (length s.popped) (omega (arith, v.small)))
            (sym (v.held (length s.popped) (omega arith) (omega (arith, v.old_head)))),
      )

  length-popped : (out : A) → length (s.popped ++ (out ∷ [])) ≡ length s.popped + 1
  length-popped out = length-append s.popped (out ∷ [])

  -- The values taken out are the first that were put in, the last one among them.
  in_order_more :
      (out : A)
      → get_or s.pushed (length s.popped) blank ≡ out
      → (i : ℕ) → i < length (s.popped ++ (out ∷ []))
      → get_or (s.popped ++ (out ∷ [])) i blank ≡ get_or s.pushed i blank
  in_order_more out at i hi = elim (Bool-cases (ltb i (length s.popped))) [
    | inl old ↦
        get_or-append_left s.popped (out ∷ []) i blank (ltb→lt i (length s.popped) old)
        ∙ v.in_order i (ltb→lt i (length s.popped) old)
    | inr new ↦
        let last : length s.popped ≡ i =
          omega (arith, ltb→ge i (length s.popped) new, length-popped out) in
        subst (λ j. get_or (s.popped ++ (out ∷ [])) j blank ≡ get_or s.pushed j blank) last
          (get_or-append_last s.popped out blank ∙ sym at)
  ]

  release-IsValid :
      (out : A)
      → length s.popped < v.seen_pushed
      → get_or s.pushed (length s.popped) blank ≡ out
      → IsValid blank k (run_consumer blank s (store_tail out))
  unfolding run_consumer Consuming Producing
  release-IsValid out below at = record {
    seen_popped = v.seen_popped;
    seen_pushed = v.seen_pushed;
    small = v.small;
    capacity_lem = v.capacity_lem;
    mask_lem = v.mask_lem;
    slots_lem = v.slots_lem;
    head_lem = v.head_lem;
    tail_lem =
        ap inc64 v.tail_lem
        ∙ inc64_mod (length s.popped)
        ∙ ap (λ n. n % word) (sym (length-popped out));
    cached_tail_lem = v.cached_tail_lem;
    cached_head_lem = v.cached_head_lem;
    old_tail = omega (arith, length-popped out, v.old_tail);
    ahead = omega (arith, length-popped out);
    old_head = v.old_head;
    fits = v.fits;
    held = λ i lo hi. v.held i (omega (arith, length-popped out)) hi;
    in_order = in_order_more out at;
    producing = v.producing;
    consuming = tt;
  }

module _ {A : Type 0} (blank : A) (k : ℕ) (s : System A) (v : IsValid blank k s) where
  load-IsValid : IsValid blank k (run_consumer blank s load_head)
  unfolding run_consumer Consuming
  load-IsValid =
      let ring = record (s.ring) { cached_head = s.ring.head } in
      let s' = record s { ring = ring; consumer = waiting } in
      let v' = look_ahead blank k s v in
      elim (Bool-cases (looks_empty ring)) [
        | inl empty ↦ rw empty (turn_consumer blank k s' v' waiting tt)
        | inr some_left ↦
            rw some_left (turn_consumer blank k s' v' read_slot (nonempty blank k s' v' some_left))
      ]

  -- Whatever the consumer does next.
  pub run_consumer-IsValid :
      (c : Consumer A)
      → Consuming blank s.pushed (length s.popped) v.seen_pushed c
      → IsValid blank k (run_consumer blank s c)
  unfolding Consuming
  run_consumer-IsValid waiting h = unfold run_consumer in v
  run_consumer-IsValid load_head h = load-IsValid
  run_consumer-IsValid read_slot below = read-IsValid blank k s v below
  run_consumer-IsValid (store_tail out) (below, at) = release-IsValid blank k s v out below at
