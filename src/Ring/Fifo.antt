-- ===== src/Ring/Fifo.antt =====
-- The queue of cpp/include/hft/ring_buffer.hpp as a bounded FIFO, over runs of its two threads.
use native.Mathlib.Nat.{pow-suc, pow-le-pow_right}
use high_frequency_trading.Base.{
  ℕ, zero, suc, ◌+◌, ◌-◌, ◌*◌, ◌%◌, ◌^◌, ◌≤◌, ◌<◌, ◌≡◌, ◌↔◌, refl, sym, ap, ◌∙◌, ◌⊎◌, inl, inr,
  true, List, [], ◌∷◌, ◌++◌, arith, length, word, ltb, ltb→lt, ltb→ge, lt→ltb, ==_iff, Bool-cases,
  length-append, length-replicate, prefix_of_get_or,
}
use high_frequency_trading.Ring.{
  resting, load_tail, write_slot, store_head, count_drop, waiting, load_head, read_slot, store_tail,
  System, Action, call_push, producer_runs, call_pop, consumer_runs, double_below, round_up_pow2,
  make, looks_full, looks_empty, begin_push, begin_pop, run_producer, run_consumer, act, run,
}
use high_frequency_trading.Ring.Wrap.{capacity_small, same_index}
use high_frequency_trading.Ring.Invariant.{IsValid, Producing, Consuming}
use high_frequency_trading.Ring.Pushing.{looks_full_lem, begin_push-IsValid, run_producer-IsValid}
use high_frequency_trading.Ring.Popping.{begin_pop-IsValid, run_consumer-IsValid}

double_below_step :
    (fuel n p : ℕ)
    → ltb p n ≡ true
    → double_below (suc fuel) n p ≡ double_below fuel n (p * 2 % word)
unfolding double_below
double_below_step fuel n p h = rw (h, double_below) refl

-- Doubling from a power of two, with the fuel that a size_t needs, reaches the number.
double_below_pow :
    (fuel n e : ℕ)
    → e + fuel ≡ 64
    → e < 64
    → n ≤ 2 ^ 63
    → (m : ℕ) × (m < 64)
      × (double_below fuel n (2 ^ e) ≡ 2 ^ m)
      × (n ≤ 2 ^ m)
      × ((m ≡ e) ⊎ (2 ^ m < 2 * n))
unfolding double_below
double_below_pow zero n e f small fits = absurd (omega arith)
double_below_pow (suc fuel) n e f small fits = elim (Bool-cases (ltb (2 ^ e) n)) [
  | inr reached ↦ (e, small, rw (reached, double_below) refl, ltb→ge (2 ^ e) n reached, inl refl)
  | inl short ↦
      let early : e < 63 = elim (Bool-cases (ltb e 63)) [
        | inl less ↦ ltb→lt e 63 less
        | inr more ↦
            let top : 2 ^ 63 ≤ 2 ^ e = pow-le-pow_right (omega arith) (ltb→ge e 63 more) in
            absurd (omega (arith, top, ltb→lt (2 ^ e) n short))
      ] in
      let doubled : 2 ^ e * 2 % word ≡ 2 ^ suc e =
        omega (arith, pow-suc 2 e, capacity_small (suc e) (omega arith)) in
      let (m, m_small, result, above, least) =
        double_below_pow fuel n (suc e) (omega arith) (omega arith) fits in
      (
        m,
        m_small,
        double_below_step fuel n (2 ^ e) short ∙ ap (double_below fuel n) doubled ∙ result,
        above,
        inr (elim least [
          | inl same ↦ omega (arith, ap (λ x. 2 ^ x) same, pow-suc 2 e, ltb→lt (2 ^ e) n short)
          | inr below ↦ below
        ]),
      )
]

-- A capacity of at most 2 ^ 63 is rounded up to the least power of two that holds it, and to 2 at
-- least.
pub round_up_pow2_lem :
    (n : ℕ)
    → n ≤ 2 ^ 63
    → (k : ℕ) × (k < 64) × (round_up_pow2 n ≡ 2 ^ k) × (n ≤ 2 ^ k) × ((2 ^ k ≡ 2) ⊎ (2 ^ k < 2 * n))
unfolding round_up_pow2
round_up_pow2_lem n fits = elim (Bool-cases (ltb n 2)) [
  | inl tiny ↦ (1, omega arith, rw tiny refl, omega (arith, ltb→lt n 2 tiny), inl refl)
  | inr large ↦
      let (m, small, result, above, least) = double_below_pow 64 n 0 refl (omega arith) fits in
      let bounded : 2 ^ m < 2 * n = elim least [
        | inl zeroth ↦ absurd (omega (arith, ap (λ x. 2 ^ x) zeroth, ltb→ge n 2 large))
        | inr below ↦ below
      ] in
      (m, small, rw large result, above, inr bounded)
]

module _ {A : Type 0} (blank : A) where
  -- Any action of either thread keeps the invariant.
  act-IsValid :
      (k : ℕ) (s : System A) (a : Action A) → IsValid blank k s → IsValid blank k (act blank s a)
  unfolding act
  act-IsValid k s (call_push item drops) v =
      elim s.producer
        as (λ p. IsValid blank k (elim p [ resting ↦ begin_push s item drops | _ ↦ s ])) [
          | resting ↦ begin_push-IsValid blank k s v item drops
          | load_tail i d ↦ v
          | write_slot i ↦ v
          | store_head i ↦ v
          | count_drop ↦ v
        ]
  act-IsValid k s producer_runs v = run_producer-IsValid blank k s v s.producer v.producing
  act-IsValid k s call_pop v =
      elim s.consumer as (λ c. IsValid blank k (elim c [ waiting ↦ begin_pop s | _ ↦ s ])) [
        | waiting ↦ begin_pop-IsValid blank k s v
        | load_head ↦ v
        | read_slot ↦ v
        | store_tail o ↦ v
      ]
  act-IsValid k s consumer_runs v = run_consumer-IsValid blank k s v s.consumer v.consuming

  run-IsValid :
      (k : ℕ) (s : System A) (actions : List (Action A))
      → IsValid blank k s
      → IsValid blank k (run blank s actions)
  unfolding run
  run-IsValid k s [] v = v
  run-IsValid k s (a ∷ actions) v = run-IsValid k (act blank s a) actions (act-IsValid k s a v)

  make-IsValid : (n k : ℕ) → k < 64 → round_up_pow2 n ≡ 2 ^ k → IsValid blank k (make blank n)
  unfolding make Producing Consuming
  make-IsValid n k small size = record {
    seen_popped = 0;
    seen_pushed = 0;
    small = small;
    capacity_lem = size;
    mask_lem = ap (λ c. c - 1) size;
    slots_lem = length-replicate (round_up_pow2 n) blank ∙ size;
    head_lem = refl;
    tail_lem = refl;
    cached_tail_lem = refl;
    cached_head_lem = refl;
    old_tail = omega arith;
    ahead = omega arith;
    old_head = omega arith;
    fits = omega arith;
    held = λ i lo hi. absurd (omega arith);
    in_order = λ i hi. absurd (omega arith);
    producing = tt;
    consuming = tt;
  }

  act_capacity : (s : System A) (a : Action A) → (act blank s a).ring.capacity ≡ s.ring.capacity
  unfolding act begin_push run_producer begin_pop run_consumer
  act_capacity s (call_push item drops) = ground arith
  act_capacity s producer_runs = ground arith
  act_capacity s call_pop = ground arith
  act_capacity s consumer_runs = ground arith

  run_capacity :
      (s : System A) (actions : List (Action A))
      → (run blank s actions).ring.capacity ≡ s.ring.capacity
  unfolding run
  run_capacity s [] = refl
  run_capacity s (a ∷ actions) = run_capacity (act blank s a) actions ∙ act_capacity s a

  -- In every interleaving of the producer's and the consumer's actions, of any length, from a new
  -- queue whose capacity was asked for as at most 2 ^ 63: what the consumer took out is, in order,
  -- the first part of what the producer put in, and the rest is no longer than the capacity.
  pub run-fifo :
      (n : ℕ) (actions : List (Action A))
      → n ≤ 2 ^ 63
      → let s = run blank (make blank n) actions in
        (rest : List A) × (s.pushed ≡ s.popped ++ rest) × (length rest ≤ round_up_pow2 n)
  run-fifo n actions fits =
      let s = run blank (make blank n) actions in
      let (k, small, size, _, _) = round_up_pow2_lem n fits in
      let v = run-IsValid k (make blank n) actions (make-IsValid n k small size) in
      let (rest, e) =
        prefix_of_get_or s.popped s.pushed blank (omega (arith, v.ahead, v.old_head)) v.in_order in
      let total : length s.pushed ≡ length s.popped + length rest =
        ap length e ∙ length-append s.popped rest in
      (rest, e, omega (arith, total, v.fits, v.old_tail, size))

  -- In every interleaving from a new queue, whose capacity was asked for as at most 2 ^ 63, the
  -- producer's test after a load of the consumer's index is exact: the queue looks full exactly
  -- when it holds as many values as its capacity.
  pub run-full :
      (n : ℕ) (actions : List (Action A))
      → n ≤ 2 ^ 63
      → let s = run blank (make blank n) actions in
        (looks_full (record (s.ring) { cached_tail = s.ring.tail }) ≡ true)
        ↔ (length s.pushed ≡ length s.popped + round_up_pow2 n)
  run-full n actions fits =
      let s = run blank (make blank n) actions in
      let (k, small, size, _, _) = round_up_pow2_lem n fits in
      let v = run-IsValid k (make blank n) actions (make-IsValid n k small size) in
      let exact =
        looks_full_lem (record (s.ring) { cached_tail = s.ring.tail }) k (length s.pushed)
          (length s.popped) small v.capacity_lem v.head_lem v.tail_lem
          (omega (arith, v.ahead, v.old_head)) (omega (arith, v.fits, v.old_tail)) in
      (
        λ full. omega (
          arith,
          ltb→lt (2 ^ k) (length s.pushed + 1 - length s.popped) (sym exact ∙ full),
          v.fits,
          v.old_tail,
          size,
        ),
        λ equal.
            exact ∙ lt→ltb (2 ^ k) (length s.pushed + 1 - length s.popped) (omega (arith, size)),
      )

  -- In every interleaving from a new queue, whose capacity was asked for as at most 2 ^ 63, the
  -- consumer's test after a load of the producer's index is exact: the queue looks empty exactly
  -- when all that was put in was taken out.
  pub run-empty :
      (n : ℕ) (actions : List (Action A))
      → n ≤ 2 ^ 63
      → let s = run blank (make blank n) actions in
        (looks_empty (record (s.ring) { cached_head = s.ring.head }) ≡ true)
        ↔ (length s.pushed ≡ length s.popped)
  run-empty n actions fits =
      let s = run blank (make blank n) actions in
      let (k, small, size, _, _) = round_up_pow2_lem n fits in
      let v = run-IsValid k (make blank n) actions (make-IsValid n k small size) in
      (
        λ empty. sym (
            same_index (length s.popped) (length s.pushed) (omega (arith, v.ahead, v.old_head))
              (omega (arith, v.fits, v.old_tail, capacity_small k small))
              (sym v.tail_lem ∙ (==_iff s.ring.tail s.ring.head).0 empty ∙ v.head_lem)),
        λ equal.
            (==_iff s.ring.tail s.ring.head).1
              (v.tail_lem ∙ ap (λ c. c % word) (sym equal) ∙ sym v.head_lem),
      )
