-- ===== src/Risk/Throttle.antt =====
-- The throttle and the kill switch of cpp/src/risk.cpp over sequences of operations.
use high_frequency_trading.Base.{
  ℕ, ◌+◌, ◌^◌, ◌≤◌, ◌<◌, ◌≡◌, refl, ap, ◌≢◌, ◌∙◌, Bool, true, List, [], ◌∷◌, arith, if◌then◌else◌,
}
use high_frequency_trading.Base.Int.{ℤ, pos, ◌-ℤ◌, ◌<ℤ◌}
use high_frequency_trading.Types.{Order, Fill}
use high_frequency_trading.Double.{Double}
use high_frequency_trading.Risk.{
  RiskManager, HaltReason, is_halted, screen, check_rates, check, reject, accept,
  engage_kill_switch, on_fill, on_equity, roll_day, set_symbol_limit,
}

-- An order that is submitted, with its reference price and time.
pub record Submission : Type 0 where
  pub order : Order
  pub reference_price : ℤ
  pub now_ns : ℤ

-- The times of the submissions are within one second of `start`.
unfoldable pub WithinSecond : ℤ → List Submission → Type 0
WithinSecond start [] = Unit {0}
WithinSecond start (s ∷ ss) = (s.now_ns -ℤ start <ℤ pos 1000000000) × WithinSecond start ss

module _ {D : Type 0} ⦃d : Double D⦄ where
  -- How many of the submissions are accepted, one after the other.
  unfoldable pub count_accepted : RiskManager D → List Submission → ℕ
  count_accepted r [] = 0
  count_accepted r (s ∷ ss) =
      let (after, decision) = check r s.order s.reference_price s.now_ns in
      (if decision.accepted then 1 else 0) + count_accepted after ss

  -- The throttle's window stays as it is, with one more order in it if one is accepted.
  record Counted (before after : RiskManager D) (accepted : Bool) : Type 0 where
    same_limits : after.limits ≡ before.limits
    same_start : after.window_start_ns ≡ before.window_start_ns
    counted : (if accepted then 1 else 0) + before.window_orders ≡ after.window_orders
    bounded :
        before.window_orders ≤ before.limits.max_orders_per_second
        → after.window_orders ≤ after.limits.max_orders_per_second

  check-Counted :
      (r : RiskManager D) (s : Submission)
      → r.limits.enabled ≡ true
      → r.limits.max_orders_per_second ≢ 0
      → r.limits.max_orders_per_second < 2 ^ 32
      → r.window_start_ns ≢ pos 0
      → s.now_ns -ℤ r.window_start_ns <ℤ pos 1000000000
      → let (after, decision) = check r s.order s.reference_price s.now_ns in
        Counted r after decision.accepted
  unfolding check check_rates reject accept engage_kill_switch
  check-Counted r s enabled throttled fits opened soon = record {
    same_limits = ground arith;
    same_start = ground arith;
    counted = ground arith;
    bounded = ground arith;
  }

  -- With the limits enabled and a limit on orders per second, of 32 bits: from a throttle whose
  -- window is open and not over the limit, whatever is submitted within one second of the window's
  -- start, however often, the orders in the window before and those accepted now are together no
  -- more than the limit.
  pub count_accepted_bounded :
      (r : RiskManager D) (ss : List Submission)
      → r.limits.enabled ≡ true
      → r.limits.max_orders_per_second ≢ 0
      → r.limits.max_orders_per_second < 2 ^ 32
      → r.window_orders ≤ r.limits.max_orders_per_second
      → r.window_start_ns ≢ pos 0
      → WithinSecond r.window_start_ns ss
      → r.window_orders + count_accepted r ss ≤ r.limits.max_orders_per_second
  unfolding count_accepted WithinSecond
  count_accepted_bounded r [] enabled throttled fits below opened soon = omega arith
  count_accepted_bounded r (s ∷ ss) enabled throttled fits below opened (soon, later) =
      let c = check-Counted r s enabled throttled fits opened soon in
      let after = (check r s.order s.reference_price s.now_ns).0 in
      let rest =
        count_accepted_bounded after ss (rw c.same_limits enabled) (rw c.same_limits throttled)
          (rw c.same_limits fits) (c.bounded below) (rw c.same_start opened)
          (rw c.same_start later) in
      omega (arith, c.counted, rest, ap (λ l. l.max_orders_per_second) c.same_limits)

-- What happens to a manager between two releases of its kill switch.
pub data Operation (D : Type 0) : Type 0 where
  submit : Submission → Operation D
  fill : Fill D → Operation D
  equity : D → Operation D
  halt : HaltReason → Operation D
  new_day : Operation D
  tighten : ℕ → ℤ → Operation D

module _ {D : Type 0} ⦃d : Double D⦄ where
  unfoldable pub perform : RiskManager D → Operation D → RiskManager D
  perform r (submit s) = (check r s.order s.reference_price s.now_ns).0
  perform r (fill f) = on_fill r f
  perform r (equity e) = on_equity r e
  perform r (halt reason) = engage_kill_switch r reason
  perform r new_day = roll_day r
  perform r (tighten symbol max_position) = set_symbol_limit r symbol max_position

  unfoldable pub perform_all : RiskManager D → List (Operation D) → RiskManager D
  perform_all r [] = r
  perform_all r (o ∷ os) = perform_all (perform r o) os

  -- What no operation changes while the manager is halted.
  record Frozen (before after : RiskManager D) : Type 0 where
    same_reason : after.halt_reason ≡ before.halt_reason
    same_accepted : after.accepted ≡ before.accepted
    same_enabled : after.limits.enabled ≡ before.limits.enabled

  perform-Frozen :
      (r : RiskManager D) (o : Operation D)
      → r.limits.enabled ≡ true
      → is_halted r.halt_reason ≡ true
      → Frozen r (perform r o)
  unfolding perform check screen reject on_fill on_equity engage_kill_switch roll_day
      set_symbol_limit
  perform-Frozen r (submit s) enabled halted = record {
    same_reason = ground arith;
    same_accepted = ground arith;
    same_enabled = ground arith;
  }
  perform-Frozen r (fill f) enabled halted = record {
    same_reason = ground arith;
    same_accepted = ground arith;
    same_enabled = ground arith;
  }
  perform-Frozen r (equity e) enabled halted = record {
    same_reason = ground arith;
    same_accepted = ground arith;
    same_enabled = ground arith;
  }
  perform-Frozen r (halt reason) enabled halted = record {
    same_reason = ground arith;
    same_accepted = ground arith;
    same_enabled = ground arith;
  }
  perform-Frozen r new_day enabled halted = record {
    same_reason = refl;
    same_accepted = refl;
    same_enabled = refl;
  }
  perform-Frozen r (tighten symbol max_position) enabled halted = record {
    same_reason = refl;
    same_accepted = refl;
    same_enabled = refl;
  }

  -- The kill switch is sticky: with the limits enabled, once it is engaged, no submission, fill,
  -- mark of equity, further halt, new day or new ceiling, in any order and number, changes the
  -- reason that was recorded first, and no order is accepted.
  pub perform_all_halted :
      (r : RiskManager D) (os : List (Operation D))
      → r.limits.enabled ≡ true
      → is_halted r.halt_reason ≡ true
      → ((perform_all r os).halt_reason ≡ r.halt_reason)
        × ((perform_all r os).accepted ≡ r.accepted)
  unfolding perform_all
  perform_all_halted r [] enabled halted = (refl, refl)
  perform_all_halted r (o ∷ os) enabled halted =
      let f = perform-Frozen r o enabled halted in
      let (reason, accepted) =
        perform_all_halted (perform r o) os (rw f.same_enabled enabled) (rw f.same_reason halted) in
      (reason ∙ f.same_reason, accepted ∙ f.same_accepted)
