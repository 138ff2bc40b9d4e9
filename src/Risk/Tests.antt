-- ===== src/Risk/Tests.antt =====
-- Instances of the theorems on the risk checks, on a manager with a position of 40.
use high_frequency_trading.Base.{
  ℕ, ◌+◌, ◌≡◌, refl, ◌↔◌, ◌≤◌, true, false, List, [], ◌∷◌, arith, ◌==◌, if◌then◌else◌,
}
use high_frequency_trading.Base.Int.{ℤ, pos, ◌+ℤ◌, ◌-ℤ◌, leb_ℤ, min_ℤ}
use high_frequency_trading.Types.{buy, sell, limit, Order, Fill, signed_quantity}
use high_frequency_trading.Double.Whole.{whole}
use high_frequency_trading.Risk.{
  invalid_order, manual, RiskLimits, RiskManager, make, check, position, symbol_limit,
  set_symbol_limit, on_fill,
}
use high_frequency_trading.Risk.Limits.{
  InLimits, InRates, check-accepted, check_not_positive, symbol_limit-set_symbol_limit,
}
use high_frequency_trading.Risk.Positions.{total, position-on_fill, on_fill-total}
use high_frequency_trading.Risk.Throttle.{
  Submission, WithinSecond, count_accepted, count_accepted_bounded, Operation, submit, fill,
  new_day, perform_all, perform_all_halted,
}

abbrev limits : RiskLimits ℤ
limits = record {
  max_order_quantity = pos 100;
  max_order_notional = pos 100000;
  max_position_per_symbol = pos 90;
  max_gross_position = pos 200;
  price_collar_bps = pos 500;
  max_orders_per_second = 2;
  max_daily_orders = 10;
  max_drawdown = pos 1000;
  enabled = true;
}

abbrev manager : RiskManager ℤ
manager = record (make ⦃d = whole⦄ limits) {
  positions = pos 40 ∷ [];
  gross_position = pos 40;
  window_start_ns = pos 100;
}

abbrev order_for : ℤ → Order
order_for quantity = record {
  id = 1;
  symbol = 0;
  side = buy;
  type = limit;
  price = pos 10000;
  quantity = quantity;
  created_ts_ns = pos 0;
}

abbrev fill_of : ℤ → Fill ℤ
fill_of quantity = record {
  order_id = 1;
  symbol = 0;
  side = sell;
  price = pos 10000;
  quantity = quantity;
  fee = pos 0;
  filled_ts_ns = pos 0;
}

abbrev submission_at : ℕ → Submission
submission_at now = record {
  order = order_for (pos 30);
  reference_price = pos 10000;
  now_ns = pos now;
}

check-accepted_example :
    ((check ⦃d = whole⦄ manager (order_for (pos 30)) (pos 10000) (pos 200)).1.accepted ≡ true) ↔ (
      InLimits ⦃d = whole⦄ manager (order_for (pos 30)) (pos 10000)
      × InRates ⦃d = whole⦄ manager (pos 200))
unfolding make
check-accepted_example =
    check-accepted ⦃d = whole⦄ manager (order_for (pos 30)) (pos 10000) (pos 200) refl (omega arith)

check_not_positive_example :
    (check ⦃d = whole⦄ manager (order_for (pos 0)) (pos 10000) (pos 200)).1
    ≡ record { accepted = false; reason = invalid_order }
check_not_positive_example =
    check_not_positive ⦃d = whole⦄ manager (order_for (pos 0)) (pos 10000) (pos 200) (omega arith)

symbol_limit-set_symbol_limit_example : symbol_limit (set_symbol_limit manager 3 (pos 50)) 3 ≡ (
    if 3 == 3
    then (if leb_ℤ (pos 50) (pos 0)
        then manager.limits.max_position_per_symbol
        else min_ℤ (pos 50) manager.limits.max_position_per_symbol)
    else symbol_limit manager 3)
symbol_limit-set_symbol_limit_example = symbol_limit-set_symbol_limit manager 3 3 (pos 50)

position-on_fill_example : position (on_fill manager (fill_of (pos 60))) 0 ≡ (
    if leb_ℤ (pos 60) (pos 0)
    then position manager 0
    else (if 0 == 0
        then position manager 0 +ℤ signed_quantity sell (pos 60)
        else position manager 0))
position-on_fill_example = position-on_fill manager (fill_of (pos 60)) 0

on_fill-total_example :
    (on_fill manager (fill_of (pos 60))).gross_position
    ≡ total (on_fill manager (fill_of (pos 60))).positions
unfolding make total ◌+ℤ◌
on_fill-total_example = on_fill-total manager (fill_of (pos 60)) refl

abbrev burst : List Submission
burst = submission_at 200 ∷ submission_at 300 ∷ submission_at 400 ∷ []

count_accepted_bounded_example :
    manager.window_orders + count_accepted ⦃d = whole⦄ manager burst
    ≤ manager.limits.max_orders_per_second
unfolding make WithinSecond ◌-ℤ◌
count_accepted_bounded_example =
    count_accepted_bounded ⦃d = whole⦄ manager burst refl (omega arith) (omega arith) (omega arith)
      (λ e. absurd (ground arith)) (ground arith, (ground arith, (ground arith, tt)))

abbrev halted_manager : RiskManager ℤ
halted_manager = record manager { halt_reason = manual }

abbrev after_halt : List (Operation ℤ)
after_halt = submit (submission_at 200) ∷ fill (fill_of (pos 5)) ∷ new_day ∷ []

perform_all_halted_example :
    ((perform_all ⦃d = whole⦄ halted_manager after_halt).halt_reason ≡ halted_manager.halt_reason)
    × ((perform_all ⦃d = whole⦄ halted_manager after_halt).accepted ≡ halted_manager.accepted)
unfolding make
perform_all_halted_example = perform_all_halted ⦃d = whole⦄ halted_manager after_halt refl refl
