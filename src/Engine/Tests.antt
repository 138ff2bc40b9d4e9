-- ===== src/Engine/Tests.antt =====
-- Instances of the theorems on an order's way through the engine and on its fill, with 40 lots
-- held.
use high_frequency_trading.Base.{◌≡◌, refl, true, [], ◌∷◌, arith, ap, sym, subst}
use high_frequency_trading.Base.Int.{ℤ, pos, ◌+ℤ◌, ◌-ℤ◌, ◌*ℤ◌, ◌≤ℤ◌, abs}
use high_frequency_trading.Types.{buy, market, Order, Fill, signed_quantity}
use high_frequency_trading.Double.Whole.{whole, quotient}
use high_frequency_trading.IdIndex.{slot_for, walk, mix}
use high_frequency_trading.Risk.{
  RiskLimits, make, on_fill, check, screen, check_rates, reject, accept, position, symbol_limit,
  projected, projected_gross, notional, outside_collar,
}
use high_frequency_trading.Oms as Orders
use high_frequency_trading.Oms.Slots.{index_init, index_size, double_until, record_at}
use high_frequency_trading.Oms.Samples.{orders, lots, manager, slot_for-orders, manager-Tracked}
use high_frequency_trading.Oms.Records.{fill, is_terminal, ExecutionReport}
use high_frequency_trading.Oms.Reports.{apply}
use high_frequency_trading.Engine.Fills.{apply-on_fill}
use high_frequency_trading.Engine.{Desk, sent, source_of, attached, process_order}
use high_frequency_trading.Engine.Exposure.{process_order_bounded}

abbrev limits : RiskLimits ℤ
limits = record {
  max_order_quantity = pos 100;
  max_order_notional = pos 100000;
  max_position_per_symbol = pos 90;
  max_gross_position = pos 200;
  price_collar_bps = pos 500;
  max_orders_per_second = 2;
  max_daily_orders = 10;
  max_drawdown = pos 1000;
  enabled = true;
}

abbrev desk : Desk ℤ
desk = record {
  risk = record (make ⦃d = whole⦄ limits) { positions = pos 40 ∷ []; gross_position = pos 40 };
  oms =
      Orders.empty_with ⦃d = whole⦄
        (record { ack_timeout_ns = pos 1000; max_open_orders = 1; retired_history = 1 }) 2;
}

abbrev order : Order
order = record {
  id = 5;
  symbol = 0;
  side = buy;
  type = market;
  price = pos 10000;
  quantity = pos 30;
  created_ts_ns = pos 0;
}

order_sent : (process_order ⦃d = whole⦄ desk order (pos 10000) (pos 1) (pos 2)).1 ≡ sent 1
unfolding process_order check screen check_rates accept reject position symbol_limit projected
    projected_gross notional outside_collar source_of attached make Orders.empty_with Orders.create
    Orders.create_with_id Orders.install_in Orders.alloc_slot Orders.working_exposure
    Orders.gross_working_exposure slot_for walk mix index_init index_size double_until
    signed_quantity quotient ◌+ℤ◌ ◌-ℤ◌ ◌*ℤ◌
order_sent = refl

process_order_bounded_example :
    let after = (process_order ⦃d = whole⦄ desk order (pos 10000) (pos 1) (pos 2)).0 in
    abs (position after.risk 0 +ℤ Orders.working_exposure ⦃d = whole⦄ after.oms 0)
    ≤ℤ symbol_limit after.risk 0
unfolding make Orders.empty_with
process_order_bounded_example =
    process_order_bounded ⦃d = whole⦄ desk order (pos 10000) (pos 1) (pos 2) 1 refl
      (omega arith, omega arith) order_sent

abbrev execution : ExecutionReport ℤ
execution = record {
  cl_ord_id = 1;
  venue_order_id = 9;
  symbol = 0;
  side = buy;
  type = fill;
  price = pos 10000;
  quantity = pos 70;
  fee = pos 1;
  ts_ns = pos 500;
}

abbrev same_fill : Fill ℤ
same_fill = record {
  order_id = 9;
  symbol = 0;
  side = buy;
  price = pos 10000;
  quantity = pos 70;
  fee = pos 1;
  filled_ts_ns = pos 500;
}

first_slot : slot_for orders 1 ≡ 0
first_slot = slot_for-orders 1

first_record : record_at ⦃d = whole⦄ manager (slot_for orders 1) ≡ lots
first_record = ap (λ i. record_at ⦃d = whole⦄ manager i) first_slot

apply-on_fill_example :
    position (on_fill desk.risk same_fill) 0
      +ℤ Orders.working_exposure ⦃d = whole⦄ (apply ⦃d = whole⦄ manager execution).0 0
    ≡ position desk.risk 0 +ℤ Orders.working_exposure ⦃d = whole⦄ manager 0
unfolding is_terminal
apply-on_fill_example =
    apply-on_fill ⦃d = whole⦄ manager desk.risk execution same_fill 0 (manager-Tracked.booked) refl
      (λ e. absurd (ground (arith, first_slot))) (ground (arith, first_slot))
      (ap (λ r. is_terminal r.state) first_record) (omega arith)
      (subst (λ r. pos 70 ≤ℤ r.leaves) (sym first_record) (omega arith))
      (sym (ap (λ r. r.symbol) first_record)) (sym (ap (λ r. r.side) first_record)) refl
