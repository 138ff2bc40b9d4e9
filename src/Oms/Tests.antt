-- ===== src/Oms/Tests.antt =====
-- Instances of the order manager's theorems, on a manager with one order of 100 lots.
use high_frequency_trading.Oms.Samples.{
  orders, manager, manager_in, slot_for-orders, manager-Tracked, manager_in-Tracked,
}
use high_frequency_trading.Base.{ℕ, ◌≡◌, refl, arith, ◌==◌, if◌then◌else◌}
use high_frequency_trading.Base.Int.{ℤ, pos, ◌+ℤ◌, leb_ℤ, ltb_ℤ}
use high_frequency_trading.Types.{buy, sell, limit, Order, signed_quantity}
use high_frequency_trading.Double.Whole.{whole}
use high_frequency_trading.IdIndex.{slot_for}
use high_frequency_trading.Oms.Records.{
  pending_new, is_terminal, cancel_confirmed, fill, ExecutionReport, OrderManager,
}
use high_frequency_trading.Oms.Slots.{record_at}
use high_frequency_trading.Oms.Tracking.{Tracked}
use high_frequency_trading.Oms.Reports.{apply}
use high_frequency_trading.Oms.Timeouts.{sweep_timeouts}
use high_frequency_trading.Oms.{create, request_cancel, working_exposure}
use high_frequency_trading.Oms.Creation.{create_exposure}
use high_frequency_trading.Oms.Preservation.{apply-Tracked}
use high_frequency_trading.Oms.Upkeep.{request_cancel-Tracked, sweep_timeouts-Tracked}
use high_frequency_trading.Oms.Lifecycle.{next_state, Answers, apply-next_state}

abbrev execution : ExecutionReport ℤ
execution = record {
  cl_ord_id = 1;
  venue_order_id = 9;
  symbol = 0;
  side = buy;
  type = fill;
  price = pos 10000;
  quantity = pos 20;
  fee = pos 1;
  ts_ns = pos 500;
}

apply-Tracked_example : Tracked ⦃d = whole⦄ (apply ⦃d = whole⦄ manager execution).0
apply-Tracked_example = apply-Tracked ⦃d = whole⦄ manager execution manager-Tracked

request_cancel-Tracked_example :
    Tracked ⦃d = whole⦄ (request_cancel ⦃d = whole⦄ manager 1 (pos 600)).0
request_cancel-Tracked_example =
    request_cancel-Tracked ⦃d = whole⦄ manager 1 (pos 600) manager-Tracked

-- The order, entered at time 0 and never acknowledged, is overdue after 1000 nanoseconds.
abbrev waiting : OrderManager ℤ
waiting = manager_in pending_new

waiting-Tracked : Tracked ⦃d = whole⦄ waiting
unfolding is_terminal
waiting-Tracked = manager_in-Tracked pending_new refl

sweep_timeouts-Tracked_example :
    Tracked ⦃d = whole⦄ (sweep_timeouts ⦃d = whole⦄ waiting (pos 5000)).0
sweep_timeouts-Tracked_example =
    sweep_timeouts-Tracked ⦃d = whole⦄ waiting (pos 5000) waiting-Tracked

abbrev slot : ℕ
slot = slot_for orders 1

-- The venue's confirmation that the same order is cancelled, which has no quantity.
abbrev confirmation : ExecutionReport ℤ
confirmation = record execution {
  type = cancel_confirmed;
  price = pos 0;
  quantity = pos 0;
  fee = pos 0;
}

apply-next_state_example :
    Answers ⦃d = whole⦄
      (apply ⦃d = whole⦄ manager confirmation)
      slot
      (record_at ⦃d = whole⦄ manager slot).state
      (next_state
        (record_at ⦃d = whole⦄ manager slot).state
        cancel_confirmed
        (leb_ℤ
          (record_at ⦃d = whole⦄ manager slot).quantity
          ((record_at ⦃d = whole⦄ manager slot).filled +ℤ pos 0))
        (ltb_ℤ (pos 0) (record_at ⦃d = whole⦄ manager slot).filled))
apply-next_state_example =
    apply-next_state ⦃d = whole⦄ manager confirmation
      (λ e. absurd (ground (arith, slot_for-orders 1))) (ground (arith, slot_for-orders 1))

abbrev sale : Order
sale = record {
  id = 0;
  symbol = 0;
  side = sell;
  type = limit;
  price = pos 10000;
  quantity = pos 25;
  created_ts_ns = pos 0;
}

create_exposure_example :
    let (after, id) = create ⦃d = whole⦄ manager sale (pos 700) in
    working_exposure ⦃d = whole⦄ after 0 ≡ (
      if id == 0
      then working_exposure ⦃d = whole⦄ manager 0
      else (if 0 == 0
          then working_exposure ⦃d = whole⦄ manager 0 +ℤ signed_quantity sell (pos 25)
          else working_exposure ⦃d = whole⦄ manager 0))
create_exposure_example =
    create_exposure ⦃d = whole⦄ manager sale (pos 700) (omega arith, omega arith) 0
