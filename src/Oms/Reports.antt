-- ===== src/Oms/Reports.antt =====
-- OrderManager::apply (cpp/src/oms.cpp): one execution report from the venue.
use high_frequency_trading.Base.{
  ℕ, Bool, true, false, not, ◌&&◌, ◌||◌, ◌==◌, ltb, if◌then◌else◌, inc64,
}
use high_frequency_trading.Base.Int.{ℤ, pos, ◌+ℤ◌, ◌-ℤ◌, neg, min_ℤ, ltb_ℤ, leb_ℤ, eqb_ℤ}
use high_frequency_trading.Double.{Double, price_to_double}
use high_frequency_trading.IdIndex.{nil_slot, slot_for}
use high_frequency_trading.Oms.Records.{
  OrderState, pending_new, new, partially_filled, pending_cancel, filled, cancelled, rejected,
  is_terminal, ExecType, acked, venue_rejected, fill, cancel_confirmed, cancel_refused,
  ExecutionReport, OrderRecord, OrderManager,
}
use high_frequency_trading.Oms.Slots.{record_at, write_record, add_exposure, retire}

abbrev pub is_pending_new : OrderState → Bool
is_pending_new pending_new = true
is_pending_new _ = false

abbrev pub is_pending_cancel : OrderState → Bool
is_pending_cancel pending_cancel = true
is_pending_cancel _ = false

-- The states in which a cancel, asked for or not, may be confirmed.
abbrev pub is_cancellable : OrderState → Bool
is_cancellable pending_cancel = true
is_cancellable new = true
is_cancellable partially_filled = true
is_cancellable _ = false

module _ {D : Type 0} ⦃d : Double D⦄ where
  abbrev pub count_invalid : OrderManager D → OrderManager D
  count_invalid o = record o {
    stats = record (o.stats) { invalid_transitions = inc64 o.stats.invalid_transitions };
  }

  abbrev pub moved_to : OrderRecord D → OrderState → ℤ → OrderRecord D
  moved_to rec state ts_ns = record rec { state = state; last_update_ts_ns = ts_ns }

  -- The record after an execution, its state aside.
  unfoldable pub filled_record : OrderRecord D → ExecutionReport D → OrderRecord D
  filled_record rec report =
      let q = report.quantity in
      let prior = d.of_ℤ rec.filled in
      let total = rec.filled +ℤ q in
      record rec {
        avg_fill_price =
            d.div
              (d.add (d.mul rec.avg_fill_price prior)
                (d.mul (price_to_double report.price) (d.of_ℤ q)))
              (d.add prior (d.of_ℤ q));
        filled = total;
        leaves = if ltb_ℤ total rec.quantity then rec.quantity -ℤ total else pos 0;
        fees = d.add rec.fees report.fee;
        last_update_ts_ns = report.ts_ns;
      }

  -- The end of the case: a done order is retired, another one stays or becomes partly filled.
  unfoldable pub finish_fill : OrderManager D → ℕ → OrderRecord D → OrderManager D
  finish_fill o slot rec =
      let done = record (write_record o slot (record rec { state = filled })) {
        stats = record (o.stats) { filled_orders = inc64 o.stats.filled_orders };
      } in
      if eqb_ℤ rec.leaves (pos 0)
      then retire done slot
      else if is_pending_cancel rec.state
      then write_record o slot rec
      else write_record o slot (record rec { state = partially_filled })

  -- A fill of more than the order had left is counted as an overfill too.
  unfoldable pub count_fill : OrderManager D → ℤ → ℤ → OrderManager D
  count_fill o leaves q = record o {
    stats = record (o.stats) {
      overfills = if ltb_ℤ leaves q then inc64 o.stats.overfills else o.stats.overfills;
      fills = inc64 o.stats.fills;
    };
  }

  unfoldable pub apply_fill :
      OrderManager D → ℕ → OrderRecord D → ExecutionReport D → OrderManager D × Bool
  apply_fill o slot rec report =
      if is_terminal rec.state || leb_ℤ report.quantity (pos 0)
      then (count_invalid o, false)
      else let moved =
          add_exposure o rec.symbol rec.side (neg (min_ℤ report.quantity rec.leaves)) in
        (
          finish_fill (count_fill moved rec.leaves report.quantity) slot (filled_record rec report),
          true,
        )

  unfoldable pub apply_acked :
      OrderManager D → ℕ → OrderRecord D → ExecutionReport D → OrderManager D × Bool
  apply_acked o slot rec report =
      if is_pending_new rec.state
      then (
        record (write_record o slot
            (record (moved_to rec new report.ts_ns) { acked_ts_ns = report.ts_ns })) {
              stats = record (o.stats) { acked = inc64 o.stats.acked };
            },
        true,
      )
      else (count_invalid o, false)

  unfoldable pub apply_venue_rejected :
      OrderManager D → ℕ → OrderRecord D → ExecutionReport D → OrderManager D × Bool
  apply_venue_rejected o slot rec report =
      if is_pending_new rec.state
      then (
        retire
            (record (write_record o slot (moved_to rec rejected report.ts_ns)) {
              stats = record (o.stats) { venue_rejected = inc64 o.stats.venue_rejected };
            })
            slot,
        true,
      )
      else (count_invalid o, false)

  unfoldable pub apply_cancelled :
      OrderManager D → ℕ → OrderRecord D → ExecutionReport D → OrderManager D × Bool
  apply_cancelled o slot rec report =
      if is_cancellable rec.state
      then (
        retire
            (record (write_record o slot (moved_to rec cancelled report.ts_ns)) {
              stats = record (o.stats) { cancelled = inc64 o.stats.cancelled };
            })
            slot,
        true,
      )
      else (count_invalid o, false)

  unfoldable pub apply_cancel_rejected :
      OrderManager D → ℕ → OrderRecord D → ExecutionReport D → OrderManager D × Bool
  apply_cancel_rejected o slot rec report =
      let back = if ltb_ℤ (pos 0) rec.filled then partially_filled else new in
      if is_pending_cancel rec.state
      then (
        record (write_record o slot (moved_to rec back report.ts_ns)) {
          stats = record (o.stats) { cancel_rejected = inc64 o.stats.cancel_rejected };
        },
        true,
      )
      else (count_invalid o, false)

  -- The switch on the report's type, over the record with the venue's id.
  unfoldable pub dispatch :
      OrderManager D → ℕ → OrderRecord D → ExecutionReport D → ExecType → OrderManager D × Bool
  dispatch o slot rec report acked = apply_acked o slot rec report
  dispatch o slot rec report venue_rejected = apply_venue_rejected o slot rec report
  dispatch o slot rec report fill = apply_fill o slot rec report
  dispatch o slot rec report cancel_confirmed = apply_cancelled o slot rec report
  dispatch o slot rec report cancel_refused = apply_cancel_rejected o slot rec report

  abbrev pub named_by_venue : OrderRecord D → ExecutionReport D → OrderRecord D
  named_by_venue rec report = record rec {
    venue_order_id =
        if report.venue_order_id == 0 then rec.venue_order_id else report.venue_order_id;
  }

  -- A report for an order that is not tracked: late if its id was once issued, else unknown.
  unfoldable pub apply_untracked : OrderManager D → ExecutionReport D → OrderManager D
  apply_untracked o report =
      if not (report.cl_ord_id == 0) && ltb report.cl_ord_id o.next_id
      then record o { stats = record (o.stats) { late_reports = inc64 o.stats.late_reports } }
      else record o { stats = record (o.stats) { unknown_reports = inc64 o.stats.unknown_reports } }

  unfoldable pub apply : OrderManager D → ExecutionReport D → OrderManager D × Bool
  apply o report =
      let slot = slot_for o.index report.cl_ord_id in
      let rec = named_by_venue (record_at o slot) report in
      if slot == nil_slot
      then (apply_untracked o report, false)
      else dispatch (write_record o slot rec) slot rec report report.type
