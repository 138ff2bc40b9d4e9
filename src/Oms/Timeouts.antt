-- ===== src/Oms/Timeouts.antt =====
-- OrderManager::sweep_timeouts (cpp/src/oms.cpp): the orders that the venue has not answered in time.
use high_frequency_trading.Base.{
  ℕ, Bool, true, false, not, ◌&&◌, List, [], ◌∷◌, ◌==◌, if◌then◌else◌, inc64,
}
use high_frequency_trading.Base.Int.{ℤ, ◌-ℤ◌, ltb_ℤ}
use high_frequency_trading.Double.{Double}
use high_frequency_trading.IdIndex.{nil_slot, slot_for, reserved}
use high_frequency_trading.Oms.Records.{expired, OrderRecord, OrderManager}
use high_frequency_trading.Oms.Slots.{record_at, write_record, retire}
use high_frequency_trading.Oms.Reports.{is_pending_new, moved_to}

module _ {D : Type 0} ⦃d : Double D⦄ where
  -- The order is unacknowledged, and has been so for the timeout or longer.
  abbrev pub overdue : OrderManager D → ℤ → OrderRecord D → Bool
  overdue o now_ns rec =
      is_pending_new rec.state && not (ltb_ℤ (now_ns -ℤ rec.created_ts_ns) o.cfg.ack_timeout_ns)

  -- The walk over the index's keys and values: the ids of the orders that are overdue.
  unfoldable pub collect_overdue : OrderManager D → ℤ → List ℕ → List ℕ → List ℕ
  collect_overdue o now_ns (key ∷ keys) (slot ∷ slots) =
      let rec = record_at o slot in
      let rest = collect_overdue o now_ns keys slots in
      if reserved key then rest else if overdue o now_ns rec then rec.cl_ord_id ∷ rest else rest
  collect_overdue o now_ns _ _ = []

  unfoldable pub expire : OrderManager D → ℤ → ℕ → OrderManager D
  expire o now_ns slot =
      retire
        (record (write_record o slot (moved_to (record_at o slot) expired now_ns)) {
          stats = record (o.stats) { expired = inc64 o.stats.expired };
        })
        slot

  -- The second loop, which expires the ids that were collected, with those that it expired.
  unfoldable pub expire_all : OrderManager D → ℤ → List ℕ → OrderManager D × List ℕ
  expire_all o now_ns [] = (o, [])
  expire_all o now_ns (id ∷ ids) =
      let slot = slot_for o.index id in
      elim (slot == nil_slot) [
        | true ↦ expire_all o now_ns ids
        | false ↦ let (o', out) = expire_all (expire o now_ns slot) now_ns ids in (o', id ∷ out)
      ]

  -- The list is what is appended to `out`; the count returned is its length.
  unfoldable pub sweep_timeouts : OrderManager D → ℤ → OrderManager D × List ℕ
  sweep_timeouts o now_ns = expire_all o now_ns (collect_overdue o now_ns o.index.keys o.index.vals)
