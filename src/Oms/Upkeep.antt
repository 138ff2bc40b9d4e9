-- ===== src/Oms/Upkeep.antt =====
-- Cancel requests and timeouts (OrderManager::request_cancel and sweep_timeouts of cpp/src/oms.cpp)
-- against the invariant of the orders tracked.
use high_frequency_trading.Base.{
  ℕ, ◌<◌, refl, inl, inr, List, [], ◌∷◌, arith, ◌==◌, length, Bool-cases,
}
use high_frequency_trading.Base.Int.{ℤ}
use high_frequency_trading.Double.{Double}
use high_frequency_trading.IdIndex.{nil_slot, slot_for}
use high_frequency_trading.Oms.Records.{pending_cancel, is_terminal, OrderRecord, OrderManager}
use high_frequency_trading.Oms.Slots.{record_at, write_record}
use high_frequency_trading.Oms.Timeouts.{expire, expire_all, collect_overdue, sweep_timeouts}
use high_frequency_trading.Oms.{request_cancel, accepts_cancel}
use high_frequency_trading.Oms.Tracking.{Tracked, replace-Tracked, count-Tracked, close-Tracked}
use high_frequency_trading.Oms.Preservation.{still_working}

module _ {D : Type 0} ⦃d : Double D⦄ where
  -- A request to cancel, of any id, keeps the manager's orders tracked: the index is valid and
  -- points into the pool, each order's leaves fit its state, and the exposure by symbol and side,
  -- and the gross exposure, are the sums of the leaves.
  pub request_cancel-Tracked :
      (o : OrderManager D) (id : ℕ) (now_ns : ℤ)
      → Tracked o
      → Tracked (request_cancel o id now_ns).0
  unfolding request_cancel is_terminal
  request_cancel-Tracked o id now_ns t = elim (Bool-cases (slot == nil_slot)) [
    | inl missing ↦ rw missing t
    | inr found ↦ rw found (elim (Bool-cases (accepts_cancel rec.state)) [
      | inl accepted ↦
          let below = t.points.in_range id (ground arith) in
          rw accepted (
            count-Tracked (write_record o slot cancelling) _ (
              replace-Tracked o slot cancelling t below refl refl refl
                (still_working rec cancelling (t.sound slot) (ground arith) refl refl refl refl)))
      | inr refused ↦ rw refused t
    ])
  ]
    where
      slot : ℕ
      slot = slot_for o.index id

      rec : OrderRecord D
      rec = record_at o slot

      cancelling : OrderRecord D
      cancelling = record rec { state = pending_cancel; last_update_ts_ns = now_ns }

  expire-Tracked :
      (o : OrderManager D) (now_ns : ℤ) (slot : ℕ)
      → Tracked o
      → slot < length o.pool
      → Tracked (expire o now_ns slot)
  unfolding expire is_terminal
  expire-Tracked o now_ns slot t below = close-Tracked o slot _ _ t below refl refl refl refl

  expire_all-Tracked :
      (o : OrderManager D) (now_ns : ℤ) (ids : List ℕ)
      → Tracked o
      → Tracked (expire_all o now_ns ids).0
  unfolding expire_all
  expire_all-Tracked o now_ns [] t = t
  expire_all-Tracked o now_ns (id ∷ ids) t = elim (Bool-cases (slot_for o.index id == nil_slot)) [
    | inl h ↦ rw (h, expire_all) (expire_all-Tracked o now_ns ids t)
    | inr h ↦
        rw (h, expire_all)
          (expire_all-Tracked (expire o now_ns (slot_for o.index id)) now_ns ids
            (expire-Tracked o now_ns (slot_for o.index id) t (t.points.in_range id (ground arith))))
  ]

  -- A sweep of the orders that the venue has not answered in time, at any time, keeps the manager's
  -- orders tracked: the index is valid and points into the pool, each order's leaves fit its state,
  -- and the exposure by symbol and side, and the gross exposure, are the sums of the leaves.
  pub sweep_timeouts-Tracked :
      (o : OrderManager D) (now_ns : ℤ) → Tracked o → Tracked (sweep_timeouts o now_ns).0
  unfolding sweep_timeouts
  sweep_timeouts-Tracked o now_ns t =
      expire_all-Tracked o now_ns (collect_overdue o now_ns o.index.keys o.index.vals) t
