-- ===== src/Oms/Lifecycle.antt =====
-- The life of one order under the venue's reports (OrderManager::apply of cpp/src/oms.cpp).
use high_frequency_trading.Base.{
  ℕ, ◌<◌, ◌≡◌, refl, ap, ◌∙◌, ◌≢◌, Bool, true, false, Option, none, some, arith, ◌==◌,
  if◌then◌else◌, get_or, set, length, get_or-set_self, length-set, inc64,
}
use high_frequency_trading.Base.Int.{ℤ, pos, ◌+ℤ◌, neg, min_ℤ, ltb_ℤ, leb_ℤ, eqb_ℤ, int_laws}
use high_frequency_trading.Double.{Double}
use high_frequency_trading.IdIndex.{nil_slot, slot_for}
use high_frequency_trading.Oms.Records.{
  OrderState, pending_new, new, partially_filled, pending_cancel, filled, cancelled, rejected,
  is_terminal, ExecType, acked, venue_rejected, fill, cancel_confirmed, cancel_refused,
  ExecutionReport, OrderRecord, blank_record, OmsStats, OrderManager,
}
use high_frequency_trading.Oms.Slots.{record_at, write_record, add_exposure, remember, retire}
use high_frequency_trading.Oms.Reports.{
  is_pending_cancel, moved_to, filled_record, finish_fill, count_fill, apply_fill, apply_acked,
  apply_venue_rejected, apply_cancelled, apply_cancel_rejected, dispatch, apply, named_by_venue,
}
use high_frequency_trading.Oms.Accounts.{release_leaves_pool, add_exposure_pool}
use high_frequency_trading.Oms.Tracking.{forget_oldest_pool}

-- The order state machine: the state after a report, if the report is legal. `done` says that an
-- execution completes the order, `executed` that some of the order was executed before.
unfoldable pub next_state : OrderState → ExecType → Bool → Bool → Option OrderState
next_state pending_new acked done executed = some new
next_state pending_new venue_rejected done executed = some rejected
next_state pending_new fill done executed = some (if done then filled else partially_filled)
next_state new fill done executed = some (if done then filled else partially_filled)
next_state partially_filled fill done executed = some (if done then filled else partially_filled)
next_state pending_cancel fill done executed = some (if done then filled else pending_cancel)
next_state new cancel_confirmed done executed = some cancelled
next_state partially_filled cancel_confirmed done executed = some cancelled
next_state pending_cancel cancel_confirmed done executed = some cancelled
next_state pending_cancel cancel_refused done executed =
    some (if executed then partially_filled else new)
next_state _ _ done executed = none

-- An execution of no positive quantity, which no state accepts. The other reports carry none.
abbrev pub is_empty_fill : ExecType → ℤ → Bool
is_empty_fill fill q = leb_ℤ q (pos 0)
is_empty_fill _ q = false

abbrev pub is_some : Option OrderState → Bool
is_some none = false
is_some (some s) = true

abbrev pub state_or : Option OrderState → OrderState → OrderState
state_or none s = s
state_or (some s') s = s'

module _ {D : Type 0} ⦃d : Double D⦄ where
  retire_state :
      (o : OrderManager D) (slot : ℕ)
      → slot < length o.pool
      → (record_at (retire o slot) slot).state ≡ (record_at o slot).state
  unfolding retire remember
  retire_state o slot below =
      rw (forget_oldest_pool, release_leaves_pool o slot)
        (pick (ltb_ℤ (pos 0) (record_at o slot).leaves))
    where
      emptied : OrderRecord D
      emptied = record (record_at o slot) { leaves = pos 0 }

      pick :
          (c : Bool)
          → (get_or (if c then set o.pool slot emptied else o.pool) slot blank_record).state
            ≡ (record_at o slot).state
      pick true = rw (get_or-set_self o.pool slot emptied blank_record below)
      pick false = refl

  -- A new record at the slot is read back.
  written_state :
      (o : OrderManager D) (slot : ℕ) (r : OrderRecord D)
      → slot < length o.pool
      → (record_at (write_record o slot r) slot).state ≡ r.state
  written_state o slot r below =
      ap (λ z. z.state) (get_or-set_self o.pool slot r blank_record below)

  retired_state :
      (o : OrderManager D) (slot : ℕ) (r : OrderRecord D) (stats : OmsStats)
      → slot < length o.pool
      → (record_at (retire (record (write_record o slot r) { stats = stats }) slot) slot).state
        ≡ r.state
  retired_state o slot r stats below =
      retire_state (record (write_record o slot r) { stats = stats }) slot
        (rw (length-set o.pool slot r) below)
      ∙ written_state o slot r below

  -- The answer of one case of `apply`, and the state that it leaves at the slot.
  abbrev pub Answers : OrderManager D × Bool → ℕ → OrderState → Option OrderState → Type 0
  Answers (o', accepted) slot before next =
      (accepted ≡ is_some next) × ((record_at o' slot).state ≡ state_or next before)

  module _ (o : OrderManager D) (slot : ℕ) (report : ExecutionReport D) (rec : OrderRecord D)
      (below : slot < length o.pool) (there : (record_at o slot).state ≡ rec.state) where
    abbrev next_of : ExecType → Option OrderState
    next_of type =
        if is_empty_fill type report.quantity
        then none
        else next_state rec.state type (leb_ℤ rec.quantity (rec.filled +ℤ report.quantity))
            (ltb_ℤ (pos 0) rec.filled)

    acked-Answers : Answers (apply_acked o slot rec report) slot rec.state (next_of acked)
    unfolding apply_acked next_state
    acked-Answers = ground (
      arith,
      there,
      written_state o slot (record (moved_to rec new report.ts_ns) { acked_ts_ns = report.ts_ns })
          below,
    )

    venue_rejected-Answers :
        Answers (apply_venue_rejected o slot rec report) slot rec.state (next_of venue_rejected)
    unfolding apply_venue_rejected next_state
    venue_rejected-Answers = ground (
      arith,
      there,
      retired_state o slot (moved_to rec rejected report.ts_ns)
          (record (o.stats) { venue_rejected = inc64 o.stats.venue_rejected }) below,
    )

    cancelled-Answers :
        Answers (apply_cancelled o slot rec report) slot rec.state (next_of cancel_confirmed)
    unfolding apply_cancelled next_state
    cancelled-Answers = ground (
      arith,
      there,
      retired_state o slot (moved_to rec cancelled report.ts_ns)
          (record (o.stats) { cancelled = inc64 o.stats.cancelled }) below,
    )

    cancel_rejected-Answers :
        Answers (apply_cancel_rejected o slot rec report) slot rec.state (next_of cancel_refused)
    unfolding apply_cancel_rejected next_state
    cancel_rejected-Answers = ground (
      arith,
      there,
      written_state o slot
          (moved_to rec (if ltb_ℤ (pos 0) rec.filled then partially_filled else new) report.ts_ns)
          below,
    )

    completes :
        eqb_ℤ (filled_record rec report).leaves (pos 0)
        ≡ leb_ℤ rec.quantity (rec.filled +ℤ report.quantity)
    unfolding filled_record
    completes = grind int_laws

    finish_state :
        (o' : OrderManager D) (r : OrderRecord D)
        → slot < length o'.pool
        → (record_at (finish_fill o' slot r) slot).state ≡ (
            if eqb_ℤ r.leaves (pos 0)
            then filled
            else if is_pending_cancel r.state
            then r.state
            else partially_filled)
    unfolding finish_fill
    finish_state o' r below' = ground (
      arith,
      retired_state o' slot (record r { state = filled })
          (record (o'.stats) { filled_orders = inc64 o'.stats.filled_orders }) below',
      written_state o' slot r below',
      written_state o' slot (record r { state = partially_filled }) below',
    )

    filled_before : (filled_record rec report).state ≡ rec.state
    unfolding filled_record
    filled_before = refl

    fill-Answers : Answers (apply_fill o slot rec report) slot rec.state (next_of fill)
    unfolding apply_fill next_state is_terminal count_fill
    fill-Answers =
        let o' =
          count_fill (add_exposure o rec.symbol rec.side (neg (min_ℤ report.quantity rec.leaves)))
            rec.leaves report.quantity in
        let below' : slot < length o'.pool =
          rw (add_exposure_pool o rec.symbol rec.side (neg (min_ℤ report.quantity rec.leaves)))
            below in
        ground (
          arith,
          there,
          finish_state o' (filled_record rec report) below',
          filled_before,
          completes,
        )

    dispatch-Answers :
        (type : ExecType) → Answers (dispatch o slot rec report type) slot rec.state (next_of type)
    unfolding dispatch
    dispatch-Answers acked = acked-Answers
    dispatch-Answers venue_rejected = venue_rejected-Answers
    dispatch-Answers fill = fill-Answers
    dispatch-Answers cancel_confirmed = cancelled-Answers
    dispatch-Answers cancel_refused = cancel_rejected-Answers

  -- For an order that the index tracks, at a slot of the pool, a report of any type is answered as
  -- the state machine says: it is accepted exactly when the machine has a next state, the order is
  -- then in that state, and otherwise it stays in its state. Of the quantity of a report only that of
  -- an execution counts: an execution whose quantity is not positive is refused in every state, and
  -- one completes the order when the quantity filled with it reaches the quantity ordered, also where
  -- it exceeds it.
  pub apply-next_state :
      (o : OrderManager D) (report : ExecutionReport D)
      → slot_for o.index report.cl_ord_id ≢ nil_slot
      → slot_for o.index report.cl_ord_id < length o.pool
      → let slot = slot_for o.index report.cl_ord_id in
        let rec = record_at o slot in
        Answers (apply o report) slot rec.state (
          if is_empty_fill report.type report.quantity
          then none
          else next_state rec.state report.type
              (leb_ℤ rec.quantity (rec.filled +ℤ report.quantity))
              (ltb_ℤ (pos 0) rec.filled))
  unfolding apply
  apply-next_state o report known below =
      let slot = slot_for o.index report.cl_ord_id in
      let rec = named_by_venue (record_at o slot) report in
      let missing : (slot == nil_slot) ≡ false = ground arith in
      rw missing (
        dispatch-Answers (write_record o slot rec) slot report rec
          (rw (length-set o.pool slot rec) below) (written_state o slot rec below) report.type)
