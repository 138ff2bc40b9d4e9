-- ===== src/Oms/Preservation.antt =====
-- Reports (OrderManager::apply of cpp/src/oms.cpp) against the invariant of the orders tracked.
use high_frequency_trading.Base.{
  ℕ, ◌<◌, ◌≡◌, refl, ap, inl, inr, false, ◌&&◌, ◌||◌, arith, ◌==◌, if◌then◌else◌, set, length,
  get_or-set_self, get_or-set_ne, length-set, Bool-cases, subst, not, ltb,
}
use high_frequency_trading.Base.Int.{ℤ, pos, ◌+ℤ◌, ◌-ℤ◌, ◌<ℤ◌, neg, ltb_ℤ, leb_ℤ, eqb_ℤ, int_laws}
use high_frequency_trading.Double.{Double}
use high_frequency_trading.IdIndex.{nil_slot, slot_for}
use high_frequency_trading.Oms.Records.{
  OrderState, new, partially_filled, filled, is_terminal, ExecType, acked, venue_rejected, fill,
  cancel_confirmed, cancel_refused, ExecutionReport, OrderRecord, blank_record, OmsStats,
  OrderManager,
}
use high_frequency_trading.Oms.Slots.{clamp, record_at, write_record, add_exposure, retire}
use high_frequency_trading.Oms.Reports.{
  is_pending_new, is_pending_cancel, is_cancellable, moved_to, filled_record, finish_fill,
  count_fill, apply_fill, apply_acked, apply_venue_rejected, apply_cancelled, apply_cancel_rejected,
  dispatch, apply_untracked, apply, named_by_venue,
}
use high_frequency_trading.Oms.Booking.{Booked}
use high_frequency_trading.Oms.Accounts.{
  Sound, moved_then_written-Booked, consumed, filled_leaves, filled_leaves_nonneg,
  add_exposure_pool,
}
use high_frequency_trading.Oms.Tracking.{
  Points, Tracked, add_exposure_index, write-Sound, retire-Tracked, replace-Tracked, count-Tracked,
  close-Tracked,
}

clamp_lem :
    (quantity total : ℤ)
    → (if ltb_ℤ total quantity then quantity -ℤ total else pos 0) ≡ clamp (quantity -ℤ total)
unfolding clamp
clamp_lem quantity total = grind int_laws

module _ {D : Type 0} ⦃d : Double D⦄ where
  -- A working order that stays working, with the same quantities, stays sound.
  pub still_working :
      (old r : OrderRecord D)
      → Sound old
      → is_terminal old.state ≡ false
      → is_terminal r.state ≡ false
      → r.leaves ≡ old.leaves
      → r.quantity ≡ old.quantity
      → r.filled ≡ old.filled
      → Sound r
  still_working old r s w w' e f g = record {
    leaves_lem = λ _. rw (e, f, g) (s.leaves_lem w);
    done = λ t. cc;
  }

  module _ (o : OrderManager D) (slot : ℕ) (report : ExecutionReport D) (t : Tracked o)
      (below : slot < length o.pool) where
    abbrev here : OrderRecord D
    here = record_at o slot

    apply_acked-Tracked : Tracked (apply_acked o slot here report).0
    unfolding apply_acked is_terminal
    apply_acked-Tracked = elim (Bool-cases (is_pending_new here.state)) [
      | inl h ↦
          let r = record (moved_to here new report.ts_ns) { acked_ts_ns = report.ts_ns } in
          rw h (
            count-Tracked (write_record o slot r) _ (
              replace-Tracked o slot r t below refl refl refl
                (still_working here r (t.sound slot) (ground arith) refl refl refl refl)))
      | inr h ↦ rw h (count-Tracked o _ t)
    ]

    apply_venue_rejected-Tracked : Tracked (apply_venue_rejected o slot here report).0
    unfolding apply_venue_rejected is_terminal
    apply_venue_rejected-Tracked = elim (Bool-cases (is_pending_new here.state)) [
      | inl h ↦ rw h (close-Tracked o slot _ _ t below refl refl refl refl)
      | inr h ↦ rw h (count-Tracked o _ t)
    ]

    apply_cancelled-Tracked : Tracked (apply_cancelled o slot here report).0
    unfolding apply_cancelled is_terminal
    apply_cancelled-Tracked = elim (Bool-cases (is_cancellable here.state)) [
      | inl h ↦ rw h (close-Tracked o slot _ _ t below refl refl refl refl)
      | inr h ↦ rw h (count-Tracked o _ t)
    ]

    apply_cancel_rejected-Tracked : Tracked (apply_cancel_rejected o slot here report).0
    unfolding apply_cancel_rejected is_terminal
    apply_cancel_rejected-Tracked = elim (Bool-cases (is_pending_cancel here.state)) [
      | inl h ↦
          let back : OrderState = if ltb_ℤ (pos 0) here.filled then partially_filled else new in
          let r = moved_to here back report.ts_ns in
          rw h (
            count-Tracked (write_record o slot r) _ (
              replace-Tracked o slot r t below refl refl refl
                (still_working here r (t.sound slot) (ground arith) (ground arith) refl refl refl)))
      | inr h ↦ rw h (count-Tracked o _ t)
    ]

    -- The manager between the move of the exposure and the write of the filled record.
    module _ (o' : OrderManager D) (working : is_terminal here.state ≡ false)
        (real : pos 0 <ℤ report.quantity) (same_pool : o'.pool ≡ o.pool)
        (same_index : o'.index ≡ o.index)
        (moved : o'.exposure
          ≡ (add_exposure o here.symbol here.side
              (neg (consumed o slot report t.booked below))).exposure)
        (moved_gross : o'.gross_exposure
          ≡ (add_exposure o here.symbol here.side
              (neg (consumed o slot report t.booked below))).gross_exposure) where
      points' : Points o'.index (length o'.pool)
      points' = rw (same_index, same_pool) t.points

      below' : slot < length o'.pool
      below' = rw same_pool below

      others : (i : ℕ) → Sound (record_at o' i)
      others i = rw same_pool (t.sound i)

      written-Booked :
          (state : OrderState) (stats : OmsStats)
          → Booked
              (record (write_record o' slot
                (record (filled_record here report) { state = state })) { stats = stats })
      written-Booked state stats =
          moved_then_written-Booked o slot report t.booked below
            (record (filled_record here report) { state = state })
            (neg (consumed o slot report t.booked below)) _ (unfold filled_record in refl)
            (unfold filled_record in refl)
            (filled_leaves o slot report t.booked below (t.sound slot) working real)
            (filled_leaves_nonneg o slot report t.booked below)
            (ap (λ z. set z slot (record (filled_record here report) { state = state })) same_pool)
            moved moved_gross

      open_case :
          (state : OrderState)
          → is_terminal state ≡ false
          → Tracked (write_record o' slot (record (filled_record here report) { state = state }))
      unfolding filled_record
      open_case state w = record {
        points =
            rw (length-set o'.pool slot (record (filled_record here report) { state = state }))
              points';
        sound =
            write-Sound o' slot (record (filled_record here report) { state = state })
              (λ i _. others i) below'
              (record {
                leaves_lem = λ _. clamp_lem here.quantity (here.filled +ℤ report.quantity);
                done = λ z. cc;
              });
        booked = written-Booked state o'.stats;
      }

      done_case :
          (stats : OmsStats)
          → Tracked (
              retire
                (record (write_record o' slot
                  (record (filled_record here report) { state = filled })) { stats = stats })
                slot)
      unfolding is_terminal
      done_case stats =
          let r = record (filled_record here report) { state = filled } in
          retire-Tracked (record (write_record o' slot r) { stats = stats }) slot
            (rw (length-set o'.pool slot r) points')
            (λ i other. rw (get_or-set_ne o'.pool slot i r blank_record other) (others i))
            (rw (length-set o'.pool slot r) below')
            (rw (get_or-set_self o'.pool slot r blank_record below') refl)
            (written-Booked filled stats)

      finish_fill-Tracked : Tracked (finish_fill o' slot (filled_record here report))
      unfolding finish_fill is_terminal
      finish_fill-Tracked = elim (Bool-cases (eqb_ℤ (filled_record here report).leaves (pos 0))) [
        | inl done ↦ rw done (done_case _)
        | inr still ↦
            rw still (elim (Bool-cases (is_pending_cancel (filled_record here report).state)) [
              | inl c ↦
                  rw c
                    (open_case (filled_record here report).state (unfold filled_record in working))
              | inr c ↦ rw c (open_case partially_filled refl)
            ])
      ]

    apply_fill-Tracked : Tracked (apply_fill o slot here report).0
    unfolding apply_fill count_fill
    apply_fill-Tracked =
        elim (Bool-cases (is_terminal here.state || leb_ℤ report.quantity (pos 0))) [
          | inl h ↦ rw h (count-Tracked o _ t)
          | inr h ↦ rw h (
              finish_fill-Tracked _ (ground arith) (ground arith)
                (add_exposure_pool o here.symbol here.side _)
                (add_exposure_index o here.symbol here.side _) refl refl)
        ]

    dispatch-Tracked : (type : ExecType) → Tracked (dispatch o slot here report type).0
    unfolding dispatch
    dispatch-Tracked acked = apply_acked-Tracked
    dispatch-Tracked venue_rejected = apply_venue_rejected-Tracked
    dispatch-Tracked fill = apply_fill-Tracked
    dispatch-Tracked cancel_confirmed = apply_cancelled-Tracked
    dispatch-Tracked cancel_refused = apply_cancel_rejected-Tracked

  named-Tracked :
      (o : OrderManager D) (slot : ℕ) (report : ExecutionReport D)
      → Tracked o
      → slot < length o.pool
      → let rec = named_by_venue (record_at o slot) report in
        Tracked (dispatch (write_record o slot rec) slot rec report report.type).0
  named-Tracked o slot report t below =
      let rec = named_by_venue (record_at o slot) report in
      let o' = write_record o slot rec in
      subst (λ z. Tracked (dispatch o' slot z report report.type).0)
        (get_or-set_self o.pool slot rec blank_record below)
        (dispatch-Tracked o' slot report
          (replace-Tracked o slot rec t below refl refl refl
            (record { leaves_lem = (t.sound slot).leaves_lem; done = (t.sound slot).done }))
          (rw (length-set o.pool slot rec) below) report.type)

  untracked-Tracked :
      (o : OrderManager D) (report : ExecutionReport D)
      → Tracked o
      → Tracked (apply_untracked o report)
  unfolding apply_untracked
  untracked-Tracked o report t =
      elim (Bool-cases (not (report.cl_ord_id == 0) && ltb report.cl_ord_id o.next_id)) [
        | inl late ↦ rw late (count-Tracked o _ t)
        | inr unknown ↦ rw unknown (count-Tracked o _ t)
      ]

  -- A report of any type, for any order, tracked or not, keeps the manager's orders tracked: the
  -- index is valid and points into the pool, each order's leaves fit its state, and the exposure by
  -- symbol and side, and the gross exposure, are the sums of the leaves.
  pub apply-Tracked :
      (o : OrderManager D) (report : ExecutionReport D) → Tracked o → Tracked (apply o report).0
  unfolding apply
  apply-Tracked o report t = elim (Bool-cases (slot_for o.index report.cl_ord_id == nil_slot)) [
    | inl h ↦ rw h (untracked-Tracked o report t)
    | inr h ↦ rw h (
        named-Tracked o (slot_for o.index report.cl_ord_id) report t
          (t.points.in_range report.cl_ord_id (ground arith)))
  ]
