-- ===== src/Oms/Accounts.antt =====
-- The exposure against the leaves of the orders under reports, cancel requests and timeouts
-- (OrderManager::apply, request_cancel, retire and sweep_timeouts of cpp/src/oms.cpp).
use high_frequency_trading.Base.{
  ℕ, ◌-◌, ltb, ◌<◌, ◌≡◌, refl, ap, inl, inr, true, false, ◌||◌, arith, if◌then◌else◌, set, length,
  length-set, Bool-cases,
}
use high_frequency_trading.Base.Int.{
  ℤ, pos, ◌+ℤ◌, ◌-ℤ◌, ◌≤ℤ◌, ◌<ℤ◌, neg, min_ℤ, ltb_ℤ, leb_ℤ, eqb_ℤ, int_laws,
}
use high_frequency_trading.Types.{Side}
use high_frequency_trading.Double.{Double}
use high_frequency_trading.Oms.Records.{
  partially_filled, filled, is_terminal, ExecutionReport, OrderRecord, OmsStats, OrderManager,
}
use high_frequency_trading.Oms.Slots.{
  clamp, record_at, write_record, add_exposure, release_leaves, forget_oldest, remember, retire,
}
use high_frequency_trading.Oms.Reports.{
  is_pending_new, is_pending_cancel, is_cancellable, filled_record, finish_fill, count_fill,
  apply_fill, apply_acked, apply_venue_rejected, apply_cancelled, apply_cancel_rejected,
}
use high_frequency_trading.Oms.Booking.{Booked, rebook, rebook-Booked, Shifts-same_order}

-- The leaves after an execution are the old leaves less what was consumed of them.
fill_leaves :
    (quantity done q : ℤ)
    → pos 0 <ℤ q
    → (if ltb_ℤ (done +ℤ q) quantity then quantity -ℤ (done +ℤ q) else pos 0)
      ≡ clamp (quantity -ℤ done) +ℤ neg (min_ℤ q (clamp (quantity -ℤ done)))
unfolding clamp
fill_leaves quantity done q h = grind int_laws

module _ {D : Type 0} ⦃d : Double D⦄ where
  -- The leaves of the order are what of its quantity is not filled.
  pub record Sound (r : OrderRecord D) : Type 0 where
    pub leaves_lem : is_terminal r.state ≡ false → r.leaves ≡ clamp (r.quantity -ℤ r.filled)
    pub done : is_terminal r.state ≡ true → r.leaves ≡ pos 0

  pub write-Booked :
      (o : OrderManager D) (slot : ℕ) (r : OrderRecord D)
      → Booked o
      → slot < length o.pool
      → r.symbol ≡ (record_at o slot).symbol
      → r.side ≡ (record_at o slot).side
      → r.leaves ≡ (record_at o slot).leaves
      → Booked (write_record o slot r)
  unfolding add_exposure
  write-Booked o slot r b below e f g =
      rebook-Booked o slot r (pos 0) b below (rw g (b.nonneg slot))
        (Shifts-same_order (record_at o slot) r (pos 0) e f (rw g (omega int_laws)))

  release_leaves-Booked :
      (o : OrderManager D) (slot : ℕ)
      → Booked o
      → slot < length o.pool
      → Booked (release_leaves o slot)
  unfolding release_leaves
  release_leaves-Booked o slot b below =
      elim (Bool-cases (ltb_ℤ (pos 0) (record_at o slot).leaves)) [
        | inl working ↦ rw working (
            rebook-Booked o slot (record (record_at o slot) { leaves = pos 0 })
              (neg (record_at o slot).leaves) b below (omega arith)
              (Shifts-same_order (record_at o slot) (record (record_at o slot) { leaves = pos 0 })
                (neg (record_at o slot).leaves) refl refl (omega int_laws)))
        | inr idle ↦ rw idle b
      ]

  pub Booked-of_same :
      (o o' : OrderManager D)
      → Booked o
      → o'.pool ≡ o.pool
      → o'.exposure ≡ o.exposure
      → o'.gross_exposure ≡ o.gross_exposure
      → Booked o'
  Booked-of_same o o' b e f g = record {
    nonneg = λ i. rw e (b.nonneg i);
    buys = λ s. rw (e, f) (b.buys s);
    sells = λ s. rw (e, f) (b.sells s);
    gross = rw (f, g) b.gross;
  }

  forget_oldest-Booked : (o : OrderManager D) → Booked o → Booked (forget_oldest o)
  unfolding forget_oldest
  forget_oldest-Booked o b =
      Booked-of_same o (forget_oldest o) b (ground arith) (ground arith) (ground arith)

  pub release_leaves_pool :
      (o : OrderManager D) (slot : ℕ)
      → (release_leaves o slot).pool ≡ (
          if ltb_ℤ (pos 0) (record_at o slot).leaves
          then set o.pool slot (record (record_at o slot) { leaves = pos 0 })
          else o.pool)
  unfolding release_leaves add_exposure
  release_leaves_pool o slot = ground arith

  pub retire-Booked :
      (o : OrderManager D) (slot : ℕ) → Booked o → slot < length o.pool → Booked (retire o slot)
  unfolding retire remember
  retire-Booked o slot b below =
      let b₁ = release_leaves-Booked o slot b below in
      let closed =
        if ltb 0 (release_leaves o slot).open_count
        then (release_leaves o slot).open_count - 1
        else (release_leaves o slot).open_count in
      let b₂ =
        forget_oldest-Booked (record (release_leaves o slot) { open_count = closed })
          (Booked-of_same (release_leaves o slot)
            (record (release_leaves o slot) { open_count = closed }) b₁ refl refl refl) in
      record { nonneg = b₂.nonneg; buys = b₂.buys; sells = b₂.sells; gross = b₂.gross }

  pub add_exposure_pool :
      (o : OrderManager D) (symbol : ℕ) (side : Side) (delta : ℤ)
      → (add_exposure o symbol side delta).pool ≡ o.pool
  unfolding add_exposure
  add_exposure_pool o symbol side delta = ground arith

  -- The record is replaced by one of the same order with the same leaves, and the order retired.
  pub close-Booked :
      (o : OrderManager D) (slot : ℕ) (r : OrderRecord D) (stats : OmsStats)
      → Booked o
      → slot < length o.pool
      → r.symbol ≡ (record_at o slot).symbol
      → r.side ≡ (record_at o slot).side
      → r.leaves ≡ (record_at o slot).leaves
      → Booked (retire (record (write_record o slot r) { stats = stats }) slot)
  close-Booked o slot r stats b below e f g =
      retire-Booked (record (write_record o slot r) { stats = stats }) slot
        (Booked-of_same (write_record o slot r) (record (write_record o slot r) { stats = stats })
          (write-Booked o slot r b below e f g) refl refl refl)
        (rw (length-set o.pool slot r) below)

  module _ (o : OrderManager D) (slot : ℕ) (report : ExecutionReport D) (b : Booked o)
      (below : slot < length o.pool) where
    abbrev pub here : OrderRecord D
    here = record_at o slot

    pub apply_acked-Booked : Booked (apply_acked o slot here report).0
    unfolding apply_acked
    apply_acked-Booked = elim (Bool-cases (is_pending_new here.state)) [
      | inl h ↦ rw h (
          Booked-of_same (write_record o slot _) _ (write-Booked o slot _ b below refl refl refl)
            refl refl refl)
      | inr h ↦ rw h (Booked-of_same o _ b refl refl refl)
    ]

    pub apply_venue_rejected-Booked : Booked (apply_venue_rejected o slot here report).0
    unfolding apply_venue_rejected
    apply_venue_rejected-Booked = elim (Bool-cases (is_pending_new here.state)) [
      | inl h ↦ rw h (close-Booked o slot _ _ b below refl refl refl)
      | inr h ↦ rw h (Booked-of_same o _ b refl refl refl)
    ]

    pub apply_cancelled-Booked : Booked (apply_cancelled o slot here report).0
    unfolding apply_cancelled
    apply_cancelled-Booked = elim (Bool-cases (is_cancellable here.state)) [
      | inl h ↦ rw h (close-Booked o slot _ _ b below refl refl refl)
      | inr h ↦ rw h (Booked-of_same o _ b refl refl refl)
    ]

    pub apply_cancel_rejected-Booked : Booked (apply_cancel_rejected o slot here report).0
    unfolding apply_cancel_rejected
    apply_cancel_rejected-Booked = elim (Bool-cases (is_pending_cancel here.state)) [
      | inl h ↦ rw h (
          Booked-of_same (write_record o slot _) _ (write-Booked o slot _ b below refl refl refl)
            refl refl refl)
      | inr h ↦ rw h (Booked-of_same o _ b refl refl refl)
    ]

    -- The exposure moves first, and the record is written after it.
    pub moved_then_written-Booked :
        (r : OrderRecord D) (delta : ℤ) (o' : OrderManager D)
        → r.symbol ≡ here.symbol
        → r.side ≡ here.side
        → r.leaves ≡ here.leaves +ℤ delta
        → pos 0 ≤ℤ r.leaves
        → o'.pool ≡ set o.pool slot r
        → o'.exposure ≡ (add_exposure o here.symbol here.side delta).exposure
        → o'.gross_exposure ≡ (add_exposure o here.symbol here.side delta).gross_exposure
        → Booked o'
    unfolding add_exposure
    moved_then_written-Booked r delta o' e f g n p x y =
        Booked-of_same (rebook o slot r delta) o'
          (rebook-Booked o slot r delta b below n (Shifts-same_order here r delta e f g))
          (rw p (ground arith)) (rw (x, e, f) (ground arith)) (rw (y, e, f) (ground arith))

    abbrev pub consumed : ℤ
    consumed = min_ℤ report.quantity here.leaves

    pub filled_leaves :
        Sound here
        → is_terminal here.state ≡ false
        → pos 0 <ℤ report.quantity
        → (filled_record here report).leaves ≡ here.leaves +ℤ neg consumed
    unfolding filled_record
    filled_leaves s working q =
        rw (s.leaves_lem working) (fill_leaves here.quantity here.filled report.quantity q)

    finish_fill-Booked :
        (r : OrderRecord D) (delta : ℤ) (o' : OrderManager D)
        → r.symbol ≡ here.symbol
        → r.side ≡ here.side
        → r.leaves ≡ here.leaves +ℤ delta
        → pos 0 ≤ℤ r.leaves
        → o'.pool ≡ o.pool
        → o'.exposure ≡ (add_exposure o here.symbol here.side delta).exposure
        → o'.gross_exposure ≡ (add_exposure o here.symbol here.side delta).gross_exposure
        → Booked (finish_fill o' slot r)
    unfolding finish_fill
    finish_fill-Booked r delta o' e f g n p x y = elim (Bool-cases (eqb_ℤ r.leaves (pos 0))) [
      | inl done ↦ rw done (
          retire-Booked _ slot
            (moved_then_written-Booked (record r { state = filled }) delta _ e f g n
              (ap (λ z. set z slot (record r { state = filled })) p) x y)
            (rw (length-set o'.pool slot (record r { state = filled }), p) below))
      | inr open_still ↦ rw open_still (elim (Bool-cases (is_pending_cancel r.state)) [
        | inl c ↦ rw c (moved_then_written-Booked r delta _ e f g n (ap (λ z. set z slot r) p) x y)
        | inr c ↦ rw c (
            moved_then_written-Booked (record r { state = partially_filled }) delta _ e f g n
              (ap (λ z. set z slot (record r { state = partially_filled })) p) x y)
      ])
    ]

    pub filled_leaves_nonneg : pos 0 ≤ℤ (filled_record here report).leaves
    unfolding filled_record
    filled_leaves_nonneg = grind int_laws

    pub apply_fill-Booked : Sound here → Booked (apply_fill o slot here report).0
    unfolding apply_fill count_fill
    apply_fill-Booked s =
        elim (Bool-cases (is_terminal here.state || leb_ℤ report.quantity (pos 0))) [
          | inl h ↦ rw h (Booked-of_same o _ b refl refl refl)
          | inr h ↦ rw h (
              finish_fill-Booked (filled_record here report) (neg consumed) _
                (unfold filled_record in refl) (unfold filled_record in refl)
                (filled_leaves s (ground arith) (ground arith)) filled_leaves_nonneg
                (add_exposure_pool o here.symbol here.side (neg consumed)) refl refl)
        ]
