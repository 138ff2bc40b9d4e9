-- ===== src/Engine/Fills.antt =====
-- A fill as both the order manager and the risk manager see it (OrderManager::apply of
-- cpp/src/oms.cpp, RiskManager::on_fill of cpp/src/risk.cpp).
use high_frequency_trading.Base.{
  ℕ, zero, suc, ◌<◌, ◌≡◌, refl, sym, ◌∙◌, ◌≢◌, inl, inr, true, false, ◌||◌, List, [], ◌∷◌, arith,
  ◌==◌, ==_iff, ap, if◌then◌else◌, Bool-cases, get_or, length, get_or-set_self, length-set, subst,
}
use high_frequency_trading.Base.Int.{
  ℤ, pos, ◌+ℤ◌, ◌-ℤ◌, ◌≤ℤ◌, ◌<ℤ◌, neg, min_ℤ, leb_ℤ, eqb_ℤ, int_laws,
}
use high_frequency_trading.Types.{Side, buy, sell, Fill, signed_quantity}
use high_frequency_trading.Double.{Double}
use high_frequency_trading.IdIndex.{nil_slot, slot_for}
use high_frequency_trading.Risk.{RiskManager, position, on_fill}
use high_frequency_trading.Risk.Positions.{position-on_fill}
use high_frequency_trading.Oms.Records.{
  filled, is_terminal, ExecType, fill, ExecutionReport, OrderRecord, blank_record, Exposure,
  no_exposure, OrderManager,
}
use high_frequency_trading.Oms.Slots.{
  bump, clamp, record_at, write_record, add_exposure, release_leaves, forget_oldest, remember,
  retire,
}
use high_frequency_trading.Oms.Exposures.{side_of, add_exposure_at}
use high_frequency_trading.Oms.Accounts.{add_exposure_pool}
use high_frequency_trading.Oms.Booking.{
  Booked, Booked-Nonneg, leaves_of, leaves_of_nonneg, share, share_nonneg,
}
use high_frequency_trading.Oms.Reports.{
  finish_fill, count_fill, filled_record, apply_fill, dispatch, named_by_venue, apply,
}
use high_frequency_trading.Oms.{working_exposure}

-- Executed quantity leaves the side it was working on.
net_after_fill :
    (e : Exposure) (side : Side) (q : ℤ)
    → pos 0 <ℤ q
    → q ≤ℤ side_of e side
    → (bump e side (neg q)).buys -ℤ (bump e side (neg q)).sells
      ≡ (e.buys -ℤ e.sells) -ℤ signed_quantity side q
unfolding bump clamp signed_quantity
net_after_fill e buy q h n = grind int_laws
net_after_fill e sell q h n = grind int_laws

moved_over : (p w q : ℤ) → p +ℤ q +ℤ (w -ℤ q) ≡ p +ℤ w
moved_over p w q = omega int_laws

bounded : (a b c : ℤ) → a ≤ℤ b → b ≤ℤ c → a ≤ℤ c
bounded a b c p q = omega arith

module _ {D : Type 0} where
  -- One order's leaves are no more than those of all.
  leaves_of_one :
      (side : Side) (s : ℕ) (rs : List (OrderRecord D)) (i : ℕ) (e : OrderRecord D)
      → ((j : ℕ) → pos 0 ≤ℤ (get_or rs j e).leaves)
      → i < length rs
      → share side s (get_or rs i e) ≤ℤ leaves_of side s rs
  unfolding leaves_of
  leaves_of_one side s [] i e n h = elim h [ ]
  leaves_of_one side s (r ∷ rs) zero e n h =
      first (share side s r) (leaves_of side s rs) (leaves_of_nonneg side s rs e (λ j. n (suc j)))
    where
      first : (a b : ℤ) → pos 0 ≤ℤ b → a ≤ℤ a +ℤ b
      first a b p = omega int_laws
  leaves_of_one side s (r ∷ rs) (suc i) e n h =
      later (share side s (get_or rs i e)) (share side s r) (leaves_of side s rs)
        (share_nonneg side s r (n 0)) (leaves_of_one side s rs i e (λ j. n (suc j)) (omega arith))
    where
      later : (a b c : ℤ) → pos 0 ≤ℤ b → a ≤ℤ c → a ≤ℤ b +ℤ c
      later a b c p q = omega int_laws

emptied : (q : ℤ) → eqb_ℤ q (pos 0) ≡ true → q ≡ pos 0
emptied q h = ground arith

module _ {D : Type 0} ⦃d : Double D⦄ where
  retire_exposure :
      (o : OrderManager D) (slot : ℕ)
      → (record_at o slot).leaves ≡ pos 0
      → (retire o slot).exposure ≡ o.exposure
  unfolding retire release_leaves remember forget_oldest
  retire_exposure o slot h = ground arith

  -- An update of the exposure reads nothing else of the manager.
  same_moves :
      (o o' : OrderManager D) (symbol : ℕ) (side : Side) (delta : ℤ)
      → o'.exposure ≡ o.exposure
      → (add_exposure o' symbol side delta).exposure ≡ (add_exposure o symbol side delta).exposure
  unfolding add_exposure
  same_moves o o' symbol side delta same = elim (Bool-cases (eqb_ℤ delta (pos 0))) [
    | inl still ↦ rw (still, same) refl
    | inr moves ↦ rw (moves, same) refl
  ]

  finish_fill_exposure :
      (o : OrderManager D) (slot : ℕ) (r : OrderRecord D)
      → slot < length o.pool
      → (finish_fill o slot r).exposure ≡ o.exposure
  unfolding finish_fill
  finish_fill_exposure o slot r below = elim (Bool-cases (eqb_ℤ r.leaves (pos 0))) [
    | inl done ↦ rw done (
        retire_exposure _ slot (
          rw (get_or-set_self o.pool slot (record r { state = filled }) blank_record below)
            (emptied r.leaves done)))
    | inr open_still ↦ rw open_still (ground arith)
  ]

  module _ (o : OrderManager D) (slot : ℕ) (booked : Booked o) (below : slot < length o.pool) where
    abbrev here : OrderRecord D
    here = record_at o slot

    -- The side that the order works on has the order's leaves at least.
    own_side : here.leaves ≤ℤ side_of (get_or o.exposure here.symbol no_exposure) here.side
    own_side = at_side here.side refl
      where
        own_share : (side : Side) → here.side ≡ side → share side here.symbol here ≡ here.leaves
        own_share side e = ground arith

        at_side :
            (side : Side)
            → here.side ≡ side
            → here.leaves ≤ℤ side_of (get_or o.exposure here.symbol no_exposure) side
        at_side buy e = rw (booked.buys here.symbol) (
            subst (λ z. z ≤ℤ leaves_of buy here.symbol o.pool) (own_share buy e)
              (leaves_of_one buy here.symbol o.pool slot blank_record booked.nonneg below))
        at_side sell e = rw (booked.sells here.symbol) (
            subst (λ z. z ≤ℤ leaves_of sell here.symbol o.pool) (own_share sell e)
              (leaves_of_one sell here.symbol o.pool slot blank_record booked.nonneg below))

    pub moved_exposure :
        (q : ℤ) (s : ℕ)
        → pos 0 <ℤ q
        → q ≤ℤ here.leaves
        → let after = (add_exposure o here.symbol here.side (neg (min_ℤ q here.leaves))).exposure in
          (get_or after s no_exposure).buys -ℤ (get_or after s no_exposure).sells ≡ (
            if here.symbol == s
            then working_exposure o s -ℤ signed_quantity here.side q
            else working_exposure o s)
    unfolding working_exposure
    moved_exposure q s real within =
        let e = get_or o.exposure here.symbol no_exposure in
        let least : min_ℤ q here.leaves ≡ q = ground arith in
        rw
          (
            least,
            add_exposure_at o here.symbol here.side (neg q) s (Booked-Nonneg o booked here.symbol),
          )
          (elim (Bool-cases (here.symbol == s)) [
            | inl same ↦
                let at : here.symbol ≡ s = (==_iff here.symbol s).0 same in
                rw same (
                  subst
                    (λ k.
                      (bump e here.side (neg q)).buys -ℤ (bump e here.side (neg q)).sells
                      ≡ ((get_or o.exposure k no_exposure).buys
                          -ℤ (get_or o.exposure k no_exposure).sells)
                        -ℤ signed_quantity here.side q)
                    at
                    (net_after_fill e here.side q real (bounded q here.leaves _ within own_side)))
            | inr other ↦ rw other refl
          ])

    -- The executions that the source accepts.
    apply_fill_exposure :
        (o' : OrderManager D) (rec : OrderRecord D) (report : ExecutionReport D)
        → slot < length o'.pool
        → o'.exposure ≡ o.exposure
        → rec.symbol ≡ here.symbol
        → rec.side ≡ here.side
        → rec.leaves ≡ here.leaves
        → is_terminal rec.state ≡ false
        → pos 0 <ℤ report.quantity
        → (apply_fill o' slot rec report).0.exposure
          ≡ (add_exposure o here.symbol here.side
              (neg (min_ℤ report.quantity here.leaves))).exposure
    unfolding apply_fill count_fill
    apply_fill_exposure o' rec report below' same e f g working real =
        let guard : (is_terminal rec.state || leb_ℤ report.quantity (pos 0)) ≡ false =
          ground arith in
        let delta = neg (min_ℤ report.quantity rec.leaves) in
        let placed : slot < length (add_exposure o' rec.symbol rec.side delta).pool =
          rw (add_exposure_pool o' rec.symbol rec.side delta) below' in
        rw guard (
          finish_fill_exposure _ slot (filled_record rec report) placed
          ∙ same_moves o o' rec.symbol rec.side delta same
          ∙ rw (e, f, g) refl)

module _ {D : Type 0} ⦃d : Double D⦄ where
  dispatched :
      (o : OrderManager D) (slot : ℕ) (rec : OrderRecord D) (report : ExecutionReport D)
      (type : ExecType)
      → type ≡ fill
      → dispatch o slot rec report type ≡ apply_fill o slot rec report
  unfolding dispatch
  dispatched o slot rec report type e =
      subst (λ t. dispatch o slot rec report t ≡ apply_fill o slot rec report) (sym e) refl

  module _ (o : OrderManager D) (report : ExecutionReport D) (booked : Booked o)
      (execution : report.type ≡ fill) (known : slot_for o.index report.cl_ord_id ≢ nil_slot)
      (below : slot_for o.index report.cl_ord_id < length o.pool)
      (working : is_terminal (record_at o (slot_for o.index report.cl_ord_id)).state ≡ false)
      (real : pos 0 <ℤ report.quantity) where
    abbrev rec : OrderRecord D
    rec = record_at o (slot_for o.index report.cl_ord_id)

    applied_exposure :
        (apply o report).0.exposure
        ≡ (add_exposure o rec.symbol rec.side (neg (min_ℤ report.quantity rec.leaves))).exposure
    unfolding apply
    applied_exposure =
        let slot = slot_for o.index report.cl_ord_id in
        let named = named_by_venue rec report in
        let found : (slot == nil_slot) ≡ false = ground arith in
        rw found (
          ap (λ z. z.0.exposure)
            (dispatched (write_record o slot named) slot named report report.type execution)
          ∙ apply_fill_exposure o slot booked below (write_record o slot named) named report
              (rw (length-set o.pool slot named) below) refl refl refl refl working real)

    working_applied :
        (s : ℕ)
        → report.quantity ≤ℤ rec.leaves
        → working_exposure (apply o report).0 s ≡ (
            if rec.symbol == s
            then working_exposure o s -ℤ signed_quantity rec.side report.quantity
            else working_exposure o s)
    working_applied s within =
        unfold working_exposure in
        (ap (λ es. (get_or es s no_exposure).buys -ℤ (get_or es s no_exposure).sells)
            applied_exposure
          ∙ moved_exposure o (slot_for o.index report.cl_ord_id) booked below report.quantity s real
              within)

  -- An execution of no more than the order has left, of an order that is tracked, not terminal and
  -- among orders whose leaves the exposure adds up, moves its quantity from what works of the
  -- order's symbol to the position that is held, when the fill that the risk manager is given says
  -- the same. For every symbol, position and working exposure together stay as they were.
  pub apply-on_fill :
      (o : OrderManager D) (r : RiskManager D) (report : ExecutionReport D) (f : Fill D) (s : ℕ)
      → Booked o
      → report.type ≡ fill
      → slot_for o.index report.cl_ord_id ≢ nil_slot
      → slot_for o.index report.cl_ord_id < length o.pool
      → let rec = record_at o (slot_for o.index report.cl_ord_id) in
        is_terminal rec.state ≡ false
        → pos 0 <ℤ report.quantity
        → report.quantity ≤ℤ rec.leaves
        → f.symbol ≡ rec.symbol
        → f.side ≡ rec.side
        → f.quantity ≡ report.quantity
        → position (on_fill r f) s +ℤ working_exposure (apply o report).0 s
          ≡ position r s +ℤ working_exposure o s
  apply-on_fill o r report f s booked execution known below working real within same_symbol
        same_side same_quantity =
      let rec = record_at o (slot_for o.index report.cl_ord_id) in
      let q = signed_quantity rec.side report.quantity in
      let counted : leb_ℤ report.quantity (pos 0) ≡ false = ground arith in
      rw
        (
          position-on_fill r f s,
          same_quantity,
          counted,
          same_symbol,
          same_side,
          working_applied o report booked execution known below working real s within,
        )
        (elim (Bool-cases (rec.symbol == s)) [
          | inl here ↦
              let at : rec.symbol ≡ s = (==_iff rec.symbol s).0 here in
              rw (here, at) (moved_over (position r s) (working_exposure o s) q)
          | inr there ↦ rw there refl
        ])
