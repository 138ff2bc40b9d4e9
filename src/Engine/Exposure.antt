-- ===== src/Engine/Exposure.antt =====
-- Filled and working quantities together against the position limits (cpp/src/engine.cpp,
-- cpp/src/risk.cpp, cpp/src/oms.cpp).
use high_frequency_trading.Base.{ℕ, ◌≡◌, refl, sym, inl, inr, true, arith, Bool-cases, get_or, ap}
use high_frequency_trading.Base.Int.{ℤ, pos, ◌+ℤ◌, ◌≤ℤ◌, ◌<ℤ◌, abs, leb_ℤ, int_laws}
use high_frequency_trading.Types.{Order, signed_quantity}
use high_frequency_trading.Double.{Double}
use high_frequency_trading.Risk.{
  RiskManager, check, position, symbol_limit, projected, reject, accept, check_rates,
  engage_kill_switch,
}
use high_frequency_trading.Risk.Limits.{check-accepted, check_not_positive}
use high_frequency_trading.Oms.Records.{no_exposure}
use high_frequency_trading.Oms.Exposures.{Nonneg}
use high_frequency_trading.Oms.{create, working_exposure}
use high_frequency_trading.Oms.Creation.{create_exposure}
use high_frequency_trading.Engine.{Desk, sent, source_of, attached, process_order, outcome_of}

module _ {D : Type 0} ⦃d : Double D⦄ where
  -- A check moves no position and no limit.
  check_position :
      (r : RiskManager D) (order : Order) (reference now_ns : ℤ)
      → ((check r order reference now_ns).0.positions ≡ r.positions)
        × ((check r order reference now_ns).0.limits ≡ r.limits)
        × ((check r order reference now_ns).0.symbol_limits ≡ r.symbol_limits)
  unfolding check reject accept check_rates engage_kill_switch
  check_position r order reference now_ns = (ground arith, ground arith, ground arith)

  accepted_positive :
      (r : RiskManager D) (order : Order) (reference now_ns : ℤ)
      → (check r order reference now_ns).1.accepted ≡ true
      → pos 0 <ℤ order.quantity
  accepted_positive r order reference now_ns h = elim (Bool-cases (leb_ℤ order.quantity (pos 0))) [
    | inl empty ↦
        absurd (ground (arith, check_not_positive r order reference now_ns (ground arith), h))
    | inr real ↦ ground arith
  ]

  module _ (desk : Desk D) (order : Order) (reference now_ns : ℤ) where
    projected-attached :
        projected (attached desk) order
        ≡ position desk.risk order.symbol
          +ℤ (working_exposure desk.oms order.symbol +ℤ signed_quantity order.side order.quantity)
    unfolding projected attached source_of position
    projected-attached = grind int_laws

    checked_position :
        (symbol : ℕ)
        → position (check (attached desk) order reference now_ns).0 symbol
          ≡ position desk.risk symbol
    unfolding position attached
    checked_position symbol =
        ap (λ ps. get_or ps symbol (pos 0))
          (check_position (attached desk) order reference now_ns).0

    checked_limit :
        (symbol : ℕ)
        → symbol_limit (check (attached desk) order reference now_ns).0 symbol
          ≡ symbol_limit (attached desk) symbol
    unfolding symbol_limit
    checked_limit symbol =
        let (_, limits, ceilings) = check_position (attached desk) order reference now_ns in
        rw (limits, ceilings) refl

  working_sent :
      (desk : Desk D) (order : Order) (ord_start : ℤ) (id : ℕ)
      → Nonneg (get_or desk.oms.exposure order.symbol no_exposure)
      → outcome_of (create desk.oms order ord_start).1 ≡ sent id
      → working_exposure (create desk.oms order ord_start).0 order.symbol
        ≡ working_exposure desk.oms order.symbol +ℤ signed_quantity order.side order.quantity
  working_sent desk order ord_start id nonneg went =
      ground (arith, create_exposure desk.oms order ord_start nonneg order.symbol)

  -- When an order goes out, with the limits enabled and no negative quantity among what works of
  -- its symbol before, the position of the symbol with everything that then works of it, the new
  -- order included, is within the symbol's limit.
  pub process_order_bounded :
      (desk : Desk D) (order : Order) (reference risk_start ord_start : ℤ) (id : ℕ)
      → desk.risk.limits.enabled ≡ true
      → Nonneg (get_or desk.oms.exposure order.symbol no_exposure)
      → (process_order desk order reference risk_start ord_start).1 ≡ sent id
      → let after = (process_order desk order reference risk_start ord_start).0 in
        abs (position after.risk order.symbol +ℤ working_exposure after.oms order.symbol)
        ≤ℤ symbol_limit after.risk order.symbol
  unfolding process_order
  process_order_bounded desk order reference risk_start ord_start id enabled nonneg went =
      let r = attached desk in
      let checked = check r order reference risk_start in
      elim (Bool-cases checked.1.accepted) [
        | inr refused ↦ absurd (ground arith)
        | inl accepted ↦
            let positive = accepted_positive r order reference risk_start accepted in
            let limits =
              ((check-accepted r order reference risk_start (unfold attached in enabled) positive).0
                accepted).0 in
            let worked : outcome_of (create desk.oms order ord_start).1 ≡ sent id = ground arith in
            rw
              (
                accepted,
                checked_position desk order reference risk_start order.symbol,
                checked_limit desk order reference risk_start order.symbol,
                working_sent desk order ord_start id nonneg worked,
                sym (projected-attached desk order reference risk_start),
              )
              limits.position_small
      ]
