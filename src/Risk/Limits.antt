-- ===== src/Risk/Limits.antt =====
-- What the checks of cpp/src/risk.cpp let through, and the limits of single instruments.
use high_frequency_trading.Base.{
  ℕ, ◌<◌, ◌≡◌, ◌↔◌, ◌⊎◌, inl, inr, Bool, true, false, ◌||◌, none, arith, ◌==◌, if◌then◌else◌,
  Option-cases, get_or-set-reach,
}
use high_frequency_trading.Base.Int.{ℤ, pos, ◌≤ℤ◌, ◌<ℤ◌, ◌-ℤ◌, abs, min_ℤ, leb_ℤ, eqb_ℤ}
use high_frequency_trading.Types.{Order}
use high_frequency_trading.Double.{Double}
use high_frequency_trading.Risk.{
  RejectReason, RiskManager, is_halted, checked_price, projected, projected_gross, symbol_limit,
  set_symbol_limit, notional, outside_collar, screen, check_rates, check, reject, accept,
}

-- The second of the throttle that the manager stands in is over, or was never opened.
unfoldable pub window_over : {D : Type 0} → RiskManager D → ℤ → Bool
window_over r now_ns =
    eqb_ℤ r.window_start_ns (pos 0) || leb_ℤ (pos 1000000000) (now_ns -ℤ r.window_start_ns)

module _ {D : Type 0} ⦃d : Double D⦄ where
  -- Every limit on the order itself and on the position it would create.
  pub record InLimits (r : RiskManager D) (order : Order) (reference_price : ℤ) : Type 0 where
    pub running : is_halted r.halt_reason ≡ false
    pub quantity_small : order.quantity ≤ℤ r.limits.max_order_quantity
    pub price_valid : pos 0 <ℤ checked_price order reference_price
    pub notional_small :
        d.lt r.limits.max_order_notional (notional order (checked_price order reference_price))
        ≡ false
    pub in_collar :
        outside_collar r.limits reference_price (checked_price order reference_price) ≡ false
    pub position_small : abs (projected r order) ≤ℤ symbol_limit r order.symbol
    pub gross_small : projected_gross r order ≤ℤ r.limits.max_gross_position

  -- The limits on the rate of orders.
  pub record InRates (r : RiskManager D) (now_ns : ℤ) : Type 0 where
    pub day_open : r.daily_orders < r.limits.max_daily_orders
    pub window_open :
        (r.limits.max_orders_per_second ≡ 0)
        ⊎ ((0 < r.limits.max_orders_per_second)
            × ((window_over r now_ns ≡ true) ⊎ (r.window_orders < r.limits.max_orders_per_second)))

  screen-none :
      (r : RiskManager D) (order : Order) (reference_price : ℤ)
      → screen r order reference_price ≡ none
      → InLimits r order reference_price
  unfolding screen
  screen-none r order reference_price h = record {
    running = ground arith;
    quantity_small = ground arith;
    price_valid = ground arith;
    notional_small = ground arith;
    in_collar = ground arith;
    position_small = ground arith;
    gross_small = ground arith;
  }

  screen-InLimits :
      (r : RiskManager D) (order : Order) (reference_price : ℤ)
      → InLimits r order reference_price
      → screen r order reference_price ≡ none
  unfolding screen
  screen-InLimits r order reference_price l = ground arith

  check_rates-accepted :
      (r : RiskManager D) (now_ns : ℤ) → (check_rates r now_ns).1.accepted ≡ true → InRates r now_ns
  unfolding check_rates reject accept window_over
  check_rates-accepted r now_ns h = record { day_open = ground arith; window_open = ground arith }

  check_rates-InRates :
      (r : RiskManager D) (now_ns : ℤ) → InRates r now_ns → (check_rates r now_ns).1.accepted ≡ true
  unfolding check_rates reject accept window_over
  check_rates-InRates r now_ns l = ground arith

  -- With the limits enabled, an order of a positive quantity is accepted exactly when the manager
  -- is not halted, every limit on the order and on the position it would create holds, with what is
  -- in flight counted, and the limits on the rate of orders hold.
  pub check-accepted :
      (r : RiskManager D) (order : Order) (reference_price now_ns : ℤ)
      → r.limits.enabled ≡ true
      → pos 0 <ℤ order.quantity
      → ((check r order reference_price now_ns).1.accepted ≡ true)
        ↔ (InLimits r order reference_price × InRates r now_ns)
  unfolding check reject
  check-accepted r order reference_price now_ns enabled positive =
      elim (Option-cases (screen r order reference_price)) [
        | inl passed ↦ (
          λ h. (
            screen-none r order reference_price passed,
            check_rates-accepted r now_ns (ground arith),
          ),
          λ (_, l). ground (arith, check_rates-InRates r now_ns l),
        )
        | inr (reason, stopped) ↦ (
          λ h. absurd (ground arith),
          λ (l, _). absurd (ground (arith, screen-InLimits r order reference_price l)),
        )
      ]

  -- An order of no positive quantity is rejected, with the limits disabled too.
  pub check_not_positive :
      (r : RiskManager D) (order : Order) (reference_price now_ns : ℤ)
      → order.quantity ≤ℤ pos 0
      → (check r order reference_price now_ns).1
        ≡ record { accepted = false; reason = RejectReason.invalid_order }
  unfolding check reject
  check_not_positive r order reference_price now_ns h = ground arith

module _ {D : Type 0} where
  -- The ceiling of an instrument can only tighten the global limit: whatever is set, the limit of
  -- the symbol is the smaller of the two, or the global one when no positive ceiling is set. The
  -- limits of the other symbols stay as they were.
  pub symbol_limit-set_symbol_limit :
      (r : RiskManager D) (symbol other : ℕ) (max_position : ℤ)
      → symbol_limit (set_symbol_limit r symbol max_position) other ≡ (
          if symbol == other
          then (if leb_ℤ max_position (pos 0)
              then r.limits.max_position_per_symbol
              else min_ℤ max_position r.limits.max_position_per_symbol)
          else symbol_limit r other)
  unfolding symbol_limit set_symbol_limit
  symbol_limit-set_symbol_limit r symbol other max_position =
      rw
        (get_or-set-reach r.symbol_limits symbol other
          (if leb_ℤ max_position (pos 0)
            then pos 0
            else min_ℤ max_position r.limits.max_position_per_symbol)
          (pos 0))
        (ground arith)
