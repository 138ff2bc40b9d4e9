-- ===== src/Risk.antt =====
-- The pre-trade risk checks: cpp/src/risk.cpp, cpp/include/hft/risk.hpp. An operation that changes
-- the manager returns the new one. `D` is the type `double`. `reach` is the source's
-- `resize(symbol + 1)` for a symbol below 2 ^ 32 - 1. At 2 ^ 32 - 1 itself, which a registry gives no
-- instrument, that length wraps to 0, and the write that follows in `on_fill` and `set_symbol_limit`
-- lies outside the vector: it is undefined, as signed overflow is.
pub mod Limits
pub mod Positions
pub mod Throttle
mod Tests
use high_frequency_trading.Base.{
  ℕ, ◌+◌, ◌-◌, ◌%◌, ◌^◌, Bool, true, false, not, ◌&&◌, ◌||◌, Option, none, some, List, [], ◌∷◌,
  ◌==◌, ltb, leb, if◌then◌else◌, get_or, set, reach, replicate, length, inc64,
}
use high_frequency_trading.Base.Int.{ℤ, pos, ◌+ℤ◌, ◌-ℤ◌, neg, abs, min_ℤ, ltb_ℤ, leb_ℤ, eqb_ℤ}
use high_frequency_trading.Types.{Side, buy, sell, Order, Fill, signed_quantity}
use high_frequency_trading.Double.{Double, price_to_double}

pub data RejectReason : Type 0 where
  none_given kill_switch_engaged invalid_order order_quantity_too_large order_notional_too_large
        price_outside_collar position_limit_exceeded gross_position_limit_exceeded throttle_exceeded
        daily_order_limit_exceeded drawdown_limit_exceeded :
      RejectReason

-- The enumerators' values.
abbrev pub reason_index : RejectReason → ℕ
reason_index none_given = 0
reason_index kill_switch_engaged = 1
reason_index invalid_order = 2
reason_index order_quantity_too_large = 3
reason_index order_notional_too_large = 4
reason_index price_outside_collar = 5
reason_index position_limit_exceeded = 6
reason_index gross_position_limit_exceeded = 7
reason_index throttle_exceeded = 8
reason_index daily_order_limit_exceeded = 9
reason_index drawdown_limit_exceeded = 10

pub data HaltReason : Type 0 where
  not_halted manual drawdown_breach daily_order_limit order_timeout : HaltReason

pub record RiskLimits (D : Type 0) : Type 0 where
  pub max_order_quantity : ℤ
  pub max_order_notional : D
  pub max_position_per_symbol : ℤ
  pub max_gross_position : ℤ
  pub price_collar_bps : D
  pub max_orders_per_second : ℕ
  pub max_daily_orders : ℕ
  pub max_drawdown : D
  pub enabled : Bool

pub record RiskDecision : Type 0 where
  pub accepted : Bool
  pub reason : RejectReason

-- The interface behind which the order manager stands.
pub record ExposureSource : Type 0 where
  pub working_exposure : ℕ → ℤ
  pub gross_working_exposure : ℤ

pub record RiskManager (D : Type 0) : Type 0 where
  pub limits : RiskLimits D
  pub exposure : Option ExposureSource
  pub positions : List ℤ
  pub symbol_limits : List ℤ
  pub gross_position : ℤ
  pub peak_equity : D
  pub current_equity : D
  pub window_start_ns : ℤ
  pub window_orders : ℕ
  pub daily_orders : ℕ
  pub accepted : ℕ
  pub rejected : ℕ
  pub halt_reason : HaltReason
  pub reject_counts : List ℕ

abbrev pub is_halted : HaltReason → Bool
is_halted not_halted = false
is_halted _ = true

abbrev pub working_of : Option ExposureSource → ℕ → ℤ
working_of none symbol = pos 0
working_of (some source) symbol = source.working_exposure symbol

abbrev pub gross_working_of : Option ExposureSource → ℤ
gross_working_of none = pos 0
gross_working_of (some source) = source.gross_working_exposure

-- `px`: the order's price, or the reference price of an order without one.
abbrev pub checked_price : Order → ℤ → ℤ
checked_price order reference_price =
    if ltb_ℤ (pos 0) order.price then order.price else reference_price

module _ {D : Type 0} ⦃d : Double D⦄ where
  unfoldable pub make : RiskLimits D → RiskManager D
  make limits = record {
    limits = limits;
    exposure = none;
    positions = [];
    symbol_limits = [];
    gross_position = pos 0;
    peak_equity = d.of_ℤ (pos 0);
    current_equity = d.of_ℤ (pos 0);
    window_start_ns = pos 0;
    window_orders = 0;
    daily_orders = 0;
    accepted = 0;
    rejected = 0;
    halt_reason = not_halted;
    reject_counts = replicate 11 0;
  }

module _ {D : Type 0} where
  unfoldable pub position : RiskManager D → ℕ → ℤ
  position r symbol = get_or r.positions symbol (pos 0)

  unfoldable pub set_symbol_limit : RiskManager D → ℕ → ℤ → RiskManager D
  set_symbol_limit r symbol max_position =
      let limits = reach r.symbol_limits symbol (pos 0) in
      let limit =
        if leb_ℤ max_position (pos 0)
        then pos 0
        else min_ℤ max_position r.limits.max_position_per_symbol in
      record r { symbol_limits = set limits symbol limit }

  unfoldable pub symbol_limit : RiskManager D → ℕ → ℤ
  symbol_limit r symbol =
      let specific = get_or r.symbol_limits symbol (pos 0) in
      if ltb_ℤ (pos 0) specific then specific else r.limits.max_position_per_symbol

  unfoldable pub reject : RiskManager D → RejectReason → RiskManager D × RiskDecision
  reject r reason = (
    record r {
      reject_counts =
          set r.reject_counts (reason_index reason)
            (inc64 (get_or r.reject_counts (reason_index reason) 0));
      rejected = inc64 r.rejected;
    },
    record { accepted = false; reason = reason },
  )

  unfoldable pub accept : RiskManager D → RiskManager D × RiskDecision
  accept r = (
    record r { accepted = inc64 r.accepted; daily_orders = inc64 r.daily_orders },
    record { accepted = true; reason = none_given },
  )

  unfoldable pub engage_kill_switch : RiskManager D → HaltReason → RiskManager D
  engage_kill_switch r reason =
      if not (is_halted reason)
      then r
      else if is_halted r.halt_reason
      then r
      else record r { halt_reason = reason }

  unfoldable pub release_kill_switch : RiskManager D → RiskManager D
  release_kill_switch r = record r { halt_reason = not_halted }

  unfoldable pub roll_day : RiskManager D → RiskManager D
  roll_day r = record r { daily_orders = 0; window_start_ns = pos 0; window_orders = 0 }

  -- The position that the order would create, with what is in flight.
  unfoldable pub projected : RiskManager D → Order → ℤ
  projected r order =
      position r order.symbol
      +ℤ working_of r.exposure order.symbol
      +ℤ signed_quantity order.side order.quantity

  -- The gross position that it would create.
  unfoldable pub projected_gross : RiskManager D → Order → ℤ
  projected_gross r order =
      (r.gross_position -ℤ abs (position r order.symbol))
      +ℤ (gross_working_of r.exposure -ℤ abs (working_of r.exposure order.symbol))
      +ℤ abs (projected r order)

  -- The limits on the rate of orders, the last of the checks.
  unfoldable pub check_rates : RiskManager D → ℤ → RiskManager D × RiskDecision
  check_rates r now_ns =
      let opens =
        eqb_ℤ r.window_start_ns (pos 0) || leb_ℤ (pos 1000000000) (now_ns -ℤ r.window_start_ns) in
      let w = if opens then record r { window_start_ns = now_ns; window_orders = 0 } else r in
      if leb r.limits.max_daily_orders r.daily_orders
      then reject (engage_kill_switch r daily_order_limit) daily_order_limit_exceeded
      else if r.limits.max_orders_per_second == 0
      then accept r
      else if leb r.limits.max_orders_per_second w.window_orders
      then reject w throttle_exceeded
      else accept (record w { window_orders = (w.window_orders + 1) % 2 ^ 32 })

  unfoldable pub on_fill : RiskManager D → Fill D → RiskManager D
  on_fill r fill =
      let positions = reach r.positions fill.symbol (pos 0) in
      let before = get_or positions fill.symbol (pos 0) in
      let after = before +ℤ signed_quantity fill.side fill.quantity in
      if leb_ℤ fill.quantity (pos 0) then r else record r {
        positions = set positions fill.symbol after;
        gross_position = r.gross_position +ℤ (abs after -ℤ abs before);
      }

module _ {D : Type 0} ⦃d : Double D⦄ where
  unfoldable pub notional : Order → ℤ → D
  notional order px = d.mul (price_to_double px) (d.of_ℤ order.quantity)

  -- The order's price is further from the reference price than the collar allows.
  unfoldable pub outside_collar : RiskLimits D → ℤ → ℤ → Bool
  outside_collar limits reference_price px =
      let ref = d.of_ℤ reference_price in
      let deviation_bps = d.mul (d.div (d.fabs (d.sub (d.of_ℤ px) ref)) ref) (d.of_ℤ (pos 10000)) in
      ltb_ℤ (pos 0) reference_price
      && d.lt (d.of_ℤ (pos 0)) limits.price_collar_bps
      && d.lt limits.price_collar_bps deviation_bps

  -- The checks that change nothing, in their order.
  unfoldable pub screen : RiskManager D → Order → ℤ → Option RejectReason
  screen r order reference_price =
      let px = checked_price order reference_price in
      if is_halted r.halt_reason
      then some kill_switch_engaged
      else if ltb_ℤ r.limits.max_order_quantity order.quantity
      then some order_quantity_too_large
      else if leb_ℤ px (pos 0)
      then some invalid_order
      else if d.lt r.limits.max_order_notional (notional order px)
      then some order_notional_too_large
      else if outside_collar r.limits reference_price px
      then some price_outside_collar
      else if ltb_ℤ (symbol_limit r order.symbol) (abs (projected r order))
      then some position_limit_exceeded
      else if ltb_ℤ r.limits.max_gross_position (projected_gross r order)
      then some gross_position_limit_exceeded
      else none

  unfoldable pub check : RiskManager D → Order → ℤ → ℤ → RiskManager D × RiskDecision
  check r order reference_price now_ns =
      if leb_ℤ order.quantity (pos 0)
      then reject r invalid_order
      else if not r.limits.enabled
      then accept r
      else elim (screen r order reference_price) [
        | some reason ↦ reject r reason
        | none ↦ check_rates r now_ns
      ]

  unfoldable pub on_equity : RiskManager D → D → RiskManager D
  on_equity r equity =
      let peak = if d.lt r.peak_equity equity then equity else r.peak_equity in
      let r' = record r { current_equity = equity; peak_equity = peak } in
      if not r.limits.enabled || d.le r.limits.max_drawdown (d.of_ℤ (pos 0))
      then r'
      else if d.lt r.limits.max_drawdown (d.sub peak equity) && not (is_halted r.halt_reason)
      then engage_kill_switch r' drawdown_breach
      else r'
