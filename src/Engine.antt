-- ===== src/Engine.antt =====
-- The way of an order through the engine (Engine::process of cpp/src/engine.cpp, from the risk check
-- to the order manager): the risk manager reads the exposure of the order manager.
pub mod Exposure
pub mod Fills
mod Tests
use high_frequency_trading.Base.{ℕ, Bool, true, false, Option, none, some, ◌==◌, if◌then◌else◌}
use high_frequency_trading.Base.Int.{ℤ}
use high_frequency_trading.Types.{Order, Fill}
use high_frequency_trading.Double.{Double}
use high_frequency_trading.Risk.{ExposureSource, RiskManager, check}
use high_frequency_trading.Oms.Records.{OrderManager}
use high_frequency_trading.Oms.{create, working_exposure, gross_working_exposure}

pub record Desk (D : Type 0) : Type 0 where
  pub risk : RiskManager D
  pub oms : OrderManager D

pub data Outcome : Type 0 where
  risk_rejected untracked : Outcome
  sent : (cl_ord_id : ℕ) → Outcome

-- An order that gets no id is not sent.
abbrev pub outcome_of : ℕ → Outcome
outcome_of cl_ord_id = if cl_ord_id == 0 then untracked else sent cl_ord_id

module _ {D : Type 0} ⦃d : Double D⦄ where
  -- The order manager as the interface that the risk manager asks.
  unfoldable pub source_of : OrderManager D → ExposureSource
  source_of o = record {
    working_exposure = working_exposure o;
    gross_working_exposure = gross_working_exposure o;
  }

  -- `risk_.set_exposure_source(&oms_)`: what the risk manager reads is the order manager's state at
  -- the time of the call.
  unfoldable pub attached : Desk D → RiskManager D
  attached desk = record (desk.risk) { exposure = some (source_of desk.oms) }

  -- The check, and the creation of an order that passes it.
  unfoldable pub process_order : Desk D → Order → ℤ → ℤ → ℤ → Desk D × Outcome
  process_order desk order reference risk_start ord_start =
      let (risk, decision) = check (attached desk) order reference risk_start in
      let (oms, cl_ord_id) = create desk.oms order ord_start in
      if decision.accepted
      then (record { risk = risk; oms = oms }, outcome_of cl_ord_id)
      else (record { risk = risk; oms = desk.oms }, risk_rejected)
