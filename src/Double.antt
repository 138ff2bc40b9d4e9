-- ===== src/Double.antt =====
-- The type `double`, as a parameter: the engine's code uses these operations of it and no law of
-- them. `price_to_double` is that of cpp/include/hft/types.hpp.
pub mod Whole
use high_frequency_trading.Base.{Bool}
use high_frequency_trading.Base.Int.{ℤ, pos}

pub record Double (D : Type 0) : Type 0 where
  pub of_ℤ : ℤ → D
  pub add : D → D → D
  pub sub : D → D → D
  pub mul : D → D → D
  pub div : D → D → D
  pub fabs : D → D
  pub lt : D → D → Bool
  pub le : D → D → Bool

abbrev pub tick_scale : ℤ
tick_scale = pos 100

abbrev pub price_to_double : {D : Type 0} ⦃d : Double D⦄ → ℤ → D
price_to_double ⦃d⦄ px = d.div (d.of_ℤ px) (d.of_ℤ tick_scale)
