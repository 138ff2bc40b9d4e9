-- ===== src/Double/Whole.antt =====
-- Operations of the type `double` on whole values, for runs of the models on concrete input.
use high_frequency_trading.Base.{◌/◌}
use high_frequency_trading.Base.Int.{
  ℤ, ◌+ℤ◌, ◌-ℤ◌, ◌*ℤ◌, abs, sub_ℕ, pos_part, neg_part, ltb_ℤ, leb_ℤ,
}
use high_frequency_trading.Double.{Double}

-- The quotient is rounded towards zero.
unfoldable pub quotient : ℤ → ℤ → ℤ
quotient a b = sub_ℕ (pos_part a / pos_part (abs b)) (neg_part a / pos_part (abs b))

abbrev pub whole : Double ℤ
whole = record {
  of_ℤ = λ z. z;
  add = ◌+ℤ◌;
  sub = ◌-ℤ◌;
  mul = ◌*ℤ◌;
  div = quotient;
  fabs = abs;
  lt = ltb_ℤ;
  le = leb_ℤ;
}
