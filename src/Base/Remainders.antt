-- ===== src/Base/Remainders.antt =====
-- Remainders as places of a ring.
use native.Mathlib.Nat.{mod-add-div', mul-le-mul_right, suc-mul}
use Prim.Native.Nat.{ℕ, ◌+◌, ◌/◌, ◌%◌, ◌<◌}
use mathlib.Core.Logic.{◌≢◌, inl, inr}
use native.Mathlib.Omega.{arith}
use high_frequency_trading.Base.Tests.{ltb, ltb→lt, ltb→ge, Bool-cases}

-- Two counts less than a ring's size apart have different places in it.
pub slots_differ : (c i n : ℕ) → 0 < c → i < n → n < i + c → i % c ≢ n % c
slots_differ c i n h lo hi e = elim (Bool-cases (ltb (i / c) (n / c))) [
  | inl less ↦ omega (
    arith,
    ltb→lt (i / c) (n / c) less,
    mul-le-mul_right c (ltb→lt (i / c) (n / c) less),
    suc-mul (i / c) c,
    mod-add-div' i c,
    mod-add-div' n c,
  )
  | inr more ↦
      omega (
        arith,
        mul-le-mul_right c (ltb→ge (i / c) (n / c) more),
        mod-add-div' i c,
        mod-add-div' n c,
      )
]
