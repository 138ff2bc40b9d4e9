-- ===== src/Instruments/Rounding.antt =====
-- Instrument::round_price (cpp/src/instrument.cpp) and the tick grid.
use native.Mathlib.Nat.{mod-lt, mod-le, mod-add-div', mul-mod_left, suc-mul}
use high_frequency_trading.Base.{
  ℕ, suc, ◌+◌, ◌-◌, ◌*◌, ◌/◌, ◌%◌, ◌≤◌, ◌<◌, ◌≡◌, ap, ◌∙◌, inl, inr, true, false, arith, ◌==◌,
  ==_iff, Bool-cases,
}
use high_frequency_trading.Base.Int.{ℤ, pos, negsuc, ◌+ℤ◌, ◌-ℤ◌, ◌≤ℤ◌, ◌<ℤ◌, leb_ℤ, eqb_ℤ, int_laws}
use high_frequency_trading.Types.{Side, buy, sell}
use high_frequency_trading.Instruments.{Instrument, round_price, snap, rem_ℤ}

multiple_below : (a t : ℕ) → 0 < t → (a - a % t) % t ≡ 0
multiple_below a t h =
    let e : a - a % t ≡ a / t * t = omega (arith, mod-add-div' a t) in
    ap (λ n. n % t) e ∙ mul-mod_left (a / t) t

multiple_above : (a t : ℕ) → 0 < t → (a + (t - a % t)) % t ≡ 0
multiple_above a t h =
    let e : a + (t - a % t) ≡ suc (a / t) * t =
      omega (arith, mod-add-div' a t, mod-lt a h, suc-mul (a / t) t) in
    ap (λ n. n % t) e ∙ mul-mod_left (suc (a / t)) t

-- What rounding promises of a price, on either side.
pub Rounded : ℤ → ℤ → Side → ℤ → Type 0
Rounded tick p buy rounded = (rounded ≤ℤ p) × (p <ℤ rounded +ℤ tick)
Rounded tick p sell rounded = (p ≤ℤ rounded) × (rounded <ℤ p +ℤ tick)

lowered : (a r : ℕ) → r ≤ a → pos a -ℤ pos r ≡ pos (a - r)
lowered a r h = omega int_laws

raised : (a r t : ℕ) → r ≤ t → pos a +ℤ (pos t -ℤ pos r) ≡ pos (a + (t - r))
raised a r t h = omega int_laws

abbrev Goal : ℤ → ℤ → Side → ℤ → Type 0
Goal tick p side rounded = (rem_ℤ rounded tick ≡ pos 0) × Rounded tick p side rounded

stays : (t a : ℕ) (side : Side) → 0 < t → (a % t == 0) ≡ true → Goal (pos t) (pos a) side (pos a)
unfolding Rounded rem_ℤ
stays t a buy h e = (ap pos ((==_iff (a % t) 0).0 e), (omega arith, omega int_laws))
stays t a sell h e = (ap pos ((==_iff (a % t) 0).0 e), (omega arith, omega int_laws))

moves :
    (t a : ℕ) (side : Side)
    → 0 < t
    → (a % t == 0) ≡ false
    → Goal
        (pos t)
        (pos a)
        side
        (elim side [ buy ↦ pos a -ℤ pos (a % t) | sell ↦ pos a +ℤ (pos t -ℤ pos (a % t)) ])
unfolding Rounded rem_ℤ
moves t a buy h e =
    let below : a % t < t = mod-lt a h in
    let part : a % t ≤ a = mod-le a t in
    rw (lowered a (a % t) part)
      (ap pos (multiple_below a t h), (omega (int_laws, part), omega (int_laws, below, part)))
moves t a sell h e =
    let below : a % t < t = mod-lt a h in
    let above_zero : 0 < a % t = ground arith in
    rw (raised a (a % t) t (omega arith)) (
      ap pos (multiple_above a t h),
      (omega (int_laws, below), omega (int_laws, below, above_zero)),
    )

snapped : (t a : ℕ) (side : Side) → 1 < t → Goal (pos t) (pos a) side (snap (pos t) (pos a) side)
unfolding snap rem_ℤ
snapped t a side h =
    let coarse : leb_ℤ (pos t) (pos 1) ≡ false = ground arith in
    elim (Bool-cases (a % t == 0)) [
      | inl on_grid ↦
          let exact : eqb_ℤ (pos (a % t)) (pos 0) ≡ true = ground arith in
          rw (coarse, exact) (unfold rem_ℤ in stays t a side (omega arith) on_grid)
      | inr between ↦
          let inexact : eqb_ℤ (pos (a % t)) (pos 0) ≡ false = ground arith in
          rw (coarse, inexact) (moves t a side (omega arith) between)
    ]

snap_lem :
    (tick p : ℤ) (side : Side) → pos 0 ≤ℤ p → pos 1 <ℤ tick → Goal tick p side (snap tick p side)
snap_lem (pos t) (pos a) side positive coarse = snapped t a side (omega arith)
snap_lem (pos t) (negsuc a) side positive coarse = absurd (omega arith)
snap_lem (negsuc t) p side positive coarse = absurd (ground arith)

-- For a price that is not negative and a tick size above 1, the rounded price is on the tick grid; a
-- buy's is the price itself or below it, a sell's is the price itself or above it, and either is
-- less than one tick away.
pub round_price_lem :
    {Name : Type 0} (i : Instrument Name) (p : ℤ) (side : Side)
    → pos 0 ≤ℤ p
    → pos 1 <ℤ i.tick_size
    → (rem_ℤ (round_price i p side) i.tick_size ≡ pos 0)
      × Rounded i.tick_size p side (round_price i p side)
unfolding round_price
round_price_lem i p side positive coarse = snap_lem i.tick_size p side positive coarse
