-- ===== src/Oms/Exposures.antt =====
-- The exposure that risk checks read (working_exposure and gross_working_exposure of
-- cpp/src/oms.cpp) against the leaves of the orders in the pool.
use high_frequency_trading.Base.{
  ℕ, zero, suc, ◌+◌, ◌-◌, ◌<◌, ◌≡◌, refl, sym, inl, inr, true, List, [], ◌∷◌, ◌++◌, arith, ◌==◌,
  if◌then◌else◌, get_or, set, replicate, length, get_or-set, grow, get_or-grow, length-grow,
  Bool-cases,
}
use high_frequency_trading.Base.Int.{ℤ, pos, ◌+ℤ◌, ◌-ℤ◌, ◌≤ℤ◌, abs, eqb_ℤ, int_laws}
use high_frequency_trading.Types.{Side, buy, sell}
use high_frequency_trading.Double.{Double}
use high_frequency_trading.Oms.Records.{Exposure, no_exposure, OrderManager}
use high_frequency_trading.Oms.Slots.{exposure_for, clamp, bump, add_exposure}

abbrev pub side_of : Exposure → Side → ℤ
side_of e buy = e.buys
side_of e sell = e.sells

-- The sum of |buy leaves - sell leaves| over the symbols.
unfoldable pub gross_of : List Exposure → ℤ
gross_of [] = pos 0
gross_of (e ∷ es) = abs (e.buys -ℤ e.sells) +ℤ gross_of es

gross_of-set :
    (es : List Exposure) (i : ℕ) (e : Exposure)
    → i < length es
    → gross_of (set es i e)
      ≡ gross_of es
        +ℤ (abs (e.buys -ℤ e.sells)
            -ℤ abs ((get_or es i no_exposure).buys -ℤ (get_or es i no_exposure).sells))
unfolding gross_of
gross_of-set [] i e h = elim h [ ]
gross_of-set (x ∷ es) zero e h = omega int_laws
gross_of-set (x ∷ es) (suc i) e h = rw (gross_of-set es i e (omega arith)) (omega int_laws)

gross_of-replicate : (n : ℕ) → gross_of (replicate n no_exposure) ≡ pos 0
unfolding gross_of ◌-ℤ◌ ◌+ℤ◌
gross_of-replicate zero = refl
gross_of-replicate (suc n) = rw (gross_of-replicate n)

gross_of-append : (es fs : List Exposure) → gross_of (es ++ fs) ≡ gross_of es +ℤ gross_of fs
unfolding gross_of
gross_of-append [] fs = omega int_laws
gross_of-append (e ∷ es) fs = rw (gross_of-append es fs) (omega int_laws)

gross_of-grow : (es : List Exposure) (n : ℕ) → gross_of (grow es n no_exposure) ≡ gross_of es
gross_of-grow es n =
    rw
      (
        gross_of-append es (replicate (n - length es) no_exposure),
        gross_of-replicate (n - length es),
      )
      (omega int_laws)

module _ (es : List Exposure) (symbol : ℕ) where
  get_or-exposure_for :
      (s : ℕ) → get_or (exposure_for es symbol) s no_exposure ≡ get_or es s no_exposure
  unfolding exposure_for
  get_or-exposure_for s = ground (arith, get_or-grow es (symbol + 1) s no_exposure)

  length-exposure_for : symbol < length (exposure_for es symbol)
  unfolding exposure_for
  length-exposure_for = ground (arith, length-grow es (symbol + 1) no_exposure)

  gross_of-exposure_for : gross_of (exposure_for es symbol) ≡ gross_of es
  unfolding exposure_for
  gross_of-exposure_for = ground (arith, gross_of-grow es (symbol + 1))

bump_zero :
    (e : Exposure) (side : Side) (delta : ℤ)
    → (pos 0 ≤ℤ e.buys) × (pos 0 ≤ℤ e.sells)
    → eqb_ℤ delta (pos 0) ≡ true
    → bump e side delta ≡ e
unfolding bump clamp ◌+ℤ◌
bump_zero e buy delta n h = ground arith
bump_zero e sell delta n h = ground arith

-- An exposure is a count of leaves on either side.
abbrev pub Nonneg : Exposure → Type 0
Nonneg e = (pos 0 ≤ℤ e.buys) × (pos 0 ≤ℤ e.sells)

module _ {D : Type 0} ⦃d : Double D⦄ (o : OrderManager D) (symbol : ℕ) (side : Side)
    (delta : ℤ) where
  abbrev exposure_at : ℕ → Exposure
  exposure_at s = get_or o.exposure s no_exposure

  -- An update moves one side of one symbol by the change, not below zero.
  pub add_exposure_at :
      (s : ℕ)
      → Nonneg (exposure_at symbol)
      → get_or (add_exposure o symbol side delta).exposure s no_exposure
        ≡ (if symbol == s then bump (exposure_at symbol) side delta else exposure_at s)
  unfolding add_exposure
  add_exposure_at s nonneg = elim (Bool-cases (eqb_ℤ delta (pos 0))) [
    | inl z ↦ ground (arith, bump_zero (exposure_at symbol) side delta nonneg z)
    | inr nz ↦
        let es = exposure_for o.exposure symbol in
        ground (
          arith,
          nz,
          get_or-set es symbol s (bump (get_or es symbol no_exposure) side delta) no_exposure
              (length-exposure_for o.exposure symbol),
          get_or-exposure_for o.exposure symbol s,
          get_or-exposure_for o.exposure symbol symbol,
        )
  ]

  -- The gross exposure stays the sum over the symbols.
  pub add_exposure_gross :
      o.gross_exposure ≡ gross_of o.exposure
      → (add_exposure o symbol side delta).gross_exposure
        ≡ gross_of (add_exposure o symbol side delta).exposure
  unfolding add_exposure
  add_exposure_gross h = elim (Bool-cases (eqb_ℤ delta (pos 0))) [
    | inl z ↦ ground arith
    | inr nz ↦
        let es = exposure_for o.exposure symbol in
        rw nz (
          rw (h) (
            rw (← gross_of-exposure_for o.exposure symbol) (
              sym (
                gross_of-set es symbol (bump (get_or es symbol no_exposure) side delta)
                  (length-exposure_for o.exposure symbol)))))
  ]
