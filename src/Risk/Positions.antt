-- ===== src/Risk/Positions.antt =====
-- The positions of cpp/src/risk.cpp and their gross.
use high_frequency_trading.Base.{
  ℕ, zero, suc, ◌+◌, ◌-◌, ◌<◌, ◌≡◌, refl, ap, List, [], ◌∷◌, ◌++◌, arith, inl, inr, leb, ◌==◌,
  if◌then◌else◌, Bool-cases, get_or, set, replicate, reach, length, length-reach, get_or-reach,
  get_or-set-reach,
}
use high_frequency_trading.Base.Int.{ℤ, pos, ◌+ℤ◌, ◌-ℤ◌, abs, leb_ℤ, int_laws}
use high_frequency_trading.Types.{Fill, signed_quantity}
use high_frequency_trading.Risk.{RiskManager, position, on_fill}

-- The gross position: the sum of |position| across the symbols.
unfoldable pub total : List ℤ → ℤ
total [] = pos 0
total (p ∷ ps) = abs p +ℤ total ps

total-zeros : (k : ℕ) → total (replicate k (pos 0)) ≡ pos 0
unfolding total ◌+ℤ◌
total-zeros zero = refl
total-zeros (suc k) = rw (total-zeros k) refl

total-padded : (ps : List ℤ) (k : ℕ) → total (ps ++ replicate k (pos 0)) ≡ total ps
unfolding total
total-padded [] k = total-zeros k
total-padded (p ∷ ps) k = ap (λ t. abs p +ℤ t) (total-padded ps k)

total-reach : (ps : List ℤ) (i : ℕ) → total (reach ps i (pos 0)) ≡ total ps
total-reach ps i = elim (Bool-cases (leb (length ps) i)) [
  | inl short ↦ rw short (total-padded ps (i + 1 - length ps))
  | inr long ↦ rw long refl
]

total-set :
    (ps : List ℤ) (i : ℕ) (v : ℤ)
    → i < length ps
    → total (set ps i v) ≡ total ps +ℤ (abs v -ℤ abs (get_or ps i (pos 0)))
unfolding total
total-set [] i v h = elim h [ ]
total-set (p ∷ ps) zero v h = grind int_laws
total-set (p ∷ ps) (suc i) v h = grind (int_laws, total-set ps i v (omega arith))

module _ {D : Type 0} where
  -- A fill of a positive quantity moves the position of its own symbol by the signed quantity, and
  -- no other; one of no positive quantity moves none.
  pub position-on_fill :
      (r : RiskManager D) (fill : Fill D) (symbol : ℕ)
      → position (on_fill r fill) symbol ≡ (
          if leb_ℤ fill.quantity (pos 0)
          then position r symbol
          else (if fill.symbol == symbol
              then position r fill.symbol +ℤ signed_quantity fill.side fill.quantity
              else position r symbol))
  unfolding position on_fill
  position-on_fill r fill symbol = elim (Bool-cases (leb_ℤ fill.quantity (pos 0))) [
    | inl empty ↦ rw empty refl
    | inr fills ↦
        rw
          (
            fills,
            get_or-set-reach r.positions fill.symbol symbol
                (get_or (reach r.positions fill.symbol (pos 0)) fill.symbol (pos 0)
                  +ℤ signed_quantity fill.side fill.quantity)
                (pos 0),
            get_or-reach r.positions fill.symbol fill.symbol (pos 0),
          )
          refl
  ]

  -- If the running gross position is the sum of |position| across the symbols, it is so after any
  -- fill.
  pub on_fill-total :
      (r : RiskManager D) (fill : Fill D)
      → r.gross_position ≡ total r.positions
      → (on_fill r fill).gross_position ≡ total (on_fill r fill).positions
  unfolding on_fill
  on_fill-total r fill h = elim (Bool-cases (leb_ℤ fill.quantity (pos 0))) [
    | inl empty ↦ rw empty h
    | inr fills ↦
        rw
          (
            fills,
            total-set (reach r.positions fill.symbol (pos 0)) fill.symbol
                (get_or (reach r.positions fill.symbol (pos 0)) fill.symbol (pos 0)
                  +ℤ signed_quantity fill.side fill.quantity)
                (length-reach r.positions fill.symbol (pos 0)),
            total-reach r.positions fill.symbol,
          )
          (rw h refl)
  ]
