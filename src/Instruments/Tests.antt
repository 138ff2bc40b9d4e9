-- ===== src/Instruments/Tests.antt =====
-- Instances of the theorems on instruments, with numbers for names.
use high_frequency_trading.Base.{ℕ, ◌==◌, ==_iff, ◌≡◌, refl, some, [], arith}
use high_frequency_trading.Base.Int.{pos, ◌+ℤ◌, ◌-ℤ◌}
use high_frequency_trading.Types.{buy}
use high_frequency_trading.Instruments.{
  Instrument, Names, InstrumentRegistry, refusal, element, find, find_name, add, insert, lookup,
  round_price, rem_ℤ, quot_ℤ,
}
use high_frequency_trading.Instruments.Rounding.{Rounded, round_price_lem}
use high_frequency_trading.Instruments.Registry.{IsValid, add-IsValid, find_name-add}

abbrev numbered : Names ℕ
numbered = record { is_empty = λ name. name == 0; same = ◌==◌ }

abbrev coarse : Instrument ℕ
coarse = record {
  id = 0;
  symbol = 7;
  min_price = pos 5000;
  max_price = pos 15000;
  tick_size = pos 25;
  lot_size = pos 10;
  max_position = pos 0;
}

abbrev no_instruments : InstrumentRegistry ℕ
no_instruments = record { instruments = []; by_name = [] }

no_instruments-IsValid : IsValid ⦃n = numbered⦄ no_instruments
unfolding find element lookup
no_instruments-IsValid = record {
  dense = λ id i h. absurd (ground arith);
  usable = λ id i h. absurd (ground arith);
  named = λ name id h. absurd (ground arith);
}

round_price_lem_example :
    (rem_ℤ (round_price coarse (pos 10013) buy) (pos 25) ≡ pos 0)
    × Rounded (pos 25) (pos 10013) buy (round_price coarse (pos 10013) buy)
round_price_lem_example = round_price_lem coarse (pos 10013) buy (omega arith) (omega arith)

add-IsValid_example : IsValid ⦃n = numbered⦄ (add ⦃n = numbered⦄ no_instruments coarse).0
add-IsValid_example = add-IsValid ⦃n = numbered⦄ no_instruments coarse no_instruments-IsValid

find_name-add_example :
    find_name ⦃n = numbered⦄ (add ⦃n = numbered⦄ no_instruments coarse).0 7
    ≡ some (record coarse { id = 0 })
unfolding add insert lookup refusal rem_ℤ quot_ℤ ◌+ℤ◌ ◌-ℤ◌
find_name-add_example =
    find_name-add ⦃n = numbered⦄ no_instruments coarse (λ name. (==_iff name name).1 refl) refl
