-- ===== src/Instruments.antt =====
-- Instruments and their registry: cpp/src/instrument.cpp, cpp/include/hft/instrument.hpp. The type
-- of the names, `std::string`, is a parameter with the two tests that the code makes of it. Ids are the places of
-- the instruments, of which there are fewer than 2 ^ 32: `SymbolId` has 32 bits.
pub mod Rounding
pub mod Registry
mod Tests
use high_frequency_trading.Base.{
  ℕ, zero, suc, ◌+◌, ◌*◌, ◌/◌, ◌%◌, Bool, true, false, not, ◌&&◌, ◌||◌, Option, none, some, List,
  [], ◌∷◌, ◌++◌, ltb, if◌then◌else◌, get_or, length,
}
use high_frequency_trading.Base.Int.{
  ℤ, pos, negsuc, ◌+ℤ◌, ◌-ℤ◌, neg, max_ℤ, ltb_ℤ, leb_ℤ, eqb_ℤ, pos_part, neg_part,
}
use high_frequency_trading.Types.{Side, buy, sell}

-- The remainder `a % b` and the quotient `a / b` of C++, which truncate towards zero, for a
-- positive divisor.
unfoldable pub rem_ℤ : ℤ → ℤ → ℤ
rem_ℤ (pos a) b = pos (a % pos_part b)
rem_ℤ (negsuc a) b = neg (pos ((a + 1) % pos_part b))

unfoldable pub quot_ℤ : ℤ → ℤ → ℤ
quot_ℤ (pos a) b = pos (a / pos_part b)
quot_ℤ (negsuc a) b = neg (pos ((a + 1) / pos_part b))

pub record Instrument (Name : Type 0) : Type 0 where
  pub id : ℕ
  pub symbol : Name
  pub min_price : ℤ
  pub max_price : ℤ
  pub tick_size : ℤ
  pub lot_size : ℤ
  pub max_position : ℤ

-- Why a definition is refused.
pub data InstrumentError : Type 0 where
  empty_symbol duplicate_symbol band_unusable tick_unusable lot_unusable position_unusable
        no_price_in_band too_many_levels :
      InstrumentError

-- The operations on names: `empty()`, and the comparison of the map.
pub record Names (Name : Type 0) : Type 0 where
  pub is_empty : Name → Bool
  pub same : Name → Name → Bool

pub record InstrumentRegistry (Name : Type 0) : Type 0 where
  pub instruments : List (Instrument Name)
  pub by_name : List (Name × ℕ)

abbrev pub max_band_levels : ℤ
max_band_levels = pos 262144

-- `round_price`, for a tick size.
unfoldable pub snap : ℤ → ℤ → Side → ℤ
snap tick_size p side =
    let remainder = rem_ℤ p tick_size in
    if leb_ℤ tick_size (pos 1)
    then p
    else if eqb_ℤ remainder (pos 0)
    then p
    else elim side [ buy ↦ p -ℤ remainder | sell ↦ p +ℤ (tick_size -ℤ remainder) ]

module _ {Name : Type 0} where
  unfoldable pub price_is_valid : Instrument Name → ℤ → Bool
  price_is_valid i p =
      leb_ℤ i.min_price p
      && leb_ℤ p i.max_price
      && (leb_ℤ i.tick_size (pos 1) || eqb_ℤ (rem_ℤ p i.tick_size) (pos 0))

  unfoldable pub quantity_is_valid : Instrument Name → ℤ → Bool
  quantity_is_valid i q =
      ltb_ℤ (pos 0) q && (leb_ℤ i.lot_size (pos 1) || eqb_ℤ (rem_ℤ q i.lot_size) (pos 0))

  unfoldable pub round_price : Instrument Name → ℤ → Side → ℤ
  round_price i p side = snap i.tick_size p side

  -- The lowest price of the band on the tick grid.
  abbrev pub first_price : Instrument Name → ℤ
  first_price i =
      let remainder = rem_ℤ i.min_price i.tick_size in
      if leb_ℤ i.tick_size (pos 1) || eqb_ℤ remainder (pos 0)
      then i.min_price
      else i.min_price +ℤ (i.tick_size -ℤ remainder)

  abbrev pub band_levels : Instrument Name → ℤ
  band_levels i = quot_ℤ (i.max_price -ℤ first_price i) i.tick_size +ℤ pos 1

  -- The checks of `add` on the definition itself.
  unfoldable pub refusal : Instrument Name → Option InstrumentError
  refusal i =
      if leb_ℤ i.min_price (pos 0) || leb_ℤ i.max_price i.min_price
      then some band_unusable
      else if leb_ℤ i.tick_size (pos 0)
      then some tick_unusable
      else if leb_ℤ i.lot_size (pos 0)
      then some lot_unusable
      else if ltb_ℤ i.max_position (pos 0)
      then some position_unusable
      else if ltb_ℤ i.max_price (first_price i)
      then some no_price_in_band
      else if ltb_ℤ max_band_levels (band_levels i)
      then some too_many_levels
      else none

  unfoldable pub element : List (Instrument Name) → ℕ → Option (Instrument Name)
  element [] id = none
  element (i ∷ is) zero = some i
  element (i ∷ is) (suc id) = element is id

  unfoldable pub find : InstrumentRegistry Name → ℕ → Option (Instrument Name)
  find r id = element r.instruments id

  unfoldable pub insert : InstrumentRegistry Name → Instrument Name → InstrumentRegistry Name
  insert r i =
      let id = length r.instruments in
      record {
        instruments = r.instruments ++ (record i { id = id } ∷ []);
        by_name = (i.symbol, id) ∷ r.by_name;
      }

  -- The smallest of the bands' lower ends, 0 for no instrument.
  unfoldable pub min_price_of : List (Instrument Name) → ℤ → Bool → ℤ
  min_price_of [] lo first = lo
  min_price_of (i ∷ is) lo first =
      min_price_of is (if first || ltb_ℤ i.min_price lo then i.min_price else lo) false

  unfoldable pub max_price_of : List (Instrument Name) → ℤ → ℤ
  max_price_of [] hi = hi
  max_price_of (i ∷ is) hi = max_price_of is (max_ℤ hi i.max_price)

  unfoldable pub clear : InstrumentRegistry Name → InstrumentRegistry Name
  clear r = record { instruments = []; by_name = [] }

abbrev pub is_known : Option ℕ → Bool
is_known none = false
is_known (some id) = true

module _ {Name : Type 0} ⦃n : Names Name⦄ where
  -- The entry of the map `by_name_`.
  unfoldable pub lookup : List (Name × ℕ) → Name → Option ℕ
  lookup [] name = none
  lookup ((key, id) ∷ entries) name =
      let rest = lookup entries name in if n.same key name then some id else rest

  unfoldable pub add :
      InstrumentRegistry Name → Instrument Name → InstrumentRegistry Name × Option InstrumentError
  add r i =
      if n.is_empty i.symbol
      then (r, some empty_symbol)
      else if is_known (lookup r.by_name i.symbol)
      then (r, some duplicate_symbol)
      else elim (refusal i) [ some error ↦ (r, some error) | none ↦ (insert r i, none) ]

  unfoldable pub find_name : InstrumentRegistry Name → Name → Option (Instrument Name)
  find_name r name = elim (lookup r.by_name name) [ none ↦ none | some id ↦ find r id ]
