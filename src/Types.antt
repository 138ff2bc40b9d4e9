-- ===== src/Types.antt =====
-- The value types that the engine's parts share: cpp/include/hft/types.hpp.
-- Prices, quantities and times are signed, identifiers are unsigned; `D` is the type `double`.
use high_frequency_trading.Base.{ℕ, Bool, true, false}
use high_frequency_trading.Base.Int.{ℤ, neg}

pub data Side : Type 0 where
  buy sell : Side

unfoldable pub opposite : Side → Side
opposite buy = sell
opposite sell = buy

abbrev pub side_eq : Side → Side → Bool
side_eq buy buy = true
side_eq sell sell = true
side_eq _ _ = false

-- `(side == Side::Buy) ? quantity : -quantity`.
unfoldable pub signed_quantity : Side → ℤ → ℤ
signed_quantity buy q = q
signed_quantity sell q = neg q

pub data TickType : Type 0 where
  trade quote add_order cancel_order : TickType

pub record Tick : Type 0 where
  pub symbol : ℕ
  pub type : TickType
  pub side : Side
  pub price : ℤ
  pub quantity : ℤ
  pub order_id : ℕ
  pub source_ts_ns : ℤ
  pub ingest_ts_ns : ℤ
  pub sequence : ℕ

pub record Signal : Type 0 where
  pub symbol : ℕ
  pub side : Side
  pub price : ℤ
  pub tick_ingest_ts_ns : ℤ

pub data OrderType : Type 0 where
  limit market : OrderType

pub record Order : Type 0 where
  pub id : ℕ
  pub symbol : ℕ
  pub side : Side
  pub type : OrderType
  pub price : ℤ
  pub quantity : ℤ
  pub created_ts_ns : ℤ

pub record Fill (D : Type 0) : Type 0 where
  pub order_id : ℕ
  pub symbol : ℕ
  pub side : Side
  pub price : ℤ
  pub quantity : ℤ
  pub fee : D
  pub filled_ts_ns : ℤ
