-- ===== src/Book/Records.antt =====
-- The data of the order book: cpp/include/hft/order_book.hpp, with the band and the tick grid of
-- cpp/src/order_book.cpp.
use high_frequency_trading.Base.{
  ℕ, ◌+◌, ◌-◌, ◌^◌, Bool, false, ◌&&◌, Option, none, some, List, [], if◌then◌else◌, get_or, set,
  replicate,
}
use high_frequency_trading.Base.Int.{
  ℤ, pos, negsuc, ◌+ℤ◌, ◌-ℤ◌, ◌*ℤ◌, ltb_ℤ, leb_ℤ, eqb_ℤ, pos_part,
}
use high_frequency_trading.Types.{Side, buy, sell}
use high_frequency_trading.IdIndex.{IdTable, vacant}
use high_frequency_trading.Instruments.{rem_ℤ, quot_ℤ}
use high_frequency_trading.Book.Bitmap.{LevelBitmap, make_bitmap}

-- kNoPrice, the least Price, and kNilNode.
abbrev pub no_price : ℤ
no_price = negsuc (2 ^ 63 - 1)

abbrev pub nil_node : ℕ
nil_node = 0xFFFFFFFF

pub data SelfMatchPolicy : Type 0 where
  no_policy cancel_resting cancel_aggressor : SelfMatchPolicy

pub record Trade : Type 0 where
  pub aggressor_id : ℕ
  pub resting_id : ℕ
  pub aggressor_side : Side
  pub price : ℤ
  pub quantity : ℤ

pub record OrderNode : Type 0 where
  pub id : ℕ
  pub price : ℤ
  pub quantity : ℤ
  pub prev : ℕ
  pub next : ℕ
  pub owner : ℕ
  pub side : Side
  pub live : Bool

abbrev pub blank_node : OrderNode
blank_node = record {
  id = 0;
  price = pos 0;
  quantity = pos 0;
  prev = nil_node;
  next = nil_node;
  owner = 0;
  side = buy;
  live = false;
}

pub record PriceLevel : Type 0 where
  pub total_quantity : ℤ
  pub order_count : ℕ
  pub head : ℕ
  pub tail : ℕ

abbrev pub blank_level : PriceLevel
blank_level = record { total_quantity = pos 0; order_count = 0; head = nil_node; tail = nil_node }

pub record LevelView : Type 0 where
  pub price : ℤ
  pub quantity : ℤ
  pub order_count : ℕ

pub record ValidBand : Type 0 where
  pub min_price : ℤ
  pub max_price : ℤ
  pub tick_size : ℤ
  pub base : ℤ
  pub levels : ℕ

-- The id index is the table of IdIndex.
pub record OrderBook : Type 0 where
  pub min_price : ℤ
  pub max_price : ℤ
  pub tick_size : ℤ
  pub base : ℤ
  pub bids : List PriceLevel
  pub asks : List PriceLevel
  pub bid_map : LevelBitmap
  pub ask_map : LevelBitmap
  pub smp : SelfMatchPolicy
  pub smp_events : ℕ
  pub aggressor_stopped : Bool
  pub pool : List OrderNode
  pub free_head : ℕ
  pub live_orders : ℕ
  pub ids : IdTable

unfoldable pub grid_base : ℤ → ℤ → ℤ
grid_base min_price tick_size =
    let off = rem_ℤ min_price tick_size in
    if leb_ℤ tick_size (pos 1)
    then min_price
    else if eqb_ℤ off (pos 0)
    then min_price
    else min_price +ℤ (tick_size -ℤ off)

unfoldable pub grid_levels : ℤ → ℤ → ℤ → ℕ
unfolding grid_base
grid_levels min_price max_price tick_size =
    let base = grid_base min_price tick_size in
    if leb_ℤ tick_size (pos 0)
    then 0
    else if ltb_ℤ max_price min_price
    then 0
    else if ltb_ℤ max_price base
    then 0
    else pos_part (quot_ℤ (max_price -ℤ base) tick_size) + 1

-- `none` for a band that the constructor throws for.
unfoldable pub check_band : ℤ → ℤ → ℤ → Option ValidBand
unfolding grid_base grid_levels
check_band min_price max_price tick_size =
    let base = grid_base min_price tick_size in
    if leb_ℤ tick_size (pos 0)
    then none
    else if ltb_ℤ max_price min_price
    then none
    else if ltb_ℤ max_price base
    then none
    else some (record {
      min_price = min_price;
      max_price = max_price;
      tick_size = tick_size;
      base = base;
      levels = grid_levels min_price max_price tick_size;
    })

abbrev pub initial_cells : ℕ
initial_cells = 1024

-- The bitmap's constructor throws for a band of too many levels.
unfoldable pub book_on : ValidBand → Option OrderBook
book_on band = elim (make_bitmap band.levels) [
  | none ↦ none
  | some map ↦ some (record {
    min_price = band.min_price;
    max_price = band.max_price;
    tick_size = band.tick_size;
    base = band.base;
    bids = replicate band.levels blank_level;
    asks = replicate band.levels blank_level;
    bid_map = map;
    ask_map = map;
    smp = no_policy;
    smp_events = 0;
    aggressor_stopped = false;
    pool = [];
    free_head = nil_node;
    live_orders = 0;
    ids = vacant initial_cells (initial_cells - 1);
  })
]

unfoldable pub make : ℤ → ℤ → ℤ → Option OrderBook
unfolding check_band book_on
make min_price max_price tick_size = elim (check_band min_price max_price tick_size) [
  | none ↦ none
  | some band ↦ book_on band
]

unfoldable pub in_band : OrderBook → ℤ → Bool
in_band b p =
    leb_ℤ b.base p && leb_ℤ p b.max_price && eqb_ℤ (rem_ℤ (p -ℤ b.base) b.tick_size) (pos 0)

unfoldable pub index_of : OrderBook → ℤ → ℕ
index_of b p = pos_part (quot_ℤ (p -ℤ b.base) b.tick_size)

unfoldable pub price_at : OrderBook → ℕ → ℤ
price_at b i = b.base +ℤ pos i *ℤ b.tick_size

-- side_levels and side_bitmap, read and written.
abbrev pub side_levels : OrderBook → Side → List PriceLevel
side_levels b buy = b.bids
side_levels b sell = b.asks

abbrev pub side_bitmap : OrderBook → Side → LevelBitmap
side_bitmap b buy = b.bid_map
side_bitmap b sell = b.ask_map

abbrev pub level_at : OrderBook → Side → ℕ → PriceLevel
level_at b side i = get_or (side_levels b side) i blank_level

abbrev pub with_level : OrderBook → Side → ℕ → PriceLevel → OrderBook
with_level b buy i level = record b { bids = set b.bids i level }
with_level b sell i level = record b { asks = set b.asks i level }

abbrev pub with_bitmap : OrderBook → Side → LevelBitmap → OrderBook
with_bitmap b buy map = record b { bid_map = map }
with_bitmap b sell map = record b { ask_map = map }

abbrev pub node_at : List OrderNode → ℕ → OrderNode
node_at pool slot = get_or pool slot blank_node
