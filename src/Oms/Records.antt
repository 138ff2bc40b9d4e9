-- ===== src/Oms/Records.antt =====
-- The data of the order manager: cpp/include/hft/oms.hpp. `D` is the type `double`.
use high_frequency_trading.Base.{ℕ, Bool, true, false, not, add64, List}
use high_frequency_trading.Base.Int.{ℤ, pos}
use high_frequency_trading.Types.{Side, buy, OrderType, limit}
use high_frequency_trading.Double.{Double}
use high_frequency_trading.IdIndex.{IdTable}

pub data OrderState : Type 0 where
  pending_new new partially_filled pending_cancel filled cancelled rejected expired : OrderState

unfoldable pub is_terminal : OrderState → Bool
is_terminal filled = true
is_terminal cancelled = true
is_terminal rejected = true
is_terminal expired = true
is_terminal _ = false

unfoldable pub is_working : OrderState → Bool
unfolding is_terminal
is_working s = not (is_terminal s)

pub data ExecType : Type 0 where
  acked venue_rejected fill cancel_confirmed cancel_refused : ExecType

pub record ExecutionReport (D : Type 0) : Type 0 where
  pub cl_ord_id : ℕ
  pub venue_order_id : ℕ
  pub symbol : ℕ
  pub side : Side
  pub type : ExecType
  pub price : ℤ
  pub quantity : ℤ
  pub fee : D
  pub ts_ns : ℤ

pub record OrderRecord (D : Type 0) : Type 0 where
  pub cl_ord_id : ℕ
  pub venue_order_id : ℕ
  pub symbol : ℕ
  pub side : Side
  pub type : OrderType
  pub price : ℤ
  pub quantity : ℤ
  pub filled : ℤ
  pub leaves : ℤ
  pub avg_fill_price : D
  pub fees : D
  pub state : OrderState
  pub created_ts_ns : ℤ
  pub acked_ts_ns : ℤ
  pub last_update_ts_ns : ℤ

-- `OrderRecord{}`.
abbrev pub blank_record : {D : Type 0} ⦃d : Double D⦄ → OrderRecord D
blank_record ⦃d⦄ = record {
  cl_ord_id = 0;
  venue_order_id = 0;
  symbol = 0;
  side = buy;
  type = limit;
  price = pos 0;
  quantity = pos 0;
  filled = pos 0;
  leaves = pos 0;
  avg_fill_price = d.of_ℤ (pos 0);
  fees = d.of_ℤ (pos 0);
  state = pending_new;
  created_ts_ns = pos 0;
  acked_ts_ns = pos 0;
  last_update_ts_ns = pos 0;
}

pub record OmsStats : Type 0 where
  pub created : ℕ
  pub acked : ℕ
  pub fills : ℕ
  pub filled_orders : ℕ
  pub cancels_requested : ℕ
  pub cancelled : ℕ
  pub cancel_rejected : ℕ
  pub venue_rejected : ℕ
  pub expired : ℕ
  pub adopted : ℕ
  pub unknown_reports : ℕ
  pub late_reports : ℕ
  pub invalid_transitions : ℕ
  pub overfills : ℕ
  pub capacity_rejects : ℕ

abbrev pub no_stats : OmsStats
no_stats = record {
  created = 0;
  acked = 0;
  fills = 0;
  filled_orders = 0;
  cancels_requested = 0;
  cancelled = 0;
  cancel_rejected = 0;
  venue_rejected = 0;
  expired = 0;
  adopted = 0;
  unknown_reports = 0;
  late_reports = 0;
  invalid_transitions = 0;
  overfills = 0;
  capacity_rejects = 0;
}

unfoldable pub breaks : OmsStats → ℕ
breaks s =
    add64 (add64 (add64 s.unknown_reports s.invalid_transitions) s.overfills) s.capacity_rejects

pub record Config : Type 0 where
  pub ack_timeout_ns : ℤ
  pub max_open_orders : ℕ
  pub retired_history : ℕ

pub record Exposure : Type 0 where
  pub buys : ℤ
  pub sells : ℤ

abbrev pub no_exposure : Exposure
no_exposure = record { buys = pos 0; sells = pos 0 }

-- The id_keys_, id_vals_, id_mask_, id_count_ and id_tombstones_ are the field `index`. The list
-- `free_slots` has the back of the vector first.
pub record OrderManager (D : Type 0) : Type 0 where
  pub cfg : Config
  pub pool : List (OrderRecord D)
  pub free_slots : List ℕ
  pub index : IdTable
  pub open_count : ℕ
  pub next_id : ℕ
  pub exposure : List Exposure
  pub gross_exposure : ℤ
  pub retired : List ℕ
  pub retired_cursor : ℕ
  pub retired_size : ℕ
  pub stats : OmsStats
