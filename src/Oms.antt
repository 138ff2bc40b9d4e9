-- ===== src/Oms.antt =====
-- The order manager: cpp/src/oms.cpp, cpp/include/hft/oms.hpp. An operation that changes the
-- manager returns the new one; it returns beside it what the source returns. `D` is the type
-- `double`.
pub mod Records
pub mod Slots
pub mod Reports
pub mod Timeouts
pub mod Exposures
pub mod Booking
pub mod Accounts
pub mod Tracking
pub mod Preservation
pub mod Upkeep
pub mod Lifecycle
pub mod Creation
pub mod Samples
mod Tests
use high_frequency_trading.Base.{
  ℕ, zero, suc, ◌+◌, ◌-◌, ◌%◌, Bool, true, false, not, ◌&&◌, ◌||◌, Option, none, some, List, [],
  ◌∷◌, ◌==◌, ltb, leb, if◌then◌else◌, get_or, replicate, length, word, inc64, sub64,
}
use high_frequency_trading.Base.Int.{ℤ, pos, ◌+ℤ◌, ◌-ℤ◌, neg, min_ℤ, ltb_ℤ, leb_ℤ, eqb_ℤ}
use high_frequency_trading.Types.{Side, buy, sell, OrderType, Order}
use high_frequency_trading.Double.{Double, price_to_double}
use high_frequency_trading.IdIndex.{IdTable, nil_slot, slot_for, reserved}
use Records.{
  OrderState, pending_new, new, partially_filled, pending_cancel, filled, cancelled, rejected,
  expired, is_terminal, is_working, ExecType, acked, venue_rejected, fill, cancel_confirmed,
  cancel_refused, ExecutionReport, OrderRecord, blank_record, OmsStats, no_stats, Config, Exposure,
  no_exposure, OrderManager,
}
use Slots.{index_init, index_insert, index_erase, record_at, write_record, add_exposure, retire}

-- The slots from `n` down to zero are pushed, so that slot 0 is at the back.
abbrev up_from : ℕ → ℕ → List ℕ
up_from i zero = []
up_from i (suc n) = i ∷ up_from (i + 1) n

-- The constructor's corrections of the limits.
unfoldable pub usable : Config → Config
usable c = record {
  ack_timeout_ns = if ltb_ℤ c.ack_timeout_ns (pos 0) then pos 0 else c.ack_timeout_ns;
  max_open_orders = if c.max_open_orders == 0 then 1 else c.max_open_orders;
  retired_history = if c.retired_history == 0 then 1 else c.retired_history;
}

-- The venue has acknowledged the order, and no cancel is under way.
abbrev pub accepts_cancel : OrderState → Bool
accepts_cancel new = true
accepts_cancel partially_filled = true
accepts_cancel _ = false

-- `std::sort` on numbers.
unfoldable pub insert_sorted : ℕ → List ℕ → List ℕ
insert_sorted id [] = id ∷ []
insert_sorted id (x ∷ xs) =
    let rest = insert_sorted id xs in if leb id x then id ∷ x ∷ xs else x ∷ rest

unfoldable pub sort : List ℕ → List ℕ
sort [] = []
sort (x ∷ xs) = insert_sorted x (sort xs)

module _ {D : Type 0} ⦃d : Double D⦄ where
  -- The state of a manager with nothing in it, for a pool of that capacity.
  unfoldable pub empty_with : Config → ℕ → OrderManager D
  unfolding index_init
  empty_with cfg capacity = record {
    cfg = cfg;
    pool = replicate capacity blank_record;
    free_slots = up_from 0 capacity;
    index = index_init capacity;
    open_count = 0;
    next_id = 1;
    exposure = [];
    gross_exposure = pos 0;
    retired = replicate cfg.retired_history 0;
    retired_cursor = 0;
    retired_size = 0;
    stats = no_stats;
  }

  unfoldable pub make : Config → OrderManager D
  make config =
      let cfg = usable config in empty_with cfg ((cfg.max_open_orders + cfg.retired_history) % word)

  unfoldable pub clear : OrderManager D → OrderManager D
  clear o = empty_with o.cfg (length o.pool)

  unfoldable pub find : OrderManager D → ℕ → Option (OrderRecord D)
  find o id =
      let slot = slot_for o.index id in if slot == nil_slot then none else some (record_at o slot)

  unfoldable pub set_next_id : OrderManager D → ℕ → OrderManager D
  set_next_id o next = record o { next_id = if ltb o.next_id next then next else o.next_id }

  abbrev pub count_reject : OrderManager D → OrderManager D
  count_reject o = record o {
    stats = record (o.stats) { capacity_rejects = inc64 o.stats.capacity_rejects };
  }

  abbrev pub oldest_retired : OrderManager D → ℕ
  oldest_retired o =
      get_or o.retired ((o.retired_cursor + length o.retired - o.retired_size) % length o.retired) 0

  -- The slot for a new order: a free one, or else that of the order retired longest ago.
  unfoldable pub alloc_slot : OrderManager D → List ℕ → Option (ℕ × OrderManager D)
  alloc_slot o (slot ∷ rest) = some (slot, record o { free_slots = rest })
  alloc_slot o [] =
      let evicted = oldest_retired o in
      let slot = slot_for o.index evicted in
      if o.retired_size == 0 || slot == nil_slot
      then none
      else some (
        slot,
        record o { index = index_erase o.index evicted; retired_size = sub64 o.retired_size 1 },
      )

  abbrev pub fresh_record : ℕ → Order → ℤ → OrderRecord D
  fresh_record id order now_ns = record blank_record {
    cl_ord_id = id;
    symbol = order.symbol;
    side = order.side;
    type = order.type;
    price = order.price;
    quantity = order.quantity;
    leaves = order.quantity;
    state = pending_new;
    created_ts_ns = now_ns;
    last_update_ts_ns = now_ns;
  }

  -- The end of `create_with_id`, once the order has a slot.
  unfoldable pub install : OrderManager D → ℕ → ℕ → Order → ℤ → OrderManager D
  install o slot id order now_ns =
      let o₁ = record o { next_id = if leb o.next_id id then inc64 id else o.next_id } in
      let o₂ = write_record o₁ slot (fresh_record id order now_ns) in
      let o₃ = record o₂ { index = index_insert o.index id slot; open_count = o.open_count + 1 } in
      let o₄ = add_exposure o₃ order.symbol order.side order.quantity in
      record o₄ { stats = record (o₄.stats) { created = inc64 o₄.stats.created } }

  -- No slot, or the slot and the manager that `alloc_slot` gave.
  unfoldable pub install_in :
      OrderManager D → Option (ℕ × OrderManager D) → ℕ → Order → ℤ → OrderManager D × ℕ
  install_in o none id order now_ns = (count_reject o, 0)
  install_in o (some (slot, o')) id order now_ns = (install o' slot id order now_ns, id)

  unfoldable pub create_with_id : OrderManager D → ℕ → Order → ℤ → OrderManager D × ℕ
  create_with_id o id order now_ns =
      if id == 0 || not (slot_for o.index id == nil_slot)
      then (count_reject o, 0)
      else if leb_ℤ order.quantity (pos 0) || leb o.cfg.max_open_orders o.open_count
      then (count_reject o, 0)
      else install_in o (alloc_slot o o.free_slots) id order now_ns

  unfoldable pub create : OrderManager D → Order → ℤ → OrderManager D × ℕ
  create o order now_ns = create_with_id o o.next_id order now_ns

  unfoldable pub request_cancel : OrderManager D → ℕ → ℤ → OrderManager D × Bool
  request_cancel o id now_ns =
      let slot = slot_for o.index id in
      let rec = record_at o slot in
      let cancelling =
        record (write_record o slot
          (record rec { state = pending_cancel; last_update_ts_ns = now_ns })) {
            stats = record (o.stats) { cancels_requested = inc64 o.stats.cancels_requested };
          } in
      if slot == nil_slot
      then (o, false)
      else if accepts_cancel rec.state
      then (cancelling, true)
      else (o, false)

  unfoldable pub working_quantity : OrderManager D → ℕ → Side → ℤ
  working_quantity o symbol buy = (get_or o.exposure symbol no_exposure).buys
  working_quantity o symbol sell = (get_or o.exposure symbol no_exposure).sells

  unfoldable pub working_exposure : OrderManager D → ℕ → ℤ
  working_exposure o symbol = let e = get_or o.exposure symbol no_exposure in e.buys -ℤ e.sells

  unfoldable pub gross_working_exposure : OrderManager D → ℤ
  gross_working_exposure o = o.gross_exposure

  -- The quantity that the venue says is left, within the order's.
  abbrev pub venue_leaves : OrderRecord D → ℤ → ℤ
  venue_leaves snapshot quantity =
      let leaves = if ltb_ℤ snapshot.leaves (pos 0) then pos 0 else snapshot.leaves in
      if ltb_ℤ quantity leaves then quantity else leaves

  abbrev pub order_of : OrderRecord D → ℤ → Order
  order_of snapshot now_ns = record {
    id = 0;
    symbol = snapshot.symbol;
    side = snapshot.side;
    type = snapshot.type;
    price = snapshot.price;
    quantity = snapshot.quantity;
    created_ts_ns = now_ns;
  }

  abbrev pub inherited : OrderRecord D → OrderRecord D → ℤ → OrderRecord D
  inherited rec snapshot now_ns = record rec {
    leaves = venue_leaves snapshot rec.quantity;
    filled = min_ℤ (if ltb_ℤ snapshot.filled (pos 0) then pos 0 else snapshot.filled) rec.quantity;
    venue_order_id = snapshot.venue_order_id;
    avg_fill_price = snapshot.avg_fill_price;
    fees = snapshot.fees;
    state = snapshot.state;
    created_ts_ns = if eqb_ℤ snapshot.created_ts_ns (pos 0) then now_ns else snapshot.created_ts_ns;
    acked_ts_ns = now_ns;
    last_update_ts_ns = now_ns;
  }

  -- The correction of the record that `create_with_id` made.
  unfoldable pub inherit : OrderManager D → ℕ → OrderRecord D → ℤ → OrderManager D
  inherit o slot snapshot now_ns =
      let rec = record_at o slot in
      let o₁ =
        add_exposure o rec.symbol rec.side (venue_leaves snapshot rec.quantity -ℤ rec.leaves) in
      record (write_record o₁ slot (inherited rec snapshot now_ns)) {
        stats = record (o₁.stats) {
          created = sub64 o₁.stats.created 1;
          adopted = inc64 o₁.stats.adopted;
        };
      }

  unfoldable pub adopt : OrderManager D → OrderRecord D → ℤ → OrderManager D × ℕ
  adopt o snapshot now_ns =
      let (o', id) = create_with_id o snapshot.cl_ord_id (order_of snapshot now_ns) now_ns in
      if is_terminal snapshot.state
      then (count_reject o, 0)
      else if id == 0
      then (o', 0)
      else (inherit o' (slot_for o'.index id) snapshot now_ns, id)

  -- The ids of the working orders, in the order of the index.
  unfoldable pub collect_open : OrderManager D → List ℕ → List ℕ → List ℕ
  collect_open o (key ∷ keys) (slot ∷ slots) =
      let rest = collect_open o keys slots in
      if reserved key
      then rest
      else if is_working (record_at o slot).state
      then key ∷ rest
      else rest
  collect_open o _ _ = []

  unfoldable pub open_orders : OrderManager D → List ℕ
  open_orders o = sort (collect_open o o.index.keys o.index.vals)
