-- ===== src/Oms/Samples.antt =====
-- A manager of cpp/src/oms.cpp with one order of 100 lots, for runs and instances.
use high_frequency_trading.Base.{
  ℕ, zero, suc, ◌≡◌, refl, false, [], ◌∷◌, arith, ◌==◌, if◌then◌else◌, get_or,
}
use high_frequency_trading.Base.Bits.{bit_and_mask}
use high_frequency_trading.Base.Int.{ℤ, pos, ◌+ℤ◌, ◌-ℤ◌, ◌≤ℤ◌}
use high_frequency_trading.Types.{buy, sell}
use high_frequency_trading.Double.Whole.{whole}
use high_frequency_trading.IdIndex.{IdTable, slot_for, vacant, place}
use high_frequency_trading.IdIndex.Counts.{occurrences}
use high_frequency_trading.IdIndex.Update.{place-IsValid, slot_for-place}
use high_frequency_trading.IdIndex.Rebuild.{Sizing, vacant-IsValid, slot_for-vacant}
use high_frequency_trading.Oms.Records.{
  OrderState, new, is_terminal, OrderRecord, blank_record, no_stats, no_exposure, OrderManager,
}
use high_frequency_trading.Oms.Slots.{record_at, clamp}
use high_frequency_trading.Oms.Exposures.{gross_of}
use high_frequency_trading.Oms.Booking.{leaves_of}
use high_frequency_trading.Oms.Accounts.{Sound}
use high_frequency_trading.Oms.Tracking.{Points, Tracked}

eight_cells : Sizing 8 7
eight_cells = record { some_cell = omega arith; word_size = omega arith; mask_mod = bit_and_mask 3 }

abbrev pub orders : IdTable
orders = place (vacant 8 7) 1 0

pub slot_for-orders :
    (id : ℕ) → slot_for orders id ≡ (if id == 1 then 0 else slot_for (vacant 8 7) id)
unfolding occurrences
slot_for-orders =
    slot_for-place (vacant 8 7) 1 0 (vacant-IsValid 8 7 eight_cells) refl (omega arith)
      (slot_for-vacant 8 7 1) (omega arith)

abbrev pub lots : OrderRecord ℤ
lots = record (blank_record ⦃d = whole⦄) {
  cl_ord_id = 1;
  quantity = pos 100;
  filled = pos 30;
  leaves = pos 70;
  state = new;
}

-- The manager with its order in a given state.
abbrev pub manager_in : OrderState → OrderManager ℤ
manager_in state = record {
  cfg = record { ack_timeout_ns = pos 1000; max_open_orders = 2; retired_history = 1 };
  pool = record lots { state = state } ∷ [];
  free_slots = [];
  index = orders;
  open_count = 1;
  next_id = 2;
  exposure = record { buys = pos 70; sells = pos 0 } ∷ [];
  gross_exposure = pos 70;
  retired = 0 ∷ [];
  retired_cursor = 0;
  retired_size = 0;
  stats = no_stats;
}

abbrev pub manager : OrderManager ℤ
manager = manager_in new

pub manager-Points : Points orders 1
unfolding occurrences
manager-Points = record {
  table =
      place-IsValid (vacant 8 7) 1 0 (vacant-IsValid 8 7 eight_cells) refl (omega arith)
        (slot_for-vacant 8 7 1) (omega arith);
  in_range = λ id known. ground (arith, slot_for-orders id, slot_for-vacant 8 7 id);
}

module _ (state : OrderState) where
  lots_nonneg : (i : ℕ) → pos 0 ≤ℤ (record_at ⦃d = whole⦄ (manager_in state) i).leaves
  lots_nonneg zero = omega arith
  lots_nonneg (suc i) = omega arith

  no_buys :
      (s : ℕ)
      → (get_or (manager_in state).exposure s no_exposure).buys
        ≡ leaves_of buy s (manager_in state).pool
  unfolding leaves_of ◌+ℤ◌
  no_buys zero = refl
  no_buys (suc s) = ground arith

  no_sells :
      (s : ℕ)
      → (get_or (manager_in state).exposure s no_exposure).sells
        ≡ leaves_of sell s (manager_in state).pool
  unfolding leaves_of ◌+ℤ◌
  no_sells zero = refl
  no_sells (suc s) = ground arith

  module _ (live : is_terminal state ≡ false) where
    manager_in-Sound : (i : ℕ) → Sound ⦃d = whole⦄ (record_at ⦃d = whole⦄ (manager_in state) i)
    unfolding clamp ◌-ℤ◌
    manager_in-Sound zero = record { leaves_lem = λ w. refl; done = λ t. ground (arith, live, t) }
    manager_in-Sound (suc i) = record {
      leaves_lem = λ w. refl;
      done = λ t. unfold is_terminal in ground arith;
    }

    pub manager_in-Tracked : Tracked ⦃d = whole⦄ (manager_in state)
    unfolding gross_of ◌+ℤ◌ ◌-ℤ◌
    manager_in-Tracked = record {
      points = manager-Points;
      sound = manager_in-Sound;
      booked = record { nonneg = lots_nonneg; buys = no_buys; sells = no_sells; gross = refl };
    }

pub manager-Tracked : Tracked ⦃d = whole⦄ manager
unfolding is_terminal
manager-Tracked = manager_in-Tracked new refl
