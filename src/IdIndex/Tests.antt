-- ===== src/IdIndex/Tests.antt =====
-- Instances of the id index's theorems, on a table of eight cells.
use high_frequency_trading.Base.{
  ℕ, ◌≡◌, refl, ◌≢◌, ◌⊎◌, some, arith, ◌==◌, if◌then◌else◌, get_or, length,
}
use high_frequency_trading.Base.Bits.{bit_and_mask}
use high_frequency_trading.IdIndex.{
  IdTable, nil_slot, mix, home, walk, ends_lookup, slot_for, vacant, place, put_at, erase, rebuild,
}
use high_frequency_trading.IdIndex.Counts.{occurrences}
use high_frequency_trading.IdIndex.Invariant.{IsValid}
use high_frequency_trading.IdIndex.Lookup.{walk_ends, slot_for-cases}
use high_frequency_trading.IdIndex.Update.{place-IsValid, slot_for-place, slot_for-erase}
use high_frequency_trading.IdIndex.Rebuild.{
  Sizing, vacant-IsValid, slot_for-vacant, slot_for-rebuild,
}

eight : Sizing 8 7
eight = record { some_cell = omega arith; word_size = omega arith; mask_mod = bit_and_mask 3 }

abbrev no_orders : IdTable
no_orders = vacant 8 7

abbrev one_order : IdTable
one_order = place no_orders 41 2

one_order-IsValid : IsValid one_order
unfolding occurrences
one_order-IsValid =
    place-IsValid no_orders 41 2 (vacant-IsValid 8 7 eight) refl (omega arith)
      (slot_for-vacant 8 7 41) (omega arith)

one_order_found : slot_for one_order 41 ≡ 2
unfolding slot_for walk mix place put_at
one_order_found = refl

slot_for-place_example :
    slot_for (place no_orders 41 2) 42 ≡ (if 42 == 41 then 2 else slot_for no_orders 42)
unfolding occurrences
slot_for-place_example =
    slot_for-place no_orders 41 2 (vacant-IsValid 8 7 eight) refl (omega arith)
      (slot_for-vacant 8 7 41) (omega arith) 42

slot_for-erase_example :
    slot_for (erase one_order 41) 42 ≡ (if 42 == 41 then nil_slot else slot_for one_order 42)
slot_for-erase_example = slot_for-erase one_order 41 one_order-IsValid refl 42

slot_for-rebuild_example : slot_for (rebuild one_order 8 7) 41 ≡ slot_for one_order 41
unfolding place walk put_at mix
slot_for-rebuild_example = slot_for-rebuild one_order 8 7 one_order-IsValid eight (omega arith) 41

slot_for-cases_example :
    ((p : ℕ) × (get_or one_order.keys p 0 ≡ 41)
      × (slot_for one_order 41 ≡ get_or one_order.vals p nil_slot))
    ⊎ (((p : ℕ) → get_or one_order.keys p 0 ≢ 41) × (slot_for one_order 41 ≡ nil_slot))
slot_for-cases_example = slot_for-cases one_order 41 one_order-IsValid refl

walk_ends_example :
    (q : ℕ) × (walk
        (ends_lookup 41)
        one_order.keys
        one_order.mask
        (length one_order.keys)
        (home one_order.mask 41)
      ≡ some q)
walk_ends_example = walk_ends one_order 41 (ends_lookup 41) one_order-IsValid refl
