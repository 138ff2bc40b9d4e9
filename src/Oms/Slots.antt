-- ===== src/Oms/Slots.antt =====
-- The private parts of OrderManager (cpp/src/oms.cpp): the index, the slots, the exposure and the
-- ring of retired orders.
use high_frequency_trading.Base.{
  ℕ, zero, suc, ◌+◌, ◌-◌, ◌*◌, ◌%◌, true, false, List, ◌∷◌, ◌==◌, ltb, leb, if◌then◌else◌, get_or,
  set, grow, length, word, inc64, sub64,
}
use high_frequency_trading.Base.Int.{ℤ, pos, ◌+ℤ◌, ◌-ℤ◌, neg, abs, ltb_ℤ, eqb_ℤ}
use high_frequency_trading.Types.{Side, buy, sell}
use high_frequency_trading.Double.{Double}
use high_frequency_trading.IdIndex
use high_frequency_trading.IdIndex.{IdTable, nil_slot, slot_for, place, erase, rebuild, reserved}
use high_frequency_trading.Oms.Records.{
  OrderRecord, blank_record, Exposure, no_exposure, OrderManager,
}

-- `while (size < target) size <<= 1`. The fuel is the number of doublings left.
unfoldable pub double_until : ℕ → ℕ → ℕ → ℕ
double_until zero target size = size
double_until (suc fuel) target size = elim (ltb size target) [
  | true ↦ double_until fuel target (size * 2 % word)
  | false ↦ size
]

-- A size_t takes at most 64 doublings.
unfoldable pub index_size : ℕ → ℕ
unfolding double_until
index_size capacity = double_until 64 (capacity * 4 % word) 64

unfoldable pub index_init : ℕ → IdTable
unfolding index_size
index_init capacity = IdIndex.vacant (index_size capacity) (index_size capacity - 1)

unfoldable pub index_compact : IdTable → IdTable
index_compact t = rebuild t (length t.keys) t.mask

unfoldable pub index_insert : IdTable → ℕ → ℕ → IdTable
unfolding index_compact
index_insert t id slot =
    place (if leb (length t.keys) ((t.count + t.tombstones + 1) * 2) then index_compact t else t) id
      slot

-- `index_erase` has a test of the reserved ids before the loop.
unfoldable pub index_erase : IdTable → ℕ → IdTable
index_erase t id = if reserved id then t else erase t id

-- The vector in which `exposure_for` finds a symbol's entry.
unfoldable pub exposure_for : List Exposure → ℕ → List Exposure
exposure_for es symbol = if leb (length es) symbol then grow es (symbol + 1) no_exposure else es

unfoldable pub clamp : ℤ → ℤ
clamp q = if ltb_ℤ q (pos 0) then pos 0 else q

unfoldable pub bump : Exposure → Side → ℤ → Exposure
unfolding clamp
bump e buy delta = record e { buys = clamp (e.buys +ℤ delta) }
bump e sell delta = record e { sells = clamp (e.sells +ℤ delta) }

module _ {D : Type 0} ⦃d : Double D⦄ where
  abbrev pub record_at : OrderManager D → ℕ → OrderRecord D
  record_at o slot = get_or o.pool slot blank_record

  abbrev pub write_record : OrderManager D → ℕ → OrderRecord D → OrderManager D
  write_record o slot rec = record o { pool = set o.pool slot rec }

  unfoldable pub add_exposure : OrderManager D → ℕ → Side → ℤ → OrderManager D
  unfolding exposure_for bump
  add_exposure o symbol side delta =
      let es = exposure_for o.exposure symbol in
      let e = get_or es symbol no_exposure in
      let e' = bump e side delta in
      if eqb_ℤ delta (pos 0) then o else record o {
        exposure = set es symbol e';
        gross_exposure = o.gross_exposure +ℤ (abs (e'.buys -ℤ e'.sells) -ℤ abs (e.buys -ℤ e.sells));
      }

  -- Whatever was still working of the record is not working any more.
  unfoldable pub release_leaves : OrderManager D → ℕ → OrderManager D
  release_leaves o slot =
      let rec = record_at o slot in
      if ltb_ℤ (pos 0) rec.leaves
      then add_exposure (write_record o slot (record rec { leaves = pos 0 })) rec.symbol rec.side
          (neg rec.leaves)
      else o

  -- A full ring forgets the id at its cursor, and frees its slot.
  unfoldable pub forget_oldest : OrderManager D → OrderManager D
  forget_oldest o =
      let evicted = get_or o.retired o.retired_cursor 0 in
      let evicted_slot = slot_for o.index evicted in
      let shrunk = record o { retired_size = sub64 o.retired_size 1 } in
      let freed = record shrunk {
        index = index_erase o.index evicted;
        free_slots = evicted_slot ∷ o.free_slots;
      } in
      if o.retired_size == length o.retired
      then (if evicted_slot == nil_slot then shrunk else freed)
      else o

  unfoldable pub remember : OrderManager D → ℕ → OrderManager D
  remember o id = record o {
    retired = set o.retired o.retired_cursor id;
    retired_cursor = (o.retired_cursor + 1) % length o.retired;
    retired_size = inc64 o.retired_size;
  }

  unfoldable pub retire : OrderManager D → ℕ → OrderManager D
  retire o slot =
      let o₁ = release_leaves o slot in
      let o₂ = record o₁ {
        open_count = if ltb 0 o₁.open_count then o₁.open_count - 1 else o₁.open_count;
      } in
      remember (forget_oldest o₂) (record_at o₂ slot).cl_ord_id
