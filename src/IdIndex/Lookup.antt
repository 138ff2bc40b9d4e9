-- ===== src/IdIndex/Lookup.antt =====
-- slot_for (cpp/src/order_book.cpp, cpp/src/oms.cpp) on a valid table.
use native.Mathlib.Nat.{mod-lt}
use high_frequency_trading.Base.{
  ℕ, ◌<◌, ◌≡◌, sym, ap, ◌∙◌, ◌≢◌, ◌⊎◌, inl, inr, true, false, some, arith, ◌==◌, get_or, length,
  Bool, Bool-cases, Option-cases,
}
use high_frequency_trading.IdIndex.{
  IdTable, empty_key, nil_slot, home, reserved, walk, ends_lookup, slot_for,
}
use high_frequency_trading.IdIndex.Probe.{walk-ends_lookup, walk_total}
use high_frequency_trading.IdIndex.Counts.{occurs_at}
use high_frequency_trading.IdIndex.Invariant.{IsValid}

pub home-lt : (t : IdTable) (id : ℕ) → IsValid t → home t.mask id < length t.keys
home-lt t id valid =
    let (p, below, at) = occurs_at empty_key t.keys 0 valid.room in
    rw (valid.masked _) (mod-lt _ (omega arith))

-- On a valid table, every probe that stops at an empty key ends within as many steps as the table
-- has cells.
pub walk_ends :
    (t : IdTable) (id : ℕ) (stop : ℕ → Bool)
    → IsValid t
    → stop empty_key ≡ true
    → (q : ℕ) × (walk stop t.keys t.mask (length t.keys) (home t.mask id) ≡ some q)
walk_ends t id stop valid s =
    let (p, below, at) = occurs_at empty_key t.keys 0 valid.room in
    walk_total stop t.keys t.mask (home t.mask id) p valid.masked (home-lt t id valid) below
      (ap stop at ∙ s)

pub held_found :
    (t : IdTable) (id p : ℕ)
    → IsValid t
    → reserved id ≡ false
    → get_or t.keys p 0 ≡ id
    → (q : ℕ) × (walk (ends_lookup id) t.keys t.mask (length t.keys) (home t.mask id) ≡ some q)
      × (get_or t.keys q 0 ≡ id)
held_found t id p valid live at =
    let (j, short, chain) = valid.reached p (rw at live) in
    walk-ends_lookup id t.keys t.mask (length t.keys) j (home t.mask id) p (ground arith)
      (rw at at chain) at short

pub slot_for_present :
    (t : IdTable) (id p : ℕ)
    → IsValid t
    → reserved id ≡ false
    → get_or t.keys p 0 ≡ id
    → slot_for t id ≡ get_or t.vals p nil_slot
unfolding slot_for
slot_for_present t id p valid live at =
    let (q, found, holds) = held_found t id p valid live at in
    ground (arith, found, holds, valid.distinct p q)

pub slot_for_absent :
    (t : IdTable) (id : ℕ) → ((p : ℕ) → get_or t.keys p 0 ≢ id) → slot_for t id ≡ nil_slot
unfolding slot_for
slot_for_absent t id absent =
    elim (Option-cases (walk (ends_lookup id) t.keys t.mask (length t.keys) (home t.mask id))) [
      | inl out ↦ ground arith
      | inr (q, found) ↦ ground (arith, absent q)
    ]

-- On a valid table, the answer for an id that is not reserved is the value beside a cell that holds
-- the id, or none when no cell holds it.
pub slot_for-cases :
    (t : IdTable) (id : ℕ)
    → IsValid t
    → reserved id ≡ false
    → ((p : ℕ) × (get_or t.keys p 0 ≡ id) × (slot_for t id ≡ get_or t.vals p nil_slot))
      ⊎ (((p : ℕ) → get_or t.keys p 0 ≢ id) × (slot_for t id ≡ nil_slot))
slot_for-cases t id valid live =
    let (q, found) = walk_ends t id (ends_lookup id) valid (ground arith) in
    elim (Bool-cases (get_or t.keys q 0 == id)) [
      | inl hit ↦ inl (q, ground arith, slot_for_present t id q valid live (ground arith))
      | inr miss ↦
          let absent : (p : ℕ) → get_or t.keys p 0 ≢ id =
            λ p at. let (r, found', holds) = held_found t id p valid live at in ground arith in
          inr (absent, slot_for_absent t id absent)
    ]

-- No answer means that no cell holds the id.
pub absent_of_nil :
    (t : IdTable) (id p : ℕ)
    → IsValid t
    → reserved id ≡ false
    → slot_for t id ≡ nil_slot
    → get_or t.keys p 0 ≢ id
absent_of_nil t id p valid live e at =
    valid.stored p (rw at live) (sym (slot_for_present t id p valid live at) ∙ e)

pub slot_for-reserved : (t : IdTable) (id : ℕ) → reserved id ≡ true → slot_for t id ≡ nil_slot
unfolding slot_for
slot_for-reserved t id h = ground arith
