-- ===== src/IdIndex/Update.antt =====
-- Insertion and erasure in the id index (cpp/src/order_book.cpp, cpp/src/oms.cpp) as updates of the
-- map from ids to slots that lookup reads.
use high_frequency_trading.Base.{
  ℕ, ◌<◌, ◌≡◌, refl, ◌≢◌, ◌⊎◌, inl, inr, true, false, arith, ◌==◌, if◌then◌else◌, get_or, set,
  length, Bool-cases,
}
use high_frequency_trading.IdIndex.{
  IdTable, empty_key, tombstone, nil_slot, home, reserved, ends_lookup, ends_insert, ends_settle,
  slot_for, put_at, place, settle, erase_at, erase,
}
use high_frequency_trading.IdIndex.Probe.{Chain, walk_stop, walk-Chain, walk-lt}
use high_frequency_trading.IdIndex.Counts.{occurrences}
use high_frequency_trading.IdIndex.Invariant.{
  IsValid, put_at_key, put_at_val, put_at-IsValid, erase_at_key, erase_at_val, erase_at-IsValid,
}
use high_frequency_trading.IdIndex.Lookup.{
  home-lt, walk_ends, held_found, slot_for-cases, slot_for_present, slot_for_absent,
  slot_for-reserved, absent_of_nil,
}

-- A table whose cells are those of another but for one, at which the id now stands.
module _ (t t' : IdTable) (q id slot : ℕ) (valid : IsValid t) (valid' : IsValid t')
    (free : reserved (get_or t.keys q 0) ≡ true) (absent : (p : ℕ) → get_or t.keys p 0 ≢ id)
    (keyed : (p : ℕ) → get_or t'.keys p 0 ≡ (if q == p then id else get_or t.keys p 0))
    (valued : (p : ℕ)
      → get_or t'.vals p nil_slot ≡ (if q == p then slot else get_or t.vals p nil_slot)) where
  written_lookup :
      (j : ℕ) → reserved j ≡ false → slot_for t' j ≡ (if j == id then slot else slot_for t j)
  written_lookup j live = elim (slot_for-cases t' j valid' live) [
    | inl (p, at, answer) ↦ elim (Bool-cases (q == p)) [
      | inl here ↦ ground (arith, keyed p, valued p)
      | inr other ↦ ground (
        arith,
        keyed p,
        valued p,
        absent p,
        slot_for_present t j p valid live (ground (arith, keyed p)),
      )
    ]
    | inr (missing, answer) ↦
        let gone : (p : ℕ) → get_or t.keys p 0 ≢ j = λ p at. ground (arith, keyed p, missing p) in
        ground (arith, keyed q, missing q, slot_for_absent t j gone)
  ]

-- The second table is the first with the id written where its probe ended.
abbrev pub Written : IdTable → IdTable → ℕ → ℕ → Type 0
Written t t' id slot =
    (q : ℕ) × (t' ≡ put_at t q id slot)
    × (q < length t.keys)
    × (reserved (get_or t.keys q 0) ≡ true)
    × ((j : ℕ) × (j < length t.keys) × Chain t.keys t.mask j (home t.mask id) q)

place-Written :
    (t : IdTable) (id slot : ℕ)
    → IsValid t
    → reserved id ≡ false
    → slot_for t id ≡ nil_slot
    → Written t (place t id slot) id slot
unfolding place
place-Written t id slot valid live new =
    let (q, found) = walk_ends t id (ends_insert id) valid refl in
    let stopped =
      walk_stop (ends_insert id) t.keys t.mask (length t.keys) (home t.mask id) q found in
    let apart = absent_of_nil t id q valid live new in
    (
      q,
      rw (found, place),
      walk-lt (ends_insert id) t.keys t.mask (length t.keys) (home t.mask id) q valid.masked
          (home-lt t id valid) found,
      ground arith,
      walk-Chain (ends_insert id) t.keys t.mask (length t.keys) (home t.mask id) q refl found,
    )

pub settle-Written :
    (t : IdTable) (id slot : ℕ)
    → IsValid t
    → reserved id ≡ false
    → Written t (settle t id slot) id slot
unfolding settle put_at
settle-Written t id slot valid live =
    let (q, found) = walk_ends t id ends_settle valid refl in
    let stopped = walk_stop ends_settle t.keys t.mask (length t.keys) (home t.mask id) q found in
    (
      q,
      ground (arith, found, stopped),
      walk-lt ends_settle t.keys t.mask (length t.keys) (home t.mask id) q valid.masked
          (home-lt t id valid) found,
      ground arith,
      walk-Chain ends_settle t.keys t.mask (length t.keys) (home t.mask id) q refl found,
    )

-- A settled key takes an empty cell.
pub settle_keys :
    (t : IdTable) (id slot : ℕ)
    → IsValid t
    → (q : ℕ) × (q < length t.keys)
      × (get_or t.keys q 0 ≡ empty_key)
      × ((settle t id slot).keys ≡ set t.keys q id)
unfolding settle
settle_keys t id slot valid =
    let (q, found) = walk_ends t id ends_settle valid refl in
    let stopped = walk_stop ends_settle t.keys t.mask (length t.keys) (home t.mask id) q found in
    (
      q,
      walk-lt ends_settle t.keys t.mask (length t.keys) (home t.mask id) q valid.masked
          (home-lt t id valid) found,
      ground arith,
      rw (found, settle),
    )

module _ (t t' : IdTable) (id slot : ℕ) (valid : IsValid t) (live : reserved id ≡ false)
    (real : slot ≢ nil_slot) (new : slot_for t id ≡ nil_slot)
    (spare : 1 < occurrences empty_key t.keys) (written : Written t t' id slot) where
  pub Written-IsValid : IsValid t'
  Written-IsValid =
      let (q, e, below, free, (j, short, chain)) = written in
      rw e (
        put_at-IsValid t q id slot valid live real below free
          (λ p. absent_of_nil t id p valid live new) j short chain spare)

  written_live :
      (j : ℕ) → reserved j ≡ false → slot_for t' j ≡ (if j == id then slot else slot_for t j)
  written_live j lj =
      let (q, e, below, free, chained) = written in
      let absent : (p : ℕ) → get_or t.keys p 0 ≢ id = λ p. absent_of_nil t id p valid live new in
      written_lookup t t' q id slot valid Written-IsValid free absent
        (rw e (put_at_key t q id slot valid live real below free absent))
        (rw e (put_at_val t q id slot valid live real below free absent)) j lj

  pub slot_for-Written : (j : ℕ) → slot_for t' j ≡ (if j == id then slot else slot_for t j)
  slot_for-Written j = elim (Bool-cases (reserved j)) [
    | inl r ↦ ground (arith, slot_for-reserved t j r, slot_for-reserved t' j r)
    | inr l ↦ written_live j l
  ]

module _ (t : IdTable) (id slot : ℕ) (valid : IsValid t) (live : reserved id ≡ false)
    (real : slot ≢ nil_slot) (new : slot_for t id ≡ nil_slot)
    (spare : 1 < occurrences empty_key t.keys) where
  -- An insertion of a new id into a table with two empty cells keeps it valid.
  pub place-IsValid : IsValid (place t id slot)
  place-IsValid =
      Written-IsValid t (place t id slot) id slot valid live real new spare
        (place-Written t id slot valid live new)

  -- On a valid table with two empty keys at least, the insertion of an id that is not reserved and
  -- has no slot, with a slot that is not the sentinel, maps that id to its slot, and every other id
  -- as before.
  pub slot_for-place :
      (j : ℕ) → slot_for (place t id slot) j ≡ (if j == id then slot else slot_for t j)
  slot_for-place =
      slot_for-Written t (place t id slot) id slot valid live real new spare
        (place-Written t id slot valid live new)

-- An erasure finds the id's cell, or changes nothing when no cell holds it.
erasure :
    (t : IdTable) (id : ℕ)
    → IsValid t
    → reserved id ≡ false
    → ((q : ℕ) × (get_or t.keys q 0 ≡ id) × (erase t id ≡ erase_at t q))
      ⊎ (((p : ℕ) → get_or t.keys p 0 ≢ id) × (erase t id ≡ t))
unfolding erase
erasure t id valid live = elim (slot_for-cases t id valid live) [
  | inl (p, at, answer) ↦
      let (q, found, holds) = held_found t id p valid live at in
      inl (q, holds, ground (arith, found, holds))
  | inr (missing, answer) ↦
      let (q, found) = walk_ends t id (ends_lookup id) valid (ground arith) in
      inr (missing, ground (arith, found, missing q))
]

module _ (t t' : IdTable) (q id : ℕ) (valid : IsValid t) (valid' : IsValid t')
    (live : reserved id ≡ false) (held : get_or t.keys q 0 ≡ id)
    (keyed : (p : ℕ) → get_or t'.keys p 0 ≡ (if q == p then tombstone else get_or t.keys p 0))
    (valued : (p : ℕ)
      → get_or t'.vals p nil_slot ≡ (if q == p then nil_slot else get_or t.vals p nil_slot)) where
  erased_lookup :
      (j : ℕ) → reserved j ≡ false → slot_for t' j ≡ (if j == id then nil_slot else slot_for t j)
  erased_lookup j lj = elim (slot_for-cases t' j valid' lj) [
    | inl (p, at, answer) ↦ ground (
      arith,
      keyed p,
      valued p,
      valid.distinct p q,
      slot_for_present t j p valid lj (ground (arith, keyed p)),
    )
    | inr (missing, answer) ↦ elim (Bool-cases (j == id)) [
      | inl same ↦ ground arith
      | inr other ↦
          let gone : (p : ℕ) → get_or t.keys p 0 ≢ j = λ p at. ground (arith, keyed p, missing p) in
          ground (arith, slot_for_absent t j gone)
    ]
  ]

module _ (t : IdTable) (id : ℕ) (valid : IsValid t) (live : reserved id ≡ false) where
  -- An erasure keeps the table valid.
  pub erase-IsValid : IsValid (erase t id)
  erase-IsValid = elim (erasure t id valid live) [
    | inl (q, holds, e) ↦ rw e (erase_at-IsValid t q valid (rw holds live))
    | inr (missing, e) ↦ rw e valid
  ]

  erase_live :
      (j : ℕ)
      → reserved j ≡ false
      → slot_for (erase t id) j ≡ (if j == id then nil_slot else slot_for t j)
  erase_live j lj = elim (erasure t id valid live) [
    | inl (q, holds, e) ↦
        let held : reserved (get_or t.keys q 0) ≡ false = rw holds live in
        erased_lookup t (erase t id) q id valid erase-IsValid live holds
          (rw e (erase_at_key t q valid held)) (rw e (erase_at_val t q valid held)) j lj
    | inr (missing, e) ↦ ground (arith, e, slot_for_absent t id missing)
  ]

  -- On a valid table, the erasure of an id that is not reserved leaves that id without a slot,
  -- whether it had one or not, and maps every other id as before.
  pub slot_for-erase :
      (j : ℕ) → slot_for (erase t id) j ≡ (if j == id then nil_slot else slot_for t j)
  slot_for-erase j = elim (Bool-cases (reserved j)) [
    | inl r ↦ ground (arith, slot_for-reserved t j r, slot_for-reserved (erase t id) j r)
    | inr l ↦ erase_live j l
  ]
