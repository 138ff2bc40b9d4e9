-- ===== src/IdIndex/Rebuild.antt =====
-- The rebuild of the id index (cpp/src/order_book.cpp id_grow, cpp/src/oms.cpp index_compact) and
-- the map from ids to slots.
use Prim.Native.Nat.{bit_and}
use high_frequency_trading.Base.{
  ℕ, suc, ◌+◌, ◌%◌, ◌<◌, ◌≡◌, sym, ap, ◌∙◌, ◌≢◌, true, false, List, [], ◌∷◌, arith, ◌==◌,
  if◌then◌else◌, get_or, subst, length, length-replicate, get_or-replicate, inl, inr, Bool-cases,
  word,
}
use high_frequency_trading.IdIndex.{
  IdTable, empty_key, tombstone, nil_slot, reserved, slot_for, settle, reinsert, vacant, rebuild,
}
use high_frequency_trading.IdIndex.Counts.{occurrences, occurrences-set, occurrences-replicate}
use high_frequency_trading.IdIndex.Invariant.{IsValid}
use high_frequency_trading.IdIndex.Lookup.{slot_for-cases, slot_for_absent, slot_for-reserved}
use high_frequency_trading.IdIndex.Update.{
  settle-Written, settle_keys, Written-IsValid, slot_for-Written,
}
use high_frequency_trading.IdIndex.Rebuilding.{
  live_count, live_count-add, Distinct, Distinct-of_cells, entry, entry_absent, entry_present,
}

-- The entries fit into the table and are new to it.
record Pending (t : IdTable) (ks vs : List ℕ) : Type 0 where
  valid : IsValid t
  paired : length vs ≡ length ks
  separate : Distinct ks
  real : (p : ℕ) → reserved (get_or ks p 0) ≡ false → get_or vs p nil_slot ≢ nil_slot
  new : (p : ℕ) → reserved (get_or ks p 0) ≡ false → slot_for t (get_or ks p 0) ≡ nil_slot
  fit : live_count ks < occurrences empty_key t.keys

Pending-skip :
    (t : IdTable) (k v : ℕ) (ks vs : List ℕ)
    → reserved k ≡ true
    → Pending t (k ∷ ks) (v ∷ vs)
    → Pending t ks vs
Pending-skip t k v ks vs r w = record {
  valid = w.valid;
  paired = omega (arith, w.paired);
  separate = w.separate.1;
  real = λ p. w.real (suc p);
  new = λ p. w.new (suc p);
  fit = ground (arith, w.fit);
}

-- A settled key takes one empty cell.
settle-occurrences :
    (t : IdTable) (k v : ℕ)
    → IsValid t
    → reserved k ≡ false
    → occurrences empty_key (settle t k v).keys + 1 ≡ occurrences empty_key t.keys
settle-occurrences t k v valid live =
    let (q, below, free, e) = settle_keys t k v valid in
    ground (arith, ap (occurrences empty_key) e, occurrences-set empty_key t.keys q k 0 below)

module _ (t : IdTable) (k v : ℕ) (ks vs : List ℕ) (live : reserved k ≡ false)
    (w : Pending t (k ∷ ks) (v ∷ vs)) where
  settle-IsValid : IsValid (settle t k v)
  settle-IsValid =
      Written-IsValid t (settle t k v) k v w.valid live (w.real 0 live) (w.new 0 live)
        (ground (arith, w.fit)) (settle-Written t k v w.valid live)

  slot_for-settle : (j : ℕ) → slot_for (settle t k v) j ≡ (if j == k then v else slot_for t j)
  slot_for-settle =
      slot_for-Written t (settle t k v) k v w.valid live (w.real 0 live) (w.new 0 live)
        (ground (arith, w.fit)) (settle-Written t k v w.valid live)

  Pending-settle : Pending (settle t k v) ks vs
  Pending-settle = record {
    valid = settle-IsValid;
    paired = omega (arith, w.paired);
    separate = w.separate.1;
    real = λ p. w.real (suc p);
    new = λ p lp.
        ground (arith, slot_for-settle (get_or ks p 0), w.new (suc p) lp, w.separate.0 live p);
    fit = ground (arith, w.fit, settle-occurrences t k v w.valid live);
  }

-- What the loop of a rebuild leaves.
abbrev Rebuilt : IdTable → List ℕ → List ℕ → IdTable → Type 0
Rebuilt t ks vs t' =
    IsValid t'
    × (occurrences empty_key t'.keys + live_count ks ≡ occurrences empty_key t.keys)
    × ((j : ℕ)
        → reserved j ≡ false
        → slot_for t' j ≡ (if entry ks vs j == nil_slot then slot_for t j else entry ks vs j))

Rebuilt-skip :
    (t : IdTable) (k v : ℕ) (ks vs : List ℕ) (t' : IdTable)
    → reserved k ≡ true
    → Rebuilt t ks vs t'
    → Rebuilt t (k ∷ ks) (v ∷ vs) t'
Rebuilt-skip t k v ks vs t' r (valid, spare, looks) =
    (valid, ground arith, λ j lj. ground (arith, looks j lj))

Rebuilt-settle :
    (t : IdTable) (k v : ℕ) (ks vs : List ℕ) (t' : IdTable)
    → reserved k ≡ false
    → Pending t (k ∷ ks) (v ∷ vs)
    → Rebuilt (settle t k v) ks vs t'
    → Rebuilt t (k ∷ ks) (v ∷ vs) t'
Rebuilt-settle t k v ks vs t' l w (valid, spare, looks) = (
  valid,
  ground (arith, settle-occurrences t k v w.valid l),
  λ j lj. ground (
    arith,
    looks j lj,
    slot_for-settle t k v ks vs l w j,
    w.real 0 l,
    entry_absent ks vs k (w.separate.0 l),
  ),
)

reinsert-Rebuilt :
    (t : IdTable) (ks vs : List ℕ) → Pending t ks vs → Rebuilt t ks vs (reinsert t ks vs)
unfolding reinsert
reinsert-Rebuilt t [] vs w = (w.valid, omega arith, λ j lj. ground arith)
reinsert-Rebuilt t (k ∷ ks) [] w = absurd (omega (arith, w.paired))
reinsert-Rebuilt t (k ∷ ks) (v ∷ vs) w = elim (Bool-cases (reserved k)) [
  | inl r ↦
      subst (λ b. Rebuilt t (k ∷ ks) (v ∷ vs) (reinsert (if b then t else settle t k v) ks vs))
        (sym r)
        (Rebuilt-skip t k v ks vs (reinsert t ks vs) r
          (reinsert-Rebuilt t ks vs (Pending-skip t k v ks vs r w)))
  | inr l ↦
      subst (λ b. Rebuilt t (k ∷ ks) (v ∷ vs) (reinsert (if b then t else settle t k v) ks vs))
        (sym l)
        (Rebuilt-settle t k v ks vs (reinsert (settle t k v) ks vs) l w
          (reinsert-Rebuilt (settle t k v) ks vs (Pending-settle t k v ks vs l w)))
]

-- A table of a size below 2 ^ 64 with its mask.
pub record Sizing (size mask : ℕ) : Type 0 where
  pub some_cell : 0 < size
  pub word_size : size < word
  pub mask_mod : (x : ℕ) → bit_and x mask ≡ x % size

pub vacant-IsValid : (size mask : ℕ) → Sizing size mask → IsValid (vacant size mask)
vacant-IsValid size mask s = record {
  masked = λ x. rw (length-replicate size empty_key) (s.mask_mod x);
  sized = rw (length-replicate size empty_key) (length-replicate size nil_slot);
  fits = rw (length-replicate size empty_key) s.word_size;
  counted =
      omega
        (arith, length-replicate size empty_key, occurrences-replicate size empty_key empty_key);
  buried = occurrences-replicate size empty_key tombstone;
  room = omega (arith, s.some_cell, occurrences-replicate size empty_key empty_key);
  reached = λ p h. absurd (ground (arith, get_or-replicate size p empty_key));
  distinct = λ p q h e. absurd (ground (arith, get_or-replicate size p empty_key));
  stored = λ p h. absurd (ground (arith, get_or-replicate size p empty_key));
}

pub slot_for-vacant : (size mask j : ℕ) → slot_for (vacant size mask) j ≡ nil_slot
slot_for-vacant size mask j = elim (Bool-cases (reserved j)) [
  | inl r ↦ slot_for-reserved (vacant size mask) j r
  | inr l ↦
      slot_for_absent (vacant size mask) j
        (λ q e. ground (arith, get_or-replicate size q empty_key))
]

module _ (t : IdTable) (size mask : ℕ) (valid : IsValid t) (s : Sizing size mask)
    (large : t.count < size) where
  start-Pending : Pending (vacant size mask) t.keys t.vals
  start-Pending = record {
    valid = vacant-IsValid size mask s;
    paired = valid.sized;
    separate = Distinct-of_cells t.keys valid.distinct;
    real = valid.stored;
    new = λ p h.
        slot_for_absent (vacant size mask) (get_or t.keys p 0)
          (λ q e. ground (arith, get_or-replicate size q empty_key));
    fit = omega (
      arith,
      live_count-add t.keys,
      valid.counted,
      valid.buried,
      occurrences-replicate size empty_key empty_key,
    );
  }

  pub rebuild-IsValid : IsValid (rebuild t size mask)
  unfolding rebuild
  rebuild-IsValid = (reinsert-Rebuilt (vacant size mask) t.keys t.vals start-Pending).0

  -- All cells but those of the live ids are empty.
  pub occurrences-rebuild : occurrences empty_key (rebuild t size mask).keys + t.count ≡ size
  unfolding rebuild
  occurrences-rebuild = omega (
    arith,
    (reinsert-Rebuilt (vacant size mask) t.keys t.vals start-Pending).1,
    live_count-add t.keys,
    valid.counted,
    valid.buried,
    occurrences-replicate size empty_key empty_key,
  )

  rebuild_live : (j : ℕ) → reserved j ≡ false → slot_for (rebuild t size mask) j ≡ slot_for t j
  unfolding rebuild
  rebuild_live j lj =
      let looks = (reinsert-Rebuilt (vacant size mask) t.keys t.vals start-Pending).2 j lj in
      elim (slot_for-cases t j valid lj) [
        | inl (p, at, answer) ↦ ground (
          arith,
          looks,
          answer,
          valid.stored p,
          entry_present t.keys t.vals j p (Distinct-of_cells t.keys valid.distinct) lj at
              valid.sized,
        )
        | inr (missing, answer) ↦ ground (
          arith,
          looks,
          answer,
          entry_absent t.keys t.vals j missing,
          slot_for_absent (vacant size mask) j
              (λ q e. ground (arith, get_or-replicate size q empty_key)),
        )
      ]

  -- A rebuild of a valid table, into a size above the number of its live ids that has the mask
  -- given, maps every id as before.
  pub slot_for-rebuild : (j : ℕ) → slot_for (rebuild t size mask) j ≡ slot_for t j
  slot_for-rebuild j = elim (Bool-cases (reserved j)) [
    | inl r ↦ slot_for-reserved (rebuild t size mask) j r ∙ sym (slot_for-reserved t j r)
    | inr l ↦ rebuild_live j l
  ]
