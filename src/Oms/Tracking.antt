-- ===== src/Oms/Tracking.antt =====
-- The invariant of the orders that OrderManager (cpp/src/oms.cpp) tracks: a valid index into the
-- pool, leaves that fit each order's state, and the exposure that they add up to.
use high_frequency_trading.Base.{
  ℕ, ◌<◌, ◌≡◌, refl, ◌≢◌, ◌⊎◌, inl, inr, Bool, true, false, arith, ◌==◌, if◌then◌else◌, get_or, set,
  length, get_or-set, get_or-set_self, get_or-set_ne, length-set, Bool-cases, subst,
}
use high_frequency_trading.Base.Int.{ℤ, pos, ◌≤ℤ◌, ltb_ℤ}
use high_frequency_trading.Types.{Side}
use high_frequency_trading.Double.{Double}
use high_frequency_trading.IdIndex.{nil_slot, slot_for, reserved, IdTable}
use high_frequency_trading.IdIndex.Invariant as TableInvariant
use high_frequency_trading.IdIndex.Update.{erase-IsValid, slot_for-erase}
use high_frequency_trading.Oms.Records.{
  is_terminal, OrderRecord, blank_record, OmsStats, OrderManager,
}
use high_frequency_trading.Oms.Slots.{
  index_erase, record_at, write_record, add_exposure, release_leaves, forget_oldest, remember,
  retire,
}
use high_frequency_trading.Oms.Booking.{Booked}
use high_frequency_trading.Oms.Accounts.{
  Sound, Booked-of_same, write-Booked, retire-Booked, release_leaves_pool,
}

abbrev TableIsValid : IdTable → Type 0
TableIsValid = TableInvariant.IsValid

-- An index whose answers are slots below `n`.
pub record Points (t : IdTable) (n : ℕ) : Type 0 where
  pub table : TableIsValid t
  pub in_range : (id : ℕ) → slot_for t id ≢ nil_slot → slot_for t id < n

index_erase-Points : (t : IdTable) (id n : ℕ) → Points t n → Points (index_erase t id) n
unfolding index_erase
index_erase-Points t id n p = elim (Bool-cases (reserved id)) [
  | inl r ↦ rw r p
  | inr l ↦ rw l (record {
    table = erase-IsValid t id p.table l;
    in_range = λ j h. ground (arith, slot_for-erase t id p.table l j, p.in_range j);
  })
]

module _ {D : Type 0} ⦃d : Double D⦄ where
  pub record Tracked (o : OrderManager D) : Type 0 where
    pub points : Points o.index (length o.pool)
    pub sound : (i : ℕ) → Sound (record_at o i)
    pub booked : Booked o

  pub write-Sound :
      (o : OrderManager D) (slot : ℕ) (r : OrderRecord D)
      → ((i : ℕ) → slot ≢ i → Sound (record_at o i))
      → slot < length o.pool
      → Sound r
      → (i : ℕ) → Sound (record_at (write_record o slot r) i)
  write-Sound o slot r s below sr i =
      rw (get_or-set o.pool slot i r blank_record below) (pick (Bool-cases (slot == i)))
    where
      pick :
          ((slot == i) ≡ true) ⊎ ((slot == i) ≡ false)
          → Sound (if slot == i then r else record_at o i)
      pick (inl e) = rw e sr
      pick (inr e) = rw e (s i (ground arith))

  pub forget_oldest_pool : (o : OrderManager D) → (forget_oldest o).pool ≡ o.pool
  unfolding forget_oldest
  forget_oldest_pool o = ground arith

  forget_oldest-Points :
      (o : OrderManager D) (n : ℕ) → Points o.index n → Points (forget_oldest o).index n
  unfolding forget_oldest
  forget_oldest-Points o n p = elim (Bool-cases (o.retired_size == length o.retired)) [
    | inl full ↦
        rw full
          (elim (Bool-cases (slot_for o.index (get_or o.retired o.retired_cursor 0) == nil_slot)) [
            | inl none_left ↦ rw none_left p
            | inr there ↦
                rw there (index_erase-Points o.index (get_or o.retired o.retired_cursor 0) n p)
          ])
    | inr spare ↦ rw spare p
  ]

  pub add_exposure_index :
      (o : OrderManager D) (symbol : ℕ) (side : Side) (delta : ℤ)
      → (add_exposure o symbol side delta).index ≡ o.index
  unfolding add_exposure
  add_exposure_index o symbol side delta = ground arith

  release_leaves_index : (o : OrderManager D) (slot : ℕ) → (release_leaves o slot).index ≡ o.index
  unfolding release_leaves add_exposure
  release_leaves_index o slot = ground arith

  module _ (o : OrderManager D) (slot : ℕ) (points : Points o.index (length o.pool))
      (others : (i : ℕ) → slot ≢ i → Sound (record_at o i)) (below : slot < length o.pool)
      (terminal : is_terminal (record_at o slot).state ≡ true) (booked : Booked o) where
    release_leaves-Sound : (i : ℕ) → Sound (record_at (release_leaves o slot) i)
    release_leaves-Sound i =
        rw (release_leaves_pool o slot)
          (pick (Bool-cases (ltb_ℤ (pos 0) (record_at o slot).leaves)))
      where
        emptied : OrderRecord D
        emptied = record (record_at o slot) { leaves = pos 0 }

        no_leaves : (q : ℤ) → pos 0 ≤ℤ q → ltb_ℤ (pos 0) q ≡ false → q ≡ pos 0
        no_leaves q n h = ground arith

        pick :
            (ltb_ℤ (pos 0) (record_at o slot).leaves ≡ true)
              ⊎ (ltb_ℤ (pos 0) (record_at o slot).leaves ≡ false)
            → Sound (
                get_or
                  (if ltb_ℤ (pos 0) (record_at o slot).leaves
                    then set o.pool slot emptied
                    else o.pool)
                  i
                  blank_record)
        pick (inl e) = rw e (
            write-Sound o slot emptied others below
              (record { leaves_lem = λ w. cc terminal; done = λ t. refl }) i)
        pick (inr e) = rw e (elim (Bool-cases (slot == i)) [
          | inl same ↦
              subst (λ j. Sound (record_at o j)) (ground arith)
                (record {
                  leaves_lem = λ w. cc terminal;
                  done = λ t. no_leaves (record_at o slot).leaves (booked.nonneg slot) e;
                })
          | inr other ↦ others i (ground arith)
        ])

    retire_pool : (retire o slot).pool ≡ (release_leaves o slot).pool
    unfolding retire remember
    retire_pool = forget_oldest_pool _

    length-release_leaves : length (release_leaves o slot).pool ≡ length o.pool
    length-release_leaves =
        rw (release_leaves_pool o slot) (pick (ltb_ℤ (pos 0) (record_at o slot).leaves))
      where
        emptied : OrderRecord D
        emptied = record (record_at o slot) { leaves = pos 0 }

        pick : (c : Bool) → length (if c then set o.pool slot emptied else o.pool) ≡ length o.pool
        pick true = length-set o.pool slot emptied
        pick false = refl

    retire-Points : Points (retire o slot).index (length o.pool)
    unfolding retire remember
    retire-Points = forget_oldest-Points _ (length o.pool) (rw (release_leaves_index o slot) points)

    -- An order in a terminal state may be retired.
    pub retire-Tracked : Tracked (retire o slot)
    retire-Tracked = record {
      points = rw (retire_pool, length-release_leaves) retire-Points;
      sound = λ i. rw retire_pool (release_leaves-Sound i);
      booked = retire-Booked o slot booked below;
    }

  -- The record at a tracked order's slot is replaced by one that is sound, with the same leaves.
  pub replace-Tracked :
      (o : OrderManager D) (slot : ℕ) (r : OrderRecord D)
      → Tracked o
      → slot < length o.pool
      → r.symbol ≡ (record_at o slot).symbol
      → r.side ≡ (record_at o slot).side
      → r.leaves ≡ (record_at o slot).leaves
      → Sound r
      → Tracked (write_record o slot r)
  replace-Tracked o slot r t below e f g sr = record {
    points = rw (length-set o.pool slot r) t.points;
    sound = write-Sound o slot r (λ i _. t.sound i) below sr;
    booked = write-Booked o slot r t.booked below e f g;
  }

  -- Nothing of this depends on the statistics.
  pub count-Tracked :
      (o : OrderManager D) (stats : OmsStats) → Tracked o → Tracked (record o { stats = stats })
  count-Tracked o stats t = record {
    points = t.points;
    sound = t.sound;
    booked = Booked-of_same o (record o { stats = stats }) t.booked refl refl refl;
  }

  -- It is replaced by one in a terminal state, and retired.
  pub close-Tracked :
      (o : OrderManager D) (slot : ℕ) (r : OrderRecord D) (stats : OmsStats)
      → Tracked o
      → slot < length o.pool
      → r.symbol ≡ (record_at o slot).symbol
      → r.side ≡ (record_at o slot).side
      → r.leaves ≡ (record_at o slot).leaves
      → is_terminal r.state ≡ true
      → Tracked (retire (record (write_record o slot r) { stats = stats }) slot)
  close-Tracked o slot r stats t below e f g terminal =
      retire-Tracked (record (write_record o slot r) { stats = stats }) slot
        (rw (length-set o.pool slot r) t.points)
        (λ i other. rw (get_or-set_ne o.pool slot i r blank_record other) (t.sound i))
        (rw (length-set o.pool slot r) below)
        (rw (get_or-set_self o.pool slot r blank_record below) terminal)
        (Booked-of_same (write_record o slot r) (record (write_record o slot r) { stats = stats })
          (write-Booked o slot r t.booked below e f g) refl refl refl)
