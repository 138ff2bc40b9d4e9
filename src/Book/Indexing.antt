-- ===== src/Book/Indexing.antt =====
-- OrderBook::id_insert and id_grow (cpp/src/order_book.cpp): the growth of the index.
use high_frequency_trading.Base.{
  ℕ, zero, suc, ◌+◌, ◌-◌, ◌*◌, ◌^◌, ◌<◌, ◌≤◌, ◌≡◌, refl, ap, sym, ◌∙◌, ◌≢◌, ◌⊎◌, inl, inr, false,
  Bool, arith, ◌==◌, if◌then◌else◌, leb, ltb, length, word, Bool-cases,
}
use high_frequency_trading.Base.Bits.{bit_and_mask}
use high_frequency_trading.IdIndex.{IdTable, empty_key, nil_slot, reserved, slot_for}
use high_frequency_trading.IdIndex.Counts.{occurrences}
use high_frequency_trading.IdIndex.Invariant.{IsValid}
use high_frequency_trading.IdIndex.Update.{place-IsValid, slot_for-place}
use high_frequency_trading.IdIndex.Rebuild.{
  Sizing, rebuild-IsValid, occurrences-rebuild, slot_for-rebuild,
}
use high_frequency_trading.Book.Slab.{grow_cap, id_grow, id_insert}

-- What so many doublings reach.
abbrev reach : ℕ → ℕ → ℕ
reach zero cap = cap
reach (suc f) cap = reach f (2 * cap)

pow_suc : (k : ℕ) → 2 ^ suc k ≡ 2 * 2 ^ k
pow_suc k = omega arith

-- The doublings end at a power of two that is large enough, and not more than twice what is asked.
grow_cap_lem :
    (f k cap n : ℕ)
    → cap ≡ 2 ^ k
    → n ≤ reach f cap
    → (m : ℕ) × (grow_cap f cap n ≡ 2 ^ m)
      × (n ≤ grow_cap f cap n)
      × ((grow_cap f cap n ≤ cap) ⊎ (grow_cap f cap n ≤ 2 * n))
unfolding grow_cap
grow_cap_lem zero k cap n e h = (k, e, h, inl (omega arith))
grow_cap_lem (suc f) k cap n e h = elim (Bool-cases (ltb cap n)) [
  | inr enough ↦ rw enough (k, e, ground arith, inl (omega arith))
  | inl small ↦
      let (m, at, large, close) =
        grow_cap_lem f (suc k) (2 * cap) n (ap (λ c. 2 * c) e ∙ sym (pow_suc k)) h in
      rw small (m, at, large, inr (elim close [ inl l ↦ ground arith | inr l ↦ l ]))
]

-- A table that is about to be grown gets a size that is a power of two, four times as large as the
-- entries at least.
module _ (t : IdTable) (valid : IsValid t) (few : t.count < 2 ^ 60) where
  abbrev cap : ℕ
  cap = grow_cap 54 1024 ((t.count + 1) * 4)

  grown : (m : ℕ) × (cap ≡ 2 ^ m) × ((t.count + 1) * 4 ≤ cap) × (cap < word)
  grown =
      let (m, e, large, close) = grow_cap_lem 54 10 1024 ((t.count + 1) * 4) refl (omega arith) in
      (m, e, large, elim close [ inl l ↦ omega arith | inr l ↦ omega arith ])

  grown-Sizing : Sizing cap (cap - 1)
  grown-Sizing =
      let (m, e, large, below) = grown in
      record { some_cell = omega arith; word_size = below; mask_mod = λ x. rw e (bit_and_mask m x) }

  spare_grown : 1 < occurrences empty_key (id_grow t).keys
  unfolding id_grow
  spare_grown =
      let (m, e, large, below) = grown in
      omega (
        arith,
        large,
        occurrences-rebuild t cap (cap - 1) valid grown-Sizing (omega (arith, large)),
      )

  grown-IsValid : IsValid (id_grow t)
  unfolding id_grow
  grown-IsValid =
      let (m, e, large, below) = grown in
      rebuild-IsValid t cap (cap - 1) valid grown-Sizing (omega (arith, large))

  slot_for-id_grow : (j : ℕ) → slot_for (id_grow t) j ≡ slot_for t j
  unfolding id_grow
  slot_for-id_grow j =
      let (m, e, large, below) = grown in
      slot_for-rebuild t cap (cap - 1) valid grown-Sizing (omega (arith, large)) j

  module _ (id slot : ℕ) (live : reserved id ≡ false) (real : slot ≢ nil_slot)
      (new : slot_for t id ≡ nil_slot) where
    abbrev full : Bool
    full = leb (length t.keys) ((t.count + t.tombstones + 1) * 2)

    -- On a valid table with fewer than 2 ^ 60 ids, the insertion of an id that is not reserved and has
    -- no slot, grown or not, keeps the table valid; it maps the id to its slot and others as before.
    pub id_insert_lem :
        IsValid (id_insert t id slot)
        × ((j : ℕ) → slot_for (id_insert t id slot) j ≡ (if j == id then slot else slot_for t j))
    unfolding id_insert
    id_insert_lem = elim (Bool-cases full) [
      | inl more ↦
          let u = id_grow t in
          let unknown = slot_for-id_grow id ∙ new in
          rw more (
            place-IsValid u id slot grown-IsValid live real unknown spare_grown,
            λ j.
                slot_for-place u id slot grown-IsValid live real unknown spare_grown j
                ∙ ap (λ s. if j == id then slot else s) (slot_for-id_grow j),
          )
      | inr room ↦
          let spare : 1 < occurrences empty_key t.keys = ground (arith, valid.counted) in
          rw room (
            place-IsValid t id slot valid live real new spare,
            slot_for-place t id slot valid live real new spare,
          )
    ]
