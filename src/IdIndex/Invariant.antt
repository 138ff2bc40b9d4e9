-- ===== src/IdIndex/Invariant.antt =====
-- The invariant of the id index (cpp/src/order_book.cpp, cpp/src/oms.cpp), under a write to one
-- cell: the insertion's and the erasure's.
use high_frequency_trading.Base.{
  ℕ, zero, suc, ◌+◌, ◌<◌, ◌≡◌, ◌≢◌, inl, inr, true, false, List, arith, ◌==◌, if◌then◌else◌, get_or,
  set, length, length-set, get_or-set, get_or-set_self, get_or-ge, subst, Bool-cases, word,
}
use high_frequency_trading.IdIndex.{
  IdTable, empty_key, tombstone, nil_slot, home, reserved, put_at, erase_at,
}
use high_frequency_trading.IdIndex.Probe.{key_at, next, Chain, IsMask}
use high_frequency_trading.IdIndex.Counts.{
  occurrences, occurrences-set, occurrences-pos, two_keys-lt,
}

-- The cell is reached by the probe for its own key.
abbrev pub Reached : List ℕ → ℕ → ℕ → Type 0
Reached keys mask p =
    (j : ℕ) × (j < length keys) × Chain keys mask j (home mask (key_at keys mask p)) p

-- A live key stands once, where its own probe reaches it, with a slot; at least one key is empty;
-- the counters count the live keys and the tombstones.
pub record IsValid (t : IdTable) : Type 0 where
  pub masked : IsMask t.keys t.mask
  pub sized : length t.vals ≡ length t.keys
  pub fits : length t.keys < word
  pub counted : occurrences empty_key t.keys + t.count + t.tombstones ≡ length t.keys
  pub buried : occurrences tombstone t.keys ≡ t.tombstones
  pub room : 0 < occurrences empty_key t.keys
  pub reached : (p : ℕ) → reserved (get_or t.keys p 0) ≡ false → Reached t.keys t.mask p
  pub distinct :
      (p q : ℕ)
      → reserved (get_or t.keys p 0) ≡ false
      → get_or t.keys p 0 ≡ get_or t.keys q 0
      → p ≡ q
  pub stored : (p : ℕ) → reserved (get_or t.keys p 0) ≡ false → get_or t.vals p nil_slot ≢ nil_slot

-- A write of a key that is not empty breaks no chain.
Chain-set :
    (keys : List ℕ) (mask q v j i p : ℕ)
    → q < length keys
    → v ≢ empty_key
    → Chain keys mask j i p
    → Chain (set keys q v) mask j i p
Chain-set keys mask q v zero i p b ne c = c
Chain-set keys mask q v (suc j) i p b ne c = (
  ground (arith, get_or-set keys q i v 0),
  Chain-set keys mask q v j (next keys mask i) p b ne c.1,
)

pub in_range : (keys : List ℕ) (p : ℕ) → reserved (get_or keys p 0) ≡ false → p < length keys
in_range keys p live = ground (arith, get_or-ge keys p 0)

-- The cell keeps its key and its chain when another cell is written.
Reached-set :
    (keys : List ℕ) (mask q v p : ℕ)
    → q < length keys
    → v ≢ empty_key
    → q ≢ p
    → Reached keys mask p
    → Reached (set keys q v) mask p
Reached-set keys mask q v p b ne other (j, below, chain) = (
  j,
  rw (length-set keys q v) below,
  rw (kept) (Chain-set keys mask q v j (home mask (key_at keys mask p)) p b ne chain),
)
  where
    kept : get_or (set keys q v) p 0 ≡ get_or keys p 0
    kept = ground (arith, get_or-set keys q p v 0)

-- The cell that is written with its key's own probe is reached.
Reached-written :
    (keys : List ℕ) (mask q id j : ℕ)
    → q < length keys
    → id ≢ empty_key
    → j < length keys
    → Chain keys mask j (home mask id) q
    → Reached (set keys q id) mask q
Reached-written keys mask q id j b ne short chain = (
  j,
  rw (length-set keys q id) short,
  rw (get_or-set_self keys q id 0 b) (Chain-set keys mask q id j (home mask id) q b ne chain),
)

module _ (t : IdTable) (q id slot : ℕ) (valid : IsValid t) (live : reserved id ≡ false)
    (real : slot ≢ nil_slot) (below : q < length t.keys)
    (free : reserved (get_or t.keys q 0) ≡ true) (absent : (p : ℕ) → get_or t.keys p 0 ≢ id) where
  pub put_at_key :
      (p : ℕ) → get_or (put_at t q id slot).keys p 0 ≡ (if q == p then id else get_or t.keys p 0)
  unfolding put_at
  put_at_key p = get_or-set t.keys q p id 0 below

  pub put_at_val :
      (p : ℕ)
      → get_or (put_at t q id slot).vals p nil_slot
        ≡ (if q == p then slot else get_or t.vals p nil_slot)
  unfolding put_at
  put_at_val p = get_or-set t.vals q p slot nil_slot (omega (arith, valid.sized))

  put_at-Reached :
      (j : ℕ)
      → j < length t.keys
      → Chain t.keys t.mask j (home t.mask id) q
      → (p : ℕ) → reserved (get_or (put_at t q id slot).keys p 0) ≡ false
      → Reached (put_at t q id slot).keys t.mask p
  unfolding put_at
  put_at-Reached j short chain p h = elim (Bool-cases (q == p)) [
    | inl here ↦
        subst (Reached (set t.keys q id) t.mask) (ground arith)
          (Reached-written t.keys t.mask q id j below (ground arith) short chain)
    | inr other ↦
        Reached-set t.keys t.mask q id p below (ground arith) (ground arith)
          (valid.reached p (ground (arith, put_at_key p)))
  ]

  put_at-distinct :
      (p r : ℕ)
      → reserved (get_or (put_at t q id slot).keys p 0) ≡ false
      → get_or (put_at t q id slot).keys p 0 ≡ get_or (put_at t q id slot).keys r 0
      → p ≡ r
  put_at-distinct p r h e =
      ground (arith, put_at_key p, put_at_key r, absent p, absent r, valid.distinct p r)

  -- With room for one key more, the write of a new key where its probe ended keeps the table valid.
  pub put_at-IsValid :
      (j : ℕ)
      → j < length t.keys
      → Chain t.keys t.mask j (home t.mask id) q
      → 1 < occurrences empty_key t.keys
      → IsValid (put_at t q id slot)
  unfolding put_at
  put_at-IsValid j short chain spare = record {
    masked = λ x. rw (length-set t.keys q id) (valid.masked x);
    sized = rw (length-set t.keys q id, length-set t.vals q slot) valid.sized;
    fits = rw (length-set t.keys q id) valid.fits;
    counted = rw (length-set t.keys q id) (
        ground (
          arith,
          valid.counted,
          valid.buried,
          valid.fits,
          occurrences-set empty_key t.keys q id 0 below,
          occurrences-pos tombstone t.keys q 0 below,
          absent q,
        ));
    buried = ground (
      arith,
      valid.counted,
      valid.buried,
      valid.fits,
      occurrences-set tombstone t.keys q id 0 below,
    );
    room = ground (arith, occurrences-set empty_key t.keys q id 0 below);
    reached = put_at-Reached j short chain;
    distinct = put_at-distinct;
    stored = λ p h. ground (arith, put_at_key p, put_at_val p, valid.stored p);
  }

-- A live key's cell turned into a tombstone.
module _ (t : IdTable) (q : ℕ) (valid : IsValid t)
    (held : reserved (get_or t.keys q 0) ≡ false) where
  held_below : q < length t.keys
  held_below = in_range t.keys q held

  pub erase_at_key :
      (p : ℕ) → get_or (erase_at t q).keys p 0 ≡ (if q == p then tombstone else get_or t.keys p 0)
  unfolding erase_at
  erase_at_key p = get_or-set t.keys q p tombstone 0 held_below

  pub erase_at_val :
      (p : ℕ)
      → get_or (erase_at t q).vals p nil_slot
        ≡ (if q == p then nil_slot else get_or t.vals p nil_slot)
  unfolding erase_at
  erase_at_val p = get_or-set t.vals q p nil_slot nil_slot (omega (arith, valid.sized, held_below))

  erase_at-Reached :
      (p : ℕ)
      → reserved (get_or (erase_at t q).keys p 0) ≡ false
      → Reached (erase_at t q).keys t.mask p
  unfolding erase_at
  erase_at-Reached p h =
      Reached-set t.keys t.mask q tombstone p held_below (omega arith)
        (ground (arith, erase_at_key p)) (valid.reached p (ground (arith, erase_at_key p)))

  -- An erasure keeps the table valid.
  pub erase_at-IsValid : IsValid (erase_at t q)
  unfolding erase_at
  erase_at-IsValid = record {
    masked = λ x. rw (length-set t.keys q tombstone) (valid.masked x);
    sized = rw (length-set t.keys q tombstone, length-set t.vals q nil_slot) valid.sized;
    fits = rw (length-set t.keys q tombstone) valid.fits;
    counted = rw (length-set t.keys q tombstone) (
        ground (
          arith,
          valid.counted,
          valid.buried,
          valid.fits,
          occurrences-set empty_key t.keys q tombstone 0 held_below,
          two_keys-lt empty_key tombstone t.keys q 0 (omega arith) held_below,
        ));
    buried = ground (
      arith,
      valid.counted,
      valid.buried,
      valid.fits,
      valid.room,
      occurrences-set tombstone t.keys q tombstone 0 held_below,
    );
    room = ground (arith, valid.room, occurrences-set empty_key t.keys q tombstone 0 held_below);
    reached = erase_at-Reached;
    distinct = λ p r h e. ground (arith, erase_at_key p, erase_at_key r, valid.distinct p r);
    stored = λ p h. ground (arith, erase_at_key p, erase_at_val p, valid.stored p);
  }
