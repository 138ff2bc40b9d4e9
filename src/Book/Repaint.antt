-- ===== src/Book/Repaint.antt =====
-- Writes of the order book (cpp/src/order_book.cpp) that leave its queues alone: to its flags and to
-- the bit of a level.
use high_frequency_trading.Base.{
  ℕ, ◌<◌, ◌≡◌, refl, ap, sym, ◌∙◌, subst, ◌≢◌, inl, inr, true, false, Bool, List, ◌==◌,
  if◌then◌else◌, length, Bool-cases,
}
use high_frequency_trading.Types.{Side, buy, sell, side_eq}
use high_frequency_trading.IdIndex.{slot_for}
use high_frequency_trading.Book.Bitmap.{clear_level}
use high_frequency_trading.Book.Bitmap.Tiers.{IsTiered, level_digit}
use high_frequency_trading.Book.Bitmap.Updates.{
  clear_level-IsTiered, level_digit-clear_level, clear_level_n,
}
use high_frequency_trading.Book.Records.{
  OrderBook, nil_node, node_at, level_at, index_of, price_at, side_levels, side_bitmap,
}
use high_frequency_trading.Book.Slots.{In}
use high_frequency_trading.Book.Invariant.{Queues, Holds, Resting, place_of, same_place}
use high_frequency_trading.Book.Removal.{SameGrid, price_at-same, index_of-same, Grid-same}

-- The second book differs in its flags and bitmaps only, and these have the bits given.
pub record Repainted (b b' : OrderBook) (lit : Side → ℕ → ℕ) : Type 0 where
  pub same_grid : SameGrid b b'
  pub pool : b'.pool ≡ b.pool
  pub ids : b'.ids ≡ b.ids
  pub free_head : b'.free_head ≡ b.free_head
  pub levels : (s : Side) (j : ℕ) → level_at b' s j ≡ level_at b s j
  pub tiers : (s : Side) → IsTiered (side_bitmap b' s)
  pub wide : (s : Side) → (side_bitmap b' s).n ≡ (side_bitmap b s).n
  pub bits : (s : Side) (j : ℕ) → level_digit (side_bitmap b' s) j ≡ lit s j

module _ (b b' : OrderBook) (q : Queues) (free : List ℕ) (lit lit' : Side → ℕ → ℕ)
    (h : Holds b q free lit) (r : Repainted b b' lit') where
  repainted-Resting : (s : Side) (j x : ℕ) → In x (q s j) → Resting b' s j x
  unfolding price_at
  repainted-Resting s j x m =
      let at = h.resting s j x m in
      record {
        live = rw r.pool at.live;
        side_of = rw r.pool at.side_of;
        price_of = rw r.pool (at.price_of ∙ sym (price_at-same j r.same_grid));
        positive = rw r.pool at.positive;
        proper = rw r.pool at.proper;
        known = rw (r.pool, r.ids) at.known;
      }

  repainted_found :
      (id : ℕ)
      → slot_for b'.ids id ≢ nil_node
      → In (slot_for b'.ids id) (place_of b' q (slot_for b'.ids id))
        × ((node_at b'.pool (slot_for b'.ids id)).id ≡ id)
  unfolding index_of
  repainted_found id =
      rw (r.pool, r.ids)
        (λ some.
          let (m, named) = h.found id some in
          (
            subst (In (slot_for b.ids id))
                (ap (q (node_at b.pool (slot_for b.ids id)).side)
                  (sym (index_of-same (node_at b.pool (slot_for b.ids id)).price r.same_grid)))
                m,
            named,
          ))

  pub Repainted-Holds : Holds b' q free lit'
  Repainted-Holds = record {
    grid = Grid-same r.same_grid h.grid;
    even = r.same_grid.lengths sell ∙ h.even ∙ sym (r.same_grid.lengths buy);
    tiers = r.tiers;
    wide = λ s. r.wide s ∙ h.wide s ∙ sym (r.same_grid.lengths buy);
    bits = r.bits;
    chained = λ s j. rw (r.levels s j, r.pool) (h.chained s j);
    distinct = h.distinct;
    counted = λ s j. rw (r.levels s j) (h.counted s j);
    totalled = λ s j. rw (r.levels s j, r.pool) (h.totalled s j);
    resting = repainted-Resting;
    room = rw r.pool h.room;
    freed = rw (r.pool, r.free_head) h.freed;
    free_distinct = h.free_distinct;
    indexed = rw r.ids h.indexed;
    found = repainted_found;
  }

-- The bits when a level without orders is cleared.
abbrev pub relit : (Side → ℕ → ℕ) → Side → ℕ → Bool → Side → ℕ → ℕ
relit lit side i empty s j =
    if empty then (if same_place side i s j then 0 else lit s j) else lit s j

pub Repainted-flags :
    (b : OrderBook) (q : Queues) (free : List ℕ) (lit : Side → ℕ → ℕ) (events : ℕ) (stopped : Bool)
    → Holds b q free lit
    → Repainted b (record b { smp_events = events; aggressor_stopped = stopped }) lit
Repainted-flags b q free lit events stopped h = record {
  same_grid = record { base = refl; tick = refl; max = refl; lengths = lengths };
  pool = refl;
  ids = refl;
  free_head = refl;
  levels = levels;
  tiers = tiers;
  wide = wide;
  bits = bits;
}
  where
    b' : OrderBook
    b' = record b { smp_events = events; aggressor_stopped = stopped }

    lengths : (s : Side) → length (side_levels b' s) ≡ length (side_levels b s)
    lengths buy = refl
    lengths sell = refl

    levels : (s : Side) (j : ℕ) → level_at b' s j ≡ level_at b s j
    levels buy j = refl
    levels sell j = refl

    tiers : (s : Side) → IsTiered (side_bitmap b' s)
    tiers buy = h.tiers buy
    tiers sell = h.tiers sell

    wide : (s : Side) → (side_bitmap b' s).n ≡ (side_bitmap b s).n
    wide buy = refl
    wide sell = refl

    bits : (s : Side) (j : ℕ) → level_digit (side_bitmap b' s) j ≡ lit s j
    bits buy = h.bits buy
    bits sell = h.bits sell

-- One side's bitmap loses the bit of a level.
module _ (b b' : OrderBook) (q : Queues) (free : List ℕ) (lit : Side → ℕ → ℕ) (i : ℕ)
    (h : Holds b q free lit) (grid : SameGrid b b') (pool : b'.pool ≡ b.pool) (ids : b'.ids ≡ b.ids)
    (free_head : b'.free_head ≡ b.free_head)
    (levels : (s : Side) (j : ℕ) → level_at b' s j ≡ level_at b s j) where
  cleared_bits :
      (side : Side)
      → i < length b.bids
      → (s : Side)
      → side_bitmap b' s ≡ (elim (side_eq side s) [
        | true ↦ clear_level (side_bitmap b s) i
        | false ↦ side_bitmap b s
      ])
      → (j : ℕ) → level_digit (side_bitmap b' s) j ≡ relit lit side i true s j
  cleared_bits side inside s e j = rw e (elim (Bool-cases (side_eq side s)) [
    | inl y ↦ rw y (
        level_digit-clear_level (side_bitmap b s) (h.tiers s) i (rw (h.wide s) inside) j
        ∙ ap (λ v. if i == j then 0 else v) (h.bits s j))
    | inr n ↦ rw n (h.bits s j)
  ])

  cleared_tiers :
      (side : Side)
      → i < length b.bids
      → (s : Side)
      → side_bitmap b' s ≡ (elim (side_eq side s) [
        | true ↦ clear_level (side_bitmap b s) i
        | false ↦ side_bitmap b s
      ])
      → IsTiered (side_bitmap b' s) × ((side_bitmap b' s).n ≡ (side_bitmap b s).n)
  cleared_tiers side inside s e = rw e (elim (Bool-cases (side_eq side s)) [
    | inl y ↦ rw y (
      clear_level-IsTiered (side_bitmap b s) (h.tiers s) i (rw (h.wide s) inside),
      clear_level_n (side_bitmap b s) (h.tiers s) i (rw (h.wide s) inside),
    )
    | inr n ↦ rw n (h.tiers s, refl)
  ])

  pub Repainted-cleared :
      (side : Side)
      → i < length b.bids
      → ((s : Side)
          → side_bitmap b' s ≡ (elim (side_eq side s) [
            | true ↦ clear_level (side_bitmap b s) i
            | false ↦ side_bitmap b s
          ]))
      → Repainted b b' (relit lit side i true)
  Repainted-cleared side inside e = record {
    same_grid = grid;
    pool = pool;
    ids = ids;
    free_head = free_head;
    levels = levels;
    tiers = λ s. (cleared_tiers side inside s (e s)).0;
    wide = λ s. (cleared_tiers side inside s (e s)).1;
    bits = λ s. cleared_bits side inside s (e s);
  }
