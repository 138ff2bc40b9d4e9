-- ===== src/Book/Removal.antt =====
-- An order that leaves the order book (cpp/src/order_book.cpp): what the code must have written for
-- the book to hold the queues without it.
use high_frequency_trading.Base.{
  ℕ, ◌<◌, ◌≡◌, refl, ap, sym, ◌∙◌, subst, ◌≢◌, inl, inr, true, false, Bool, List, ◌∷◌, ◌++◌, arith,
  ◌==◌, if◌then◌else◌, length, Bool-cases,
}
use high_frequency_trading.Base.Int.{ℤ}
use high_frequency_trading.Types.{Side, buy, sell}
use high_frequency_trading.IdIndex.{reserved, slot_for, erase}
use high_frequency_trading.IdIndex.Update.{erase-IsValid, slot_for-erase}
use high_frequency_trading.Book.Records.{
  OrderBook, nil_node, node_at, level_at, side_levels, side_bitmap, index_of, price_at,
}
use high_frequency_trading.Book.Grid.{Grid}
use high_frequency_trading.Book.Queues.{Chain, Distinct, Chain-same, Chain-real}
use high_frequency_trading.Book.Links.{data_of}
use high_frequency_trading.Book.Slots.{
  In, Apart-of, In-middle, In-removed, In-left, Distinct-removed, removed-Apart, Apart-In,
}
use high_frequency_trading.Book.Invariant.{
  Queues, total, FreeChain, Resting, place_of, Holds, same_place, put, place_refl, same_place_eq,
  at_place, Chain-below, SameLinks-of, total-same, FreeChain-same, FreeChain-dead, one_place,
}

-- Two books on one grid.
pub record SameGrid (b b' : OrderBook) : Type 0 where
  pub base : b'.base ≡ b.base
  pub tick : b'.tick_size ≡ b.tick_size
  pub max : b'.max_price ≡ b.max_price
  pub lengths : (s : Side) → length (side_levels b' s) ≡ length (side_levels b s)

pub price_at-same : {b b' : OrderBook} (i : ℕ) → SameGrid b b' → price_at b' i ≡ price_at b i
unfolding price_at
price_at-same i g = rw (g.base, g.tick) refl

pub index_of-same : {b b' : OrderBook} (p : ℤ) → SameGrid b b' → index_of b' p ≡ index_of b p
unfolding index_of
index_of-same p g = rw (g.base, g.tick) refl

pub Grid-same :
    {b b' : OrderBook} → SameGrid b b' → Grid b (length b.bids) → Grid b' (length b'.bids)
Grid-same g h = record {
  coarse = rw g.tick h.coarse;
  reaches = rw (g.base, g.max) h.reaches;
  counted = rw (g.lengths buy, g.base, g.tick, g.max) h.counted;
}

pub record Removed (b b' : OrderBook) (q : Queues) (side : Side) (i slot : ℕ) (rest : List ℕ)
    : Type 0 where
  pub same_grid : SameGrid b b'
  pub maps : (s : Side) → side_bitmap b' s ≡ side_bitmap b s
  pub sized : length b'.pool ≡ length b.pool
  pub gone : (node_at b'.pool slot).live ≡ false
  pub gone_next : (node_at b'.pool slot).next ≡ b.free_head
  pub free_head : b'.free_head ≡ slot
  pub ids : b'.ids ≡ erase b.ids (node_at b.pool slot).id
  pub elsewhere : (y : ℕ) → y ≢ slot → (In y (q side i) → ⊥) → node_at b'.pool y ≡ node_at b.pool y
  pub kept : (y : ℕ) → y ≢ slot → data_of (node_at b'.pool y) ≡ data_of (node_at b.pool y)
  pub levels : (s : Side) (j : ℕ) → same_place side i s j ≡ false → level_at b' s j ≡ level_at b s j
  pub chain : Chain b'.pool nil_node (level_at b' side i).head (level_at b' side i).tail rest
  pub count : (level_at b' side i).order_count ≡ length rest
  pub sum : (level_at b' side i).total_quantity ≡ total b'.pool rest

module _ (b b' : OrderBook) (q : Queues) (free : List ℕ) (lit : Side → ℕ → ℕ) (side : Side)
    (i slot : ℕ) (ss bs : List ℕ) (h : Holds b q free lit) (split : q side i ≡ ss ++ (slot ∷ bs))
    (r : Removed b b' q side i slot (ss ++ bs)) where
  abbrev q' : Queues
  q' = put q side i (ss ++ bs)

  member : In slot (q side i)
  member = rw split (In-middle slot ss bs)

  Distinct-here : Distinct (ss ++ (slot ∷ bs))
  Distinct-here = subst Distinct split (h.distinct side i)

  at_home : (s : Side) (j : ℕ) → same_place side i s j ≡ true → q' s j ≡ ss ++ bs
  at_home s j e = rw e refl

  off_home : (s : Side) (j : ℕ) → same_place side i s j ≡ false → q' s j ≡ q s j
  off_home s j e = rw e refl

  -- What is in the new queues was in the old ones, and is not the slot.
  was_in : (s : Side) (j x : ℕ) → In x (q' s j) → In x (q s j) × (x ≢ slot)
  was_in s j x m = elim (Bool-cases (same_place side i s j)) [
    | inl e ↦
        let m' = subst (In x) (at_home s j e) m in
        let (es, ej) = same_place_eq side i s j e in
        (
          subst (λ t. In x (q t j)) es
              (subst (λ k. In x (q side k)) ej (rw split (In-removed x slot ss bs m'))),
          λ z. Apart-In slot x (ss ++ bs) (removed-Apart slot ss bs Distinct-here) m' (sym z),
        )
    | inr e ↦
        let m' = subst (In x) (off_home s j e) m in
        (
          m',
          λ z.
              let (es, ej) =
                one_place b q free lit h side i s j slot member (subst (λ y. In y (q s j)) z m') in
              away s j e es ej,
        )
  ]
    where
      away : (s : Side) (j : ℕ) → same_place side i s j ≡ false → side ≡ s → i ≡ j → ⊥
      away s j e es ej = let t : same_place side i s j ≡ true = place_refl side i s j es ej in cc

  not_here :
      (s : Side) (j x : ℕ) → same_place side i s j ≡ false → In x (q s j) → In x (q side i) → ⊥
  not_here s j x e m l =
      let (es, ej) = one_place b q free lit h side i s j x l m in
      let t : same_place side i s j ≡ true = place_refl side i s j es ej in cc

  unchanged :
      (s : Side) (j x : ℕ)
      → same_place side i s j ≡ false
      → In x (q s j)
      → node_at b'.pool x ≡ node_at b.pool x
  unchanged s j x e m =
      r.elsewhere x (λ z. not_here s j x e m (subst (λ y. In y (q side i)) (sym z) member))
        (not_here s j x e m)

  removed_chained :
      (s : Side) (j : ℕ)
      → Chain b'.pool nil_node (level_at b' s j).head (level_at b' s j).tail (q' s j)
  removed_chained s j = elim (Bool-cases (same_place side i s j)) [
    | inl e ↦ rw (at_home s j e) (
        at_place
          (λ t k. Chain b'.pool nil_node (level_at b' t k).head (level_at b' t k).tail (ss ++ bs))
          side i s j e r.chain)
    | inr e ↦
        rw (off_home s j e, r.levels s j e)
          (Chain-same b.pool b'.pool nil_node (level_at b s j).head (level_at b s j).tail (q s j)
            (omega (arith, r.sized)) (SameLinks-of b.pool b'.pool (q s j) (λ x. unchanged s j x e))
            (h.chained s j))
  ]

  removed_counted : (s : Side) (j : ℕ) → (level_at b' s j).order_count ≡ length (q' s j)
  removed_counted s j = elim (Bool-cases (same_place side i s j)) [
    | inl e ↦
        rw (at_home s j e)
          (at_place (λ t k. (level_at b' t k).order_count ≡ length (ss ++ bs)) side i s j e r.count)
    | inr e ↦ rw (off_home s j e, r.levels s j e) (h.counted s j)
  ]

  removed_totalled : (s : Side) (j : ℕ) → (level_at b' s j).total_quantity ≡ total b'.pool (q' s j)
  removed_totalled s j = elim (Bool-cases (same_place side i s j)) [
    | inl e ↦ rw (at_home s j e) (
        at_place (λ t k. (level_at b' t k).total_quantity ≡ total b'.pool (ss ++ bs)) side i s j e
          r.sum)
    | inr e ↦
        rw (off_home s j e, r.levels s j e)
          (h.totalled s j
            ∙ sym (
                total-same b.pool b'.pool (q s j)
                  (λ x m. ap (λ n. n.quantity) (unchanged s j x e m))))
  ]

  removed-Distinct : (s : Side) (j : ℕ) → Distinct (q' s j)
  removed-Distinct s j = elim (Bool-cases (same_place side i s j)) [
    | inl e ↦ rw (at_home s j e) (Distinct-removed slot ss bs Distinct-here)
    | inr e ↦ rw (off_home s j e) (h.distinct s j)
  ]

  slot_at : Resting b side i slot
  slot_at = h.resting side i slot member

  slot_real : slot ≢ nil_node
  slot_real e =
      Apart-In nil_node slot (q side i)
        (Chain-real b.pool nil_node (level_at b side i).head (level_at b side i).tail (q side i)
          (h.chained side i))
        member (sym e)

  slot_below : slot < length b.pool
  slot_below =
      Chain-below b.pool nil_node (level_at b side i).head (level_at b side i).tail slot (q side i)
        (h.chained side i) member

  -- Another order's id is not the one that is erased.
  other_id :
      (x : ℕ)
      → x ≢ slot
      → slot_for b.ids (node_at b.pool x).id ≡ x
      → ((node_at b.pool x).id == (node_at b.pool slot).id) ≡ false
  other_id x ne known = elim (Bool-cases ((node_at b.pool x).id == (node_at b.pool slot).id)) [
    | inl e ↦
        let same : (node_at b.pool x).id ≡ (node_at b.pool slot).id = ground arith in
        absurd (ne (sym known ∙ ap (slot_for b.ids) same ∙ slot_at.known))
    | inr e ↦ e
  ]

  erased :
      (id : ℕ)
      → slot_for b'.ids id
        ≡ (if id == (node_at b.pool slot).id then nil_node else slot_for b.ids id)
  erased id =
      ap (λ t. slot_for t id) r.ids
      ∙ slot_for-erase b.ids (node_at b.pool slot).id h.indexed slot_at.proper id

  removed-Resting : (s : Side) (j x : ℕ) → In x (q' s j) → Resting b' s j x
  removed-Resting s j x m =
      let (old, ne) = was_in s j x m in
      let at = h.resting s j x old in
      let same = r.kept x ne in
      record {
        live = ap (λ n. n.live) same ∙ at.live;
        side_of = ap (λ n. n.side) same ∙ at.side_of;
        price_of = ap (λ n. n.price) same ∙ at.price_of ∙ sym (price_at-same j r.same_grid);
        positive = rw (ap (λ n. n.quantity) same) at.positive;
        proper = ap (λ n. reserved n.id) same ∙ at.proper;
        known =
            ap (λ n. slot_for b'.ids n.id) same
            ∙ erased (node_at b.pool x).id
            ∙ rw (other_id x ne at.known) at.known;
      }

  freed_apart : (y : ℕ) → In y free → (y ≢ slot) × (In y (q side i) → ⊥)
  freed_apart y m =
      let dead = FreeChain-dead b.pool b.free_head y free h.freed m in
      (
        (λ e. clash (ap (λ z. (node_at b.pool z).live) (sym e) ∙ dead) slot_at.live),
        (λ l. clash dead (h.resting side i y l).live),
      )
    where
      clash : {u : Bool} → u ≡ false → u ≡ true → ⊥
      clash p t = cc

  removed_freed : FreeChain b'.pool b'.free_head (slot ∷ free)
  removed_freed = (
    r.free_head,
    slot_real,
    omega (arith, slot_below, r.sized),
    r.gone,
    rw r.gone_next (
        FreeChain-same b.pool b'.pool b.free_head free (omega (arith, r.sized))
          (λ y m. let (ne, out) = freed_apart y m in r.elsewhere y ne out) h.freed),
  )

  still_in : (s : Side) (j x : ℕ) → x ≢ slot → In x (q s j) → In x (q' s j)
  still_in s j x ne m = elim (Bool-cases (same_place side i s j)) [
    | inl e ↦ rw (at_home s j e) (
        In-left x slot ss bs ne (
          subst (In x) split
            (at_place (λ t k. In x (q t k) → In x (q side i)) side i s j e (λ z. z) m)))
    | inr e ↦ rw (off_home s j e) m
  ]

  removed_found :
      (id : ℕ)
      → slot_for b'.ids id ≢ nil_node
      → In (slot_for b'.ids id) (place_of b' q' (slot_for b'.ids id))
        × ((node_at b'.pool (slot_for b'.ids id)).id ≡ id)
  removed_found id some = elim (Bool-cases (id == (node_at b.pool slot).id)) [
    | inl e ↦ absurd (some (erased id ∙ rw e refl))
    | inr e ↦
        let same : slot_for b'.ids id ≡ slot_for b.ids id = erased id ∙ rw e refl in
        let (m, named) = h.found id (λ z. some (same ∙ z)) in
        let ne : slot_for b.ids id ≢ slot =
          λ z. let f = sym named ∙ ap (λ x. (node_at b.pool x).id) z in ground arith in
        let kept = r.kept (slot_for b.ids id) ne in
        let s = (node_at b.pool (slot_for b.ids id)).side in
        let j = index_of b (node_at b.pool (slot_for b.ids id)).price in
        let there : place_of b' q' (slot_for b.ids id) ≡ q' s j =
          ap (λ n. q' n.side (index_of b' n.price)) kept
          ∙ ap (q' s) (index_of-same (node_at b.pool (slot_for b.ids id)).price r.same_grid) in
        subst (λ x. In x (place_of b' q' x) × ((node_at b'.pool x).id ≡ id)) (sym same)
          (
            subst (In (slot_for b.ids id)) (sym there) (still_in s j (slot_for b.ids id) ne m),
            ap (λ n. n.id) kept ∙ named,
          )
  ]

  -- The book holds the queues without the order, and one free node more.
  pub Removed-Holds : Holds b' (put q side i (ss ++ bs)) (slot ∷ free) lit
  Removed-Holds = record {
    grid = Grid-same r.same_grid h.grid;
    even = r.same_grid.lengths sell ∙ h.even ∙ sym (r.same_grid.lengths buy);
    tiers = λ s. rw (r.maps s) (h.tiers s);
    wide = λ s. rw (r.maps s, r.same_grid.lengths buy) (h.wide s);
    bits = λ s j. rw (r.maps s) (h.bits s j);
    chained = removed_chained;
    distinct = removed-Distinct;
    counted = removed_counted;
    totalled = removed_totalled;
    resting = removed-Resting;
    room = rw r.sized h.room;
    freed = removed_freed;
    free_distinct = (Apart-of slot free (λ y m e. (freed_apart y m).0 (sym e)), h.free_distinct);
    indexed = rw r.ids (erase-IsValid b.ids (node_at b.pool slot).id h.indexed slot_at.proper);
    found = removed_found;
  }
