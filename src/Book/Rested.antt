-- ===== src/Book/Rested.antt =====
-- The rest of a limit order joins its level: the end of OrderBook::add_limit (cpp/src/order_book.cpp).
use high_frequency_trading.Base.{
  ℕ, ◌^◌, ◌<◌, ◌≡◌, refl, ap, sym, ◌∙◌, subst, ◌≢◌, inl, inr, true, false, Bool, List, [], ◌∷◌,
  ◌++◌, arith, ◌==◌, if◌then◌else◌, set, length, Bool-cases, length-set, length-append, inc64,
}
use high_frequency_trading.Base.Int.{ℤ, pos, ◌+ℤ◌, ◌<ℤ◌}
use high_frequency_trading.Types.{Side, buy, sell}
use high_frequency_trading.IdIndex.{reserved, slot_for}
use high_frequency_trading.IdIndex.Invariant.{IsValid}
use high_frequency_trading.Book.Records.{
  OrderNode, PriceLevel, OrderBook, nil_node, node_at, level_at, index_of, in_band, side_levels,
}
use high_frequency_trading.Book.Slab.{alloc_node, link_back, id_insert}
use high_frequency_trading.Book.Match.{Aggressor}
use high_frequency_trading.Book.{rest_order}
use high_frequency_trading.Book.Grid.{index_of-lt, price_at-index_of}
use high_frequency_trading.Book.Queues.{Chain, Chain-same, Chain-tail, last_of, Apart}
use high_frequency_trading.Book.Links.{
  data_of, node_at-set, link_node, link_data, link_length, link_back_lem, link_apart, link_inside,
}
use high_frequency_trading.Book.Slots.{In, Apart-of, Apart-In, Distinct-bound, last_in}
use high_frequency_trading.Book.Invariant.{
  Queues, Holds, FreeChain-same, FreeChain-dead, Chain-below, SameLinks-of, same_place,
  same_place_self, total, total-same,
}
use high_frequency_trading.Book.Indexing.{id_insert_lem}
use high_frequency_trading.Book.Allocating.{Allocated}
use high_frequency_trading.Book.Addition.{Added}
use high_frequency_trading.Book.Joining.{
  joined, joined_grid, joined_rest, joined-level, joined_bits, joined_tiers, joined_wide, total-add,
}

-- The order's node before it is linked.
abbrev pub resting_node : Aggressor → ℤ → OrderNode → OrderNode
resting_node a remaining n = record n {
  id = a.id;
  price = a.limit;
  quantity = remaining;
  side = a.side;
  owner = a.owner;
  live = true;
}

rest_shape :
    (b : OrderBook) (remaining : ℤ) (pool : List OrderNode) (head slot : ℕ)
    → alloc_node b ≡ (slot, record b { pool = pool; free_head = head })
    → (id owner : ℕ) (limit : ℤ) (side : Side)
    → let a : Aggressor = record { id = id; owner = owner; side = side; limit = limit } in
      let i = index_of b limit in
      let linked =
        link_back
          (set pool slot (resting_node a remaining (node_at pool slot)))
          (level_at b side i)
          slot in
      rest_order b a remaining
      ≡ joined b linked.0 head side i
          (record linked.1 { total_quantity = linked.1.total_quantity +ℤ remaining })
          (id_insert b.ids id slot)
          (inc64 b.live_orders)
unfolding rest_order
rest_shape b remaining pool head slot e id owner limit buy = rw e refl
rest_shape b remaining pool head slot e id owner limit sell = rw e refl

module _ (b : OrderBook) (a : Aggressor) (remaining : ℤ) (q : Queues) (free : List ℕ)
    (lit : Side → ℕ → ℕ) (pool : List OrderNode) (head slot : ℕ) (h : Holds b q free lit)
    (al : Allocated b q pool head slot) where
  abbrev i : ℕ
  i = index_of b a.limit

  abbrev node : OrderNode
  node = resting_node a remaining (node_at pool slot)

  abbrev pool1 : List OrderNode
  pool1 = set pool slot node

  abbrev level : PriceLevel
  level = level_at b a.side i

  abbrev linked : List OrderNode × PriceLevel
  linked = link_back pool1 level slot

  abbrev level2 : PriceLevel
  level2 = record linked.1 { total_quantity = linked.1.total_quantity +ℤ remaining }

  abbrev b' : OrderBook
  b' = joined b linked.0 head a.side i level2 (id_insert b.ids a.id slot) (inc64 b.live_orders)

  pub rest_run : rest_order b a remaining ≡ b'
  rest_run = rest_shape b remaining pool head slot al.run a.id a.owner a.limit a.side

  abbrev xs : List ℕ
  xs = q a.side i

  apart : Apart slot xs
  apart = Apart-of slot xs (λ y m e. al.unused a.side i (subst (λ z. In z xs) (sym e) m))

  below1 : slot < length pool1
  below1 = omega (arith, al.below, length-set pool slot node)

  node1 : (y : ℕ) → y ≢ slot → node_at pool1 y ≡ node_at b.pool y
  node1 y ne =
      let off : (slot == y) ≡ false = ground arith in
      node_at-set pool slot y node al.below ∙ rw off (al.kept y ne)

  new1 : node_at pool1 slot ≡ node
  new1 =
      let e : (slot == slot) ≡ true = ground arith in
      node_at-set pool slot slot node al.below ∙ rw e refl

  chain1 : Chain pool1 nil_node level.head level.tail xs
  chain1 =
      Chain-same b.pool pool1 nil_node level.head level.tail xs
        (omega (arith, al.grown, length-set pool slot node))
        (SameLinks-of b.pool pool1 xs
          (λ y m. node1 y (λ z. al.unused a.side i (subst (λ k. In k xs) z m))))
        (h.chained a.side i)

  off_tail : slot ≢ level.tail
  off_tail = link_apart pool1 level slot xs below1 al.real (h.distinct a.side i) apart chain1

  tail_in : level.tail ≢ nil_node → level.tail < length pool1
  tail_in = link_inside pool1 level slot xs below1 al.real (h.distinct a.side i) apart chain1

  linked_length : length linked.0 ≡ length pool
  linked_length = link_length pool1 level slot below1 off_tail tail_in ∙ length-set pool slot node

  linked_data : (y : ℕ) → data_of (node_at linked.0 y) ≡ data_of (node_at pool1 y)
  linked_data = link_data pool1 level slot below1 off_tail tail_in

  new_data : data_of (node_at linked.0 slot) ≡ data_of node
  new_data = linked_data slot ∙ ap data_of new1

  -- A node out of the level's queue is not written.
  linked_elsewhere : (y : ℕ) → y ≢ slot → (In y xs → ⊥) → node_at linked.0 y ≡ node_at b.pool y
  linked_elsewhere y ne out =
      let off : (slot == y) ≡ false = ground arith in
      link_node pool1 level slot below1 off_tail tail_in y
      ∙ rw off (elim (Bool-cases (level.tail == nil_node)) [
        | inl z ↦ rw z (node1 y ne)
        | inr some ↦
            let away : (level.tail == y) ≡ false =
              not_last xs out some (Chain-tail pool1 nil_node level.head level.tail xs chain1) in
            rw (some, away) (node1 y ne)
      ])
    where
      not_last :
          (ys : List ℕ)
          → (In y ys → ⊥)
          → (level.tail == nil_node) ≡ false
          → level.tail ≡ last_of nil_node ys
          → (level.tail == y) ≡ false
      not_last [] o some e = absurd (ground arith)
      not_last (z ∷ zs) o some e = elim (Bool-cases (level.tail == y)) [
        | inl here ↦
            let f : last_of z zs ≡ y = sym e ∙ same here in
            absurd (o (subst (λ k. In k (z ∷ zs)) f (last_in z zs)))
        | inr n ↦ n
      ]
        where
          same : (level.tail == y) ≡ true → level.tail ≡ y
          same here = ground arith

  unfree : (y : ℕ) → In y al.free → (y ≢ slot) × (In y xs → ⊥)
  unfree y m =
      let ne : y ≢ slot = λ z. Apart-In slot y al.free al.apart m (sym z) in
      (
        ne,
        λ l.
            clash
              (ap (λ n. n.live) (sym (al.kept y ne))
                ∙ FreeChain-dead pool head y al.free al.freed m)
              (h.resting a.side i y l).live,
      )
    where
      clash : {u : Bool} → u ≡ false → u ≡ true → ⊥
      clash p t = cc

  linked_count : length xs < nil_node → linked.1.order_count ≡ length (xs ++ (slot ∷ []))
  unfolding link_back
  linked_count l = elim (Bool-cases (level.tail == nil_node)) [
    | inl z ↦ rw z (omega (arith, h.counted a.side i, length-append xs (slot ∷ [])))
    | inr n ↦ rw n (omega (arith, h.counted a.side i, length-append xs (slot ∷ [])))
  ]

  linked_total : linked.1.total_quantity ≡ total b.pool xs
  unfolding link_back
  linked_total = elim (Bool-cases (level.tail == nil_node)) [
    | inl z ↦ rw z (h.totalled a.side i)
    | inr n ↦ rw n (h.totalled a.side i)
  ]

  short : length b.pool < nil_node → length xs < nil_node
  short room =
      let l =
        Distinct-bound (length b.pool) xs (h.distinct a.side i)
          (λ x m. Chain-below b.pool nil_node level.head level.tail x xs (h.chained a.side i) m) in
      omega (arith, l)

  module _ (room : length b.pool < nil_node) (banded : in_band b a.limit ≡ true)
      (positive : pos 0 <ℤ remaining) (proper : reserved a.id ≡ false)
      (absent : slot_for b.ids a.id ≡ nil_node) (few : b.ids.count < 2 ^ 60) where
    inside : i < length b.bids
    inside = index_of-lt b (length b.bids) h.grid a.limit banded

    on_side : (s : Side) → i < length (side_levels b s)
    on_side buy = inside
    on_side sell = omega (arith, inside, h.even)

    abbrev rested : OrderBook
    rested = b'

    rested_pool : rested.pool ≡ linked.0
    rested_pool =
        (joined_rest b linked.0 head i level2 (id_insert b.ids a.id slot) (inc64 b.live_orders)
          a.side).0

    rested_ids : rested.ids ≡ id_insert b.ids a.id slot
    rested_ids =
        (joined_rest b linked.0 head i level2 (id_insert b.ids a.id slot) (inc64 b.live_orders)
          a.side).1

    rested_head : rested.free_head ≡ head
    rested_head =
        (joined_rest b linked.0 head i level2 (id_insert b.ids a.id slot) (inc64 b.live_orders)
          a.side).2

    rested_level :
        (s : Side) (j : ℕ)
        → level_at rested s j ≡ (if same_place a.side i s j then level2 else level_at b s j)
    rested_level =
        joined-level b linked.0 head i level2 (id_insert b.ids a.id slot) (inc64 b.live_orders)
          a.side (on_side a.side)

    rested_here : level_at rested a.side i ≡ level2
    rested_here = rested_level a.side i ∙ rw (same_place_self a.side i) refl

    pub at_slot : data_of (node_at rested.pool slot) ≡ data_of node
    at_slot = rw rested_pool new_data

    summed : linked.1.total_quantity +ℤ remaining ≡ total linked.0 (xs ++ (slot ∷ []))
    summed =
        ap (λ t. t +ℤ remaining)
          (linked_total
            ∙ sym (
                total-same b.pool linked.0 xs (λ y m.
                  let ne : y ≢ slot = λ z. al.unused a.side i (subst (λ k. In k xs) z m) in
                  ap (λ n. n.quantity) (linked_data y) ∙ ap (λ n. n.quantity) (node1 y ne))))
        ∙ ap (λ t. total linked.0 xs +ℤ t) (sym (ap (λ n. n.quantity) new_data))
        ∙ sym (total-add linked.0 xs slot)

    indexed :
        IsValid (id_insert b.ids a.id slot)
        × ((j : ℕ)
            → slot_for (id_insert b.ids a.id slot) j
              ≡ (if j == a.id then slot else slot_for b.ids j))
    indexed = id_insert_lem b.ids h.indexed few a.id slot proper al.real absent

    pub rested-Added : Added b rested q al.free a.side i slot a.id
    rested-Added = record {
      same_grid =
          joined_grid b linked.0 head i level2 (id_insert b.ids a.id slot) (inc64 b.live_orders)
            a.side;
      tiers =
          joined_tiers b linked.0 head i level2 (id_insert b.ids a.id slot) (inc64 b.live_orders) q
            free lit h inside a.side;
      wide =
          joined_wide b linked.0 head i level2 (id_insert b.ids a.id slot) (inc64 b.live_orders) q
            free lit h inside a.side;
      bits =
          joined_bits b linked.0 head i level2 (id_insert b.ids a.id slot) (inc64 b.live_orders) q
            free lit h inside a.side;
      grown = omega (arith, ap length rested_pool, linked_length, al.grown);
      room = omega (arith, ap length rested_pool, linked_length, al.room);
      unused = al.unused;
      live = ap (λ n. n.live) at_slot;
      side_of = ap (λ n. n.side) at_slot;
      price_of =
          ap (λ n. n.price) at_slot
          ∙ sym (price_at-index_of b (length b.bids) h.grid a.limit banded);
      positive = rw (ap (λ n. n.quantity) at_slot) positive;
      named = ap (λ n. n.id) at_slot;
      proper = proper;
      elsewhere = λ y ne out. rw rested_pool (linked_elsewhere y ne out);
      kept = λ y ne. rw rested_pool (linked_data y ∙ ap data_of (node1 y ne));
      levels = λ s j e. rested_level s j ∙ rw e refl;
      chain =
          rw (rested_here, rested_pool)
            (link_back_lem pool1 level slot xs below1 al.real (h.distinct a.side i) apart chain1);
      count = ap (λ (l : PriceLevel). l.order_count) rested_here ∙ linked_count (short room);
      sum = ap (λ (l : PriceLevel). l.total_quantity) rested_here ∙ summed ∙ rw rested_pool refl;
      freed =
          rw (rested_pool, rested_head)
            (FreeChain-same pool linked.0 head al.free (omega (arith, linked_length))
              (λ y m. let (ne, out) = unfree y m in linked_elsewhere y ne out ∙ sym (al.kept y ne))
              al.freed);
      free_distinct = al.distinct;
      indexed = rw rested_ids indexed.0;
      absent = absent;
      looks = λ j. rw rested_ids (indexed.1 j);
    }
