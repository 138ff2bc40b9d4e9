-- ===== src/Book/Requantify.antt =====
-- An order that keeps its place with another quantity: a partial trade and a reduction in place
-- (match and modify of cpp/src/order_book.cpp).
use high_frequency_trading.Base.{
  ℕ, ◌<◌, ◌≡◌, refl, ap, sym, ◌∙◌, subst, ◌≢◌, inl, inr, true, false, List, [], ◌∷◌, arith, ◌==◌,
  if◌then◌else◌, set, length, Bool-cases, length-set, get_or-set,
}
use high_frequency_trading.Base.Int.{ℤ, pos, ◌+ℤ◌, ◌-ℤ◌, ◌<ℤ◌, int_laws}
use high_frequency_trading.Types.{Side, buy, sell}
use high_frequency_trading.IdIndex.{reserved, slot_for}
use high_frequency_trading.Book.Records.{
  OrderNode, OrderBook, nil_node, node_at, level_at, side_levels, side_bitmap, blank_level,
  index_of,
}
use high_frequency_trading.Book.Match.{less_total}
use high_frequency_trading.Book.Queues.{Chain, Chain-same, SameLinks-all, Apart, Distinct}
use high_frequency_trading.Book.Links.{node_at-set}
use high_frequency_trading.Book.Slots.{In, Apart-In}
use high_frequency_trading.Book.Invariant.{
  Queues, Holds, Resting, FreeChain, place_of, same_place, place_refl, at_place, one_place, total,
  Chain-below,
}
use high_frequency_trading.Book.Removal.{SameGrid, price_at-same, index_of-same, Grid-same}
use high_frequency_trading.Book.Unlinking.{requantified}
use high_frequency_trading.Book.Unlinked.{occupied-lt}

module _ (b : OrderBook) (i slot : ℕ) (x y : ℤ) where
  requantified_lengths :
      (side s : Side)
      → length (side_levels (requantified b side i slot x y) s) ≡ length (side_levels b s)
  unfolding less_total
  requantified_lengths buy buy = length-set b.bids i _
  requantified_lengths buy sell = refl
  requantified_lengths sell buy = refl
  requantified_lengths sell sell = length-set b.asks i _

  pub requantified_grid : (side : Side) → SameGrid b (requantified b side i slot x y)
  unfolding less_total
  requantified_grid buy = record {
    base = refl;
    tick = refl;
    max = refl;
    lengths = requantified_lengths buy;
  }
  requantified_grid sell = record {
    base = refl;
    tick = refl;
    max = refl;
    lengths = requantified_lengths sell;
  }

  requantified_maps :
      (side s : Side) → side_bitmap (requantified b side i slot x y) s ≡ side_bitmap b s
  unfolding less_total
  requantified_maps buy buy = refl
  requantified_maps buy sell = refl
  requantified_maps sell buy = refl
  requantified_maps sell sell = refl

  requantified_rest :
      (side : Side)
      → ((requantified b side i slot x y).pool
          ≡ set b.pool slot (record (node_at b.pool slot) { quantity = x }))
        × ((requantified b side i slot x y).ids ≡ b.ids)
        × ((requantified b side i slot x y).free_head ≡ b.free_head)
  unfolding less_total
  requantified_rest buy = (refl, refl, refl)
  requantified_rest sell = (refl, refl, refl)

  requantified_level :
      (side : Side)
      → i < length (side_levels b side)
      → (s : Side) (j : ℕ)
      → level_at (requantified b side i slot x y) s j ≡ (
          if same_place side i s j
          then record (level_at b side i) {
            total_quantity = (level_at b side i).total_quantity -ℤ y;
          }
          else level_at b s j)
  unfolding less_total
  requantified_level buy inside buy j = get_or-set b.bids i j _ blank_level inside
  requantified_level buy inside sell j = refl
  requantified_level sell inside buy j = refl
  requantified_level sell inside sell j = get_or-set b.asks i j _ blank_level inside

-- The total of a queue when one of its nodes has another quantity.
total_changed :
    (pool pool' : List OrderNode) (slot : ℕ) (d : ℤ) (xs : List ℕ)
    → Distinct xs
    → In slot xs
    → (node_at pool' slot).quantity +ℤ d ≡ (node_at pool slot).quantity
    → ((z : ℕ) → z ≢ slot → (node_at pool' z).quantity ≡ (node_at pool z).quantity)
    → total pool' xs ≡ total pool xs -ℤ d
total_changed pool pool' slot d [] ds m e same = elim m [ ]
total_changed pool pool' slot d (s ∷ xs) (a, ds) (inl f) e same =
    let rest : total pool' xs ≡ total pool xs = untouched xs (subst (λ k. Apart k xs) (sym f) a) in
    rw rest (
      first (node_at pool' s).quantity (node_at pool s).quantity (total pool xs)
        (subst (λ k. (node_at pool' k).quantity +ℤ d ≡ (node_at pool k).quantity) f e))
  where
    untouched : (ys : List ℕ) → Apart slot ys → total pool' ys ≡ total pool ys
    untouched [] a = refl
    untouched (z ∷ ys) (ne, a) = rw (same z (λ q. ne (sym q)), untouched ys a) refl

    first : (u v t : ℤ) → u +ℤ d ≡ v → u +ℤ t ≡ (v +ℤ t) -ℤ d
    first u v t e = rw (sym e) (shift u t)
      where
        shift : (u t : ℤ) → u +ℤ t ≡ ((u +ℤ d) +ℤ t) -ℤ d
        shift u t = omega int_laws
total_changed pool pool' slot d (s ∷ xs) (a, ds) (inr m) e same =
    rw (same s (Apart-In s slot xs a m), total_changed pool pool' slot d xs ds m e same)
      (assoc (node_at pool s).quantity (total pool xs))
  where
    assoc : (u v : ℤ) → u +ℤ (v -ℤ d) ≡ (u +ℤ v) -ℤ d
    assoc u v = omega int_laws

module _ (b : OrderBook) (q : Queues) (free : List ℕ) (lit : Side → ℕ → ℕ) (side : Side)
    (i slot : ℕ) (x y : ℤ) (h : Holds b q free lit) (m : In slot (q side i)) (positive : pos 0 <ℤ x)
    (whole : x +ℤ y ≡ (node_at b.pool slot).quantity) where
  abbrev b' : OrderBook
  b' = requantified b side i slot x y

  inside : i < length (side_levels b side)
  inside = occupied-lt b q free lit side i slot h m

  below : slot < length b.pool
  below =
      Chain-below b.pool nil_node (level_at b side i).head (level_at b side i).tail slot (q side i)
        (h.chained side i) m

  pub new_node :
      (z : ℕ)
      → node_at b'.pool z
        ≡ (if slot == z then record (node_at b.pool slot) { quantity = x } else node_at b.pool z)
  new_node z =
      ap (λ (p : List OrderNode). node_at p z) (requantified_rest b i slot x y side).0
      ∙ node_at-set b.pool slot z (record (node_at b.pool slot) { quantity = x }) below

  new_length : length b'.pool ≡ length b.pool
  new_length =
      ap length (requantified_rest b i slot x y side).0
      ∙ length-set b.pool slot (record (node_at b.pool slot) { quantity = x })

  -- All but the quantity stays.
  abbrev shape : OrderNode → OrderNode
  shape n = record n { quantity = pos 0 }

  same_shape : (z : ℕ) → shape (node_at b'.pool z) ≡ shape (node_at b.pool z)
  same_shape z = ap shape (new_node z) ∙ (elim (Bool-cases (slot == z)) [
    | inl e ↦ let f : slot ≡ z = ground arith in rw e (ap (λ k. shape (node_at b.pool k)) f)
    | inr n ↦ rw n refl
  ])

  new_quantity : (node_at b'.pool slot).quantity ≡ x
  new_quantity =
      let e : (slot == slot) ≡ true = ground arith in
      ap (λ n. n.quantity) (new_node slot) ∙ rw e refl

  same_quantity : (z : ℕ) → z ≢ slot → (node_at b'.pool z).quantity ≡ (node_at b.pool z).quantity
  same_quantity z ne =
      let e : (slot == z) ≡ false = ground arith in ap (λ n. n.quantity) (new_node z) ∙ rw e refl

  new_positive :
      (z : ℕ) → pos 0 <ℤ (node_at b.pool z).quantity → pos 0 <ℤ (node_at b'.pool z).quantity
  new_positive z p = elim (Bool-cases (slot == z)) [
    | inl e ↦
        let f : slot ≡ z = ground arith in
        subst (λ k. pos 0 <ℤ (node_at b'.pool k).quantity) f (rw new_quantity positive)
    | inr n ↦ rw (same_quantity z (ground arith)) p
  ]

  new_chained :
      (s : Side) (j : ℕ)
      → Chain b'.pool nil_node (level_at b' s j).head (level_at b' s j).tail (q s j)
  new_chained s j =
      let old =
        Chain-same b.pool b'.pool nil_node (level_at b s j).head (level_at b s j).tail (q s j)
          (omega (arith, new_length))
          (SameLinks-all b.pool b'.pool (q s j) (λ z. ap (λ n. n.prev) (same_shape z))
            (λ z. ap (λ n. n.next) (same_shape z)))
          (h.chained s j) in
      rw (requantified_level b i slot x y side inside s j)
        (elim (Bool-cases (same_place side i s j)) [
          | inl e ↦ rw e (
              at_place
                (λ t k.
                  Chain b'.pool nil_node (level_at b t k).head (level_at b t k).tail (q s j)
                  → Chain b'.pool nil_node (level_at b side i).head (level_at b side i).tail
                      (q s j))
                side i s j e (λ c. c) old)
          | inr n ↦ rw n old
        ])

  new_counted : (s : Side) (j : ℕ) → (level_at b' s j).order_count ≡ length (q s j)
  new_counted s j =
      rw (requantified_level b i slot x y side inside s j)
        (elim (Bool-cases (same_place side i s j)) [
          | inl e ↦ rw e (
              at_place (λ t k. (level_at b side i).order_count ≡ length (q t k)) side i s j e
                (h.counted side i))
          | inr n ↦ rw n (h.counted s j)
        ])

  new_totalled : (s : Side) (j : ℕ) → (level_at b' s j).total_quantity ≡ total b'.pool (q s j)
  new_totalled s j =
      rw (requantified_level b i slot x y side inside s j)
        (elim (Bool-cases (same_place side i s j)) [
          | inl e ↦ rw e (
              at_place (λ t k. (level_at b side i).total_quantity -ℤ y ≡ total b'.pool (q t k)) side
                i s j e
                (ap (λ t. t -ℤ y) (h.totalled side i)
                  ∙ sym (
                      total_changed b.pool b'.pool slot y (q side i) (h.distinct side i) m
                        (rw new_quantity whole) same_quantity)))
          | inr n ↦ rw n (h.totalled s j ∙ sym (kept (q s j) (outside s j n)))
        ])
    where
      outside :
          (s : Side) (j : ℕ) → same_place side i s j ≡ false → (z : ℕ) → In z (q s j) → z ≢ slot
      outside s j n z l e =
          let (es, ej) =
            one_place b q free lit h side i s j slot m (subst (λ k. In k (q s j)) e l) in
          let t : same_place side i s j ≡ true = place_refl side i s j es ej in cc

      kept : (xs : List ℕ) → ((z : ℕ) → In z xs → z ≢ slot) → total b'.pool xs ≡ total b.pool xs
      kept [] o = refl
      kept (z ∷ xs) o = rw (same_quantity z (o z (inl refl)), kept xs (λ k l. o k (inr l))) refl

  new-Resting : (s : Side) (j z : ℕ) → In z (q s j) → Resting b' s j z
  new-Resting s j z l =
      let at = h.resting s j z l in
      let same = same_shape z in
      record {
        live = ap (λ n. n.live) same ∙ at.live;
        side_of = ap (λ n. n.side) same ∙ at.side_of;
        price_of =
            ap (λ n. n.price) same
            ∙ at.price_of
            ∙ sym (price_at-same j (requantified_grid b i slot x y side));
        positive = new_positive z at.positive;
        proper = ap (λ n. reserved n.id) same ∙ at.proper;
        known =
            ap (λ n. slot_for b'.ids n.id) same
            ∙ ap (λ t. slot_for t (node_at b.pool z).id) (requantified_rest b i slot x y side).1
            ∙ at.known;
      }

  new_freed : FreeChain b'.pool b'.free_head free
  new_freed = rw (requantified_rest b i slot x y side).2 (chain b.free_head free h.freed)
    where
      chain : (head : ℕ) (ss : List ℕ) → FreeChain b.pool head ss → FreeChain b'.pool head ss
      chain head [] c = c
      chain head (s ∷ ss) (e, real, low, dead, rest) = (
        e,
        real,
        omega (arith, new_length),
        ap (λ n. n.live) (same_shape s) ∙ dead,
        subst (λ k. FreeChain b'.pool k ss) (sym (ap (λ n. n.next) (same_shape s)))
            (chain (node_at b.pool s).next ss rest),
      )

  new_found :
      (id : ℕ)
      → slot_for b'.ids id ≢ nil_node
      → In (slot_for b'.ids id) (place_of b' q (slot_for b'.ids id))
        × ((node_at b'.pool (slot_for b'.ids id)).id ≡ id)
  new_found id =
      let same : slot_for b'.ids id ≡ slot_for b.ids id =
        ap (λ t. slot_for t id) (requantified_rest b i slot x y side).1 in
      rw same (λ some.
        let (l, named) = h.found id some in
        let shaped = same_shape (slot_for b.ids id) in
        (
          subst (In (slot_for b.ids id))
              (sym (
                ap (λ n. q n.side (index_of b' n.price)) shaped
                ∙ ap (q (node_at b.pool (slot_for b.ids id)).side) (
                    index_of-same (node_at b.pool (slot_for b.ids id)).price
                      (requantified_grid b i slot x y side))))
              l,
          ap (λ n. n.id) shaped ∙ named,
        ))

  -- The book holds the same queues.
  pub requantified-Holds : Holds (requantified b side i slot x y) q free lit
  requantified-Holds =
      let g = requantified_grid b i slot x y side in
      let maps = requantified_maps b i slot x y side in
      record {
        grid = Grid-same g h.grid;
        even = g.lengths sell ∙ h.even ∙ sym (g.lengths buy);
        tiers = λ s. rw (maps s) (h.tiers s);
        wide = λ s. rw (maps s, g.lengths buy) (h.wide s);
        bits = λ s j. rw (maps s) (h.bits s j);
        chained = new_chained;
        distinct = h.distinct;
        counted = new_counted;
        totalled = new_totalled;
        resting = new-Resting;
        room = rw new_length h.room;
        freed = new_freed;
        free_distinct = h.free_distinct;
        indexed = rw (requantified_rest b i slot x y side).1 h.indexed;
        found = new_found;
      }
