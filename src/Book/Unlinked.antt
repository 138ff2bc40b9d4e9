-- ===== src/Book/Unlinked.antt =====
-- remove_node of a resting order (match and cancel of cpp/src/order_book.cpp) leaves a book that holds
-- the queues without it.
use high_frequency_trading.Base.{
  ℕ, ◌<◌, ◌≤◌, ◌≡◌, refl, ap, sym, ◌∙◌, subst, ◌≢◌, inl, inr, true, false, List, [], ◌∷◌, ◌++◌,
  arith, ◌==◌, if◌then◌else◌, ltb, length, Bool-cases, length-set, get_or-ge,
}
use high_frequency_trading.Base.Int.{ℤ, ◌+ℤ◌, ◌-ℤ◌, int_laws}
use high_frequency_trading.Types.{Side}
use high_frequency_trading.Book.Records.{
  OrderNode, PriceLevel, OrderBook, nil_node, node_at, level_at, side_levels, blank_level,
}
use high_frequency_trading.Book.Slab.{unlink, dec32}
use high_frequency_trading.Book.Queues.{
  Chain, Apart, Distinct, Chain-same, Chain-links, SameLinks-all, last_of, first_of,
}
use high_frequency_trading.Book.Links.{data_of, node_at-set}
use high_frequency_trading.Book.Cutting.{
  unlink_prev_in, unlink_next_in, length-unlink, unlink_data, unlink_beside, unlink_lem,
}
use high_frequency_trading.Book.Slots.{
  In, In-middle, In-append_left, In-append_right, removed-Apart, Apart-In, Distinct-bound,
  length-middle, last_in,
}
use high_frequency_trading.Book.Invariant.{
  Queues, Holds, Chain-below, SameLinks-of, total, total-same, same_place, same_place_self, put,
}
use high_frequency_trading.Book.Removal.{Removed, Removed-Holds}
use high_frequency_trading.Book.Unlinking.{
  pool0, level0, pool1, level1, after, after_pool, after_free, after_maps, after_grid, after_ids,
  after_level,
}

-- A level with orders is one of the book's.
pub occupied-lt :
    (b : OrderBook) (q : Queues) (free : List ℕ) (lit : Side → ℕ → ℕ) (side : Side) (i x : ℕ)
    → Holds b q free lit
    → In x (q side i)
    → i < length (side_levels b side)
occupied-lt b q free lit side i x h m = elim (Bool-cases (ltb i (length (side_levels b side)))) [
  | inl l ↦ ground arith
  | inr g ↦
      let e : level_at b side i ≡ blank_level =
        get_or-ge (side_levels b side) i blank_level (ground arith) in
      absurd (headless (q side i) (ap (λ l. l.head) e) (h.chained side i) m)
]
  where
    headless :
        (xs : List ℕ)
        → (level_at b side i).head ≡ nil_node
        → Chain b.pool nil_node (level_at b side i).head (level_at b side i).tail xs
        → In x xs
        → ⊥
    headless [] e c m = m
    headless (s ∷ ss) e c m = c.1 (sym c.0 ∙ e)

pub total-middle :
    (pool : List OrderNode) (x : ℕ) (ss bs : List ℕ)
    → total pool (ss ++ (x ∷ bs)) ≡ total pool (ss ++ bs) +ℤ (node_at pool x).quantity
total-middle pool x [] bs = omega int_laws
total-middle pool x (s ∷ ss) bs = rw (total-middle pool x ss bs) (omega int_laws)

module _ (b : OrderBook) (q : Queues) (free : List ℕ) (lit : Side → ℕ → ℕ) (side : Side)
    (i slot : ℕ) (ss bs : List ℕ) (x y : ℤ) (h : Holds b q free lit)
    (split : q side i ≡ ss ++ (slot ∷ bs)) (all : y ≡ (node_at b.pool slot).quantity) where
  member : In slot (q side i)
  member = rw split (In-middle slot ss bs)

  pub inside : i < length (side_levels b side)
  inside = occupied-lt b q free lit side i slot h member

  pub below : slot < length b.pool
  below =
      Chain-below b.pool nil_node (level_at b side i).head (level_at b side i).tail slot (q side i)
        (h.chained side i) member

  old-Distinct : Distinct (ss ++ (slot ∷ bs))
  old-Distinct = subst Distinct split (h.distinct side i)

  left : OrderNode
  left = record (node_at b.pool slot) { quantity = x }

  pool0_node :
      (z : ℕ)
      → node_at (pool0 b side i slot x y inside) z
        ≡ (if slot == z then record (node_at b.pool slot) { quantity = x } else node_at b.pool z)
  pool0_node z = node_at-set b.pool slot z (record (node_at b.pool slot) { quantity = x }) below

  length-pool0 : length (pool0 b side i slot x y inside) ≡ length b.pool
  length-pool0 = length-set b.pool slot (record (node_at b.pool slot) { quantity = x })

  pool0_links :
      (z : ℕ)
      → ((node_at (pool0 b side i slot x y inside) z).prev ≡ (node_at b.pool z).prev)
        × ((node_at (pool0 b side i slot x y inside) z).next ≡ (node_at b.pool z).next)
  pool0_links z = rw (pool0_node z) (elim (Bool-cases (slot == z)) [
    | inl e ↦
        let f : slot ≡ z = ground arith in
        rw e (ap (λ k. (node_at b.pool k).prev) f, ap (λ k. (node_at b.pool k).next) f)
    | inr e ↦ rw e (refl, refl)
  ])

  chain0 :
      Chain
        (pool0 b side i slot x y inside)
        nil_node
        (level_at b side i).head
        (level_at b side i).tail
        (ss ++ (slot ∷ bs))
  chain0 =
      Chain-same b.pool (pool0 b side i slot x y inside) nil_node (level_at b side i).head
        (level_at b side i).tail (ss ++ (slot ∷ bs)) (omega (arith, length-pool0))
        (SameLinks-all b.pool (pool0 b side i slot x y inside) (ss ++ (slot ∷ bs))
          (λ z. (pool0_links z).0) (λ z. (pool0_links z).1))
        (subst (Chain b.pool nil_node (level_at b side i).head (level_at b side i).tail) split
          (h.chained side i))

  abbrev first_pool : List OrderNode
  first_pool = pool0 b side i slot x y inside

  abbrev first_level : PriceLevel
  first_level = level0 b side i slot x y inside

  abbrev second_pool : List OrderNode
  second_pool = pool1 b side i slot x y inside

  abbrev second_level : PriceLevel
  second_level = level1 b side i slot x y inside

  abbrev last : OrderBook
  last = after b side i slot x y inside

  prev_in :
      (node_at first_pool slot).prev ≢ nil_node → (node_at first_pool slot).prev < length first_pool
  prev_in = unlink_prev_in first_pool first_level slot ss bs old-Distinct chain0

  next_in :
      (node_at first_pool slot).next ≢ nil_node → (node_at first_pool slot).next < length first_pool
  next_in = unlink_next_in first_pool first_level slot ss bs old-Distinct chain0

  second_length : length second_pool ≡ length b.pool
  second_length = length-unlink first_pool first_level slot prev_in next_in ∙ length-pool0

  abbrev freed_node : OrderNode
  freed_node = record (node_at second_pool slot) { live = false; next = b.free_head }

  last_node :
      (z : ℕ) → node_at last.pool z ≡ (if slot == z then freed_node else node_at second_pool z)
  last_node z =
      ap (λ p. node_at p z) (after_pool b i slot x y side inside)
      ∙ node_at-set second_pool slot z freed_node (omega (arith, below, second_length))

  last_length : length last.pool ≡ length b.pool
  last_length =
      ap length (after_pool b i slot x y side inside)
      ∙ length-set second_pool slot freed_node
      ∙ second_length

  off : (z : ℕ) → z ≢ slot → (slot == z) ≡ false
  off z ne = ground arith

  -- The neighbours of the slot stand in the queue.
  beside_in :
      ((node_at first_pool slot).prev ≢ nil_node → In (node_at first_pool slot).prev (q side i))
      × ((node_at first_pool slot).next ≢ nil_node → In (node_at first_pool slot).next (q side i))
  beside_in =
      let (p, n) =
        Chain-links first_pool nil_node (level_at b side i).head (level_at b side i).tail slot ss bs
          chain0 in
      (
        rw (p, split) (before ss),
        rw (n, split)
            (λ ne. In-append_right (first_of nil_node bs) ss (slot ∷ bs) (inr (behind bs ne))),
      )
    where
      before :
          (xs : List ℕ)
          → last_of nil_node xs ≢ nil_node
          → In (last_of nil_node xs) (xs ++ (slot ∷ bs))
      before [] ne = absurd (ne refl)
      before (s ∷ xs) ne = In-append_left (last_of s xs) (s ∷ xs) (slot ∷ bs) (last_in s xs)

      behind : (ys : List ℕ) → first_of nil_node ys ≢ nil_node → In (first_of nil_node ys) ys
      behind [] ne = absurd (ne refl)
      behind (s ∷ ys) ne = inl refl

  elsewhere : (z : ℕ) → z ≢ slot → (In z (q side i) → ⊥) → node_at last.pool z ≡ node_at b.pool z
  elsewhere z ne out =
      last_node z
      ∙ rw (off z ne) (
          unlink_beside first_pool first_level slot prev_in next_in z
            (λ r e. out (subst (λ k. In k (q side i)) (sym e) (beside_in.0 r)))
            (λ r e. out (subst (λ k. In k (q side i)) (sym e) (beside_in.1 r)))
          ∙ (pool0_node z ∙ rw (off z ne) refl))

  kept : (z : ℕ) → z ≢ slot → data_of (node_at last.pool z) ≡ data_of (node_at b.pool z)
  kept z ne =
      let outer : node_at last.pool z ≡ node_at second_pool z = last_node z ∙ rw (off z ne) refl in
      let inner : node_at first_pool z ≡ node_at b.pool z = pool0_node z ∙ rw (off z ne) refl in
      ap data_of outer
      ∙ unlink_data first_pool first_level slot prev_in next_in z
      ∙ ap data_of inner

  here : (if same_place side i side i then second_level else level_at b side i) ≡ second_level
  here = rw (same_place_self side i) refl

  level_here : level_at last side i ≡ second_level
  level_here = after_level b i slot x y side inside side i ∙ here

  gone_from : Apart slot (ss ++ bs)
  gone_from = removed-Apart slot ss bs old-Distinct

  last_chain :
      Chain last.pool nil_node (level_at last side i).head (level_at last side i).tail (ss ++ bs)
  last_chain = rw level_here (
      Chain-same second_pool last.pool nil_node second_level.head second_level.tail (ss ++ bs)
        (omega (arith, last_length, second_length))
        (SameLinks-of second_pool last.pool (ss ++ bs) (λ z m.
          last_node z ∙ rw (off z (λ e. Apart-In slot z (ss ++ bs) gone_from m (sym e))) refl))
        (unlink_lem first_pool first_level slot ss bs old-Distinct chain0))

  few : length (ss ++ (slot ∷ bs)) ≤ nil_node
  few =
      let bound = Distinct-bound (length b.pool) (q side i) (h.distinct side i) (λ z.
        Chain-below b.pool nil_node (level_at b side i).head (level_at b side i).tail z (q side i)
          (h.chained side i)) in
      omega (arith, bound, h.room, ap length split)

  last_count : (level_at last side i).order_count ≡ length (ss ++ bs)
  unfolding unlink
  last_count =
      ap (λ l. l.order_count) level_here
      ∙ counts (level_at b side i).order_count (h.counted side i ∙ ap length split)
    where
      counts : (n : ℕ) → n ≡ length (ss ++ (slot ∷ bs)) → dec32 n ≡ length (ss ++ bs)
      counts n e = omega (arith, few, length-middle slot ss bs)

  last_sum : (level_at last side i).total_quantity ≡ total last.pool (ss ++ bs)
  unfolding unlink
  last_sum =
      ap (λ l. l.total_quantity) level_here
      ∙ sums (level_at b side i).total_quantity (h.totalled side i ∙ ap (total b.pool) split)
      ∙ sym (
          total-same b.pool last.pool (ss ++ bs) (λ z m.
            ap (λ n. n.quantity) (kept z (λ e. Apart-In slot z (ss ++ bs) gone_from m (sym e)))))
    where
      sums : (t : ℤ) → t ≡ total b.pool (ss ++ (slot ∷ bs)) → t -ℤ y ≡ total b.pool (ss ++ bs)
      sums t e =
          rw (e, all, total-middle b.pool slot ss bs)
            (back (total b.pool (ss ++ bs)) (node_at b.pool slot).quantity)
        where
          back : (u v : ℤ) → (u +ℤ v) -ℤ v ≡ u
          back u v = omega int_laws

  pub unlinked-Removed : Removed b last q side i slot (ss ++ bs)
  unlinked-Removed =
      let gone : node_at last.pool slot ≡ freed_node = last_node slot ∙ rw (same slot) refl in
      record {
        same_grid = after_grid b i slot x y side inside;
        maps = after_maps b i slot x y side inside;
        sized = last_length;
        gone = ap (λ n. n.live) gone;
        gone_next = ap (λ n. n.next) gone;
        free_head = after_free b i slot x y side inside;
        ids = after_ids b i slot x y side inside below;
        elsewhere = elsewhere;
        kept = kept;
        levels = λ s j e. after_level b i slot x y side inside s j ∙ rw e refl;
        chain = last_chain;
        count = last_count;
        sum = last_sum;
      }
    where
      same : (z : ℕ) → (z == z) ≡ true
      same z = ground arith

  -- A resting order that is taken out of a book leaves a book without it.
  pub unlinked-Holds : Holds last (put q side i (ss ++ bs)) (slot ∷ free) lit
  unlinked-Holds = Removed-Holds b last q free lit side i slot ss bs h split unlinked-Removed
