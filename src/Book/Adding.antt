-- ===== src/Book/Adding.antt =====
-- OrderBook::add_limit (cpp/src/order_book.cpp).
use high_frequency_trading.Base.{
  ℕ, ◌^◌, ◌<◌, ◌≡◌, refl, ap, sym, ◌∙◌, subst, ◌≢◌, inl, inr, true, false, some, List, [], ◌∷◌,
  ◌++◌, arith, ◌==◌, if◌then◌else◌, length, Bool-cases,
}
use high_frequency_trading.Base.Int.{ℤ, pos, ◌<ℤ◌}
use high_frequency_trading.Types.{Side}
use high_frequency_trading.IdIndex.{reserved, slot_for}
use high_frequency_trading.Book.Records.{OrderNode, OrderBook, nil_node, node_at, index_of, in_band}
use high_frequency_trading.Book.Match.{Aggressor}
use high_frequency_trading.Book.{rest_order}
use high_frequency_trading.Book.Links.{data_of}
use high_frequency_trading.Book.Slots.{In}
use high_frequency_trading.Book.Invariant.{Queues, Holds, lights, put, occupied, same_place}
use high_frequency_trading.Book.Cancel.{IsBook, order_of, Holds-lit}
use high_frequency_trading.Book.Allocating.{alloc_node-Allocated}
use high_frequency_trading.Book.Addition.{Added, Added-Holds}
use high_frequency_trading.Book.Rested.{rested-Added, rest_run, at_slot}

-- The order that the rest of a limit order makes, less its links.
abbrev pub rest_of : Aggressor → ℤ → OrderNode
rest_of a remaining = record {
  id = a.id;
  price = a.limit;
  quantity = remaining;
  prev = 0;
  next = 0;
  owner = a.owner;
  side = a.side;
  live = true;
}

-- A new order may rest: its price is in the band, its id is usable and new, the slab has fewer nodes than
-- it can number, and the index has fewer than 2 ^ 60 ids.
pub record MayRest (b : OrderBook) (a : Aggressor) : Type 0 where
  pub banded : in_band b a.limit ≡ true
  pub proper : reserved a.id ≡ false
  pub absent : slot_for b.ids a.id ≡ nil_node
  pub room : length b.pool < nil_node
  pub few : b.ids.count < 2 ^ 60

module _ (b b' : OrderBook) (q : Queues) (free0 free : List ℕ) (side : Side) (i slot id : ℕ)
    (h : Holds b q free0 (lights q)) (r : Added b b' q free side i slot id)
    (real : slot ≢ nil_node) where
  pub order_of-Added :
      (j : ℕ)
      → order_of b' j ≡ (if j == id then some (data_of (node_at b'.pool slot)) else order_of b j)
  unfolding order_of
  order_of-Added j = elim (Bool-cases (j == id)) [
    | inl e ↦
        let same : slot_for b'.ids j ≡ slot = r.looks j ∙ rw e refl in
        let there : (slot == nil_node) ≡ false = ground arith in rw (e, same, there) refl
    | inr n ↦
        let same : slot_for b'.ids j ≡ slot_for b.ids j = r.looks j ∙ rw n refl in
        rw (n, same)
          (elim (Bool-cases (slot_for b.ids j == nil_node)) [
            | inl absent ↦ rw absent refl
            | inr there ↦
                let (m, named) = h.found j (ground arith) in
                let x = slot_for b.ids j in
                let ne : x ≢ slot = λ z.
                  r.unused (node_at b.pool x).side (index_of b (node_at b.pool x).price) (
                    subst
                      (λ k. In k (q (node_at b.pool x).side (index_of b (node_at b.pool x).price)))
                      z m) in
                rw there (ap (λ (n : OrderNode). some n) (r.kept x ne))
          ])
  ]

-- The queues after the rest of an order has joined.
pub rest_order-Holds :
    (b : OrderBook) (a : Aggressor) (remaining : ℤ) (q : Queues) (free : List ℕ)
    → Holds b q free (lights q)
    → MayRest b a
    → pos 0 <ℤ remaining
    → (slot : ℕ) × (free' : List ℕ) × Holds
        (rest_order b a remaining)
        (put q a.side (index_of b a.limit) (q a.side (index_of b a.limit) ++ (slot ∷ [])))
        free'
        (lights (put q a.side (index_of b a.limit) (q a.side (index_of b a.limit) ++ (slot ∷ []))))
      × ((j : ℕ)
          → order_of (rest_order b a remaining) j
            ≡ (if j == a.id then some (rest_of a remaining) else order_of b j))
rest_order-Holds b a remaining q free h may positive =
    let (pool, head, slot, al) = alloc_node-Allocated b q free (lights q) h may.room in
    let i = index_of b a.limit in
    let added =
      rested-Added b a remaining q free (lights q) pool head slot h al may.room may.banded positive
        may.proper may.absent may.few in
    let new_order =
      at_slot b a remaining q free (lights q) pool head slot h al may.room may.banded positive
        may.proper may.absent may.few in
    rw (rest_run b a remaining q free (lights q) pool head slot h al) (
      slot,
      al.free,
      Holds-lit (λ s j. if same_place a.side i s j then 1 else lights q s j)
          (lights (put q a.side i (q a.side i ++ (slot ∷ []))))
          (λ s j. elim (Bool-cases (same_place a.side i s j)) [
            | inl e ↦ rw e (sym (busy (q a.side i) slot))
            | inr n ↦ rw n refl
          ])
          (Added-Holds b _ q free al.free (lights q) a.side i slot a.id h added),
      λ j.
          order_of-Added b _ q free al.free a.side i slot a.id h added al.real j
          ∙ ap (λ (n : OrderNode). if j == a.id then some n else order_of b j) new_order,
    )
  where
    busy : (xs : List ℕ) (x : ℕ) → occupied (xs ++ (x ∷ [])) ≡ 1
    busy [] x = refl
    busy (y ∷ ys) x = refl

-- On a book in order where the order may rest, with a quantity left, the book with the rest is in order;
-- the order's id has an order of that price, quantity, side and owner, and every other id has the order
-- that it had.
pub rest_order_lem :
    (b : OrderBook) (a : Aggressor) (remaining : ℤ)
    → IsBook b
    → MayRest b a
    → pos 0 <ℤ remaining
    → IsBook (rest_order b a remaining)
      × ((j : ℕ)
          → order_of (rest_order b a remaining) j
            ≡ (if j == a.id then some (rest_of a remaining) else order_of b j))
unfolding IsBook
rest_order_lem b a remaining (q, free, h) may positive =
    let (slot, free', h', order) = rest_order-Holds b a remaining q free h may positive in
    (
      (put q a.side (index_of b a.limit) (q a.side (index_of b a.limit) ++ (slot ∷ [])), free', h'),
      order,
    )
