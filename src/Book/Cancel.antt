-- ===== src/Book/Cancel.antt =====
-- OrderBook::cancel of cpp/src/order_book.cpp, and the orders of a book by their ids.
use high_frequency_trading.Base.{
  ℕ, ◌<◌, ◌≡◌, refl, ap, sym, ◌∙◌, subst, ◌≢◌, inl, inr, true, false, Bool, Option, none, some,
  List, [], ◌∷◌, ◌++◌, arith, ◌==◌, if◌then◌else◌, length, Bool-cases,
}
use high_frequency_trading.Types.{Side, buy, sell}
use high_frequency_trading.IdIndex.{reserved, slot_for}
use high_frequency_trading.IdIndex.Update.{slot_for-erase}
use high_frequency_trading.Book.Records.{
  OrderNode, OrderBook, nil_node, node_at, level_at, index_of,
}
use high_frequency_trading.Book.Match.{remove_node, less_total, settle_level}
use high_frequency_trading.Book.{cancel, cancel_slot}
use high_frequency_trading.Book.Views.{has_order}
use high_frequency_trading.Book.Links.{data_of}
use high_frequency_trading.Book.Slots.{In, split_at}
use high_frequency_trading.Book.Invariant.{
  Queues, Holds, lights, put, occupied, same_place, same_place_self, at_place,
}
use high_frequency_trading.Book.Unlinked.{occupied-lt}
use high_frequency_trading.Book.Repaint.{relit}
use high_frequency_trading.Book.Closing.{settle_level-Holds}
use high_frequency_trading.Book.Taking.{in_bids, taken, taken-Holds, taken-Removed}

-- A book in order: it holds some queues, and its bitmaps show the levels with orders.
unfoldable pub IsBook : OrderBook → Type 0
IsBook b = (q : Queues) × (free : List ℕ) × Holds b q free (lights q)

pub Holds-lit :
    {b : OrderBook} {q : Queues} {free : List ℕ} (lit lit' : Side → ℕ → ℕ)
    → ((s : Side) (j : ℕ) → lit s j ≡ lit' s j)
    → Holds b q free lit
    → Holds b q free lit'
Holds-lit lit lit' e h = record {
  grid = h.grid;
  even = h.even;
  tiers = h.tiers;
  wide = h.wide;
  bits = λ s j. h.bits s j ∙ e s j;
  chained = h.chained;
  distinct = h.distinct;
  counted = h.counted;
  totalled = h.totalled;
  resting = h.resting;
  room = h.room;
  freed = h.freed;
  free_distinct = h.free_distinct;
  indexed = h.indexed;
  found = h.found;
}

-- The bit of a level that has changed its queue.
pub relit-lights :
    (q : Queues) (side : Side) (i : ℕ) (xs : List ℕ) (s : Side) (j n : ℕ)
    → n ≡ length xs
    → occupied (q side i) ≡ 1
    → relit (lights q) side i (n == 0) s j ≡ lights (put q side i xs) s j
relit-lights q side i xs s j n e one = elim (Bool-cases (same_place side i s j)) [
  | inl here ↦ rw here (
      shown xs (n == 0) (ap (λ k. k == 0) e)
        (at_place (λ t k. occupied (q t k) ≡ 1) side i s j here one))
  | inr there ↦ rw there (elim (Bool-cases (n == 0)) [ inl z ↦ rw z refl | inr m ↦ rw m refl ])
]
  where
    shown :
        (ys : List ℕ) (empty : Bool)
        → empty ≡ (length ys == 0)
        → occupied (q s j) ≡ 1
        → (if empty then 0 else occupied (q s j)) ≡ occupied ys
    shown [] empty f o = ground arith
    shown (y ∷ ys) empty f o = ground arith

pub occupied_of : (x : ℕ) (xs : List ℕ) → In x xs → occupied xs ≡ 1
occupied_of x [] m = elim m [ ]
occupied_of x (y ∷ ys) m = refl

module _ (b : OrderBook) (q : Queues) (free : List ℕ) (slot : ℕ) (h : Holds b q free (lights q))
    (side : Side) (i : ℕ) (m : In slot (q side i)) where
  abbrev gone : OrderBook
  gone = taken b q free (lights q) slot h side i m

  pub settled_after :
      (ss bs : List ℕ)
      → q side i ≡ ss ++ (slot ∷ bs)
      → Holds
          (settle_level gone side i)
          (put q side i (ss ++ bs))
          (slot ∷ free)
          (lights (put q side i (ss ++ bs)))
  settled_after ss bs e =
      let t = taken-Holds b q free (lights q) slot h side i m ss bs e in
      let n : (level_at gone side i).order_count ≡ length (ss ++ bs) =
        t.counted side i ∙ ap length (rw (same_place_self side i) refl) in
      Holds-lit (relit (lights q) side i ((level_at gone side i).order_count == 0))
        (lights (put q side i (ss ++ bs)))
        (λ s j.
          relit-lights q side i (ss ++ bs) s j (level_at gone side i).order_count n
            (occupied_of slot (q side i) m))
        (settle_level-Holds gone i (put q side i (ss ++ bs)) (slot ∷ free) (lights q) t (in_book t)
          side)
    where
      in_book : Holds gone (put q side i (ss ++ bs)) (slot ∷ free) (lights q) → i < length gone.bids
      in_book t =
          let r = taken-Removed b q free (lights q) slot h side i m ss bs e in
          omega (
            arith,
            r.same_grid.lengths buy,
            in_bids b q free (lights q) h side i (occupied-lt b q free (lights q) side i slot h m),
          )

settle_kept :
    (b : OrderBook) (side : Side) (i : ℕ)
    → ((settle_level b side i).pool ≡ b.pool) × ((settle_level b side i).ids ≡ b.ids)
unfolding settle_level
settle_kept b buy i = ground arith
settle_kept b sell i = ground arith

-- The order that a live id stands for, less its links.
unfoldable pub order_of : OrderBook → ℕ → Option OrderNode
order_of b id =
    if slot_for b.ids id == nil_node
    then none
    else some (data_of (node_at b.pool (slot_for b.ids id)))

module _ (b : OrderBook) (id : ℕ) (q : Queues) (free : List ℕ) (h : Holds b q free (lights q)) where
  cancel_absent : (slot_for b.ids id == nil_node) ≡ true → cancel b id ≡ (b, false)
  unfolding cancel
  cancel_absent e = rw e refl

  abbrev slot : ℕ
  slot = slot_for b.ids id

  abbrev home_side : Side
  home_side = (node_at b.pool slot).side

  abbrev home_index : ℕ
  home_index = index_of b (node_at b.pool slot).price

  cancel_present :
      (slot_for b.ids id == nil_node) ≡ false
      → cancel b id ≡ (
        settle_level
            (remove_node
              (less_total b home_side home_index (node_at b.pool slot).quantity)
              home_side
              home_index
              slot)
            home_side
            home_index,
        true,
      )
  unfolding cancel cancel_slot
  cancel_present e = rw e refl

  module _ (e : (slot_for b.ids id == nil_node) ≡ false) where
    here : In slot (q home_side home_index) × ((node_at b.pool slot).id ≡ id)
    here = h.found id (ground arith)

    pub cancelled-IsBook : IsBook (cancel b id).0
    unfolding IsBook
    cancelled-IsBook =
        let (ss, bs, split) = split_at slot (q home_side home_index) here.0 in
        rw (cancel_present e) (
          put q home_side home_index (ss ++ bs),
          slot ∷ free,
          settled_after b q free slot h home_side home_index here.0 ss bs split,
        )

    cancelled_order :
        (j : ℕ) → order_of (cancel b id).0 j ≡ (if j == id then none else order_of b j)
    unfolding order_of
    cancelled_order j =
        let (ss, bs, split) = split_at slot (q home_side home_index) here.0 in
        let r = taken-Removed b q free (lights q) slot h home_side home_index here.0 ss bs split in
        let t = taken b q free (lights q) slot h home_side home_index here.0 in
        let (p, n) = settle_kept t home_side home_index in
        let live = (h.resting home_side home_index slot here.0).proper in
        let looks : slot_for t.ids j ≡ (if j == id then nil_node else slot_for b.ids j) =
          rw (r.ids, here.1)
            (slot_for-erase b.ids id h.indexed (subst (λ k. reserved k ≡ false) here.1 live) j) in
        rw (cancel_present e, p, n, looks)
          (elim (Bool-cases (j == id)) [
            | inl same ↦ rw same refl
            | inr other ↦ rw other (elim (Bool-cases (slot_for b.ids j == nil_node)) [
              | inl absent ↦ rw absent refl
              | inr found ↦
                  let (m, named) = h.found j (ground arith) in
                  let ne : slot_for b.ids j ≢ slot = λ z.
                    let f = sym named ∙ ap (λ k. (node_at b.pool k).id) z ∙ here.1 in
                    ground arith in
                  rw found (ap (λ (n : OrderNode). some n) (r.kept (slot_for b.ids j) ne))
            ])
          ])

order_of-absent :
    (b : OrderBook) (id : ℕ) → (slot_for b.ids id == nil_node) ≡ true → order_of b id ≡ none
unfolding order_of
order_of-absent b id e = rw e refl

-- On a book in order, a cancellation returns whether the id is that of a resting order; afterwards
-- that id has no order, every other id has the order that it had, and the book is in order.
pub cancel_lem :
    (b : OrderBook) (id : ℕ)
    → IsBook b
    → IsBook (cancel b id).0
      × ((cancel b id).1 ≡ has_order b id)
      × ((j : ℕ) → order_of (cancel b id).0 j ≡ (if j == id then none else order_of b j))
unfolding IsBook has_order
cancel_lem b id (q, free, h) = elim (Bool-cases (slot_for b.ids id == nil_node)) [
  | inl e ↦ rw (cancel_absent b id q free h e) (
    (q, free, h),
    rw e refl,
    λ j. elim (Bool-cases (j == id)) [
      | inl same ↦
          let f : j ≡ id = ground arith in rw same (ap (order_of b) f ∙ order_of-absent b id e)
      | inr other ↦ rw other refl
    ],
  )
  | inr e ↦ (
    cancelled-IsBook b id q free h e,
    ap (λ (a : OrderBook × Bool). a.1) (cancel_present b id q free h e) ∙ rw e refl,
    cancelled_order b id q free h e,
  )
]
