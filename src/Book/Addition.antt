-- ===== src/Book/Addition.antt =====
-- An order that joins the back of a level of the order book (cpp/src/order_book.cpp): what the code must
-- have written for the book to hold the queues with it.
use high_frequency_trading.Base.{
  ℕ, ◌<◌, ◌≤◌, ◌≡◌, refl, ap, sym, ◌∙◌, subst, ◌≢◌, ◌⊎◌, inl, inr, true, false, List, [], ◌∷◌, ◌++◌,
  arith, ◌==◌, if◌then◌else◌, length, Bool-cases,
}
use high_frequency_trading.Base.Int.{pos, ◌<ℤ◌}
use high_frequency_trading.Types.{Side, buy, sell}
use high_frequency_trading.IdIndex.{reserved, slot_for}
use high_frequency_trading.IdIndex.Invariant.{IsValid}
use high_frequency_trading.Book.Bitmap.Tiers.{IsTiered, level_digit}
use high_frequency_trading.Book.Records.{
  OrderBook, nil_node, node_at, level_at, side_bitmap, index_of, price_at,
}
use high_frequency_trading.Book.Grid.{index_of-price_at}
use high_frequency_trading.Book.Queues.{Chain, Apart, Distinct, Chain-same}
use high_frequency_trading.Book.Links.{data_of}
use high_frequency_trading.Book.Slots.{In, Apart-of, In-middle, In-append_left, In-append}
use high_frequency_trading.Book.Invariant.{
  Queues, total, FreeChain, Resting, place_of, Holds, same_place, same_place_self, put, place_refl,
  same_place_eq, at_place, SameLinks-of, total-same, one_place, Chain-below,
}
use high_frequency_trading.Book.Removal.{SameGrid, price_at-same, index_of-same, Grid-same}

pub record Added (b b' : OrderBook) (q : Queues) (free : List ℕ) (side : Side) (i slot id : ℕ)
    : Type 0 where
  pub same_grid : SameGrid b b'
  pub tiers : (s : Side) → IsTiered (side_bitmap b' s)
  pub wide : (s : Side) → (side_bitmap b' s).n ≡ (side_bitmap b s).n
  pub bits :
      (s : Side) (j : ℕ)
      → level_digit (side_bitmap b' s) j
        ≡ (if same_place side i s j then 1 else level_digit (side_bitmap b s) j)
  pub grown : length b.pool ≤ length b'.pool
  pub room : length b'.pool ≤ nil_node
  pub unused : (s : Side) (j : ℕ) → In slot (q s j) → ⊥
  pub live : (node_at b'.pool slot).live ≡ true
  pub side_of : (node_at b'.pool slot).side ≡ side
  pub price_of : (node_at b'.pool slot).price ≡ price_at b i
  pub positive : pos 0 <ℤ (node_at b'.pool slot).quantity
  pub named : (node_at b'.pool slot).id ≡ id
  pub proper : reserved id ≡ false
  pub elsewhere : (y : ℕ) → y ≢ slot → (In y (q side i) → ⊥) → node_at b'.pool y ≡ node_at b.pool y
  pub kept : (y : ℕ) → y ≢ slot → data_of (node_at b'.pool y) ≡ data_of (node_at b.pool y)
  pub levels : (s : Side) (j : ℕ) → same_place side i s j ≡ false → level_at b' s j ≡ level_at b s j
  pub chain :
      Chain b'.pool nil_node
        (level_at b' side i).head
        (level_at b' side i).tail
        (q side i ++ (slot ∷ []))
  pub count : (level_at b' side i).order_count ≡ length (q side i ++ (slot ∷ []))
  pub sum : (level_at b' side i).total_quantity ≡ total b'.pool (q side i ++ (slot ∷ []))
  pub freed : FreeChain b'.pool b'.free_head free
  pub free_distinct : Distinct free
  pub indexed : IsValid b'.ids
  pub absent : slot_for b.ids id ≡ nil_node
  pub looks : (j : ℕ) → slot_for b'.ids j ≡ (if j == id then slot else slot_for b.ids j)

pub Distinct-add : (x : ℕ) (xs : List ℕ) → Distinct xs → (In x xs → ⊥) → Distinct (xs ++ (x ∷ []))
Distinct-add x [] d o = (tt, tt)
Distinct-add x (y ∷ ys) (a, d) o = (
  Apart-of y (ys ++ (x ∷ [])) (λ z m. elim (In-append z ys (x ∷ []) m) [
    | inl l ↦ λ e. apart ys a z l e
    | inr (inl e) ↦ λ f. o (inl (sym e ∙ sym f))
    | inr (inr n) ↦ elim n [ ]
  ]),
  Distinct-add x ys d (λ m. o (inr m)),
)
  where
    apart : (zs : List ℕ) → Apart y zs → (z : ℕ) → In z zs → y ≢ z
    apart [] a z m e = elim m [ ]
    apart (w ∷ ws) (ne, a) z (inl f) e = ne (e ∙ f)
    apart (w ∷ ws) (ne, a) z (inr m) e = apart ws a z m e

module _ (b b' : OrderBook) (q : Queues) (free0 free : List ℕ) (lit : Side → ℕ → ℕ) (side : Side)
    (i slot id : ℕ) (h : Holds b q free0 lit) (r : Added b b' q free side i slot id) where
  abbrev here : List ℕ
  here = q side i ++ (slot ∷ [])

  abbrev q' : Queues
  q' = put q side i here

  at_home : (s : Side) (j : ℕ) → same_place side i s j ≡ true → q' s j ≡ here
  at_home s j e = rw e refl

  off_home : (s : Side) (j : ℕ) → same_place side i s j ≡ false → q' s j ≡ q s j
  off_home s j e = rw e refl

  not_here :
      (s : Side) (j x : ℕ) → same_place side i s j ≡ false → In x (q s j) → In x (q side i) → ⊥
  not_here s j x e m l =
      let (es, ej) = one_place b q free0 lit h side i s j x l m in
      let t : same_place side i s j ≡ true = place_refl side i s j es ej in cc

  unchanged :
      (s : Side) (j x : ℕ)
      → same_place side i s j ≡ false
      → In x (q s j)
      → node_at b'.pool x ≡ node_at b.pool x
  unchanged s j x e m =
      r.elsewhere x (λ z. r.unused s j (subst (λ y. In y (q s j)) z m)) (not_here s j x e m)

  added_chained :
      (s : Side) (j : ℕ)
      → Chain b'.pool nil_node (level_at b' s j).head (level_at b' s j).tail (q' s j)
  added_chained s j = elim (Bool-cases (same_place side i s j)) [
    | inl e ↦ rw (at_home s j e) (
        at_place (λ t k. Chain b'.pool nil_node (level_at b' t k).head (level_at b' t k).tail here)
          side i s j e r.chain)
    | inr e ↦
        rw (off_home s j e, r.levels s j e)
          (Chain-same b.pool b'.pool nil_node (level_at b s j).head (level_at b s j).tail (q s j)
            r.grown (SameLinks-of b.pool b'.pool (q s j) (λ x. unchanged s j x e)) (h.chained s j))
  ]

  added_counted : (s : Side) (j : ℕ) → (level_at b' s j).order_count ≡ length (q' s j)
  added_counted s j = elim (Bool-cases (same_place side i s j)) [
    | inl e ↦
        rw (at_home s j e)
          (at_place (λ t k. (level_at b' t k).order_count ≡ length here) side i s j e r.count)
    | inr e ↦ rw (off_home s j e, r.levels s j e) (h.counted s j)
  ]

  added_totalled : (s : Side) (j : ℕ) → (level_at b' s j).total_quantity ≡ total b'.pool (q' s j)
  added_totalled s j = elim (Bool-cases (same_place side i s j)) [
    | inl e ↦
        rw (at_home s j e) (
          at_place (λ t k. (level_at b' t k).total_quantity ≡ total b'.pool here) side i s j e
            r.sum)
    | inr e ↦
        rw (off_home s j e, r.levels s j e)
          (h.totalled s j
            ∙ sym (
                total-same b.pool b'.pool (q s j)
                  (λ x m. ap (λ n. n.quantity) (unchanged s j x e m))))
  ]

  added-Distinct : (s : Side) (j : ℕ) → Distinct (q' s j)
  added-Distinct s j = elim (Bool-cases (same_place side i s j)) [
    | inl e ↦
        rw (at_home s j e) (Distinct-add slot (q side i) (h.distinct side i) (r.unused side i))
    | inr e ↦ rw (off_home s j e) (h.distinct s j)
  ]

  -- What is in the new queues is the slot at its place, or was in the old ones.
  came_from :
      (s : Side) (j x : ℕ) → In x (q' s j) → In x (q s j) ⊎ ((x ≡ slot) × (side ≡ s) × (i ≡ j))
  came_from s j x m = elim (Bool-cases (same_place side i s j)) [
    | inl e ↦ elim (In-append x (q side i) (slot ∷ []) (subst (In x) (at_home s j e) m)) [
      | inl l ↦ inl (at_place (λ t k. In x (q t k)) side i s j e l)
      | inr (inl z) ↦ let (es, ej) = same_place_eq side i s j e in inr (z, es, ej)
      | inr (inr n) ↦ elim n [ ]
    ]
    | inr e ↦ inl (subst (In x) (off_home s j e) m)
  ]

  -- An order that rested keeps its id, which is not the new one.
  old_looks :
      (x : ℕ)
      → slot_for b.ids (node_at b.pool x).id ≡ x
      → (s : Side) (j : ℕ) → In x (q s j)
      → slot_for b'.ids (node_at b.pool x).id ≡ x
  old_looks x known s j m = elim (Bool-cases ((node_at b.pool x).id == id)) [
    | inl e ↦
        let f : (node_at b.pool x).id ≡ id = ground arith in
        let z : x ≡ nil_node = sym known ∙ ap (slot_for b.ids) f ∙ r.absent in
        absurd (omega (arith, h.room, z, below s j x m))
    | inr n ↦ r.looks (node_at b.pool x).id ∙ rw n known
  ]
    where
      below : (s : Side) (j x : ℕ) → In x (q s j) → x < length b.pool
      below s j x m = Chain-below b.pool nil_node _ _ x (q s j) (h.chained s j) m

  old_Resting : (s : Side) (j x : ℕ) → In x (q s j) → Resting b' s j x
  old_Resting s j x m =
      let at = h.resting s j x m in
      let same = r.kept x (λ z. r.unused s j (subst (λ y. In y (q s j)) z m)) in
      record {
        live = ap (λ n. n.live) same ∙ at.live;
        side_of = ap (λ n. n.side) same ∙ at.side_of;
        price_of = ap (λ n. n.price) same ∙ at.price_of ∙ sym (price_at-same j r.same_grid);
        positive = rw (ap (λ n. n.quantity) same) at.positive;
        proper = ap (λ n. reserved n.id) same ∙ at.proper;
        known = ap (λ n. slot_for b'.ids n.id) same ∙ old_looks x at.known s j m;
      }

  new_Resting : Resting b' side i slot
  new_Resting = record {
    live = r.live;
    side_of = r.side_of;
    price_of = r.price_of ∙ sym (price_at-same i r.same_grid);
    positive = r.positive;
    proper = ap reserved r.named ∙ r.proper;
    known = ap (slot_for b'.ids) r.named ∙ r.looks id ∙ itself;
  }
    where
      itself : (if id == id then slot else slot_for b.ids id) ≡ slot
      itself = ground arith

  added-Resting : (s : Side) (j x : ℕ) → In x (q' s j) → Resting b' s j x
  added-Resting s j x m = elim (came_from s j x m) [
    | inl l ↦ old_Resting s j x l
    | inr (z, es, ej) ↦
        subst (λ t. Resting b' t j x) es
          (subst (λ k. Resting b' side k x) ej (subst (Resting b' side i) (sym z) new_Resting))
  ]

  still_in : (s : Side) (j x : ℕ) → In x (q s j) → In x (q' s j)
  still_in s j x m = elim (Bool-cases (same_place side i s j)) [
    | inl e ↦ rw (at_home s j e) (
        In-append_left x (q side i) (slot ∷ [])
          (at_place (λ t k. In x (q t k) → In x (q side i)) side i s j e (λ z. z) m))
    | inr e ↦ rw (off_home s j e) m
  ]

  Found : ℕ → ℕ → Type 0
  Found j x = In x (place_of b' q' x) × ((node_at b'.pool x).id ≡ j)

  new_Found : Found id slot
  unfolding Found
  new_Found = (
    rw (r.side_of, r.price_of)
        (subst (λ k. In slot (q' side k))
          (sym (
            index_of-same (price_at b i) r.same_grid
            ∙ index_of-price_at b (length b.bids) h.grid i))
          (rw (at_home side i (same_place_self side i)) (In-middle slot (q side i) []))),
    r.named,
  )

  old_Found : (j : ℕ) → slot_for b.ids j ≢ nil_node → Found j (slot_for b.ids j)
  unfolding Found
  old_Found j some =
      let (m, named) = h.found j some in
      let x = slot_for b.ids j in
      let s = (node_at b.pool x).side in
      let k = index_of b (node_at b.pool x).price in
      let kept = r.kept x (λ z. r.unused s k (subst (λ y. In y (q s k)) z m)) in
      let there : place_of b' q' x ≡ q' s k =
        ap (λ n. q' n.side (index_of b' n.price)) kept
        ∙ ap (q' s) (index_of-same (node_at b.pool x).price r.same_grid) in
      (subst (In x) (sym there) (still_in s k x m), ap (λ n. n.id) kept ∙ named)

  added-Found : (j : ℕ) → slot_for b'.ids j ≢ nil_node → Found j (slot_for b'.ids j)
  added-Found j some = elim (Bool-cases (j == id)) [
    | inl e ↦
        let f : j ≡ id = ground arith in
        subst (Found j) (sym (r.looks j ∙ rw e refl)) (subst (λ k. Found k slot) (sym f) new_Found)
    | inr e ↦
        let same : slot_for b'.ids j ≡ slot_for b.ids j = r.looks j ∙ rw e refl in
        subst (Found j) (sym same) (old_Found j (λ z. some (same ∙ z)))
  ]

  -- The book holds the queues with the order.
  pub Added-Holds :
      Holds b'
        (put q side i (q side i ++ (slot ∷ [])))
        free
        (λ s j. if same_place side i s j then 1 else lit s j)
  unfolding Found
  Added-Holds = record {
    grid = Grid-same r.same_grid h.grid;
    even = r.same_grid.lengths sell ∙ h.even ∙ sym (r.same_grid.lengths buy);
    tiers = r.tiers;
    wide = λ s. r.wide s ∙ h.wide s ∙ sym (r.same_grid.lengths buy);
    bits = λ s j. r.bits s j ∙ ap (λ v. if same_place side i s j then 1 else v) (h.bits s j);
    chained = added_chained;
    distinct = added-Distinct;
    counted = added_counted;
    totalled = added_totalled;
    resting = added-Resting;
    room = r.room;
    freed = r.freed;
    free_distinct = r.free_distinct;
    indexed = r.indexed;
    found = added-Found;
  }
