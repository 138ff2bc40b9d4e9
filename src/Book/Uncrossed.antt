-- ===== src/Book/Uncrossed.antt =====
-- OrderBook::add_limit (cpp/src/order_book.cpp) leaves no crossed book.
use high_frequency_trading.Base.{
  ℕ, ◌^◌, ◌<◌, ◌≤◌, ◌≡◌, refl, ap, sym, ◌∙◌, subst, ◌⊎◌, inl, inr, true, false, Option, some, List,
  [], ◌∷◌, ◌++◌, arith, ltb, length, Bool-cases,
}
use high_frequency_trading.Base.Int.{ℤ, pos, ◌-ℤ◌, leb_ℤ}
use high_frequency_trading.Types.{Side, buy, sell, opposite}
use high_frequency_trading.Book.Records.{Trade, OrderNode, OrderBook, nil_node, index_of, price_at}
use high_frequency_trading.Book.Match.{Aggressor, Matching, match, beyond_limit}
use high_frequency_trading.Book.{Answer, rejected, rest_order, finish_add, refuses, add_limit}
use high_frequency_trading.Book.Grid.{price_at-index_of}
use high_frequency_trading.Book.Removal.{price_at-same}
use high_frequency_trading.Book.Invariant.{Queues, Holds, lights, occupied}
use high_frequency_trading.Book.Priority.{Level, is_empty}
use high_frequency_trading.Book.Progress.{orders}
use high_frequency_trading.Book.Ladder.{Busy, rank_at, ladder}
use high_frequency_trading.Book.LevelRounds.{orders_busy}
use high_frequency_trading.Book.Sweeps.{SweepDone}
use high_frequency_trading.Book.Trading.{match-priority, other_side, started, empty_beyond}
use high_frequency_trading.Book.Adding.{MayRest, rest_order-Holds}
use high_frequency_trading.Book.Limit.{expected, rest_or_not, matched_MayRest, remaining, may_of}
use high_frequency_trading.Book.Leftover.{
  Kept, Past, BusyBefore, fill_levels-Kept, fill_levels-before,
}
use high_frequency_trading.Book.Ranks.{ladder-Ranked, Kept-rank, rank_of}
use high_frequency_trading.Book.Crossing.{
  is_uncrossed, Uncrossed, Uncrossed-levels, levels-Uncrossed, put-Uncrossed,
}

orders_there : (pool : List OrderNode) (xs : List ℕ) → Busy xs → is_empty (orders pool xs) ≡ false
orders_there pool [] e = absurd (omega arith)
orders_there pool (x ∷ xs) e = refl

either_side : (x s : Side) → (s ≡ x) ⊎ (s ≡ opposite x)
unfolding opposite
either_side buy buy = inl refl
either_side buy sell = inr refl
either_side sell buy = inr refl
either_side sell sell = inl refl

module _ (b : OrderBook) (a : Aggressor) (qty : ℤ) (out : Option (List Trade)) (q : Queues)
    (free : List ℕ) (h : Holds b q free (lights q)) (m : Matching)
    (d : SweepDone
      (opposite a.side)
      (length b.bids)
      (length b.bids)
      (started b qty out)
      m
      q
      (expected b q a qty)) where
  abbrev n : ℕ
  n = length b.bids

  abbrev across : Side
  across = opposite a.side

  -- A busy level of the resting side has a rank.
  on_rank :
      (P : Level → Type 0) (j : ℕ)
      → Kept P (ladder b q across n n) (expected b q a qty).book
      → Busy (d.q' across j)
      → P (record { price = price_at b j; orders = orders b.pool (q across j) })
  on_rank P j kept busy =
      let (k, l, e) = rank_of across n j (inside j busy) in
      subst (λ i. P (record { price = price_at b i; orders = orders b.pool (q across i) })) e
        (Kept-rank P b m.book q d.q' across n n k l
          (subst (Kept P (ladder b q across n n)) (sym d.left) kept)
          (orders_there m.book.pool (d.q' across (rank_at across n k))
            (subst (λ i. Busy (d.q' across i)) (sym e) busy)))
    where
      inside : (j : ℕ) → Busy (d.q' across j) → j < n
      inside j busy = elim (Bool-cases (ltb j n)) [
        | inl l ↦ ground arith
        | inr g ↦
            let bare =
              empty_beyond m.book d.q' d.free d.holds across j
                (omega (arith, d.same_grid.lengths buy, at_least g)) in
            absurd (omega (arith, busy, ap occupied bare))
      ]
        where
          at_least : ltb j n ≡ false → n ≤ j
          at_least g = ground arith

  -- A level that is busy afterwards was busy.
  was-Busy : (s : Side) (j : ℕ) → Busy (d.q' s j) → Busy (q s j)
  was-Busy s j busy = elim (either_side a.side s) [
    | inl e ↦
        subst (λ t. Busy (d.q' t j) → Busy (q t j)) (sym e)
          (λ k. subst (λ (xs : List ℕ). Busy xs) (d.others a.side j (inl (other_side a.side))).0 k)
          busy
    | inr e ↦
        subst (λ t. Busy (d.q' t j) → Busy (q t j)) (sym e)
          (λ k.
            orders_busy b.pool (q across j)
              (on_rank BusyBefore j (fill_levels-before b.smp a qty (ladder b q across n n)) k))
          busy
  ]

  matched-Uncrossed : Uncrossed q → Uncrossed d.q'
  matched-Uncrossed u i j bid ask = u i j (was-Busy buy i bid) (was-Busy sell j ask)

  -- With quantity left, and not stopped, only levels beyond the limit are busy.
  left_past :
      leb_ℤ (expected b q a qty).left (pos 0) ≡ false
      → (expected b q a qty).halted ≡ false
      → (j : ℕ) → Busy (d.q' across j)
      → beyond_limit a (price_at b j) ≡ true
  left_past some_left going j busy =
      on_rank (Past a) j
        (fill_levels-Kept b.smp a qty (ladder b q across n n)
          (ladder-Ranked b q a n h.grid n (omega arith)) some_left going)
        busy

  matched_uncrossed : is_uncrossed b ≡ true → is_uncrossed m.book ≡ true
  matched_uncrossed e =
      levels-Uncrossed m.book d.q' d.free d.holds
        (matched-Uncrossed (Uncrossed-levels b q free h e))

  module _ (may : MayRest b a) (few : length b.ids.keys < 2 ^ 60) (run : match b a qty out ≡ some m)
      (e : is_uncrossed b ≡ true) where
    may' : MayRest m.book a
    may' = matched_MayRest b a qty out q free h may few m run d

    rested_uncrossed :
        leb_ℤ (expected b q a qty).left (pos 0) ≡ false
        → (expected b q a qty).halted ≡ false
        → is_uncrossed (rest_order m.book a (expected b q a qty).left) ≡ true
    unfolding price_at
    rested_uncrossed some_left going =
        let c = m.book in
        let i = index_of c a.limit in
        let (slot, free', h', order) =
          rest_order-Holds c a (expected b q a qty).left d.q' d.free d.holds may' (ground arith) in
        levels-Uncrossed (rest_order c a (expected b q a qty).left) _ free' h' (
          put-Uncrossed c (length c.bids) a.id a.owner a.side a.limit d.q' i
            (d.q' a.side i ++ (slot ∷ [])) d.holds.grid
            (price_at-index_of c (length c.bids) d.holds.grid a.limit may'.banded)
            (matched-Uncrossed (Uncrossed-levels b q free h e))
            (λ j busy.
              subst (λ p. beyond_limit a p ≡ true)
                (sym (price_at-same {b = (started b qty out).book} j d.same_grid))
                (left_past some_left going j busy)))

    finish_uncrossed : is_uncrossed (finish_add a qty m).book ≡ true
    unfolding finish_add
    finish_uncrossed =
        let left = remaining b a qty out q free h may few m run d in
        rest_or_not (λ (c : OrderBook). is_uncrossed c ≡ true) (leb_ℤ (qty -ℤ m.filled) (pos 0))
          m.book.aggressor_stopped m.book (rest_order m.book a (qty -ℤ m.filled))
          (λ spent. matched_uncrossed e) (λ stopped. matched_uncrossed e)
          (λ some_left on.
            subst (λ z. is_uncrossed (rest_order m.book a z) ≡ true) (sym left)
              (rested_uncrossed (subst (λ z. leb_ℤ z (pos 0) ≡ false) left some_left)
                (sym d.flag ∙ on)))

-- On a book in order, with fewer nodes than the slab can number and an index of fewer than 2 ^ 60 cells,
-- whose best bid, where both sides have orders, is below its best ask, `add_limit` returns, with a book
-- of which the same is true.
pub add_limit-uncrossed :
    (b : OrderBook) (q : Queues) (free : List ℕ) (id : ℕ) (side : Side) (price qty : ℤ)
    (out : Option (List Trade)) (owner : ℕ)
    → Holds b q free (lights q)
    → length b.pool < nil_node
    → length b.ids.keys < 2 ^ 60
    → is_uncrossed b ≡ true
    → (r : Answer) × (add_limit b id side price qty out owner ≡ some r)
      × (is_uncrossed r.book ≡ true)
unfolding add_limit
add_limit-uncrossed b q free id side price qty out owner h room few e =
    elim (Bool-cases (refuses b id price qty)) [
      | inl refused ↦ (rejected b out, rw refused refl, e)
      | inr taken ↦
          let a : Aggressor = record { id = id; owner = owner; side = side; limit = price } in
          let may =
            may_of b id owner side price qty taken room (omega (arith, few, h.indexed.counted)) in
          let (m, run, d) = match-priority b a qty out q free h in
          (
            finish_add a qty m,
            rw (taken, run) refl,
            finish_uncrossed b a qty out q free h m d may few run e,
          )
    ]
