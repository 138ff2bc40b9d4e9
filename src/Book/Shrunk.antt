-- ===== src/Book/Shrunk.antt =====
-- What the loops of OrderBook::match, and cancel (cpp/src/order_book.cpp), do to the slab and to the id
-- index on any book.
use high_frequency_trading.Base.{
  ℕ, zero, suc, ◌+◌, ◌≡◌, refl, sym, ◌∙◌, subst, ◌≢◌, inl, inr, true, false, Option, none, some,
  List, arith, ◌==◌, ◌||◌, length, Bool-cases, Option-cases, inc64,
}
use mathlib.Core.Option.{some-injective}
use high_frequency_trading.Base.Int.{ℤ, pos, leb_ℤ}
use high_frequency_trading.Types.{Side, opposite}
use high_frequency_trading.IdIndex.{reserved, slot_for, nil_slot}
use high_frequency_trading.IdIndex.Invariant.{IsValid}
use high_frequency_trading.IdIndex.Lookup.{absent_of_nil, slot_for_absent}
use high_frequency_trading.Book.Records.{
  SelfMatchPolicy, no_policy, cancel_resting, cancel_aggressor, Trade, OrderBook, nil_node, node_at,
  level_at, index_of, price_at,
}
use high_frequency_trading.Book.{cancel, cancel_slot}
use high_frequency_trading.Book.LevelRounds.{
  round_full, round_none, round_limit, round_done, round_returned, round_short,
}
use high_frequency_trading.Book.Match.{
  Aggressor, Matching, Swept, done, returned, short, best_level, beyond_limit, self_match,
  remove_node, less_total, drop_resting, trade_with, settle_level, close_level, sweep_level, sweep,
  match,
}
use high_frequency_trading.Book.Shrinking.{
  Shrinks, close_level-Shrinks, drop_resting-Shrinks, less_total-Shrinks, remove_node-Shrinks,
  settle_level-Shrinks, stands, then-Shrinks, trade_with-Shrinks,
}

-- What a loop over a level ended with.
abbrev ended_with : Swept → Matching
ended_with (done m) = m
ended_with (returned m) = m
ended_with (short m) = m

module _ (a : Aggressor) (side : Side) (i : ℕ) where
  sweep_level-Shrinks :
      (f : ℕ) (m : Matching) → Shrinks m.book (ended_with (sweep_level f a side i m)).book
  unfolding sweep_level
  sweep_level-Shrinks zero m = stands refl refl
  sweep_level-Shrinks (suc f) m =
      let b = m.book in
      let slot = (level_at b side i).head in
      let seen : OrderBook = record b { smp_events = inc64 b.smp_events } in
      let stopped : OrderBook = record b {
        smp_events = inc64 b.smp_events;
        aggressor_stopped = true;
      } in
      let dropped : Matching = record m { book = drop_resting seen side i slot } in
      let on_drop =
        then-Shrinks (then-Shrinks (stands refl refl) (drop_resting-Shrinks seen side i slot))
          (sweep_level-Shrinks f dropped) in
      let on_stop = then-Shrinks (stands refl refl) (settle_level-Shrinks stopped side i) in
      let on_trade =
        then-Shrinks (trade_with-Shrinks a side i slot m)
          (sweep_level-Shrinks f (trade_with a side i slot m)) in
      elim (Bool-cases (leb_ℤ m.qty (pos 0) || slot == nil_node)) [
        | inl over ↦ rw over (stands refl refl)
        | inr on ↦ elim (Bool-cases (self_match b a (node_at b.pool slot))) [
          | inl own ↦
              rw (on, own)
                (by_policy m.book b.smp (sweep_level f a side i dropped)
                  (returned (record m { book = settle_level stopped side i })) on_drop on_stop)
          | inr other ↦ rw (on, other) on_trade
        ]
      ]
    where
      by_policy :
          (b : OrderBook) (p : SelfMatchPolicy) (x y : Swept)
          → Shrinks b (ended_with x).book
          → Shrinks b (ended_with y).book
          → Shrinks b (ended_with (elim p [ cancel_resting ↦ x | _ ↦ y ])).book
      by_policy b no_policy x y r s = s
      by_policy b cancel_resting x y r s = r
      by_policy b cancel_aggressor x y r s = s

-- The loop over the levels, when it ends.
sweep-Shrinks :
    (f : ℕ) (a : Aggressor) (m m' : Matching) → sweep f a m ≡ some m' → Shrinks m.book m'.book
unfolding sweep
sweep-Shrinks zero a m m' e = cc
sweep-Shrinks (suc f) a m m' e = elim (Bool-cases (leb_ℤ m.qty (pos 0))) [
  | inl full ↦ same (round_full f a m full)
  | inr some_qty ↦ elim (Option-cases (best_level m.book side)) [
    | inl bare ↦ same (round_none f a m some_qty bare)
    | inr (i, best) ↦ elim (Bool-cases (beyond_limit a (price_at m.book i))) [
      | inl past ↦ same (round_limit f a m some_qty i best past)
      | inr within ↦
          let fuel = (level_at m.book side i).order_count + 1 in
          let level = sweep_level-Shrinks a side i fuel m in
          at_level i some_qty best within
            (λ (n : Matching) (k : sweep f a n ≡ some m'). sweep-Shrinks f a n m' k)
            (sweep_level fuel a side i m) refl level
    ]
  ]
]
  where
    side : Side
    side = opposite a.side

    same : sweep (suc f) a m ≡ some m → Shrinks m.book m'.book
    same r =
        subst (λ (x : Matching). Shrinks m.book x.book) (some-injective m m' (sym r ∙ e))
          (stands refl refl)

    no_result : {x : Matching} → none ≢ some x
    no_result e = cc

    at_level :
        (i : ℕ)
        → leb_ℤ m.qty (pos 0) ≡ false
        → best_level m.book side ≡ some i
        → beyond_limit a (price_at m.book i) ≡ false
        → ((n : Matching) → sweep f a n ≡ some m' → Shrinks n.book m'.book)
        → (s : Swept) → sweep_level ((level_at m.book side i).order_count + 1) a side i m ≡ s
        → Shrinks m.book (ended_with s).book
        → Shrinks m.book m'.book
    at_level i some_qty best within later (done n) r level = then-Shrinks level (
        then-Shrinks (close_level-Shrinks n.book side i) (
          later (record n { book = close_level n.book side i })
            (sym (round_done f a m some_qty i best within n r) ∙ e)))
    at_level i some_qty best within later (returned n) r level =
        subst (λ (x : Matching). Shrinks m.book x.book)
          (some-injective n m' (sym (round_returned f a m some_qty i best within n r) ∙ e)) level
    at_level i some_qty best within later (short n) r level =
        absurd (no_result (sym (round_short f a m some_qty i best within n r) ∙ e))

pub match-Shrinks :
    (b : OrderBook) (a : Aggressor) (qty : ℤ) (out : Option (List Trade)) (m : Matching)
    → match b a qty out ≡ some m
    → Shrinks b m.book
unfolding match
match-Shrinks b a qty out m e =
    then-Shrinks (stands refl refl) (sweep-Shrinks (length b.bids + 1) a _ m e)

-- An id without an order has none afterwards.
pub Shrinks-absent :
    (b b' : OrderBook) (id : ℕ)
    → IsValid b.ids
    → reserved id ≡ false
    → Shrinks b b'
    → slot_for b.ids id ≡ nil_slot
    → slot_for b'.ids id ≡ nil_slot
Shrinks-absent b b' id valid live r e = slot_for_absent b'.ids id (λ p at. elim (r.buried p) [
  | inl same ↦ absent_of_nil b.ids id p valid live e (sym same ∙ at)
  | inr gone ↦ absurd (ground arith)
])

pub cancel-Shrinks : (b : OrderBook) (id : ℕ) → Shrinks b (cancel b id).0
unfolding cancel cancel_slot
cancel-Shrinks b id = elim (Bool-cases (slot_for b.ids id == nil_node)) [
  | inl absent ↦ rw absent (stands refl refl)
  | inr present ↦
      let slot = slot_for b.ids id in
      let node = node_at b.pool slot in
      let i = index_of b node.price in
      let less = less_total b node.side i node.quantity in
      rw present (
        then-Shrinks (less_total-Shrinks b node.side i node.quantity) (
          then-Shrinks (remove_node-Shrinks less node.side i slot)
            (settle_level-Shrinks (remove_node less node.side i slot) node.side i)))
]
