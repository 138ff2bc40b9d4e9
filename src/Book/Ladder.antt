-- ===== src/Book/Ladder.antt =====
-- The levels of a side of the order book (cpp/src/order_book.cpp) from the best one on, and the search
-- for the best level with orders.
use high_frequency_trading.Base.{
  ℕ, zero, suc, ◌-◌, ◌<◌, ◌≤◌, ◌≡◌, refl, ap, ◌∙◌, ◌≢◌, ◌⊎◌, inl, inr, none, some, List, [], ◌∷◌,
  arith, ◌==◌, ltb, length, Bool-cases,
}
use high_frequency_trading.Types.{Side, buy, sell}
use high_frequency_trading.Book.Bitmap.Extremes.{find_lowest_lem, find_highest_lem}
use high_frequency_trading.Book.Records.{OrderNode, OrderBook, price_at}
use high_frequency_trading.Book.Match.{best_level}
use high_frequency_trading.Book.Priority.{Level, untouched}
use high_frequency_trading.Book.Slots.{In}
use high_frequency_trading.Book.Invariant.{Queues, Holds, lights, occupied}
use high_frequency_trading.Book.Progress.{orders}
use high_frequency_trading.Book.Taking.{in_bids}
use high_frequency_trading.Book.Unlinked.{occupied-lt}

-- The level that comes first when `r` more come after it, of `n` levels: bids from the highest, asks
-- from the lowest.
abbrev pub rank_at : Side → ℕ → ℕ → ℕ
rank_at buy n r = r
rank_at sell n r = n - suc r

-- The levels that come before the last `r`.
abbrev pub Before : Side → ℕ → ℕ → ℕ → Type 0
Before buy n r j = r ≤ j
Before sell n r j = j < n - r

abbrev pub ladder : OrderBook → Queues → Side → ℕ → ℕ → List Level
ladder b q side n zero = []
ladder b q side n (suc r) =
    record {
      price = price_at b (rank_at side n r);
      orders = orders b.pool (q side (rank_at side n r));
    }
    ∷ ladder b q side n r

abbrev pub rests : OrderBook → Queues → Side → ℕ → ℕ → List (List OrderNode)
rests b q side n zero = []
rests b q side n (suc r) = orders b.pool (q side (rank_at side n r)) ∷ rests b q side n r

pub untouched-ladder :
    (b : OrderBook) (q : Queues) (side : Side) (n r : ℕ)
    → untouched (ladder b q side n r) ≡ rests b q side n r
untouched-ladder b q side n zero = refl
untouched-ladder b q side n (suc r) =
    ap (λ (ys : List (List OrderNode)). orders b.pool (q side (rank_at side n r)) ∷ ys)
      (untouched-ladder b q side n r)

pub Before-suc : (side : Side) (n r j : ℕ) → Before side n (suc r) j → Before side n r j
Before-suc buy n r j h = omega arith
Before-suc sell n r j h = omega arith

pub Before-here : (side : Side) (n r : ℕ) → r < n → Before side n r (rank_at side n r)
Before-here buy n r h = omega arith
Before-here sell n r h = omega arith

pub Before-not : (side : Side) (n r j : ℕ) → r < n → Before side n (suc r) j → rank_at side n r ≢ j
Before-not buy n r j l h e = omega arith
Before-not sell n r j l h e = omega arith

-- A level before the last `r` is before the last `r + 1`, or the one between.
pub Before-split :
    (side : Side) (n r j : ℕ)
    → r < n
    → Before side n r j
    → Before side n (suc r) j ⊎ (rank_at side n r ≡ j)
Before-split buy n r j l h = elim (Bool-cases (r == j)) [
  | inl e ↦ inr (ground arith)
  | inr d ↦ inl (ground arith)
]
Before-split sell n r j l h = elim (Bool-cases (n - suc r == j)) [
  | inl e ↦ inr (ground arith)
  | inr d ↦ inl (ground arith)
]

pub rank-ne : (side : Side) (n r k : ℕ) → k < r → r < n → rank_at side n r ≢ rank_at side n k
rank-ne buy n r k h l e = omega arith
rank-ne sell n r k h l e = omega arith

pub rank-lt : (side : Side) (n r : ℕ) → r < n → rank_at side n r < n
rank-lt buy n r l = l
rank-lt sell n r l = omega arith

-- A queue with an order.
abbrev pub Busy : List ℕ → Type 0
Busy xs = occupied xs ≡ 1

pub queue-cases : (xs : List ℕ) → (xs ≡ []) ⊎ ((s : ℕ) × (ss : List ℕ) × (xs ≡ s ∷ ss))
queue-cases [] = inl refl
queue-cases (s ∷ ss) = inr (s, ss, refl)

-- The search answers the first busy level.
pub best_level-first :
    (b : OrderBook) (q : Queues) (free : List ℕ) (side : Side) (n r : ℕ)
    → Holds b q free (lights q)
    → r < n
    → ((j : ℕ) → Before side n (suc r) j → q side j ≡ [])
    → Busy (q side (rank_at side n r))
    → best_level b side ≡ some (rank_at side n r)
unfolding best_level
best_level-first b q free buy n r h l passed busy =
    elim (find_highest_lem b.bid_map (h.tiers buy)) [
      | inl (e, dark) ↦ absurd (omega (arith, dark r, h.bits buy r))
      | inr (i, e, (lit, most)) ↦ elim (Bool-cases (ltb i r)) [
        | inl below ↦ absurd (omega (arith, most r (ground arith), h.bits buy r))
        | inr above ↦ elim (Bool-cases (r == i)) [
          | inl same ↦ e ∙ ap (λ (k : ℕ). some k) (ground arith)
          | inr over ↦
              let none_there = passed i (ground arith) in
              absurd (omega (arith, h.bits buy i, ap occupied none_there))
        ]
      ]
    ]
best_level-first b q free sell n r h l passed busy =
    elim (find_lowest_lem b.ask_map (h.tiers sell)) [
      | inl (e, dark) ↦ absurd (omega (arith, dark (n - suc r), h.bits sell (n - suc r)))
      | inr (i, e, (lit, least)) ↦ elim (Bool-cases (ltb (n - suc r) i)) [
        | inl above ↦
            absurd (omega (arith, least (n - suc r) (ground arith), h.bits sell (n - suc r)))
        | inr below ↦ elim (Bool-cases (n - suc r == i)) [
          | inl same ↦ e ∙ ap (λ (k : ℕ). some k) (ground arith)
          | inr under ↦
              let none_there = passed i (ground arith) in
              absurd (omega (arith, h.bits sell i, ap occupied none_there))
        ]
      ]
    ]

-- With no busy level it answers none.
pub best_level-none :
    (b : OrderBook) (q : Queues) (free : List ℕ) (side : Side)
    → Holds b q free (lights q)
    → ((j : ℕ) → Before side (length b.bids) 0 j → q side j ≡ [])
    → best_level b side ≡ none
unfolding best_level
best_level-none b q free buy h passed = elim (find_highest_lem b.bid_map (h.tiers buy)) [
  | inl (e, dark) ↦ e
  | inr (i, e, (lit, most)) ↦
      let nothing = passed i (omega arith) in
      absurd (omega (arith, h.bits buy i, ap occupied nothing))
]
best_level-none b q free sell h passed = elim (find_lowest_lem b.ask_map (h.tiers sell)) [
  | inl (e, dark) ↦ e
  | inr (i, e, (lit, least)) ↦ elim (queue-cases (q sell i)) [
    | inl nothing ↦ absurd (omega (arith, h.bits sell i, ap occupied nothing))
    | inr (s, ss, front) ↦
        let member : In s (q sell i) = rw front (inl refl) in
        let inside =
          in_bids b q free (lights q) h sell i
            (occupied-lt b q free (lights q) sell i s h member) in
        let nothing = passed i (omega (arith, inside)) in
        absurd (omega (arith, h.bits sell i, ap occupied nothing))
  ]
]
