-- ===== src/Book/Crossing.antt =====
-- The two sides of the order book (cpp/src/order_book.cpp) do not cross: the best bid stays below the
-- best ask.
use high_frequency_trading.Base.{
  ℕ, ◌<◌, ◌≤◌, ◌≡◌, refl, sym, ◌∙◌, subst, inl, inr, true, Bool, Option, none, some, List, arith,
  ◌==◌, ltb, if◌then◌else◌, length, Bool-cases,
}
use high_frequency_trading.Base.Int.{ℤ, ◌<ℤ◌, ltb_ℤ}
use high_frequency_trading.Types.{Side, buy, sell, opposite}
use high_frequency_trading.Book.Bitmap.{find_lowest, find_highest}
use high_frequency_trading.Book.Bitmap.Extremes.{find_lowest_lem, find_highest_lem}
use high_frequency_trading.Book.Records.{OrderBook, price_at}
use high_frequency_trading.Book.Match.{beyond_limit}
use high_frequency_trading.Book.Grid.{Grid, price_at-mono}
use high_frequency_trading.Book.Invariant.{Queues, Holds, lights, occupied, put}
use high_frequency_trading.Book.Ladder.{Busy}

-- The best bid's level and the best ask's, by price; a side without orders crosses nothing.
abbrev pub level_below : OrderBook → Option ℕ → Option ℕ → Bool
level_below b (some i) (some j) = ltb_ℤ (price_at b i) (price_at b j)
level_below b (some i) none = true
level_below b none _ = true

abbrev pub is_uncrossed : OrderBook → Bool
is_uncrossed b = level_below b (find_highest b.bid_map) (find_lowest b.ask_map)

-- The same of the queues.
abbrev pub Uncrossed : Queues → Type 0
Uncrossed q = (i j : ℕ) → Busy (q buy i) → Busy (q sell j) → i < j

price_at-back : (b : OrderBook) (n i j : ℕ) → Grid b n → price_at b i <ℤ price_at b j → i < j
price_at-back b n i j g l = elim (Bool-cases (ltb i j)) [
  | inl lt ↦ ground arith
  | inr ge ↦ elim (Bool-cases (ltb j i)) [
    | inl gt ↦ let m = price_at-mono b n g j i (ground arith) in absurd (omega (arith, m))
    | inr le ↦
        let e : i ≡ j = ground arith in
        let l' : price_at b j <ℤ price_at b j = subst (λ k. price_at b k <ℤ price_at b j) e l in
        absurd (omega (arith, l'))
  ]
]

module _ (b : OrderBook) (q : Queues) (free : List ℕ) (h : Holds b q free (lights q)) where
  pub Uncrossed-levels : is_uncrossed b ≡ true → Uncrossed q
  Uncrossed-levels e i j bid ask = elim (find_highest_lem b.bid_map (h.tiers buy)) [
    | inl (none_lit, dark) ↦ absurd (omega (arith, dark i, h.bits buy i))
    | inr (hi, top, (lit, most)) ↦ elim (find_lowest_lem b.ask_map (h.tiers sell)) [
      | inl (none_lit, dark) ↦ absurd (omega (arith, dark j, h.bits sell j))
      | inr (lo, bottom, (lit', least)) ↦
          let f : ltb_ℤ (price_at b hi) (price_at b lo) ≡ true = sym (rw (top, bottom) refl) ∙ e in
          let l = price_at-back b (length b.bids) hi lo h.grid (ground arith) in
          let up = at_most i hi (most i) (omega (arith, h.bits buy i)) in
          let down = at_least j lo (least j) (omega (arith, h.bits sell j)) in omega arith
    ]
  ]
    where
      at_most : {d : ℕ} (i hi : ℕ) → (hi < i → d ≡ 0) → d ≡ 1 → i ≤ hi
      at_most i hi h e = elim (Bool-cases (ltb hi i)) [
        | inl l ↦ absurd (omega (arith, h (ground arith)))
        | inr g ↦ ground arith
      ]

      at_least : {d : ℕ} (j lo : ℕ) → (j < lo → d ≡ 0) → d ≡ 1 → lo ≤ j
      at_least j lo h e = elim (Bool-cases (ltb j lo)) [
        | inl l ↦ absurd (omega (arith, h (ground arith)))
        | inr g ↦ ground arith
      ]

  pub levels-Uncrossed : Uncrossed q → is_uncrossed b ≡ true
  levels-Uncrossed u = elim (find_highest_lem b.bid_map (h.tiers buy)) [
    | inl (none_lit, dark) ↦ rw none_lit refl
    | inr (hi, top, (lit, most)) ↦ elim (find_lowest_lem b.ask_map (h.tiers sell)) [
      | inl (none_lit, dark) ↦ rw (top, none_lit) refl
      | inr (lo, bottom, (lit', least)) ↦
          let l = u hi lo (omega (arith, h.bits buy hi)) (omega (arith, h.bits sell lo)) in
          let m = price_at-mono b (length b.bids) h.grid hi lo l in rw (top, bottom) (ground arith)
    ]
  ]

limit_past :
    (id owner : ℕ) (limit p : ℤ)
    → (beyond_limit (record { id = id; owner = owner; side = buy; limit = limit }) p ≡ true
        → limit <ℤ p)
      × (beyond_limit (record { id = id; owner = owner; side = sell; limit = limit }) p ≡ true
          → p <ℤ limit)
unfolding beyond_limit
limit_past id owner limit p = (λ e. ground arith, λ e. ground arith)

-- An order joins at its limit when the levels of the other side are beyond it.
pub put-Uncrossed :
    (b : OrderBook) (n : ℕ) (id owner : ℕ) (side : Side) (limit : ℤ) (q : Queues) (i : ℕ)
    (xs : List ℕ)
    → Grid b n
    → price_at b i ≡ limit
    → Uncrossed q
    → ((j : ℕ)
        → Busy (q (opposite side) j)
        → beyond_limit
            (record { id = id; owner = owner; side = side; limit = limit })
            (price_at b j)
          ≡ true)
    → Uncrossed (put q side i xs)
unfolding opposite
put-Uncrossed b n id owner buy limit q i xs g at u past k j bid ask = elim (Bool-cases (i == k)) [
  | inl e ↦
      let f : i ≡ k = ground arith in
      let l = (limit_past id owner limit (price_at b j)).0 (past j ask) in
      subst (λ m. m < j) f (price_at-back b n i j g (rw at l))
  | inr n ↦ u k j (subst (λ (c : Bool). occupied (if c then xs else q buy k) ≡ 1) n bid) ask
]
put-Uncrossed b n id owner sell limit q i xs g at u past k j bid ask = elim (Bool-cases (i == j)) [
  | inl e ↦
      let f : i ≡ j = ground arith in
      let l = (limit_past id owner limit (price_at b k)).1 (past k bid) in
      subst (λ m. k < m) f (price_at-back b n k i g (rw at l))
  | inr n ↦ u k j bid (subst (λ (c : Bool). occupied (if c then xs else q sell j) ≡ 1) n ask)
]
