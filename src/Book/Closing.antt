-- ===== src/Book/Closing.antt =====
-- The end of the work at a level, in match and cancel of cpp/src/order_book.cpp: a level without orders
-- leaves the bitmap.
use high_frequency_trading.Base.{
  ℕ, ◌<◌, ◌≡◌, refl, ap, sym, ◌∙◌, inl, inr, true, false, List, [], ◌∷◌, arith, ◌==◌, set, get_or,
  length, Bool-cases, length-set, get_or-set,
}
use high_frequency_trading.Base.Int.{ℤ, pos}
use high_frequency_trading.Types.{Side, buy, sell, side_eq}
use high_frequency_trading.Book.Bitmap.{clear_level}
use high_frequency_trading.Book.Records.{
  PriceLevel, OrderBook, level_at, side_levels, side_bitmap, blank_level, with_bitmap, with_level,
}
use high_frequency_trading.Book.Match.{settle_level, close_level}
use high_frequency_trading.Book.Invariant.{Queues, Holds, total}
use high_frequency_trading.Book.Removal.{SameGrid}
use high_frequency_trading.Book.Repaint.{Repainted, Repainted-Holds, Repainted-cleared, relit}

abbrev with_total : PriceLevel → ℤ → PriceLevel
with_total l t = record l { total_quantity = t }

module _ (b : OrderBook) (i : ℕ) where
  abbrev settled : Side → OrderBook
  settled side = with_bitmap b side (clear_level (side_bitmap b side) i)

  abbrev closed : Side → OrderBook
  closed side =
      with_bitmap (with_level b side i (with_total (level_at b side i) (pos 0))) side
        (clear_level (side_bitmap b side) i)

  settled_grid : (side : Side) → SameGrid b (settled side)
  settled_grid buy = record { base = refl; tick = refl; max = refl; lengths = lengths }
    where
      lengths : (s : Side) → length (side_levels (settled buy) s) ≡ length (side_levels b s)
      lengths buy = refl
      lengths sell = refl
  settled_grid sell = record { base = refl; tick = refl; max = refl; lengths = lengths }
    where
      lengths : (s : Side) → length (side_levels (settled sell) s) ≡ length (side_levels b s)
      lengths buy = refl
      lengths sell = refl

  closed_grid : (side : Side) → SameGrid b (closed side)
  closed_grid buy = record { base = refl; tick = refl; max = refl; lengths = lengths }
    where
      lengths : (s : Side) → length (side_levels (closed buy) s) ≡ length (side_levels b s)
      lengths buy = length-set b.bids i (with_total (level_at b buy i) (pos 0))
      lengths sell = refl
  closed_grid sell = record { base = refl; tick = refl; max = refl; lengths = lengths }
    where
      lengths : (s : Side) → length (side_levels (closed sell) s) ≡ length (side_levels b s)
      lengths buy = refl
      lengths sell = length-set b.asks i (with_total (level_at b sell i) (pos 0))

  pub close_level_grid : (side : Side) → SameGrid b (close_level b side i)
  unfolding close_level
  close_level_grid side = elim (Bool-cases ((level_at b side i).order_count == 0)) [
    | inl e ↦ rw e (closed_grid side)
    | inr n ↦ rw n (record { base = refl; tick = refl; max = refl; lengths = λ s. refl })
  ]

  pub close_level_kept :
      (side : Side)
      → ((close_level b side i).pool ≡ b.pool)
        × ((close_level b side i).smp ≡ b.smp)
        × ((close_level b side i).aggressor_stopped ≡ b.aggressor_stopped)
  unfolding close_level
  close_level_kept buy = elim (Bool-cases ((level_at b buy i).order_count == 0)) [
    | inl e ↦ rw e (refl, refl, refl)
    | inr n ↦ rw n (refl, refl, refl)
  ]
  close_level_kept sell = elim (Bool-cases ((level_at b sell i).order_count == 0)) [
    | inl e ↦ rw e (refl, refl, refl)
    | inr n ↦ rw n (refl, refl, refl)
  ]

  -- A level whose total is zero is not changed by the write of zero.
  zeroed :
      (levels : List PriceLevel) (j : ℕ)
      → i < length levels
      → (get_or levels i blank_level).total_quantity ≡ pos 0
      → get_or (set levels i (with_total (get_or levels i blank_level) (pos 0))) j blank_level
        ≡ get_or levels j blank_level
  zeroed levels j inside z =
      get_or-set levels i j (with_total (get_or levels i blank_level) (pos 0)) blank_level inside
      ∙ (elim (Bool-cases (i == j)) [
        | inl e ↦
            let f : i ≡ j = ground arith in
            rw e (
              ap (with_total (get_or levels i blank_level)) (sym z)
              ∙ ap (λ k. get_or levels k blank_level) f)
        | inr n ↦ rw n refl
      ])

  module _ (q : Queues) (free : List ℕ) (lit : Side → ℕ → ℕ) (h : Holds b q free lit)
      (inside : i < length b.bids) where
    settled-Repainted : (side : Side) → Repainted b (settled side) (relit lit side i true)
    settled-Repainted buy =
        Repainted-cleared b (settled buy) q free lit i h (settled_grid buy) refl refl refl levels
          buy inside maps
      where
        levels : (s : Side) (j : ℕ) → level_at (settled buy) s j ≡ level_at b s j
        levels buy j = refl
        levels sell j = refl

        maps :
            (s : Side)
            → side_bitmap (settled buy) s ≡ (elim (side_eq buy s) [
              | true ↦ clear_level (side_bitmap b s) i
              | false ↦ side_bitmap b s
            ])
        maps buy = refl
        maps sell = refl
    settled-Repainted sell =
        Repainted-cleared b (settled sell) q free lit i h (settled_grid sell) refl refl refl levels
          sell inside maps
      where
        levels : (s : Side) (j : ℕ) → level_at (settled sell) s j ≡ level_at b s j
        levels buy j = refl
        levels sell j = refl

        maps :
            (s : Side)
            → side_bitmap (settled sell) s ≡ (elim (side_eq sell s) [
              | true ↦ clear_level (side_bitmap b s) i
              | false ↦ side_bitmap b s
            ])
        maps buy = refl
        maps sell = refl

    closed-Repainted :
        (side : Side)
        → (level_at b side i).total_quantity ≡ pos 0
        → Repainted b (closed side) (relit lit side i true)
    closed-Repainted buy z =
        Repainted-cleared b (closed buy) q free lit i h (closed_grid buy) refl refl refl levels buy
          inside maps
      where
        levels : (s : Side) (j : ℕ) → level_at (closed buy) s j ≡ level_at b s j
        levels buy j = zeroed b.bids j inside z
        levels sell j = refl

        maps :
            (s : Side)
            → side_bitmap (closed buy) s ≡ (elim (side_eq buy s) [
              | true ↦ clear_level (side_bitmap b s) i
              | false ↦ side_bitmap b s
            ])
        maps buy = refl
        maps sell = refl
    closed-Repainted sell z =
        Repainted-cleared b (closed sell) q free lit i h (closed_grid sell) refl refl refl levels
          sell inside maps
      where
        levels : (s : Side) (j : ℕ) → level_at (closed sell) s j ≡ level_at b s j
        levels buy j = refl
        levels sell j = zeroed b.asks j (rw h.even inside) z

        maps :
            (s : Side)
            → side_bitmap (closed sell) s ≡ (elim (side_eq sell s) [
              | true ↦ clear_level (side_bitmap b s) i
              | false ↦ side_bitmap b s
            ])
        maps buy = refl
        maps sell = refl

    pub settle_level-Holds :
        (side : Side)
        → Holds
            (settle_level b side i)
            q
            free
            (relit lit side i ((level_at b side i).order_count == 0))
    unfolding settle_level
    settle_level-Holds side = elim (Bool-cases ((level_at b side i).order_count == 0)) [
      | inl e ↦ rw e (
          Repainted-Holds b (settled side) q free lit (relit lit side i true) h
            (settled-Repainted side))
      | inr n ↦ rw n h
    ]

    pub close_level-Holds :
        (side : Side)
        → Holds
            (close_level b side i)
            q
            free
            (relit lit side i ((level_at b side i).order_count == 0))
    unfolding close_level
    close_level-Holds side = elim (Bool-cases ((level_at b side i).order_count == 0)) [
      | inl e ↦ rw e (
          Repainted-Holds b (closed side) q free lit (relit lit side i true) h (
            closed-Repainted side
              (h.totalled side i ∙ nothing (q side i) (sym (h.counted side i) ∙ zero_of e))))
      | inr n ↦ rw n h
    ]
      where
        zero_of : {n : ℕ} → (n == 0) ≡ true → n ≡ 0
        zero_of e = ground arith

        nothing : (xs : List ℕ) → length xs ≡ 0 → total b.pool xs ≡ pos 0
        nothing [] e = refl
        nothing (x ∷ xs) e = absurd (omega arith)
