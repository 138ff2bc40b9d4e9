-- ===== src/Book/Joining.antt =====
-- The writes that put an order at the back of its level, at the end of OrderBook::add_limit
-- (cpp/src/order_book.cpp).
use high_frequency_trading.Base.{
  ℕ, ◌<◌, ◌≡◌, refl, ap, ◌∙◌, inl, inr, true, false, List, [], ◌∷◌, ◌++◌, if◌then◌else◌, length,
  Bool-cases, length-set, get_or-set,
}
use high_frequency_trading.Base.Int.{ℤ, pos, ◌+ℤ◌, int_laws}
use high_frequency_trading.Types.{Side, buy, sell, side_eq}
use high_frequency_trading.IdIndex.{IdTable}
use high_frequency_trading.Book.Bitmap.{set_level}
use high_frequency_trading.Book.Bitmap.Tiers.{IsTiered, level_digit}
use high_frequency_trading.Book.Bitmap.Updates.{set_level-IsTiered, level_digit-set_level}
use high_frequency_trading.Book.Records.{
  OrderNode, PriceLevel, OrderBook, node_at, level_at, side_levels, side_bitmap, with_level,
  with_bitmap, blank_level,
}
use high_frequency_trading.Book.Invariant.{Queues, Holds, same_place, total}
use high_frequency_trading.Book.Removal.{SameGrid}

-- A book with a new slab, a level written and its bit set.
abbrev pub joined : OrderBook → List OrderNode → ℕ → Side → ℕ → PriceLevel → IdTable → ℕ → OrderBook
joined b pool head side i level ids live =
    let b2 = with_level (record b { pool = pool; free_head = head }) side i level in
    record (with_bitmap b2 side (set_level (side_bitmap b2 side) i)) {
      ids = ids;
      live_orders = live;
    }

module _ (b : OrderBook) (pool : List OrderNode) (head i : ℕ) (level : PriceLevel) (ids : IdTable)
    (live : ℕ) where
  joined_lengths :
      (side s : Side)
      → length (side_levels (joined b pool head side i level ids live) s) ≡ length (side_levels b s)
  joined_lengths buy buy = length-set b.bids i level
  joined_lengths buy sell = refl
  joined_lengths sell buy = refl
  joined_lengths sell sell = length-set b.asks i level

  pub joined_grid : (side : Side) → SameGrid b (joined b pool head side i level ids live)
  joined_grid buy = record { base = refl; tick = refl; max = refl; lengths = joined_lengths buy }
  joined_grid sell = record { base = refl; tick = refl; max = refl; lengths = joined_lengths sell }

  pub joined_rest :
      (side : Side)
      → ((joined b pool head side i level ids live).pool ≡ pool)
        × ((joined b pool head side i level ids live).ids ≡ ids)
        × ((joined b pool head side i level ids live).free_head ≡ head)
  joined_rest buy = (refl, refl, refl)
  joined_rest sell = (refl, refl, refl)

  pub joined-level :
      (side : Side)
      → i < length (side_levels b side)
      → (s : Side) (j : ℕ)
      → level_at (joined b pool head side i level ids live) s j
        ≡ (if same_place side i s j then level else level_at b s j)
  joined-level buy inside buy j = get_or-set b.bids i j level blank_level inside
  joined-level buy inside sell j = refl
  joined-level sell inside buy j = refl
  joined-level sell inside sell j = get_or-set b.asks i j level blank_level inside

  joined_map :
      (side s : Side)
      → side_bitmap (joined b pool head side i level ids live) s
        ≡ (elim (side_eq side s) [ true ↦ set_level (side_bitmap b s) i | false ↦ side_bitmap b s ])
  joined_map buy buy = refl
  joined_map buy sell = refl
  joined_map sell buy = refl
  joined_map sell sell = refl

  module _ (q : Queues) (free : List ℕ) (lit : Side → ℕ → ℕ) (h : Holds b q free lit)
      (inside : i < length b.bids) (side : Side) where
    pub joined_bits :
        (s : Side) (j : ℕ)
        → level_digit (side_bitmap (joined b pool head side i level ids live) s) j
          ≡ (if same_place side i s j then 1 else level_digit (side_bitmap b s) j)
    joined_bits s j = rw (joined_map side s) (elim (Bool-cases (side_eq side s)) [
      | inl y ↦
          rw y (level_digit-set_level (side_bitmap b s) (h.tiers s) i (rw (h.wide s) inside) j)
      | inr n ↦ rw n refl
    ])

    pub joined_tiers :
        (s : Side) → IsTiered (side_bitmap (joined b pool head side i level ids live) s)
    joined_tiers s = rw (joined_map side s) (elim (Bool-cases (side_eq side s)) [
      | inl y ↦ rw y (set_level-IsTiered (side_bitmap b s) (h.tiers s) i (rw (h.wide s) inside))
      | inr n ↦ rw n (h.tiers s)
    ])

    pub joined_wide :
        (s : Side)
        → (side_bitmap (joined b pool head side i level ids live) s).n ≡ (side_bitmap b s).n
    unfolding set_level
    joined_wide s =
        rw (joined_map side s)
          (elim (Bool-cases (side_eq side s)) [ inl y ↦ rw y refl | inr n ↦ rw n refl ])

pub total-add :
    (pool : List OrderNode) (xs : List ℕ) (x : ℕ)
    → total pool (xs ++ (x ∷ [])) ≡ total pool xs +ℤ (node_at pool x).quantity
total-add pool [] x = swap (node_at pool x).quantity
  where
    swap : (u : ℤ) → u +ℤ pos 0 ≡ pos 0 +ℤ u
    swap u = omega int_laws
total-add pool (s ∷ xs) x =
    ap (λ t. (node_at pool s).quantity +ℤ t) (total-add pool xs x)
    ∙ assoc (node_at pool s).quantity (total pool xs) (node_at pool x).quantity
  where
    assoc : (u v w : ℤ) → u +ℤ (v +ℤ w) ≡ (u +ℤ v) +ℤ w
    assoc u v w = omega int_laws
