-- ===== src/Book/Unlinking.antt =====
-- remove_node, the steps by which match and cancel of cpp/src/order_book.cpp take an order out of its
-- level, as a removal in the sense of Removal.
use high_frequency_trading.Base.{
  ℕ, ◌<◌, ◌≡◌, refl, ◌∙◌, inl, inr, false, List, ◌==◌, if◌then◌else◌, set, get_or, length,
  Bool-cases, length-set, get_or-set, get_or-set_self,
}
use high_frequency_trading.Base.Int.{ℤ, ◌-ℤ◌}
use high_frequency_trading.Types.{Side, buy, sell}
use high_frequency_trading.IdIndex.{erase}
use high_frequency_trading.Book.Records.{
  OrderNode, PriceLevel, OrderBook, node_at, level_at, side_levels, side_bitmap, blank_level,
}
use high_frequency_trading.Book.Slab.{unlink, free_node}
use high_frequency_trading.Book.Match.{remove_node, less_total}
use high_frequency_trading.Book.Invariant.{same_place}
use high_frequency_trading.Book.Removal.{SameGrid}

-- The book when a node has the quantity `x` left and its level `y` less.
abbrev pub requantified : OrderBook → Side → ℕ → ℕ → ℤ → ℤ → OrderBook
requantified b side i slot x y =
    less_total (record b { pool = set b.pool slot (record (node_at b.pool slot) { quantity = x }) })
      side i y

module _ (b : OrderBook) (side : Side) (i slot : ℕ) (x y : ℤ)
    (inside : i < length (side_levels b side)) where
  abbrev pub pool0 : List OrderNode
  pool0 = set b.pool slot (record (node_at b.pool slot) { quantity = x })

  abbrev pub level0 : PriceLevel
  level0 = record (level_at b side i) { total_quantity = (level_at b side i).total_quantity -ℤ y }

  abbrev pub pool1 : List OrderNode
  pool1 = (unlink pool0 level0 slot).0

  abbrev pub level1 : PriceLevel
  level1 = (unlink pool0 level0 slot).1

  abbrev pub after : OrderBook
  after = remove_node (requantified b side i slot x y) side i slot

module _ (b : OrderBook) (i slot : ℕ) (x y : ℤ) where
  pub after_pool :
      (side : Side) (inside : i < length (side_levels b side))
      → (after b side i slot x y inside).pool
        ≡ set
            (pool1 b side i slot x y inside)
            slot
            (record (node_at (pool1 b side i slot x y inside) slot) {
              live = false;
              next = b.free_head;
            })
  unfolding remove_node less_total free_node
  after_pool buy inside =
      rw (get_or-set_self b.bids i (level0 b buy i slot x y inside) blank_level inside) refl
  after_pool sell inside =
      rw (get_or-set_self b.asks i (level0 b sell i slot x y inside) blank_level inside) refl

  pub after_free :
      (side : Side) (inside : i < length (side_levels b side))
      → (after b side i slot x y inside).free_head ≡ slot
  unfolding remove_node less_total free_node
  after_free buy inside = refl
  after_free sell inside = refl

  pub after_maps :
      (side : Side) (inside : i < length (side_levels b side)) (s : Side)
      → side_bitmap (after b side i slot x y inside) s ≡ side_bitmap b s
  unfolding remove_node less_total free_node
  after_maps buy inside buy = refl
  after_maps buy inside sell = refl
  after_maps sell inside buy = refl
  after_maps sell inside sell = refl

  after_lengths :
      (side : Side) (inside : i < length (side_levels b side)) (s : Side)
      → length (side_levels (after b side i slot x y inside) s) ≡ length (side_levels b s)
  unfolding remove_node less_total free_node
  after_lengths buy inside buy =
      length-set (set b.bids i (level0 b buy i slot x y inside)) i _ ∙ length-set b.bids i _
  after_lengths buy inside sell = refl
  after_lengths sell inside buy = refl
  after_lengths sell inside sell =
      length-set (set b.asks i (level0 b sell i slot x y inside)) i _ ∙ length-set b.asks i _

  pub after_grid :
      (side : Side) (inside : i < length (side_levels b side))
      → SameGrid b (after b side i slot x y inside)
  unfolding remove_node less_total free_node
  after_grid buy inside = record {
    base = refl;
    tick = refl;
    max = refl;
    lengths = after_lengths buy inside;
  }
  after_grid sell inside = record {
    base = refl;
    tick = refl;
    max = refl;
    lengths = after_lengths sell inside;
  }

  pub after_ids :
      (side : Side) (inside : i < length (side_levels b side))
      → slot < length b.pool
      → (after b side i slot x y inside).ids ≡ erase b.ids (node_at b.pool slot).id
  unfolding remove_node less_total free_node
  after_ids buy inside below =
      rw (get_or-set_self b.pool slot (record (node_at b.pool slot) { quantity = x }) _ below) refl
  after_ids sell inside below =
      rw (get_or-set_self b.pool slot (record (node_at b.pool slot) { quantity = x }) _ below) refl

  two_writes :
      (levels : List PriceLevel) (l m : PriceLevel) (j : ℕ)
      → i < length levels
      → get_or (set (set levels i l) i m) j blank_level
        ≡ (if i == j then m else get_or levels j blank_level)
  two_writes levels l m j inside =
      let inside' : i < length (set levels i l) = rw (length-set levels i l) inside in
      rw
        (
          get_or-set (set levels i l) i j m blank_level inside',
          get_or-set levels i j l blank_level inside,
        )
        (elim (Bool-cases (i == j)) [ inl e ↦ rw e refl | inr e ↦ rw e refl ])

  pub after_level :
      (side : Side) (inside : i < length (side_levels b side)) (s : Side) (j : ℕ)
      → level_at (after b side i slot x y inside) s j
        ≡ (if same_place side i s j then level1 b side i slot x y inside else level_at b s j)
  unfolding remove_node less_total free_node
  after_level buy inside buy j =
      rw (get_or-set_self b.bids i (level0 b buy i slot x y inside) blank_level inside) (
        two_writes b.bids (level0 b buy i slot x y inside) (level1 b buy i slot x y inside) j
          inside)
  after_level buy inside sell j = refl
  after_level sell inside buy j = refl
  after_level sell inside sell j =
      rw (get_or-set_self b.asks i (level0 b sell i slot x y inside) blank_level inside) (
        two_writes b.asks (level0 b sell i slot x y inside) (level1 b sell i slot x y inside) j
          inside)
