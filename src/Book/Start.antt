-- ===== src/Book/Start.antt =====
-- A book with no orders, as the constructor of OrderBook and OrderBook::clear (cpp/src/order_book.cpp)
-- leave it.
use high_frequency_trading.Base.{
  ℕ, ◌≤◌, ◌≡◌, refl, ap, sym, ◌∙◌, none, [], arith, length, replicate, length-replicate,
  get_or-replicate,
}
use high_frequency_trading.Base.Bits.{bit_and_mask}
use high_frequency_trading.Types.{Side, buy, sell}
use high_frequency_trading.IdIndex.{slot_for, vacant}
use high_frequency_trading.IdIndex.Rebuild.{Sizing, vacant-IsValid, slot_for-vacant}
use high_frequency_trading.Book.Bitmap.{find_highest, find_lowest, words_for}
use high_frequency_trading.Book.Bitmap.Tiers.{blank, blank-IsTiered, level_digit-blank}
use high_frequency_trading.Book.Records.{
  OrderBook, PriceLevel, blank_level, nil_node, no_price, level_at, side_bitmap, initial_cells,
}
use high_frequency_trading.Book.Grid.{Grid}
use high_frequency_trading.Book.Views.{best_bid, best_ask, best_price}
use high_frequency_trading.Book.Invariant.{Queues, Holds, lights}
use high_frequency_trading.Book.Cancel.{IsBook, order_of}

abbrev pub no_queues : Queues
no_queues side i = []

-- A book whose levels are all blank, on a grid of `n` of them.
pub record Blank (b : OrderBook) (n size mask : ℕ) : Type 0 where
  pub grid : Grid b n
  pub bids : b.bids ≡ replicate n blank_level
  pub asks : b.asks ≡ replicate n blank_level
  pub maps : (side : Side) → side_bitmap b side ≡ blank n
  pub few : words_for (words_for n) ≤ 64
  pub pool : b.pool ≡ []
  pub free_head : b.free_head ≡ nil_node
  pub ids : b.ids ≡ vacant size mask
  pub sizing : Sizing size mask

module _ (b : OrderBook) (n size mask : ℕ) (e : Blank b n size mask) where
  wide : length b.bids ≡ n
  wide = ap length e.bids ∙ length-replicate n blank_level

  bare : (side : Side) (i : ℕ) → level_at b side i ≡ blank_level
  bare buy i = rw e.bids (get_or-replicate n i blank_level)
  bare sell i = rw e.asks (get_or-replicate n i blank_level)

  pub slot_for-Blank : (id : ℕ) → slot_for b.ids id ≡ nil_node
  slot_for-Blank id = rw e.ids (slot_for-vacant size mask id)

  pub Blank-Holds : Holds b no_queues [] (lights no_queues)
  Blank-Holds = record {
    grid = rw wide e.grid;
    even = ap length e.asks ∙ length-replicate n blank_level ∙ sym wide;
    tiers = λ side. rw (e.maps side) (blank-IsTiered n e.few);
    wide = λ side. ap (λ m. m.n) (e.maps side) ∙ sym wide;
    bits = λ side i. rw (e.maps side) (level_digit-blank n i);
    chained = λ side i. (
      ap (λ (l : PriceLevel). l.head) (bare side i),
      ap (λ (l : PriceLevel). l.tail) (bare side i),
    );
    distinct = λ side i. tt;
    counted = λ side i. ap (λ (l : PriceLevel). l.order_count) (bare side i);
    totalled = λ side i. ap (λ (l : PriceLevel). l.total_quantity) (bare side i);
    resting = λ side i x m. elim m [ ];
    room = rw e.pool (omega arith);
    freed = e.free_head;
    free_distinct = tt;
    indexed = rw e.ids (vacant-IsValid size mask e.sizing);
    found = λ id ne. absurd (ne (slot_for-Blank id));
  }

  pub Blank-IsBook : IsBook b
  unfolding IsBook
  Blank-IsBook = (no_queues, [], Blank-Holds)

  pub order_of-Blank : (id : ℕ) → order_of b id ≡ none
  unfolding order_of
  order_of-Blank id = rw (slot_for-Blank id) refl

module _ (b : OrderBook) (n size mask : ℕ) (e : Blank b n size mask) where
  pub best_bid-Blank : best_bid b ≡ no_price
  unfolding best_bid best_price find_highest
  best_bid-Blank = rw (e.maps buy) refl

  pub best_ask-Blank : best_ask b ≡ no_price
  unfolding best_ask best_price find_lowest
  best_ask-Blank = rw (e.maps sell) refl

pub first-Sizing : Sizing initial_cells 1023
first-Sizing = record {
  some_cell = omega arith;
  word_size = omega arith;
  mask_mod = bit_and_mask 10;
}
