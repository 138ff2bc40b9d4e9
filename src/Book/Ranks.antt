-- ===== src/Book/Ranks.antt =====
-- The levels of a side in the order in which OrderBook::match (cpp/src/order_book.cpp) comes to them, and
-- the limit of the aggressor.
use high_frequency_trading.Base.{
  ℕ, zero, suc, ◌-◌, ◌<◌, ◌≤◌, ◌≡◌, refl, subst, inl, inr, true, false, arith, ◌==◌, Bool-cases,
}
use high_frequency_trading.Base.Int.{ℤ, ◌<ℤ◌}
use high_frequency_trading.Types.{Side, buy, sell, opposite}
use high_frequency_trading.Book.Records.{OrderBook, price_at}
use high_frequency_trading.Book.Match.{Aggressor, beyond_limit}
use high_frequency_trading.Book.Grid.{Grid, price_at-mono}
use high_frequency_trading.Book.Priority.{Level, untouched, is_empty}
use high_frequency_trading.Book.Progress.{orders}
use high_frequency_trading.Book.Invariant.{Queues}
use high_frequency_trading.Book.Ladder.{rank_at, ladder, rests}
use high_frequency_trading.Book.Leftover.{Kept, Past, Ranked}

-- A price beyond the limit of a buy stays beyond it when it grows, and of a sell when it falls.
worse :
    (id owner : ℕ) (limit x y : ℤ)
    → x <ℤ y
    → (beyond_limit (record { id = id; owner = owner; side = buy; limit = limit }) x ≡ true
        → beyond_limit (record { id = id; owner = owner; side = buy; limit = limit }) y ≡ true)
      × (beyond_limit (record { id = id; owner = owner; side = sell; limit = limit }) y ≡ true
          → beyond_limit (record { id = id; owner = owner; side = sell; limit = limit }) x ≡ true)
unfolding beyond_limit
worse id owner limit x y l = (λ e. ground arith, λ e. ground arith)

further :
    (b : OrderBook) (n r k : ℕ) (id owner : ℕ) (side : Side) (limit : ℤ)
    → Grid b n
    → k < r
    → r < n
    → let a : Aggressor = record { id = id; owner = owner; side = side; limit = limit } in
      beyond_limit a (price_at b (rank_at (opposite side) n r)) ≡ true
      → beyond_limit a (price_at b (rank_at (opposite side) n k)) ≡ true
unfolding opposite
further b n r k id owner buy limit g l below =
    (worse id owner limit (price_at b (n - suc r)) (price_at b (n - suc k))
      (price_at-mono b n g (n - suc r) (n - suc k) (omega arith))).0
further b n r k id owner sell limit g l below =
    (worse id owner limit (price_at b k) (price_at b r) (price_at-mono b n g k r l)).1

module _ (b : OrderBook) (q : Queues) (a : Aggressor) (n : ℕ) (g : Grid b n) where
  abbrev side : Side
  side = opposite a.side

  all-Past :
      (r : ℕ)
      → ((k : ℕ) → k < r → beyond_limit a (price_at b (rank_at side n k)) ≡ true)
      → Kept (Past a) (ladder b q side n r) (untouched (ladder b q side n r))
  all-Past zero h = tt
  all-Past (suc r) h = ((λ _. h r (omega arith)), all-Past r (λ k l. h k (omega arith)))

  pub ladder-Ranked : (r : ℕ) → r ≤ n → Ranked a (ladder b q side n r)
  ladder-Ranked zero l = tt
  ladder-Ranked (suc r) l = (
    (λ past.
        all-Past r (λ k m. further b n r k a.id a.owner a.side a.limit g m (omega arith) past)),
    ladder-Ranked r (omega arith),
  )

-- What holds of the levels that keep an order holds of the level of any rank that does.
pub Kept-rank :
    (P : Level → Type 0) (b c : OrderBook) (q q' : Queues) (side : Side) (n r k : ℕ)
    → k < r
    → Kept P (ladder b q side n r) (rests c q' side n r)
    → is_empty (orders c.pool (q' side (rank_at side n k))) ≡ false
    → P (record {
      price = price_at b (rank_at side n k);
      orders = orders b.pool (q side (rank_at side n k));
    })
Kept-rank P b c q q' side n zero k l kept busy = absurd (omega arith)
Kept-rank P b c q q' side n (suc r) k l (here, later) busy = elim (Bool-cases (k == r)) [
  | inl e ↦
      let f : r ≡ k = ground arith in
      subst
        (λ m.
          (is_empty (orders c.pool (q' side (rank_at side n m))) ≡ false
            → P (record {
              price = price_at b (rank_at side n m);
              orders = orders b.pool (q side (rank_at side n m));
            })))
        f here busy
  | inr ne ↦ Kept-rank P b c q q' side n r k (ground arith) later busy
]

-- Every level has a rank.
pub rank_of : (side : Side) (n j : ℕ) → j < n → (k : ℕ) × (k < n) × (rank_at side n k ≡ j)
rank_of buy n j l = (j, l, refl)
rank_of sell n j l = (n - suc j, omega arith, omega arith)
