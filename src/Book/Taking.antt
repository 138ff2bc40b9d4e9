-- ===== src/Book/Taking.antt =====
-- An order is taken out of its level with the whole of its quantity, in match and cancel of
-- cpp/src/order_book.cpp.
use high_frequency_trading.Base.{
  ℕ, zero, suc, ◌<◌, ◌≡◌, refl, ap, subst, List, [], ◌∷◌, ◌++◌, arith, set, length,
}
use high_frequency_trading.Base.Int.{ℤ}
use high_frequency_trading.Types.{Side, buy, sell}
use high_frequency_trading.Book.Records.{OrderNode, OrderBook, node_at, side_levels}
use high_frequency_trading.Book.Match.{remove_node, less_total}
use high_frequency_trading.Book.Slots.{In}
use high_frequency_trading.Book.Invariant.{Queues, Holds, put}
use high_frequency_trading.Book.Unlinking.{requantified}
use high_frequency_trading.Book.Unlinked.{below, unlinked-Removed, unlinked-Holds}
use high_frequency_trading.Book.Removal.{Removed}

set_same : (pool : List OrderNode) (s : ℕ) → s < length pool → set pool s (node_at pool s) ≡ pool
set_same [] s h = refl
set_same (n ∷ pool) zero h = refl
set_same (n ∷ pool) (suc s) h = ap (λ (ns : List OrderNode). n ∷ ns) (set_same pool s (omega arith))

-- A level's total may be written with no write of the node.
pub requantified_same :
    (b : OrderBook) (side : Side) (i slot : ℕ) (y : ℤ)
    → slot < length b.pool
    → requantified b side i slot (node_at b.pool slot).quantity y ≡ less_total b side i y
requantified_same b side i slot y h =
    ap (λ (p : List OrderNode). less_total (record b { pool = p }) side i y)
      (set_same b.pool slot h)

-- Either side has as many levels.
pub in_bids :
    (b : OrderBook) (q : Queues) (free : List ℕ) (lit : Side → ℕ → ℕ)
    → Holds b q free lit
    → (side : Side) (i : ℕ) → i < length (side_levels b side)
    → i < length b.bids
in_bids b q free lit h buy i l = l
in_bids b q free lit h sell i l = omega (arith, h.even)

module _ (b : OrderBook) (q : Queues) (free : List ℕ) (lit : Side → ℕ → ℕ) (slot : ℕ)
    (h : Holds b q free lit) (side : Side) (i : ℕ) (m : In slot (q side i)) where
  abbrev pub taken : OrderBook
  taken = remove_node (less_total b side i (node_at b.pool slot).quantity) side i slot

  pub taken-Holds :
      (ss bs : List ℕ)
      → q side i ≡ ss ++ (slot ∷ bs)
      → Holds taken (put q side i (ss ++ bs)) (slot ∷ free) lit
  taken-Holds ss bs e =
      subst
        (λ (c : OrderBook).
          Holds (remove_node c side i slot) (put q side i (ss ++ bs)) (slot ∷ free) lit)
        (requantified_same b side i slot (node_at b.pool slot).quantity (
          below b q free lit side i slot ss bs (node_at b.pool slot).quantity
            (node_at b.pool slot).quantity h e refl))
        (unlinked-Holds b q free lit side i slot ss bs (node_at b.pool slot).quantity
          (node_at b.pool slot).quantity h e refl)

  pub taken-Removed :
      (ss bs : List ℕ) → q side i ≡ ss ++ (slot ∷ bs) → Removed b taken q side i slot (ss ++ bs)
  taken-Removed ss bs e =
      subst (λ (c : OrderBook). Removed b (remove_node c side i slot) q side i slot (ss ++ bs))
        (requantified_same b side i slot (node_at b.pool slot).quantity (
          below b q free lit side i slot ss bs (node_at b.pool slot).quantity
            (node_at b.pool slot).quantity h e refl))
        (unlinked-Removed b q free lit side i slot ss bs (node_at b.pool slot).quantity
          (node_at b.pool slot).quantity h e refl)
