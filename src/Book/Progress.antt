-- ===== src/Book/Progress.antt =====
-- One order at the head of a level, as match of cpp/src/order_book.cpp takes it out or leaves it with
-- less: what the step does to the queues and to the orders in them.
use high_frequency_trading.Base.{
  ℕ, ◌≡◌, refl, ap, sym, ◌∙◌, subst, ◌≢◌, inl, inr, true, false, List, [], ◌∷◌, arith, ◌==◌,
  Bool-cases,
}
use mathlib.Core.Path.{fun_ext}
use high_frequency_trading.Base.Int.{ℤ, pos, ◌+ℤ◌, ◌<ℤ◌}
use high_frequency_trading.Types.{Side, buy, sell}
use high_frequency_trading.Book.Records.{OrderNode, OrderBook, node_at}
use high_frequency_trading.Book.Match.{remove_node, less_total}
use high_frequency_trading.Book.Slab.{free_node}
use high_frequency_trading.Book.Queues.{Distinct}
use high_frequency_trading.Book.Links.{data_of}
use high_frequency_trading.Book.Slots.{In, Apart-In}
use high_frequency_trading.Book.Invariant.{
  Queues, Holds, put, same_place, place_refl, at_place, one_place,
}
use high_frequency_trading.Book.Removal.{SameGrid, Removed}
use high_frequency_trading.Book.Unlinking.{requantified}
use high_frequency_trading.Book.Unlinked.{unlinked-Removed, unlinked-Holds}
use high_frequency_trading.Book.Requantify.{requantified_grid, new_node, requantified-Holds}

-- The orders of a queue, less their links.
abbrev pub orders : List OrderNode → List ℕ → List OrderNode
orders pool [] = []
orders pool (s ∷ ss) = data_of (node_at pool s) ∷ orders pool ss

pub orders-same :
    (pool pool' : List OrderNode) (xs : List ℕ)
    → ((z : ℕ) → In z xs → data_of (node_at pool' z) ≡ data_of (node_at pool z))
    → orders pool' xs ≡ orders pool xs
orders-same pool pool' [] h = refl
orders-same pool pool' (s ∷ ss) h =
    rw (h s (inl refl), orders-same pool pool' ss (λ z m. h z (inr m))) refl

pub SameGrid-refl : (b : OrderBook) → SameGrid b b
SameGrid-refl b = record { base = refl; tick = refl; max = refl; lengths = λ s. refl }

pub SameGrid-trans : {b c d : OrderBook} → SameGrid b c → SameGrid c d → SameGrid b d
SameGrid-trans g k = record {
  base = k.base ∙ g.base;
  tick = k.tick ∙ g.tick;
  max = k.max ∙ g.max;
  lengths = λ s. k.lengths s ∙ g.lengths s;
}

-- Work at one level leaves the grid, the policy and the other levels as they are.
pub record Progress (side : Side) (i : ℕ) (b b' : OrderBook) (q q' : Queues) : Type 0 where
  pub same_grid : SameGrid b b'
  pub policy : b'.smp ≡ b.smp
  pub elsewhere :
      (s : Side) (j : ℕ)
      → same_place side i s j ≡ false
      → (q' s j ≡ q s j) × (orders b'.pool (q s j) ≡ orders b.pool (q s j))

pub Progress-trans :
    {side : Side} {i : ℕ} {b c d : OrderBook} {q r t : Queues}
    → Progress side i b c q r
    → Progress side i c d r t
    → Progress side i b d q t
Progress-trans {c} {d} {q} f g = record {
  same_grid = SameGrid-trans f.same_grid g.same_grid;
  policy = g.policy ∙ f.policy;
  elsewhere = λ s j e.
      let (p, o) = f.elsewhere s j e in
      let (p', o') = g.elsewhere s j e in
      (p' ∙ p, subst (λ xs. orders d.pool xs ≡ orders c.pool xs) p o' ∙ o);
}

-- A step to a book that holds the queues with `xs` at the level.
pub record Step (side : Side) (i : ℕ) (lit : Side → ℕ → ℕ) (b b' : OrderBook) (q : Queues)
    (xs : List ℕ) : Type 0 where
  pub free : List ℕ
  pub holds : Holds b' (put q side i xs) free lit
  pub progress : Progress side i b b' q (put q side i xs)
  pub flag : b'.aggressor_stopped ≡ b.aggressor_stopped

removed_flags :
    (b : OrderBook) (side : Side) (i slot : ℕ) (x y : ℤ)
    → ((remove_node (requantified b side i slot x y) side i slot).smp ≡ b.smp)
      × ((remove_node (requantified b side i slot x y) side i slot).aggressor_stopped
          ≡ b.aggressor_stopped)
unfolding remove_node less_total free_node
removed_flags b buy i slot x y = (refl, refl)
removed_flags b sell i slot x y = (refl, refl)

requantified_flags :
    (b : OrderBook) (side : Side) (i slot : ℕ) (x y : ℤ)
    → ((requantified b side i slot x y).smp ≡ b.smp)
      × ((requantified b side i slot x y).aggressor_stopped ≡ b.aggressor_stopped)
unfolding less_total
requantified_flags b buy i slot x y = (refl, refl)
requantified_flags b sell i slot x y = (refl, refl)

module _ (b : OrderBook) (q : Queues) (free : List ℕ) (lit : Side → ℕ → ℕ) (side : Side)
    (i slot : ℕ) (ss : List ℕ) (x y : ℤ) (h : Holds b q free lit)
    (head : q side i ≡ slot ∷ ss) where
  member : In slot (q side i)
  member = rw head (inl refl)

  apart : (s : Side) (j z : ℕ) → same_place side i s j ≡ false → In z (q s j) → z ≢ slot
  apart s j z e m f =
      let (es, ej) =
        one_place b q free lit h side i s j slot member (subst (λ k. In k (q s j)) f m) in
      let t : same_place side i s j ≡ true = place_refl side i s j es ej in cc

  behind : (z : ℕ) → In z ss → z ≢ slot
  behind z m e = Apart-In slot z ss (subst Distinct head (h.distinct side i)).0 m (sym e)

  module _ (all : y ≡ (node_at b.pool slot).quantity) where
    abbrev gone : OrderBook
    gone = remove_node (requantified b side i slot x y) side i slot

    removed : Removed b gone q side i slot ss
    removed = unlinked-Removed b q free lit side i slot [] ss x y h head all

    -- The head is taken out.
    pub removed-Step : Step side i lit b gone q ss
    removed-Step = record {
      free = slot ∷ free;
      holds = unlinked-Holds b q free lit side i slot [] ss x y h head all;
      progress = record {
        same_grid = removed.same_grid;
        policy = (removed_flags b side i slot x y).0;
        elsewhere = λ s j e. (
          rw e refl,
          orders-same b.pool gone.pool (q s j) (λ z m. removed.kept z (apart s j z e m)),
        );
      };
      flag = (removed_flags b side i slot x y).1;
    }

    pub removed_orders : orders gone.pool ss ≡ orders b.pool ss
    removed_orders = orders-same b.pool gone.pool ss (λ z m. removed.kept z (behind z m))

  module _ (positive : pos 0 <ℤ x) (whole : x +ℤ y ≡ (node_at b.pool slot).quantity) where
    abbrev lesser : OrderBook
    lesser = requantified b side i slot x y

    lesser_node : (z : ℕ) → z ≢ slot → data_of (node_at lesser.pool z) ≡ data_of (node_at b.pool z)
    lesser_node z ne =
        let e : (slot == z) ≡ false = ground arith in
        let n : node_at lesser.pool z ≡ node_at b.pool z =
          new_node b q free lit side i slot x y h member positive whole z ∙ rw e refl in
        ap data_of n

    put_same : put q side i (slot ∷ ss) ≡ q
    put_same = fun_ext λ s. fun_ext λ j. (elim (Bool-cases (same_place side i s j)) [
      | inl e ↦ rw e (at_place (λ t k. slot ∷ ss ≡ q t k) side i s j e (sym head))
      | inr n ↦ rw n refl
    ])

    -- The head stays, with a smaller quantity.
    pub lesser-Step : Step side i lit b lesser q (slot ∷ ss)
    lesser-Step = record {
      free = free;
      holds = rw put_same (requantified-Holds b q free lit side i slot x y h member positive whole);
      progress = record {
        same_grid = requantified_grid b i slot x y side;
        policy = (requantified_flags b side i slot x y).0;
        elsewhere = λ s j e. (
          rw e refl,
          orders-same b.pool lesser.pool (q s j) (λ z m. lesser_node z (apart s j z e m)),
        );
      };
      flag = (requantified_flags b side i slot x y).1;
    }

    pub lesser_orders :
        orders lesser.pool (slot ∷ ss)
        ≡ record (data_of (node_at b.pool slot)) { quantity = x } ∷ orders b.pool ss
    lesser_orders =
        let e : (slot == slot) ≡ true = ground arith in
        let n : node_at lesser.pool slot ≡ record (node_at b.pool slot) { quantity = x } =
          new_node b q free lit side i slot x y h member positive whole slot ∙ rw e refl in
        let first : data_of (node_at lesser.pool slot)
            ≡ record (data_of (node_at b.pool slot)) { quantity = x } =
          ap data_of n in
        rw (first, orders-same b.pool lesser.pool ss (λ z m. lesser_node z (behind z m))) refl
