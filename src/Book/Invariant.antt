-- ===== src/Book/Invariant.antt =====
-- The invariant of the order book (cpp/src/order_book.cpp): what its levels, links, bitmaps and index
-- say of the queues of orders that it holds.
use high_frequency_trading.Base.{
  ℕ, ◌<◌, ◌≤◌, ◌≡◌, refl, ap, sym, ◌∙◌, subst, ◌≢◌, inl, inr, true, false, Bool, ◌&&◌, List, [],
  ◌∷◌, arith, ◌==◌, if◌then◌else◌, ltb, length, Bool-cases,
}
use high_frequency_trading.Base.Int.{ℤ, pos, ◌+ℤ◌, ◌<ℤ◌}
use high_frequency_trading.Types.{Side, buy, sell, side_eq}
use high_frequency_trading.IdIndex.{reserved, slot_for}
use high_frequency_trading.IdIndex.Invariant.{IsValid}
use high_frequency_trading.Book.Bitmap.Tiers.{IsTiered, level_digit}
use high_frequency_trading.Book.Records.{
  OrderNode, OrderBook, nil_node, node_at, level_at, side_bitmap, index_of, price_at,
}
use high_frequency_trading.Book.Grid.{Grid, price_at-mono}
use high_frequency_trading.Book.Queues.{Chain, Distinct, SameLinks}
use high_frequency_trading.Book.Slots.{In}

abbrev pub Queues : Type 0
Queues = Side → ℕ → List ℕ

abbrev pub total : List OrderNode → List ℕ → ℤ
total pool [] = pos 0
total pool (s ∷ ss) = (node_at pool s).quantity +ℤ total pool ss

abbrev pub occupied : List ℕ → ℕ
occupied [] = 0
occupied (s ∷ ss) = 1

-- The nodes that are free, from the head of the free list.
abbrev pub FreeChain : List OrderNode → ℕ → List ℕ → Type 0
FreeChain pool head [] = head ≡ nil_node
FreeChain pool head (s ∷ ss) =
    (head ≡ s)
    × (s ≢ nil_node)
    × (s < length pool)
    × ((node_at pool s).live ≡ false)
    × FreeChain pool (node_at pool s).next ss

-- An order that rests at a level, in a slot.
pub record Resting (b : OrderBook) (side : Side) (i slot : ℕ) : Type 0 where
  pub live : (node_at b.pool slot).live ≡ true
  pub side_of : (node_at b.pool slot).side ≡ side
  pub price_of : (node_at b.pool slot).price ≡ price_at b i
  pub positive : pos 0 <ℤ (node_at b.pool slot).quantity
  pub proper : reserved (node_at b.pool slot).id ≡ false
  pub known : slot_for b.ids (node_at b.pool slot).id ≡ slot

-- The level where the order of a slot rests.
abbrev pub place_of : OrderBook → Queues → ℕ → List ℕ
place_of b q slot = q (node_at b.pool slot).side (index_of b (node_at b.pool slot).price)

-- The book holds the queues, with the free nodes given; `lit` has the bits of its bitmaps.
pub record Holds (b : OrderBook) (q : Queues) (free : List ℕ) (lit : Side → ℕ → ℕ) : Type 0 where
  pub grid : Grid b (length b.bids)
  pub even : length b.asks ≡ length b.bids
  pub tiers : (side : Side) → IsTiered (side_bitmap b side)
  pub wide : (side : Side) → (side_bitmap b side).n ≡ length b.bids
  pub bits : (side : Side) (i : ℕ) → level_digit (side_bitmap b side) i ≡ lit side i
  pub chained :
      (side : Side) (i : ℕ)
      → Chain b.pool nil_node (level_at b side i).head (level_at b side i).tail (q side i)
  pub distinct : (side : Side) (i : ℕ) → Distinct (q side i)
  pub counted : (side : Side) (i : ℕ) → (level_at b side i).order_count ≡ length (q side i)
  pub totalled :
      (side : Side) (i : ℕ) → (level_at b side i).total_quantity ≡ total b.pool (q side i)
  pub resting : (side : Side) (i x : ℕ) → In x (q side i) → Resting b side i x
  pub room : length b.pool ≤ nil_node
  pub freed : FreeChain b.pool b.free_head free
  pub free_distinct : Distinct free
  pub indexed : IsValid b.ids
  pub found :
      (id : ℕ)
      → slot_for b.ids id ≢ nil_node
      → In (slot_for b.ids id) (place_of b q (slot_for b.ids id))
        × ((node_at b.pool (slot_for b.ids id)).id ≡ id)

-- The bits are those of the levels that have orders.
abbrev pub lights : Queues → Side → ℕ → ℕ
lights q side i = occupied (q side i)

-- The queues with that of one level replaced.
abbrev pub same_place : Side → ℕ → Side → ℕ → Bool
same_place side i s j = side_eq side s && i == j

abbrev pub put : Queues → Side → ℕ → List ℕ → Queues
put q side i xs s j = if same_place side i s j then xs else q s j

pub same_side : (side s : Side) → side_eq side s ≡ true → side ≡ s
same_side buy buy h = refl
same_side sell sell h = refl
same_side buy sell h = cc
same_side sell buy h = cc

pub same_place_self : (side : Side) (i : ℕ) → same_place side i side i ≡ true
same_place_self buy i = ground arith
same_place_self sell i = ground arith

pub same_place_eq :
    (side : Side) (i : ℕ) (s : Side) (j : ℕ) → same_place side i s j ≡ true → (side ≡ s) × (i ≡ j)
same_place_eq buy i buy j h = (refl, ground arith)
same_place_eq sell i sell j h = (refl, ground arith)
same_place_eq buy i sell j h = absurd (ground arith)
same_place_eq sell i buy j h = absurd (ground arith)

pub place_refl :
    (side : Side) (i : ℕ) (s : Side) (j : ℕ) → side ≡ s → i ≡ j → same_place side i s j ≡ true
place_refl side i s j es ej =
    subst (λ u. same_place side i u j ≡ true) es
      (subst (λ k. same_place side i side k ≡ true) ej (same_place_self side i))

-- What holds of a level holds of the same level.
pub at_place :
    (P : Side → ℕ → Type 0) (side : Side) (i : ℕ) (s : Side) (j : ℕ)
    → same_place side i s j ≡ true
    → P side i
    → P s j
at_place P side i s j e p =
    let (es, ej) = same_place_eq side i s j e in subst (λ t. P t j) es (subst (λ k. P side k) ej p)

pub SameLinks-of :
    (pool pool' : List OrderNode) (ss : List ℕ)
    → ((y : ℕ) → In y ss → node_at pool' y ≡ node_at pool y)
    → SameLinks pool pool' ss
SameLinks-of pool pool' [] h = tt
SameLinks-of pool pool' (s ∷ ss) h = (
  ap (λ n. n.prev) (h s (inl refl)),
  ap (λ n. n.next) (h s (inl refl)),
  SameLinks-of pool pool' ss (λ y r. h y (inr r)),
)

pub Chain-below :
    (pool : List OrderNode) (prev head tail x : ℕ) (ss : List ℕ)
    → Chain pool prev head tail ss
    → In x ss
    → x < length pool
Chain-below pool prev head tail x [] c m = elim m [ ]
Chain-below pool prev head tail x (s ∷ ss) (h, real, below, back, rest) (inl e) = rw e below
Chain-below pool prev head tail x (s ∷ ss) (h, real, below, back, rest) (inr m) =
    Chain-below pool s (node_at pool s).next tail x ss rest m

pub total-same :
    (pool pool' : List OrderNode) (ss : List ℕ)
    → ((y : ℕ) → In y ss → (node_at pool' y).quantity ≡ (node_at pool y).quantity)
    → total pool' ss ≡ total pool ss
total-same pool pool' [] h = refl
total-same pool pool' (s ∷ ss) h =
    rw (h s (inl refl), total-same pool pool' ss (λ y r. h y (inr r))) refl

pub FreeChain-same :
    (pool pool' : List OrderNode) (head : ℕ) (ss : List ℕ)
    → length pool ≤ length pool'
    → ((y : ℕ) → In y ss → node_at pool' y ≡ node_at pool y)
    → FreeChain pool head ss
    → FreeChain pool' head ss
FreeChain-same pool pool' head [] l h c = c
FreeChain-same pool pool' head (s ∷ ss) l h (e, real, below, dead, rest) =
    let same = h s (inl refl) in
    (
      e,
      real,
      omega arith,
      ap (λ n. n.live) same ∙ dead,
      rw same (FreeChain-same pool pool' (node_at pool s).next ss l (λ y r. h y (inr r)) rest),
    )

pub FreeChain-dead :
    (pool : List OrderNode) (head x : ℕ) (ss : List ℕ)
    → FreeChain pool head ss
    → In x ss
    → (node_at pool x).live ≡ false
FreeChain-dead pool head x [] c h = elim h [ ]
FreeChain-dead pool head x (s ∷ ss) (e, real, below, dead, rest) (inl h) = rw h dead
FreeChain-dead pool head x (s ∷ ss) (e, real, below, dead, rest) (inr r) =
    FreeChain-dead pool (node_at pool s).next x ss rest r

-- Levels of different prices are different levels.
price_at-ne : (b : OrderBook) (levels i j : ℕ) → Grid b levels → price_at b i ≡ price_at b j → i ≡ j
price_at-ne b levels i j g e = elim (Bool-cases (ltb i j)) [
  | inl lt ↦
      let l = price_at-mono b levels g i j (ground arith) in
      absurd (omega (arith, subst (λ (p : ℤ). p <ℤ price_at b j) e l))
  | inr ge ↦ elim (Bool-cases (ltb j i)) [
    | inl gt ↦
        let l = price_at-mono b levels g j i (ground arith) in
        absurd (omega (arith, subst (λ (p : ℤ). price_at b j <ℤ p) e l))
    | inr le ↦ ground arith
  ]
]

-- A slot rests at one level at most.
pub one_place :
    (b : OrderBook) (q : Queues) (free : List ℕ) (lit : Side → ℕ → ℕ)
    → Holds b q free lit
    → (side : Side) (i : ℕ) (s : Side) (j x : ℕ) → In x (q side i)
    → In x (q s j)
    → (side ≡ s) × (i ≡ j)
one_place b q free lit h side i s j x l r =
    let rl = h.resting side i x l in
    let rr = h.resting s j x r in
    (
      sym rl.side_of ∙ rr.side_of,
      price_at-ne b (length b.bids) i j h.grid (sym rl.price_of ∙ rr.price_of),
    )
