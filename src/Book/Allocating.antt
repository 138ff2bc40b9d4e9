-- ===== src/Book/Allocating.antt =====
-- OrderBook::alloc_node (cpp/src/order_book.cpp) on a book that holds queues of orders.
use high_frequency_trading.Base.{
  ℕ, ◌<◌, ◌≤◌, ◌≡◌, refl, sym, ◌∙◌, subst, ◌≢◌, inl, inr, true, false, Bool, List, [], ◌∷◌, ◌++◌,
  arith, ◌==◌, set, length, Bool-cases, length-set, length-append, get_or-append_left, get_or-ge,
  ltb,
}
use high_frequency_trading.Types.{Side}
use high_frequency_trading.Book.Records.{OrderNode, OrderBook, nil_node, node_at, blank_node}
use high_frequency_trading.Book.Slab.{alloc_node}
use high_frequency_trading.Book.Queues.{Apart, Distinct}
use high_frequency_trading.Book.Links.{node_at-set}
use high_frequency_trading.Book.Slots.{In, Apart-In}
use high_frequency_trading.Book.Invariant.{Queues, Holds, FreeChain, FreeChain-same, Chain-below}

-- A slot of the slab that no queue has, and the free nodes that are left.
pub record Allocated (b : OrderBook) (q : Queues) (pool : List OrderNode) (head slot : ℕ)
    : Type 0 where
  pub free : List ℕ
  pub run : alloc_node b ≡ (slot, record b { pool = pool; free_head = head })
  pub real : slot ≢ nil_node
  pub grown : length b.pool ≤ length pool
  pub room : length pool ≤ nil_node
  pub below : slot < length pool
  pub kept : (y : ℕ) → y ≢ slot → node_at pool y ≡ node_at b.pool y
  pub unused : (side : Side) (i : ℕ) → In slot (q side i) → ⊥
  pub freed : FreeChain pool head free
  pub apart : Apart slot free
  pub distinct : Distinct free

node_at-append :
    (pool : List OrderNode) (y : ℕ)
    → y ≢ length pool
    → node_at (pool ++ (blank_node ∷ [])) y ≡ node_at pool y
node_at-append pool y ne = elim (Bool-cases (ltb y (length pool))) [
  | inl l ↦ get_or-append_left pool (blank_node ∷ []) y blank_node (ground arith)
  | inr g ↦
      get_or-ge (pool ++ (blank_node ∷ [])) y blank_node
        (ground (arith, length-append pool (blank_node ∷ [])))
      ∙ sym (get_or-ge pool y blank_node (ground arith))
]

module _ (b : OrderBook) (q : Queues) (free : List ℕ) (lit : Side → ℕ → ℕ) (h : Holds b q free lit)
    (room : length b.pool < nil_node) where
  used_below : (side : Side) (i x : ℕ) → In x (q side i) → x < length b.pool
  used_below side i x m = Chain-below b.pool nil_node _ _ x (q side i) (h.chained side i) m

  -- The free list is empty: the slab grows.
  fresh-Allocated :
      b.free_head ≡ nil_node
      → free ≡ []
      → Allocated b q (b.pool ++ (blank_node ∷ [])) b.free_head (length b.pool)
  unfolding alloc_node
  fresh-Allocated e none =
      let sized = length-append b.pool (blank_node ∷ []) in
      let empty : (b.free_head == nil_node) ≡ true = ground arith in
      record {
        free = [];
        run = rw empty refl;
        real = λ z. absurd (omega arith);
        grown = omega arith;
        room = omega arith;
        below = omega arith;
        kept = node_at-append b.pool;
        unused = λ side i m. absurd (omega (arith, used_below side i (length b.pool) m));
        freed = e;
        apart = tt;
        distinct = tt;
      }

  -- The first free node is taken.
  reused-Allocated :
      (s : ℕ) (ss : List ℕ)
      → free ≡ s ∷ ss
      → Allocated b q (set b.pool s blank_node) (node_at b.pool s).next s
  unfolding alloc_node
  reused-Allocated s ss e =
      let (head, real, below, dead, rest) = subst (FreeChain b.pool b.free_head) e h.freed in
      let (apart, distinct) = subst Distinct e h.free_distinct in
      let some : (s == nil_node) ≡ false = ground arith in
      let kept : (y : ℕ) → y ≢ s → node_at (set b.pool s blank_node) y ≡ node_at b.pool y = λ y ne.
        let off : (s == y) ≡ false = ground arith in
        node_at-set b.pool s y blank_node below ∙ rw off refl in
      record {
        free = ss;
        run = rw (head, some) refl;
        real = real;
        grown = omega (arith, length-set b.pool s blank_node);
        room = omega (arith, length-set b.pool s blank_node);
        below = omega (arith, length-set b.pool s blank_node);
        kept = kept;
        unused = λ side i m. clash dead (h.resting side i s m).live;
        freed =
            FreeChain-same b.pool (set b.pool s blank_node) (node_at b.pool s).next ss
              (omega (arith, length-set b.pool s blank_node))
              (λ y m. kept y (λ z. Apart-In s y ss apart m (sym z))) rest;
        apart = apart;
        distinct = distinct;
      }
    where
      clash : {u : Bool} → u ≡ false → u ≡ true → ⊥
      clash p t = cc

  -- On a book with room in its slab, a slot is found.
  pub alloc_node-Allocated :
      (pool : List OrderNode) × (head : ℕ) × (slot : ℕ) × Allocated b q pool head slot
  alloc_node-Allocated = by_free free refl
    where
      by_free :
          (xs : List ℕ)
          → free ≡ xs
          → (pool : List OrderNode) × (head : ℕ) × (slot : ℕ) × Allocated b q pool head slot
      by_free [] e = (
        b.pool ++ (blank_node ∷ []),
        b.free_head,
        length b.pool,
        fresh-Allocated (subst (FreeChain b.pool b.free_head) e h.freed) e,
      )
      by_free (s ∷ ss) e =
          (set b.pool s blank_node, (node_at b.pool s).next, s, reused-Allocated s ss e)
