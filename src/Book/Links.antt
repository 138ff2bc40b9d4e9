-- ===== src/Book/Links.antt =====
-- link_back and unlink of cpp/src/order_book.cpp on the queue of a level.
use high_frequency_trading.Base.{
  ℕ, ◌<◌, ◌≡◌, refl, ap, sym, ◌∙◌, ◌≢◌, inl, inr, false, List, [], ◌∷◌, ◌++◌, arith, ◌==◌,
  if◌then◌else◌, set, length, get_or-set, length-set, Bool-cases,
}
use high_frequency_trading.Book.Records.{OrderNode, PriceLevel, nil_node, node_at, blank_node}
use high_frequency_trading.Book.Slab.{link_back}
use high_frequency_trading.Book.Queues.{
  Chain, Apart, Distinct, last_of, first_of, Chain-tail, Chain-append, Chain-real,
}

-- A node but for its links.
abbrev pub data_of : OrderNode → OrderNode
data_of n = record n { prev = 0; next = 0 }

-- A node after a write.
pub node_at-set :
    (pool : List OrderNode) (s y : ℕ) (n : OrderNode)
    → s < length pool
    → node_at (set pool s n) y ≡ (if s == y then n else node_at pool y)
node_at-set pool s y n h = get_or-set pool s y n blank_node h

pub last_real : (s : ℕ) (ss : List ℕ) → s ≢ nil_node → Apart nil_node ss → last_of s ss ≢ nil_node
last_real s [] h a = h
last_real s (y ∷ ys) h (ne, a) = last_real y ys (λ e. ne (sym e)) a

-- The links of the nodes that an append writes.
module _ (pool : List OrderNode) (level : PriceLevel) (slot : ℕ) (below : slot < length pool)
    (apart : slot ≢ level.tail) (tail_in : level.tail ≢ nil_node → level.tail < length pool) where
  abbrev fresh : OrderNode
  fresh = record (node_at pool slot) { prev = level.tail; next = nil_node }

  pub link_node :
      (y : ℕ)
      → node_at (link_back pool level slot).0 y ≡ (
          if slot == y
          then fresh
          else if level.tail == nil_node
          then node_at pool y
          else if level.tail == y
          then record (node_at pool y) { next = slot }
          else node_at pool y)
  unfolding link_back
  link_node y = elim (Bool-cases (level.tail == nil_node)) [
    | inl none ↦ rw none (node_at-set pool slot y fresh below)
    | inr some ↦
        let inside : level.tail < length (set pool slot fresh) =
          rw (length-set pool slot fresh) (tail_in (ground arith)) in
        let at_tail : node_at (set pool slot fresh) level.tail ≡ node_at pool level.tail =
          ground (arith, node_at-set pool slot level.tail fresh below) in
        rw some (
          rw
            (
              node_at-set (set pool slot fresh) level.tail y
                  (record (node_at (set pool slot fresh) level.tail) { next = slot }) inside,
              node_at-set pool slot y fresh below,
              at_tail,
            )
            (elim (Bool-cases (level.tail == y)) [
              | inl here ↦
                  let e : level.tail ≡ y = ground arith in
                  let off : (slot == y) ≡ false = ground arith in
                  rw (here, off) (ap (λ z. record (node_at pool z) { next = slot }) e)
              | inr other ↦ rw other refl
            ]))
  ]

  pub link_data :
      (y : ℕ) → data_of (node_at (link_back pool level slot).0 y) ≡ data_of (node_at pool y)
  link_data y = rw (link_node y) (elim (Bool-cases (slot == y)) [
    | inl here ↦ let e : slot ≡ y = ground arith in rw here (ap (λ z. data_of (node_at pool z)) e)
    | inr other ↦ rw other (elim (Bool-cases (level.tail == nil_node)) [
      | inl none ↦ rw none refl
      | inr some ↦ rw some (elim (Bool-cases (level.tail == y)) [
        | inl last ↦ rw last refl
        | inr between ↦ rw between refl
      ])
    ])
  ])

  pub link_others :
      (y : ℕ) → y ≢ slot → y ≢ level.tail → node_at (link_back pool level slot).0 y ≡ node_at pool y
  link_others y ns nt =
      let off : (slot == y) ≡ false = ground arith in
      let away : (level.tail == y) ≡ false = ground arith in
      rw (link_node y, off, away)
        (elim (Bool-cases (level.tail == nil_node)) [
          | inl none ↦ rw none refl
          | inr some ↦ rw some refl
        ])

  pub link_length : length (link_back pool level slot).0 ≡ length pool
  unfolding link_back
  link_length = elim (Bool-cases (level.tail == nil_node)) [
    | inl none ↦ rw none (length-set pool slot fresh)
    | inr some ↦ rw some (
        length-set (set pool slot fresh) level.tail
          (record (node_at (set pool slot fresh) level.tail) { next = slot })
        ∙ length-set pool slot fresh)
  ]

link_head :
    (pool : List OrderNode) (level : PriceLevel) (slot : ℕ) (ss : List ℕ)
    → Chain pool nil_node level.head level.tail ss
    → (link_back pool level slot).1.head ≡ first_of slot ss
unfolding link_back
link_head pool level slot [] (h, t) = ground (arith, t)
link_head pool level slot (s ∷ ss) (h, real, below, back, rest) =
    let t = Chain-tail pool s (node_at pool s).next level.tail ss rest in
    let r = last_real s ss real (Chain-real pool s (node_at pool s).next level.tail ss rest) in
    let some : (level.tail == nil_node) ≡ false = ground arith in rw some h

link_tail :
    (pool : List OrderNode) (level : PriceLevel) (slot : ℕ)
    → (link_back pool level slot).1.tail ≡ slot
unfolding link_back
link_tail pool level slot = ground arith

pub Chain-inside :
    (pool : List OrderNode) (prev head tail : ℕ) (ss : List ℕ)
    → (prev ≢ nil_node → prev < length pool)
    → Chain pool prev head tail ss
    → tail ≢ nil_node
    → tail < length pool
Chain-inside pool prev head tail [] h (e, t) ne = rw t (h (λ z. ne (t ∙ z)))
Chain-inside pool prev head tail (s ∷ ss) h (e, real, below, back, rest) ne =
    Chain-inside pool s (node_at pool s).next tail ss (λ _. below) rest ne

Apart-tail : (x : ℕ) (ss : List ℕ) → x ≢ nil_node → Apart x ss → x ≢ last_of nil_node ss
Apart-tail x [] ne a = ne
Apart-tail x (s ∷ ss) ne (d, a) = from s ss d a
  where
    from : (s : ℕ) (ss : List ℕ) → x ≢ s → Apart x ss → x ≢ last_of s ss
    from s [] d a = d
    from s (y ∷ ys) d (e, a) = from y ys e a

module _ (pool : List OrderNode) (level : PriceLevel) (slot : ℕ) (ss : List ℕ)
    (below : slot < length pool) (real : slot ≢ nil_node) (distinct : Distinct ss)
    (apart : Apart slot ss) (chain : Chain pool nil_node level.head level.tail ss) where
  pub link_apart : slot ≢ level.tail
  link_apart e =
      Apart-tail slot ss real apart (e ∙ Chain-tail pool nil_node level.head level.tail ss chain)

  pub link_inside : level.tail ≢ nil_node → level.tail < length pool
  link_inside = Chain-inside pool nil_node level.head level.tail ss (λ z. absurd (z refl)) chain

  -- A queue that a node is linked to the back of.
  pub link_back_lem :
      Chain
        (link_back pool level slot).0
        nil_node
        (link_back pool level slot).1.head
        (link_back pool level slot).1.tail
        (ss ++ (slot ∷ []))
  link_back_lem =
      let node = link_node pool level slot below link_apart link_inside in
      let sized = link_length pool level slot below link_apart link_inside in
      rw (link_head pool level slot ss chain, link_tail pool level slot)
        (Chain-append pool (link_back pool level slot).0 slot level.tail (omega (arith, sized)) real
          (omega (arith, sized)) (ground (arith, node slot)) (ground (arith, node slot))
          (λ s. ground (arith, node level.tail, link_apart))
          (λ s. ground (arith, node level.tail, link_apart))
          (link_others pool level slot below link_apart link_inside) nil_node level.head level.tail
          ss (Chain-tail pool nil_node level.head level.tail ss chain) distinct apart chain)
