-- ===== src/Book/Cutting.antt =====
-- OrderBook::unlink (cpp/src/order_book.cpp): a node is taken out of its queue.
use high_frequency_trading.Base.{
  ℕ, ◌<◌, ◌≡◌, refl, ap, sym, ◌∙◌, ◌≢◌, inl, inr, false, List, [], ◌∷◌, ◌++◌, arith, ◌==◌,
  if◌then◌else◌, length, length-set, Bool-cases,
}
use high_frequency_trading.Book.Records.{OrderNode, PriceLevel, nil_node, node_at}
use high_frequency_trading.Book.Slab.{unlink, with_next}
use high_frequency_trading.Book.Queues.{
  Chain, Apart, Distinct, last_of, first_of, Chain-head, Chain-remove, Chain-links, Chain-real,
  Apart-append,
}
use high_frequency_trading.Book.Links.{data_of, last_real, node_at-set}

-- The nodes after a slot is unlinked.
module _ (pool : List OrderNode) (level : PriceLevel) (slot : ℕ)
    (prev_in : (node_at pool slot).prev ≢ nil_node → (node_at pool slot).prev < length pool)
    (next_in : (node_at pool slot).next ≢ nil_node → (node_at pool slot).next < length pool) where
  abbrev prev : ℕ
  prev = (node_at pool slot).prev

  abbrev next : ℕ
  next = (node_at pool slot).next

  abbrev forward : ℕ → OrderNode
  forward y =
      if prev == nil_node
      then node_at pool y
      else if prev == y
      then record (node_at pool y) { next = next }
      else node_at pool y

  abbrev half : List OrderNode
  half = if prev == nil_node then pool else with_next pool prev next

  half-length : length half ≡ length pool
  half-length = elim (Bool-cases (prev == nil_node)) [
    | inl none ↦ rw none refl
    | inr some ↦ rw some (length-set pool prev (record (node_at pool prev) { next = next }))
  ]

  half_node : (y : ℕ) → node_at half y ≡ forward y
  half_node y = elim (Bool-cases (prev == nil_node)) [
    | inl none ↦ rw none refl
    | inr some ↦ rw some (
        rw
          (node_at-set pool prev y (record (node_at pool prev) { next = next })
            (prev_in (ground arith)))
          (elim (Bool-cases (prev == y)) [
            | inl here ↦ rw here (ap (λ z. record (node_at pool z) { next = next }) (ground arith))
            | inr other ↦ rw other refl
          ]))
  ]

  unlink_node :
      (y : ℕ)
      → node_at (unlink pool level slot).0 y ≡ (
          if next == nil_node
          then forward y
          else if next == y
          then record (forward y) { prev = prev }
          else forward y)
  unfolding unlink
  unlink_node y = elim (Bool-cases (next == nil_node)) [
    | inl none ↦ rw none (half_node y)
    | inr some ↦
        let inside : next < length half = rw half-length (next_in (ground arith)) in
        rw some (
          rw (node_at-set half next y (record (node_at half next) { prev = prev }) inside)
            (elim (Bool-cases (next == y)) [
              | inl here ↦
                  let e : next ≡ y = ground arith in
                  rw here (
                    ap (λ (n : OrderNode). record n { prev = prev })
                      (ap (λ z. node_at half z) e ∙ half_node y))
              | inr other ↦ rw other (half_node y)
            ]))
  ]

  pub length-unlink : length (unlink pool level slot).0 ≡ length pool
  unfolding unlink
  length-unlink = elim (Bool-cases (next == nil_node)) [
    | inl none ↦ rw none half-length
    | inr some ↦
        rw some (length-set half next (record (node_at half next) { prev = prev }) ∙ half-length)
  ]

  forward_data : (y : ℕ) → data_of (forward y) ≡ data_of (node_at pool y)
  forward_data y = elim (Bool-cases (prev == nil_node)) [
    | inl none ↦ rw none refl
    | inr some ↦
        rw some
          (elim (Bool-cases (prev == y)) [ inl here ↦ rw here refl | inr other ↦ rw other refl ])
  ]

  pub unlink_data :
      (y : ℕ) → data_of (node_at (unlink pool level slot).0 y) ≡ data_of (node_at pool y)
  unlink_data y = rw (unlink_node y) (elim (Bool-cases (next == nil_node)) [
    | inl none ↦ rw none (forward_data y)
    | inr some ↦ rw some (elim (Bool-cases (next == y)) [
      | inl here ↦ rw here (forward_data y)
      | inr other ↦ rw other (forward_data y)
    ])
  ])

  -- A sentinel for a neighbour is no node that is written.
  pub unlink_beside :
      (y : ℕ)
      → (prev ≢ nil_node → y ≢ prev)
      → (next ≢ nil_node → y ≢ next)
      → node_at (unlink pool level slot).0 y ≡ node_at pool y
  unlink_beside y np nn = rw (unlink_node y) (elim (Bool-cases (next == nil_node)) [
    | inl none ↦ rw none (same np)
    | inr some ↦
        let ne = nn (ground arith) in
        let en : (next == y) ≡ false = ground arith in rw (some, en) (same np)
  ])
    where
      same : (prev ≢ nil_node → y ≢ prev) → forward y ≡ node_at pool y
      same np = elim (Bool-cases (prev == nil_node)) [
        | inl z ↦ rw z refl
        | inr n ↦
            let ne = np (ground arith) in
            let ep : (prev == y) ≡ false = ground arith in rw (n, ep) refl
      ]

  pub unlink_others :
      (y : ℕ) → y ≢ prev → y ≢ next → node_at (unlink pool level slot).0 y ≡ node_at pool y
  unlink_others y np nn =
      let ep : (prev == y) ≡ false = ground arith in
      let en : (next == y) ≡ false = ground arith in
      rw (unlink_node y, ep, en)
        (elim (Bool-cases (next == nil_node)) [
          | inl none ↦
              rw none
                (elim (Bool-cases (prev == nil_node)) [ inl z ↦ rw z refl | inr n ↦ rw n refl ])
          | inr some ↦
              rw some
                (elim (Bool-cases (prev == nil_node)) [ inl z ↦ rw z refl | inr n ↦ rw n refl ])
        ])

module _ (pool : List OrderNode) (level : PriceLevel) (slot : ℕ) (ss bs : List ℕ)
    (distinct : Distinct (ss ++ (slot ∷ bs)))
    (chain : Chain pool nil_node level.head level.tail (ss ++ (slot ∷ bs))) where
  unlinked_inside :
      (pre head tail : ℕ) (xs : List ℕ)
      → (pre ≢ nil_node → pre < length pool)
      → Chain pool pre head tail (xs ++ (slot ∷ bs))
      → (last_of pre xs ≢ nil_node → last_of pre xs < length pool)
        × (first_of nil_node bs ≢ nil_node → first_of nil_node bs < length pool)
  unlinked_inside pre head tail [] h (e, real, below, back, rest) = (h, first_inside bs rest)
    where
      first_inside :
          (ys : List ℕ)
          → Chain pool slot (node_at pool slot).next tail ys
          → first_of nil_node ys ≢ nil_node
          → first_of nil_node ys < length pool
      first_inside [] c ne = absurd (ne refl)
      first_inside (y ∷ ys) c ne = c.2
  unlinked_inside pre head tail (x ∷ xs) h (e, real, below, back, rest) =
      unlinked_inside x (node_at pool x).next tail xs (λ _. below) rest

  links :
      ((node_at pool slot).prev ≡ last_of nil_node ss)
      × ((node_at pool slot).next ≡ first_of nil_node bs)
  links = Chain-links pool nil_node level.head level.tail slot ss bs chain

  pub unlink_prev_in : (node_at pool slot).prev ≢ nil_node → (node_at pool slot).prev < length pool
  unlink_prev_in =
      rw links.0 (unlinked_inside nil_node level.head level.tail ss (λ z. absurd (z refl)) chain).0

  pub unlink_next_in : (node_at pool slot).next ≢ nil_node → (node_at pool slot).next < length pool
  unlink_next_in =
      rw links.1 (unlinked_inside nil_node level.head level.tail ss (λ z. absurd (z refl)) chain).1

  unlink_head : (unlink pool level slot).1.head ≡ first_of (node_at pool slot).next ss
  unfolding unlink
  unlink_head =
      headed ss links.0 (Chain-head pool nil_node level.head level.tail (ss ++ (slot ∷ bs)) chain)
        (Chain-real pool nil_node level.head level.tail (ss ++ (slot ∷ bs)) chain)
    where
      headed :
          (xs : List ℕ)
          → (node_at pool slot).prev ≡ last_of nil_node xs
          → level.head ≡ first_of nil_node (xs ++ (slot ∷ bs))
          → Apart nil_node (xs ++ (slot ∷ bs))
          → (if (node_at pool slot).prev == nil_node then (node_at pool slot).next else level.head)
            ≡ first_of (node_at pool slot).next xs
      headed [] e f a = ground arith
      headed (x ∷ xs) e f (n, a) =
          let r = last_real x xs (λ z. n (sym z)) (Apart-append nil_node xs (slot ∷ bs) a).0 in
          ground arith

  unlink_tail :
      (unlink pool level slot).1.tail
      ≡ (if (node_at pool slot).next == nil_node then (node_at pool slot).prev else level.tail)
  unfolding unlink
  unlink_tail = refl

  -- A queue that a node is unlinked from.
  pub unlink_lem :
      Chain
        (unlink pool level slot).0
        nil_node
        (unlink pool level slot).1.head
        (unlink pool level slot).1.tail
        (ss ++ bs)
  unlink_lem =
      let node = unlink_node pool level slot unlink_prev_in unlink_next_in in
      let p = (node_at pool slot).prev in
      let n = (node_at pool slot).next in
      rw (unlink_head, unlink_tail)
        (Chain-remove pool (unlink pool level slot).0 slot
          (length-unlink pool level slot unlink_prev_in unlink_next_in)
          (λ h. ground (arith, node p)) (λ h. ground (arith, node p)) (λ h. ground (arith, node n))
          (λ h. ground (arith, node n))
          (unlink_others pool level slot unlink_prev_in unlink_next_in) nil_node level.head
          level.tail ss bs
          (Chain-real pool nil_node level.head level.tail (ss ++ (slot ∷ bs)) chain) distinct chain)
