-- ===== src/Book/Queues.antt =====
-- The queue of a price level as a list of slots: link_back and unlink of cpp/src/order_book.cpp.
use high_frequency_trading.Base.{
  ℕ, ◌<◌, ◌≤◌, ◌≡◌, refl, ap, sym, ◌∙◌, subst, ◌≢◌, true, false, List, [], ◌∷◌, ◌++◌, arith, ◌==◌,
  if◌then◌else◌, length,
}
use high_frequency_trading.Book.Records.{OrderNode, nil_node, node_at}

-- The slots from `head` to `tail`, each node with the links of its neighbours; `prev` stands before
-- the first.
abbrev pub Chain : List OrderNode → ℕ → ℕ → ℕ → List ℕ → Type 0
Chain pool prev head tail [] = (head ≡ nil_node) × (tail ≡ prev)
Chain pool prev head tail (s ∷ ss) =
    (head ≡ s)
    × (s ≢ nil_node)
    × (s < length pool)
    × ((node_at pool s).prev ≡ prev)
    × Chain pool s (node_at pool s).next tail ss

abbrev pub Apart : ℕ → List ℕ → Type 0
Apart x [] = Unit {0}
Apart x (s ∷ ss) = (x ≢ s) × Apart x ss

abbrev pub Distinct : List ℕ → Type 0
Distinct [] = Unit {0}
Distinct (s ∷ ss) = Apart s ss × Distinct ss

-- Two slabs agree on the links of the slots of a list.
abbrev pub SameLinks : List OrderNode → List OrderNode → List ℕ → Type 0
SameLinks pool pool' [] = Unit {0}
SameLinks pool pool' (s ∷ ss) =
    ((node_at pool' s).prev ≡ (node_at pool s).prev)
    × ((node_at pool' s).next ≡ (node_at pool s).next)
    × SameLinks pool pool' ss

pub Chain-same :
    (pool pool' : List OrderNode) (prev head tail : ℕ) (ss : List ℕ)
    → length pool ≤ length pool'
    → SameLinks pool pool' ss
    → Chain pool prev head tail ss
    → Chain pool' prev head tail ss
Chain-same pool pool' prev head tail [] l same c = c
Chain-same pool pool' prev head tail (s ∷ ss) l (p, n, same) (h, real, below, back, rest) = (
  h,
  real,
  omega arith,
  p ∙ back,
  rw n (Chain-same pool pool' s (node_at pool s).next tail ss l same rest),
)

pub SameLinks-all :
    (pool pool' : List OrderNode) (ss : List ℕ)
    → ((y : ℕ) → (node_at pool' y).prev ≡ (node_at pool y).prev)
    → ((y : ℕ) → (node_at pool' y).next ≡ (node_at pool y).next)
    → SameLinks pool pool' ss
SameLinks-all pool pool' [] p n = tt
SameLinks-all pool pool' (s ∷ ss) p n = (p s, n s, SameLinks-all pool pool' ss p n)

-- The last slot, or what stands before the list.
abbrev pub last_of : ℕ → List ℕ → ℕ
last_of prev [] = prev
last_of prev (s ∷ ss) = last_of s ss

pub Chain-tail :
    (pool : List OrderNode) (prev head tail : ℕ) (ss : List ℕ)
    → Chain pool prev head tail ss
    → tail ≡ last_of prev ss
Chain-tail pool prev head tail [] (h, t) = t
Chain-tail pool prev head tail (s ∷ ss) (h, real, below, back, rest) =
    Chain-tail pool s (node_at pool s).next tail ss rest

Apart-last : (x s : ℕ) (ss : List ℕ) → x ≢ s → Apart x ss → x ≢ last_of s ss
Apart-last x s [] ne a = ne
Apart-last x s (y ∷ ys) ne (a, rest) = Apart-last x y ys a rest

abbrev pub first_of : ℕ → List ℕ → ℕ
first_of x [] = x
first_of x (s ∷ ss) = s

pub Chain-head :
    (pool : List OrderNode) (prev head tail : ℕ) (ss : List ℕ)
    → Chain pool prev head tail ss
    → head ≡ first_of nil_node ss
Chain-head pool prev head tail [] (h, t) = h
Chain-head pool prev head tail (s ∷ ss) c = c.0

pub Apart-append : (x : ℕ) (xs ys : List ℕ) → Apart x (xs ++ ys) → Apart x xs × Apart x ys
Apart-append x [] ys a = (tt, a)
Apart-append x (y ∷ xs) ys (ne, a) = let (l, r) = Apart-append x xs ys a in ((ne, l), r)

pub Distinct-append : (xs ys : List ℕ) → Distinct (xs ++ ys) → Distinct xs × Distinct ys
Distinct-append [] ys d = (tt, d)
Distinct-append (x ∷ xs) ys (a, d) =
    let (l, r) = Distinct-append xs ys d in ((((Apart-append x xs ys a).0), l), r)

-- No slot of a chain is the sentinel.
pub Chain-real :
    (pool : List OrderNode) (prev head tail : ℕ) (ss : List ℕ)
    → Chain pool prev head tail ss
    → Apart nil_node ss
Chain-real pool prev head tail [] c = tt
Chain-real pool prev head tail (s ∷ ss) (h, real, below, back, rest) =
    ((λ e. real (sym e)), Chain-real pool s (node_at pool s).next tail ss rest)

pub Apart-first : (x : ℕ) (ss : List ℕ) → x ≢ nil_node → Apart x ss → x ≢ first_of nil_node ss
Apart-first x [] ne a = ne
Apart-first x (s ∷ ss) ne a = a.0

-- The links of a slot in a chain are its neighbours.
pub Chain-links :
    (pool : List OrderNode) (prev head tail x : ℕ) (ss bs : List ℕ)
    → Chain pool prev head tail (ss ++ (x ∷ bs))
    → ((node_at pool x).prev ≡ last_of prev ss) × ((node_at pool x).next ≡ first_of nil_node bs)
Chain-links pool prev head tail x [] bs (h, real, below, back, rest) =
    (back, Chain-head pool x (node_at pool x).next tail bs rest)
Chain-links pool prev head tail x (s ∷ ss) bs (h, real, below, back, rest) =
    Chain-links pool s (node_at pool s).next tail x ss bs rest

-- A slot is appended: the last node gets it as its next one, the new node the last one as its
-- previous one.
module _ (pool pool' : List OrderNode) (x last : ℕ) (grown : length pool ≤ length pool')
    (real : x ≢ nil_node) (below : x < length pool') (new_prev : (node_at pool' x).prev ≡ last)
    (new_next : (node_at pool' x).next ≡ nil_node)
    (last_prev : last ≢ nil_node → (node_at pool' last).prev ≡ (node_at pool last).prev)
    (last_next : last ≢ nil_node → (node_at pool' last).next ≡ x)
    (others : (y : ℕ) → y ≢ x → y ≢ last → node_at pool' y ≡ node_at pool y) where
  pub Chain-append :
      (prev head tail : ℕ) (ss : List ℕ)
      → last ≡ last_of prev ss
      → Distinct ss
      → Apart x ss
      → Chain pool prev head tail ss
      → Chain pool' prev (first_of x ss) x (ss ++ (x ∷ []))
  Chain-append prev head tail [] e d a (h, t) = (refl, real, below, new_prev ∙ e, (new_next, refl))
  Chain-append prev head tail (s ∷ []) e d a (h, rs, bs, back, (next, t)) = (
    refl,
    rs,
    omega arith,
    subst (λ y. (node_at pool' y).prev ≡ prev) e
        (last_prev (λ z. rs (sym e ∙ z)) ∙ subst (λ y. (node_at pool y).prev ≡ prev) (sym e) back),
    (
      subst (λ y. (node_at pool' y).next ≡ x) e (last_next (λ z. rs (sym e ∙ z))),
      real,
      below,
      new_prev ∙ e,
      (new_next, refl),
    ),
  )
  Chain-append prev head tail (s ∷ y ∷ ys) e (ds, d) (xs, a) (h, rs, bs, back, rest) =
      let other : s ≢ last = λ z. Apart-last s y ys ds.0 ds.1 (z ∙ e) in
      let same : node_at pool' s ≡ node_at pool s = others s (λ z. xs (sym z)) other in
      (
        refl,
        rs,
        omega arith,
        ap (λ n. n.prev) same ∙ back,
        rw same (rw rest.0 (Chain-append s (node_at pool s).next tail (y ∷ ys) e d a rest)),
      )

-- A slot is taken out: its neighbours are linked to one another.
module _ (pool pool' : List OrderNode) (x : ℕ) (sized : length pool' ≡ length pool)
    (prev_next : (node_at pool x).prev ≢ nil_node
      → (node_at pool' (node_at pool x).prev).next ≡ (node_at pool x).next)
    (prev_prev : (node_at pool x).prev ≢ (node_at pool x).next
      → (node_at pool' (node_at pool x).prev).prev ≡ (node_at pool (node_at pool x).prev).prev)
    (next_prev : (node_at pool x).next ≢ nil_node
      → (node_at pool' (node_at pool x).next).prev ≡ (node_at pool x).prev)
    (next_next : (node_at pool x).prev ≢ (node_at pool x).next
      → (node_at pool' (node_at pool x).next).next ≡ (node_at pool (node_at pool x).next).next)
    (others : (y : ℕ)
      → y ≢ (node_at pool x).prev
      → y ≢ (node_at pool x).next
      → node_at pool' y ≡ node_at pool y) where
  abbrev before : ℕ
  before = (node_at pool x).prev

  abbrev after : ℕ
  after = (node_at pool x).next

  -- The part behind the neighbour that follows does not change.
  behind :
      (prev head tail : ℕ) (ss : List ℕ)
      → Apart before ss
      → Apart after ss
      → Chain pool prev head tail ss
      → Chain pool' prev head tail ss
  behind prev head tail [] ab aa c = c
  behind prev head tail (s ∷ ss) (nb, ab) (na, aa) (h, real, below, back, rest) =
      let same = others s (λ e. nb (sym e)) (λ e. na (sym e)) in
      (
        h,
        real,
        omega (arith, sized),
        ap (λ n. n.prev) same ∙ back,
        rw same (behind s (node_at pool s).next tail ss ab aa rest),
      )

  -- The chain behind the slot, linked to what stood before it.
  rejoined :
      (tail : ℕ) (bs : List ℕ)
      → Apart before bs
      → Distinct bs
      → Chain pool x after tail bs
      → Chain pool' before after (if after == nil_node then before else tail) bs
  rejoined tail [] ab d (h, t) = let e : (after == nil_node) ≡ true = ground arith in rw e (h, refl)
  rejoined tail (b ∷ bs) (nb, ab) (db, d) (h, real, below, back, rest) =
      let e : (after == nil_node) ≡ false = ground arith in
      let some : after ≢ nil_node = λ z. real (sym h ∙ z) in
      let np : (node_at pool' b).prev ≡ before =
        subst (λ y. (node_at pool' y).prev ≡ before) h (next_prev some) in
      let nn : (node_at pool' b).next ≡ (node_at pool b).next =
        subst (λ y. (node_at pool' y).next ≡ (node_at pool y).next) h
          (next_next (λ z. nb (z ∙ h))) in
      let aa : Apart after bs = subst (λ y. Apart y bs) (sym h) db in
      rw e (
        h,
        real,
        omega (arith, sized),
        np,
        rw nn (behind b (node_at pool b).next tail bs ab aa rest),
      )

  -- A chain without the slot.
  pub Chain-remove :
      (prev head tail : ℕ) (ss bs : List ℕ)
      → Apart prev (ss ++ (x ∷ bs))
      → Distinct (ss ++ (x ∷ bs))
      → Chain pool prev head tail (ss ++ (x ∷ bs))
      → Chain pool' prev (first_of after ss) (if after == nil_node then before else tail) (ss ++ bs)
  Chain-remove prev head tail [] bs apt (ax, d) (h, real, below, back, rest) =
      subst (λ y. Chain pool' y after (if after == nil_node then before else tail) bs) back
        (rejoined tail bs (subst (λ y. Apart y bs) (sym back) apt.1) d rest)
  Chain-remove prev head tail (a ∷ []) bs apt (da, (ax, d))
        (h, real, below, back, (next, rx, bx, here, rest)) =
      let far : a ≢ after =
        λ z. Apart-first a bs real da.1 (z ∙ Chain-head pool x after tail bs rest) in
      let away : before ≢ after = λ z. far (sym here ∙ z) in
      (
        refl,
        real,
        omega (arith, sized),
        subst (λ y. (node_at pool' y).prev ≡ prev) here
            (prev_prev away ∙ subst (λ y. (node_at pool y).prev ≡ prev) (sym here) back),
        subst (λ y. Chain pool' a y (if after == nil_node then before else tail) bs)
            (sym (
              subst (λ y. (node_at pool' y).next ≡ after) here
                (prev_next (λ z. real (sym here ∙ z)))))
            (subst (λ y. Chain pool' y after (if after == nil_node then before else tail) bs) here
              (rejoined tail bs (subst (λ y. Apart y bs) (sym here) da.1) d rest)),
      )
  Chain-remove prev head tail (a ∷ y ∷ ys) bs apt (da, d) (h, real, below, back, rest) =
      let (b, f) = Chain-links pool a (node_at pool a).next tail x (y ∷ ys) bs rest in
      let (dl, dr) = Apart-append a (y ∷ ys) (x ∷ bs) da in
      let nb : a ≢ before = λ z. Apart-last a y ys dl.0 dl.1 (z ∙ b) in
      let na : a ≢ after = λ z. Apart-first a bs real dr.1 (z ∙ f) in
      let same : node_at pool' a ≡ node_at pool a = others a nb na in
      (
        refl,
        real,
        omega (arith, sized),
        ap (λ n. n.prev) same ∙ back,
        rw same (rw rest.0 (Chain-remove a (node_at pool a).next tail (y ∷ ys) bs da d rest)),
      )
