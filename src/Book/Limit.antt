-- ===== src/Book/Limit.antt =====
-- OrderBook::add_limit and execute_market (cpp/src/order_book.cpp), whole.
use high_frequency_trading.Base.{
  ℕ, ◌^◌, ◌<◌, ◌≡◌, refl, sym, ◌∙◌, subst, ◌⊎◌, inl, inr, true, false, not, ◌&&◌, Bool, Option,
  none, some, List, arith, ◌==◌, if◌then◌else◌, length, Bool-cases,
}
use high_frequency_trading.Base.Int.{ℤ, pos, ◌+ℤ◌, ◌-ℤ◌, leb_ℤ, int_laws}
use high_frequency_trading.Types.{Side, opposite}
use high_frequency_trading.IdIndex.{slot_for}
use high_frequency_trading.Book.Records.{Trade, OrderBook, nil_node, no_price, in_band}
use high_frequency_trading.Book.Match.{Aggressor, Matching, match}
use high_frequency_trading.Book.{
  Answer, rejected, rest_order, finish_add, refuses, add_limit, execute_market,
}
use high_frequency_trading.Book.Invariant.{Queues, Holds, lights}
use high_frequency_trading.Book.Priority.{Swept, fill_levels}
use high_frequency_trading.Book.Removal.{SameGrid}
use high_frequency_trading.Book.Sweeping.{push_all}
use high_frequency_trading.Book.Sweeps.{SweepDone}
use high_frequency_trading.Book.Cancel.{IsBook, order_of}
use high_frequency_trading.Book.Shrinking.{Shrinks}
use high_frequency_trading.Book.Shrunk.{match-Shrinks, Shrinks-absent}
use high_frequency_trading.Book.Trading.{match-priority, resting_levels, started}
use high_frequency_trading.Book.Adding.{MayRest, rest_of, rest_order_lem}

-- What price-time priority says of an aggressor on a book with the given queues.
abbrev pub expected : OrderBook → Queues → Aggressor → ℤ → Swept
expected b q a qty = fill_levels b.smp a qty (resting_levels b q (opposite a.side))

-- What is left of the order rests.
abbrev pub rests_after : Swept → Bool
rests_after s = not (leb_ℤ s.left (pos 0)) && not s.halted

pub record AddDone (b : OrderBook) (a : Aggressor) (qty : ℤ) (out : Option (List Trade)) (s : Swept)
    (r : Answer) : Type 0 where
  pub ordered : IsBook r.book
  pub filled : r.filled +ℤ s.left ≡ qty
  pub trades : r.out ≡ push_all out s.all_trades
  pub order : order_of r.book a.id ≡ (if rests_after s then some (rest_of a s.left) else none)

left_over : (f l qty : ℤ) → f +ℤ l ≡ pos 0 +ℤ qty → (qty -ℤ f ≡ l) × (f +ℤ l ≡ qty)
left_over f l qty e = (grind int_laws, grind int_laws)

no_order : (c : OrderBook) (id : ℕ) → slot_for c.ids id ≡ nil_node → order_of c id ≡ none
unfolding order_of
no_order c id e = rw e refl

in_band-same : {b c : OrderBook} (p : ℤ) → SameGrid b c → in_band c p ≡ in_band b p
unfolding in_band
in_band-same p g = rw (g.base, g.tick, g.max) refl

-- The two tests after `match`.
pub rest_or_not :
    (P : OrderBook → Type 0) (spent stop : Bool) (x y : OrderBook)
    → (spent ≡ true → P x)
    → (stop ≡ true → P x)
    → (spent ≡ false → stop ≡ false → P y)
    → P (if spent then x else if stop then x else y)
rest_or_not P true stop x y f g h = f refl
rest_or_not P false true x y f g h = g refl
rest_or_not P false false x y f g h = h refl refl

module _ (b : OrderBook) (a : Aggressor) (qty : ℤ) (out : Option (List Trade)) (q : Queues)
    (free : List ℕ) (h : Holds b q free (lights q)) (may : MayRest b a)
    (few : length b.ids.keys < 2 ^ 60) (m : Matching) (run : match b a qty out ≡ some m)
    (d : SweepDone
      (opposite a.side)
      (length b.bids)
      (length b.bids)
      (started b qty out)
      m
      q
      (expected b q a qty)) where
  abbrev pub plan : Swept
  plan = expected b q a qty

  shrunk : Shrinks b m.book
  shrunk = match-Shrinks b a qty out m run

  pub matched_MayRest : MayRest m.book a
  unfolding in_band
  matched_MayRest = record {
    banded = in_band-same {b = (started b qty out).book} a.limit d.same_grid ∙ may.banded;
    proper = may.proper;
    absent = Shrinks-absent b m.book a.id h.indexed may.proper shrunk may.absent;
    room = omega (arith, shrunk.slab, may.room);
    few = omega (arith, shrunk.cells, d.holds.indexed.counted);
  }

  matched-IsBook : IsBook m.book
  unfolding IsBook
  matched-IsBook = (d.q', d.free, d.holds)

  -- Nothing rests.
  stays :
      rests_after plan ≡ false
      → AddDone b a qty out plan (record { book = m.book; filled = m.filled; out = m.out })
  stays e = record {
    ordered = matched-IsBook;
    filled = (left_over m.filled plan.left qty d.filled).1;
    trades = d.out;
    order = rw e (no_order m.book a.id matched_MayRest.absent);
  }

  pub remaining : qty -ℤ m.filled ≡ plan.left
  remaining = (left_over m.filled plan.left qty d.filled).0

  -- The rest joins the book.
  joins :
      leb_ℤ plan.left (pos 0) ≡ false
      → plan.halted ≡ false
      → AddDone b a qty out plan
          (record { book = rest_order m.book a plan.left; filled = m.filled; out = m.out })
  joins some_left going =
      let (ordered, order) =
        rest_order_lem m.book a plan.left matched-IsBook matched_MayRest (ground arith) in
      let here : (a.id == a.id) ≡ true = ground arith in
      record {
        ordered = ordered;
        filled = (left_over m.filled plan.left qty d.filled).1;
        trades = d.out;
        order = order a.id ∙ rw (here, some_left, going) refl;
      }

  finish_lem : AddDone b a qty out plan (finish_add a qty m)
  unfolding finish_add
  finish_lem =
      rest_or_not
        (λ c. AddDone b a qty out plan (record { book = c; filled = m.filled; out = m.out }))
        (leb_ℤ (qty -ℤ m.filled) (pos 0)) m.book.aggressor_stopped m.book
        (rest_order m.book a (qty -ℤ m.filled))
        (λ spent. stays (let e = subst (λ z. leb_ℤ z (pos 0) ≡ true) remaining spent in rw e refl))
        (λ stopped.
          stays (let e = sym d.flag ∙ stopped in rw e (no_rest (leb_ℤ plan.left (pos 0)))))
        (λ some_left on.
          rw remaining
            (joins (subst (λ z. leb_ℤ z (pos 0) ≡ false) remaining some_left) (sym d.flag ∙ on)))
    where
      no_rest : (c : Bool) → (not c && false) ≡ false
      no_rest true = refl
      no_rest false = refl

-- A limit order that the book takes: usable, new, with a price in the band and a quantity.
pub may_of :
    (b : OrderBook) (id owner : ℕ) (side : Side) (price qty : ℤ)
    → refuses b id price qty ≡ false
    → length b.pool < nil_node
    → b.ids.count < 2 ^ 60
    → MayRest b (record { id = id; owner = owner; side = side; limit = price })
unfolding refuses
may_of b id owner side price qty e room few = record {
  banded = ground arith;
  proper = ground arith;
  absent = ground arith;
  room = room;
  few = few;
}

-- On a book in order, with fewer nodes than the slab can number and an index of fewer than 2 ^ 60 cells,
-- `add_limit` always returns. When it refuses the order it returns -1 and the book as it was. Otherwise
-- the trades are those of price-time priority; what it returns and what that leaves make up the
-- quantity; the order rests, with that quantity, when some is left and the order was not stopped, and
-- else it is not in the book; and the book is in order.
pub add_limit_lem :
    (b : OrderBook) (q : Queues) (free : List ℕ) (id : ℕ) (side : Side) (price qty : ℤ)
    (out : Option (List Trade)) (owner : ℕ)
    → Holds b q free (lights q)
    → length b.pool < nil_node
    → length b.ids.keys < 2 ^ 60
    → let a : Aggressor = record { id = id; owner = owner; side = side; limit = price } in
      (r : Answer) × (add_limit b id side price qty out owner ≡ some r)
      × ((refuses b id price qty ≡ true) × (r ≡ rejected b out)
          ⊎ ((refuses b id price qty ≡ false) × AddDone b a qty out (expected b q a qty) r))
unfolding add_limit
add_limit_lem b q free id side price qty out owner h room few =
    elim (Bool-cases (refuses b id price qty)) [
      | inl refused ↦ (rejected b out, rw refused refl, inl (refused, refl))
      | inr taken ↦
          let a : Aggressor = record { id = id; owner = owner; side = side; limit = price } in
          let may =
            may_of b id owner side price qty taken room (omega (arith, few, h.indexed.counted)) in
          let (m, run, d) = match-priority b a qty out q free h in
          (
            finish_add a qty m,
            rw (taken, run) refl,
            inr (taken, finish_lem b a qty out q free h may few m run d),
          )
    ]

-- `execute_market` on a book in order always returns, with a book in order; a quantity that is not
-- positive changes nothing, and otherwise the trades are those of price-time priority, and what is
-- filled and what is left make up the quantity.
pub execute_market_lem :
    (b : OrderBook) (q : Queues) (free : List ℕ) (id : ℕ) (side : Side) (qty : ℤ)
    (out : Option (List Trade)) (owner : ℕ)
    → Holds b q free (lights q)
    → let s = expected b q (record { id = id; owner = owner; side = side; limit = no_price }) qty in
      (r : Answer) × (execute_market b id side qty out owner ≡ some r)
      × IsBook r.book
      × ((leb_ℤ qty (pos 0) ≡ true) × (r ≡ record { book = b; filled = pos 0; out = out })
          ⊎ ((leb_ℤ qty (pos 0) ≡ false)
              × (r.filled +ℤ s.left ≡ qty)
              × (r.out ≡ push_all out s.all_trades)))
unfolding execute_market IsBook
execute_market_lem b q free id side qty out owner h = elim (Bool-cases (leb_ℤ qty (pos 0))) [
  | inl refused ↦ (
    record { book = b; filled = pos 0; out = out },
    rw refused refl,
    (q, free, h),
    inl (refused, refl),
  )
  | inr taken ↦
      let a : Aggressor = record { id = id; owner = owner; side = side; limit = no_price } in
      let (m, run, d) = match-priority b a qty out q free h in
      (
        record { book = m.book; filled = m.filled; out = m.out },
        rw (taken, run) refl,
        (d.q', d.free, d.holds),
        inr (taken, (left_over m.filled (expected b q a qty).left qty d.filled).1, d.out),
      )
]

-- The book after an `add_limit` that returns.
pub add_limit-IsBook :
    (b : OrderBook) (id : ℕ) (side : Side) (price qty : ℤ) (out : Option (List Trade)) (owner : ℕ)
    → IsBook b
    → length b.pool < nil_node
    → length b.ids.keys < 2 ^ 60
    → (r : Answer) × (add_limit b id side price qty out owner ≡ some r) × IsBook r.book
unfolding IsBook
add_limit-IsBook b id side price qty out owner (q, free, h) room few =
    let (r, run, t) = add_limit_lem b q free id side price qty out owner h room few in
    (
      r,
      run,
      elim t [
        | inl (refused, e) ↦ subst (λ (k : Answer). IsBook k.book) (sym e) (q, free, h)
        | inr (taken, d) ↦ d.ordered
      ],
    )
