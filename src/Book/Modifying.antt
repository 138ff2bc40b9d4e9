-- ===== src/Book/Modifying.antt =====
-- OrderBook::modify (cpp/src/order_book.cpp).
use high_frequency_trading.Base.{
  ℕ, ◌^◌, ◌<◌, ◌≡◌, refl, ap, sym, ◌∙◌, ◌⊎◌, inl, inr, true, false, ◌&&◌, ◌||◌, Bool, Option, some,
  List, arith, ◌==◌, length, Bool-cases,
}
use high_frequency_trading.Base.Int.{ℤ, pos, ◌+ℤ◌, ◌-ℤ◌, leb_ℤ, eqb_ℤ, int_laws}
use high_frequency_trading.IdIndex.{slot_for}
use high_frequency_trading.Book.Records.{
  Trade, OrderNode, OrderBook, nil_node, node_at, index_of, in_band,
}
use high_frequency_trading.Book.{Answer, cancel, reduce, replace, amended, modify}
use high_frequency_trading.Book.Invariant.{lights}
use high_frequency_trading.Book.Requantify.{requantified-Holds}
use high_frequency_trading.Book.Views.{has_order}
use high_frequency_trading.Book.Cancel.{IsBook, cancel_lem}
use high_frequency_trading.Book.Shrunk.{cancel-Shrinks}
use high_frequency_trading.Book.Limit.{add_limit-IsBook}

whole : (x y : ℤ) → x +ℤ (y -ℤ x) ≡ y
whole x y = omega int_laws

-- A smaller quantity in place.
reduce-IsBook :
    (b : OrderBook) (id : ℕ) (new_qty : ℤ)
    → IsBook b
    → (slot_for b.ids id == nil_node) ≡ false
    → leb_ℤ new_qty (pos 0) ≡ false
    → IsBook (reduce b (slot_for b.ids id) new_qty)
unfolding IsBook reduce
reduce-IsBook b id new_qty (q, free, h) present positive =
    let slot = slot_for b.ids id in
    let node = node_at b.pool slot in
    (
      q,
      free,
      requantified-Holds b q free (lights q) node.side (index_of b node.price) slot new_qty
          (node.quantity -ℤ new_qty) h (h.found id (ground arith)).0 (ground arith)
          (whole new_qty node.quantity),
    )

module _ (b : OrderBook) (id : ℕ) (new_price new_qty : ℤ) (out : Option (List Trade)) (h : IsBook b)
    (room : length b.pool < nil_node) (few : length b.ids.keys < 2 ^ 60) where
  abbrev slot : ℕ
  slot = slot_for b.ids id

  abbrev node : OrderNode
  node = node_at b.pool slot

  -- Whether the order is there and the amendment is one that the book takes.
  abbrev pub amends : Bool
  amends = has_order b id && (leb_ℤ new_qty (pos 0) || in_band b new_price)

  abbrev pub Amended : Option (OrderBook × Bool × Option (List Trade)) → Type 0
  Amended o =
      (c : OrderBook) × (out' : Option (List Trade)) × (o ≡ some (c, amends, out'))
      × IsBook c
      × ((amends ≡ true) ⊎ (c ≡ b))

  replace_lem : (r : Answer) × (replace b id slot new_price new_qty out ≡ some r) × IsBook r.book
  unfolding replace
  replace_lem =
      let s = cancel-Shrinks b id in
      add_limit-IsBook (cancel b id).0 id node.side new_price new_qty out node.owner
        (cancel_lem b id h).0 (omega (arith, s.slab)) (omega (arith, s.cells))

  module _ (present : (slot == nil_node) ≡ false) where
    modify_cancels :
        leb_ℤ new_qty (pos 0) ≡ true
        → modify b id new_price new_qty out ≡ some ((cancel b id).0, (cancel b id).1, out)
    unfolding modify
    modify_cancels e = rw (present, e) refl

    module _ (keeps : leb_ℤ new_qty (pos 0) ≡ false) where
      modify_refuses :
          in_band b new_price ≡ false → modify b id new_price new_qty out ≡ some (b, false, out)
      unfolding modify
      modify_refuses e = rw (present, keeps, e) refl

      module _ (inside : in_band b new_price ≡ true) where
        modify_reduces :
            (eqb_ℤ new_price node.price && leb_ℤ new_qty node.quantity) ≡ true
            → modify b id new_price new_qty out ≡ some (reduce b slot new_qty, true, out)
        unfolding modify
        modify_reduces e = rw (present, keeps, inside, e) refl

        modify_replaces :
            (eqb_ℤ new_price node.price && leb_ℤ new_qty node.quantity) ≡ false
            → modify b id new_price new_qty out ≡ amended (replace b id slot new_price new_qty out)
        unfolding modify
        modify_replaces e = rw (present, keeps, inside, e) refl

  as_told :
      {c : OrderBook} {out' : Option (List Trade)} {t : Bool}
      → amends ≡ t
      → ◌≡◌ {A = Option (OrderBook × Bool × Option (List Trade))}
          (some (c, t, out'))
          (some (c, amends, out'))
  as_told {c} {out'} e =
      ap {B = Option (OrderBook × Bool × Option (List Trade))} (λ (u : Bool). some (c, u, out'))
        (sym e)

  known : (slot == nil_node) ≡ false → has_order b id ≡ true
  unfolding has_order
  known e = rw e refl

  unknown : (slot == nil_node) ≡ true → has_order b id ≡ false
  unfolding has_order
  unknown e = rw e refl

  modify_absent :
      (slot == nil_node) ≡ true → modify b id new_price new_qty out ≡ some (b, amends, out)
  unfolding modify
  modify_absent e = rw (unknown e, e) refl

  amends_cancel : (slot == nil_node) ≡ false → leb_ℤ new_qty (pos 0) ≡ true → amends ≡ true
  amends_cancel e f = rw (known e, f) refl

  amends_inside : (slot == nil_node) ≡ false → in_band b new_price ≡ true → amends ≡ true
  amends_inside e f = rw (known e, f) (either (leb_ℤ new_qty (pos 0)))
    where
      either : (c : Bool) → (c || true) ≡ true
      either true = refl
      either false = refl

  amends_outside : leb_ℤ new_qty (pos 0) ≡ false → in_band b new_price ≡ false → amends ≡ false
  amends_outside e f = rw (e, f) (never (has_order b id))
    where
      never : (c : Bool) → (c && false) ≡ false
      never true = refl
      never false = refl

  -- On a book in order, with fewer nodes than the slab can number and an index of fewer than 2 ^ 60
  -- cells, `modify` always returns, with a book in order. It returns true when the id has an order and
  -- either the new quantity is not positive, a cancellation, or the new price is in the band; otherwise
  -- it returns false and the book is as it was.
  pub modify_lem : Amended (modify b id new_price new_qty out)
  modify_lem = elim (Bool-cases (slot == nil_node)) [
    | inl absent ↦ (b, out, modify_absent absent, h, inr refl)
    | inr present ↦ elim (Bool-cases (leb_ℤ new_qty (pos 0))) [
      | inl cancels ↦
          let (ordered, answered, rest) = cancel_lem b id h in
          (
            (cancel b id).0,
            out,
            modify_cancels present cancels
                ∙ ap {B = Option (OrderBook × Bool × Option (List Trade))}
                    (λ (t : Bool). some ((cancel b id).0, t, out))
                    (answered ∙ known present ∙ sym (amends_cancel present cancels)),
            ordered,
            inl (amends_cancel present cancels),
          )
      | inr keeps ↦ elim (Bool-cases (in_band b new_price)) [
        | inr outside ↦ (
          b,
          out,
          modify_refuses present keeps outside ∙ as_told (amends_outside keeps outside),
          h,
          inr refl,
        )
        | inl inside ↦
            let yes_amends = amends_inside present inside in
            elim (Bool-cases (eqb_ℤ new_price node.price && leb_ℤ new_qty node.quantity)) [
              | inl smaller ↦ (
                reduce b slot new_qty,
                out,
                modify_reduces present keeps inside smaller ∙ as_told yes_amends,
                reduce-IsBook b id new_qty h present keeps,
                inl yes_amends,
              )
              | inr other ↦
                  let (r, run, ordered) = replace_lem in
                  (
                    r.book,
                    r.out,
                    modify_replaces present keeps inside other
                        ∙ ap amended run
                        ∙ as_told yes_amends,
                    ordered,
                    inl yes_amends,
                  )
            ]
      ]
    ]
  ]
