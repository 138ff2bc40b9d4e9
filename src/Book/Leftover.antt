-- ===== src/Book/Leftover.antt =====
-- What price-time priority (the specification of OrderBook::match, cpp/src/order_book.cpp) leaves of a
-- side: an aggressor with quantity left has emptied every level that its limit allows.
use high_frequency_trading.Base.{
  ◌≡◌, refl, ap, sym, ◌∙◌, subst, inl, inr, true, false, Bool, List, [], ◌∷◌, Bool-cases,
}
use high_frequency_trading.Base.Int.{ℤ, pos, leb_ℤ}
use high_frequency_trading.Book.Records.{SelfMatchPolicy, OrderNode}
use high_frequency_trading.Book.Match.{Aggressor, beyond_limit}
use high_frequency_trading.Book.Priority.{
  Filled, Swept, fill_queue, fill_levels, Level, untouched, is_empty,
}
use high_frequency_trading.Book.LevelRounds.{
  fill_queue-Standing, levels_nil, levels_full, levels_empty, levels_limit, levels_stop, levels_on,
}

-- Each level that keeps an order has the property.
abbrev pub Kept : (Level → Type 0) → List Level → List (List OrderNode) → Type 0
Kept P (l ∷ ls) (o ∷ os) = (is_empty o ≡ false → P l) × Kept P ls os
Kept P _ _ = Unit {0}

abbrev pub Past : Aggressor → Level → Type 0
Past a l = beyond_limit a l.price ≡ true

-- Levels that follow one beyond the limit are beyond it.
abbrev pub Ranked : Aggressor → List Level → Type 0
Ranked a [] = Unit {0}
Ranked a (l ∷ ls) = (beyond_limit a l.price ≡ true → Kept (Past a) ls (untouched ls)) × Ranked a ls

spent_left :
    (p : SelfMatchPolicy) (a : Aggressor) (qty : ℤ) (ls : List Level)
    → leb_ℤ qty (pos 0) ≡ true
    → (fill_levels p a qty ls).left ≡ qty
spent_left p a qty [] e = ap (λ (s : Swept). s.left) (levels_nil p a qty)
spent_left p a qty (l ∷ ls) e = ap (λ (s : Swept). s.left) (levels_full p a qty l ls e)

clash : {u : Bool} → u ≡ true → u ≡ false → ⊥
clash e f = cc

-- A level that the aggressor trades with keeps no order when some quantity is left.
after_level :
    (p : SelfMatchPolicy) (a : Aggressor) (qty : ℤ) (l : Level) (ls : List Level)
    → leb_ℤ qty (pos 0) ≡ false
    → is_empty l.orders ≡ false
    → beyond_limit a l.price ≡ false
    → leb_ℤ (fill_levels p a qty (l ∷ ls)).left (pos 0) ≡ false
    → (fill_levels p a qty (l ∷ ls)).halted ≡ false
    → (leb_ℤ (fill_levels p a (fill_queue p a l.price qty l.orders).qty ls).left (pos 0) ≡ false
        → (fill_levels p a (fill_queue p a l.price qty l.orders).qty ls).halted ≡ false
        → Kept (Past a) ls (fill_levels p a (fill_queue p a l.price qty l.orders).qty ls).book)
    → Kept (Past a) (l ∷ ls) (fill_levels p a qty (l ∷ ls)).book
after_level p a qty l ls some_qty busy within left going later =
    elim (fill_queue-Standing p a l.price qty l.orders) [
      | inl (halts, some_rest) ↦
          let e = levels_stop p a qty l ls some_qty busy within halts in
          absurd (clash refl (sym (ap (λ (s : Swept). s.halted) e) ∙ going))
      | inr (on, stands) ↦
          let e = levels_on p a qty l ls some_qty busy within on in
          let left' = subst (λ (s : Swept). leb_ℤ s.left (pos 0) ≡ false) e left in
          let going' = sym (ap (λ (s : Swept). s.halted) e) ∙ going in
          let f : Filled = fill_queue p a l.price qty l.orders in
          elim stands [
            | inl spent ↦ absurd (
                clash spent
                  (subst (λ z. leb_ℤ z (pos 0) ≡ false) (spent_left p a f.qty ls spent) left'))
            | inr none_rest ↦
                subst (λ (s : Swept). Kept (Past a) (l ∷ ls) s.book) (sym e)
                  ((λ c. absurd (clash (ap is_empty none_rest) c)), later left' going')
          ]
    ]

pub fill_levels-Kept :
    (p : SelfMatchPolicy) (a : Aggressor) (qty : ℤ) (ls : List Level)
    → Ranked a ls
    → leb_ℤ (fill_levels p a qty ls).left (pos 0) ≡ false
    → (fill_levels p a qty ls).halted ≡ false
    → Kept (Past a) ls (fill_levels p a qty ls).book
fill_levels-Kept p a qty [] r left going = tt
fill_levels-Kept p a qty (l ∷ ls) (here, r) left going = elim (Bool-cases (leb_ℤ qty (pos 0))) [
  | inl full ↦
      absurd
        (clash full (subst (λ z. leb_ℤ z (pos 0) ≡ false) (spent_left p a qty (l ∷ ls) full) left))
  | inr some_qty ↦ elim (Bool-cases (is_empty l.orders)) [
    | inl bare ↦
        let e = levels_empty p a qty l ls some_qty bare in
        subst (λ (s : Swept). Kept (Past a) (l ∷ ls) s.book) (sym e)
          (
            (λ f. cc),
            fill_levels-Kept p a qty ls r
                (subst (λ (s : Swept). leb_ℤ s.left (pos 0) ≡ false) e left)
                (sym (ap (λ (s : Swept). s.halted) e) ∙ going),
          )
    | inr busy ↦ elim (Bool-cases (beyond_limit a l.price)) [
      | inl past ↦
          let e = levels_limit p a qty l ls some_qty busy past in
          subst (λ (s : Swept). Kept (Past a) (l ∷ ls) s.book) (sym e) ((λ _. past), here past)
      | inr within ↦ after_level p a qty l ls some_qty busy within left going (λ left' going'.
          fill_levels-Kept p a (fill_queue p a l.price qty l.orders).qty ls r left' going')
    ]
  ]
]

abbrev pub BusyBefore : Level → Type 0
BusyBefore l = is_empty l.orders ≡ false

untouched-Kept : (ls : List Level) → Kept BusyBefore ls (untouched ls)
untouched-Kept [] = tt
untouched-Kept (l ∷ ls) = ((λ e. e), untouched-Kept ls)

rest_was :
    (p : SelfMatchPolicy) (a : Aggressor) (price qty : ℤ) (ns : List OrderNode)
    → is_empty (fill_queue p a price qty ns).rest ≡ false
    → is_empty ns ≡ false
unfolding fill_queue
rest_was p a price qty [] e = e
rest_was p a price qty (n ∷ ns) e = refl

-- A level keeps an order only if it had one.
pub fill_levels-before :
    (p : SelfMatchPolicy) (a : Aggressor) (qty : ℤ) (ls : List Level)
    → Kept BusyBefore ls (fill_levels p a qty ls).book
fill_levels-before p a qty [] = tt
fill_levels-before p a qty (l ∷ ls) =
    let here = rest_was p a l.price qty l.orders in
    let f : Filled = fill_queue p a l.price qty l.orders in
    let still = fill_levels-before p a qty ls in
    let later = fill_levels-before p a f.qty ls in
    let as_was = untouched-Kept (l ∷ ls) in
    elim (Bool-cases (leb_ℤ qty (pos 0))) [
      | inl full ↦ moved (levels_full p a qty l ls full) as_was
      | inr some_qty ↦ elim (Bool-cases (is_empty l.orders)) [
        | inl bare ↦ moved (levels_empty p a qty l ls some_qty bare) ((λ e. cc), still)
        | inr busy ↦ elim (Bool-cases (beyond_limit a l.price)) [
          | inl past ↦ moved (levels_limit p a qty l ls some_qty busy past) as_was
          | inr within ↦ elim (Bool-cases f.stopped) [
            | inl halts ↦
                moved (levels_stop p a qty l ls some_qty busy within halts)
                  (here, untouched-Kept ls)
            | inr on ↦ moved (levels_on p a qty l ls some_qty busy within on) (here, later)
          ]
        ]
      ]
    ]
  where
    moved :
        {s : Swept}
        → fill_levels p a qty (l ∷ ls) ≡ s
        → Kept BusyBefore (l ∷ ls) s.book
        → Kept BusyBefore (l ∷ ls) (fill_levels p a qty (l ∷ ls)).book
    moved e k = subst (λ (t : Swept). Kept BusyBefore (l ∷ ls) t.book) (sym e) k
