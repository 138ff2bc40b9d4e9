-- ===== src/Book/Slots.antt =====
-- Lists of slots of the order book's slab (cpp/src/order_book.cpp): membership, and a slot taken out.
use high_frequency_trading.Base.{
  ℕ, zero, suc, ◌<◌, ◌≤◌, ◌≡◌, refl, ap, sym, ◌∙◌, subst, ◌≢◌, ◌⊎◌, inl, inr, List, [], ◌∷◌, ◌++◌,
  arith, ◌==◌, length, Bool-cases,
}
use high_frequency_trading.Book.Queues.{Apart, Distinct, Apart-append, last_of}

abbrev pub In : ℕ → List ℕ → Type 0
In x [] = ⊥
In x (s ∷ ss) = (x ≡ s) ⊎ In x ss

pub In-append_left : (x : ℕ) (xs ys : List ℕ) → In x xs → In x (xs ++ ys)
In-append_left x [] ys h = elim h [ ]
In-append_left x (s ∷ xs) ys (inl e) = inl e
In-append_left x (s ∷ xs) ys (inr r) = inr (In-append_left x xs ys r)

pub In-append_right : (x : ℕ) (xs ys : List ℕ) → In x ys → In x (xs ++ ys)
In-append_right x [] ys h = h
In-append_right x (s ∷ xs) ys h = inr (In-append_right x xs ys h)

pub In-append : (x : ℕ) (xs ys : List ℕ) → In x (xs ++ ys) → In x xs ⊎ In x ys
In-append x [] ys h = inr h
In-append x (s ∷ xs) ys (inl e) = inl (inl e)
In-append x (s ∷ xs) ys (inr r) = elim (In-append x xs ys r) [
  | inl l ↦ inl (inr l)
  | inr r' ↦ inr r'
]

pub Apart-In : (x y : ℕ) (xs : List ℕ) → Apart x xs → In y xs → x ≢ y
Apart-In x y [] a h z = elim h [ ]
Apart-In x y (s ∷ xs) (ne, a) (inl e) z = ne (z ∙ e)
Apart-In x y (s ∷ xs) (ne, a) (inr r) z = Apart-In x y xs a r z

pub Apart-of : (x : ℕ) (xs : List ℕ) → ((y : ℕ) → In y xs → x ≢ y) → Apart x xs
Apart-of x [] h = tt
Apart-of x (s ∷ xs) h = (h s (inl refl), Apart-of x xs (λ y r. h y (inr r)))

pub split_at :
    (x : ℕ) (xs : List ℕ) → In x xs → (ss : List ℕ) × (bs : List ℕ) × (xs ≡ ss ++ (x ∷ bs))
split_at x [] h = elim h [ ]
split_at x (s ∷ xs) (inl e) = ([], xs, ap (λ (y : ℕ). y ∷ xs) (sym e))
split_at x (s ∷ xs) (inr r) =
    let (ss, bs, e) = split_at x xs r in (s ∷ ss, bs, ap (λ (ys : List ℕ). s ∷ ys) e)

-- The slot taken out of a list is in what is left only if it stood there twice.
pub removed-Apart : (x : ℕ) (ss bs : List ℕ) → Distinct (ss ++ (x ∷ bs)) → Apart x (ss ++ bs)
removed-Apart x [] bs (a, d) = a
removed-Apart x (s ∷ ss) bs (a, d) =
    ((λ e. (Apart-append s ss (x ∷ bs) a).1.0 (sym e)), removed-Apart x ss bs d)

pub Apart-removed : (y x : ℕ) (ss bs : List ℕ) → Apart y (ss ++ (x ∷ bs)) → Apart y (ss ++ bs)
Apart-removed y x [] bs (ne, a) = a
Apart-removed y x (s ∷ ss) bs (ne, a) = (ne, Apart-removed y x ss bs a)

pub Distinct-removed : (x : ℕ) (ss bs : List ℕ) → Distinct (ss ++ (x ∷ bs)) → Distinct (ss ++ bs)
Distinct-removed x [] bs (a, d) = d
Distinct-removed x (s ∷ ss) bs (a, d) = (Apart-removed s x ss bs a, Distinct-removed x ss bs d)

pub In-removed : (y x : ℕ) (ss bs : List ℕ) → In y (ss ++ bs) → In y (ss ++ (x ∷ bs))
In-removed y x ss bs h = elim (In-append y ss bs h) [
  | inl l ↦ In-append_left y ss (x ∷ bs) l
  | inr r ↦ In-append_right y ss (x ∷ bs) (inr r)
]

pub In-left : (y x : ℕ) (ss bs : List ℕ) → y ≢ x → In y (ss ++ (x ∷ bs)) → In y (ss ++ bs)
In-left y x ss bs ne h = elim (In-append y ss (x ∷ bs) h) [
  | inl l ↦ In-append_left y ss bs l
  | inr (inl e) ↦ absurd (ne e)
  | inr (inr r) ↦ In-append_right y ss bs r
]

pub In-middle : (x : ℕ) (ss bs : List ℕ) → In x (ss ++ (x ∷ bs))
In-middle x ss bs = In-append_right x ss (x ∷ bs) (inl refl)

pub In_or_not : (x : ℕ) (xs : List ℕ) → In x xs ⊎ (In x xs → ⊥)
In_or_not x [] = inr (λ z. z)
In_or_not x (s ∷ xs) = elim (Bool-cases (x == s)) [
  | inl e ↦ inl (inl (ground arith))
  | inr n ↦ elim (In_or_not x xs) [
    | inl m ↦ inl (inr m)
    | inr o ↦ inr (λ m. elim m [ inl e ↦ absurd (ground arith) | inr m' ↦ o m' ])
  ]
]

pub length-middle : (x : ℕ) (ss bs : List ℕ) → length (ss ++ (x ∷ bs)) ≡ suc (length (ss ++ bs))
length-middle x [] bs = refl
length-middle x (s ∷ ss) bs = ap suc (length-middle x ss bs)

-- Distinct slots below a bound are no more than the bound.
pub Distinct-bound :
    (n : ℕ) (xs : List ℕ) → Distinct xs → ((x : ℕ) → In x xs → x < n) → length xs ≤ n
Distinct-bound zero [] d h = omega arith
Distinct-bound zero (x ∷ xs) d h = absurd (omega (arith, h x (inl refl)))
Distinct-bound (suc n) xs d h = elim (In_or_not n xs) [
  | inl m ↦
      let (ss, bs, e) = split_at n xs m in
      let d' = subst Distinct e d in
      let apart = removed-Apart n ss bs d' in
      let rest = Distinct-bound n (ss ++ bs) (Distinct-removed n ss bs d') (λ x l.
        smaller x (h x (subst (In x) (sym e) (In-removed x n ss bs l)))
          (Apart-In n x (ss ++ bs) apart l)) in
      omega (arith, ap length e, length-middle n ss bs, rest)
  | inr o ↦
      let rest =
        Distinct-bound n xs d
          (λ x l. smaller x (h x l) (λ z. o (subst (λ y. In y xs) (sym z) l))) in
      omega (arith, rest)
]
  where
    smaller : (x : ℕ) → x < suc n → n ≢ x → x < n
    smaller x l ne = ground arith

pub last_in : (s : ℕ) (ss : List ℕ) → In (last_of s ss) (s ∷ ss)
last_in s [] = inl refl
last_in s (y ∷ ys) = inr (last_in y ys)
