-- ===== src/Base/Lists.antt =====
-- Vectors as lists that are measured and indexed by native numbers.
use Prim.Native.Nat.{ℕ, zero, suc, ◌+◌, ◌-◌, ◌≤◌, ◌<◌}
use mathlib.Core.Path.{◌≡◌, refl, ap}
use mathlib.Core.Logic.{◌≢◌, inl, inr}
use mathlib.Core.List.{List, [], ◌∷◌, ◌++◌}
use native.Mathlib.Omega.{arith}
use high_frequency_trading.Base.Tests.{◌==◌, leb, if◌then◌else◌, Bool-cases}

module _ {ℓ} {A : Type ℓ} where
  abbrev pub length : List A → ℕ
  length [] = 0
  length (x ∷ xs) = suc (length xs)

  -- A read out of range gives the default.
  abbrev pub get_or : List A → ℕ → A → A
  get_or [] i d = d
  get_or (x ∷ xs) zero d = x
  get_or (x ∷ xs) (suc i) d = get_or xs i d

  -- A write out of range changes nothing.
  abbrev pub set : List A → ℕ → A → List A
  set [] i v = []
  set (x ∷ xs) zero v = v ∷ xs
  set (x ∷ xs) (suc i) v = x ∷ set xs i v

  abbrev pub replicate : ℕ → A → List A
  replicate zero a = []
  replicate (suc n) a = a ∷ replicate n a

  pub length-append : (xs ys : List A) → length (xs ++ ys) ≡ length xs + length ys
  length-append [] ys = omega arith
  length-append (x ∷ xs) ys = omega (arith, length-append xs ys)

  pub length-replicate : (n : ℕ) (a : A) → length (replicate n a) ≡ n
  length-replicate zero a = refl
  length-replicate (suc n) a = ap suc (length-replicate n a)

  pub length-set : (xs : List A) (i : ℕ) (v : A) → length (set xs i v) ≡ length xs
  length-set [] i v = refl
  length-set (x ∷ xs) zero v = refl
  length-set (x ∷ xs) (suc i) v = ap suc (length-set xs i v)

  pub get_or-replicate : (n i : ℕ) (a : A) → get_or (replicate n a) i a ≡ a
  get_or-replicate zero i a = refl
  get_or-replicate (suc n) zero a = refl
  get_or-replicate (suc n) (suc i) a = get_or-replicate n i a

  pub get_or-set_self :
      (xs : List A) (i : ℕ) (v d : A) → i < length xs → get_or (set xs i v) i d ≡ v
  get_or-set_self [] i v d h = elim h [ ]
  get_or-set_self (x ∷ xs) zero v d h = refl
  get_or-set_self (x ∷ xs) (suc i) v d h = get_or-set_self xs i v d (omega arith)

  pub get_or-set_ne :
      (xs : List A) (i j : ℕ) (v d : A) → i ≢ j → get_or (set xs i v) j d ≡ get_or xs j d
  get_or-set_ne [] i j v d h = refl
  get_or-set_ne (x ∷ xs) zero zero v d h = absurd (h refl)
  get_or-set_ne (x ∷ xs) zero (suc j) v d h = refl
  get_or-set_ne (x ∷ xs) (suc i) zero v d h = refl
  get_or-set_ne (x ∷ xs) (suc i) (suc j) v d h = get_or-set_ne xs i j v d (λ e. h (ap suc e))

  -- Out of range the default is read.
  pub get_or-ge : (xs : List A) (i : ℕ) (d : A) → length xs ≤ i → get_or xs i d ≡ d
  get_or-ge [] i d h = refl
  get_or-ge (x ∷ xs) zero d h = absurd (omega arith)
  get_or-ge (x ∷ xs) (suc i) d h = get_or-ge xs i d (omega arith)

  pub get_or-set :
      (xs : List A) (i j : ℕ) (v d : A)
      → i < length xs
      → get_or (set xs i v) j d ≡ (if i == j then v else get_or xs j d)
  get_or-set [] i j v d h = elim h [ ]
  get_or-set (x ∷ xs) zero zero v d h = refl
  get_or-set (x ∷ xs) zero (suc j) v d h = ground arith
  get_or-set (x ∷ xs) (suc i) zero v d h = ground arith
  get_or-set (x ∷ xs) (suc i) (suc j) v d h = ground (arith, get_or-set xs i j v d (omega arith))

-- `v.resize(n, a)` for a vector that grows.
module _ {ℓ} {A : Type ℓ} where
  abbrev pub grow : List A → ℕ → A → List A
  grow xs n a = xs ++ replicate (n - length xs) a

  get_or-padded : (xs : List A) (k i : ℕ) (a : A) → get_or (xs ++ replicate k a) i a ≡ get_or xs i a
  get_or-padded [] k i a = get_or-replicate k i a
  get_or-padded (x ∷ xs) k zero a = refl
  get_or-padded (x ∷ xs) k (suc i) a = get_or-padded xs k i a

  pub get_or-grow : (xs : List A) (n i : ℕ) (a : A) → get_or (grow xs n a) i a ≡ get_or xs i a
  get_or-grow xs n i a = get_or-padded xs (n - length xs) i a

  pub length-grow : (xs : List A) (n : ℕ) (a : A) → length xs ≤ n → length (grow xs n a) ≡ n
  length-grow xs n a h =
      omega
        (arith, length-append xs (replicate (n - length xs) a), length-replicate (n - length xs) a)

  -- A vector that is long enough to be written at `i`.
  abbrev pub reach : List A → ℕ → A → List A
  reach xs i a = if leb (length xs) i then grow xs (i + 1) a else xs

  pub length-reach : (xs : List A) (i : ℕ) (a : A) → i < length (reach xs i a)
  length-reach xs i a = elim (Bool-cases (leb (length xs) i)) [
    | inl short ↦ rw short (omega (arith, length-grow xs (i + 1) a (ground arith)))
    | inr long ↦ rw long (ground arith)
  ]

  pub get_or-reach : (xs : List A) (i j : ℕ) (a : A) → get_or (reach xs i a) j a ≡ get_or xs j a
  get_or-reach xs i j a = elim (Bool-cases (leb (length xs) i)) [
    | inl short ↦ rw short (get_or-grow xs (i + 1) j a)
    | inr long ↦ rw long refl
  ]

  pub get_or-set-reach :
      (xs : List A) (i j : ℕ) (v a : A)
      → get_or (set (reach xs i a) i v) j a ≡ (if i == j then v else get_or xs j a)
  get_or-set-reach xs i j v a =
      rw (get_or-set (reach xs i a) i j v a (length-reach xs i a), get_or-reach xs i j a) refl

  pub get_or-append_left :
      (xs ys : List A) (i : ℕ) (a : A) → i < length xs → get_or (xs ++ ys) i a ≡ get_or xs i a
  get_or-append_left [] ys i a h = elim h [ ]
  get_or-append_left (x ∷ xs) ys zero a h = refl
  get_or-append_left (x ∷ xs) ys (suc i) a h = get_or-append_left xs ys i a (omega arith)

  pub get_or-append_last : (xs : List A) (x a : A) → get_or (xs ++ (x ∷ [])) (length xs) a ≡ x
  get_or-append_last [] x a = refl
  get_or-append_last (y ∷ xs) x a = get_or-append_last xs x a

  -- The list is a prefix of the other, when it is no longer and agrees with it throughout.
  pub prefix_of_get_or :
      (xs ys : List A) (a : A)
      → length xs ≤ length ys
      → ((i : ℕ) → i < length xs → get_or xs i a ≡ get_or ys i a)
      → (rest : List A) × (ys ≡ xs ++ rest)
  prefix_of_get_or [] ys a h same = (ys, refl)
  prefix_of_get_or (x ∷ xs) [] a h same = absurd (omega arith)
  prefix_of_get_or (x ∷ xs) (y ∷ ys) a h same =
      let (rest, e) =
        prefix_of_get_or xs ys a (omega arith) (λ i below. same (suc i) (omega arith)) in
      (rest, consed x y xs ys rest (same 0 (omega arith)) e)
    where
      consed : (x y : A) (xs ys rest : List A) → x ≡ y → ys ≡ xs ++ rest → y ∷ ys ≡ x ∷ (xs ++ rest)
      consed x y xs ys rest p q = cc
