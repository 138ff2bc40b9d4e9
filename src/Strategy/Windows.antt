-- ===== src/Strategy/Windows.antt =====
-- The rolling sums of cpp/src/strategy.cpp and the sums of the last prices.
use native.Mathlib.Nat.{zero-mod, mod-lt, mod-add-mod, add-mod_right}
use high_frequency_trading.Base.{
  ℕ, zero, suc, ◌+◌, ◌-◌, ◌%◌, ◌≤◌, ◌<◌, ◌≡◌, refl, sym, ap, ◌∙◌, ◌≢◌, inl, inr, true, false, List,
  [], ◌∷◌, arith, ltb, leb, leb→le, ◌==◌, if◌then◌else◌, Bool-cases, get_or, set, length,
  get_or-set_self, get_or-set_ne, get_or-ge, length-set, length-replicate,
}
use high_frequency_trading.Base.Remainders.{slots_differ}
use high_frequency_trading.Base.Int.{ℤ, pos, ◌+ℤ◌, ◌-ℤ◌, int_laws}
use high_frequency_trading.Strategy.{State, no_state, ready, subtract, arrive, roll}

-- The sum of the last `w` prices of a history that has the newest first.
unfoldable pub recent : ℕ → List ℤ → ℤ
recent zero ps = pos 0
recent (suc w) [] = pos 0
recent (suc w) (p ∷ ps) = p +ℤ recent w ps

recent-suc : (w : ℕ) (ps : List ℤ) → recent (suc w) ps ≡ recent w ps +ℤ get_or ps w (pos 0)
unfolding recent
recent-suc zero [] = omega int_laws
recent-suc zero (p ∷ ps) = omega int_laws
recent-suc (suc w) [] = omega int_laws
recent-suc (suc w) (p ∷ ps) = rw (recent-suc w ps) (omega int_laws)

replaced : (a b p : ℤ) → p +ℤ a ≡ (a +ℤ b -ℤ b) +ℤ p
replaced a b p = omega int_laws

enlarged : (a p : ℤ) → p +ℤ a ≡ (a +ℤ pos 0) +ℤ p
enlarged a p = omega int_laws

next : (n : ℕ) → n + 1 ≡ suc n
next n = omega arith

-- One price more enters the window, and the oldest of a full window leaves it.
recent-push :
    (w : ℕ) (p : ℤ) (ps : List ℤ)
    → 0 < w
    → recent w (p ∷ ps)
      ≡ (if leb w (length ps) then recent w ps -ℤ get_or ps (w - 1) (pos 0) else recent w ps) +ℤ p
unfolding recent
recent-push zero p ps h = absurd (omega arith)
recent-push (suc w) p ps h = elim (Bool-cases (leb (suc w) (length ps))) [
  | inl full ↦
      let same : suc w - 1 ≡ w = omega arith in
      rw (full, same, recent-suc w ps) (replaced (recent w ps) (get_or ps w (pos 0)) p)
  | inr part ↦
      let none_there : get_or ps w (pos 0) ≡ pos 0 = get_or-ge ps w (pos 0) (ground arith) in
      rw (part, recent-suc w ps, none_there) (enlarged (recent w ps) p)
]

module _ (fast slow : ℕ) where
  -- The window's state after the prices of a history.
  pub record Rolled (ps : List ℤ) (s : State) : Type 0 where
    pub ring_lem : length s.ring ≡ slow
    pub head_lem : s.head ≡ length ps % slow
    pub filled_lem : s.filled ≡ (if ltb (length ps) slow then length ps else slow)
    pub slow_lem : s.slow_sum ≡ recent slow ps
    pub fast_lem : s.fast_sum ≡ recent fast ps
    pub cells :
        (i : ℕ)
        → i < length ps
        → i < slow
        → get_or s.ring ((length ps - 1 - i) % slow) (pos 0) ≡ get_or ps i (pos 0)

  module _ (positive : 0 < fast) (shorter : fast < slow) (ps : List ℤ) (s : State)
      (v : Rolled ps s) where
    -- The place of a price that is `i` prices old.
    place_of :
        (i : ℕ)
        → i < length ps
        → i < slow
        → (length ps + slow - 1 - i) % slow ≡ (length ps - 1 - i) % slow
    place_of i known near =
        let e : length ps + slow - 1 - i ≡ (length ps - 1 - i) + slow = omega arith in
        ap (λ n. n % slow) e ∙ add-mod_right (length ps - 1 - i) slow

    -- The head of a full ring is on the oldest price.
    oldest : slow ≤ length ps → get_or s.ring s.head (pos 0) ≡ get_or ps (slow - 1) (pos 0)
    oldest full =
        let e : length ps ≡ length ps + slow - 1 - (slow - 1) = omega arith in
        rw (v.head_lem) (
          ap (λ n. get_or s.ring n (pos 0))
            (ap (λ n. n % slow) e ∙ place_of (slow - 1) (omega arith) (omega arith))
          ∙ v.cells (slow - 1) (omega arith) (omega arith))

    -- The price that leaves the fast window.
    leaving :
        fast ≤ length ps
        → get_or s.ring ((s.head + slow - fast) % slow) (pos 0) ≡ get_or ps (fast - 1) (pos 0)
    leaving full =
        let split : s.head + slow - fast ≡ length ps % slow + (slow - fast) =
          omega (arith, v.head_lem) in
        let joined : length ps + (slow - fast) ≡ length ps + slow - 1 - (fast - 1) = omega arith in
        ap (λ n. get_or s.ring n (pos 0))
          (ap (λ n. n % slow) split
            ∙ mod-add-mod (length ps) slow (slow - fast)
            ∙ ap (λ n. n % slow) joined
            ∙ place_of (fast - 1) (omega arith) (omega arith))
        ∙ v.cells (fast - 1) (omega arith) (omega arith)

    slow_after : (price : ℤ) → (roll fast slow s price).slow_sum ≡ recent slow (price ∷ ps)
    unfolding roll arrive subtract
    slow_after price = elim (Bool-cases (leb slow (length ps))) [
      | inl full ↦
          let at_end : (s.filled == slow) ≡ true = ground (arith, v.filled_lem) in
          rw
            (
              at_end,
              v.slow_lem,
              oldest (leb→le slow (length ps) full),
              recent-push slow price ps (omega arith),
              full,
            )
            refl
      | inr part ↦
          let before_end : (s.filled == slow) ≡ false = ground (arith, v.filled_lem) in
          rw (before_end, v.slow_lem, recent-push slow price ps (omega arith), part) refl
    ]

    fast_after : (price : ℤ) → (roll fast slow s price).fast_sum ≡ recent fast (price ∷ ps)
    unfolding roll arrive subtract
    fast_after price = elim (Bool-cases (leb fast (length ps))) [
      | inl full ↦
          let enough : leb fast s.filled ≡ true = ground (arith, v.filled_lem) in
          rw
            (
              enough,
              v.fast_lem,
              leaving (leb→le fast (length ps) full),
              recent-push fast price ps positive,
              full,
            )
            refl
      | inr part ↦
          let too_few : leb fast s.filled ≡ false = ground (arith, v.filled_lem) in
          rw (too_few, v.fast_lem, recent-push fast price ps positive, part) refl
    ]

    -- The price goes to a place that no other price of the window has.
    cells_after :
        (price : ℤ) (i : ℕ)
        → i < suc (length ps)
        → i < slow
        → get_or (set s.ring s.head price) ((suc (length ps) - 1 - i) % slow) (pos 0)
          ≡ get_or (price ∷ ps) i (pos 0)
    cells_after price zero known near =
        let below : length ps % slow < slow = mod-lt (length ps) (omega arith) in
        let e : suc (length ps) - 1 - 0 ≡ length ps = omega arith in
        rw (e, v.head_lem)
          (get_or-set_self s.ring (length ps % slow) price (pos 0)
            (omega (arith, v.ring_lem, below)))
    cells_after price (suc i) known near =
        let e : suc (length ps) - 1 - suc i ≡ length ps - 1 - i = omega arith in
        let apart : length ps % slow ≢ (length ps - 1 - i) % slow = λ same.
          slots_differ slow (length ps - 1 - i) (length ps) (omega arith) (omega arith)
            (omega arith) (sym same) in
        rw (e, v.head_lem)
          (get_or-set_ne s.ring (length ps % slow) ((length ps - 1 - i) % slow) price (pos 0) apart
            ∙ v.cells i (omega arith) (omega arith))

    -- One price more.
    pub roll-Rolled : (price : ℤ) → Rolled (price ∷ ps) (roll fast slow s price)
    unfolding roll arrive subtract
    roll-Rolled price = record {
      ring_lem = length-set s.ring s.head price ∙ v.ring_lem;
      head_lem =
          rw (v.head_lem) (mod-add-mod (length ps) slow 1 ∙ ap (λ n. n % slow) (next (length ps)));
      filled_lem = ground (arith, v.filled_lem);
      slow_lem = slow_after price;
      fast_lem = fast_after price;
      cells = cells_after price;
    }

recent-nil : (w : ℕ) → recent w [] ≡ pos 0
unfolding recent
recent-nil zero = refl
recent-nil (suc w) = refl

-- A symbol's state before its first price.
pub ready-Rolled : (fast slow : ℕ) → 0 < slow → Rolled fast slow [] (ready slow no_state)
unfolding ready
ready-Rolled fast slow h = record {
  ring_lem = length-replicate slow (pos 0);
  head_lem = sym (zero-mod slow);
  filled_lem = ground arith;
  slow_lem = sym (recent-nil slow);
  fast_lem = sym (recent-nil fast);
  cells = λ i known near. absurd (omega arith);
}
