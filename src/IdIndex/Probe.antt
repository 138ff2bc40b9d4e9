-- ===== src/IdIndex/Probe.antt =====
-- The probe loop of the id index (cpp/src/order_book.cpp, cpp/src/oms.cpp): its stops and the
-- cells that it passes.
use Prim.Native.Nat.{bit_and}
use native.Mathlib.Nat.{mod-add-mod, mod-eq_of_lt, add-mod_right, mod-lt}
use native.Mathlib.Decide.{dec_lt}
use high_frequency_trading.Base.{
  ℕ, zero, suc, ◌+◌, ◌-◌, ◌%◌, ◌<◌, ◌≡◌, sym, ap, ◌∙◌, ◌≢◌, inl, inr, Bool, true, false, none, some,
  List, arith, ◌==◌, get_or, length, Bool-cases, Option-cases,
}
use high_frequency_trading.IdIndex.{walk, empty_key, ends_lookup}

module _ (keys : List ℕ) (mask : ℕ) where
  abbrev pub key_at : ℕ → ℕ
  key_at i = get_or keys i empty_key

  abbrev pub next : ℕ → ℕ
  next i = bit_and (i + 1) mask

  -- From `i`, `j` steps over cells that are not empty lead to `p`.
  abbrev pub Chain : ℕ → ℕ → ℕ → Type 0
  Chain zero i p = i ≡ p
  Chain (suc j) i p = (key_at i ≢ empty_key) × Chain j (next i) p

  -- The mask is that of a table of this length.
  abbrev pub IsMask : Type 0
  IsMask = (x : ℕ) → bit_and x mask ≡ x % length keys

-- A walk ends at a cell that passes its test.
pub walk_stop :
    (stop : ℕ → Bool) (keys : List ℕ) (mask fuel i q : ℕ)
    → walk stop keys mask fuel i ≡ some q
    → stop (key_at keys mask q) ≡ true
unfolding walk
walk_stop stop keys mask zero i q e = cc
walk_stop stop keys mask (suc fuel) i q e =
    ground (arith, walk_stop stop keys mask fuel (next keys mask i) q)

-- It has passed only cells that are not empty, if it stops at empty cells.
pub walk-Chain :
    (stop : ℕ → Bool) (keys : List ℕ) (mask fuel i q : ℕ)
    → stop empty_key ≡ true
    → walk stop keys mask fuel i ≡ some q
    → (j : ℕ) × (j < fuel) × Chain keys mask j i q
unfolding walk
walk-Chain stop keys mask zero i q s e = cc
walk-Chain stop keys mask (suc fuel) i q s e = elim (Bool-cases (stop (key_at keys mask i))) [
  | inl hit ↦ (0, omega arith, ground arith)
  | inr miss ↦
      let (j, below, chain) =
        walk-Chain stop keys mask fuel (next keys mask i) q s (ground arith) in
      (suc j, omega arith, ((λ z. cc (ap stop z)), chain))
]

-- A lookup that starts on a chain to the id finds it, at a cell that holds it.
pub walk-ends_lookup :
    (id : ℕ) (keys : List ℕ) (mask fuel j i p : ℕ)
    → id ≢ empty_key
    → Chain keys mask j i p
    → key_at keys mask p ≡ id
    → j < fuel
    → (q : ℕ) × (walk (ends_lookup id) keys mask fuel i ≡ some q) × (key_at keys mask q ≡ id)
unfolding walk
walk-ends_lookup id keys mask zero j i p ne c e h = elim h [ ]
walk-ends_lookup id keys mask (suc fuel) zero i p ne c e h = (i, ground arith, ground arith)
walk-ends_lookup id keys mask (suc fuel) (suc j) i p ne c e h =
    elim (Bool-cases (key_at keys mask i == id)) [
      | inl hit ↦ (i, ground arith, ground arith)
      | inr miss ↦
          let (q, found, holds) =
            walk-ends_lookup id keys mask fuel j (next keys mask i) p ne c.1 e (omega arith) in
          (q, ground arith, holds)
    ]

-- A walk that runs out of fuel has seen every cell that many steps ahead, round the table.
walk-none :
    (stop : ℕ → Bool) (keys : List ℕ) (mask fuel i j p : ℕ)
    → IsMask keys mask
    → i < length keys
    → walk stop keys mask fuel i ≡ none
    → j < fuel
    → p ≡ (i + j) % length keys
    → stop (key_at keys mask p) ≡ false
unfolding walk
walk-none stop keys mask zero i j p m b e h at = elim h [ ]
walk-none stop keys mask (suc fuel) i zero p m b e h at = rw here (ground arith)
  where
    here : p ≡ i
    here = at ∙ ap (λ z. z % length keys) (omega arith) ∙ mod-eq_of_lt b
walk-none stop keys mask (suc fuel) i (suc j) p m b e h at =
    walk-none stop keys mask fuel (next keys mask i) j p m
      (rw (m (i + 1)) (mod-lt (i + 1) (omega arith))) (ground arith) (omega arith) (at ∙ shift)
  where
    shift : (i + suc j) % length keys ≡ (next keys mask i + j) % length keys
    shift = rw (m (i + 1), mod-add-mod) (ap (λ z. z % length keys) (omega arith))

-- Going round the table from `i`, every cell is met.
round_to : (i p n : ℕ) → i < n → p < n → (j : ℕ) × (j < n) × (p ≡ (i + j) % n)
round_to i p n b c = elim (dec_lt p i) [
  | no ahead ↦
      (p - i, omega arith, sym (mod-eq_of_lt (omega arith)) ∙ ap (λ z. z % n) (omega arith))
  | yes behind ↦ (
    p + n - i,
    omega arith,
    sym (mod-eq_of_lt c) ∙ sym (add-mod_right p n) ∙ ap (λ z. z % n) (omega arith),
  )
]

-- In a table where some cell passes the test a walk of as many steps as there are cells ends.
pub walk_total :
    (stop : ℕ → Bool) (keys : List ℕ) (mask i p : ℕ)
    → IsMask keys mask
    → i < length keys
    → p < length keys
    → stop (key_at keys mask p) ≡ true
    → (q : ℕ) × (walk stop keys mask (length keys) i ≡ some q)
walk_total stop keys mask i p m b c s =
    let (j, below, at) = round_to i p (length keys) b c in
    elim (Option-cases (walk stop keys mask (length keys) i)) [
      | inl out ↦ absurd (cc (walk-none stop keys mask (length keys) i j p m b out below at))
      | inr found ↦ found
    ]

-- A walk stays within the table.
pub walk-lt :
    (stop : ℕ → Bool) (keys : List ℕ) (mask fuel i q : ℕ)
    → IsMask keys mask
    → i < length keys
    → walk stop keys mask fuel i ≡ some q
    → q < length keys
unfolding walk
walk-lt stop keys mask zero i q m b e = cc
walk-lt stop keys mask (suc fuel) i q m b e = elim (Bool-cases (stop (key_at keys mask i))) [
  | inl hit ↦ ground arith
  | inr miss ↦
      walk-lt stop keys mask fuel (next keys mask i) q m
        (rw (m (i + 1)) (mod-lt (i + 1) (omega arith))) (ground arith)
]
