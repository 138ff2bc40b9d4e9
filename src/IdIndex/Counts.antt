-- ===== src/IdIndex/Counts.antt =====
-- How often a key stands in the id index's vector of keys, under a write to one cell.
use high_frequency_trading.Base.{
  ℕ, zero, suc, ◌+◌, ◌<◌, ◌≤◌, ◌≡◌, ◌≢◌, inl, inr, Bool-cases, List, [], ◌∷◌, arith, ◌==◌,
  if◌then◌else◌, get_or, set, replicate, length,
}

abbrev pub indicator : ℕ → ℕ → ℕ
indicator k x = if x == k then 1 else 0

unfoldable pub occurrences : ℕ → List ℕ → ℕ
occurrences k [] = 0
occurrences k (x ∷ xs) = indicator k x + occurrences k xs

-- The old value leaves the count and the new one joins it.
pub occurrences-set :
    (k : ℕ) (xs : List ℕ) (i v d : ℕ)
    → i < length xs
    → occurrences k (set xs i v) + indicator k (get_or xs i d) ≡ occurrences k xs + indicator k v
unfolding occurrences
occurrences-set k [] i v d h = elim h [ ]
occurrences-set k (x ∷ xs) zero v d h = omega arith
occurrences-set k (x ∷ xs) (suc i) v d h = omega (arith, occurrences-set k xs i v d (omega arith))

-- A key that occurs stands somewhere.
pub occurs_at :
    (k : ℕ) (xs : List ℕ) (d : ℕ)
    → 0 < occurrences k xs
    → (p : ℕ) × (p < length xs) × (get_or xs p d ≡ k)
unfolding occurrences
occurs_at k [] d h = elim h [ ]
occurs_at k (x ∷ xs) d h = elim (Bool-cases (x == k)) [
  | inl hit ↦ (0, omega arith, ground arith)
  | inr miss ↦ let (p, below, at) = occurs_at k xs d (ground arith) in (suc p, omega arith, at)
]

pub occurrences-replicate : (n x k : ℕ) → occurrences k (replicate n x) ≡ (if x == k then n else 0)
unfolding occurrences
occurrences-replicate zero x k = ground arith
occurrences-replicate (suc n) x k = ground (arith, occurrences-replicate n x k)

pub occurrences-pos :
    (k : ℕ) (xs : List ℕ) (i d : ℕ) → i < length xs → get_or xs i d ≡ k → 0 < occurrences k xs
unfolding occurrences
occurrences-pos k [] i d h e = elim h [ ]
occurrences-pos k (x ∷ xs) zero d h e = ground arith
occurrences-pos k (x ∷ xs) (suc i) d h e = ground (arith, occurrences-pos k xs i d (omega arith) e)

two_keys-le : (a b : ℕ) (xs : List ℕ) → a ≢ b → occurrences a xs + occurrences b xs ≤ length xs
unfolding occurrences
two_keys-le a b [] ne = omega arith
two_keys-le a b (x ∷ xs) ne = ground (arith, two_keys-le a b xs ne)

-- A third key leaves the other two less than the whole length.
pub two_keys-lt :
    (a b : ℕ) (xs : List ℕ) (i d : ℕ)
    → a ≢ b
    → i < length xs
    → get_or xs i d ≢ a
    → get_or xs i d ≢ b
    → occurrences a xs + occurrences b xs < length xs
unfolding occurrences
two_keys-lt a b [] i d ne h p q = elim h [ ]
two_keys-lt a b (x ∷ xs) zero d ne h p q = ground (arith, two_keys-le a b xs ne)
two_keys-lt a b (x ∷ xs) (suc i) d ne h p q =
    ground (arith, two_keys-lt a b xs i d ne (omega arith) p q)
