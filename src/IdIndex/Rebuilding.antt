-- ===== src/IdIndex/Rebuilding.antt =====
-- The entries that a rebuild of the id index has still to insert (cpp/src/order_book.cpp id_grow,
-- cpp/src/oms.cpp index_compact).
use high_frequency_trading.Base.{
  ℕ, zero, suc, ◌+◌, ◌≡◌, refl, sym, ◌≢◌, false, List, [], ◌∷◌, arith, ◌==◌, if◌then◌else◌, get_or,
  length, inl, inr, Bool-cases,
}
use high_frequency_trading.IdIndex.{empty_key, tombstone, nil_slot, reserved}
use high_frequency_trading.IdIndex.Counts.{occurrences}

abbrev pub live_count : List ℕ → ℕ
live_count [] = 0
live_count (k ∷ ks) = (if reserved k then 0 else 1) + live_count ks

pub live_count-add :
    (ks : List ℕ) → occurrences empty_key ks + occurrences tombstone ks + live_count ks ≡ length ks
unfolding occurrences
live_count-add [] = omega arith
live_count-add (k ∷ ks) = ground (arith, live_count-add ks)

-- No live key stands twice.
abbrev pub Distinct : List ℕ → Type 0
Distinct [] = Unit {0}
Distinct (k ∷ ks) = (reserved k ≡ false → (p : ℕ) → get_or ks p 0 ≢ k) × Distinct ks

pub Distinct-of_cells :
    (ks : List ℕ)
    → ((p q : ℕ) → reserved (get_or ks p 0) ≡ false → get_or ks p 0 ≡ get_or ks q 0 → p ≡ q)
    → Distinct ks
Distinct-of_cells [] h = tt
Distinct-of_cells (k ∷ ks) h = (
  (λ live p e. absurd (omega (arith, h 0 (suc p) live (sym e)))),
  Distinct-of_cells ks (λ p q live e. omega (arith, h (suc p) (suc q) live e)),
)

-- The slot beside an id in the two vectors.
abbrev pub entry : List ℕ → List ℕ → ℕ → ℕ
entry (k ∷ ks) (v ∷ vs) j = if k == j then v else entry ks vs j
entry _ _ j = nil_slot

pub entry_absent :
    (ks vs : List ℕ) (j : ℕ) → ((p : ℕ) → get_or ks p 0 ≢ j) → entry ks vs j ≡ nil_slot
entry_absent [] vs j h = refl
entry_absent (k ∷ ks) [] j h = refl
entry_absent (k ∷ ks) (v ∷ vs) j h = ground (arith, h 0, entry_absent ks vs j (λ p. h (suc p)))

pub entry_present :
    (ks vs : List ℕ) (j p : ℕ)
    → Distinct ks
    → reserved j ≡ false
    → get_or ks p 0 ≡ j
    → length vs ≡ length ks
    → entry ks vs j ≡ get_or vs p nil_slot
entry_present [] vs j p d live at len = absurd (ground arith)
entry_present (k ∷ ks) [] j p d live at len = absurd (omega arith)
entry_present (k ∷ ks) (v ∷ vs) j zero d live at len = ground arith
entry_present (k ∷ ks) (v ∷ vs) j (suc p) d live at len = elim (Bool-cases (k == j)) [
  | inl same ↦ absurd (d.0 (ground arith) p (ground arith))
  | inr other ↦ rw other (entry_present ks vs j p d.1 live at (omega arith))
]
