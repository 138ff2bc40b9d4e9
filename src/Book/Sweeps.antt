-- ===== src/Book/Sweeps.antt =====
-- The loop of match (cpp/src/order_book.cpp) over the levels of a side: what it leaves, in the terms of
-- price-time priority, and how the work at one level is a part of it.
use high_frequency_trading.Base.{
  ℕ, suc, ◌<◌, ◌≡◌, refl, ap, sym, ◌∙◌, ◌⊎◌, inl, inr, false, List, [], ◌∷◌, Bool-cases,
}
use high_frequency_trading.Base.Int.{ℤ, ◌+ℤ◌}
use high_frequency_trading.Types.{Side, side_eq}
use high_frequency_trading.Book.Records.{OrderNode}
use high_frequency_trading.Book.Match.{Matching}
use high_frequency_trading.Book.Priority.{Swept}
use high_frequency_trading.Book.Invariant.{Queues, Holds, lights, same_place, same_place_eq}
use high_frequency_trading.Book.Removal.{SameGrid}
use high_frequency_trading.Book.Progress.{orders, SameGrid-refl}
use high_frequency_trading.Book.Sweeping.{push_all, push_all-nil}
use high_frequency_trading.Book.Ladder.{
  rank_at, Before, Before-suc, Before-here, Before-not, rests, rank-ne,
}

-- The levels that the loop does not come to: those of the other side, and those before the last `r`.
abbrev pub Outside : Side → ℕ → ℕ → Side → ℕ → Type 0
Outside side n r s j = (side_eq side s ≡ false) ⊎ ((side ≡ s) × Before side n r j)

pub record SweepDone (side : Side) (n r : ℕ) (m m' : Matching) (q : Queues) (s : Swept)
    : Type 0 where
  pub q' : Queues
  pub free : List ℕ
  pub holds : Holds m'.book q' free (lights q')
  pub same_grid : SameGrid m.book m'.book
  pub policy : m'.book.smp ≡ m.book.smp
  pub others :
      (t : Side) (j : ℕ)
      → Outside side n r t j
      → (q' t j ≡ q t j) × (orders m'.book.pool (q t j) ≡ orders m.book.pool (q t j))
  pub left : rests m'.book q' side n r ≡ s.book
  pub qty : m'.qty ≡ s.left
  pub filled : m'.filled +ℤ s.left ≡ m.filled +ℤ m.qty
  pub out : m'.out ≡ push_all m.out s.all_trades
  pub flag : m'.book.aggressor_stopped ≡ s.halted

-- The loop stops before any level.
pub sweep_stands :
    (side : Side) (n r : ℕ) (m : Matching) (q : Queues) (free : List ℕ) (s : Swept)
    → Holds m.book q free (lights q)
    → s.left ≡ m.qty
    → s.all_trades ≡ []
    → s.book ≡ rests m.book q side n r
    → m.book.aggressor_stopped ≡ s.halted
    → SweepDone side n r m m q s
sweep_stands side n r m q free s h l t b f = record {
  q' = q;
  free = free;
  holds = h;
  same_grid = SameGrid-refl m.book;
  policy = refl;
  others = λ u j _. (refl, refl);
  left = sym b;
  qty = sym l;
  filled = ap (λ (z : ℤ). m.filled +ℤ z) l;
  out = sym (push_all-nil m.out) ∙ ap (push_all m.out) (sym t);
  flag = f;
}

-- The first of the levels is past, with `first` on it, and the loop goes on.
pub sweep_passes :
    (side : Side) (n r : ℕ) (m m' : Matching) (q : Queues) (s t : Swept)
    → r < n
    → t.left ≡ s.left
    → t.all_trades ≡ s.all_trades
    → t.book ≡ orders m.book.pool (q side (rank_at side n r)) ∷ s.book
    → t.halted ≡ s.halted
    → SweepDone side n r m m' q s
    → SweepDone side n (suc r) m m' q t
sweep_passes side n r m m' q s t l el et eb eh d =
    let (same, kept) = d.others side (rank_at side n r) (inr (refl, Before-here side n r l)) in
    record {
      q' = d.q';
      free = d.free;
      holds = d.holds;
      same_grid = d.same_grid;
      policy = d.policy;
      others = λ u j o. d.others u j (earlier u j o);
      left =
          ap (λ (xs : List ℕ). orders m'.book.pool xs ∷ rests m'.book d.q' side n r) same
          ∙ ap (λ (ns : List OrderNode). ns ∷ rests m'.book d.q' side n r) kept
          ∙ ap (λ (ys : List (List OrderNode)). orders m.book.pool (q side (rank_at side n r)) ∷ ys)
              d.left
          ∙ sym eb;
      qty = d.qty ∙ sym el;
      filled = ap (λ (z : ℤ). m'.filled +ℤ z) el ∙ d.filled;
      out = d.out ∙ ap (push_all m.out) (sym et);
      flag = d.flag ∙ sym eh;
    }
  where
    earlier : (u : Side) (j : ℕ) → Outside side n (suc r) u j → Outside side n r u j
    earlier u j (inl e) = inl e
    earlier u j (inr (e, h)) = inr (e, Before-suc side n r j h)

-- A level that the loop has not come to is not the one it is at.
pub Outside-place :
    (side : Side) (n r : ℕ) (t : Side) (j : ℕ)
    → r < n
    → Outside side n (suc r) t j
    → same_place side (rank_at side n r) t j ≡ false
Outside-place side n r t j l (inl e) = rw e refl
Outside-place side n r t j l (inr (e, h)) =
    elim (Bool-cases (same_place side (rank_at side n r) t j)) [
      | inl here ↦
          absurd (Before-not side n r j l h (same_place_eq side (rank_at side n r) t j here).1)
      | inr there ↦ there
    ]

pub later_place :
    (side : Side) (n r k : ℕ)
    → k < r
    → r < n
    → same_place side (rank_at side n r) side (rank_at side n k) ≡ false
later_place side n r k h l =
    elim (Bool-cases (same_place side (rank_at side n r) side (rank_at side n k))) [
      | inl here ↦ absurd (
          rank-ne side n r k h l
            (same_place_eq side (rank_at side n r) side (rank_at side n k) here).1)
      | inr there ↦ there
    ]
