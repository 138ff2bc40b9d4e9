-- ===== src/Book/LevelClosed.antt =====
-- A level that the loop of match (cpp/src/order_book.cpp) has done with, and the levels after it.
use high_frequency_trading.Base.{
  ℕ, zero, suc, ◌<◌, ◌≤◌, ◌≡◌, refl, ap, sym, ◌∙◌, subst, inl, inr, Option, none, some, List, ◌∷◌,
  ◌++◌, arith, ◌==◌, length, Bool-cases,
}
use mathlib.Core.Path.{fun_ext}
use mathlib.Core.List.{append_assoc}
use high_frequency_trading.Base.Int.{ℤ, ◌+ℤ◌}
use high_frequency_trading.Types.{Side}
use high_frequency_trading.Book.Records.{Trade, OrderNode, level_at}
use high_frequency_trading.Book.Match.{Aggressor, Matching, close_level}
use high_frequency_trading.Book.Priority.{Filled, Swept}
use high_frequency_trading.Book.Invariant.{
  Queues, Holds, lights, occupied, put, same_place, at_place,
}
use high_frequency_trading.Book.Removal.{price_at-same}
use high_frequency_trading.Book.Repaint.{relit}
use high_frequency_trading.Book.Closing.{close_level-Holds, close_level_grid, close_level_kept}
use high_frequency_trading.Book.Progress.{orders, Progress, SameGrid-trans}
use high_frequency_trading.Book.Sweeping.{push_all, LevelDone}
use high_frequency_trading.Book.Ladder.{rank_at, ladder, Before-here, Before-suc, rests}
use high_frequency_trading.Book.Cancel.{Holds-lit, relit-lights}
use high_frequency_trading.Book.Sweeps.{Outside, SweepDone, Outside-place, later_place}

-- As `LevelDone`, with the bitmaps showing the levels that have orders.
pub record LevelClosed (side : Side) (i : ℕ) (m m' : Matching) (q : Queues) (f : Filled)
    : Type 0 where
  pub q' : Queues
  pub free : List ℕ
  pub holds : Holds m'.book q' free (lights q')
  pub progress : Progress side i m.book m'.book q q'
  pub rest_here : orders m'.book.pool (q' side i) ≡ f.rest
  pub qty : m'.qty ≡ f.qty
  pub filled : m'.filled +ℤ f.qty ≡ m.filled +ℤ m.qty
  pub out : m'.out ≡ push_all m.out f.trades
  pub flag : m'.book.aggressor_stopped ≡ f.stopped

-- The close of a level.
module _ (a : Aggressor) (side : Side) (i : ℕ) (m n : Matching) (q : Queues) (f : Filled)
    (d : LevelDone a side i (lights q) m n q f) (busy : occupied (q side i) ≡ 1)
    (inside : i < length n.book.bids) where
  abbrev shut : Matching
  shut = record n { book = close_level n.book side i }

  one_level : put q side i (d.q' side i) ≡ d.q'
  one_level = fun_ext λ s. fun_ext λ j. (elim (Bool-cases (same_place side i s j)) [
    | inl e ↦ rw e (at_place (λ t k. d.q' side i ≡ d.q' t k) side i s j e refl)
    | inr o ↦ rw o (sym (d.progress.elsewhere s j o).0)
  ])

  shut_lights :
      (s : Side) (j : ℕ)
      → relit (lights q) side i ((level_at n.book side i).order_count == 0) s j ≡ lights d.q' s j
  shut_lights s j =
      relit-lights q side i (d.q' side i) s j (level_at n.book side i).order_count
        (d.holds.counted side i) busy
      ∙ ap (λ (r : Queues). lights r s j) one_level

  pub done-LevelClosed : LevelClosed side i m shut q f
  done-LevelClosed =
      let (pool, smp, stopped) = close_level_kept n.book i side in
      record {
        q' = d.q';
        free = d.free;
        holds =
            Holds-lit (relit (lights q) side i ((level_at n.book side i).order_count == 0))
              (lights d.q') shut_lights
              (close_level-Holds n.book i d.q' d.free (lights q) d.holds inside side);
        progress = record {
          same_grid = SameGrid-trans d.progress.same_grid (close_level_grid n.book i side);
          policy = smp ∙ d.progress.policy;
          elsewhere = λ s j e.
              let (same, kept) = d.progress.elsewhere s j e in
              (same, ap (λ (p : List OrderNode). orders p (q s j)) pool ∙ kept);
        };
        rest_here = ap (λ (p : List OrderNode). orders p (d.q' side i)) pool ∙ d.rest_here;
        qty = d.qty;
        filled = d.filled;
        out = d.out;
        flag = stopped ∙ d.flag;
      }

-- An aggressor that is stopped leaves the order that stopped it.
pub stopped-LevelClosed :
    (a : Aggressor) (side : Side) (i : ℕ) (m n : Matching) (q : Queues) (f : Filled)
    (d : LevelDone a side i (lights q) m n q f)
    → occupied (q side i) ≡ 1
    → occupied (d.q' side i) ≡ 1
    → LevelClosed side i m n q f
stopped-LevelClosed a side i m n q f d busy still = record {
  q' = d.q';
  free = d.free;
  holds = Holds-lit (lights q) (lights d.q') same d.holds;
  progress = d.progress;
  rest_here = d.rest_here;
  qty = d.qty;
  filled = d.filled;
  out = d.out;
  flag = d.flag;
}
  where
    same : (s : Side) (j : ℕ) → lights q s j ≡ lights d.q' s j
    same s j = elim (Bool-cases (same_place side i s j)) [
      | inl e ↦
          at_place (λ t k. occupied (q t k) ≡ occupied (d.q' t k)) side i s j e (busy ∙ sym still)
      | inr o ↦ ap occupied (sym (d.progress.elsewhere s j o).0)
    ]

-- The levels after one that is closed are those that they were.
pub rests_later :
    (side : Side) (n r k : ℕ) (m m' : Matching) (q : Queues) (f : Filled)
    (c : LevelClosed side (rank_at side n r) m m' q f)
    → k ≤ r
    → r < n
    → rests m'.book c.q' side n k ≡ rests m.book q side n k
rests_later side n r zero m m' q f c h l = refl
rests_later side n r (suc k) m m' q f c h l =
    let (same, kept) =
      c.progress.elsewhere side (rank_at side n k) (later_place side n r k (omega arith) l) in
    rw (same, kept, rests_later side n r k m m' q f c (omega arith) l) refl

pub ladder_later :
    (side : Side) (n r k : ℕ) (m m' : Matching) (q : Queues) (f : Filled)
    (c : LevelClosed side (rank_at side n r) m m' q f)
    → k ≤ r
    → r < n
    → ladder m'.book c.q' side n k ≡ ladder m.book q side n k
ladder_later side n r zero m m' q f c h l = refl
ladder_later side n r (suc k) m m' q f c h l =
    let (same, kept) =
      c.progress.elsewhere side (rank_at side n k) (later_place side n r k (omega arith) l) in
    rw
      (
        same,
        kept,
        price_at-same (rank_at side n k) c.progress.same_grid,
        ladder_later side n r k m m' q f c (omega arith) l,
      )
      refl

-- What the whole sweep leaves, from the first of its levels, which is closed, and the sweep of the
-- others.
pub sweep_closes :
    (side : Side) (n r : ℕ) (m m1 m' : Matching) (q : Queues) (f : Filled) (s t : Swept)
    → (c : LevelClosed side (rank_at side n r) m m1 q f) → r < n
    → t.left ≡ s.left
    → t.all_trades ≡ f.trades ++ s.all_trades
    → t.book ≡ f.rest ∷ s.book
    → t.halted ≡ s.halted
    → SweepDone side n r m1 m' c.q' s
    → SweepDone side n (suc r) m m' q t
sweep_closes side n r m m1 m' q f s t c l el et eb eh d =
    let i = rank_at side n r in
    let (same, kept) = d.others side i (inr (refl, Before-here side n r l)) in
    record {
      q' = d.q';
      free = d.free;
      holds = d.holds;
      same_grid = SameGrid-trans c.progress.same_grid d.same_grid;
      policy = d.policy ∙ c.progress.policy;
      others = λ u j o.
          let (e1, k1) = c.progress.elsewhere u j (Outside-place side n r u j l o) in
          let (e2, k2) = d.others u j (earlier u j o) in
          (
            e2 ∙ e1,
            subst (λ (xs : List ℕ). orders m'.book.pool xs ≡ orders m1.book.pool xs) e1 k2 ∙ k1,
          );
      left =
          ap (λ (xs : List ℕ). orders m'.book.pool xs ∷ rests m'.book d.q' side n r) same
          ∙ ap (λ (ns : List OrderNode). ns ∷ rests m'.book d.q' side n r) (kept ∙ c.rest_here)
          ∙ ap (λ (ys : List (List OrderNode)). f.rest ∷ ys) d.left
          ∙ sym eb;
      qty = d.qty ∙ sym el;
      filled =
          ap (λ (z : ℤ). m'.filled +ℤ z) el
          ∙ d.filled
          ∙ ap (λ (z : ℤ). m1.filled +ℤ z) c.qty
          ∙ c.filled;
      out =
          d.out
          ∙ ap (λ (o : Option (List Trade)). push_all o s.all_trades) c.out
          ∙ push_all-append m.out f.trades s.all_trades
          ∙ ap (push_all m.out) (sym et);
      flag = d.flag ∙ sym eh;
    }
  where
    earlier : (u : Side) (j : ℕ) → Outside side n (suc r) u j → Outside side n r u j
    earlier u j (inl e) = inl e
    earlier u j (inr (e, h)) = inr (e, Before-suc side n r j h)

    push_all-append :
        (out : Option (List Trade)) (ts us : List Trade)
        → push_all (push_all out ts) us ≡ push_all out (ts ++ us)
    push_all-append none ts us = refl
    push_all-append (some vs) ts us = ap (λ (ws : List Trade). some ws) (append_assoc vs ts us)
