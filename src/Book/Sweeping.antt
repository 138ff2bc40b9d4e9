-- ===== src/Book/Sweeping.antt =====
-- The loop of match (cpp/src/order_book.cpp) over the orders of a level does what price-time priority
-- says of the level's orders.
use high_frequency_trading.Base.{
  ℕ, ◌≡◌, refl, ap, sym, ◌∙◌, Option, none, some, List, [], ◌∷◌, ◌++◌, if◌then◌else◌,
}
use mathlib.Core.List.{append_assoc, append-nil}
use high_frequency_trading.Base.Int.{◌+ℤ◌}
use high_frequency_trading.Types.{Side}
use high_frequency_trading.Book.Records.{Trade}
use high_frequency_trading.Book.Match.{
  Aggressor, Matching, Swept, done, returned, push_trade, sweep_level,
}
use high_frequency_trading.Book.Priority.{Filled}
use high_frequency_trading.Book.Invariant.{Queues, Holds, put}
use high_frequency_trading.Book.Progress.{orders, Progress, Progress-trans, SameGrid-refl, Step}

abbrev pub push_all : Option (List Trade) → List Trade → Option (List Trade)
push_all none ts = none
push_all (some us) ts = some (us ++ ts)

pub push_all-trade :
    (out : Option (List Trade)) (t : Trade) (ts : List Trade)
    → push_all (push_trade out t) ts ≡ push_all out (t ∷ ts)
push_all-trade none t ts = refl
push_all-trade (some us) t ts = ap (λ (vs : List Trade). some vs) (append_assoc us (t ∷ []) ts)

pub push_all-nil : (out : Option (List Trade)) → push_all out [] ≡ out
push_all-nil none = refl
push_all-nil (some us) = ap (λ (vs : List Trade). some vs) (append-nil us)

-- What the loop leaves, in the terms of the specification.
pub record LevelDone (a : Aggressor) (side : Side) (i : ℕ) (lit : Side → ℕ → ℕ) (m m' : Matching)
    (q : Queues) (f : Filled) : Type 0 where
  pub q' : Queues
  pub free : List ℕ
  pub holds : Holds m'.book q' free lit
  pub progress : Progress side i m.book m'.book q q'
  pub rest_here : orders m'.book.pool (q' side i) ≡ f.rest
  pub qty : m'.qty ≡ f.qty
  pub filled : m'.filled +ℤ f.qty ≡ m.filled +ℤ m.qty
  pub out : m'.out ≡ push_all m.out f.trades
  pub flag : m'.book.aggressor_stopped ≡ f.stopped

abbrev pub ended : Filled → Matching → Swept
ended f m = if f.stopped then returned m else done m

abbrev pub LevelResult :
    ℕ → Aggressor → Side → ℕ → (Side → ℕ → ℕ) → Matching → Queues → Filled → Type 0
LevelResult fuel a side i lit m q f =
    (m' : Matching) × (sweep_level fuel a side i m ≡ ended f m') × LevelDone a side i lit m m' q f

-- The loop stops where it is.
pub stands :
    (a : Aggressor) (side : Side) (i : ℕ) (lit : Side → ℕ → ℕ) (m : Matching) (q : Queues)
    (free : List ℕ) (f : Filled)
    → Holds m.book q free lit
    → m.book.aggressor_stopped ≡ f.stopped
    → f.qty ≡ m.qty
    → f.trades ≡ []
    → f.rest ≡ orders m.book.pool (q side i)
    → LevelDone a side i lit m m q f
stands a side i lit m q free f h s e t r = record {
  q' = q;
  free = free;
  holds = h;
  progress = record {
    same_grid = SameGrid-refl m.book;
    policy = refl;
    elsewhere = λ s j _. (refl, refl);
  };
  rest_here = sym r;
  qty = sym e;
  filled = rw e refl;
  out = rw t (sym (push_all-nil m.out));
  flag = s;
}

-- A step, and the loop from there on.
pub continues :
    (a : Aggressor) (side : Side) (i : ℕ) (lit : Side → ℕ → ℕ) (m n m' : Matching) (q : Queues)
    (xs : List ℕ) (f g : Filled)
    → Step side i lit m.book n.book q xs
    → n.filled +ℤ n.qty ≡ m.filled +ℤ m.qty
    → push_all n.out f.trades ≡ push_all m.out g.trades
    → (g.rest ≡ f.rest) × (g.qty ≡ f.qty) × (g.stopped ≡ f.stopped)
    → LevelDone a side i lit n m' (put q side i xs) f
    → LevelDone a side i lit m m' q g
continues a side i lit m n m' q xs f g s e t (er, eq, es) d = record {
  q' = d.q';
  free = d.free;
  holds = d.holds;
  progress = Progress-trans s.progress d.progress;
  rest_here = d.rest_here ∙ sym er;
  qty = d.qty ∙ sym eq;
  filled = rw eq (d.filled ∙ e);
  out = d.out ∙ t;
  flag = d.flag ∙ sym es;
}
