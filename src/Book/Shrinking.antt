-- ===== src/Book/Shrinking.antt =====
-- What OrderBook::match (cpp/src/order_book.cpp) does to the slab and to the id index on any book: the
-- slab and the index keep their sizes, and ids only leave.
use high_frequency_trading.Base.{
  ℕ, zero, suc, ◌≡◌, refl, ap, ◌∙◌, ◌⊎◌, inl, inr, Option, none, some, List, [], ◌∷◌, arith, ◌==◌,
  if◌then◌else◌, set, get_or, length, Bool-cases, length-set,
}
use high_frequency_trading.Base.Int.{ℤ, pos, ◌-ℤ◌, eqb_ℤ, min_ℤ}
use high_frequency_trading.Types.{Side, buy, sell}
use high_frequency_trading.IdIndex.{
  IdTable, tombstone, erase, erase_at, walk, ends_lookup, home, empty_key,
}
use high_frequency_trading.Book.Records.{
  OrderNode, PriceLevel, OrderBook, nil_node, node_at, level_at,
}
use high_frequency_trading.Book.Slab.{unlink, free_node, with_next}
use high_frequency_trading.Book.Match.{
  Aggressor, Matching, remove_node, less_total, drop_resting, trade_with, settle_level, close_level,
}

pub record Shrinks (b b' : OrderBook) : Type 0 where
  pub slab : length b'.pool ≡ length b.pool
  pub cells : length b'.ids.keys ≡ length b.ids.keys
  pub buried :
      (p : ℕ)
      → (get_or b'.ids.keys p 0 ≡ get_or b.ids.keys p 0) ⊎ (get_or b'.ids.keys p 0 ≡ tombstone)

pub stands : {b b' : OrderBook} → length b'.pool ≡ length b.pool → b'.ids ≡ b.ids → Shrinks b b'
stands e f = record {
  slab = e;
  cells = ap (λ (t : IdTable). length t.keys) f;
  buried = λ p. inl (ap (λ (t : IdTable). get_or t.keys p 0) f);
}

pub then-Shrinks : {b c d : OrderBook} → Shrinks b c → Shrinks c d → Shrinks b d
then-Shrinks r s = record {
  slab = s.slab ∙ r.slab;
  cells = s.cells ∙ r.cells;
  buried = λ p. elim (s.buried p) [
    | inr t ↦ inr t
    | inl e ↦ elim (r.buried p) [ inl f ↦ inl (e ∙ f) | inr t ↦ inr (e ∙ t) ]
  ];
}

set_buries :
    (ks : List ℕ) (q v p : ℕ)
    → (get_or (set ks q v) p 0 ≡ get_or ks p 0) ⊎ (get_or (set ks q v) p 0 ≡ v)
set_buries [] q v p = inl refl
set_buries (k ∷ ks) zero v zero = inr refl
set_buries (k ∷ ks) zero v (suc p) = inl refl
set_buries (k ∷ ks) (suc q) v zero = inl refl
set_buries (k ∷ ks) (suc q) v (suc p) = set_buries ks q v p

-- An erasure on any table.
erase_buries :
    (t : IdTable) (id : ℕ)
    → (length (erase t id).keys ≡ length t.keys)
      × ((p : ℕ)
          → (get_or (erase t id).keys p 0 ≡ get_or t.keys p 0)
            ⊎ (get_or (erase t id).keys p 0 ≡ tombstone))
unfolding erase erase_at
erase_buries t id = at (walk (ends_lookup id) t.keys t.mask (length t.keys) (home t.mask id)) refl
  where
    at :
        (w : Option ℕ)
        → walk (ends_lookup id) t.keys t.mask (length t.keys) (home t.mask id) ≡ w
        → (length (erase t id).keys ≡ length t.keys)
          × ((p : ℕ)
              → (get_or (erase t id).keys p 0 ≡ get_or t.keys p 0)
                ⊎ (get_or (erase t id).keys p 0 ≡ tombstone))
    at none e = rw (erase, e) (refl, λ p. inl refl)
    at (some q) e = elim (Bool-cases (get_or t.keys q empty_key == id)) [
      | inl here ↦
          rw (erase, e, here) (length-set t.keys q tombstone, set_buries t.keys q tombstone)
      | inr other ↦ rw (erase, e, other) (refl, λ p. inl refl)
    ]

unlink_size :
    (pool : List OrderNode) (level : PriceLevel) (slot : ℕ)
    → length (unlink pool level slot).0 ≡ length pool
unfolding unlink
unlink_size pool level slot = elim (Bool-cases ((node_at pool slot).next == nil_node)) [
  | inl last ↦ rw last half
  | inr more ↦ rw more (length-set _ (node_at pool slot).next _ ∙ half)
]
  where
    half :
        length (
          if (node_at pool slot).prev == nil_node
          then pool
          else with_next pool (node_at pool slot).prev (node_at pool slot).next)
        ≡ length pool
    half = elim (Bool-cases ((node_at pool slot).prev == nil_node)) [
      | inl first ↦ rw first refl
      | inr later ↦ rw later (length-set pool (node_at pool slot).prev _)
    ]

pub remove_node-Shrinks :
    (b : OrderBook) (side : Side) (i slot : ℕ) → Shrinks b (remove_node b side i slot)
unfolding remove_node free_node
remove_node-Shrinks b buy i slot = record {
  slab =
      length-set (unlink b.pool (level_at b buy i) slot).0 slot _
      ∙ unlink_size b.pool (level_at b buy i) slot;
  cells = (erase_buries b.ids (node_at b.pool slot).id).0;
  buried = (erase_buries b.ids (node_at b.pool slot).id).1;
}
remove_node-Shrinks b sell i slot = record {
  slab =
      length-set (unlink b.pool (level_at b sell i) slot).0 slot _
      ∙ unlink_size b.pool (level_at b sell i) slot;
  cells = (erase_buries b.ids (node_at b.pool slot).id).0;
  buried = (erase_buries b.ids (node_at b.pool slot).id).1;
}

pub less_total-Shrinks :
    (b : OrderBook) (side : Side) (i : ℕ) (x : ℤ) → Shrinks b (less_total b side i x)
unfolding less_total
less_total-Shrinks b buy i x = stands refl refl
less_total-Shrinks b sell i x = stands refl refl

pub settle_level-Shrinks : (b : OrderBook) (side : Side) (i : ℕ) → Shrinks b (settle_level b side i)
unfolding settle_level
settle_level-Shrinks b buy i = stands (ground arith) (ground arith)
settle_level-Shrinks b sell i = stands (ground arith) (ground arith)

pub close_level-Shrinks : (b : OrderBook) (side : Side) (i : ℕ) → Shrinks b (close_level b side i)
unfolding close_level
close_level-Shrinks b buy i = stands (ground arith) (ground arith)
close_level-Shrinks b sell i = stands (ground arith) (ground arith)

pub drop_resting-Shrinks :
    (b : OrderBook) (side : Side) (i slot : ℕ) → Shrinks b (drop_resting b side i slot)
unfolding drop_resting
drop_resting-Shrinks b side i slot =
    then-Shrinks (less_total-Shrinks b side i (node_at b.pool slot).quantity)
      (remove_node-Shrinks (less_total b side i (node_at b.pool slot).quantity) side i slot)

pub trade_with-Shrinks :
    (a : Aggressor) (side : Side) (i slot : ℕ) (m : Matching)
    → Shrinks m.book (trade_with a side i slot m).book
unfolding trade_with
trade_with-Shrinks a side i slot m =
    let b = m.book in
    let node = node_at b.pool slot in
    let traded = min_ℤ m.qty node.quantity in
    let left = node.quantity -ℤ traded in
    let written : OrderBook = record b {
      pool = set b.pool slot (record node { quantity = left });
    } in
    let less = less_total written side i traded in
    let first : Shrinks b less =
      then-Shrinks (stands (length-set b.pool slot (record node { quantity = left })) refl)
        (less_total-Shrinks written side i traded) in
    elim (Bool-cases (eqb_ℤ left (pos 0))) [
      | inl e ↦ rw e (then-Shrinks first (remove_node-Shrinks less side i slot))
      | inr n ↦ rw n first
    ]
