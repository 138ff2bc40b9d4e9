-- ===== src/Oms/Booking.antt =====
-- The order manager's exposure against the sum of the leaves of its orders (cpp/src/oms.cpp): an
-- update of one record and the matching update of the exposure.
use high_frequency_trading.Base.{
  ℕ, zero, suc, ◌<◌, ◌≡◌, subst, Bool, true, false, ◌&&◌, List, [], ◌∷◌, arith, ◌==◌, if◌then◌else◌,
  get_or, set, length, get_or-set,
}
use high_frequency_trading.Base.Int.{ℤ, pos, ◌+ℤ◌, ◌-ℤ◌, ◌≤ℤ◌, int_laws}
use high_frequency_trading.Types.{Side, buy, sell, side_eq}
use high_frequency_trading.Double.{Double}
use high_frequency_trading.Oms.Records.{OrderRecord, blank_record, no_exposure, OrderManager}
use high_frequency_trading.Oms.Slots.{clamp, bump, record_at, write_record, add_exposure}
use high_frequency_trading.Oms.Exposures.{Nonneg, gross_of, add_exposure_at, add_exposure_gross}

clamp_nonneg : (q : ℤ) → pos 0 ≤ℤ q → clamp q ≡ q
unfolding clamp
clamp_nonneg q h = ground arith

-- A sum of which one term has moved by `delta`, or not at all.
moved_sum :
    (c : Bool) (delta x y t t' : ℤ)
    → x ≡ y +ℤ (if c then delta else pos 0)
    → t' ≡ t +ℤ (x -ℤ y)
    → pos 0 ≤ℤ t'
    → t' ≡ (if c then clamp (t +ℤ delta) else t)
moved_sum true delta x y t t' e f n =
    let g : t' ≡ t +ℤ delta = rw (f, e) (omega int_laws) in
    rw (clamp_nonneg (t +ℤ delta) (subst (λ z. pos 0 ≤ℤ z) g n)) g
moved_sum false delta x y t t' e f n = rw (f, e) (omega int_laws)

module _ {D : Type 0} where
  -- What a record adds to the leaves on one side of one symbol.
  abbrev pub share : Side → ℕ → OrderRecord D → ℤ
  share side s rec = if side_eq rec.side side && rec.symbol == s then rec.leaves else pos 0

  unfoldable pub leaves_of : Side → ℕ → List (OrderRecord D) → ℤ
  leaves_of side s [] = pos 0
  leaves_of side s (r ∷ rs) = share side s r +ℤ leaves_of side s rs

  leaves_of-set :
      (side : Side) (s : ℕ) (rs : List (OrderRecord D)) (i : ℕ) (r e : OrderRecord D)
      → i < length rs
      → leaves_of side s (set rs i r)
        ≡ leaves_of side s rs +ℤ (share side s r -ℤ share side s (get_or rs i e))
  unfolding leaves_of
  leaves_of-set side s [] i r e h = elim h [ ]
  leaves_of-set side s (x ∷ rs) zero r e h =
      regroup (share side s x) (share side s r) (leaves_of side s rs)
    where
      regroup : (a b c : ℤ) → b +ℤ c ≡ a +ℤ c +ℤ (b -ℤ a)
      regroup a b c = omega int_laws
  leaves_of-set side s (x ∷ rs) (suc i) r e h = rw (leaves_of-set side s rs i r e (omega arith)) (
      regroup (share side s x) (leaves_of side s rs)
        (share side s r -ℤ share side s (get_or rs i e)))
    where
      regroup : (a b c : ℤ) → a +ℤ (b +ℤ c) ≡ a +ℤ b +ℤ c
      regroup a b c = omega int_laws

  pub share_nonneg :
      (side : Side) (s : ℕ) (r : OrderRecord D) → pos 0 ≤ℤ r.leaves → pos 0 ≤ℤ share side s r
  share_nonneg side s r h = ground arith

  pub leaves_of_nonneg :
      (side : Side) (s : ℕ) (rs : List (OrderRecord D)) (e : OrderRecord D)
      → ((i : ℕ) → pos 0 ≤ℤ (get_or rs i e).leaves)
      → pos 0 ≤ℤ leaves_of side s rs
  unfolding leaves_of
  leaves_of_nonneg side s [] e h = omega arith
  leaves_of_nonneg side s (r ∷ rs) e h =
      sum (share side s r) (leaves_of side s rs) (share_nonneg side s r (h 0))
        (leaves_of_nonneg side s rs e (λ i. h (suc i)))
    where
      sum : (a b : ℤ) → pos 0 ≤ℤ a → pos 0 ≤ℤ b → pos 0 ≤ℤ (a +ℤ b)
      sum a b p q = omega int_laws

module _ {D : Type 0} ⦃d : Double D⦄ where
  -- No order has negative leaves; for each symbol and side the exposure is the sum of the leaves;
  -- the gross exposure is the sum over the symbols of the net leaves' absolute values.
  pub record Booked (o : OrderManager D) : Type 0 where
    pub nonneg : (i : ℕ) → pos 0 ≤ℤ (record_at o i).leaves
    pub buys : (s : ℕ) → (get_or o.exposure s no_exposure).buys ≡ leaves_of buy s o.pool
    pub sells : (s : ℕ) → (get_or o.exposure s no_exposure).sells ≡ leaves_of sell s o.pool
    pub gross : o.gross_exposure ≡ gross_of o.exposure

  pub Booked-Nonneg :
      (o : OrderManager D) → Booked o → (s : ℕ) → Nonneg (get_or o.exposure s no_exposure)
  Booked-Nonneg o b s = (
    rw (b.buys s) (leaves_of_nonneg buy s o.pool blank_record b.nonneg),
    rw (b.sells s) (leaves_of_nonneg sell s o.pool blank_record b.nonneg),
  )

  -- A record is replaced, and the exposure moves by what its leaves change.
  abbrev pub rebook : OrderManager D → ℕ → OrderRecord D → ℤ → OrderManager D
  rebook o slot r delta = add_exposure (write_record o slot r) r.symbol r.side delta

  -- What the record and the change stand for: on its side of its symbol the new record adds the old
  -- one's share and the change, and elsewhere the old one's share.
  abbrev pub Shifts : OrderRecord D → OrderRecord D → ℤ → Type 0
  Shifts old r delta =
      (side : Side) (s : ℕ)
      → share side s r
        ≡ share side s old +ℤ (if side_eq r.side side && r.symbol == s then delta else pos 0)

  pub Shifts-same_order :
      (old r : OrderRecord D) (delta : ℤ)
      → r.symbol ≡ old.symbol
      → r.side ≡ old.side
      → r.leaves ≡ old.leaves +ℤ delta
      → Shifts old r delta
  Shifts-same_order old r delta e f g side s =
      rw (e, f) (pick (side_eq old.side side && old.symbol == s))
    where
      pick :
          (c : Bool)
          → (if c then r.leaves else pos 0)
            ≡ (if c then old.leaves else pos 0) +ℤ (if c then delta else pos 0)
      pick true = g
      pick false = omega int_laws

  pub Shifts-new_order : (old r : OrderRecord D) → old.leaves ≡ pos 0 → Shifts old r r.leaves
  Shifts-new_order old r e side s =
      rw e (pick (side_eq old.side side && old.symbol == s) (side_eq r.side side && r.symbol == s))
    where
      pick :
          (c c' : Bool)
          → (if c' then r.leaves else pos 0)
            ≡ (if c then pos 0 else pos 0) +ℤ (if c' then r.leaves else pos 0)
      pick true true = omega int_laws
      pick true false = omega int_laws
      pick false true = omega int_laws
      pick false false = omega int_laws

  module _ (o : OrderManager D) (slot : ℕ) (r : OrderRecord D) (delta : ℤ) (b : Booked o)
      (below : slot < length o.pool) (real : pos 0 ≤ℤ r.leaves)
      (shifts : Shifts (record_at o slot) r delta) where
    rebook_nonneg : (i : ℕ) → pos 0 ≤ℤ (get_or (set o.pool slot r) i blank_record).leaves
    rebook_nonneg i = rw (get_or-set o.pool slot i r blank_record below) (pick (slot == i))
      where
        pick : (c : Bool) → pos 0 ≤ℤ (if c then r else record_at o i).leaves
        pick true = real
        pick false = b.nonneg i

    rebook_side :
        (side : Side) (s : ℕ)
        → leaves_of side s (set o.pool slot r) ≡ (
            if side_eq r.side side && r.symbol == s
            then clamp (leaves_of side s o.pool +ℤ delta)
            else leaves_of side s o.pool)
    rebook_side side s =
        moved_sum (side_eq r.side side && r.symbol == s) delta (share side s r)
          (share side s (record_at o slot)) (leaves_of side s o.pool)
          (leaves_of side s (set o.pool slot r)) (shifts side s)
          (leaves_of-set side s o.pool slot r blank_record below)
          (leaves_of_nonneg side s (set o.pool slot r) blank_record rebook_nonneg)

    rebook_pool : (rebook o slot r delta).pool ≡ set o.pool slot r
    unfolding add_exposure
    rebook_pool = ground arith

    pub rebook-Booked : Booked (rebook o slot r delta)
    unfolding bump
    rebook-Booked = record {
      nonneg = λ i. rw rebook_pool (rebook_nonneg i);
      buys = λ s. rw rebook_pool (
          ground (
            arith,
            add_exposure_at (write_record o slot r) r.symbol r.side delta s
                (Booked-Nonneg o b r.symbol),
            rebook_side buy s,
            b.buys s,
            b.buys r.symbol,
          ));
      sells = λ s. rw rebook_pool (
          ground (
            arith,
            add_exposure_at (write_record o slot r) r.symbol r.side delta s
                (Booked-Nonneg o b r.symbol),
            rebook_side sell s,
            b.sells s,
            b.sells r.symbol,
          ));
      gross = add_exposure_gross (write_record o slot r) r.symbol r.side delta b.gross;
    }
