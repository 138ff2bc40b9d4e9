-- ===== src/Oms/Creation.antt =====
-- What OrderManager::create (cpp/src/oms.cpp) does to the exposure.
use high_frequency_trading.Base.{
  ℕ, ◌≡◌, refl, inl, inr, false, not, ◌||◌, Option, none, some, List, [], ◌∷◌, arith, ◌==◌, leb,
  if◌then◌else◌, get_or, Bool-cases,
}
use high_frequency_trading.Base.Int.{ℤ, pos, ◌+ℤ◌, ◌-ℤ◌, ◌<ℤ◌, leb_ℤ, int_laws}
use high_frequency_trading.Types.{Side, buy, sell, Order, signed_quantity}
use high_frequency_trading.Double.{Double}
use high_frequency_trading.IdIndex.{nil_slot, slot_for}
use high_frequency_trading.Oms.Records.{Exposure, no_exposure, OrderManager}
use high_frequency_trading.Oms.Slots.{bump, clamp, add_exposure}
use high_frequency_trading.Oms.Exposures.{Nonneg, add_exposure_at}
use high_frequency_trading.Oms.{
  alloc_slot, install, install_in, create_with_id, create, working_exposure,
}

abbrev net : Exposure → ℤ
net e = e.buys -ℤ e.sells

-- A new order's quantity is added on its side.
net-bump :
    (e : Exposure) (side : Side) (q : ℤ)
    → Nonneg e
    → pos 0 <ℤ q
    → net (bump e side q) ≡ net e +ℤ signed_quantity side q
unfolding bump clamp signed_quantity
net-bump e buy q n h = grind int_laws
net-bump e sell q n h = grind int_laws

module _ {D : Type 0} ⦃d : Double D⦄ where
  alloc_slot_exposure :
      (o o' : OrderManager D) (free : List ℕ) (slot : ℕ)
      → alloc_slot o free ≡ some (slot, o')
      → o'.exposure ≡ o.exposure
  unfolding alloc_slot
  alloc_slot_exposure o o' [] slot h = ground arith
  alloc_slot_exposure o o' (f ∷ fs) slot h = ground arith

  exposure_after :
      (o o' : OrderManager D) (symbol : ℕ) (side : Side) (q : ℤ) (s : ℕ)
      → o'.exposure ≡ o.exposure
      → Nonneg (get_or o.exposure symbol no_exposure)
      → pos 0 <ℤ q
      → net (get_or (add_exposure o' symbol side q).exposure s no_exposure) ≡ (
          if symbol == s
          then net (get_or o.exposure symbol no_exposure) +ℤ signed_quantity side q
          else net (get_or o.exposure s no_exposure))
  exposure_after o o' symbol side q s same nonneg positive =
      let e = get_or o.exposure symbol no_exposure in
      rw (add_exposure_at o' symbol side q s (rw same nonneg), same)
        (elim (Bool-cases (symbol == s)) [
          | inl here ↦ rw here (net-bump e side q nonneg positive)
          | inr there ↦ rw there refl
        ])

  module _ (o : OrderManager D) (order : Order) (now_ns : ℤ)
      (nonneg : Nonneg (get_or o.exposure order.symbol no_exposure)) (s : ℕ) where
    abbrev with_order : ℤ
    with_order =
        if order.symbol == s
        then working_exposure o order.symbol +ℤ signed_quantity order.side order.quantity
        else working_exposure o s

    install_exposure :
        (o' : OrderManager D) (slot id : ℕ)
        → o'.exposure ≡ o.exposure
        → pos 0 <ℤ order.quantity
        → working_exposure (install o' slot id order now_ns) s ≡ with_order
    unfolding working_exposure install
    install_exposure o' slot id same positive =
        exposure_after o _ order.symbol order.side order.quantity s same nonneg positive

    placed :
        (found : Option (ℕ × OrderManager D))
        → alloc_slot o o.free_slots ≡ found
        → (o.next_id == 0) ≡ false
        → pos 0 <ℤ order.quantity
        → let (after, id) = install_in o found o.next_id order now_ns in
          working_exposure after s ≡ (if id == 0 then working_exposure o s else with_order)
    unfolding install_in
    placed none h live positive = unfold working_exposure in refl
    placed (some (slot, o')) h live positive =
        rw live (
          install_exposure o' slot o.next_id (alloc_slot_exposure o o' o.free_slots slot h)
            positive)

    -- When nothing negative works of the order's symbol, a new order that gets an id adds its
    -- signed quantity to what works of its symbol, and one that gets no id changes nothing; what
    -- works of the other symbols stays.
    pub create_exposure :
        let (after, id) = create o order now_ns in
        working_exposure after s ≡ (if id == 0 then working_exposure o s else with_order)
    unfolding create create_with_id
    create_exposure =
        elim (Bool-cases (o.next_id == 0 || not (slot_for o.index o.next_id == nil_slot))) [
          | inl unusable ↦ rw unusable (unfold working_exposure in refl)
          | inr usable ↦
              rw usable
                (elim (Bool-cases
                  (leb_ℤ order.quantity (pos 0) || leb o.cfg.max_open_orders o.open_count)) [
                    | inl refused ↦ rw refused (unfold working_exposure in refl)
                    | inr wanted ↦
                        rw wanted
                          (placed (alloc_slot o o.free_slots) refl (ground arith) (ground arith))
                  ])
        ]
