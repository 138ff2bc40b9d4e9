-- ===== src/Strategy/Signals.antt =====
-- The signals of cpp/src/strategy.cpp and the crossings of the two averages.
use high_frequency_trading.Base.{
  ℕ, suc, ◌<◌, ◌≡◌, refl, ◌∙◌, inl, inr, Bool, true, false, ◌&&◌, Option, none, some, List, [], ◌∷◌,
  arith, ltb, leb, if◌then◌else◌, Bool-cases, length,
}
use high_frequency_trading.Base.Int.{ℤ, pos, ◌*ℤ◌, ltb_ℤ}
use high_frequency_trading.Types.{Side, buy, sell}
use high_frequency_trading.Strategy.{State, roll, arrive, subtract, differ, decide}
use high_frequency_trading.Strategy.Windows.{recent, Rolled, roll-Rolled}

module _ (fast slow : ℕ) where
  -- The average of the last `fast` prices is above that of the last `slow`, without a division.
  unfoldable pub above : List ℤ → Bool
  above ps = ltb_ℤ (recent slow ps *ℤ pos fast) (recent fast ps *ℤ pos slow)

  -- The side of the signal that the newest price of a history gives.
  unfoldable pub crossing : List ℤ → Option Side
  crossing [] = none
  crossing (p ∷ ps) =
      if leb slow (length ps) && differ (above ps) (above (p ∷ ps))
      then some (if above (p ∷ ps) then buy else sell)
      else none

  -- The symbol's state after the prices of a history, its baseline included.
  pub record Followed (ps : List ℤ) (s : State) : Type 0 where
    pub rolled : Rolled fast slow ps s
    pub has_lem : s.has_state ≡ leb slow (length ps)
    pub above_lem : leb slow (length ps) ≡ true → s.fast_above ≡ above ps

  module _ (positive : 0 < fast) (shorter : fast < slow) (ps : List ℤ) (s : State)
      (v : Followed ps s) (price : ℤ) where
    roll_has : (roll fast slow s price).has_state ≡ s.has_state
    unfolding roll arrive subtract
    roll_has = refl

    roll_above : (roll fast slow s price).fast_above ≡ s.fast_above
    unfolding roll arrive subtract
    roll_above = refl

    warming :
        ltb (suc (length ps)) slow ≡ true
        → Followed (price ∷ ps) (roll fast slow s price) × (none ≡ crossing (price ∷ ps))
    unfolding crossing
    warming early = (
      record {
        rolled = roll-Rolled fast slow positive shorter ps s v.rolled price;
        has_lem = roll_has ∙ v.has_lem ∙ ground arith;
        above_lem = λ late. absurd (ground arith);
      },
      ground arith,
    )

    -- The state with the comparison that is made in it.
    compared : State
    compared =
        let s' = roll fast slow s price in
        record s' {
          has_state = true;
          fast_above = ltb_ℤ (s'.slow_sum *ℤ pos fast) (s'.fast_sum *ℤ pos slow);
        }

    compared_above : compared.fast_above ≡ above (price ∷ ps)
    unfolding above compared
    compared_above =
        let r = roll-Rolled fast slow positive shorter ps s v.rolled price in
        rw (r.slow_lem, r.fast_lem) refl

    emitted :
        (c : Bool)
        → c ≡ above (price ∷ ps)
        → (if s.has_state && differ s.fast_above c then some (if c then buy else sell) else none)
          ≡ crossing (price ∷ ps)
    unfolding crossing
    emitted c e = elim (Bool-cases (leb slow (length ps))) [
      | inl enough ↦ rw (v.has_lem, enough, v.above_lem enough, e) refl
      | inr too_few ↦ rw (v.has_lem, too_few) refl
    ]

    full :
        ltb (suc (length ps)) slow ≡ false
        → Followed (price ∷ ps) compared
          × ((if s.has_state && differ s.fast_above compared.fast_above
                then some (if compared.fast_above then buy else sell)
                else none)
              ≡ crossing (price ∷ ps))
    unfolding crossing compared
    full late =
        let r = roll-Rolled fast slow positive shorter ps s v.rolled price in
        (
          record {
            rolled = record {
              ring_lem = r.ring_lem;
              head_lem = r.head_lem;
              filled_lem = r.filled_lem;
              slow_lem = r.slow_lem;
              fast_lem = r.fast_lem;
              cells = r.cells;
            };
            has_lem = ground arith;
            above_lem = λ _. compared_above;
          },
          emitted compared.fast_above compared_above,
        )

    -- The source's comparison leads to the history's crossing.
    pub decide-Followed :
        let (after, side) = decide fast slow (roll fast slow s price) in
        Followed (price ∷ ps) after × (side ≡ crossing (price ∷ ps))
    unfolding decide roll arrive subtract
    decide-Followed =
        let r = roll-Rolled fast slow positive shorter ps s v.rolled price in
        elim (Bool-cases (ltb (suc (length ps)) slow)) [
          | inl early ↦
              let partly : ltb (roll fast slow s price).filled slow ≡ true =
                ground (arith, r.filled_lem) in
              rw partly (warming early)
          | inr late ↦
              let wholly : ltb (roll fast slow s price).filled slow ≡ false =
                ground (arith, r.filled_lem) in
              rw wholly (unfold compared in full late)
        ]
