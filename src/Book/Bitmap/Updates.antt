-- ===== src/Book/Bitmap/Updates.antt =====
-- set, clear and reset of the bitmap (cpp/src/order_book.cpp) on a bitmap whose tiers agree.
use high_frequency_trading.Base.{
  ℕ, ◌/◌, ◌%◌, ◌^◌, ◌<◌, ◌≡◌, refl, ap, inl, inr, false, arith, ◌==◌, if◌then◌else◌, get_or, length,
  get_or-set, length-set, Bool-cases,
}
use high_frequency_trading.Base.Digits.{
  digit, digit-zero, digit-bit_or, bit_or-lt, digit-clear, clear-lt,
}
use high_frequency_trading.Base.Bits.{zero-bit_and}
use Prim.Native.Nat.{bit_or, bit_and}
use high_frequency_trading.Book.Bitmap.{LevelBitmap, set_level, clear_level, bit, no_bit}
use high_frequency_trading.Book.Bitmap.Tiers.{IsTiered, level_digit}

-- A word with a bit set is not zero.
pub digit_lit : (w i : ℕ) → digit w i ≡ 1 → (w == 0) ≡ false
digit_lit w i h = elim (Bool-cases (w == 0)) [
  | inl z ↦
      let e : w ≡ 0 = ground arith in absurd (omega (arith, ap (λ v. digit v i) e, digit-zero i))
  | inr n ↦ n
]

or_lit : (w i : ℕ) → (bit_or w (bit i) == 0) ≡ false
or_lit w i =
    digit_lit (bit_or w (bit i)) (i % 64) (ground (arith, digit-bit_or w (i % 64) (i % 64)))

module _ (m : LevelBitmap) (t : IsTiered m) (i : ℕ) (h : i < m.n) where
  pub in_tier0 : i / 64 < length m.l0
  in_tier0 = omega (arith, t.sized0)

  pub in_tier1 : i / 64 / 64 < length m.l1
  in_tier1 = omega (arith, t.sized1)

  pub in_tier2 : i / 64 / 64 < 64
  in_tier2 = omega (arith, in_tier1, t.capped)

  set_tier1 :
      (w : ℕ)
      → (digit (get_or (set_level m i).l1 (w / 64) 0) (w % 64) == 0)
        ≡ (get_or (set_level m i).l0 w 0 == 0)
  unfolding set_level
  set_tier1 w = ground (
    arith,
    get_or-set m.l1 (i / 64 / 64) (w / 64) (bit_or (get_or m.l1 (i / 64 / 64) 0) (bit (i / 64))) 0
        in_tier1,
    get_or-set m.l0 (i / 64) w (bit_or (get_or m.l0 (i / 64) 0) (bit i)) 0 in_tier0,
    digit-bit_or (get_or m.l1 (i / 64 / 64) 0) (i / 64 % 64) (w % 64),
    or_lit (get_or m.l0 (i / 64) 0) i,
    t.tier1 w,
  )

  set_tier2 :
      (w : ℕ) → (digit (set_level m i).l2_word w == 0) ≡ (get_or (set_level m i).l1 w 0 == 0)
  unfolding set_level
  set_tier2 w = ground (
    arith,
    in_tier2,
    get_or-set m.l1 (i / 64 / 64) w (bit_or (get_or m.l1 (i / 64 / 64) 0) (bit (i / 64))) 0
        in_tier1,
    digit-bit_or m.l2_word (i / 64 / 64 % 64) w,
    or_lit (get_or m.l1 (i / 64 / 64) 0) (i / 64),
    t.tier2 w,
  )

  pub set_level-IsTiered : IsTiered (set_level m i)
  unfolding set_level
  set_level-IsTiered = record {
    sized0 = rw (length-set m.l0 (i / 64) (bit_or (get_or m.l0 (i / 64) 0) (bit i))) t.sized0;
    sized1 =
        rw (length-set m.l1 (i / 64 / 64) (bit_or (get_or m.l1 (i / 64 / 64) 0) (bit (i / 64))))
          t.sized1;
    capped =
        rw (length-set m.l1 (i / 64 / 64) (bit_or (get_or m.l1 (i / 64 / 64) 0) (bit (i / 64))))
          t.capped;
    small0 = λ w. ground (
      arith,
      get_or-set m.l0 (i / 64) w (bit_or (get_or m.l0 (i / 64) 0) (bit i)) 0 in_tier0,
      bit_or-lt 64 (get_or m.l0 (i / 64) 0) (i % 64) (omega arith) (t.small0 (i / 64)),
      t.small0 w,
    );
    small1 = λ w. ground (
      arith,
      get_or-set m.l1 (i / 64 / 64) w (bit_or (get_or m.l1 (i / 64 / 64) 0) (bit (i / 64))) 0
          in_tier1,
      bit_or-lt 64 (get_or m.l1 (i / 64 / 64) 0) (i / 64 % 64) (omega arith)
          (t.small1 (i / 64 / 64)),
      t.small1 w,
    );
    small2 = bit_or-lt 64 m.l2_word (i / 64 / 64 % 64) (omega arith) t.small2;
    tier1 = set_tier1;
    tier2 = set_tier2;
  }

  -- Setting a level sets its bit and no other.
  pub level_digit-set_level :
      (j : ℕ) → level_digit (set_level m i) j ≡ (if i == j then 1 else level_digit m j)
  unfolding set_level
  level_digit-set_level j = elim (Bool-cases (i / 64 == j / 64)) [
    | inl same ↦
        let e : i / 64 ≡ j / 64 = ground arith in
        let f : get_or (set_level m i).l0 (j / 64) 0 ≡ bit_or (get_or m.l0 (i / 64) 0) (bit i) =
          ground (
            arith,
            get_or-set m.l0 (i / 64) (j / 64) (bit_or (get_or m.l0 (i / 64) 0) (bit i)) 0 in_tier0,
          ) in
        rw f (
          ground (
            arith,
            digit-bit_or (get_or m.l0 (i / 64) 0) (i % 64) (j % 64),
            ap (λ x. digit (get_or m.l0 x 0) (j % 64)) e,
          ))
    | inr other ↦
        let f : get_or (set_level m i).l0 (j / 64) 0 ≡ get_or m.l0 (j / 64) 0 = ground (
          arith,
          get_or-set m.l0 (i / 64) (j / 64) (bit_or (get_or m.l0 (i / 64) 0) (bit i)) 0 in_tier0,
        ) in
        rw f (ground arith)
  ]

-- Clearing a bit of a word of zeros, and of another word.
and_dark : (w i : ℕ) → (bit_and w (no_bit i) == 0) ≡ false → (w == 0) ≡ false
and_dark w i h = elim (Bool-cases (w == 0)) [
  | inl z ↦
      let e : w ≡ 0 = ground arith in
      absurd (ground (arith, ap (λ v. bit_and v (no_bit i)) e, zero-bit_and (no_bit i)))
  | inr n ↦ n
]

module _ (m : LevelBitmap) (t : IsTiered m) (i : ℕ) (h : i < m.n) where
  abbrev word0 : ℕ
  word0 = bit_and (get_or m.l0 (i / 64) 0) (no_bit i)

  abbrev word1 : ℕ
  word1 = bit_and (get_or m.l1 (i / 64 / 64) 0) (no_bit (i / 64))

  digit-word1 :
      (j : ℕ)
      → digit word1 j ≡ (if i / 64 % 64 == j then 0 else digit (get_or m.l1 (i / 64 / 64) 0) j)
  digit-word1 j =
      digit-clear 64 (get_or m.l1 (i / 64 / 64) 0) (i / 64 % 64) j (omega arith)
        (t.small1 (i / 64 / 64))

  clear_at0 :
      (w : ℕ) → get_or (clear_level m i).l0 w 0 ≡ (if i / 64 == w then word0 else get_or m.l0 w 0)
  unfolding clear_level
  clear_at0 w = get_or-set m.l0 (i / 64) w word0 0 (in_tier0 m t i h)

  clear_at1 :
      (w : ℕ)
      → get_or (clear_level m i).l1 w 0 ≡ (
          if i / 64 / 64 == w
          then (if word0 == 0 then word1 else get_or m.l1 w 0)
          else get_or m.l1 w 0)
  unfolding clear_level
  clear_at1 w = elim (Bool-cases (word0 == 0)) [
    | inl z ↦ rw z (get_or-set m.l1 (i / 64 / 64) w word1 0 (in_tier1 m t i h))
    | inr n ↦ rw n (ground arith)
  ]

  clear_tier1 :
      (w : ℕ)
      → (digit (get_or (clear_level m i).l1 (w / 64) 0) (w % 64) == 0)
        ≡ (get_or (clear_level m i).l0 w 0 == 0)
  clear_tier1 w = elim (Bool-cases (i / 64 / 64 == w / 64)) [
    | inl same ↦
        let e : i / 64 / 64 ≡ w / 64 = ground arith in
        let old = ap (λ x. digit (get_or m.l1 x 0) (w % 64)) e in
        rw (clear_at0 w, clear_at1 (w / 64), same)
          (elim (Bool-cases (word0 == 0)) [
            | inl z ↦ rw z (ground (arith, z, digit-word1 (w % 64), old, t.tier1 w))
            | inr n ↦ rw n (ground (arith, n, t.tier1 w, and_dark (get_or m.l0 (i / 64) 0) i n))
          ])
    | inr other ↦ rw (clear_at0 w, clear_at1 (w / 64), other) (ground (arith, t.tier1 w))
  ]

  clear_tier2 :
      (w : ℕ) → (digit (clear_level m i).l2_word w == 0) ≡ (get_or (clear_level m i).l1 w 0 == 0)
  clear_tier2 w = rw (clear_at1 w) (
      unfold clear_level in
      ground (
        arith,
        t.tier2 w,
        in_tier2 m t i h,
        digit-clear 64 m.l2_word (i / 64 / 64 % 64) w (omega arith) t.small2,
        and_dark (get_or m.l1 (i / 64 / 64) 0) (i / 64),
      ))

  clear_small1 : (w : ℕ) → get_or (clear_level m i).l1 w 0 < 2 ^ 64
  clear_small1 w = ground (
    arith,
    clear_at1 w,
    t.small1 w,
    clear-lt 64 (get_or m.l1 (i / 64 / 64) 0) (i / 64 % 64) (omega arith) (t.small1 (i / 64 / 64)),
  )

  clear_small2 : (clear_level m i).l2_word < 2 ^ 64
  unfolding clear_level
  clear_small2 =
      ground (arith, t.small2, clear-lt 64 m.l2_word (i / 64 / 64 % 64) (omega arith) t.small2)

  clear_length1 : length (clear_level m i).l1 ≡ length m.l1
  unfolding clear_level
  clear_length1 = ground (arith, length-set m.l1 (i / 64 / 64) word1)

  clear_length0 : length (clear_level m i).l0 ≡ length m.l0
  unfolding clear_level
  clear_length0 = length-set m.l0 (i / 64) word0

  pub clear_level_n : (clear_level m i).n ≡ m.n
  unfolding clear_level
  clear_level_n = refl

  pub clear_level-IsTiered : IsTiered (clear_level m i)
  clear_level-IsTiered = record {
    sized0 = rw (clear_length0, clear_level_n) t.sized0;
    sized1 = rw (clear_length1, clear_level_n) t.sized1;
    capped = rw clear_length1 t.capped;
    small0 = λ w. ground (
      arith,
      clear_at0 w,
      t.small0 w,
      clear-lt 64 (get_or m.l0 (i / 64) 0) (i % 64) (omega arith) (t.small0 (i / 64)),
    );
    small1 = clear_small1;
    small2 = clear_small2;
    tier1 = clear_tier1;
    tier2 = clear_tier2;
  }

  -- Clearing a level clears its bit and no other.
  pub level_digit-clear_level :
      (j : ℕ) → level_digit (clear_level m i) j ≡ (if i == j then 0 else level_digit m j)
  level_digit-clear_level j = elim (Bool-cases (i / 64 == j / 64)) [
    | inl same ↦
        let e : i / 64 ≡ j / 64 = ground arith in
        rw (clear_at0 (j / 64), same)
          (ground (
            arith,
            digit-clear 64 (get_or m.l0 (i / 64) 0) (i % 64) (j % 64) (omega arith)
                (t.small0 (i / 64)),
            ap (λ x. digit (get_or m.l0 x 0) (j % 64)) e,
          ))
    | inr other ↦ rw (clear_at0 (j / 64), other) (ground arith)
  ]
