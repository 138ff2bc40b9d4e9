-- ===== src/Book/Bitmap/Extremes.antt =====
-- find_lowest and find_highest of the bitmap (cpp/src/order_book.cpp) against the bits of the lowest
-- tier.
use high_frequency_trading.Base.{
  ℕ, ◌+◌, ◌*◌, ◌/◌, ◌%◌, ◌<◌, ◌≡◌, refl, ap, ◌∙◌, ◌⊎◌, ◌≢◌, inl, inr, none, some, arith, ◌==◌,
  get_or, Bool-cases,
}
use high_frequency_trading.Base.Digits.{digit, digit-zero}
use high_frequency_trading.Book.Bitmap.{
  LevelBitmap, find_lowest, find_highest, lowest_bit, highest_bit,
}
use high_frequency_trading.Book.Bitmap.Scans.{low_bit_lem, high_bit_lem}
use high_frequency_trading.Book.Bitmap.Tiers.{IsTiered, level_digit}

-- A level whose word is zero has no bit.
dark_word : (m : LevelBitmap) (i : ℕ) → get_or m.l0 (i / 64) 0 ≡ 0 → level_digit m i ≡ 0
dark_word m i e = ap (λ w. digit w (i % 64)) e ∙ digit-zero (i % 64)

module _ (m : LevelBitmap) (t : IsTiered m) where
  dark_middle :
      (i : ℕ) → digit (get_or m.l1 (i / 64 / 64) 0) (i / 64 % 64) ≡ 0 → level_digit m i ≡ 0
  dark_middle i e = dark_word m i (ground (arith, t.tier1 (i / 64)))

  dark_top : (i : ℕ) → digit m.l2_word (i / 64 / 64) ≡ 0 → level_digit m i ≡ 0
  dark_top i e =
      let z : get_or m.l1 (i / 64 / 64) 0 ≡ 0 = ground (arith, t.tier2 (i / 64 / 64)) in
      dark_middle i (ap (λ w. digit w (i / 64 % 64)) z ∙ digit-zero (i / 64 % 64))

  dark_all : m.l2_word ≡ 0 → (i : ℕ) → level_digit m i ≡ 0
  dark_all e i = dark_top i (ap (λ w. digit w (i / 64 / 64)) e ∙ digit-zero (i / 64 / 64))

  word1 : (w1 : ℕ) → digit m.l2_word w1 ≡ 1 → get_or m.l1 w1 0 ≢ 0
  word1 w1 h e = ground (arith, t.tier2 w1)

  word0 : (w1 c : ℕ) → c < 64 → digit (get_or m.l1 w1 0) c ≡ 1 → get_or m.l0 (w1 * 64 + c) 0 ≢ 0
  word0 w1 c small h e =
      let p : (w1 * 64 + c) / 64 ≡ w1 = omega arith in
      let q : (w1 * 64 + c) % 64 ≡ c = omega arith in
      let g : digit (get_or m.l1 ((w1 * 64 + c) / 64) 0) ((w1 * 64 + c) % 64) ≡ 1 = rw (p, q) h in
      ground (arith, t.tier1 (w1 * 64 + c))

abbrev pub level : ℕ → ℕ → ℕ → ℕ
level w1 c b = (w1 * 64 + c) * 64 + b

-- The bit at a level, by the words on the way to it.
lit :
    (m : LevelBitmap) (w1 c b : ℕ)
    → c < 64
    → b < 64
    → digit (get_or m.l0 (w1 * 64 + c) 0) b ≡ 1
    → level_digit m (level w1 c b) ≡ 1
lit m w1 c b hc hb h =
    let p : level w1 c b / 64 ≡ w1 * 64 + c = omega arith in
    let q : level w1 c b % 64 ≡ b = omega arith in rw (p, q) h

-- What a search for the lowest level, and one for the highest, answers.
abbrev pub IsLowest : LevelBitmap → ℕ → Type 0
IsLowest m i = (level_digit m i ≡ 1) × ((j : ℕ) → j < i → level_digit m j ≡ 0)

abbrev pub IsHighest : LevelBitmap → ℕ → Type 0
IsHighest m i = (level_digit m i ≡ 1) × ((j : ℕ) → i < j → level_digit m j ≡ 0)

abbrev pub IsDark : LevelBitmap → Type 0
IsDark m = (i : ℕ) → level_digit m i ≡ 0

module _ (m : LevelBitmap) (t : IsTiered m) (w1 c b : ℕ) (hc : c < 64) (hb : b < 64) where
  -- Below: in an earlier group of words, in an earlier word, or earlier in the word.
  below :
      ((x : ℕ) → x < w1 → digit m.l2_word x ≡ 0)
      → ((x : ℕ) → x < c → digit (get_or m.l1 w1 0) x ≡ 0)
      → ((x : ℕ) → x < b → digit (get_or m.l0 (w1 * 64 + c) 0) x ≡ 0)
      → (j : ℕ) → j < level w1 c b
      → level_digit m j ≡ 0
  below h2 h1 h0 j l = elim (Bool-cases (j / 64 / 64 == w1)) [
    | inr group ↦ dark_top m t j (h2 (j / 64 / 64) (ground arith))
    | inl same_group ↦ elim (Bool-cases (j / 64 == w1 * 64 + c)) [
      | inr word ↦
          let e : j / 64 / 64 ≡ w1 = ground arith in
          let lower : j / 64 % 64 < c = ground arith in
          dark_middle m t j (rw e (h1 (j / 64 % 64) lower))
      | inl same_word ↦
          let e : j / 64 ≡ w1 * 64 + c = ground arith in
          let lower : j % 64 < b = ground arith in rw e (h0 (j % 64) lower)
    ]
  ]

  above :
      ((x : ℕ) → w1 < x → digit m.l2_word x ≡ 0)
      → ((x : ℕ) → c < x → digit (get_or m.l1 w1 0) x ≡ 0)
      → ((x : ℕ) → b < x → digit (get_or m.l0 (w1 * 64 + c) 0) x ≡ 0)
      → (j : ℕ) → level w1 c b < j
      → level_digit m j ≡ 0
  above h2 h1 h0 j l = elim (Bool-cases (j / 64 / 64 == w1)) [
    | inr group ↦ dark_top m t j (h2 (j / 64 / 64) (ground arith))
    | inl same_group ↦ elim (Bool-cases (j / 64 == w1 * 64 + c)) [
      | inr word ↦
          let e : j / 64 / 64 ≡ w1 = ground arith in
          let higher : c < j / 64 % 64 = ground arith in
          dark_middle m t j (rw e (h1 (j / 64 % 64) higher))
      | inl same_word ↦
          let e : j / 64 ≡ w1 * 64 + c = ground arith in
          let higher : b < j % 64 = ground arith in rw e (h0 (j % 64) higher)
    ]
  ]

-- On a bitmap whose tiers agree, the search for the lowest level answers none exactly when no level
-- has its bit set, and else the level whose bit is set while no level below it has one.
pub find_lowest_lem :
    (m : LevelBitmap)
    → IsTiered m
    → ((find_lowest m ≡ none) × IsDark m) ⊎ ((i : ℕ) × (find_lowest m ≡ some i) × IsLowest m i)
unfolding find_lowest
find_lowest_lem m t = elim (Bool-cases (m.l2_word == 0)) [
  | inl empty ↦ inl (rw empty refl, dark_all m t (ground arith))
  | inr some_word ↦
      let (b1, set1, least1) = low_bit_lem 64 m.l2_word t.small2 (ground arith) in
      let w1 = lowest_bit m.l2_word in
      let (b2, set2, least2) =
        low_bit_lem 64 (get_or m.l1 w1 0) (t.small1 w1) (word1 m t w1 set1) in
      let c = lowest_bit (get_or m.l1 w1 0) in
      let (b3, set3, least3) =
        low_bit_lem 64 (get_or m.l0 (w1 * 64 + c) 0) (t.small0 (w1 * 64 + c))
          (word0 m t w1 c b2 set2) in
      let b = lowest_bit (get_or m.l0 (w1 * 64 + c) 0) in
      inr (
        level w1 c b,
        rw some_word refl,
        (lit m w1 c b b2 b3 set3, below m t w1 c b b2 b3 least1 least2 least3),
      )
]

-- On a bitmap whose tiers agree, the search for the highest level answers none exactly when no level
-- has its bit set, and else the level whose bit is set while no level above it has one.
pub find_highest_lem :
    (m : LevelBitmap)
    → IsTiered m
    → ((find_highest m ≡ none) × IsDark m) ⊎ ((i : ℕ) × (find_highest m ≡ some i) × IsHighest m i)
unfolding find_highest
find_highest_lem m t = elim (Bool-cases (m.l2_word == 0)) [
  | inl empty ↦ inl (rw empty refl, dark_all m t (ground arith))
  | inr some_word ↦
      let (b1, set1, most1) = high_bit_lem 64 m.l2_word t.small2 (ground arith) in
      let w1 = highest_bit m.l2_word in
      let (b2, set2, most2) =
        high_bit_lem 64 (get_or m.l1 w1 0) (t.small1 w1) (word1 m t w1 set1) in
      let c = highest_bit (get_or m.l1 w1 0) in
      let (b3, set3, most3) =
        high_bit_lem 64 (get_or m.l0 (w1 * 64 + c) 0) (t.small0 (w1 * 64 + c))
          (word0 m t w1 c b2 set2) in
      let b = highest_bit (get_or m.l0 (w1 * 64 + c) 0) in
      inr (
        level w1 c b,
        rw some_word refl,
        (lit m w1 c b b2 b3 set3, above m t w1 c b b2 b3 most1 most2 most3),
      )
]
