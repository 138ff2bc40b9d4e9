-- ===== src/Base/Words.antt =====
-- Unsigned machine words: a `uint64_t` or `size_t` is a number below 2 ^ 64, and its sums wrap.
use Prim.Native.Nat.{ℕ, ◌+◌, ◌-◌, ◌%◌, ◌^◌}

abbrev pub word : ℕ
word = 2 ^ 64

-- `++x`, `a + b` and `a - b`.
abbrev pub inc64 : ℕ → ℕ
inc64 n = (n + 1) % word

abbrev pub add64 : ℕ → ℕ → ℕ
add64 a b = (a + b) % word

abbrev pub sub64 : ℕ → ℕ → ℕ
sub64 a b = (a + word - b) % word
