-- ===== src/Encoding/Groups.antt =====
-- The bits of a group of three bytes, as the decoder collects them.
use libkmip.Base.{ℕ, ◌+◌, ◌*◌, ◌/◌, ◌%◌, ◌^◌, ◌<◌, ◌≡◌, arith}

-- What `val` becomes when six bits are added.
abbrev pub push_bits : ℕ → ℕ → ℕ
push_bits val n = (val * 2 ^ 6 + n) % 2 ^ 32

low_bits : (val n : ℕ) → n < 64 → push_bits val n % 2 ^ 18 ≡ (val % 2 ^ 12) * 2 ^ 6 + n
low_bits val n h = omega arith

-- The groups of six bits that the bytes `a`, `b` and `c` make up.
abbrev pub word : ℕ → ℕ → ℕ → ℕ
word a b c = a * 2 ^ 16 + b * 2 ^ 8 + c

module _ (a b c : ℕ) (a_byte : a < 256) (b_byte : b < 256) (c_byte : c < 256) where
  pub first_symbol : word a b c / 2 ^ 18 % 64 ≡ a / 4
  first_symbol = omega arith

  pub second_symbol : word a b c / 2 ^ 12 % 64 ≡ a % 4 * 16 + b / 16
  second_symbol = omega arith

  pub third_symbol : word a b c / 2 ^ 6 % 64 ≡ b % 16 * 4 + c / 64
  third_symbol = omega arith

  pub fourth_symbol : word a b c % 64 ≡ c % 64
  fourth_symbol = omega arith

  pub first_byte :
      (val : ℕ) → push_bits (push_bits val (a / 4)) (a % 4 * 16 + b / 16) / 2 ^ 4 % 256 ≡ a
  first_byte val = omega arith

  pub second_byte :
      (val : ℕ)
      → push_bits (push_bits val (a % 4 * 16 + b / 16)) (b % 16 * 4 + c / 64) / 2 ^ 2 % 256 ≡ b
  second_byte val = omega arith

  pub third_byte : (val : ℕ) → push_bits (push_bits val (b % 16 * 4 + c / 64)) (c % 64) % 256 ≡ c
  third_byte val = omega arith
