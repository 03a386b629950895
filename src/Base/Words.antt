-- ===== src/Base/Words.antt =====
-- Machine words as bit patterns.
use Prim.Native.Nat.{ℕ, ◌+◌, ◌-◌, ◌%◌, ◌^◌}
use mathlib.Core.Bool.{Bool}
use libkmip.Base.Tests.{ltb, leb, if◌then◌else◌}

-- `a < b` and `a >= b` on int32_t values, given by their bit patterns: adding 2 ^ 31 turns the signed
-- order into that of the unsigned numbers.
abbrev pub lt_i32 : ℕ → ℕ → Bool
lt_i32 a b = ltb ((a + 2 ^ 31) % 2 ^ 32) ((b + 2 ^ 31) % 2 ^ 32)

abbrev pub le_i32 : ℕ → ℕ → Bool
le_i32 a b = leb ((a + 2 ^ 31) % 2 ^ 32) ((b + 2 ^ 31) % 2 ^ 32)

-- `static_cast<size_t>` of an int32_t: the sign is extended to 64 bits.
abbrev pub size_of_i32 : ℕ → ℕ
size_of_i32 w = if ltb w (2 ^ 31) then w else w + 2 ^ 64 - 2 ^ 32
