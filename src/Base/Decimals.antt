-- ===== src/Base/Decimals.antt =====
-- `std::to_string` and `std::strtol` with base ten.
use Prim.Native.Nat.{ℕ, zero, suc, ◌+◌, ◌-◌, ◌*◌, ◌/◌, ◌%◌, ◌^◌}
use mathlib.Core.Bool.{Bool, ◌||◌, ◌&&◌}
use mathlib.Core.Option.{Option, none, some}
use mathlib.Core.List.{List, [], ◌∷◌}
use libkmip.Base.Tests.{◌==◌, ltb, leb, if◌then◌else◌}

-- The digits before the ones that are written; no integer has more than twenty.
abbrev pub digits : ℕ → ℕ → List ℕ → List ℕ
digits zero n rest = rest
digits (suc fuel) n rest =
    let more = digits fuel (n / 10) ((b'0' + n % 10) ∷ rest) in if n == 0 then rest else more

abbrev pub decimal : ℕ → List ℕ
decimal n = if n == 0 then b'0' ∷ [] else digits 20 n []

-- `std::to_string` of an integer of `bits` bits with a sign, given by its bit pattern.
abbrev pub signed_decimal : ℕ → ℕ → List ℕ
signed_decimal bits n = if ltb n (2 ^ (bits - 1)) then decimal n else b'-' ∷ decimal (2 ^ bits - n)

abbrev pub is_digit : ℕ → Bool
is_digit c = leb b'0' c && leb c b'9'

-- `isspace`: the space, and the controls from tab to carriage return.
abbrev pub is_space : ℕ → Bool
is_space c = (c == 32) || (leb 9 c && leb c 13)

-- The value of the digits, if there is nothing else up to the first zero byte or the end.
abbrev pub read_digits : List ℕ → ℕ → Option ℕ
read_digits [] n = some n
read_digits (c ∷ rest) n =
    let later = read_digits rest (n * 10 + (c - b'0')) in
    if c == 0 then some n else if is_digit c then later else none

abbrev pub skip_spaces : List ℕ → List ℕ
skip_spaces [] = []
skip_spaces (c ∷ rest) = let later = skip_spaces rest in if is_space c then later else c ∷ rest

-- At least one digit.
abbrev pub read_number : List ℕ → Option ℕ
read_number [] = none
read_number (c ∷ rest) = if is_digit c then read_digits (c ∷ rest) 0 else none

-- A number that a long can hold, as a bit pattern, of either sign.
abbrev pub positive_long : Option ℕ → Option ℕ
positive_long none = none
positive_long (some n) = if ltb n (2 ^ 63) then some n else none

abbrev pub negative_long : Option ℕ → Option ℕ
negative_long none = none
negative_long (some n) = if leb n (2 ^ 63) then some ((2 ^ 64 - n) % 2 ^ 64) else none

abbrev pub read_signed : List ℕ → Option ℕ
read_signed [] = none
read_signed (c ∷ rest) =
    if c == b'-'
    then negative_long (read_number rest)
    else if c == b'+'
    then positive_long (read_number rest)
    else positive_long (read_number (c ∷ rest))

-- `strtol(s, &end, 10)` with `errno == 0 && end != s && *end == '\0'`, as the bit pattern of a long.
abbrev pub strtol : List ℕ → Option ℕ
strtol s = read_signed (skip_spaces s)
