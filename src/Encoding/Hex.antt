-- ===== src/Encoding/Hex.antt =====
-- kmiputil/src/Encoding.cpp: `from_hex` and `to_hex`.
use libkmip.Base.{
  ℕ, ◌+◌, ◌-◌, ◌*◌, ◌/◌, ◌%◌, ◌<◌, ◌≡◌, refl, arith, Bool, true, false, not, ◌&&◌, ◌||◌, List, [],
  ◌∷◌, Result, ok, err, ◌>>=◌, ◌>>◌, throw_if, ◌==◌, leb, if◌then◌else◌, length, All,
}
use libkmip.Errors.{Error, invalid_hex_character, invalid_hex_length}

abbrev pub is_between : ℕ → ℕ → ℕ → Bool
is_between low high c = leb low c && leb c high

abbrev pub hex_value : ℕ → Result Error ℕ
hex_value c =
    if is_between 48 57 c
    then ok (c - 48)
    else if is_between 65 70 c
    then ok (c - 65 + 10)
    else if is_between 97 102 c
    then ok (c - 97 + 10)
    else err invalid_hex_character

-- The digits in pairs; the length is even.
unfoldable pub from_hex_loop : List ℕ → Result Error (List ℕ)
from_hex_loop [] = ok []
from_hex_loop (a ∷ []) = ok []
from_hex_loop (a ∷ b ∷ hex) = hex_value a >>= λ high.
    hex_value b >>= λ low. from_hex_loop hex >>= λ bytes. ok ((high * 16 + low) % 256 ∷ bytes)

unfoldable pub from_hex : List ℕ → Result Error (List ℕ)
from_hex hex = do
  throw_if (length hex == 0 || not (length hex % 2 == 0)) invalid_hex_length
  from_hex_loop hex

-- kHexDigits
abbrev pub hex_digit : ℕ → ℕ
hex_digit n = if leb n 9 then 48 + n else 87 + n

unfoldable pub to_hex : List ℕ → List ℕ
to_hex [] = []
to_hex (b ∷ bytes) = hex_digit (b / 16) ∷ hex_digit (b % 16) ∷ to_hex bytes

hex_value-hex_digit : (n : ℕ) → n < 16 → hex_value (hex_digit n) ≡ ok n
hex_value-hex_digit n h = ground arith

from_hex_loop-to_hex :
    (bytes : List ℕ) → All (λ (b : ℕ). b < 256) bytes → from_hex_loop (to_hex bytes) ≡ ok bytes
unfolding from_hex_loop to_hex
from_hex_loop-to_hex [] w = refl
from_hex_loop-to_hex (b ∷ bytes) (w, ws) =
    let whole : (b / 16 * 16 + b % 16) % 256 ≡ b = omega arith in
    rw (
      hex_value-hex_digit (b / 16) (omega arith),
      hex_value-hex_digit (b % 16) (omega arith),
      from_hex_loop-to_hex bytes ws,
      whole,
    )

length-to_hex : (bytes : List ℕ) → length (to_hex bytes) ≡ 2 * length bytes
unfolding to_hex
length-to_hex [] = refl
length-to_hex (b ∷ bytes) = omega (arith, length-to_hex bytes)

-- The hexadecimal digits of some numbers below 256 are read back to them, and those of none are
-- refused.
pub from_hex-to_hex :
    (bytes : List ℕ)
    → All (λ (b : ℕ). b < 256) bytes
    → from_hex (to_hex bytes) ≡ (if length bytes == 0 then err invalid_hex_length else ok bytes)
unfolding from_hex
from_hex-to_hex [] w = unfold to_hex in refl
from_hex-to_hex (b ∷ bytes) w =
    let even : (length (to_hex (b ∷ bytes)) % 2 == 0) ≡ true =
      ground (arith, length-to_hex (b ∷ bytes)) in
    let some_digit : (length (to_hex (b ∷ bytes)) == 0) ≡ false =
      ground (arith, length-to_hex (b ∷ bytes)) in
    rw (some_digit, even, from_hex_loop-to_hex (b ∷ bytes) w) (ground arith)
