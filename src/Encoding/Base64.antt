-- ===== src/Encoding/Base64.antt =====
-- kmiputil/src/Encoding.cpp: `from_base64` and `to_base64`.
use libkmip.Base.{
  ℕ, ◌+◌, ◌-◌, ◌*◌, ◌/◌, ◌%◌, ◌^◌, Bool, not, ◌&&◌, ◌||◌, List, [], ◌∷◌, ◌++◌, Option, none, some,
  Result, ok, err, ◌>>=◌, ◌>>◌, throw_if, ◌==◌, ltb, leb, if◌then◌else◌,
}
use libkmip.Errors.{
  Error, invalid_base64_character, data_after_padding, invalid_base64_length, non_canonical_base64,
}

-- kBase64Alphabet: A to Z, a to z, 0 to 9, + and /.
abbrev pub alphabet : ℕ → ℕ
alphabet n =
    if ltb n 26
    then 65 + n
    else if ltb n 52
    then 71 + n
    else if ltb n 62
    then n - 4
    else if n == 62
    then 43
    else 47

-- The table that is the alphabet's inverse, -1 as nothing.
abbrev pub lookup_symbol : ℕ → Option ℕ
lookup_symbol c =
    if leb 65 c && leb c 90
    then some (c - 65)
    else if leb 97 c && leb c 122
    then some (c - 71)
    else if leb 48 c && leb c 57
    then some (c + 4)
    else if c == 43
    then some 62
    else if c == 47
    then some 63
    else none

abbrev pub is_base64_whitespace : ℕ → Bool
is_base64_whitespace c = c == 32 || (c == 9 || (c == 13 || c == 10))

-- The variables of the loop. `val` is the bit pattern of an int32_t, and `bits` is `val_b + 8`.
pub record Decoder : Type 0 where
  pub out : List ℕ
  pub val : ℕ
  pub bits : ℕ
  pub symbols : ℕ
  pub padding : ℕ

abbrev pub initial_decoder : Decoder
initial_decoder = record { out = []; val = 0; bits = 0; symbols = 0; padding = 0 }

-- Six more bits, and a byte if there are eight of them.
unfoldable pub add_bits : ℕ → Decoder → Decoder
add_bits n d =
    let val = (d.val * 2 ^ 6 + n) % 2 ^ 32 in
    let bits = d.bits + 6 in
    if leb 8 bits
    then record d {
      out = d.out ++ (val / 2 ^ (bits - 8) % 256 ∷ []);
      val = val;
      bits = bits - 8;
      symbols = d.symbols + 1;
    }
    else record d { val = val; bits = bits; symbols = d.symbols + 1 }

unfoldable pub decode_symbol : ℕ → Decoder → Result Error Decoder
decode_symbol c d =
    if is_base64_whitespace c
    then ok d
    else if c == 61
    then ok (record d { symbols = d.symbols + 1; padding = d.padding + 1 })
    else elim (lookup_symbol c) [
      | none ↦ err invalid_base64_character
      | some n ↦ if ltb 0 d.padding then err data_after_padding else ok (add_bits n d)
    ]

unfoldable pub decode_symbols : List ℕ → Decoder → Result Error Decoder
decode_symbols [] d = ok d
decode_symbols (c ∷ base64) d = decode_symbol c d >>= λ after. decode_symbols base64 after

-- The checks after the loop.
unfoldable pub finish : Decoder → Result Error (List ℕ)
finish d = do
  throw_if (not (d.symbols % 4 == 0) || ltb 2 d.padding) invalid_base64_length
  throw_if (ltb 0 d.bits && not (d.val % 2 ^ d.bits == 0)) non_canonical_base64
  ok d.out

unfoldable pub from_base64 : List ℕ → Result Error (List ℕ)
from_base64 base64 = decode_symbols base64 initial_decoder >>= finish

-- Three bytes at a time, and the padded rest.
unfoldable pub to_base64 : List ℕ → List ℕ
to_base64 [] = []
to_base64 (a ∷ []) =
    let n = a * 2 ^ 16 in alphabet (n / 2 ^ 18 % 64) ∷ alphabet (n / 2 ^ 12 % 64) ∷ 61 ∷ 61 ∷ []
to_base64 (a ∷ b ∷ []) =
    let n = a * 2 ^ 16 + b * 2 ^ 8 in
    alphabet (n / 2 ^ 18 % 64) ∷ alphabet (n / 2 ^ 12 % 64) ∷ alphabet (n / 2 ^ 6 % 64) ∷ 61 ∷ []
to_base64 (a ∷ b ∷ c ∷ bytes) =
    let n = a * 2 ^ 16 + b * 2 ^ 8 + c in
    alphabet (n / 2 ^ 18 % 64)
    ∷ alphabet (n / 2 ^ 12 % 64)
    ∷ alphabet (n / 2 ^ 6 % 64)
    ∷ alphabet (n % 64)
    ∷ to_base64 bytes
