-- ===== src/Encoding/Table.antt =====
-- The alphabet and its table, and what one of its characters does to the decoder.
use libkmip.Base.{ℕ, ◌<◌, ◌≡◌, arith, false, some, ok, ◌==◌, ltb}
use libkmip.Encoding.Base64.{
  alphabet, lookup_symbol, is_base64_whitespace, Decoder, add_bits, decode_symbol,
}

-- The characters of the alphabet are neither white space nor padding, and stand for their places.
pub record IsSymbol (c n : ℕ) : Type 0 where
  pub no_space : is_base64_whitespace c ≡ false
  pub no_padding : (c == 61) ≡ false
  pub place : lookup_symbol c ≡ some n

pub alphabet-IsSymbol : (n : ℕ) → n < 64 → IsSymbol (alphabet n) n
alphabet-IsSymbol n h = record {
  no_space = ground arith;
  no_padding = ground arith;
  place = ground arith;
}

-- A character of the alphabet that comes before any padding adds its six bits.
pub decode_symbol-alphabet :
    (n : ℕ) (d : Decoder)
    → n < 64
    → d.padding ≡ 0
    → decode_symbol (alphabet n) d ≡ ok (add_bits n d)
unfolding decode_symbol
decode_symbol-alphabet n d h unpadded =
    let s = alphabet-IsSymbol n h in
    let before : ltb 0 d.padding ≡ false = ground (arith, unpadded) in
    rw (s.no_space, s.no_padding, s.place, before)
