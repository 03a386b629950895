-- ===== src/Encoding/Runs.antt =====
-- Runs of the encodings, and their theorems at concrete inputs.
use libkmip.Base.{ℕ, ◌≡◌, refl, arith, List, [], ◌∷◌, ok, err, if◌then◌else◌, ◌==◌, length}
use libkmip.Errors.{non_canonical_base64, invalid_hex_length}
use libkmip.Encoding.Hex.{from_hex, to_hex, from_hex-to_hex}
use libkmip.Encoding.Base64.{
  from_base64, to_base64, decode_symbols, decode_symbol, add_bits, finish,
}
use libkmip.Encoding.Inverse.{from_base64-to_base64}

abbrev key_bytes : List ℕ
key_bytes = 0 ∷ 255 ∷ 16 ∷ 131 ∷ []

base64_run : to_base64 key_bytes ≡ b'A' ∷ b'P' ∷ b'8' ∷ b'Q' ∷ b'g' ∷ b'w' ∷ b'=' ∷ b'=' ∷ []
unfolding to_base64
base64_run = refl

-- The second of two texts that would stand for the same byte.
second_text : from_base64 (b'Z' ∷ b'h' ∷ b'=' ∷ b'=' ∷ []) ≡ err non_canonical_base64
unfolding from_base64 decode_symbols decode_symbol add_bits finish
second_text = refl

from_base64-to_base64_example : from_base64 (to_base64 key_bytes) ≡ ok key_bytes
from_base64-to_base64_example = from_base64-to_base64 key_bytes (omega arith)

from_hex-to_hex_example :
    from_hex (to_hex key_bytes)
    ≡ (if length key_bytes == 0 then err invalid_hex_length else ok key_bytes)
from_hex-to_hex_example = from_hex-to_hex key_bytes (omega arith)
