-- ===== src/Encoding/Inverse.antt =====
-- Base64 read back: a group of bytes at a time, and the padded rest.
use libkmip.Base.{
  ℕ, ◌+◌, ◌*◌, ◌/◌, ◌%◌, ◌^◌, ◌≤◌, ◌<◌, ◌≡◌, refl, sym, ap, inl, inr, Bool-cases, ==_eq, ◌∙◌, arith,
  true, false, List, [], ◌∷◌, ◌++◌, append_assoc, append-nil, Result, ok, ◌>>=◌, ◌==◌, ltb, All,
}
use libkmip.Errors.{Error}
use libkmip.Encoding.Base64.{
  alphabet, Decoder, add_bits, decode_symbol, decode_symbols, finish, from_base64, to_base64,
}
use libkmip.Encoding.Table.{decode_symbol-alphabet}
use libkmip.Encoding.Groups.{
  push_bits, first_symbol, second_symbol, third_symbol, fourth_symbol, first_byte, second_byte,
  third_byte,
}

abbrev state : List ℕ → ℕ → ℕ → ℕ → Decoder
state out val bits symbols = record {
  out = out;
  val = val;
  bits = bits;
  symbols = symbols;
  padding = 0;
}

-- The bytes decoded from here on.
abbrev decoded : List ℕ → Decoder → Result Error (List ℕ)
decoded base64 d = decode_symbols base64 d >>= finish

decoded_symbol :
    (n : ℕ) (base64 : List ℕ) (d : Decoder)
    → n < 64
    → d.padding ≡ 0
    → decoded (alphabet n ∷ base64) d ≡ decoded base64 (add_bits n d)
unfolding decode_symbols
decoded_symbol n base64 d h unpadded = rw (decode_symbol-alphabet n d h unpadded)

module _ (n : ℕ) (small : n < 64) (base64 out : List ℕ) (val symbols : ℕ) where
  first_of_four :
      decoded (alphabet n ∷ base64) (state out val 0 symbols)
      ≡ decoded base64 (state out (push_bits val n) 6 (symbols + 1))
  unfolding add_bits
  first_of_four = decoded_symbol n base64 (state out val 0 symbols) small refl

  second_of_four :
      (byte : ℕ)
      → push_bits val n / 2 ^ 4 % 256 ≡ byte
      → decoded (alphabet n ∷ base64) (state out val 6 symbols)
        ≡ decoded base64 (state (out ++ (byte ∷ [])) (push_bits val n) 4 (symbols + 1))
  unfolding add_bits
  second_of_four byte is =
      decoded_symbol n base64 (state out val 6 symbols) small refl
      ∙ ap (λ (b : ℕ). decoded base64 (state (out ++ (b ∷ [])) (push_bits val n) 4 (symbols + 1)))
          is

  third_of_four :
      (byte : ℕ)
      → push_bits val n / 2 ^ 2 % 256 ≡ byte
      → decoded (alphabet n ∷ base64) (state out val 4 symbols)
        ≡ decoded base64 (state (out ++ (byte ∷ [])) (push_bits val n) 2 (symbols + 1))
  unfolding add_bits
  third_of_four byte is =
      decoded_symbol n base64 (state out val 4 symbols) small refl
      ∙ ap (λ (b : ℕ). decoded base64 (state (out ++ (b ∷ [])) (push_bits val n) 2 (symbols + 1)))
          is

  fourth_of_four :
      (byte : ℕ)
      → push_bits val n % 256 ≡ byte
      → decoded (alphabet n ∷ base64) (state out val 2 symbols)
        ≡ decoded base64 (state (out ++ (byte ∷ [])) (push_bits val n) 0 (symbols + 1))
  unfolding add_bits
  fourth_of_four byte is =
      let whole : push_bits val n / 2 ^ 0 % 256 ≡ byte = omega (arith, is) in
      decoded_symbol n base64 (state out val 2 symbols) small refl
      ∙ ap (λ (b : ℕ). decoded base64 (state (out ++ (b ∷ [])) (push_bits val n) 0 (symbols + 1)))
          whole

-- What the decoder makes of the symbols of three bytes.
group_of_three :
    (a b c : ℕ) (base64 out : List ℕ) (val symbols : ℕ)
    → a < 256
    → b < 256
    → c < 256
    → decoded
        (alphabet (a / 4)
          ∷ alphabet (a % 4 * 16 + b / 16)
          ∷ alphabet (b % 16 * 4 + c / 64)
          ∷ alphabet (c % 64)
          ∷ base64)
        (state out val 0 symbols)
      ≡ decoded base64 (
          state
            (((out ++ (a ∷ [])) ++ (b ∷ [])) ++ (c ∷ []))
            (push_bits
              (push_bits
                (push_bits (push_bits val (a / 4)) (a % 4 * 16 + b / 16))
                (b % 16 * 4 + c / 64))
              (c % 64))
            0
            (symbols + 1 + 1 + 1 + 1))
group_of_three a b c base64 out val symbols wa wb wc =
    first_of_four (a / 4) (omega arith) _ out val symbols
    ∙ second_of_four (a % 4 * 16 + b / 16) (omega arith) _ out (push_bits val (a / 4)) (symbols + 1)
        a (first_byte a b c wa wb wc val)
    ∙ third_of_four (b % 16 * 4 + c / 64) (omega arith) _ _ _ (symbols + 1 + 1) b
        (second_byte a b c wa wb wc (push_bits val (a / 4)))
    ∙ fourth_of_four (c % 64) (omega arith) base64 _ _ (symbols + 1 + 1 + 1) c
        (third_byte a b c wa wb wc _)

three_more :
    {A : Type 0} (a b c : A) (bytes out : List A)
    → (((out ++ (a ∷ [])) ++ (b ∷ [])) ++ (c ∷ [])) ++ bytes ≡ out ++ (a ∷ b ∷ c ∷ bytes)
three_more a b c bytes out = rw (
  append_assoc ((out ++ (a ∷ [])) ++ (b ∷ [])) (c ∷ []) bytes,
  append_assoc (out ++ (a ∷ [])) (b ∷ []) (c ∷ bytes),
  append_assoc out (a ∷ []) (b ∷ c ∷ bytes),
)

finish_lem :
    (d : Decoder) → d.symbols % 4 ≡ 0 → d.padding ≤ 2 → d.val % 2 ^ d.bits ≡ 0 → finish d ≡ ok d.out
unfolding finish
finish_lem d fours few clean =
    let counted : (d.symbols % 4 == 0) ≡ true = ground (arith, fours) in
    let padded : ltb 2 d.padding ≡ false = ground (arith, few) in
    let canonical : (d.val % 2 ^ d.bits == 0) ≡ true = ==_eq _ _ clean in
    elim (Bool-cases (ltb 0 d.bits)) [
      | inl some_bits ↦ rw (counted, padded, some_bits, canonical)
      | inr no_bits ↦ rw (counted, padded, no_bits)
    ]

decoded-to_base64 :
    (bytes out : List ℕ) (val symbols : ℕ)
    → All (λ (b : ℕ). b < 256) bytes
    → symbols % 4 ≡ 0
    → decoded (to_base64 bytes) (state out val 0 symbols) ≡ ok (out ++ bytes)
unfolding to_base64 decode_symbols decode_symbol
decoded-to_base64 [] out val symbols w fours =
    finish_lem (state out val 0 symbols) fours (omega arith) (omega arith)
    ∙ ap (λ (x : List ℕ). ok x) (sym (append-nil out))
decoded-to_base64 (a ∷ []) out val symbols (wa, _) fours =
    let first : a * 2 ^ 16 / 2 ^ 18 % 64 ≡ a / 4 = omega arith in
    let second : a * 2 ^ 16 / 2 ^ 12 % 64 ≡ a % 4 * 16 + 0 / 16 = omega arith in
    rw (first, second)
      (first_of_four (a / 4) (omega arith) (alphabet (a % 4 * 16 + 0 / 16) ∷ 61 ∷ 61 ∷ []) out val
          symbols
        ∙ second_of_four (a % 4 * 16 + 0 / 16) (omega arith) (61 ∷ 61 ∷ []) out
            (push_bits val (a / 4)) (symbols + 1) a
            (first_byte a 0 0 wa (omega arith) (omega arith) val)
        ∙ finish_lem _ (omega (arith, fours)) (omega arith) (omega arith))
decoded-to_base64 (a ∷ b ∷ []) out val symbols (wa, wb) fours =
    let first : (a * 2 ^ 16 + b * 2 ^ 8) / 2 ^ 18 % 64 ≡ a / 4 = omega arith in
    let second : (a * 2 ^ 16 + b * 2 ^ 8) / 2 ^ 12 % 64 ≡ a % 4 * 16 + b / 16 = omega arith in
    let third : (a * 2 ^ 16 + b * 2 ^ 8) / 2 ^ 6 % 64 ≡ b % 16 * 4 + 0 / 64 = omega arith in
    rw (first, second, third)
      (first_of_four (a / 4) (omega arith)
          (alphabet (a % 4 * 16 + b / 16) ∷ alphabet (b % 16 * 4 + 0 / 64) ∷ 61 ∷ []) out val
          symbols
        ∙ second_of_four (a % 4 * 16 + b / 16) (omega arith)
            (alphabet (b % 16 * 4 + 0 / 64) ∷ 61 ∷ []) out (push_bits val (a / 4)) (symbols + 1) a
            (first_byte a b 0 wa wb.0 (omega arith) val)
        ∙ third_of_four (b % 16 * 4 + 0 / 64) (omega arith) (61 ∷ []) _ _ (symbols + 1 + 1) b
            (second_byte a b 0 wa wb.0 (omega arith) (push_bits val (a / 4)))
        ∙ finish_lem _ (omega (arith, fours)) (omega arith) (omega arith)
        ∙ ap (λ (x : List ℕ). ok x) (append_assoc out (a ∷ []) (b ∷ [])))
decoded-to_base64 (a ∷ b ∷ c ∷ bytes) out val symbols (wa, (wb, (wc, ws))) fours =
    rw
      (
        first_symbol a b c wa wb wc,
        second_symbol a b c wa wb wc,
        third_symbol a b c wa wb wc,
        fourth_symbol a b c wa wb wc,
      )
      (group_of_three a b c (to_base64 bytes) out val symbols wa wb wc
        ∙ decoded-to_base64 bytes _ _ (symbols + 1 + 1 + 1 + 1) ws (omega (arith, fours))
        ∙ ap (λ (x : List ℕ). ok x) (three_more a b c bytes out))

-- Every sequence of numbers below 256 is read back from its Base64.
pub from_base64-to_base64 :
    (bytes : List ℕ) → All (λ (b : ℕ). b < 256) bytes → from_base64 (to_base64 bytes) ≡ ok bytes
unfolding from_base64
from_base64-to_base64 bytes w = decoded-to_base64 bytes [] 0 0 w refl
