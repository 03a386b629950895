-- ===== src/Ttlv/ReadBack.antt =====
-- `deserialize` reads an encoding back, wherever it stands in the input.
use libkmip.Base.{
  ℕ, zero, suc, ◌+◌, ◌-◌, ◌%◌, ◌^◌, ◌≤◌, ◌<◌, ◌≡◌, ◌≢◌, refl, sym, ap, ap₂, ◌∙◌, arith, true, false,
  List, [], ◌∷◌, ◌++◌, append_assoc, length, take, drop, replicate, ok, le→ltb, length-append,
  length-drop, take-append, drop-at, get_or-at, get_or-at_zero,
}
use libkmip.Buffer.{padding_of}
use libkmip.Ttlv.{
  element, Value, structure, integer, long_integer, big_integer, enumeration, boolean, text_string,
  byte_string, date_time, date_time_extended, interval, code_of, type_structure,
}
use libkmip.Ttlv.Bytes.{be24, be32}
use libkmip.Ttlv.Header.{read_tag-be24, read_be_u32-be32, read_be_u64-be64}
use libkmip.Ttlv.Steps.{Header, flat_step}
use libkmip.Ttlv.Encode.{encode, payload, padded, IsWire, IsWireValue, length-padded}
use libkmip.Ttlv.Deserialize.{
  zero_padding_loop, validate_zero_padding, padded_length_of, parse_value, parse_primitive,
  deserialize_impl, subspan, max_structure_depth,
}

zero_padding_loop-zeros :
    (n : ℕ) (bytes : List ℕ) (i : ℕ) (rest : List ℕ)
    → drop i bytes ≡ replicate n 0 ++ rest
    → zero_padding_loop n bytes i ≡ ok tt
unfolding zero_padding_loop
zero_padding_loop-zeros zero bytes i rest e = refl
zero_padding_loop-zeros (suc n) bytes i rest e = rw (get_or-at_zero i bytes _ 0 e) (
    zero_padding_loop-zeros n bytes (i + 1) rest
      (drop-at i bytes (0 ∷ []) (replicate n 0 ++ rest) 1 e refl))

subspan-padded :
    (text bytes rest : List ℕ) (off : ℕ)
    → drop off bytes ≡ padded text ++ rest
    → subspan bytes off (length text) ≡ text
subspan-padded text bytes rest off e =
    ap (take (length text)) (e ∙ append_assoc text _ rest) ∙ take-append text _ (length text) refl

parse_value-payload :
    (value : Value) (bytes rest : List ℕ) (off : ℕ)
    → code_of value ≢ type_structure
    → IsWireValue value
    → drop off bytes ≡ padded (payload value) ++ rest
    → parse_value (code_of value) (length (payload value)) bytes off ≡ ok value
unfolding parse_value encode
parse_value-payload (structure items) bytes rest off s w e = absurd (s refl)
parse_value-payload (integer n) bytes rest off s w e = rw (read_be_u32-be32 bytes off n _ w e)
parse_value-payload (long_integer n) bytes rest off s w e = rw (read_be_u64-be64 bytes off n _ w e)
parse_value-payload (big_integer text) bytes rest off s w e =
    rw (subspan-padded text bytes rest off e)
parse_value-payload (enumeration n) bytes rest off s w e = rw (read_be_u32-be32 bytes off n _ w e)
parse_value-payload (boolean true) bytes rest off s w e =
    rw (read_be_u64-be64 bytes off 1 _ (omega arith) e)
parse_value-payload (boolean false) bytes rest off s w e =
    rw (read_be_u64-be64 bytes off 0 _ (omega arith) e)
parse_value-payload (text_string text) bytes rest off s w e =
    rw (subspan-padded text bytes rest off e)
parse_value-payload (byte_string text) bytes rest off s w e =
    rw (subspan-padded text bytes rest off e)
parse_value-payload (date_time n) bytes rest off s w e = rw (read_be_u64-be64 bytes off n _ w e)
parse_value-payload (date_time_extended n) bytes rest off s w e =
    rw (read_be_u64-be64 bytes off n _ w e)
parse_value-payload (interval n) bytes rest off s w e = rw (read_be_u32-be32 bytes off n _ w e)

padded_length_of-padded :
    (type : ℕ) (text : List ℕ)
    → type ≢ type_structure
    → padded_length_of type (length text) ≡ length (padded text)
padded_length_of-padded type text s = ground (arith, length-padded text)

validate-padded :
    (text bytes rest : List ℕ) (off : ℕ)
    → drop off bytes ≡ padded text ++ rest
    → validate_zero_padding bytes off (length text) (length (padded text)) ≡ ok tt
validate-padded text bytes rest off e =
    let todo : length (padded text) - length text ≡ padding_of (length text) =
      omega (arith, length-padded text) in
    rw todo (
      zero_padding_loop-zeros _ bytes _ rest (
        drop-at off bytes text (replicate (padding_of (length text)) 0 ++ rest) (length text)
          (e ∙ append_assoc text _ rest) refl))

parse_primitive-padded :
    (tag : ℕ) (value : Value) (bytes rest : List ℕ) (off : ℕ)
    → code_of value ≢ type_structure
    → IsWireValue value
    → off ≤ length bytes
    → drop off bytes ≡ padded (payload value) ++ rest
    → parse_primitive tag (code_of value) (length (payload value)) bytes off
      ≡ ok (element tag (code_of value) value, off + length (padded (payload value)))
unfolding parse_primitive
parse_primitive-padded tag value bytes rest off s w h e =
    let fits : off + length (padded (payload value)) ≤ length bytes =
      omega
        (arith, length-drop off bytes, ap length e, length-append (padded (payload value)) rest) in
    rw (
      padded_length_of-padded (code_of value) (payload value) s,
      parse_value-payload value bytes rest off s w e,
      le→ltb (length bytes) (off + length (padded (payload value))) fits,
      validate-padded (payload value) bytes rest off e,
    )

-- The header in front of `body`.
pub encoded-Header :
    (bytes : List ℕ) (off tag type len : ℕ) (body : List ℕ)
    → tag < 2 ^ 24
    → type < 256
    → len < 2 ^ 32
    → drop off bytes ≡ be24 tag ++ (type % 256 ∷ be32 len ++ body)
    → Header bytes off tag type len × (drop (off + 8) bytes ≡ body)
encoded-Header bytes off tag type len body ht hy hl e = (
  record {
    tag_eq = read_tag-be24 bytes off tag _ ht e;
    type_eq = get_or-at off bytes _ 3 0 e ∙ small;
    len_eq =
        read_be_u32-be32 bytes (off + 4) len body hl
          (drop-at off bytes (be24 tag ++ (type % 256 ∷ [])) _ 4 e refl);
    off_le = omega (arith, length-drop off bytes, ap length e);
  },
  drop-at off bytes (be24 tag ++ (type % 256 ∷ be32 len)) body 8 e refl,
)
  where
    small : type % 256 ≡ type
    small = omega arith

code_of_byte : (value : Value) → code_of value < 256
code_of_byte value = ground arith

pub flat-encode :
    (levels tag type : ℕ) (value : Value) (bytes rest : List ℕ) (off depth : ℕ)
    → code_of value ≢ type_structure
    → IsWire (element tag type value)
    → depth ≤ max_structure_depth
    → drop off bytes ≡ encode (element tag type value) ++ rest
    → deserialize_impl (suc levels) bytes off depth
      ≡ ok (element tag type value, off + length (encode (element tag type value)))
unfolding encode
flat-encode levels tag type value bytes rest off depth s w d e =
    let (head, body) =
      encoded-Header bytes off tag type (length (payload value)) (padded (payload value) ++ rest)
        w.0 (rw w.1 (code_of_byte value)) w.2 e in
    flat_step levels bytes off depth tag type (length (payload value)) head d (rw w.1 s)
    ∙ ap (λ (t : ℕ). parse_primitive tag t (length (payload value)) bytes (off + 8)) w.1
    ∙ parse_primitive-padded tag value bytes rest (off + 8) s w.3 head.off_le body
    ∙ ap₂ (λ (t n : ℕ). ok (element tag t value, n)) (sym w.1) (omega arith)
