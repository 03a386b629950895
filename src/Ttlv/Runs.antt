-- ===== src/Ttlv/Runs.antt =====
-- Runs of the encoder and decoder, and their theorems at concrete inputs.
use mathlib.Core.Logic.{◌↔◌}
use libkmip.Base.{ℕ, ◌+◌, ◌≤◌, ◌≡◌, ◌≢◌, refl, arith, true, List, [], ◌∷◌, ◌++◌, ok, err, length}
use libkmip.Errors.{invalid_padding, out_of_fuel}
use libkmip.Buffer.{SerializationBuffer, IsValid, span}
use libkmip.Ttlv.{Element, nil, cons}
use libkmip.Ttlv.Access.{create_structure, create_integer, create_text_string, create_boolean}
use libkmip.Ttlv.Bytes.{Endian, read_be_u32}
use libkmip.Ttlv.Encode.{encode, IsWire}
use libkmip.Ttlv.Serialize.{serialize, fresh}
use libkmip.Ttlv.Written.{serialize-encode, fresh-IsValid}
use libkmip.Ttlv.Deserialize.{
  deserialize, deserialize_impl, parse_primitive, parse_value, zero_padding_loop,
  max_structure_depth,
}
use libkmip.Ttlv.RoundTrip.{deserialize-serialize}
use libkmip.Ttlv.Exact.{deserialize_iff, deserialize_ends}

-- A protocol version, a name and a flag.
abbrev sample : Element
sample = create_structure 0x420069 (
    cons (create_integer 0x42006A 1) (
      cons (create_text_string 0x420053 (b'k' ∷ b'e' ∷ b'y' ∷ []))
        (cons (create_boolean 0x420010 true) nil)))

abbrev two_items : Element
two_items = create_structure 0x420069 (cons (create_integer 0x42006A 1) nil)

encode_run :
    encode two_items
    ≡ 0x42 ∷ 0 ∷ 0x69 ∷ 1 ∷ 0 ∷ 0 ∷ 0 ∷ 16 ∷ 0x42 ∷ 0 ∷ 0x6A ∷ 2 ∷ 0 ∷ 0 ∷ 0 ∷ 4 ∷ 0 ∷ 0 ∷ 0 ∷ 1 ∷ 0
      ∷ 0 ∷ 0 ∷ 0 ∷ []
unfolding encode
encode_run = refl

serialize-encode_example :
    (b : SerializationBuffer) × (serialize Endian.little sample fresh ≡ ok b)
    × IsValid b
    × (span b ≡ encode sample)
serialize-encode_example =
    serialize-encode Endian.little sample fresh fresh-IsValid (unfold encode in omega arith)

deserialize-serialize_example :
    (b : SerializationBuffer) × (serialize Endian.little sample fresh ≡ ok b)
    × (deserialize (9 ∷ (span b ++ (7 ∷ []))) 1 ≡ ok (sample, 1 + length (span b)))
unfolding encode
deserialize-serialize_example =
    deserialize-serialize Endian.little sample (9 ∷ []) (7 ∷ []) (omega arith) (omega arith)
      (omega arith)

abbrev wire : List ℕ
wire = 0x42 ∷ 0 ∷ 0x6A ∷ 2 ∷ 0 ∷ 0 ∷ 0 ∷ 4 ∷ 0 ∷ 0 ∷ 0 ∷ 1 ∷ 0 ∷ 0 ∷ 0 ∷ 0 ∷ []

-- A padding byte that is not zero.
bad_padding :
    deserialize (0x42 ∷ 0 ∷ 0x6A ∷ 2 ∷ 0 ∷ 0 ∷ 0 ∷ 4 ∷ 0 ∷ 0 ∷ 0 ∷ 1 ∷ 0 ∷ 0 ∷ 9 ∷ 0 ∷ []) 0
    ≡ err invalid_padding
unfolding deserialize deserialize_impl parse_primitive parse_value zero_padding_loop read_be_u32
bad_padding = refl

deserialize_iff_example : (deserialize wire 0 ≡ ok (create_integer 0x42006A 1, 16)) ↔ (
    IsWire (create_integer 0x42006A 1)
    × (0 ≤ max_structure_depth)
    × ◌≡◌ {A = ℕ} 16 (0 + length (encode (create_integer 0x42006A 1)))
    × (wire ≡ encode (create_integer 0x42006A 1) ++ []))
deserialize_iff_example = deserialize_iff wire 0 16 (create_integer 0x42006A 1) (omega arith)

deserialize_ends_example : deserialize wire 0 ≢ err out_of_fuel
deserialize_ends_example = deserialize_ends wire 0 (omega arith)
