-- ===== src/Ttlv/Encode.antt =====
-- The TTLV encoding as a function from trees to bytes, written from the format and not from the
-- code: tag, type, length of the value, value, zeros up to a multiple of eight bytes.
use libkmip.Base.{
  ℕ, suc, ◌+◌, ◌%◌, ◌^◌, ◌<◌, ◌≡◌, refl, arith, max, List, [], ◌∷◌, ◌++◌, length, All, replicate,
  length-append, length-replicate, append-nil, if◌then◌else◌,
}
use libkmip.Buffer.{padding_of}
use libkmip.Ttlv.{
  Element, element, Value, structure, integer, long_integer, big_integer, enumeration, boolean,
  text_string, byte_string, date_time, date_time_extended, interval, Items, nil, cons, code_of,
}
use libkmip.Ttlv.Bytes.{IsByte, be24, be32, be64}

abbrev pub padded : List ℕ → List ℕ
padded bytes = bytes ++ replicate (padding_of (length bytes)) 0

unfoldable mutual
  pub encode : Element → List ℕ
  encode (element tag type value) =
      be24 tag ++ (type % 256 ∷ be32 (length (payload value)) ++ padded (payload value))

  -- The value's bytes without padding.
  pub payload : Value → List ℕ
  payload (structure items) = encode_items items
  payload (integer n) = be32 n
  payload (long_integer n) = be64 n
  payload (big_integer bytes) = bytes
  payload (enumeration n) = be32 n
  payload (boolean b) = be64 (if b then 1 else 0)
  payload (text_string bytes) = bytes
  payload (byte_string bytes) = bytes
  payload (date_time n) = be64 n
  payload (date_time_extended n) = be64 n
  payload (interval n) = be32 n

  pub encode_items : Items → List ℕ
  encode_items nil = []
  encode_items (cons item items) = encode item ++ encode_items items

-- The trees that the format can carry: each type code is that of the value, and tags, integers,
-- bytes and lengths fit their fields.
abbrev mutual
  pub IsWire : Element → Type 0
  IsWire (element tag type value) =
      (tag < 2 ^ 24)
      × (type ≡ code_of value)
      × (length (payload value) < 2 ^ 32)
      × IsWireValue value

  pub IsWireValue : Value → Type 0
  IsWireValue (structure items) = IsWireItems items
  IsWireValue (integer n) = n < 2 ^ 32
  IsWireValue (long_integer n) = n < 2 ^ 64
  IsWireValue (big_integer bytes) = All IsByte bytes
  IsWireValue (enumeration n) = n < 2 ^ 32
  IsWireValue (boolean b) = Unit {0}
  IsWireValue (text_string bytes) = All IsByte bytes
  IsWireValue (byte_string bytes) = All IsByte bytes
  IsWireValue (date_time n) = n < 2 ^ 64
  IsWireValue (date_time_extended n) = n < 2 ^ 64
  IsWireValue (interval n) = n < 2 ^ 32

  pub IsWireItems : Items → Type 0
  IsWireItems nil = Unit {0}
  IsWireItems (cons item items) = IsWire item × IsWireItems items

-- How deep structures are nested below an element.
abbrev mutual
  pub height : Element → ℕ
  height (element tag type (structure items)) = height_items items
  height (element tag type value) = 0

  -- One more than the deepest item, and 0 where there is none.
  pub height_items : Items → ℕ
  height_items nil = 0
  height_items (cons item items) = max (suc (height item)) (height_items items)

pub length-padded :
    (bytes : List ℕ) → length (padded bytes) ≡ length bytes + padding_of (length bytes)
length-padded bytes = omega (
  arith,
  length-append bytes (replicate (padding_of (length bytes)) 0),
  length-replicate {A = ℕ} (padding_of (length bytes)) 0,
)

-- An element takes eight bytes and its padded value.
pub length-encode :
    (tag type : ℕ) (value : Value)
    → length (encode (element tag type value)) ≡ 8 + length (padded (payload value))
unfolding encode
length-encode tag type value = omega arith

-- Encodings are made of blocks of eight bytes.
mutual
  unfolding encode

  pub encode_mod_eight : (e : Element) → length (encode e) % 8 ≡ 0
  encode_mod_eight (element tag type value) = omega (arith, length-padded (payload value))

  pub encode_items_mod_eight : (items : Items) → length (encode_items items) % 8 ≡ 0
  encode_items_mod_eight nil = refl
  encode_items_mod_eight (cons item items) = omega (
    arith,
    length-append (encode item) (encode_items items),
    encode_mod_eight item,
    encode_items_mod_eight items,
  )

-- The encoding of items needs no padding.
pub padded-encode_items : (items : Items) → padded (encode_items items) ≡ encode_items items
padded-encode_items items =
    let none_needed : padding_of (length (encode_items items)) ≡ 0 =
      omega (arith, encode_items_mod_eight items) in
    rw none_needed (append-nil (encode_items items))
