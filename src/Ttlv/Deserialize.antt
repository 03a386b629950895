-- ===== src/Ttlv/Deserialize.antt =====
-- kmipcore/src/kmip_basics.cpp, `deserialize_impl`. A span is a list of bytes, and the offset that
-- the source passes by reference is returned. `offset + n` does not wrap: both are sizes in memory.
use libkmip.Base.{
  ℕ, zero, suc, ◌+◌, ◌-◌, ◌*◌, ◌%◌, ◌^◌, not, ◌&&◌, List, ltb, ◌==◌, if◌then◌else◌, length, get_or,
  take, drop, Result, ok, err, ◌>>=◌, ◌>>◌, throw_if,
}
use libkmip.Errors.{
  Error, invalid_padding, nesting_too_deep, short_header, short_structure, short_value,
  invalid_integer_length, invalid_long_integer_length, invalid_boolean_length,
  invalid_enumeration_length, invalid_date_time_length, invalid_interval_length,
  invalid_date_time_extended_length, non_canonical_boolean, unknown_type, out_of_fuel,
}
use libkmip.Ttlv.{
  Element, element, Value, structure, integer, long_integer, big_integer, enumeration, boolean,
  text_string, byte_string, date_time, date_time_extended, interval, Items, nil, cons,
  type_structure, type_integer, type_long_integer, type_big_integer, type_enumeration, type_boolean,
  type_text_string, type_byte_string, type_date_time, type_interval, type_date_time_extended,
}
use libkmip.Ttlv.Bytes.{read_be_u32, read_be_u64}

-- KMIP_MAX_STRUCTURE_DEPTH
abbrev pub max_structure_depth : ℕ
max_structure_depth = 64

abbrev pub read_tag : List ℕ → ℕ → ℕ
read_tag bytes offset =
    get_or bytes offset 0 * 2 ^ 16
    + get_or bytes (offset + 1) 0 * 2 ^ 8
    + get_or bytes (offset + 2) 0

-- `data.subspan(offset, length)`
abbrev pub subspan : List ℕ → ℕ → ℕ → List ℕ
subspan bytes offset length = take length (drop offset bytes)

abbrev pub padded_length_of : ℕ → ℕ → ℕ
padded_length_of type length =
    if not (length % 8 == 0) && not (type == type_structure)
    then length + (8 - length % 8)
    else length

-- The loop from `i` over the bytes that are left, `todo = value_offset + padded_length - i`.
unfoldable pub zero_padding_loop : ℕ → List ℕ → ℕ → Result Error (Unit {0})
zero_padding_loop zero bytes i = ok tt
zero_padding_loop (suc todo) bytes i = do
  throw_if (not (get_or bytes i 0 == 0)) invalid_padding
  zero_padding_loop todo bytes (i + 1)

abbrev pub validate_zero_padding : List ℕ → ℕ → ℕ → ℕ → Result Error (Unit {0})
validate_zero_padding bytes value_offset value_length padded_length =
    zero_padding_loop (padded_length - value_length) bytes (value_offset + value_length)

-- The cases of the `switch` whose value has a fixed length.
abbrev pub fixed : ℕ → ℕ → Error → Value → Result Error Value
fixed length expected invalid value = do throw_if (not (length == expected)) invalid; ok value

-- `switch (type)`
unfoldable pub parse_value : ℕ → ℕ → List ℕ → ℕ → Result Error Value
parse_value type length bytes offset =
    if type == type_integer
    then fixed length 4 invalid_integer_length (integer (read_be_u32 bytes offset))
    else if type == type_long_integer
    then fixed length 8 invalid_long_integer_length (long_integer (read_be_u64 bytes offset))
    else if type == type_boolean
    then (do
      throw_if (not (length == 8)) invalid_boolean_length
      let raw = read_be_u64 bytes offset
      throw_if (not (raw == 0) && not (raw == 1)) non_canonical_boolean
      ok (boolean (raw == 1)))
    else if type == type_enumeration
    then fixed length 4 invalid_enumeration_length (enumeration (read_be_u32 bytes offset))
    else if type == type_text_string
    then ok (text_string (subspan bytes offset length))
    else if type == type_byte_string
    then ok (byte_string (subspan bytes offset length))
    else if type == type_date_time
    then fixed length 8 invalid_date_time_length (date_time (read_be_u64 bytes offset))
    else if type == type_interval
    then fixed length 4 invalid_interval_length (interval (read_be_u32 bytes offset))
    else if type == type_big_integer
    then ok (big_integer (subspan bytes offset length))
    else if type == type_date_time_extended
    then fixed length 8 invalid_date_time_extended_length
        (date_time_extended (read_be_u64 bytes offset))
    else err unknown_type

unfoldable pub parse_primitive : ℕ → ℕ → ℕ → List ℕ → ℕ → Result Error (Element × ℕ)
parse_primitive tag type len bytes offset = do
  let padded_length = padded_length_of type len
  throw_if (ltb (length bytes) (offset + padded_length)) short_value
  value ← parse_value type len bytes offset
  validate_zero_padding bytes offset len padded_length
  ok (element tag type value, offset + padded_length)

-- `while (current_struct_offset < length)`: `parse` reads the child at an offset. Each child takes
-- eight bytes at least, so that `length` rounds are enough.
unfoldable pub structure_loop :
    (ℕ → Result Error (Element × ℕ)) → ℕ → ℕ → ℕ → ℕ → Result Error (Items × ℕ)
structure_loop parse zero len offset current =
    if ltb current len then err out_of_fuel else ok (nil, offset)
structure_loop parse (suc fuel) len offset current =
    let more = do
      (child, item_offset) ← parse offset
      (rest, stop) ← structure_loop parse fuel len item_offset (current + (item_offset - offset))
      ok (cons child rest, stop)
    in if ltb current len then more else ok (nil, offset)

-- `levels` bounds the recursion: the source stops it at the depth limit, so that
-- `max_structure_depth + 2` levels are enough from depth 0.
unfoldable pub deserialize_impl : ℕ → List ℕ → ℕ → ℕ → Result Error (Element × ℕ)
deserialize_impl zero bytes offset depth = err out_of_fuel
deserialize_impl (suc levels) bytes offset depth = do
  throw_if (ltb max_structure_depth depth) nesting_too_deep
  throw_if (ltb (length bytes) (offset + 8)) short_header
  let tag = read_tag bytes offset
  let type = get_or bytes (offset + 3) 0
  let len = read_be_u32 bytes (offset + 4)
  let start = offset + 8
  let nested = do
    throw_if (ltb (length bytes) (start + len)) short_structure
    let struct_view = take (start + len) bytes
    (items, stop) ←
        structure_loop (λ o. deserialize_impl levels struct_view o (depth + 1)) len len start 0
    ok (element tag type (structure items), stop)
  let flat = parse_primitive tag type len bytes start
  if type == type_structure then nested else flat

-- `Element::deserialize`
unfoldable pub deserialize : List ℕ → ℕ → Result Error (Element × ℕ)
deserialize bytes offset = deserialize_impl (max_structure_depth + 2) bytes offset 0
