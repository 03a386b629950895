-- ===== src/Ttlv/Serialize.antt =====
-- kmipcore/src/kmip_basics.cpp, `Element::serialize`. Each element's content is written to a
-- buffer of its own, of the default capacity; the length field has 32 bits.
use libkmip.Base.{
  ℕ, zero, suc, ◌+◌, ◌-◌, ◌/◌, ◌%◌, ◌^◌, List, ltb, if◌then◌else◌, length, Result, ok, ◌>>=◌,
}
use libkmip.Errors.{Error}
use libkmip.Buffer.{
  SerializationBuffer, Write, create, default_capacity, write_byte, write_bytes, write_padded, size,
  span,
}
use libkmip.Ttlv.{
  Element, element, Value, structure, integer, long_integer, big_integer, enumeration, boolean,
  text_string, byte_string, date_time, date_time_extended, interval, Items, nil, cons,
}
use libkmip.Ttlv.Bytes.{Endian, as_bytes32, as_bytes64, to_be32, to_be64}

-- What the content's buffer holds, and the payload length.
abbrev pub Content : Type 0
Content = Result Error (SerializationBuffer × ℕ)

abbrev pub fresh : SerializationBuffer
fresh = create default_capacity

-- `content_buf.writeBytes` of a word, `payload_length = n`.
abbrev pub word_content : List ℕ → ℕ → Content
word_content bytes n = do content ← write_bytes bytes fresh; ok (content, n)

-- The tag in three bytes, then the type in one.
unfoldable pub write_tag_type : ℕ → ℕ → Write
write_tag_type tag type b = do
  b ← write_byte (tag / 2 ^ 16 % 256) b
  b ← write_byte (tag / 2 ^ 8 % 256) b
  b ← write_byte (tag % 256) b
  write_byte (type % 256) b

unfoldable pub write_length : ℕ → Write
write_length n b = do
  b ← write_byte (n / 2 ^ 24 % 256) b
  b ← write_byte (n / 2 ^ 16 % 256) b
  b ← write_byte (n / 2 ^ 8 % 256) b
  write_byte (n % 256) b

-- `for (i = 0; i < padding; ++i) buf.writeByte(0);`
unfoldable pub write_zero_bytes : ℕ → Write
write_zero_bytes zero b = ok b
write_zero_bytes (suc n) b = do b ← write_byte 0 b; write_zero_bytes n b

-- The length field, the content and the padding to a multiple of 8 bytes.
unfoldable pub write_content : ℕ → List ℕ → Write
write_content payload_length content b = do
  b ← write_length payload_length b
  b ← (if ltb 0 (length content) then write_bytes content b else ok b)
  write_zero_bytes ((8 - (3 + 1 + 4 + length content) % 8) % 8) b

module _ (host : Endian) where
  unfoldable mutual
    pub serialize : Element → Write
    serialize (element tag type value) b = do
      b ← write_tag_type tag type b
      (content, payload_length) ← serialize_content value
      write_content payload_length (span content) b

    pub serialize_content : Value → Content
    serialize_content (structure items) = do
      content ← serialize_items items fresh
      ok (content, size content % 2 ^ 32)
    serialize_content (integer n) = word_content (as_bytes32 host (to_be32 host n)) 4
    serialize_content (long_integer n) = word_content (as_bytes64 host (to_be64 host n)) 8
    serialize_content (big_integer bytes) = word_content bytes (length bytes % 2 ^ 32)
    serialize_content (enumeration n) = word_content (as_bytes32 host (to_be32 host n)) 4
    serialize_content (boolean b) =
        word_content (as_bytes64 host (to_be64 host (if b then 1 else 0))) 8
    serialize_content (text_string bytes) = do
      content ← write_padded bytes fresh
      ok (content, length bytes % 2 ^ 32)
    serialize_content (byte_string bytes) = do
      content ← write_padded bytes fresh
      ok (content, length bytes % 2 ^ 32)
    serialize_content (date_time n) = word_content (as_bytes64 host (to_be64 host n)) 8
    serialize_content (date_time_extended n) = word_content (as_bytes64 host (to_be64 host n)) 8
    serialize_content (interval n) = word_content (as_bytes32 host (to_be32 host n)) 4

    pub serialize_items : Items → Write
    serialize_items nil b = ok b
    serialize_items (cons item items) b = do b ← serialize item b; serialize_items items b
