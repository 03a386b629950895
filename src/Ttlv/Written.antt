-- ===== src/Ttlv/Written.antt =====
-- `serialize` writes the encoding, up to 50 MB and on every host.
use libkmip.Base.{
  ℕ, zero, suc, ◌+◌, ◌-◌, ◌%◌, ◌^◌, ◌≤◌, ◌≡◌, refl, sym, ap, ◌∙◌, arith, List, [], ◌∷◌, ◌++◌,
  append-nil, length, replicate, ltb, lt→ltb, if◌then◌else◌, ok, ◌>>=◌,
}
use libkmip.Buffer.{SerializationBuffer, IsValid, write_bytes, write_padded, size, span, padding_of}
use libkmip.Buffer.Store.{safe_size}
use libkmip.Buffer.Writes.{
  Appends, Appends-then, write_byte-Appends, write_bytes-Appends, write_padded-Appends, length-span,
}
use libkmip.Ttlv.{
  Element, element, Value, structure, integer, long_integer, big_integer, enumeration, boolean,
  text_string, byte_string, date_time, date_time_extended, interval, Items, nil, cons,
}
use libkmip.Ttlv.Bytes.{Endian, be24, be32, be64, as_bytes32-to_be32, as_bytes64-to_be64}
use libkmip.Ttlv.Serialize.{
  Content, fresh, word_content, write_tag_type, write_length, write_zero_bytes, write_content,
  serialize, serialize_content, serialize_items,
}
use libkmip.Ttlv.Encode.{encode, payload, encode_items, padded, length-padded, length-encode}

write_tag_type-Appends :
    (tag type : ℕ) → Appends (write_tag_type tag type) (be24 tag ++ (type % 256 ∷ []))
unfolding write_tag_type
write_tag_type-Appends tag type = Appends-then _ (_ ∷ []) _ _ (write_byte-Appends _) (
    Appends-then _ (_ ∷ []) _ _ (write_byte-Appends _)
      (Appends-then _ (_ ∷ []) _ _ (write_byte-Appends _) (write_byte-Appends _)))

write_length-Appends : (n : ℕ) → Appends (write_length n) (be32 n)
unfolding write_length
write_length-Appends n = Appends-then _ (_ ∷ []) _ _ (write_byte-Appends _) (
    Appends-then _ (_ ∷ []) _ _ (write_byte-Appends _)
      (Appends-then _ (_ ∷ []) _ _ (write_byte-Appends _) (write_byte-Appends _)))

write_nothing : Appends (λ b. ok b) []
write_nothing b v h = (b, refl, v, sym (append-nil (span b)))

write_zero_bytes-Appends : (n : ℕ) → Appends (write_zero_bytes n) (replicate n 0)
unfolding write_zero_bytes
write_zero_bytes-Appends zero b v h = write_nothing b v h
write_zero_bytes-Appends (suc n) b v h =
    Appends-then _ (_ ∷ []) _ _ (write_byte-Appends 0) (write_zero_bytes-Appends n) b v h

-- `if (content_buf.size() > 0)`
write_if_any :
    (bytes : List ℕ)
    → Appends (λ b. if ltb 0 (length bytes) then write_bytes bytes b else ok b) bytes
write_if_any [] b v h = write_nothing b v h
write_if_any (x ∷ xs) b v h =
    rw (lt→ltb 0 (suc (length xs)) (omega arith)) (write_bytes-Appends (x ∷ xs) b v h)

write_content-Appends :
    (n : ℕ) (bytes : List ℕ)
    → Appends
        (write_content n bytes)
        (be32 n ++ (bytes ++ replicate ((8 - (3 + 1 + 4 + length bytes) % 8) % 8) 0))
unfolding write_content
write_content-Appends n bytes =
    Appends-then _ (be32 n) _ _ (write_length-Appends n)
      (Appends-then _ bytes _ _ (write_if_any bytes) (write_zero_bytes-Appends _))

abbrev end_padding : ℕ → ℕ
end_padding n = (8 - (3 + 1 + 4 + n) % 8) % 8

element_written :
    (tag type n : ℕ) (bytes : List ℕ)
    → Appends
        (λ b. write_tag_type tag type b >>= write_content n bytes)
        (be24 tag ++ (type % 256 ∷ be32 n ++ (bytes ++ replicate (end_padding (length bytes)) 0)))
element_written tag type n bytes =
    Appends-then _ (be24 tag ++ (type % 256 ∷ [])) _ _ (write_tag_type-Appends tag type)
      (write_content-Appends n bytes)

end_plain : (bytes : List ℕ) → bytes ++ replicate (end_padding (length bytes)) 0 ≡ padded bytes
end_plain bytes =
    let same : end_padding (length bytes) ≡ padding_of (length bytes) = omega arith in
    ap (λ (n : ℕ). bytes ++ replicate n 0) same

end_padded :
    (bytes : List ℕ)
    → padded bytes ++ replicate (end_padding (length (padded bytes))) 0 ≡ padded bytes
end_padded bytes =
    let same : end_padding (length (padded bytes)) ≡ 0 = omega (arith, length-padded bytes) in
    ap (λ (n : ℕ). padded bytes ++ replicate n 0) same ∙ append-nil (padded bytes)

-- The content's buffer and the payload length, for a value that fits.
abbrev Prepared : Content → List ℕ → Type 0
Prepared made bytes =
    (c : SerializationBuffer) × (n : ℕ) × (made ≡ ok (c, n))
    × (n ≡ length bytes)
    × (span c ++ replicate (end_padding (length (span c))) 0 ≡ padded bytes)

pub fresh-IsValid : IsValid fresh
fresh-IsValid = record { offset_le = omega arith; length_le = omega arith }

word-Prepared :
    (word bytes : List ℕ) (n : ℕ)
    → word ≡ bytes
    → n ≡ length bytes
    → length bytes ≤ safe_size
    → Prepared (word_content word n) bytes
word-Prepared word bytes n e k h =
    let (c, made, valid, content) =
      write_bytes-Appends word fresh fresh-IsValid (rw e (omega arith)) in
    (c, n, rw made, k, rw (content, e) (end_plain bytes))

string-Prepared :
    (bytes : List ℕ)
    → length (padded bytes) ≤ safe_size
    → Prepared (do content ← write_padded bytes fresh; ok (content, length bytes % 2 ^ 32)) bytes
string-Prepared bytes h =
    let (c, made, valid, content) = write_padded-Appends bytes fresh fresh-IsValid (omega arith) in
    (
      c,
      length bytes % 2 ^ 32,
      rw made,
      omega (arith, length-padded bytes),
      rw content (end_padded bytes),
    )

module _ (host : Endian) where
  mutual
    unfolding serialize encode

    serialize-Appends : (e : Element) → Appends (serialize host e) (encode e)
    serialize-Appends (element tag type value) b v h =
        let (c, n, made, k, body) =
          serialize_content-Prepared value (omega (arith, length-encode tag type value, h)) in
        rw (made, ← body, ← k)
          (element_written tag type n (span c) b v (omega (arith, h, ap length body)))

    serialize_content-Prepared :
        (value : Value)
        → length (padded (payload value)) ≤ safe_size
        → Prepared (serialize_content host value) (payload value)
    serialize_content-Prepared (structure items) h =
        let (c, made, valid, content) =
          serialize_items-Appends items fresh fresh-IsValid
            (omega (arith, length-padded (encode_items items))) in
        (
          c,
          size c % 2 ^ 32,
          rw made,
          omega (arith, length-padded (encode_items items), length-span c valid, ap length content),
          rw content (end_plain (encode_items items)),
        )
    serialize_content-Prepared (integer n) h =
        word-Prepared _ (be32 n) 4 (as_bytes32-to_be32 host n) refl (omega arith)
    serialize_content-Prepared (long_integer n) h =
        word-Prepared _ (be64 n) 8 (as_bytes64-to_be64 host n) refl (omega arith)
    serialize_content-Prepared (big_integer bytes) h =
        word-Prepared bytes bytes _ refl (omega (arith, length-padded bytes))
          (omega (arith, length-padded bytes))
    serialize_content-Prepared (enumeration n) h =
        word-Prepared _ (be32 n) 4 (as_bytes32-to_be32 host n) refl (omega arith)
    serialize_content-Prepared (boolean x) h =
        word-Prepared _ _ 8 (as_bytes64-to_be64 host (if x then 1 else 0)) refl (omega arith)
    serialize_content-Prepared (text_string bytes) h = string-Prepared bytes h
    serialize_content-Prepared (byte_string bytes) h = string-Prepared bytes h
    serialize_content-Prepared (date_time n) h =
        word-Prepared _ (be64 n) 8 (as_bytes64-to_be64 host n) refl (omega arith)
    serialize_content-Prepared (date_time_extended n) h =
        word-Prepared _ (be64 n) 8 (as_bytes64-to_be64 host n) refl (omega arith)
    serialize_content-Prepared (interval n) h =
        word-Prepared _ (be32 n) 4 (as_bytes32-to_be32 host n) refl (omega arith)

    serialize_items-Appends :
        (items : Items) → Appends (serialize_items host items) (encode_items items)
    serialize_items-Appends nil b v h = write_nothing b v h
    serialize_items-Appends (cons item items) b v h =
        Appends-then (serialize host item) (encode item) (serialize_items host items) _
          (serialize-Appends item) (serialize_items-Appends items) b v h

-- On every host, an element whose encoding fits 50 MB together with what the buffer holds is
-- serialized without an exception: the buffer stays valid and its bytes are followed by the encoding.
pub serialize-encode :
    (host : Endian) (e : Element) (b : SerializationBuffer)
    → IsValid b
    → size b + length (encode e) ≤ safe_size
    → (b' : SerializationBuffer) × (serialize host e b ≡ ok b')
      × IsValid b'
      × (span b' ≡ span b ++ encode e)
serialize-encode host e b v h = serialize-Appends host e b v h
