-- ===== src/Parser/Messages.antt =====
-- Whole messages: the bytes of a response and the parser, the bytes of a request and its reader.
use libkmip.Base.{
  ==_ne, ℕ, ◌+◌, ◌%◌, ◌^◌, ◌≤◌, ◌<◌, ◌≡◌, refl, ap, subst, ◌∙◌, arith, true, false, List, [], ◌++◌,
  append-nil, ok, err, ◌>>=◌, throw_if_not_lem, ◌==◌, if◌then◌else◌, length, length-append, All,
  lt_i32,
}
use libkmip.Errors.{trailing_bytes}
use libkmip.Buffer.{release}
use libkmip.Ttlv.{Element}
use libkmip.Ttlv.Bytes.{Endian}
use libkmip.Ttlv.Serialize.{fresh}
use libkmip.Ttlv.Encode.{encode, IsWire, height}
use libkmip.Ttlv.Deserialize.{deserialize, max_structure_depth}
use libkmip.Ttlv.RoundTrip.{deserialize_impl-encode, eight_le}
use libkmip.Buffer.Store.{safe_size}
use libkmip.Ttlv.Written.{serialize-encode, fresh-IsValid}
use libkmip.Protocol.Request.{
  RequestMessage, request_to_element, request_from_element, sent_header, serialize_request,
}
use libkmip.Protocol.RequestLaws.{IsSendable, request_from_element-request_to_element}
use libkmip.Protocol.ResponseLaws.{IsReadable, response_from_element-response_to_element}
use libkmip.Protocol.Response.{ResponseMessage, response_to_element, response_from_element}
use libkmip.Parser.{ResponseParser, parse_response}

read_first :
    (e : Element) (rest : List ℕ)
    → IsWire e
    → height e ≤ max_structure_depth
    → deserialize (encode e ++ rest) 0 ≡ ok (e, length (encode e))
unfolding deserialize
read_first e rest w d =
    deserialize_impl-encode e 66 (encode e ++ rest) rest 0 0 w (omega arith) (omega arith) refl
    ∙ ap (λ (n : ℕ). ok (e, n)) (omega arith)

-- For a parser whose bytes are the encoding of a response and a rest, where the response is one
-- that its version allows and the format can carry, nested at most 64 deep, its items fit the wire
-- and give a reason where they have failed, and its header declares no fewer items than it has:
-- the response is parsed if the rest is empty, and otherwise the bytes that trail throw.
pub parse_response_lem :
    (p : ResponseParser) (m : ResponseMessage) (e : Element) (rest : List ℕ)
    → All IsReadable m.batch_items
    → lt_i32 m.header.batch_count (length m.batch_items % 2 ^ 32) ≡ false
    → response_to_element m ≡ ok e
    → IsWire e
    → height e ≤ max_structure_depth
    → p.response_bytes ≡ encode e ++ rest
    → parse_response p ≡ (
        if length rest == 0
        then ok (record p { response_message = m; is_parsed = true })
        else err trailing_bytes)
unfolding parse_response
parse_response_lem p m e rest readable counted sent w d bytes =
    let read : deserialize p.response_bytes 0 ≡ ok (e, length (encode e)) =
      ap (λ (bytes : List ℕ). deserialize bytes 0) bytes ∙ read_first e rest w d in
    let size : length p.response_bytes ≡ length (encode e) + length rest =
      ap length bytes ∙ length-append (encode e) rest in
    let some_bytes : (length p.response_bytes == 0) ≡ false =
      ==_ne _ _ (λ none. omega (arith, eight_le e, size)) in
    let whole : (length (encode e) == length p.response_bytes) ≡ (length rest == 0) =
      ground (arith, size) in
    let message : response_from_element e ≡ ok m =
      response_from_element-response_to_element m e readable sent ∙ rw counted in
    rw (some_bytes, read, whole, message)
      (throw_if_not_lem (length rest == 0) trailing_bytes
        (record p { response_message = m; is_parsed = true }))

-- A request of at least one item, whose identifiers and payload tags fit the wire, and whose
-- element under the header that `serialize` fills in is one that its version allows and the format
-- can carry, nested at most 64 deep and encoded in at most 50 MB: `serialize` returns that
-- encoding, and from it that header and the items are read back.
pub serialize_request_read_back :
    (host : Endian) (now : ℕ) (m : RequestMessage) (e : Element)
    → 0 < length m.batch_items
    → All IsSendable m.batch_items
    → request_to_element (record m { header = sent_header now m }) ≡ ok e
    → IsWire e
    → height e ≤ max_structure_depth
    → length (encode e) ≤ safe_size
    → (serialize_request host now m ≡ ok (encode e))
      × ((deserialize (encode e) 0 >>= λ read. request_from_element read.0)
          ≡ ok (record m {
            header = sent_header now m;
            next_batch_item_id = (length m.batch_items + 1) % 2 ^ 32;
          }))
unfolding serialize_request release
serialize_request_read_back host now m e some_item sendable sent w d small =
    let (b, done, valid, content) = serialize-encode host e fresh fresh-IsValid (omega arith) in
    let has_items : (length m.batch_items == 0) ≡ false = ==_ne _ _ (λ none. omega arith) in
    let counted : (sent_header now m).batch_count ≡ length m.batch_items % 2 ^ 32 =
      unfold sent_header in refl in
    let alone : encode e ++ [] ≡ encode e = append-nil (encode e) in
    (
      rw (has_items, sent, done) (ap (λ (bytes : List ℕ). ok bytes) content),
      rw
          (subst (λ (bytes : List ℕ). deserialize bytes 0 ≡ ok (e, length (encode e))) alone
            (read_first e [] w d))
          (request_from_element-request_to_element (record m { header = sent_header now m }) e
            counted sendable sent),
    )
