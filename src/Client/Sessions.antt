-- ===== src/Client/Sessions.antt =====
-- An operation of kmipclient/src/KmipClient.cpp from the request to the typed response.
use libkmip.Base.{
  ℕ, ◌≡◌, ◌≤◌, ◌<◌, ◌+◌, ◌^◌, ◌%◌, refl, sym, ap, ◌∙◌, arith, true, false, List, [], ◌∷◌, ◌++◌,
  append-nil, length, length-append, get_elem?, Bool-cases, inl, inr, All, some, Result, ok, err,
  ◌>>=◌, ◌==◌, lt_i32, if◌then◌else◌,
}
use libkmip.Errors.{Error, operation_failed}
use libkmip.Buffer.Store.{safe_size}
use libkmip.Ttlv.{Element, Items}
use libkmip.Ttlv.Access.{create_structure}
use libkmip.Ttlv.Bytes.{Endian, be24, be32}
use libkmip.Ttlv.Encode.{encode, encode_items, padded-encode_items, IsWire, height}
use libkmip.Ttlv.RoundTrip.{eight_le}
use libkmip.Ttlv.Deserialize.{deserialize, max_structure_depth}
use libkmip.Protocol.Tags.{status_success, tag_response_message}
use libkmip.Protocol.Item.{RequestBatchItem, ResponseBatchItem}
use libkmip.Protocol.Request.{
  RequestMessage, add_batch_item, sent_header, get_max_response_size, request_to_element,
  request_from_element, serialize_request,
}
use libkmip.Protocol.Response.{ResponseMessage, response_to_element}
use libkmip.Protocol.Version.{ProtocolVersion}
use libkmip.Protocol.RequestLaws.{IsSendable}
use libkmip.Protocol.ResponseLaws.{IsReadable}
use libkmip.Parser.{
  ResponseParser, create_parser, create_parser_for, add_hint, add_hints, effective_operation,
  get_result_reason_or_default, result_message_or_empty, get_response_item_by_batch_item_id,
  get_response_by_batch_item_id, ensure_success,
}
use libkmip.Parser.Messages.{parse_response_lem, serialize_request_read_back}
use libkmip.Parser.Batches.{by_echoed_id}
use libkmip.Locate.Paging.{give}
use libkmip.Client.{lift, exchange_request, perform_in}
use libkmip.Exchange.{NetClient, do_exchange, ◌>>>=◌, length_bytes}
use libkmip.Exchange.Streams.{IsStream, IsLive}
use libkmip.Exchange.Frames.{announced, limit, after_ok, do_exchange_lem}

-- The head of an encoded structure announces the bytes that follow.
abbrev head_of : ℕ → Items → List ℕ
head_of tag items = be24 tag ++ (1 ∷ be32 (length (encode_items items)))

framed :
    (tag : ℕ) (items : Items)
    → IsWire (create_structure tag items)
    → (encode (create_structure tag items) ≡ head_of tag items ++ encode_items items)
      × (length (head_of tag items) ≡ length_bytes)
      × (announced (head_of tag items) ≡ length (encode_items items))
unfolding encode
framed tag items w = (
  ap (λ (bytes : List ℕ). head_of tag items ++ bytes) (padded-encode_items items),
  refl,
  omega (arith, w.2),
)

-- What the client makes of the item that answers its request: the typed response, or the exception
-- that carries the operation, the status and the reason.
abbrev pub judged :
    {A : Type 0}
    → (ResponseBatchItem → Result Error A)
    → ResponseParser
    → ℕ
    → ResponseBatchItem
    → Result Error A
judged read parsed id answer =
    if answer.result_status == status_success
    then read answer
    else err (
        operation_failed (effective_operation parsed answer (some id)) answer.result_status
          (get_result_reason_or_default answer) (result_message_or_empty answer))

judged_lem :
    {A : Type 0} (read : ResponseBatchItem → Result Error A) (p parsed : ResponseParser) (id : ℕ)
    (answer : ResponseBatchItem)
    → get_response_item_by_batch_item_id p id ≡ ok (answer, parsed)
    → get_response_by_batch_item_id read p id
      ≡ (judged read parsed id answer >>= λ typed. ok (typed, parsed))
unfolding get_response_by_batch_item_id ensure_success
judged_lem read p parsed id answer got =
    elim (Bool-cases (answer.result_status == status_success)) [
      | inl success ↦ rw (got, success) refl
      | inr failed ↦ rw (got, failed) refl
    ]

lift_typed :
    {W A B : Type 0} (r : Result Error A) (parsed : B) (w : W)
    → let typed : Result Error (A × B) = r >>= λ a. ok (a, parsed) in
      (lift typed >>>= λ answer. give answer.0) w ≡ (r, w)
lift_typed (ok a) parsed w = refl
lift_typed (err e) parsed w = refl

add_batch_item-some :
    (request : RequestMessage) (item : RequestBatchItem) (id : ℕ) (m : RequestMessage)
    → add_batch_item item request ≡ (id, m)
    → 0 < length m.batch_items
unfolding add_batch_item
add_batch_item-some request item id m added =
    let more : length (
          request.batch_items
          ++ (record item { unique_batch_item_id = request.next_batch_item_id } ∷ []))
        ≡ length m.batch_items =
      ap (λ (x : ℕ × RequestMessage). length x.1.batch_items) added in
    omega (
      arith,
      more,
      length-append request.batch_items
          (record item { unique_batch_item_id = request.next_batch_item_id } ∷ []),
    )

add_hints-bytes :
    (items : List RequestBatchItem) (pos : ℕ) (p : ResponseParser)
    → (add_hints items pos p).response_bytes ≡ p.response_bytes
unfolding add_hints
add_hints-bytes [] pos p = refl
add_hints-bytes (item ∷ items) pos p = add_hints-bytes items (pos + 1) (add_hint item pos p)

create_parser_for-bytes :
    (bytes : List ℕ) (m : RequestMessage) → (create_parser_for bytes m).response_bytes ≡ bytes
unfolding create_parser_for
create_parser_for-bytes bytes m = add_hints-bytes m.batch_items 0 (create_parser bytes)

module _ {W : Type 0} (net : NetClient W) (incoming outgoing : W → List ℕ)
    (stream : IsStream net incoming outgoing) (live : IsLive net incoming outgoing) (host : Endian)
    (clock : W → ℕ) (version : ProtocolVersion) where
  exchange_request_lem :
      (m : RequestMessage) (e : Element) (items : Items) (rest : List ℕ) (w : W)
      → serialize_request host (clock w) m ≡ ok (encode e)
      → length (encode e) ≤ safe_size
      → IsWire (create_structure tag_response_message items)
      → incoming w ≡ encode (create_structure tag_response_message items) ++ rest
      → length (encode_items items) ≤ limit (get_max_response_size m)
      → (w' : W) × (exchange_request net host clock version m w
          ≡ (ok (create_parser_for (encode (create_structure tag_response_message items)) m), w'))
        × (outgoing w' ≡ outgoing w ++ encode e)
        × (incoming w' ≡ rest)
  unfolding exchange_request
  exchange_request_lem m e items rest w sent small wire waits few =
      let (split, eight, announces) = framed tag_response_message items wire in
      let (w', got, out, left) =
        do_exchange_lem net incoming outgoing stream live (get_max_response_size m) (encode e)
          (head_of tag_response_message items) (encode_items items) rest w
          (omega (arith, eight_le e)) (omega (arith, small))
          (waits ∙ ap (λ (bytes : List ℕ). bytes ++ rest) split) eight announces few in
      let whole : do_exchange net (encode e) (get_max_response_size m) w
          ≡ (ok (encode (create_structure tag_response_message items)), w') =
        got ∙ ap (λ (bytes : List ℕ). (ok bytes, w')) (sym split) in
      (
        w',
        after_ok (λ (v : W). (serialize_request host (clock v) m, v)) _ w w (encode e)
              (ap (λ (bytes : Result Error (List ℕ)). (bytes, w)) sent)
            ∙ after_ok (do_exchange net (encode e) (get_max_response_size m)) _ w w' _ whole,
        out,
        left,
      )

  -- A client that has added an item to a request, over a connection that keeps bytes in order and does
  -- not break: where the peer answers with the encoding of a response within the limits, in which
  -- one item alone echoes the identifier of the added one, the request arrives whole and is read back
  -- there, and the client returns the typed response that is read from that item, or throws the
  -- exception with the status and the reason that the item gives.
  pub perform_in_lem :
      {A : Type 0} (request : RequestMessage) (item : RequestBatchItem)
      (read : ResponseBatchItem → Result Error A) (e : Element) (response : ResponseMessage)
      (items : Items) (i : ℕ) (answer : ResponseBatchItem) (rest : List ℕ) (w : W) (id : ℕ)
      (m : RequestMessage)
      → add_batch_item item request ≡ (id, m)
      → All IsSendable m.batch_items
      → request_to_element (record m { header = sent_header (clock w) m }) ≡ ok e
      → IsWire e
      → height e ≤ max_structure_depth
      → length (encode e) ≤ safe_size
      → All IsReadable response.batch_items
      → lt_i32 response.header.batch_count (length response.batch_items % 2 ^ 32) ≡ false
      → response_to_element response ≡ ok (create_structure tag_response_message items)
      → IsWire (create_structure tag_response_message items)
      → height (create_structure tag_response_message items) ≤ max_structure_depth
      → length (encode_items items) ≤ limit (get_max_response_size m)
      → incoming w ≡ encode (create_structure tag_response_message items) ++ rest
      → get_elem? response.batch_items i ≡ some answer
      → answer.unique_batch_item_id ≡ id
      → ((j : ℕ) (other : ResponseBatchItem)
          → get_elem? response.batch_items j ≡ some other
          → other.unique_batch_item_id ≡ id
          → j ≡ i)
      → (w' : W) × (parsed : ResponseParser) × (parsed.response_message ≡ response)
        × (perform_in net host clock version request item read w
            ≡ (judged read parsed id answer, w'))
        × (outgoing w' ≡ outgoing w ++ encode e)
        × (incoming w' ≡ rest)
        × ((deserialize (encode e) 0 >>= λ got. request_from_element got.0)
            ≡ ok (record m {
              header = sent_header (clock w) m;
              next_batch_item_id = (length m.batch_items + 1) % 2 ^ 32;
            }))
  unfolding perform_in
  perform_in_lem request item read e response items i answer rest w id m added sendable sent wire
        deep small readable counted replied wire' deep' few waits at same alone =
      let root = create_structure tag_response_message items in
      let some_item : 0 < length m.batch_items = add_batch_item-some request item id m added in
      let (bytes, back) =
        serialize_request_read_back host (clock w) m e some_item sendable sent wire deep small in
      let (w', exchanged, out, left) =
        exchange_request_lem m e items rest w bytes small wire' waits few in
      let p = create_parser_for (encode root) m in
      let parsed : ResponseParser = record p { response_message = response; is_parsed = true } in
      let got =
        by_echoed_id (encode root) m id i answer parsed
          (parse_response_lem p response root [] readable counted replied wire' deep'
            (create_parser_for-bytes (encode root) m ∙ sym (append-nil (encode root))))
          at same alone in
      (
        w',
        parsed,
        refl,
        rw added (
            after_ok (exchange_request net host clock version m) _ w w' p exchanged
            ∙ rw (judged_lem read p parsed id answer got)
                (lift_typed (judged read parsed id answer) parsed w')),
        out,
        left,
        back,
      )
