-- ===== src/Protocol/Item.antt =====
-- kmipcore/src/kmip_protocol.cpp: the batch items and their identifiers.
use libkmip.Base.{
  ℕ, ◌+◌, ◌*◌, ◌/◌, ◌%◌, ◌^◌, ◌<◌, ◌≡◌, ap, arith, Bool, true, false, ◌&&◌, ◌||◌, List, [], ◌∷◌,
  Option, none, some, Result, ok, err, ◌>>=◌, ◌>>◌, throw_if, ◌==◌, ltb, if◌then◌else◌, length,
}
use libkmip.Errors.{
  Error, invalid_request_batch_item, missing_operation, invalid_response_batch_item,
  missing_result_status, missing_result_reason,
}
use libkmip.Ttlv.{Element, tag_of}
use libkmip.Ttlv.Access.{
  create_structure, create_enumeration, create_text_string, create_byte_string, get_child, find,
  to_enum, to_string, to_bytes,
}
use libkmip.Protocol.Tags.{
  tag_batch_item, tag_operation, tag_unique_batch_item_id, tag_request_payload, tag_result_status,
  tag_result_reason, tag_result_message, tag_response_payload, status_operation_failed,
}
use libkmip.Protocol.Children.{
  collect, optional, child_or, child_opt, child_required, is_other_structure,
}

abbrev pub encode_batch_item_id : ℕ → List ℕ
encode_batch_item_id id = id / 2 ^ 24 % 256 ∷ id / 2 ^ 16 % 256 ∷ id / 2 ^ 8 % 256 ∷ id % 256 ∷ []

-- `decoded = (decoded << 8) | byte`, in 32 bits.
abbrev pub decode_loop : ℕ → List ℕ → ℕ
decode_loop decoded [] = decoded
decode_loop decoded (byte ∷ rest) = decode_loop (decoded * 2 ^ 8 % 2 ^ 32 + byte) rest

-- The identifier, or nothing where the source returns false.
abbrev pub decode_batch_item_id : List ℕ → Option ℕ
decode_batch_item_id encoded =
    if length encoded == 0 || ltb 4 (length encoded) then none else some (decode_loop 0 encoded)

-- The identifier of an item, 0 where there is none or it has a length that is not accepted.
abbrev pub read_batch_item_id : Option Element → Result Error ℕ
read_batch_item_id none = ok 0
read_batch_item_id (some id) = do
  bytes ← to_bytes id
  ok (elim (decode_batch_item_id bytes) [ some n ↦ n | none ↦ 0 ])

-- `if (uniqueBatchItemId_ != 0)`
abbrev pub id_element : ℕ → Option Element
id_element id =
    if id == 0
    then none
    else some (create_byte_string tag_unique_batch_item_id (encode_batch_item_id id))

pub record RequestBatchItem : Type 0 where
  pub unique_batch_item_id : ℕ
  pub operation : ℕ
  pub request_payload : Option Element

unfoldable pub request_item_to_element : RequestBatchItem → Element
request_item_to_element item = create_structure tag_batch_item (
    collect (
      some (create_enumeration tag_operation item.operation)
      ∷ id_element item.unique_batch_item_id
      ∷ item.request_payload
      ∷ []))

unfoldable pub request_item_from_element : Element → Result Error RequestBatchItem
request_item_from_element e = do
  throw_if (is_other_structure tag_batch_item e) invalid_request_batch_item
  op ← child_required (get_child tag_operation e) missing_operation
  operation ← to_enum op
  id ← read_batch_item_id (get_child tag_unique_batch_item_id e)
  ok (record {
    unique_batch_item_id = id;
    operation = operation;
    request_payload = get_child tag_request_payload e;
  })

pub record ResponseBatchItem : Type 0 where
  pub unique_batch_item_id : ℕ
  pub operation : ℕ
  pub result_status : ℕ
  pub result_reason : Option ℕ
  pub result_message : Option (List ℕ)
  pub response_payload : Option Element

unfoldable pub response_item_to_element : ResponseBatchItem → Element
response_item_to_element item = create_structure tag_batch_item (
    collect (
      some (create_enumeration tag_operation item.operation)
      ∷ id_element item.unique_batch_item_id
      ∷ some (create_enumeration tag_result_status item.result_status)
      ∷ optional (create_enumeration tag_result_reason) item.result_reason
      ∷ optional (create_text_string tag_result_message) item.result_message
      ∷ item.response_payload
      ∷ []))

abbrev pub is_none {ℓ} : {A : Type ℓ} → Option A → Bool
is_none none = true
is_none (some a) = false

unfoldable pub response_item_from_element : Element → Result Error ResponseBatchItem
response_item_from_element e = do
  throw_if (is_other_structure tag_batch_item e) invalid_response_batch_item
  operation ← child_or (get_child tag_operation e) to_enum 0
  id ← read_batch_item_id (get_child tag_unique_batch_item_id e)
  status ← child_required (get_child tag_result_status e) missing_result_status
  result_status ← to_enum status
  result_reason ← child_opt (get_child tag_result_reason e) to_enum
  throw_if (result_status == status_operation_failed && is_none result_reason) missing_result_reason
  result_message ← child_opt (get_child tag_result_message e) to_string
  ok (record {
    unique_batch_item_id = id;
    operation = operation;
    result_status = result_status;
    result_reason = result_reason;
    result_message = result_message;
    response_payload = get_child tag_response_payload e;
  })

-- The bytes of an identifier below 2^32 are read back to it.
pub decode-encode_batch_item_id :
    (id : ℕ) → id < 2 ^ 32 → decode_batch_item_id (encode_batch_item_id id) ≡ some id
decode-encode_batch_item_id id h =
    let same : decode_loop 0 (encode_batch_item_id id) ≡ id = omega arith in ap some same

-- A payload that an item carries has the payload's tag.
abbrev pub HasTag : ℕ → Option Element → Type 0
HasTag tag none = Unit {0}
HasTag tag (some e) = tag_of e ≡ tag

request_item_read_back :
    (id operation : ℕ) (payload : Option Element)
    → id < 2 ^ 32
    → HasTag tag_request_payload payload
    → let item : RequestBatchItem = record {
      unique_batch_item_id = id;
      operation = operation;
      request_payload = payload;
    } in
      request_item_from_element (request_item_to_element item) ≡ ok item
unfolding request_item_from_element request_item_to_element get_child find to_enum to_bytes
request_item_read_back id operation none h t = ground (arith, decode-encode_batch_item_id id)
request_item_read_back id operation (some p) h t = ground (arith, decode-encode_batch_item_id id)

-- A request item whose identifier fits 32 bits and whose payload, if any, has the tag of request
-- payloads is read back from its element.
pub request_item_from_element-to_element :
    (item : RequestBatchItem)
    → item.unique_batch_item_id < 2 ^ 32
    → HasTag tag_request_payload item.request_payload
    → request_item_from_element (request_item_to_element item) ≡ ok item
request_item_from_element-to_element item h t =
    request_item_read_back item.unique_batch_item_id item.operation item.request_payload h t

-- The response has failed and does not say why.
abbrev pub lacks_reason : ResponseBatchItem → Bool
lacks_reason item = item.result_status == status_operation_failed && is_none item.result_reason

response_item_read_back :
    (id operation status : ℕ) (reason : Option ℕ) (message : Option (List ℕ))
    (payload : Option Element)
    → id < 2 ^ 32
    → HasTag tag_response_payload payload
    → let item : ResponseBatchItem = record {
      unique_batch_item_id = id;
      operation = operation;
      result_status = status;
      result_reason = reason;
      result_message = message;
      response_payload = payload;
    } in
      response_item_from_element (response_item_to_element item)
      ≡ (if lacks_reason item then err missing_result_reason else ok item)
unfolding response_item_from_element response_item_to_element get_child find to_enum to_bytes
    to_string
response_item_read_back id operation status reason message none h t =
    ground (arith, decode-encode_batch_item_id id)
response_item_read_back id operation status reason message (some p) h t =
    ground (arith, decode-encode_batch_item_id id)

-- A response item whose identifier fits 32 bits and whose payload, if any, has the tag of response
-- payloads is read back from its element, unless it has failed without a reason: that is refused.
pub response_item_from_element-to_element :
    (item : ResponseBatchItem)
    → item.unique_batch_item_id < 2 ^ 32
    → HasTag tag_response_payload item.response_payload
    → response_item_from_element (response_item_to_element item)
      ≡ (if lacks_reason item then err missing_result_reason else ok item)
response_item_from_element-to_element item h t =
    response_item_read_back item.unique_batch_item_id item.operation item.result_status
      item.result_reason item.result_message item.response_payload h t
