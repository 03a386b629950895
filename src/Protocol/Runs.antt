-- ===== src/Protocol/Runs.antt =====
-- Messages at concrete inputs.
use libkmip.Base.{
  ◌-◌, ◌+◌, ◌%◌, ◌^◌, ◌≡◌, refl, arith, ◌&&◌, [], ◌∷◌, none, some, ok, err, throw_if, if◌then◌else◌,
  lt_i32,
}
use libkmip.Errors.{response_batch_count_mismatch, date_time_extended_version}
use libkmip.Ttlv.{Element, nil, cons, type_date_time_extended}
use libkmip.Ttlv.Access.{create_structure, create_text_string, create_date_time_extended}
use libkmip.Protocol.Tags.{tag_request_payload, tag_response_payload, status_success}
use libkmip.Protocol.Version.{version_1_4, version_to_element, validate_types, validate_items}
use libkmip.Protocol.Types.{validate_types_lem, has_type, is_below_2_0}
use libkmip.Protocol.Header.{
  default_request_header, request_header_to_element, response_header_to_element,
}
use libkmip.Protocol.Item.{
  RequestBatchItem, ResponseBatchItem, response_item_to_element, request_item_to_element,
}
use libkmip.Protocol.Request.{
  RequestMessage, request_structure, request_to_element, request_from_element, set_batch_items,
}
use libkmip.Protocol.RequestLaws.{request_from_element-request_to_element}
use libkmip.Protocol.Response.{
  ResponseMessage, response_structure, response_to_element, response_from_element,
}
use libkmip.Protocol.ResponseLaws.{response_from_element-response_to_element}
use libkmip.Protocol.Payloads.{
  LocateRequestPayload, locate_request_to_element, locate_request_from_element,
  LocateResponsePayload, locate_response_to_element, locate_response_from_element,
}
use libkmip.Protocol.PayloadLaws.{
  positive_or_zero, locate_request_from_element-to_element, locate_response_from_element-to_element,
}
use libkmip.Protocol.Numbering.{numbered, set_batch_items_numbers}

-- A request for the attributes of a key, and one without payload.
abbrev pub get_attributes : RequestBatchItem
get_attributes = record {
  unique_batch_item_id = 1;
  operation = 11;
  request_payload =
      some
        (create_structure tag_request_payload (cons (create_text_string 0x420094 (55 ∷ [])) nil));
}

abbrev pub query : RequestBatchItem
query = record { unique_batch_item_id = 2; operation = 24; request_payload = none }

abbrev pub empty_request : RequestMessage
empty_request = record { header = default_request_header; batch_items = []; next_batch_item_id = 1 }

abbrev pub two_requests : RequestMessage
two_requests = record {
  header = record default_request_header { batch_count = 2 };
  batch_items = get_attributes ∷ query ∷ [];
  next_batch_item_id = 3;
}

pub two_requests_sent : request_to_element two_requests ≡ ok (request_structure two_requests)
unfolding request_to_element validate_types validate_items request_header_to_element
    request_item_to_element version_to_element
two_requests_sent = refl

request_from_element-request_to_element_example :
    request_from_element (request_structure two_requests)
    ≡ ok (record two_requests { next_batch_item_id = (2 + 1) % 2 ^ 32 })
request_from_element-request_to_element_example =
    request_from_element-request_to_element two_requests (request_structure two_requests) refl
      ((omega arith, refl), ((omega arith, tt), tt)) two_requests_sent

-- The server has answered the first item.
abbrev pub answer : ResponseBatchItem
answer = record {
  unique_batch_item_id = 0;
  operation = 0;
  result_status = status_success;
  result_reason = none;
  result_message = none;
  response_payload = some (create_structure tag_response_payload nil);
}

abbrev pub one_answer : ResponseMessage
one_answer = record {
  header = record { protocol_version = version_1_4; time_stamp = 1700000000; batch_count = 2 };
  batch_items = answer ∷ [];
}

pub one_answer_sent : response_to_element one_answer ≡ ok (response_structure one_answer)
unfolding response_to_element validate_types validate_items response_header_to_element
    response_item_to_element version_to_element
one_answer_sent = refl

response_from_element-response_to_element_example :
    response_from_element (response_structure one_answer)
    ≡ (if lt_i32 2 1 then err response_batch_count_mismatch else ok one_answer)
response_from_element-response_to_element_example =
    response_from_element-response_to_element one_answer (response_structure one_answer)
      ((omega arith, refl, refl), tt) one_answer_sent

set_batch_items_numbers_example :
    set_batch_items (query ∷ query ∷ []) two_requests ≡ record two_requests {
      batch_items = numbered 1 (query ∷ query ∷ []);
      next_batch_item_id = 1 + 2;
    }
set_batch_items_numbers_example =
    set_batch_items_numbers (query ∷ query ∷ []) two_requests (omega arith)

abbrev deep_date : Element
deep_date =
    create_structure 1 (cons (create_structure 2 (cons (create_date_time_extended 3 5) nil)) nil)

validate_types_lem_example :
    validate_types deep_date version_1_4
    ≡ throw_if
        (has_type type_date_time_extended deep_date && is_below_2_0 version_1_4)
        date_time_extended_version
validate_types_lem_example = validate_types_lem deep_date version_1_4 (omega arith) (omega arith)

abbrev by_name : LocateRequestPayload
by_name = record {
  maximum_items = 16;
  offset_items = 2 ^ 32 - 1;
  attributes = record { name = b'N' ∷ b'a' ∷ []; value = b'k' ∷ [] } ∷ [];
}

locate_request_from_element-to_element_example :
    locate_request_from_element (locate_request_to_element by_name)
    ≡ ok (record by_name {
      maximum_items = positive_or_zero 16;
      offset_items = positive_or_zero (2 ^ 32 - 1);
    })
locate_request_from_element-to_element_example = locate_request_from_element-to_element by_name

abbrev two_located : LocateResponsePayload
two_located = record { located_items = some 7; unique_identifiers = (b'1' ∷ []) ∷ (b'2' ∷ []) ∷ [] }

locate_response_from_element-to_element_example :
    locate_response_from_element (locate_response_to_element two_located) ≡ ok two_located
locate_response_from_element-to_element_example =
    locate_response_from_element-to_element two_located
