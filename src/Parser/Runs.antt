-- ===== src/Parser/Runs.antt =====
-- A response without identifiers to a request of two items, and the parser's theorems there.
use libkmip.Base.{
  ℕ, zero, suc, ◌+◌, ◌%◌, ◌^◌, ◌≤◌, ◌≡◌, inl, refl, arith, true, List, [], ◌∷◌, ◌++◌, some, Result,
  ok, err, ◌>>=◌, ◌==◌, if◌then◌else◌, length, get_elem?,
}
use libkmip.Errors.{Error, trailing_bytes, batch_item_id_not_found}
use libkmip.Buffer.Store.{safe_size}
use libkmip.Ttlv.{Element}
use libkmip.Ttlv.Bytes.{Endian}
use libkmip.Ttlv.Encode.{encode, IsWire, height}
use libkmip.Ttlv.Deserialize.{deserialize, max_structure_depth}
use libkmip.Protocol.Tags.{status_success}
use libkmip.Protocol.Version.{version_to_element, validate_types, validate_items}
use libkmip.Protocol.Header.{response_header_to_element, request_header_to_element}
use libkmip.Protocol.Item.{
  RequestBatchItem, ResponseBatchItem, response_item_to_element, request_item_to_element,
}
use libkmip.Protocol.Request.{
  RequestMessage, set_batch_items, add_batch_items, clear_batch_items, add_batch_item, sent_header,
  serialize_request, request_from_element, request_to_element, request_structure,
}
use libkmip.Protocol.Response.{response_structure}
use libkmip.Protocol.Runs.{
  get_attributes, query, two_requests, empty_request, answer, one_answer, one_answer_sent,
}
use libkmip.Parser.{
  ResponseParser, create_parser, create_parser_for, add_hints, parse_response, ensure_parsed, found,
  get_response_item_by_batch_item_id, effective_operation, get_response_by_batch_item_id,
  ensure_success,
}
use libkmip.Parser.Messages.{parse_response_lem, serialize_request_read_back}
use libkmip.Parser.Batches.{
  by_echoed_id, by_position, effective_operation_lem, get_response_only_success,
}

abbrev root : Element
root = response_structure one_answer

root-IsWire : IsWire root
unfolding encode version_to_element response_header_to_element response_item_to_element
root-IsWire = omega arith

root-height : height root ≤ max_structure_depth
unfolding version_to_element response_header_to_element response_item_to_element
root-height = omega arith

abbrev with_answer : ResponseParser → ResponseParser
with_answer p = record p { response_message = one_answer; is_parsed = true }

parses :
    (p : ResponseParser)
    → p.response_bytes ≡ encode root ++ []
    → parse_response p ≡ ok (with_answer p)
parses p bytes =
    parse_response_lem p one_answer root [] ((omega arith, refl, refl), tt) refl one_answer_sent
      root-IsWire root-height bytes

parse_response_lem_example : parse_response (create_parser (encode root ++ (0 ∷ []))) ≡ (
    if 1 == 0
    then ok (with_answer (create_parser (encode root ++ (0 ∷ []))))
    else err trailing_bytes)
parse_response_lem_example =
    parse_response_lem (create_parser (encode root ++ (0 ∷ []))) one_answer root (0 ∷ [])
      ((omega arith, refl, refl), tt) refl one_answer_sent root-IsWire root-height refl

abbrev bytes : List ℕ
bytes = encode root ++ []

abbrev requested : List RequestBatchItem
requested = get_attributes ∷ query ∷ []

abbrev parser : ResponseParser
parser = create_parser_for bytes (set_batch_items requested empty_request)

parser_parses : parse_response parser ≡ ok (with_answer parser)
unfolding create_parser_for add_hints set_batch_items add_batch_items clear_batch_items
    add_batch_item
parser_parses = parses parser refl

by_position_example : get_response_item_by_batch_item_id parser (1 + 0) ≡ (
    found (get_elem? (answer ∷ []) 0) batch_item_id_not_found >>= λ item.
    ok (item, with_answer parser))
by_position_example =
    by_position bytes requested empty_request 0 get_attributes (with_answer parser) (omega arith)
      refl parser_parses (refl, tt)

only_answer :
    (j : ℕ) (other : ResponseBatchItem)
    → get_elem? (answer ∷ []) j ≡ some other
    → other.unique_batch_item_id ≡ 0
    → j ≡ 0
only_answer zero other at same = refl
only_answer (suc j) other at same = cc

by_echoed_id_example : get_response_item_by_batch_item_id parser 0 ≡ ok (answer, with_answer parser)
by_echoed_id_example =
    by_echoed_id bytes (set_batch_items requested empty_request) 0 0 answer (with_answer parser)
      parser_parses refl refl only_answer

effective_operation_lem_example :
    effective_operation (with_answer parser) answer (some (1 + 0)) ≡ (if 0 == 0 then 11 else 0)
effective_operation_lem_example =
    effective_operation_lem bytes requested empty_request 0 get_attributes answer
      (with_answer parser) (omega arith) refl parser_parses (inl refl)

-- The typed response is the status here.
abbrev read_status : ResponseBatchItem → Result Error ℕ
read_status item = ok item.result_status

parser_typed :
    get_response_by_batch_item_id read_status parser 1 ≡ ok (status_success, with_answer parser)
unfolding get_response_by_batch_item_id ensure_success
parser_typed = rw by_position_example

get_response_only_success_example :
    (item : ResponseBatchItem) × (get_response_item_by_batch_item_id parser 1
      ≡ ok (item, with_answer parser))
    × (item.result_status ≡ status_success)
    × (read_status item ≡ ok status_success)
get_response_only_success_example =
    get_response_only_success read_status parser (with_answer parser) 1 status_success parser_typed

parser_ensured : ensure_parsed parser ≡ ok (with_answer parser)
unfolding ensure_parsed create_parser_for add_hints set_batch_items add_batch_items
    clear_batch_items add_batch_item
parser_ensured = parser_parses

abbrev stamped : RequestMessage
stamped = record two_requests { header = sent_header 1700000000 two_requests }

stamped_sent : request_to_element stamped ≡ ok (request_structure stamped)
unfolding sent_header request_to_element validate_types validate_items request_header_to_element
    request_item_to_element version_to_element
stamped_sent = refl

stamped-IsWire : IsWire (request_structure stamped)
unfolding sent_header encode request_header_to_element request_item_to_element version_to_element
stamped-IsWire = omega arith

stamped_sizes :
    (height (request_structure stamped) ≤ max_structure_depth)
    × (length (encode (request_structure stamped)) ≤ safe_size)
unfolding sent_header encode request_header_to_element request_item_to_element version_to_element
stamped_sizes = (omega arith, omega arith)

serialize_request_read_back_example :
    (serialize_request Endian.little 1700000000 two_requests
      ≡ ok (encode (request_structure stamped)))
    × ((deserialize (encode (request_structure stamped)) 0 >>= λ read. request_from_element read.0)
        ≡ ok (record stamped { next_batch_item_id = (2 + 1) % 2 ^ 32 }))
serialize_request_read_back_example =
    serialize_request_read_back Endian.little 1700000000 two_requests (request_structure stamped)
      (omega arith) ((omega arith, refl), ((omega arith, tt), tt)) stamped_sent stamped-IsWire
      stamped_sizes.0 stamped_sizes.1
