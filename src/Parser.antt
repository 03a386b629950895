-- ===== src/Parser.antt =====
-- kmipcore/src/response_parser.cpp: `ResponseParser`. The message of a failed item is the data that
-- `formatOperationResult` prints.
pub mod Lookup
pub mod Batches
pub mod Messages
pub mod Runs
use libkmip.Base.{
  ℕ, zero, suc, ◌+◌, ◌≤◌, ◌<◌, ◌≡◌, Bool, true, false, not, ◌||◌, List, [], ◌∷◌, Option, none, some,
  Result, ok, err, ◌>>=◌, ◌>>◌, throw_if, ◌==◌, if◌then◌else◌, length, get_elem?, lt_i32,
  size_of_i32, leb,
}
use libkmip.Errors.{
  Error, empty_response, trailing_bytes, no_response_items, response_index_out_of_range,
  batch_item_id_not_found, operation_failed,
}
use libkmip.Ttlv.Deserialize.{deserialize}
use libkmip.Protocol.Tags.{status_success, reason_general_failure}
use libkmip.Protocol.Version.{version_1_4}
use libkmip.Protocol.Header.{ResponseHeader}
use libkmip.Protocol.Item.{RequestBatchItem, ResponseBatchItem}
use libkmip.Protocol.Request.{RequestMessage}
use libkmip.Protocol.Response.{ResponseMessage, response_from_element}

-- A map from 32-bit identifiers: the entry that was made last counts.
abbrev pub Map {ℓ} : Type ℓ → Type ℓ
Map A = List (ℕ × A)

abbrev pub lookup {ℓ} : {A : Type ℓ} → ℕ → Map A → Option A
lookup key [] = none
lookup key ((k, a) ∷ entries) = if k == key then some a else lookup key entries

pub record ResponseParser : Type 0 where
  pub response_bytes : List ℕ
  pub response_message : ResponseMessage
  pub is_parsed : Bool
  pub operation_hints : Map ℕ
  pub batch_item_positions : Map ℕ

abbrev empty_message : ResponseMessage
empty_message = record {
  header = record { protocol_version = version_1_4; time_stamp = 0; batch_count = 0 };
  batch_items = [];
}

-- `ResponseParser(responseBytes)`
abbrev pub create_parser : List ℕ → ResponseParser
create_parser bytes = record {
  response_bytes = bytes;
  response_message = empty_message;
  is_parsed = false;
  operation_hints = [];
  batch_item_positions = [];
}

-- The entries for the item at a place of the request.
abbrev pub add_hint : RequestBatchItem → ℕ → ResponseParser → ResponseParser
add_hint item pos p =
    let id = item.unique_batch_item_id in
    record p {
      operation_hints = (id, item.operation) ∷ p.operation_hints;
      batch_item_positions = (id, pos) ∷ p.batch_item_positions;
    }

unfoldable pub add_hints : List RequestBatchItem → ℕ → ResponseParser → ResponseParser
add_hints [] pos p = p
add_hints (item ∷ items) pos p = add_hints items (pos + 1) (add_hint item pos p)

-- `ResponseParser(responseBytes, request)`
unfoldable pub create_parser_for : List ℕ → RequestMessage → ResponseParser
create_parser_for bytes request = add_hints request.batch_items 0 (create_parser bytes)

unfoldable pub parse_response : ResponseParser → Result Error ResponseParser
parse_response p = do
  throw_if (length p.response_bytes == 0) empty_response
  (root, offset) ← deserialize p.response_bytes 0
  throw_if (not (offset == length p.response_bytes)) trailing_bytes
  message ← response_from_element root
  ok (record p { response_message = message; is_parsed = true })

-- A parser whose bytes cannot be parsed stays as it is: the next call throws again.
unfoldable pub ensure_parsed : ResponseParser → Result Error ResponseParser
ensure_parsed p = let parsed = parse_response p in if p.is_parsed then ok p else parsed

-- The operation that the request has under an identifier, or a default.
abbrev pub hint : ResponseParser → ℕ → ℕ → ℕ
hint p id default = elim (lookup id p.operation_hints) [ some op ↦ op | none ↦ default ]

unfoldable pub effective_operation : ResponseParser → ResponseBatchItem → Option ℕ → ℕ
effective_operation p item requested =
    let requested_hint : ℕ = elim requested [ some id ↦ hint p id 0 | none ↦ 0 ] in
    if item.operation == 0 then hint p item.unique_batch_item_id requested_hint else item.operation

abbrev pub get_result_reason_or_default : ResponseBatchItem → ℕ
get_result_reason_or_default item = elim item.result_reason [
  | some r ↦ r
  | none ↦ reason_general_failure
]

abbrev pub result_message_or_empty : ResponseBatchItem → List ℕ
result_message_or_empty item = elim item.result_message [ some m ↦ m | none ↦ [] ]

abbrev pub found {ℓ} : {A : Type ℓ} → Option A → Error → Result Error A
found (some a) e = ok a
found none e = err e

-- The item at an index, an int, of a parsed response.
unfoldable pub item_at : List ResponseBatchItem → ℕ → Result Error ResponseBatchItem
item_at items idx = do
  throw_if (length items == 0) no_response_items
  throw_if (lt_i32 idx 0) response_index_out_of_range
  found (get_elem? items (size_of_i32 idx)) response_index_out_of_range

-- The first item that echoes the identifier.
unfoldable pub find_echoed : ℕ → List ResponseBatchItem → Option ResponseBatchItem
find_echoed id [] = none
find_echoed id (item ∷ items) =
    if item.unique_batch_item_id == id then some item else find_echoed id items

-- The item at the place that the identifier has in the request.
abbrev pub find_by_position : ResponseParser → ℕ → List ResponseBatchItem → Option ResponseBatchItem
find_by_position p id items = elim (lookup id p.batch_item_positions) [
  | some pos ↦ get_elem? items pos
  | none ↦ none
]

unfoldable pub item_by_id :
    ResponseParser → ℕ → List ResponseBatchItem → Result Error ResponseBatchItem
item_by_id p id items = elim (find_echoed id items) [
  | some item ↦ ok item
  | none ↦ found (find_by_position p id items) batch_item_id_not_found
]

-- `getResponseItem` and `getResponseItemByBatchItemId`, each with the parser that it leaves.
unfoldable pub get_response_item :
    ResponseParser → ℕ → Result Error (ResponseBatchItem × ResponseParser)
get_response_item p idx = do
  parsed ← ensure_parsed p
  item ← item_at parsed.response_message.batch_items idx
  ok (item, parsed)

unfoldable pub get_response_item_by_batch_item_id :
    ResponseParser → ℕ → Result Error (ResponseBatchItem × ResponseParser)
get_response_item_by_batch_item_id p id = do
  parsed ← ensure_parsed p
  item ← item_by_id parsed id parsed.response_message.batch_items
  ok (item, parsed)

unfoldable pub get_batch_item_count : ResponseParser → Result Error (ℕ × ResponseParser)
get_batch_item_count p = do
  parsed ← ensure_parsed p
  ok (length parsed.response_message.batch_items, parsed)

unfoldable pub is_success : ResponseParser → ℕ → Result Error (Bool × ResponseParser)
is_success p idx = do
  (item, parsed) ← get_response_item p idx
  ok (item.result_status == status_success, parsed)

pub record OperationResult : Type 0 where
  pub operation : ℕ
  pub result_status : ℕ
  pub result_reason : ℕ
  pub result_message : List ℕ

abbrev pub operation_result : ℕ → ResponseBatchItem → OperationResult
operation_result operation item = record {
  operation = operation;
  result_status = item.result_status;
  result_reason = get_result_reason_or_default item;
  result_message = result_message_or_empty item;
}

unfoldable pub get_operation_result :
    ResponseParser → ℕ → Result Error (OperationResult × ResponseParser)
get_operation_result p idx = do
  (item, parsed) ← get_response_item p idx
  ok (operation_result (effective_operation parsed item none) item, parsed)

unfoldable pub get_operation_result_by_batch_item_id :
    ResponseParser → ℕ → Result Error (OperationResult × ResponseParser)
get_operation_result_by_batch_item_id p id = do
  (item, parsed) ← get_response_item_by_batch_item_id p id
  ok (operation_result (effective_operation parsed item (some id)) item, parsed)

unfoldable pub ensure_success :
    ResponseParser → ResponseBatchItem → Option ℕ → Result Error (Unit {0})
ensure_success p item requested =
    let operation = effective_operation p item requested in
    throw_if (not (item.result_status == status_success)) (
      operation_failed operation item.result_status (get_result_reason_or_default item)
        (result_message_or_empty item))

-- `read` is the `fromBatchItem` of the typed response that is asked for.
module _ {ℓ} {T : Type ℓ} (read : ResponseBatchItem → Result Error T) where
  unfoldable pub get_response : ResponseParser → ℕ → Result Error (T × ResponseParser)
  get_response p idx = do
    (item, parsed) ← get_response_item p idx
    ensure_success parsed item none
    typed ← read item
    ok (typed, parsed)

  unfoldable pub get_response_by_batch_item_id :
      ResponseParser → ℕ → Result Error (T × ResponseParser)
  get_response_by_batch_item_id p id = do
    (item, parsed) ← get_response_item_by_batch_item_id p id
    ensure_success parsed item (some id)
    typed ← read item
    ok (typed, parsed)
