-- ===== src/Protocol/Request.antt =====
-- kmipcore/src/kmip_protocol.cpp: `RequestMessage`.
use libkmip.Base.{
  ℕ, ◌+◌, ◌-◌, ◌*◌, ◌%◌, ◌^◌, true, not, ◌&&◌, List, [], ◌∷◌, ◌++◌, map, none, some, Result, ok,
  err, ◌>>=◌, ◌>>◌, throw_if, ◌==◌, ltb, if◌then◌else◌, length, size_of_i32,
}
use libkmip.Errors.{
  Error, max_response_size_too_large, no_batch_items, invalid_request_message,
  request_message_not_structure, missing_request_header, request_batch_count_mismatch,
}
use libkmip.Buffer.{release}
use libkmip.Ttlv.{Element, Items, nil, cons, tag_of}
use libkmip.Ttlv.Access.{create_structure, get_child, as_structure}
use libkmip.Ttlv.Bytes.{Endian}
use libkmip.Ttlv.Serialize.{serialize, fresh}
use libkmip.Protocol.Tags.{tag_request_message, tag_request_header, tag_batch_item}
use libkmip.Protocol.Children.{collect, child_required, is_other_structure}
use libkmip.Protocol.Version.{ProtocolVersion, validate_types}
use libkmip.Protocol.Header.{
  RequestHeader, default_request_header, request_header_to_element, request_header_from_element,
}
use libkmip.Protocol.Item.{
  RequestBatchItem, request_item_to_element, request_item_from_element, is_none,
}

-- KMIP_MAX_MESSAGE_SIZE
abbrev pub default_max_response_size : ℕ
default_max_response_size = 1024 * 1024

pub record RequestMessage : Type 0 where
  pub header : RequestHeader
  pub batch_items : List RequestBatchItem
  pub next_batch_item_id : ℕ

-- The size as an int32_t, if it fits.
unfoldable pub set_max_response_size : ℕ → RequestMessage → Result Error RequestMessage
set_max_response_size size m = do
  throw_if (ltb (2 ^ 31 - 1) size) max_response_size_too_large
  ok (record m { header = record (m.header) { maximum_response_size = some size } })

unfoldable pub get_max_response_size : RequestMessage → ℕ
get_max_response_size m = elim m.header.maximum_response_size [
  | some n ↦ size_of_i32 n
  | none ↦ default_max_response_size
]

unfoldable pub create_request : ProtocolVersion → ℕ → Result Error RequestMessage
create_request version max_response_size = set_max_response_size max_response_size (record {
  header = record default_request_header { protocol_version = version };
  batch_items = [];
  next_batch_item_id = 1;
})

-- The identifier that the item is given, and the message.
unfoldable pub add_batch_item : RequestBatchItem → RequestMessage → ℕ × RequestMessage
add_batch_item item m =
    let id = m.next_batch_item_id in
    (
      id,
      record m {
        batch_items = m.batch_items ++ (record item { unique_batch_item_id = id } ∷ []);
        next_batch_item_id = (id + 1) % 2 ^ 32;
      },
    )

unfoldable pub clear_batch_items : RequestMessage → RequestMessage
clear_batch_items m = record m { batch_items = []; next_batch_item_id = 1 }

unfoldable pub add_batch_items : List RequestBatchItem → RequestMessage → RequestMessage
add_batch_items [] m = m
add_batch_items (item ∷ items) m = add_batch_items items (add_batch_item item m).1

unfoldable pub set_batch_items : List RequestBatchItem → RequestMessage → RequestMessage
set_batch_items items m = add_batch_items items (clear_batch_items m)

-- The header and the items under one structure.
abbrev pub request_structure : RequestMessage → Element
request_structure m = create_structure tag_request_message (
    collect (
      some (request_header_to_element m.header)
      ∷ map (λ item. some (request_item_to_element item)) m.batch_items))

unfoldable pub request_to_element : RequestMessage → Result Error Element
request_to_element m = do
  let e = request_structure m
  validate_types e m.header.protocol_version
  ok e

-- The header that `serialize` sends: the number of items, the order option where it has a meaning,
-- and the time.
unfoldable pub sent_header : ℕ → RequestMessage → RequestHeader
sent_header now m =
    let count = length m.batch_items in
    record (m.header) {
      batch_count = count % 2 ^ 32;
      batch_order_option =
          if ltb 1 count && is_none m.header.batch_order_option
          then some true
          else m.header.batch_order_option;
      time_stamp = some now;
    }

-- `now` is what `time(nullptr)` returns, as the bit pattern of an int64_t.
unfoldable pub serialize_request : Endian → ℕ → RequestMessage → Result Error (List ℕ)
serialize_request host now m = do
  throw_if (length m.batch_items == 0) no_batch_items
  e ← request_to_element (record m { header = sent_header now m })
  buf ← serialize host e fresh
  ok (release buf).0

-- The batch items among the children.
unfoldable pub read_items {ℓ} :
    {A : Type ℓ} → (Element → Result Error A) → Items → Result Error (List A)
read_items read nil = ok []
read_items read (cons child rest) =
    let others = read_items read rest in
    let with_item = (do item ← read child; items ← others; ok (item ∷ items)) in
    if tag_of child == tag_batch_item then with_item else others

unfoldable pub request_from_element : Element → Result Error RequestMessage
request_from_element e = do
  throw_if (is_other_structure tag_request_message e) invalid_request_message
  items ← elim (as_structure e) [ some items ↦ ok items | none ↦ err request_message_not_structure ]
  hdr ← child_required (get_child tag_request_header e) missing_request_header
  header ← request_header_from_element hdr
  validate_types e header.protocol_version
  batch_items ← read_items request_item_from_element items
  throw_if (not (header.batch_count == length batch_items % 2 ^ 32)) request_batch_count_mismatch
  ok (record {
    header = header;
    batch_items = batch_items;
    next_batch_item_id = (length batch_items + 1) % 2 ^ 32;
  })
