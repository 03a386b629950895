-- ===== src/Protocol/Response.antt =====
-- kmipcore/src/kmip_protocol.cpp: `ResponseMessage`.
use libkmip.Base.{
  ◌%◌, ◌^◌, List, ◌∷◌, map, none, some, Result, ok, err, ◌>>=◌, ◌>>◌, throw_if, length, lt_i32,
}
use libkmip.Errors.{
  Error, invalid_response_message, response_message_not_structure, missing_response_header,
  response_batch_count_mismatch,
}
use libkmip.Ttlv.{Element}
use libkmip.Ttlv.Access.{create_structure, get_child, as_structure}
use libkmip.Protocol.Tags.{tag_response_message, tag_response_header}
use libkmip.Protocol.Children.{collect, child_required, is_other_structure}
use libkmip.Protocol.Version.{validate_types}
use libkmip.Protocol.Header.{
  ResponseHeader, response_header_to_element, response_header_from_element,
}
use libkmip.Protocol.Item.{ResponseBatchItem, response_item_to_element, response_item_from_element}
use libkmip.Protocol.Request.{read_items}

pub record ResponseMessage : Type 0 where
  pub header : ResponseHeader
  pub batch_items : List ResponseBatchItem

abbrev pub response_structure : ResponseMessage → Element
response_structure m = create_structure tag_response_message (
    collect (
      some (response_header_to_element m.header)
      ∷ map (λ item. some (response_item_to_element item)) m.batch_items))

unfoldable pub response_to_element : ResponseMessage → Result Error Element
response_to_element m = do
  let e = response_structure m
  validate_types e m.header.protocol_version
  ok e

-- The count of the header may be larger than the number of items: some servers stop at the first
-- item that fails.
unfoldable pub response_from_element : Element → Result Error ResponseMessage
response_from_element e = do
  throw_if (is_other_structure tag_response_message e) invalid_response_message
  items ← elim (as_structure e) [
    | some items ↦ ok items
    | none ↦ err response_message_not_structure
  ]
  hdr ← child_required (get_child tag_response_header e) missing_response_header
  header ← response_header_from_element hdr
  validate_types e header.protocol_version
  batch_items ← read_items response_item_from_element items
  throw_if (lt_i32 header.batch_count (length batch_items % 2 ^ 32)) response_batch_count_mismatch
  ok (record { header = header; batch_items = batch_items })
