-- ===== src/Protocol/RequestLaws.antt =====
-- What a request message becomes on its way through an element.
use libkmip.Base.{
  ◌+◌, ◌%◌, ◌^◌, ◌<◌, ◌≡◌, refl, subst, true, false, List, [], ◌∷◌, map, some, ok, ◌==◌, ==_refl,
  length, All, >>=-eq-ok,
}
use libkmip.Ttlv.{Element, tag_of}
use libkmip.Ttlv.Access.{get_child, find}
use libkmip.Protocol.Tags.{tag_request_payload, tag_request_header, tag_batch_item}
use libkmip.Protocol.Children.{collect}
use libkmip.Protocol.Version.{validate_types}
use libkmip.Protocol.Header.{request_header_to_element, request_header_from_element-to_element}
use libkmip.Protocol.Item.{
  RequestBatchItem, HasTag, request_item_to_element, request_item_from_element,
  request_item_from_element-to_element,
}
use libkmip.Protocol.Request.{
  RequestMessage, request_structure, request_to_element, request_from_element, read_items,
}

-- An item that fits the wire: a 32-bit identifier, and a payload under the payload's tag.
abbrev pub IsSendable : RequestBatchItem → Type 0
IsSendable item =
    (item.unique_batch_item_id < 2 ^ 32) × HasTag tag_request_payload item.request_payload

read_items-collect :
    (items : List RequestBatchItem)
    → All IsSendable items
    → read_items request_item_from_element
        (collect (map (λ item. some (request_item_to_element item)) items))
      ≡ ok items
unfolding read_items
read_items-collect [] w = refl
read_items-collect (item ∷ items) (w, ws) =
    let tagged : (tag_of (request_item_to_element item) == tag_batch_item) ≡ true =
      unfold request_item_to_element in refl in
    rw (tagged, request_item_from_element-to_element item w.0 w.1, read_items-collect items ws)

structure_read_back :
    (m : RequestMessage)
    → m.header.batch_count ≡ length m.batch_items % 2 ^ 32
    → All IsSendable m.batch_items
    → validate_types (request_structure m) m.header.protocol_version ≡ ok tt
    → request_from_element (request_structure m)
      ≡ ok (record m { next_batch_item_id = (length m.batch_items + 1) % 2 ^ 32 })
unfolding request_from_element get_child find read_items
structure_read_back m count w valid =
    let head = request_header_to_element m.header in
    let is_header : (tag_of head == tag_request_header) ≡ true =
      unfold request_header_to_element in refl in
    let no_item : (tag_of head == tag_batch_item) ≡ false =
      unfold request_header_to_element in refl in
    let counted : (m.header.batch_count == length m.batch_items % 2 ^ 32) ≡ true =
      rw count (==_refl _) in
    rw (
      is_header,
      request_header_from_element-to_element m.header,
      valid,
      no_item,
      read_items-collect m.batch_items w,
      counted,
    )

-- A request whose header counts its items, whose identifiers and payload tags fit the wire, and
-- that its version allows, is read back from its element, and goes on numbering after its items.
pub request_from_element-request_to_element :
    (m : RequestMessage) (e : Element)
    → m.header.batch_count ≡ length m.batch_items % 2 ^ 32
    → All IsSendable m.batch_items
    → request_to_element m ≡ ok e
    → request_from_element e
      ≡ ok (record m { next_batch_item_id = (length m.batch_items + 1) % 2 ^ 32 })
unfolding request_to_element
request_from_element-request_to_element m e count w sent =
    let (_, valid, same) =
      >>=-eq-ok (validate_types (request_structure m) m.header.protocol_version)
        (λ _. ok (request_structure m)) sent in
    let is : request_structure m ≡ e = cc same in
    subst
      (λ (x : Element).
        request_from_element x
        ≡ ok (record m { next_batch_item_id = (length m.batch_items + 1) % 2 ^ 32 }))
      is (structure_read_back m count w valid)
