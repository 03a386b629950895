-- ===== src/Protocol/ResponseLaws.antt =====
-- What a response message becomes on its way through an element.
use libkmip.Base.{
  ◌%◌, ◌^◌, ◌<◌, ◌≡◌, refl, subst, true, false, List, [], ◌∷◌, map, some, Result, ok, err, ◌==◌,
  if◌then◌else◌, length, lt_i32, All, >>=-eq-ok, throw_if_lem,
}
use libkmip.Errors.{Error, response_batch_count_mismatch}
use libkmip.Ttlv.{Element, tag_of}
use libkmip.Ttlv.Access.{get_child, find}
use libkmip.Protocol.Tags.{tag_response_header, tag_response_payload, tag_batch_item}
use libkmip.Protocol.Children.{collect}
use libkmip.Protocol.Version.{validate_types}
use libkmip.Protocol.Header.{response_header_to_element, response_header_from_element-to_element}
use libkmip.Protocol.Item.{
  ResponseBatchItem, response_item_to_element, response_item_from_element,
  response_item_from_element-to_element, HasTag, lacks_reason,
}
use libkmip.Protocol.Request.{read_items}
use libkmip.Protocol.Response.{
  ResponseMessage, response_structure, response_to_element, response_from_element,
}

-- An item that fits the wire, and gives a reason if it has failed.
abbrev pub IsReadable : ResponseBatchItem → Type 0
IsReadable item =
    (item.unique_batch_item_id < 2 ^ 32)
    × HasTag tag_response_payload item.response_payload
    × (lacks_reason item ≡ false)

read_items-collect :
    (items : List ResponseBatchItem)
    → All IsReadable items
    → read_items response_item_from_element
        (collect (map (λ item. some (response_item_to_element item)) items))
      ≡ ok items
unfolding read_items
read_items-collect [] w = refl
read_items-collect (item ∷ items) (w, ws) =
    let tagged : (tag_of (response_item_to_element item) == tag_batch_item) ≡ true =
      unfold response_item_to_element in refl in
    let (id, tag, reason) = w in
    rw (
      tagged,
      response_item_from_element-to_element item id tag,
      reason,
      read_items-collect items ws,
    )

-- A response as the caller gets it, unless it has more items than its header declares.
abbrev pub accepted : ResponseMessage → Result Error ResponseMessage
accepted m =
    if lt_i32 m.header.batch_count (length m.batch_items % 2 ^ 32)
    then err response_batch_count_mismatch
    else ok m

structure_read_back :
    (m : ResponseMessage)
    → All IsReadable m.batch_items
    → validate_types (response_structure m) m.header.protocol_version ≡ ok tt
    → response_from_element (response_structure m) ≡ accepted m
unfolding response_from_element get_child find read_items
structure_read_back m w valid =
    let head = response_header_to_element m.header in
    let is_header : (tag_of head == tag_response_header) ≡ true =
      unfold response_header_to_element in refl in
    let no_item : (tag_of head == tag_batch_item) ≡ false =
      unfold response_header_to_element in refl in
    rw
      (
        is_header,
        response_header_from_element-to_element m.header,
        valid,
        no_item,
        read_items-collect m.batch_items w,
      )
      (throw_if_lem (lt_i32 m.header.batch_count (length m.batch_items % 2 ^ 32))
        response_batch_count_mismatch m)

-- A response that its version allows and whose items fit the wire, and give a reason where they
-- have failed, is read back from its element, also where its header declares more items than it
-- has. Where it has more items than declared, as int32_t values, the read throws.
pub response_from_element-response_to_element :
    (m : ResponseMessage) (e : Element)
    → All IsReadable m.batch_items
    → response_to_element m ≡ ok e
    → response_from_element e ≡ (
        if lt_i32 m.header.batch_count (length m.batch_items % 2 ^ 32)
        then err response_batch_count_mismatch
        else ok m)
unfolding response_to_element
response_from_element-response_to_element m e w sent =
    let (_, valid, same) =
      >>=-eq-ok (validate_types (response_structure m) m.header.protocol_version)
        (λ _. ok (response_structure m)) sent in
    let is : response_structure m ≡ e = cc same in
    subst (λ (x : Element). response_from_element x ≡ accepted m) is (structure_read_back m w valid)
