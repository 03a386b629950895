-- ===== src/Protocol/Payloads.antt =====
-- kmipcore/src/kmip_payloads.cpp: attributes and the payloads of locate.
use libkmip.Base.{
  ℕ, not, List, [], ◌∷◌, ◌++◌, map, Option, none, some, Result, ok, err, ◌>>=◌, ◌>>◌, throw_if,
  ◌==◌, if◌then◌else◌, lt_i32,
}
use libkmip.Errors.{Error, invalid_attribute, payload_not_structure, response_payload_not_structure}
use libkmip.Ttlv.{Element, Items, nil, cons, tag_of}
use libkmip.Ttlv.Access.{
  create_structure, create_integer, create_text_string, get_child, as_structure, to_int, to_string,
}
use libkmip.Protocol.Tags.{
  tag_attribute, tag_attribute_name, tag_attribute_value, tag_maximum_items, tag_offset_items,
  tag_located_items, tag_unique_identifier, tag_request_payload, tag_response_payload,
}
use libkmip.Protocol.Children.{collect, optional, child_or}

pub record Attribute : Type 0 where
  pub name : List ℕ
  pub value : List ℕ

unfoldable pub attribute_to_element : Attribute → Element
attribute_to_element a = create_structure tag_attribute (
    collect (
      some (create_text_string tag_attribute_name a.name)
      ∷ some (create_text_string tag_attribute_value a.value)
      ∷ []))

unfoldable pub attribute_from_element : Element → Result Error Attribute
attribute_from_element e = do
  throw_if (not (tag_of e == tag_attribute)) invalid_attribute
  name ← child_or (get_child tag_attribute_name e) to_string []
  value ← child_or (get_child tag_attribute_value e) to_string []
  ok (record { name = name; value = value })

pub record LocateRequestPayload : Type 0 where
  pub maximum_items : ℕ
  pub offset_items : ℕ
  pub attributes : List Attribute

-- `if (items > 0)`
abbrev pub positive_integer : ℕ → ℕ → Option Element
positive_integer tag items = if lt_i32 0 items then some (create_integer tag items) else none

unfoldable pub locate_request_to_element : LocateRequestPayload → Element
locate_request_to_element p = create_structure tag_request_payload (
    collect (
      positive_integer tag_maximum_items p.maximum_items
      ∷ positive_integer tag_offset_items p.offset_items
      ∷ map (λ a. some (attribute_to_element a)) p.attributes))

-- What one child changes.
unfoldable pub read_locate_child :
    Element → LocateRequestPayload → Result Error LocateRequestPayload
read_locate_child child req =
    if tag_of child == tag_maximum_items
    then (do n ← to_int child; ok (record req { maximum_items = n }))
    else if tag_of child == tag_offset_items
    then (do n ← to_int child; ok (record req { offset_items = n }))
    else if tag_of child == tag_attribute
    then (do
      a ← attribute_from_element child
      ok (record req { attributes = req.attributes ++ (a ∷ []) }))
    else ok req

unfoldable pub read_locate_children :
    Items → LocateRequestPayload → Result Error LocateRequestPayload
read_locate_children nil req = ok req
read_locate_children (cons child items) req =
    read_locate_child child req >>= read_locate_children items

abbrev pub empty_locate_request : LocateRequestPayload
empty_locate_request = record { maximum_items = 0; offset_items = 0; attributes = [] }

unfoldable pub locate_request_from_element : Element → Result Error LocateRequestPayload
locate_request_from_element e = elim (as_structure e) [
  | some items ↦ read_locate_children items empty_locate_request
  | none ↦ err payload_not_structure
]

pub record LocateResponsePayload : Type 0 where
  pub located_items : Option ℕ
  pub unique_identifiers : List (List ℕ)

unfoldable pub locate_response_to_element : LocateResponsePayload → Element
locate_response_to_element p = create_structure tag_response_payload (
    collect (
      optional (create_integer tag_located_items) p.located_items
      ∷ map (λ id. some (create_text_string tag_unique_identifier id)) p.unique_identifiers))

unfoldable pub read_located_child :
    Element → LocateResponsePayload → Result Error LocateResponsePayload
read_located_child child resp =
    if tag_of child == tag_located_items
    then (do n ← to_int child; ok (record resp { located_items = some n }))
    else if tag_of child == tag_unique_identifier
    then (do
      id ← to_string child
      ok (record resp { unique_identifiers = resp.unique_identifiers ++ (id ∷ []) }))
    else ok resp

unfoldable pub read_located_children :
    Items → LocateResponsePayload → Result Error LocateResponsePayload
read_located_children nil resp = ok resp
read_located_children (cons child items) resp =
    read_located_child child resp >>= read_located_children items

unfoldable pub locate_response_from_element : Element → Result Error LocateResponsePayload
locate_response_from_element e = elim (as_structure e) [
  | some items ↦
      read_located_children items (record { located_items = none; unique_identifiers = [] })
  | none ↦ err response_payload_not_structure
]
