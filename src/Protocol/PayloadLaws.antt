-- ===== src/Protocol/PayloadLaws.antt =====
-- The payloads of locate, read back from their elements.
use libkmip.Base.{
  ℕ, ◌≡◌, refl, sym, ap, List, [], ◌∷◌, ◌++◌, map, append_assoc, append-nil, some, ok,
  if◌then◌else◌, lt_i32, inl, inr, Bool-cases, Option-cases,
}
use libkmip.Ttlv.Access.{get_child, find, to_int, to_string, create_text_string}
use libkmip.Protocol.Tags.{tag_unique_identifier}
use libkmip.Protocol.Children.{collect}
use libkmip.Protocol.Payloads.{
  Attribute, attribute_to_element, attribute_from_element, LocateRequestPayload,
  locate_request_to_element, locate_request_from_element, read_locate_child, read_locate_children,
  LocateResponsePayload, locate_response_to_element, locate_response_from_element,
  read_located_child, read_located_children,
}

attribute_from_element-to_element :
    (a : Attribute) → attribute_from_element (attribute_to_element a) ≡ ok a
unfolding attribute_from_element attribute_to_element get_child find to_string
attribute_from_element-to_element a = refl

read_locate_child-attribute :
    (a : Attribute) (req : LocateRequestPayload)
    → read_locate_child (attribute_to_element a) req
      ≡ ok (record req { attributes = req.attributes ++ (a ∷ []) })
unfolding read_locate_child
read_locate_child-attribute a req =
    rw (attribute_from_element-to_element a) (unfold attribute_to_element in refl)

read_attributes :
    (attributes : List Attribute) (req : LocateRequestPayload)
    → read_locate_children (collect (map (λ a. some (attribute_to_element a)) attributes)) req
      ≡ ok (record req { attributes = req.attributes ++ attributes })
unfolding read_locate_children
read_attributes [] req =
    ap (λ (x : List Attribute). ok (record req { attributes = x }))
      (sym (append-nil req.attributes))
read_attributes (a ∷ attributes) req = rw (
  read_locate_child-attribute a req,
  read_attributes attributes (record req { attributes = req.attributes ++ (a ∷ []) }),
  append_assoc req.attributes (a ∷ []) attributes,
)

-- A number as an int32_t where it is positive, and 0.
abbrev pub positive_or_zero : ℕ → ℕ
positive_or_zero n = if lt_i32 0 n then n else 0

-- A locate request is read back from its element, with 0 for a number of items or an offset that is
-- not positive as an int32_t: those are not sent.
pub locate_request_from_element-to_element :
    (p : LocateRequestPayload)
    → locate_request_from_element (locate_request_to_element p)
      ≡ ok (record p {
        maximum_items = positive_or_zero p.maximum_items;
        offset_items = positive_or_zero p.offset_items;
      })
unfolding locate_request_from_element locate_request_to_element read_locate_children
    read_locate_child to_int
locate_request_from_element-to_element p = elim (Bool-cases (lt_i32 0 p.maximum_items)) [
  | inl some_maximum ↦ elim (Bool-cases (lt_i32 0 p.offset_items)) [
    | inl some_offset ↦ rw (some_maximum, some_offset) (read_attributes p.attributes _)
    | inr no_offset ↦ rw (some_maximum, no_offset) (read_attributes p.attributes _)
  ]
  | inr no_maximum ↦ elim (Bool-cases (lt_i32 0 p.offset_items)) [
    | inl some_offset ↦ rw (no_maximum, some_offset) (read_attributes p.attributes _)
    | inr no_offset ↦ rw (no_maximum, no_offset) (read_attributes p.attributes _)
  ]
]

read_identifiers :
    (ids : List (List ℕ)) (resp : LocateResponsePayload)
    → read_located_children
        (collect (map (λ id. some (create_text_string tag_unique_identifier id)) ids))
        resp
      ≡ ok (record resp { unique_identifiers = resp.unique_identifiers ++ ids })
unfolding read_located_children read_located_child to_string
read_identifiers [] resp =
    ap (λ (x : List (List ℕ)). ok (record resp { unique_identifiers = x }))
      (sym (append-nil resp.unique_identifiers))
read_identifiers (id ∷ ids) resp = rw (
  read_identifiers ids (record resp { unique_identifiers = resp.unique_identifiers ++ (id ∷ []) }),
  append_assoc resp.unique_identifiers (id ∷ []) ids,
)

-- A locate response is read back from its element, its identifiers in their order.
pub locate_response_from_element-to_element :
    (p : LocateResponsePayload) → locate_response_from_element (locate_response_to_element p) ≡ ok p
unfolding locate_response_from_element locate_response_to_element read_located_children
    read_located_child to_int
locate_response_from_element-to_element p = elim (Option-cases p.located_items) [
  | inl unknown ↦ rw unknown (read_identifiers p.unique_identifiers _)
  | inr (n, known) ↦ rw known (read_identifiers p.unique_identifiers _)
]
