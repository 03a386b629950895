-- ===== src/Requests.antt =====
-- kmipcore/src/kmip_requests.cpp and kmipcore/include/kmipcore/kmip_requests.hpp: the batch items of
-- the operations.
pub mod Parts
pub mod Keys
use libkmip.Base.{
  ℕ, ◌+◌, ◌-◌, ◌*◌, ◌%◌, ◌^◌, Bool, true, false, not, ◌&&◌, List, [], ◌∷◌, ◌++◌, map, Option, none,
  some, Result, ok, err, ◌>>=◌, ◌>>◌, throw_if, ◌==◌, ltb, lt_i32, if◌then◌else◌, codes, same_text,
}
use libkmip.Errors.{Error, locate_number_too_large}
use libkmip.Ttlv.{Element}
use libkmip.Ttlv.Access.{
  create_structure, create_integer, create_enumeration, create_text_string, create_date_time,
}
use libkmip.Protocol.Tags.{
  tag_request_payload, tag_unique_identifier, tag_attribute_name, tag_maximum_items,
  tag_offset_items,
}
use libkmip.Protocol.Children.{collect, optional}
use libkmip.Protocol.Version.{ProtocolVersion}
use libkmip.Protocol.Item.{RequestBatchItem}
use libkmip.Locate.{times}
use libkmip.Codes.{
  kmip_op_create, kmip_op_register, kmip_op_locate, kmip_op_get, kmip_op_get_attributes,
  kmip_op_get_attribute_list, kmip_op_activate, kmip_op_revoke, kmip_op_destroy, kmip_op_query,
  kmip_op_discover_versions, object_symmetric_key, object_secret_data, mask_encrypt, mask_decrypt,
  query_operations, query_objects, query_server_information, tag_object_type, tag_key_format_type,
  tag_attributes, tag_object_group, tag_revocation_reason, tag_revocation_reason_code,
  tag_revokation_message, tag_compromise_occurrance_date, tag_query_function,
}
use libkmip.Requests.Parts.{
  structure_of, unless_empty, use_attributes_container, make_v2_attribute_reference,
  make_enum_attribute, make_text_attribute, make_name_attribute, make_v2_name_struct,
  make_symmetric_key, make_secret_data, container_for, v2_symmetric_attrs, v1_symmetric_attrs,
  v2_secret_attrs, v1_secret_attrs, bits_of,
}
use libkmip.Requests.Keys.{
  Key, object_type_from_key_type, make_key_object_from_key, v2_key_attrs, v1_key_attrs,
}

-- An item before it is given its identifier.
abbrev pub request_item : ℕ → List (Option Element) → RequestBatchItem
request_item operation children = record {
  unique_batch_item_id = 0;
  operation = operation;
  request_payload = some (structure_of tag_request_payload children);
}

-- `SimpleIdRequest`
unfoldable pub simple_id_request : ℕ → List ℕ → RequestBatchItem
simple_id_request operation id =
    request_item operation (some (create_text_string tag_unique_identifier id) ∷ [])

unfoldable pub get_request : List ℕ → Option ℕ → RequestBatchItem
get_request id format = request_item kmip_op_get (
    some (create_text_string tag_unique_identifier id)
    ∷ optional (create_enumeration tag_key_format_type) format
    ∷ [])

-- The names without repetitions, in the order in which they come first.
abbrev pub distinct : List (List ℕ) → List (List ℕ) → List (List ℕ)
distinct seen [] = []
distinct seen (name ∷ names) =
    let new = times name seen == 0 in
    let rest = distinct (if new then name ∷ seen else seen) names in
    if new then name ∷ rest else rest

unfoldable pub get_attributes_request :
    List ℕ → List (List ℕ) → ProtocolVersion → Bool → RequestBatchItem
get_attributes_request id names version legacy =
    let unique_names = distinct [] names in
    request_item kmip_op_get_attributes (
      some (create_text_string tag_unique_identifier id)
      ∷ (if use_attributes_container version && not legacy
          then map (λ (name : List ℕ). some (make_v2_attribute_reference name)) unique_names
          else map (λ (name : List ℕ). some (create_text_string tag_attribute_name name))
              unique_names))

unfoldable pub create_symmetric_key_request :
    List ℕ → List ℕ → ℕ → ℕ → ProtocolVersion → RequestBatchItem
create_symmetric_key_request name group key_bits mask version = request_item kmip_op_create (
    some (create_enumeration tag_object_type object_symmetric_key)
    ∷ some (
        container_for version (v2_symmetric_attrs name group key_bits mask)
          (v1_symmetric_attrs name group key_bits mask))
    ∷ [])

unfoldable pub register_symmetric_key_request :
    List ℕ → List ℕ → List ℕ → ProtocolVersion → RequestBatchItem
register_symmetric_key_request name group key_value version =
    let key_bits = bits_of key_value in
    let mask = mask_encrypt + mask_decrypt in
    request_item kmip_op_register (
      some (create_enumeration tag_object_type object_symmetric_key)
      ∷ some (
          container_for version (v2_symmetric_attrs name group key_bits mask)
            (v1_symmetric_attrs name group key_bits mask))
      ∷ some (make_symmetric_key key_value)
      ∷ [])

unfoldable pub register_key_request :
    List ℕ → List ℕ → Key → ProtocolVersion → Result Error RequestBatchItem
register_key_request name group key version = do
  object_type ← object_type_from_key_type key.key_type
  object ← make_key_object_from_key key version
  ok (
      request_item kmip_op_register (
        some (create_enumeration tag_object_type object_type)
        ∷ some (
            container_for version (v2_key_attrs name group key version)
              (v1_key_attrs name group key version))
        ∷ some object
        ∷ []))

unfoldable pub register_secret_request :
    List ℕ → List ℕ → List ℕ → ℕ → ProtocolVersion → RequestBatchItem
register_secret_request name group secret secret_type version = request_item kmip_op_register (
    some (create_enumeration tag_object_type object_secret_data)
    ∷ some (container_for version (v2_secret_attrs name group) (v1_secret_attrs name group))
    ∷ some (make_secret_data secret secret_type)
    ∷ [])

-- `if (number > 0)`
abbrev pub unless_zero : ℕ → ℕ → Option Element
unless_zero tag n = if n == 0 then none else some (create_integer tag n)

-- The filter of a search, by the group or by the name.
abbrev pub v2_filter : Bool → List ℕ → Option Element
v2_filter by_group name =
    unless_empty
      (λ (text : List ℕ).
        if by_group then create_text_string tag_object_group text else make_v2_name_struct text)
      name

abbrev pub v1_filter : Bool → List ℕ → Option Element
v1_filter by_group name =
    unless_empty
      (λ (text : List ℕ).
        if by_group
        then make_text_attribute (codes "Object Group") text
        else make_name_attribute text)
      name

unfoldable pub locate_request :
    Bool → List ℕ → ℕ → ℕ → ℕ → ProtocolVersion → Result Error RequestBatchItem
locate_request by_group name obj_type max_items offset version = do
  throw_if (ltb (2 ^ 31 - 1) max_items) locate_number_too_large
  throw_if (ltb (2 ^ 31 - 1) offset) locate_number_too_large
  ok (
      request_item kmip_op_locate (
        unless_zero tag_maximum_items max_items
        ∷ unless_zero tag_offset_items offset
        ∷ (if use_attributes_container version
            then some (
                structure_of tag_attributes (
                  some (create_enumeration tag_object_type obj_type)
                  ∷ v2_filter by_group name
                  ∷ []))
              ∷ []
            else some (make_enum_attribute (codes "Object Type") obj_type)
              ∷ v1_filter by_group name
              ∷ [])))

-- `time_t` is signed, and 0 stands for no time.
unfoldable pub revoke_request : List ℕ → ℕ → List ℕ → ℕ → RequestBatchItem
revoke_request id reason message occurrence_time = request_item kmip_op_revoke (
    some (create_text_string tag_unique_identifier id)
    ∷ some (
        structure_of tag_revocation_reason (
          some (create_enumeration tag_revocation_reason_code reason)
          ∷ unless_empty (create_text_string tag_revokation_message) message
          ∷ []))
    ∷ (if ltb 0 occurrence_time && ltb occurrence_time (2 ^ 63)
        then some (create_date_time tag_compromise_occurrance_date occurrence_time)
        else none)
    ∷ [])

-- `op_discover_versions` and `op_query` of kmipclient/src/KmipClient.cpp make their items themselves.
unfoldable pub discover_versions_request : RequestBatchItem
discover_versions_request = request_item kmip_op_discover_versions []

unfoldable pub query_request : RequestBatchItem
query_request = request_item kmip_op_query (
    some (create_enumeration tag_query_function query_operations)
    ∷ some (create_enumeration tag_query_function query_objects)
    ∷ some (create_enumeration tag_query_function query_server_information)
    ∷ [])
