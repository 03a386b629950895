-- ===== src/Responses.antt =====
-- kmipcore/src/kmip_responses.cpp and kmipcore/include/kmipcore/kmip_responses.hpp: the typed
-- responses, each read from a batch item.
use libkmip.Base.{
  ℕ, not, List, [], ◌∷◌, ◌++◌, Option, none, some, Result, ok, ◌>>=◌, ◌>>◌, throw_if, ◌==◌,
  if◌then◌else◌,
}
use libkmip.Errors.{
  Error, unexpected_operation, missing_response_payload, missing_unique_identifier,
  missing_object_type, missing_object,
}
use libkmip.Ttlv.{Element, Items, nil, cons, type_of, type_enumeration, type_structure}
use libkmip.Ttlv.Access.{get_child, get_children, as_structure, to_string, to_enum}
use libkmip.Protocol.Tags.{
  tag_attribute, tag_attribute_name, tag_operation, tag_protocol_version, tag_unique_identifier,
}
use libkmip.Protocol.Children.{child_or, child_required}
use libkmip.Protocol.Version.{ProtocolVersion, version_from_element}
use libkmip.Protocol.Item.{ResponseBatchItem}
use libkmip.Protocol.Payloads.{LocateResponsePayload, locate_response_from_element}
use libkmip.Codes.{
  kmip_op_get, kmip_op_get_attributes, kmip_op_get_attribute_list, kmip_op_locate, kmip_op_query,
  kmip_op_discover_versions, object_symmetric_key, object_secret_data, object_private_key,
  object_public_key, tag_activation_date, tag_deactivation_date, tag_process_start_date,
  tag_protect_stop_date, tag_attributes, tag_attribute_reference, tag_cryptographic_algorithm,
  tag_cryptographic_length, tag_cryptographic_usage_mask, tag_object_group, tag_object_type,
  tag_operation_policy_name, tag_state, tag_name, tag_symmetric_key, tag_secret_data,
  tag_private_key, tag_public_key, tag_vendor_identification, tag_server_information,
  tag_server_name, tag_server_serial_number, tag_server_version, tag_server_load, tag_product_name,
  tag_build_level, tag_build_date, tag_cluster_info,
}
use libkmip.Attributes.Names.{
  attr_name, attr_group, attr_state, attr_unique_identifier, attr_activation_date,
  attr_deactivation_date, attr_process_start_date, attr_protect_stop_date, attr_crypto_alg,
  attr_crypto_len, attr_crypto_usage_mask, attr_operation_policy_name,
}

abbrev pub expect_operation : ResponseBatchItem → ℕ → Result Error (Unit {0})
expect_operation item expected = throw_if (not (item.operation == expected)) unexpected_operation

abbrev pub require_response_payload : ResponseBatchItem → Result Error Element
require_response_payload item = child_required item.response_payload missing_response_payload

-- `SimpleIdResponseBatchItem`: the unique identifier.
unfoldable pub read_simple_id : ℕ → ResponseBatchItem → Result Error (List ℕ)
read_simple_id operation item = do
  expect_operation item operation
  payload ← require_response_payload item
  uid ← child_required (get_child tag_unique_identifier payload) missing_unique_identifier
  to_string uid

pub record GetResponse : Type 0 where
  pub unique_identifier : List ℕ
  pub object_type : ℕ
  pub object_element : Element

abbrev pub get_object_element_for_type : Element → ℕ → Option Element
get_object_element_for_type payload object_type =
    if object_type == object_symmetric_key
    then get_child tag_symmetric_key payload
    else if object_type == object_secret_data
    then get_child tag_secret_data payload
    else if object_type == object_private_key
    then get_child tag_private_key payload
    else if object_type == object_public_key
    then get_child tag_public_key payload
    else none

unfoldable pub read_get : ResponseBatchItem → Result Error GetResponse
read_get item = do
  expect_operation item kmip_op_get
  payload ← require_response_payload item
  uid ← child_required (get_child tag_unique_identifier payload) missing_unique_identifier
  unique_identifier ← to_string uid
  type_element ← child_required (get_child tag_object_type payload) missing_object_type
  object_type ← to_enum type_element
  object ← child_required (get_object_element_for_type payload object_type) missing_object
  ok (record {
    unique_identifier = unique_identifier;
    object_type = object_type;
    object_element = object;
  })

abbrev pub elements : Items → List Element
elements nil = []
elements (cons e items) = e ∷ elements items

-- `attributes->asStructure() ? its items : nothing`
abbrev pub items_of : Option Items → List Element
items_of (some items) = elements items
items_of none = []

abbrev pub or_else : List Element → List Element → List Element
or_else [] other = other
or_else (e ∷ rest) other = e ∷ rest

-- The attributes inside a container: those of the 1.x form, or else all children.
abbrev pub in_container : Option Element → List Element
in_container none = []
in_container (some attributes) =
    or_else (get_children tag_attribute attributes) (items_of (as_structure attributes))

unfoldable pub read_get_attributes : ResponseBatchItem → Result Error (List Element)
read_get_attributes item = do
  expect_operation item kmip_op_get_attributes
  payload ← require_response_payload item
  ok (
      or_else (get_children tag_attribute payload)
        (in_container (get_child tag_attributes payload)))

unfoldable pub attribute_name_from_tag_code : ℕ → Option (List ℕ)
attribute_name_from_tag_code code =
    if code == tag_name
    then some attr_name
    else if code == tag_object_group
    then some attr_group
    else if code == tag_state
    then some attr_state
    else if code == tag_unique_identifier
    then some attr_unique_identifier
    else if code == tag_activation_date
    then some attr_activation_date
    else if code == tag_deactivation_date
    then some attr_deactivation_date
    else if code == tag_process_start_date
    then some attr_process_start_date
    else if code == tag_protect_stop_date
    then some attr_protect_stop_date
    else if code == tag_cryptographic_algorithm
    then some attr_crypto_alg
    else if code == tag_cryptographic_length
    then some attr_crypto_len
    else if code == tag_cryptographic_usage_mask
    then some attr_crypto_usage_mask
    else if code == tag_operation_policy_name
    then some attr_operation_policy_name
    else none

-- `if (mapped.has_value()) out_names.push_back(*mapped);`
abbrev pub push_mapped : Option (List ℕ) → List (List ℕ)
push_mapped (some name) = name ∷ []
push_mapped none = []

abbrev pub name_of_code : Element → Result Error (List (List ℕ))
name_of_code e = do code ← to_enum e; ok (push_mapped (attribute_name_from_tag_code code))

abbrev pub name_in_structure : Option Element → Option Element → Result Error (List (List ℕ))
name_in_structure (some attr_name) attr_tag = do name ← to_string attr_name; ok (name ∷ [])
name_in_structure none (some attr_tag) = name_of_code attr_tag
name_in_structure none none = ok []

-- The names that one reference adds.
unfoldable pub collect_attribute_list_entries_from_reference :
    Element → Result Error (List (List ℕ))
collect_attribute_list_entries_from_reference e =
    if type_of e == type_enumeration
    then name_of_code e
    else if not (type_of e == type_structure)
    then ok []
    else name_in_structure (get_child tag_attribute_name e) (get_child tag_attribute_reference e)

-- A loop over elements, each read to a value that is appended.
abbrev pub read_each {ℓ} :
    {A : Type ℓ} → (Element → Result Error A) → List Element → Result Error (List A)
read_each read [] = ok []
read_each read (e ∷ rest) = do a ← read e; as_read ← read_each read rest; ok (a ∷ as_read)

abbrev pub names_of_references : List Element → Result Error (List (List ℕ))
names_of_references [] = ok []
names_of_references (e ∷ rest) = do
  names ← collect_attribute_list_entries_from_reference e
  more ← names_of_references rest
  ok (names ++ more)

abbrev pub names_or_references : List (List ℕ) → Element → Result Error (List (List ℕ))
names_or_references (name ∷ names) payload = ok (name ∷ names)
names_or_references [] payload = names_of_references (get_children tag_attribute_reference payload)

unfoldable pub read_get_attribute_list : ResponseBatchItem → Result Error (List (List ℕ))
read_get_attribute_list item = do
  expect_operation item kmip_op_get_attribute_list
  payload ← require_response_payload item
  names ← read_each to_string (get_children tag_attribute_name payload)
  names_or_references names payload

unfoldable pub read_locate : ResponseBatchItem → Result Error LocateResponsePayload
read_locate item = do
  expect_operation item kmip_op_locate
  payload ← require_response_payload item
  locate_response_from_element payload

-- The children of a payload that may be absent.
abbrev pub optional_children : ℕ → Option Element → List Element
optional_children tag none = []
optional_children tag (some payload) = get_children tag payload

unfoldable pub read_discover_versions : ResponseBatchItem → Result Error (List ProtocolVersion)
read_discover_versions item = do
  expect_operation item kmip_op_discover_versions
  read_each version_from_element (optional_children tag_protocol_version item.response_payload)

pub record QueryResponse : Type 0 where
  pub operations : List ℕ
  pub object_types : List ℕ
  pub vendor_identification : List ℕ
  pub server_name : List ℕ
  pub server_serial_number : List ℕ
  pub server_version : List ℕ
  pub server_load : List ℕ
  pub product_name : List ℕ
  pub build_level : List ℕ
  pub build_date : List ℕ
  pub cluster_info : List ℕ

-- `if (const auto child = parent->getChild(tag); child) field = child->toString();`
abbrev pub text_child : ℕ → Option Element → Result Error (List ℕ)
text_child tag none = ok []
text_child tag (some parent) = child_or (get_child tag parent) to_string []

abbrev pub child_of : ℕ → Option Element → Option Element
child_of tag none = none
child_of tag (some parent) = get_child tag parent

unfoldable pub read_query : ResponseBatchItem → Result Error QueryResponse
read_query item = do
  expect_operation item kmip_op_query
  let payload = item.response_payload
  operations ← read_each to_enum (optional_children tag_operation payload)
  object_types ← read_each to_enum (optional_children tag_object_type payload)
  vendor ← text_child tag_vendor_identification payload
  let info = child_of tag_server_information payload
  server_name ← text_child tag_server_name info
  serial ← text_child tag_server_serial_number info
  version ← text_child tag_server_version info
  load ← text_child tag_server_load info
  product ← text_child tag_product_name info
  build_level ← text_child tag_build_level info
  build_date ← text_child tag_build_date info
  cluster ← text_child tag_cluster_info info
  ok (record {
    operations = operations;
    object_types = object_types;
    vendor_identification = vendor;
    server_name = server_name;
    server_serial_number = serial;
    server_version = version;
    server_load = load;
    product_name = product;
    build_level = build_level;
    build_date = build_date;
    cluster_info = cluster;
  })
