-- ===== src/Client/FetchRuns.antt =====
-- A public key that a server returns under the label PKCS#8, with its state.
use libkmip.Base.{ℕ, ◌≡◌, refl, true, List, [], ◌∷◌, Option, some, ok}
use libkmip.Ttlv.{Element}
use libkmip.Ttlv.Access.{
  get_child, get_children, find, find_all, to_enum, to_int, create_enumeration, create_text_string,
}
use libkmip.Ttlv.Bytes.{Endian}
use libkmip.Ttlv.Encode.{encode}
use libkmip.Codes.{
  kmip_op_get, kmip_op_get_attributes, object_public_key, state_active, tag_object_type, crypto_rsa,
  format_pkcs8, format_x509, tag_public_key,
}
use libkmip.Protocol.Tags.{tag_response_payload, tag_unique_identifier}
use libkmip.Protocol.Version.{version_1_4}
use libkmip.Protocol.Response.{ResponseMessage, response_structure}
use libkmip.Protocol.Runs.{answer, one_answer}
use libkmip.Attributes.Names.{attr_state}
use libkmip.Attributes.{set_algorithm, set_crypto_length, no_attributes, has_attribute}
use libkmip.Requests.Parts.{make_key_block, structure_of, make_enum_attribute}
use libkmip.AttributesParser.{parse}
use libkmip.Requests.Keys.{Key, public_key}
use libkmip.KeyParser.{
  parse_of_type, parse_object, parse_key_from_key_block_holder, secure_key_material,
  parse_get_key_response,
}
use libkmip.Exchange.Runs.{World, trickle}
use libkmip.Client.Objects.{op_get_key}
use libkmip.Client.Yielded.{Yields, IsAsRead}
use libkmip.Client.Received.{IsAnswer}
use libkmip.Client.Labels.{IsLabelled}
use libkmip.Client.Fetched.{op_get_key-Yields}
use libkmip.AttributesParser.{parse_named, parse_attribute}
use libkmip.Exchange.{
  send_loop, send, read_loop, read_exact, receive_body, receive_message, do_exchange,
}
use libkmip.Requests.{simple_id_request, get_request, get_attributes_request}
use libkmip.Client.{exchange_request, make_request_message}
use libkmip.Buffer.{
  double_until, expand_capacity, ensure_space, store, write_byte, write_bytes, write_zeros,
  write_padded, remaining, reset, release, shrink,
}
use libkmip.KeyParser.{key_format_type}
use libkmip.Parser.{
  add_hints, create_parser_for, parse_response, ensure_parsed, find_echoed, item_by_id,
  get_response_item_by_batch_item_id, ensure_success, get_response_by_batch_item_id,
}
use libkmip.Responses.{read_get, read_get_attributes}
use libkmip.Attributes.{set_state, set_string, set_int, merge}
use libkmip.Protocol.Request.{
  set_max_response_size, get_max_response_size, create_request, add_batch_item, request_to_element,
  sent_header, serialize_request, read_items,
}
use libkmip.Protocol.Numbering.{numbered}
use libkmip.Protocol.Response.{response_from_element}
use libkmip.Protocol.Item.{
  request_item_to_element, response_item_to_element, response_item_from_element,
}
use libkmip.Protocol.Payloads.{attribute_to_element, attribute_from_element}
use libkmip.Protocol.Version.{
  version_to_element, version_from_element, validate_types, validate_items,
}
use libkmip.Protocol.Header.{
  request_header_to_element, response_header_to_element, response_header_from_element,
}
use libkmip.Ttlv.Access.{add, append_items, to_long, to_bool, to_string, to_bytes, to_interval}
use libkmip.Ttlv.Serialize.{
  write_tag_type, write_length, write_zero_bytes, write_content, serialize, serialize_content,
  serialize_items,
}
use libkmip.Ttlv.Deserialize.{
  zero_padding_loop, parse_value, parse_primitive, structure_loop, deserialize_impl, deserialize,
}
use libkmip.Ttlv.Bytes.{to_be32, to_be64, read_be_u32, read_be_u64}
use libkmip.Client.Objects.{
  preferred_key_formats, in_preferred_format, key_in_format, after_refetch, ask_formats,
  key_from_get_response, get_with_attributes, server_attributes, key_of_answer, with_retries,
}
use libkmip.Requests.Parts.{use_attributes_container, make_v2_attribute_reference}

abbrev get_payload : Element
get_payload = structure_of tag_response_payload (
    some (create_enumeration tag_object_type object_public_key)
    ∷ some (create_text_string tag_unique_identifier (b'7' ∷ []))
    ∷ some (
        structure_of tag_public_key
          (some (make_key_block format_pkcs8 (1 ∷ 2 ∷ []) (some crypto_rsa) (some 2048)) ∷ []))
    ∷ [])

abbrev attributes_payload : Element
attributes_payload = structure_of tag_response_payload (
    some (create_text_string tag_unique_identifier (b'7' ∷ []))
    ∷ some (make_enum_attribute attr_state state_active)
    ∷ [])

abbrev both : ResponseMessage
both = record one_answer {
  batch_items =
      record answer {
        unique_batch_item_id = 1;
        operation = kmip_op_get;
        response_payload = some get_payload;
      }
      ∷ record answer {
        unique_batch_item_id = 2;
        operation = kmip_op_get_attributes;
        response_payload = some attributes_payload;
      }
      ∷ [];
}

abbrev waiting : World
waiting = (encode (response_structure both), [], true)

abbrev no_date : ℕ → List ℕ
no_date t = []

-- The key comes with its label corrected, its own attributes and the state.
key_fetched :
    (op_get_key trickle Endian.little
      (λ w. 1700000000)
      version_1_4
      no_date
      (λ der. true)
      (b'7' ∷ [])
      true
      waiting).0
    ≡ ok (record {
      key_type = public_key;
      value = 1 ∷ 2 ∷ [];
      attributes = record no_attributes {
        algo = some crypto_rsa;
        crypto_length = some 2048;
        state = some state_active;
      };
      key_format = some format_x509;
    })
unfolding parse_named parse_attribute parse send_loop send read_loop read_exact receive_body
    receive_message do_exchange simple_id_request get_request get_attributes_request
    exchange_request make_request_message double_until expand_capacity ensure_space store write_byte
    write_bytes write_zeros write_padded remaining reset release shrink secure_key_material
    key_format_type parse_key_from_key_block_holder parse_object parse_of_type
    parse_get_key_response add_hints create_parser_for parse_response ensure_parsed find_echoed
    item_by_id get_response_item_by_batch_item_id ensure_success get_response_by_batch_item_id
    read_get read_get_attributes set_algorithm set_crypto_length set_state set_string set_int
    has_attribute merge set_max_response_size get_max_response_size create_request add_batch_item
    request_to_element sent_header serialize_request read_items numbered response_from_element
    request_item_to_element response_item_to_element response_item_from_element attribute_to_element
    attribute_from_element version_to_element version_from_element validate_types validate_items
    request_header_to_element response_header_to_element response_header_from_element add
    append_items find find_all get_child get_children to_int to_long to_bool to_string to_bytes
    to_enum to_interval write_tag_type write_length write_zero_bytes write_content serialize
    serialize_content serialize_items zero_padding_loop parse_value parse_primitive structure_loop
    deserialize_impl deserialize encode to_be32 to_be64 read_be_u32 read_be_u64
    preferred_key_formats in_preferred_format key_in_format after_refetch ask_formats
    key_from_get_response get_with_attributes server_attributes key_of_answer with_retries
    op_get_key use_attributes_container make_v2_attribute_reference make_key_block
key_fetched = refl

op_get_key-Yields_example :
    Yields
      (λ (key : Key) (end : World).
        (has_attribute attr_state key.attributes ≡ true)
        × ((payload : Option Element) × (read : Key) × IsAnswer trickle Endian.little
              (λ w. 1700000000)
              version_1_4
              waiting
              end
              (b'7' ∷ [])
              payload
            × (parse_get_key_response no_date payload ≡ ok read)
            × IsAsRead (λ der. true) key read
            × IsLabelled (λ der. true) key))
      (op_get_key trickle Endian.little
        (λ w. 1700000000)
        version_1_4
        no_date
        (λ der. true)
        (b'7' ∷ [])
        true
        waiting)
op_get_key-Yields_example =
    op_get_key-Yields trickle Endian.little (λ w. 1700000000) version_1_4 no_date (λ der. true)
      waiting (b'7' ∷ []) true
