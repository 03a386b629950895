-- ===== src/Errors.antt =====
-- The exceptions that the modelled code throws, one constructor for each message of a `throw`.
-- `out_of_fuel` is no exception of the program: it is the answer of a loop whose fuel ran out.
use Prim.Native.Nat.{ℕ}
use mathlib.Core.List.{List}

pub data Error : Type 0 where
  buffer_exceeds_maximum : Error
  invalid_padding : Error
  nesting_too_deep short_header short_structure short_value : Error
  invalid_integer_length invalid_long_integer_length invalid_boolean_length : Error
  invalid_enumeration_length invalid_date_time_length invalid_interval_length : Error
  invalid_date_time_extended_length non_canonical_boolean : Error
  unknown_type : Error
  not_integer not_long not_boolean not_text_string not_bytes not_enumeration not_interval : Error
  date_time_extended_version : Error
  invalid_protocol_version invalid_request_header missing_request_version : Error
  missing_credential invalid_credential : Error
  invalid_request_batch_item missing_operation : Error
  max_response_size_too_large no_batch_items : Error
  invalid_request_message request_message_not_structure missing_request_header : Error
  request_batch_count_mismatch : Error
  invalid_response_header missing_response_version : Error
  invalid_response_batch_item missing_result_status missing_result_reason : Error
  invalid_response_message response_message_not_structure missing_response_header : Error
  response_batch_count_mismatch : Error
  invalid_attribute payload_not_structure response_payload_not_structure : Error
  empty_response trailing_bytes no_response_items response_index_out_of_range : Error
  batch_item_id_not_found : Error
  invalid_hex_character invalid_hex_length : Error
  invalid_base64_character data_after_padding invalid_base64_length non_canonical_base64 : Error
  empty_request cannot_send connection_closed message_too_long io_timeout : Error
  no_max_connections no_connection_available : Error
  locate_omits locate_total_short locate_full_page : ℕ → ℕ → Error
  operation_failed : ℕ → ℕ → ℕ → List ℕ → Error
  unknown_crypto_algorithm unknown_usage_mask unknown_state unknown_secret_type : Error
  key_without_algorithm certificate_not_supported unsupported_key_type : Error
  locate_number_too_large : Error
  unexpected_operation missing_response_payload missing_unique_identifier : Error
  missing_object_type missing_object : Error
  missing_key_block missing_key_value missing_key_material missing_key_format : Error
  missing_key_object invalid_object_format key_material_not_bytes certificate_not_parsed : Error
  structured_key_material unsupported_object_type : ℕ → Error
  missing_secret_value missing_secret_material : Error
  secret_data_expected secret_block_mismatch secret_format_mismatch : Error
  required_state_missing : Error
  out_of_fuel : Error
