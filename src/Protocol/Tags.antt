-- ===== src/Protocol/Tags.antt =====
-- kmipcore/include/kmipcore/kmip_enums.hpp: the tags and codes that the messages use.
use libkmip.Base.{ℕ}

abbrev pub tag_authentication : ℕ
tag_authentication = 0x42000C

abbrev pub tag_batch_count : ℕ
tag_batch_count = 0x42000D

abbrev pub tag_batch_item : ℕ
tag_batch_item = 0x42000F

abbrev pub tag_batch_order_option : ℕ
tag_batch_order_option = 0x420010

abbrev pub tag_credential : ℕ
tag_credential = 0x420023

abbrev pub tag_credential_type : ℕ
tag_credential_type = 0x420024

abbrev pub tag_credential_value : ℕ
tag_credential_value = 0x420025

abbrev pub tag_maximum_response_size : ℕ
tag_maximum_response_size = 0x420050

abbrev pub tag_operation : ℕ
tag_operation = 0x42005C

abbrev pub tag_protocol_version : ℕ
tag_protocol_version = 0x420069

abbrev pub tag_protocol_version_major : ℕ
tag_protocol_version_major = 0x42006A

abbrev pub tag_protocol_version_minor : ℕ
tag_protocol_version_minor = 0x42006B

abbrev pub tag_request_header : ℕ
tag_request_header = 0x420077

abbrev pub tag_request_message : ℕ
tag_request_message = 0x420078

abbrev pub tag_request_payload : ℕ
tag_request_payload = 0x420079

abbrev pub tag_response_header : ℕ
tag_response_header = 0x42007A

abbrev pub tag_response_message : ℕ
tag_response_message = 0x42007B

abbrev pub tag_response_payload : ℕ
tag_response_payload = 0x42007C

abbrev pub tag_result_message : ℕ
tag_result_message = 0x42007D

abbrev pub tag_result_reason : ℕ
tag_result_reason = 0x42007E

abbrev pub tag_result_status : ℕ
tag_result_status = 0x42007F

abbrev pub tag_time_stamp : ℕ
tag_time_stamp = 0x420092

abbrev pub tag_unique_batch_item_id : ℕ
tag_unique_batch_item_id = 0x420093

abbrev pub tag_username : ℕ
tag_username = 0x420099

abbrev pub tag_password : ℕ
tag_password = 0x4200A1

abbrev pub cred_username_and_password : ℕ
cred_username_and_password = 0x01

abbrev pub status_success : ℕ
status_success = 0x00

abbrev pub status_operation_failed : ℕ
status_operation_failed = 0x01

abbrev pub reason_general_failure : ℕ
reason_general_failure = 0x0100

abbrev pub tag_attribute : ℕ
tag_attribute = 0x420008

abbrev pub tag_attribute_name : ℕ
tag_attribute_name = 0x42000A

abbrev pub tag_attribute_value : ℕ
tag_attribute_value = 0x42000B

abbrev pub tag_maximum_items : ℕ
tag_maximum_items = 0x42004F

abbrev pub tag_offset_items : ℕ
tag_offset_items = 0x4200D4

abbrev pub tag_located_items : ℕ
tag_located_items = 0x4200D5

abbrev pub tag_unique_identifier : ℕ
tag_unique_identifier = 0x420094
