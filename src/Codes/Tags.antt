-- ===== src/Codes/Tags.antt =====
-- kmipcore/include/kmipcore/kmip_enums.hpp: the tags of requests, responses and keys.
use libkmip.Base.{ℕ}

abbrev pub tag_activation_date : ℕ
tag_activation_date = 0x420001

abbrev pub tag_deactivation_date : ℕ
tag_deactivation_date = 0x42002F

abbrev pub tag_process_start_date : ℕ
tag_process_start_date = 0x420067

abbrev pub tag_protect_stop_date : ℕ
tag_protect_stop_date = 0x420068

abbrev pub tag_attributes : ℕ
tag_attributes = 0x420125

abbrev pub tag_attribute_reference : ℕ
tag_attribute_reference = 0x420005

abbrev pub tag_cryptographic_algorithm : ℕ
tag_cryptographic_algorithm = 0x420028

abbrev pub tag_cryptographic_length : ℕ
tag_cryptographic_length = 0x42002A

abbrev pub tag_cryptographic_usage_mask : ℕ
tag_cryptographic_usage_mask = 0x42002C

abbrev pub tag_object_group : ℕ
tag_object_group = 0x420056

abbrev pub tag_object_type : ℕ
tag_object_type = 0x420057

abbrev pub tag_operation_policy_name : ℕ
tag_operation_policy_name = 0x42005D

abbrev pub tag_state : ℕ
tag_state = 0x42008D

abbrev pub tag_name : ℕ
tag_name = 0x420053

abbrev pub tag_name_type : ℕ
tag_name_type = 0x420054

abbrev pub tag_name_value : ℕ
tag_name_value = 0x420055

abbrev pub tag_template_attribute : ℕ
tag_template_attribute = 0x420091

abbrev pub tag_key_value : ℕ
tag_key_value = 0x420045

abbrev pub tag_key_material : ℕ
tag_key_material = 0x420043

abbrev pub tag_key_block : ℕ
tag_key_block = 0x420040

abbrev pub tag_key_format_type : ℕ
tag_key_format_type = 0x420042

abbrev pub tag_symmetric_key : ℕ
tag_symmetric_key = 0x42008F

abbrev pub tag_private_key : ℕ
tag_private_key = 0x420064

abbrev pub tag_public_key : ℕ
tag_public_key = 0x42006D

abbrev pub tag_secret_data : ℕ
tag_secret_data = 0x420085

abbrev pub tag_secret_data_type : ℕ
tag_secret_data_type = 0x420086

abbrev pub tag_revocation_reason : ℕ
tag_revocation_reason = 0x420081

abbrev pub tag_revocation_reason_code : ℕ
tag_revocation_reason_code = 0x420082

abbrev pub tag_revokation_message : ℕ
tag_revokation_message = 0x420080

abbrev pub tag_compromise_occurrance_date : ℕ
tag_compromise_occurrance_date = 0x420021

abbrev pub tag_query_function : ℕ
tag_query_function = 0x420074

abbrev pub tag_vendor_identification : ℕ
tag_vendor_identification = 0x42009D

abbrev pub tag_server_information : ℕ
tag_server_information = 0x420088

abbrev pub tag_server_name : ℕ
tag_server_name = 0x42012D

abbrev pub tag_server_serial_number : ℕ
tag_server_serial_number = 0x42012E

abbrev pub tag_server_version : ℕ
tag_server_version = 0x42012F

abbrev pub tag_server_load : ℕ
tag_server_load = 0x420130

abbrev pub tag_product_name : ℕ
tag_product_name = 0x420131

abbrev pub tag_build_level : ℕ
tag_build_level = 0x420132

abbrev pub tag_build_date : ℕ
tag_build_date = 0x420133

abbrev pub tag_cluster_info : ℕ
tag_cluster_info = 0x420134
