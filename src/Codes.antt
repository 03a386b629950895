-- ===== src/Codes.antt =====
-- kmipcore/include/kmipcore/kmip_enums.hpp: the codes of operations, objects and attributes.
mod Tags
pub use Tags.*
use libkmip.Base.{ℕ}

abbrev pub crypto_unset : ℕ
crypto_unset = 0x00

abbrev pub crypto_des : ℕ
crypto_des = 0x01

abbrev pub crypto_triple_des : ℕ
crypto_triple_des = 0x02

abbrev pub crypto_aes : ℕ
crypto_aes = 0x03

abbrev pub crypto_rsa : ℕ
crypto_rsa = 0x04

abbrev pub crypto_dsa : ℕ
crypto_dsa = 0x05

abbrev pub crypto_ecdsa : ℕ
crypto_ecdsa = 0x06

abbrev pub crypto_hmac_sha1 : ℕ
crypto_hmac_sha1 = 0x07

abbrev pub crypto_hmac_sha224 : ℕ
crypto_hmac_sha224 = 0x08

abbrev pub crypto_hmac_sha256 : ℕ
crypto_hmac_sha256 = 0x09

abbrev pub crypto_hmac_sha384 : ℕ
crypto_hmac_sha384 = 0x0A

abbrev pub crypto_hmac_sha512 : ℕ
crypto_hmac_sha512 = 0x0B

abbrev pub crypto_hmac_md5 : ℕ
crypto_hmac_md5 = 0x0C

abbrev pub crypto_dh : ℕ
crypto_dh = 0x0D

abbrev pub crypto_ecdh : ℕ
crypto_ecdh = 0x0E

abbrev pub crypto_twofish : ℕ
crypto_twofish = 0x19

abbrev pub crypto_ec : ℕ
crypto_ec = 0x1A

abbrev pub crypto_one_time_pad : ℕ
crypto_one_time_pad = 0x1B

abbrev pub crypto_shake_256 : ℕ
crypto_shake_256 = 0x28

abbrev pub crypto_ed448 : ℕ
crypto_ed448 = 0x38

abbrev pub mask_unset : ℕ
mask_unset = 0x00000000

abbrev pub mask_encrypt : ℕ
mask_encrypt = 0x00000004

abbrev pub mask_decrypt : ℕ
mask_decrypt = 0x00000008

abbrev pub mask_derive_key : ℕ
mask_derive_key = 0x00000200

abbrev pub mask_export : ℕ
mask_export = 0x00000040

abbrev pub state_pre_active : ℕ
state_pre_active = 0x01

abbrev pub state_active : ℕ
state_active = 0x02

abbrev pub state_deactivated : ℕ
state_deactivated = 0x03

abbrev pub state_compromised : ℕ
state_compromised = 0x04

abbrev pub state_destroyed : ℕ
state_destroyed = 0x05

abbrev pub state_destroyed_compromised : ℕ
state_destroyed_compromised = 0x06

abbrev pub kmip_op_create : ℕ
kmip_op_create = 0x01

abbrev pub kmip_op_register : ℕ
kmip_op_register = 0x03

abbrev pub kmip_op_locate : ℕ
kmip_op_locate = 0x08

abbrev pub kmip_op_get : ℕ
kmip_op_get = 0x0A

abbrev pub kmip_op_get_attributes : ℕ
kmip_op_get_attributes = 0x0B

abbrev pub kmip_op_get_attribute_list : ℕ
kmip_op_get_attribute_list = 0x0C

abbrev pub kmip_op_activate : ℕ
kmip_op_activate = 0x12

abbrev pub kmip_op_revoke : ℕ
kmip_op_revoke = 0x13

abbrev pub kmip_op_destroy : ℕ
kmip_op_destroy = 0x14

abbrev pub kmip_op_query : ℕ
kmip_op_query = 0x18

abbrev pub kmip_op_discover_versions : ℕ
kmip_op_discover_versions = 0x1E

abbrev pub object_certificate : ℕ
object_certificate = 0x01

abbrev pub object_symmetric_key : ℕ
object_symmetric_key = 0x02

abbrev pub object_public_key : ℕ
object_public_key = 0x03

abbrev pub object_private_key : ℕ
object_private_key = 0x04

abbrev pub object_secret_data : ℕ
object_secret_data = 0x07

abbrev pub format_raw : ℕ
format_raw = 0x01

abbrev pub format_opaque : ℕ
format_opaque = 0x02

abbrev pub format_pkcs8 : ℕ
format_pkcs8 = 0x04

abbrev pub format_x509 : ℕ
format_x509 = 0x05

abbrev pub secret_password : ℕ
secret_password = 0x01

abbrev pub secret_seed : ℕ
secret_seed = 0x02

abbrev pub secret_extensions : ℕ
secret_extensions = 0x80000000

abbrev pub name_uninterpreted_text_string : ℕ
name_uninterpreted_text_string = 0x01

abbrev pub query_operations : ℕ
query_operations = 0x0001

abbrev pub query_objects : ℕ
query_objects = 0x0002

abbrev pub query_server_information : ℕ
query_server_information = 0x0003

abbrev pub reason_invalid_message : ℕ
reason_invalid_message = 0x0004

abbrev pub reason_invalid_field : ℕ
reason_invalid_field = 0x0007

abbrev pub reason_feature_not_supported : ℕ
reason_feature_not_supported = 0x0008
