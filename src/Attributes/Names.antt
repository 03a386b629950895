-- ===== src/Attributes/Names.antt =====
-- kmipcore/include/kmipcore/kmip_attribute_names.hpp, and the names of codes that
-- kmipcore/src/kmip_attributes.cpp and kmipcore/src/kmip_formatter.cpp print and read.
use libkmip.Base.{
  ℕ, zero, suc, ◌+◌, ◌-◌, ◌*◌, ◌/◌, ◌%◌, ◌^◌, Bool, true, not, ◌&&◌, List, [], ◌∷◌, ◌++◌, Option,
  none, some, ◌==◌, if◌then◌else◌, codes, same_text, find_text, TextMap, decimal, strtol, drop,
  length, take, ltb,
}
use libkmip.Codes.{
  crypto_des, crypto_triple_des, crypto_aes, crypto_rsa, crypto_dsa, crypto_ecdsa, crypto_hmac_sha1,
  crypto_hmac_sha224, crypto_hmac_sha256, crypto_hmac_sha384, crypto_hmac_sha512, crypto_hmac_md5,
  crypto_dh, crypto_ecdh, state_pre_active, state_active, state_deactivated, state_compromised,
  state_destroyed, state_destroyed_compromised,
}

abbrev pub attr_name : List ℕ
attr_name = codes "Name"

abbrev pub attr_group : List ℕ
attr_group = codes "Object Group"

abbrev pub attr_state : List ℕ
attr_state = codes "State"

abbrev pub attr_unique_identifier : List ℕ
attr_unique_identifier = codes "Unique Identifier"

abbrev pub attr_unique_identifier_alt : List ℕ
attr_unique_identifier_alt = codes "UniqueID"

abbrev pub attr_activation_date : List ℕ
attr_activation_date = codes "Activation Date"

abbrev pub attr_process_start_date : List ℕ
attr_process_start_date = codes "Process Start Date"

abbrev pub attr_protect_stop_date : List ℕ
attr_protect_stop_date = codes "Protect Stop Date"

abbrev pub attr_deactivation_date : List ℕ
attr_deactivation_date = codes "Deactivation Date"

abbrev pub attr_crypto_alg : List ℕ
attr_crypto_alg = codes "Cryptographic Algorithm"

abbrev pub attr_crypto_len : List ℕ
attr_crypto_len = codes "Cryptographic Length"

abbrev pub attr_crypto_usage_mask : List ℕ
attr_crypto_usage_mask = codes "Cryptographic Usage Mask"

abbrev pub attr_operation_policy_name : List ℕ
attr_operation_policy_name = codes "Operation Policy Name"

-- The cases of a `switch` from codes to texts.
abbrev pub CodeNames : Type 0
CodeNames = List (ℕ × List ℕ)

abbrev pub find_code : ℕ → CodeNames → Option (List ℕ)
find_code c [] = none
find_code c ((k, name) ∷ rest) = if c == k then some name else find_code c rest

abbrev pub algorithm_texts : CodeNames
algorithm_texts =
    (crypto_des, codes "DES")
    ∷ (crypto_triple_des, codes "3DES")
    ∷ (crypto_aes, codes "AES")
    ∷ (crypto_rsa, codes "RSA")
    ∷ (crypto_dsa, codes "DSA")
    ∷ (crypto_ecdsa, codes "ECDSA")
    ∷ (crypto_hmac_sha1, codes "HMAC-SHA1")
    ∷ (crypto_hmac_sha224, codes "HMAC-SHA224")
    ∷ (crypto_hmac_sha256, codes "HMAC-SHA256")
    ∷ (crypto_hmac_sha384, codes "HMAC-SHA384")
    ∷ (crypto_hmac_sha512, codes "HMAC-SHA512")
    ∷ (crypto_hmac_md5, codes "HMAC-MD5")
    ∷ (crypto_dh, codes "DH")
    ∷ (crypto_ecdh, codes "ECDH")
    ∷ []

abbrev pub text_or : Option (List ℕ) → List ℕ → List ℕ
text_or (some s) other = s
text_or none other = other

unfoldable pub algorithm_to_string : ℕ → List ℕ
algorithm_to_string alg = text_or (find_code alg algorithm_texts) (decimal alg)

-- The tests of `parse_algorithm_string`, in their order.
abbrev pub algorithm_codes : TextMap ℕ
algorithm_codes =
    (codes "AES", crypto_aes)
    ∷ (codes "RSA", crypto_rsa)
    ∷ (codes "DSA", crypto_dsa)
    ∷ (codes "ECDSA", crypto_ecdsa)
    ∷ (codes "DES", crypto_des)
    ∷ (codes "3DES", crypto_triple_des)
    ∷ (codes "DH", crypto_dh)
    ∷ (codes "ECDH", crypto_ecdh)
    ∷ (codes "HMAC-SHA1", crypto_hmac_sha1)
    ∷ (codes "HMAC-SHA224", crypto_hmac_sha224)
    ∷ (codes "HMAC-SHA256", crypto_hmac_sha256)
    ∷ (codes "HMAC-SHA384", crypto_hmac_sha384)
    ∷ (codes "HMAC-SHA512", crypto_hmac_sha512)
    ∷ (codes "HMAC-MD5", crypto_hmac_md5)
    ∷ []

-- A long as a 32-bit enumeration.
abbrev pub low_word : Option ℕ → Option ℕ
low_word (some v) = some (v % 2 ^ 32)
low_word none = none

-- The code that was found, or the number that the text is.
abbrev pub code_or_number : Option ℕ → List ℕ → Option ℕ
code_or_number (some c) s = some c
code_or_number none [] = none
code_or_number none (c ∷ s) = low_word (strtol (c ∷ s))

unfoldable pub parse_algorithm_string : List ℕ → Option ℕ
parse_algorithm_string s = code_or_number (find_text s algorithm_codes) s

abbrev pub state_texts : CodeNames
state_texts =
    (state_pre_active, codes "KMIP_STATE_PRE_ACTIVE")
    ∷ (state_active, codes "KMIP_STATE_ACTIVE")
    ∷ (state_deactivated, codes "KMIP_STATE_DEACTIVATED")
    ∷ (state_compromised, codes "KMIP_STATE_COMPROMISED")
    ∷ (state_destroyed, codes "KMIP_STATE_DESTROYED")
    ∷ (state_destroyed_compromised, codes "KMIP_STATE_DESTROYED_COMPROMISED")
    ∷ []

unfoldable pub state_to_string : ℕ → List ℕ
state_to_string st = text_or (find_code st state_texts) (codes "UNKNOWN_KMIP_STATE")

abbrev pub state_codes : TextMap ℕ
state_codes =
    (codes "PRE_ACTIVE", state_pre_active)
    ∷ (codes "ACTIVE", state_active)
    ∷ (codes "DEACTIVATED", state_deactivated)
    ∷ (codes "COMPROMISED", state_compromised)
    ∷ (codes "DESTROYED", state_destroyed)
    ∷ (codes "DESTROYED_COMPROMISED", state_destroyed_compromised)
    ∷ []

abbrev pub state_prefix : List ℕ
state_prefix = codes "KMIP_STATE_"

-- `if (s.starts_with(prefix)) s.remove_prefix(prefix.size());`
abbrev pub without_prefix : List ℕ → List ℕ → List ℕ
without_prefix prefix s =
    if same_text (take (length prefix) s) prefix then drop (length prefix) s else s

unfoldable pub parse_state_string : List ℕ → Option ℕ
parse_state_string s = find_text (without_prefix state_prefix s) state_codes

-- The bits of a usage mask from the lowest on, and their names.
abbrev pub flags : List (List ℕ)
flags =
    codes "SIGN"
    ∷ codes "VERIFY"
    ∷ codes "ENCRYPT"
    ∷ codes "DECRYPT"
    ∷ codes "WRAP_KEY"
    ∷ codes "UNWRAP_KEY"
    ∷ codes "EXPORT"
    ∷ codes "MAC_GENERATE"
    ∷ codes "MAC_VERIFY"
    ∷ codes "DERIVE_KEY"
    ∷ codes "CONTENT_COMMITMENT"
    ∷ codes "KEY_AGREEMENT"
    ∷ codes "CERTIFICATE_SIGN"
    ∷ codes "CRL_SIGN"
    ∷ codes "GENERATE_CRYPTOGRAM"
    ∷ codes "VALIDATE_CRYPTOGRAM"
    ∷ codes "TRANSLATE_ENCRYPT"
    ∷ codes "TRANSLATE_DECRYPT"
    ∷ codes "TRANSLATE_WRAP"
    ∷ codes "TRANSLATE_UNWRAP"
    ∷ codes "AUTHENTICATE"
    ∷ codes "UNRESTRICTED"
    ∷ codes "FPE_ENCRYPT"
    ∷ codes "FPE_DECRYPT"
    ∷ []

abbrev pub separated : Bool → List ℕ
separated first = if first then [] else codes ", "

-- `width` lowercase hexadecimal digits.
abbrev pub hex_digits : ℕ → ℕ → List ℕ
hex_digits zero n = []
hex_digits (suc width) n =
    let d = n / 16 ^ width % 16 in
    (if ltb d 10 then b'0' + d else b'a' + d - 10) ∷ hex_digits width n

-- The names of the bits set from `bit` on, and the bits that have none.
abbrev pub flag_names : List (List ℕ) → ℕ → ℕ → Bool → List ℕ
flag_names [] mask bit first =
    if mask / bit == 0
    then []
    else separated first ++ codes "UNKNOWN_BITS(" ++ hex_digits 8 (mask / bit * bit) ++ codes ")"
flag_names (name ∷ names) mask bit first =
    let set = mask / bit % 2 == 1 in
    let rest = flag_names names mask (bit * 2) (first && not set) in
    if set then separated first ++ name ++ rest else rest

unfoldable pub usage_mask_to_string : ℕ → List ℕ
usage_mask_to_string mask = if mask == 0 then codes "UNSET" else flag_names flags mask 1 true
