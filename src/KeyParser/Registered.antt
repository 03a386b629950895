-- ===== src/KeyParser/Registered.antt =====
-- What Register sends for a key or a secret, kmipcore/src/kmip_requests.cpp, read by
-- kmipcore/src/key_parser.cpp.
use libkmip.Base.{
  ℕ, ◌≡◌, refl, true, false, not, ◌&&◌, ◌||◌, List, [], ◌∷◌, Option, none, some, ok, err, ◌>>=◌,
  ◌==◌, lt_i32, le_i32, if◌then◌else◌, Bool-cases, inl, inr,
}
use libkmip.Errors.{invalid_object_format}
use libkmip.Codes.{
  crypto_unset, format_raw, format_pkcs8, format_x509, tag_object_type, object_secret_data,
}
use libkmip.Ttlv.{Element}
use libkmip.Ttlv.Access.{
  create_enumeration, create_text_string, get_child, get_children, find, find_all, to_enum, to_int,
}
use libkmip.Protocol.Tags.{tag_response_payload, tag_unique_identifier}
use libkmip.Protocol.Version.{ProtocolVersion}
use libkmip.Attributes.{Attributes, no_attributes, algorithm, set_algorithm, set_crypto_length}
use libkmip.AttributesParser.{parse, is_valid_cryptographic_algorithm}
use libkmip.Requests.Parts.{structure_of, make_key_block, make_secret_data}
use libkmip.Requests.Keys.{
  KeyType, unset, symmetric_key, private_key, public_key, certificate, Key, is_symmetric,
  last_crypto_algorithm, length_of, with_length, first_of, second_of, format_or, object_for,
  make_key_object_from_key, object_type_from_key_type, algorithm_and_length,
}
use libkmip.Locate.Found.{if_both}
use libkmip.Locate.Probing.{or-false-left}
use libkmip.KeyParser.{
  parse_get_key_response, parse_of_type, parse_object, parse_key_from_key_block_holder,
  secure_key_material, parse_get_secret_response, checked_secret_data_type,
}

-- A payload of Get.
abbrev pub payload_with : ℕ → List ℕ → Element → Element
payload_with object_type id object = structure_of tag_response_payload (
    some (create_enumeration tag_object_type object_type)
    ∷ some (create_text_string tag_unique_identifier id)
    ∷ some object
    ∷ [])

secret_read :
    (id secret : List ℕ) (t : ℕ)
    → parse_get_secret_response (record {
      unique_identifier = id;
      object_type = object_secret_data;
      object_element = make_secret_data secret t;
    })
      ≡ (checked_secret_data_type t >>= λ code.
          ok (record { secret_value = secret; secret_type = code }))
unfolding parse_get_secret_response make_secret_data make_key_block get_child find to_enum
    secure_key_material
secret_read id secret t = refl

abbrev IsSent : Option (ℕ × ℕ) → Type 0
IsSent (some pair) =
    (is_valid_cryptographic_algorithm pair.0 ≡ true) × ((pair.0 == crypto_unset) ≡ false)
IsSent none = Unit

-- The attributes of a key that was sent with the pair, or without.
abbrev pub attributes_of : Option (ℕ × ℕ) → Attributes
attributes_of pair = record no_attributes { algo = first_of pair; crypto_length = second_of pair }

-- The format that is declared where the key has none of its own.
abbrev pub default_format : KeyType → ℕ
default_format symmetric_key = format_raw
default_format private_key = format_pkcs8
default_format other = format_x509

abbrev pub read_back : Key → ProtocolVersion → Key
read_back key version = record {
  key_type = key.key_type;
  value = key.value;
  attributes = attributes_of (algorithm_and_length key version);
  key_format = some (format_or key.key_format (default_format key.key_type));
}

module _ (date_to_string : ℕ → List ℕ) (key : Key) (id : List ℕ) where
  object_read :
      (kt : KeyType) (pair : Option (ℕ × ℕ))
      → IsSent pair
      → (object_type_from_key_type kt >>= λ t. object_for kt key pair >>= λ object.
          parse_get_key_response date_to_string (some (payload_with t id object)))
        ≡ (object_for kt key pair >>= λ _.
            if is_symmetric kt && not (format_or key.key_format format_raw == format_raw)
            then err invalid_object_format
            else ok (record {
              key_type = kt;
              value = key.value;
              attributes = attributes_of pair;
              key_format = some (format_or key.key_format (default_format kt));
            }))
  unfolding parse_get_key_response parse_of_type parse_object parse_key_from_key_block_holder
      secure_key_material parse make_key_block get_child get_children find find_all to_enum to_int
      set_algorithm set_crypto_length
  object_read unset pair sent = refl
  object_read certificate pair sent = refl
  object_read private_key none sent = refl
  object_read private_key (some pair) sent = rw (sent.0, sent.1) refl
  object_read public_key none sent = refl
  object_read public_key (some pair) sent = rw (sent.0, sent.1) refl
  object_read symmetric_key none sent = refl
  object_read symmetric_key (some pair) sent =
      elim (Bool-cases (format_or key.key_format format_raw == format_raw)) [
        | inl raw ↦ rw (sent.0, sent.1, raw) refl
        | inr other ↦ rw other refl
      ]

with_length-IsSent :
    (alg : ℕ) (len : Option ℕ)
    → is_valid_cryptographic_algorithm alg ≡ true
    → (alg == crypto_unset) ≡ false
    → IsSent (with_length alg len)
with_length-IsSent alg none valid set = tt
with_length-IsSent alg (some n) valid set =
    if_both IsSent (le_i32 n 0) none (some (alg, n)) (λ _. tt) (λ _. (valid, set))

algorithm_and_length-IsSent :
    (key : Key) (version : ProtocolVersion)
    → is_valid_cryptographic_algorithm (algorithm key.attributes) ≡ true
    → IsSent (algorithm_and_length key version)
unfolding algorithm_and_length
algorithm_and_length-IsSent key version valid =
    let alg = algorithm key.attributes in
    if_both IsSent (alg == crypto_unset || lt_i32 (last_crypto_algorithm version) alg) none _
      (λ _. tt)
      (λ sent.
        with_length-IsSent alg
          (length_of key.attributes.crypto_length (is_symmetric key.key_type) key.value) valid
          (or-false-left (alg == crypto_unset) _ sent))

-- A key with an algorithm that KMIP defines, or with none: where Register makes an object of it, the
-- parser of Get reads the object back, in a payload with its type: the same type and value, the format
-- that the key has or that its type has by default, and the algorithm and the length if they were
-- sent. A symmetric key that is declared in another format than Raw is refused. A secret is read
-- back from what Register makes of it if its type is one that KMIP defines, and is refused otherwise.
pub parse_get_response-make_object :
    (date_to_string : ℕ → List ℕ) (key : Key) (version : ProtocolVersion) (id secret : List ℕ)
    (secret_code : ℕ)
    → is_valid_cryptographic_algorithm (algorithm key.attributes) ≡ true
    → ((object_type_from_key_type key.key_type >>= λ t.
          make_key_object_from_key key version >>= λ object.
          parse_get_key_response date_to_string (some (payload_with t id object)))
        ≡ (make_key_object_from_key key version >>= λ _.
            if is_symmetric key.key_type && not (format_or key.key_format format_raw == format_raw)
            then err invalid_object_format
            else ok (read_back key version)))
      × (parse_get_secret_response (record {
        unique_identifier = id;
        object_type = object_secret_data;
        object_element = make_secret_data secret secret_code;
      })
          ≡ (checked_secret_data_type secret_code >>= λ code.
              ok (record { secret_value = secret; secret_type = code })))
unfolding make_key_object_from_key
parse_get_response-make_object date_to_string key version id secret secret_code valid = (
  object_read date_to_string key id key.key_type (algorithm_and_length key version)
      (algorithm_and_length-IsSent key version valid),
  secret_read id secret secret_code,
)
