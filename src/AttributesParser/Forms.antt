-- ===== src/AttributesParser/Forms.antt =====
-- The attributes that kmipcore/src/kmip_requests.cpp writes for a new object, in the form that the
-- version asks for, read by kmipcore/src/attributes_parser.cpp.
use libkmip.Base.{ℕ, ◌≡◌, inl, inr, refl, ◌>>=◌, List, [], ◌∷◌, none, some, Result, ok, Bool-cases}
use libkmip.Errors.{Error}
use libkmip.Ttlv.{Element}
use libkmip.Ttlv.Access.{as_structure, get_child, find, to_enum, to_int, to_string}
use libkmip.Protocol.Version.{ProtocolVersion}
use libkmip.Codes.{crypto_aes, mask_unset, tag_attributes}
use libkmip.Attributes.Names.{attr_name, attr_group}
use libkmip.Attributes.{
  Attributes, AttributeValue, string_value, unless_unset, set_string, set_usage_mask,
  set_crypto_length, set_algorithm,
}
use libkmip.Requests.Parts.{
  v1_symmetric_attrs, v2_symmetric_attrs, v1_secret_attrs, v2_secret_attrs, structure_of,
  make_template_attribute, container_for, use_attributes_container, secret_mask,
}
use libkmip.Responses.{items_of}
use libkmip.Locate.Found.{if_both}
use libkmip.AttributesParser.{
  parse, store_generic, parse_v2_typed_attribute, parse_named, parse_attribute,
  checked_cryptographic_usage_mask, is_valid_cryptographic_usage_mask,
}

-- The texts that are stored for a new object with the name, and with the group unless it is empty.
abbrev pub texts_of : List ℕ → List ℕ → List (List ℕ × AttributeValue)
texts_of name [] = (attr_name, string_value name) ∷ []
texts_of name (c ∷ group) =
    (attr_name, string_value name) ∷ (attr_group, string_value (c ∷ group)) ∷ []

abbrev pub key_of : List ℕ → List ℕ → ℕ → ℕ → Attributes
key_of name group key_bits mask = record {
  algo = some crypto_aes;
  crypto_length = some key_bits;
  usage_mask = unless_unset mask_unset mask;
  state = none;
  generic = texts_of name group;
}

abbrev pub secret_of : List ℕ → List ℕ → Attributes
secret_of name group = record {
  algo = none;
  crypto_length = none;
  usage_mask = some secret_mask;
  state = none;
  generic = texts_of name group;
}

module _ (date_to_string : ℕ → List ℕ) where
  abbrev read_container : Element → Result Error Attributes
  read_container e = parse date_to_string (items_of (as_structure e))

  key_v2 :
      (name group : List ℕ) (key_bits mask : ℕ)
      → read_container (structure_of tag_attributes (v2_symmetric_attrs name group key_bits mask))
        ≡ (checked_cryptographic_usage_mask mask >>= λ m. ok (key_of name group key_bits m))
  unfolding parse parse_attribute parse_v2_typed_attribute get_child find to_enum to_int to_string
      set_string set_usage_mask set_crypto_length set_algorithm
  key_v2 name [] key_bits mask = elim (Bool-cases (is_valid_cryptographic_usage_mask mask)) [
    | inl valid ↦ rw valid refl
    | inr invalid ↦ rw invalid refl
  ]
  key_v2 name (c ∷ group) key_bits mask =
      elim (Bool-cases (is_valid_cryptographic_usage_mask mask)) [
        | inl valid ↦ rw valid refl
        | inr invalid ↦ rw invalid refl
      ]

  key_v1 :
      (name group : List ℕ) (key_bits mask : ℕ)
      → read_container (make_template_attribute (v1_symmetric_attrs name group key_bits mask))
        ≡ (checked_cryptographic_usage_mask mask >>= λ m. ok (key_of name group key_bits m))
  unfolding parse parse_attribute parse_named store_generic get_child find to_enum to_int to_string
      set_string set_usage_mask set_crypto_length set_algorithm
  key_v1 name [] key_bits mask = elim (Bool-cases (is_valid_cryptographic_usage_mask mask)) [
    | inl valid ↦ rw valid refl
    | inr invalid ↦ rw invalid refl
  ]
  key_v1 name (c ∷ group) key_bits mask =
      elim (Bool-cases (is_valid_cryptographic_usage_mask mask)) [
        | inl valid ↦ rw valid refl
        | inr invalid ↦ rw invalid refl
      ]

  secret_v2 :
      (name group : List ℕ)
      → read_container (structure_of tag_attributes (v2_secret_attrs name group))
        ≡ ok (secret_of name group)
  unfolding parse parse_attribute parse_v2_typed_attribute get_child find to_int to_string
      set_string set_usage_mask
  secret_v2 name [] = refl
  secret_v2 name (c ∷ group) = refl

  secret_v1 :
      (name group : List ℕ)
      → read_container (make_template_attribute (v1_secret_attrs name group))
        ≡ ok (secret_of name group)
  unfolding parse parse_attribute parse_named store_generic get_child find to_int to_string
      set_string set_usage_mask
  secret_v1 name [] = refl
  secret_v1 name (c ∷ group) = refl

  -- The attributes that Create and Register write for a key, and Register for a secret, are read back
  -- alike from the form of either version: the algorithm, the length, the usage mask, the name, and the
  -- group where it is not empty; a usage mask with a bit above the lowest 24 throws.
  pub parse-container_for :
      (version : ProtocolVersion) (name group : List ℕ) (key_bits mask : ℕ)
      → (parse date_to_string (
            items_of (
              as_structure (
                container_for version
                  (v2_symmetric_attrs name group key_bits mask)
                  (v1_symmetric_attrs name group key_bits mask))))
          ≡ (checked_cryptographic_usage_mask mask >>= λ m. ok (key_of name group key_bits m)))
        × (parse date_to_string (
              items_of (
                as_structure (
                  container_for version (v2_secret_attrs name group) (v1_secret_attrs name group))))
            ≡ ok (secret_of name group))
  parse-container_for version name group key_bits mask = (
    if_both
        (λ (e : Element).
          read_container e
          ≡ (checked_cryptographic_usage_mask mask >>= λ m. ok (key_of name group key_bits m)))
        (use_attributes_container version) _ _ (λ new. key_v2 name group key_bits mask)
        (λ old. key_v1 name group key_bits mask),
    if_both (λ (e : Element). read_container e ≡ ok (secret_of name group))
        (use_attributes_container version) _ _ (λ new. secret_v2 name group)
        (λ old. secret_v1 name group),
  )
