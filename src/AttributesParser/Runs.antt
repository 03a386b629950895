-- ===== src/AttributesParser/Runs.antt =====
-- Attributes that a server sends in the 2.0 form and a mixture of both forms.
use libkmip.Base.{ℕ, ◌≡◌, refl, arith, List, [], ◌∷◌, none, some, ok, err, ◌>>=◌, codes, All}
use libkmip.Errors.{unknown_state}
use libkmip.Ttlv.{Element}
use libkmip.Ttlv.Access.{
  create_enumeration, create_integer, find, get_child, to_enum, to_int, to_string, as_structure,
}
use libkmip.Ttlv.Encode.{IsWire, encode}
use libkmip.Protocol.Version.{version_1_4}
use libkmip.Codes.{crypto_aes, state_active, tag_state, tag_cryptographic_length}
use libkmip.Attributes.{Attributes, set_algorithm, set_state, set_crypto_length}
use libkmip.Requests.Parts.{
  make_enum_attribute, container_for, v1_symmetric_attrs, v2_symmetric_attrs, v1_secret_attrs,
  v2_secret_attrs,
}
use libkmip.Responses.{items_of}
use libkmip.AttributesParser.{
  parse, parse_attribute, parse_named, parse_v2_typed_attribute, checked_cryptographic_usage_mask,
}
use libkmip.AttributesParser.Checked.{IsChecked}
use libkmip.AttributesParser.Parsed.{parse-IsChecked}
use libkmip.AttributesParser.Forms.{key_of, secret_of, parse-container_for}

-- The printing of times plays no part here.
abbrev no_date : ℕ → List ℕ
no_date t = []

abbrev mixed : List Element
mixed =
    create_enumeration tag_state state_active
    ∷ make_enum_attribute (codes "Cryptographic Algorithm") crypto_aes
    ∷ create_integer tag_cryptographic_length 256
    ∷ []

abbrev mixed_read : Attributes
mixed_read = record {
  algo = some crypto_aes;
  crypto_length = some 256;
  usage_mask = none;
  state = some state_active;
  generic = [];
}

mixed_parses : parse no_date mixed ≡ ok mixed_read
unfolding parse parse_attribute parse_named parse_v2_typed_attribute get_child find to_enum to_int
    to_string set_state set_crypto_length set_algorithm
mixed_parses = refl

mixed-IsWire : All IsWire mixed
unfolding encode
mixed-IsWire = omega arith

unknown_refused : parse no_date (create_enumeration tag_state 7 ∷ []) ≡ err unknown_state
unfolding parse parse_attribute parse_v2_typed_attribute to_enum
unknown_refused = refl

parse-IsChecked_example : IsChecked mixed_read
parse-IsChecked_example = parse-IsChecked no_date mixed mixed_read mixed-IsWire mixed_parses

parse-container_for_example :
    (parse no_date (
        items_of (
          as_structure (
            container_for version_1_4
              (v2_symmetric_attrs (codes "k") (codes "g") 256 12)
              (v1_symmetric_attrs (codes "k") (codes "g") 256 12))))
      ≡ (checked_cryptographic_usage_mask 12 >>= λ m. ok (key_of (codes "k") (codes "g") 256 m)))
    × (parse no_date (
          items_of (
            as_structure (
              container_for version_1_4
                (v2_secret_attrs (codes "k") (codes "g"))
                (v1_secret_attrs (codes "k") (codes "g")))))
        ≡ ok (secret_of (codes "k") (codes "g")))
parse-container_for_example = parse-container_for no_date version_1_4 (codes "k") (codes "g") 256 12
