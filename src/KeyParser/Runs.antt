-- ===== src/KeyParser/Runs.antt =====
-- A private key with a format of its own, registered and read back.
use libkmip.Base.{
  ℕ, ◌≡◌, refl, not, ◌&&◌, List, [], ◌∷◌, some, ok, err, ◌>>=◌, ◌==◌, if◌then◌else◌, codes,
}
use libkmip.Errors.{invalid_object_format}
use libkmip.Codes.{format_raw, format_pkcs8, object_secret_data, secret_password}
use libkmip.Protocol.Version.{version_2_0}
use libkmip.Attributes.{no_attributes, algorithm}
use libkmip.Requests.Parts.{make_secret_data}
use libkmip.Requests.Keys.{
  Key, private_key, is_symmetric, format_or, make_key_object_from_key, object_type_from_key_type,
}
use libkmip.KeyParser.{parse_get_key_response, parse_get_secret_response, checked_secret_data_type}
use libkmip.KeyParser.Registered.{payload_with, read_back, parse_get_response-make_object}

abbrev registered : Key
registered = record {
  key_type = private_key;
  value = 48 ∷ 3 ∷ [];
  attributes = record no_attributes { algo = some 4; crypto_length = some 2048 };
  key_format = some format_pkcs8;
}

abbrev no_date : ℕ → List ℕ
no_date t = []

parse_get_response-make_object_example :
    ((object_type_from_key_type private_key >>= λ t.
    make_key_object_from_key registered version_2_0 >>= λ object.
    parse_get_key_response no_date (some (payload_with t (codes "7") object)))
      ≡ (make_key_object_from_key registered version_2_0 >>= λ _.
          if is_symmetric private_key
            && not (format_or (some format_pkcs8) format_raw == format_raw)
          then err invalid_object_format
          else ok (read_back registered version_2_0)))
    × (parse_get_secret_response (record {
      unique_identifier = codes "7";
      object_type = object_secret_data;
      object_element = make_secret_data (codes "s") secret_password;
    })
        ≡ (checked_secret_data_type secret_password >>= λ code.
            ok (record { secret_value = codes "s"; secret_type = code })))
unfolding algorithm
parse_get_response-make_object_example =
    parse_get_response-make_object no_date registered version_2_0 (codes "7") (codes "s")
      secret_password refl
