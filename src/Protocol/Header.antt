-- ===== src/Protocol/Header.antt =====
-- kmipcore/src/kmip_protocol.cpp: `RequestHeader` and `ResponseHeader`.
use libkmip.Base.{
  ℕ, ◌≡◌, refl, arith, Bool, List, [], ◌∷◌, Option, none, some, Result, ok, ◌>>=◌, ◌>>◌, throw_if,
  ◌==◌, if◌then◌else◌,
}
use libkmip.Errors.{
  Error, invalid_request_header, missing_request_version, missing_credential, invalid_credential,
  invalid_response_header, missing_response_version,
}
use libkmip.Ttlv.{Element}
use libkmip.Ttlv.Access.{
  create_structure, create_integer, create_boolean, create_date_time, create_enumeration,
  create_text_string, get_child, find, to_int, to_long, to_bool, to_enum, to_string,
}
use libkmip.Protocol.Tags.{
  tag_request_header, tag_protocol_version, tag_maximum_response_size, tag_time_stamp,
  tag_batch_order_option, tag_authentication, tag_credential, tag_credential_type,
  tag_credential_value, tag_username, tag_password, tag_batch_count, tag_response_header,
  cred_username_and_password,
}
use libkmip.Protocol.Children.{
  collect, optional, child_or, child_opt, child_required, is_other_structure,
}
use libkmip.Protocol.Version.{
  ProtocolVersion, version_1_4, version_to_element, version_from_element,
}

pub record RequestHeader : Type 0 where
  pub protocol_version : ProtocolVersion
  pub batch_count : ℕ
  pub maximum_response_size : Option ℕ
  pub time_stamp : Option ℕ
  pub batch_order_option : Option Bool
  pub user_name : Option (List ℕ)
  pub password : Option (List ℕ)

abbrev pub default_request_header : RequestHeader
default_request_header = record {
  protocol_version = version_1_4;
  batch_count = 0;
  maximum_response_size = none;
  time_stamp = none;
  batch_order_option = none;
  user_name = none;
  password = none;
}

-- `if (userName_ || password_)`: the credential in its three structures.
abbrev pub authentication_element : List (Option Element) → Element
authentication_element names = create_structure tag_authentication (
    collect (
      some (
        create_structure tag_credential (
          collect (
            some (create_enumeration tag_credential_type cred_username_and_password)
            ∷ some (create_structure tag_credential_value (collect names))
            ∷ [])))
      ∷ []))

abbrev pub authentication_of : Option (List ℕ) → Option (List ℕ) → Option Element
authentication_of none none = none
authentication_of none (some p) =
    some (authentication_element (some (create_text_string tag_password p) ∷ []))
authentication_of (some u) none =
    some (authentication_element (some (create_text_string tag_username u) ∷ []))
authentication_of (some u) (some p) = some (
    authentication_element
      (some (create_text_string tag_username u) ∷ some (create_text_string tag_password p) ∷ []))

unfoldable pub request_header_to_element : RequestHeader → Element
request_header_to_element h = create_structure tag_request_header (
    collect (
      some (version_to_element h.protocol_version)
      ∷ optional (create_integer tag_maximum_response_size) h.maximum_response_size
      ∷ optional (create_boolean tag_batch_order_option) h.batch_order_option
      ∷ optional (create_date_time tag_time_stamp) h.time_stamp
      ∷ authentication_of h.user_name h.password
      ∷ some (create_integer tag_batch_count h.batch_count)
      ∷ []))

-- The user name and the password of an Authentication, where there is one.
unfoldable pub read_credential : Option Element → Result Error (Option (List ℕ) × Option (List ℕ))
read_credential none = ok (none, none)
read_credential (some authentication) = do
  credential ← child_required (get_child tag_credential authentication) missing_credential
  credential_type ← child_required (get_child tag_credential_type credential) invalid_credential
  credential_value ← child_required (get_child tag_credential_value credential) invalid_credential
  type ← to_enum credential_type
  let names = do
    user_name ← child_opt (get_child tag_username credential_value) to_string
    password ← child_opt (get_child tag_password credential_value) to_string
    ok (user_name, password)
  if type == cred_username_and_password then names else ok (none, none)

unfoldable pub request_header_from_element : Element → Result Error RequestHeader
request_header_from_element e = do
  throw_if (is_other_structure tag_request_header e) invalid_request_header
  pv ← child_required (get_child tag_protocol_version e) missing_request_version
  protocol_version ← version_from_element pv
  maximum_response_size ← child_opt (get_child tag_maximum_response_size e) to_int
  time_stamp ← child_opt (get_child tag_time_stamp e) to_long
  batch_order_option ← child_opt (get_child tag_batch_order_option e) to_bool
  (user_name, password) ← read_credential (get_child tag_authentication e)
  batch_count ← child_or (get_child tag_batch_count e) to_int 0
  ok (record {
    protocol_version = protocol_version;
    batch_count = batch_count;
    maximum_response_size = maximum_response_size;
    time_stamp = time_stamp;
    batch_order_option = batch_order_option;
    user_name = user_name;
    password = password;
  })

abbrev request_header_with :
    ProtocolVersion
    → ℕ
    → Option ℕ
    → Option Bool
    → Option ℕ
    → Option (List ℕ)
    → Option (List ℕ)
    → RequestHeader
request_header_with v n m o t u p = record {
  protocol_version = v;
  batch_count = n;
  maximum_response_size = m;
  time_stamp = t;
  batch_order_option = o;
  user_name = u;
  password = p;
}

fields_read_back :
    (v : ProtocolVersion) (n : ℕ) (m : Option ℕ) (o : Option Bool) (t : Option ℕ)
    (u p : Option (List ℕ))
    → request_header_from_element (request_header_to_element (request_header_with v n m o t u p))
      ≡ ok (request_header_with v n m o t u p)
unfolding request_header_from_element request_header_to_element read_credential version_from_element
    version_to_element get_child find to_int to_long to_bool to_enum to_string
fields_read_back v n m o t u p = ground arith

pub request_header_from_element-to_element :
    (h : RequestHeader) → request_header_from_element (request_header_to_element h) ≡ ok h
request_header_from_element-to_element h =
    fields_read_back h.protocol_version h.batch_count h.maximum_response_size h.batch_order_option
      h.time_stamp h.user_name h.password

pub record ResponseHeader : Type 0 where
  pub protocol_version : ProtocolVersion
  pub time_stamp : ℕ
  pub batch_count : ℕ

unfoldable pub response_header_to_element : ResponseHeader → Element
response_header_to_element h = create_structure tag_response_header (
    collect (
      some (version_to_element h.protocol_version)
      ∷ some (create_date_time tag_time_stamp h.time_stamp)
      ∷ some (create_integer tag_batch_count h.batch_count)
      ∷ []))

unfoldable pub response_header_from_element : Element → Result Error ResponseHeader
response_header_from_element e = do
  throw_if (is_other_structure tag_response_header e) invalid_response_header
  pv ← child_required (get_child tag_protocol_version e) missing_response_version
  protocol_version ← version_from_element pv
  time_stamp ← child_or (get_child tag_time_stamp e) to_long 0
  batch_count ← child_or (get_child tag_batch_count e) to_int 0
  ok (record {
    protocol_version = protocol_version;
    time_stamp = time_stamp;
    batch_count = batch_count;
  })

pub response_header_from_element-to_element :
    (h : ResponseHeader) → response_header_from_element (response_header_to_element h) ≡ ok h
unfolding response_header_from_element response_header_to_element version_from_element
    version_to_element get_child find to_int to_long
response_header_from_element-to_element h = refl
