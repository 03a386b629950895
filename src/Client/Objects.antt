-- ===== src/Client/Objects.antt =====
-- kmipclient/src/KmipClient.cpp: fetching keys and secrets. `is_subject_public_key_info` asks OpenSSL,
-- and `date_to_string` the C library: both are parameters.
use libkmip.Base.{
  ℕ, Bool, true, false, not, ◌&&◌, ◌||◌, List, [], ◌∷◌, Option, none, some, Result, ok, ◌>>=◌,
  throw_if, ◌==◌, if◌then◌else◌,
}
use libkmip.Errors.{Error, required_state_missing}
use libkmip.Codes.{object_private_key, object_public_key, format_pkcs8, format_x509}
use libkmip.Ttlv.{Element}
use libkmip.Ttlv.Bytes.{Endian}
use libkmip.Protocol.Tags.{status_success}
use libkmip.Protocol.Version.{ProtocolVersion, is_at_least}
use libkmip.Protocol.Item.{ResponseBatchItem}
use libkmip.Protocol.Request.{add_batch_item}
use libkmip.Parser.{
  ResponseParser, get_operation_result_by_batch_item_id, get_response_by_batch_item_id,
}
use libkmip.Exchange.{NetClient, Io, ◌>>>=◌}
use libkmip.Attributes.Names.{
  attr_state, attr_name, attr_operation_policy_name, attr_crypto_alg, attr_crypto_len,
  attr_crypto_usage_mask,
}
use libkmip.Attributes.{
  Attributes, no_attributes, has_attribute, object_state, get, set_state, set_string, merge,
}
use libkmip.AttributesParser.{parse}
use libkmip.Requests.{get_request, get_attributes_request}
use libkmip.Requests.Keys.{KeyType, public_key, Key}
use libkmip.Responses.{GetResponse, read_get, read_get_attributes}
use libkmip.KeyParser.{Secret, parse_get_key_response, parse_get_secret_response, key_format_type}
use libkmip.Locate.Paging.{give}
use libkmip.Client.{
  lift, or_retry, should_retry_get_attributes_with_legacy_v2_encoding, no_names, exchange_request,
  make_request_message,
}

abbrev pub default_get_key_attrs : Bool → List (List ℕ)
default_get_key_attrs true = []
default_get_key_attrs false =
    attr_state ∷ attr_name ∷ attr_operation_policy_name ∷ attr_crypto_alg ∷ attr_crypto_len
    ∷ attr_crypto_usage_mask ∷ []

abbrev pub default_get_secret_attrs : Bool → List (List ℕ)
default_get_secret_attrs true = []
default_get_secret_attrs false = attr_state ∷ attr_name ∷ attr_operation_policy_name ∷ []

unfoldable pub preferred_key_formats : ℕ → List ℕ
preferred_key_formats object_type =
    if object_type == object_private_key
    then format_pkcs8 ∷ []
    else if object_type == object_public_key
    then format_x509 ∷ format_pkcs8 ∷ []
    else []

abbrev pub is_format : Option ℕ → ℕ → Bool
is_format (some got) format = got == format
is_format none format = false

abbrev pub no_formats : List ℕ → Bool
no_formats [] = true
no_formats (format ∷ formats) = false

-- `got && std::ranges::find(formats, *got) != formats.end()`
abbrev pub is_among : Option ℕ → List ℕ → Bool
is_among got [] = false
is_among got (format ∷ formats) = is_format got format || is_among got formats

abbrev pub is_public : KeyType → Bool
is_public public_key = true
is_public other = false

-- A response to Get, with the payload that the parser of keys reads.
abbrev pub read_get_item : ResponseBatchItem → Result Error (GetResponse × Option Element)
read_get_item item = read_get item >>= λ response. ok (response, item.response_payload)

abbrev pub return_or : {W : Type 0} → Option Key → Io W Key → Io W Key
return_or (some key) next w = (ok key, w)
return_or none next w = next w

-- The state and, where there is one, the name.
abbrev pub minimal_attributes : Attributes → Attributes
minimal_attributes server =
    let with_state = set_state (object_state server) no_attributes in
    if has_attribute attr_name server
    then set_string attr_name (get attr_name server) with_state
    else with_state

abbrev pub require_state : Attributes → Result Error (Unit {0})
require_state server = throw_if (not (has_attribute attr_state server)) required_state_missing

-- All that the server sent, or the state, which must be there, and the name.
unfoldable pub secret_attributes : Bool → Attributes → Result Error Attributes
secret_attributes true server = ok (merge no_attributes server)
secret_attributes false server = require_state server >>= λ _. ok (minimal_attributes server)

module _ {W : Type 0} (net : NetClient W) (host : Endian) (clock : W → ℕ)
    (version : ProtocolVersion) (date_to_string : ℕ → List ℕ)
    (is_subject_public_key_info : List ℕ → Bool) where
  -- A public key in the format PKCS#8 is kept only if it is what KMIP calls X.509.
  unfoldable pub in_preferred_format : Key → Option Key
  in_preferred_format key =
      if is_public key.key_type && is_format key.key_format format_pkcs8
      then if is_subject_public_key_info key.value
        then some (record key { key_format = some format_x509 })
        else none
      else some key

  -- The key of a response, if it came in a format that is wanted.
  unfoldable pub key_in_format : Bool → Option Element → Result Error (Option Key)
  key_in_format true payload = do
    key ← parse_get_key_response date_to_string payload
    ok (in_preferred_format key)
  key_in_format false payload = ok none

  -- What follows an answer to a request for a format: the key, or the next format.
  unfoldable pub after_refetch : ℕ → ResponseParser → ℕ → Io W Key → Io W Key
  after_refetch format parser id next =
      lift (get_operation_result_by_batch_item_id parser id) >>>= λ (result, parsed).
      if not (result.result_status == status_success)
      then next
      else lift (get_response_by_batch_item_id read_get_item parsed id) >>>= λ (refetched, _).
          lift (key_format_type refetched.0) >>>= λ got.
          lift (key_in_format (is_format got format) refetched.1) >>>= λ key. return_or key next

  -- The formats in turn, and in the end the key as it came first.
  unfoldable pub ask_formats : List ℕ → List ℕ → Option Element → Io W Key
  ask_formats [] id payload = lift (parse_get_key_response date_to_string payload)
  ask_formats (format ∷ formats) id payload =
      let next = ask_formats formats id payload in
      lift (make_request_message net host clock version) >>>= λ request.
      let added = add_batch_item (get_request id (some format)) request in
      exchange_request net host clock version added.1 >>>= λ parser.
      after_refetch format parser added.0 next

  unfoldable pub key_from_get_response : List ℕ → GetResponse × Option Element → Io W Key
  key_from_get_response id (response, payload) =
      let formats = preferred_key_formats response.object_type in
      let ask = ask_formats formats id payload in
      if no_formats formats
      then lift (parse_get_key_response date_to_string payload)
      else lift (key_format_type response) >>>= λ got.
          lift (key_in_format (is_among got formats) payload) >>>= λ key. return_or key ask

  -- One request with Get and Get Attributes, and what is made of the answer.
  unfoldable pub get_with_attributes :
      {A : Type 0} → List ℕ → List (List ℕ) → Bool → (ResponseParser → ℕ → ℕ → Io W A) → Io W A
  get_with_attributes id names legacy answered =
      lift (make_request_message net host clock version) >>>= λ request.
      let got = add_batch_item (get_request id none) request in
      let asked = add_batch_item (get_attributes_request id names version legacy) got.1 in
      exchange_request net host clock version asked.1 >>>= λ parser. answered parser got.0 asked.0

  unfoldable pub server_attributes : ResponseParser → ℕ → Result Error Attributes
  server_attributes parser id = do
    (attributes, _) ← get_response_by_batch_item_id read_get_attributes parser id
    parse date_to_string attributes

  unfoldable pub key_of_answer : List ℕ → ResponseParser → ℕ → ℕ → Io W Key
  key_of_answer id parser get_item_id attributes_item_id =
      lift (get_response_by_batch_item_id read_get_item parser get_item_id) >>>= λ (got, parsed).
      lift (server_attributes parsed attributes_item_id) >>>= λ server.
      lift (require_state server) >>>= λ _. key_from_get_response id got >>>= λ key.
      give (record key { attributes = merge key.attributes server })

  unfoldable pub secret_of_answer :
      Bool → ResponseParser → ℕ → ℕ → Result Error (Secret × Attributes)
  secret_of_answer all_attributes parser get_item_id attributes_item_id = do
    (got, parsed) ← get_response_by_batch_item_id read_get parser get_item_id
    secret ← parse_get_secret_response got
    server ← server_attributes parsed attributes_item_id
    attributes ← secret_attributes all_attributes server
    ok (secret, attributes)

  -- The attempts of `op_get_key` and `op_get_secret`: as the version has it, with the names of 1.x,
  -- and with no names.
  unfoldable pub with_retries :
      {A : Type 0} → List (List ℕ) → (List (List ℕ) → Bool → Io W A) → Io W A
  with_retries names attempt w =
      or_retry
        (λ e. is_at_least version 2 0 && should_retry_get_attributes_with_legacy_v2_encoding e)
        (attempt names false w)
        (λ w'.
          or_retry
            (λ e. not (no_names names) && should_retry_get_attributes_with_legacy_v2_encoding e)
            (attempt names true w') (attempt [] true))

  unfoldable pub op_get_key : List ℕ → Bool → Io W Key
  op_get_key id all_attributes =
      with_retries (default_get_key_attrs all_attributes)
        (λ names legacy. get_with_attributes id names legacy (key_of_answer id))

  unfoldable pub op_get_secret : List ℕ → Bool → Io W (Secret × Attributes)
  op_get_secret id all_attributes =
      with_retries (default_get_secret_attrs all_attributes) (λ names legacy.
        get_with_attributes id names legacy (λ parser get_item_id attributes_item_id.
          lift (secret_of_answer all_attributes parser get_item_id attributes_item_id)))
