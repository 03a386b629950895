-- ===== src/Client.antt =====
-- kmipclient/src/KmipClient.cpp: the operations of the client, each a request, an exchange and a
-- response. The connection is a `NetClient`, and the clock, `time(nullptr)`, a function of the world.
pub mod Sessions
pub mod Objects
pub mod Yielded
pub mod Received
pub mod Labels
pub mod Fallback
pub mod Formats
pub mod Fetched
pub mod FetchRuns
pub mod Runs
use libkmip.Base.{
  ℕ, ◌*◌, ◌^◌, Bool, true, false, not, ◌&&◌, ◌||◌, List, [], ◌∷◌, Option, none, some, Result, ok,
  err, ◌==◌, ltb, if◌then◌else◌,
}
use libkmip.Errors.{Error, operation_failed}
use libkmip.Ttlv.Bytes.{Endian}
use libkmip.Protocol.Version.{ProtocolVersion, is_at_least}
use libkmip.Protocol.Item.{RequestBatchItem, ResponseBatchItem}
use libkmip.Protocol.Request.{
  RequestMessage, create_request, set_max_response_size, get_max_response_size, add_batch_item,
  serialize_request, default_max_response_size,
}
use libkmip.Protocol.Payloads.{LocateResponsePayload}
use libkmip.Parser.{ResponseParser, create_parser_for, get_response_by_batch_item_id}
use libkmip.Exchange.{NetClient, Io, ◌>>>=◌, do_exchange}
use libkmip.Codes.{
  kmip_op_create, kmip_op_register, kmip_op_get_attribute_list, kmip_op_activate, kmip_op_revoke,
  kmip_op_destroy, reason_invalid_message, reason_invalid_field, reason_feature_not_supported,
}
use libkmip.Attributes.{Attributes}
use libkmip.AttributesParser.{parse}
use libkmip.Requests.{
  simple_id_request, get_attributes_request, create_symmetric_key_request, register_key_request,
  register_secret_request, locate_request, revoke_request, discover_versions_request, query_request,
}
use libkmip.Requests.Keys.{Key}
use libkmip.Responses.{
  QueryResponse, read_simple_id, read_get_attributes, read_get_attribute_list, read_locate,
  read_discover_versions, read_query,
}
use libkmip.Locate.Turns.{Page}
use libkmip.Locate.Paging.{give, max_batches_in_search, op_locate, op_all}
use libkmip.Locate.{max_items_in_batch}

-- Code that does not touch the connection.
abbrev pub lift : {W A : Type 0} → Result Error A → Io W A
lift r w = (r, w)

-- The code of the exception is one that an older encoding of the request may avoid. Of the exceptions
-- only that of a failed item has such a code.
abbrev pub should_retry_get_attributes_with_legacy_v2_encoding : Error → Bool
should_retry_get_attributes_with_legacy_v2_encoding (operation_failed op status reason message) =
    reason == reason_invalid_message
    || (reason == reason_invalid_field || reason == reason_feature_not_supported)
should_retry_get_attributes_with_legacy_v2_encoding other = false

-- `try { … } catch (const KmipException &e) { if (!may(e)) throw; } next`
abbrev pub or_retry :
    {W A : Type 0} → (Error → Bool) → Result Error A × W → Io W A → Result Error A × W
or_retry may (ok a, w) next = (ok a, w)
or_retry may (err e, w) next = if may e then next w else (err e, w)

abbrev pub no_names : List (List ℕ) → Bool
no_names [] = true
no_names (name ∷ names) = false

-- A number of items that is not negative.
abbrev pub usable_total : Option ℕ → Option ℕ
usable_total none = none
usable_total (some n) = if ltb n (2 ^ 31) then some n else none

abbrev pub page_of : LocateResponsePayload → Page
page_of p = record { page_ids = p.unique_identifiers; located_items = usable_total p.located_items }

module _ {W : Type 0} (net : NetClient W) (host : Endian) (clock : W → ℕ)
    (version : ProtocolVersion) where
  -- A request is sent, and its response is given to a parser.
  unfoldable pub exchange_request : RequestMessage → Io W ResponseParser
  exchange_request request = (λ w. (serialize_request host (clock w) request, w)) >>>= λ bytes.
      do_exchange net bytes (get_max_response_size request) >>>= λ response.
      give (create_parser_for response request)

  -- One item is added and sent, and its typed response is read.
  unfoldable pub perform_in :
      {A : Type 0}
      → RequestMessage
      → RequestBatchItem
      → (ResponseBatchItem → Result Error A)
      → Io W A
  perform_in request item read =
      let added = add_batch_item item request in
      exchange_request added.1 >>>= λ parser.
      lift (get_response_by_batch_item_id read parser added.0) >>>= λ answer. give answer.0

  unfoldable pub make_request_message : Result Error RequestMessage
  make_request_message = create_request version default_max_response_size

  unfoldable pub perform :
      {A : Type 0} → Result Error RequestBatchItem → (ResponseBatchItem → Result Error A) → Io W A
  perform item read =
      lift make_request_message >>>= λ request. lift item >>>= λ made. perform_in request made read

  unfoldable pub op_activate : List ℕ → Io W (List ℕ)
  op_activate id =
      perform (ok (simple_id_request kmip_op_activate id)) (read_simple_id kmip_op_activate)

  unfoldable pub op_destroy : List ℕ → Io W (List ℕ)
  op_destroy id =
      perform (ok (simple_id_request kmip_op_destroy id)) (read_simple_id kmip_op_destroy)

  unfoldable pub op_revoke : List ℕ → ℕ → List ℕ → ℕ → Io W (List ℕ)
  op_revoke id reason message occurrence_time =
      perform (ok (revoke_request id reason message occurrence_time))
        (read_simple_id kmip_op_revoke)

  unfoldable pub op_register_key : List ℕ → List ℕ → Key → Io W (List ℕ)
  op_register_key name group key =
      perform (register_key_request name group key version) (read_simple_id kmip_op_register)

  unfoldable pub op_register_secret : List ℕ → List ℕ → List ℕ → ℕ → Io W (List ℕ)
  op_register_secret name group secret secret_type =
      perform (ok (register_secret_request name group secret secret_type version))
        (read_simple_id kmip_op_register)

  unfoldable pub op_create_aes_key : List ℕ → List ℕ → ℕ → ℕ → Io W (List ℕ)
  op_create_aes_key name group key_size mask =
      perform (ok (create_symmetric_key_request name group key_size mask version))
        (read_simple_id kmip_op_create)

  unfoldable pub op_get_attribute_list : List ℕ → Io W (List (List ℕ))
  op_get_attribute_list id =
      perform (ok (simple_id_request kmip_op_get_attribute_list id)) read_get_attribute_list

  unfoldable pub op_discover_versions : Io W (List ProtocolVersion)
  op_discover_versions = perform (ok discover_versions_request) read_discover_versions

  unfoldable pub op_query : Io W QueryResponse
  op_query = perform (ok query_request) read_query

  -- One page of a search; without identifiers to ask for, no request is sent.
  unfoldable pub locate_page : Bool → List ℕ → ℕ → ℕ → ℕ → ℕ → Io W Page
  locate_page by_group filter o_type offset page_size max_response_size =
      if page_size == 0
      then give (record { page_ids = []; located_items = none })
      else (lift make_request_message >>>= λ request.
          lift (set_max_response_size max_response_size request) >>>= λ sized.
          lift (locate_request by_group filter o_type page_size offset version) >>>= λ item.
          perform_in sized item read_locate >>>= λ payload. give (page_of payload))

  unfoldable pub op_locate_by_name : List ℕ → ℕ → Io W (List (List ℕ))
  op_locate_by_name name o_type =
      op_locate (locate_page false name o_type) (max_batches_in_search * max_items_in_batch)

  unfoldable pub op_locate_by_group : List ℕ → ℕ → ℕ → Io W (List (List ℕ))
  op_locate_by_group group o_type = op_locate (locate_page true group o_type)

  unfoldable pub op_all_objects : ℕ → ℕ → Io W (List (List ℕ))
  op_all_objects o_type = op_all (locate_page true [] o_type)

  -- `date_to_string` prints a time by the C library.
  module _ (date_to_string : ℕ → List ℕ) where
    unfoldable pub get_attributes_once : List ℕ → List (List ℕ) → Bool → Io W Attributes
    get_attributes_once id names legacy =
        perform (ok (get_attributes_request id names version legacy)) read_get_attributes
        >>>= λ attributes. lift (parse date_to_string attributes)

    unfoldable pub op_get_attributes : List ℕ → List (List ℕ) → Io W Attributes
    op_get_attributes id names w =
        or_retry
          (λ e. is_at_least version 2 0 && should_retry_get_attributes_with_legacy_v2_encoding e)
          (get_attributes_once id names false w)
          (λ w'.
            or_retry
              (λ e. not (no_names names) && should_retry_get_attributes_with_legacy_v2_encoding e)
              (get_attributes_once id names true w') (get_attributes_once id [] true))
