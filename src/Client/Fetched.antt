-- ===== src/Client/Fetched.antt =====
-- What `op_get_key` of kmipclient/src/KmipClient.cpp returns, over any connection.
use libkmip.Base.{
  ℕ, ◌≡◌, refl, sym, subst, Bool, true, false, List, [], ◌∷◌, append_assoc, Option, Result, ok, err,
}
use libkmip.Errors.{Error, required_state_missing}
use libkmip.Ttlv.{Element}
use libkmip.Ttlv.Bytes.{Endian}
use libkmip.Protocol.Version.{ProtocolVersion}
use libkmip.Protocol.Request.{add_batch_item}
use libkmip.Exchange.{NetClient, and_then}
use libkmip.Attributes.Names.{attr_state}
use libkmip.Attributes.{Attributes, has_attribute, merge}
use libkmip.Parser.{ResponseParser, create_parser_for, get_response_by_batch_item_id}
use libkmip.Parser.Batches.{get_response_only_success}
use libkmip.Requests.{get_request, get_attributes_request}
use libkmip.Requests.Keys.{Key}
use libkmip.KeyParser.{parse_get_key_response}
use libkmip.Locate.Paging.{give}
use libkmip.Client.{make_request_message, exchange_request}
use libkmip.Client.Objects.{
  read_get_item, key_from_get_response, key_of_answer, server_attributes, get_with_attributes,
  with_retries, op_get_key, require_state,
}
use libkmip.Client.Yielded.{
  Yields, Ends, Ends-Yields, and_then-Ends, lift-Ends, or_retry-Ends, HasState, merge-HasState,
  throw_if-not-ok, IsAsRead,
}
use libkmip.Client.Received.{
  Reaches, here, Asked, IsAnswer, exchange_request-Reaches, exchange_request-ok, read_get_item-ok,
}
use libkmip.Client.Labels.{IsLabelled}
use libkmip.Client.Formats.{IsRead, key_from_get_response-Ends}

module _ {W : Type 0} (net : NetClient W) (host : Endian) (clock : W → ℕ)
    (version : ProtocolVersion) (date_to_string : ℕ → List ℕ)
    (is_subject_public_key_info : List ℕ → Bool) (start : W) (id : List ℕ) where
  abbrev R : W → Type 0
  R = Reaches net start

  abbrev IsReadHere : Key → W → Type 0
  IsReadHere = IsRead net host clock version date_to_string is_subject_public_key_info start id

  abbrev IsFetched : Key → W → Type 0
  IsFetched key end = HasState key.attributes × IsReadHere key end

  with_server-IsFetched :
      (key : Key) (server : Attributes) (w : W)
      → HasState server
      → IsReadHere key w
      → IsFetched (record key { attributes = merge key.attributes server }) w
  with_server-IsFetched key server w h (payload, read, answer, parsed, kept, labelled) = (
    merge-HasState key.attributes server h,
    (
      payload,
      read,
      answer,
      parsed,
      record {
        same_value = kept.same_value;
        same_type = kept.same_type;
        same_format = kept.same_format;
      },
      labelled,
    ),
  )

  key_of_answer-Ends :
      (from : Asked net host clock version start id) (j : ℕ)
      → R from.after
      → Ends R IsFetched (
          key_of_answer net host clock version date_to_string is_subject_public_key_info id
            (create_parser_for from.received from.asked)
            from.number
            j
            from.after)
  unfolding key_of_answer
  key_of_answer-Ends from j there =
      let w = from.after in
      let parser = create_parser_for from.received from.asked in
      lift-Ends R IsFetched (get_response_by_batch_item_id read_get_item parser from.number) _ w
        there
        (λ (got, parsed) e.
          let (item, answered, success, is) =
            get_response_only_success read_get_item parser parsed from.number got e in
          let (read, carried) = read_get_item-ok item got is in
          let answer : IsAnswer net host clock version start w id got.1 = record {
            from = from;
            onward = here;
            parsed = parsed;
            item = item;
            answered = answered;
            success = success;
            response = got.0;
            got = read;
            carried = carried;
          } in
          lift-Ends R IsFetched
            (server_attributes net host clock version date_to_string is_subject_public_key_info
              parsed j)
            _ w there
            (λ server _. lift-Ends R IsFetched (require_state server) _ w there (λ u stated.
              let state =
                throw_if-not-ok (has_attribute attr_state server) required_state_missing u stated in
              finish server state
                (key_from_get_response net host clock version date_to_string
                  is_subject_public_key_info id got w)
                (key_from_get_response-Ends net host clock version date_to_string
                  is_subject_public_key_info start id got w answer refl there))))
    where
      finish :
          (server : Attributes)
          → HasState server
          → (r : Result Error Key × W) → Ends R IsReadHere r
          → Ends R IsFetched
              (and_then r (λ key. give (record key { attributes = merge key.attributes server })))
      finish server state (ok key, w) (r, read) = (r, with_server-IsFetched key server w state read)
      finish server state (err e, w) r = r

  get_with_attributes-Ends :
      (names : List (List ℕ)) (legacy : Bool) (w : W)
      → R w
      → Ends R IsFetched (
          get_with_attributes net host clock version date_to_string is_subject_public_key_info id
            names legacy
            (key_of_answer net host clock version date_to_string is_subject_public_key_info id)
            w)
  unfolding get_with_attributes add_batch_item
  get_with_attributes-Ends names legacy w there =
      lift-Ends R IsFetched (make_request_message net host clock version) _ w there (λ request _.
        let got = add_batch_item (get_request id Option.none) request in
        let attributes = add_batch_item (get_attributes_request id names version legacy) got.1 in
        let asked = attributes.1 in
        and_then-Ends R IsFetched (exchange_request net host clock version asked w) _
          (exchange_request-Reaches net host clock version start asked w there)
          (λ parser w' e r.
            let (received, is, exchange) =
              exchange_request-ok net host clock version asked w w' parser e in
            let from : Asked net host clock version start id = record {
              before = w;
              after = w';
              reached = there;
              asked = asked;
              received = received;
              exchange = record {
                sent = exchange.sent;
                sent_is = exchange.sent_is;
                exchanged = exchange.exchanged;
              };
              number = got.0;
              format = Option.none;
              earlier = request.batch_items;
              later =
                  record (get_attributes_request id names version legacy) {
                    unique_batch_item_id = attributes.0;
                  }
                  ∷ [];
              get_asked = append_assoc request.batch_items _ _;
            } in
            subst
              (λ (p : ResponseParser). Ends R IsFetched (
                key_of_answer net host clock version date_to_string is_subject_public_key_info id p
                  got.0 attributes.0 w'))
              (sym is) (key_of_answer-Ends from attributes.0 r)))

  -- A key that `op_get_key` returns, over any connection and whichever of its attempts the server has
  -- answered, has a state, and its value and type are those that the parser of Get reads from a
  -- payload that the server has sent. So is its format, unless that was PKCS#8 and the value is a
  -- SubjectPublicKeyInfo: then it is X.509. The payload is that of a successful item of Get in a
  -- response that was received, in an exchange between the worlds in which the operation began and
  -- ended, and that the parser finds for the item of the request that asked for the key.
  -- A public key whose value is a SubjectPublicKeyInfo is never returned with the format PKCS#8.
  pub op_get_key-Yields :
      (all_attributes : Bool)
      → Yields
          (λ (key : Key) (end : W).
            (has_attribute attr_state key.attributes ≡ true)
            × ((payload : Option Element) × (read : Key) × IsAnswer net host clock version start end
                  id payload
                × (parse_get_key_response date_to_string payload ≡ ok read)
                × IsAsRead is_subject_public_key_info key read
                × IsLabelled is_subject_public_key_info key))
          (op_get_key net host clock version date_to_string is_subject_public_key_info id
            all_attributes start)
  unfolding op_get_key with_retries
  op_get_key-Yields all_attributes = Ends-Yields R IsFetched _ (
      or_retry-Ends R IsFetched _ _ _ (get_with_attributes-Ends _ false start here) (λ w r.
        or_retry-Ends R IsFetched _ _ _ (get_with_attributes-Ends _ true w r)
          (λ w' r'. get_with_attributes-Ends [] true w' r')))
