-- ===== src/Client/Formats.antt =====
-- The formats in which `op_get_key` of kmipclient/src/KmipClient.cpp asks for a key in turn.
use libkmip.Base.{
  ℕ, ◌≡◌, refl, sym, subst, ap, Bool, true, false, not, List, [], ◌∷◌, Option, none, some, Result,
  ok, err, >>=-eq-ok, ◌==◌,
}
use libkmip.Errors.{Error}
use libkmip.Ttlv.{Element}
use libkmip.Ttlv.Bytes.{Endian}
use libkmip.Protocol.Version.{ProtocolVersion}
use libkmip.Exchange.{NetClient, Io, ◌>>>=◌}
use libkmip.Protocol.Tags.{status_success}
use libkmip.Parser.{
  ResponseParser, get_operation_result_by_batch_item_id, get_response_by_batch_item_id,
}
use libkmip.Responses.{GetResponse}
use libkmip.Requests.Keys.{Key}
use libkmip.KeyParser.{key_format_type, parse_get_key_response}
use libkmip.Locate.Found.{if_both}
use libkmip.Client.{lift, make_request_message, exchange_request}
use libkmip.Client.Objects.{
  is_format, is_among, no_formats, preferred_key_formats, return_or, read_get_item,
  in_preferred_format, key_in_format, after_refetch, ask_formats, key_from_get_response,
}
use libkmip.Client.Received.{
  Reaches, Asked, IsAnswer, here, exchange_request-Reaches, exchange_request-ok, refetched_item,
  read_get_item-ok,
}
use libkmip.Protocol.Request.{add_batch_item}
use libkmip.Parser.{create_parser_for}
use libkmip.Requests.{get_request}
use libkmip.Client.Labels.{
  IsLabelled, unchanged, in_preferred_format-IsAsRead, in_preferred_format-IsLabelled,
}
use libkmip.Client.Yielded.{Ends, and_then-Ends, lift-Ends, IsAsRead}
use libkmip.Client.Fallback.{IsFallback, first-IsFallback, symmetric-IsFallback}

module _ {W : Type 0} (net : NetClient W) (host : Endian) (clock : W → ℕ)
    (version : ProtocolVersion) (date_to_string : ℕ → List ℕ)
    (is_subject_public_key_info : List ℕ → Bool) where
  module _ (start : W) (id : List ℕ) where
    -- A key that was read from a payload that the peer has sent.
    abbrev pub IsRead : Key → W → Type 0
    IsRead key end =
        (payload : Option Element) × (read : Key) × IsAnswer net host clock version start end id
          payload
        × (parse_get_key_response date_to_string payload ≡ ok read)
        × IsAsRead is_subject_public_key_info key read
        × IsLabelled is_subject_public_key_info key

    abbrev IsFallbackHere : Option Element → Type 0
    IsFallbackHere = IsFallback net host clock version date_to_string is_subject_public_key_info

    abbrev pub R : W → Type 0
    R = Reaches net start

    key_in_format-IsRead :
        (wanted : Bool) (payload : Option Element) (key : Key) (w : W)
        → IsAnswer net host clock version start w id payload
        → key_in_format net host clock version date_to_string is_subject_public_key_info wanted
            payload
          ≡ ok (some key)
        → IsRead key w
    unfolding key_in_format
    key_in_format-IsRead true payload key w answer h =
        let (read, parsed, kept) = >>=-eq-ok (parse_get_key_response date_to_string payload) _ h in
        let kept' : in_preferred_format net host clock version date_to_string
              is_subject_public_key_info read
            ≡ some key =
          cc kept in
        (
          payload,
          read,
          answer,
          parsed,
          in_preferred_format-IsAsRead net host clock version date_to_string
              is_subject_public_key_info read key kept',
          in_preferred_format-IsLabelled net host clock version date_to_string
              is_subject_public_key_info read key kept',
        )
    key_in_format-IsRead false payload key w answer h = let no : none ≡ some key = cc h in cc no

    parsed-Ends :
        (payload : Option Element) (w : W)
        → IsAnswer net host clock version start w id payload
        → IsFallbackHere payload
        → R w
        → Ends R IsRead (lift (parse_get_key_response date_to_string payload) w)
    parsed-Ends payload w answer fallback there =
        go (parse_get_key_response date_to_string payload) refl
      where
        go :
            (r : Result Error Key)
            → parse_get_key_response date_to_string payload ≡ r
            → Ends R IsRead (r, w)
        go (ok key) e = (
          there,
          (
            payload,
            key,
            answer,
            e,
            unchanged net host clock version date_to_string is_subject_public_key_info key,
            fallback key e,
          ),
        )
        go (err x) e = there

    -- What a request for a format makes of the answer, or what comes next.
    return_or-Ends :
        (wanted : Bool) (payload : Option Element) (next : Io W Key) (w : W)
        → IsAnswer net host clock version start w id payload
        → R w
        → (key_in_format net host clock version date_to_string is_subject_public_key_info wanted
                payload
              ≡ ok none
            → Ends R IsRead (next w))
        → Ends R IsRead (
            (lift (
                  key_in_format net host clock version date_to_string is_subject_public_key_info
                    wanted payload)
                >>>= λ key. return_or key next)
              w)
    return_or-Ends wanted payload next w answer there h =
        lift-Ends R IsRead
          (key_in_format net host clock version date_to_string is_subject_public_key_info wanted
            payload)
          _ w there returned
      where
        returned :
            (key : Option Key)
            → key_in_format net host clock version date_to_string is_subject_public_key_info wanted
                payload
              ≡ ok key
            → Ends R IsRead (return_or key next w)
        returned (some key) e = (there, key_in_format-IsRead wanted payload key w answer e)
        returned none e = h e

    after_refetch-Ends :
        (wanted : ℕ) (from : Asked net host clock version start id) (next : Io W Key) (w : W)
        → R w
        → Reaches net from.after w
        → Ends R IsRead (next w)
        → Ends R IsRead (
            after_refetch net host clock version date_to_string is_subject_public_key_info wanted
              (create_parser_for from.received from.asked)
              from.number
              next
              w)
    unfolding after_refetch
    after_refetch-Ends wanted from next w there onward h =
        let parser = create_parser_for from.received from.asked in
        lift-Ends R IsRead (get_operation_result_by_batch_item_id parser from.number) _ w there
          (λ (result, parsed) e.
            if_both (λ (io : Io W Key). Ends R IsRead (io w))
              (not (result.result_status == status_success)) next _ (λ _. h)
              (λ _.
                lift-Ends R IsRead (get_response_by_batch_item_id read_get_item parsed from.number)
                  _ w there
                  (λ (refetched, q) e'.
                    let (item, answered, success, is) =
                      refetched_item parser parsed q from.number result refetched e e' in
                    let (got, carried) = read_get_item-ok item refetched is in
                    lift-Ends R IsRead (key_format_type refetched.0) _ w there (λ format _.
                      return_or-Ends (is_format format wanted) refetched.1 next w
                        (record {
                          from = from;
                          onward = onward;
                          parsed = q;
                          item = item;
                          answered = answered;
                          success = success;
                          response = refetched.0;
                          got = got;
                          carried = carried;
                        })
                        there (λ _. h)))))

    -- What was answered in an earlier world was answered in a later one.
    later-IsAnswer :
        (payload : Option Element) (w w' : W)
        (answer : IsAnswer net host clock version start w id payload)
        → Reaches net answer.from.after w'
        → IsAnswer net host clock version start w' id payload
    later-IsAnswer payload w w' answer onward = record {
      from = answer.from;
      onward = onward;
      parsed = answer.parsed;
      item = answer.item;
      answered = answer.answered;
      success = answer.success;
      response = answer.response;
      got = answer.got;
      carried = answer.carried;
    }

    ask_formats-Ends :
        (formats : List ℕ) (payload : Option Element) (w : W)
        → IsAnswer net host clock version start w id payload
        → IsFallbackHere payload
        → R w
        → Ends R IsRead (
            ask_formats net host clock version date_to_string is_subject_public_key_info formats id
              payload w)
    unfolding ask_formats add_batch_item
    ask_formats-Ends [] payload w answer fallback there =
        parsed-Ends payload w answer fallback there
    ask_formats-Ends (format ∷ formats) payload w answer fallback there =
        lift-Ends R IsRead (make_request_message net host clock version) _ w there (λ request _.
          let asked = (add_batch_item (get_request id (some format)) request).1 in
          let further =
            exchange_request-Reaches net host clock version answer.from.after asked w
              answer.onward in
          and_then-Ends R IsRead (exchange_request net host clock version asked w) _
            (exchange_request-Reaches net host clock version start asked w there)
            (λ parser w' e r.
              let (received, is, exchange) =
                exchange_request-ok net host clock version asked w w' parser e in
              let from : Asked net host clock version start id = record {
                before = w;
                after = w';
                reached = there;
                asked = asked;
                received = received;
                exchange = record {
                  sent = exchange.sent;
                  sent_is = exchange.sent_is;
                  exchanged = exchange.exchanged;
                };
                number = request.next_batch_item_id;
                format = some format;
                earlier = request.batch_items;
                later = [];
                get_asked = refl;
              } in
              let end = ap (λ (x : Result Error ResponseParser × W). x.1) e in
              let later =
                later-IsAnswer payload w w' answer
                  (subst (Reaches net answer.from.after) end further) in
              subst
                (λ (p : ResponseParser). Ends R IsRead (
                  after_refetch net host clock version date_to_string is_subject_public_key_info
                    format p request.next_batch_item_id
                    (ask_formats net host clock version date_to_string is_subject_public_key_info
                      formats id payload)
                    w'))
                (sym is)
                (after_refetch-Ends format from
                  (ask_formats net host clock version date_to_string is_subject_public_key_info
                    formats id payload)
                  w' r here (ask_formats-Ends formats payload w' later fallback r))))

    pub key_from_get_response-Ends :
        (got : GetResponse × Option Element) (w : W)
        (answer : IsAnswer net host clock version start w id got.1)
        → answer.response ≡ got.0
        → R w
        → Ends R IsRead (
            key_from_get_response net host clock version date_to_string is_subject_public_key_info
              id got w)
    unfolding key_from_get_response
    key_from_get_response-Ends (response, payload) w answer same there =
        let formats = preferred_key_formats response.object_type in
        if_both (λ (io : Io W Key). Ends R IsRead (io w)) (no_formats formats) _ _
          (λ none_wanted.
            parsed-Ends payload w answer
              (symmetric-IsFallback net host clock version date_to_string is_subject_public_key_info
                start w id response payload answer same none_wanted)
              there)
          (λ _. lift-Ends R IsRead (key_format_type response) _ w there (λ got e.
            return_or-Ends (is_among got formats) payload _ w answer there (λ none_yet.
              ask_formats-Ends formats payload w answer
                (first-IsFallback net host clock version date_to_string is_subject_public_key_info
                  start w id response payload got answer same e none_yet)
                there)))
