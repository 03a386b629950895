-- ===== src/Client/Received.antt =====
-- What a client of kmipclient/src/KmipClient.cpp has received from its peer.
use libkmip.Base.{ℕ, ◌≡◌, ap, sym, subst, ◌∙◌, List, ◌∷◌, ◌++◌, Option, Result, ok, >>=-eq-ok}
use libkmip.Errors.{Error}
use libkmip.Ttlv.{Element}
use libkmip.Ttlv.Bytes.{Endian}
use libkmip.Protocol.Tags.{status_success}
use libkmip.Protocol.Version.{ProtocolVersion}
use libkmip.Protocol.Item.{RequestBatchItem, ResponseBatchItem}
use libkmip.Protocol.Request.{RequestMessage, serialize_request, get_max_response_size}
use libkmip.Parser.{
  ResponseParser, OperationResult, create_parser_for, ensure_parsed, item_by_id,
  get_response_item_by_batch_item_id, get_operation_result_by_batch_item_id,
  get_response_by_batch_item_id,
}
use libkmip.Parser.Batches.{ensure_parsed_once, get_response_only_success}
use libkmip.Requests.{get_request}
use libkmip.Responses.{GetResponse, read_get}
use libkmip.Exchange.{NetClient, do_exchange}
use libkmip.Client.{exchange_request}
use libkmip.Client.Objects.{read_get_item}
use libkmip.Client.Yielded.{and_then-ok, and_then-Ends, Ends-world}

-- The second world is reached from the first by exchanges over the connection.
pub data Reaches {W : Type 0} (net : NetClient W) (start : W) : W → Type 0 where
  here : Reaches net start start
  next :
      {w : W} (request : List ℕ) (max : ℕ)
      → Reaches net start w
      → Reaches net start (do_exchange net request max w).1

module _ {W : Type 0} (net : NetClient W) (host : Endian) (clock : W → ℕ)
    (version : ProtocolVersion) where
  pub exchange_request-Reaches :
      (start : W) (m : RequestMessage) (w : W)
      → Reaches net start w
      → Reaches net start (exchange_request net host clock version m w).1
  unfolding exchange_request
  exchange_request-Reaches start m w r =
      let R = Reaches net start in
      let Any : ResponseParser → W → Type 0 = λ p v. Unit in
      Ends-world R Any _ (
        and_then-Ends R Any (serialize_request host (clock w) m, w) _ r
          (λ bytes v _ there.
            and_then-Ends R Any (do_exchange net bytes (get_max_response_size m) v) _
              (next bytes (get_max_response_size m) there) (λ response u _ end. (end, tt))))

  -- An exchange that has returned.
  pub record IsExchange (asked : RequestMessage) (before after : W) (received : List ℕ)
      : Type 0 where
    pub sent : List ℕ
    pub sent_is : serialize_request host (clock before) asked ≡ ok sent
    pub exchanged : do_exchange net sent (get_max_response_size asked) before ≡ (ok received, after)

  pub exchange_request-ok :
      (m : RequestMessage) (w w' : W) (parser : ResponseParser)
      → exchange_request net host clock version m w ≡ (ok parser, w')
      → (received : List ℕ) × (parser ≡ create_parser_for received m) × IsExchange m w w' received
  unfolding exchange_request
  exchange_request-ok m w w' parser h =
      let (sent, v, made, rest) =
        and_then-ok (serialize_request host (clock w) m, w) _ parser w' h in
      let (received, u, done, last) =
        and_then-ok (do_exchange net sent (get_max_response_size m) v) _ parser w' rest in
      let there : v ≡ w = sym (ap (λ (r : Result Error (List ℕ) × W). r.1) made) in
      let end : u ≡ w' = ap (λ (r : Result Error ResponseParser × W). r.1) last in
      let returned : ok (create_parser_for received m) ≡ ok parser =
        ap (λ (r : Result Error ResponseParser × W). r.0) last in
      (
        received,
        sym (cc returned),
        record {
          sent = sent;
          sent_is = ap (λ (r : Result Error (List ℕ) × W). r.0) made;
          exchanged =
              subst
                (λ (x : W). do_exchange net sent (get_max_response_size m) x ≡ (ok received, w'))
                there
                (subst
                  (λ (x : W). do_exchange net sent (get_max_response_size m) v ≡ (ok received, x))
                  end done);
        },
      )

  -- An exchange, reached from `start`, whose request asks for the object with an item of a number.
  pub record Asked (start : W) (id : List ℕ) : Type 0 where
    pub before : W
    pub after : W
    pub reached : Reaches net start before
    pub asked : RequestMessage
    pub received : List ℕ
    pub exchange : IsExchange asked before after received
    pub number : ℕ
    pub format : Option ℕ
    pub earlier : List RequestBatchItem
    pub later : List RequestBatchItem
    pub get_asked :
        asked.batch_items
        ≡ earlier ++ (record (get_request id format) { unique_batch_item_id = number } ∷ later)

  -- A payload that the peer has sent in answer, before the world `end` was reached: it is that of the item that the parser finds for the
  -- number in the response that was received, and the item has succeeded and is one of Get.
  pub record IsAnswer (start end : W) (id : List ℕ) (payload : Option Element) : Type 0 where
    pub from : Asked start id
    pub onward : Reaches net from.after end
    pub parsed : ResponseParser
    pub item : ResponseBatchItem
    pub answered :
        get_response_item_by_batch_item_id (create_parser_for from.received from.asked) from.number
        ≡ ok (item, parsed)
    pub success : item.result_status ≡ status_success
    pub response : GetResponse
    pub got : read_get item ≡ ok response
    pub carried : item.response_payload ≡ payload

-- The parser that a lookup leaves finds the same.
item_again :
    (p parsed : ResponseParser) (id : ℕ) (item : ResponseBatchItem)
    → get_response_item_by_batch_item_id p id ≡ ok (item, parsed)
    → get_response_item_by_batch_item_id parsed id ≡ ok (item, parsed)
unfolding get_response_item_by_batch_item_id
item_again p parsed id item h =
    let (q, ready, rest) = >>=-eq-ok (ensure_parsed p) _ h in
    let (found, looked, last) = >>=-eq-ok (item_by_id q id q.response_message.batch_items) _ rest in
    let same : q ≡ parsed = cc last in
    let it : found ≡ item = cc last in
    let once : ensure_parsed q ≡ ok q = ensure_parsed_once p q ready in
    subst (λ (x : ResponseParser). get_response_item_by_batch_item_id x id ≡ ok (item, x)) same
      (rw (once, looked) (ap (λ (x : ResponseBatchItem). ok (x, q)) it))

pub after_result :
    (p parsed : ResponseParser) (id : ℕ) (result : OperationResult)
    → get_operation_result_by_batch_item_id p id ≡ ok (result, parsed)
    → (item : ResponseBatchItem) × (get_response_item_by_batch_item_id p id ≡ ok (item, parsed))
unfolding get_operation_result_by_batch_item_id
after_result p parsed id result h =
    let (pair, got, last) = >>=-eq-ok (get_response_item_by_batch_item_id p id) _ h in
    let same : pair.1 ≡ parsed = cc last in
    (pair.0, got ∙ ap (λ (x : ResponseParser). ok (pair.0, x)) same)

-- The item of a typed Get that is read after the result of the operation.
pub refetched_item :
    (p parsed q : ResponseParser) (id : ℕ) (result : OperationResult)
    (typed : GetResponse × Option Element)
    → get_operation_result_by_batch_item_id p id ≡ ok (result, parsed)
    → get_response_by_batch_item_id read_get_item parsed id ≡ ok (typed, q)
    → (item : ResponseBatchItem) × (get_response_item_by_batch_item_id p id ≡ ok (item, q))
      × (item.result_status ≡ status_success)
      × (read_get_item item ≡ ok typed)
refetched_item p parsed q id result typed h k =
    let (first, looked) = after_result p parsed id result h in
    let (item, got, success, is) = get_response_only_success read_get_item parsed q id typed k in
    let again = item_again p parsed id first looked in
    let both : ok (first, parsed) ≡ ok (item, q) = sym again ∙ got in
    (item, looked ∙ both, success, is)

pub read_get_item-ok :
    (item : ResponseBatchItem) (typed : GetResponse × Option Element)
    → read_get_item item ≡ ok typed
    → (read_get item ≡ ok typed.0) × (item.response_payload ≡ typed.1)
read_get_item-ok item typed h =
    let (response, got, last) = >>=-eq-ok (read_get item) _ h in
    let pair : (response, item.response_payload) ≡ typed = cc last in
    (
      got ∙ ap (λ (x : GetResponse × Option Element). ok x.0) pair,
      ap (λ (x : GetResponse × Option Element). x.1) pair,
    )
