-- ===== src/Parser/Batches.antt =====
-- Which item of a response a request's identifier leads to, and what is reported for it.
use libkmip.Base.{
  if_false, ℕ, ◌+◌, ◌^◌, ◌<◌, ◌≡◌, ◌≢◌, ◌⊎◌, inl, inr, refl, ap, ◌∙◌, arith, false, not, List, [],
  ◌∷◌, none, some, Result, ok, ◌>>=◌, ◌==◌, if◌then◌else◌, length, get_elem?, All, Holds, if-Holds,
  ok-Holds, throw_if-Holds, >>=-Holds,
}
use libkmip.Errors.{Error, empty_response, trailing_bytes, batch_item_id_not_found}
use libkmip.Ttlv.Deserialize.{deserialize}
use libkmip.Protocol.Tags.{status_success}
use libkmip.Protocol.Item.{RequestBatchItem, ResponseBatchItem}
use libkmip.Protocol.Numbering.{numbered, set_batch_items_numbers}
use libkmip.Protocol.Request.{RequestMessage, set_batch_items}
use libkmip.Protocol.Response.{response_from_element}
use libkmip.Parser.{
  ResponseParser, parse_response, ensure_parsed, lookup, add_hints, create_parser,
  create_parser_for, found, find_by_position, item_by_id, get_response_item_by_batch_item_id,
  effective_operation, hint, ensure_success, get_response_by_batch_item_id,
}
use libkmip.Parser.Lookup.{
  lookup-add_hints, lookup-add_hints_absent, numbered_above, find_echoed_first, find_echoed-none,
}

-- The maps of one parser are those of another.
abbrev SameMaps : ResponseParser → ResponseParser → Type 0
SameMaps p q =
    (q.operation_hints ≡ p.operation_hints) × (q.batch_item_positions ≡ p.batch_item_positions)

parse_response_keeps : (p : ResponseParser) → Holds (SameMaps p) (parse_response p)
unfolding parse_response
parse_response_keeps p = throw_if-Holds _ (length p.response_bytes == 0) empty_response _ λ _.
    >>=-Holds _ (deserialize p.response_bytes 0) _ λ (root, offset) _.
      throw_if-Holds _ (not (offset == length p.response_bytes)) trailing_bytes _
        λ _. >>=-Holds _ (response_from_element root) _ λ message _. ok-Holds _ _ (refl, refl)

parsed_after : (p : ResponseParser) → Holds (λ q. ensure_parsed q ≡ ok q) (ensure_parsed p)
unfolding ensure_parsed parse_response
parsed_after p =
    if-Holds _ p.is_parsed _ _ (λ already. ok-Holds _ p (rw already))
      (λ _. throw_if-Holds _ (length p.response_bytes == 0) empty_response _ λ _.
        >>=-Holds _ (deserialize p.response_bytes 0) _ λ (root, offset) _.
          throw_if-Holds _ (not (offset == length p.response_bytes)) trailing_bytes _
            λ _. >>=-Holds _ (response_from_element root) _ λ message _. ok-Holds _ _ refl)

-- The bytes are parsed once: after a call that has parsed them, every call finds them parsed.
pub ensure_parsed_once : (p q : ResponseParser) → ensure_parsed p ≡ ok q → ensure_parsed q ≡ ok q
ensure_parsed_once p q done = parsed_after p q done

-- The parser for a request whose items `setBatchItems` has numbered, before and after parsing.
parser_for :
    (bytes : List ℕ) (items : List RequestBatchItem) (m : RequestMessage)
    → 1 + length items < 2 ^ 32
    → create_parser_for bytes (set_batch_items items m)
      ≡ add_hints (numbered 1 items) 0 (create_parser bytes)
unfolding create_parser_for
parser_for bytes items m few = rw (set_batch_items_numbers items m few)

parsed_maps :
    (bytes : List ℕ) (items : List RequestBatchItem) (m : RequestMessage) (i : ℕ)
    (item : RequestBatchItem) (parsed : ResponseParser)
    → 1 + length items < 2 ^ 32
    → get_elem? items i ≡ some item
    → parse_response (create_parser_for bytes (set_batch_items items m)) ≡ ok parsed
    → (lookup (1 + i) parsed.operation_hints ≡ some item.operation)
      × (lookup (1 + i) parsed.batch_item_positions ≡ some i)
parsed_maps bytes items m i item parsed few at done =
    let kept = parse_response_keeps _ parsed done in
    let start = parser_for bytes items m few in
    let maps = lookup-add_hints items 1 0 i item (create_parser bytes) at in
    (rw (kept.0, start) maps.0, rw (kept.1, start) (maps.1 ∙ ap (λ (n : ℕ). some n) (omega arith)))

no_zero :
    (answers : List ResponseBatchItem) (i : ℕ)
    → All (λ (answer : ResponseBatchItem). answer.unique_batch_item_id ≡ 0) answers
    → All (λ (answer : ResponseBatchItem). answer.unique_batch_item_id ≢ 1 + i) answers
no_zero [] i w = tt
no_zero (answer ∷ answers) i (w, ws) = ((λ e. omega (arith, w)), no_zero answers i ws)

ensure_fresh : (p : ResponseParser) → p.is_parsed ≡ false → ensure_parsed p ≡ parse_response p
unfolding ensure_parsed
ensure_fresh p fresh = if_false p.is_parsed (ok p) (parse_response p) fresh

by_id :
    (p : ResponseParser) (id : ℕ) (parsed : ResponseParser)
    → p.is_parsed ≡ false
    → parse_response p ≡ ok parsed
    → get_response_item_by_batch_item_id p id
      ≡ (item_by_id parsed id parsed.response_message.batch_items >>= λ item. ok (item, parsed))
unfolding get_response_item_by_batch_item_id
by_id p id parsed fresh done = rw (ensure_fresh p fresh ∙ done)

is_fresh :
    (items : List RequestBatchItem) (pos : ℕ) (p : ResponseParser)
    → (add_hints items pos p).is_parsed ≡ p.is_parsed
unfolding add_hints
is_fresh [] pos p = refl
is_fresh (item ∷ items) pos p = is_fresh items (pos + 1) _

-- A server that echoes identifiers: in a response that is parsed, the item with the requested
-- identifier is found wherever it stands, in the order of the request or not, if no other item has
-- the same.
pub by_echoed_id :
    (bytes : List ℕ) (m : RequestMessage) (id i : ℕ) (item : ResponseBatchItem)
    (parsed : ResponseParser)
    → parse_response (create_parser_for bytes m) ≡ ok parsed
    → get_elem? parsed.response_message.batch_items i ≡ some item
    → item.unique_batch_item_id ≡ id
    → ((j : ℕ) (other : ResponseBatchItem)
        → get_elem? parsed.response_message.batch_items j ≡ some other
        → other.unique_batch_item_id ≡ id
        → j ≡ i)
    → get_response_item_by_batch_item_id (create_parser_for bytes m) id ≡ ok (item, parsed)
unfolding item_by_id create_parser_for
by_echoed_id bytes m id i item parsed done at same alone =
    by_id (create_parser_for bytes m) id parsed (is_fresh m.batch_items 0 (create_parser bytes))
      done
    ∙ rw (item_by_id, find_echoed_first parsed.response_message.batch_items id i item at same alone)

-- A server that echoes no identifier: for a request of fewer than 2^32 - 1 items that
-- `setBatchItems` has numbered, and a response that is parsed and whose items all have the
-- identifier 0, the identifier of the i-th requested item leads to the i-th item of the response,
-- and throws if the response stops before it.
pub by_position :
    (bytes : List ℕ) (items : List RequestBatchItem) (m : RequestMessage) (i : ℕ)
    (item : RequestBatchItem) (parsed : ResponseParser)
    → 1 + length items < 2 ^ 32
    → get_elem? items i ≡ some item
    → parse_response (create_parser_for bytes (set_batch_items items m)) ≡ ok parsed
    → All
        (λ (answer : ResponseBatchItem). answer.unique_batch_item_id ≡ 0)
        parsed.response_message.batch_items
    → get_response_item_by_batch_item_id (create_parser_for bytes (set_batch_items items m)) (1 + i)
      ≡ (found (get_elem? parsed.response_message.batch_items i) batch_item_id_not_found
          >>= λ answer. ok (answer, parsed))
unfolding item_by_id create_parser_for
by_position bytes items m i item parsed few at done silent =
    let answers = parsed.response_message.batch_items in
    let request = set_batch_items items m in
    let none_echoes = find_echoed-none answers (1 + i) (no_zero answers i silent) in
    by_id (create_parser_for bytes request) (1 + i) parsed
      (is_fresh request.batch_items 0 (create_parser bytes)) done
    ∙ rw (
      item_by_id,
      none_echoes,
      find_by_position,
      (parsed_maps bytes items m i item parsed few at done).1,
    )

zero_unmapped :
    (bytes : List ℕ) (items : List RequestBatchItem) (m : RequestMessage) (parsed : ResponseParser)
    → 1 + length items < 2 ^ 32
    → parse_response (create_parser_for bytes (set_batch_items items m)) ≡ ok parsed
    → lookup 0 parsed.operation_hints ≡ none
zero_unmapped bytes items m parsed few done =
    let kept = parse_response_keeps _ parsed done in
    let absent =
      lookup-add_hints_absent (numbered 1 items) 0 0 (create_parser bytes)
        (numbered_above items 1 0 (omega arith)) in
    rw (kept.0, parser_for bytes items m few) absent.0

-- For a request of fewer than 2^32 - 1 items that `setBatchItems` has numbered and whose response
-- is parsed: the operation that is reported for a response item that is asked for by the
-- identifier of the i-th requested item, and that has this identifier or 0, is its own if that is
-- not 0, and otherwise the operation requested.
pub effective_operation_lem :
    (bytes : List ℕ) (items : List RequestBatchItem) (m : RequestMessage) (i : ℕ)
    (item : RequestBatchItem) (answer : ResponseBatchItem) (parsed : ResponseParser)
    → 1 + length items < 2 ^ 32
    → get_elem? items i ≡ some item
    → parse_response (create_parser_for bytes (set_batch_items items m)) ≡ ok parsed
    → (answer.unique_batch_item_id ≡ 0) ⊎ (answer.unique_batch_item_id ≡ 1 + i)
    → effective_operation parsed answer (some (1 + i))
      ≡ (if answer.operation == 0 then item.operation else answer.operation)
unfolding effective_operation
effective_operation_lem bytes items m i item answer parsed few at done echo =
    let maps = parsed_maps bytes items m i item parsed few at done in
    let hinted : hint parsed answer.unique_batch_item_id (hint parsed (1 + i) 0) ≡ item.operation =
      elim echo [
        | inl silent ↦
            ap (λ (id : ℕ). hint parsed id (hint parsed (1 + i) 0)) silent
            ∙ rw (hint, zero_unmapped bytes items m parsed few done, maps.0)
        | inr echoed ↦
            ap (λ (id : ℕ). hint parsed id (hint parsed (1 + i) 0)) echoed ∙ rw (hint, maps.0)
      ] in
    ap (λ (op : ℕ). if answer.operation == 0 then op else answer.operation) hinted

typed_of_success {ℓ} :
    {T : Type ℓ} (read : ResponseBatchItem → Result Error T) (p : ResponseParser) (id : ℕ)
    → Holds
        (λ (answer : T × ResponseParser).
          (item : ResponseBatchItem) × (get_response_item_by_batch_item_id p id
            ≡ ok (item, answer.1))
          × (item.result_status ≡ status_success)
          × (read item ≡ ok answer.0))
        (get_response_by_batch_item_id read p id)
unfolding get_response_by_batch_item_id ensure_success
typed_of_success read p id =
    >>=-Holds _ (get_response_item_by_batch_item_id p id) _ λ (item, parsed) got.
      throw_if-Holds _ (not (item.result_status == status_success)) _ _
        λ success. >>=-Holds _ (read item) _ λ typed is. ok-Holds _ _ (item, got, ground arith, is)

-- Only an item that has succeeded is handed to the typed reader: for each response that is
-- returned there is an item with the status of success that was read as it.
pub get_response_only_success {ℓ} :
    {T : Type ℓ} (read : ResponseBatchItem → Result Error T) (p parsed : ResponseParser) (id : ℕ)
    (typed : T)
    → get_response_by_batch_item_id read p id ≡ ok (typed, parsed)
    → (item : ResponseBatchItem) × (get_response_item_by_batch_item_id p id ≡ ok (item, parsed))
      × (item.result_status ≡ status_success)
      × (read item ≡ ok typed)
get_response_only_success read p parsed id typed got =
    typed_of_success read p id (typed, parsed) got
