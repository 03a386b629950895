-- ===== src/Client/Runs.antt =====
-- One operation over a connection that moves one byte at a time.
use libkmip.Base.{
  ℕ, zero, suc, ◌≡◌, ◌≤◌, ◌+◌, ◌^◌, ◌%◌, refl, arith, true, [], ◌∷◌, ◌++◌, length, get_elem?, some,
  Result, ok, ◌>>=◌,
}
use libkmip.Errors.{Error}
use libkmip.Ttlv.{Items}
use libkmip.Ttlv.Access.{create_structure}
use libkmip.Ttlv.Bytes.{Endian}
use libkmip.Ttlv.Encode.{encode, encode_items, IsWire, height}
use libkmip.Ttlv.Deserialize.{deserialize, max_structure_depth}
use libkmip.Buffer.Store.{safe_size}
use libkmip.Protocol.Tags.{tag_response_message}
use libkmip.Protocol.Children.{collect}
use libkmip.Protocol.Version.{version_1_4, version_to_element, validate_types, validate_items}
use libkmip.Protocol.Header.{
  default_request_header, response_header_to_element, request_header_to_element,
}
use libkmip.Protocol.Item.{ResponseBatchItem, request_item_to_element, response_item_to_element}
use libkmip.Protocol.Request.{
  RequestMessage, add_batch_item, sent_header, request_structure, request_to_element,
  request_from_element, get_max_response_size,
}
use libkmip.Protocol.Response.{ResponseMessage, response_to_element}
use libkmip.Protocol.Runs.{query, one_answer, answer}
use libkmip.Parser.{ResponseParser}
use libkmip.Exchange.Frames.{limit}
use libkmip.Exchange.Runs.{World, trickle, incoming, outgoing, trickle-IsStream, trickle-IsLive}
use libkmip.Client.{perform_in}
use libkmip.Client.Sessions.{judged, perform_in_lem}

abbrev echo : ResponseBatchItem
echo = record answer { unique_batch_item_id = 1 }

abbrev response : ResponseMessage
response = record one_answer { batch_items = echo ∷ [] }

abbrev sized : RequestMessage
sized = record {
  header = record default_request_header { maximum_response_size = some 8192 };
  batch_items = [];
  next_batch_item_id = 1;
}

abbrev asked : RequestMessage
asked = record {
  header = record default_request_header { maximum_response_size = some 8192 };
  batch_items = record query { unique_batch_item_id = 1 } ∷ [];
  next_batch_item_id = 2;
}

added : add_batch_item query sized ≡ (1, asked)
unfolding add_batch_item
added = refl

abbrev stamped : RequestMessage
stamped = record asked { header = sent_header 1700000000 asked }

stamped_sent : request_to_element stamped ≡ ok (request_structure stamped)
unfolding sent_header request_to_element validate_types validate_items request_header_to_element
    request_item_to_element version_to_element
stamped_sent = refl

stamped-IsWire : IsWire (request_structure stamped)
unfolding sent_header encode request_header_to_element request_item_to_element version_to_element
stamped-IsWire = omega arith

stamped_sizes :
    (height (request_structure stamped) ≤ max_structure_depth)
    × (length (encode (request_structure stamped)) ≤ safe_size)
unfolding sent_header encode request_header_to_element request_item_to_element version_to_element
stamped_sizes = (omega arith, omega arith)

abbrev children : Items
children =
    collect (
      some (response_header_to_element response.header) ∷ some (response_item_to_element echo) ∷ [])

replied : response_to_element response ≡ ok (create_structure tag_response_message children)
unfolding response_to_element validate_types validate_items response_header_to_element
    response_item_to_element version_to_element
replied = refl

replied-IsWire : IsWire (create_structure tag_response_message children)
unfolding encode version_to_element response_header_to_element response_item_to_element
replied-IsWire = omega arith

replied_sizes :
    (height (create_structure tag_response_message children) ≤ max_structure_depth)
    × (length (encode_items children) ≤ limit (get_max_response_size asked))
unfolding encode version_to_element response_header_to_element response_item_to_element
    get_max_response_size
replied_sizes = (omega arith, omega arith)

only_echo :
    (j : ℕ) (other : ResponseBatchItem)
    → get_elem? (echo ∷ []) j ≡ some other
    → other.unique_batch_item_id ≡ 1
    → j ≡ 0
only_echo zero other at same = refl
only_echo (suc j) other at same = cc

-- The response, and a byte that follows it.
abbrev waiting : World
waiting = (encode (create_structure tag_response_message children) ++ (9 ∷ []), [], true)

abbrev read_status : ResponseBatchItem → Result Error ℕ
read_status item = ok item.result_status

perform_in_lem_example :
    (w' : World) × (parsed : ResponseParser) × (parsed.response_message ≡ response)
    × (perform_in trickle Endian.little
          (λ w. 1700000000)
          version_1_4
          sized
          query
          read_status
          waiting
        ≡ (judged read_status parsed 1 echo, w'))
    × (outgoing w' ≡ [] ++ encode (request_structure stamped))
    × (incoming w' ≡ 9 ∷ [])
    × ((deserialize (encode (request_structure stamped)) 0 >>= λ got. request_from_element got.0)
        ≡ ok (record stamped { next_batch_item_id = (1 + 1) % 2 ^ 32 }))
perform_in_lem_example =
    perform_in_lem trickle incoming outgoing trickle-IsStream trickle-IsLive Endian.little
      (λ w. 1700000000) version_1_4 sized query read_status (request_structure stamped) response
      children 0 echo (9 ∷ []) waiting 1 asked added ((omega arith, tt), tt) stamped_sent
      stamped-IsWire stamped_sizes.0 stamped_sizes.1 ((omega arith, refl, refl), tt) refl replied
      replied-IsWire replied_sizes.0 replied_sizes.1 refl refl refl only_echo
