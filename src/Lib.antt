-- ===== src/Lib.antt =====
-- libkmip: a client library for KMIP, the protocol of key management servers. Every message is a tree
-- of elements in the TTLV encoding (tag, type, length, value). A client builds a request message of
-- batch items, `RequestMessage::serialize` turns it into a tree and the tree into bytes, `IOUtils`
-- sends the bytes over a connection and receives the framed response, and `ResponseParser` turns that
-- into items again and matches them with the items of the request. `KmipClientPool` lends connections
-- to threads. Applications hand keys over in hexadecimal or Base64.
--
-- Which file models what:
--   * Base: helpers. Boolean tests and lists on native numbers, `Result` for code that throws, the
--     rule `Holds` for what a result may be, texts as lists of character codes with maps from texts
--     (Texts), and decimal numbers with the C library's `strtol` (Decimals). Errors: one constructor
--     for each `throw`. Codes: the enumerations of kmipcore/include/kmipcore/kmip_enums.hpp.
--   * Buffer: kmipcore/src/serialization_buffer.cpp. The record has the bytes of the vector, its
--     capacity and `current_offset_`; `write_byte`, `write_bytes`, `write_padded`, `ensure_space`,
--     `expand_capacity` and the rest are its methods. Growth, Store, Writes and Limits prove.
--   * Ttlv: kmipcore/src/kmip_basics.cpp. `Element` with its variant `Value` and the items of a
--     structure. Access has the factories and readers, Bytes the big-endian words on a host of either
--     byte order, Serialize and Deserialize the two algorithms. Encode states the format itself, the
--     specification of both. The other files prove.
--   * Protocol: kmipcore/src/kmip_protocol.cpp and, in Payloads, kmipcore/src/kmip_payloads.cpp.
--     Version, Header, Item, Request, Response and Payloads have a record for each class, with
--     `toElement` and `fromElement` as `..._to_element` and `..._from_element`; Types, Numbering,
--     RequestLaws, ResponseLaws and PayloadLaws prove.
--   * Parser: kmipcore/src/response_parser.cpp. The maps of the class are lists of entries in which
--     the one made last counts. The reader of a typed response is a parameter.
--   * Exchange: kmipclient/src/IOUtils.cpp. The connection is a `NetClient` on a world of any type.
--     Streams states what is relied on of it: bytes come and go in order and are counted truly, and a
--     closed connection is not connected (`IsStream`), and, where a property says so, that it does
--     not break (`IsLive`).
--   * Pool: kmipclient/src/KmipClientPool.cpp. Each critical section is a function of the pool.
--     Machine lets threads interleave them, with connections that are made, fail or break between
--     them. A call of `notify_one` is counted.
--   * Locate: the searches of kmipclient/src/KmipClient.cpp, over a parameter that fetches a page.
--     Turns has the bodies of the loops, Paging the loops: `locate_all` merges pages and falls back
--     to `retry_loop`, which doubles the page size, and `op_all` probes with smaller pages where
--     `locate_all` may have missed some. The set of identifiers seen is a list. The other files prove.
--   * Attributes: kmipcore/src/kmip_attributes.cpp, with the names of
--     kmipcore/include/kmipcore/kmip_attribute_names.hpp in Names. A map is a list of entries, each
--     name once. AttributesParser: kmipcore/src/attributes_parser.cpp.
--   * Requests: kmipcore/src/kmip_requests.cpp, with the elements in Parts and the classes of keys in
--     Keys. Responses: kmipcore/src/kmip_responses.cpp, the typed readers of response items.
--     KeyParser: kmipcore/src/key_parser.cpp, the keys and secrets in them.
--   * Client: kmipclient/src/KmipClient.cpp, with the fetching of keys and secrets in Objects. Each
--     operation builds a request item, exchanges it and reads the typed response; the pages of Locate
--     are fetched by `locate_page` there. Sessions, Yielded, Received, Labels, Fallback,
--     Formats and Fetched prove.
--   * Encoding: kmiputil/src/Encoding.cpp.
-- The files named Runs have tests and the theorems at concrete inputs.
--
-- Numbers: a signed integer is its bit pattern, and the comparisons of int32_t are written out on it
-- (`lt_i32`). Sizes are not wrapped where a vector of that size could not exist.
--
-- Fuel: `deserialize_impl` recurses at most 65 deep, since the 66th call throws, and is given 66
-- levels. The loop over the items of a structure is given as many steps as it has bytes: each item
-- takes eight. The doubling of the capacity is given 64 steps, which pass 2 ^ 63. `send_loop` and
-- `read_loop` are given as many steps as bytes are to be moved, since each step moves one at least.
-- `retry_loop` is given a step more than a size_t has bits, since it doubles the page size; the loops
-- over pages are given the number of batches that the code limits them to. `out_of_fuel` is no
-- exception of the program.
--
-- Not modelled: the scrubbing of memory and logging, which values do not show; OpenSSL, sockets and
-- key files; certificates and the classes of keys that wrap OpenSSL; the construction and moves of
-- the client object; the printing of messages for logs, except for the names of usage masks. Null
-- pointers to elements, which no caller passes. The texts of exceptions.
pub mod Base
pub mod Errors
pub mod Codes
pub mod Buffer
pub mod Ttlv
pub mod Protocol
pub mod Parser
pub mod Exchange
pub mod Pool
pub mod Locate
pub mod Attributes
pub mod AttributesParser
pub mod Requests
pub mod Responses
pub mod KeyParser
pub mod Client
pub mod Encoding
