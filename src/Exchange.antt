-- ===== src/Exchange.antt =====
-- kmipclient/src/IOUtils.cpp: one request and its response over a connection. The connection is an
-- implementation of `NetClient`, of kmipclient/include/kmipclient/NetClient.hpp, here the operations
-- on a world `W`. Logging, which never throws, is left out.
pub mod Streams
pub mod Frames
pub mod Safety
pub mod Runs
use libkmip.Base.{
  ℕ, zero, suc, ◌+◌, ◌-◌, ◌*◌, ◌%◌, ◌^◌, ◌≤◌, ◌<◌, ◌≡◌, Bool, true, false, not, ◌||◌, List, [], ◌∷◌,
  ◌++◌, Result, ok, err, ◌==◌, ltb, leb, if◌then◌else◌, length, get_or, drop, le_i32,
}
use libkmip.Errors.{
  Error, empty_request, cannot_send, connection_closed, message_too_long, io_timeout, out_of_fuel,
}

-- What `send` returns: a positive number of bytes, or a number that is not positive; or it throws,
-- which it does when the time is over.
pub data Sent : Type 0 where
  sent : ℕ → Sent
  not_sent : Sent
  send_throws : Sent

-- What `recv` returns: the bytes that it puts into the buffer, or a number that is not positive; or
-- it throws.
pub data Received : Type 0 where
  received : List ℕ → Received
  not_received : Received
  recv_throws : Received

-- `recv` is told the size of the buffer.
pub record NetClient (W : Type 0) : Type 0 where
  pub send_bytes : List ℕ → W → Sent × W
  pub recv_bytes : ℕ → W → Received × W
  pub close : W → W
  pub is_connected : W → Bool

-- KMIP_MSG_LENGTH_BYTES
abbrev pub length_bytes : ℕ
length_bytes = 8

-- KMIP_MAX_MESSAGE_HARD_LIMIT
abbrev pub hard_limit : ℕ
hard_limit = 16 * 1024 * 1024

-- The four bytes, as the bit pattern of an int32_t.
abbrev pub read_int32_be : List ℕ → ℕ
read_int32_be bytes =
    get_or bytes 0 0 * 2 ^ 24
    + get_or bytes 1 0 * 2 ^ 16
    + get_or bytes 2 0 * 2 ^ 8
    + get_or bytes 3 0

-- `std::min`
abbrev pub smaller : ℕ → ℕ → ℕ
smaller a b = if ltb b a then b else a

-- An operation ends with a value or a throw, and with the world it leaves.
abbrev pub Io : Type 0 → Type 0 → Type 0
Io W A = W → Result Error A × W

abbrev pub and_then : {W A B : Type 0} → Result Error A × W → (A → Io W B) → Result Error B × W
and_then (ok a, w) f = f a w
and_then (err e, w) f = (err e, w)

infixl 5 ◌>>>=◌
abbrev pub ◌>>>=◌ : {W A B : Type 0} → Io W A → (A → Io W B) → Io W B
(io >>>= f) w = and_then (io w) f

-- What the two loops make of a reply: they throw, or go on.
abbrev pub after_send : {W A : Type 0} → Sent × W → (ℕ → Io W A) → Result Error A × W
after_send (sent n, w) go_on = go_on n w
after_send (not_sent, w) go_on = (err cannot_send, w)
after_send (send_throws, w) go_on = (err io_timeout, w)

abbrev pub after_recv : {W A : Type 0} → Received × W → (List ℕ → Io W A) → Result Error A × W
after_recv (received more, w) go_on = go_on more w
after_recv (not_received, w) go_on = (err connection_closed, w)
after_recv (recv_throws, w) go_on = (err io_timeout, w)

module _ {W : Type 0} (net : NetClient W) where
  -- `while (total_sent < dlen)`
  unfoldable pub send_loop : ℕ → ℕ → ℕ → List ℕ → Io W (Unit {0})
  send_loop zero dlen total_sent bytes w =
      (if ltb total_sent dlen then err out_of_fuel else ok tt, w)
  send_loop (suc fuel) dlen total_sent bytes w =
      if ltb total_sent dlen
      then after_send (net.send_bytes (drop total_sent bytes) w)
          (λ n. send_loop fuel dlen (total_sent + n) bytes)
      else (ok tt, w)

  unfoldable pub send : List ℕ → Io W (Unit {0})
  send bytes w =
      let dlen = length bytes % 2 ^ 32 in
      if le_i32 dlen 0 then (err empty_request, w) else send_loop dlen dlen 0 bytes w

  -- `while (total_read < n)`, with the bytes read so far.
  unfoldable pub read_loop : ℕ → ℕ → List ℕ → Io W (List ℕ)
  read_loop zero n bytes w = (if ltb (length bytes) n then err out_of_fuel else ok bytes, w)
  read_loop (suc fuel) n bytes w =
      if ltb (length bytes) n
      then after_recv (net.recv_bytes (n - length bytes) w)
          (λ more. read_loop fuel n (bytes ++ more))
      else (ok bytes, w)

  unfoldable pub read_exact : ℕ → Io W (List ℕ)
  read_exact n = read_loop n n []

  unfoldable pub receive_body : ℕ → List ℕ → Io W (List ℕ)
  receive_body max_message_size msg_len_buf w =
      let len = read_int32_be (drop 4 msg_len_buf) in
      let effective_limit = smaller max_message_size hard_limit in
      if leb (2 ^ 31) len || ltb effective_limit len
      then (err message_too_long, w)
      else (read_exact len >>>= λ body w'. (ok (msg_len_buf ++ body), w')) w

  unfoldable pub receive_message : ℕ → Io W (List ℕ)
  receive_message max_message_size = read_exact length_bytes >>>= receive_body max_message_size

  -- `catch (const KmipIOException &)`: each of the throws inside is one.
  abbrev pub close_on_throw : {A : Type 0} → Result Error A × W → Result Error A × W
  close_on_throw (ok a, w) = (ok a, w)
  close_on_throw (err e, w) = (err e, net.close w)

  unfoldable pub do_exchange : List ℕ → ℕ → Io W (List ℕ)
  do_exchange request max_message_size w =
      close_on_throw ((send request >>>= λ _. receive_message max_message_size) w)
