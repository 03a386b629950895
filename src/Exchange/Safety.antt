-- ===== src/Exchange/Safety.antt =====
-- An exchange over any connection, also one that breaks: it ends, what it accepts is bounded, and
-- after a failure the connection is closed.
use libkmip.Base.{
  ℕ, zero, suc, ◌+◌, ◌-◌, ◌%◌, ◌^◌, ◌≤◌, ◌≡◌, ◌≢◌, refl, arith, Bool, true, false, ◌||◌, List, [],
  ◌++◌, Result, ok, err, ltb, leb, le_i32, if◌then◌else◌, length, length-append, drop, le→ltb,
  ltb→lt,
}
use libkmip.Errors.{Error, out_of_fuel}
use libkmip.Exchange.{
  NetClient, Received, received, not_received, recv_throws, Sent, sent, not_sent, send_throws,
  after_recv, after_send, read_loop, read_exact, send, send_loop, receive_body, receive_message,
  do_exchange, and_then, close_on_throw, Io, length_bytes,
}
use libkmip.Exchange.Streams.{IsStream}
use libkmip.Exchange.Frames.{announced, limit}

module _ {W A : Type 0} (P : A → W → Type 0) (Q : W → Type 0) where
  -- A value has `P`, and an exception of the program leaves a world with `Q`.
  abbrev pub Outcome : Result Error A × W → Type 0
  Outcome (ok a, w) = P a w
  Outcome (err e, w) = (e ≢ out_of_fuel) × Q w

abbrev pub Anything : {W : Type 0} → W → Type 0
Anything w = Unit {0}

module _ {W A : Type 0} (P : A → W → Type 0) where
  pub if-Outcome :
      (t : Bool) (x y : Result Error A × W)
      → (t ≡ true → Outcome P Anything x)
      → (t ≡ false → Outcome P Anything y)
      → Outcome P Anything (if t then x else y)
  if-Outcome true x y h k = h refl
  if-Outcome false x y h k = k refl

  after_recv-Outcome :
      (reply : Received × W) (go_on : List ℕ → Io W A)
      → ((more : List ℕ) (w : W) → reply ≡ (received more, w) → Outcome P Anything (go_on more w))
      → Outcome P Anything (after_recv reply go_on)
  after_recv-Outcome (received more, w) go_on h = h more w refl
  after_recv-Outcome (not_received, w) go_on h = (λ e. cc, tt)
  after_recv-Outcome (recv_throws, w) go_on h = (λ e. cc, tt)

  after_send-Outcome :
      (reply : Sent × W) (go_on : ℕ → Io W A)
      → ((n : ℕ) (w : W) → reply ≡ (sent n, w) → Outcome P Anything (go_on n w))
      → Outcome P Anything (after_send reply go_on)
  after_send-Outcome (sent n, w) go_on h = h n w refl
  after_send-Outcome (not_sent, w) go_on h = (λ e. cc, tt)
  after_send-Outcome (send_throws, w) go_on h = (λ e. cc, tt)

  pub and_then-Outcome :
      {B : Type 0} (R : B → W → Type 0) (r : Result Error B × W) (f : B → Io W A)
      → Outcome R Anything r
      → ((b : B) (w : W) → R b w → Outcome P Anything (f b w))
      → Outcome P Anything (and_then r f)
  and_then-Outcome R (ok b, w) f h k = k b w h
  and_then-Outcome R (err e, w) f h k = h

allowed : (max len : ℕ) → (leb (2 ^ 31) len || ltb (limit max) len) ≡ false → len ≤ limit max
allowed max len h = ground arith

module _ {W : Type 0} (net : NetClient W) (incoming outgoing : W → List ℕ)
    (stream : IsStream net incoming outgoing) where
  -- The value is a list of `n` bytes.
  abbrev HasSize : ℕ → List ℕ → W → Type 0
  HasSize n out w = length out ≡ n

  read_loop-Outcome :
      (fuel n : ℕ) (bytes : List ℕ) (w : W)
      → length bytes ≤ n
      → n ≤ length bytes + fuel
      → Outcome (HasSize n) Anything (read_loop net fuel n bytes w)
  unfolding read_loop
  read_loop-Outcome zero n bytes w h few = rw (le→ltb (length bytes) n (omega arith)) (omega arith)
  read_loop-Outcome (suc fuel) n bytes w h few =
      if-Outcome (HasSize n) (ltb (length bytes) n) _ _
        (λ more.
          let here = ltb→lt (length bytes) n more in
          after_recv-Outcome (HasSize n) (net.recv_bytes (n - length bytes) w) _ λ piece w' got.
            let (order, some_byte, fits, quiet) =
              stream.received_in_order (n - length bytes) w w' piece got in
            read_loop-Outcome fuel n (bytes ++ piece) w'
              (omega (arith, length-append bytes piece, fits))
              (omega (arith, length-append bytes piece, some_byte)))
        (λ no_more. ground arith)

  send_loop-Outcome :
      (fuel dlen total : ℕ) (bytes : List ℕ) (w : W)
      → dlen ≤ total + fuel
      → Outcome (λ _. Anything) Anything (send_loop net fuel dlen total bytes w)
  unfolding send_loop
  send_loop-Outcome zero dlen total bytes w few = rw (le→ltb total dlen (omega arith)) tt
  send_loop-Outcome (suc fuel) dlen total bytes w few =
      if-Outcome (λ _. Anything) (ltb total dlen) _ _
        (λ more.
          after_send-Outcome (λ _. Anything) (net.send_bytes (drop total bytes) w) _
            λ n w' done.
              let (order, some_byte, fits, quiet) =
                stream.sent_in_order (drop total bytes) w w' n done in
              send_loop-Outcome fuel dlen (total + n) bytes w' (omega (arith, some_byte)))
        (λ no_more. tt)

  -- A response is at most its head and the limit.
  abbrev pub IsBounded : ℕ → List ℕ → W → Type 0
  IsBounded max out w = length out ≤ length_bytes + limit max

  receive_body-Outcome :
      (max : ℕ) (head : List ℕ) (w : W)
      → length head ≡ length_bytes
      → Outcome (IsBounded max) Anything (receive_body net max head w)
  unfolding receive_body read_exact
  receive_body-Outcome max head w eight =
      if-Outcome (IsBounded max) (leb (2 ^ 31) (announced head) || ltb (limit max) (announced head))
        _ _ (λ refused. (λ e. cc, tt))
        (λ accepted.
          and_then-Outcome (IsBounded max) (HasSize (announced head)) _ _
            (read_loop-Outcome (announced head) (announced head) [] w (omega arith) (omega arith))
            (λ body w' size.
              let few : announced head ≤ limit max = allowed max (announced head) accepted in
              omega (arith, length-append head body, size, few, eight)))

  close_on_throw-Outcome :
      (P : List ℕ → W → Type 0) (r : Result Error (List ℕ) × W)
      → Outcome P Anything r
      → Outcome P (λ w. net.is_connected w ≡ false) (close_on_throw net r)
  close_on_throw-Outcome P (ok a, w) h = h
  close_on_throw-Outcome P (err e, w) h = (h.0, stream.closed w)

  -- Over any connection that keeps bytes in order, also one that breaks, an exchange ends: with a
  -- response of at most its head and the smaller of the limit asked for and 16 MiB, or with an
  -- exception of the program, and then the connection is closed.
  pub do_exchange_safe :
      (request : List ℕ) (max : ℕ) (w : W)
      → Outcome
          (λ response _. length response ≤ length_bytes + limit max)
          (λ w'. net.is_connected w' ≡ false)
          (do_exchange net request max w)
  unfolding do_exchange send receive_message read_exact
  do_exchange_safe request max w = close_on_throw-Outcome (IsBounded max) _ (
      and_then-Outcome (IsBounded max) (λ _. Anything) (send net request w) _
        (if-Outcome (λ _. Anything) (le_i32 (length request % 2 ^ 32) 0) _ _
          (λ empty. (λ e. cc, tt))
          (λ some_byte.
            send_loop-Outcome (length request % 2 ^ 32) (length request % 2 ^ 32) 0 request w
              (omega arith)))
        (λ _ w1 _.
          and_then-Outcome (IsBounded max) (HasSize length_bytes) _ _
            (read_loop-Outcome length_bytes length_bytes [] w1 (omega arith) (omega arith))
            (λ head w2 eight. receive_body-Outcome max head w2 eight)))
