-- ===== src/Exchange/Frames.antt =====
-- A framed response and a whole exchange.
use libkmip.Base.{
  ℕ, ◌%◌, ◌^◌, ◌≤◌, ◌<◌, ◌≡◌, refl, sym, ap, ◌∙◌, arith, false, ◌||◌, List, [], ◌++◌, append_assoc,
  Result, ok, ltb, leb, le_i32, length, drop, le→ltb, lt→leb, if_false,
}
use libkmip.Errors.{Error}
use libkmip.Exchange.{
  NetClient, read_exact, send, send_loop, receive_body, receive_message, do_exchange, read_int32_be,
  smaller, hard_limit, length_bytes, ◌>>>=◌, and_then, close_on_throw, Io,
}
use libkmip.Exchange.Streams.{IsStream, IsLive, read_loop_lem, send_loop_lem}

-- The length that a message head announces.
abbrev pub announced : List ℕ → ℕ
announced head = read_int32_be (drop 4 head)

-- The largest length that is accepted.
abbrev pub limit : ℕ → ℕ
limit max_message_size = smaller max_message_size hard_limit

module _ {W A B : Type 0} where
  pub after_ok :
      (io : Io W A) (f : A → Io W B) (w w' : W) (a : A) → io w ≡ (ok a, w') → (io >>>= f) w ≡ f a w'
  after_ok io f w w' a h = ap (λ (x : Result Error A × W). and_then x f) h

module _ {W : Type 0} (net : NetClient W) (incoming outgoing : W → List ℕ)
    (stream : IsStream net incoming outgoing) (live : IsLive net incoming outgoing) where
  read_exact_lem :
      (n : ℕ) (body rest : List ℕ) (w : W)
      → incoming w ≡ body ++ rest
      → length body ≡ n
      → (w' : W) × (read_exact net n w ≡ (ok body, w'))
        × (incoming w' ≡ rest)
        × (outgoing w' ≡ outgoing w)
  unfolding read_exact
  read_exact_lem n body rest w h size =
      read_loop_lem net incoming outgoing stream live n n [] body rest w h (omega (arith, size))
        (omega (arith, size))

  receive_body_lem :
      (max : ℕ) (head body rest : List ℕ) (w : W)
      → incoming w ≡ body ++ rest
      → announced head ≡ length body
      → length body ≤ limit max
      → (w' : W) × (receive_body net max head w ≡ (ok (head ++ body), w'))
        × (incoming w' ≡ rest)
        × (outgoing w' ≡ outgoing w)
  unfolding receive_body
  receive_body_lem max head body rest w h size few =
      let (w', read, left, quiet) = read_exact_lem (announced head) body rest w h (sym size) in
      let cap : limit max ≤ hard_limit = ground arith in
      let small : leb (2 ^ 31) (announced head) ≡ false = lt→leb _ _ (omega (arith, size, cap)) in
      let allowed : ltb (limit max) (announced head) ≡ false = le→ltb _ _ (omega (arith, size)) in
      (
        w',
        if_false (leb (2 ^ 31) (announced head) || ltb (limit max) (announced head)) _ _
              (rw (small, allowed))
            ∙ after_ok (read_exact net (announced head)) _ w w' body read,
        left,
        quiet,
      )

  -- A response is received whole, and nothing behind it, in however many pieces the connection brings
  -- it, if its head announces the length of its body and that is within both limits.
  pub receive_message_lem :
      (max : ℕ) (head body rest : List ℕ) (w : W)
      → incoming w ≡ (head ++ body) ++ rest
      → length head ≡ length_bytes
      → announced head ≡ length body
      → length body ≤ limit max
      → (w' : W) × (receive_message net max w ≡ (ok (head ++ body), w'))
        × (incoming w' ≡ rest)
        × (outgoing w' ≡ outgoing w)
  unfolding receive_message
  receive_message_lem max head body rest w h eight size few =
      let (w1, first, behind, quiet) =
        read_exact_lem length_bytes head (body ++ rest) w (h ∙ append_assoc head body rest) eight in
      let (w2, second, left, still) = receive_body_lem max head body rest w1 behind size few in
      (
        w2,
        after_ok (read_exact net length_bytes) (receive_body net max) w w1 head first ∙ second,
        left,
        still ∙ quiet,
      )

  send_is :
      (request : List ℕ) (w : W)
      → 0 < length request
      → length request < 2 ^ 31
      → send net request w ≡ send_loop net (length request) (length request) 0 request w
  unfolding send
  send_is request w some_byte fits =
      let whole : length request % 2 ^ 32 ≡ length request = omega arith in
      let nonempty : le_i32 (length request) 0 ≡ false = ground arith in rw (whole, nonempty)

  send_lem :
      (request : List ℕ) (w : W)
      → 0 < length request
      → length request < 2 ^ 31
      → (w' : W) × (send net request w ≡ (ok tt, w'))
        × (outgoing w' ≡ outgoing w ++ request)
        × (incoming w' ≡ incoming w)
  send_lem request w some_byte fits =
      let (w', sent, out, still) =
        send_loop_lem net incoming outgoing stream live (length request) (length request) 0 request
          w refl (omega arith) (omega arith) in
      (w', send_is request w some_byte fits ∙ sent, out, still)

  -- Over a connection that keeps bytes in order and does not break, and that takes and brings them
  -- in pieces of any size: a request of at least one and fewer than 2^31 bytes arrives whole at
  -- the peer, and if the peer has sent a head of eight bytes that announces the length of the body
  -- behind it, within both limits, head and body are returned, and what stands behind them is
  -- left.
  pub do_exchange_lem :
      (max : ℕ) (request head body rest : List ℕ) (w : W)
      → 0 < length request
      → length request < 2 ^ 31
      → incoming w ≡ (head ++ body) ++ rest
      → length head ≡ length_bytes
      → announced head ≡ length body
      → length body ≤ limit max
      → (w' : W) × (do_exchange net request max w ≡ (ok (head ++ body), w'))
        × (outgoing w' ≡ outgoing w ++ request)
        × (incoming w' ≡ rest)
  unfolding do_exchange
  do_exchange_lem max request head body rest w some_byte fits h eight size few =
      let (w1, sent, out, waiting) = send_lem request w some_byte fits in
      let (w2, got, left, quiet) =
        receive_message_lem max head body rest w1 (waiting ∙ h) eight size few in
      let both = after_ok (send net request) (λ _. receive_message net max) w w1 tt sent ∙ got in
      (w2, ap (close_on_throw net) both, quiet ∙ out, left)
