-- ===== src/Exchange/Streams.antt =====
-- What the documentation of `NetClient` promises of a connection, and reading from it.
use libkmip.Base.{
  ℕ, zero, suc, ◌+◌, ◌-◌, ◌≤◌, ◌<◌, ◌≡◌, inl, inr, refl, sym, ap, ap₂, ◌∙◌, arith, false, List, [],
  ◌∷◌, ◌++◌, append_assoc, append-nil, Result, ok, ltb, length, length-append, length-drop, drop,
  drop-drop, drop_all, ltb→lt, le→ltb, lt→ltb, Bool-cases,
}
use libkmip.Errors.{Error}
use libkmip.Exchange.{NetClient, received, sent, send_loop, read_loop}

module _ {W : Type 0} (net : NetClient W) (incoming outgoing : W → List ℕ) where
  -- `incoming` are the bytes that the peer sends and that are still to be received, `outgoing` those
  -- that have been sent to it. Bytes come and go in order, none is lost, and as many as are reported.
  pub record IsStream : Type 0 where
    pub received_in_order :
        (n : ℕ) (w w' : W) (more : List ℕ)
        → net.recv_bytes n w ≡ (received more, w')
        → (incoming w ≡ more ++ incoming w')
          × (0 < length more)
          × (length more ≤ n)
          × (outgoing w' ≡ outgoing w)
    pub sent_in_order :
        (bytes : List ℕ) (w w' : W) (n : ℕ)
        → net.send_bytes bytes w ≡ (sent n, w')
        → (outgoing w' ++ drop n bytes ≡ outgoing w ++ bytes)
          × (0 < n)
          × (n ≤ length bytes)
          × (incoming w' ≡ incoming w)
    pub closed : (w : W) → net.is_connected (net.close w) ≡ false

  -- The connection does not break, and brings what the peer sends in pieces of any size.
  pub record IsLive : Type 0 where
    pub receives :
        (n : ℕ) (w : W)
        → 0 < n
        → 0 < length (incoming w)
        → (more : List ℕ) × (w' : W) × (net.recv_bytes n w ≡ (received more, w'))
    pub sends :
        (bytes : List ℕ) (w : W)
        → 0 < length bytes
        → (n : ℕ) × (w' : W) × (net.send_bytes bytes w ≡ (sent n, w'))

-- A shorter prefix of a list is a prefix of a longer one.
module _ {A : Type 0} where
  pub shorter_prefix :
      (more body x rest : List A)
      → body ++ rest ≡ more ++ x
      → length more ≤ length body
      → (body ≡ more ++ drop (length more) body) × (x ≡ drop (length more) body ++ rest)
  shorter_prefix [] body x rest h le = (refl, sym h)
  shorter_prefix (m ∷ more) [] x rest h le = absurd (omega arith)
  shorter_prefix (m ∷ more) (b ∷ body) x rest h le =
      let same : b ≡ m = cc h in
      let tails : body ++ rest ≡ more ++ x = cc h in
      let (prefix, remains) = shorter_prefix more body x rest tails (omega arith) in
      (ap₂ (λ (y : A) (ys : List A). y ∷ ys) same prefix, remains)

module _ {W : Type 0} (net : NetClient W) where
  pub read_done :
      (fuel n : ℕ) (bytes : List ℕ) (w : W)
      → n ≤ length bytes
      → read_loop net fuel n bytes w ≡ (ok bytes, w)
  unfolding read_loop
  read_done zero n bytes w h = rw (le→ltb (length bytes) n h)
  read_done (suc fuel) n bytes w h = rw (le→ltb (length bytes) n h)

  pub read_more :
      (fuel n : ℕ) (bytes more : List ℕ) (w w' : W)
      → length bytes < n
      → net.recv_bytes (n - length bytes) w ≡ (received more, w')
      → read_loop net (suc fuel) n bytes w ≡ read_loop net fuel n (bytes ++ more) w'
  unfolding read_loop
  read_more fuel n bytes more w w' h got = rw (lt→ltb (length bytes) n h, got)

  pub send_done :
      (fuel dlen total : ℕ) (bytes : List ℕ) (w : W)
      → dlen ≤ total
      → send_loop net fuel dlen total bytes w ≡ (ok tt, w)
  unfolding send_loop
  send_done zero dlen total bytes w h = rw (le→ltb total dlen h)
  send_done (suc fuel) dlen total bytes w h = rw (le→ltb total dlen h)

  pub send_more :
      (fuel dlen total n : ℕ) (bytes : List ℕ) (w w' : W)
      → total < dlen
      → net.send_bytes (drop total bytes) w ≡ (sent n, w')
      → send_loop net (suc fuel) dlen total bytes w ≡ send_loop net fuel dlen (total + n) bytes w'
  unfolding send_loop
  send_more fuel dlen total n bytes w w' h done = rw (lt→ltb total dlen h, done)

joined :
    {W : Type 0} {x y : Result Error (List ℕ) × W} {bytes out : List ℕ} {w : W}
    → x ≡ y
    → y ≡ (ok bytes, w)
    → bytes ≡ out
    → x ≡ (ok out, w)
joined {w = w} first read whole = first ∙ read ∙ ap (λ (x : List ℕ). (ok x, w)) whole

module _ {W : Type 0} (net : NetClient W) (incoming outgoing : W → List ℕ)
    (stream : IsStream net incoming outgoing) (live : IsLive net incoming outgoing) where
  -- If the peer has sent the bytes that are missing, they are read, in however many pieces they come.
  pub read_loop_lem :
      (fuel n : ℕ) (bytes body rest : List ℕ) (w : W)
      → incoming w ≡ body ++ rest
      → length bytes + length body ≡ n
      → length body ≤ fuel
      → (w' : W) × (read_loop net fuel n bytes w ≡ (ok (bytes ++ body), w'))
        × (incoming w' ≡ rest)
        × (outgoing w' ≡ outgoing w)
  read_loop_lem fuel n bytes [] rest w h size few = (
    w,
    read_done net fuel n bytes w (omega (arith, size))
        ∙ ap (λ (x : List ℕ). (ok x, w)) (sym (append-nil bytes)),
    h,
    refl,
  )
  read_loop_lem zero n bytes (b ∷ body) rest w h size few = absurd (omega arith)
  read_loop_lem (suc fuel) n bytes (b ∷ body) rest w h size few =
      let missing = b ∷ body in
      let here : length (incoming w) ≡ suc (length body + length rest) =
        ap length h ∙ omega (arith, length-append missing rest) in
      let (more, w', got) =
        live.receives (n - length bytes) w (omega (arith, size)) (omega (arith, here)) in
      let (order, some_byte, fits, quiet) =
        stream.received_in_order (n - length bytes) w w' more got in
      let (prefix, remains) =
        shorter_prefix more missing (incoming w') rest (sym h ∙ order)
          (omega (arith, fits, size)) in
      let (w'', read, left, still) =
        read_loop_lem fuel n (bytes ++ more) (drop (length more) missing) rest w' remains
          (omega (arith, length-append bytes more, length-drop (length more) missing, fits, size))
          (omega (arith, length-drop (length more) missing, some_byte)) in
      let whole : (bytes ++ more) ++ drop (length more) missing ≡ bytes ++ missing =
        append_assoc bytes more (drop (length more) missing)
        ∙ ap (λ (x : List ℕ). bytes ++ x) (sym prefix) in
      let first = read_more net fuel n bytes more w w' (omega (arith, size)) got in
      (w'', joined first read whole, left, still ∙ quiet)

  all_sent :
      (fuel dlen total : ℕ) (bytes : List ℕ) (w : W)
      → length bytes ≡ dlen
      → dlen ≤ total
      → (w' : W) × (send_loop net fuel dlen total bytes w ≡ (ok tt, w'))
        × (outgoing w' ≡ outgoing w ++ drop total bytes)
        × (incoming w' ≡ incoming w)
  all_sent fuel dlen total bytes w size done =
      let none_left : drop total bytes ≡ [] = drop_all bytes total (omega (arith, size)) in
      (
        w,
        send_done net fuel dlen total bytes w done,
        rw none_left (sym (append-nil (outgoing w))),
        refl,
      )

  -- The rest of the request is sent, in however many pieces it is taken.
  pub send_loop_lem :
      (fuel dlen total : ℕ) (bytes : List ℕ) (w : W)
      → length bytes ≡ dlen
      → dlen ≤ total + fuel
      → total ≤ dlen
      → (w' : W) × (send_loop net fuel dlen total bytes w ≡ (ok tt, w'))
        × (outgoing w' ≡ outgoing w ++ drop total bytes)
        × (incoming w' ≡ incoming w)
  send_loop_lem zero dlen total bytes w size few le =
      all_sent zero dlen total bytes w size (omega arith)
  send_loop_lem (suc fuel) dlen total bytes w size few le = elim (Bool-cases (ltb total dlen)) [
    | inl more ↦
        let here : total < dlen = ltb→lt total dlen more in
        let left : length (drop total bytes) ≡ dlen - total =
          omega (arith, length-drop total bytes, size) in
        let (n, w', done) = live.sends (drop total bytes) w (omega (arith, left)) in
        let (order, some_byte, fits, quiet) = stream.sent_in_order (drop total bytes) w w' n done in
        let (w'', rest, out, still) =
          send_loop_lem fuel dlen (total + n) bytes w' size (omega arith)
            (omega (arith, fits, left)) in
        (
          w'',
          send_more net fuel dlen total n bytes w w' here done ∙ rest,
          out ∙ ap (λ (x : List ℕ). outgoing w' ++ x) (sym (drop-drop n total bytes)) ∙ order,
          still ∙ quiet,
        )
    | inr no_more ↦ all_sent (suc fuel) dlen total bytes w size (ground arith)
  ]
