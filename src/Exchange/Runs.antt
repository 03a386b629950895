-- ===== src/Exchange/Runs.antt =====
-- A connection that takes and brings one byte at a time, and an exchange over it.
use libkmip.Base.{
  ℕ, zero, suc, ◌+◌, ◌≤◌, ◌<◌, ◌≡◌, refl, ap, subst, arith, Bool, true, false, List, [], ◌∷◌, ◌++◌,
  append_assoc, ok, length, drop,
}
use libkmip.Exchange.{
  NetClient, Sent, sent, not_sent, Received, received, not_received, do_exchange, length_bytes,
}
use libkmip.Exchange.Streams.{IsStream, IsLive}
use libkmip.Exchange.Frames.{do_exchange_lem, limit}
use libkmip.Exchange.Safety.{Outcome, do_exchange_safe}

-- The bytes to be received, the bytes sent, and whether the connection is open.
abbrev pub World : Type 0
World = List ℕ × List ℕ × Bool

abbrev send_one : List ℕ → World → Sent × World
send_one [] w = (not_sent, w)
send_one (b ∷ bytes) (i, o, up) = (sent 1, (i, o ++ (b ∷ []), up))

abbrev recv_one : ℕ → World → Received × World
recv_one zero w = (not_received, w)
recv_one (suc n) ([], o, up) = (not_received, ([], o, up))
recv_one (suc n) (b ∷ i, o, up) = (received (b ∷ []), (i, o, up))

abbrev pub trickle : NetClient World
trickle = record {
  send_bytes = send_one;
  recv_bytes = recv_one;
  close = λ w. (w.0, w.1, false);
  is_connected = λ w. w.2;
}

abbrev pub incoming : World → List ℕ
incoming w = w.0

abbrev pub outgoing : World → List ℕ
outgoing w = w.1

recv_one_lem :
    (n : ℕ) (w w' : World) (more : List ℕ)
    → recv_one n w ≡ (received more, w')
    → (incoming w ≡ more ++ incoming w')
      × (0 < length more)
      × (length more ≤ n)
      × (outgoing w' ≡ outgoing w)
recv_one_lem zero w w' more e = cc
recv_one_lem (suc n) ([], o, up) w' more e = cc
recv_one_lem (suc n) (b ∷ i, o, up) w' more e =
    let piece : b ∷ [] ≡ more = cc in
    let world : (i, o, up) ≡ w' = ap (λ (p : Received × World). p.1) e in
    subst
      (λ (x : List ℕ).
        (b ∷ i ≡ x ++ incoming w') × (0 < length x) × (length x ≤ suc n) × (outgoing w' ≡ o))
      piece
      (subst (λ (x : World). (b ∷ i ≡ b ∷ incoming x) × (0 < 1) × (1 ≤ suc n) × (outgoing x ≡ o))
        world (refl, omega arith, omega arith, refl))

send_one_lem :
    (bytes : List ℕ) (w w' : World) (n : ℕ)
    → send_one bytes w ≡ (sent n, w')
    → (outgoing w' ++ drop n bytes ≡ outgoing w ++ bytes)
      × (0 < n)
      × (n ≤ length bytes)
      × (incoming w' ≡ incoming w)
send_one_lem [] w w' n e = cc
send_one_lem (b ∷ bytes) (i, o, up) w' n e =
    let one : 1 ≡ n = cc in
    let world : (i, o ++ (b ∷ []), up) ≡ w' = ap (λ (p : Sent × World). p.1) e in
    subst
      (λ (x : ℕ).
        (outgoing w' ++ drop x (b ∷ bytes) ≡ o ++ (b ∷ bytes))
        × (0 < x)
        × (x ≤ suc (length bytes))
        × (incoming w' ≡ i))
      one
      (subst
        (λ (x : World).
          (outgoing x ++ bytes ≡ o ++ (b ∷ bytes))
          × (0 < 1)
          × (1 ≤ suc (length bytes))
          × (incoming x ≡ i))
        world (append_assoc o (b ∷ []) bytes, omega arith, omega arith, refl))

pub trickle-IsStream : IsStream trickle incoming outgoing
trickle-IsStream = record {
  received_in_order = recv_one_lem;
  sent_in_order = send_one_lem;
  closed = λ w. refl;
}

receives_one :
    (n : ℕ) (w : World)
    → 0 < n
    → 0 < length (incoming w)
    → (more : List ℕ) × (w' : World) × (recv_one n w ≡ (received more, w'))
receives_one zero w h k = absurd (omega arith)
receives_one (suc n) ([], o, up) h k = absurd (omega arith)
receives_one (suc n) (b ∷ i, o, up) h k = (b ∷ [], (i, o, up), refl)

sends_one :
    (bytes : List ℕ) (w : World)
    → 0 < length bytes
    → (n : ℕ) × (w' : World) × (send_one bytes w ≡ (sent n, w'))
sends_one [] w h = absurd (omega arith)
sends_one (b ∷ bytes) (i, o, up) h = (1, (i, o ++ (b ∷ []), up), refl)

pub trickle-IsLive : IsLive trickle incoming outgoing
trickle-IsLive = record { receives = receives_one; sends = sends_one }

abbrev head : List ℕ
head = 66 ∷ 0 ∷ 123 ∷ 1 ∷ 0 ∷ 0 ∷ 0 ∷ 2 ∷ []

abbrev request : List ℕ
request = 1 ∷ 2 ∷ 3 ∷ []

-- Two bytes follow the head, and one byte more stands behind the response.
abbrev waiting : World
waiting = ((head ++ (7 ∷ 8 ∷ [])) ++ (9 ∷ []), [], true)

do_exchange_lem_example :
    (w' : World) × (do_exchange trickle request 100 waiting ≡ (ok (head ++ (7 ∷ 8 ∷ [])), w'))
    × (outgoing w' ≡ [] ++ request)
    × (incoming w' ≡ 9 ∷ [])
do_exchange_lem_example =
    do_exchange_lem trickle incoming outgoing trickle-IsStream trickle-IsLive 100 request head
      (7 ∷ 8 ∷ []) (9 ∷ []) waiting (omega arith) (omega arith) refl refl refl (omega arith)

-- With a limit below the announced length.
do_exchange_safe_example :
    Outcome
      (λ (response : List ℕ) (_ : World). length response ≤ length_bytes + limit 1)
      (λ (w' : World). trickle.is_connected w' ≡ false)
      (do_exchange trickle request 1 waiting)
do_exchange_safe_example =
    do_exchange_safe trickle incoming outgoing trickle-IsStream request 1 waiting
