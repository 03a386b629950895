-- ===== src/Pool/Invariant.antt =====
-- What holds of the pool in every state that its users can reach.
use mathlib.Core.Logic.{◌↔◌}
use libkmip.Base.{
  ℕ, ◌+◌, ◌-◌, ◌≤◌, ◌≡◌, inl, inr, refl, sym, ap, subst, arith, false, ◌∷◌, ◌++◌, length,
  length-append,
}
use libkmip.Pool.{Slot, KmipClientPool, can_borrow, Acquired, give_back}
use libkmip.Pool.Machine.{
  Loan, System, take_over, Step, borrow, connect, connect_fails, change, idle_breaks, give,
  Reachable, start, next,
}
use libkmip.Pool.Books.{
  acquire_cases, return_cases, count_idle, count_lent, count_idle-append, count_lent-append,
  IsSound, borrow-IsSound, give-IsSound, connect-IsSound,
}

-- Every step keeps the books.
pub Step-IsSound : (limit : ℕ) (s s' : System) → Step s s' → IsSound limit s → IsSound limit s'
unfolding give_back
Step-IsSound limit s s' (borrow _ may) i = borrow-IsSound limit s i may
Step-IsSound limit s s' (connect _ some_thread) i = connect-IsSound limit s i some_thread
Step-IsSound limit s s' (connect_fails _ some_thread) i = record {
  same_limit = i.same_limit;
  accounted = omega (arith, i.accounted);
  limited = omega (arith, i.limited);
  exclusive = i.exclusive;
  unnumbered = i.unnumbered;
}
Step-IsSound limit s s' (change _ front back loan healthy is_connected at) i =
    let changed : Loan = record {
      slot = record (loan.slot) { is_connected = is_connected };
      healthy = healthy;
    } in
    let size : length s.loans ≡ length (front ++ (changed ∷ back)) = omega (
      arith,
      ap length at,
      length-append front (loan ∷ back),
      length-append front (changed ∷ back),
    ) in
    let same : (id : ℕ) → count_lent id s.loans ≡ count_lent id (front ++ (changed ∷ back)) = λ id.
      omega (
        arith,
        ap (count_lent id) at,
        count_lent-append id front (loan ∷ back),
        count_lent-append id front (changed ∷ back),
      ) in
    record {
      same_limit = i.same_limit;
      accounted = omega (arith, i.accounted, size);
      limited = i.limited;
      exclusive = λ id. omega (arith, i.exclusive id, same id);
      unnumbered = λ id h. omega (arith, i.unnumbered id h, same id);
    }
Step-IsSound limit s s' (idle_breaks _ front back slot at) i =
    let broken : Slot = record slot { is_connected = false } in
    let size : length s.pool.available ≡ length (front ++ (broken ∷ back)) = omega (
      arith,
      ap length at,
      length-append front (slot ∷ back),
      length-append front (broken ∷ back),
    ) in
    let same : (id : ℕ)
        → count_idle id s.pool.available ≡ count_idle id (front ++ (broken ∷ back)) =
      λ id. omega (
        arith,
        ap (count_idle id) at,
        count_idle-append id front (slot ∷ back),
        count_idle-append id front (broken ∷ back),
      ) in
    record {
      same_limit = i.same_limit;
      accounted = omega (arith, i.accounted, size);
      limited = i.limited;
      exclusive = λ id. omega (arith, i.exclusive id, same id);
      unnumbered = λ id h. omega (arith, i.unnumbered id h, same id);
    }
Step-IsSound limit s s' (give _ front back loan at) i = give-IsSound limit s front back loan i at

-- In every state that the users of a pool can reach, by any interleaving of borrows, connections
-- that succeed or fail, breaks and returns: the pool counts the connections that are idle, borrowed
-- or being made, they are at most `max_connections`, and no connection is with two borrowers, or
-- with one and idle.
pub Reachable-IsSound : (limit : ℕ) (s : System) → Reachable limit s → IsSound limit s
Reachable-IsSound limit s start = record {
  same_limit = refl;
  accounted = omega arith;
  limited = omega arith;
  exclusive = λ id. omega arith;
  unnumbered = λ id h. omega arith;
}
Reachable-IsSound limit s (next before _ r step) =
    Step-IsSound limit before s step (Reachable-IsSound limit before r)

-- Nothing is lost: in a reachable state a borrower has to wait exactly when `max_connections`
-- connections are borrowed or being made.
pub waits_iff_all_in_use :
    (limit : ℕ) (s : System)
    → Reachable limit s
    → (can_borrow s.pool ≡ false) ↔ (length s.loans + s.connecting ≡ limit)
waits_iff_all_in_use limit s r =
    let i = Reachable-IsSound limit s r in ground (arith, i.accounted, i.limited, i.same_limit)

-- How many borrowers can go on at once.
abbrev pub capacity : KmipClientPool → ℕ
capacity p = length p.available + (p.max_connections - p.total_count)

notified_by :
    (s s' : System)
    → Step s s'
    → s.pool.total_count ≤ s.pool.max_connections
    → capacity s'.pool + s.pool.notified ≤ capacity s.pool + s'.pool.notified
unfolding give_back
notified_by s s' (borrow _ may) h =
    let Quiet : Acquired × KmipClientPool → Type 0 = λ x.
      capacity (take_over x s).pool + s.pool.notified
      ≤ capacity s.pool + (take_over x s).pool.notified in
    elim (acquire_cases s.pool.available s.pool refl) [
      | inl (slot, rest, idle, is) ↦ subst Quiet (sym is) (omega (arith, ap length idle))
      | inr (idle, is) ↦ subst Quiet (sym is) (omega (arith, ap length idle))
    ]
notified_by s s' (connect _ some_thread) h = omega arith
notified_by s s' (connect_fails _ some_thread) h = omega arith
notified_by s s' (change _ front back loan healthy is_connected at) h = omega arith
notified_by s s' (idle_breaks _ front back slot at) h = omega (
  arith,
  ap length at,
  length-append front (slot ∷ back),
  length-append front (record slot { is_connected = false } ∷ back),
)
notified_by s s' (give _ front back loan at) h =
    let Told : KmipClientPool → Type 0 =
      λ p. capacity p + s.pool.notified ≤ capacity s.pool + p.notified in
    elim (return_cases loan.slot loan.healthy s.pool) [
      | inl is ↦ subst Told (sym is) (omega arith)
      | inr is ↦ subst Told (sym is) (omega arith)
    ]

-- No wake-up is missed: a step of a reachable state that lets more borrowers go on notifies at least
-- as many of them.
pub notified_enough :
    (limit : ℕ) (s s' : System)
    → Reachable limit s
    → Step s s'
    → capacity s'.pool + s.pool.notified ≤ capacity s.pool + s'.pool.notified
notified_enough limit s s' r step =
    let i = Reachable-IsSound limit s r in
    notified_by s s' step (omega (arith, i.limited, i.same_limit))
