-- ===== src/Pool/Runs.antt =====
-- A pool of one connection in use, and its theorems there.
use mathlib.Core.Logic.{◌↔◌}
use libkmip.Base.{◌+◌, ◌≤◌, ◌≡◌, refl, arith, true, false, [], ◌∷◌, some, none, ok, err, length}
use libkmip.Errors.{no_connection_available}
use libkmip.Pool.{
  can_borrow, acquire_locked, return_slot, BorrowedClient, borrowed_client, try_borrow,
  borrow_after_wait,
}
use libkmip.Pool.Machine.{
  Loan, System, initial, connected, Step, borrow, connect, give, Reachable, start, next,
}
use libkmip.Pool.Books.{IsSound}
use libkmip.Pool.Invariant.{Reachable-IsSound, waits_iff_all_in_use, capacity, notified_enough}
use libkmip.Pool.Guards.{try_borrow_like_borrow}

abbrev connecting_one : System
connecting_one = record (initial 1) {
  pool = record { max_connections = 1; available = []; total_count = 1; notified = 0 };
  connecting = 1;
}

abbrev lent : System
lent = connected connecting_one

abbrev loan : Loan
loan = record { slot = record { id = 0; is_connected = true }; healthy = true }

abbrev returned : System
returned = record lent {
  pool = record { max_connections = 1; available = loan.slot ∷ []; total_count = 1; notified = 1 };
  loans = [];
}

connecting_one-Reachable : Reachable 1 connecting_one
unfolding acquire_locked
connecting_one-Reachable = next (initial 1) connecting_one start (borrow (initial 1) refl)

lent-Reachable : Reachable 1 lent
lent-Reachable =
    next connecting_one lent connecting_one-Reachable (connect connecting_one (omega arith))

give-Step : Step lent returned
unfolding return_slot
give-Step = give lent [] [] loan refl

Reachable-IsSound_example : IsSound 1 lent
Reachable-IsSound_example = Reachable-IsSound 1 lent lent-Reachable

waits_iff_all_in_use_example :
    (can_borrow lent.pool ≡ false) ↔ (length lent.loans + lent.connecting ≡ 1)
waits_iff_all_in_use_example = waits_iff_all_in_use 1 lent lent-Reachable

notified_enough_example :
    capacity returned.pool + lent.pool.notified ≤ capacity lent.pool + returned.pool.notified
notified_enough_example = notified_enough 1 lent returned lent-Reachable give-Step

abbrev guard : BorrowedClient
guard = borrowed_client loan.slot

try_borrow_like_borrow_example :
    borrow_after_wait lent.pool
    ≡ (elim (try_borrow lent.pool) [ some taken ↦ ok taken | none ↦ err no_connection_available ])
try_borrow_like_borrow_example = try_borrow_like_borrow lent.pool
