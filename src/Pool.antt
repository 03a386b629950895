-- ===== src/Pool.antt =====
-- kmipclient/src/KmipClientPool.cpp: the pool of connections. Each operation is what it does to the
-- pool while it holds the mutex; the connection to the server is made between two of them.
pub mod Machine
pub mod Books
pub mod Invariant
pub mod Guards
pub mod Runs
use libkmip.Base.{
  ℕ, zero, suc, ◌+◌, ◌-◌, Bool, true, false, not, ◌&&◌, ◌||◌, List, [], ◌∷◌, Option, none, some,
  Result, ok, err, ◌>>=◌, ◌>>◌, throw_if, ◌==◌, ltb, leb, if◌then◌else◌, length,
}
use libkmip.Errors.{Error, no_max_connections, no_connection_available}

-- A connection, by the number it gets when it is made, and whether it is still connected.
pub record Slot : Type 0 where
  pub id : ℕ
  pub is_connected : Bool

-- The back of the vector of idle slots is the head of the list. `notified` counts the calls of
-- `cv_.notify_one()`.
pub record KmipClientPool : Type 0 where
  pub max_connections : ℕ
  pub available : List Slot
  pub total_count : ℕ
  pub notified : ℕ

abbrev pub create_pool : ℕ → Result Error KmipClientPool
create_pool max_connections = do
  throw_if (max_connections == 0) no_max_connections
  ok (record { max_connections = max_connections; available = []; total_count = 0; notified = 0 })

-- The condition that `borrow` waits for.
abbrev pub can_borrow : KmipClientPool → Bool
can_borrow p = not (length p.available == 0) || ltb p.total_count p.max_connections

-- An idle slot, or the leave to connect.
pub data Acquired : Type 0 where
  reused : Slot → Acquired
  reserved : Acquired

-- `acquire_locked`, up to the release of the lock.
unfoldable pub acquire_locked : KmipClientPool → Acquired × KmipClientPool
acquire_locked p = elim p.available [
  | slot ∷ rest ↦ (reused slot, record p { available = rest })
  | [] ↦ (reserved, record p { total_count = p.total_count + 1 })
]

-- `catch (...)` of `acquire_locked`.
unfoldable pub give_back : KmipClientPool → KmipClientPool
give_back p = record p { total_count = p.total_count - 1; notified = p.notified + 1 }

unfoldable pub return_slot : Slot → Bool → KmipClientPool → KmipClientPool
return_slot slot healthy p =
    let discard = not healthy || not slot.is_connected in
    if discard
    then record p { total_count = p.total_count - 1; notified = p.notified + 1 }
    else record p { available = slot ∷ p.available; notified = p.notified + 1 }

-- `try_borrow`: nothing if every connection is in use.
unfoldable pub try_borrow : KmipClientPool → Option (Acquired × KmipClientPool)
try_borrow p =
    if length p.available == 0 && leb p.max_connections p.total_count
    then none
    else some (acquire_locked p)

-- `borrow(timeout)`, when the wait has ended: by the condition, or by the time.
unfoldable pub borrow_after_wait : KmipClientPool → Result Error (Acquired × KmipClientPool)
borrow_after_wait p = do
  throw_if (not (can_borrow p)) no_connection_available
  ok (acquire_locked p)

-- The guard that a borrower holds. It has no pool after it was moved from; `slot` is empty then too.
pub record BorrowedClient : Type 0 where
  pub has_pool : Bool
  pub slot : Option Slot
  pub healthy : Bool

abbrev pub borrowed_client : Slot → BorrowedClient
borrowed_client slot = record { has_pool = true; slot = some slot; healthy = true }

abbrev pub mark_unhealthy : BorrowedClient → BorrowedClient
mark_unhealthy b = record b { healthy = false }

-- `~BorrowedClient`
unfoldable pub destroy : BorrowedClient → KmipClientPool → KmipClientPool
destroy b p = elim b.slot [
  | some slot ↦ if b.has_pool then return_slot slot b.healthy p else p
  | none ↦ p
]

-- The move constructor: the new guard, and what is left of the old one.
unfoldable pub move_client : BorrowedClient → BorrowedClient × BorrowedClient
move_client other = (
  record { has_pool = other.has_pool; slot = other.slot; healthy = other.healthy },
  record other { has_pool = false; slot = none },
)

-- The move assignment to another guard: that guard after it, the source after it, and the pool.
unfoldable pub assign_client :
    BorrowedClient
    → BorrowedClient
    → KmipClientPool
    → BorrowedClient × BorrowedClient × KmipClientPool
assign_client b other p = ((move_client other).0, (move_client other).1, destroy b p)
