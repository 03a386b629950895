-- ===== src/Pool/Machine.antt =====
-- The pool and its borrowers as a machine. A step is one critical section, or a change of a
-- connection; steps of any number of threads interleave.
use libkmip.Base.{ℕ, ◌+◌, ◌-◌, ◌<◌, ◌≡◌, Bool, true, false, List, [], ◌∷◌, ◌++◌}
use libkmip.Pool.{
  Slot, KmipClientPool, can_borrow, Acquired, reused, reserved, acquire_locked, give_back,
  return_slot,
}

-- A borrowed slot, and what its guard says of its health.
pub record Loan : Type 0 where
  pub slot : Slot
  pub healthy : Bool

-- The pool, the slots that are borrowed, the number of threads that connect with the leave of
-- `acquire_locked`, and the number of the next connection.
pub record System : Type 0 where
  pub pool : KmipClientPool
  pub loans : List Loan
  pub connecting : ℕ
  pub next_id : ℕ

abbrev pub initial : ℕ → System
initial max_connections = record {
  pool = record {
    max_connections = max_connections;
    available = [];
    total_count = 0;
    notified = 0;
  };
  loans = [];
  connecting = 0;
  next_id = 0;
}

abbrev pub take_over : Acquired × KmipClientPool → System → System
take_over (reused slot, p) s = record s {
  pool = p;
  loans = record { slot = slot; healthy = true } ∷ s.loans;
}
take_over (reserved, p) s = record s { pool = p; connecting = s.connecting + 1 }

abbrev pub connected : System → System
connected s = record s {
  loans =
      record { slot = record { id = s.next_id; is_connected = true }; healthy = true } ∷ s.loans;
  connecting = s.connecting - 1;
  next_id = s.next_id + 1;
}

pub data Step : System → System → Type 0 where
  -- `borrow` and `try_borrow`, when they may go on.
  borrow : (s : System) → can_borrow s.pool ≡ true → Step s (take_over (acquire_locked s.pool) s)
  -- `create_slot` has made the connection.
  connect : (s : System) → 0 < s.connecting → Step s (connected s)
  -- `create_slot` has thrown.
  connect_fails :
      (s : System)
      → 0 < s.connecting
      → Step s (record s { pool = give_back s.pool; connecting = s.connecting - 1 })
  -- A borrower marks its guard, or its connection breaks.
  change :
      (s : System) (front back : List Loan) (loan : Loan) (healthy is_connected : Bool)
      → s.loans ≡ front ++ (loan ∷ back)
      → Step s (record s {
        loans =
            front
            ++ (record {
              slot = record (loan.slot) { is_connected = is_connected };
              healthy = healthy;
            }
                ∷ back);
      })
  -- An idle connection breaks.
  idle_breaks :
      (s : System) (front back : List Slot) (slot : Slot)
      → s.pool.available ≡ front ++ (slot ∷ back)
      → Step s (record s {
        pool = record (s.pool) {
          available = front ++ (record slot { is_connected = false } ∷ back);
        };
      })
  -- A guard is destroyed.
  give :
      (s : System) (front back : List Loan) (loan : Loan)
      → s.loans ≡ front ++ (loan ∷ back)
      → Step s
          (record s { pool = return_slot loan.slot loan.healthy s.pool; loans = front ++ back })

pub data Reachable (max_connections : ℕ) : System → Type 0 where
  start : Reachable max_connections (initial max_connections)
  next : (s s' : System) → Reachable max_connections s → Step s s' → Reachable max_connections s'
