-- ===== src/Pool/Guards.antt =====
-- The guards of borrowed connections, and the three ways to borrow.
use libkmip.Base.{◌≡◌, refl, arith, none, some, ok, err}
use libkmip.Errors.{no_connection_available}
use libkmip.Pool.{
  KmipClientPool, try_borrow, borrow_after_wait, BorrowedClient, destroy, move_client,
  assign_client,
}

-- A connection goes back to the pool once, however its guard is moved before: a guard that was moved
-- from gives nothing back, and the one it was moved to gives back what the first would have.
pub destroy-move_client :
    (b : BorrowedClient) (p : KmipClientPool)
    → destroy (move_client b).1 (destroy (move_client b).0 p) ≡ destroy b p
unfolding destroy move_client
destroy-move_client b p = refl

-- A guard that another is assigned to: in the end both connections have gone back, first its own
-- and then that of the other, each once.
pub destroy-assign_client :
    (b other : BorrowedClient) (p : KmipClientPool)
    → (let (after, source, pool) = assign_client b other p in destroy source (destroy after pool))
      ≡ destroy other (destroy b p)
unfolding destroy move_client assign_client
destroy-assign_client b other p = refl

-- `try_borrow` and `borrow` with a time limit take the same decision: the one returns nothing where
-- the other throws, and both go on with the same slot or leave where they go on.
pub try_borrow_like_borrow :
    (p : KmipClientPool)
    → borrow_after_wait p
      ≡ (elim (try_borrow p) [ some taken ↦ ok taken | none ↦ err no_connection_available ])
unfolding try_borrow borrow_after_wait
try_borrow_like_borrow p = ground arith
