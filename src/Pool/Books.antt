-- ===== src/Pool/Books.antt =====
-- The pool's books: what every step of the machine keeps.
use libkmip.Base.{
  ℕ, suc, ◌+◌, ◌-◌, ◌≤◌, ◌<◌, ◌≡◌, ◌⊎◌, inl, inr, refl, sym, ap, subst, arith, Bool, true, false,
  not, ◌||◌, List, [], ◌∷◌, ◌++◌, ◌==◌, if◌then◌else◌, length, length-append, Bool-cases,
}
use libkmip.Pool.{
  Slot, KmipClientPool, can_borrow, Acquired, reused, reserved, acquire_locked, return_slot,
}
use libkmip.Pool.Machine.{Loan, System, take_over, connected}

abbrev pub one_if : Bool → ℕ
one_if t = if t then 1 else 0

-- How often a connection stands among the idle slots, and among the borrowed ones.
abbrev pub count_idle : ℕ → List Slot → ℕ
count_idle id [] = 0
count_idle id (slot ∷ slots) = one_if (slot.id == id) + count_idle id slots

abbrev pub count_lent : ℕ → List Loan → ℕ
count_lent id [] = 0
count_lent id (loan ∷ loans) = one_if (loan.slot.id == id) + count_lent id loans

abbrev pub uses : ℕ → System → ℕ
uses id s = count_idle id s.pool.available + count_lent id s.loans

pub count_idle-append :
    (id : ℕ) (xs ys : List Slot) → count_idle id (xs ++ ys) ≡ count_idle id xs + count_idle id ys
count_idle-append id [] ys = omega arith
count_idle-append id (x ∷ xs) ys = omega (arith, count_idle-append id xs ys)

pub count_lent-append :
    (id : ℕ) (xs ys : List Loan) → count_lent id (xs ++ ys) ≡ count_lent id xs + count_lent id ys
count_lent-append id [] ys = omega arith
count_lent-append id (x ∷ xs) ys = omega (arith, count_lent-append id xs ys)

pub record IsSound (max_connections : ℕ) (s : System) : Type 0 where
  pub same_limit : s.pool.max_connections ≡ max_connections
  -- Every connection that is counted is idle, borrowed or being made.
  pub accounted : s.pool.total_count ≡ length s.pool.available + length s.loans + s.connecting
  pub limited : s.pool.total_count ≤ max_connections
  -- No connection is in two places, and none has a number that is not yet given.
  pub exclusive : (id : ℕ) → uses id s ≤ 1
  pub unnumbered : (id : ℕ) → s.next_id ≤ id → uses id s ≡ 0

pub acquire_cases :
    (slots : List Slot) (p : KmipClientPool)
    → p.available ≡ slots
    → ((slot : Slot) × (rest : List Slot) × (p.available ≡ slot ∷ rest)
        × (acquire_locked p ≡ (reused slot, record p { available = rest })))
      ⊎ ((p.available ≡ [])
          × (acquire_locked p ≡ (reserved, record p { total_count = p.total_count + 1 })))
unfolding acquire_locked
acquire_cases [] p h = inr (h, rw h)
acquire_cases (slot ∷ rest) p h = inl (slot, rest, h, rw h)

pub borrow-IsSound :
    (limit : ℕ) (s : System)
    → IsSound limit s
    → can_borrow s.pool ≡ true
    → IsSound limit (take_over (acquire_locked s.pool) s)
borrow-IsSound limit s i may = elim (acquire_cases s.pool.available s.pool refl) [
  | inl (slot, rest, idle, is) ↦
      let size : length s.pool.available ≡ suc (length rest) = ap length idle in
      let place : (id : ℕ)
          → count_idle id s.pool.available ≡ one_if (slot.id == id) + count_idle id rest =
        λ id. ap (count_idle id) idle in
      subst (λ (x : Acquired × KmipClientPool). IsSound limit (take_over x s)) (sym is)
        (record {
          same_limit = i.same_limit;
          accounted = omega (arith, i.accounted, size);
          limited = i.limited;
          exclusive = λ id. omega (arith, i.exclusive id, place id);
          unnumbered = λ id h. omega (arith, i.unnumbered id h, place id);
        })
  | inr (idle, is) ↦
      let size : length s.pool.available ≡ 0 = ap length idle in
      let room : s.pool.total_count < s.pool.max_connections = ground (arith, size) in
      subst (λ (x : Acquired × KmipClientPool). IsSound limit (take_over x s)) (sym is)
        (record {
          same_limit = i.same_limit;
          accounted = omega (arith, i.accounted);
          limited = omega (arith, room, i.same_limit);
          exclusive = i.exclusive;
          unnumbered = i.unnumbered;
        })
]

-- A borrowed slot taken out of the middle of the list.
pub taken_out :
    (s : System) (front back : List Loan) (loan : Loan)
    → s.loans ≡ front ++ (loan ∷ back)
    → (length s.loans ≡ suc (length (front ++ back)))
      × ((id : ℕ)
          → count_lent id s.loans ≡ one_if (loan.slot.id == id) + count_lent id (front ++ back))
taken_out s front back loan at = (
  omega (arith, ap length at, length-append front (loan ∷ back), length-append front back),
  λ id. omega (
    arith,
    ap (count_lent id) at,
    count_lent-append id front (loan ∷ back),
    count_lent-append id front back,
  ),
)

pub return_cases :
    (slot : Slot) (healthy : Bool) (p : KmipClientPool)
    → (return_slot slot healthy p
        ≡ record p { total_count = p.total_count - 1; notified = p.notified + 1 })
      ⊎ (return_slot slot healthy p
          ≡ record p { available = slot ∷ p.available; notified = p.notified + 1 })
unfolding return_slot
return_cases slot healthy p = elim (Bool-cases (not healthy || not slot.is_connected)) [
  | inl discard ↦ inl (rw discard)
  | inr keep ↦ inr (rw keep)
]

pub give-IsSound :
    (limit : ℕ) (s : System) (front back : List Loan) (loan : Loan)
    → IsSound limit s
    → s.loans ≡ front ++ (loan ∷ back)
    → IsSound limit
        (record s { pool = return_slot loan.slot loan.healthy s.pool; loans = front ++ back })
give-IsSound limit s front back loan i at =
    let (size, place) = taken_out s front back loan at in
    let Result : KmipClientPool → Type 0 =
      λ p. IsSound limit (record s { pool = p; loans = front ++ back }) in
    elim (return_cases loan.slot loan.healthy s.pool) [
      | inl is ↦ subst Result (sym is) (record {
        same_limit = i.same_limit;
        accounted = omega (arith, i.accounted, size);
        limited = omega (arith, i.limited);
        exclusive = λ id. omega (arith, i.exclusive id, place id);
        unnumbered = λ id h. omega (arith, i.unnumbered id h, place id);
      })
      | inr is ↦ subst Result (sym is) (record {
        same_limit = i.same_limit;
        accounted = omega (arith, i.accounted, size);
        limited = i.limited;
        exclusive = λ id. omega (arith, i.exclusive id, place id);
        unnumbered = λ id h. omega (arith, i.unnumbered id h, place id);
      })
    ]

pub connect-IsSound :
    (limit : ℕ) (s : System) → IsSound limit s → 0 < s.connecting → IsSound limit (connected s)
connect-IsSound limit s i some_thread = record {
  same_limit = i.same_limit;
  accounted = omega (arith, i.accounted);
  limited = i.limited;
  exclusive = λ id. elim (Bool-cases (s.next_id == id)) [
    | inl new ↦
        let is : s.next_id ≡ id = ground arith in
        rw new (omega (arith, i.unnumbered id (omega (arith, is))))
    | inr other ↦ rw other (omega (arith, i.exclusive id))
  ];
  unnumbered = λ id h.
      let other : (s.next_id == id) ≡ false = ground arith in
      rw other (omega (arith, i.unnumbered id (omega arith)));
}
