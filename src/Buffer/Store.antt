-- ===== src/Buffer/Store.antt =====
-- `ensure_space` up to 50 MB, and what `store` does to a valid buffer.
use libkmip.Base.{
  ℕ, zero, suc, ◌+◌, ◌-◌, ◌*◌, ◌^◌, ◌≤◌, ◌<◌, ◌≡◌, refl, ap, ◌∙◌, inl, inr, arith, Bool-cases, ltb,
  leb, ltb→lt, ◌==◌, if◌then◌else◌, max, List, [], ◌∷◌, ◌++◌, append_assoc, ok, length, take, drop,
  replicate, length-append, length-take, length-drop, length-replicate, take-append,
}
use libkmip.Buffer.{
  SerializationBuffer, IsValid, double_until, expand_capacity, ensure_space, store, span,
  min_capacity, max_capacity, overwrite, resize,
}
use libkmip.Buffer.Growth.{double_until-ge, double_until-le}

-- 50 MB: as much as the doubling reaches from any capacity without passing 100 MB.
abbrev pub safe_size : ℕ
safe_size = 50 * 1024 * 1024

double_until_safe :
    (c r : ℕ)
    → 0 < c
    → c ≤ max_capacity
    → r ≤ safe_size
    → (r ≤ double_until 64 c r) × (double_until 64 c r ≤ max_capacity)
double_until_safe c r p h k =
    let big : r ≤ c * 2 ^ 64 = omega arith in
    ground (arith, double_until-ge 64 c r, big, double_until-le 64 c r)

expand_capacity_safe :
    (r : ℕ) (b : SerializationBuffer)
    → b.capacity < r
    → r ≤ safe_size
    → (c : ℕ) × (expand_capacity r b ≡ ok (record b { capacity = c })) × (r ≤ c) × (b.capacity ≤ c)
unfolding expand_capacity
expand_capacity_safe r b h k =
    let start : ℕ = if b.capacity == 0 then min_capacity else b.capacity in
    let grown : (r ≤ double_until 64 start r) × (double_until 64 start r ≤ max_capacity) =
      double_until_safe start r (ground arith) (ground arith) k in
    (
      max b.capacity (double_until 64 start r),
      ground (arith, grown),
      omega (arith, grown),
      omega arith,
    )

-- It grows the capacity alone.
pub ensure_space_safe :
    (n : ℕ) (b : SerializationBuffer)
    → b.current_offset + n ≤ safe_size
    → (c : ℕ) × (ensure_space n b ≡ ok (record b { capacity = c }))
      × (b.current_offset + n ≤ c)
      × (b.capacity ≤ c)
unfolding ensure_space
ensure_space_safe n b h = elim (Bool-cases (leb (b.current_offset + n) b.capacity)) [
  | inl fits ↦ (b.capacity, rw fits, ground arith, omega arith)
  | inr short ↦ rw short (expand_capacity_safe (b.current_offset + n) b (ground arith) h)
]

take_below :
    (n m : ℕ) (xs ys : List ℕ) → n ≤ m → n ≤ length xs → take n (take m xs ++ ys) ≡ take n xs
take_below zero m xs ys h k = refl
take_below (suc n) zero xs ys h k = absurd (omega arith)
take_below (suc n) (suc m) [] ys h k = absurd (omega arith)
take_below (suc n) (suc m) (x ∷ xs) ys h k =
    ap (◌∷◌ x) (take_below n m xs ys (omega arith) (omega arith))

length-resize : (m : ℕ) (xs : List ℕ) → length xs < m → length (resize m xs) ≡ m
length-resize m xs h = omega (
  arith,
  length-append (take m xs) (replicate (m - length xs) 0),
  length-take m xs,
  length-replicate {A = ℕ} (m - length xs) 0,
)

length-overwrite :
    (n : ℕ) (bytes xs : List ℕ)
    → n + length bytes ≤ length xs
    → length (overwrite n bytes xs) ≡ length xs
length-overwrite n bytes xs h = omega (
  arith,
  length-append (take n xs) (bytes ++ drop (n + length bytes) xs),
  length-append bytes (drop (n + length bytes) xs),
  length-take n xs,
  length-drop (n + length bytes) xs,
)

take-overwrite :
    (n : ℕ) (bytes xs : List ℕ)
    → n ≤ length xs
    → take (n + length bytes) (overwrite n bytes xs) ≡ take n xs ++ bytes
take-overwrite n bytes xs h = rw (← append_assoc (take n xs) bytes (drop (n + length bytes) xs)) (
    take-append (take n xs ++ bytes) _ _
      (omega (arith, length-append (take n xs) bytes, length-take n xs)))

abbrev grown_to : ℕ → List ℕ → List ℕ
grown_to stop xs = if ltb (length xs) stop then resize stop xs else xs

take-grown_to :
    (n stop : ℕ) (xs : List ℕ) → n ≤ stop → n ≤ length xs → take n (grown_to stop xs) ≡ take n xs
take-grown_to n stop xs h k = elim (Bool-cases (ltb (length xs) stop)) [
  | inl short ↦ rw short (take_below n stop xs _ h k)
  | inr enough ↦ rw enough
]

length-grown_to : (stop : ℕ) (xs : List ℕ) → length (grown_to stop xs) ≡ max (length xs) stop
length-grown_to stop xs = elim (Bool-cases (ltb (length xs) stop)) [
  | inl short ↦ rw short (omega (arith, length-resize stop xs, ltb→lt _ _ short))
  | inr enough ↦ rw enough (ground arith)
]

-- Storing within the capacity keeps the buffer valid and appends.
pub store_lem :
    (bytes : List ℕ) (b : SerializationBuffer)
    → b.current_offset ≤ length b.buffer
    → length b.buffer ≤ b.capacity
    → b.current_offset + length bytes ≤ b.capacity
    → IsValid (store bytes b) × (span (store bytes b) ≡ span b ++ bytes)
unfolding store
store_lem bytes b h k fits = (
  record {
    offset_le = omega (arith, stays, wide);
    length_le = omega (arith, stays, length-grown_to stop b.buffer);
  },
  take-overwrite b.current_offset bytes grown (omega (arith, length-grown_to stop b.buffer))
      ∙ ap (λ (p : List ℕ). p ++ bytes) (take-grown_to _ stop b.buffer (omega arith) h),
)
  where
    stop : ℕ
    stop = b.current_offset + length bytes

    grown : List ℕ
    grown = grown_to stop b.buffer

    wide : stop ≤ length grown
    wide = omega (arith, length-grown_to stop b.buffer)

    stays : length (overwrite b.current_offset bytes grown) ≡ length grown
    stays = length-overwrite b.current_offset bytes grown wide
