-- ===== src/Buffer/Limits.antt =====
-- Writes of any size: the bound on the storage, and where the doubling makes a write throw.
use libkmip.Base.{
  ℕ, ◌+◌, ◌^◌, ◌≤◌, ◌<◌, ◌≡◌, ◌∙◌, arith, ◌==◌, if◌then◌else◌, List, [], ◌∷◌, ◌++◌, append-nil,
  subst, ok, err, length, >>=-eq-ok,
}
use libkmip.Errors.{buffer_exceeds_maximum}
use libkmip.Buffer.{
  SerializationBuffer, IsValid, double_until, expand_capacity, ensure_space, store, write_bytes,
  span, size, min_capacity, max_capacity,
}
use libkmip.Buffer.Growth.{double_until-ge, double_until-pow, pow_above}
use libkmip.Buffer.Store.{store_lem}
use native.Mathlib.Nat.{pow-le-pow_right}

-- What a call that changes at most the capacity leaves.
abbrev Grown : ℕ → SerializationBuffer → SerializationBuffer → Type 0
Grown r b b' =
    (b'.buffer ≡ b.buffer)
    × (b'.current_offset ≡ b.current_offset)
    × (r ≤ b'.capacity)
    × (b.capacity ≤ b'.capacity)
    × (b'.capacity ≤ max_capacity)

expand_capacity-Grown :
    (r : ℕ) (b b' : SerializationBuffer)
    → b.capacity ≤ max_capacity
    → r ≤ 2 ^ 63
    → expand_capacity r b ≡ ok b'
    → Grown r b b'
unfolding expand_capacity
expand_capacity-Grown r b b' h k e =
    let start : ℕ = if b.capacity == 0 then min_capacity else b.capacity in
    let reach : r ≤ double_until 64 start r = double_until-ge 64 start r k (ground arith) in
    ground (arith, reach)

ensure_space-Grown :
    (n : ℕ) (b b' : SerializationBuffer)
    → b.capacity ≤ max_capacity
    → b.current_offset + n ≤ 2 ^ 63
    → ensure_space n b ≡ ok b'
    → Grown (b.current_offset + n) b b'
unfolding ensure_space
ensure_space-Grown n b b' h k e = ground (arith, expand_capacity-Grown (b.current_offset + n) b b')

-- A write to a valid buffer of a capacity within 100 MB, of any size up to 2^63 with what it
-- holds, that returns: the buffer stays valid and within 100 MB, and its bytes are followed by
-- those written.
pub write_bytes_bounded :
    (bytes : List ℕ) (b b' : SerializationBuffer)
    → IsValid b
    → b.capacity ≤ max_capacity
    → size b + length bytes ≤ 2 ^ 63
    → write_bytes bytes b ≡ ok b'
    → IsValid b' × (b'.capacity ≤ max_capacity) × (span b' ≡ span b ++ bytes)
unfolding write_bytes store
write_bytes_bounded [] b b' v h k e = ground (arith, append-nil (span b))
write_bytes_bounded (x ∷ xs) b b' v h k e =
    let (b₁, grown, stored) =
      >>=-eq-ok (ensure_space (length (x ∷ xs)) b)
        (λ (c : SerializationBuffer). ok (store (x ∷ xs) c)) e in
    let g : Grown (b.current_offset + length (x ∷ xs)) b b₁ = ensure_space-Grown _ b b₁ h k grown in
    let s : IsValid (store (x ∷ xs) b₁) × (span (store (x ∷ xs) b₁) ≡ span b₁ ++ x ∷ xs) =
      store_lem (x ∷ xs) b₁ (rw (g.0, g.1) v.offset_le) (rw g.0 (omega (arith, g)))
        (rw g.1 (omega (arith, g))) in
    subst
      (λ (c : SerializationBuffer).
        IsValid c × (c.capacity ≤ max_capacity) × (span c ≡ span b ++ x ∷ xs))
      (cc) (s.0, g.4, s.1 ∙ rw (g.0, g.1))

-- The doubling passes 100 MB at once from 64 MB: a buffer whose capacity is a power of two of at
-- most 2 ^ 26, as the default one has, refuses to grow beyond 2 ^ 26 bytes.
pub ensure_space-over :
    (n r : ℕ) (b : SerializationBuffer)
    → b.capacity ≡ 2 ^ n
    → b.capacity ≤ 2 ^ 26
    → 2 ^ 26 < size b + r
    → size b + r ≤ 2 ^ 63
    → ensure_space r b ≡ err buffer_exceeds_maximum
unfolding ensure_space expand_capacity
ensure_space-over n r b e h over k =
    let (m, p) = double_until-pow 64 n (size b + r) k in
    let power : double_until 64 b.capacity (size b + r) ≡ 2 ^ m = cc p in
    let reach : size b + r ≤ double_until 64 b.capacity (size b + r) =
      double_until-ge 64 b.capacity (size b + r) k (omega (arith, some_capacity)) in
    let above : max_capacity < double_until 64 b.capacity (size b + r) =
      omega (arith, power, pow_above m (omega (arith, power, reach, over))) in
    ground (arith, above, some_capacity)
  where
    some_capacity : 0 < b.capacity
    some_capacity =
        rw e (omega (arith, pow-le-pow_right {n = 2} (omega arith) {i = 0} {j = n} (omega arith)))
