-- ===== src/Buffer/Writes.antt =====
-- What the writers append to a valid buffer: they do not throw up to 50 MB.
use libkmip.Base.{
  ℕ, zero, suc, ◌+◌, ◌%◌, ◌≤◌, ◌<◌, ◌≡◌, refl, sym, ap, ◌∙◌, arith, ltb, lt→ltb, if◌then◌else◌,
  List, [], ◌∷◌, ◌++◌, append-nil, append_assoc, ok, ◌>>=◌, length, replicate, length-append,
  length-replicate, length-take,
}
use libkmip.Buffer.{
  SerializationBuffer, Write, IsValid, ensure_space, store, write_byte, write_bytes, write_zeros,
  write_padded, span, size, padding_of,
}
use libkmip.Buffer.Store.{safe_size, ensure_space_safe, store_lem}

-- `op` succeeds on a valid buffer that stays within the safe size, and appends `bytes`.
abbrev pub Appends : Write → List ℕ → Type 0
Appends op bytes =
    (b : SerializationBuffer)
    → IsValid b
    → size b + length bytes ≤ safe_size
    → (b' : SerializationBuffer) × (op b ≡ ok b') × IsValid b' × (span b' ≡ span b ++ bytes)

-- The size of a valid buffer is the length of what was written.
pub length-span : (b : SerializationBuffer) → IsValid b → length (span b) ≡ size b
length-span b v = omega (arith, length-take b.current_offset b.buffer)

append_stored :
    (n : ℕ) (bytes : List ℕ)
    → n ≡ length bytes
    → Appends (λ b. do b' ← ensure_space n b; ok (store bytes b')) bytes
append_stored n bytes e b v h =
    let (c, grown, enough, wider) = ensure_space_safe n b (omega arith) in
    let (valid, content) =
      store_lem bytes (record b { capacity = c }) v.offset_le (omega arith) (omega arith) in
    (store bytes (record b { capacity = c }), rw grown, valid, content)

pub write_byte-Appends : (value : ℕ) → Appends (write_byte value) (value ∷ [])
unfolding write_byte
write_byte-Appends value = append_stored 1 (value ∷ []) refl

pub write_bytes-Appends : (bytes : List ℕ) → Appends (write_bytes bytes) bytes
unfolding write_bytes
write_bytes-Appends [] b v h = (b, refl, v, sym (append-nil (span b)))
write_bytes-Appends (x ∷ xs) b v h = append_stored (length (x ∷ xs)) (x ∷ xs) refl b v h

write_zeros-Appends : (n : ℕ) → Appends (write_zeros n) (replicate n 0)
unfolding write_zeros
write_zeros-Appends n = append_stored n (replicate n 0) (sym (length-replicate n 0))

-- One writer after the other.
pub Appends-then :
    (first : Write) (xs : List ℕ) (second : Write) (ys : List ℕ)
    → Appends first xs
    → Appends second ys
    → Appends (λ b. first b >>= second) (xs ++ ys)
Appends-then first xs second ys f s b v h =
    let total : length (xs ++ ys) ≡ length xs + length ys = length-append xs ys in
    let (b₁, e₁, v₁, c₁) = f b v (omega arith) in
    let sizes : size b₁ ≡ size b + length xs =
      omega (arith, length-span b v, length-span b₁ v₁, ap length c₁, length-append (span b) xs) in
    let (b₂, e₂, v₂, c₂) = s b₁ v₁ (omega arith) in
    (b₂, rw e₁ e₂, v₂, c₂ ∙ rw c₁ (append_assoc (span b) xs ys))

zeros_after : (n : ℕ) → Appends (λ b. if ltb 0 n then write_zeros n b else ok b) (replicate n 0)
zeros_after zero b v h = (b, refl, v, sym (append-nil (span b)))
zeros_after (suc n) b v h = rw (lt→ltb 0 (suc n) (omega arith)) (write_zeros-Appends (suc n) b v h)

pub write_padded-Appends :
    (bytes : List ℕ)
    → Appends (write_padded bytes) (bytes ++ replicate (padding_of (length bytes)) 0)
unfolding write_padded
write_padded-Appends bytes =
    Appends-then (write_bytes bytes) bytes _ _ (write_bytes-Appends bytes)
      (zeros_after (padding_of (length bytes)))

-- `writePadded` up to 50 MB: no exception; the buffer stays valid; its bytes are followed by those
-- written and by fewer than eight zeros, which fill them up to a multiple of eight.
pub write_padded_aligned :
    (bytes : List ℕ) (b : SerializationBuffer)
    → IsValid b
    → size b + length bytes + padding_of (length bytes) ≤ safe_size
    → (b' : SerializationBuffer) × (write_padded bytes b ≡ ok b')
      × IsValid b'
      × (span b' ≡ span b ++ (bytes ++ replicate (padding_of (length bytes)) 0))
      × (padding_of (length bytes) < 8)
      × ((length bytes + padding_of (length bytes)) % 8 ≡ 0)
write_padded_aligned bytes b v h =
    let total : length (bytes ++ replicate (padding_of (length bytes)) 0)
        ≡ length bytes + padding_of (length bytes) =
      omega (
        arith,
        length-append bytes (replicate (padding_of (length bytes)) 0),
        length-replicate {A = ℕ} (padding_of (length bytes)) 0,
      ) in
    let (b', done, valid, content) = write_padded-Appends bytes b v (omega arith) in
    (b', done, valid, content, omega arith, omega arith)
