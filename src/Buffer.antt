-- ===== src/Buffer.antt =====
-- kmipcore/src/serialization_buffer.cpp and kmipcore/include/kmipcore/serialization_buffer.hpp:
-- the output buffer of the TTLV encoder. A byte is a number below 256. The vector's storage is its
-- elements and its capacity; `reserve n` gives a capacity of exactly `n` where it grows. `size_t`
-- has 64 bits, and sums of sizes of objects in memory do not wrap.
pub mod Growth
pub mod Store
pub mod Writes
pub mod Limits
mod Runs
use libkmip.Base.{
  ℕ, zero, suc, ◌+◌, ◌-◌, ◌*◌, ◌%◌, ◌^◌, ◌≤◌, max, Bool, true, false, List, [], ◌∷◌, ◌++◌, ltb, leb,
  ◌==◌, if◌then◌else◌, length, take, drop, replicate, Result, ok, err, ◌>>=◌,
}
use libkmip.Errors.{Error, buffer_exceeds_maximum}

abbrev pub ttlv_alignment : ℕ
ttlv_alignment = 8

abbrev pub default_capacity : ℕ
default_capacity = 8192

abbrev pub min_capacity : ℕ
min_capacity = 1024

-- 100 MB
abbrev pub max_capacity : ℕ
max_capacity = 100 * 1024 * 1024

pub record SerializationBuffer : Type 0 where
  pub buffer : List ℕ
  pub capacity : ℕ
  pub current_offset : ℕ

-- What a method that may throw does to the buffer.
abbrev pub Write : Type 0
Write = SerializationBuffer → Result Error SerializationBuffer

abbrev pub create : ℕ → SerializationBuffer
create initial_capacity = record { buffer = []; capacity = initial_capacity; current_offset = 0 }

-- `std::vector::resize`: cut, or filled up by zeros.
abbrev pub resize : ℕ → List ℕ → List ℕ
resize n xs = take n xs ++ replicate (n - length xs) 0

-- `memcpy` and `memset` into the vector, from an offset on.
abbrev pub overwrite : ℕ → List ℕ → List ℕ → List ℕ
overwrite offset bytes xs = take offset xs ++ (bytes ++ drop (offset + length bytes) xs)

-- `while (new_capacity < required) new_capacity *= 2;` on a 64-bit size_t.
unfoldable pub double_until : ℕ → ℕ → ℕ → ℕ
double_until zero new_capacity required = new_capacity
double_until (suc fuel) new_capacity required =
    let more = double_until fuel (new_capacity * 2 % 2 ^ 64) required in
    if ltb new_capacity required then more else new_capacity

unfoldable pub expand_capacity : ℕ → Write
expand_capacity required b =
    let start = if b.capacity == 0 then min_capacity else b.capacity in
    let new_capacity = double_until 64 start required in
    if ltb max_capacity new_capacity
    then err buffer_exceeds_maximum
    else ok (record b { capacity = max b.capacity new_capacity })

unfoldable pub ensure_space : ℕ → Write
ensure_space required b =
    if leb (b.current_offset + required) b.capacity
    then ok b
    else expand_capacity (b.current_offset + required) b

-- The common end of the three writers: grow the vector to what is needed and store the bytes.
unfoldable pub store : List ℕ → SerializationBuffer → SerializationBuffer
store bytes b =
    let stop = b.current_offset + length bytes in
    let grown = if ltb (length b.buffer) stop then resize stop b.buffer else b.buffer in
    record b { buffer = overwrite b.current_offset bytes grown; current_offset = stop }

unfoldable pub write_byte : ℕ → Write
write_byte value b = do b' ← ensure_space 1 b; ok (store (value ∷ []) b')

unfoldable pub write_bytes : List ℕ → Write
write_bytes [] b = ok b
write_bytes (x ∷ xs) b = do b' ← ensure_space (length (x ∷ xs)) b; ok (store (x ∷ xs) b')

abbrev pub padding_of : ℕ → ℕ
padding_of length = (ttlv_alignment - length % ttlv_alignment) % ttlv_alignment

unfoldable pub write_zeros : ℕ → Write
write_zeros padding b = do b' ← ensure_space padding b; ok (store (replicate padding 0) b')

unfoldable pub write_padded : List ℕ → Write
write_padded bytes b = do
  b' ← write_bytes bytes b
  if ltb 0 (padding_of (length bytes)) then write_zeros (padding_of (length bytes)) b' else ok b'

abbrev pub size : SerializationBuffer → ℕ
size b = b.current_offset

unfoldable pub remaining : SerializationBuffer → ℕ
remaining b = if ltb b.current_offset b.capacity then b.capacity - b.current_offset else 0

abbrev pub span : SerializationBuffer → List ℕ
span b = take b.current_offset b.buffer

unfoldable pub reset : SerializationBuffer → SerializationBuffer
reset b = record b { current_offset = 0 }

-- The bytes written, and the buffer emptied with its capacity kept.
unfoldable pub release : SerializationBuffer → List ℕ × SerializationBuffer
release b = (span b, record b { buffer = []; current_offset = 0 })

unfoldable pub shrink : SerializationBuffer → SerializationBuffer
shrink b = record { buffer = []; capacity = 0; current_offset = 0 }

-- The writer stays within the vector, and the vector within its storage.
pub record IsValid (b : SerializationBuffer) : Type 0 where
  pub offset_le : b.current_offset ≤ length b.buffer
  pub length_le : length b.buffer ≤ b.capacity
