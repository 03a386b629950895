-- ===== src/Buffer/Runs.antt =====
-- Runs of the buffer, and its theorems at concrete inputs.
use libkmip.Base.{◌+◌, ◌*◌, ◌^◌, ◌≤◌, ◌≡◌, refl, arith, [], ◌∷◌, ok, err}
use libkmip.Errors.{buffer_exceeds_maximum}
use libkmip.Buffer.{
  SerializationBuffer, IsValid, create, double_until, expand_capacity, ensure_space, store,
  write_bytes, span,
}
use libkmip.Buffer.Limits.{write_bytes_bounded, ensure_space-over}

abbrev small : SerializationBuffer
small = create 2

small-IsValid : IsValid small
small-IsValid = record { offset_le = omega arith; length_le = omega arith }

abbrev after_three : SerializationBuffer
after_three = record { buffer = 7 ∷ 8 ∷ 9 ∷ []; capacity = 4; current_offset = 3 }

three_written : write_bytes (7 ∷ 8 ∷ 9 ∷ []) small ≡ ok after_three
unfolding write_bytes ensure_space expand_capacity double_until store
three_written = refl

padded_run : span after_three ≡ 7 ∷ 8 ∷ 9 ∷ []
padded_run = refl

write_bytes_bounded_example :
    IsValid after_three × (4 ≤ 100 * 1024 * 1024) × (span after_three ≡ 7 ∷ 8 ∷ 9 ∷ [])
write_bytes_bounded_example =
    write_bytes_bounded (7 ∷ 8 ∷ 9 ∷ []) small after_three small-IsValid (omega arith) (omega arith)
      three_written

ensure_space-over_example : ensure_space (2 ^ 26 + 1) (create 8192) ≡ err buffer_exceeds_maximum
ensure_space-over_example =
    ensure_space-over 13 (2 ^ 26 + 1) (create 8192) refl (omega arith) (omega arith) (omega arith)
