-- ===== src/Ttlv/Reads.antt =====
-- What the `switch` of `deserialize_impl` reads: a value of the given type, whose bytes stand there.
use libkmip.Base.{
  ℕ, ◌+◌, ◌^◌, ◌≤◌, ◌<◌, ◌≡◌, ◌≢◌, refl, sym, ap₂, subst, arith, ◌⊎◌, inl, inr, not, ◌&&◌, List,
  length, take, drop, All, ok, ◌==◌, ◌>>◌, Holds, if-Holds, ok-Holds, throw_if,
}
use libkmip.Errors.{Error, invalid_boolean_length, non_canonical_boolean}
use libkmip.Ttlv.{
  Value, boolean, code_of, type_structure, type_integer, type_long_integer, type_big_integer,
  type_enumeration, type_boolean, type_text_string, type_byte_string, type_date_time, type_interval,
  type_date_time_extended,
}
use libkmip.Ttlv.Bytes.{IsByte, be32, be64, read_be_u32, read_be_u64}
use libkmip.Ttlv.Scan.{take-IsByte, drop-IsByte, be32-read_be_u32, be64-read_be_u64}
use libkmip.Ttlv.Encode.{encode, payload, IsWireValue}
use libkmip.Ttlv.Deserialize.{subspan, fixed, parse_value}

-- The value that was read belongs to the type, and its bytes stand at the offset.
abbrev pub ReadsAs : ℕ → ℕ → List ℕ → ℕ → Value → Type 0
ReadsAs type len bytes off value =
    (type ≡ code_of value) × IsWireValue value × (payload value ≡ subspan bytes off len)

module _ (type len : ℕ) (bytes : List ℕ) (off : ℕ) (w : All IsByte bytes)
    (fits : off + len ≤ length bytes) where
  abbrev Reads : Value → Type 0
  Reads = ReadsAs type len bytes off

  word32 :
      len ≡ 4
      → (be32 (read_be_u32 bytes off) ≡ subspan bytes off len) × (read_be_u32 bytes off < 2 ^ 32)
  word32 l =
      let (there, small) = be32-read_be_u32 bytes off w (omega arith) in
      (sym (ap₂ (λ (n : ℕ) (xs : List ℕ). take n xs) l there), small)

  word64 :
      len ≡ 8
      → (be64 (read_be_u64 bytes off) ≡ subspan bytes off len) × (read_be_u64 bytes off < 2 ^ 64)
  word64 l =
      let (there, small) = be64-read_be_u64 bytes off w (omega arith) in
      (sym (ap₂ (λ (n : ℕ) (xs : List ℕ). take n xs) l there), small)

  fixed-Reads :
      (expected : ℕ) (invalid : Error) (value : Value)
      → (len ≡ expected → Reads value)
      → Holds Reads (fixed len expected invalid value)
  fixed-Reads expected invalid value h v e =
      let l : len ≡ expected = ground arith in
      let same : value ≡ v = ground arith in subst Reads same (h l)

  text-IsByte : All IsByte (subspan bytes off len)
  text-IsByte = take-IsByte len (drop off bytes) (drop-IsByte off bytes w)

  boolean-Reads :
      type ≡ type_boolean
      → Holds Reads (
          throw_if (not (len == 8)) invalid_boolean_length
          >> (throw_if
                (not (read_be_u64 bytes off == 0) && not (read_be_u64 bytes off == 1))
                non_canonical_boolean
              >> ok (boolean (read_be_u64 bytes off == 1))))
  unfolding encode
  boolean-Reads t v e =
      let l : len ≡ 8 = ground arith in
      let (there, small) = word64 l in
      let value : (v ≡ boolean (read_be_u64 bytes off == 1))
          × ((read_be_u64 bytes off ≡ 0) ⊎ (read_be_u64 bytes off ≡ 1)) =
        ground arith in
      rw value.0
        (t, tt, elim value.1 [ inl z ↦ rw (z) (rw z at there) | inr o ↦ rw o (rw o at there) ])

  pub parse_value-Reads : type ≢ type_structure → Holds Reads (parse_value type len bytes off)
  unfolding parse_value encode
  parse_value-Reads s =
      if-Holds Reads (type == type_integer) _ _
        (λ t. fixed-Reads 4 _ _ (λ l. (ground arith, (word32 l).1, (word32 l).0)))
        (λ _.
          if-Holds Reads (type == type_long_integer) _ _
            (λ t. fixed-Reads 8 _ _ (λ l. (ground arith, (word64 l).1, (word64 l).0)))
            (λ _.
              if-Holds Reads (type == type_boolean) _ _ (λ t. boolean-Reads (ground arith))
                (λ _.
                  if-Holds Reads (type == type_enumeration) _ _
                    (λ t. fixed-Reads 4 _ _ (λ l. (ground arith, (word32 l).1, (word32 l).0)))
                    (λ _.
                      if-Holds Reads (type == type_text_string) _ _
                        (λ t. ok-Holds Reads _ (ground arith, text-IsByte, refl))
                        (λ _.
                          if-Holds Reads (type == type_byte_string) _ _
                            (λ t. ok-Holds Reads _ (ground arith, text-IsByte, refl))
                            (λ _.
                              if-Holds Reads (type == type_date_time) _ _
                                (λ t.
                                  fixed-Reads 8 _ _
                                    (λ l. (ground arith, (word64 l).1, (word64 l).0)))
                                (λ _.
                                  if-Holds Reads (type == type_interval) _ _
                                    (λ t.
                                      fixed-Reads 4 _ _
                                        (λ l. (ground arith, (word32 l).1, (word32 l).0)))
                                    (λ _.
                                      if-Holds Reads (type == type_big_integer) _ _
                                        (λ t. ok-Holds Reads _ (ground arith, text-IsByte, refl))
                                        (λ _.
                                          if-Holds Reads (type == type_date_time_extended) _ _
                                            (λ t.
                                              fixed-Reads 8 _ _
                                                (λ l. (ground arith, (word64 l).1, (word64 l).0)))
                                            (λ _ v e. cc))))))))))
