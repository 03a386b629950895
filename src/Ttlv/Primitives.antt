-- ===== src/Ttlv/Primitives.antt =====
-- What `parse_primitive` accepts: a padded value that stands at the offset.
use libkmip.Base.{
  ℕ, ◌+◌, ◌-◌, ◌≤◌, ◌≡◌, ◌≢◌, sym, ap, ap₂, ◌∙◌, arith, inl, inr, List, ◌++◌, length, drop,
  replicate, All, ok, Result-cases, length-take, length-drop, append_assoc, take-append-drop,
  drop-drop,
}
use libkmip.Buffer.{padding_of}
use libkmip.Ttlv.{Element, element, Value, code_of, type_structure}
use libkmip.Ttlv.Bytes.{IsByte}
use libkmip.Ttlv.Scan.{zero_padding_loop_zeros}
use libkmip.Ttlv.Reads.{parse_value-Reads}
use libkmip.Ttlv.Encode.{payload, padded, IsWireValue, length-padded}
use libkmip.Ttlv.Deserialize.{
  subspan, padded_length_of, zero_padding_loop, parse_value, parse_primitive,
}

padded_length_ge : (type len : ℕ) → len ≤ padded_length_of type len
padded_length_ge type len = ground arith

pub record Primitive (tag type len : ℕ) (bytes : List ℕ) (off : ℕ) (e : Element) (stop : ℕ)
    : Type 0 where
  pub value : Value
  pub is_element : e ≡ element tag type value
  pub has_type : type ≡ code_of value
  pub wire : IsWireValue value
  pub len_eq : len ≡ length (payload value)
  pub there : drop off bytes ≡ padded (payload value) ++ drop stop bytes
  pub stop_eq : stop ≡ off + length (padded (payload value))
  pub stop_le : stop ≤ length bytes

padded_length_of-flat :
    (type len : ℕ) → type ≢ type_structure → padded_length_of type len ≡ len + padding_of len
padded_length_of-flat type len s = ground arith

length-subspan :
    (bytes : List ℕ) (off len : ℕ) → off + len ≤ length bytes → length (subspan bytes off len) ≡ len
length-subspan bytes off len h =
    omega (arith, length-take len (drop off bytes), length-drop off bytes)

-- A part of the input, the zeros behind it, and the rest.
padded_part :
    (bytes text : List ℕ) (off len : ℕ)
    → off + len + padding_of len ≤ length bytes
    → text ≡ subspan bytes off len
    → zero_padding_loop (padding_of len) bytes (off + len) ≡ ok tt
    → (len ≡ length text)
      × (drop off bytes ≡ padded text ++ drop (off + (len + padding_of len)) bytes)
padded_part bytes text off len h e zeros =
    let size : length text ≡ len = ap length e ∙ length-subspan bytes off len (omega arith) in
    let same : off + len + padding_of len ≡ off + (len + padding_of len) = omega arith in
    let tail : drop (off + len) bytes
        ≡ replicate (padding_of (length text)) 0 ++ drop (off + (len + padding_of len)) bytes =
      zero_padding_loop_zeros (padding_of len) bytes (off + len) h zeros
      ∙ ap₂ (λ (k m : ℕ). replicate (padding_of k) 0 ++ drop m bytes) (sym size) same in
    (
      sym size,
      sym (take-append-drop len (drop off bytes))
          ∙ ap₂ (λ (xs ys : List ℕ). xs ++ ys) (sym e) (drop-drop len off bytes ∙ tail)
          ∙ sym (append_assoc text (replicate (padding_of (length text)) 0) _),
    )

module _ (tag type len : ℕ) (bytes : List ℕ) (off : ℕ) (w : All IsByte bytes)
    (flat : type ≢ type_structure) where
  pub parse_primitive-Primitive :
      (e : Element) (stop : ℕ)
      → parse_primitive tag type len bytes off ≡ ok (e, stop)
      → Primitive tag type len bytes off e stop
  unfolding parse_primitive
  parse_primitive-Primitive e stop h =
      let n : ℕ = padded_length_of type len in
      let fits : off + n ≤ length bytes = ground arith in
      let size : n ≡ len + padding_of len = padded_length_of-flat type len flat in
      let todo : n - len ≡ padding_of len = omega (arith, size) in
      elim (Result-cases (parse_value type len bytes off)) [
        | inl (value, read) ↦ elim (Result-cases (zero_padding_loop (n - len) bytes (off + len))) [
          | inl (_, zeros) ↦
              let (t, v, p) =
                parse_value-Reads type len bytes off w (omega (arith, padded_length_ge type len))
                  flat value read in
              let (l, there) =
                padded_part bytes (payload value) off len (omega (arith, size)) p
                  (rw todo at zeros) in
              let is : e ≡ element tag type value = ground arith in
              let ends : stop ≡ off + n = ground arith in
              let ends' : stop ≡ off + (len + padding_of len) = omega (arith, ends, size) in
              record {
                value = value;
                is_element = is;
                has_type = t;
                wire = v;
                len_eq = l;
                there = rw ends' there;
                stop_eq = omega (arith, ends', l, length-padded (payload value));
                stop_le = omega (arith, ends);
              }
          | inr (x, failed) ↦ absurd (ground arith)
        ]
        | inr (x, failed) ↦ absurd (ground arith)
      ]
