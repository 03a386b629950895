-- ===== src/Ttlv/Steps.antt =====
-- One step of `deserialize_impl` and of its loop over the children of a structure.
use libkmip.Base.{
  ℕ, zero, suc, ◌+◌, ◌-◌, ◌≤◌, ◌<◌, ◌≡◌, ◌≢◌, refl, ap, ◌∙◌, arith, List, length, get_or, take,
  Result, ok, ◌>>=◌, le→ltb, lt→ltb,
}
use libkmip.Errors.{Error}
use libkmip.Ttlv.{Element, element, structure, nil, cons, type_structure}
use libkmip.Ttlv.Bytes.{read_be_u32}
use libkmip.Ttlv.Deserialize.{
  read_tag, parse_primitive, structure_loop, deserialize_impl, max_structure_depth,
}

-- What the eight bytes at an offset say.
pub record Header (bytes : List ℕ) (off tag type len : ℕ) : Type 0 where
  pub tag_eq : read_tag bytes off ≡ tag
  pub type_eq : get_or bytes (off + 3) 0 ≡ type
  pub len_eq : read_be_u32 bytes (off + 4) ≡ len
  pub off_le : off + 8 ≤ length bytes

module _ (levels : ℕ) (bytes : List ℕ) (off depth tag type len : ℕ)
    (head : Header bytes off tag type len) (shallow : depth ≤ max_structure_depth) where
  pub flat_step :
      type ≢ type_structure
      → deserialize_impl (suc levels) bytes off depth ≡ parse_primitive tag type len bytes (off + 8)
  unfolding deserialize_impl
  flat_step s =
      rw
        (
          le→ltb max_structure_depth depth shallow,
          le→ltb (length bytes) (off + 8) head.off_le,
          head.tag_eq,
          head.type_eq,
          head.len_eq,
        )
        (ground arith)

  pub nested_step :
      type ≡ type_structure
      → off + 8 + len ≤ length bytes
      → deserialize_impl (suc levels) bytes off depth ≡ (
          structure_loop
            (λ o. deserialize_impl levels (take (off + 8 + len) bytes) o (depth + 1))
            len
            len
            (off + 8)
            0
          >>= λ (items, stop). ok (element tag type_structure (structure items), stop))
  unfolding deserialize_impl
  nested_step s fits =
      rw
        (
          le→ltb max_structure_depth depth shallow,
          le→ltb (length bytes) (off + 8) head.off_le,
          head.tag_eq,
          head.type_eq,
          head.len_eq,
          le→ltb (length bytes) (off + 8 + len) fits,
          s,
        )
        refl

module _ (parse : ℕ → Result Error (Element × ℕ)) (fuel len off current : ℕ) where
  pub loop_step :
      {child : Element} {o : ℕ}
      → current < len
      → 0 < fuel
      → parse off ≡ ok (child, o)
      → structure_loop parse fuel len off current ≡ (
          structure_loop parse (fuel - 1) len o (current + (o - off)) >>= λ (rest, stop).
          ok (cons child rest, stop))
  unfolding structure_loop
  loop_step h f e =
      let some_fuel : fuel ≡ suc (fuel - 1) = omega arith in
      ap (λ (n : ℕ). structure_loop parse n len off current) some_fuel
      ∙ rw (lt→ltb current len h, e)

  pub loop_done : len ≤ current → structure_loop parse fuel len off current ≡ ok (nil, off)
  unfolding structure_loop
  loop_done h = go fuel
    where
      go : (fuel : ℕ) → structure_loop parse fuel len off current ≡ ok (nil, off)
      go zero = rw (le→ltb current len h)
      go (suc fuel) = rw (le→ltb current len h)
