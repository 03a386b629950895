-- ===== src/Ttlv/Canonical.antt =====
-- What `deserialize` accepts: exactly the encodings, whose bytes stand in the input.
use libkmip.Base.{
  ℕ, zero, suc, ◌+◌, ◌-◌, ◌%◌, ◌^◌, ◌≤◌, ◌<◌, ◌≡◌, ◌≢◌, refl, sym, ap, ap₂, subst, ◌∙◌, arith,
  false, List, [], ◌∷◌, ◌++◌, length, get_or, take, drop, All, Result, ok, ◌==◌, ltb, Holds,
  if-Holds, ok-Holds, err-Holds, throw_if-Holds, >>=-Holds, length-take, take-append-drop,
  drop-drop, drop_step, drop-take, length-append,
}
use libkmip.Errors.{Error}
use libkmip.Ttlv.{Element, element, Value, structure, Items, nil, code_of, type_structure}
use libkmip.Ttlv.Bytes.{IsByte, be24, be32, read_be_u32}
use libkmip.Ttlv.Scan.{get_or-IsByte, take-IsByte, be24-read_tag, be32-read_be_u32}
use libkmip.Ttlv.Primitives.{Primitive, parse_primitive-Primitive}
use libkmip.Ttlv.Encode.{
  encode, encode_items, padded, IsWire, IsWireItems, height, height_items, length-encode,
  padded-encode_items,
}
use libkmip.Ttlv.Deserialize.{
  read_tag, parse_primitive, structure_loop, deserialize_impl, max_structure_depth,
}

-- The element is one that the format can carry, and its encoding stands at the offset.
pub record Accepted (bytes : List ℕ) (off depth : ℕ) (e : Element) (stop : ℕ) : Type 0 where
  pub wire : IsWire e
  pub shallow : depth + height e ≤ max_structure_depth
  pub stop_eq : stop ≡ off + length (encode e)
  pub stop_le : stop ≤ length bytes
  pub there : drop off bytes ≡ encode e ++ drop stop bytes

drop_all : (n : ℕ) (xs : List ℕ) → length xs ≤ n → drop n xs ≡ []
drop_all zero [] h = refl
drop_all zero (x ∷ xs) h = absurd (omega arith)
drop_all (suc n) [] h = refl
drop_all (suc n) (x ∷ xs) h = drop_all n xs (omega arith)

-- The loop has read the view to its end.
record Filled (view : List ℕ) (off depth : ℕ) (items : Items) (stop : ℕ) : Type 0 where
  wire : IsWireItems items
  shallow : depth + height_items items ≤ max_structure_depth
  stop_eq : stop ≡ off + length (encode_items items)
  at_end : stop ≡ length view
  there : drop off view ≡ encode_items items

module _ (parse : ℕ → Result Error (Element × ℕ)) (view : List ℕ) (depth len : ℕ)
    (shallow : depth ≤ max_structure_depth)
    (sound : (o : ℕ)
      → Holds (λ (p : Element × ℕ). Accepted view o (depth + 1) p.0 p.1) (parse o)) where
  abbrev Ends : ℕ → Items × ℕ → Type 0
  Ends off p = Filled view off depth p.0 p.1

  nil-Ends :
      (off current : ℕ)
      → off + len ≡ length view + current
      → off ≤ length view
      → ltb current len ≡ false
      → Ends off (nil, off)
  unfolding encode
  nil-Ends off current h le t =
      let past : len ≤ current = ground arith in
      record {
        wire = tt;
        shallow = omega (arith, shallow);
        stop_eq = omega arith;
        at_end = omega arith;
        there = drop_all off view (omega arith);
      }

  structure_loop-Ends :
      (fuel off current : ℕ)
      → off + len ≡ length view + current
      → off ≤ length view
      → Holds (Ends off) (structure_loop parse fuel len off current)
  unfolding structure_loop encode
  structure_loop-Ends zero off current h le =
      if-Holds (Ends off) (ltb current len) _ _ (λ _. err-Holds (Ends off) _)
        (λ t. ok-Holds (Ends off) _ (nil-Ends off current h le t))
  structure_loop-Ends (suc fuel) off current h le =
      if-Holds (Ends off) (ltb current len) _ _
        (λ _. >>=-Holds (Ends off) (parse off) _ λ (child, o) read.
          let a : Accepted view off (depth + 1) child o = sound off (child, o) read in
          >>=-Holds (Ends off) _ _ λ (rest, stop) more.
            let f : Filled view o depth rest stop =
              structure_loop-Ends fuel o (current + (o - off)) (omega (arith, a.stop_eq)) a.stop_le
                (rest, stop) more in
            ok-Holds (Ends off) _ (record {
              wire = (a.wire, f.wire);
              shallow = omega (arith, a.shallow, f.shallow);
              stop_eq =
                  omega
                    (arith, a.stop_eq, f.stop_eq, length-append (encode child) (encode_items rest));
              at_end = f.at_end;
              there = a.there ∙ ap (λ (xs : List ℕ). encode child ++ xs) f.there;
            }))
        (λ t. ok-Holds (Ends off) _ (nil-Ends off current h le t))

height-flat :
    (tag type : ℕ) (value : Value)
    → code_of value ≢ type_structure
    → height (element tag type value) ≡ 0
height-flat tag type (structure items) s = absurd (s refl)
height-flat tag type value s = refl

-- The header that is read is the one whose bytes stand there.
module _ (bytes : List ℕ) (off : ℕ) (w : All IsByte bytes) (h : off + 8 ≤ length bytes) where
  header_there :
      drop off bytes
      ≡ be24 (read_tag bytes off)
        ++ (get_or bytes (off + 3) 0 % 256 ∷ be32 (read_be_u32 bytes (off + 4))
            ++ drop (off + 8) bytes)
  header_there =
      let t = get_or bytes (off + 3) 0 in
      let byte : t ≡ t % 256 = omega (arith, get_or-IsByte bytes (off + 3) w) in
      let four : off + 3 + 1 ≡ off + 4 = omega arith in
      let eight : off + 4 + 4 ≡ off + 8 = omega arith in
      let len_there : drop (off + 4) bytes
          ≡ be32 (read_be_u32 bytes (off + 4)) ++ drop (off + 8) bytes =
        (be32-read_be_u32 bytes (off + 4) w (omega arith)).0
        ∙ ap (λ (n : ℕ). be32 (read_be_u32 bytes (off + 4)) ++ drop n bytes) eight in
      (be24-read_tag bytes off w (omega arith)).0
      ∙ ap (λ (xs : List ℕ). be24 (read_tag bytes off) ++ xs)
          (drop_step (off + 3) bytes 0 (omega arith)
            ∙ ap₂ (λ (x : ℕ) (xs : List ℕ). x ∷ xs) byte
                (ap (λ (n : ℕ). drop n bytes) four ∙ len_there))

  flat-Accepted :
      (depth : ℕ)
      → depth ≤ max_structure_depth
      → get_or bytes (off + 3) 0 ≢ type_structure
      → Holds
          (λ (p : Element × ℕ). Accepted bytes off depth p.0 p.1)
          (parse_primitive
            (read_tag bytes off)
            (get_or bytes (off + 3) 0)
            (read_be_u32 bytes (off + 4))
            bytes
            (off + 8))
  unfolding encode
  flat-Accepted depth d s (e, stop) read =
      let tag = read_tag bytes off in
      let type = get_or bytes (off + 3) 0 in
      let p : Primitive tag type (read_be_u32 bytes (off + 4)) bytes (off + 8) e stop =
        parse_primitive-Primitive _ _ _ bytes (off + 8) w s e stop read in
      let flat : code_of p.value ≢ type_structure = λ c. s (p.has_type ∙ c) in
      let low : height (element tag type p.value) ≡ 0 = height-flat tag type p.value flat in
      let accepted : Accepted bytes off depth (element tag type p.value) stop = record {
        wire = (
          (be24-read_tag bytes off w (omega arith)).1,
          p.has_type,
          omega (arith, p.len_eq, (be32-read_be_u32 bytes (off + 4) w (omega arith)).1),
          p.wire,
        );
        shallow = omega (arith, low);
        stop_eq = omega (arith, p.stop_eq, length-encode tag type p.value);
        stop_le = p.stop_le;
        there =
            header_there
            ∙ ap₂ (λ (n : ℕ) (xs : List ℕ). be24 tag ++ (type % 256 ∷ be32 n ++ xs)) p.len_eq
                p.there;
      } in
      subst (λ (x : Element). Accepted bytes off depth x stop) (sym p.is_element) accepted

  nested-Accepted :
      (depth : ℕ) (items : Items) (stop : ℕ)
      → get_or bytes (off + 3) 0 ≡ type_structure
      → off + 8 + read_be_u32 bytes (off + 4) ≤ length bytes
      → Filled (take (off + 8 + read_be_u32 bytes (off + 4)) bytes) (off + 8) depth items stop
      → Accepted bytes off depth
          (element (read_tag bytes off) (get_or bytes (off + 3) 0) (structure items))
          stop
  unfolding encode
  nested-Accepted depth items stop t fits f =
      let tag = read_tag bytes off in
      let type = get_or bytes (off + 3) 0 in
      let len = read_be_u32 bytes (off + 4) in
      let small : len < 2 ^ 32 = (be32-read_be_u32 bytes (off + 4) w (omega arith)).1 in
      let view_end : stop ≡ off + 8 + len =
        omega (arith, f.at_end, length-take (off + 8 + len) bytes) in
      let size : len ≡ length (encode_items items) = omega (arith, f.stop_eq, view_end) in
      let body : take len (drop (off + 8) bytes) ≡ encode_items items =
        sym (drop-take (off + 8) len bytes) ∙ f.there in
      let whole : drop (off + 8) bytes ≡ padded (encode_items items) ++ drop stop bytes =
        sym (take-append-drop len (drop (off + 8) bytes))
        ∙ ap₂ (λ (xs ys : List ℕ). xs ++ ys) (body ∙ sym (padded-encode_items items))
            (drop-drop len (off + 8) bytes ∙ ap (λ (n : ℕ). drop n bytes) (sym view_end)) in
      record {
        wire = ((be24-read_tag bytes off w (omega arith)).1, t, omega (arith, size, small), f.wire);
        shallow = f.shallow;
        stop_eq = omega (
          arith,
          view_end,
          size,
          length-encode tag type (structure items),
          ap length (padded-encode_items items),
        );
        stop_le = omega (arith, view_end);
        there =
            header_there
            ∙ ap₂ (λ (n : ℕ) (xs : List ℕ). be24 tag ++ (type % 256 ∷ be32 n ++ xs)) size whole;
      }

  loop-Accepted :
      (parse : ℕ → Result Error (Element × ℕ)) (depth : ℕ)
      → depth ≤ max_structure_depth
      → get_or bytes (off + 3) 0 ≡ type_structure
      → off + 8 + read_be_u32 bytes (off + 4) ≤ length bytes
      → ((o : ℕ)
          → Holds
              (λ (p : Element × ℕ).
                Accepted (take (off + 8 + read_be_u32 bytes (off + 4)) bytes) o (depth + 1) p.0 p.1)
              (parse o))
      → (p : Items × ℕ)
      → structure_loop parse (read_be_u32 bytes (off + 4)) (read_be_u32 bytes (off + 4)) (off + 8) 0
        ≡ ok p
      → Accepted bytes off depth
          (element (read_tag bytes off) (get_or bytes (off + 3) 0) (structure p.0))
          p.1
  loop-Accepted parse depth d t fits sound (items, stop) read =
      let len = read_be_u32 bytes (off + 4) in
      let view = take (off + 8 + len) bytes in
      let size : length view ≡ off + 8 + len = omega (arith, length-take (off + 8 + len) bytes) in
      nested-Accepted depth items stop t fits (
        structure_loop-Ends parse view depth len d sound len (off + 8) 0 (omega (arith, size))
          (omega (arith, size)) (items, stop) read)

pub deserialize_impl-Accepted :
    (levels : ℕ) (bytes : List ℕ) (off depth : ℕ)
    → All IsByte bytes
    → Holds
        (λ (p : Element × ℕ). Accepted bytes off depth p.0 p.1)
        (deserialize_impl levels bytes off depth)
unfolding deserialize_impl
deserialize_impl-Accepted zero bytes off depth w =
    err-Holds (λ (p : Element × ℕ). Accepted bytes off depth p.0 p.1) _
deserialize_impl-Accepted (suc levels) bytes off depth w =
    let Good : Element × ℕ → Type 0 = λ p. Accepted bytes off depth p.0 p.1 in
    let len = read_be_u32 bytes (off + 4) in
    throw_if-Holds Good (ltb max_structure_depth depth) _ _ λ d.
      throw_if-Holds Good (ltb (length bytes) (off + 8)) _ _ λ h.
        let room : off + 8 ≤ length bytes = ground arith in
        let shallow : depth ≤ max_structure_depth = ground arith in
        if-Holds Good (get_or bytes (off + 3) 0 == type_structure) _ _
          (λ t. throw_if-Holds Good (ltb (length bytes) (off + 8 + len)) _ _ λ fits.
            >>=-Holds Good _ _ λ (items, stop) read. ok-Holds Good _ (
              loop-Accepted bytes off w room _ depth shallow (ground arith) (ground arith)
                (λ o. deserialize_impl-Accepted levels _ o (depth + 1) (take-IsByte _ bytes w))
                (items, stop) read))
          (λ t. flat-Accepted bytes off w room depth shallow (λ s. ground arith))
