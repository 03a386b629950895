-- ===== src/Ttlv/Exact.antt =====
-- `deserialize` accepts exactly the encodings, and always ends.
use libkmip.Base.{
  ℕ, zero, suc, ◌+◌, ◌-◌, ◌≤◌, ◌≡◌, ◌≢◌, refl, sym, ap, ◌∙◌, arith, Bool, true, false, List, ◌++◌,
  length, get_or, drop, take, All, Result, ok, err, ◌>>=◌, ◌>>◌, throw_if, if◌then◌else◌, ltb, ◌==◌,
  Holds,
}
use mathlib.Core.Logic.{◌↔◌}
use libkmip.Errors.{
  Error, out_of_fuel, short_value, nesting_too_deep, short_header, short_structure,
}
use libkmip.Ttlv.{Element, type_structure}
use libkmip.Ttlv.Bytes.{IsByte, read_be_u32}
use libkmip.Ttlv.Encode.{encode, IsWire, height}
use libkmip.Ttlv.Scan.{take-IsByte}
use libkmip.Ttlv.RoundTrip.{deserialize_impl-encode, eight_le}
use libkmip.Ttlv.Canonical.{Accepted, deserialize_impl-Accepted}
use libkmip.Ttlv.Deserialize.{
  padded_length_of, parse_value, zero_padding_loop, parse_primitive, structure_loop,
  deserialize_impl, deserialize, max_structure_depth,
}

-- On bytes, `deserialize` returns an element and a stop offset exactly when the element is one that
-- the format can carry, is nested at most 64 deep, and its encoding stands in the input from the
-- offset up to the stop.
pub deserialize_iff :
    (bytes : List ℕ) (off stop : ℕ) (e : Element)
    → All IsByte bytes
    → (deserialize bytes off ≡ ok (e, stop)) ↔ (
        IsWire e
        × (height e ≤ max_structure_depth)
        × (stop ≡ off + length (encode e))
        × (drop off bytes ≡ encode e ++ drop stop bytes))
unfolding deserialize
deserialize_iff bytes off stop e w = (
  (λ read.
      let a : Accepted bytes off 0 e stop =
        deserialize_impl-Accepted 66 bytes off 0 w (e, stop) read in
      (a.wire, omega (arith, a.shallow), a.stop_eq, a.there)),
  (λ (wire, low, ends, there).
      deserialize_impl-encode e 66 bytes (drop stop bytes) off 0 wire (omega arith) (omega arith)
        there
      ∙ ap (λ (n : ℕ). ok (e, n)) (sym ends)),
)

-- Rules for code that does not run out of fuel.
abbrev Ends : {A : Type 0} → Result Error A → Type 0
Ends r = r ≢ err out_of_fuel

ok-Ends : {A : Type 0} (a : A) → Ends (ok a)
ok-Ends a e = cc

if-Ends :
    {A : Type 0} (t : Bool) (x y : Result Error A)
    → (t ≡ true → Ends x)
    → (t ≡ false → Ends y)
    → Ends (if t then x else y)
if-Ends true x y h k = h refl
if-Ends false x y h k = k refl

throw_if-Ends :
    {A : Type 0} (t : Bool) (x : Error) (k : Result Error A)
    → x ≢ out_of_fuel
    → (t ≡ false → Ends k)
    → Ends (throw_if t x >> k)
throw_if-Ends true x k n h = λ e. n (ground arith)
throw_if-Ends false x k n h = h refl

>>=-Ends :
    {A B : Type 0} (m : Result Error A) (f : A → Result Error B)
    → Ends m
    → ((a : A) → m ≡ ok a → Ends (f a))
    → Ends (m >>= f)
>>=-Ends (ok a) f n h = h a refl
>>=-Ends (err x) f n h = λ e. n (ground arith)

zero_padding_loop-Ends : (n : ℕ) (bytes : List ℕ) (i : ℕ) → Ends (zero_padding_loop n bytes i)
unfolding zero_padding_loop
zero_padding_loop-Ends zero bytes i = λ e. cc
zero_padding_loop-Ends (suc n) bytes i =
    throw_if-Ends _ _ _ (λ e. cc) (λ _. zero_padding_loop-Ends n bytes (i + 1))

parse_value-Ends : (type len : ℕ) (bytes : List ℕ) (off : ℕ) → Ends (parse_value type len bytes off)
unfolding parse_value
parse_value-Ends type len bytes off = λ e. ground arith

parse_primitive-Ends :
    (tag type len : ℕ) (bytes : List ℕ) (off : ℕ) → Ends (parse_primitive tag type len bytes off)
unfolding parse_primitive
parse_primitive-Ends tag type len bytes off =
    throw_if-Ends (ltb (length bytes) (off + padded_length_of type len)) short_value _ (λ e. cc)
      λ _. >>=-Ends (parse_value type len bytes off) _ (parse_value-Ends type len bytes off) λ v _.
        >>=-Ends (zero_padding_loop _ bytes _) _ (zero_padding_loop-Ends _ bytes _) λ _ _. ok-Ends _

-- With a round for each byte that is left the loop ends, as each child takes eight bytes.
structure_loop-Ends :
    (parse : ℕ → Result Error (Element × ℕ)) (len : ℕ)
    → ((o : ℕ) → Ends (parse o))
    → ((o : ℕ) → Holds (λ (p : Element × ℕ). o + 8 ≤ p.1) (parse o))
    → (fuel off current : ℕ) → len ≤ current + fuel
    → Ends (structure_loop parse fuel len off current)
unfolding structure_loop
structure_loop-Ends parse len total grows zero off current h =
    if-Ends (ltb current len) _ _ (λ t. absurd (ground arith)) (λ _. ok-Ends _)
structure_loop-Ends parse len total grows (suc fuel) off current h =
    if-Ends (ltb current len) _ _
      (λ t. >>=-Ends (parse off) _ (total off) λ (child, o) read.
        let far : off + 8 ≤ o = grows off (child, o) read in
        >>=-Ends _ _
          (structure_loop-Ends parse len total grows fuel o (current + (o - off)) (omega arith))
          (λ _ _. ok-Ends _))
      (λ _. ok-Ends _)

takes_eight :
    (levels : ℕ) (bytes : List ℕ) (off depth : ℕ)
    → All IsByte bytes
    → Holds (λ (p : Element × ℕ). off + 8 ≤ p.1) (deserialize_impl levels bytes off depth)
takes_eight levels bytes off depth w (e, stop) read =
    let a : Accepted bytes off depth e stop =
      deserialize_impl-Accepted levels bytes off depth w (e, stop) read in
    omega (arith, a.stop_eq, eight_le e)

deserialize_impl-Ends :
    (levels : ℕ) (bytes : List ℕ) (off depth : ℕ)
    → All IsByte bytes
    → max_structure_depth + 2 ≤ levels + depth
    → depth ≤ max_structure_depth + 1
    → Ends (deserialize_impl levels bytes off depth)
unfolding deserialize_impl
deserialize_impl-Ends zero bytes off depth w h d = absurd (omega arith)
deserialize_impl-Ends (suc levels) bytes off depth w h d =
    let len = read_be_u32 bytes (off + 4) in
    let view = take (off + 8 + len) bytes in
    throw_if-Ends (ltb max_structure_depth depth) nesting_too_deep _ (λ e. cc)
      λ low.
        let shallow : depth ≤ max_structure_depth = ground arith in
        throw_if-Ends (ltb (length bytes) (off + 8)) short_header _ (λ e. cc)
          λ _.
            if-Ends (get_or bytes (off + 3) 0 == type_structure) _ _
              (λ _.
                throw_if-Ends (ltb (length bytes) (off + 8 + len)) short_structure _ (λ e. cc)
                  λ _.
                    >>=-Ends _ _
                      (structure_loop-Ends (λ o. deserialize_impl levels view o (depth + 1)) len
                        (λ o.
                          deserialize_impl-Ends levels view o (depth + 1) (take-IsByte _ bytes w)
                            (omega arith) (omega arith))
                        (λ o. takes_eight levels view o (depth + 1) (take-IsByte _ bytes w)) len
                        (off + 8) 0 (omega arith))
                      (λ _ _. ok-Ends _))
              (λ _. parse_primitive-Ends _ _ len bytes (off + 8))

-- `deserialize` ends on every input of bytes: neither its recursion nor its loop runs out of fuel,
-- so that it returns an element or throws.
pub deserialize_ends :
    (bytes : List ℕ) (off : ℕ) → All IsByte bytes → deserialize bytes off ≢ err out_of_fuel
unfolding deserialize
deserialize_ends bytes off w = deserialize_impl-Ends 66 bytes off 0 w (omega arith) (omega arith)
