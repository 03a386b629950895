-- ===== src/Ttlv/RoundTrip.antt =====
-- `deserialize` after `serialize`.
use libkmip.Base.{
  ℕ, suc, ◌+◌, ◌-◌, ◌≤◌, ◌<◌, ◌≡◌, refl, sym, ap, ap₂, ◌∙◌, arith, List, ◌++◌, length, take, drop,
  ok, length-append, length-drop, take-append, drop-append, drop-at, drop-take,
}
use libkmip.Buffer.{SerializationBuffer, span}
use libkmip.Buffer.Store.{safe_size}
use libkmip.Ttlv.{Element, element, structure, Items, nil, cons}
use libkmip.Ttlv.Bytes.{Endian}
use libkmip.Ttlv.Encode.{
  encode, encode_items, padded, IsWire, IsWireItems, height, height_items, length-encode,
  padded-encode_items,
}
use libkmip.Ttlv.Serialize.{serialize, fresh}
use libkmip.Ttlv.Written.{serialize-encode, fresh-IsValid}
use libkmip.Ttlv.Deserialize.{structure_loop, deserialize_impl, deserialize, max_structure_depth}
use libkmip.Ttlv.Steps.{nested_step, loop_step, loop_done}
use libkmip.Ttlv.ReadBack.{encoded-Header, flat-encode}

-- The view of a structure's body holds its items and nothing behind them.
view-drop :
    (off len : ℕ) (bytes body rest : List ℕ)
    → drop off bytes ≡ body ++ rest
    → len ≡ length body
    → drop off (take (off + len) bytes) ≡ body
view-drop off len bytes body rest e k =
    drop-take off len bytes ∙ ap (take len) e ∙ take-append body rest len k

pub eight_le : (e : Element) → 8 ≤ length (encode e)
eight_le (element tag type value) = omega (arith, length-encode tag type value)

mutual
  unfolding encode

  pub deserialize_impl-encode :
      (e : Element) (levels : ℕ) (bytes rest : List ℕ) (off depth : ℕ)
      → IsWire e
      → height e < levels
      → depth + height e ≤ max_structure_depth
      → drop off bytes ≡ encode e ++ rest
      → deserialize_impl levels bytes off depth ≡ ok (e, off + length (encode e))
  deserialize_impl-encode (element tag type (structure items)) levels bytes rest off depth w l d h =
      let some_level : levels ≡ suc (levels - 1) = omega arith in
      let len : ℕ = length (encode_items items) in
      let (head, padded_body) =
        encoded-Header bytes off tag type len (padded (encode_items items) ++ rest) w.0
          (omega (arith, w.1)) w.2 h in
      let body : drop (off + 8) bytes ≡ encode_items items ++ rest =
        padded_body ∙ ap (λ (xs : List ℕ). xs ++ rest) (padded-encode_items items) in
      let fits : off + 8 + len ≤ length bytes = omega (
        arith,
        head.off_le,
        length-drop (off + 8) bytes,
        ap length body,
        length-append (encode_items items) rest,
      ) in
      ap (λ (n : ℕ). deserialize_impl n bytes off depth) some_level
      ∙ nested_step (levels - 1) bytes off depth tag type len head (omega (arith, d)) w.1 fits
      ∙ rw
          (structure_loop-encode items (levels - 1) (take (off + 8 + len) bytes) (off + 8) depth len
            len 0 w.3 (omega (arith, l)) d (view-drop (off + 8) len bytes _ rest body refl)
            (omega arith) (omega arith))
          (ap₂ (λ (t n : ℕ). ok (element tag t (structure items), n)) (sym w.1)
            (omega (arith, ap length (padded-encode_items items))))
  deserialize_impl-encode (element tag type value) levels bytes rest off depth w l d h =
      let some_level : levels ≡ suc (levels - 1) = omega arith in
      ap (λ (n : ℕ). deserialize_impl n bytes off depth) some_level
      ∙ flat-encode (levels - 1) tag type value bytes rest off depth (λ c. cc) w (omega arith) h

  structure_loop-encode :
      (items : Items) (levels : ℕ) (view : List ℕ) (off depth fuel len current : ℕ)
      → IsWireItems items
      → height_items items ≤ levels
      → depth + height_items items ≤ max_structure_depth
      → drop off view ≡ encode_items items
      → current + length (encode_items items) ≡ len
      → length (encode_items items) ≤ fuel
      → structure_loop (λ o. deserialize_impl levels view o (depth + 1)) fuel len off current
        ≡ ok (items, off + length (encode_items items))
  structure_loop-encode nil levels view off depth fuel len current w l d h c f =
      loop_done _ fuel len off current (omega arith) ∙ ap (λ (n : ℕ). ok (nil, n)) (omega arith)
  structure_loop-encode (cons item items) levels view off depth fuel len current w l d h c f =
      let read : deserialize_impl levels view off (depth + 1)
          ≡ ok (item, off + length (encode item)) =
        deserialize_impl-encode item levels view (encode_items items) off (depth + 1) w.0
          (omega arith) (omega arith) h in
      let sum : length (encode item ++ encode_items items)
          ≡ length (encode item) + length (encode_items items) =
        length-append (encode item) (encode_items items) in
      let head_size : 8 ≤ length (encode item) = eight_le item in
      loop_step _ fuel len off current (omega arith) (omega arith) read
      ∙ rw
          (structure_loop-encode items levels view (off + length (encode item)) depth (fuel - 1) len
            (current + (off + length (encode item) - off)) w.1 (omega arith) (omega arith)
            (drop-at off view (encode item) (encode_items items) _ h refl) (omega arith)
            (omega arith))
          (ap (λ (n : ℕ). ok (cons item items, n)) (omega arith))

-- Reading back what was written: an element that the format can carry and that is nested at most 64
-- deep, serialized on any host to at most 50 MB, is deserialized from those bytes, at any offset and
-- whatever follows, to the same element, and the offset moves past them.
pub deserialize-serialize :
    (host : Endian) (e : Element) (front rest : List ℕ)
    → IsWire e
    → height e ≤ max_structure_depth
    → length (encode e) ≤ safe_size
    → (b : SerializationBuffer) × (serialize host e fresh ≡ ok b)
      × (deserialize (front ++ (span b ++ rest)) (length front)
          ≡ ok (e, length front + length (span b)))
unfolding deserialize
deserialize-serialize host e front rest w d h =
    let (b, done, valid, content) = serialize-encode host e fresh fresh-IsValid (omega arith) in
    (
      b,
      done,
      rw content (
          deserialize_impl-encode e 66 (front ++ (encode e ++ rest)) rest (length front) 0 w
            (omega arith) (omega arith) (drop-append front _ (length front) refl)),
    )
