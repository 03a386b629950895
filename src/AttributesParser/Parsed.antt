-- ===== src/AttributesParser/Parsed.antt =====
-- Any elements, read by `AttributesParser::parse` of kmipcore/src/attributes_parser.cpp.
use libkmip.Base.{
  ℕ, ◌≡◌, refl, Bool, true, false, ◌||◌, List, [], ◌∷◌, All, Option, none, some, Result, ok, ◌==◌,
  codes, same_text, ok-Holds, >>=-Holds,
}
use libkmip.Errors.{Error}
use libkmip.Ttlv.{
  Element, Items, nil, cons, element, structure, integer, long_integer, big_integer, enumeration,
  boolean, text_string, byte_string, date_time, date_time_extended, interval, tag_of,
}
use libkmip.Ttlv.Access.{find, get_child, to_string}
use libkmip.Codes.{
  tag_cryptographic_algorithm, tag_cryptographic_length, tag_cryptographic_usage_mask, tag_state,
  tag_name, tag_name_value, tag_object_group, tag_activation_date, tag_deactivation_date,
  tag_process_start_date, tag_protect_stop_date,
}
use libkmip.Protocol.Tags.{
  tag_attribute, tag_attribute_name, tag_attribute_value, tag_unique_identifier,
}
use libkmip.Attributes.Names.{
  attr_name, attr_group, attr_unique_identifier, attr_activation_date, attr_deactivation_date,
  attr_process_start_date, attr_protect_stop_date, attr_crypto_alg, attr_crypto_len,
  attr_crypto_usage_mask, attr_state,
}
use libkmip.Attributes.{Attributes, no_attributes, set_string}
use libkmip.Attributes.Laws.{is_well_known}
use libkmip.Attributes.Routing.{and_false}
use libkmip.Ttlv.Encode.{IsWire, IsWireItems}
use libkmip.Locate.Found.{if_both}
use libkmip.AttributesParser.{
  parse, parse_loop, parse_attribute, parse_named, parse_v1_attribute, parse_v2_typed_attribute,
  set_child,
}
use libkmip.AttributesParser.Checked.{
  IsChecked, KeepsAll, set_read-KeepsAll, set_child-KeepsAll, if-KeepsAll, read_algorithm-KeepsAll,
  read_mask-KeepsAll, read_state-KeepsAll, read_length-KeepsAll,
}
use libkmip.AttributesParser.Stored.{
  set_string-Keeps, set_date-KeepsAll, store_generic-KeepsAll, store_unmapped-KeepsAll,
}

abbrev IsWireOption : Option Element → Type 0
IsWireOption (some e) = IsWire e
IsWireOption none = Unit

find-IsWire : (tag : ℕ) (items : Items) → IsWireItems items → IsWireOption (find tag items)
unfolding find
find-IsWire tag nil w = tt
find-IsWire tag (cons e items) w =
    let rest = find-IsWire tag items w.1 in
    if_both IsWireOption (tag_of e == tag) (some e) (find tag items) (λ _. w.0) (λ _. rest)

get_child-IsWire : (tag : ℕ) (e : Element) → IsWire e → IsWireOption (get_child tag e)
unfolding get_child
get_child-IsWire child (element tag type (structure items)) w = find-IsWire child items w.3
get_child-IsWire child (element tag type (integer n)) w = tt
get_child-IsWire child (element tag type (long_integer n)) w = tt
get_child-IsWire child (element tag type (big_integer bytes)) w = tt
get_child-IsWire child (element tag type (enumeration n)) w = tt
get_child-IsWire child (element tag type (boolean b)) w = tt
get_child-IsWire child (element tag type (text_string bytes)) w = tt
get_child-IsWire child (element tag type (byte_string bytes)) w = tt
get_child-IsWire child (element tag type (date_time n)) w = tt
get_child-IsWire child (element tag type (date_time_extended n)) w = tt
get_child-IsWire child (element tag type (interval n)) w = tt

set_wire_child-KeepsAll :
    (read : Element → Attributes → Result Error Attributes) (child : Option Element)
    → IsWireOption child
    → ((e : Element) → IsWire e → KeepsAll (read e))
    → KeepsAll (set_child read child)
set_wire_child-KeepsAll read (some e) w h = λ a c. h e w a c
set_wire_child-KeepsAll read none w h = λ a c. ok-Holds IsChecked a c

other_name :
    (p q r t : Bool)
    → p ≡ false
    → q ≡ false
    → r ≡ false
    → t ≡ false
    → (p || (q || (r || t))) ≡ false
other_name true q r t = λ e f g h. cc
other_name false true r t = λ e f g h. cc
other_name false false true t = λ e f g h. cc
other_name false false false t = λ e f g h. h

module _ (date_to_string : ℕ → List ℕ) where
  parse_v2-KeepsAll :
      (e : Element) → IsWire e → KeepsAll (parse_v2_typed_attribute date_to_string e)
  unfolding parse_v2_typed_attribute
  parse_v2-KeepsAll e w =
      let text = λ (name : List ℕ) (plain : is_well_known name ≡ false) (from : Element).
        set_read-KeepsAll (set_string name) (to_string from)
          (λ v _. set_string-Keeps name plain v) in
      let t = tag_of e in
      if-KeepsAll (t == tag_cryptographic_algorithm) _ _ (λ _. read_algorithm-KeepsAll e w)
        (λ _.
          if-KeepsAll (t == tag_cryptographic_length) _ _ (λ _. read_length-KeepsAll e w)
            (λ _.
              if-KeepsAll (t == tag_cryptographic_usage_mask) _ _ (λ _. read_mask-KeepsAll e w)
                (λ _.
                  if-KeepsAll (t == tag_state) _ _ (λ _. read_state-KeepsAll e w)
                    (λ _.
                      if-KeepsAll (t == tag_name) _ _
                        (λ _.
                          set_child-KeepsAll _ (get_child tag_name_value e) (text attr_name refl))
                        (λ _.
                          if-KeepsAll (t == tag_object_group) _ _ (λ _. text attr_group refl e)
                            (λ _.
                              if-KeepsAll (t == tag_unique_identifier) _ _
                                (λ _. text attr_unique_identifier refl e)
                                (λ _.
                                  if-KeepsAll (t == tag_activation_date) _ _
                                    (λ _.
                                      set_date-KeepsAll date_to_string attr_activation_date e refl)
                                    (λ _.
                                      if-KeepsAll (t == tag_deactivation_date) _ _
                                        (λ _.
                                          set_date-KeepsAll date_to_string attr_deactivation_date e
                                            refl)
                                        (λ _.
                                          if-KeepsAll (t == tag_process_start_date) _ _
                                            (λ _.
                                              set_date-KeepsAll date_to_string
                                                attr_process_start_date e refl)
                                            (λ _.
                                              if-KeepsAll (t == tag_protect_stop_date) _ _
                                                (λ _.
                                                  set_date-KeepsAll date_to_string
                                                    attr_protect_stop_date e refl)
                                                (λ _.
                                                  store_unmapped-KeepsAll date_to_string
                                                    e)))))))))))

  parse_named-KeepsAll :
      (name : List ℕ) (value : Option Element)
      → IsWireOption value
      → KeepsAll (parse_named date_to_string name value)
  unfolding parse_named
  parse_named-KeepsAll name value w =
      if_both KeepsAll (same_text name attr_crypto_alg) _ _
        (λ _. set_wire_child-KeepsAll _ value w read_algorithm-KeepsAll)
        (λ p.
          if_both KeepsAll (same_text name attr_crypto_len) _ _
            (λ _. set_wire_child-KeepsAll _ value w read_length-KeepsAll)
            (λ q.
              if_both KeepsAll (same_text name attr_crypto_usage_mask) _ _
                (λ _. set_wire_child-KeepsAll _ value w read_mask-KeepsAll)
                (λ r.
                  if_both KeepsAll (same_text name attr_state) _ _
                    (λ _. set_wire_child-KeepsAll _ value w read_state-KeepsAll)
                    (λ t.
                      let plain =
                        if_both (λ (n : List ℕ). is_well_known n ≡ false)
                          (same_text name (codes "UniqueID")) attr_unique_identifier name
                          (λ _. refl) (λ _. other_name _ _ _ _ p q r t) in
                      set_child-KeepsAll _ value
                        (λ e. store_generic-KeepsAll date_to_string _ e plain)))))

  parse_v1-KeepsAll :
      (name value : Option Element)
      → IsWireOption value
      → KeepsAll (parse_v1_attribute date_to_string name value)
  parse_v1-KeepsAll none value w = λ a c. ok-Holds IsChecked a c
  parse_v1-KeepsAll (some name) value w = λ a c.
      >>=-Holds IsChecked (to_string name) _
        (λ raw_name _. parse_named-KeepsAll raw_name value w a c)

  parse_loop-KeepsAll :
      (attributes : List Element)
      → All IsWire attributes
      → KeepsAll (parse_loop date_to_string attributes)
  unfolding parse_attribute
  parse_loop-KeepsAll [] w = λ a c. ok-Holds IsChecked a c
  parse_loop-KeepsAll (e ∷ attributes) w =
      let rest = parse_loop-KeepsAll attributes w.1 in
      λ a c. >>=-Holds IsChecked (parse_attribute date_to_string e a) _ (λ b read. rest b (
        if-KeepsAll (tag_of e == tag_attribute) _ _
          (λ _.
            parse_v1-KeepsAll (get_child tag_attribute_name e) (get_child tag_attribute_value e)
              (get_child-IsWire tag_attribute_value e w.0))
          (λ _. parse_v2-KeepsAll e w.0) a c b read))

  -- Whatever attributes that the format can carry a server sends, in either form or mixed: where they
  -- are parsed, every algorithm, usage mask and state is one that KMIP defines, none is the code for
  -- "unset", and the map has each name once and no string or int32_t under a well-known name.
  pub parse-IsChecked :
      (attributes : List Element) (a : Attributes)
      → All IsWire attributes
      → parse date_to_string attributes ≡ ok a
      → IsChecked a
  unfolding parse
  parse-IsChecked attributes a w done =
      parse_loop-KeepsAll attributes w no_attributes
        (record {
          algo_code = tt;
          mask_bits = tt;
          state_code = tt;
          kept = record { map = tt; routed = λ name. and_false (is_well_known name) };
        })
        a done
