-- ===== src/AttributesParser/Stored.antt =====
-- The attributes that kmipcore/src/attributes_parser.cpp stores under a name, or under a tag.
use libkmip.Base.{
  ℕ, ◌≡◌, ◌-◌, ◌^◌, refl, sym, subst, Bool, true, false, ◌||◌, List, Option, none, some, Result,
  ◌==◌, if◌then◌else◌, codes, same_text, ok-Holds,
}
use libkmip.Errors.{Error}
use libkmip.Ttlv.{
  Element, tag_of, type_of, type_structure, type_integer, type_long_integer, type_big_integer,
  type_enumeration, type_boolean, type_text_string, type_byte_string, type_date_time, type_interval,
  type_date_time_extended,
}
use libkmip.Ttlv.Access.{
  get_child, to_int, to_long, to_bool, to_string, to_bytes, to_enum, to_interval,
}
use libkmip.Codes.{crypto_ed448, state_pre_active, state_destroyed_compromised, tag_name_value}
use libkmip.Attributes.Names.{attr_crypto_alg, attr_crypto_len, attr_crypto_usage_mask, attr_state}
use libkmip.Attributes.{
  Attributes, AttributeValue, string_value, int_value, long_value, bool_value, put_generic,
  set_string, set_int, set_long, set_bool,
}
use libkmip.Attributes.Laws.{IsRouted, is_well_known}
use libkmip.Attributes.Routing.{set_string-IsRouted, set_int-IsRouted, put_generic-IsRouted}
use libkmip.AttributesParser.{
  store_generic, store_unmapped, store_plain, set_name_value, set_date, generic_name_for_tag,
  bytes_to_hex,
}
use libkmip.AttributesParser.Checked.{
  IsWithin, IsChecked, Keeps, KeepsAll, set_read-KeepsAll, if-KeepsAll,
}

none_of :
    (p q r t : Bool) (x₁ x₂ x₃ x₄ y : Attributes)
    → (p || (q || (r || t))) ≡ false
    → ((if p then x₁ else if q then x₂ else if r then x₃ else if t then x₄ else y) ≡ y)
      × ((if q then x₁ else if r then x₂ else if p then x₃ else if t then x₄ else y) ≡ y)
none_of true q r t x₁ x₂ x₃ x₄ y = λ h. cc
none_of false true r t x₁ x₂ x₃ x₄ y = λ h. cc
none_of false false true t x₁ x₂ x₃ x₄ y = λ h. cc
none_of false false false true x₁ x₂ x₃ x₄ y = λ h. cc
none_of false false false false x₁ x₂ x₃ x₄ y = λ h. (refl, refl)

-- A change of the map alone.
generic-IsChecked :
    (name : List ℕ) (v : AttributeValue) (a b : Attributes)
    → b ≡ put_generic name v a
    → IsRouted b
    → IsChecked a
    → IsChecked b
generic-IsChecked name v a b same r c = record {
  algo_code = subst (λ (x : Attributes). IsWithin 1 crypto_ed448 x.algo) (sym same) c.algo_code;
  mask_bits =
      subst (λ (x : Attributes). IsWithin 1 (2 ^ 24 - 1) x.usage_mask) (sym same) c.mask_bits;
  state_code =
      subst (λ (x : Attributes). IsWithin state_pre_active state_destroyed_compromised x.state)
        (sym same) c.state_code;
  kept = r;
}

-- The setters under a name that is not well-known.
module _ (name : List ℕ) (plain : is_well_known name ≡ false) where
  pub set_string-Keeps : (value : List ℕ) → Keeps (set_string name value)
  unfolding set_string
  set_string-Keeps value a c =
      generic-IsChecked name (string_value value) a (set_string name value a)
        (none_of (same_text name attr_crypto_alg) (same_text name attr_crypto_len)
          (same_text name attr_crypto_usage_mask) (same_text name attr_state) _ _ _ _ _ plain).0
        (set_string-IsRouted name value a c.kept) c

  set_int-Keeps : (n : ℕ) → Keeps (set_int name n)
  unfolding set_int
  set_int-Keeps n a c =
      generic-IsChecked name (int_value n) a (set_int name n a)
        (none_of (same_text name attr_crypto_alg) (same_text name attr_crypto_len)
          (same_text name attr_crypto_usage_mask) (same_text name attr_state) _ _ _ _ _ plain).1
        (set_int-IsRouted name n a c.kept) c

set_long-Keeps : (name : List ℕ) (n : ℕ) → Keeps (set_long name n)
unfolding set_long
set_long-Keeps name n a c =
    generic-IsChecked name (long_value n) a (set_long name n a) refl
      (put_generic-IsRouted name (long_value n) a refl c.kept) c

set_bool-Keeps : (name : List ℕ) (b : Bool) → Keeps (set_bool name b)
unfolding set_bool
set_bool-Keeps name b a c =
    generic-IsChecked name (bool_value b) a (set_bool name b a) refl
      (put_generic-IsRouted name (bool_value b) a refl c.kept) c

store_plain-KeepsAll :
    (name : List ℕ) (e : Element) (other : Attributes → Result Error Attributes)
    → is_well_known name ≡ false
    → KeepsAll other
    → KeepsAll (store_plain name e other)
store_plain-KeepsAll name e other plain h =
    if-KeepsAll (type_of e == type_text_string) _ _
      (λ _.
        set_read-KeepsAll (set_string name) (to_string e) (λ v _. set_string-Keeps name plain v))
      (λ _.
        if-KeepsAll (type_of e == type_integer) _ _
          (λ _. set_read-KeepsAll (set_int name) (to_int e) (λ v _. set_int-Keeps name plain v))
          (λ _.
            if-KeepsAll (type_of e == type_enumeration) _ _
              (λ _.
                set_read-KeepsAll (set_int name) (to_enum e) (λ v _. set_int-Keeps name plain v))
              (λ _.
                if-KeepsAll (type_of e == type_long_integer || type_of e == type_date_time_extended)
                  _ _
                  (λ _.
                    set_read-KeepsAll (set_long name) (to_long e) (λ v _. set_long-Keeps name v))
                  (λ _.
                    if-KeepsAll (type_of e == type_boolean) _ _
                      (λ _.
                        set_read-KeepsAll (set_bool name) (to_bool e)
                          (λ v _. set_bool-Keeps name v))
                      (λ _.
                        if-KeepsAll (type_of e == type_byte_string || type_of e == type_big_integer)
                          _ _
                          (λ _.
                            set_read-KeepsAll _ (to_bytes e)
                              (λ v _. set_string-Keeps name plain (bytes_to_hex v)))
                          (λ _.
                            if-KeepsAll (type_of e == type_interval) _ _
                              (λ _.
                                set_read-KeepsAll (set_long name) (to_interval e)
                                  (λ v _. set_long-Keeps name v))
                              (λ _. h)))))))

set_name_value-KeepsAll :
    (name : List ℕ) (value : Option Element)
    → is_well_known name ≡ false
    → KeepsAll (set_name_value name value)
set_name_value-KeepsAll name (some e) plain =
    set_read-KeepsAll (set_string name) (to_string e) (λ v _. set_string-Keeps name plain v)
set_name_value-KeepsAll name none plain =
    λ a c. ok-Holds IsChecked _ (set_string-Keeps name plain (codes "<STRUCTURE>") a c)

module _ (date_to_string : ℕ → List ℕ) where
  pub set_date-KeepsAll :
      (name : List ℕ) (e : Element)
      → is_well_known name ≡ false
      → KeepsAll (set_date date_to_string name e)
  set_date-KeepsAll name e plain =
      set_read-KeepsAll _ (to_long e) (λ v _. set_string-Keeps name plain (date_to_string v))

  pub store_generic-KeepsAll :
      (name : List ℕ) (e : Element)
      → is_well_known name ≡ false
      → KeepsAll (store_generic date_to_string name e)
  unfolding store_generic
  store_generic-KeepsAll name e plain = store_plain-KeepsAll name e _ plain (
      if-KeepsAll (type_of e == type_date_time) _ _ (λ _. set_date-KeepsAll name e plain)
        (λ _.
          if-KeepsAll (type_of e == type_structure) _ _
            (λ _. set_name_value-KeepsAll name (get_child tag_name_value e) plain)
            (λ _ a c. ok-Holds IsChecked a c)))

  pub store_unmapped-KeepsAll : (e : Element) → KeepsAll (store_unmapped date_to_string e)
  store_unmapped-KeepsAll e = store_plain-KeepsAll (generic_name_for_tag (tag_of e)) e _ refl (
      if-KeepsAll (type_of e == type_date_time) _ _
        (λ _. set_read-KeepsAll _ (to_long e) (λ v _. set_long-Keeps _ v))
        (λ _.
          if-KeepsAll (type_of e == type_structure) _ _
            (λ _ a c.
              ok-Holds IsChecked _ (set_string-Keeps (generic_name_for_tag (tag_of e)) refl _ a c))
            (λ _ a c. ok-Holds IsChecked a c)))
