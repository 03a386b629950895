-- ===== src/Attributes/Routing.antt =====
-- Each change of `Attributes`, of kmipcore/src/kmip_attributes.cpp, keeps values that belong into a
-- field out of the map.
use libkmip.Base.{
  ℕ, ◌≡◌, inl, inr, refl, sym, ap, subst, ◌∙◌, Bool, true, false, ◌&&◌, List, Option, none, some,
  if◌then◌else◌, Bool-cases, if_true, if_false, same_text, same_text_eq, find_text, IsMap,
  first_some, find_text-put_text, find_text-erase_text, find_text-put_all, put_text-IsMap,
  erase_text-IsMap, put_all-IsMap,
}
use libkmip.Attributes.{
  AttributeValue, string_value, int_value, long_value, bool_value, Attributes, set_string, set_int,
  set_long, set_bool, remove, merge, put_generic,
}
use libkmip.Attributes.Names.{attr_state, attr_crypto_alg, attr_crypto_len, attr_crypto_usage_mask}
use libkmip.Attributes.Laws.{
  is_raw, is_well_known, stored, IsRouted, set_string-generic, set_int-generic,
}

abbrev Clean : List ℕ → Option AttributeValue → Type 0
Clean j o = (is_well_known j && is_raw o) ≡ false

stored-Clean :
    (name j : List ℕ) (v : AttributeValue) (a : Attributes)
    → IsRouted a
    → Clean name (some v)
    → Clean j (stored name v j a)
stored-Clean name j v a r h = elim (Bool-cases (same_text name j)) [
  | inl same ↦
      subst (Clean j) (sym (if_true (same_text name j) _ _ same))
        (subst (λ (k : List ℕ). Clean k (some v)) (same_text_eq name j same) h)
  | inr other ↦ subst (Clean j) (sym (if_false (same_text name j) _ _ other)) (r.routed j)
]

-- Under a name that is not well-known anything may be stored.
routed-Clean :
    (name j : List ℕ) (v : AttributeValue) (a : Attributes)
    → IsRouted a
    → Clean j (if is_well_known name then find_text j a.generic else stored name v j a)
routed-Clean name j v a r = elim (Bool-cases (is_well_known name)) [
  | inl known ↦ subst (Clean j) (sym (if_true (is_well_known name) _ _ known)) (r.routed j)
  | inr other ↦
      subst (Clean j) (sym (if_false (is_well_known name) _ _ other))
        (stored-Clean name j v a r (ap (λ (t : Bool). t && is_raw (some v)) other))
]

pub and_false : (t : Bool) → (t && false) ≡ false
and_false true = refl
and_false false = refl

either-IsMap :
    (p q r t : Bool) (m₁ m₂ m₃ m₄ m : Attributes)
    → IsMap m₁.generic
    → IsMap m₂.generic
    → IsMap m₃.generic
    → IsMap m₄.generic
    → IsMap m.generic
    → IsMap (if p then m₁ else if q then m₂ else if r then m₃ else if t then m₄ else m).generic
either-IsMap true q r t m₁ m₂ m₃ m₄ m h₁ h₂ h₃ h₄ h = h₁
either-IsMap false true r t m₁ m₂ m₃ m₄ m h₁ h₂ h₃ h₄ h = h₂
either-IsMap false false true t m₁ m₂ m₃ m₄ m h₁ h₂ h₃ h₄ h = h₃
either-IsMap false false false true m₁ m₂ m₃ m₄ m h₁ h₂ h₃ h₄ h = h₄
either-IsMap false false false false m₁ m₂ m₃ m₄ m h₁ h₂ h₃ h₄ h = h

pub set_string-IsRouted :
    (name value : List ℕ) (a : Attributes) → IsRouted a → IsRouted (set_string name value a)
unfolding set_string
set_string-IsRouted name value a r = record {
  map =
      either-IsMap (same_text name attr_crypto_alg) (same_text name attr_crypto_len)
        (same_text name attr_crypto_usage_mask) (same_text name attr_state) _ _ _ _
        (put_generic name (string_value value) a) r.map r.map r.map r.map
        (put_text-IsMap name (string_value value) a.generic r.map);
  routed = λ j.
      subst (Clean j) (sym (set_string-generic name value j a))
        (routed-Clean name j (string_value value) a r);
}

pub set_int-IsRouted :
    (name : List ℕ) (n : ℕ) (a : Attributes) → IsRouted a → IsRouted (set_int name n a)
unfolding set_int
set_int-IsRouted name n a r = record {
  map =
      either-IsMap (same_text name attr_crypto_len) (same_text name attr_crypto_usage_mask)
        (same_text name attr_crypto_alg) (same_text name attr_state) _ _ _ _
        (put_generic name (int_value n) a) r.map r.map r.map r.map
        (put_text-IsMap name (int_value n) a.generic r.map);
  routed = λ j.
      subst (Clean j) (sym (set_int-generic name n j a)) (routed-Clean name j (int_value n) a r);
}

pub put_generic-IsRouted :
    (name : List ℕ) (v : AttributeValue) (a : Attributes)
    → is_raw (some v) ≡ false
    → IsRouted a
    → IsRouted (put_generic name v a)
put_generic-IsRouted name v a h r = record {
  map = put_text-IsMap name v a.generic r.map;
  routed = λ j. subst (Clean j) (sym (find_text-put_text name j v a.generic)) (
      stored-Clean name j v a r
        (ap (λ (t : Bool). is_well_known name && t) h ∙ and_false (is_well_known name)));
}

remove-IsRouted : (name : List ℕ) (a : Attributes) → IsRouted a → IsRouted (remove name a)
unfolding remove
remove-IsRouted name a r = record {
  map = erase_text-IsMap name a.generic r.map;
  routed = λ j.
      subst (Clean j) (sym (find_text-erase_text name j a.generic))
        (elim (Bool-cases (same_text name j)) [
          | inl same ↦
              subst (Clean j) (sym (if_true (same_text name j) _ _ same))
                (and_false (is_well_known j))
          | inr other ↦ subst (Clean j) (sym (if_false (same_text name j) _ _ other)) (r.routed j)
        ]);
}

first_some-Clean :
    (j : List ℕ) (o p : Option AttributeValue) → Clean j o → Clean j p → Clean j (first_some o p)
first_some-Clean j (some v) p h k = h
first_some-Clean j none p h k = k

merge-IsRouted : (a other : Attributes) → IsRouted a → IsRouted other → IsRouted (merge a other)
unfolding merge
merge-IsRouted a other r s = record {
  map = put_all-IsMap other.generic a.generic r.map;
  routed = λ j. subst (Clean j) (sym (find_text-put_all j other.generic a.generic s.map)) (
      first_some-Clean j (find_text j other.generic) (find_text j a.generic) (s.routed j)
        (r.routed j));
}

-- The setters, `remove` and `merge` keep each name once in the map, and strings and numbers of 32 bits
-- under a well-known name out of it.
pub changes-IsRouted :
    (name text : List ℕ) (n : ℕ) (b : Bool) (a other : Attributes)
    → IsRouted a
    → IsRouted other
    → IsRouted (set_string name text a)
      × IsRouted (set_int name n a)
      × IsRouted (set_long name n a)
      × IsRouted (set_bool name b a)
      × IsRouted (remove name a)
      × IsRouted (merge a other)
unfolding set_long set_bool
changes-IsRouted name text n b a other r s = (
  set_string-IsRouted name text a r,
  set_int-IsRouted name n a r,
  put_generic-IsRouted name (long_value n) a refl r,
  put_generic-IsRouted name (bool_value b) a refl r,
  remove-IsRouted name a r,
  merge-IsRouted a other r s,
)
