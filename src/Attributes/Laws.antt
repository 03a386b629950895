-- ===== src/Attributes/Laws.antt =====
-- What the setters, `remove` and `merge` of kmipcore/src/kmip_attributes.cpp change.
use libkmip.Base.{
  ℕ, ◌≡◌, refl, sym, inl, inr, not, [], codes, signed_decimal, Bool-cases, if_false, ap, ◌∙◌, Bool,
  true, false, ◌||◌, ◌&&◌, List, Option, none, some, if◌then◌else◌, if_true, same_text,
  same_text_refl, ap₂, find_text, IsMap, first_some, find_text-put_text, find_text-erase_text,
  find_text-put_all,
}
use libkmip.Attributes.Names.{attr_state, attr_crypto_alg, attr_crypto_len, attr_crypto_usage_mask}
use libkmip.Attributes.{
  AttributeValue, string_value, int_value, long_value, bool_value, Attributes, has_attribute,
  value_to_string, text_of, int_of, get, get_as_string, get_int, get_long, set_string, set_int,
  set_long, set_bool, remove, merge, has_value, printed, long_of, or_kept, put_generic,
}

-- A string or an int32_t.
abbrev pub is_raw : Option AttributeValue → Bool
is_raw (some (string_value s)) = true
is_raw (some (int_value n)) = true
is_raw (some v) = false
is_raw none = false

-- The fields that are not in the map.
abbrev pub fields : Attributes → Option ℕ × Option ℕ × Option ℕ × Option ℕ
fields a = (a.algo, a.crypto_length, a.usage_mask, a.state)

if_ap {ℓ κ} :
    {A : Type ℓ} {B : Type κ} (f : A → B) (t : Bool) (x y : A)
    → f (if t then x else y) ≡ (if t then f x else f y)
if_ap f true x y = refl
if_ap f false x y = refl

-- One of the names with a field of its own.
abbrev pub is_well_known : List ℕ → Bool
is_well_known name =
    same_text name attr_crypto_alg
    || (same_text name attr_crypto_len
        || (same_text name attr_crypto_usage_mask || same_text name attr_state))

route {ℓ κ} :
    {A : Type ℓ} {B : Type κ} (f : A → B) (p q r t : Bool) (x₁ x₂ x₃ x₄ y : A) (d : B)
    → f x₁ ≡ d
    → f x₂ ≡ d
    → f x₃ ≡ d
    → f x₄ ≡ d
    → f (if p then x₁ else if q then x₂ else if r then x₃ else if t then x₄ else y)
      ≡ (if p || (q || (r || t)) then d else f y)
route f true q r t x₁ x₂ x₃ x₄ y d e₁ e₂ e₃ e₄ = e₁
route f false true r t x₁ x₂ x₃ x₄ y d e₁ e₂ e₃ e₄ = e₂
route f false false true t x₁ x₂ x₃ x₄ y d e₁ e₂ e₃ e₄ = e₃
route f false false false true x₁ x₂ x₃ x₄ y d e₁ e₂ e₃ e₄ = e₄
route f false false false false x₁ x₂ x₃ x₄ y d e₁ e₂ e₃ e₄ = refl

-- What is found under a name after a value was stored under another, or under the same.
abbrev pub stored : List ℕ → AttributeValue → List ℕ → Attributes → Option AttributeValue
stored name value j a = if same_text name j then some value else find_text j a.generic

pub set_string-generic :
    (name value j : List ℕ) (a : Attributes)
    → find_text j (set_string name value a).generic
      ≡ (if is_well_known name then find_text j a.generic else stored name (string_value value) j a)
unfolding set_string
set_string-generic name value j a =
    route (λ (b : Attributes). find_text j b.generic) (same_text name attr_crypto_alg)
      (same_text name attr_crypto_len) (same_text name attr_crypto_usage_mask)
      (same_text name attr_state) _ _ _ _ (put_generic name (string_value value) a) _ refl refl refl
      refl
    ∙ ap (λ (o : Option AttributeValue). if is_well_known name then find_text j a.generic else o)
        (find_text-put_text name j (string_value value) a.generic)

rotate : (p q r t : Bool) → (q || (r || (p || t))) ≡ (p || (q || (r || t)))
rotate true true r t = refl
rotate true false true t = refl
rotate true false false t = refl
rotate false q r t = refl

pub set_int-generic :
    (name : List ℕ) (value : ℕ) (j : List ℕ) (a : Attributes)
    → find_text j (set_int name value a).generic
      ≡ (if is_well_known name then find_text j a.generic else stored name (int_value value) j a)
unfolding set_int
set_int-generic name value j a =
    route (λ (b : Attributes). find_text j b.generic) (same_text name attr_crypto_len)
      (same_text name attr_crypto_usage_mask) (same_text name attr_crypto_alg)
      (same_text name attr_state) _ _ _ _ (put_generic name (int_value value) a) _ refl refl refl
      refl
    ∙ ap₂ (λ (t : Bool) (o : Option AttributeValue). if t then find_text j a.generic else o)
        (rotate (same_text name attr_crypto_alg) (same_text name attr_crypto_len)
          (same_text name attr_crypto_usage_mask) (same_text name attr_state))
        (find_text-put_text name j (int_value value) a.generic)

-- What `get`, `get_as_string`, `get_int` and `get_long` find under a name.
abbrev pub Found : Type 0
Found = List ℕ × Option (List ℕ) × Option ℕ × Option ℕ

abbrev pub getters : List ℕ → Attributes → Found
getters name a = (get name a, get_as_string name a, get_int name a, get_long name a)

abbrev shown : Option AttributeValue → Found
shown o = (text_of o, printed o, int_of o, long_of o)

getters_lem : (name : List ℕ) (a : Attributes) → getters name a ≡ shown (find_text name a.generic)
unfolding get get_as_string get_int get_long
getters_lem name a = refl

getters-stored :
    (name j : List ℕ) (v : AttributeValue) (a b : Attributes)
    → find_text j b.generic ≡ stored name v j a
    → getters j b ≡ (if same_text name j then shown (some v) else getters j a)
getters-stored name j v a b h =
    getters_lem j b
    ∙ ap shown h
    ∙ if_ap shown (same_text name j) _ _
    ∙ ap (λ (x : Found). if same_text name j then shown (some v) else x) (sym (getters_lem j a))

printed_bool :
    (b : Bool) → value_to_string (bool_value b) ≡ (if b then codes "true" else codes "false")
printed_bool true = refl
printed_bool false = refl

getters-routed :
    (name j : List ℕ) (v : AttributeValue) (a b : Attributes)
    → find_text j b.generic
      ≡ (if is_well_known name then find_text j a.generic else stored name v j a)
    → getters j b
      ≡ (if not (is_well_known name) && same_text name j then shown (some v) else getters j a)
getters-routed name j v a b h = elim (Bool-cases (is_well_known name)) [
  | inl known ↦
      getters_lem j b ∙ ap shown (h ∙ if_true _ _ _ known) ∙ sym (getters_lem j a) ∙ rw known refl
  | inr other ↦ getters-stored name j v a b (h ∙ if_false _ _ _ other) ∙ rw other refl
]

-- The four generic getters under any name after each change of another name or the same. A string or
-- an int32_t under a name without a field of its own is found under it, and one under a well-known
-- name leaves the getters as they were; an int64_t or a bool is found under any name. `get` finds
-- only strings and is empty otherwise, `get_int` finds only an int32_t, `get_long` only an int64_t,
-- and `get_as_string` prints each of the four types. After `remove` nothing is found under the
-- name. Under other names all find what they found before.
pub getters-set :
    (name text j : List ℕ) (n : ℕ) (b : Bool) (a : Attributes)
    → (getters j (set_string name text a) ≡ (
        if not (is_well_known name) && same_text name j
        then (text, some text, none, none)
        else getters j a))
      × (getters j (set_int name n a) ≡ (
          if not (is_well_known name) && same_text name j
          then ([], some (signed_decimal 32 n), some n, none)
          else getters j a))
      × (getters j (set_long name n a) ≡ (
          if same_text name j then ([], some (signed_decimal 64 n), none, some n) else getters j a))
      × (getters j (set_bool name b a) ≡ (
          if same_text name j
          then ([], some (if b then codes "true" else codes "false"), none, none)
          else getters j a))
      × (getters j (remove name a)
          ≡ (if same_text name j then ([], none, none, none) else getters j a))
unfolding set_long set_bool remove
getters-set name text j n b a = (
  getters-routed name j (string_value text) a (set_string name text a)
      (set_string-generic name text j a),
  getters-routed name j (int_value n) a (set_int name n a) (set_int-generic name n j a),
  getters-stored name j (long_value n) a _ (find_text-put_text name j (long_value n) a.generic),
  getters-stored name j (bool_value b) a _ (find_text-put_text name j (bool_value b) a.generic)
      ∙ ap (λ (s : List ℕ). if same_text name j then ([], some s, none, none) else getters j a)
          (printed_bool b),
  getters_lem j _
      ∙ ap shown (find_text-erase_text name j a.generic)
      ∙ if_ap shown (same_text name j) _ _
      ∙ ap (λ (x : Found). if same_text name j then shown none else x) (sym (getters_lem j a)),
)

-- The chain of tests of `has_attribute`.
abbrev pick : Bool → Bool → Bool → Bool → Bool → Bool → Bool → Bool → Bool → Bool
pick u v w t alg len mask st other =
    if u then alg else if v then len else if w then mask else if t then st else other

pick_known :
    (u v w t alg len mask st x y : Bool)
    → (u || (v || (w || t))) ≡ true
    → pick u v w t alg len mask st x ≡ pick u v w t alg len mask st y
pick_known true v w t alg len mask st x y h = refl
pick_known false true w t alg len mask st x y h = refl
pick_known false false true t alg len mask st x y h = refl
pick_known false false false true alg len mask st x y h = refl
pick_known false false false false alg len mask st x y h = cc

pick_or :
    (u v w t alg len mask st x alg' len' mask' st' x' : Bool) {alg'' len'' mask'' st'' x'' : Bool}
    → alg'' ≡ (alg || alg')
    → len'' ≡ (len || len')
    → mask'' ≡ (mask || mask')
    → st'' ≡ (st || st')
    → x'' ≡ (x || x')
    → pick u v w t alg'' len'' mask'' st'' x''
      ≡ (pick u v w t alg len mask st x || pick u v w t alg' len' mask' st' x')
pick_or true v w t alg len mask st x alg' len' mask' st' x' e₁ e₂ e₃ e₄ e₅ = e₁
pick_or false true w t alg len mask st x alg' len' mask' st' x' e₁ e₂ e₃ e₄ e₅ = e₂
pick_or false false true t alg len mask st x alg' len' mask' st' x' e₁ e₂ e₃ e₄ e₅ = e₃
pick_or false false false true alg len mask st x alg' len' mask' st' x' e₁ e₂ e₃ e₄ e₅ = e₄
pick_or false false false false alg len mask st x alg' len' mask' st' x' e₁ e₂ e₃ e₄ e₅ = e₅

has_value-or_kept : (o p : Option ℕ) → has_value (or_kept o p) ≡ (has_value o || has_value p)
has_value-or_kept none p = refl
has_value-or_kept (some n) p = refl

has_value-first_some :
    (o p : Option AttributeValue) → has_value (first_some o p) ≡ (has_value o || has_value p)
has_value-first_some none p = refl
has_value-first_some (some n) p = refl

-- A well-known name given an int64_t or a bool is not routed to its field: whether the attribute is
-- present, and each typed field, stay as they were, while `get_long` finds the number under the name.
pub set_long-unrouted :
    (name : List ℕ) (n : ℕ) (b : Bool) (a : Attributes)
    → is_well_known name ≡ true
    → (has_attribute name (set_long name n a) ≡ has_attribute name a)
      × (has_attribute name (set_bool name b a) ≡ has_attribute name a)
      × (fields (set_long name n a) ≡ fields a)
      × (fields (set_bool name b a) ≡ fields a)
      × (get_long name (set_long name n a) ≡ some n)
unfolding set_long set_bool has_attribute get_long
set_long-unrouted name n b a known = (
  pick_known (same_text name attr_crypto_alg) (same_text name attr_crypto_len)
      (same_text name attr_crypto_usage_mask) (same_text name attr_state) _ _ _ _ _ _ known,
  pick_known (same_text name attr_crypto_alg) (same_text name attr_crypto_len)
      (same_text name attr_crypto_usage_mask) (same_text name attr_state) _ _ _ _ _ _ known,
  refl,
  refl,
  ap long_of
      (find_text-put_text name name (long_value n) a.generic ∙ if_true _ _ _ (same_text_refl name)),
)

-- `merge`: a field is the other's if that has it, and otherwise stays; the same holds of what is
-- found under each name, where the other has each name once; and an attribute is present afterwards
-- exactly if one of the two had it.
pub merge_lem :
    (a other : Attributes) (name : List ℕ)
    → IsMap other.generic
    → (fields (merge a other) ≡ (
      or_kept other.algo a.algo,
      or_kept other.crypto_length a.crypto_length,
      or_kept other.usage_mask a.usage_mask,
      or_kept other.state a.state,
    ))
      × (find_text name (merge a other).generic
          ≡ first_some (find_text name other.generic) (find_text name a.generic))
      × (has_attribute name (merge a other) ≡ (has_attribute name other || has_attribute name a))
unfolding merge has_attribute
merge_lem a other name h =
    let entries = find_text-put_all name other.generic a.generic h in
    (
      refl,
      entries,
      pick_or (same_text name attr_crypto_alg) (same_text name attr_crypto_len)
          (same_text name attr_crypto_usage_mask) (same_text name attr_state) (has_value other.algo)
          (has_value other.crypto_length) (has_value other.usage_mask) (has_value other.state)
          (has_value (find_text name other.generic)) (has_value a.algo) (has_value a.crypto_length)
          (has_value a.usage_mask) (has_value a.state) (has_value (find_text name a.generic))
          (has_value-or_kept other.algo a.algo)
          (has_value-or_kept other.crypto_length a.crypto_length)
          (has_value-or_kept other.usage_mask a.usage_mask) (has_value-or_kept other.state a.state)
          (ap has_value entries
            ∙ has_value-first_some (find_text name other.generic) (find_text name a.generic)),
    )

-- Every entry of the map is under a name of its own, and none is a string or an int32_t under a
-- well-known name.
pub record IsRouted (a : Attributes) : Type 0 where
  pub map : IsMap a.generic
  pub routed : (name : List ℕ) → (is_well_known name && is_raw (find_text name a.generic)) ≡ false
