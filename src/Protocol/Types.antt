-- ===== src/Protocol/Types.antt =====
-- Which elements a protocol version allows.
use libkmip.Base.{
  ℕ, ◌≡◌, ◌<◌, ◌^◌, ◌∙◌, ap, arith, ltb, leb, refl, Bool, true, false, not, ◌&&◌, ◌||◌, Result,
  ◌>>◌, throw_if, ◌==◌,
}
use libkmip.Errors.{Error, date_time_extended_version}
use libkmip.Ttlv.{Element, element, structure, Items, nil, cons, type_date_time_extended}
use libkmip.Protocol.Version.{
  ProtocolVersion, validate_types, validate_items, supports_date_time_extended,
}

-- The type code stands somewhere in the tree.
abbrev mutual
  pub has_type : ℕ → Element → Bool
  has_type code (element tag type (structure items)) = type == code || has_type_items code items
  has_type code (element tag type value) = type == code

  pub has_type_items : ℕ → Items → Bool
  has_type_items code nil = false
  has_type_items code (cons child items) = has_type code child || has_type_items code items

-- What is thrown if `old` and the tree has an extended date and time.
abbrev verdict : Bool → Bool → Result Error (Unit {0})
verdict extended old = throw_if (extended && old) date_time_extended_version

verdict-or : (a b old : Bool) → (verdict a old >> verdict b old) ≡ verdict (a || b) old
verdict-or true b true = refl
verdict-or true true false = refl
verdict-or true false false = refl
verdict-or false b old = refl

abbrev is_old : ProtocolVersion → Bool
is_old v = not (supports_date_time_extended v)

mutual
  unfolding validate_types validate_items

  types_verdict :
      (e : Element) (v : ProtocolVersion)
      → validate_types e v ≡ verdict (has_type type_date_time_extended e) (is_old v)
  types_verdict (element tag type (structure items)) v = rw (items_verdict items v) (
      verdict-or (type == type_date_time_extended) (has_type_items type_date_time_extended items)
        (is_old v))
  types_verdict (element tag type value) v = refl

  items_verdict :
      (items : Items) (v : ProtocolVersion)
      → validate_items items v ≡ verdict (has_type_items type_date_time_extended items) (is_old v)
  items_verdict nil v = refl
  items_verdict (cons child items) v =
      rw (types_verdict child v, items_verdict items v)
        (verdict-or (has_type type_date_time_extended child)
          (has_type_items type_date_time_extended items) (is_old v))

-- Below 2.0: the parts are bit patterns of int32_t, so that those from 2 ^ 31 on are negative.
abbrev pub is_below_2_0 : ProtocolVersion → Bool
is_below_2_0 v = (ltb v.major 2 || leb (2 ^ 31) v.major) || (v.major == 2 && leb (2 ^ 31) v.minor)

is_old_lem : (v : ProtocolVersion) → v.major < 2 ^ 32 → v.minor < 2 ^ 32 → is_old v ≡ is_below_2_0 v
is_old_lem v major minor = ground (arith, major, minor)

-- A message is refused exactly when an extended date and time stands somewhere in it, at any depth,
-- and its version, of two numbers of 32 bits, is below 2.0.
pub validate_types_lem :
    (e : Element) (v : ProtocolVersion)
    → v.major < 2 ^ 32
    → v.minor < 2 ^ 32
    → validate_types e v
      ≡ throw_if (has_type type_date_time_extended e && is_below_2_0 v) date_time_extended_version
validate_types_lem e v major minor =
    types_verdict e v ∙ ap (verdict (has_type type_date_time_extended e)) (is_old_lem v major minor)
