-- ===== src/Protocol/Version.antt =====
-- kmipcore/src/kmip_protocol.cpp: `ProtocolVersion`, and the check that a message uses no type that
-- its version does not have.
use libkmip.Base.{
  ℕ, ◌≡◌, refl, Bool, not, ◌&&◌, ◌||◌, [], ◌∷◌, some, Result, ok, ◌>>=◌, ◌>>◌, throw_if, ◌==◌,
  lt_i32, le_i32,
}
use libkmip.Errors.{Error, invalid_protocol_version, date_time_extended_version}
use libkmip.Ttlv.{Element, element, structure, Items, nil, cons, type_date_time_extended}
use libkmip.Ttlv.Access.{create_structure, create_integer, get_child, find, to_int}
use libkmip.Protocol.Tags.{
  tag_protocol_version, tag_protocol_version_major, tag_protocol_version_minor,
}
use libkmip.Protocol.Children.{collect, child_or, is_other_structure}

pub record ProtocolVersion : Type 0 where
  pub major : ℕ
  pub minor : ℕ

-- The default, 1.4.
abbrev pub version_1_4 : ProtocolVersion
version_1_4 = record { major = 1; minor = 4 }

abbrev pub version_2_0 : ProtocolVersion
version_2_0 = record { major = 2; minor = 0 }

abbrev pub is_at_least : ProtocolVersion → ℕ → ℕ → Bool
is_at_least v major minor = lt_i32 major v.major || (v.major == major && le_i32 minor v.minor)

abbrev pub supports_date_time_extended : ProtocolVersion → Bool
supports_date_time_extended v = is_at_least v 2 0

-- `validate_element_types_for_version`, for an element and for the children of a structure in turn.
unfoldable mutual
  pub validate_types : Element → ProtocolVersion → Result Error (Unit {0})
  validate_types (element tag type (structure items)) v = do
    throw_if (type == type_date_time_extended && not (supports_date_time_extended v))
        date_time_extended_version
    validate_items items v
  validate_types (element tag type value) v =
      throw_if (type == type_date_time_extended && not (supports_date_time_extended v))
        date_time_extended_version

  pub validate_items : Items → ProtocolVersion → Result Error (Unit {0})
  validate_items nil v = ok tt
  validate_items (cons child items) v = do validate_types child v; validate_items items v

unfoldable pub version_to_element : ProtocolVersion → Element
version_to_element v = create_structure tag_protocol_version (
    collect (
      some (create_integer tag_protocol_version_major v.major)
      ∷ some (create_integer tag_protocol_version_minor v.minor)
      ∷ []))

unfoldable pub version_from_element : Element → Result Error ProtocolVersion
version_from_element e = do
  throw_if (is_other_structure tag_protocol_version e) invalid_protocol_version
  major ← child_or (get_child tag_protocol_version_major e) to_int version_1_4.major
  minor ← child_or (get_child tag_protocol_version_minor e) to_int version_1_4.minor
  ok (record { major = major; minor = minor })

pub version_from_element-version_to_element :
    (v : ProtocolVersion) → version_from_element (version_to_element v) ≡ ok v
unfolding version_from_element version_to_element get_child find to_int
version_from_element-version_to_element v = refl
