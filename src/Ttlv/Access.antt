-- ===== src/Ttlv/Access.antt =====
-- kmipcore/src/kmip_basics.cpp: the factory methods and accessors of `Element` and `Structure`.
use libkmip.Base.{
  ℕ, ◌≡◌, refl, arith, Bool, List, [], ◌∷◌, Option, none, some, ◌==◌, if◌then◌else◌, Result, ok,
  err,
}
use libkmip.Errors.{
  Error, not_integer, not_long, not_boolean, not_text_string, not_bytes, not_enumeration,
  not_interval,
}
use libkmip.Ttlv.{
  Element, element, structure, integer, long_integer, big_integer, enumeration, boolean,
  text_string, byte_string, date_time, date_time_extended, interval, Items, nil, cons, tag_of,
  type_structure, type_integer, type_long_integer, type_big_integer, type_enumeration, type_boolean,
  type_text_string, type_byte_string, type_date_time, type_interval, type_date_time_extended,
}

abbrev pub create_structure : ℕ → Items → Element
create_structure tag items = element tag type_structure (structure items)

abbrev pub create_integer : ℕ → ℕ → Element
create_integer tag n = element tag type_integer (integer n)

abbrev pub create_long_integer : ℕ → ℕ → Element
create_long_integer tag n = element tag type_long_integer (long_integer n)

abbrev pub create_boolean : ℕ → Bool → Element
create_boolean tag b = element tag type_boolean (boolean b)

abbrev pub create_enumeration : ℕ → ℕ → Element
create_enumeration tag n = element tag type_enumeration (enumeration n)

abbrev pub create_text_string : ℕ → List ℕ → Element
create_text_string tag bytes = element tag type_text_string (text_string bytes)

abbrev pub create_byte_string : ℕ → List ℕ → Element
create_byte_string tag bytes = element tag type_byte_string (byte_string bytes)

abbrev pub create_date_time : ℕ → ℕ → Element
create_date_time tag n = element tag type_date_time (date_time n)

abbrev pub create_date_time_extended : ℕ → ℕ → Element
create_date_time_extended tag n = element tag type_date_time_extended (date_time_extended n)

abbrev pub create_interval : ℕ → ℕ → Element
create_interval tag n = element tag type_interval (interval n)

abbrev pub create_big_integer : ℕ → List ℕ → Element
create_big_integer tag bytes = element tag type_big_integer (big_integer bytes)

-- `Structure::add`
unfoldable pub add : Items → Element → Items
add nil e = cons e nil
add (cons x items) e = cons x (add items e)

unfoldable pub append_items : Items → Items → Items
append_items nil more = more
append_items (cons x items) more = cons x (append_items items more)

-- `Structure::find`: the first child with the tag.
unfoldable pub find : ℕ → Items → Option Element
find child_tag nil = none
find child_tag (cons item items) =
    if tag_of item == child_tag then some item else find child_tag items

-- `Structure::findAll`
unfoldable pub find_all : ℕ → Items → List Element
find_all child_tag nil = []
find_all child_tag (cons item items) =
    let rest = find_all child_tag items in if tag_of item == child_tag then item ∷ rest else rest

abbrev pub as_structure : Element → Option Items
as_structure (element tag type (structure items)) = some items
as_structure (element tag type value) = none

unfoldable pub get_child : ℕ → Element → Option Element
get_child child_tag (element tag type (structure items)) = find child_tag items
get_child child_tag (element tag type value) = none

unfoldable pub get_children : ℕ → Element → List Element
get_children child_tag (element tag type (structure items)) = find_all child_tag items
get_children child_tag (element tag type value) = []

unfoldable pub to_int : Element → Result Error ℕ
to_int (element tag type (integer n)) = ok n
to_int (element tag type value) = err not_integer

unfoldable pub to_long : Element → Result Error ℕ
to_long (element tag type (long_integer n)) = ok n
to_long (element tag type (date_time n)) = ok n
to_long (element tag type (date_time_extended n)) = ok n
to_long (element tag type value) = err not_long

unfoldable pub to_bool : Element → Result Error Bool
to_bool (element tag type (boolean b)) = ok b
to_bool (element tag type value) = err not_boolean

unfoldable pub to_string : Element → Result Error (List ℕ)
to_string (element tag type (text_string bytes)) = ok bytes
to_string (element tag type value) = err not_text_string

unfoldable pub to_bytes : Element → Result Error (List ℕ)
to_bytes (element tag type (byte_string bytes)) = ok bytes
to_bytes (element tag type (big_integer bytes)) = ok bytes
to_bytes (element tag type value) = err not_bytes

unfoldable pub to_enum : Element → Result Error ℕ
to_enum (element tag type (enumeration n)) = ok n
to_enum (element tag type value) = err not_enumeration

unfoldable pub to_interval : Element → Result Error ℕ
to_interval (element tag type (interval n)) = ok n
to_interval (element tag type value) = err not_interval

abbrev pub head? : List Element → Option Element
head? [] = none
head? (x ∷ xs) = some x

find-find_all : (tag : ℕ) (items : Items) → find tag items ≡ head? (find_all tag items)
unfolding find find_all
find-find_all tag nil = refl
find-find_all tag (cons item items) = ground (arith, find-find_all tag items)

-- The child that `getChild` returns is the first of those that `getChildren` returns, and there is
-- none exactly when there are none.
pub get_child-get_children : (tag : ℕ) (e : Element) → get_child tag e ≡ head? (get_children tag e)
unfolding get_child get_children
get_child-get_children tag (element t c (structure items)) = find-find_all tag items
get_child-get_children tag (element t c value) = refl
