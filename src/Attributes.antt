-- ===== src/Attributes.antt =====
-- kmipcore/src/kmip_attributes.cpp: `Attributes`. Enumerations are the bit patterns of their codes.
pub mod Names
pub mod Readable
pub mod Laws
pub mod Routing
pub mod Runs
use libkmip.Base.{
  ℕ, ◌%◌, ◌^◌, Bool, true, false, List, [], ◌∷◌, Option, none, some, ◌==◌, if◌then◌else◌, codes,
  same_text, TextMap, find_text, put_text, erase_text, put_all, signed_decimal, strtol,
}
use libkmip.Codes.{crypto_unset, mask_unset, state_pre_active}
use libkmip.Attributes.Names.{
  attr_state, attr_crypto_alg, attr_crypto_len, attr_crypto_usage_mask, algorithm_to_string,
  parse_algorithm_string, parse_state_string, usage_mask_to_string, state_to_string, low_word,
}

pub data AttributeValue : Type 0 where
  string_value : List ℕ → AttributeValue
  int_value : ℕ → AttributeValue
  long_value : ℕ → AttributeValue
  bool_value : Bool → AttributeValue

pub record Attributes : Type 0 where
  pub algo : Option ℕ
  pub crypto_length : Option ℕ
  pub usage_mask : Option ℕ
  pub state : Option ℕ
  pub generic : TextMap AttributeValue

abbrev pub no_attributes : Attributes
no_attributes = record {
  algo = none;
  crypto_length = none;
  usage_mask = none;
  state = none;
  generic = [];
}

abbrev pub value_to_string : AttributeValue → List ℕ
value_to_string (string_value s) = s
value_to_string (int_value n) = signed_decimal 32 n
value_to_string (long_value n) = signed_decimal 64 n
value_to_string (bool_value true) = codes "true"
value_to_string (bool_value false) = codes "false"

abbrev pub value_or : Option ℕ → ℕ → ℕ
value_or (some n) other = n
value_or none other = other

unfoldable pub algorithm : Attributes → ℕ
algorithm a = value_or a.algo crypto_unset

unfoldable pub usage_mask_of : Attributes → ℕ
usage_mask_of a = value_or a.usage_mask mask_unset

unfoldable pub object_state : Attributes → ℕ
object_state a = value_or a.state state_pre_active

-- An optional field that the code for "unset" empties.
abbrev pub unless_unset : ℕ → ℕ → Option ℕ
unless_unset unset n = if n == unset then none else some n

unfoldable pub set_algorithm : ℕ → Attributes → Attributes
set_algorithm alg a = record a { algo = unless_unset crypto_unset alg }

unfoldable pub set_crypto_length : ℕ → Attributes → Attributes
set_crypto_length len a = record a { crypto_length = some len }

unfoldable pub clear_crypto_length : Attributes → Attributes
clear_crypto_length a = record a { crypto_length = none }

unfoldable pub set_usage_mask : ℕ → Attributes → Attributes
set_usage_mask mask a = record a { usage_mask = unless_unset mask_unset mask }

unfoldable pub set_state : ℕ → Attributes → Attributes
set_state st a = record a { state = some st }

-- `generic_[name] = value`
abbrev pub put_generic : List ℕ → AttributeValue → Attributes → Attributes
put_generic name value a = record a { generic = put_text name value a.generic }

-- A field keeps its value where the text could not be read.
abbrev pub or_kept : Option ℕ → Option ℕ → Option ℕ
or_kept (some n) before = some n
or_kept none before = before

-- A number is not stored where it is the code for "unset".
abbrev pub or_kept_unless : ℕ → Option ℕ → Option ℕ → Option ℕ
or_kept_unless unset (some n) before = if n == unset then before else some n
or_kept_unless unset none before = before

-- `set(name, std::string)`
unfoldable pub set_string : List ℕ → List ℕ → Attributes → Attributes
set_string name value a =
    if same_text name attr_crypto_alg
    then record a { algo = or_kept (parse_algorithm_string value) a.algo }
    else if same_text name attr_crypto_len
    then record a { crypto_length = or_kept (low_word (strtol value)) a.crypto_length }
    else if same_text name attr_crypto_usage_mask
    then record a { usage_mask = or_kept_unless mask_unset (low_word (strtol value)) a.usage_mask }
    else if same_text name attr_state
    then record a { state = or_kept (parse_state_string value) a.state }
    else put_generic name (string_value value) a

-- `set(name, int32_t)`
unfoldable pub set_int : List ℕ → ℕ → Attributes → Attributes
set_int name value a =
    if same_text name attr_crypto_len
    then record a { crypto_length = some value }
    else if same_text name attr_crypto_usage_mask
    then record a { usage_mask = or_kept_unless mask_unset (some value) a.usage_mask }
    else if same_text name attr_crypto_alg
    then record a { algo = or_kept_unless crypto_unset (some value) a.algo }
    else if same_text name attr_state
    then record a { state = some value }
    else put_generic name (int_value value) a

-- `set(name, int64_t)` and `set(name, bool)`
unfoldable pub set_long : List ℕ → ℕ → Attributes → Attributes
set_long name value a = put_generic name (long_value value) a

unfoldable pub set_bool : List ℕ → Bool → Attributes → Attributes
set_bool name value a = put_generic name (bool_value value) a

unfoldable pub remove : List ℕ → Attributes → Attributes
remove name a = record a { generic = erase_text name a.generic }

abbrev pub has_value {ℓ} : {A : Type ℓ} → Option A → Bool
has_value (some n) = true
has_value none = false

unfoldable pub has_attribute : List ℕ → Attributes → Bool
has_attribute name a =
    if same_text name attr_crypto_alg
    then has_value a.algo
    else if same_text name attr_crypto_len
    then has_value a.crypto_length
    else if same_text name attr_crypto_usage_mask
    then has_value a.usage_mask
    else if same_text name attr_state
    then has_value a.state
    else has_value (find_text name a.generic)

abbrev pub text_of : Option AttributeValue → List ℕ
text_of (some (string_value s)) = s
text_of (some v) = []
text_of none = []

unfoldable pub get : List ℕ → Attributes → List ℕ
get name a = text_of (find_text name a.generic)

abbrev pub printed : Option AttributeValue → Option (List ℕ)
printed (some v) = some (value_to_string v)
printed none = none

unfoldable pub get_as_string : List ℕ → Attributes → Option (List ℕ)
get_as_string name a = printed (find_text name a.generic)

abbrev pub int_of : Option AttributeValue → Option ℕ
int_of (some (int_value n)) = some n
int_of (some v) = none
int_of none = none

unfoldable pub get_int : List ℕ → Attributes → Option ℕ
get_int name a = int_of (find_text name a.generic)

abbrev pub long_of : Option AttributeValue → Option ℕ
long_of (some (long_value n)) = some n
long_of (some v) = none
long_of none = none

unfoldable pub get_long : List ℕ → Attributes → Option ℕ
get_long name a = long_of (find_text name a.generic)

abbrev pub print_all : TextMap AttributeValue → TextMap (List ℕ)
print_all [] = []
print_all ((k, v) ∷ rest) = put_text k (value_to_string v) (print_all rest)

-- `if (field.has_value()) result[name] = print(*field);`
abbrev pub put_printed : List ℕ → (ℕ → List ℕ) → Option ℕ → TextMap (List ℕ) → TextMap (List ℕ)
put_printed name print (some n) result = put_text name (print n) result
put_printed name print none result = result

unfoldable pub as_string_map : Attributes → TextMap (List ℕ)
as_string_map a = put_printed attr_state state_to_string a.state (
    put_printed attr_crypto_usage_mask usage_mask_to_string a.usage_mask (
      put_printed attr_crypto_len (signed_decimal 32) a.crypto_length
        (put_printed attr_crypto_alg algorithm_to_string a.algo (print_all a.generic))))

unfoldable pub merge : Attributes → Attributes → Attributes
merge a other = record {
  algo = or_kept other.algo a.algo;
  crypto_length = or_kept other.crypto_length a.crypto_length;
  usage_mask = or_kept other.usage_mask a.usage_mask;
  state = or_kept other.state a.state;
  generic = put_all other.generic a.generic;
}
