-- ===== src/Ttlv.antt =====
-- kmipcore/include/kmipcore/kmip_basics.hpp: the tree of TTLV elements. A signed integer is its bit
-- pattern (below 2 ^ 32 or 2 ^ 64), text and byte strings are lists of bytes, and a tag or type is
-- its number. The children of a structure are never null.
pub mod Access
pub mod Bytes
pub mod Serialize
pub mod Deserialize
pub mod Encode
pub mod Written
pub mod Header
pub mod Steps
pub mod ReadBack
pub mod RoundTrip
pub mod Scan
pub mod Reads
pub mod Primitives
pub mod Canonical
pub mod Exact
mod Runs
use libkmip.Base.{ℕ, Bool, List}

mutual
  pub data Element : Type 0 where
    element : ℕ → ℕ → Value → Element

  pub data Value : Type 0 where
    structure : Items → Value
    integer : ℕ → Value
    long_integer : ℕ → Value
    big_integer : List ℕ → Value
    enumeration : ℕ → Value
    boolean : Bool → Value
    text_string : List ℕ → Value
    byte_string : List ℕ → Value
    date_time : ℕ → Value
    date_time_extended : ℕ → Value
    interval : ℕ → Value

  pub data Items : Type 0 where
    nil : Items
    cons : Element → Items → Items

abbrev pub tag_of : Element → ℕ
tag_of (element tag type value) = tag

abbrev pub type_of : Element → ℕ
type_of (element tag type value) = type

abbrev pub value_of : Element → Value
value_of (element tag type value) = value

-- The type codes, KMIP_TYPE_*.
abbrev pub type_structure : ℕ
type_structure = 0x01

abbrev pub type_integer : ℕ
type_integer = 0x02

abbrev pub type_long_integer : ℕ
type_long_integer = 0x03

abbrev pub type_big_integer : ℕ
type_big_integer = 0x04

abbrev pub type_enumeration : ℕ
type_enumeration = 0x05

abbrev pub type_boolean : ℕ
type_boolean = 0x06

abbrev pub type_text_string : ℕ
type_text_string = 0x07

abbrev pub type_byte_string : ℕ
type_byte_string = 0x08

abbrev pub type_date_time : ℕ
type_date_time = 0x09

abbrev pub type_interval : ℕ
type_interval = 0x0A

abbrev pub type_date_time_extended : ℕ
type_date_time_extended = 0x0B

-- The type code that belongs to a value.
abbrev pub code_of : Value → ℕ
code_of (structure items) = type_structure
code_of (integer n) = type_integer
code_of (long_integer n) = type_long_integer
code_of (big_integer bytes) = type_big_integer
code_of (enumeration n) = type_enumeration
code_of (boolean b) = type_boolean
code_of (text_string bytes) = type_text_string
code_of (byte_string bytes) = type_byte_string
code_of (date_time n) = type_date_time
code_of (date_time_extended n) = type_date_time_extended
code_of (interval n) = type_interval
