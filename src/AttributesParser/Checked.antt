-- ===== src/AttributesParser/Checked.antt =====
-- What kmipcore/src/attributes_parser.cpp stores for any elements.
use libkmip.Base.{
  ℕ, ◌≡◌, ◌-◌, ◌≤◌, ◌<◌, ◌^◌, refl, arith, Bool, true, false, Option, none, some, Result, ok, err,
  ◌>>=◌, ◌==◌, if◌then◌else◌, Holds, ok-Holds,
}
use libkmip.Errors.{Error, unknown_crypto_algorithm, unknown_usage_mask, unknown_state}
use libkmip.Ttlv.{
  Element, element, structure, integer, long_integer, big_integer, enumeration, boolean,
  text_string, byte_string, date_time, date_time_extended, interval,
}
use libkmip.Ttlv.Access.{to_int, to_enum}
use libkmip.Codes.{crypto_ed448, state_pre_active, state_destroyed_compromised}
use libkmip.Attributes.{
  Attributes, set_algorithm, set_crypto_length, set_usage_mask, set_state, unless_unset,
}
use libkmip.Attributes.Laws.{IsRouted}
use libkmip.Ttlv.Encode.{IsWire}
use libkmip.Locate.Found.{if_both}
use libkmip.AttributesParser.{
  set_read, set_child, read_algorithm, read_length, read_mask, read_state, checked,
  is_valid_cryptographic_algorithm, is_valid_state, is_valid_cryptographic_usage_mask,
}

-- A field is empty or has a value from `low` to `high`.
abbrev pub IsWithin : ℕ → ℕ → Option ℕ → Type 0
IsWithin low high (some n) = (low ≤ n) × (n ≤ high)
IsWithin low high none = Unit

-- Every code is one that KMIP defines, no code for "unset" is stored, and no text or number under a
-- well-known name is in the map.
pub record IsChecked (a : Attributes) : Type 0 where
  pub algo_code : IsWithin 1 crypto_ed448 a.algo
  pub mask_bits : IsWithin 1 (2 ^ 24 - 1) a.usage_mask
  pub state_code : IsWithin state_pre_active state_destroyed_compromised a.state
  pub kept : IsRouted a

abbrev pub Keeps : (Attributes → Attributes) → Type 0
Keeps change = (a : Attributes) → IsChecked a → IsChecked (change a)

abbrev pub KeepsAll : (Attributes → Result Error Attributes) → Type 0
KeepsAll read = (a : Attributes) → IsChecked a → Holds IsChecked (read a)

pub set_read-KeepsAll {ℓ} :
    {A : Type ℓ} (change : A → Attributes → Attributes) (r : Result Error A)
    → ((v : A) → r ≡ ok v → Keeps (change v))
    → KeepsAll (set_read change r)
set_read-KeepsAll change (ok v) h a c = ok-Holds IsChecked _ (h v refl a c)
set_read-KeepsAll change (err e) h a c = λ b same. cc

pub set_child-KeepsAll :
    (read : Element → Attributes → Result Error Attributes) (child : Option Element)
    → ((e : Element) → KeepsAll (read e))
    → KeepsAll (set_child read child)
set_child-KeepsAll read (some e) h a c = h e a c
set_child-KeepsAll read none h a c = ok-Holds IsChecked a c

pub if-KeepsAll :
    (t : Bool) (x y : Attributes → Result Error Attributes)
    → (t ≡ true → KeepsAll x)
    → (t ≡ false → KeepsAll y)
    → KeepsAll (λ a. if t then x a else y a)
if-KeepsAll true x y h k = h refl
if-KeepsAll false x y h k = k refl

checked-KeepsAll :
    (t : Bool) (e : Error) (v : ℕ) (change : ℕ → Attributes → Attributes)
    → (t ≡ true → Keeps (change v))
    → KeepsAll (set_read change (checked t e v))
checked-KeepsAll true e v change h a c = ok-Holds IsChecked _ (h refl a c)
checked-KeepsAll false e v change h a c = λ b same. cc

-- A value that is not "unset".
unless_unset-IsWithin : (n high : ℕ) → n ≤ high → IsWithin 1 high (unless_unset 0 n)
unless_unset-IsWithin n high h =
    if_both (IsWithin 1 high) (n == 0) none (some n) (λ e. tt) (λ e. (ground (arith, e), h))

read_code-KeepsAll :
    (valid : ℕ → Bool) (x : Error) (r : Result Error ℕ) (change : ℕ → Attributes → Attributes)
    → ((v : ℕ) → r ≡ ok v → valid v ≡ true → Keeps (change v))
    → KeepsAll (set_read change (r >>= λ v. checked (valid v) x v))
read_code-KeepsAll valid x (ok v) change h = checked-KeepsAll (valid v) x v change (h v refl)
read_code-KeepsAll valid x (err e) change h = λ a c b same. cc

to_enum-word : (e : Element) → IsWire e → Holds (λ (v : ℕ). v < 2 ^ 32) (to_enum e)
unfolding to_enum
to_enum-word (element tag type (structure items)) w = λ v same. cc
to_enum-word (element tag type (integer n)) w = λ v same. cc
to_enum-word (element tag type (long_integer n)) w = λ v same. cc
to_enum-word (element tag type (big_integer bytes)) w = λ v same. cc
to_enum-word (element tag type (enumeration n)) w = ok-Holds _ n w.3
to_enum-word (element tag type (boolean b)) w = λ v same. cc
to_enum-word (element tag type (text_string bytes)) w = λ v same. cc
to_enum-word (element tag type (byte_string bytes)) w = λ v same. cc
to_enum-word (element tag type (date_time n)) w = λ v same. cc
to_enum-word (element tag type (date_time_extended n)) w = λ v same. cc
to_enum-word (element tag type (interval n)) w = λ v same. cc

to_int-word : (e : Element) → IsWire e → Holds (λ (v : ℕ). v < 2 ^ 32) (to_int e)
unfolding to_int
to_int-word (element tag type (structure items)) w = λ v same. cc
to_int-word (element tag type (integer n)) w = ok-Holds _ n w.3
to_int-word (element tag type (long_integer n)) w = λ v same. cc
to_int-word (element tag type (big_integer bytes)) w = λ v same. cc
to_int-word (element tag type (enumeration n)) w = λ v same. cc
to_int-word (element tag type (boolean b)) w = λ v same. cc
to_int-word (element tag type (text_string bytes)) w = λ v same. cc
to_int-word (element tag type (byte_string bytes)) w = λ v same. cc
to_int-word (element tag type (date_time n)) w = λ v same. cc
to_int-word (element tag type (date_time_extended n)) w = λ v same. cc
to_int-word (element tag type (interval n)) w = λ v same. cc

-- The four readers of codes.
module _ (e : Element) (wire : IsWire e) where
  pub read_algorithm-KeepsAll : KeepsAll (read_algorithm e)
  unfolding set_algorithm
  read_algorithm-KeepsAll =
      read_code-KeepsAll is_valid_cryptographic_algorithm unknown_crypto_algorithm (to_enum e)
        set_algorithm
        (λ v is valid a c.
          let word = to_enum-word e wire v is in
          record {
            algo_code = unless_unset-IsWithin v crypto_ed448 (ground (arith, word, valid));
            mask_bits = c.mask_bits;
            state_code = c.state_code;
            kept = record { map = c.kept.map; routed = c.kept.routed };
          })

  pub read_mask-KeepsAll : KeepsAll (read_mask e)
  unfolding set_usage_mask
  read_mask-KeepsAll =
      read_code-KeepsAll is_valid_cryptographic_usage_mask unknown_usage_mask (to_int e)
        set_usage_mask
        (λ v is valid a c. record {
          algo_code = c.algo_code;
          mask_bits = unless_unset-IsWithin v (2 ^ 24 - 1) (ground (arith, valid));
          state_code = c.state_code;
          kept = record { map = c.kept.map; routed = c.kept.routed };
        })

  pub read_state-KeepsAll : KeepsAll (read_state e)
  unfolding set_state
  read_state-KeepsAll =
      read_code-KeepsAll is_valid_state unknown_state (to_enum e) set_state (λ v is valid a c.
        let word = to_enum-word e wire v is in
        record {
          algo_code = c.algo_code;
          mask_bits = c.mask_bits;
          state_code = (ground (arith, word, valid), ground (arith, word, valid));
          kept = record { map = c.kept.map; routed = c.kept.routed };
        })

  pub read_length-KeepsAll : KeepsAll (read_length e)
  unfolding set_crypto_length
  read_length-KeepsAll = set_read-KeepsAll set_crypto_length (to_int e) (λ v is a c. record {
    algo_code = c.algo_code;
    mask_bits = c.mask_bits;
    state_code = c.state_code;
    kept = record { map = c.kept.map; routed = c.kept.routed };
  })
