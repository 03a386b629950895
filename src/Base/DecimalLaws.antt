-- ===== src/Base/DecimalLaws.antt =====
-- A number that is printed is read back.
use Prim.Native.Nat.{ℕ, zero, suc, ◌+◌, ◌-◌, ◌*◌, ◌/◌, ◌%◌, ◌^◌, ◌<◌, ◌≤◌}
use mathlib.Core.Path.{◌≡◌, refl, sym, ap, subst, ◌∙◌}
use mathlib.Core.Logic.{inl, inr}
use mathlib.Core.Bool.{Bool, true, false, ◌&&◌}
use mathlib.Core.Option.{some}
use mathlib.Core.List.{List, [], ◌∷◌}
use native.Mathlib.Omega.{arith}
use libkmip.Base.Tests.{◌==◌, ltb, leb, if◌then◌else◌, Bool-cases, if_true, if_false}
use libkmip.Base.Lists.{All}
use libkmip.Base.Texts.{same_text}
use libkmip.Base.Decimals.{
  digits, decimal, signed_decimal, is_digit, read_digits, read_number, positive_long, negative_long,
  strtol,
}

digit_lt : (n : ℕ) → is_digit (b'0' + n % 10) ≡ true
digit_lt n = ground arith

read_digits-digit :
    (d n : ℕ) (rest : List ℕ)
    → d < 10
    → read_digits ((b'0' + d) ∷ rest) n ≡ read_digits rest (n * 10 + d)
read_digits-digit d n rest h =
    let digit : is_digit (b'0' + d) ≡ true = ground arith in
    let not_end : (b'0' + d == 0) ≡ false = ground arith in
    let value : n * 10 + (b'0' + d - b'0') ≡ n * 10 + d = omega arith in
    if_false (b'0' + d == 0) _ _ not_end
    ∙ if_true (is_digit (b'0' + d)) _ _ digit
    ∙ ap (read_digits rest) value

read_digits-digits :
    (fuel n : ℕ) (rest : List ℕ)
    → n < 10 ^ fuel
    → read_digits (digits fuel n rest) 0 ≡ read_digits rest n
read_digits-digits zero n rest h =
    let nothing : 0 ≡ n = omega (arith, h) in ap (read_digits rest) nothing
read_digits-digits (suc fuel) n rest h = elim (Bool-cases (n == 0)) [
  | inl none_left ↦
      let nothing : 0 ≡ n = ground arith in
      ap (λ (t : List ℕ). read_digits t 0) (if_true _ _ _ none_left) ∙ ap (read_digits rest) nothing
  | inr more ↦
      let power : 10 ^ suc fuel ≡ 10 * 10 ^ fuel = omega arith in
      let small : n < 10 * 10 ^ fuel = subst (λ (k : ℕ). n < k) power h in
      let value : n / 10 * 10 + n % 10 ≡ n = omega arith in
      ap (λ (t : List ℕ). read_digits t 0) (if_false _ _ _ more)
      ∙ read_digits-digits fuel (n / 10) ((b'0' + n % 10) ∷ rest) (omega (arith, small))
      ∙ read_digits-digit (n % 10) (n / 10) rest (omega arith)
      ∙ ap (read_digits rest) value
]

-- A text that begins with a digit.
Starts : List ℕ → Type 0
Starts s = (c : ℕ) × (rest : List ℕ) × (s ≡ c ∷ rest) × (is_digit c ≡ true)

digits-Starts :
    (fuel n c : ℕ) (rest : List ℕ) → is_digit c ≡ true → Starts (digits fuel n (c ∷ rest))
unfolding Starts
digits-Starts zero n c rest h = (c, rest, refl, h)
digits-Starts (suc fuel) n c rest h = elim (Bool-cases (n == 0)) [
  | inl none_left ↦ (c, rest, if_true _ _ _ none_left, h)
  | inr more ↦
      let (d, later, e, k) = digits-Starts fuel (n / 10) (b'0' + n % 10) (c ∷ rest) (digit_lt n) in
      (d, later, if_false _ _ _ more ∙ e, k)
]

decimal-Starts : (n : ℕ) → Starts (decimal n)
unfolding Starts
decimal-Starts n = elim (Bool-cases (n == 0)) [
  | inl nothing ↦ (b'0', [], if_true _ _ _ nothing, refl)
  | inr more ↦
      let (c, rest, e, h) = digits-Starts 19 (n / 10) (b'0' + n % 10) [] (digit_lt n) in
      (c, rest, if_false _ _ _ more ∙ if_false _ _ _ more ∙ e, h)
]

strtol-Starts : (s : List ℕ) → Starts s → strtol s ≡ positive_long (read_digits s 0)
unfolding Starts
strtol-Starts s (c, rest, e, h) =
    subst (λ (t : List ℕ). strtol t ≡ positive_long (read_digits t 0)) (sym e) (ground (arith, h))

read_digits-decimal : (n : ℕ) → n < 10 ^ 20 → read_digits (decimal n) 0 ≡ some n
read_digits-decimal n h = elim (Bool-cases (n == 0)) [
  | inl nothing ↦
      let e : 0 ≡ n = ground arith in
      ap (λ (t : List ℕ). read_digits t 0) (if_true _ _ _ nothing) ∙ ap (λ (k : ℕ). some k) e
  | inr more ↦
      ap (λ (t : List ℕ). read_digits t 0) (if_false _ _ _ more) ∙ read_digits-digits 20 n [] h
]

-- A natural number that a long can hold is read back from its digits.
pub strtol-decimal : (n : ℕ) → n < 2 ^ 63 → strtol (decimal n) ≡ some n
strtol-decimal n h =
    strtol-Starts (decimal n) (decimal-Starts n)
    ∙ ap positive_long (read_digits-decimal n (omega (arith, h)))
    ∙ if_true (ltb n (2 ^ 63)) _ _ (ground (arith, h))

read_number-Starts : (s : List ℕ) → Starts s → read_number s ≡ read_digits s 0
unfolding Starts
read_number-Starts s (c, rest, e, h) =
    subst (λ (t : List ℕ). read_number t ≡ read_digits t 0) (sym e) (if_true (is_digit c) _ _ h)

-- An int32_t that is printed is read back as a long with the same value.
pub strtol-signed_decimal :
    (n : ℕ)
    → n < 2 ^ 32
    → strtol (signed_decimal 32 n) ≡ some (if ltb n (2 ^ 31) then n else n + (2 ^ 64 - 2 ^ 32))
strtol-signed_decimal n h = elim (Bool-cases (ltb n (2 ^ 31))) [
  | inl positive ↦
      ap strtol (if_true (ltb n (2 ^ 31)) _ _ positive)
      ∙ strtol-decimal n (omega (arith, h))
      ∙ ap (λ (k : ℕ). some k) (sym (if_true (ltb n (2 ^ 31)) _ _ positive))
  | inr negative ↦
      let big : 2 ^ 31 ≤ n = ground arith in
      let value : (2 ^ 64 - (2 ^ 32 - n)) % 2 ^ 64 ≡ n + (2 ^ 64 - 2 ^ 32) =
        omega (arith, big, h) in
      ap strtol (if_false (ltb n (2 ^ 31)) _ _ negative)
      ∙ ap negative_long (
          read_number-Starts (decimal (2 ^ 32 - n)) (decimal-Starts (2 ^ 32 - n))
          ∙ read_digits-decimal (2 ^ 32 - n) (omega arith))
      ∙ if_true (leb (2 ^ 32 - n) (2 ^ 63)) _ _ (ground arith)
      ∙ ap (λ (k : ℕ). some k) (value ∙ sym (if_false (ltb n (2 ^ 31)) _ _ negative))
]

-- All of its characters are digits.
abbrev pub AreDigits : List ℕ → Type 0
AreDigits = All (λ (c : ℕ). is_digit c ≡ true)

digits-AreDigits : (fuel n : ℕ) (rest : List ℕ) → AreDigits rest → AreDigits (digits fuel n rest)
digits-AreDigits zero n rest h = h
digits-AreDigits (suc fuel) n rest h = elim (Bool-cases (n == 0)) [
  | inl nothing ↦ subst AreDigits (sym (if_true (n == 0) _ _ nothing)) h
  | inr more ↦
      subst AreDigits (sym (if_false (n == 0) _ _ more))
        (digits-AreDigits fuel (n / 10) ((b'0' + n % 10) ∷ rest) (digit_lt n, h))
]

pub decimal-AreDigits : (n : ℕ) → AreDigits (decimal n)
decimal-AreDigits n = elim (Bool-cases (n == 0)) [
  | inl nothing ↦ subst AreDigits (sym (if_true (n == 0) _ _ nothing)) (refl, tt)
  | inr more ↦ subst AreDigits (sym (if_false (n == 0) _ _ more)) (digits-AreDigits 20 n [] tt)
]

-- Some character is no digit.
abbrev pub has_letter : List ℕ → Bool
has_letter [] = false
has_letter (c ∷ rest) = if is_digit c then has_letter rest else true

pub same_text-has_letter :
    (name s : List ℕ) → has_letter name ≡ true → AreDigits s → same_text name s ≡ false
same_text-has_letter [] s h d = cc
same_text-has_letter (a ∷ name) [] h d = refl
same_text-has_letter (a ∷ name) (b ∷ s) h (digit, d) = elim (Bool-cases (a == b)) [
  | inl same ↦
      let e : b ≡ a = ground arith in
      let letter : has_letter name ≡ true =
        sym (if_true (is_digit a) _ _ (subst (λ (c : ℕ). is_digit c ≡ true) e digit)) ∙ h in
      ap (λ (t : Bool). t && same_text name s) same ∙ same_text-has_letter name s letter d
  | inr other ↦ ap (λ (t : Bool). t && same_text name s) other
]
