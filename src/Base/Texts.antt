-- ===== src/Base/Texts.antt =====
-- Strings as their bytes, and maps whose keys are strings.
use Prim.Native.Nat.{ℕ}
use Prim.Native.String.{String}
use Prim.Native.Char.{code}
use mathlib.Core.Path.{◌≡◌, refl, sym, ap, ap₂, ◌∙◌}
use mathlib.Core.Logic.{inl, inr}
use mathlib.Core.Bool.{Bool, true, false, ◌&&◌}
use mathlib.Core.Option.{Option, none, some}
use mathlib.Core.List.{List, [], ◌∷◌}
use native.Mathlib.Omega.{arith}
use libkmip.Base.Tests.{◌==◌, if◌then◌else◌, ==_refl, Bool-cases}

-- A text as its bytes, which are those of ASCII.
abbrev pub codes : String → List ℕ
codes String.[] = []
codes (String.◌∷◌ c rest) = code c ∷ codes rest

-- Strings are compared byte by byte.
abbrev pub same_text : List ℕ → List ℕ → Bool
same_text [] [] = true
same_text [] (b ∷ rest_b) = false
same_text (a ∷ rest_a) [] = false
same_text (a ∷ rest_a) (b ∷ rest_b) = (a == b) && same_text rest_a rest_b

pub same_text_eq : (rest_a rest_b : List ℕ) → same_text rest_a rest_b ≡ true → rest_a ≡ rest_b
same_text_eq [] [] h = refl
same_text_eq [] (b ∷ rest_b) h = cc
same_text_eq (a ∷ rest_a) [] h = cc
same_text_eq (a ∷ rest_a) (b ∷ rest_b) h = elim (Bool-cases (a == b)) [
  | inl same ↦
      let first : a ≡ b = ground arith in
      let tails : same_text rest_a rest_b ≡ true =
        sym (ap (λ (t : Bool). t && same_text rest_a rest_b) same) ∙ h in
      ap₂ (λ (x : ℕ) (xs : List ℕ). x ∷ xs) first (same_text_eq rest_a rest_b tails)
  | inr other ↦
      let never : false ≡ true = sym (ap (λ (t : Bool). t && same_text rest_a rest_b) other) ∙ h in
      cc
]

pub same_text_refl : (id : List ℕ) → same_text id id ≡ true
same_text_refl [] = refl
same_text_refl (a ∷ rest) = rw (==_refl a, same_text_refl rest)

-- `std::unordered_map<std::string, V>`, each key once.
abbrev pub TextMap {ℓ} : Type ℓ → Type ℓ
TextMap V = List (List ℕ × V)

module _ {ℓ} {V : Type ℓ} where
  abbrev pub find_text : List ℕ → TextMap V → Option V
  find_text key [] = none
  find_text key ((k, v) ∷ rest) = if same_text k key then some v else find_text key rest

  -- `map[key] = value`
  abbrev pub put_text : List ℕ → V → TextMap V → TextMap V
  put_text key value [] = (key, value) ∷ []
  put_text key value ((k, v) ∷ rest) =
      let later = put_text key value rest in
      if same_text k key then (key, value) ∷ rest else (k, v) ∷ later

  -- `map.erase(key)`
  abbrev pub erase_text : List ℕ → TextMap V → TextMap V
  erase_text key [] = []
  erase_text key ((k, v) ∷ rest) =
      let later = erase_text key rest in if same_text k key then later else (k, v) ∷ later

  -- `for (const auto &[k, v] : more) map[k] = v;`
  abbrev pub put_all : TextMap V → TextMap V → TextMap V
  put_all [] entries = entries
  put_all ((k, v) ∷ more) entries = put_all more (put_text k v entries)
