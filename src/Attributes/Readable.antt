-- ===== src/Attributes/Readable.antt =====
-- What `as_string_map` of kmipcore/src/kmip_attributes.cpp prints is read by `set`.
use libkmip.Base.{
  ℕ, ◌%◌, ◌^◌, ◌<◌, ◌≤◌, ◌≡◌, inl, inr, refl, sym, ap, ◌∙◌, arith, true, false, List, [], ◌∷◌,
  Option, none, some, ◌==◌, Bool-cases, Option-cases, if_true, if_false, codes, same_text,
  find_text, TextMap, decimal, strtol, strtol-decimal, decimal-AreDigits, AreDigits, has_letter,
  same_text-has_letter, All,
}
use libkmip.Codes.{state_pre_active, state_destroyed_compromised}
use libkmip.Attributes.Names.{
  CodeNames, find_code, algorithm_texts, algorithm_codes, algorithm_to_string,
  parse_algorithm_string, text_or, code_or_number, low_word, state_texts, state_to_string,
  parse_state_string,
}

-- A text of digits is none of the names.
find_text-has_letter :
    (names : TextMap ℕ) (s : List ℕ)
    → All (λ (e : List ℕ × ℕ). has_letter e.0 ≡ true) names
    → AreDigits s
    → find_text s names ≡ none
find_text-has_letter [] s h d = refl
find_text-has_letter ((name, c) ∷ names) s (letter, h) d =
    if_false (same_text name s) _ _ (same_text-has_letter name s letter d)
    ∙ find_text-has_letter names s h d

-- Each of the names is read as its code.
find_code-read :
    (names : CodeNames) (read : List ℕ → Option ℕ) (c : ℕ) (name : List ℕ)
    → All (λ (e : ℕ × List ℕ). read e.1 ≡ some e.0) names
    → find_code c names ≡ some name
    → read name ≡ some c
find_code-read [] read c name h found = cc
find_code-read ((k, text) ∷ names) read c name (same, h) found = elim (Bool-cases (c == k)) [
  | inl here ↦
      let e : k ≡ c = ground arith in
      let it : some text ≡ some name = sym (if_true (c == k) _ _ here) ∙ found in
      let same_name : text ≡ name = cc in sym (ap read same_name) ∙ same ∙ ap (λ (n : ℕ). some n) e
  | inr later ↦ find_code-read names read c name h (sym (if_false (c == k) _ _ later) ∙ found)
]

named_algorithms : All (λ (e : ℕ × List ℕ). parse_algorithm_string e.1 ≡ some e.0) algorithm_texts
unfolding parse_algorithm_string
named_algorithms = (
  refl,
  (
    refl,
    (
      refl,
      (refl, (refl, (refl, (refl, (refl, (refl, (refl, (refl, (refl, (refl, (refl, tt))))))))))),
    ),
  ),
)

letters : All (λ (e : List ℕ × ℕ). has_letter e.0 ≡ true) algorithm_codes
letters = (
  refl,
  (
    refl,
    (
      refl,
      (refl, (refl, (refl, (refl, (refl, (refl, (refl, (refl, (refl, (refl, (refl, tt))))))))))),
    ),
  ),
)

code_or_number-none : (s : List ℕ) → code_or_number none s ≡ low_word (strtol s)
code_or_number-none [] = refl
code_or_number-none (c ∷ s) = refl

parse_algorithm_string-decimal :
    (alg : ℕ) → alg < 2 ^ 32 → parse_algorithm_string (decimal alg) ≡ some alg
unfolding parse_algorithm_string
parse_algorithm_string-decimal alg h =
    let same : alg % 2 ^ 32 ≡ alg = omega (arith, h) in
    ap (λ (o : Option ℕ). code_or_number o (decimal alg))
      (find_text-has_letter algorithm_codes (decimal alg) letters (decimal-AreDigits alg))
    ∙ code_or_number-none (decimal alg)
    ∙ ap low_word (strtol-decimal alg (omega (arith, h)))
    ∙ ap (λ (n : ℕ). some n) same

-- The text of each 32-bit code of an algorithm, with a name or without, is read back to the code.
pub parse_algorithm_string-algorithm_to_string :
    (alg : ℕ) → alg < 2 ^ 32 → parse_algorithm_string (algorithm_to_string alg) ≡ some alg
unfolding algorithm_to_string
parse_algorithm_string-algorithm_to_string alg h =
    elim (Option-cases (find_code alg algorithm_texts)) [
      | inl unnamed ↦
          ap (λ (o : Option (List ℕ)). parse_algorithm_string (text_or o (decimal alg))) unnamed
          ∙ parse_algorithm_string-decimal alg h
      | inr (name, named) ↦
          ap (λ (o : Option (List ℕ)). parse_algorithm_string (text_or o (decimal alg))) named
          ∙ find_code-read algorithm_texts parse_algorithm_string alg name named_algorithms named
    ]

named_states : All (λ (e : ℕ × List ℕ). parse_state_string e.1 ≡ some e.0) state_texts
unfolding parse_state_string
named_states = (refl, (refl, (refl, (refl, (refl, (refl, tt))))))

find_code-none :
    (names : CodeNames) (c : ℕ)
    → find_code c names ≡ none
    → All (λ (e : ℕ × List ℕ). (c == e.0) ≡ false) names
find_code-none [] c h = tt
find_code-none ((k, text) ∷ names) c h = elim (Bool-cases (c == k)) [
  | inl here ↦ let never : some text ≡ none = sym (if_true (c == k) _ _ here) ∙ h in cc
  | inr other ↦ (other, find_code-none names c (sym (if_false (c == k) _ _ other) ∙ h))
]

known_state :
    (st : ℕ)
    → state_pre_active ≤ st
    → st ≤ state_destroyed_compromised
    → (name : List ℕ) × (find_code st state_texts ≡ some name)
known_state st h k = elim (Option-cases (find_code st state_texts)) [
  | inl unnamed ↦
      let others = find_code-none state_texts st unnamed in
      absurd (
        ground (
          arith, others.0, others.1.0, others.1.1.0, others.1.1.1.0, others.1.1.1.1.0,
          others.1.1.1.1.1.0, h, k,
        ))
  | inr named ↦ named
]

-- The text of each state that KMIP defines is read back to the state.
pub parse_state_string-state_to_string :
    (st : ℕ)
    → state_pre_active ≤ st
    → st ≤ state_destroyed_compromised
    → parse_state_string (state_to_string st) ≡ some st
unfolding state_to_string
parse_state_string-state_to_string st h k =
    let (name, named) = known_state st h k in
    ap (λ (o : Option (List ℕ)). parse_state_string (text_or o (codes "UNKNOWN_KMIP_STATE"))) named
    ∙ find_code-read state_texts parse_state_string st name named_states named
