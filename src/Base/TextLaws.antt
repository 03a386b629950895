-- ===== src/Base/TextLaws.antt =====
-- What stands in a map after it was changed.
use Prim.Native.Nat.{ℕ}
use mathlib.Core.Path.{◌≡◌, refl, sym, ap, subst, ◌∙◌}
use mathlib.Core.Logic.{◌↔◌, inl, inr}
use mathlib.Core.Bool.{true, false}
use mathlib.Core.Option.{Option, none, some}
use mathlib.Core.List.{List, [], ◌∷◌}
use native.Mathlib.Omega.{arith}
use libkmip.Base.Tests.{if◌then◌else◌, Bool-cases, if_true, if_false}
use libkmip.Base.Texts.{
  same_text, same_text_eq, same_text_refl, TextMap, find_text, put_text, erase_text, put_all,
}

pub same_text_iff : (a b : List ℕ) → (same_text a b ≡ true) ↔ (a ≡ b)
same_text_iff a b =
    (same_text_eq a b, λ e. subst (λ (x : List ℕ). same_text a x ≡ true) e (same_text_refl a))

module _ {ℓ} {V : Type ℓ} where
  pub find_text-put_text :
      (key j : List ℕ) (v : V) (m : TextMap V)
      → find_text j (put_text key v m) ≡ (if same_text key j then some v else find_text j m)
  find_text-put_text key j v [] = refl
  find_text-put_text key j v ((i, w) ∷ m) = ground (
    arith,
    same_text_iff key j,
    same_text_iff i key,
    same_text_iff i j,
    find_text-put_text key j v m,
  )

  pub find_text-erase_text :
      (key j : List ℕ) (m : TextMap V)
      → find_text j (erase_text key m) ≡ (if same_text key j then none else find_text j m)
  find_text-erase_text key j [] = ground arith
  find_text-erase_text key j ((i, w) ∷ m) = ground (
    arith,
    same_text_iff key j,
    same_text_iff i key,
    same_text_iff i j,
    find_text-erase_text key j m,
  )

  -- Each key stands there once.
  abbrev pub IsMap : TextMap V → Type ℓ
  IsMap [] = Unit {ℓ}
  IsMap ((k, v) ∷ rest) = (find_text k rest ≡ none) × IsMap rest

  pub put_text-IsMap : (key : List ℕ) (v : V) (m : TextMap V) → IsMap m → IsMap (put_text key v m)
  put_text-IsMap key v [] h = (refl, tt)
  put_text-IsMap key v ((i, w) ∷ m) (fresh, h) = elim (Bool-cases (same_text i key)) [
    | inl same ↦
        let e : i ≡ key = same_text_eq i key same in
        subst IsMap (sym (if_true (same_text i key) _ _ same))
          (subst (λ (x : List ℕ). find_text x m ≡ none) e fresh, h)
    | inr other ↦
        let apart : same_text key i ≡ false =
          ground (arith, same_text_iff i key, same_text_iff key i) in
        subst IsMap (sym (if_false (same_text i key) _ _ other))
          (find_text-put_text key i v m ∙ if_false _ _ _ apart ∙ fresh, put_text-IsMap key v m h)
  ]

  pub erase_text-IsMap : (key : List ℕ) (m : TextMap V) → IsMap m → IsMap (erase_text key m)
  erase_text-IsMap key [] h = tt
  erase_text-IsMap key ((i, w) ∷ m) (fresh, h) = elim (Bool-cases (same_text i key)) [
    | inl same ↦ subst IsMap (sym (if_true (same_text i key) _ _ same)) (erase_text-IsMap key m h)
    | inr other ↦
        let apart : same_text key i ≡ false =
          ground (arith, same_text_iff i key, same_text_iff key i) in
        subst IsMap (sym (if_false (same_text i key) _ _ other))
          (find_text-erase_text key i m ∙ if_false _ _ _ apart ∙ fresh, erase_text-IsMap key m h)
  ]

  pub put_all-IsMap : (more m : TextMap V) → IsMap m → IsMap (put_all more m)
  put_all-IsMap [] m h = h
  put_all-IsMap ((k, v) ∷ more) m h = put_all-IsMap more (put_text k v m) (put_text-IsMap k v m h)

  -- The value of the first option that has one.
  abbrev pub first_some : Option V → Option V → Option V
  first_some (some v) other = some v
  first_some none other = other

  pub find_text-put_all :
      (j : List ℕ) (more m : TextMap V)
      → IsMap more
      → find_text j (put_all more m) ≡ first_some (find_text j more) (find_text j m)
  find_text-put_all j [] m h = refl
  find_text-put_all j ((k, v) ∷ more) m (fresh, h) =
      find_text-put_all j more (put_text k v m) h ∙ elim (Bool-cases (same_text k j)) [
        | inl same ↦
            let absent : find_text j more ≡ none =
              subst (λ (x : List ℕ). find_text x more ≡ none) (same_text_eq k j same) fresh in
            ap (λ (o : Option V). first_some o (find_text j (put_text k v m))) absent
            ∙ find_text-put_text k j v m
            ∙ if_true _ _ _ same
            ∙ sym (ap (λ (o : Option V). first_some o (find_text j m)) (if_true _ _ _ same))
        | inr other ↦
            ap (first_some (find_text j more)) (find_text-put_text k j v m ∙ if_false _ _ _ other)
            ∙ sym (ap (λ (o : Option V). first_some o (find_text j m)) (if_false _ _ _ other))
      ]
