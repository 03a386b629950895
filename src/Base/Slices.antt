-- ===== src/Base/Slices.antt =====
-- Parts of a list around an offset.
use Prim.Native.Nat.{ℕ, zero, suc, ◌+◌, ◌≤◌, ◌<◌}
use Prim.Native.Nat.add
use native.Mathlib.Nat.{add-zero}
use mathlib.Core.Path.{◌≡◌, refl, sym, ap, ◌∙◌}
use mathlib.Core.List.{List, [], ◌∷◌, ◌++◌}
use native.Mathlib.Omega.{arith}
use libkmip.Base.Lists.{length, get_or, take, drop, length-drop}

module _ {ℓ} {A : Type ℓ} where
  pub take_all : (xs : List A) (n : ℕ) → length xs ≤ n → take n xs ≡ xs
  take_all [] zero h = refl
  take_all [] (suc n) h = refl
  take_all (x ∷ xs) zero h = absurd (omega arith)
  take_all (x ∷ xs) (suc n) h = ap (◌∷◌ x) (take_all xs n (omega arith))

  pub drop_all : (xs : List A) (n : ℕ) → length xs ≤ n → drop n xs ≡ []
  drop_all [] zero h = refl
  drop_all [] (suc n) h = refl
  drop_all (x ∷ xs) zero h = absurd (omega arith)
  drop_all (x ∷ xs) (suc n) h = drop_all xs n (omega arith)

  pub take-append : (xs ys : List A) (n : ℕ) → n ≡ length xs → take n (xs ++ ys) ≡ xs
  take-append [] ys zero h = refl
  take-append [] ys (suc n) h = absurd (omega arith)
  take-append (x ∷ xs) ys zero h = absurd (omega arith)
  take-append (x ∷ xs) ys (suc n) h = ap (◌∷◌ x) (take-append xs ys n (omega arith))

  pub drop-append : (xs ys : List A) (n : ℕ) → n ≡ length xs → drop n (xs ++ ys) ≡ ys
  drop-append [] ys zero h = refl
  drop-append [] ys (suc n) h = absurd (omega arith)
  drop-append (x ∷ xs) ys zero h = absurd (omega arith)
  drop-append (x ∷ xs) ys (suc n) h = drop-append xs ys n (omega arith)

  pub drop-drop : (m n : ℕ) (xs : List A) → drop m (drop n xs) ≡ drop (n + m) xs
  drop-drop m zero xs = rw (add.zero m)
  drop-drop zero (suc n) [] = rw add.suc
  drop-drop (suc m) (suc n) [] = rw add.suc
  drop-drop m (suc n) (x ∷ xs) = rw add.suc (drop-drop m n xs)

  pub drop-take : (n m : ℕ) (xs : List A) → drop n (take (n + m) xs) ≡ take m (drop n xs)
  drop-take zero m xs = rw (add.zero m)
  drop-take (suc n) zero [] = rw add.suc
  drop-take (suc n) (suc m) [] = rw add.suc
  drop-take (suc n) m (x ∷ xs) = rw add.suc (drop-take n m xs)

  pub get_or-drop : (n i : ℕ) (xs : List A) (d : A) → get_or xs (n + i) d ≡ get_or (drop n xs) i d
  get_or-drop zero i xs d = rw (add.zero i)
  get_or-drop (suc n) i [] d = refl
  get_or-drop (suc n) i (x ∷ xs) d = rw add.suc (get_or-drop n i xs d)

  -- What stands at an offset bounds the list.
  pub length-of_drop :
      (n : ℕ) (xs ys : List A) → drop n xs ≡ ys → 0 < length ys → length xs ≡ n + length ys
  length-of_drop n xs ys e h = omega (arith, length-drop n xs, ap length e)

  -- A read at an offset is a read in what stands there.
  pub get_or-at :
      (off : ℕ) (xs ys : List A) (i : ℕ) (d : A)
      → drop off xs ≡ ys
      → get_or xs (off + i) d ≡ get_or ys i d
  get_or-at off xs ys i d e = get_or-drop off i xs d ∙ ap (λ (zs : List A). get_or zs i d) e

  pub get_or-at_zero :
      (off : ℕ) (xs ys : List A) (d : A) → drop off xs ≡ ys → get_or xs off d ≡ get_or ys 0 d
  get_or-at_zero off xs ys d e = rw add-zero at (get_or-at off xs ys 0 d e)

  -- What follows a part that stands at an offset.
  pub drop-at :
      (off : ℕ) (xs ys zs : List A) (n : ℕ)
      → drop off xs ≡ ys ++ zs
      → n ≡ length ys
      → drop (off + n) xs ≡ zs
  drop-at off xs ys zs n e k = sym (drop-drop n off xs) ∙ ap (drop n) e ∙ drop-append ys zs n k

  pub drop_step :
      (off : ℕ) (xs : List A) (d : A)
      → off < length xs
      → drop off xs ≡ get_or xs off d ∷ drop (off + 1) xs
  drop_step zero [] d h = absurd (omega arith)
  drop_step zero (x ∷ xs) d h = refl
  drop_step (suc off) [] d h = absurd (omega arith)
  drop_step (suc off) (x ∷ xs) d h = rw add.suc (drop_step off xs d (omega arith))
