-- ===== src/Base/Results.antt =====
-- The outcome of code that throws: a value, or the exception.
use mathlib.Core.Path.{◌≡◌, refl, subst}
use mathlib.Core.Logic.{◌⊎◌, inl, inr}
use mathlib.Core.Bool.{Bool, true, false, not}
use libkmip.Base.Tests.{if◌then◌else◌}

-- `X` is what may be thrown, `V` the values.
pub data Result {ℓ} (X : Type 0) (V : Type ℓ) : Type ℓ where
  err : X → Result X V
  ok : V → Result X V

-- `if (test) throw thrown;`
abbrev pub throw_if : {X : Type 0} → Bool → X → Result X (Unit {0})
throw_if false thrown = ok tt
throw_if true thrown = err thrown

module _ {ℓ} {X : Type 0} {W : Type ℓ} where
  infixl 5 ◌>>=◌ ◌>>◌
  -- The code that comes next runs only where nothing was thrown.
  abbrev pub ◌>>=◌ {κ} : {V : Type κ} → Result X V → (V → Result X W) → Result X W
  err thrown >>= next = err thrown
  ok value >>= next = next value

  abbrev pub ◌>>◌ : Result X (Unit {0}) → Result X W → Result X W
  first >> second = first >>= λ _. second

  -- A chain that returns has returned at each of its steps.
  pub >>=-eq-ok {κ} :
      {V : Type κ} (first : Result X V) (next : V → Result X W) {last : W}
      → (first >>= next) ≡ ok last
      → (value : V) × (first ≡ ok value) × (next value ≡ ok last)
  >>=-eq-ok (err thrown) next returned = cc
  >>=-eq-ok (ok value) next returned = (value, refl, returned)

  pub Result-cases :
      (r : Result X W) → ((value : W) × (r ≡ ok value)) ⊎ ((thrown : X) × (r ≡ err thrown))
  Result-cases (err thrown) = inr (thrown, refl)
  Result-cases (ok value) = inl (value, refl)

-- Every value that a result may hold satisfies `P`; a rule for each way to build a result.
abbrev pub Holds {ℓ κ} : {E : Type 0} {A : Type ℓ} → (A → Type κ) → Result E A → Type (ℓ ⊔ κ)
Holds {A} P r = (a : A) → r ≡ ok a → P a

module _ {ℓ κ} {E : Type 0} {A : Type ℓ} (P : A → Type κ) where
  pub if-Holds :
      (t : Bool) (x y : Result E A)
      → (t ≡ true → Holds P x)
      → (t ≡ false → Holds P y)
      → Holds P (if t then x else y)
  if-Holds true x y h k = h refl
  if-Holds false x y h k = k refl

  pub ok-Holds : (a : A) → P a → let r : Result E A = ok a in Holds P r
  ok-Holds a p b e = let same : a ≡ b = cc in subst P same p

  pub err-Holds : (x : E) → Holds P (err x)
  err-Holds x b e = cc

  pub throw_if-Holds :
      (t : Bool) (x : E) (k : Result E A) → (t ≡ false → Holds P k) → Holds P (throw_if t x >> k)
  throw_if-Holds true x k h b e = cc
  throw_if-Holds false x k h b e = h refl b e

  pub >>=-Holds {μ} :
      {B : Type μ} (m : Result E B) (f : B → Result E A)
      → ((b : B) → m ≡ ok b → Holds P (f b))
      → Holds P (m >>= f)
  >>=-Holds (ok b) f h a e = h b refl a e
  >>=-Holds (err x) f h a e = cc

pub throw_if_lem {ℓ} :
    {E : Type 0} {A : Type ℓ} (t : Bool) (x : E) (a : A)
    → (throw_if t x >> ok a) ≡ (if t then err x else ok a)
throw_if_lem true x a = refl
throw_if_lem false x a = refl

pub throw_if_not_lem {ℓ} :
    {E : Type 0} {A : Type ℓ} (t : Bool) (x : E) (a : A)
    → (throw_if (not t) x >> ok a) ≡ (if t then ok a else err x)
throw_if_not_lem true x a = refl
throw_if_not_lem false x a = refl
