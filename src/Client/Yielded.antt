-- ===== src/Client/Yielded.antt =====
-- What code of kmipclient/src/KmipClient.cpp can return, whatever the connection does.
use libkmip.Base.{
  ℕ, ◌≡◌, ◌⊎◌, refl, ap, Bool, true, false, not, List, Option, none, some, Result, ok, err,
  throw_if,
}
use libkmip.Errors.{Error}
use libkmip.Exchange.{Io, and_then, ◌>>>=◌}
use libkmip.Attributes.Names.{attr_state}
use libkmip.Attributes.{Attributes, has_attribute, has_value, or_kept, merge}
use libkmip.Requests.Keys.{Key}
use libkmip.Locate.Found.{if_both}
use libkmip.Codes.{format_x509, format_pkcs8}
use libkmip.Client.{lift, or_retry}

-- Every value that the code can return satisfies `P` in the world in which it is returned.
abbrev pub Yields : {W A : Type 0} → (A → W → Type 0) → Result Error A × W → Type 0
Yields P (ok a, w) = P a w
Yields P (err e, w) = Unit

-- The world in which the code ends, by a value or by an exception, satisfies `R` as well.
abbrev pub Ends : {W A : Type 0} → (W → Type 0) → (A → W → Type 0) → Result Error A × W → Type 0
Ends R P (ok a, w) = R w × P a w
Ends R P (err e, w) = R w

pub Ends-Yields :
    {W A : Type 0} (R : W → Type 0) (P : A → W → Type 0) (r : Result Error A × W)
    → Ends R P r
    → Yields P r
Ends-Yields R P (ok a, w) h = h.1
Ends-Yields R P (err e, w) h = tt

pub Ends-world :
    {W A : Type 0} (R : W → Type 0) (P : A → W → Type 0) (r : Result Error A × W)
    → Ends R P r
    → R r.1
Ends-world R P (ok a, w) h = h.0
Ends-world R P (err e, w) h = h

pub and_then-ok :
    {W A B : Type 0} (r : Result Error A × W) (f : A → Io W B) (b : B) (w : W)
    → and_then r f ≡ (ok b, w)
    → (a : A) × (v : W) × (r ≡ (ok a, v)) × (f a v ≡ (ok b, w))
and_then-ok (ok a, v) f b w = λ h. (a, v, refl, h)
and_then-ok {W} {A} {B} (err e, v) f b w =
    λ h. let thrown : err e ≡ ok b = ap (λ (r : Result Error B × W). r.0) h in cc thrown

module _ {W B : Type 0} (R : W → Type 0) (P : B → W → Type 0) where
  pub and_then-Ends :
      {A : Type 0} (r : Result Error A × W) (f : A → Io W B)
      → R r.1
      → ((a : A) (w : W) → r ≡ (ok a, w) → R w → Ends R P (f a w))
      → Ends R P (and_then r f)
  and_then-Ends (ok a, w) f there h = h a w refl there
  and_then-Ends (err e, w) f there h = there

  -- A result that needs no exchange.
  pub lift-Ends :
      {A : Type 0} (r : Result Error A) (f : A → Io W B) (w : W)
      → R w
      → ((a : A) → r ≡ ok a → Ends R P (f a w))
      → Ends R P ((lift r >>>= f) w)
  lift-Ends (ok a) f w there h = h a refl
  lift-Ends (err e) f w there h = there

  pub or_retry-Ends :
      (may : Error → Bool) (r : Result Error B × W) (next : Io W B)
      → Ends R P r
      → ((w : W) → R w → Ends R P (next w))
      → Ends R P (or_retry may r next)
  or_retry-Ends may (ok a, w) next h k = h
  or_retry-Ends may (err e, w) next h k =
      if_both (λ (x : Result Error B × W). Ends R P x) (may e) (next w) (err e, w) (λ _. k w h)
        (λ _. h)

abbrev pub HasState : Attributes → Type 0
HasState a = has_attribute attr_state a ≡ true

has_value-or_kept : (o p : Option ℕ) → has_value o ≡ true → has_value (or_kept o p) ≡ true
has_value-or_kept (some n) p = λ h. refl
has_value-or_kept none p = λ h. cc

pub merge-HasState : (a other : Attributes) → HasState other → HasState (merge a other)
unfolding has_attribute merge
merge-HasState a other h = has_value-or_kept other.state a.state h

pub throw_if-not-ok : (t : Bool) (x : Error) (u : Unit {0}) → throw_if (not t) x ≡ ok u → t ≡ true
throw_if-not-ok true x u = λ h. refl
throw_if-not-ok false x u = λ h. let thrown : err x ≡ ok u = h in cc thrown

-- The key is what the parser read, but for a format that OpenSSL has corrected.
pub record IsAsRead (is_subject_public_key_info : List ℕ → Bool) (key read : Key) : Type 0 where
  pub same_value : key.value ≡ read.value
  pub same_type : key.key_type ≡ read.key_type
  pub same_format :
      (key.key_format ≡ read.key_format)
      ⊎ ((key.key_format ≡ some format_x509)
          × (read.key_format ≡ some format_pkcs8)
          × (is_subject_public_key_info read.value ≡ true))
