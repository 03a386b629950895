-- ===== src/Client/Labels.antt =====
-- The label that `in_preferred_format` of kmipclient/src/KmipClient.cpp leaves on a key.
use libkmip.Base.{
  ℕ, ◌≡◌, ◌∙◌, inl, inr, refl, subst, ap, Bool, true, false, ◌&&◌, List, Option, none, some, arith,
  if◌then◌else◌,
}
use libkmip.Ttlv.Bytes.{Endian}
use libkmip.Protocol.Version.{ProtocolVersion}
use libkmip.Exchange.{NetClient}
use libkmip.Requests.Keys.{Key}
use libkmip.Codes.{format_x509, format_pkcs8}
use libkmip.Client.Objects.{is_format, is_public, in_preferred_format}
use libkmip.Client.Yielded.{IsAsRead}

-- A SubjectPublicKeyInfo of a public key does not stand under the label PKCS#8.
abbrev pub IsLabelled : (List ℕ → Bool) → Key → Type 0
IsLabelled is_subject_public_key_info key =
    (is_public key.key_type
      && (is_format key.key_format format_pkcs8 && is_subject_public_key_info key.value))
    ≡ false

and-false : (b : Bool) → (b && false) ≡ false
and-false true = refl
and-false false = refl

and-left : (a b c : Bool) → (a && b) ≡ false → (a && (b && c)) ≡ false
and-left true true c h = cc
and-left true false c h = refl
and-left false b c h = refl

pub other-IsLabelled :
    (spki : List ℕ → Bool) (key : Key) → is_public key.key_type ≡ false → IsLabelled spki key
other-IsLabelled spki key h = rw h refl

pub unlabelled-IsLabelled :
    (spki : List ℕ → Bool) (key : Key)
    → is_format key.key_format format_pkcs8 ≡ false
    → IsLabelled spki key
unlabelled-IsLabelled spki key h = rw h (and-false (is_public key.key_type))

pub unconverted-IsLabelled :
    (spki : List ℕ → Bool) (key : Key) → spki key.value ≡ false → IsLabelled spki key
unconverted-IsLabelled spki key h = rw h (
    ap (λ (b : Bool). is_public key.key_type && b)
      (and-false (is_format key.key_format format_pkcs8))
    ∙ and-false (is_public key.key_type))

module _ {W : Type 0} (net : NetClient W) (host : Endian) (clock : W → ℕ)
    (version : ProtocolVersion) (date_to_string : ℕ → List ℕ)
    (is_subject_public_key_info : List ℕ → Bool) where
  pub unchanged : (read : Key) → IsAsRead is_subject_public_key_info read read
  unchanged read = record { same_value = refl; same_type = refl; same_format = inl refl }

  is_format-eq : (o : Option ℕ) (format : ℕ) → is_format o format ≡ true → o ≡ some format
  is_format-eq (some n) format h = ap (λ (m : ℕ). some m) (ground (arith, h))
  is_format-eq none format h = cc

  cases-IsAsRead :
      (t s : Bool) (read key : Key)
      → (t ≡ true → read.key_format ≡ some format_pkcs8)
      → (s ≡ true → is_subject_public_key_info read.value ≡ true)
      → (if t
          then if s then some (record read { key_format = some format_x509 }) else none
          else some read)
        ≡ some key
      → IsAsRead is_subject_public_key_info key read
  cases-IsAsRead true true read key pkcs8 spki = λ h.
      let is : record read { key_format = some format_x509 } ≡ key = cc h in
      subst (λ (k : Key). IsAsRead is_subject_public_key_info k read) is
        (record {
          same_value = refl;
          same_type = refl;
          same_format = inr (refl, pkcs8 refl, spki refl);
        })
  cases-IsAsRead true false read key pkcs8 spki = λ h. cc
  cases-IsAsRead false s read key pkcs8 spki = λ h.
      let is : read ≡ key = cc h in
      subst (λ (k : Key). IsAsRead is_subject_public_key_info k read) is (unchanged read)

  and-true-right : (a b : Bool) → (a && b) ≡ true → b ≡ true
  and-true-right true b h = h
  and-true-right false b h = cc

  pub in_preferred_format-IsAsRead :
      (read key : Key)
      → in_preferred_format net host clock version date_to_string is_subject_public_key_info read
        ≡ some key
      → IsAsRead is_subject_public_key_info key read
  unfolding in_preferred_format
  in_preferred_format-IsAsRead read key h =
      cases-IsAsRead (is_public read.key_type && is_format read.key_format format_pkcs8)
        (is_subject_public_key_info read.value) read key
        (λ e.
          is_format-eq read.key_format format_pkcs8 (and-true-right (is_public read.key_type) _ e))
        (λ e. e) h

  cases-IsLabelled :
      (t s : Bool) (read key : Key)
      → (is_public read.key_type && is_format read.key_format format_pkcs8) ≡ t
      → (if t
          then if s then some (record read { key_format = some format_x509 }) else none
          else some read)
        ≡ some key
      → IsLabelled is_subject_public_key_info key
  cases-IsLabelled true true read key label = λ h.
      let is : record read { key_format = some format_x509 } ≡ key = cc h in
      subst (IsLabelled is_subject_public_key_info) is (
        unlabelled-IsLabelled is_subject_public_key_info
          (record read { key_format = some format_x509 }) refl)
  cases-IsLabelled true false read key label = λ h. cc
  cases-IsLabelled false s read key label = λ h.
      let is : read ≡ key = cc h in
      subst (IsLabelled is_subject_public_key_info) is
        (and-left (is_public read.key_type) (is_format read.key_format format_pkcs8) _ label)

  pub in_preferred_format-IsLabelled :
      (read key : Key)
      → in_preferred_format net host clock version date_to_string is_subject_public_key_info read
        ≡ some key
      → IsLabelled is_subject_public_key_info key
  unfolding in_preferred_format
  in_preferred_format-IsLabelled read key h =
      cases-IsLabelled (is_public read.key_type && is_format read.key_format format_pkcs8)
        (is_subject_public_key_info read.value) read key refl h

  refused_cases :
      (t s : Bool) (read : Key)
      → (if t
          then if s then some (record read { key_format = some format_x509 }) else none
          else some read)
        ≡ none
      → s ≡ false
  refused_cases true true read = λ h. cc
  refused_cases true false read = λ h. refl
  refused_cases false s read = λ h. cc

  -- A key is refused only if it is no SubjectPublicKeyInfo.
  pub refused-IsLabelled :
      (read : Key)
      → in_preferred_format net host clock version date_to_string is_subject_public_key_info read
        ≡ none
      → IsLabelled is_subject_public_key_info read
  unfolding in_preferred_format
  refused-IsLabelled read h = unconverted-IsLabelled is_subject_public_key_info read (
      refused_cases (is_public read.key_type && is_format read.key_format format_pkcs8)
        (is_subject_public_key_info read.value) read h)
