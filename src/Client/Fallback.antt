-- ===== src/Client/Fallback.antt =====
-- When `op_get_key` of kmipclient/src/KmipClient.cpp returns the key that came first.
use libkmip.Base.{
  ℕ, ◌≡◌, ◌∙◌, inl, inr, Bool-cases, refl, sym, ap, Bool, true, false, ◌||◌, ◌>>=◌, List, Option,
  none, Result, ok,
}
use libkmip.Ttlv.{Element}
use libkmip.Ttlv.Bytes.{Endian}
use libkmip.Protocol.Version.{ProtocolVersion}
use libkmip.Exchange.{NetClient}
use libkmip.Responses.{GetResponse}
use libkmip.Requests.Keys.{Key}
use libkmip.KeyParser.{key_format_type, parse_get_key_response}
use libkmip.Codes.{format_x509, format_pkcs8, object_public_key}
use libkmip.Client.Objects.{
  is_format, is_public, is_among, no_formats, preferred_key_formats, in_preferred_format,
  key_in_format,
}
use libkmip.Client.Received.{IsAnswer}
use libkmip.KeyParser.Formats.{public_format}
use libkmip.Client.Labels.{IsLabelled, other-IsLabelled, unlabelled-IsLabelled, refused-IsLabelled}

module _ {W : Type 0} (net : NetClient W) (host : Endian) (clock : W → ℕ)
    (version : ProtocolVersion) (date_to_string : ℕ → List ℕ)
    (is_subject_public_key_info : List ℕ → Bool) where
  -- A payload whose key may be returned as it is.
  abbrev pub IsFallback : Option Element → Type 0
  IsFallback payload =
      (key : Key)
      → parse_get_key_response date_to_string payload ≡ ok key
      → IsLabelled is_subject_public_key_info key

  module _ (start end : W) (id : List ℕ) where
    wanted_pkcs8 :
        (o : Option ℕ)
        → is_format o format_pkcs8 ≡ true
        → is_among o (preferred_key_formats object_public_key) ≡ true
    unfolding preferred_key_formats
    wanted_pkcs8 o h = either (is_format o format_x509) (is_format o format_pkcs8) h
      where
        either : (a b : Bool) → b ≡ true → (a || (b || false)) ≡ true
        either true b h = refl
        either false true h = refl
        either false false h = cc

    key_in_format-none :
        (wanted : Bool) (payload : Option Element) (key : Key)
        → wanted ≡ true
        → parse_get_key_response date_to_string payload ≡ ok key
        → key_in_format net host clock version date_to_string is_subject_public_key_info wanted
            payload
          ≡ ok none
        → in_preferred_format net host clock version date_to_string is_subject_public_key_info key
          ≡ none
    unfolding key_in_format
    key_in_format-none true payload key wants parsed h =
        let kept : Result.ok (
              in_preferred_format net host clock version date_to_string is_subject_public_key_info
                key)
            ≡ ok none =
          sym (
            ap
              (λ r. r >>= λ k. ok (
                in_preferred_format net host clock version date_to_string is_subject_public_key_info
                  k))
              parsed)
          ∙ h in
        cc kept
    key_in_format-none false payload key wants parsed h = let no : false ≡ true = wants in cc no

    -- The payload of the first answer, after its key was not returned.
    pub first-IsFallback :
        (response : GetResponse) (payload : Option Element) (format : Option ℕ)
        (answer : IsAnswer net host clock version start end id payload)
        → answer.response ≡ response
        → key_format_type response ≡ ok format
        → key_in_format net host clock version date_to_string is_subject_public_key_info
            (is_among format (preferred_key_formats response.object_type))
            payload
          ≡ ok none
        → IsFallback payload
    first-IsFallback response payload format answer same format_is none_yet key parsed =
        elim (Bool-cases (is_public key.key_type)) [
          | inr other ↦ other-IsLabelled is_subject_public_key_info key other
          | inl public ↦
              let (is, label) =
                public_format date_to_string answer.item answer.response payload key answer.got
                  answer.carried parsed public in
              let same_format = sym format_is ∙ ap key_format_type (sym same) ∙ label in
              let of_key : format ≡ key.key_format = cc same_format in
              let of_public : response.object_type ≡ object_public_key =
                ap (λ (g : GetResponse). g.object_type) (sym same) ∙ is in
              elim (Bool-cases (is_format key.key_format format_pkcs8)) [
                | inr other ↦ unlabelled-IsLabelled is_subject_public_key_info key other
                | inl pkcs8 ↦
                    let wanted =
                      ap (λ (o : Option ℕ). is_among o (preferred_key_formats response.object_type))
                        of_key
                      ∙ ap (λ (t : ℕ). is_among key.key_format (preferred_key_formats t)) of_public
                      ∙ wanted_pkcs8 key.key_format pkcs8 in
                    refused-IsLabelled net host clock version date_to_string
                      is_subject_public_key_info key
                      (key_in_format-none _ payload key wanted parsed none_yet)
              ]
        ]

    -- A key that is not public.
    pub symmetric-IsFallback :
        (response : GetResponse) (payload : Option Element)
        (answer : IsAnswer net host clock version start end id payload)
        → answer.response ≡ response
        → no_formats (preferred_key_formats response.object_type) ≡ true
        → IsFallback payload
    unfolding preferred_key_formats
    symmetric-IsFallback response payload answer same none_wanted key parsed =
        elim (Bool-cases (is_public key.key_type)) [
          | inr other ↦ other-IsLabelled is_subject_public_key_info key other
          | inl public ↦
              let (is, label) =
                public_format date_to_string answer.item answer.response payload key answer.got
                  answer.carried parsed public in
              let of_public : response.object_type ≡ object_public_key =
                ap (λ (g : GetResponse). g.object_type) (sym same) ∙ is in
              let no : false ≡ true =
                sym (ap (λ (t : ℕ). no_formats (preferred_key_formats t)) of_public)
                ∙ none_wanted in
              cc no
        ]
