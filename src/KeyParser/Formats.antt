-- ===== src/KeyParser/Formats.antt =====
-- The format of a key that kmipcore/src/key_parser.cpp has read.
use libkmip.Base.{
  ℕ, ◌≡◌, refl, sym, ap, subst, ◌∙◌, arith, true, false, List, Option, none, some, ok, ◌==◌,
  if◌then◌else◌, Holds, >>=-Holds, ok-Holds, err-Holds, if-Holds,
}
use libkmip.Errors.{
  Error, missing_key_block, missing_key_value, missing_key_material, missing_key_format,
  missing_key_object, missing_unique_identifier, missing_object_type, missing_object,
}
use libkmip.Codes.{
  kmip_op_get, tag_key_value, tag_key_material, tag_cryptographic_algorithm,
  tag_cryptographic_length, object_public_key, object_symmetric_key, object_private_key,
  object_certificate, tag_object_type, tag_key_block, tag_key_format_type, tag_public_key,
  tag_symmetric_key, tag_private_key,
}
use libkmip.Ttlv.{Element}
use libkmip.Ttlv.Access.{get_child, get_children, as_structure, to_enum, to_string}
use libkmip.Protocol.Children.{child_required}
use libkmip.Protocol.Item.{ResponseBatchItem}
use libkmip.AttributesParser.{parse, set_child, read_algorithm, read_length}
use libkmip.Protocol.Tags.{tag_attribute, tag_unique_identifier}
use libkmip.Requests.Keys.{is_symmetric, KeyType, symmetric_key, private_key, public_key, Key}
use libkmip.Responses.{
  expect_operation, require_response_payload, GetResponse, read_get, get_object_element_for_type,
}
use libkmip.Client.Objects.{is_public}
use libkmip.KeyParser.{
  refuse_structure, require_raw_block, secure_key_material, key_format_type, parse_get_key_response,
  parse_of_type, parse_object, parse_key_from_key_block_holder,
}

child_required-ok :
    (o : Option Element) (x : Error) (e : Element) → child_required o x ≡ ok e → o ≡ some e
child_required-ok (some a) x e = λ h. let same : a ≡ e = cc h in ap (λ (y : Element). some y) same
child_required-ok none x e = λ h. cc

-- The format that stands in the key block of an object.
pub record IsFormat (object : Element) (o : Option ℕ) : Type 0 where
  block : Element
  block_is : get_child tag_key_block object ≡ some block
  format : Element
  format_is : get_child tag_key_format_type block ≡ some format
  code : ℕ
  code_is : to_enum format ≡ ok code
  as_code : o ≡ some code

key_format_type_lem :
    (response : GetResponse) (o : Option ℕ)
    → IsFormat response.object_element o
    → key_format_type response ≡ ok o
unfolding key_format_type
key_format_type_lem response o f =
    rw (f.block_is, f.format_is, f.code_is) (ap (λ (x : Option ℕ). ok x) (sym f.as_code))

module _ (date_to_string : ℕ → List ℕ) where
  holder-Holds :
      (object : Element) (kt : KeyType)
      → Holds
          (λ (key : Key). (key.key_type ≡ kt) × IsFormat object key.key_format)
          (parse_key_from_key_block_holder date_to_string object kt)
  unfolding parse_key_from_key_block_holder
  holder-Holds object kt =
      >>=-Holds _ (child_required (get_child tag_key_block object) missing_key_block) _
        λ block block_is.
          >>=-Holds _ (child_required (get_child tag_key_value block) missing_key_value) _
            λ value _.
              >>=-Holds _ (child_required (get_child tag_key_material value) missing_key_material) _
                λ material _.
                  >>=-Holds _
                    (child_required (get_child tag_key_format_type block) missing_key_format) _
                    λ format format_is.
                      >>=-Holds _ (refuse_structure (as_structure material) format) _ λ unit _.
                        >>=-Holds _ (secure_key_material material) _ λ bytes _.
                          >>=-Holds _ (parse date_to_string (get_children tag_attribute value)) _
                            λ parsed _.
                              >>=-Holds _
                                (set_child read_algorithm
                                  (get_child tag_cryptographic_algorithm block) parsed)
                                _
                                λ with_algorithm _.
                                  >>=-Holds _
                                    (set_child read_length
                                      (get_child tag_cryptographic_length block) with_algorithm)
                                    _
                                    λ attributes _. >>=-Holds _ (to_enum format) _ λ code code_is.
                                      ok-Holds _ _ (
                                        refl,
                                        record {
                                          block = block;
                                          block_is = child_required-ok _ _ block block_is;
                                          format = format;
                                          format_is = child_required-ok _ _ format format_is;
                                          code = code;
                                          code_is = code_is;
                                          as_code = refl;
                                        },
                                      )

  -- The type of the key is that of its wrapper, and its format that of the block in it.
  object-Holds :
      (tag : ℕ) (kt : KeyType) (payload : Element)
      → Holds
          (λ (key : Key).
            (key.key_type ≡ kt)
            × ((object : Element) × (get_child tag payload ≡ some object)
                × IsFormat object key.key_format))
          (parse_object date_to_string tag kt payload)
  unfolding parse_object
  object-Holds tag kt payload =
      >>=-Holds _ (child_required (get_child tag payload) missing_key_object) _ λ object object_is.
        >>=-Holds _
          (if is_symmetric kt then require_raw_block (get_child tag_key_block object) else ok tt) _
          λ unit _ key read.
            let (type, format) = holder-Holds object kt key read in
            (type, (object, child_required-ok _ _ object object_is, format))

  -- A public key comes from a public key's wrapper in a payload of that type.
  abbrev IsPublicRead : ℕ → Element → Key → Type 0
  IsPublicRead t payload key =
      is_public key.key_type ≡ true
      → (t ≡ object_public_key)
        × ((object : Element) × (get_child tag_public_key payload ≡ some object)
            × IsFormat object key.key_format)

  not_public :
      (kt : KeyType) (t : ℕ) (payload : Element) (key : Key)
      → is_public kt ≡ false
      → key.key_type ≡ kt
      → IsPublicRead t payload key
  not_public kt t payload key other same public =
      let no : true ≡ false = sym public ∙ ap is_public same ∙ other in cc no

  of_type-Holds :
      (t : ℕ) (payload : Element)
      → Holds (IsPublicRead t payload) (parse_of_type date_to_string t payload)
  unfolding parse_of_type
  of_type-Holds t payload =
      if-Holds _ (t == object_symmetric_key) _ _
        (λ _ key read.
          not_public symmetric_key t payload key refl
            (object-Holds tag_symmetric_key symmetric_key payload key read).0)
        (λ _.
          if-Holds _ (t == object_private_key) _ _
            (λ _ key read.
              not_public private_key t payload key refl
                (object-Holds tag_private_key private_key payload key read).0)
            (λ _.
              if-Holds _ (t == object_public_key) _ _
                (λ is key read public.
                  (ground (arith, is), (object-Holds tag_public_key public_key payload key read).1))
                (λ _.
                  if-Holds _ (t == object_certificate) _ _ (λ _. err-Holds _ _)
                    (λ _. err-Holds _ _))))

  -- What the reader of Get and the parser of keys make of the same payload.
  get-Holds :
      (item : ResponseBatchItem)
      → Holds
          (λ (response : GetResponse).
            (payload : Element) × (type : Element) × (item.response_payload ≡ some payload)
            × (get_child tag_object_type payload ≡ some type)
            × (to_enum type ≡ ok response.object_type)
            × (get_object_element_for_type payload response.object_type
                ≡ some response.object_element))
          (read_get item)
  unfolding read_get
  get-Holds item = >>=-Holds _ (expect_operation item kmip_op_get) _ λ unit _.
      >>=-Holds _ (require_response_payload item) _ λ payload payload_is.
        >>=-Holds _
          (child_required (get_child tag_unique_identifier payload) missing_unique_identifier) _
          λ uid _. >>=-Holds _ (to_string uid) _ λ text _.
            >>=-Holds _ (child_required (get_child tag_object_type payload) missing_object_type) _
              λ type type_is. >>=-Holds _ (to_enum type) _ λ code code_is.
                >>=-Holds _
                  (child_required (get_object_element_for_type payload code) missing_object) _
                  λ object object_is. ok-Holds _ _ (
                    payload,
                    type,
                    child_required-ok _ _ payload payload_is,
                    child_required-ok _ _ type type_is,
                    code_is,
                    child_required-ok _ _ object object_is,
                  )

  -- Of a public key the reader of Get sees the type, and `keyFormatType` the format.
  pub public_format :
      (item : ResponseBatchItem) (response : GetResponse) (payload : Option Element) (key : Key)
      → read_get item ≡ ok response
      → item.response_payload ≡ payload
      → parse_get_key_response date_to_string payload ≡ ok key
      → is_public key.key_type ≡ true
      → (response.object_type ≡ object_public_key) × (key_format_type response ≡ ok key.key_format)
  unfolding parse_get_key_response
  public_format item response payload key read carried parsed public =
      let (p, type, there, type_is, code_is, element_is) = get-Holds item response read in
      let all : parse_get_key_response date_to_string payload
          ≡ parse_of_type date_to_string response.object_type p =
        ap (parse_get_key_response date_to_string) (sym carried ∙ there)
        ∙ rw (type_is, code_is) refl in
      let (is, (object, object_is, f)) =
        of_type-Holds response.object_type p key (sym all ∙ parsed) public in
      let wrapped : get_object_element_for_type p response.object_type
          ≡ get_child tag_public_key p =
        ap (get_object_element_for_type p) is in
      let twice : some response.object_element ≡ some object =
        sym element_is ∙ wrapped ∙ object_is in
      let same : response.object_element ≡ object = cc twice in
      (
        is,
        key_format_type_lem response key.key_format
            (subst (λ (e : Element). IsFormat e key.key_format) (sym same) f),
      )
