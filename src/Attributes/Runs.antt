-- ===== src/Attributes/Runs.antt =====
-- Attributes of a key.
use libkmip.Base.{
  ℕ, ◌≡◌, not, ◌&&◌, if◌then◌else◌, same_text, signed_decimal, ◌+◌, ◌^◌, ◌||◌, refl, arith, true,
  List, [], ◌∷◌, none, some, codes, find_text, first_some,
}
use libkmip.Codes.{crypto_aes, state_active}
use libkmip.Attributes.Names.{
  attr_crypto_len, attr_crypto_alg, attr_crypto_usage_mask, algorithm_to_string,
  parse_algorithm_string, state_to_string, usage_mask_to_string,
}
use libkmip.Attributes.{
  string_value, Attributes, no_attributes, has_attribute, algorithm, get_long, set_string, set_int,
  set_long, set_bool, remove, merge, or_kept, as_string_map,
}
use libkmip.Attributes.Readable.{parse_algorithm_string-algorithm_to_string}
use libkmip.Attributes.Laws.{
  getters, fields, is_well_known, IsRouted, getters-set, set_long-unrouted, merge_lem,
}
use libkmip.Attributes.Routing.{changes-IsRouted, and_false}

owner : List ℕ
owner = codes "x-owner"

abbrev key_attributes : Attributes
key_attributes = record {
  algo = some crypto_aes;
  crypto_length = some 256;
  usage_mask = some 12;
  state = some state_active;
  generic = (codes "x-owner", string_value (codes "ann")) ∷ [];
}

mask_names : usage_mask_to_string (12 + 2 ^ 30) ≡ codes "ENCRYPT, DECRYPT, UNKNOWN_BITS(40000000)"
unfolding usage_mask_to_string
mask_names = refl

exported :
    as_string_map key_attributes
    ≡ (codes "x-owner", codes "ann")
      ∷ (codes "Cryptographic Algorithm", codes "AES")
      ∷ (codes "Cryptographic Length", codes "256")
      ∷ (codes "Cryptographic Usage Mask", codes "ENCRYPT, DECRYPT")
      ∷ (codes "State", codes "KMIP_STATE_ACTIVE")
      ∷ []
unfolding as_string_map algorithm_to_string usage_mask_to_string state_to_string
exported = refl

-- A text "0" stores the code for "unset", with which the attribute counts as present.
unset_present :
    (has_attribute attr_crypto_alg (set_string attr_crypto_alg (codes "0") no_attributes) ≡ true)
    × (algorithm (set_string attr_crypto_alg (codes "0") no_attributes) ≡ 0)
unfolding has_attribute set_string parse_algorithm_string algorithm
unset_present = (refl, refl)

-- The text of a usage mask is not read back: the field stays as it was.
mask_text_ignored :
    set_string attr_crypto_usage_mask (codes "ENCRYPT, DECRYPT") no_attributes ≡ no_attributes
unfolding set_string
mask_text_ignored = refl

parse_algorithm_string-algorithm_to_string_example :
    parse_algorithm_string (algorithm_to_string 0x80000001) ≡ some 0x80000001
parse_algorithm_string-algorithm_to_string_example =
    parse_algorithm_string-algorithm_to_string 0x80000001 (omega arith)

no_attributes-IsRouted : IsRouted no_attributes
no_attributes-IsRouted = record { map = tt; routed = λ name. and_false (is_well_known name) }

key_attributes-IsRouted : IsRouted key_attributes
unfolding set_string owner
key_attributes-IsRouted =
    let r =
      (changes-IsRouted owner (codes "ann") 0 true no_attributes no_attributes
        no_attributes-IsRouted no_attributes-IsRouted).0 in
    record { map = r.map; routed = r.routed }

set_long-unrouted_example :
    (has_attribute attr_crypto_len (set_long attr_crypto_len 128 no_attributes)
      ≡ has_attribute attr_crypto_len no_attributes)
    × (has_attribute attr_crypto_len (set_bool attr_crypto_len true no_attributes)
        ≡ has_attribute attr_crypto_len no_attributes)
    × (fields (set_long attr_crypto_len 128 no_attributes) ≡ fields no_attributes)
    × (fields (set_bool attr_crypto_len true no_attributes) ≡ fields no_attributes)
    × (get_long attr_crypto_len (set_long attr_crypto_len 128 no_attributes) ≡ some 128)
set_long-unrouted_example = set_long-unrouted attr_crypto_len 128 true no_attributes refl

getters-set_example :
    (getters owner (set_string owner (codes "bob") key_attributes) ≡ (
      if not (is_well_known owner) && same_text owner owner
      then (codes "bob", some (codes "bob"), none, none)
      else getters owner key_attributes))
    × (getters owner (set_int owner 5 key_attributes) ≡ (
        if not (is_well_known owner) && same_text owner owner
        then ([], some (signed_decimal 32 5), some 5, none)
        else getters owner key_attributes))
    × (getters owner (set_long owner 5 key_attributes) ≡ (
        if same_text owner owner
        then ([], some (signed_decimal 64 5), none, some 5)
        else getters owner key_attributes))
    × (getters owner (set_bool owner true key_attributes) ≡ (
        if same_text owner owner
        then ([], some (if true then codes "true" else codes "false"), none, none)
        else getters owner key_attributes))
    × (getters owner (remove owner key_attributes)
        ≡ (if same_text owner owner then ([], none, none, none) else getters owner key_attributes))
getters-set_example = getters-set owner (codes "bob") owner 5 true key_attributes

merge_lem_example :
    (fields (merge no_attributes key_attributes) ≡ (
      or_kept (some crypto_aes) none,
      or_kept (some 256) none,
      or_kept (some 12) none,
      or_kept (some state_active) none,
    ))
    × (find_text owner (merge no_attributes key_attributes).generic
        ≡ first_some (find_text owner key_attributes.generic) none)
    × (has_attribute owner (merge no_attributes key_attributes)
        ≡ (has_attribute owner key_attributes || has_attribute owner no_attributes))
merge_lem_example = merge_lem no_attributes key_attributes owner (refl, tt)

changes-IsRouted_example :
    IsRouted (set_string owner (codes "bob") key_attributes)
    × IsRouted (set_int owner 5 key_attributes)
    × IsRouted (set_long owner 5 key_attributes)
    × IsRouted (set_bool owner true key_attributes)
    × IsRouted (remove owner key_attributes)
    × IsRouted (merge key_attributes key_attributes)
changes-IsRouted_example =
    changes-IsRouted owner (codes "bob") 5 true key_attributes key_attributes
      key_attributes-IsRouted key_attributes-IsRouted
