-- ===== src/Protocol/Children.antt =====
-- The children of a structure, as the messages add and read them.
use libkmip.Base.{
  ℕ, Bool, List, [], ◌∷◌, Option, none, some, Result, ok, err, ◌>>=◌, not, ◌||◌, ◌==◌,
}
use libkmip.Errors.{Error}
use libkmip.Ttlv.{Element, Items, nil, cons, tag_of, type_of, type_structure}

-- The children in the order in which they are added; one that is absent is not added.
abbrev pub collect : List (Option Element) → Items
collect [] = nil
collect (none ∷ rest) = collect rest
collect (some e ∷ rest) = cons e (collect rest)

-- `if (value) structure->add(make(*value));`
abbrev pub optional {ℓ} : {A : Type ℓ} → (A → Element) → Option A → Option Element
optional make none = none
optional make (some a) = some (make a)

-- `if (child) field = read(child);`, with the value of the field before.
abbrev pub child_or {ℓ} :
    {A : Type ℓ} → Option Element → (Element → Result Error A) → A → Result Error A
child_or none read before = ok before
child_or (some e) read before = read e

-- The same for a field that is optional itself.
abbrev pub child_opt {ℓ} :
    {A : Type ℓ} → Option Element → (Element → Result Error A) → Result Error (Option A)
child_opt none read = ok none
child_opt (some e) read = do a ← read e; ok (some a)

-- A child without which the message is refused.
abbrev pub child_required : Option Element → Error → Result Error Element
child_required none missing = err missing
child_required (some e) missing = ok e

-- `element->tag != tag || element->type != KMIP_TYPE_STRUCTURE`
abbrev pub is_other_structure : ℕ → Element → Bool
is_other_structure tag e = not (tag_of e == tag) || not (type_of e == type_structure)
