-- ===== src/Locate/Merge.antt =====
-- What is in the list of identifiers after a page was merged into it.
use libkmip.Base.{
  same_text, same_text_refl, same_text_eq, ℕ, suc, ◌+◌, ◌*◌, ◌/◌, ◌≤◌, ◌<◌, ◌≡◌, ◌⊎◌, inl, inr,
  if_true, leb→le, refl, sym, ap, subst, ◌∙◌, arith, false, List, [], ◌∷◌, ◌++◌, ◌==◌, ltb, leb,
  length, length-append, Bool-cases,
}
use libkmip.Protocol.Request.{default_max_response_size}
use libkmip.Exchange.{hard_limit}
use libkmip.Locate.{
  one_if, times, Merged, insert_id, merge_page, merge_new_ids, bytes_per_id,
  locate_response_size_limit,
}

pub times-append :
    (id : List ℕ) (xs ys : List (List ℕ)) → times id (xs ++ ys) ≡ times id xs + times id ys
times-append id [] ys = omega arith
times-append id (x ∷ xs) ys = omega (arith, times-append id xs ys)

-- The set is that of the identifiers found, none of which stands there twice.
pub record IsSearch (m : Merged) : Type 0 where
  pub same_set : (id : List ℕ) → times id m.seen ≡ times id m.ids
  pub once : (id : List ℕ) → times id m.ids ≤ 1

pub insert_id-IsSearch : (id : List ℕ) (m : Merged) → IsSearch m → IsSearch (insert_id id m)
insert_id-IsSearch id m s = elim (Bool-cases (times id m.seen == 0)) [
  | inl new ↦
      let absent : times id m.ids ≡ 0 = ground (arith, s.same_set id) in
      rw new (record {
        same_set = λ y. omega (arith, times-append y m.ids (id ∷ []), s.same_set y);
        once = λ y. elim (Bool-cases (same_text id y)) [
          | inl same ↦
              let gone : times y m.ids ≡ 0 =
                ap (λ (x : List ℕ). times x m.ids) (sym (same_text_eq id y same)) ∙ absent in
              let one : one_if (same_text id y) ≡ 1 = rw same in
              omega (arith, times-append y m.ids (id ∷ []), gone, one)
          | inr other ↦
              let zero_more : one_if (same_text id y) ≡ 0 = rw other in
              omega (arith, times-append y m.ids (id ∷ []), s.once y, zero_more)
        ];
      })
  | inr known ↦ rw known s
]

-- What one identifier of the page changes.
record IsStep (id : List ℕ) (m after : Merged) : Type 0 where
  search : IsSearch after
  grows : length after.ids ≤ suc (length m.ids)
  keeps : (y : List ℕ) → times y m.ids ≤ times y after.ids
  found : 0 < times id after.ids
  only : (y : List ℕ) → times y after.ids ≤ times y m.ids + one_if (same_text id y)

insert_id-IsStep : (id : List ℕ) (m : Merged) → IsSearch m → IsStep id m (insert_id id m)
insert_id-IsStep id m s =
    let search = insert_id-IsSearch id m s in
    elim (Bool-cases (times id m.seen == 0)) [
      | inl new ↦
          let itself : one_if (same_text id id) ≡ 1 = rw (same_text_refl id) in
          rw new (record {
            search = subst IsSearch (if_true _ _ _ new) search;
            grows = omega (arith, length-append m.ids (id ∷ []));
            keeps = λ y. omega (arith, times-append y m.ids (id ∷ []));
            found = omega (arith, times-append id m.ids (id ∷ []), itself);
            only = λ y. omega (arith, times-append y m.ids (id ∷ []));
          })
      | inr known ↦
          let there : 0 < times id m.ids = ground (arith, s.same_set id) in
          rw known (record {
            search = s;
            grows = omega arith;
            keeps = λ y. omega arith;
            found = there;
            only = λ y. omega arith;
          })
    ]

pub merge_page_lem :
    (max_ids : ℕ) (page : List (List ℕ)) (m : Merged)
    → IsSearch m
    → length m.ids ≤ max_ids
    → IsSearch (merge_page max_ids page m)
      × (length (merge_page max_ids page m).ids ≤ max_ids)
      × ((y : List ℕ) → times y m.ids ≤ times y (merge_page max_ids page m).ids)
      × ((y : List ℕ) → times y (merge_page max_ids page m).ids ≤ times y m.ids + times y page)
      × ((y : List ℕ)
          → (length (merge_page max_ids page m).ids < max_ids)
          → 0 < times y page
          → 0 < times y (merge_page max_ids page m).ids)
unfolding merge_page
merge_page_lem max_ids [] m s few =
    (s, few, (λ y. omega arith), (λ y. omega arith), (λ y h k. absurd (omega arith)))
merge_page_lem max_ids (id ∷ page) m s few = elim (Bool-cases (leb max_ids (length m.ids))) [
  | inl full ↦
      let no_room : max_ids ≤ length m.ids = leb→le max_ids (length m.ids) full in
      rw full (
        s,
        few,
        (λ y. omega arith),
        (λ y. omega arith),
        (λ y h k. absurd (omega (arith, no_room, h))),
      )
  | inr room ↦
      let step = insert_id-IsStep id m s in
      let here : length m.ids < max_ids = ground (arith, room) in
      let rest =
        merge_page_lem max_ids page (insert_id id m) step.search
          (omega (arith, step.grows, here)) in
      rw room (
        rest.0,
        rest.1,
        (λ y. omega (arith, rest.2 y, step.keeps y)),
        (λ y. omega (arith, rest.3 y, step.only y)),
        (λ y h k. elim (Bool-cases (same_text id y)) [
          | inl same ↦
              let there : 0 < times y (insert_id id m).ids =
                subst (λ (x : List ℕ). 0 < times x (insert_id id m).ids) (same_text_eq id y same)
                  step.found in
              omega (arith, rest.2 y, there)
          | inr other ↦
              let none_here : one_if (same_text id y) ≡ 0 = rw other in
              rest.4 y h (omega (arith, k, none_here))
        ]),
      )
]

-- The search before a page.
abbrev pub before : List (List ℕ) → List (List ℕ) → Merged
before ids seen = record { ids = ids; seen = seen; added_any = false }

pub forget_added : (m : Merged) → IsSearch m → IsSearch (before m.ids m.seen)
forget_added m s = record { same_set = s.same_set; once = s.once }

-- A page merged into at most `max_ids` identifiers, none of them twice and all of them and no others
-- in the set of those seen: afterwards there are at most `max_ids`, none of them twice, those from
-- before are kept, and any other is from the page.
pub merge_new_ids_lem :
    (ids seen page : List (List ℕ)) (max_ids : ℕ) (id : List ℕ)
    → IsSearch (before ids seen)
    → length ids ≤ max_ids
    → (length (merge_new_ids ids seen page max_ids).ids ≤ max_ids)
      × (times id (merge_new_ids ids seen page max_ids).ids ≤ 1)
      × (times id ids ≤ times id (merge_new_ids ids seen page max_ids).ids)
      × (times id (merge_new_ids ids seen page max_ids).ids ≤ times id ids + times id page)
unfolding merge_new_ids
merge_new_ids_lem ids seen page max_ids id s few =
    let r = merge_page_lem max_ids page (before ids seen) s few in
    (r.1, r.0.once id, r.2 id, r.3 id)

-- Nothing of a page is left out, except for want of room: if after such a merge there are fewer than
-- `max_ids` identifiers, each one of the page is among them.
pub merge_new_ids_whole :
    (ids seen page : List (List ℕ)) (max_ids : ℕ) (id : List ℕ)
    → IsSearch (before ids seen)
    → length (merge_new_ids ids seen page max_ids).ids < max_ids
    → length ids ≤ max_ids
    → 0 < times id page
    → 0 < times id (merge_new_ids ids seen page max_ids).ids
unfolding merge_new_ids
merge_new_ids_whole ids seen page max_ids id s room few there =
    (merge_page_lem max_ids page (before ids seen) s few).4 id room there

-- The limit on the size of a response is at least the default and at most 16 MiB, and leaves 4 KiB
-- for each identifier of the page unless it is 16 MiB.
pub locate_response_size_limit_lem :
    (page_size : ℕ)
    → (default_max_response_size ≤ locate_response_size_limit page_size)
      × (locate_response_size_limit page_size ≤ hard_limit)
      × ((page_size * bytes_per_id ≤ locate_response_size_limit page_size)
          ⊎ (locate_response_size_limit page_size ≡ hard_limit))
unfolding locate_response_size_limit
locate_response_size_limit_lem page_size =
    elim (Bool-cases (ltb (hard_limit / bytes_per_id) page_size)) [
      | inl much ↦ rw much (omega arith, omega arith, inr refl)
      | inr little ↦
          let few : page_size ≤ 4096 = ground arith in
          rw little (ground arith, ground arith, inl (ground arith))
    ]
