-- ===== src/Locate/Complete.antt =====
-- A whole search of kmipclient/src/KmipClient.cpp on a server that holds a fixed list.
use libkmip.Base.{
  ℕ, suc, ◌+◌, ◌-◌, ◌≤◌, ◌<◌, ◌≡◌, ◌⊎◌, inl, inr, refl, sym, ap, ap₂, subst, ◌∙◌, arith, true,
  false, not, List, [], ◌∷◌, ◌++◌, Option, none, some, ◌==◌, length, take, drop, length-take,
  length-drop, length-append, le→ltb, take-append-drop,
}
use libkmip.Exchange.{smaller}
use libkmip.Locate.{times, merge_page, merge_new_ids, max_items_in_batch, located_total}
use libkmip.Locate.Merge.{before, times-append, merge_page_lem, forget_added}
use libkmip.Locate.Found.{if_both}
use libkmip.Locate.Turns.{
  misses, newest, empty_ids, Page, Paging, paging_turn, empty_page, merge_into,
}
use libkmip.Locate.Honest.{
  part, append_drop, merge_page-fresh, take_all, IsTotal, OnWay, Goes, whole, judge_page-Goes,
  true-not-false,
}

pub times-take : (id : List ℕ) (n : ℕ) (xs : List (List ℕ)) → times id (take n xs) ≤ times id xs
times-take id n xs =
    let parts : times id (take n xs ++ drop n xs) ≡ times id xs =
      ap (times id) (take-append-drop n xs) in
    omega (arith, times-append id (take n xs) (drop n xs), parts)

length-part :
    (k n : ℕ) (objects : List (List ℕ))
    → (length (part k n objects) ≡ n) × (n ≤ length objects - k)
      ⊎ (length (part k n objects) ≡ length objects - k) × (length objects - k < n)
length-part k n objects = ground (arith, length-take n (drop k objects), length-drop k objects)

-- As much of the list as a page held.
take-part :
    (k n : ℕ) (objects : List (List ℕ))
    → k ≤ length objects
    → take (k + n) objects ≡ take (k + length (part k n objects)) objects
take-part k n objects h = elim (length-part k n objects) [
  | inl full ↦ ap (λ (m : ℕ). take (k + m) objects) (sym full.0)
  | inr short ↦
      take_all (k + n) objects (omega (arith, short.1, h))
      ∙ sym (take_all (k + length (part k n objects)) objects (omega (arith, short.0, h)))
]

empty_ids-length : (ids : List (List ℕ)) → empty_ids ids ≡ true → length ids ≡ 0
empty_ids-length [] h = refl
empty_ids-length (id ∷ ids) h = absurd (true-not-false (sym h))

module _ (objects : List (List ℕ)) (max_ids : ℕ) (once : (id : List ℕ) → times id objects ≤ 1) where
  misses-total :
      (n : ℕ) (total : Option ℕ)
      → IsTotal objects total
      → length objects ≤ n
      → misses n total ≡ false
  misses-total n total (inl e) h = ap (misses n) e
  misses-total n total (inr e) h = ap (misses n) e ∙ le→ltb n (length objects) h

  newest-IsTotal :
      (a b : Option ℕ) → IsTotal objects a → IsTotal objects b → IsTotal objects (newest a b)
  newest-IsTotal none b h k = k
  newest-IsTotal (some n) b h k = h

  -- The identifiers before a page, and those after it.
  on_page :
      (page_size : ℕ) (page : Page) (p : Paging)
      → p.outcome.ids ≡ take p.offset objects
      → page.page_ids ≡ part p.offset page_size objects
      → p.offset ≤ length objects
      → p.outcome.ids ++ page.page_ids ≡ take (p.offset + length page.page_ids) objects
  on_page page_size page p found is_part inside =
      ap₂ (λ (xs ys : List (List ℕ)). xs ++ ys) found is_part
      ∙ append_drop p.offset page_size objects
      ∙ take-part p.offset page_size objects inside
      ∙ ap (λ (xs : List (List ℕ)). take (p.offset + length xs) objects) (sym is_part)

  pub paging_turn-Goes :
      (batches page_size : ℕ) (page : Page) (p : Paging)
      → page_size ≡ smaller (max_ids - length p.outcome.ids) max_items_in_batch
      → OnWay objects max_ids (suc batches) p
      → length p.outcome.ids < max_ids
      → page.page_ids ≡ part p.offset page_size objects
      → IsTotal objects (located_total page.located_items (length page.page_ids))
      → Goes objects max_ids batches (paging_turn max_ids page_size page p)
  unfolding paging_turn empty_page merge_new_ids
  paging_turn-Goes batches page_size page p size o room is_part is_total =
      let len : length p.outcome.ids ≡ p.offset = omega (
        arith,
        ap (λ (xs : List (List ℕ)). length xs) o.found,
        length-take p.offset objects,
        o.inside,
      ) in
      let got_size = length-part p.offset page_size objects in
      let got : length page.page_ids ≡ length (part p.offset page_size objects) =
        ap length is_part in
      let positive : 0 < page_size = ground (arith, size, room) in
      if_both (Goes objects max_ids batches) (empty_ids page.page_ids) _ _
        (λ e.
          let end : p.offset ≡ length objects =
            ground (arith, got_size, got, empty_ids-length page.page_ids e, positive, o.inside) in
          let no_miss =
            misses-total (length p.outcome.ids) p.known_total o.total (omega (arith, len, end)) in
          record {
            last_search = o.search;
            all_found = o.found ∙ whole objects max_ids p.offset end o.below;
            not_stalled = no_miss;
            ended = inl (ap not no_miss);
          })
        (λ e.
          let ids = on_page page_size page p o.found is_part o.inside in
          let fits : length p.outcome.ids + length page.page_ids ≤ max_ids =
            ground (arith, got_size, got, size, room) in
          let fresh =
            merge_page-fresh max_ids page.page_ids (before p.outcome.ids p.outcome.seen) o.search
              fits
              (λ id.
                subst (λ (xs : List (List ℕ)). times id xs ≤ 1) (sym ids)
                  (omega
                    (arith, times-take id (p.offset + length page.page_ids) objects, once id))) in
          judge_page-Goes objects max_ids batches page_size (length page.page_ids)
            (length p.outcome.ids) (p.offset == 0) (merge_into max_ids page.page_ids p.outcome)
            (p.offset + length page.page_ids)
            (newest (located_total page.located_items (length page.page_ids)) p.known_total)
            (fresh ∙ ids)
            (forget_added (merge_page max_ids page.page_ids (before p.outcome.ids p.outcome.seen))
              (merge_page_lem max_ids page.page_ids (before p.outcome.ids p.outcome.seen) o.search
                (omega (arith, room))).0)
            (ground (arith, got_size, got, o.inside)) (omega (arith, fits, len))
            (omega (
              arith,
              ap (λ (xs : List (List ℕ)). length xs) fresh,
              length-append p.outcome.ids page.page_ids,
              len,
            ))
            (omega (arith, len)) (newest-IsTotal _ _ is_total o.total)
            (ground (arith, got_size, got, size, len, o.inside, o.budget)))
