-- ===== src/Locate/Honest.antt =====
-- A search of kmipclient/src/KmipClient.cpp on a server that holds a fixed list of identifiers and
-- answers each Locate with the part of it that was asked for: the search finds the list.
use libkmip.Base.{
  same_text, same_text_refl, ℕ, zero, suc, ◌+◌, ◌-◌, ◌*◌, ◌≤◌, ◌<◌, ◌≡◌, ◌≢◌, ◌⊎◌, inl, inr, refl,
  sym, ap, subst, ◌∙◌, arith, Bool, true, false, not, ◌&&◌, List, [], ◌∷◌, ◌++◌, Option, none, some,
  ◌==◌, ltb, leb, length, take, drop, length-append, leb→le, lt→leb, ltb→lt, append_assoc,
  append-nil, if_true, if_false, ==_eq, le→ltb, lt→ltb,
}
use libkmip.Locate.{times, one_if, Merged, insert_id, merge_page, max_items_in_batch}
use libkmip.Locate.Merge.{IsSearch, before, times-append, insert_id-IsSearch}
use libkmip.Locate.Found.{if_both}
use libkmip.Locate.Turns.{
  reaches, has_value, LocateOutcome, Paging, Turn, break_with, go_on_with, judge_page,
}

pub le→leb : (a b : ℕ) → a ≤ b → leb a b ≡ true
le→leb a b h = ground arith

pub true-not-false : true ≢ false
true-not-false e = cc

-- The members of a list of identifiers from `k` on that come within the next `n`.
abbrev pub part : ℕ → ℕ → List (List ℕ) → List (List ℕ)
part k n objects = take n (drop k objects)

abbrev no_ids : List (List ℕ)
no_ids = []

take_nil : (n : ℕ) → take n no_ids ≡ no_ids
take_nil zero = refl
take_nil (suc n) = refl

pub append_drop :
    (k n : ℕ) (objects : List (List ℕ)) → take k objects ++ part k n objects ≡ take (k + n) objects
append_drop zero n objects =
    let same : n ≡ 0 + n = omega arith in ap (λ (m : ℕ). take m objects) same
append_drop (suc k) n [] =
    let next : suc (k + n) ≡ suc k + n = omega arith in take_nil n ∙ ap (λ (m : ℕ). take m []) next
append_drop (suc k) n (x ∷ objects) =
    let next : suc (k + n) ≡ suc k + n = omega arith in
    ap (λ (xs : List (List ℕ)). x ∷ xs) (append_drop k n objects)
    ∙ ap (λ (m : ℕ). take m (x ∷ objects)) next

-- Fresh identifiers are all added.
pub merge_page-fresh :
    (max_ids : ℕ) (page : List (List ℕ)) (m : Merged)
    → IsSearch m
    → length m.ids + length page ≤ max_ids
    → ((id : List ℕ) → times id (m.ids ++ page) ≤ 1)
    → (merge_page max_ids page m).ids ≡ m.ids ++ page
unfolding merge_page
merge_page-fresh max_ids [] m s room once = sym (append-nil m.ids)
merge_page-fresh max_ids (id ∷ page) m s room once =
    let itself : one_if (same_text id id) ≡ 1 = ap one_if (same_text_refl id) in
    let absent : times id m.seen ≡ 0 =
      omega (arith, once id, times-append id m.ids (id ∷ page), itself, s.same_set id) in
    let added : (insert_id id m).ids ≡ m.ids ++ (id ∷ []) =
      ap (λ (x : Merged). x.ids) (if_true (times id m.seen == 0) _ _ (==_eq _ _ absent)) in
    let behind : (insert_id id m).ids ++ page ≡ m.ids ++ (id ∷ page) =
      ap (λ (xs : List (List ℕ)). xs ++ page) added ∙ append_assoc m.ids (id ∷ []) page in
    let longer : length (insert_id id m).ids ≡ length m.ids + 1 =
      ap (λ (xs : List (List ℕ)). length xs) added ∙ length-append m.ids (id ∷ []) in
    ap (λ (x : Merged). x.ids)
      (if_false (leb max_ids (length m.ids)) m _ (lt→leb _ _ (omega (arith, room))))
    ∙ merge_page-fresh max_ids page (insert_id id m) (insert_id-IsSearch id m s)
        (omega (arith, room, longer))
        (λ y. subst (λ (xs : List (List ℕ)). times y xs ≤ 1) (sym behind) (once y))
    ∙ behind

pub take_all : (n : ℕ) (objects : List (List ℕ)) → length objects ≤ n → take n objects ≡ objects
take_all zero [] h = refl
take_all zero (x ∷ objects) h = absurd (omega (arith, h))
take_all (suc n) [] h = refl
take_all (suc n) (x ∷ objects) h =
    ap (λ (xs : List (List ℕ)). x ∷ xs) (take_all n objects (omega (arith, h)))

-- The total is not known, or it is the number of identifiers that the server holds.
abbrev pub IsTotal : List (List ℕ) → Option ℕ → Type 0
IsTotal objects total = (total ≡ none) ⊎ (total ≡ some (length objects))

module _ (objects : List (List ℕ)) (max_ids : ℕ) where
  -- The first loop, with the identifiers before its offset found.
  pub record OnWay (batches : ℕ) (p : Paging) : Type 0 where
    pub found : p.outcome.ids ≡ take p.offset objects
    pub search : IsSearch (before p.outcome.ids p.outcome.seen)
    pub inside : p.offset ≤ length objects
    pub below : p.offset ≤ max_ids
    pub total : IsTotal objects p.known_total
    pub calm : p.stalled ≡ false
    pub budget : max_ids ≤ p.offset + batches * max_items_in_batch

  -- Its end, with all of them found.
  pub record Ended (p : Paging) : Type 0 where
    pub last_search : IsSearch (before p.outcome.ids p.outcome.seen)
    pub all_found : p.outcome.ids ≡ take max_ids objects
    pub not_stalled : p.stalled ≡ false
    pub ended : (p.finished ≡ true) ⊎ (max_ids ≤ length p.outcome.ids)

  abbrev pub Goes : ℕ → Turn → Type 0
  Goes batches (break_with p) = Ended p
  Goes batches (go_on_with p) = OnWay batches p

  pub whole :
      (offset : ℕ)
      → offset ≡ length objects
      → offset ≤ max_ids
      → take offset objects ≡ take max_ids objects
  whole offset e h =
      take_all offset objects (omega (arith, e))
      ∙ sym (take_all max_ids objects (omega (arith, e, h)))

  reaches-total :
      (n : ℕ) (total : Option ℕ)
      → IsTotal objects total
      → reaches n total ≡ true
      → length objects ≤ n
  reaches-total n total (inl e) r = absurd (true-not-false (sym r ∙ ap (reaches n) e))
  reaches-total n total (inr e) r = leb→le (length objects) n (sym (ap (reaches n) e) ∙ r)

  -- A total that is known was reached, where it is not more.
  has_value-reaches :
      (n : ℕ) (total : Option ℕ)
      → IsTotal objects total
      → reaches n total ≡ false
      → length objects ≤ n
      → not (has_value total) ≡ true
  has_value-reaches n total (inl e) r h = ap (λ (t : Option ℕ). not (has_value t)) e
  has_value-reaches n total (inr e) r h =
      absurd (true-not-false (sym (le→leb (length objects) n h) ∙ sym (ap (reaches n) e) ∙ r))

  -- A page is full, and then the batches that are left are enough; or it is short, at the end.
  abbrev pub IsFull : ℕ → ℕ → ℕ → ℕ → Type 0
  IsFull batches page_size got offset =
      ((page_size ≤ got) × (max_ids ≤ offset + batches * max_items_in_batch))
      ⊎ ((got < page_size) × (offset ≡ length objects))

  short-end :
      (batches page_size got offset : ℕ) (t : Bool)
      → IsFull batches page_size got offset
      → (ltb got page_size && t) ≡ true
      → offset ≡ length objects
  short-end batches page_size got offset t (inr (short, e)) h = e
  short-end batches page_size got offset t (inl (much, b)) h =
      absurd (true-not-false (sym h ∙ ap (λ (x : Bool). x && t) (le→ltb got page_size much)))

  full-budget :
      (batches page_size got offset : ℕ) (t : Bool)
      → IsFull batches page_size got offset
      → (offset ≡ length objects → t ≡ true)
      → (ltb got page_size && t) ≡ false
      → max_ids ≤ offset + batches * max_items_in_batch
  full-budget batches page_size got offset t (inl (much, b)) h e = b
  full-budget batches page_size got offset t (inr (short, end)) h e = absurd (
      true-not-false
        (sym (h end) ∙ sym (ap (λ (x : Bool). x && t) (lt→ltb got page_size short)) ∙ e))

  pub judge_page-Goes :
      (batches page_size got known_before : ℕ) (first_page : Bool) (out : LocateOutcome)
      (offset : ℕ) (total : Option ℕ)
      → out.ids ≡ take offset objects
      → IsSearch (before out.ids out.seen)
      → offset ≤ length objects
      → offset ≤ max_ids
      → length out.ids ≡ offset
      → known_before + got ≡ offset
      → IsTotal objects total
      → IsFull batches page_size got offset
      → Goes batches (judge_page max_ids page_size got known_before first_page out offset total)
  unfolding judge_page
  judge_page-Goes batches page_size got known_before first_page out offset total found search inside
        below size sum is_total full =
      let done = λ (e : offset ≡ length objects). found ∙ whole offset e below in
      if_both (Goes batches) (reaches (length out.ids) total) _ _
        (λ e. record {
          last_search = search;
          all_found =
              done (omega (arith, reaches-total (length out.ids) total is_total e, size, inside));
          not_stalled = refl;
          ended = inl refl;
        })
        λ not_reached.
          if_both (Goes batches) (leb max_ids (length out.ids)) _ _
            (λ e.
              let same : offset ≡ max_ids =
                omega (arith, leb→le max_ids (length out.ids) e, size, below) in
              record {
                last_search = search;
                all_found = found ∙ ap (λ (k : ℕ). take k objects) same;
                not_stalled = refl;
                ended = inl refl;
              })
            λ not_full.
              if_both (Goes batches) (ltb (length out.ids - known_before) got) _ _
                (λ e.
                  absurd (omega (arith, ltb→lt (length out.ids - known_before) got e, size, sum)))
                λ e.
                  if_both (Goes batches) (reaches offset total) _ _
                    (λ e. absurd (
                      true-not-false
                        (sym e ∙ ap (λ (n : ℕ). reaches n total) (sym size) ∙ not_reached)))
                    λ not_there.
                      if_both (Goes batches) (ltb got page_size && not (has_value total)) _ _
                        (λ e. record {
                          last_search = search;
                          all_found = done (short-end batches page_size got offset _ full e);
                          not_stalled = refl;
                          ended = inl refl;
                        })
                        (λ e. record {
                          found = found;
                          search = search;
                          inside = inside;
                          below = below;
                          total = is_total;
                          calm = refl;
                          budget =
                              full-budget batches page_size got offset _ full
                                (λ end.
                                  has_value-reaches offset total is_total not_there
                                    (omega (arith, end)))
                                e;
                        })
