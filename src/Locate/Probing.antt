-- ===== src/Locate/Probing.antt =====
-- `probe_all` and `op_all` of kmipclient/src/KmipClient.cpp on a server that holds a fixed list: a
-- search that has found every identifier stays as it is.
use libkmip.Base.{
  same_text, same_text_refl, ℕ, zero, suc, ◌*◌, ◌≤◌, ◌<◌, ◌≡◌, inl, inr, refl, sym, ap, subst, ◌∙◌,
  arith, Bool, true, false, ◌||◌, List, [], ◌∷◌, ◌++◌, ◌==◌, ltb, leb, length, All, take, drop,
  length-take, Bool-cases, if_true, if_false, ==_ne, take-append-drop,
}
use libkmip.Exchange.{Io}
use libkmip.Locate.{times, one_if, Merged, insert_id, merge_page, merge_new_ids, max_items_in_batch}
use libkmip.Locate.Merge.{IsSearch, before, times-append}
use libkmip.Locate.Found.{if_both}
use libkmip.Locate.Turns.{
  Page, LocateOutcome, empty_ids, Probe, ProbeTurn, probe_done, probe_more, probe_turn, ends_pass,
  merge_into,
}
use libkmip.Locate.Paging.{
  max_batches_in_search, next_probe, probe_loop, probe_sizes, probe_all, after_locate_all, op_all,
}
use libkmip.Locate.Honest.{part, take_all}
use libkmip.Locate.Complete.{times-take}
use libkmip.Locate.Listing.{
  Returns, and_then-Returns, IsPart, IsHonest, IsListed, none_asked, locate_all-Returns,
}

pub or-false-left : (a b : Bool) → (a || b) ≡ false → a ≡ false
or-false-left true b h = h
or-false-left false b h = refl

-- Identifiers that are there already are not added.
merge_page-known :
    (max_ids : ℕ) (page : List (List ℕ)) (m : Merged)
    → IsSearch m
    → All (λ (id : List ℕ). 0 < times id m.ids) page
    → merge_page max_ids page m ≡ m
unfolding merge_page
merge_page-known max_ids [] m s a = refl
merge_page-known max_ids (id ∷ page) m s (there, a) =
    let kept : insert_id id m ≡ m =
      if_false (times id m.seen == 0) _ m
        (==_ne _ _ (λ (e : times id m.seen ≡ 0). omega (arith, there, s.same_set id, e))) in
    if_both (λ (x : Merged). x ≡ m) (leb max_ids (length m.ids)) m _ (λ e. refl)
      (λ e. ap (merge_page max_ids page) kept ∙ merge_page-known max_ids page m s a)

All-times :
    (page known : List (List ℕ))
    → ((id : List ℕ) → times id page ≤ times id known)
    → All (λ (id : List ℕ). 0 < times id known) page
All-times [] known h = tt
All-times (id ∷ page) known h =
    let itself : one_if (same_text id id) ≡ 1 = ap one_if (same_text_refl id) in
    (omega (arith, h id, itself), All-times page known (λ y. omega (arith, h y)))

times-part :
    (id : List ℕ) (k n : ℕ) (objects : List (List ℕ))
    → times id (part k n objects) ≤ times id objects
times-part id k n objects =
    let parts : times id (take k objects ++ drop k objects) ≡ times id objects =
      ap (times id) (take-append-drop k objects) in
    omega (
      arith,
      times-take id n (drop k objects),
      times-append id (take k objects) (drop k objects),
      parts,
    )

module _ {W : Type 0} (objects : List (List ℕ)) (locate_page : ℕ → ℕ → ℕ → Io W Page) where
  module _ (honest : IsHonest objects locate_page) (once : (id : List ℕ) → times id objects ≤ 1)
      (max_ids : ℕ) where
    -- A search that has found every identifier.
    record IsAll (out : LocateOutcome) : Type 0 where
      all : out.ids ≡ objects
      all_search : IsSearch (before out.ids out.seen)

    abbrev Stays : ProbeTurn → Type 0
    Stays (probe_done out) = IsAll out
    Stays (probe_more b) = IsAll b.probed

    merge_into-IsAll :
        (page : List (List ℕ)) (offset page_size : ℕ) (out : LocateOutcome)
        → page ≡ part offset page_size objects
        → IsAll out
        → IsAll (merge_into max_ids page out)
    unfolding merge_new_ids
    merge_into-IsAll page offset page_size out e a =
        let same = merge_page-known max_ids page (before out.ids out.seen) a.all_search (
          All-times page out.ids (λ id.
            subst (λ (xs : List (List ℕ)). times id page ≤ times id xs) (sym a.all)
              (subst (λ (xs : List (List ℕ)). times id xs ≤ times id objects) (sym e)
                (times-part id offset page_size objects)))) in
        record {
          all = ap (λ (m : Merged). m.ids) same ∙ a.all;
          all_search =
              subst (λ (m : Merged). IsSearch (before m.ids m.seen)) (sym same) a.all_search;
        }

    probe_turn-Stays :
        (page_size : ℕ) (page : Page) (b : Probe)
        → page.page_ids ≡ part b.probe_offset page_size objects
        → IsAll b.probed
        → Stays (probe_turn max_ids page_size page b)
    unfolding probe_turn
    probe_turn-Stays page_size page b e a =
        let merged = merge_into-IsAll page.page_ids b.probe_offset page_size b.probed e a in
        if_both Stays (empty_ids page.page_ids) _ _ (λ t. a)
          λ t.
            if_both Stays
              (ends_pass page_size page
                (merge_new_ids b.probed.ids b.probed.seen page.page_ids max_ids).added_any b)
              _ _ (λ u. merged) (λ u. merged)

    next_probe-Returns :
        (turn : ProbeTurn) (go_on : Probe → Io W LocateOutcome) (w : W)
        → Stays turn
        → ((b : Probe) → IsAll b.probed → Returns IsAll (go_on b w))
        → Returns IsAll (next_probe locate_page turn go_on w)
    next_probe-Returns (probe_done out) go_on w a k = (out, w, refl, a)
    next_probe-Returns (probe_more b) go_on w a k = k b a

    probe_loop-Returns :
        (batches page_size : ℕ) (b : Probe) (w : W)
        → IsAll b.probed
        → Returns IsAll (probe_loop locate_page batches max_ids page_size b w)
    unfolding probe_loop
    probe_loop-Returns zero page_size b w a = (b.probed, w, refl, a)
    probe_loop-Returns (suc batches) page_size b w a =
        if_both (Returns IsAll) (ltb (length b.probed.ids) max_ids) _ _
          (λ more.
            and_then-Returns (IsPart objects _ _) IsAll _ _ (honest _ _ _ w) (λ page w' is_part.
              next_probe-Returns _ _ w' (probe_turn-Stays page_size page b is_part.0 a)
                (λ q g. probe_loop-Returns batches page_size q w' g)))
          (λ no_more. (b.probed, w, refl, a))

    probe_sizes-Returns :
        (sizes : List ℕ) (out : LocateOutcome) (w : W)
        → IsAll out
        → Returns IsAll (probe_sizes locate_page sizes max_ids out w)
    unfolding probe_sizes
    probe_sizes-Returns [] out w a = (out, w, refl, a)
    probe_sizes-Returns (page_size ∷ sizes) out w a =
        and_then-Returns IsAll IsAll _ _ (probe_loop-Returns max_batches_in_search page_size _ w a)
          (λ done w' g.
            if_both (λ (io : Io W LocateOutcome). Returns IsAll (io w'))
              (leb max_ids (length done.ids)) _ _ (λ e. (done, w', refl, g))
              (λ e. probe_sizes-Returns sizes done w' g))

    abbrev AreListed : List (List ℕ) → Type 0
    AreListed ids = ids ≡ take max_ids objects

    after_locate_all-Returns :
        (out : LocateOutcome) (w : W)
        → IsListed objects max_ids out
        → Returns AreListed (after_locate_all locate_page max_ids out w)
    unfolding after_locate_all probe_all
    after_locate_all-Returns out w g =
        elim (Bool-cases (leb max_ids (length out.ids) || out.confirmed_complete)) [
          | inl stop ↦
              subst (λ (io : Io W (List (List ℕ))). Returns AreListed (io w))
                (sym (if_true _ _ _ stop)) (out.ids, w, refl, g.listed)
          | inr more ↦
              let room : leb max_ids (length out.ids) ≡ false = or-false-left _ _ more in
              let few : length objects ≤ max_ids = ground (
                arith,
                room,
                ap (λ (xs : List (List ℕ)). length xs) g.listed,
                length-take max_ids objects,
              ) in
              let all : out.ids ≡ objects = g.listed ∙ take_all max_ids objects few in
              subst (λ (io : Io W (List (List ℕ))). Returns AreListed (io w))
                (sym (if_false _ _ _ more))
                (and_then-Returns IsAll AreListed _ _
                  (probe_sizes-Returns (256 ∷ 64 ∷ 16 ∷ []) out w
                    (record { all = all; all_search = g.listed_search }))
                  (λ done w' a. (done.ids, w', refl, a.all ∙ sym (take_all max_ids objects few))))
        ]

    -- `op_all`, on a server that holds a fixed list, no identifier twice, and answers each request with
    -- the part of it that was asked for, and with a total that cannot be used or the true one: for at
    -- most as many identifiers as the batches hold, it returns the list up to the limit, whether it
    -- probes or not.
    pub op_all-Returns :
        (w : W)
        → max_ids ≤ max_batches_in_search * max_items_in_batch
        → Returns AreListed (op_all locate_page max_ids w)
    unfolding op_all
    op_all-Returns w h =
        if_both (λ (io : Io W (List (List ℕ))). Returns AreListed (io w)) (max_ids == 0) _ _
          (λ e. ([], w, refl, ap (λ (k : ℕ). take k objects) (none_asked max_ids e)))
          (λ e.
            and_then-Returns (IsListed objects max_ids) AreListed _ _
              (locate_all-Returns objects locate_page honest once max_ids w h)
              (λ out w' g. after_locate_all-Returns out w' g))
