-- ===== src/Locate/Listing.antt =====
-- The searches of kmipclient/src/KmipClient.cpp on a server that holds a fixed list: what they return
-- is that list, up to the limit.
use libkmip.Base.{
  ℕ, zero, suc, ◌*◌, ◌≤◌, ◌≡◌, ◌⊎◌, inl, inr, refl, sym, ap, subst, ◌∙◌, arith, Bool, true, false,
  not, ◌&&◌, ◌||◌, List, Result, ok, ◌==◌, ltb, length, take, length-take, ltb→lt, le→ltb, if_false,
}
use libkmip.Errors.{Error}
use libkmip.Exchange.{Io, and_then}
use libkmip.Locate.{times, max_items_in_batch, located_total}
use libkmip.Locate.Merge.{IsSearch, before}
use libkmip.Locate.Found.{if_both}
use libkmip.Locate.Turns.{
  Page, LocateOutcome, Paging, Turn, break_with, go_on_with, confirm, start_paging,
}
use libkmip.Locate.Paging.{max_batches_in_search, next_turn, paging_loop, after_paging, locate_all}
use libkmip.Locate.Honest.{part, IsTotal, OnWay, Ended, Goes, true-not-false}
use libkmip.Locate.Complete.{paging_turn-Goes}

-- Nothing more is asked for.
quiet :
    (stalled finished room : Bool)
    → stalled ≡ false
    → (finished ≡ true) ⊎ (room ≡ false)
    → (stalled || (not stalled && not finished && room)) ≡ false
quiet true finished room s h = s
quiet false true room s h = refl
quiet false false room s (inl f) = absurd (true-not-false (sym f))
quiet false false room s (inr r) = r

no_room :
    (p : Paging) (max_ids : ℕ)
    → (p.finished ≡ true) ⊎ (max_ids ≤ length p.outcome.ids)
    → (p.finished ≡ true) ⊎ (ltb (length p.outcome.ids) max_ids ≡ false)
no_room p max_ids (inl f) = inl f
no_room p max_ids (inr h) = inr (le→ltb (length p.outcome.ids) max_ids h)

module _ {W A : Type 0} (P : A → Type 0) where
  -- The outcome is a value with `P`.
  abbrev pub Returns : Result Error A × W → Type 0
  Returns r = (a : A) × (w : W) × (r ≡ (ok a, w)) × P a

  pub and_then-Returns :
      {B : Type 0} (Q : B → Type 0) (r : Result Error A × W) (f : A → Io W B)
      → Returns r
      → ((a : A) (w : W) → P a → (b : B) × (w' : W) × (f a w ≡ (ok b, w')) × Q b)
      → (b : B) × (w : W) × (and_then r f ≡ (ok b, w)) × Q b
  and_then-Returns Q r f (a, w, e, p) k =
      let (b, w', e', q) = k a w p in (b, w', ap (λ x. and_then x f) e ∙ e', q)

-- A page holds what the server was asked for, and its total is none that can be used, or the true one.
abbrev pub IsPart : List (List ℕ) → ℕ → ℕ → Page → Type 0
IsPart objects offset page_size page =
    (page.page_ids ≡ part offset page_size objects)
    × IsTotal objects (located_total page.located_items (length page.page_ids))

pub none_asked : (max_ids : ℕ) → (max_ids == 0) ≡ true → 0 ≡ max_ids
none_asked max_ids e = ground arith

-- A search that has ended, with the whole list found.
pub record IsListed (objects : List (List ℕ)) (max_ids : ℕ) (out : LocateOutcome) : Type 0 where
  pub listed : out.ids ≡ take max_ids objects
  pub listed_search : IsSearch (before out.ids out.seen)

module _ {W : Type 0} (objects : List (List ℕ)) (locate_page : ℕ → ℕ → ℕ → Io W Page) where
  abbrev pub IsHonest : Type 0
  IsHonest =
      (offset page_size limit : ℕ) (w : W)
      → Returns (IsPart objects offset page_size) (locate_page offset page_size limit w)

  module _ (honest : IsHonest) (once : (id : List ℕ) → times id objects ≤ 1) (max_ids : ℕ) where
    found_length :
        (p : Paging) (batches : ℕ)
        → OnWay objects max_ids batches p
        → length p.outcome.ids ≡ p.offset
    found_length p batches o = omega (
      arith,
      ap (λ (xs : List (List ℕ)). length xs) o.found,
      length-take p.offset objects,
      o.inside,
    )

    full-Ended :
        (p : Paging) (batches : ℕ)
        → OnWay objects max_ids batches p
        → max_ids ≤ p.offset
        → Ended objects max_ids p
    full-Ended p batches o h =
        let same : p.offset ≡ max_ids = omega (arith, h, o.below) in
        record {
          last_search = o.search;
          all_found = o.found ∙ ap (λ (k : ℕ). take k objects) same;
          not_stalled = o.calm;
          ended = inr (omega (arith, found_length p batches o, h));
        }

    next_turn-Returns :
        (batches : ℕ) (turn : Turn) (w : W)
        → Goes objects max_ids batches turn
        → ((p : Paging)
            → OnWay objects max_ids batches p
            → Returns (Ended objects max_ids) (paging_loop locate_page batches max_ids p w))
        → Returns
            (Ended objects max_ids)
            (next_turn locate_page turn (paging_loop locate_page batches max_ids) w)
    next_turn-Returns batches (break_with p) w g k = (p, w, refl, g)
    next_turn-Returns batches (go_on_with p) w g k = k p g

    paging_loop-Returns :
        (batches : ℕ) (p : Paging) (w : W)
        → OnWay objects max_ids batches p
        → Returns (Ended objects max_ids) (paging_loop locate_page batches max_ids p w)
    unfolding paging_loop
    paging_loop-Returns zero p w o = (p, w, refl, full-Ended p zero o (omega (arith, o.budget)))
    paging_loop-Returns (suc batches) p w o =
        if_both (Returns (Ended objects max_ids)) (ltb (length p.outcome.ids) max_ids) _ _
          (λ more.
            and_then-Returns (IsPart objects _ _) (Ended objects max_ids) _ _ (honest _ _ _ w)
              (λ page w' a.
                next_turn-Returns batches _ w'
                  (paging_turn-Goes objects max_ids once batches _ page p refl o
                    (ltb→lt (length p.outcome.ids) max_ids more) a.0 a.1)
                  (λ q g. paging_loop-Returns batches q w' g)))
          (λ no_more. (
            p,
            w,
            refl,
            full-Ended p (suc batches) o (ground (arith, found_length p (suc batches) o, no_more)),
          ))

    start_OnWay :
        max_ids ≤ max_batches_in_search * max_items_in_batch
        → OnWay objects max_ids max_batches_in_search start_paging
    unfolding start_paging
    start_OnWay h = record {
      found = refl;
      search = record { same_set = λ id. refl; once = λ id. omega arith };
      inside = omega arith;
      below = omega arith;
      total = inl refl;
      calm = refl;
      budget = omega (arith, h);
    }

    after_paging-Returns :
        (p : Paging) (w : W)
        → Ended objects max_ids p
        → Returns (IsListed objects max_ids) (after_paging locate_page max_ids p w)
    unfolding after_paging
    after_paging-Returns p w e =
        let over : (p.stalled
              || (not p.stalled && not p.finished && ltb (length p.outcome.ids) max_ids))
            ≡ false =
          quiet p.stalled p.finished _ e.not_stalled (no_room p max_ids e.ended) in
        subst (λ (io : Io W LocateOutcome). Returns (IsListed objects max_ids) (io w))
          (sym (if_false _ _ _ over))
          (p.outcome, w, refl, record { listed = e.all_found; listed_search = e.last_search })

    -- `locate_all`, on a server that holds a fixed list, no identifier twice, and answers each request
    -- with the part of it that was asked for, and with a total that cannot be used or the true one:
    -- for at most as many identifiers as the batches hold, it returns the list up to the limit.
    pub locate_all-Returns :
        (w : W)
        → max_ids ≤ max_batches_in_search * max_items_in_batch
        → Returns (IsListed objects max_ids) (locate_all locate_page max_ids w)
    unfolding locate_all start_paging
    locate_all-Returns w h =
        if_both (λ (io : Io W LocateOutcome). Returns (IsListed objects max_ids) (io w))
          (max_ids == 0) _ _
          (λ e. (
            confirm true start_paging.outcome,
            w,
            refl,
            record {
              listed = ap (λ (k : ℕ). take k objects) (none_asked max_ids e);
              listed_search = record { same_set = λ id. refl; once = λ id. omega arith };
            },
          ))
          (λ e.
            and_then-Returns (Ended objects max_ids) (IsListed objects max_ids) _ _
              (paging_loop-Returns max_batches_in_search start_paging w (start_OnWay h))
              (λ p w' g. after_paging-Returns p w' g))
