-- ===== src/Locate/Found.antt =====
-- What the searches of kmipclient/src/KmipClient.cpp find, on any server: identifiers that pages
-- held, none twice, and no more than were asked for; and that the searches end.
use libkmip.Base.{
  ℕ, ◌-◌, ◌≤◌, ◌<◌, ◌≡◌, ◌≢◌, ◌⊎◌, inl, inr, refl, arith, Bool, true, false, not, ◌&&◌, List, [],
  ◌∷◌, ◌++◌, Option, none, some, ok, err, ◌==◌, ltb, leb, if◌then◌else◌, length, All, leb→le,
}
use libkmip.Errors.{out_of_fuel}
use libkmip.Locate.{times, Merged, insert_id, merge_page, merge_new_ids}
use libkmip.Locate.Merge.{IsSearch, before, forget_added, merge_page_lem}
use libkmip.Locate.Turns.{
  Page, LocateOutcome, Paging, Turn, break_with, go_on_with, Retry, retried, larger_page,
  short_page, Probe, ProbeTurn, probe_done, probe_more, merge_into, empty_page, empty_ids,
  judge_page, paging_turn, judge_retry, retry_turn, probe_turn, ends_pass, reaches, has_value,
}

pub if_both {ℓ κ} :
    {A : Type ℓ} (P : A → Type κ) (t : Bool) (x y : A)
    → (t ≡ true → P x)
    → (t ≡ false → P y)
    → P (if t then x else y)
if_both P true x y h k = h refl
if_both P false x y h k = k refl

All-append {ℓ κ} :
    {A : Type ℓ} (P : A → Type κ) (xs : List A) (y : A) → All P xs → P y → All P (xs ++ (y ∷ []))
All-append P [] y a p = (p, tt)
All-append P (x ∷ xs) y (q, a) p = (q, All-append P xs y a p)

-- As many as were asked for, or the list is known to be complete.
abbrev pub IsWhole : ℕ → LocateOutcome → Type 0
IsWhole max_ids out = (max_ids ≤ length out.ids) ⊎ (out.confirmed_complete ≡ true)

module _ (Known : List ℕ → Type 0) where
  merge_page-All :
      (max_ids : ℕ) (page : List (List ℕ)) (m : Merged)
      → All Known page
      → All Known m.ids
      → All Known (merge_page max_ids page m).ids
  unfolding merge_page
  merge_page-All max_ids [] m a b = b
  merge_page-All max_ids (id ∷ page) m (p, a) b =
      let next : All Known (insert_id id m).ids =
        if_both (λ (x : Merged). All Known x.ids) (times id m.seen == 0) _ m
          (λ e. All-append Known m.ids id b p) (λ e. b) in
      if_both (λ (x : Merged). All Known x.ids) (leb max_ids (length m.ids)) _ _ (λ e. b)
        (λ e. merge_page-All max_ids page (insert_id id m) a next)

  -- At most `max_ids` identifiers, none twice, the set of which is `seen`; all of them known.
  pub record IsFound (max_ids : ℕ) (ids seen : List (List ℕ)) : Type 0 where
    pub search : IsSearch (before ids seen)
    pub few : length ids ≤ max_ids
    pub known : All Known ids

  abbrev pub Finds : ℕ → LocateOutcome → Type 0
  Finds max_ids out = IsFound max_ids out.ids out.seen

  abbrev pub AreKnown : {W : Type 0} → Page → W → Type 0
  AreKnown page w = All Known page.page_ids

  merge_into-Finds :
      (max_ids : ℕ) (page : List (List ℕ)) (out : LocateOutcome)
      → All Known page
      → Finds max_ids out
      → Finds max_ids (merge_into max_ids page out)
  unfolding merge_new_ids
  merge_into-Finds max_ids page out a f =
      let r = merge_page_lem max_ids page (before out.ids out.seen) f.search f.few in
      record {
        search = forget_added (merge_page max_ids page (before out.ids out.seen)) r.0;
        few = r.1;
        known = merge_page-All max_ids page (before out.ids out.seen) a f.known;
      }

  module _ (max_ids : ℕ) where
    abbrev pub Turned : Turn → Type 0
    Turned (break_with p) = Finds max_ids p.outcome
    Turned (go_on_with p) = Finds max_ids p.outcome

    judge_page-Turned :
        (page_size got known_before : ℕ) (first_page : Bool) (out : LocateOutcome) (offset : ℕ)
        (total : Option ℕ)
        → Finds max_ids out
        → Turned (judge_page max_ids page_size got known_before first_page out offset total)
    unfolding judge_page
    judge_page-Turned page_size got known_before first_page out offset total f =
        if_both Turned (reaches (length out.ids) total) _ _ (λ e. f)
          λ e.
            if_both Turned (leb max_ids (length out.ids)) _ _ (λ e. f)
              λ e.
                if_both Turned (ltb (length out.ids - known_before) got) _ _ (λ e. f)
                  λ e.
                    if_both Turned (reaches offset total) _ _ (λ e. f)
                      λ e.
                        if_both Turned (ltb got page_size && not (has_value total)) _ _ (λ e. f)
                          (λ e. f)

    pub paging_turn-Turned :
        (page_size : ℕ) (page : Page) (p : Paging)
        → All Known page.page_ids
        → Finds max_ids p.outcome
        → Turned (paging_turn max_ids page_size page p)
    unfolding paging_turn empty_page
    paging_turn-Turned page_size page p a f =
        if_both Turned (empty_ids page.page_ids) _ _ (λ e. f)
          (λ e.
            judge_page-Turned page_size _ _ _ _ _ _
              (merge_into-Finds max_ids page.page_ids p.outcome a f))

    abbrev pub Retried : ℕ → Retry → Type 0
    Retried page_size (retried (ok out)) = Finds max_ids out × IsWhole max_ids out
    Retried page_size (retried (err e)) = e ≢ out_of_fuel
    Retried page_size (larger_page out) = Finds max_ids out × (page_size < max_ids)

    short_page-Retried :
        (page_size : ℕ) (out : LocateOutcome) (total : Option ℕ)
        → Finds max_ids out
        → Retried page_size (short_page out total)
    short_page-Retried page_size out (some total) f = λ h. cc
    short_page-Retried page_size out none f = (f, inr refl)

    judge_retry-Retried :
        (page_size got known_before known_in_page : ℕ) (out : LocateOutcome) (total : Option ℕ)
        → Finds max_ids out
        → Retried page_size (judge_retry max_ids page_size got known_before known_in_page out total)
    unfolding judge_retry
    judge_retry-Retried page_size got known_before known_in_page out total f =
        if_both (Retried page_size) (leb max_ids (length out.ids)) _ _
          (λ e. (f, inl (leb→le _ _ e)))
          λ e.
            if_both (Retried page_size) (reaches (length out.ids) total) _ _ (λ e. (f, inr refl))
              λ e.
                if_both (Retried page_size) (ltb got page_size) _ _
                  (λ e.
                    if_both (Retried page_size) (ltb known_in_page known_before) _ _ (λ e. λ h. cc)
                      (λ e. short_page-Retried page_size out total f))
                  λ e.
                    if_both (Retried page_size) (leb max_ids page_size) _ _ (λ e. λ h. cc)
                      (λ e. (f, ground arith))

    pub retry_turn-Retried :
        (page_size : ℕ) (known_total : Option ℕ) (page : Page) (out : LocateOutcome)
        → All Known page.page_ids
        → Finds max_ids out
        → Retried page_size (retry_turn max_ids page_size known_total page out)
    unfolding retry_turn
    retry_turn-Retried page_size known_total page out a f =
        judge_retry-Retried page_size _ _ _ _ _ (merge_into-Finds max_ids page.page_ids out a f)

    abbrev pub Probed : ProbeTurn → Type 0
    Probed (probe_done out) = Finds max_ids out
    Probed (probe_more b) = Finds max_ids b.probed

    pub probe_turn-Probed :
        (page_size : ℕ) (page : Page) (b : Probe)
        → All Known page.page_ids
        → Finds max_ids b.probed
        → Probed (probe_turn max_ids page_size page b)
    unfolding probe_turn
    probe_turn-Probed page_size page b a f =
        let merged = merge_into-Finds max_ids page.page_ids b.probed a f in
        if_both Probed (empty_ids page.page_ids) _ _ (λ e. f)
          λ e.
            if_both Probed
              (ends_pass page_size page
                (merge_new_ids b.probed.ids b.probed.seen page.page_ids max_ids).added_any b)
              _ _ (λ e. merged) (λ e. merged)
