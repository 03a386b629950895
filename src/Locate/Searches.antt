-- ===== src/Locate/Searches.antt =====
-- The searches of kmipclient/src/KmipClient.cpp over any server: they end, and what they return was
-- on a page, stands there once, and is no more than was asked for.
use libkmip.Base.{
  ℕ, zero, suc, ◌*◌, ◌/◌, ◌^◌, ◌≤◌, ◌<◌, ◌≡◌, refl, subst, arith, not, ◌&&◌, ◌||◌, List, [], ◌∷◌,
  Option, Result, ok, err, ◌==◌, ltb, leb, length, All,
}
use libkmip.Errors.{Error}
use libkmip.Exchange.{Io}
use libkmip.Exchange.Safety.{Outcome, and_then-Outcome, Anything}
use libkmip.Locate.{times}
use libkmip.Locate.Turns.{
  Page, LocateOutcome, Paging, Turn, break_with, go_on_with, Retry, retried, larger_page, Probe,
  ProbeTurn, probe_done, probe_more, next_page_size, first_page_size, start_paging,
}
use libkmip.Locate.Paging.{
  max_batches_in_search, size_bits, next_turn, paging_loop, next_retry, retry_loop, after_paging,
  locate_all, next_probe, probe_loop, probe_sizes, probe_all, after_locate_all, op_all,
}
use libkmip.Locate.Found.{
  if_both, Finds, AreKnown, IsWhole, Turned, Retried, Probed, paging_turn-Turned,
  retry_turn-Retried, probe_turn-Probed,
}

power_positive : (n : ℕ) → 1 ≤ 2 ^ n
power_positive zero = omega arith
power_positive (suc n) = omega (arith, power_positive n)

power_suc : (n : ℕ) → 2 ^ suc n ≡ 2 * 2 ^ n
power_suc n = omega arith

-- The next page size, where it doubles as often as there is fuel, comes up to the limit.
next_page_size-reaches :
    (max_ids page_size fuel : ℕ)
    → max_ids ≤ page_size * 2 ^ suc fuel
    → max_ids ≤ next_page_size max_ids page_size * 2 ^ fuel
next_page_size-reaches max_ids page_size fuel h =
    if_both (λ (n : ℕ). max_ids ≤ n * 2 ^ fuel) (ltb (max_ids / 2) page_size) _ _
      (λ e. grind (arith, power_positive fuel))
      (λ e. grind (arith, subst (λ (k : ℕ). max_ids ≤ page_size * k) (power_suc fuel) h))

-- Known identifiers, at most `max_ids`, and none twice.
abbrev pub AreFound : {W : Type 0} → (List ℕ → Type 0) → ℕ → List (List ℕ) → W → Type 0
AreFound Known max_ids ids w =
    All Known ids × (length ids ≤ max_ids) × ((id : List ℕ) → times id ids ≤ 1)

-- Such identifiers, as many as were asked for or known to be all.
abbrev pub AreWhole : {W : Type 0} → (List ℕ → Type 0) → ℕ → LocateOutcome → W → Type 0
AreWhole Known max_ids out w = Finds Known max_ids out × IsWhole max_ids out

module _ {W A : Type 0} (P Q : A → W → Type 0) where
  weaken-Outcome :
      ((a : A) (w : W) → P a w → Q a w)
      → (r : Result Error A × W) → Outcome P Anything r
      → Outcome Q Anything r
  weaken-Outcome f (ok a, w) h = f a w h
  weaken-Outcome f (err e, w) h = h

module _ {W : Type 0} (locate_page : ℕ → ℕ → ℕ → Io W Page) (Known : List ℕ → Type 0)
    (pages : (offset page_size limit : ℕ) (w : W)
      → Outcome (AreKnown Known) Anything (locate_page offset page_size limit w)) where
  module _ (max_ids : ℕ) where
    abbrev FoundIn : LocateOutcome → W → Type 0
    FoundIn out w = Finds Known max_ids out

    abbrev PagedIn : Paging → W → Type 0
    PagedIn p w = Finds Known max_ids p.outcome

    start_Finds : Finds Known max_ids start_paging.outcome
    unfolding start_paging
    start_Finds = record {
      search = record { same_set = λ id. refl; once = λ id. omega arith };
      few = omega arith;
      known = tt;
    }

    next_turn-Outcome :
        (turn : Turn) (go_on : Paging → Io W Paging) (w : W)
        → Turned Known max_ids turn
        → ((p : Paging) → Finds Known max_ids p.outcome → Outcome PagedIn Anything (go_on p w))
        → Outcome PagedIn Anything (next_turn locate_page turn go_on w)
    next_turn-Outcome (break_with p) go_on w f k = f
    next_turn-Outcome (go_on_with p) go_on w f k = k p f

    paging_loop-Outcome :
        (batches : ℕ) (p : Paging) (w : W)
        → Finds Known max_ids p.outcome
        → Outcome PagedIn Anything (paging_loop locate_page batches max_ids p w)
    unfolding paging_loop
    paging_loop-Outcome zero p w f = f
    paging_loop-Outcome (suc batches) p w f =
        if_both (Outcome PagedIn Anything) (ltb (length p.outcome.ids) max_ids) _ _
          (λ more. and_then-Outcome PagedIn (AreKnown Known) _ _ (pages _ _ _ w) (λ page w' a.
            next_turn-Outcome _ _ w' (paging_turn-Turned Known max_ids _ page p a f)
              (λ q g. paging_loop-Outcome batches q w' g)))
          (λ no_more. f)

    next_retry-Outcome :
        (page_size : ℕ) (turn : Retry) (go_on : LocateOutcome → Io W LocateOutcome) (w : W)
        → Retried Known max_ids page_size turn
        → ((out : LocateOutcome)
            → Finds Known max_ids out
            → page_size < max_ids
            → Outcome (AreWhole Known max_ids) Anything (go_on out w))
        → Outcome (AreWhole Known max_ids) Anything (next_retry locate_page turn go_on w)
    next_retry-Outcome page_size (retried (ok out)) go_on w f k = f
    next_retry-Outcome page_size (retried (err e)) go_on w f k = (f, tt)
    next_retry-Outcome page_size (larger_page out) go_on w f k = k out f.0 f.1

    -- The fallback of `locate_all`, over any server whose requests end and whose pages hold only known
    -- identifiers: with a page size that comes up to `max_ids` when it is doubled `fuel` times, it ends
    -- after at most `fuel + 1` requests. What it returns is known, within the limit and without a
    -- repetition, and it is as many as were asked for or marked complete; else it throws.
    pub retry_loop-Outcome :
        (fuel page_size : ℕ) (known_total : Option ℕ) (out : LocateOutcome) (w : W)
        → max_ids ≤ page_size * 2 ^ fuel
        → Finds Known max_ids out
        → Outcome
            (AreWhole Known max_ids)
            Anything
            (retry_loop locate_page (suc fuel) max_ids page_size known_total out w)
    unfolding retry_loop
    retry_loop-Outcome zero page_size known_total out w enough f =
        and_then-Outcome (AreWhole Known max_ids) (AreKnown Known) _ _ (pages _ _ _ w) (λ page w' a.
          next_retry-Outcome page_size _ _ w'
            (retry_turn-Retried Known max_ids page_size known_total page out a f)
            (λ next g small. absurd (omega (arith, enough, small))))
    retry_loop-Outcome (suc fuel) page_size known_total out w enough f =
        and_then-Outcome (AreWhole Known max_ids) (AreKnown Known) _ _ (pages _ _ _ w) (λ page w' a.
          next_retry-Outcome page_size _ _ w'
            (retry_turn-Retried Known max_ids page_size known_total page out a f)
            (λ next g small.
              retry_loop-Outcome fuel (next_page_size max_ids page_size) known_total next w'
                (next_page_size-reaches max_ids page_size fuel enough) g))

    next_probe-Outcome :
        (turn : ProbeTurn) (go_on : Probe → Io W LocateOutcome) (w : W)
        → Probed Known max_ids turn
        → ((b : Probe) → Finds Known max_ids b.probed → Outcome FoundIn Anything (go_on b w))
        → Outcome FoundIn Anything (next_probe locate_page turn go_on w)
    next_probe-Outcome (probe_done out) go_on w f k = f
    next_probe-Outcome (probe_more b) go_on w f k = k b f

    probe_loop-Outcome :
        (batches page_size : ℕ) (b : Probe) (w : W)
        → Finds Known max_ids b.probed
        → Outcome FoundIn Anything (probe_loop locate_page batches max_ids page_size b w)
    unfolding probe_loop
    probe_loop-Outcome zero page_size b w f = f
    probe_loop-Outcome (suc batches) page_size b w f =
        if_both (Outcome FoundIn Anything) (ltb (length b.probed.ids) max_ids) _ _
          (λ more. and_then-Outcome FoundIn (AreKnown Known) _ _ (pages _ _ _ w) (λ page w' a.
            next_probe-Outcome _ _ w' (probe_turn-Probed Known max_ids _ page b a f)
              (λ q g. probe_loop-Outcome batches page_size q w' g)))
          (λ no_more. f)

    probe_sizes-Outcome :
        (sizes : List ℕ) (out : LocateOutcome) (w : W)
        → Finds Known max_ids out
        → Outcome FoundIn Anything (probe_sizes locate_page sizes max_ids out w)
    unfolding probe_sizes
    probe_sizes-Outcome [] out w f = f
    probe_sizes-Outcome (page_size ∷ sizes) out w f =
        and_then-Outcome FoundIn FoundIn _ _
          (probe_loop-Outcome max_batches_in_search page_size _ w f)
          (λ done w' g.
            if_both (λ (io : Io W LocateOutcome). Outcome FoundIn Anything (io w'))
              (leb max_ids (length done.ids)) _ _ (λ e. g)
              (λ e. probe_sizes-Outcome sizes done w' g))

    first_page_size-positive : (known : ℕ) → 0 < max_ids → 1 ≤ first_page_size max_ids known
    unfolding first_page_size
    first_page_size-positive known some_ids = ground arith

    after_paging-Outcome :
        (p : Paging) (w : W)
        → 0 < max_ids
        → max_ids < 2 ^ size_bits
        → Finds Known max_ids p.outcome
        → Outcome FoundIn Anything (after_paging locate_page max_ids p w)
    unfolding after_paging
    after_paging-Outcome p w some_ids fits f =
        if_both (λ (io : Io W LocateOutcome). Outcome FoundIn Anything (io w))
          (p.stalled || (not p.stalled && not p.finished && ltb (length p.outcome.ids) max_ids)) _ _
          (λ e.
            weaken-Outcome (AreWhole Known max_ids) FoundIn (λ out w' r. r.0) _
              (retry_loop-Outcome size_bits (first_page_size max_ids (length p.outcome.ids))
                p.known_total p.outcome w
                (omega (arith, fits, first_page_size-positive (length p.outcome.ids) some_ids)) f))
          (λ e. f)

    locate_all-Outcome :
        (w : W)
        → max_ids < 2 ^ size_bits
        → Outcome FoundIn Anything (locate_all locate_page max_ids w)
    unfolding locate_all
    locate_all-Outcome w fits =
        if_both (λ (io : Io W LocateOutcome). Outcome FoundIn Anything (io w)) (max_ids == 0) _ _
          (λ e. start_Finds)
          (λ e.
            and_then-Outcome FoundIn PagedIn _ _
              (paging_loop-Outcome max_batches_in_search start_paging w start_Finds)
              (λ p w' f. after_paging-Outcome p w' (ground arith) fits f))

    found-Finds : (out : LocateOutcome) (w : W) → FoundIn out w → AreFound Known max_ids out.ids w
    found-Finds out w f = (f.known, f.few, f.search.once)

    after_locate_all-Outcome :
        (out : LocateOutcome) (w : W)
        → Finds Known max_ids out
        → Outcome (AreFound Known max_ids) Anything (after_locate_all locate_page max_ids out w)
    unfolding after_locate_all probe_all
    after_locate_all-Outcome out w f =
        if_both (λ (io : Io W (List (List ℕ))). Outcome (AreFound Known max_ids) Anything (io w))
          (leb max_ids (length out.ids) || out.confirmed_complete) _ _ (λ e. found-Finds out w f)
          (λ e.
            and_then-Outcome (AreFound Known max_ids) FoundIn _ _
              (probe_sizes-Outcome (256 ∷ 64 ∷ 16 ∷ []) out w f)
              (λ done w' g. found-Finds done w' g))

    -- `op_all`, over any server whose requests end and whose pages hold only known identifiers, for a
    -- number that fits a size_t: it ends, and what it returns is known, no more than was asked for,
    -- and none twice.
    pub op_all-Outcome :
        (w : W)
        → max_ids < 2 ^ size_bits
        → Outcome (AreFound Known max_ids) Anything (op_all locate_page max_ids w)
    unfolding op_all
    op_all-Outcome w fits =
        if_both (λ (io : Io W (List (List ℕ))). Outcome (AreFound Known max_ids) Anything (io w))
          (max_ids == 0) _ _ (λ e. (tt, omega arith, λ id. omega arith))
          (λ e.
            and_then-Outcome (AreFound Known max_ids) FoundIn _ _ (locate_all-Outcome w fits)
              (λ out w' f. after_locate_all-Outcome out w' f))
