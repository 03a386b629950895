-- ===== src/Locate/Paging.antt =====
-- kmipclient/src/KmipClient.cpp: the searches of the client, `locate_all`, `probe_all` and `op_all`,
-- over `locate_page`, here a parameter: it asks for a number of identifiers from an offset on.
use libkmip.Base.{
  ℕ, zero, suc, ◌-◌, true, not, ◌&&◌, ◌||◌, List, [], ◌∷◌, Option, ok, err, ◌==◌, ltb, leb,
  if◌then◌else◌, length,
}
use libkmip.Errors.{out_of_fuel}
use libkmip.Protocol.Request.{default_max_response_size}
use libkmip.Exchange.{Io, ◌>>>=◌, smaller}
use libkmip.Locate.{max_items_in_batch, locate_response_size_limit}
use libkmip.Locate.Turns.{
  Page, LocateOutcome, Paging, Turn, break_with, go_on_with, Retry, retried, larger_page, Probe,
  ProbeTurn, probe_done, probe_more, confirm, paging_turn, retry_turn, probe_turn, next_page_size,
  first_page_size, start_paging,
}

-- MAX_BATCHES_IN_SEARCH
abbrev pub max_batches_in_search : ℕ
max_batches_in_search = 256

-- A size_t has this many bits, which is how often a page size can double.
abbrev pub size_bits : ℕ
size_bits = 64

-- What ends with a value and leaves the world as it is.
abbrev pub give : {W A : Type 0} → A → Io W A
give a w = (ok a, w)

module _ {W : Type 0} (locate_page : ℕ → ℕ → ℕ → Io W Page) where
  abbrev pub next_turn : Turn → (Paging → Io W Paging) → Io W Paging
  next_turn (break_with p) go_on w = (ok p, w)
  next_turn (go_on_with p) go_on w = go_on p w

  unfoldable pub paging_loop : ℕ → ℕ → Paging → Io W Paging
  paging_loop zero max_ids p w = (ok p, w)
  paging_loop (suc batches) max_ids p w =
      let page_size = smaller (max_ids - length p.outcome.ids) max_items_in_batch in
      if ltb (length p.outcome.ids) max_ids
      then (locate_page p.offset page_size default_max_response_size >>>= λ page.
            next_turn (paging_turn max_ids page_size page p) (paging_loop batches max_ids))
          w
      else (ok p, w)

  abbrev pub next_retry : Retry → (LocateOutcome → Io W LocateOutcome) → Io W LocateOutcome
  next_retry (retried r) go_on w = (r, w)
  next_retry (larger_page out) go_on w = go_on out w

  unfoldable pub retry_loop : ℕ → ℕ → ℕ → Option ℕ → LocateOutcome → Io W LocateOutcome
  retry_loop zero max_ids page_size known_total out w = (err out_of_fuel, w)
  retry_loop (suc fuel) max_ids page_size known_total out w =
      (locate_page 0 page_size (locate_response_size_limit page_size) >>>= λ page.
      next_retry (retry_turn max_ids page_size known_total page out)
        (retry_loop fuel max_ids (next_page_size max_ids page_size) known_total))
        w

  -- What follows the first loop.
  unfoldable pub after_paging : ℕ → Paging → Io W LocateOutcome
  after_paging max_ids p =
      let size = length p.outcome.ids in
      let out_of_batches = not p.stalled && not p.finished && ltb size max_ids in
      if p.stalled || out_of_batches
      then retry_loop (suc size_bits) max_ids (first_page_size max_ids size) p.known_total p.outcome
      else give p.outcome

  unfoldable pub locate_all : ℕ → Io W LocateOutcome
  locate_all max_ids =
      if max_ids == 0
      then give (confirm true start_paging.outcome)
      else (paging_loop max_batches_in_search max_ids start_paging >>>= after_paging max_ids)

  abbrev pub next_probe : ProbeTurn → (Probe → Io W LocateOutcome) → Io W LocateOutcome
  next_probe (probe_done out) go_on w = (ok out, w)
  next_probe (probe_more b) go_on w = go_on b w

  -- The loop of one pass that probes.
  unfoldable pub probe_loop : ℕ → ℕ → ℕ → Probe → Io W LocateOutcome
  probe_loop zero max_ids page_size b w = (ok b.probed, w)
  probe_loop (suc batches) max_ids page_size b w =
      if ltb (length b.probed.ids) max_ids
      then (locate_page b.probe_offset page_size default_max_response_size >>>= λ page.
            next_probe (probe_turn max_ids page_size page b) (probe_loop batches max_ids page_size))
          w
      else (ok b.probed, w)

  unfoldable pub probe_sizes : List ℕ → ℕ → LocateOutcome → Io W LocateOutcome
  probe_sizes [] max_ids out w = (ok out, w)
  probe_sizes (page_size ∷ sizes) max_ids out w =
      (probe_loop max_batches_in_search max_ids page_size
            (record { probed = out; probe_offset = 0; prev_page = [] })
          >>>= λ done.
              (if leb max_ids (length done.ids) then give done else probe_sizes sizes max_ids done))
        w

  unfoldable pub probe_all : ℕ → LocateOutcome → Io W LocateOutcome
  probe_all = probe_sizes (256 ∷ 64 ∷ 16 ∷ [])

  -- `op_locate_by_group`, and `op_locate_by_name` with the default limit.
  unfoldable pub op_locate : ℕ → Io W (List (List ℕ))
  op_locate max_ids = locate_all max_ids >>>= λ out. give out.ids

  unfoldable pub after_locate_all : ℕ → LocateOutcome → Io W (List (List ℕ))
  after_locate_all max_ids out =
      if leb max_ids (length out.ids) || out.confirmed_complete
      then give out.ids
      else (probe_all max_ids out >>>= λ done. give done.ids)

  unfoldable pub op_all : ℕ → Io W (List (List ℕ))
  op_all max_ids =
      if max_ids == 0 then give [] else (locate_all max_ids >>>= after_locate_all max_ids)
