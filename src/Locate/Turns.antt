-- ===== src/Locate/Turns.antt =====
-- kmipclient/src/KmipClient.cpp: the bodies of the loops of `locate_all` and `probe_all`, for the page
-- that came.
use libkmip.Base.{
  ℕ, ◌+◌, ◌-◌, ◌*◌, ◌/◌, Bool, true, false, not, ◌&&◌, ◌||◌, List, [], ◌∷◌, Option, none, some,
  Result, ok, err, ◌==◌, ltb, leb, if◌then◌else◌, length,
}
use libkmip.Errors.{Error, locate_omits, locate_total_short, locate_full_page}
use libkmip.Exchange.{smaller}
use libkmip.Locate.{max_items_in_batch, times, one_if, merge_new_ids, larger, located_total}

-- The identifiers of a page, and its Located Items.
pub record Page : Type 0 where
  pub page_ids : List (List ℕ)
  pub located_items : Option ℕ

pub record LocateOutcome : Type 0 where
  pub ids : List (List ℕ)
  pub seen : List (List ℕ)
  pub confirmed_complete : Bool

-- The variables of the first loop.
pub record Paging : Type 0 where
  pub outcome : LocateOutcome
  pub offset : ℕ
  pub known_total : Option ℕ
  pub finished : Bool
  pub stalled : Bool

-- A turn of a loop breaks or goes on.
pub data Turn : Type 0 where
  break_with : Paging → Turn
  go_on_with : Paging → Turn

-- `if (const auto total = …) { known_total = total; }`
abbrev pub newest : Option ℕ → Option ℕ → Option ℕ
newest (some total) known = some total
newest none known = known

-- `total.has_value() && n >= *total`
abbrev pub reaches : ℕ → Option ℕ → Bool
reaches n (some total) = leb total n
reaches n none = false

-- `total.has_value() && n < *total`
abbrev pub misses : ℕ → Option ℕ → Bool
misses n (some total) = ltb n total
misses n none = false

abbrev pub has_value : Option ℕ → Bool
has_value (some total) = true
has_value none = false

abbrev pub empty_ids : List (List ℕ) → Bool
empty_ids [] = true
empty_ids (id ∷ rest) = false

-- `merge_new_ids(outcome.ids, outcome.seen, page, max_ids)`
abbrev pub merge_into : ℕ → List (List ℕ) → LocateOutcome → LocateOutcome
merge_into max_ids page out =
    let m = merge_new_ids out.ids out.seen page max_ids in
    record { ids = m.ids; seen = m.seen; confirmed_complete = out.confirmed_complete }

abbrev pub confirm : Bool → LocateOutcome → LocateOutcome
confirm t out = record { ids = out.ids; seen = out.seen; confirmed_complete = t }

-- The end of the list, unless a usable total says that identifiers are missing.
unfoldable pub empty_page : Paging → Paging
empty_page p =
    let missing = misses (length p.outcome.ids) p.known_total in
    record {
      outcome = p.outcome;
      offset = p.offset;
      known_total = p.known_total;
      finished = not missing;
      stalled = missing;
    }

-- What follows the merge of a page that is not empty.
unfoldable pub judge_page : ℕ → ℕ → ℕ → ℕ → Bool → LocateOutcome → ℕ → Option ℕ → Turn
judge_page max_ids page_size got known_before first_page out offset total =
    let finish = λ (done : LocateOutcome). break_with (record {
      outcome = done;
      offset = offset;
      known_total = total;
      finished = true;
      stalled = false;
    }) in
    let stall = break_with (record {
      outcome = out;
      offset = offset;
      known_total = total;
      finished = false;
      stalled = true;
    }) in
    let size = length out.ids in
    if reaches size total
    then finish (confirm true out)
    else if leb max_ids size
    then finish out
    else if ltb (size - known_before) got
    then stall
    else if reaches offset total
    then stall
    else if ltb got page_size && not (has_value total)
    then finish (confirm first_page out)
    else go_on_with (record {
      outcome = out;
      offset = offset;
      known_total = total;
      finished = false;
      stalled = false;
    })

-- The body of the first loop, for the page that came.
unfoldable pub paging_turn : ℕ → ℕ → Page → Paging → Turn
paging_turn max_ids page_size page p =
    let got = length page.page_ids in
    if empty_ids page.page_ids
    then break_with (empty_page p)
    else judge_page max_ids page_size got (length p.outcome.ids) (p.offset == 0)
        (merge_into max_ids page.page_ids p.outcome) (p.offset + got)
        (newest (located_total page.located_items got) p.known_total)

-- The set of the identifiers of a page.
abbrev pub set_of : List (List ℕ) → List (List ℕ)
set_of [] = []
set_of (id ∷ page) = let rest = set_of page in if times id rest == 0 then id ∷ rest else rest

-- How many of them have been seen.
abbrev pub count_seen : List (List ℕ) → List (List ℕ) → ℕ
count_seen seen [] = 0
count_seen seen (id ∷ page) = one_if (not (times id seen == 0)) + count_seen seen page

abbrev pub all_in : List (List ℕ) → List (List ℕ) → Bool
all_in [] b = true
all_in (id ∷ a) b = not (times id b == 0) && all_in a b

abbrev pub same_ids : List (List ℕ) → List (List ℕ) → Bool
same_ids a b = all_in a b && all_in b a

-- A turn of the second loop returns, throws, or asks for a larger page.
pub data Retry : Type 0 where
  retried : Result Error LocateOutcome → Retry
  larger_page : LocateOutcome → Retry

-- A short page with every identifier known before.
abbrev pub short_page : LocateOutcome → Option ℕ → Retry
short_page out (some total) = retried (err (locate_total_short total (length out.ids)))
short_page out none = retried (ok (confirm true out))

unfoldable pub judge_retry : ℕ → ℕ → ℕ → ℕ → ℕ → LocateOutcome → Option ℕ → Retry
judge_retry max_ids page_size got known_before known_in_page out total =
    let size = length out.ids in
    if leb max_ids size
    then retried (ok out)
    else if reaches size total
    then retried (ok (confirm true out))
    else if ltb got page_size
    then if ltb known_in_page known_before
      then retried (err (locate_omits (known_before - known_in_page) known_before))
      else short_page out total
    else if leb max_ids page_size
    then retried (err (locate_full_page page_size size))
    else larger_page out

unfoldable pub retry_turn : ℕ → ℕ → Option ℕ → Page → LocateOutcome → Retry
retry_turn max_ids page_size known_total page out =
    let got = length page.page_ids in
    judge_retry max_ids page_size got (length out.ids) (count_seen out.seen (set_of page.page_ids))
      (merge_into max_ids page.page_ids out)
      (newest (located_total page.located_items got) known_total)

abbrev pub next_page_size : ℕ → ℕ → ℕ
next_page_size max_ids page_size = if ltb (max_ids / 2) page_size then max_ids else page_size * 2

unfoldable pub first_page_size : ℕ → ℕ → ℕ
first_page_size max_ids known =
    smaller
      (if ltb (max_ids / 2) known then max_ids else larger (max_items_in_batch * 2) (known * 2))
      max_ids

unfoldable pub start_paging : Paging
start_paging = record {
  outcome = record { ids = []; seen = []; confirmed_complete = false };
  offset = 0;
  known_total = none;
  finished = false;
  stalled = false;
}

-- The page size asked for by a pass that probes, the offset, and the page before.
pub record Probe : Type 0 where
  pub probed : LocateOutcome
  pub probe_offset : ℕ
  pub prev_page : List (List ℕ)

-- A pass that probes ends, or goes on.
pub data ProbeTurn : Type 0 where
  probe_done : LocateOutcome → ProbeTurn
  probe_more : Probe → ProbeTurn

-- Whether a pass ends with a page that is not empty, once it is merged.
abbrev pub ends_pass : ℕ → Page → Bool → Probe → Bool
ends_pass page_size page added_any b =
    let got = length page.page_ids in
    reaches (b.probe_offset + page_size) (located_total page.located_items got)
    || (not added_any && (ltb got page_size || same_ids page.page_ids b.prev_page))

unfoldable pub probe_turn : ℕ → ℕ → Page → Probe → ProbeTurn
probe_turn max_ids page_size page b =
    let m = merge_new_ids b.probed.ids b.probed.seen page.page_ids max_ids in
    let out = merge_into max_ids page.page_ids b.probed in
    if empty_ids page.page_ids
    then probe_done b.probed
    else if ends_pass page_size page m.added_any b
    then probe_done out
    else probe_more (record {
      probed = out;
      probe_offset = b.probe_offset + page_size;
      prev_page = page.page_ids;
    })
