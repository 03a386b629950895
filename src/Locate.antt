-- ===== src/Locate.antt =====
-- kmipclient/src/KmipClient.cpp: how the pages of a search are put together.
pub mod Merge
pub mod Turns
pub mod Paging
pub mod Found
pub mod Searches
pub mod Honest
pub mod Complete
pub mod Listing
pub mod Probing
pub mod Runs
pub mod SearchRuns
use libkmip.Base.{
  same_text, ℕ, zero, suc, ◌+◌, ◌*◌, ◌/◌, Bool, true, false, ◌&&◌, List, [], ◌∷◌, ◌++◌, Option,
  none, some, ◌==◌, ltb, leb, if◌then◌else◌, length,
}
use libkmip.Protocol.Request.{default_max_response_size}
use libkmip.Exchange.{hard_limit}

-- MAX_ITEMS_IN_BATCH
abbrev pub max_items_in_batch : ℕ
max_items_in_batch = 256

abbrev pub bytes_per_id : ℕ
bytes_per_id = default_max_response_size / max_items_in_batch

abbrev pub one_if : Bool → ℕ
one_if t = if t then 1 else 0

-- How often an identifier stands in a list.
abbrev pub times : List ℕ → List (List ℕ) → ℕ
times id [] = 0
times id (x ∷ xs) = one_if (same_text x id) + times id xs

-- The identifiers found, the set of those seen, and whether one was added.
pub record Merged : Type 0 where
  pub ids : List (List ℕ)
  pub seen : List (List ℕ)
  pub added_any : Bool

-- `if (seen.insert(id).second)`
abbrev pub insert_id : List ℕ → Merged → Merged
insert_id id m =
    if times id m.seen == 0
    then record { ids = m.ids ++ (id ∷ []); seen = id ∷ m.seen; added_any = true }
    else m

-- The loop over the page, which stops when there are enough.
unfoldable pub merge_page : ℕ → List (List ℕ) → Merged → Merged
merge_page max_ids [] m = m
merge_page max_ids (id ∷ page) m =
    let rest = merge_page max_ids page (insert_id id m) in
    if leb max_ids (length m.ids) then m else rest

unfoldable pub merge_new_ids : List (List ℕ) → List (List ℕ) → List (List ℕ) → ℕ → Merged
merge_new_ids ids seen page max_ids =
    merge_page max_ids page (record { ids = ids; seen = seen; added_any = false })

abbrev pub larger : ℕ → ℕ → ℕ
larger a b = if ltb a b then b else a

unfoldable pub locate_response_size_limit : ℕ → ℕ
locate_response_size_limit page_size =
    if ltb (hard_limit / bytes_per_id) page_size
    then hard_limit
    else larger (page_size * bytes_per_id) default_max_response_size

unfoldable pub located_total : Option ℕ → ℕ → Option ℕ
located_total located_items page_count = elim located_items [
  | some n ↦ if ltb page_count n then some n else none
  | none ↦ none
]
