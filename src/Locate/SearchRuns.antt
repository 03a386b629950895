-- ===== src/Locate/SearchRuns.antt =====
-- Searches on a server that answers as it should, and on one that ignores the offset.
use libkmip.Base.{
  ℕ, ◌+◌, ◌≤◌, ◌≡◌, inl, inr, refl, arith, List, [], ◌∷◌, none, some, ok, err, ltb, length, take,
  replicate, All, zero, suc, Bool-cases, if_true, if_false,
}
use libkmip.Errors.{locate_full_page}
use libkmip.Exchange.{Io}
use libkmip.Exchange.Safety.{Outcome, Anything}
use libkmip.Locate.{times, merge_page, merge_new_ids, located_total}
use libkmip.Locate.Merge.{before, merge_page_lem}
use libkmip.Locate.Turns.{
  Page, start_paging, paging_turn, judge_page, retry_turn, judge_retry, first_page_size,
}
use libkmip.Locate.Paging.{
  locate_all, paging_loop, after_paging, after_locate_all, op_all, retry_loop,
}
use libkmip.Locate.Found.{AreKnown}
use libkmip.Locate.Searches.{AreFound, op_all-Outcome}
use libkmip.Locate.Honest.{part, IsTotal}
use libkmip.Locate.Listing.{Returns, IsHonest}
use libkmip.Locate.Probing.{op_all-Returns}

abbrev objects : List (List ℕ)
objects = (b'1' ∷ []) ∷ (b'2' ∷ []) ∷ (b'3' ∷ []) ∷ []

-- The world counts the requests.
abbrev server : ℕ → ℕ → ℕ → Io ℕ Page
server offset page_size limit w =
    (ok (record { page_ids = part offset page_size objects; located_items = some 3 }), w + 1)

-- Any offset gets the first page.
abbrev stubborn : ℕ → ℕ → ℕ → Io ℕ Page
stubborn offset page_size limit w =
    (ok (record { page_ids = take page_size objects; located_items = none }), w + 1)

located_total-IsTotal : (n : ℕ) → IsTotal objects (located_total (some 3) n)
unfolding located_total
located_total-IsTotal n = elim (Bool-cases (ltb n 3)) [
  | inl more ↦ inr (if_true (ltb n 3) _ _ more)
  | inr all_here ↦ inl (if_false (ltb n 3) _ _ all_here)
]

server-IsHonest : IsHonest objects server
server-IsHonest offset page_size limit w =
    (_, _, refl, (refl, located_total-IsTotal (length (part offset page_size objects))))

each_once : (id : List ℕ) → times id objects ≤ 1
unfolding merge_page
each_once =
    (merge_page_lem 10 objects (before [] [])
      (record { same_set = λ id. refl; once = λ id. omega arith }) (omega arith)).0.once

listed_two : op_all server 2 0 ≡ (ok ((b'1' ∷ []) ∷ (b'2' ∷ []) ∷ []), 1)
unfolding op_all locate_all paging_loop paging_turn judge_page after_paging merge_new_ids merge_page
    located_total after_locate_all start_paging
listed_two = refl

-- A short first page is the whole list.
listed_all : op_all stubborn 5 0 ≡ (ok objects, 1)
unfolding op_all locate_all paging_loop paging_turn judge_page after_paging merge_new_ids merge_page
    located_total after_locate_all start_paging retry_loop retry_turn judge_retry first_page_size
listed_all = refl

-- A server that returns the same identifier for any number asked.
abbrev echoing : ℕ → ℕ → ℕ → Io ℕ Page
echoing offset page_size limit w =
    (ok (record { page_ids = replicate page_size (b'1' ∷ []); located_items = none }), w + 1)

full_of_repetitions : (op_all echoing 9 0) ≡ (err (locate_full_page 9 1), 2)
unfolding op_all locate_all paging_loop paging_turn judge_page after_paging merge_new_ids merge_page
    located_total after_locate_all start_paging retry_loop retry_turn judge_retry first_page_size
full_of_repetitions = refl

op_all-Returns_example :
    Returns (λ (ids : List (List ℕ)). ids ≡ take 1000 objects) (op_all server 1000 0)
op_all-Returns_example =
    op_all-Returns objects server server-IsHonest each_once 1000 0 (omega arith)

abbrev OneByte : List ℕ → Type 0
OneByte id = length id ≡ 1

take-OneByte : (n : ℕ) (ids : List (List ℕ)) → All OneByte ids → All OneByte (take n ids)
take-OneByte zero ids a = tt
take-OneByte (suc n) [] a = tt
take-OneByte (suc n) (id ∷ ids) (p, a) = (p, take-OneByte n ids a)

stubborn-pages :
    (offset page_size limit : ℕ) (w : ℕ)
    → Outcome (AreKnown OneByte) Anything (stubborn offset page_size limit w)
stubborn-pages offset page_size limit w = take-OneByte page_size objects (refl, (refl, (refl, tt)))

op_all-Outcome_example : Outcome (AreFound OneByte 2) Anything (op_all stubborn 2 0)
op_all-Outcome_example = op_all-Outcome stubborn OneByte stubborn-pages 2 0 (omega arith)
