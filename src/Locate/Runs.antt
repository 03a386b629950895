-- ===== src/Locate/Runs.antt =====
-- Pages that repeat identifiers.
use libkmip.Base.{ℕ, ◌+◌, ◌≤◌, ◌<◌, ◌≡◌, refl, arith, List, [], ◌∷◌, length}
use libkmip.Locate.{times, merge_page, merge_new_ids}
use libkmip.Locate.Merge.{IsSearch, before, merge_new_ids_lem, merge_new_ids_whole}

abbrev page : List (List ℕ)
page = (b'1' ∷ []) ∷ (b'2' ∷ []) ∷ (b'1' ∷ []) ∷ []

nothing-IsSearch : IsSearch (before [] [])
nothing-IsSearch = record { same_set = λ id. refl; once = λ id. omega arith }

repeated_once : (merge_new_ids [] [] page 10).ids ≡ (b'1' ∷ []) ∷ (b'2' ∷ []) ∷ []
unfolding merge_new_ids merge_page
repeated_once = refl

merge_new_ids_lem_example :
    (length (merge_new_ids [] [] page 1).ids ≤ 1)
    × (times (b'1' ∷ []) (merge_new_ids [] [] page 1).ids ≤ 1)
    × (0 ≤ times (b'1' ∷ []) (merge_new_ids [] [] page 1).ids)
    × (times (b'1' ∷ []) (merge_new_ids [] [] page 1).ids ≤ 0 + 2)
merge_new_ids_lem_example =
    merge_new_ids_lem [] [] page 1 (b'1' ∷ []) nothing-IsSearch (omega arith)

two_found : length (merge_new_ids [] [] page 10).ids < 10
unfolding merge_new_ids merge_page
two_found = omega arith

merge_new_ids_whole_example : 0 < times (b'2' ∷ []) (merge_new_ids [] [] page 10).ids
merge_new_ids_whole_example =
    merge_new_ids_whole [] [] page 10 (b'2' ∷ []) nothing-IsSearch two_found (omega arith)
      (omega arith)
