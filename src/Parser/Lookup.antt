-- ===== src/Parser/Lookup.antt =====
-- The maps of a parser that is made for a request, and the search for an item.
use libkmip.Base.{
  ==_ne, ==_eq, ℕ, zero, suc, ◌+◌, ◌<◌, ◌≡◌, ◌≢◌, refl, ap, ◌∙◌, arith, true, false, List, [], ◌∷◌,
  none, some, ◌==◌, get_elem?, All,
}
use libkmip.Protocol.Item.{RequestBatchItem, ResponseBatchItem}
use libkmip.Protocol.Numbering.{numbered}
use libkmip.Parser.{ResponseParser, lookup, add_hint, add_hints, find_echoed}

-- No item of a request that comes later has the identifier: its entries stay.
pub lookup-add_hints_absent :
    (items : List RequestBatchItem) (pos id : ℕ) (p : ResponseParser)
    → All (λ (item : RequestBatchItem). item.unique_batch_item_id ≢ id) items
    → (lookup id (add_hints items pos p).operation_hints ≡ lookup id p.operation_hints)
      × (lookup id (add_hints items pos p).batch_item_positions ≡ lookup id p.batch_item_positions)
unfolding add_hints
lookup-add_hints_absent [] pos id p w = (refl, refl)
lookup-add_hints_absent (item ∷ items) pos id p (w, ws) =
    let other : (item.unique_batch_item_id == id) ≡ false = ==_ne _ _ w in
    let rest = lookup-add_hints_absent items (pos + 1) id (add_hint item pos p) ws in
    (rw (rest.0, other), rw (rest.1, other))

-- Numbered items have other identifiers than those below.
pub numbered_above :
    (items : List RequestBatchItem) (start id : ℕ)
    → id < start
    → All (λ (item : RequestBatchItem). item.unique_batch_item_id ≢ id) (numbered start items)
unfolding numbered
numbered_above [] start id h = tt
numbered_above (item ∷ items) start id h =
    ((λ same. omega arith), numbered_above items (start + 1) id (omega arith))

-- A request whose items are numbered from `start` on: each identifier is mapped to the operation
-- and to the place of its item.
pub lookup-add_hints :
    (items : List RequestBatchItem) (start pos i : ℕ) (item : RequestBatchItem) (p : ResponseParser)
    → get_elem? items i ≡ some item
    → (lookup (start + i) (add_hints (numbered start items) pos p).operation_hints
        ≡ some item.operation)
      × (lookup (start + i) (add_hints (numbered start items) pos p).batch_item_positions
          ≡ some (pos + i))
unfolding add_hints numbered
lookup-add_hints [] start pos i item p h = cc
lookup-add_hints (first ∷ items) start pos zero item p h =
    let kept =
      lookup-add_hints_absent (numbered (start + 1) items) (pos + 1) (start + 0)
        (add_hint (record first { unique_batch_item_id = start }) pos p)
        (numbered_above items (start + 1) (start + 0) (omega arith)) in
    let is : first ≡ item = cc h in
    let here : (start == start + 0) ≡ true = ==_eq start (start + 0) (omega arith) in
    let place : pos ≡ pos + 0 = omega arith in
    (
      rw (kept.0, here) (ap (λ (x : RequestBatchItem). some x.operation) is),
      rw (kept.1, here) (ap (λ (n : ℕ). some n) place),
    )
lookup-add_hints (first ∷ items) start pos (suc i) item p h =
    let rest =
      lookup-add_hints items (start + 1) (pos + 1) i item
        (add_hint (record first { unique_batch_item_id = start }) pos p) h in
    let sum : start + suc i ≡ (start + 1) + i = omega arith in
    let place : pos + 1 + i ≡ pos + suc i = omega arith in
    (rw sum rest.0, rw sum (rest.1 ∙ ap (λ (n : ℕ). some n) place))

-- An item that no earlier item shares its identifier with is found by it.
pub find_echoed_first :
    (items : List ResponseBatchItem) (id i : ℕ) (item : ResponseBatchItem)
    → get_elem? items i ≡ some item
    → item.unique_batch_item_id ≡ id
    → ((j : ℕ) (other : ResponseBatchItem)
        → get_elem? items j ≡ some other
        → other.unique_batch_item_id ≡ id
        → j ≡ i)
    → find_echoed id items ≡ some item
unfolding find_echoed
find_echoed_first [] id i item h same alone = cc
find_echoed_first (first ∷ items) id zero item h same alone =
    let is : first ≡ item = cc h in
    let echo : (first.unique_batch_item_id == id) ≡ true =
      ==_eq _ _ (ap (λ (x : ResponseBatchItem). x.unique_batch_item_id) is ∙ same) in
    rw echo (ap (λ (x : ResponseBatchItem). some x) is)
find_echoed_first (first ∷ items) id (suc i) item h same alone =
    let other : first.unique_batch_item_id ≢ id = λ e. omega (arith, alone 0 first refl e) in
    rw (==_ne first.unique_batch_item_id id other) (
      find_echoed_first items id i item h same
        (λ j second at e. omega (arith, alone (suc j) second at e)))

pub find_echoed-none :
    (items : List ResponseBatchItem) (id : ℕ)
    → All (λ (item : ResponseBatchItem). item.unique_batch_item_id ≢ id) items
    → find_echoed id items ≡ none
unfolding find_echoed
find_echoed-none [] id w = refl
find_echoed-none (item ∷ items) id (w, ws) =
    rw (==_ne item.unique_batch_item_id id w, find_echoed-none items id ws)
