-- ===== src/Protocol/Numbering.antt =====
-- How the items of a request are numbered, and the limit on the size of the response.
use libkmip.Base.{
  ℕ, suc, ◌+◌, ◌%◌, ◌^◌, ◌<◌, ◌≡◌, sym, ap₂, arith, List, [], ◌∷◌, ◌++◌, append_assoc, append-nil,
  ok, err, ◌>>=◌, ltb, if◌then◌else◌, length,
}
use libkmip.Errors.{max_response_size_too_large}
use libkmip.Protocol.Item.{RequestBatchItem}
use libkmip.Protocol.Request.{
  RequestMessage, add_batch_item, add_batch_items, clear_batch_items, set_batch_items,
  set_max_response_size, get_max_response_size,
}

-- The items with the identifiers `id`, `id + 1` and so on.
unfoldable pub numbered : ℕ → List RequestBatchItem → List RequestBatchItem
numbered id [] = []
numbered id (item ∷ items) = record item { unique_batch_item_id = id } ∷ numbered (id + 1) items

add_batch_items_lem :
    (items : List RequestBatchItem) (m : RequestMessage)
    → m.next_batch_item_id + length items < 2 ^ 32
    → add_batch_items items m ≡ record m {
      batch_items = m.batch_items ++ numbered m.next_batch_item_id items;
      next_batch_item_id = m.next_batch_item_id + length items;
    }
unfolding add_batch_items numbered add_batch_item
add_batch_items_lem [] m h =
    let kept : m.batch_items ++ [] ≡ m.batch_items = append-nil m.batch_items in
    let next : m.next_batch_item_id + 0 ≡ m.next_batch_item_id = omega arith in
    ap₂
      (λ (items : List RequestBatchItem) (id : ℕ).
        let numbered_message : RequestMessage = record m {
          batch_items = items;
          next_batch_item_id = id;
        } in
        numbered_message)
      (sym kept) (sym next)
add_batch_items_lem (item ∷ items) m h =
    let id = m.next_batch_item_id in
    let fits : (id + 1) % 2 ^ 32 ≡ id + 1 = omega arith in
    let sum : (id + 1) + length items ≡ id + suc (length items) = omega arith in
    let one : List RequestBatchItem = record item { unique_batch_item_id = id } ∷ [] in
    let rest =
      add_batch_items_lem items
        (record m { batch_items = m.batch_items ++ one; next_batch_item_id = id + 1 })
        (omega arith) in
    rw (fits, rest, append_assoc m.batch_items one (numbered (id + 1) items), sum)

-- `setBatchItems` of fewer than 2^32 - 1 items gives them the identifiers from 1 on, in their order
-- and with nothing else changed, and forgets the items from before.
pub set_batch_items_numbers :
    (items : List RequestBatchItem) (m : RequestMessage)
    → 1 + length items < 2 ^ 32
    → set_batch_items items m
      ≡ record m { batch_items = numbered 1 items; next_batch_item_id = 1 + length items }
unfolding set_batch_items clear_batch_items
set_batch_items_numbers items m h = add_batch_items_lem items (clear_batch_items m) h

-- A size is stored exactly when it fits an int32_t, and is what `getMaxResponseSize` then returns;
-- any other size throws.
pub get-set_max_response_size :
    (size : ℕ) (m : RequestMessage)
    → (set_max_response_size size m >>= λ sized. ok (get_max_response_size sized))
      ≡ (if ltb size (2 ^ 31) then ok size else err max_response_size_too_large)
unfolding set_max_response_size get_max_response_size
get-set_max_response_size size m = ground arith
