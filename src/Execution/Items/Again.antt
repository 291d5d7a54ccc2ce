-- ===== src/Execution/Items/Again.antt =====
-- Writing the items of a snapshot again (the same loop of workorder/execution.go).
use sdano.Base.{
  ℕ, Bool, true, false, ◌≡◌, refl, List, [], ◌∷◌, map, ◌==◌, All, ok, sym, ap, All-mono, false, ◌∙◌,
  arith,
}
use sdano.Base.Table.{update}
use sdano.Base.Table.Laws.{matching-pos, some-weaken}
use sdano.Store.{WorkExecutionItem}
use sdano.Queries.Worker.{upsert_work_execution_item, owns_item, merge_item}
use sdano.Execution.{
  Statement, upsert_item, ExecutionItemInput, item_params, write_item, write_items,
}
use sdano.Execution.Items.{
  put, put_all, touch_one, touch, has, put_found, put-has, IsSettled, put_all-IsSettled,
  nothing-IsSettled, write_items-put_all,
}

update-map :
    (e : ℕ) (it : ExecutionItemInput) (t : List WorkExecutionItem)
    → update (owns_item (item_params e it)) (merge_item (item_params e it)) t
      ≡ map (touch_one e it) t
unfolding update
update-map e it [] = refl
update-map e it (r ∷ t) = rw (update-map e it t)

-- Where every item is present, writing is an update of each row.
put-map :
    (e : ℕ) (it : ExecutionItemInput) (t : List WorkExecutionItem)
    → has e it.id t ≡ true
    → put e it t ≡ map (touch_one e it) t
unfolding has
put-map e it t h =
    put_found e it t
      (some-weaken (owns_item (item_params e it)) (λ r. r.id == it.id) t (λ r p. ground arith) h)
    ∙ update-map e it t

map-touch_one :
    (e : ℕ) (it : ExecutionItemInput) (items : List ExecutionItemInput) (t : List WorkExecutionItem)
    → map (touch e items) (map (touch_one e it) t) ≡ map (touch e (it ∷ items)) t
unfolding touch
map-touch_one e it items [] = refl
map-touch_one e it items (r ∷ t) = rw (map-touch_one e it items t)

IsSettled-map :
    (e : ℕ) (items : List ExecutionItemInput) (t : List WorkExecutionItem)
    → IsSettled e items t
    → map (touch e items) t ≡ t
IsSettled-map e items [] h = refl
IsSettled-map e items (r ∷ t) h = rw (h.0, IsSettled-map e items t h.1)

put_all-map :
    (e : ℕ) (items : List ExecutionItemInput) (t : List WorkExecutionItem)
    → All (λ it. has e it.id t ≡ true) items
    → put_all e items t ≡ map (touch e items) t
unfolding put_all
put_all-map e [] t h = sym (IsSettled-map e [] t (nothing-IsSettled e t))
put_all-map e (it ∷ items) t h =
    put_all-map e items (put e it t) (
      All-mono (λ i. has e i.id t ≡ true) (λ i. has e i.id (put e it t) ≡ true) items
        (λ i. put-has e i.id it t) h.1)
    ∙ ap (map (touch e items)) (put-map e it t h.0)
    ∙ map-touch_one e it items t

-- Writing the items again changes nothing.
pub put_all-settled :
    (e : ℕ) (items : List ExecutionItemInput) (t : List WorkExecutionItem)
    → All (λ it. has e it.id t ≡ true) items
    → IsSettled e items t
    → put_all e items t ≡ t
put_all-settled e items t h s = put_all-map e items t h ∙ IsSettled-map e items t s

-- What the loop leaves is settled.
pub write_items-IsSettled :
    (fault : Statement → Bool) (e : ℕ) (items : List ExecutionItemInput)
    (t t' : List WorkExecutionItem)
    → write_items fault e items t ≡ ok t'
    → IsSettled e items t'
write_items-IsSettled fault e items t t' h =
    rw ((write_items-put_all fault e items t t' h).0)
      (put_all-IsSettled e [] items t (nothing-IsSettled e t))

write_item-present :
    (fault : Statement → Bool) (e : ℕ) (it : ExecutionItemInput) (t : List WorkExecutionItem)
    → fault (upsert_item it.id) ≡ false
    → has e it.id t ≡ true
    → write_item fault e it t ≡ ok (put e it t)
unfolding write_item upsert_work_execution_item put has
write_item-present fault e it t f h = ground (
  arith,
  matching-pos (owns_item (item_params e it)) t,
  some-weaken (owns_item (item_params e it)) (λ r. r.id == it.id) t (λ r p. ground arith) h,
)

-- Present items are written without a conflict.
pub write_items-present :
    (fault : Statement → Bool) (e : ℕ) (items : List ExecutionItemInput)
    (t : List WorkExecutionItem)
    → ((s : Statement) → fault s ≡ false)
    → All (λ it. has e it.id t ≡ true) items
    → write_items fault e items t ≡ ok (put_all e items t)
unfolding write_items put_all
write_items-present fault e [] t f h = refl
write_items-present fault e (it ∷ items) t f h =
    rw (write_item-present fault e it t (f (upsert_item it.id)) h.0) (
      write_items-present fault e items (put e it t) f (
        All-mono (λ i. has e i.id t ≡ true) (λ i. has e i.id (put e it t) ≡ true) items
          (λ i. put-has e i.id it t) h.1))
