-- ===== src/Execution/Items.antt =====
-- The loop of `UpsertExecution` that writes the items (workorder/execution.go).
pub mod Again
pub mod Pruned
use mathlib.Core.List.{append_assoc, append-nil}
use sdano.Base.{
  ℕ, Bool, true, false, not, ◌&&◌, ◌≡◌, refl, ◌≢◌, Option, none, some, List, [], ◌∷◌, ◌++◌, map,
  ◌==◌, if◌then◌else◌, is_some, coalesce, All, All-append, Result, ok, err, Bool-cases,
  Result-cases, Option-cases, subst, sym, ap, All-mono, false, ◌∙◌, ◌||◌, inl, inr, arith,
}
use sdano.Base.Table.{select_one, update, insert, matching}
use sdano.Base.Table.Laws.{
  All-insert, matching-some, matching-pos, some-update, some-insert, some-weaken,
}
use sdano.Store.{WorkExecutionItem}
use sdano.Queries.Worker.{
  upsert_work_execution_item, UpsertWorkExecutionItemParams, owns_item, merge_item, proposed_item,
}
use sdano.Execution.{
  Statement, UpsertError, upsert_item, ExecutionItemInput, item_params, write_item, write_items,
}

-- The table after an item is written, the conflict aside.
pub put : ℕ → ExecutionItemInput → List WorkExecutionItem → List WorkExecutionItem
put e it t = (upsert_work_execution_item (item_params e it) t).0

unfoldable pub put_all :
    ℕ → List ExecutionItemInput → List WorkExecutionItem → List WorkExecutionItem
unfolding put
put_all e [] t = t
put_all e (it ∷ items) t = put_all e items (put e it t)

-- What one item, and all of them in turn, do to a stored row.
abbrev touch_one : ℕ → ExecutionItemInput → WorkExecutionItem → WorkExecutionItem
touch_one e it r = if owns_item (item_params e it) r then merge_item (item_params e it) r else r

unfoldable pub touch : ℕ → List ExecutionItemInput → WorkExecutionItem → WorkExecutionItem
touch e [] r = r
touch e (it ∷ items) r = touch e items (touch_one e it r)

-- The execution has an item of this id.
unfoldable pub has : ℕ → ℕ → List WorkExecutionItem → Bool
has e k t = is_some (select_one (λ r. r.id == k && r.execution_id == e) t)

write_item-put :
    (fault : Statement → Bool) (e : ℕ) (it : ExecutionItemInput) (t t' : List WorkExecutionItem)
    → write_item fault e it t ≡ ok t'
    → t' ≡ put e it t
unfolding write_item put
write_item-put fault e it t t' h = ground arith

touch-append :
    (e : ℕ) (xs ys : List ExecutionItemInput) (r : WorkExecutionItem)
    → touch e (xs ++ ys) r ≡ touch e ys (touch e xs r)
unfolding touch
touch-append e [] ys r = refl
touch-append e (x ∷ xs) ys r = touch-append e xs ys (touch_one e x r)

touch_keeps :
    (e : ℕ) (xs : List ExecutionItemInput) (r : WorkExecutionItem)
    → ((touch e xs r).id ≡ r.id)
      × ((touch e xs r).execution_id ≡ r.execution_id)
      × ((touch e xs r).template_item_id ≡ r.template_item_id)
unfolding touch
touch_keeps e [] r = (refl, refl, refl)
touch_keeps e (x ∷ xs) r = ground (arith, touch_keeps e xs (touch_one e x r))

-- A row that the writes so far leave alone is left alone by them and the next, once that is made.
touch_one-settles :
    (e : ℕ) (xs : List ExecutionItemInput) (it : ExecutionItemInput) (r : WorkExecutionItem)
    → touch e xs r ≡ r
    → touch e (xs ++ it ∷ []) (touch_one e it r) ≡ touch_one e it r
unfolding touch
touch_one-settles e xs it r h =
    rw (touch-append e xs (it ∷ []) (touch_one e it r))
      (ground (arith, touch_keeps e xs (merge_item (item_params e it) r)))

proposed-settles :
    (e : ℕ) (xs : List ExecutionItemInput) (it : ExecutionItemInput)
    → touch e (xs ++ it ∷ []) (proposed_item (item_params e it)) ≡ proposed_item (item_params e it)
unfolding touch
proposed-settles e xs it =
    rw (touch-append e xs (it ∷ []) (proposed_item (item_params e it)))
      (ground (arith, touch_keeps e xs (proposed_item (item_params e it))))

-- Every row is as the writes leave it.
abbrev pub IsSettled : ℕ → List ExecutionItemInput → List WorkExecutionItem → Type 0
IsSettled e xs = All (λ r. touch e xs r ≡ r)

update-IsSettled :
    (e : ℕ) (xs : List ExecutionItemInput) (it : ExecutionItemInput) (t : List WorkExecutionItem)
    → IsSettled e xs t
    → IsSettled e
        (xs ++ it ∷ [])
        (update (owns_item (item_params e it)) (merge_item (item_params e it)) t)
unfolding update
update-IsSettled e xs it [] h = tt
update-IsSettled e xs it (r ∷ t) h =
    (touch_one-settles e xs it r h.0, update-IsSettled e xs it t h.1)

IsSettled-snoc :
    (e : ℕ) (xs : List ExecutionItemInput) (it : ExecutionItemInput) (t : List WorkExecutionItem)
    → select_one (λ (r : WorkExecutionItem). r.id == it.id) t ≡ none
    → IsSettled e xs t
    → IsSettled e (xs ++ it ∷ []) t
unfolding select_one
IsSettled-snoc e xs it [] n h = tt
IsSettled-snoc e xs it (r ∷ t) n h = (
  rw (touch-append e xs (it ∷ []) r, h.0) (unfold touch in ground arith),
  IsSettled-snoc e xs it t (ground arith) h.1,
)

pub put_found :
    (e : ℕ) (it : ExecutionItemInput) (t : List WorkExecutionItem)
    → is_some (select_one (λ (r : WorkExecutionItem). r.id == it.id) t) ≡ true
    → put e it t ≡ update (owns_item (item_params e it)) (merge_item (item_params e it)) t
unfolding put upsert_work_execution_item
put_found e it t h = ground arith

pub put_absent :
    (e : ℕ) (it : ExecutionItemInput) (t : List WorkExecutionItem)
    → select_one (λ (r : WorkExecutionItem). r.id == it.id) t ≡ none
    → put e it t ≡ insert (proposed_item (item_params e it)) t
unfolding put upsert_work_execution_item
put_absent e it t h = ground arith

put-IsSettled :
    (e : ℕ) (xs : List ExecutionItemInput) (it : ExecutionItemInput) (t : List WorkExecutionItem)
    → IsSettled e xs t
    → IsSettled e (xs ++ it ∷ []) (put e it t)
put-IsSettled e xs it t h =
    elim (Option-cases (select_one (λ (r : WorkExecutionItem). r.id == it.id) t)) [
      | inr (r, found) ↦ rw (put_found e it t (ground arith)) (update-IsSettled e xs it t h)
      | inl absent ↦ rw (put_absent e it t absent) (
          All-insert (λ r. touch e (xs ++ it ∷ []) r ≡ r) (proposed_item (item_params e it)) t
            (IsSettled-snoc e xs it t absent h) (proposed-settles e xs it))
    ]

put_all-IsSettled :
    (e : ℕ) (xs ys : List ExecutionItemInput) (t : List WorkExecutionItem)
    → IsSettled e xs t
    → IsSettled e (xs ++ ys) (put_all e ys t)
unfolding put_all
put_all-IsSettled e xs [] t h = rw (append-nil xs) h
put_all-IsSettled e xs (y ∷ ys) t h =
    subst (λ zs. IsSettled e zs (put_all e ys (put e y t))) (append_assoc xs (y ∷ []) ys)
      (put_all-IsSettled e (xs ++ y ∷ []) ys (put e y t) (put-IsSettled e xs y t h))

nothing-IsSettled : (e : ℕ) (t : List WorkExecutionItem) → IsSettled e [] t
unfolding touch
nothing-IsSettled e [] = tt
nothing-IsSettled e (r ∷ t) = (refl, nothing-IsSettled e t)

write_item-has :
    (fault : Statement → Bool) (e : ℕ) (it : ExecutionItemInput) (t t' : List WorkExecutionItem)
    → write_item fault e it t ≡ ok t'
    → has e it.id t' ≡ true
unfolding write_item upsert_work_execution_item has
write_item-has fault e it t t' h = ground (
  arith,
  matching-some (owns_item (item_params e it)) t,
  some-update (owns_item (item_params e it)) (owns_item (item_params e it))
      (merge_item (item_params e it)) t (λ r. refl),
  some-insert (owns_item (item_params e it)) (proposed_item (item_params e it)) t,
)

put-has :
    (e k : ℕ) (it : ExecutionItemInput) (t : List WorkExecutionItem)
    → has e k t ≡ true
    → has e k (put e it t) ≡ true
unfolding put upsert_work_execution_item has
put-has e k it t h = ground (
  arith,
  some-update (λ r. r.id == k && r.execution_id == e) (owns_item (item_params e it))
      (merge_item (item_params e it)) t (λ r. refl),
  some-insert (λ r. r.id == k && r.execution_id == e) (proposed_item (item_params e it)) t,
)

put_all-has :
    (e k : ℕ) (items : List ExecutionItemInput) (t : List WorkExecutionItem)
    → has e k t ≡ true
    → has e k (put_all e items t) ≡ true
unfolding put_all
put_all-has e k [] t h = h
put_all-has e k (it ∷ items) t h = put_all-has e k items (put e it t) (put-has e k it t h)

-- A loop that succeeds has written every item, in order.
pub write_items-put_all :
    (fault : Statement → Bool) (e : ℕ) (items : List ExecutionItemInput)
    (t t' : List WorkExecutionItem)
    → write_items fault e items t ≡ ok t'
    → (t' ≡ put_all e items t) × All (λ it. has e it.id t' ≡ true) items
unfolding write_items put_all
write_items-put_all fault e [] t t' h = (ground arith, tt)
write_items-put_all fault e (it ∷ items) t t' h = elim (Result-cases (write_item fault e it t)) [
  | inr (x, f) ↦ absurd (ground arith)
  | inl (u, w) ↦
      let (same, there) = write_items-put_all fault e items u t' (ground arith) in
      let first : u ≡ put e it t = write_item-put fault e it t u w in
      (
        same ∙ ap (put_all e items) first,
        (rw same (put_all-has e it.id items u (write_item-has fault e it t u w)), there),
      )
]
