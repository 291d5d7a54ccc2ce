-- ===== src/Execution/Items/Pruned.antt =====
-- Which items the snapshot leaves: the pruning `DELETE` and the loop after it
-- (workorder/execution.go).
use sdano.Base.{
  ℕ, Bool, true, false, not, ◌&&◌, ◌≡◌, List, [], ◌∷◌, ◌==◌, All, All-mono, Option-cases, inl, inr,
  arith,
}
use sdano.Base.Table.{select_one}
use sdano.Base.Table.Laws.{All-update, All-insert, All-delete_sound}
use sdano.Store.{WorkExecutionItem}
use sdano.Queries.Worker.{
  contains, delete_execution_items_not_in, owns_item, merge_item, proposed_item,
}
use sdano.Execution.{ExecutionItemInput, item_params, item_ids}
use sdano.Execution.Items.{put, put_all, put_found, put_absent}

-- The row would be pruned.
abbrev pub stale : ℕ → List ℕ → WorkExecutionItem → Bool
stale e keep r = r.execution_id == e && not (contains keep r.id)

abbrev pub IsPruned : ℕ → List ℕ → List WorkExecutionItem → Type 0
IsPruned e keep = All (λ r. stale e keep r ≡ false)

-- Every item of the snapshot is kept.
item_ids-contains :
    (items : List ExecutionItemInput) → All (λ it. contains (item_ids items) it.id ≡ true) items
unfolding contains
item_ids-contains [] = tt
item_ids-contains (it ∷ items) = (
  ground arith,
  All-mono (λ i. contains (item_ids items) i.id ≡ true)
      (λ i. contains (item_ids (it ∷ items)) i.id ≡ true) items (λ i h. ground arith)
      (item_ids-contains items),
)

put-IsPruned :
    (e : ℕ) (keep : List ℕ) (it : ExecutionItemInput) (t : List WorkExecutionItem)
    → contains keep it.id ≡ true
    → IsPruned e keep t
    → IsPruned e keep (put e it t)
put-IsPruned e keep it t k h =
    elim (Option-cases (select_one (λ (r : WorkExecutionItem). r.id == it.id) t)) [
      | inr (r, found) ↦ rw (put_found e it t (ground arith)) (
          All-update (λ r. stale e keep r ≡ false) (owns_item (item_params e it))
            (merge_item (item_params e it)) t (λ r p _. p) h)
      | inl absent ↦ rw (put_absent e it t absent) (
          All-insert (λ r. stale e keep r ≡ false) (proposed_item (item_params e it)) t h
            (ground arith))
    ]

put_all-IsPruned :
    (e : ℕ) (keep : List ℕ) (items : List ExecutionItemInput) (t : List WorkExecutionItem)
    → All (λ it. contains keep it.id ≡ true) items
    → IsPruned e keep t
    → IsPruned e keep (put_all e items t)
unfolding put_all
put_all-IsPruned e keep [] t k h = h
put_all-IsPruned e keep (it ∷ items) t k h =
    put_all-IsPruned e keep items (put e it t) k.1 (put-IsPruned e keep it t k.0 h)

-- After the deletion and the loop, the execution has no item outside the snapshot.
pub snapshot-IsPruned :
    (e : ℕ) (items : List ExecutionItemInput) (t : List WorkExecutionItem)
    → IsPruned e
        (item_ids items)
        (put_all e items (delete_execution_items_not_in e (item_ids items) t))
unfolding delete_execution_items_not_in
snapshot-IsPruned e items t =
    put_all-IsPruned e (item_ids items) items _ (item_ids-contains items)
      (All-delete_sound (stale e (item_ids items)) t)
