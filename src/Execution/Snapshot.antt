-- ===== src/Execution/Snapshot.antt =====
-- What a committed snapshot stores, and what it leaves alone (`UpsertExecution` of
-- workorder/execution.go).
use mathlib.Core.Option
use sdano.Base.{
  ℕ, Bool, true, false, ◌&&◌, ◌≡◌, refl, ap, inl, inr, Option, none, some, List, [], ◌∷◌, ◌==◌,
  if◌then◌else◌, coalesce, All, Option-cases, Bool-cases, subst, arith,
}
use sdano.Base.Table.{select_one}
use sdano.Base.Table.Laws.{All-select_one, select_one_fits}
use sdano.Store.{Store, WorkExecutionItem}
use sdano.Queries.Worker.{contains, merge_item, delete_execution_items_not_in}
use sdano.Execution.{
  Statement, ExecutionItemInput, ExecutionInput, Caller, item_params, item_ids, upsert_execution,
}
use sdano.Execution.Committed.{Committed, upsert_tx-Committed, upsert_execution-commits}
use sdano.Execution.Items.{touch, has, put_all, write_items-put_all}
use sdano.Execution.Items.Pruned.{IsPruned, snapshot-IsPruned}
use sdano.Execution.Items.Again.{write_items-IsSettled}

-- The last item of the snapshot with this id.
abbrev pub last_write : ℕ → List ExecutionItemInput → Option ExecutionItemInput
last_write k [] = none
last_write k (it ∷ items) = coalesce (last_write k items) (if it.id == k then some it else none)

-- The check marks that the execution `e` has stored for the item `k`.
abbrev pub stored_marks : ℕ → ℕ → List WorkExecutionItem → Option (Bool × Option ℕ)
stored_marks e k t =
    Option.map (λ r. (r.checked, r.checked_at))
      (select_one (λ r. r.id == k && r.execution_id == e) t)

abbrev pub marks_of : Option ExecutionItemInput → Option (Bool × Option ℕ)
marks_of = Option.map (λ it. (it.checked, it.checked_at))

touch_other :
    (e k : ℕ) (items : List ExecutionItemInput) (r : WorkExecutionItem)
    → last_write k items ≡ none
    → r.id ≡ k
    → touch e items r ≡ r
unfolding touch
touch_other e k [] r h i = refl
touch_other e k (y ∷ items) r h i = ground (arith, touch_other e k items r)

touch_last :
    (e k : ℕ) (items : List ExecutionItemInput) (it : ExecutionItemInput) (r : WorkExecutionItem)
    → last_write k items ≡ some it
    → r.id ≡ k
    → r.execution_id ≡ e
    → ((touch e items r).checked ≡ it.checked) × ((touch e items r).checked_at ≡ it.checked_at)
unfolding touch
touch_last e k [] it r h i x = absurd (cc)
touch_last e k (y ∷ items) it r h i x = elim (Option-cases (last_write k items)) [
  | inl n ↦ ground (arith, touch_other e k items (merge_item (item_params e y) r))
  | inr (z, l) ↦
      ground
        (arith, touch_last e k items it r, touch_last e k items it (merge_item (item_params e y) r))
]

last_write-has :
    (e k : ℕ) (items : List ExecutionItemInput) (it : ExecutionItemInput)
    (t : List WorkExecutionItem)
    → last_write k items ≡ some it
    → All (λ i. has e i.id t ≡ true) items
    → has e k t ≡ true
unfolding has
last_write-has e k [] it t h a = absurd (cc)
last_write-has e k (y ∷ items) it t h a = elim (Option-cases (last_write k items)) [
  | inl n ↦ let same : y.id ≡ k = ground arith in subst (λ j. has e j t ≡ true) same a.0
  | inr (z, l) ↦ last_write-has e k items z t l a.1
]

last_write-contains :
    (k : ℕ) (items : List ExecutionItemInput)
    → last_write k items ≡ none
    → contains (item_ids items) k ≡ false
unfolding contains
last_write-contains k [] h = refl
last_write-contains k (y ∷ items) h = ground (arith, last_write-contains k items)

select_one-IsPruned :
    (e k : ℕ) (keep : List ℕ) (t : List WorkExecutionItem)
    → IsPruned e keep t
    → contains keep k ≡ false
    → select_one (λ (r : WorkExecutionItem). r.id == k && r.execution_id == e) t ≡ none
unfolding select_one
select_one-IsPruned e k keep [] h c = refl
select_one-IsPruned e k keep (r ∷ t) h c = elim (Bool-cases (r.id == k)) [
  | inr n ↦ ground (arith, select_one-IsPruned e k keep t h.1 c)
  | inl y ↦
      let same : r.id ≡ k = ground arith in
      ground (arith, select_one-IsPruned e k keep t h.1 c, ap (contains keep) same)
]

-- A committed snapshot is what is stored: for every item id, the execution stores the marks of the
-- last item of the snapshot with that id, and stores nothing under an id that the snapshot lacks.
pub committed_items :
    (fault : Statement → Bool) (now : ℕ) (c : Caller) (in' : ExecutionInput) (db : Store) (k : ℕ)
    → (upsert_execution fault now c in' db).1 ≡ none
    → stored_marks c.execution_id k (upsert_execution fault now c in' db).0.execution_items
      ≡ marks_of (last_write k in'.items)
unfolding has
committed_items fault now c in' db k h = elim (Option-cases (last_write k in'.items)) [
  | inl n ↦ ground (
    arith,
    select_one-IsPruned c.execution_id k (item_ids in'.items) after pruned
        (last_write-contains k in'.items n),
  )
  | inr (it, l) ↦ elim (Option-cases (select_one found_by after)) [
    | inl missing ↦
        absurd (ground (arith, last_write-has c.execution_id k in'.items it after l written.1))
    | inr (r, e) ↦ ground (
      arith,
      select_one_fits found_by after {r = r},
      All-select_one (λ x. touch c.execution_id in'.items x ≡ x) found_by after
          (write_items-IsSettled _ _ _ _ _ m.written) e,
      touch_last c.execution_id k in'.items it r,
    )
  ]
]
  where
    after : List WorkExecutionItem
    after = (upsert_execution fault now c in' db).0.execution_items

    m : Committed fault now c in' db (upsert_execution fault now c in' db).0
    m = upsert_tx-Committed fault now c in' db _ (upsert_execution-commits fault now c in' db h)

    written :
        (after
          ≡ put_all c.execution_id in'.items (
              delete_execution_items_not_in c.execution_id (item_ids in'.items) db.execution_items))
        × All (λ i. has c.execution_id i.id after ≡ true) in'.items
    written = write_items-put_all _ _ _ _ _ m.written

    pruned : IsPruned c.execution_id (item_ids in'.items) after
    pruned = rw written.0 (snapshot-IsPruned c.execution_id in'.items db.execution_items)

    found_by : WorkExecutionItem → Bool
    found_by r = r.id == k && r.execution_id == c.execution_id
