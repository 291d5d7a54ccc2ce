-- ===== src/Execution/Isolation.antt =====
-- Whose rows a call cannot touch (`UpsertExecution` of workorder/execution.go).
use sdano.Base.{
  ℕ, Bool, false, ◌&&◌, ◌≡◌, refl, ◌⊎◌, ◌≢◌, inl, inr, Option, none, some, List, [], ◌∷◌, ◌==◌,
  Option-cases, Result-cases, arith,
}
use sdano.Base.Table.{select_one, update}
use sdano.Base.Table.Laws.{row-delete, row-update, row-insert}
use sdano.Base.Table.Keys.{Unique, select_one-Unique, update-Unique}
use sdano.Store.{Store, WorkExecution, WorkExecutionItem, WorkOrder}
use sdano.Queries.Worker.{
  owns_execution, merge_execution, owns_item, merge_item, proposed_item, set_work_order_status,
  delete_execution_items_not_in, get_execution, upsert_work_execution,
}
use sdano.Execution.{
  Statement, ExecutionItemInput, ExecutionInput, Caller, item_params, item_ids, execution_params,
  order_status, upsert_tx, upsert_execution,
}
use sdano.Execution.Committed.{upsert_tx-Committed, upsert_execution-ok, upsert_execution-err}
use sdano.Execution.Items.{put, put_all, put_found, put_absent, write_items-put_all}
use sdano.Execution.Items.Pruned.{stale}
use sdano.Execution.Completion.{execution_row, row-upsert}

abbrev pub item_row : ℕ → Store → Option WorkExecutionItem
item_row k db = select_one (λ r. r.id == k) db.execution_items

abbrev pub order_row : ℕ → Store → Option WorkOrder
order_row k db = select_one (λ r. r.id == k) db.work_orders

put_other :
    (e k : ℕ) (it : ExecutionItemInput) (t : List WorkExecutionItem) (r : WorkExecutionItem)
    → select_one (λ (x : WorkExecutionItem). x.id == k) t ≡ some r
    → (r.execution_id == e) ≡ false
    → select_one (λ (x : WorkExecutionItem). x.id == k) (put e it t) ≡ some r
put_other e k it t r h f =
    elim (Option-cases (select_one (λ (x : WorkExecutionItem). x.id == it.id) t)) [
      | inr (s, found) ↦ rw (put_found e it t (ground arith)) (
          row-update (λ x. x.id == k) (owns_item (item_params e it)) (merge_item (item_params e it))
            t r (λ x. refl) h (ground arith))
      | inl absent ↦
          rw (put_absent e it t absent)
            (row-insert (λ x. x.id == k) (proposed_item (item_params e it)) t r h)
    ]

put_all_other :
    (e k : ℕ) (items : List ExecutionItemInput) (t : List WorkExecutionItem) (r : WorkExecutionItem)
    → select_one (λ (x : WorkExecutionItem). x.id == k) t ≡ some r
    → (r.execution_id == e) ≡ false
    → select_one (λ (x : WorkExecutionItem). x.id == k) (put_all e items t) ≡ some r
unfolding put_all
put_all_other e k [] t r h f = h
put_all_other e k (it ∷ items) t r h f =
    put_all_other e k items (put e it t) r (put_other e k it t r h f) f

module _ (fault : Statement → Bool) (now : ℕ) (c : Caller) (in' : ExecutionInput) (db : Store)
    (k : ℕ) where
  abbrev after : Store
  after = (upsert_execution fault now c in' db).0

  -- Whether or not the call succeeds, an item of another execution stays as it is.
  other_item_untouched :
      (r : WorkExecutionItem)
      → item_row k db ≡ some r
      → r.execution_id ≢ c.execution_id
      → item_row k (upsert_execution fault now c in' db).0 ≡ some r
  unfolding delete_execution_items_not_in
  other_item_untouched r h other = elim (Result-cases (upsert_tx fault now c in' db)) [
    | inr (e, f) ↦ rw (upsert_execution-err fault now c in' db e f) h
    | inl (db', g) ↦
        let m = upsert_tx-Committed fault now c in' db db' g in
        let differs : (r.execution_id == c.execution_id) ≡ false = ground arith in
        rw
          (
            upsert_execution-ok fault now c in' db db' g,
            (write_items-put_all _ _ _ _ _ m.written).0,
          )
          (put_all_other c.execution_id k in'.items _ r
            (row-delete (λ x. x.id == k) (stale c.execution_id (item_ids in'.items))
              db.execution_items r h (ground arith))
            differs)
  ]

  -- Whether or not the call succeeds, an execution under another id, of another tenant or of
  -- another worker stays as it is.
  other_execution_untouched :
      (r : WorkExecution)
      → execution_row k db ≡ some r
      → (r.id ≢ c.execution_id) ⊎ (r.tenant_id ≢ c.tenant_id) ⊎ (r.worker_id ≢ c.worker_id)
      → execution_row k (upsert_execution fault now c in' db).0 ≡ some r
  other_execution_untouched r h other = elim (Result-cases (upsert_tx fault now c in' db)) [
    | inr (e, f) ↦ rw (upsert_execution-err fault now c in' db e f) h
    | inl (db', g) ↦
        let m = upsert_tx-Committed fault now c in' db db' g in
        let foreign : owns_execution (execution_params c in') r ≡ false = ground arith in
        rw (upsert_execution-ok fault now c in' db db' g, m.executions)
          (ground (arith, row-upsert now (execution_params c in') db.executions k r h, foreign))
  ]

  -- Whether or not the call succeeds, an order under another id or of another tenant stays as it
  -- is.
  other_order_untouched :
      (r : WorkOrder)
      → order_row k db ≡ some r
      → (r.id ≢ in'.work_order_id) ⊎ (r.tenant_id ≢ c.tenant_id)
      → order_row k (upsert_execution fault now c in' db).0 ≡ some r
  unfolding set_work_order_status
  other_order_untouched r h other = elim (Result-cases (upsert_tx fault now c in' db)) [
    | inr (e, f) ↦ rw (upsert_execution-err fault now c in' db e f) h
    | inl (db', g) ↦
        let m = upsert_tx-Committed fault now c in' db db' g in
        let foreign : (r.id == in'.work_order_id && r.tenant_id == c.tenant_id) ≡ false =
          ground arith in
        rw (upsert_execution-ok fault now c in' db db' g, m.orders)
          (row-update (λ x. x.id == k)
            (λ x. x.id == in'.work_order_id && x.tenant_id == c.tenant_id)
            (λ x. record x { status = order_status m.owner }) db.work_orders r (λ x. refl) h
            foreign)
  ]

-- Whether or not the call succeeds, what is not its own stays as it is: an item of another
-- execution; an execution under another id, of another tenant or of another worker; and an order
-- under another id or of another tenant.
pub others_untouched :
    (fault : Statement → Bool) (now : ℕ) (c : Caller) (in' : ExecutionInput) (db : Store)
    (i : WorkExecutionItem) (e : WorkExecution) (r : WorkOrder)
    → item_row i.id db ≡ some i
    → execution_row e.id db ≡ some e
    → order_row r.id db ≡ some r
    → i.execution_id ≢ c.execution_id
    → (e.id ≢ c.execution_id) ⊎ (e.tenant_id ≢ c.tenant_id) ⊎ (e.worker_id ≢ c.worker_id)
    → (r.id ≢ in'.work_order_id) ⊎ (r.tenant_id ≢ c.tenant_id)
    → let then' = (upsert_execution fault now c in' db).0 in
      (item_row i.id then' ≡ some i)
      × ((execution_row e.id then' ≡ some e) × (order_row r.id then' ≡ some r))
others_untouched fault now c in' db i e r item execution order other_item other_execution
      other_order =
    (
      other_item_untouched fault now c in' db i.id i item other_item,
      (
        other_execution_untouched fault now c in' db e.id e execution other_execution,
        other_order_untouched fault now c in' db r.id r order other_order,
      ),
    )

-- An execution id that belongs to another tenant or worker is refused, and the database is left as
-- it is, where execution ids are unique.
pub foreign_execution_refused :
    (fault : Statement → Bool) (now : ℕ) (c : Caller) (in' : ExecutionInput) (db : Store)
    (r : WorkExecution)
    → Unique (λ x. x.id) db.executions
    → execution_row c.execution_id db ≡ some r
    → (r.tenant_id ≢ c.tenant_id) ⊎ (r.worker_id ≢ c.worker_id)
    → (upsert_execution fault now c in' db).0 ≡ db × (upsert_execution fault now c in' db).1 ≢ none
unfolding get_execution upsert_work_execution
foreign_execution_refused fault now c in' db r u h other =
    elim (Result-cases (upsert_tx fault now c in' db)) [
      | inr (e, f) ↦ rw (upsert_execution-err fault now c in' db e f) (refl, λ p. cc)
      | inl (db', g) ↦
          let m = upsert_tx-Committed fault now c in' db db' g in
          let same =
            row-update (λ x. x.id == c.execution_id) (owns_execution (execution_params c in'))
              (merge_execution now (execution_params c in')) db.executions r (λ x. refl) h
              (ground arith) in
          absurd (
            ground (
              arith,
              m.executions,
              m.owned,
              m.worker,
              select_one-Unique (λ x. x.id) (λ x. x.tenant_id == c.tenant_id) c.execution_id
                  (update (owns_execution (execution_params c in'))
                    (merge_execution now (execution_params c in')) db.executions)
                  r
                  (update-Unique (λ x. x.id) (owns_execution (execution_params c in'))
                    (merge_execution now (execution_params c in')) db.executions (λ x. refl) u)
                  same,
            ))
    ]
