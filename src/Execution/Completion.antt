-- ===== src/Execution/Completion.antt =====
-- "Completion is evidence": a recorded completion is permanent, and it alone decides the order's
-- status (`UpsertExecution` of workorder/execution.go with `UpsertWorkExecution` of worker.sql.go).
use sdano.Base.{
  ℕ, Bool, true, ◌≡◌, refl, ◌⊎◌, inl, inr, Option, none, some, List, [], ◌∷◌, ◌==◌, if◌then◌else◌,
  is_some, coalesce, Result-cases, arith,
}
use sdano.Base.Table.{select_one}
use sdano.Base.Table.Laws.{select_one-update, select_one-append, some_of_fits}
use sdano.Store.{Store, WorkExecution, WorkOrder, in_progress, done}
use sdano.Queries.Worker.{
  UpsertWorkExecutionParams, owns_execution, merge_execution, proposed_execution,
  upsert_work_execution, get_execution, get_work_order_for_worker,
}
use sdano.Execution.{
  Statement, ExecutionInput, Caller, execution_params, order_status, upsert_tx, upsert_execution,
}
use sdano.Execution.Committed.{
  upsert_tx-Committed, upsert_execution-ok, upsert_execution-err, upsert_execution-commits,
}
use sdano.Execution.Replay.{get_work_order-set_status}

-- The execution stored under an id.
abbrev pub execution_row : ℕ → Store → Option WorkExecution
execution_row k db = select_one (λ r. r.id == k) db.executions

-- A row of the same worker and order, with every completion time that was recorded.
pub record Keeps (old new' : WorkExecution) : Type 0 where
  pub same_id : new'.id ≡ old.id
  pub same_tenant : new'.tenant_id ≡ old.tenant_id
  pub same_order : new'.work_order_id ≡ old.work_order_id
  pub same_worker : new'.worker_id ≡ old.worker_id
  pub device_finished :
      new'.device_finished_at ≡ coalesce old.device_finished_at new'.device_finished_at
  pub finished : new'.finished_at ≡ coalesce old.finished_at new'.finished_at

Keeps-refl : (r : WorkExecution) → Keeps r r
Keeps-refl r = ground arith

Keeps-trans : (r s t : WorkExecution) → Keeps r s → Keeps s t → Keeps r t
Keeps-trans r s t h k = ground arith

merge-Keeps :
    (now : ℕ) (a : UpsertWorkExecutionParams) (r : WorkExecution)
    → Keeps r (merge_execution now a r)
merge-Keeps now a r = ground arith

-- The upsert keeps every row, the one that it owns updated.
pub row-upsert :
    (now : ℕ) (a : UpsertWorkExecutionParams) (t : List WorkExecution) (k : ℕ) (r : WorkExecution)
    → select_one (λ (x : WorkExecution). x.id == k) t ≡ some r
    → select_one (λ (x : WorkExecution). x.id == k) (upsert_work_execution now a t)
      ≡ some (if owns_execution a r then merge_execution now a r else r)
unfolding upsert_work_execution
row-upsert now a t k r h = ground (
  arith,
  select_one-update (λ x. x.id == k) (owns_execution a) (merge_execution now a) t (λ x. refl),
  select_one-append (λ x. x.id == k) t (proposed_execution now a ∷ []),
  some_of_fits (λ x. x.id == k) (λ x. x.id == a.id) t r h,
)

upsert_execution-Keeps :
    (fault : Statement → Bool) (now : ℕ) (c : Caller) (in' : ExecutionInput) (db : Store) (k : ℕ)
    (r : WorkExecution)
    → execution_row k db ≡ some r
    → (r' : WorkExecution) × (execution_row k (upsert_execution fault now c in' db).0 ≡ some r')
      × Keeps r r'
upsert_execution-Keeps fault now c in' db k r h =
    elim (Result-cases (upsert_tx fault now c in' db)) [
      | inr (e, f) ↦ (r, rw (upsert_execution-err fault now c in' db e f) h, Keeps-refl r)
      | inl (db', g) ↦
          let m = upsert_tx-Committed fault now c in' db db' g in
          (
            if owns_execution (execution_params c in') r
                then merge_execution now (execution_params c in') r
                else r,
            rw (upsert_execution-ok fault now c in' db db' g, m.executions)
                (row-upsert now (execution_params c in') db.executions k r h),
            ground (arith, merge-Keeps now (execution_params c in') r, Keeps-refl r),
          )
    ]

-- One call with the clock and the failures that it meets.
pub record Call : Type 0 where
  pub fault : Statement → Bool
  pub now : ℕ
  pub caller : Caller
  pub input : ExecutionInput

-- The database after any calls, by any workers of any tenants.
pub run : List Call → Store → Store
run [] db = db
run (x ∷ xs) db = run xs (upsert_execution x.fault x.now x.caller x.input db).0

-- Whatever calls follow, a stored execution stays with its tenant, worker and order, and each of
-- its completion times, once recorded, never changes.
pub completion_permanent :
    (calls : List Call) (db : Store) (k : ℕ) (r : WorkExecution)
    → execution_row k db ≡ some r
    → (r' : WorkExecution) × (execution_row k (run calls db) ≡ some r') × Keeps r r'
unfolding run
completion_permanent [] db k r h = (r, h, Keeps-refl r)
completion_permanent (x ∷ xs) db k r h =
    let (s, at, kept) = upsert_execution-Keeps x.fault x.now x.caller x.input db k r h in
    let (t, at', kept') = completion_permanent xs _ k s at in (t, at', Keeps-trans r s t kept kept')

-- A committed snapshot leaves an execution of the caller bound to the order, and the order is done
-- exactly when that execution has a recorded completion, and in progress otherwise.
pub committed_status :
    (fault : Statement → Bool) (now : ℕ) (c : Caller) (in' : ExecutionInput) (db : Store)
    → (upsert_execution fault now c in' db).1 ≡ none
    → (w : WorkExecution) × (o : WorkOrder) × (get_execution c.execution_id c.tenant_id
          (upsert_execution fault now c in' db).0.executions
        ≡ some w)
      × (get_work_order_for_worker in'.work_order_id c.tenant_id
            (upsert_execution fault now c in' db).0.work_orders
          ≡ some o)
      × (w.worker_id ≡ c.worker_id)
      × (w.work_order_id ≡ in'.work_order_id)
      × (o.assignee_id ≡ some c.worker_id)
      × (((is_some w.device_finished_at ≡ true) × (o.status ≡ done))
          ⊎ ((w.device_finished_at ≡ none) × (o.status ≡ in_progress)))
unfolding order_status
committed_status fault now c in' db h =
    let m =
      upsert_tx-Committed fault now c in' db _ (upsert_execution-commits fault now c in' db h) in
    (
      m.owner,
      record (m.order) { status = order_status m.owner },
      m.owned,
      rw m.orders (
          get_work_order-set_status in'.work_order_id c.tenant_id (order_status m.owner)
            db.work_orders m.order m.found),
      m.worker,
      m.bound,
      m.assigned,
      ground arith,
    )
