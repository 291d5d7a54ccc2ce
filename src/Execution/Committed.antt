-- ===== src/Execution/Committed.antt =====
-- What a committed snapshot went through (`UpsertExecution` of workorder/execution.go).
use sdano.Base.{
  ℕ, Bool, ◌≡◌, refl, none, some, List, [], ◌∷◌, Result, ok, err, Result-cases, inl, inr, arith,
}
use sdano.Store.{Store, WorkOrder, WorkExecution, WorkExecutionItem}
use sdano.Queries.Worker.{
  get_work_order_for_worker, set_work_order_status, get_execution, upsert_work_execution,
  list_checklist_items_by_versions, delete_execution_items_not_in,
}
use sdano.Execution.{
  Statement, UpsertError, ExecutionInput, Caller, execution_params, item_ids, checklist_ids,
  check_items, write_items, order_status, assigned_order, verified_owner, upsert_tx,
  upsert_execution,
}

pub record Committed (fault : Statement → Bool) (now : ℕ) (c : Caller) (in' : ExecutionInput)
    (db db' : Store) : Type 0 where
  pub order : WorkOrder
  pub owner : WorkExecution
  pub found : get_work_order_for_worker in'.work_order_id c.tenant_id db.work_orders ≡ some order
  pub assigned : order.assignee_id ≡ some c.worker_id
  pub owned : get_execution c.execution_id c.tenant_id db'.executions ≡ some owner
  pub worker : owner.worker_id ≡ c.worker_id
  pub bound : owner.work_order_id ≡ in'.work_order_id
  pub checked :
      check_items
        (checklist_ids (list_checklist_items_by_versions (order.version_id ∷ []) c.tenant_id db))
        in'.items
      ≡ ok tt
  pub written :
      write_items fault c.execution_id in'.items
        (delete_execution_items_not_in c.execution_id (item_ids in'.items) db.execution_items)
      ≡ ok db'.execution_items
  pub executions : db'.executions ≡ upsert_work_execution now (execution_params c in') db.executions
  pub orders :
      db'.work_orders
      ≡ set_work_order_status in'.work_order_id c.tenant_id (order_status owner) db.work_orders
  pub rest : db' ≡ record db {
    executions = db'.executions;
    execution_items = db'.execution_items;
    work_orders = db'.work_orders;
  }

assigned_order-ok :
    (fault : Statement → Bool) (c : Caller) (id : ℕ) (db : Store) (wo : WorkOrder)
    → assigned_order fault c id db ≡ ok wo
    → (get_work_order_for_worker id c.tenant_id db.work_orders ≡ some wo)
      × (wo.assignee_id ≡ some c.worker_id)
unfolding assigned_order
assigned_order-ok fault c id db wo h = ground arith

verified_owner-ok :
    (fault : Statement → Bool) (c : Caller) (id : ℕ) (t : List WorkExecution) (w : WorkExecution)
    → verified_owner fault c id t ≡ ok w
    → (get_execution c.execution_id c.tenant_id t ≡ some w)
      × (w.worker_id ≡ c.worker_id)
      × (w.work_order_id ≡ id)
unfolding verified_owner
verified_owner-ok fault c id t w h = ground arith

module _ (fault : Statement → Bool) (now : ℕ) (c : Caller) (in' : ExecutionInput) (db db' : Store)
    (success : upsert_tx fault now c in' db ≡ ok db') where
  abbrev written_executions : List WorkExecution
  written_executions = upsert_work_execution now (execution_params c in') db.executions

  abbrev checklist_of : WorkOrder → Result UpsertError (Unit {0})
  checklist_of wo =
      check_items
        (checklist_ids (list_checklist_items_by_versions (wo.version_id ∷ []) c.tenant_id db))
        in'.items

  abbrev written_items : Result UpsertError (List WorkExecutionItem)
  written_items =
      write_items fault c.execution_id in'.items
        (delete_execution_items_not_in c.execution_id (item_ids in'.items) db.execution_items)

  module _ (wo : WorkOrder) (owner : WorkExecution) (items : List WorkExecutionItem)
      (a : assigned_order fault c in'.work_order_id db ≡ ok wo)
      (v : verified_owner fault c in'.work_order_id written_executions ≡ ok owner)
      (k : checklist_of wo ≡ ok tt) (w : written_items ≡ ok items) where
    stored : db' ≡ record db {
      executions = written_executions;
      execution_items = items;
      work_orders =
          set_work_order_status in'.work_order_id c.tenant_id (order_status owner) db.work_orders;
    }
    unfolding upsert_tx
    stored = ground arith

    collect : Committed fault now c in' db db'
    collect =
        let (found, assigned) = assigned_order-ok fault c in'.work_order_id db wo a in
        let (owned, worker, bound) =
          verified_owner-ok fault c in'.work_order_id written_executions owner v in
        record {
          order = wo;
          owner = owner;
          found = found;
          assigned = assigned;
          owned = rw stored owned;
          worker = worker;
          bound = bound;
          checked = k;
          written = rw stored w;
          executions = rw stored refl;
          orders = rw stored refl;
          rest = rw stored refl;
        }

  pub upsert_tx-Committed : Committed fault now c in' db db'
  unfolding upsert_tx
  upsert_tx-Committed = elim (Result-cases (assigned_order fault c in'.work_order_id db)) [
    | inr (e, f) ↦ absurd (ground arith)
    | inl (wo, a) ↦
        elim (Result-cases (verified_owner fault c in'.work_order_id written_executions)) [
          | inr (e, f) ↦ absurd (ground arith)
          | inl (owner, v) ↦ elim (Result-cases (checklist_of wo)) [
            | inr (e, f) ↦ absurd (ground arith)
            | inl (tt, k) ↦ elim (Result-cases written_items) [
              | inr (e, f) ↦ absurd (ground arith)
              | inl (items, w) ↦ collect wo owner items a v k w
            ]
          ]
        ]
  ]

-- What `UpsertExecution` makes of the transaction's result.
module _ (fault : Statement → Bool) (now : ℕ) (c : Caller) (in' : ExecutionInput) (db : Store) where
  pub upsert_execution-ok :
      (db' : Store)
      → upsert_tx fault now c in' db ≡ ok db'
      → upsert_execution fault now c in' db ≡ (db', none)
  unfolding upsert_execution
  upsert_execution-ok db' h = ground arith

  pub upsert_execution-err :
      (e : UpsertError)
      → upsert_tx fault now c in' db ≡ err e
      → upsert_execution fault now c in' db ≡ (db, some e)
  unfolding upsert_execution
  upsert_execution-err e h = ground arith

  pub upsert_execution-commits :
      (upsert_execution fault now c in' db).1 ≡ none
      → upsert_tx fault now c in' db ≡ ok (upsert_execution fault now c in' db).0
  unfolding upsert_execution
  upsert_execution-commits h = ground arith
