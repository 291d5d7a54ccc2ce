-- ===== src/Execution/Handler.antt =====
-- apps/api/internal/workorder/http.go, the handler of `PUT /api/v1/worker/executions/{id}`, with
-- `loadExecutionView` of execution.go. The UUID parser is an argument; `fault` says which of the
-- handler's own statements the database refuses, `upsert_fault` which of `UpsertExecution`.
use sdano.Base.{
  ℕ, Bool, not, Option, none, some, String, List, [], ◌∷◌, ◌==◌, opt_eq, ◌&&◌, Result, ok, err,
  ◌>>=◌, ◌>>◌, reject_if, or_err,
}
use sdano.Base.Table.{select, order_by}
use sdano.Store.{Store, WorkExecution, WorkExecutionItem, Photo}
use sdano.Queries.Worker.{get_execution}
use sdano.Queries.Tenants.{get_tenant_suspension}
use sdano.Session.{Principal}
use sdano.Photo.{is_evidence}
use sdano.Execution.{
  Statement, UpsertError, work_order_not_assigned, execution_id_conflict, invalid_checklist_item,
  execution_item_conflict, failed_statement, ExecutionItemInput, ExecutionInput, Caller,
  upsert_execution,
}

pub data ReadStatement : Type 0 where
  load_suspension load_execution load_items load_photos : ReadStatement

pub data HandlerError : Type 0 where
  invalid_uuid tenant_suspended : HandlerError
  upsert_failed : UpsertError → HandlerError
  failed_read : ReadStatement → HandlerError

-- The problem that the handler answers with; other errors are internal.
unfoldable pub status_code : HandlerError → ℕ
status_code invalid_uuid = 422
status_code tenant_suspended = 403
status_code (upsert_failed work_order_not_assigned) = 403
status_code (upsert_failed execution_id_conflict) = 409
status_code (upsert_failed invalid_checklist_item) = 422
status_code (upsert_failed execution_item_conflict) = 409
status_code (upsert_failed (failed_statement s)) = 500
status_code (failed_read s) = 500

pub record ExecutionItemBody : Type 0 where
  pub id : String
  pub template_item_id : String
  pub checked : Bool
  pub checked_at : Option ℕ

pub record ExecutionUpsertInput : Type 0 where
  pub id : String
  pub work_order_id : String
  pub started_at : Option ℕ
  pub device_finished_at : Option ℕ
  pub note : Option String
  pub items : List ExecutionItemBody

pub record ExecutionView : Type 0 where
  pub execution : WorkExecution
  pub items : List WorkExecutionItem
  pub photos : List Photo

unfoldable pub list_execution_items : ℕ → List WorkExecutionItem → List WorkExecutionItem
unfolding select order_by
list_execution_items execution_id t =
    order_by (λ r. r.id) (select (λ r. r.execution_id == execution_id) t)

unfoldable pub list_execution_photos : ℕ → ℕ → List Photo → List Photo
unfolding select order_by
list_execution_photos execution_id tenant_id t =
    order_by (λ r. r.id)
      (select (λ r. opt_eq r.execution_id execution_id && r.tenant_id == tenant_id) t)

module _ (parse_uuid : String → Option ℕ) (fault : ReadStatement → Bool) where
  abbrev pub read_statement : ReadStatement → Result HandlerError (Unit {0})
  read_statement s = reject_if (fault s) (failed_read s)

  unfoldable pub parse_items :
      List ExecutionItemBody → Result HandlerError (List ExecutionItemInput)
  parse_items [] = ok []
  parse_items (it ∷ items) = do
    id ← or_err (parse_uuid it.id) invalid_uuid
    template_item_id ← or_err (parse_uuid it.template_item_id) invalid_uuid
    rest ← parse_items items
    ok (
        (record {
          id = id;
          template_item_id = template_item_id;
          checked = it.checked;
          checked_at = it.checked_at;
        })
        ∷ rest)

  unfoldable pub check_evidence : ℕ → Option ℕ → Store → Result HandlerError (Unit {0})
  check_evidence tenant_id device_finished_at db = do
    read_statement load_suspension
    susp ← or_err (get_tenant_suspension tenant_id db.tenants) (failed_read load_suspension)
    reject_if (not (is_evidence susp device_finished_at)) tenant_suspended

  -- The execution's id and the snapshot, once the request is parsed and the gate is passed.
  unfoldable pub prepare :
      Principal → ExecutionUpsertInput → Store → Result HandlerError (ℕ × ExecutionInput)
  prepare p input db = do
    execution_id ← or_err (parse_uuid input.id) invalid_uuid
    work_order_id ← or_err (parse_uuid input.work_order_id) invalid_uuid
    items ← parse_items input.items
    check_evidence p.tenant_id input.device_finished_at db
    ok (
      execution_id,
      record {
        work_order_id = work_order_id;
        started_at = input.started_at;
        device_finished_at = input.device_finished_at;
        note = input.note;
        items = items;
      },
    )

  unfoldable pub load_execution_view : ℕ → ℕ → Store → Result HandlerError ExecutionView
  load_execution_view tenant_id execution_id db = do
    read_statement load_execution
    e ← or_err (get_execution execution_id tenant_id db.executions) (failed_read load_execution)
    read_statement load_items
    read_statement load_photos
    ok (record {
      execution = e;
      items = list_execution_items execution_id db.execution_items;
      photos = list_execution_photos execution_id tenant_id db.photos;
    })

  abbrev pub answer : ℕ → ℕ → Store × Option UpsertError → Store × Result HandlerError ExecutionView
  answer tenant_id execution_id (db, some e) = (db, err (upsert_failed e))
  answer tenant_id execution_id (db, none) = (db, load_execution_view tenant_id execution_id db)

  abbrev pub caller_of : Principal → ℕ → Caller
  caller_of p execution_id = record {
    tenant_id = p.tenant_id;
    worker_id = p.user_id;
    execution_id = execution_id;
  }

  unfoldable pub put_execution :
      (Statement → Bool)
      → ℕ
      → Principal
      → ExecutionUpsertInput
      → Store
      → Store × Result HandlerError ExecutionView
  put_execution upsert_fault now p input db = elim (prepare p input db) [
    | err e ↦ (db, err e)
    | ok (execution_id, in') ↦
        answer p.tenant_id execution_id
          (upsert_execution upsert_fault now (caller_of p execution_id) in' db)
  ]
