-- ===== src/Orders.antt =====
-- apps/api/internal/workorder/http.go, the endpoints of work orders: what they share. The statements that the database refuses, the ids of `uuid.New` and
-- the parsers of UUIDs and of dates (`time.Parse("2006-01-02", s)`) are the record `World`.
pub mod Creation
pub mod Dashboard
pub mod Today
pub mod Detail
pub mod Reassigned
pub mod Changes
use sdano.Base.{
  ℕ, ◌+◌, suc, Bool, not, Option, none, some, String, List, [], ◌∷◌, ◌++◌, ◌==◌, str_eq, map,
  length, if◌then◌else◌, Result, ok, err, ◌>>=◌, ◌>>◌, reject_if, or_err,
}
use sdano.Store.{Store, WorkOrder, WorkOrderStatus, scheduled, in_progress, done, missed}
use sdano.Queries.Worker.{contains}
use sdano.Queries.Orders.{
  count_active_objects_in_tenant, count_versions_in_tenant, count_active_workers_in_tenant,
  insert_work_order, ListWorkOrdersParams, list_work_orders, UpdateWorkOrderParams,
  update_work_order,
}
use sdano.Calendar.{Clock}
use sdano.Session.{Principal}

pub data OrderStatement : Type 0 where
  begin_tx count_objects count_versions count_workers commit_tx : OrderStatement
  insert_row : ℕ → OrderStatement
  list_rows update_row load_timezone list_today list_items list_dashboard : OrderStatement
  load_execution list_execution_items list_execution_photos : OrderStatement

pub data OrderError : Type 0 where
  invalid_order_batch invalid_uuid invalid_date invalid_status invalid_reference : OrderError
  work_order_not_found execution_not_found store_failed : OrderError
  failed_statement : OrderStatement → OrderError

pub record World : Type 0 where
  pub fault : OrderStatement → Bool
  pub now : ℕ
  pub clock : Clock
  pub new_id : ℕ → ℕ
  pub collate : String → String → Bool
  pub parse_uuid : String → Option ℕ
  pub parse_date : String → Option ℕ
  pub presign_get : String → Option (String × ℕ)

abbrev pub run_statement : World → OrderStatement → Result OrderError (Unit {0})
run_statement w s = reject_if (w.fault s) (failed_statement s)

unfoldable pub parse_optional :
    (String → Option ℕ) → OrderError → Option String → Result OrderError (Option ℕ)
parse_optional parse e none = ok none
parse_optional parse e (some s) = or_err (parse s) e >>= λ id. ok (some id)
