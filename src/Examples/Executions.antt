-- ===== src/Examples/Executions.antt =====
-- A worker's day: one order, its checklist and one snapshot (workorder/execution.go).
use sdano.Base.{
  ℕ, Bool, true, false, ◌≡◌, ◌≢◌, refl, none, some, List, [], ◌∷◌, inl, inr, arith, is_some, ◌⊎◌,
}
use sdano.Base.Table.{select_one}
use sdano.Store.{Store, WorkOrder, scheduled, done, in_progress, WorkExecution, WorkExecutionItem}
use sdano.Queries.Worker.{
  get_work_order_for_worker, set_work_order_status, get_execution, upsert_work_execution,
  list_checklist_items_by_versions, delete_execution_items_not_in, upsert_work_execution_item,
}
use sdano.Execution.{
  Statement, execution_id_conflict, ExecutionInput, Caller, check_items, write_items, order_status,
  assigned_order, verified_owner, upsert_tx, upsert_execution,
}
use sdano.Execution.Converge.{replay_unchanged, replay_succeeds}
use sdano.Execution.Completion.{
  execution_row, Keeps, Call, run, completion_permanent, committed_status,
}
use sdano.Execution.Snapshot.{committed_items, stored_marks, marks_of, last_write}
use sdano.Execution.Isolation.{item_row, order_row, others_untouched, foreign_execution_refused}

abbrev order : ℕ → WorkOrder
order id = record {
  id = id;
  tenant_id = 1;
  object_id = 1;
  version_id = 1;
  assignee_id = some 7;
  due_date = 20;
  status = scheduled;
  created_at = 3;
}

abbrev other_execution : WorkExecution
other_execution = record {
  id = 101;
  tenant_id = 1;
  work_order_id = 2;
  worker_id = 8;
  started_at = none;
  finished_at = some 9;
  device_finished_at = some 8;
  note = none;
  created_at = 10;
}

abbrev other_item : WorkExecutionItem
other_item = record {
  id = 201;
  execution_id = 101;
  template_item_id = 5;
  checked = true;
  checked_at = none;
}

abbrev morning : Store
morning = record {
  tenants = [];
  users = [];
  refresh_tokens = [];
  device_tokens = [];
  contracts = [];
  objects = [];
  invites = [];
  checklist_templates = record { id = 3; tenant_id = 1; name = "entrance" } ∷ [];
  checklist_versions = record { id = 1; template_id = 3; version = 1 } ∷ [];
  checklist_items =
      record { id = 5; version_id = 1; position = 1; title = "floor"; requires_photo = false } ∷ [];
  work_orders = order 1 ∷ order 2 ∷ [];
  executions = other_execution ∷ [];
  execution_items = other_item ∷ [];
  photos = [];
  reports = [];
  audits = [];
}

abbrev caller : ℕ → Caller
caller execution = record { tenant_id = 1; worker_id = 7; execution_id = execution }

abbrev snapshot : ExecutionInput
snapshot = record {
  work_order_id = 1;
  started_at = some 10;
  device_finished_at = some 15;
  note = none;
  items = record { id = 200; template_item_id = 5; checked = true; checked_at = some 14 } ∷ [];
}

abbrev no_fault : Statement → Bool
no_fault s = false

committed : (upsert_execution no_fault 20 (caller 100) snapshot morning).1 ≡ none
unfolding upsert_execution upsert_tx assigned_order verified_owner check_items write_items
    order_status upsert_work_execution get_execution get_work_order_for_worker
    list_checklist_items_by_versions delete_execution_items_not_in upsert_work_execution_item
    set_work_order_status
committed = refl

refused :
    (upsert_execution no_fault 20 (caller 101) snapshot morning).1 ≡ some execution_id_conflict
unfolding upsert_execution upsert_tx assigned_order verified_owner check_items write_items
    order_status upsert_work_execution get_execution get_work_order_for_worker
    list_checklist_items_by_versions delete_execution_items_not_in upsert_work_execution_item
    set_work_order_status
refused = refl

replay_unchanged_example :
    (upsert_execution no_fault 30
      (caller 100)
      snapshot
      (upsert_execution no_fault 20 (caller 100) snapshot morning).0).0
    ≡ (upsert_execution no_fault 20 (caller 100) snapshot morning).0
replay_unchanged_example =
    replay_unchanged no_fault no_fault 20 30 (caller 100) snapshot morning committed

replay_succeeds_example :
    upsert_execution no_fault 30
      (caller 100)
      snapshot
      (upsert_execution no_fault 20 (caller 100) snapshot morning).0
    ≡ ((upsert_execution no_fault 20 (caller 100) snapshot morning).0, none)
replay_succeeds_example =
    replay_succeeds no_fault no_fault 20 30 (caller 100) snapshot morning committed (λ s. refl)

abbrev two_calls : List Call
two_calls =
    record { fault = no_fault; now = 20; caller = caller 100; input = snapshot }
    ∷ record { fault = no_fault; now = 30; caller = caller 101; input = snapshot }
    ∷ []

other_found : execution_row 101 morning ≡ some other_execution
unfolding select_one
other_found = refl

completion_permanent_example :
    (r' : WorkExecution) × (execution_row 101 (run two_calls morning) ≡ some r')
    × Keeps other_execution r'
completion_permanent_example =
    completion_permanent two_calls morning 101 other_execution other_found

committed_status_example :
    (w : WorkExecution) × (o : WorkOrder) × (get_execution 100 1
        (upsert_execution no_fault 20 (caller 100) snapshot morning).0.executions
      ≡ some w)
    × (get_work_order_for_worker 1 1
          (upsert_execution no_fault 20 (caller 100) snapshot morning).0.work_orders
        ≡ some o)
    × (w.worker_id ≡ 7)
    × (w.work_order_id ≡ 1)
    × (o.assignee_id ≡ some 7)
    × (((is_some w.device_finished_at ≡ true) × (o.status ≡ done))
        ⊎ ((w.device_finished_at ≡ none) × (o.status ≡ in_progress)))
committed_status_example = committed_status no_fault 20 (caller 100) snapshot morning committed

committed_items_example :
    stored_marks 100 200
      (upsert_execution no_fault 20 (caller 100) snapshot morning).0.execution_items
    ≡ marks_of (last_write 200 snapshot.items)
committed_items_example = committed_items no_fault 20 (caller 100) snapshot morning 200 committed

item_found : item_row 201 morning ≡ some other_item
unfolding select_one
item_found = refl

order_found : order_row 2 morning ≡ some (order 2)
unfolding select_one
order_found = refl

others_untouched_example :
    let then' = (upsert_execution no_fault 20 (caller 100) snapshot morning).0 in
    (item_row 201 then' ≡ some other_item)
    × ((execution_row 101 then' ≡ some other_execution) × (order_row 2 then' ≡ some (order 2)))
others_untouched_example =
    others_untouched no_fault 20 (caller 100) snapshot morning other_item other_execution (order 2)
      item_found other_found order_found (ground arith) (inl (ground arith)) (inl (ground arith))

foreign_execution_refused_example :
    ((upsert_execution no_fault 20 (caller 101) snapshot morning).0 ≡ morning)
    × ((upsert_execution no_fault 20 (caller 101) snapshot morning).1 ≢ none)
foreign_execution_refused_example =
    foreign_execution_refused no_fault 20 (caller 101) snapshot morning other_execution (tt, tt)
      other_found (inr (ground arith))
