-- ===== src/Execution/Replay.antt =====
-- Replaying a snapshot (`UpsertExecution` of workorder/execution.go).
use sdano.Base.{
  ℕ, Bool, true, false, ◌&&◌, ◌≡◌, refl, ap, ◌∙◌, none, some, List, [], ◌∷◌, ◌==◌, All, ok, arith,
}
use sdano.Base.Table.{select_one, update, insert}
use sdano.Base.Table.Laws.{delete_id, select_one-update, some-update, some-insert, select_one_fits}
use sdano.Store.{Store, WorkExecution, WorkOrder, WorkOrderStatus}
use sdano.Queries.Worker.{
  list_checklist_items_by_versions, get_work_order_for_worker, set_work_order_status,
  UpsertWorkExecutionParams, owns_execution, merge_execution, proposed_execution,
  upsert_work_execution, delete_execution_items_not_in,
}
use sdano.Execution.{
  Statement, ExecutionInput, Caller, item_ids, write_items, upsert_tx, execution_params,
  order_status, assigned_order, verified_owner, check_items, checklist_ids, begin_tx, get_order,
  upsert_row, verify_owner, list_checklist, prune_items, set_status, commit_tx,
}
use sdano.Execution.Committed.{Committed, upsert_tx-Committed}
use sdano.Execution.Items.{put_all, has, write_items-put_all}
use sdano.Execution.Items.Pruned.{IsPruned, snapshot-IsPruned}
use sdano.Execution.Items.Again.{put_all-settled, write_items-IsSettled, write_items-present}

-- === the execution row ===

module _ (a : UpsertWorkExecutionParams) (now later : ℕ) where
  merged_again :
      (t : List WorkExecution)
      → update
          (owns_execution a)
          (merge_execution later a)
          (update (owns_execution a) (merge_execution now a) t)
        ≡ update (owns_execution a) (merge_execution now a) t
  unfolding update
  merged_again [] = refl
  merged_again (r ∷ t) = ground (arith, merged_again t)

  merged_fresh :
      (t : List WorkExecution)
      → select_one (λ (r : WorkExecution). r.id == a.id) t ≡ none
      → update (owns_execution a) (merge_execution later a) (insert (proposed_execution now a) t)
        ≡ insert (proposed_execution now a) t
  unfolding update select_one
  merged_fresh [] h = ground arith
  merged_fresh (r ∷ t) h = ground (arith, merged_fresh t)

  -- The row is stamped once: a later clock changes nothing.
  upsert_work_execution_twice :
      (t : List WorkExecution)
      → upsert_work_execution later a (upsert_work_execution now a t)
        ≡ upsert_work_execution now a t
  unfolding upsert_work_execution
  upsert_work_execution_twice t = ground (
    arith,
    merged_again t,
    merged_fresh t,
    some-update (λ r. r.id == a.id) (owns_execution a) (merge_execution now a) t (λ r. refl),
    some-insert (λ r. r.id == a.id) (proposed_execution now a) t,
  )

-- === the order ===

set_work_order_status_twice :
    (id tenant : ℕ) (s : WorkOrderStatus) (t : List WorkOrder)
    → set_work_order_status id tenant s (set_work_order_status id tenant s t)
      ≡ set_work_order_status id tenant s t
unfolding set_work_order_status update
set_work_order_status_twice id tenant s [] = refl
set_work_order_status_twice id tenant s (r ∷ t) =
    ground (arith, set_work_order_status_twice id tenant s t)

-- The order is still found, with the new status.
pub get_work_order-set_status :
    (id tenant : ℕ) (s : WorkOrderStatus) (t : List WorkOrder) (wo : WorkOrder)
    → get_work_order_for_worker id tenant t ≡ some wo
    → get_work_order_for_worker id tenant (set_work_order_status id tenant s t)
      ≡ some (record wo { status = s })
unfolding get_work_order_for_worker set_work_order_status
get_work_order-set_status id tenant s t wo h = ground (
  arith,
  select_one-update (λ r. r.id == id && r.tenant_id == tenant)
      (λ r. r.id == id && r.tenant_id == tenant) (λ r. record r { status = s }) t (λ r. refl),
  select_one_fits (λ r. r.id == id && r.tenant_id == tenant) t {r = wo},
)

-- === the transaction ===

module _ (fault fault' : Statement → Bool) (now later : ℕ) (c : Caller) (in' : ExecutionInput)
    (db db₁ : Store) (first : upsert_tx fault now c in' db ≡ ok db₁) where
  abbrev once : Committed fault now c in' db db₁
  once = upsert_tx-Committed fault now c in' db db₁ first

  -- The items as the first call left them.
  present_items : All (λ it. has c.execution_id it.id db₁.execution_items ≡ true) in'.items
  present_items = (write_items-put_all _ _ _ _ _ once.written).1

  IsPruned-items : IsPruned c.execution_id (item_ids in'.items) db₁.execution_items
  IsPruned-items =
      rw (write_items-put_all _ _ _ _ _ once.written).0
        (snapshot-IsPruned c.execution_id in'.items db.execution_items)

  kept_items :
      delete_execution_items_not_in c.execution_id (item_ids in'.items) db₁.execution_items
      ≡ db₁.execution_items
  unfolding delete_execution_items_not_in
  kept_items = delete_id _ db₁.execution_items IsPruned-items

  settled_items :
      put_all c.execution_id in'.items
        (delete_execution_items_not_in c.execution_id (item_ids in'.items) db₁.execution_items)
      ≡ db₁.execution_items
  settled_items = rw kept_items (
      put_all-settled c.execution_id in'.items db₁.execution_items present_items
        (write_items-IsSettled _ _ _ _ _ once.written))

  same_executions :
      upsert_work_execution later (execution_params c in') db₁.executions ≡ db₁.executions
  same_executions =
      rw once.executions
        (upsert_work_execution_twice (execution_params c in') now later db.executions)

  same_orders :
      set_work_order_status in'.work_order_id c.tenant_id (order_status once.owner) db₁.work_orders
      ≡ db₁.work_orders
  same_orders = rw once.orders (
      set_work_order_status_twice in'.work_order_id c.tenant_id (order_status once.owner)
        db.work_orders)

  -- A replay that commits has changed nothing.
  pub replay_committed : (db₂ : Store) → upsert_tx fault' later c in' db₁ ≡ ok db₂ → db₂ ≡ db₁
  replay_committed db₂ h = again.rest ∙ (λ i. record db₁ {
    executions = executions i;
    execution_items = items i;
    work_orders = orders i;
  })
    where
      again : Committed fault' later c in' db₁ db₂
      again = upsert_tx-Committed fault' later c in' db₁ db₂ h

      executions : db₂.executions ≡ db₁.executions
      executions = again.executions ∙ same_executions

      owner : again.owner ≡ once.owner
      owner = ground (arith, again.owned, once.owned, executions)

      items : db₂.execution_items ≡ db₁.execution_items
      items = (write_items-put_all _ _ _ _ _ again.written).0 ∙ settled_items

      orders : db₂.work_orders ≡ db₁.work_orders
      orders =
          again.orders
          ∙ ap
              (λ w.
                set_work_order_status in'.work_order_id c.tenant_id (order_status w)
                  db₁.work_orders)
              owner
          ∙ same_orders

  module _ (no_fault : (s : Statement) → fault' s ≡ false) where
    assigned_again :
        assigned_order fault' c in'.work_order_id db₁
        ≡ ok (record (once.order) { status = order_status once.owner })
    unfolding assigned_order
    assigned_again = ground (
      arith,
      no_fault get_order,
      get_work_order-set_status in'.work_order_id c.tenant_id (order_status once.owner)
          db.work_orders once.order once.found,
      once.orders,
      once.assigned,
    )

    owner_again :
        verified_owner fault' c in'.work_order_id
          (upsert_work_execution later (execution_params c in') db₁.executions)
        ≡ ok once.owner
    unfolding verified_owner
    owner_again =
        rw same_executions
          (ground (arith, no_fault verify_owner, once.owned, once.worker, once.bound))

    checked_again :
        check_items
          (checklist_ids
            (list_checklist_items_by_versions (once.order.version_id ∷ []) c.tenant_id db₁))
          in'.items
        ≡ ok tt
    unfolding list_checklist_items_by_versions
    checked_again = rw once.rest once.checked

    written_again :
        write_items fault' c.execution_id in'.items
          (delete_execution_items_not_in c.execution_id (item_ids in'.items) db₁.execution_items)
        ≡ ok db₁.execution_items
    written_again = rw kept_items (
        write_items-present fault' c.execution_id in'.items db₁.execution_items no_fault
          present_items
        ∙ ap ok (
            put_all-settled c.execution_id in'.items db₁.execution_items present_items
              (write_items-IsSettled _ _ _ _ _ once.written)))

    pub replay_commits : upsert_tx fault' later c in' db₁ ≡ ok db₁
    unfolding upsert_tx
    replay_commits = ground (
      arith,
      no_fault begin_tx,
      no_fault upsert_row,
      no_fault list_checklist,
      no_fault prune_items,
      no_fault set_status,
      no_fault commit_tx,
      assigned_again,
      owner_again,
      checked_again,
      written_again,
      same_executions,
      same_orders,
    )
