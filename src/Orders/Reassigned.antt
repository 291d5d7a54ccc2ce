-- ===== src/Orders/Reassigned.antt =====
-- What a reassignment changes, and what the worker who had the order may then send
-- (workorder/http.go, `patchStaffWorkOrder`, with workorder/execution.go, `UpsertExecution`).
use sdano.Base.{
  ℕ, ◌≡◌, refl, sym, ap, ◌∙◌, subst, Bool, false, Option, none, some, String, List, ◌==◌, opt_eq,
  coalesce, Result, ok, err, or_err, Bool-cases, Option-cases, Result-cases, inl, inr, arith,
}
use sdano.Base.Table.{select_one, update}
use sdano.Base.Table.Laws.{select_one-update, select_one_fits}
use sdano.Store.{Store, WorkOrder}
use sdano.Queries.Worker.{get_work_order_for_worker}
use sdano.Queries.Orders.{
  UpdateWorkOrderParams, is_order_of, rescheduled, update_found, update_work_order,
}
use sdano.Session.{Principal}
use sdano.Execution.{
  Statement, begin_tx, get_order, work_order_not_assigned, ExecutionInput, Caller, assigned_order,
  upsert_tx, upsert_execution,
}
use sdano.Orders.{World, OrderError, OrderStatement, parse_optional}
use sdano.Orders.Changes.{
  PatchOrderBody, patch_body, patch_assignee, patch_tx, reassigned, patch_staff_work_order,
}

-- The update finds one row of the tenant, and returns it as it stores it.
updated_row :
    (a : UpdateWorkOrderParams) (t t' : List WorkOrder) (r : WorkOrder)
    → update_work_order a t ≡ some (t', r)
    → (old : WorkOrder) × ((get_work_order_for_worker a.id a.tenant_id t ≡ some old)
        × ((get_work_order_for_worker a.id a.tenant_id t' ≡ some r) × (r ≡ rescheduled a old)))
unfolding update_work_order get_work_order_for_worker
updated_row a t t' r h = elim (Option-cases (select_one (is_order_of a.id a.tenant_id) t)) [
  | inl e ↦ absurd (cc (ap (update_found a t) (sym e) ∙ h))
  | inr (old, e) ↦
      let call = ap (update_found a t) (sym e) ∙ h in
      let rows : update (is_order_of a.id a.tenant_id) (rescheduled a) t ≡ t' = cc in
      let row : rescheduled a old ≡ r = cc in
      let fits = select_one_fits (is_order_of a.id a.tenant_id) t e in
      (
        old,
        (
          e,
          (
            ap (select_one (is_order_of a.id a.tenant_id)) (sym rows)
                ∙ select_one-update (is_order_of a.id a.tenant_id) (is_order_of a.id a.tenant_id)
                    (rescheduled a) t (λ x. refl)
                ∙ rw (e, fits) (ap some row),
            sym row,
          ),
        ),
      )
]

abbrev pub update_params : Option ℕ → Option ℕ → ℕ → ℕ → UpdateWorkOrderParams
update_params assignee_id due_date id tenant_id = record {
  assignee_id = assignee_id;
  due_date = due_date;
  id = id;
  tenant_id = tenant_id;
}

or_err-ok : {A : Type 0} (o : Option A) (e : OrderError) (a : A) → or_err o e ≡ ok a → o ≡ some a
or_err-ok none e a h = absurd (cc)
or_err-ok (some x) e a h = cc

-- A reassignment that succeeds has run its update.
patch_tx_lem :
    (w : World) (p : Principal) (text : String) (body : Option PatchOrderBody) (db : Store)
    (r : List WorkOrder × WorkOrder)
    → patch_tx w p text body db ≡ ok r
    → (id : ℕ) × (assignee_id : Option ℕ) × (due_date : Option ℕ) × ((w.parse_uuid text ≡ some id)
        × ((patch_assignee w p (patch_body body).assignee_id db ≡ ok assignee_id)
            × (update_work_order (update_params assignee_id due_date id p.tenant_id) db.work_orders
                ≡ some r)))
unfolding patch_tx
patch_tx_lem w p text body db r h = elim (Option-cases (w.parse_uuid text)) [
  | inl n ↦ absurd (cc (rw n at h))
  | inr (id, i) ↦ elim (Result-cases (patch_assignee w p (patch_body body).assignee_id db)) [
    | inr (e, a) ↦ absurd (cc (rw (i, a) at h))
    | inl (x, a) ↦
        elim (Result-cases
          (parse_optional w.parse_date OrderError.invalid_date (patch_body body).due_date)) [
            | inr (e, d) ↦ absurd (cc (rw (i, a, d) at h))
            | inl (y, d) ↦ elim (Bool-cases (w.fault OrderStatement.update_row)) [
              | inl f ↦ absurd (cc (rw (i, a, d, f) at h))
              | inr f ↦ (id, x, y, (i, (a, or_err-ok _ _ r (rw (i, a, d, f) at h))))
            ]
          ]
  ]
]

-- The worker who has the order afterwards: the one that the body names, or the one before.
abbrev pub NowAssigned : World → Option String → Option ℕ → Option ℕ → Type 0
NowAssigned w none before now = now ≡ before
NowAssigned w (some s) before now = (aid : ℕ) × ((w.parse_uuid s ≡ some aid) × (now ≡ some aid))

-- What a successful call stored.
pub record Reassigned (w : World) (p : Principal) (text : String) (body : Option PatchOrderBody)
    (db db' : Store) (r : WorkOrder) : Type 0 where
  pub id : ℕ
  pub old : WorkOrder
  pub parsed : w.parse_uuid text ≡ some id
  pub before_call : get_work_order_for_worker id p.tenant_id db.work_orders ≡ some old
  pub after_call : get_work_order_for_worker id p.tenant_id db'.work_orders ≡ some r
  pub assignee : NowAssigned w (patch_body body).assignee_id old.assignee_id r.assignee_id
  pub same_object : r.object_id ≡ old.object_id
  pub same_version : r.version_id ≡ old.version_id
  pub same_status : r.status ≡ old.status

patch_assignee-NowAssigned :
    (w : World) (p : Principal) (s : Option String) (db : Store) (assignee before : Option ℕ)
    → patch_assignee w p s db ≡ ok assignee
    → NowAssigned w s before (coalesce assignee before)
unfolding patch_assignee
patch_assignee-NowAssigned w p none db assignee before h =
    let same : none ≡ assignee = cc in
    subst (λ a. NowAssigned w none before (coalesce a before)) same refl
patch_assignee-NowAssigned w p (some s) db assignee before h =
    elim (Option-cases (w.parse_uuid s)) [
      | inl n ↦ absurd (cc (rw n at h))
      | inr (aid, i) ↦
          let same : some aid ≡ assignee = ground (arith, rw i at h) in
          (aid, (i, ap (λ a. coalesce a before) (sym same)))
    ]

patch-Reassigned :
    (w : World) (p : Principal) (text : String) (body : Option PatchOrderBody) (db db' : Store)
    (r : WorkOrder)
    → patch_staff_work_order w p text body db ≡ (db', ok r)
    → Reassigned w p text body db db' r
unfolding patch_staff_work_order
patch-Reassigned w p text body db db' r h = elim (Result-cases (patch_tx w p text body db)) [
  | inr (e, f) ↦ absurd (cc (ap (reassigned db) (sym f) ∙ h))
  | inl (x, f) ↦
      let call = ap (reassigned db) (sym f) ∙ h in
      let kept = ap (λ (y : Store × Result OrderError WorkOrder). y.0.work_orders) call in
      let row : x.1 ≡ r = cc (ap (λ (y : Store × Result OrderError WorkOrder). y.1) call) in
      let (id, assignee, due, (parsed, (checked, done))) = patch_tx_lem w p text body db x f in
      let (old, (found, (stored, same))) =
        updated_row (update_params assignee due id p.tenant_id) db.work_orders x.0 x.1 done in
      record {
        id = id;
        old = old;
        parsed = parsed;
        before_call = found;
        after_call =
            ap (get_work_order_for_worker id p.tenant_id) (sym kept) ∙ stored ∙ ap some row;
        assignee =
            subst (λ k. NowAssigned w (patch_body body).assignee_id old.assignee_id k)
              (ap (λ (y : WorkOrder). y.assignee_id) (sym same ∙ row))
              (patch_assignee-NowAssigned w p (patch_body body).assignee_id db assignee
                old.assignee_id checked);
        same_object = ap (λ (y : WorkOrder). y.object_id) (sym row ∙ same);
        same_version = ap (λ (y : WorkOrder). y.version_id) (sym row ∙ same);
        same_status = ap (λ (y : WorkOrder). y.status) (sym row ∙ same);
      }
]

now_given :
    (w : World) (s : String) (o : Option String) (before now : Option ℕ) (aid : ℕ)
    → o ≡ some s
    → w.parse_uuid s ≡ some aid
    → NowAssigned w o before now
    → now ≡ some aid
now_given w s none before now aid named worker h = absurd (cc)
now_given w s (some x) before now aid named worker (k, (parsed, given)) =
    let same : x ≡ s = cc in given ∙ sym parsed ∙ ap w.parse_uuid same ∙ worker

module _ (fault : Statement → Bool) (now : ℕ) (c : Caller) (in' : ExecutionInput) (db : Store)
    (r : WorkOrder) (reads : fault get_order ≡ false)
    (found : get_work_order_for_worker in'.work_order_id c.tenant_id db.work_orders ≡ some r)
    (other : opt_eq r.assignee_id c.worker_id ≡ false) where
  order_refused : assigned_order fault c in'.work_order_id db ≡ err work_order_not_assigned
  unfolding assigned_order
  order_refused = rw (reads, found, other) refl

  tx_refused : fault begin_tx ≡ false → upsert_tx fault now c in' db ≡ err work_order_not_assigned
  unfolding upsert_tx
  tx_refused begins = rw (begins, order_refused) refl

  -- An execution for an order that is assigned to another worker is refused.
  not_assigned :
      fault begin_tx ≡ false
      → upsert_execution fault now c in' db ≡ (db, some work_order_not_assigned)
  unfolding upsert_execution
  not_assigned begins = rw (tx_refused begins, upsert_execution) refl

-- Once a patch that names a worker has succeeded, the order of the request is stored under that
-- worker, and a snapshot that any other worker of the tenant sends for it is refused and changes
-- nothing, whatever was stored before, where its transaction begins and the order can be read.
pub reassigned_refuses :
    (w : World) (p : Principal) (text s : String) (body : Option PatchOrderBody) (db db' : Store)
    (r : WorkOrder) (aid : ℕ) (fault : Statement → Bool) (now : ℕ) (c : Caller)
    (in' : ExecutionInput)
    → patch_staff_work_order w p text body db ≡ (db', ok r)
    → (patch_body body).assignee_id ≡ some s
    → w.parse_uuid s ≡ some aid
    → w.parse_uuid text ≡ some in'.work_order_id
    → c.tenant_id ≡ p.tenant_id
    → (aid == c.worker_id) ≡ false
    → fault begin_tx ≡ false
    → fault get_order ≡ false
    → (get_work_order_for_worker in'.work_order_id p.tenant_id db'.work_orders ≡ some r)
      × ((r.assignee_id ≡ some aid)
          × (upsert_execution fault now c in' db' ≡ (db', some work_order_not_assigned)))
reassigned_refuses w p text s body db db' r aid fault now c in' call named worker parsed tenant
      other begins reads =
    let moved = patch-Reassigned w p text body db db' r call in
    let same : moved.id ≡ in'.work_order_id = cc (moved.parsed, parsed) in
    let stored =
      subst (λ k. get_work_order_for_worker k p.tenant_id db'.work_orders ≡ some r) same
        moved.after_call in
    let given =
      now_given w s _ moved.old.assignee_id r.assignee_id aid named worker moved.assignee in
    (
      stored,
      (
        given,
        not_assigned fault now c in' db' r reads
            (subst (λ t. get_work_order_for_worker in'.work_order_id t db'.work_orders ≡ some r)
              (sym tenant) stored)
            (rw given other) begins,
      ),
    )
