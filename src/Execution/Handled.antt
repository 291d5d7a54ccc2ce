-- ===== src/Execution/Handled.antt =====
-- What the handler of a snapshot does on each of its ways (workorder/http.go).
use sdano.Base.{
  ℕ, Bool, true, false, ◌≡◌, refl, ap, ◌∙◌, subst, Option, none, some, String, List, [], ◌∷◌, ok,
  err, Result-cases, Option-cases, inl, inr, arith,
}
use sdano.Store.{Store}
use sdano.Queries.Worker.{get_execution}
use sdano.Queries.Tenants.{get_tenant_suspension}
use sdano.Session.{Principal}
use sdano.Photo.{is_evidence, is_before}
use sdano.Execution.{Statement, UpsertError, ExecutionItemInput, ExecutionInput, upsert_execution}
use sdano.Execution.Handler.{
  ReadStatement, HandlerError, ExecutionItemBody, ExecutionUpsertInput, ExecutionView, parse_items,
  check_evidence, prepare, load_execution_view, list_execution_items, list_execution_photos, answer,
  caller_of, put_execution,
}

-- The item that is upserted for an item of the request.
pub record IsItem (parse_uuid : String → Option ℕ) (it : ExecutionItemBody) (r : ExecutionItemInput)
    : Type 0 where
  pub id : parse_uuid it.id ≡ some r.id
  pub template_item : parse_uuid it.template_item_id ≡ some r.template_item_id
  pub checked : r.checked ≡ it.checked
  pub checked_at : r.checked_at ≡ it.checked_at

-- One for one and in order.
abbrev pub AreItems :
    (String → Option ℕ) → List ExecutionItemBody → List ExecutionItemInput → Type 0
AreItems parse_uuid [] [] = Unit
AreItems parse_uuid [] (r ∷ items) = ⊥
AreItems parse_uuid (it ∷ bodies) [] = ⊥
AreItems parse_uuid (it ∷ bodies) (r ∷ items) =
    IsItem parse_uuid it r × AreItems parse_uuid bodies items

-- The snapshot that is upserted for a request.
pub record IsSnapshot (parse_uuid : String → Option ℕ) (input : ExecutionUpsertInput)
    (in' : ExecutionInput) : Type 0 where
  pub order : parse_uuid input.work_order_id ≡ some in'.work_order_id
  pub started : in'.started_at ≡ input.started_at
  pub finished : in'.device_finished_at ≡ input.device_finished_at
  pub note : in'.note ≡ input.note
  pub items : AreItems parse_uuid input.items in'.items

-- The view holds what is stored of an execution.
pub record Shows (tenant execution_id : ℕ) (db : Store) (view : ExecutionView) : Type 0 where
  pub row : get_execution execution_id tenant db.executions ≡ some view.execution
  pub items : view.items ≡ list_execution_items execution_id db.execution_items
  pub photos : view.photos ≡ list_execution_photos execution_id tenant db.photos

abbrev parsed_item : ExecutionItemBody → ℕ → ℕ → ExecutionItemInput
parsed_item it id template = record {
  id = id;
  template_item_id = template;
  checked = it.checked;
  checked_at = it.checked_at;
}

abbrev parsed_input : ExecutionUpsertInput → ℕ → List ExecutionItemInput → ExecutionInput
parsed_input input order items = record {
  work_order_id = order;
  started_at = input.started_at;
  device_finished_at = input.device_finished_at;
  note = input.note;
  items = items;
}

module _ (parse_uuid : String → Option ℕ) (fault : ReadStatement → Bool)
    (upsert_fault : Statement → Bool) (now : ℕ) (p : Principal) (input : ExecutionUpsertInput)
    (db : Store) where
  prepare-check_evidence :
      (execution_id : ℕ) (in' : ExecutionInput)
      → prepare parse_uuid fault p input db ≡ ok (execution_id, in')
      → (check_evidence parse_uuid fault p.tenant_id input.device_finished_at db ≡ ok tt)
        × (in'.device_finished_at ≡ input.device_finished_at)
  unfolding prepare
  prepare-check_evidence execution_id in' h =
      elim (Result-cases (parse_items parse_uuid fault input.items)) [
        | inr (e, f) ↦ absurd (ground arith)
        | inl (items, f) ↦
            elim (Result-cases
              (check_evidence parse_uuid fault p.tenant_id input.device_finished_at db)) [
                | inr (e, g) ↦ absurd (ground arith)
                | inl (u, g) ↦ (g, ground arith)
              ]
      ]

  check_evidence-is_evidence :
      (s : Option ℕ)
      → get_tenant_suspension p.tenant_id db.tenants ≡ some s
      → check_evidence parse_uuid fault p.tenant_id input.device_finished_at db ≡ ok tt
      → is_evidence s input.device_finished_at ≡ true
  unfolding check_evidence
  check_evidence-is_evidence s h k = ground arith

  -- A snapshot of a suspended tenant that the device did not finish before the suspension is
  -- refused, and the database stays as it is, whatever statements fail.
  pub late_snapshot_refused :
      (t : ℕ)
      → get_tenant_suspension p.tenant_id db.tenants ≡ some (some t)
      → is_before input.device_finished_at t ≡ false
      → (e : HandlerError) × (put_execution parse_uuid fault upsert_fault now p input db
          ≡ (db, err e))
  unfolding put_execution
  late_snapshot_refused t s late = elim (Result-cases (prepare parse_uuid fault p input db)) [
    | inr (e, f) ↦ (e, rw (f, put_execution) refl)
    | inl ((execution_id, in'), f) ↦
        let (gate, same) = prepare-check_evidence execution_id in' f in
        absurd (ground (arith, check_evidence-is_evidence (some t) s gate))
  ]

  answer-ok :
      (tenant execution_id : ℕ) (m : Store × Option UpsertError) (db' : Store)
      (view : ExecutionView)
      → answer parse_uuid fault tenant execution_id m ≡ (db', ok view)
      → (m ≡ (db', none)) × (load_execution_view parse_uuid fault tenant execution_id db' ≡ ok view)
  answer-ok tenant execution_id (d, some e) db' view h = absurd (ground arith)
  answer-ok tenant execution_id (d, none) db' view h =
      let same : d ≡ db' = ap (λ r. r.0) h in
      (
        ap (λ x. (x, none)) same,
        subst (λ x. load_execution_view parse_uuid fault tenant execution_id x ≡ ok view) same
            (ap (λ r. r.1) h),
      )

  load_execution_view-Shows :
      (tenant execution_id : ℕ) (d : Store) (view : ExecutionView)
      → load_execution_view parse_uuid fault tenant execution_id d ≡ ok view
      → Shows tenant execution_id d view
  unfolding load_execution_view
  load_execution_view-Shows tenant execution_id d view h =
      elim (Option-cases (get_execution execution_id tenant d.executions)) [
        | inl f ↦ absurd (ground arith)
        | inr (e, f) ↦ record { row = ground arith; items = ground arith; photos = ground arith }
      ]

  parse_items_lem :
      (bodies : List ExecutionItemBody) (items : List ExecutionItemInput)
      → parse_items parse_uuid fault bodies ≡ ok items
      → AreItems parse_uuid bodies items
  unfolding parse_items
  parse_items_lem [] items h = let same : [] ≡ items = cc in subst (AreItems parse_uuid []) same tt
  parse_items_lem (it ∷ bodies) items h = elim (Option-cases (parse_uuid it.id)) [
    | inl n ↦ absurd (cc (rw n at h))
    | inr (id, i) ↦ elim (Option-cases (parse_uuid it.template_item_id)) [
      | inl n ↦ absurd (cc (rw (i, n) at h))
      | inr (template, t) ↦ elim (Result-cases (parse_items parse_uuid fault bodies)) [
        | inr (e, r) ↦ absurd (cc (rw (i, t, r) at h))
        | inl (rest, r) ↦
            let same : parsed_item it id template ∷ rest ≡ items = cc (rw (i, t, r) at h) in
            subst (AreItems parse_uuid (it ∷ bodies)) same (
              record { id = i; template_item = t; checked = refl; checked_at = refl },
              parse_items_lem bodies rest r,
            )
      ]
    ]
  ]

  prepare_lem :
      (execution_id : ℕ) (in' : ExecutionInput)
      → prepare parse_uuid fault p input db ≡ ok (execution_id, in')
      → (parse_uuid input.id ≡ some execution_id) × IsSnapshot parse_uuid input in'
  unfolding prepare
  prepare_lem execution_id in' h = elim (Option-cases (parse_uuid input.id)) [
    | inl n ↦ absurd (cc (rw n at h))
    | inr (id, i) ↦ elim (Option-cases (parse_uuid input.work_order_id)) [
      | inl n ↦ absurd (cc (rw (i, n) at h))
      | inr (order, o) ↦ elim (Result-cases (parse_items parse_uuid fault input.items)) [
        | inr (e, f) ↦ absurd (cc (rw (i, o, f) at h))
        | inl (items, f) ↦
            elim (Result-cases
              (check_evidence parse_uuid fault p.tenant_id input.device_finished_at db)) [
                | inr (e, g) ↦ absurd (cc (rw (i, o, f, g) at h))
                | inl (u, g) ↦
                    let same : (id, parsed_input input order items) ≡ (execution_id, in') =
                      cc (rw (i, o, f, g) at h) in
                    (
                      i ∙ ap (λ x. some x.0) same,
                      subst (λ (x : ℕ × ExecutionInput). IsSnapshot parse_uuid input x.1) same
                          (record {
                            order = o;
                            started = refl;
                            finished = refl;
                            note = refl;
                            items = parse_items_lem input.items items f;
                          }),
                    )
              ]
      ]
    ]
  ]

  -- A snapshot that is answered with a view was committed in the caller's name, under the
  -- execution's id and for the order that the request names, with the times, the note and, one for
  -- one and in order, the items of the request; the view holds that execution, its items and its
  -- photos as they are stored afterwards.
  pub put_execution-commits :
      (db' : Store) (view : ExecutionView)
      → put_execution parse_uuid fault upsert_fault now p input db ≡ (db', ok view)
      → (execution_id : ℕ) × ((in' : ExecutionInput) × ((parse_uuid input.id ≡ some execution_id)
            × (IsSnapshot parse_uuid input in'
                × ((upsert_execution upsert_fault now
                        (caller_of parse_uuid fault p execution_id)
                        in'
                        db
                      ≡ (db', none))
                    × Shows p.tenant_id execution_id db' view))))
  unfolding put_execution
  put_execution-commits db' view h = elim (Result-cases (prepare parse_uuid fault p input db)) [
    | inr (e, f) ↦ absurd (ground arith)
    | inl ((execution_id, in'), f) ↦
        let (committed, loaded) =
          answer-ok p.tenant_id execution_id
            (upsert_execution upsert_fault now (caller_of parse_uuid fault p execution_id) in' db)
            db' view (rw (f, put_execution) at h) in
        let (named, snapshot) = prepare_lem execution_id in' f in
        (
          execution_id,
          (
            in',
            (
              named,
              (
                snapshot,
                (committed, load_execution_view-Shows p.tenant_id execution_id db' view loaded),
              ),
            ),
          ),
        )
  ]
