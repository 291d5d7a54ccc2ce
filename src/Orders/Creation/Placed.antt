-- ===== src/Orders/Creation/Placed.antt =====
-- A batch of work orders lands entirely, on references of the tenant, or not at all
-- (workorder/http.go, `createStaffWorkOrders`).
use mathlib.Core.List.{append_assoc, append-nil}
use sdano.Base.{
  ℕ, ◌≡◌, refl, sym, ap, ◌∙◌, subst, Option, none, some, List, [], ◌∷◌, ◌++◌, ◌==◌, is_some, map,
  All, Result, ok, err, Bool-cases, Result-cases, inl, inr,
}
use sdano.Base.Table.{select_one, insert}
use sdano.Store.{Store, WorkOrder}
use sdano.Queries.Orders.{insert_work_order}
use sdano.Session.{Principal}
use sdano.Orders.{World, OrderError, begin_tx, commit_tx, insert_row}
use sdano.Orders.Creation.{
  OrderCreateBody, ParsedOrder, Batch, parse_order_batch, validate_order_references, new_order,
  insert_orders, empty_batch, create_tx, committed, create_staff_work_orders,
}
use sdano.Orders.Creation.Collected.{batch-IsCollected}
use sdano.Orders.Creation.Requested.{AreRequested, batch-AreRequested}
use sdano.Orders.Creation.Validated.{IsPlaced, Keyed, validated, all-IsPlaced}

inserted_orders :
    (w : World) (tenant_id : ℕ) (orders : List ParsedOrder) (t t' : List WorkOrder)
    → insert_orders w tenant_id orders t ≡ ok t'
    → t' ≡ t ++ map (new_order w tenant_id) orders
unfolding insert_orders insert_work_order
inserted_orders w tenant_id [] t t' h = let same : t ≡ t' = cc in sym same ∙ sym (append-nil t)
inserted_orders w tenant_id (o ∷ orders) t t' h = elim (Bool-cases (w.fault (insert_row o.id))) [
  | inl f ↦ absurd (cc (rw f at h))
  | inr f ↦ elim (Bool-cases (is_some (select_one (λ (x : WorkOrder). x.id == o.id) t))) [
    | inl e ↦ absurd (cc (rw (f, e) at h))
    | inr e ↦
        inserted_orders w tenant_id orders (insert (new_order w tenant_id o) t) t' (rw (f, e) at h)
        ∙ append_assoc t (new_order w tenant_id o ∷ []) _
  ]
]

map-new_order :
    (w : World) (tenant_id : ℕ) (orders : List ParsedOrder)
    → map (λ o. o.id) orders ≡ map (λ (r : WorkOrder). r.id) (map (new_order w tenant_id) orders)
map-new_order w tenant_id [] = refl
map-new_order w tenant_id (o ∷ orders) = ap (λ ids. o.id ∷ ids) (map-new_order w tenant_id orders)

-- How a bulk creation ends.
pub data Outcome (w : World) (p : Principal) (body : Option (List OrderCreateBody)) (db : Store)
    : Store × Result OrderError (List ℕ) → Type 0 where
  refused : (e : OrderError) → Outcome w p body db (db, err e)
  placed :
      (items : List OrderCreateBody) (new : List WorkOrder)
      → body ≡ some items
      → AreRequested w items new
      → All (IsPlaced p.tenant_id db) new
      → Outcome w p body db (
        record db { work_orders = db.work_orders ++ new },
        ok (map (λ (r : WorkOrder). r.id) new),
      )

-- What a transaction that commits has done.
create_tx_lem :
    (w : World) (p : Principal) (body : Option (List OrderCreateBody)) (db : Store)
    (r : List WorkOrder × List ℕ)
    → create_tx w p body db ≡ ok r
    → (items : List OrderCreateBody) × (b : Batch) × (u : Unit {0}) × ((body ≡ some items)
        × ((parse_order_batch w 0 items empty_batch ≡ ok b)
            × ((validate_order_references w p.tenant_id b db ≡ ok u)
                × ((insert_orders w p.tenant_id b.parsed db.work_orders ≡ ok r.0)
                    × (r.1 ≡ map (λ o. o.id) b.parsed)))))
unfolding create_tx
create_tx_lem w p none db r h = absurd (cc)
create_tx_lem w p (some items) db r h =
    elim (Result-cases (parse_order_batch w 0 items empty_batch)) [
      | inr (e, i) ↦ absurd (cc (rw i at h))
      | inl (b, i) ↦ elim (Bool-cases (w.fault begin_tx)) [
        | inl f ↦ absurd (cc (rw (i, f) at h))
        | inr f ↦ elim (Result-cases (validate_order_references w p.tenant_id b db)) [
          | inr (e, v) ↦ absurd (cc (rw (i, f, v) at h))
          | inl (u, v) ↦ elim (Result-cases (insert_orders w p.tenant_id b.parsed db.work_orders)) [
            | inr (e, j) ↦ absurd (cc (rw (i, f, v, j) at h))
            | inl (t, j) ↦ elim (Bool-cases (w.fault commit_tx)) [
              | inl g ↦ absurd (cc (rw (i, f, v, j, g) at h))
              | inr g ↦
                  let same : (t, map (λ (o : ParsedOrder). o.id) b.parsed) ≡ r =
                    cc (rw (i, f, v, j, g) at h) in
                  (
                    items,
                    b,
                    u,
                    (refl, (i, (v, (j ∙ ap (λ x. ok x.0) same, ap (λ x. x.1) (sym same))))),
                  )
            ]
          ]
        ]
      ]
    ]

placed-Outcome :
    (w : World) (p : Principal) (body : Option (List OrderCreateBody)) (db : Store)
    (r : List WorkOrder × List ℕ)
    → Keyed db
    → create_tx w p body db ≡ ok r
    → Outcome w p body db (committed db (ok r))
placed-Outcome w p body db r keyed h =
    let (items, b, u, (given, (parsed, (valid, (inserted, ids))))) =
      create_tx_lem w p body db r h in
    let rows = inserted_orders w p.tenant_id b.parsed db.work_orders r.0 inserted in
    let collected = batch-IsCollected w 0 items empty_batch b parsed tt in
    let refs = validated w p.tenant_id db keyed b u valid in
    let (new, (all, asked)) = batch-AreRequested w p.tenant_id 0 items empty_batch b parsed in
    let requested =
      subst (λ orders. AreRequested w items (map (new_order w p.tenant_id) orders)) (sym all)
        asked in
    let outcome =
      placed items (map (new_order w p.tenant_id) b.parsed) given requested
        (all-IsPlaced w p.tenant_id db keyed b b.parsed refs collected.0) in
    subst (Outcome w p body db)
      (λ i. (
        record db { work_orders = sym rows i },
        ok (sym (ids ∙ map-new_order w p.tenant_id b.parsed) i),
      ))
      outcome

-- A bulk creation that runs with no other call between its statements is refused and changes
-- nothing, or it adds, after the orders that were there, one scheduled order of the caller's tenant
-- for each item of the body, one for one and in order, with the object, the version, the due date
-- and the assignee (or none) that the item names, and answers with their ids. On the database that
-- it found, each of them is for an active object and a checklist version of the tenant, and for an
-- active worker of the tenant if it is for any.
pub orders_all_or_nothing :
    (w : World) (p : Principal) (body : Option (List OrderCreateBody)) (db : Store)
    → Keyed db
    → Outcome w p body db (create_staff_work_orders w p body db)
unfolding create_staff_work_orders
orders_all_or_nothing w p body db keyed = elim (Result-cases (create_tx w p body db)) [
  | inr (e, h) ↦ subst (λ x. Outcome w p body db (committed db x)) (sym h) (refused e)
  | inl (r, h) ↦
      subst (λ x. Outcome w p body db (committed db x)) (sym h)
        (placed-Outcome w p body db r keyed h)
]
