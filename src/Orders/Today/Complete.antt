-- ===== src/Orders/Today/Complete.antt =====
-- What the worker's working set holds (workorder/http.go, `registerToday`).
use sdano.Base.{
  ℕ, ◌≡◌, refl, sym, ap, ◌∙◌, subst, Bool, true, ◌&&◌, Option, none, some, List, [], ◌∷◌, ◌==◌,
  ==_refl, is_some, map, length, All, All-mono, ok, Bool-cases, Option-cases, Result-cases, inl,
  inr, arith,
}
use sdano.Base.Table.{select_one, select, matching}
use sdano.Base.Table.Keys.{Unique}
use sdano.Base.Sorting.Counts.{
  matching-collect, matching-sort_by, length-matching, fits_joined, matching-cong,
}
use sdano.Store.{Store, Object, WorkOrder}
use sdano.Queries.Worker.{contains}
use sdano.Queries.Day.{list_worker_today_orders, is_mine_today, object_at, with_object, today_row}
use sdano.Calendar.{tenant_today}
use sdano.Session.{Principal}
use sdano.Orders.{World, load_timezone, list_today}
use sdano.Orders.Today.{
  TodayObject, TodayOrder, TodayOutput, ItemsByVersion, version_set, load_items, today_order,
  add_orders, empty_output, worker_today,
}
use sdano.Base.Table.Laws.{All-select}
use sdano.Base.Sorting.Laws.{All-collect, sort_by-All}
use sdano.Orders.Today.Seen.{Row, IsListed, orders-IsSeen}

-- A row that fits is found under its id.
own_rows :
    (m : WorkOrder → Bool) (t : List WorkOrder)
    → All (λ r. m r ≡ true → is_some (select_one (λ x. x.id == r.id && m x) t) ≡ true) t
unfolding select_one
own_rows m [] = tt
own_rows m (r ∷ t) = (
  (λ h. ground (arith, ==_refl r.id)),
  All-mono _ _ t (λ x h k. later r (λ y. y.id == x.id && m y) t (h k)) (own_rows m t),
)
  where
    later :
        (r : WorkOrder) (q : WorkOrder → Bool) (t : List WorkOrder)
        → is_some (select_one q t) ≡ true
        → is_some (select_one q (r ∷ t)) ≡ true
    later r q t h = ground arith

-- An order of the caller's, due on the day, is stored under the id.
abbrev pub IsMine : ℕ → ℕ → ℕ → Store → ℕ → Type 0
IsMine tenant_id user_id today db id =
    is_some (select_one (λ r. r.id == id && is_mine_today tenant_id user_id today r) db.work_orders)
    ≡ true

joined_id :
    (db : Store) (r : WorkOrder) (o : Option Object) (row : Row)
    → with_object (today_row r) o ≡ some row
    → row.id ≡ r.id
joined_id db r none row h = absurd (cc)
joined_id db r (some o) row h = let same : today_row r o ≡ row = cc in ap (λ x. x.id) (sym same)

-- How many stored orders are the caller's, due on the day, and on a known object.
abbrev pub own_orders : ℕ → ℕ → ℕ → Store → ℕ
own_orders tenant_id user_id today db =
    matching (λ r. is_mine_today tenant_id user_id today r && is_some (object_at db r))
      db.work_orders

module _ (w : World) (p : Principal) (today : ℕ) (db : Store) where
  abbrev listed_rows : List Row
  listed_rows = list_worker_today_orders w.collate p.tenant_id p.user_id today db

  rows-IsMine : All (λ row. IsMine p.tenant_id p.user_id today db row.id) listed_rows
  unfolding list_worker_today_orders
  rows-IsMine =
      let mine = is_mine_today p.tenant_id p.user_id today in
      sort_by-All _ _ _ (
        All-collect (λ r. IsMine p.tenant_id p.user_id today db r.id) _
          (λ r. with_object (today_row r) (object_at db r)) (select mine db.work_orders)
          (λ r row h k.
            subst (IsMine p.tenant_id p.user_id today db)
              (sym (joined_id db r (object_at db r) row h)) k)
          (All-select _ _ mine db.work_orders (λ r h k. h k) (own_rows mine db.work_orders)))

  known_object :
      (o : Option Object) (r : WorkOrder)
      → fits_joined (λ x. true) (with_object (today_row r) o) ≡ is_some o
  known_object none r = refl
  known_object (some o) r = refl

  rows_count : length listed_rows ≡ own_orders p.tenant_id p.user_id today db
  unfolding list_worker_today_orders
  rows_count =
      let mine = is_mine_today p.tenant_id p.user_id today in
      length-matching listed_rows
      ∙ matching-sort_by _ (λ x. true) _
      ∙ matching-collect _ (λ x. true) mine db.work_orders
      ∙ matching-cong _ _ db.work_orders
          (λ r. ap (λ b. mine r && b) (known_object (object_at db r) r))

All-map {ℓ κ} :
    {A : Type ℓ} {B : Type κ} (P : B → Type 0) (f : A → B) (t : List A)
    → All (λ a. P (f a)) t
    → All P (map f t)
All-map P f [] h = tt
All-map P f (a ∷ t) h = (h.0, All-map P f t h.1)

length-map {ℓ κ} : {A : Type ℓ} {B : Type κ} (f : A → B) (t : List A) → length (map f t) ≡ length t
length-map f [] = refl
length-map f (a ∷ t) = omega (arith, length-map f t)

-- The answer holds the caller's orders of the day, and each of their objects once.
pub record IsWorkingSet (p : Principal) (today : ℕ) (db : Store) (out : TodayOutput) : Type 0 where
  pub count : length out.work_orders ≡ own_orders p.tenant_id p.user_id today db
  pub mine : All (λ (o : TodayOrder). IsMine p.tenant_id p.user_id today db o.id) out.work_orders
  pub once : Unique (λ (o : TodayObject). o.id) out.objects
  pub listed : All (IsListed out.objects) out.work_orders

module _ (w : World) (p : Principal) (db : Store) where
  today_lem :
      (out : TodayOutput)
      → worker_today w p db ≡ ok out
      → (today : ℕ) × (items : ItemsByVersion) × ((tenant_today w.clock p.tenant_id db ≡ some today)
          × (out ≡ add_orders items (listed_rows w p today db) [] (empty_output w.now)))
  unfolding worker_today
  today_lem out h = elim (Bool-cases (w.fault load_timezone)) [
    | inl f ↦ absurd (cc (rw f at h))
    | inr f ↦ elim (Option-cases (tenant_today w.clock p.tenant_id db)) [
      | inl n ↦ absurd (cc (rw (f, n) at h))
      | inr (today, n) ↦ elim (Bool-cases (w.fault list_today)) [
        | inl g ↦ absurd (cc (rw (f, n, g) at h))
        | inr g ↦
            let ids = version_set (listed_rows w p today db) [] in
            elim (Result-cases (load_items w p ids db)) [
              | inr (e, q) ↦ absurd (cc (rw (f, n, g, q) at h))
              | inl (items, q) ↦ (today, items, (n, cc (rw (f, n, g, q) at h)))
            ]
      ]
    ]
  ]

  built-IsWorkingSet :
      (today : ℕ) (items : ItemsByVersion)
      → IsWorkingSet p today db
          (add_orders items (listed_rows w p today db) [] (empty_output w.now))
  unfolding contains select_one
  built-IsWorkingSet today items =
      let rows = listed_rows w p today db in
      let out = add_orders items rows [] (empty_output w.now) in
      let (unique, (listed, orders)) =
        orders-IsSeen items rows [] (empty_output w.now)
          (record { same = λ x. refl; unique = tt; listed = tt }) in
      record {
        count = ap length orders ∙ length-map (today_order items) rows ∙ rows_count w p today db;
        mine =
            subst (All (λ (o : TodayOrder). IsMine p.tenant_id p.user_id today db o.id))
              (sym orders) (All-map _ (today_order items) rows (rows-IsMine w p today db));
        once = unique;
        listed = listed;
      }

  -- The working set that a worker is answered holds as many orders as the store has that are
  -- assigned to the caller, due on the tenant's today and on a known object; each of them is one of
  -- those stored orders; its object is among the listed objects; and no object is listed twice.
  pub today_complete :
      (out : TodayOutput)
      → worker_today w p db ≡ ok out
      → (today : ℕ) × ((tenant_today w.clock p.tenant_id db ≡ some today)
          × IsWorkingSet p today db out)
  today_complete out h =
      let (today, items, (zone, same)) = today_lem out h in
      (today, (zone, subst (IsWorkingSet p today db) (sym same) (built-IsWorkingSet today items)))
