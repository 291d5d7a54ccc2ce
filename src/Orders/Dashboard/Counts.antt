-- ===== src/Orders/Dashboard/Counts.antt =====
-- What the totals of the dashboard count (workorder/http.go, `registerStaffDashboard`).
use sdano.Base.{
  ℕ, ◌+◌, ◌≡◌, refl, sym, ap, ◌∙◌, subst, Bool, true, false, ◌&&◌, Option, none, some, String, List,
  [], ◌∷◌, is_some, length, length-append, ok, Bool-cases, Option-cases, Result-cases, inl, inr,
  arith, if◌then◌else◌,
}
use sdano.Base.Table.{matching}
use sdano.Base.Sorting.Counts.{
  matching-sort_by, matching-collect, length-matching, fits_joined, matching-cong,
}
use sdano.Store.{Store, Object, WorkOrder, in_progress, done}
use sdano.Queries.Orders.{status_eq}
use sdano.Queries.Day.{
  ListDashboardOrdersRow, list_dashboard_orders, object_at, with_object, dashboard_row,
  latest_execution, is_due,
}
use sdano.Calendar.{tenant_today}
use sdano.Session.{Principal}
use sdano.Orders.{World, load_timezone, list_dashboard}
use sdano.Orders.Dashboard.{
  object_view, Dashboard, is_late, counted, add_row, add_rows, empty_dashboard, with_total,
  query_date, staff_dashboard,
}

abbrev Row : Type 0
Row = ListDashboardOrdersRow

abbrev is_done : Row → Bool
is_done r = status_eq r.status done

abbrev is_open : Row → Bool
is_open r = status_eq r.status in_progress

-- The loop counts the rows.
record Counted (today : ℕ) (rows : List Row) (d d' : Dashboard) : Type 0 where
  done : d'.totals.done ≡ d.totals.done + matching is_done rows
  in_progress : d'.totals.in_progress ≡ d.totals.in_progress + matching is_open rows
  overdue :
      d'.totals.overdue ≡ d.totals.overdue + matching (λ r. is_late today r.status r.due_date) rows
  objects : length d'.objects ≡ length d.objects + length rows

add_rows-Counted :
    (today : ℕ) (rows : List Row) (d : Dashboard) → Counted today rows d (add_rows today rows d)
unfolding add_rows matching
add_rows-Counted today [] d = record {
  done = omega arith;
  in_progress = omega arith;
  overdue = omega arith;
  objects = omega arith;
}
add_rows-Counted today (r ∷ rows) d =
    let rest = add_rows-Counted today rows (add_row today r d) in
    let one = length-append d.objects (object_view r ∷ []) in
    record {
      done = rest.done ∙ count_step (is_done r) d.totals.done (matching is_done rows);
      in_progress =
          rest.in_progress ∙ count_step (is_open r) d.totals.in_progress (matching is_open rows);
      overdue =
          rest.overdue
          ∙ count_step (is_late today r.status r.due_date) d.totals.overdue
              (matching (λ x. is_late today x.status x.due_date) rows);
      objects = omega (arith, rest.objects, one);
    }
  where
    count_step : (b : Bool) (n m : ℕ) → counted b n + m ≡ n + ((if b then 1 else 0) + m)
    count_step true n m = omega arith
    count_step false n m = omega arith

-- The tenant's orders that are due on the day, whose object is known, and that meet a condition.
abbrev pub shown : Store → ℕ → ℕ → (WorkOrder → Bool) → WorkOrder → Bool
shown db tenant_id day q r = is_due tenant_id day r && (is_some (object_at db r) && q r)

fits_shown :
    (q : Row → Bool) (f : Object → Row) (b : Bool) (o : Option Object)
    → ((x : Object) → q (f x) ≡ b)
    → fits_joined q (with_object f o) ≡ is_some o && b
fits_shown q f b none h = refl
fits_shown q f b (some o) h = h o

row_count :
    (collate : String → String → Bool) (tenant_id day : ℕ) (db : Store) (q : Row → Bool)
    (q' : WorkOrder → Bool)
    → ((r : WorkOrder) (o : Object) → q (dashboard_row db r (latest_execution db r) o) ≡ q' r)
    → matching q (list_dashboard_orders collate tenant_id day db)
      ≡ matching (shown db tenant_id day q') db.work_orders
unfolding list_dashboard_orders
row_count collate tenant_id day db q q' h =
    matching-sort_by _ q _
    ∙ matching-collect _ q (is_due tenant_id day) db.work_orders
    ∙ matching-cong _ _ db.work_orders (λ r.
      ap (λ b. is_due tenant_id day r && b)
        (fits_shown q (dashboard_row db r (latest_execution db r)) (q' r) (object_at db r) (h r)))

from_zero : (n m k : ℕ) → n ≡ 0 + m → m ≡ k → n ≡ k
from_zero n m k h e = omega arith

-- The totals are counts of the stored orders.
pub record Totals (db : Store) (tenant_id today : ℕ) (d : Dashboard) : Type 0 where
  pub total : d.totals.total ≡ matching (shown db tenant_id d.date (λ r. true)) db.work_orders
  pub listed : length d.objects ≡ d.totals.total
  pub finished :
      d.totals.done
      ≡ matching (shown db tenant_id d.date (λ r. status_eq r.status done)) db.work_orders
  pub running :
      d.totals.in_progress
      ≡ matching (shown db tenant_id d.date (λ r. status_eq r.status in_progress)) db.work_orders
  pub late :
      d.totals.overdue
      ≡ matching (shown db tenant_id d.date (λ r. is_late today r.status r.due_date)) db.work_orders

module _ (w : World) (p : Principal) (db : Store) (today : ℕ) where
  abbrev built : ℕ → Dashboard
  built day =
      let rows = list_dashboard_orders w.collate p.tenant_id day db in
      with_total (length rows) (add_rows today rows (empty_dashboard day))

  -- The loop does not change the date.
  same_date : (rows : List Row) (d : Dashboard) → (add_rows today rows d).date ≡ d.date
  unfolding add_rows
  same_date [] d = refl
  same_date (r ∷ rows) d = same_date rows (add_row today r d)

  built-Totals : (day : ℕ) → Totals db p.tenant_id today (built day)
  built-Totals day =
      let rows = list_dashboard_orders w.collate p.tenant_id day db in
      let count = add_rows-Counted today rows (empty_dashboard day) in
      let all = row_count w.collate p.tenant_id day db in
      let date = sym (same_date rows (empty_dashboard day)) in
      let on = λ (q : WorkOrder → Bool).
        ap (λ x. matching (shown db p.tenant_id x q) db.work_orders) date in
      record {
        total = length-matching rows ∙ all (λ r. true) (λ r. true) (λ r o. refl) ∙ on (λ r. true);
        listed = count.objects ∙ omega arith;
        finished = from_zero _ _ _ count.done (
            all is_done (λ r. status_eq r.status done) (λ r o. refl)
            ∙ on (λ r. status_eq r.status done));
        running = from_zero _ _ _ count.in_progress (
            all is_open (λ r. status_eq r.status in_progress) (λ r o. refl)
            ∙ on (λ r. status_eq r.status in_progress));
        late = from_zero _ _ _ count.overdue (
            all (λ r. is_late today r.status r.due_date) (λ r. is_late today r.status r.due_date)
              (λ r o. refl)
            ∙ on (λ r. is_late today r.status r.due_date));
      }

-- A dashboard that is answered was built for a date.
dashboard_lem :
    (w : World) (p : Principal) (date : String) (db : Store) (d : Dashboard)
    → staff_dashboard w p date db ≡ ok d
    → (today : ℕ) × (day : ℕ) × ((tenant_today w.clock p.tenant_id db ≡ some today)
        × ((query_date w today date ≡ ok day) × (d ≡ built w p db today day)))
unfolding staff_dashboard
dashboard_lem w p date db d h = elim (Bool-cases (w.fault load_timezone)) [
  | inl f ↦ absurd (cc (rw f at h))
  | inr f ↦ elim (Option-cases (tenant_today w.clock p.tenant_id db)) [
    | inl n ↦ absurd (cc (rw (f, n) at h))
    | inr (today, n) ↦ elim (Result-cases (query_date w today date)) [
      | inr (e, q) ↦ absurd (cc (rw (f, n, q) at h))
      | inl (day, q) ↦ elim (Bool-cases (w.fault list_dashboard)) [
        | inl g ↦ absurd (cc (rw (f, n, q, g) at h))
        | inr g ↦ (today, day, (n, (q, cc (rw (f, n, q, g) at h))))
      ]
    ]
  ]
]

-- The totals of an answered dashboard are counts over the stored orders of the tenant that are due
-- on its date and whose object is known: all of them, the done ones, those in progress, and those
-- that are still open though they were due before the tenant's today; and as many objects are
-- listed as there are orders.
pub dashboard_counts :
    (w : World) (p : Principal) (date : String) (db : Store) (d : Dashboard)
    → staff_dashboard w p date db ≡ ok d
    → (today : ℕ) × ((tenant_today w.clock p.tenant_id db ≡ some today)
        × Totals db p.tenant_id today d)
dashboard_counts w p date db d h =
    let (today, day, (zone, (asked, same))) = dashboard_lem w p date db d h in
    (today, (zone, subst (Totals db p.tenant_id today) (sym same) (built-Totals w p db today day)))

none_late :
    (db : Store) (tenant_id today : ℕ) (t : List WorkOrder)
    → matching (shown db tenant_id today (λ r. is_late today r.status r.due_date)) t ≡ 0
unfolding matching
none_late db tenant_id today [] = refl
none_late db tenant_id today (r ∷ t) = ground (arith, none_late db tenant_id today t)

-- Where no date is asked for, nothing is overdue.
today_not_overdue :
    (w : World) (p : Principal) (db : Store) (d : Dashboard)
    → staff_dashboard w p "" db ≡ ok d
    → d.totals.overdue ≡ 0
today_not_overdue w p db d h =
    let (today, day, (zone, (asked, same))) = dashboard_lem w p "" db d h in
    let on_day : today ≡ day = cc in
    let date =
      ap (λ x. x.date) same ∙ same_date w p db today _ (empty_dashboard day) ∙ sym on_day in
    let count = subst (Totals db p.tenant_id today) (sym same) (built-Totals w p db today day) in
    count.late
    ∙ ap
        (λ x.
          matching (shown db p.tenant_id x (λ r. is_late today r.status r.due_date)) db.work_orders)
        date
    ∙ none_late db p.tenant_id today db.work_orders
