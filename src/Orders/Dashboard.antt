-- ===== src/Orders/Dashboard.antt =====
-- apps/api/internal/workorder/http.go: the dashboard of a day, with its totals.
pub mod Counts
use sdano.Base.{
  ℕ, ◌+◌, Bool, ◌&&◌, ◌||◌, Option, none, some, String, List, [], ◌∷◌, ◌++◌, ltb, str_eq, length,
  if◌then◌else◌, Result, ok, ◌>>=◌, ◌>>◌, or_err,
}
use sdano.Store.{Store, WorkOrderStatus, scheduled, in_progress, done}
use sdano.Queries.Orders.{status_eq}
use sdano.Queries.Day.{ListDashboardOrdersRow, list_dashboard_orders}
use sdano.Calendar.{tenant_today}
use sdano.Session.{Principal}
use sdano.Orders.{
  World, OrderError, load_timezone, list_dashboard, invalid_date, failed_statement, run_statement,
}

pub record DashboardTotals : Type 0 where
  pub done : ℕ
  pub in_progress : ℕ
  pub overdue : ℕ
  pub total : ℕ

pub record DashboardObjectView : Type 0 where
  pub object_id : ℕ
  pub object_name : String
  pub address : Option String
  pub lat : Option ℕ
  pub lon : Option ℕ
  pub order_id : ℕ
  pub status : WorkOrderStatus
  pub worker_name : Option String
  pub last_activity_at : Option ℕ
  pub last_finished_at : Option ℕ
  pub photo_count : ℕ

pub record Dashboard : Type 0 where
  pub date : ℕ
  pub totals : DashboardTotals
  pub objects : List DashboardObjectView

abbrev pub object_view : ListDashboardOrdersRow → DashboardObjectView
object_view r = record {
  object_id = r.object_id;
  object_name = r.object_name;
  address = r.address;
  lat = r.lat;
  lon = r.lon;
  order_id = r.order_id;
  status = r.status;
  worker_name = r.worker_name;
  last_activity_at = r.last_activity_at;
  last_finished_at = r.last_finished_at;
  photo_count = r.photo_count;
}

abbrev pub is_late : ℕ → WorkOrderStatus → ℕ → Bool
is_late today status due_date =
    (status_eq status scheduled || status_eq status in_progress) && ltb due_date today

abbrev pub counted : Bool → ℕ → ℕ
counted b n = if b then n + 1 else n

-- One round of the loop.
abbrev pub add_row : ℕ → ListDashboardOrdersRow → Dashboard → Dashboard
add_row today r d = record d {
  totals = record d.totals {
    done = counted (status_eq r.status done) d.totals.done;
    in_progress = counted (status_eq r.status in_progress) d.totals.in_progress;
    overdue = counted (is_late today r.status r.due_date) d.totals.overdue;
  };
  objects = d.objects ++ object_view r ∷ [];
}

unfoldable pub add_rows : ℕ → List ListDashboardOrdersRow → Dashboard → Dashboard
add_rows today [] d = d
add_rows today (r ∷ rows) d = add_rows today rows (add_row today r d)

abbrev pub empty_dashboard : ℕ → Dashboard
empty_dashboard date = record {
  date = date;
  totals = record { done = 0; in_progress = 0; overdue = 0; total = 0 };
  objects = [];
}

abbrev pub with_total : ℕ → Dashboard → Dashboard
with_total n d = record d { totals = record d.totals { total = n } }

-- An empty date is today's.
abbrev pub query_date : World → ℕ → String → Result OrderError ℕ
query_date w today date =
    if str_eq date "" then ok today else or_err (w.parse_date date) invalid_date

unfoldable pub staff_dashboard : World → Principal → String → Store → Result OrderError Dashboard
unfolding add_rows
staff_dashboard w p date db = do
  run_statement w load_timezone
  today ← or_err (tenant_today w.clock p.tenant_id db) (failed_statement load_timezone)
  day ← query_date w today date
  run_statement w list_dashboard
  let rows = list_dashboard_orders w.collate p.tenant_id day db
  ok (with_total (length rows) (add_rows today rows (empty_dashboard day)))
