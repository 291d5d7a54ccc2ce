-- ===== src/Examples/Days.antt =====
-- The views of a day and of an execution.
use sdano.Base.{ℕ, ◌≡◌, refl, true, false, none, some, [], ◌∷◌, map, ok, is_some}
use sdano.Base.Table.{select_one, select, matching}
use sdano.Base.Sorting.{sort_by, collect}
use sdano.Store.{worker, done, before, after}
use sdano.Queries.Tenants.{get_tenant_timezone}
use sdano.Queries.Worker.{contains, list_checklist_items_by_versions}
use sdano.Queries.Day.{
  list_worker_today_orders, list_dashboard_orders, object_at, latest_execution,
  sorted_checklist_items,
}
use sdano.Queries.Evidence.{get_execution_detail, list_execution_items_with_titles, is_execution_of}
use sdano.Calendar.{tenant_today}
use sdano.Session.{Principal}
use sdano.Execution.Handler.{list_execution_photos}
use sdano.Orders.Dashboard.{Dashboard, add_rows, staff_dashboard}
use sdano.Orders.Dashboard.Counts.{Totals, dashboard_counts}
use sdano.Orders.Today.{TodayOutput, worker_today, version_set, load_items, group_items, add_orders}
use sdano.Orders.Today.Complete.{IsWorkingSet, today_complete}
use sdano.Orders.Detail.{StaffExecutionDetailView, photo_views, staff_execution_detail}
use sdano.Orders.Detail.Evidence.{seen_photo, stored_photo, evidence_shown}
use sdano.Queries.Objects.{count_uploaded}
use sdano.Examples.Orders.{parse, office_world, boss, depot}

abbrev me : Principal
me = record { user_id = 7; tenant_id = 1; role = worker }

abbrev board : Dashboard
board = record {
  date = 20;
  totals = record { done = 1; in_progress = 0; overdue = 0; total = 1 };
  objects =
      record {
        object_id = 1;
        object_name = "Bus stop";
        address = none;
        lat = none;
        lon = none;
        order_id = 1;
        status = done;
        worker_name = some "Cleaner";
        last_activity_at = some 10;
        last_finished_at = some 16;
        photo_count = 1;
      }
      ∷ [];
}

board_shown : staff_dashboard office_world boss "" depot ≡ ok board
unfolding staff_dashboard tenant_today get_tenant_timezone list_dashboard_orders add_rows object_at
    latest_execution select_one select sort_by collect matching count_uploaded
board_shown = refl

dashboard_counts_example :
    (today : ℕ) × ((tenant_today office_world.clock 1 depot ≡ some today)
      × Totals depot 1 today board)
dashboard_counts_example = dashboard_counts office_world boss "" depot board board_shown

abbrev working_set : TodayOutput
working_set = record {
  generated_at = 30;
  objects =
      record {
        id = 1;
        name = "Bus stop";
        address = none;
        lat = none;
        lon = none;
        qr_token = some "qr1";
      }
      ∷ [];
  work_orders =
      record {
        id = 1;
        object_id = 1;
        due_date = 20;
        status = done;
        checklist = record { version_id = 1; items = [] };
      }
      ∷ [];
}

day_shown : worker_today office_world me depot ≡ ok working_set
unfolding worker_today tenant_today get_tenant_timezone list_worker_today_orders object_at
    version_set contains load_items group_items sorted_checklist_items
    list_checklist_items_by_versions add_orders select_one select sort_by collect
day_shown = refl

today_complete_example :
    (today : ℕ) × ((tenant_today office_world.clock 1 depot ≡ some today)
      × IsWorkingSet me today depot working_set)
today_complete_example = today_complete office_world me depot working_set day_shown

abbrev evidence : StaffExecutionDetailView
evidence = record {
  execution = record {
    id = 100;
    work_order_id = 1;
    created_at = 10;
    started_at = some 10;
    finished_at = some 16;
    device_finished_at = some 15;
    note = none;
    worker_name = "Cleaner";
    object_id = 1;
    object_name = "Bus stop";
  };
  items = [];
  photos =
      record {
        id = 300;
        kind = before;
        taken_at = none;
        lat = none;
        lon = none;
        uploaded = true;
        url = some "url";
        url_expires_at = some 99;
      }
      ∷ record {
        id = 301;
        kind = after;
        taken_at = none;
        lat = none;
        lon = none;
        uploaded = false;
        url = none;
        url_expires_at = none;
      }
      ∷ [];
}

detail_shown : staff_execution_detail office_world boss "execution" depot ≡ ok evidence
unfolding staff_execution_detail get_execution_detail list_execution_items_with_titles
    list_execution_photos photo_views select_one select sort_by collect
detail_shown = refl

evidence_shown_example :
    (id : ℕ) × ((parse "execution" ≡ some id)
      × ((is_some (select_one (is_execution_of id 1) depot.executions) ≡ true)
          × (map seen_photo evidence.photos
              ≡ map stored_photo (list_execution_photos id 1 depot.photos))))
evidence_shown_example = evidence_shown office_world boss "execution" depot evidence detail_shown
