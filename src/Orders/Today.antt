-- ===== src/Orders/Today.antt =====
-- apps/api/internal/workorder/http.go: the worker's working set for today.
pub mod Seen
pub mod Complete
use sdano.Base.{
  ℕ, Bool, Option, none, some, String, List, [], ◌∷◌, ◌++◌, ◌==◌, map, if◌then◌else◌, Result, ok,
  ◌>>=◌, ◌>>◌, or_err,
}
use sdano.Store.{Store, WorkOrderStatus, ChecklistTemplateItem}
use sdano.Queries.Worker.{contains}
use sdano.Queries.Day.{ListWorkerTodayOrdersRow, list_worker_today_orders, sorted_checklist_items}
use sdano.Calendar.{tenant_today}
use sdano.Session.{Principal}
use sdano.Orders.{
  World, OrderError, load_timezone, list_today, list_items, failed_statement, run_statement,
}

pub record TodayObject : Type 0 where
  pub id : ℕ
  pub name : String
  pub address : Option String
  pub lat : Option ℕ
  pub lon : Option ℕ
  pub qr_token : Option String

pub record ChecklistItem : Type 0 where
  pub id : ℕ
  pub position : ℕ
  pub title : String
  pub requires_photo : Bool

pub record Checklist : Type 0 where
  pub version_id : ℕ
  pub items : List ChecklistItem

pub record TodayOrder : Type 0 where
  pub id : ℕ
  pub object_id : ℕ
  pub due_date : ℕ
  pub status : WorkOrderStatus
  pub checklist : Checklist

pub record TodayOutput : Type 0 where
  pub generated_at : ℕ
  pub objects : List TodayObject
  pub work_orders : List TodayOrder

abbrev pub to_item : ChecklistTemplateItem → ChecklistItem
to_item i = record {
  id = i.id;
  position = i.position;
  title = i.title;
  requires_photo = i.requires_photo;
}

-- A Go map from versions to their items.
abbrev pub ItemsByVersion : Type 0
ItemsByVersion = ℕ → List ChecklistItem

abbrev pub add_item : ChecklistTemplateItem → ItemsByVersion → ItemsByVersion
add_item i items = λ v. if i.version_id == v then items v ++ to_item i ∷ [] else items v

unfoldable pub group_items : List ChecklistTemplateItem → ItemsByVersion → ItemsByVersion
group_items [] items = items
group_items (i ∷ rows) items = group_items rows (add_item i items)

-- The keys of `versionSet`; a Go set is a list without repetitions.
unfoldable pub version_set : List ListWorkerTodayOrdersRow → List ℕ → List ℕ
unfolding contains
version_set [] ids = ids
version_set (o ∷ orders) ids =
    version_set orders (if contains ids o.version_id then ids else ids ++ o.version_id ∷ [])

unfoldable pub load_items : World → Principal → List ℕ → Store → Result OrderError ItemsByVersion
unfolding group_items sorted_checklist_items
load_items w p ids db = elim ids [
  | [] ↦ ok (λ v. [])
  | id ∷ rest ↦ do
    run_statement w list_items
    ok (group_items (sorted_checklist_items (id ∷ rest) p.tenant_id db) (λ v. []))
]

abbrev pub today_object : ListWorkerTodayOrdersRow → TodayObject
today_object o = record {
  id = o.object_id;
  name = o.object_name;
  address = o.address;
  lat = o.lat;
  lon = o.lon;
  qr_token = o.qr_token;
}

abbrev pub today_order : ItemsByVersion → ListWorkerTodayOrdersRow → TodayOrder
today_order items o = record {
  id = o.id;
  object_id = o.object_id;
  due_date = o.due_date;
  status = o.status;
  checklist = record { version_id = o.version_id; items = items o.version_id };
}

-- One round of the loop; `seen` is `seenObject`.
abbrev pub add_seen : ListWorkerTodayOrdersRow → List ℕ → List ℕ
add_seen o seen = if contains seen o.object_id then seen else seen ++ o.object_id ∷ []

abbrev pub add_object : ListWorkerTodayOrdersRow → List ℕ → List TodayObject → List TodayObject
add_object o seen objects =
    if contains seen o.object_id then objects else objects ++ today_object o ∷ []

unfoldable pub add_orders :
    ItemsByVersion → List ListWorkerTodayOrdersRow → List ℕ → TodayOutput → TodayOutput
unfolding contains
add_orders items [] seen out = out
add_orders items (o ∷ orders) seen out = add_orders items orders (add_seen o seen) (record out {
  objects = add_object o seen out.objects;
  work_orders = out.work_orders ++ today_order items o ∷ [];
})

abbrev pub empty_output : ℕ → TodayOutput
empty_output now = record { generated_at = now; objects = []; work_orders = [] }

unfoldable pub worker_today : World → Principal → Store → Result OrderError TodayOutput
unfolding version_set load_items add_orders
worker_today w p db = do
  run_statement w load_timezone
  today ← or_err (tenant_today w.clock p.tenant_id db) (failed_statement load_timezone)
  run_statement w list_today
  let orders = list_worker_today_orders w.collate p.tenant_id p.user_id today db
  items ← load_items w p (version_set orders []) db
  ok (add_orders items orders [] (empty_output w.now))
