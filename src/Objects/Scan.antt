-- ===== src/Objects/Scan.antt =====
-- apps/api/internal/object/http.go: the object behind a QR token, for a worker on site, with the
-- worker's order there today.
pub mod Resolved
use sdano.Base.{ℕ, Bool, Option, none, some, String, Result, ok, ◌>>=◌, ◌>>◌, or_err}
use sdano.Store.{Store, Object, WorkOrder, WorkOrderStatus}
use sdano.Queries.Objects.{get_object_by_qr, get_worker_order_for_object}
use sdano.Calendar.{tenant_today}
use sdano.Session.{Principal}
use sdano.Objects.{
  World, ObjectError, resolve_qr, load_timezone, load_order, qr_not_found, failed_statement,
  run_statement,
}

pub record QrObject : Type 0 where
  pub id : ℕ
  pub name : String
  pub address : Option String
  pub lat : Option ℕ
  pub lon : Option ℕ
  pub kind : Option String
  pub qr_token : Option String
  pub is_active : Bool

pub record QrTodayOrder : Type 0 where
  pub id : ℕ
  pub object_id : ℕ
  pub due_date : ℕ
  pub status : WorkOrderStatus
  pub version_id : ℕ

abbrev pub qr_object : Object → QrObject
qr_object o = record {
  id = o.id;
  name = o.name;
  address = o.address;
  lat = o.lat;
  lon = o.lon;
  kind = o.kind;
  qr_token = o.qr_token;
  is_active = o.is_active;
}

abbrev pub qr_order : Option WorkOrder → Option QrTodayOrder
qr_order none = none
qr_order (some r) = some (record {
  id = r.id;
  object_id = r.object_id;
  due_date = r.due_date;
  status = r.status;
  version_id = r.version_id;
})

unfoldable pub worker_object_by_qr :
    World → Principal → String → Store → Result ObjectError (QrObject × Option QrTodayOrder)
worker_object_by_qr w p token db = do
  run_statement w resolve_qr
  o ← or_err (get_object_by_qr p.tenant_id token db.objects) qr_not_found
  run_statement w load_timezone
  today ← or_err (tenant_today w.clock p.tenant_id db) (failed_statement load_timezone)
  run_statement w load_order
  ok (
    qr_object o,
    qr_order (get_worker_order_for_object p.tenant_id p.user_id o.id today db.work_orders),
  )
