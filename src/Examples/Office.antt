-- ===== src/Examples/Office.antt =====
-- A tenant with a manager, a worker, an execution that is done and its photos, for the tests.
use sdano.Base.{true, none, some, [], ◌∷◌}
use sdano.Store.{
  Store, Tenant, active, manager, worker, AppUser, Photo, before, after, WorkOrder, WorkExecution,
  done, Object,
}

abbrev pub confirmed_photo : Photo
confirmed_photo = record {
  id = 300;
  tenant_id = 1;
  execution_id = some 100;
  kind = before;
  s3_key = "kept";
  taken_at = none;
  lat = none;
  lon = none;
  uploaded_at = some 17;
  created_at = 12;
}

abbrev pub awaiting_photo : Photo
awaiting_photo = record {
  id = 301;
  tenant_id = 1;
  execution_id = some 100;
  kind = after;
  s3_key = "sent";
  taken_at = none;
  lat = none;
  lon = none;
  uploaded_at = none;
  created_at = 13;
}

abbrev pub done_order : WorkOrder
done_order = record {
  id = 1;
  tenant_id = 1;
  object_id = 1;
  version_id = 1;
  assignee_id = some 7;
  due_date = 20;
  status = done;
  created_at = 3;
}

abbrev pub agency : Tenant
agency = record {
  id = 1;
  name = "Clean";
  status = active;
  trial_ends_at = none;
  plan_note = none;
  billed_until = none;
  timezone = "Europe/Moscow";
  suspended_at = none;
}

abbrev pub boss : AppUser
boss = record {
  id = 6;
  tenant_id = 1;
  role = manager;
  display_name = "Boss";
  email = some "boss@example.org";
  password_hash = some "secret";
  is_active = true;
  created_at = 1;
}

abbrev pub cleaner : AppUser
cleaner = record {
  id = 7;
  tenant_id = 1;
  role = worker;
  display_name = "Cleaner";
  email = none;
  password_hash = none;
  is_active = true;
  created_at = 1;
}

abbrev pub bus_stop : Object
bus_stop = record {
  id = 1;
  tenant_id = 1;
  contract_id = none;
  name = "Bus stop";
  address = none;
  lat = none;
  lon = none;
  kind = some "bus_stop";
  qr_token = some "qr1";
  is_active = true;
  created_at = 2;
}

abbrev pub finished_execution : WorkExecution
finished_execution = record {
  id = 100;
  tenant_id = 1;
  work_order_id = 1;
  worker_id = 7;
  started_at = some 10;
  finished_at = some 16;
  device_finished_at = some 15;
  note = none;
  created_at = 10;
}

abbrev pub office : Store
office = record {
  tenants = agency ∷ [];
  users = boss ∷ cleaner ∷ [];
  refresh_tokens =
      record {
        id = 50;
        tenant_id = 1;
        user_id = 6;
        token_hash = "first";
        expires_at = 1_000;
        used_at = none;
        revoked_at = none;
      }
      ∷ [];
  device_tokens = [];
  contracts = [];
  objects = [];
  invites =
      record {
        id = 40;
        tenant_id = 1;
        user_id = 7;
        code = "123456";
        expires_at = 1_000;
        used_at = none;
      }
      ∷ [];
  checklist_templates = [];
  checklist_versions = [];
  checklist_items = [];
  work_orders = done_order ∷ [];
  executions = finished_execution ∷ [];
  execution_items = [];
  photos = confirmed_photo ∷ awaiting_photo ∷ [];
  reports = [];
  audits = [];
}
