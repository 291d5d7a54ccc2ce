-- ===== src/Queries/Objects.antt =====
-- apps/api/internal/db/staff.sql.go, object.sql.go and worker.sql.go: the statements on objects,
-- and the execution history of one. `collate` is the database's order of texts.
use sdano.Base.{
  ℕ, Bool, true, false, ◌&&◌, ◌||◌, not, Option, none, some, String, List, ◌==◌, ltb, str_eq,
  opt_eq, is_some, coalesce, if◌then◌else◌,
}
use sdano.Base.Table.{select_one, select, update, insert, matching}
use sdano.Base.Sorting.{sort_by, take, collect}
use sdano.Store.{Store, Object, Contract, WorkOrder, WorkExecution, Photo, AppUser}
use sdano.Queries.Worker.{contains}

unfoldable pub count_contracts_in_tenant : ℕ → List ℕ → List Contract → ℕ
unfolding matching contains
count_contracts_in_tenant tenant_id ids =
    matching (λ c. c.tenant_id == tenant_id && contains ids c.id)

abbrev pub is_object_of : ℕ → ℕ → Object → Bool
is_object_of id tenant_id o = o.id == id && o.tenant_id == tenant_id

unfoldable pub get_object : ℕ → ℕ → List Object → Option Object
unfolding select_one
get_object id tenant_id = select_one (is_object_of id tenant_id)

abbrev pub bool_eq : Bool → Bool → Bool
bool_eq a b = if a then b else not b

-- `$2::boolean IS NULL OR is_active = $2`.
abbrev pub fits_active : Option Bool → Bool → Bool
fits_active none b = true
fits_active (some a) b = bool_eq b a

-- `$3::uuid IS NULL OR column = $3`, where the column may be NULL.
abbrev pub fits_id : Option ℕ → Option ℕ → Bool
fits_id none v = true
fits_id (some k) v = opt_eq v k

unfoldable pub list_objects :
    (String → String → Bool) → ℕ → Option Bool → Option ℕ → List Object → List Object
unfolding select sort_by
list_objects collate tenant_id active contract_id t =
    sort_by (λ a b. collate a.name b.name)
      (select
        (λ o.
          o.tenant_id == tenant_id
          && (fits_active active o.is_active && fits_id contract_id o.contract_id))
        t)

-- A NULL equals no text.
abbrev pub text_is : Option String → String → Bool
text_is none s = false
text_is (some q) s = str_eq q s

abbrev pub has_qr : String → Object → Bool
has_qr token o = text_is o.qr_token token

-- Another row than that of the id has the token: `qr_token` is UNIQUE over all tenants.
abbrev pub qr_taken : ℕ → Option String → List Object → Bool
qr_taken id none t = false
qr_taken id (some token) t = is_some (select_one (λ o. not (o.id == id) && has_qr token o) t)

-- `none` is a unique violation.
unfoldable pub insert_object : Object → List Object → Option (List Object)
unfolding select_one
insert_object o t =
    if is_some (select_one (λ x. x.id == o.id) t) || qr_taken o.id o.qr_token t
    then none
    else some (insert o t)

pub record UpdateObjectParams : Type 0 where
  pub id : ℕ
  pub tenant_id : ℕ
  pub name : Option String
  pub address : Option String
  pub lat : Option ℕ
  pub lon : Option ℕ
  pub kind : Option String
  pub qr_token : Option String
  pub contract_id : Option ℕ
  pub is_active : Option Bool

-- `COALESCE` on a column that is not null.
abbrev pub or_else {ℓ} : {A : Type ℓ} → Option A → A → A
or_else none b = b
or_else (some a) b = a

abbrev pub patched : UpdateObjectParams → Object → Object
patched a o = record o {
  name = or_else a.name o.name;
  address = coalesce a.address o.address;
  lat = coalesce a.lat o.lat;
  lon = coalesce a.lon o.lon;
  kind = coalesce a.kind o.kind;
  qr_token = coalesce a.qr_token o.qr_token;
  contract_id = coalesce a.contract_id o.contract_id;
  is_active = or_else a.is_active o.is_active;
}

pub data Updated : Type 0 where
  no_rows unique_violation : Updated
  updated : List Object → Object → Updated

abbrev pub patch_found : UpdateObjectParams → List Object → Option Object → Updated
patch_found a t none = no_rows
patch_found a t (some o) =
    if qr_taken a.id a.qr_token t
    then unique_violation
    else updated (update (is_object_of a.id a.tenant_id) (patched a) t) (patched a o)

-- With the row that it returns.
unfoldable pub update_object : UpdateObjectParams → List Object → Updated
unfolding select_one update
update_object a t = patch_found a t (select_one (is_object_of a.id a.tenant_id) t)

unfoldable pub get_object_by_qr : ℕ → String → List Object → Option Object
unfolding select_one
get_object_by_qr tenant_id token =
    select_one (λ o. o.tenant_id == tenant_id && (has_qr token o && o.is_active))

abbrev pub is_todays : ℕ → ℕ → ℕ → ℕ → WorkOrder → Bool
is_todays tenant_id assignee_id object_id due_date r =
    r.tenant_id == tenant_id
    && (opt_eq r.assignee_id assignee_id && (r.object_id == object_id && r.due_date == due_date))

-- `ORDER BY created_at DESC LIMIT 1`.
unfoldable pub get_worker_order_for_object : ℕ → ℕ → ℕ → ℕ → List WorkOrder → Option WorkOrder
unfolding select_one select sort_by
get_worker_order_for_object tenant_id assignee_id object_id due_date t =
    select_one (λ r. true)
      (sort_by (λ a b. ltb b.created_at a.created_at)
        (select (is_todays tenant_id assignee_id object_id due_date) t))

-- === the execution history of an object ===

pub record ListObjectExecutionsRow : Type 0 where
  pub id : ℕ
  pub work_order_id : ℕ
  pub created_at : ℕ
  pub started_at : Option ℕ
  pub finished_at : Option ℕ
  pub device_finished_at : Option ℕ
  pub worker_name : String
  pub photo_count : ℕ

unfoldable pub count_uploaded : ℕ → List Photo → ℕ
unfolding matching
count_uploaded execution_id =
    matching (λ p. opt_eq p.execution_id execution_id && is_some p.uploaded_at)

abbrev pub history_row : List Photo → WorkExecution → AppUser → ListObjectExecutionsRow
history_row photos e u = record {
  id = e.id;
  work_order_id = e.work_order_id;
  created_at = e.created_at;
  started_at = e.started_at;
  finished_at = e.finished_at;
  device_finished_at = e.device_finished_at;
  worker_name = u.display_name;
  photo_count = count_uploaded e.id photos;
}

abbrev pub is_order_at : ℕ → WorkExecution → WorkOrder → Bool
is_order_at object_id e r =
    r.id == e.work_order_id && (r.tenant_id == e.tenant_id && r.object_id == object_id)

-- The inner joins follow primary keys.
unfoldable pub join_execution : ℕ → ℕ → Store → WorkExecution → Option ListObjectExecutionsRow
unfolding select_one count_uploaded
join_execution tenant_id object_id db e =
    if e.tenant_id == tenant_id && is_some (select_one (is_order_at object_id e) db.work_orders)
    then elim (select_one (λ u. u.id == e.worker_id) db.users) [
      | none ↦ none
      | some u ↦ some (history_row db.photos e u)
    ]
    else none

-- `(b.created_at, b.id) < (created_at, id)`.
abbrev pub is_older : ℕ × ℕ → ListObjectExecutionsRow → Bool
is_older (created_at, id) b =
    ltb b.created_at created_at || (b.created_at == created_at && ltb b.id id)

-- `ORDER BY e.created_at DESC, e.id DESC`.
abbrev pub is_newer : ListObjectExecutionsRow → ListObjectExecutionsRow → Bool
is_newer a b = is_older (a.created_at, a.id) b

unfoldable pub object_rows : ℕ → ℕ → Store → List ListObjectExecutionsRow
unfolding collect join_execution
object_rows tenant_id object_id db = collect (join_execution tenant_id object_id db) db.executions

unfoldable pub list_object_executions : ℕ → ℕ → ℕ × ℕ → ℕ → Store → List ListObjectExecutionsRow
unfolding take sort_by select object_rows
list_object_executions tenant_id object_id after page_limit db =
    take page_limit
      (sort_by is_newer (select (is_older after) (object_rows tenant_id object_id db)))
