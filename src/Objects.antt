-- ===== src/Objects.antt =====
-- apps/api/internal/object/http.go: the listing of objects and their changes by staff. The
-- statements that the database refuses, the ids that it generates, its order of texts, the UUID
-- parser and the codecs of the cursor are the record `World`.
pub mod History
pub mod Scan
pub mod Qr
pub mod Changes
use sdano.Base.{
  ℕ, Bool, true, false, ◌||◌, not, Option, none, some, String, List, [], ◌∷◌, ◌==◌, str_eq,
  if◌then◌else◌, Result, ok, err, ◌>>=◌, ◌>>◌, reject_if, or_err,
}
use sdano.Base.Bytes.{Bytes}
use sdano.Store.{Store, Object}
use sdano.Queries.Objects.{
  count_contracts_in_tenant, list_objects, insert_object, UpdateObjectParams, Updated, no_rows,
  unique_violation, updated, update_object,
}
use sdano.Calendar.{Clock}
use sdano.Session.{Principal}

pub data ObjectStatement : Type 0 where
  list_rows count_contracts insert_row update_row load_object list_executions : ObjectStatement
  resolve_qr load_timezone load_order : ObjectStatement

pub data ObjectError : Type 0 where
  invalid_uuid invalid_active invalid_reference invalid_cursor : ObjectError
  object_not_found qr_token_taken qr_not_found : ObjectError
  failed_statement : ObjectStatement → ObjectError

-- `encode_base64` and `decode_base64` are those of `base64.RawURLEncoding`, `format_time` and
-- `parse_time` those of `time.RFC3339Nano`.
pub record World : Type 0 where
  pub fault : ObjectStatement → Bool
  pub now : ℕ
  pub clock : Clock
  pub new_id : ℕ
  pub collate : String → String → Bool
  pub parse_uuid : Bytes → Option ℕ
  pub format_uuid : ℕ → Bytes
  pub encode_base64 : Bytes → Bytes
  pub decode_base64 : Bytes → Option Bytes
  pub format_time : ℕ → Bytes
  pub parse_time : Bytes → Option ℕ

abbrev pub run_statement : World → ObjectStatement → Result ObjectError (Unit {0})
run_statement w s = reject_if (w.fault s) (failed_statement s)

-- === listing ===

-- `strconv.ParseBool`.
unfoldable pub parse_bool : String → Option Bool
parse_bool s =
    if str_eq s "1"
      || (str_eq s "t"
          || (str_eq s "T" || (str_eq s "true" || (str_eq s "TRUE" || str_eq s "True"))))
    then some true
    else if str_eq s "0"
        || (str_eq s "f"
            || (str_eq s "F" || (str_eq s "false" || (str_eq s "FALSE" || str_eq s "False"))))
    then some false
    else none

pub record ListObjectsInput : Type 0 where
  pub active : String
  pub contract_id : Bytes

-- A query parameter that is empty is not sent.
unfoldable pub active_filter : String → Result ObjectError (Option Bool)
unfolding parse_bool
active_filter s =
    if str_eq s "" then ok none else or_err (parse_bool s) invalid_active >>= λ b. ok (some b)

abbrev pub id_filter : World → ObjectError → Bytes → Result ObjectError (Option ℕ)
id_filter w e [] = ok none
id_filter w e (c ∷ s) = or_err (w.parse_uuid (c ∷ s)) e >>= λ id. ok (some id)

unfoldable pub list_staff_objects :
    World → Principal → ListObjectsInput → Store → Result ObjectError (List Object)
unfolding active_filter list_objects
list_staff_objects w p input db = do
  active ← active_filter input.active
  contract_id ← id_filter w invalid_reference input.contract_id
  run_statement w list_rows
  ok (list_objects w.collate p.tenant_id active contract_id db.objects)

-- === changes ===

unfoldable pub validate_contract_ref : World → ℕ → Option ℕ → Store → Result ObjectError (Unit {0})
unfolding count_contracts_in_tenant
validate_contract_ref w tenant_id contract_id db = elim contract_id [
  | none ↦ ok tt
  | some c ↦
      run_statement w count_contracts
      >> reject_if (not (count_contracts_in_tenant tenant_id (c ∷ []) db.contracts == 1))
          invalid_reference
]

pub record ObjectBody : Type 0 where
  pub name : String
  pub address : Option String
  pub lat : Option ℕ
  pub lon : Option ℕ
  pub kind : Option String
  pub qr_token : Option String
  pub contract_id : Option ℕ

-- The row that the database makes, with its defaults.
abbrev pub new_object : World → ℕ → ObjectBody → Object
new_object w tenant_id body = record {
  id = w.new_id;
  tenant_id = tenant_id;
  name = body.name;
  address = body.address;
  lat = body.lat;
  lon = body.lon;
  kind = body.kind;
  qr_token = body.qr_token;
  contract_id = body.contract_id;
  is_active = true;
  created_at = w.now;
}

-- Each statement commits on its own: a failed call leaves the database as it was.
abbrev pub written :
    {A : Type 0} → Store → Result ObjectError (Store × A) → Store × Result ObjectError A
written db (ok (db', a)) = (db', ok a)
written db (err e) = (db, err e)

unfoldable pub insert_call :
    World → Principal → ObjectBody → Store → Result ObjectError (Store × Object)
insert_call w p body db = do
  validate_contract_ref w p.tenant_id body.contract_id db
  run_statement w insert_row
  t ← or_err (insert_object (new_object w p.tenant_id body) db.objects) qr_token_taken
  ok (record db { objects = t }, new_object w p.tenant_id body)

unfoldable pub create_object :
    World → Principal → ObjectBody → Store → Store × Result ObjectError Object
create_object w p body db = written db (insert_call w p body db)

pub record ObjectPatchBody : Type 0 where
  pub name : Option String
  pub address : Option String
  pub lat : Option ℕ
  pub lon : Option ℕ
  pub kind : Option String
  pub qr_token : Option String
  pub contract_id : Option ℕ
  pub is_active : Option Bool

-- A missing body is an empty patch.
abbrev pub patch_body : Option ObjectPatchBody → ObjectPatchBody
patch_body (some b) = b
patch_body none = record {
  name = none;
  address = none;
  lat = none;
  lon = none;
  kind = none;
  qr_token = none;
  contract_id = none;
  is_active = none;
}

abbrev pub patch_params : ℕ → ℕ → ObjectPatchBody → UpdateObjectParams
patch_params id tenant_id b = record {
  id = id;
  tenant_id = tenant_id;
  name = b.name;
  address = b.address;
  lat = b.lat;
  lon = b.lon;
  kind = b.kind;
  qr_token = b.qr_token;
  contract_id = b.contract_id;
  is_active = b.is_active;
}

abbrev pub patch_answer : Store → Updated → Result ObjectError (Store × Object)
patch_answer db no_rows = err object_not_found
patch_answer db unique_violation = err qr_token_taken
patch_answer db (updated t o) = ok (record db { objects = t }, o)

unfoldable pub update_call :
    World → Principal → Bytes → Option ObjectPatchBody → Store → Result ObjectError (Store × Object)
update_call w p id body db = do
  id ← or_err (w.parse_uuid id) invalid_uuid
  validate_contract_ref w p.tenant_id (patch_body body).contract_id db
  run_statement w update_row
  patch_answer db (update_object (patch_params id p.tenant_id (patch_body body)) db.objects)

unfoldable pub patch_object :
    World → Principal → Bytes → Option ObjectPatchBody → Store → Store × Result ObjectError Object
patch_object w p id body db = written db (update_call w p id body db)
