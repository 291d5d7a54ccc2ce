-- ===== src/Photo.antt =====
-- apps/api/internal/photo/http.go: the two-phase upload of a photo (presign, then confirm) and the
-- read of a confirmed one. The object store and the UUID parser are the record `World`, with the
-- statements that the database refuses and the clock. Each statement commits on its own, so a
-- call gives the database after it whatever its answer is.
pub mod Evidence
pub mod Keeps
pub mod Presigned
pub mod Uploads
use sdano.Base.{
  ℕ, Bool, true, false, ◌&&◌, ◌||◌, not, Option, none, some, String, List, ◌==◌, ltb, str_eq,
  is_some, if◌then◌else◌, Result, ok, err, ◌>>=◌, ◌>>◌, reject_if, or_err,
}
use sdano.Store.{Store, Photo, PhotoKind, before, after, defect, resolution, WorkExecution}
use sdano.Queries.Worker.{get_execution}
use sdano.Queries.Tenants.{get_tenant_suspension}
use sdano.Queries.Photos.{
  get_photo, get_photo_for_staff, InsertPhotoPresignParams, insert_photo_presign,
  ConfirmPhotoParams, confirm_photo,
}
use sdano.Session.{Principal}

pub data PhotoStatement : Type 0 where
  load_execution load_suspension insert_photo verify_photo load_photo : PhotoStatement
  stamp_photo reload_photo load_staff_photo : PhotoStatement

pub data PhotoError : Type 0 where
  invalid_uuid unsupported_content_type execution_not_found not_assigned : PhotoError
  tenant_suspended id_conflict kind_conflict already_uploaded photo_not_found : PhotoError
  not_uploaded store_failed : PhotoError
  failed_statement : PhotoStatement → PhotoError

-- `exists` and the presigned URLs are `none` where the object store fails; `s3_key` formats the
-- key of a tenant's photo.
pub record World : Type 0 where
  pub fault : PhotoStatement → Bool
  pub now : ℕ
  pub parse_uuid : String → Option ℕ
  pub exists : String → Option Bool
  pub presign_put : String → Option (String × ℕ)
  pub presign_get : String → Option (String × ℕ)
  pub s3_key : ℕ → ℕ → String

abbrev pub run_statement : World → PhotoStatement → Result PhotoError (Unit {0})
run_statement w s = reject_if (w.fault s) (failed_statement s)

abbrev pub kind_eq : PhotoKind → PhotoKind → Bool
kind_eq before before = true
kind_eq after after = true
kind_eq defect defect = true
kind_eq resolution resolution = true
kind_eq _ _ = false

-- Neither missing nor at or after the suspension.
abbrev pub is_before : Option ℕ → ℕ → Bool
is_before none t = false
is_before (some finished) t = ltb finished t

abbrev pub is_evidence : Option ℕ → Option ℕ → Bool
is_evidence none device_finished_at = true
is_evidence (some suspended_at) device_finished_at = is_before device_finished_at suspended_at

unfoldable pub evidence_suspension_gate :
    World → ℕ → Option ℕ → Store → Result PhotoError (Unit {0})
evidence_suspension_gate w tenant_id device_finished_at db = do
  run_statement w load_suspension
  susp ← or_err (get_tenant_suspension tenant_id db.tenants) (failed_statement load_suspension)
  reject_if (not (is_evidence susp device_finished_at)) tenant_suspended

-- The execution is the caller's, and its evidence is accepted.
unfoldable pub check_execution : World → Principal → ℕ → Store → Result PhotoError (Unit {0})
check_execution w p execution_id db = do
  run_statement w load_execution
  ex ← or_err (get_execution execution_id p.tenant_id db.executions) execution_not_found
  reject_if (not (ex.worker_id == p.user_id)) not_assigned
  evidence_suspension_gate w p.tenant_id ex.device_finished_at db

-- === presign ===

pub record PresignInput : Type 0 where
  pub id : String
  pub execution_id : String
  pub kind : PhotoKind
  pub content_type : String

pub record PresignOutput : Type 0 where
  pub upload_url : String
  pub s3_key : String
  pub expires_at : ℕ

unfoldable pub presign_checks : World → Principal → PresignInput → Store → Result PhotoError (ℕ × ℕ)
presign_checks w p input db = do
  photo ← or_err (w.parse_uuid input.id) invalid_uuid
  execution ← or_err (w.parse_uuid input.execution_id) invalid_uuid
  reject_if (not (str_eq input.content_type "image/jpeg")) unsupported_content_type
  check_execution w p execution db
  ok (photo, execution)

abbrev pub is_of_execution : Option ℕ → ℕ → Bool
is_of_execution none id = false
is_of_execution (some e) id = e == id

-- What is read back after the insertion, which does nothing on a known id.
unfoldable pub presign_verify :
    World → Principal → PhotoKind → ℕ → ℕ → Store → Result PhotoError PresignOutput
presign_verify w p kind photo execution db = do
  run_statement w verify_photo
  got ← or_err (get_photo photo p.tenant_id db.photos) id_conflict
  reject_if (not (is_of_execution got.execution_id execution)) id_conflict
  reject_if (not (kind_eq got.kind kind)) kind_conflict
  reject_if (is_some got.uploaded_at) already_uploaded
  (url, expires) ← or_err (w.presign_put (w.s3_key p.tenant_id photo)) store_failed
  ok (record { upload_url = url; s3_key = w.s3_key p.tenant_id photo; expires_at = expires })

abbrev pub presign_params : World → Principal → PhotoKind → ℕ → ℕ → InsertPhotoPresignParams
presign_params w p kind photo execution = record {
  id = photo;
  tenant_id = p.tenant_id;
  execution_id = some execution;
  kind = kind;
  s3_key = w.s3_key p.tenant_id photo;
}

unfoldable pub presign_write :
    World → Principal → PhotoKind → ℕ → ℕ → Store → Store × Result PhotoError PresignOutput
presign_write w p kind photo execution db =
    let photos = insert_photo_presign w.now (presign_params w p kind photo execution) db.photos in
    if w.fault insert_photo then (db, err (failed_statement insert_photo)) else (
      record db { photos = photos },
      presign_verify w p kind photo execution (record db { photos = photos }),
    )

unfoldable pub presign :
    World → Principal → PresignInput → Store → Store × Result PhotoError PresignOutput
presign w p input db = elim (presign_checks w p input db) [
  | err e ↦ (db, err e)
  | ok (photo, execution) ↦ presign_write w p input.kind photo execution db
]

-- === confirm ===

pub record ConfirmInput : Type 0 where
  pub id : String
  pub taken_at : Option ℕ
  pub lat : Option ℕ
  pub lon : Option ℕ

unfoldable pub confirm_checks : World → Principal → ConfirmInput → Store → Result PhotoError ℕ
confirm_checks w p input db = do
  photo ← or_err (w.parse_uuid input.id) invalid_uuid
  run_statement w load_photo
  ph ← or_err (get_photo photo p.tenant_id db.photos) photo_not_found
  execution ← or_err ph.execution_id execution_not_found
  check_execution w p execution db
  exists ← or_err (w.exists ph.s3_key) store_failed
  reject_if (not exists) not_uploaded
  ok photo

abbrev pub confirm_params : Principal → ConfirmInput → ℕ → ConfirmPhotoParams
confirm_params p input photo = record {
  id = photo;
  tenant_id = p.tenant_id;
  taken_at = input.taken_at;
  lat = input.lat;
  lon = input.lon;
}

unfoldable pub confirm_reload : World → Principal → ℕ → Store → Result PhotoError Photo
confirm_reload w p photo db = do
  run_statement w reload_photo
  or_err (get_photo photo p.tenant_id db.photos) (failed_statement reload_photo)

unfoldable pub confirm_write :
    World → Principal → ConfirmInput → ℕ → Store → Store × Result PhotoError Photo
confirm_write w p input photo db =
    let photos = confirm_photo w.now (confirm_params p input photo) db.photos in
    if w.fault stamp_photo
    then (db, err (failed_statement stamp_photo))
    else (record db { photos = photos }, confirm_reload w p photo (record db { photos = photos }))

unfoldable pub confirm : World → Principal → ConfirmInput → Store → Store × Result PhotoError Photo
confirm w p input db = elim (confirm_checks w p input db) [
  | err e ↦ (db, err e)
  | ok photo ↦ confirm_write w p input photo db
]

-- === the read by staff ===

unfoldable pub staff_photo_url : World → Principal → String → Store → Result PhotoError (String × ℕ)
staff_photo_url w p id db = do
  photo ← or_err (w.parse_uuid id) invalid_uuid
  run_statement w load_staff_photo
  ph ← or_err (get_photo_for_staff photo p.tenant_id db.photos) photo_not_found
  reject_if (not (is_some ph.uploaded_at)) not_uploaded
  or_err (w.presign_get ph.s3_key) store_failed
