-- ===== src/Queries/Photos.antt =====
-- apps/api/internal/db/worker.sql.go, staff.sql.go and platform.sql.go: the statements on photos.
use sdano.Base.{
  zero, suc, ℕ, Bool, ◌&&◌, Option, none, some, String, List, [], ◌∷◌, ◌==◌, ltb, leb,
  if◌then◌else◌, is_some, is_none, coalesce,
}
use sdano.Base.Table.{select_one, select, update, delete, insert}
use sdano.Store.{Photo, PhotoKind}

unfoldable pub get_photo : ℕ → ℕ → List Photo → Option Photo
unfolding select_one
get_photo id tenant_id = select_one (λ r. r.id == id && r.tenant_id == tenant_id)

unfoldable pub get_photo_for_staff : ℕ → ℕ → List Photo → Option Photo
unfolding select_one
get_photo_for_staff id tenant_id = select_one (λ r. r.id == id && r.tenant_id == tenant_id)

pub record InsertPhotoPresignParams : Type 0 where
  pub id : ℕ
  pub tenant_id : ℕ
  pub execution_id : Option ℕ
  pub kind : PhotoKind
  pub s3_key : String

abbrev pub presigned_photo : ℕ → InsertPhotoPresignParams → Photo
presigned_photo now a = record {
  id = a.id;
  tenant_id = a.tenant_id;
  execution_id = a.execution_id;
  kind = a.kind;
  s3_key = a.s3_key;
  taken_at = none;
  lat = none;
  lon = none;
  uploaded_at = none;
  created_at = now;
}

-- `ON CONFLICT (id) DO NOTHING`.
unfoldable pub insert_photo_presign : ℕ → InsertPhotoPresignParams → List Photo → List Photo
unfolding select_one
insert_photo_presign now a t =
    if is_some (select_one (λ (r : Photo). r.id == a.id) t)
    then t
    else insert (presigned_photo now a) t

pub record ConfirmPhotoParams : Type 0 where
  pub id : ℕ
  pub tenant_id : ℕ
  pub taken_at : Option ℕ
  pub lat : Option ℕ
  pub lon : Option ℕ

abbrev pub confirmed_photo : ℕ → ConfirmPhotoParams → Photo → Photo
confirmed_photo now a r = record r {
  uploaded_at = coalesce r.uploaded_at (some now);
  taken_at = coalesce r.taken_at a.taken_at;
  lat = coalesce r.lat a.lat;
  lon = coalesce r.lon a.lon;
}

unfoldable pub confirm_photo : ℕ → ConfirmPhotoParams → List Photo → List Photo
unfolding update
confirm_photo now a =
    update (λ r. r.id == a.id && r.tenant_id == a.tenant_id) (confirmed_photo now a)

pub record ListOrphanPhotosRow : Type 0 where
  pub id : ℕ
  pub s3_key : String

abbrev pub is_orphan : ℕ → Photo → Bool
is_orphan cutoff r = is_none r.uploaded_at && ltb r.created_at cutoff

abbrev pub orphan_rows : List Photo → List ListOrphanPhotosRow
orphan_rows [] = []
orphan_rows (r ∷ t) = record { id = r.id; s3_key = r.s3_key } ∷ orphan_rows t

-- Oldest first.
abbrev pub insert_by_age : Photo → List Photo → List Photo
insert_by_age r [] = r ∷ []
insert_by_age r (s ∷ t) =
    let rest = insert_by_age r t in if leb r.created_at s.created_at then r ∷ (s ∷ t) else s ∷ rest

abbrev pub sort_by_age : List Photo → List Photo
sort_by_age [] = []
sort_by_age (r ∷ t) = insert_by_age r (sort_by_age t)

abbrev pub limit : ℕ → List Photo → List Photo
limit zero t = []
limit (suc n) [] = []
limit (suc n) (r ∷ t) = r ∷ limit n t

-- `ORDER BY created_at LIMIT 100`.
unfoldable pub list_orphan_photos : ℕ → List Photo → List ListOrphanPhotosRow
unfolding select
list_orphan_photos cutoff t = orphan_rows (limit 100 (sort_by_age (select (is_orphan cutoff) t)))

unfoldable pub delete_photo_row : ℕ → List Photo → List Photo
unfolding delete
delete_photo_row id = delete (λ r. r.id == id && is_none r.uploaded_at)
