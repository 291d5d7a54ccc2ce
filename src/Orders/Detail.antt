-- ===== src/Orders/Detail.antt =====
-- apps/api/internal/workorder/http.go: the checklist and the photos of an execution, for staff.
pub mod Evidence
use sdano.Base.{
  ℕ, Bool, Option, none, some, String, List, [], ◌∷◌, ◌++◌, is_some, map, Result, ok, ◌>>=◌, ◌>>◌,
  or_err,
}
use sdano.Store.{Store, Photo, PhotoKind}
use sdano.Queries.Evidence.{
  GetExecutionDetailRow, get_execution_detail, ListExecutionItemsWithTitlesRow,
  list_execution_items_with_titles,
}
use sdano.Execution.Handler.{list_execution_photos}
use sdano.Session.{Principal}
use sdano.Orders.{
  World, OrderError, load_execution, list_execution_items, invalid_uuid, execution_not_found,
  store_failed, run_statement,
}
use sdano.Orders as Orders

pub record StaffExecutionPhotoView : Type 0 where
  pub id : ℕ
  pub kind : PhotoKind
  pub taken_at : Option ℕ
  pub lat : Option ℕ
  pub lon : Option ℕ
  pub uploaded : Bool
  pub url : Option String
  pub url_expires_at : Option ℕ

-- Its rows are passed on as they are.
pub record StaffExecutionDetailView : Type 0 where
  pub execution : GetExecutionDetailRow
  pub items : List ListExecutionItemsWithTitlesRow
  pub photos : List StaffExecutionPhotoView

abbrev pub link_url : Option (String × ℕ) → Option String
link_url none = none
link_url (some (url, expires)) = some url

abbrev pub link_expiry : Option (String × ℕ) → Option ℕ
link_expiry none = none
link_expiry (some (url, expires)) = some expires

abbrev pub photo_view : Photo → Option (String × ℕ) → StaffExecutionPhotoView
photo_view ph link = record {
  id = ph.id;
  kind = ph.kind;
  taken_at = ph.taken_at;
  lat = ph.lat;
  lon = ph.lon;
  uploaded = is_some ph.uploaded_at;
  url = link_url link;
  url_expires_at = link_expiry link;
}

-- Only a confirmed photo is presigned.
abbrev pub link_of : World → Photo → Option ℕ → Result OrderError (Option (String × ℕ))
link_of w ph none = ok none
link_of w ph (some t) = or_err (w.presign_get ph.s3_key) store_failed >>= λ l. ok (some l)

unfoldable pub photo_views :
    World
    → List Photo
    → List StaffExecutionPhotoView
    → Result OrderError (List StaffExecutionPhotoView)
photo_views w [] views = ok views
photo_views w (ph ∷ photos) views =
    link_of w ph ph.uploaded_at >>= λ link. photo_views w photos (views ++ photo_view ph link ∷ [])

unfoldable pub staff_execution_detail :
    World → Principal → String → Store → Result OrderError StaffExecutionDetailView
unfolding photo_views
staff_execution_detail w p id db = do
  id ← or_err (w.parse_uuid id) invalid_uuid
  run_statement w load_execution
  e ← or_err (get_execution_detail id p.tenant_id db) execution_not_found
  run_statement w list_execution_items
  let items = list_execution_items_with_titles p.tenant_id id db
  run_statement w Orders.list_execution_photos
  views ← photo_views w (list_execution_photos id p.tenant_id db.photos) []
  ok (record { execution = e; items = items; photos = views })
