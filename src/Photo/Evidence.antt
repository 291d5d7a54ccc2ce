-- ===== src/Photo/Evidence.antt =====
-- A confirmed photo is permanent (photo/http.go and the sweep of platform/scheduler.go).
use sdano.Base.{
  ℕ, ◌-◌, Bool, ◌&&◌, ◌≡◌, refl, ◌∙◌, some, List, [], ◌∷◌, ◌==◌, is_none, Result-cases, Bool-cases,
  inl, inr, arith,
}
use sdano.Base.Table.Laws.{row-insert, row-delete, select_one-update}
use sdano.Store.{Store, Tenant, Photo}
use sdano.Queries.Photos.{
  get_photo, InsertPhotoPresignParams, insert_photo_presign, presigned_photo, ConfirmPhotoParams,
  confirm_photo, confirmed_photo, delete_photo_row, list_orphan_photos, ListOrphanPhotosRow,
}
use sdano.Session.{Principal}
use sdano.Photo.{
  presign_params, confirm_params, stamp_photo, World, PresignInput, ConfirmInput, presign,
  presign_checks, presign_write, confirm, confirm_checks, confirm_write,
}
use sdano.Photo.Keeps.{Keeps, Keeps-refl, Keeps-trans, confirmed-Keeps}
use sdano.Platform.{
  orphan_photo_age, mark_tenant, Run, gc_photo, gc_photos, gc_orphan_photos, mark_tenants,
  mark_overdue_missed, run_once,
}

pub data Event : Type 0 where
  presigns : World → Principal → PresignInput → Event
  confirms : World → Principal → ConfirmInput → Event
  sweeps : Run → Event

unfoldable pub happen : Event → Store → Store
unfolding presign confirm run_once
happen (presigns w p input) db = (presign w p input db).0
happen (confirms w p input) db = (confirm w p input db).0
happen (sweeps w) db = run_once w db

unfoldable pub events : List Event → Store → Store
unfolding happen
events [] db = db
events (e ∷ es) db = events es (happen e db)

module _ (id tenant t : ℕ) where
  -- The photo is there, confirmed, and keeps what it said.
  abbrev StillThere : Photo → List Photo → Type 0
  StillThere ph photos = (ph' : Photo) × ((get_photo id tenant photos ≡ some ph') × Keeps ph ph')

  presigned :
      (now : ℕ) (a : InsertPhotoPresignParams) (ph : Photo) (photos : List Photo)
      → get_photo id tenant photos ≡ some ph
      → get_photo id tenant (insert_photo_presign now a photos) ≡ some ph
  unfolding get_photo insert_photo_presign
  presigned now a ph photos h = ground (
    arith,
    row-insert (λ r. r.id == id && r.tenant_id == tenant) (presigned_photo now a) photos ph h,
  )

  stamped :
      (now : ℕ) (a : ConfirmPhotoParams) (ph : Photo) (photos : List Photo)
      → get_photo id tenant photos ≡ some ph
      → ph.uploaded_at ≡ some t
      → StillThere ph (confirm_photo now a photos)
  unfolding get_photo confirm_photo
  stamped now a ph photos h up = elim (Bool-cases (ph.id == a.id && ph.tenant_id == a.tenant_id)) [
    | inl mine ↦ (
      confirmed_photo now a ph,
      (
        ground (arith, select_one-update fits owned (confirmed_photo now a) photos (λ r. refl)),
        confirmed-Keeps now t a ph up,
      ),
    )
    | inr other ↦ (
      ph,
      (
        ground (arith, select_one-update fits owned (confirmed_photo now a) photos (λ r. refl)),
        Keeps-refl ph,
      ),
    )
  ]
    where
      fits : Photo → Bool
      fits r = r.id == id && r.tenant_id == tenant

      owned : Photo → Bool
      owned r = r.id == a.id && r.tenant_id == a.tenant_id

  not_deleted :
      (other : ℕ) (ph : Photo) (photos : List Photo)
      → get_photo id tenant photos ≡ some ph
      → ph.uploaded_at ≡ some t
      → get_photo id tenant (delete_photo_row other photos) ≡ some ph
  unfolding get_photo delete_photo_row
  not_deleted other ph photos h up =
      row-delete _ (λ r. r.id == other && is_none r.uploaded_at) photos ph h (ground arith)

  swept :
      (w : Run) (rows : List ListOrphanPhotosRow) (db : Store) (ph : Photo)
      → get_photo id tenant db.photos ≡ some ph
      → ph.uploaded_at ≡ some t
      → get_photo id tenant (gc_photos w rows db).photos ≡ some ph
  unfolding gc_photos gc_photo
  swept w [] db ph h up = h
  swept w (row ∷ rows) db ph h up = swept w rows (gc_photo w row db) ph once up
    where
      once : get_photo id tenant (gc_photo w row db).photos ≡ some ph
      once = ground (arith, not_deleted row.id ph db.photos h up)

  marked_one : (w : Run) (u : Tenant) (db : Store) → (mark_tenant w u db).photos ≡ db.photos
  unfolding mark_tenant
  marked_one w u db = ground arith

  marked : (w : Run) (ts : List Tenant) (db : Store) → (mark_tenants w ts db).photos ≡ db.photos
  unfolding mark_tenants
  marked w [] db = refl
  marked w (u ∷ us) db = marked w us (mark_tenant w u db) ∙ marked_one w u db

  overdue-photos : (w : Run) (db : Store) → (mark_overdue_missed w db).photos ≡ db.photos
  unfolding mark_overdue_missed
  overdue-photos w db = ground (arith, marked w db.tenants db)

  orphans-photos :
      (w : Run) (db : Store) (ph : Photo)
      → get_photo id tenant db.photos ≡ some ph
      → ph.uploaded_at ≡ some t
      → get_photo id tenant (gc_orphan_photos w db).photos ≡ some ph
  unfolding gc_orphan_photos
  orphans-photos w db ph h up =
      ground (arith, swept w (list_orphan_photos (w.now - orphan_photo_age) db.photos) db ph h up)

  presign-photos :
      (w : World) (p : Principal) (input : PresignInput) (db : Store) (ph : Photo)
      → get_photo id tenant db.photos ≡ some ph
      → get_photo id tenant (presign w p input db).0.photos ≡ some ph
  unfolding presign presign_write
  presign-photos w p input db ph h = elim (Result-cases (presign_checks w p input db)) [
    | inr (e, f) ↦ rw (f, presign) h
    | inl ((photo, execution), f) ↦
        let now' = presigned w.now (presign_params w p input.kind photo execution) ph db.photos h in
        rw (f, presign) (ground arith)
  ]

  confirm_write-StillThere :
      (w : World) (p : Principal) (input : ConfirmInput) (photo : ℕ) (db : Store) (ph : Photo)
      → get_photo id tenant db.photos ≡ some ph
      → ph.uploaded_at ≡ some t
      → StillThere ph (confirm_write w p input photo db).0.photos
  unfolding confirm_write
  confirm_write-StillThere w p input photo db ph h up = elim (Bool-cases (w.fault stamp_photo)) [
    | inl fails ↦ rw fails (ph, (h, Keeps-refl ph))
    | inr runs ↦ rw runs (stamped w.now (confirm_params p input photo) ph db.photos h up)
  ]

  confirm-StillThere :
      (w : World) (p : Principal) (input : ConfirmInput) (db : Store) (ph : Photo)
      → get_photo id tenant db.photos ≡ some ph
      → ph.uploaded_at ≡ some t
      → StillThere ph (confirm w p input db).0.photos
  unfolding confirm
  confirm-StillThere w p input db ph h up = elim (Result-cases (confirm_checks w p input db)) [
    | inr (e, f) ↦ rw (f, confirm) (ph, (h, Keeps-refl ph))
    | inl (photo, f) ↦ rw (f, confirm) (confirm_write-StillThere w p input photo db ph h up)
  ]

  happen-StillThere :
      (e : Event) (db : Store) (ph : Photo)
      → get_photo id tenant db.photos ≡ some ph
      → ph.uploaded_at ≡ some t
      → StillThere ph (happen e db).photos
  unfolding happen run_once
  happen-StillThere (presigns w p input) db ph h up =
      (ph, (presign-photos w p input db ph h, Keeps-refl ph))
  happen-StillThere (confirms w p input) db ph h up = confirm-StillThere w p input db ph h up
  happen-StillThere (sweeps w) db ph h up = (
    ph,
    (orphans-photos w (mark_overdue_missed w db) ph (rw (overdue-photos w db) h) up, Keeps-refl ph),
  )

-- A confirmed photo is permanent: whatever presigns, confirmations and sweeps follow, in whatever
-- order and with whatever failures, it is there, with the same execution, kind, key and
-- confirmation time, and with the time and place that it had.
pub confirmed_permanent :
    (id tenant t : ℕ) (es : List Event) (db : Store) (ph : Photo)
    → get_photo id tenant db.photos ≡ some ph
    → ph.uploaded_at ≡ some t
    → (ph' : Photo) × ((get_photo id tenant (events es db).photos ≡ some ph') × Keeps ph ph')
unfolding events
confirmed_permanent id tenant t [] db ph h up = (ph, (h, Keeps-refl ph))
confirmed_permanent id tenant t (e ∷ es) db ph h up =
    let (ph1, (h1, k1)) = happen-StillThere id tenant t e db ph h up in
    let (ph2, (h2, k2)) =
      confirmed_permanent id tenant t es (happen e db) ph1 h1 (k1.uploaded ∙ up) in
    (ph2, (h2, Keeps-trans ph ph1 ph2 k1 k2))
