-- ===== src/Examples/Photos.antt =====
-- A worker's upload of a photo, and the sweep (photo/http.go, platform/scheduler.go).
use sdano.Base.{
  ℕ, Bool, true, false, ◌≡◌, refl, Option, none, some, String, List, [], ◌∷◌, ◌==◌, str_eq, is_some,
  if◌then◌else◌, arith, ok,
}
use sdano.Base.Table.{select_one}
use sdano.Store.{Store, Photo, after, worker}
use sdano.Queries.Worker.{get_execution}
use sdano.Queries.Tenants.{get_tenant_suspension}
use sdano.Queries.Photos.{
  get_photo, insert_photo_presign, confirm_photo, list_orphan_photos, delete_photo_row,
}
use sdano.Session.{Principal}
use sdano.Photo.{
  World, evidence_suspension_gate, check_execution, PresignInput, PresignOutput, presign_checks,
  presign_verify, presign_write, presign, ConfirmInput, confirm_checks, confirm_reload,
  confirm_write, confirm,
}
use sdano.Photo.Keeps.{Keeps}
use sdano.Photo.Evidence.{Event, presigns, confirms, sweeps, events, confirmed_permanent}
use sdano.Photo.Uploads.{Accepts, Confirmable, confirm_sound}
use sdano.Photo.Presigned.{Awaits, Uploads, presign_sound}
use sdano.Platform.{Run, gc_photo, gc_photos, gc_orphan_photos}
use sdano.Platform.Orphans.{gc_spares, maybe_stored}
use sdano.Examples.Office.{office, confirmed_photo, awaiting_photo}

abbrev pub me : Principal
me = record { user_id = 7; tenant_id = 1; role = worker }

abbrev pub parse : String → Option ℕ
parse s = if str_eq s "execution" then some 100 else if str_eq s "photo" then some 301 else none

-- The object store has the photo that was sent.
abbrev pub world : World
world = record {
  fault = λ s. false;
  now = 18;
  parse_uuid = parse;
  exists = λ key. some (str_eq key "sent");
  presign_put = λ key. some ("https://put", 19);
  presign_get = λ key. some ("https://get", 19);
  s3_key = λ tenant photo. "key";
}

abbrev pub again : PresignInput
again = record {
  id = "photo";
  execution_id = "execution";
  kind = after;
  content_type = "image/jpeg";
}

abbrev pub sent : ConfirmInput
sent = record { id = "photo"; taken_at = some 14; lat = none; lon = none }

abbrev stamped : Photo
stamped = record awaiting_photo { uploaded_at = some 18; taken_at = some 14 }

abbrev stamped_office : Store
stamped_office = record office { photos = confirmed_photo ∷ stamped ∷ [] }

abbrev upload : PresignOutput
upload = record { upload_url = "https://put"; s3_key = "key"; expires_at = 19 }

presigned : presign world me again office ≡ (office, ok upload)
unfolding presign presign_checks check_execution get_execution evidence_suspension_gate
    get_tenant_suspension presign_write insert_photo_presign presign_verify get_photo
presigned = refl

presign_sound_example :
    (photo : ℕ) × ((execution : ℕ) × ((world.parse_uuid "photo" ≡ some photo)
        × ((world.parse_uuid "execution" ≡ some execution)
            × (Accepts me execution office
                × (Awaits 1 photo execution after office.photos × Uploads world 1 photo upload)))))
presign_sound_example = presign_sound world me again office office upload presigned

confirmed : confirm world me sent office ≡ (stamped_office, ok stamped)
unfolding confirm confirm_checks check_execution get_execution evidence_suspension_gate
    get_tenant_suspension get_photo confirm_write confirm_photo confirm_reload
confirmed = refl

confirm_sound_example :
    (photo : ℕ) × ((c : Confirmable world me sent photo office) × (Accepts me c.execution office
        × ((get_photo photo 1 stamped_office.photos ≡ some stamped)
            × (is_some stamped.uploaded_at ≡ true))))
confirm_sound_example = confirm_sound world me sent office stamped_office stamped confirmed

-- The store has lost every object, or cannot tell.
abbrev sweep : Option Bool → Run
sweep answer = record {
  now = 2_000_000_000_000_000_000;
  exists = λ key. answer;
  zone_today = λ timezone. some 21;
  utc_today = 21;
  list_tenants_fails = false;
  list_photos_fails = false;
  mark_fails = λ id. false;
  delete_fails = λ id. false;
}

swept : (gc_orphan_photos (sweep (some false)) office).photos ≡ confirmed_photo ∷ []
unfolding gc_orphan_photos list_orphan_photos delete_photo_row gc_photos gc_photo
swept = refl

found : get_photo 300 1 office.photos ≡ some confirmed_photo
unfolding get_photo
found = refl

abbrev day : List Event
day = presigns world me again ∷ sweeps (sweep (some false)) ∷ confirms world me sent ∷ []

confirmed_permanent_example :
    (ph' : Photo) × ((get_photo 300 1 (events day office).photos ≡ some ph')
      × Keeps confirmed_photo ph')
confirmed_permanent_example = confirmed_permanent 300 1 17 day office confirmed_photo found refl

waiting : select_one (λ (r : Photo). r.id == 301) office.photos ≡ some awaiting_photo
unfolding select_one
waiting = refl

gc_spares_example :
    select_one (λ (r : Photo). r.id == 301) (gc_orphan_photos (sweep none) office).photos
    ≡ some awaiting_photo
gc_spares_example =
    gc_spares (sweep none) 301 awaiting_photo office ((refl, tt), (tt, tt)) waiting
      (maybe_stored (ground arith))
