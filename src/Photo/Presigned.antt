-- ===== src/Photo/Presigned.antt =====
-- What a presigned upload is bound to (photo/http.go).
use sdano.Base.{
  ℕ, true, ◌≡◌, refl, none, some, List, ok, Result-cases, Option-cases, inl, inr, arith,
}
use sdano.Store.{Store, Photo, PhotoKind, before, after, defect, resolution}
use sdano.Queries.Photos.{get_photo}
use sdano.Session.{Principal}
use sdano.Photo.{
  World, check_execution, PresignInput, PresignOutput, presign, presign_checks, presign_verify,
  presign_write, kind_eq,
}
use sdano.Photo.Uploads.{Accepts, check_execution-Accepts}

kind_eq_sound : (k l : PhotoKind) → kind_eq k l ≡ true → k ≡ l
kind_eq_sound before before h = refl
kind_eq_sound after after h = refl
kind_eq_sound defect defect h = refl
kind_eq_sound resolution resolution h = refl
kind_eq_sound k l h = ground arith

-- The row that the upload is for: of this execution and kind, and not confirmed.
pub record Awaits (tenant photo execution : ℕ) (kind : PhotoKind) (photos : List Photo)
    : Type 0 where
  pub row : Photo
  pub found : get_photo photo tenant photos ≡ some row
  pub of_execution : row.execution_id ≡ some execution
  pub of_kind : row.kind ≡ kind
  pub unconfirmed : row.uploaded_at ≡ none

-- The reply: the key of the tenant's photo, and the URL and the expiry that the object store gives
-- for an upload to that key.
pub record Uploads (w : World) (tenant photo : ℕ) (out : PresignOutput) : Type 0 where
  pub key : out.s3_key ≡ w.s3_key tenant photo
  pub url : w.presign_put (w.s3_key tenant photo) ≡ some (out.upload_url, out.expires_at)

presign_verify-Awaits :
    (w : World) (p : Principal) (kind : PhotoKind) (photo execution : ℕ) (db : Store)
    (out : PresignOutput)
    → presign_verify w p kind photo execution db ≡ ok out
    → Awaits p.tenant_id photo execution kind db.photos × Uploads w p.tenant_id photo out
unfolding presign_verify
presign_verify-Awaits w p kind photo execution db out h =
    elim (Option-cases (get_photo photo p.tenant_id db.photos)) [
      | inl f ↦ absurd (ground arith)
      | inr (row, f) ↦ elim (Option-cases row.execution_id) [
        | inl k ↦ absurd (ground arith)
        | inr (e, k) ↦ elim (Option-cases row.uploaded_at) [
          | inr (t, u) ↦ absurd (ground arith)
          | inl u ↦ (
            record {
              row = row;
              found = f;
              of_execution = ground arith;
              of_kind = kind_eq_sound row.kind kind (ground arith);
              unconfirmed = u;
            },
            elim (Option-cases (w.presign_put (w.s3_key p.tenant_id photo))) [
              | inl n ↦ absurd (ground arith)
              | inr ((x, y), n) ↦ record { key = ground arith; url = ground arith }
            ],
          )
        ]
      ]
    ]

presign_write-verify :
    (w : World) (p : Principal) (kind : PhotoKind) (photo execution : ℕ) (db db' : Store)
    (out : PresignOutput)
    → presign_write w p kind photo execution db ≡ (db', ok out)
    → presign_verify w p kind photo execution db' ≡ ok out
unfolding presign_write
presign_write-verify w p kind photo execution db db' out h = ground arith

pub presign_checks_lem :
    (w : World) (p : Principal) (input : PresignInput) (db : Store) (photo execution : ℕ)
    → presign_checks w p input db ≡ ok (photo, execution)
    → (w.parse_uuid input.id ≡ some photo)
      × ((w.parse_uuid input.execution_id ≡ some execution)
          × (check_execution w p execution db ≡ ok tt))
unfolding presign_checks
presign_checks_lem w p input db photo execution h = elim (Option-cases (w.parse_uuid input.id)) [
  | inl i ↦ absurd (ground arith)
  | inr (k, i) ↦ elim (Option-cases (w.parse_uuid input.execution_id)) [
    | inl f ↦ absurd (ground arith)
    | inr (e, f) ↦ elim (Result-cases (check_execution w p e db)) [
      | inr (x, c) ↦ absurd (ground arith)
      | inl (x, c) ↦ (ground arith, (ground arith, ground arith))
    ]
  ]
]

-- A presigned upload is for the photo and the execution that the request names: the execution is
-- the caller's and, where the tenant is suspended, finished before the suspension; the photo is
-- stored for it, of the kind that was asked for and not confirmed yet; and the answer is the key of
-- that photo of the tenant, with the URL and the expiry that the object store gives for it.
pub presign_sound :
    (w : World) (p : Principal) (input : PresignInput) (db db' : Store) (out : PresignOutput)
    → presign w p input db ≡ (db', ok out)
    → (photo : ℕ) × ((execution : ℕ) × ((w.parse_uuid input.id ≡ some photo)
          × ((w.parse_uuid input.execution_id ≡ some execution)
              × (Accepts p execution db
                  × (Awaits p.tenant_id photo execution input.kind db'.photos
                      × Uploads w p.tenant_id photo out)))))
unfolding presign
presign_sound w p input db db' out h = elim (Result-cases (presign_checks w p input db)) [
  | inr (e, f) ↦ absurd (ground arith)
  | inl ((photo, execution), f) ↦
      let (named, (of, checked)) = presign_checks_lem w p input db photo execution f in
      (
        photo,
        (
          execution,
          (
            named,
            (
              of,
              (
                check_execution-Accepts w p execution db checked,
                presign_verify-Awaits w p input.kind photo execution db' out
                    (presign_write-verify w p input.kind photo execution db db' out (ground arith)),
              ),
            ),
          ),
        ),
      )
]
