-- ===== src/Objects/Changes.antt =====
-- What the calls that change objects leave in the table (object/http.go, `registerStaffObjectWrites`).
use sdano.Base.{
  ℕ, ◌≡◌, sym, ap, ◌∙◌, subst, Option, some, List, [], ◌∷◌, Result, ok, Bool-cases, Option-cases,
  Result-cases, inl, inr,
}
use sdano.Base.Bytes.{Bytes}
use sdano.Store.{Store, Object}
use sdano.Queries.Objects.{
  insert_object, update_object, Updated, no_rows, unique_violation, updated,
}
use sdano.Session.{Principal}
use sdano.Objects.{
  World, ObjectError, ObjectBody, ObjectPatchBody, new_object, patch_params, patch_body,
  patch_answer, written, insert_call, update_call, create_object, patch_object,
  validate_contract_ref, insert_row, update_row,
}
use sdano.Objects.Qr.{QrUnique, insert_object-QrUnique, update_object-QrUnique}

-- A creation that succeeds has inserted its row.
pub insert_call_lem :
    (w : World) (p : Principal) (body : ObjectBody) (db : Store) (r : Store × Object)
    → insert_call w p body db ≡ ok r
    → (t : List Object) × ((insert_object (new_object w p.tenant_id body) db.objects ≡ some t)
        × (r ≡ (record db { objects = t }, new_object w p.tenant_id body)))
unfolding insert_call
insert_call_lem w p body db r h =
    elim (Result-cases (validate_contract_ref w p.tenant_id body.contract_id db)) [
      | inr (e, v) ↦ absurd (cc (rw v at h))
      | inl (u, v) ↦ elim (Bool-cases (w.fault insert_row)) [
        | inl f ↦ absurd (cc (rw (v, f) at h))
        | inr f ↦ elim (Option-cases (insert_object (new_object w p.tenant_id body) db.objects)) [
          | inl n ↦ absurd (cc (rw (v, f, n) at h))
          | inr (t, i) ↦ (t, (i, cc (rw (v, f, i) at h)))
        ]
      ]
    ]

patch_answer_lem :
    (db : Store) (u : Updated) (r : Store × Object)
    → patch_answer db u ≡ ok r
    → (t : List Object) × ((u ≡ updated t r.1) × (r.0 ≡ record db { objects = t }))
patch_answer_lem db no_rows r h = absurd (cc)
patch_answer_lem db unique_violation r h = absurd (cc)
patch_answer_lem db (updated t o) r h =
    let same : (record db { objects = t }, o) ≡ r = cc in
    (t, (ap (λ q. updated t q.1) same, ap (λ q. q.0) (sym same)))

pub update_call_lem :
    (w : World) (p : Principal) (text : Bytes) (body : Option ObjectPatchBody) (db : Store)
    (r : Store × Object)
    → update_call w p text body db ≡ ok r
    → (id : ℕ) × (t : List Object) × ((update_object
            (patch_params id p.tenant_id (patch_body body))
            db.objects
          ≡ updated t r.1)
        × (r.0 ≡ record db { objects = t }))
unfolding update_call
update_call_lem w p text body db r h = elim (Option-cases (w.parse_uuid text)) [
  | inl n ↦ absurd (cc (rw n at h))
  | inr (id, i) ↦
      elim (Result-cases (validate_contract_ref w p.tenant_id (patch_body body).contract_id db)) [
        | inr (e, v) ↦ absurd (cc (rw (i, v) at h))
        | inl (u, v) ↦ elim (Bool-cases (w.fault update_row)) [
          | inl f ↦ absurd (cc (rw (i, v, f) at h))
          | inr f ↦
              let found =
                patch_answer_lem db
                  (update_object (patch_params id p.tenant_id (patch_body body)) db.objects) r
                  (rw (i, v, f) at h) in
              (id, found.0, found.1)
        ]
      ]
]

-- The calls of staff that change objects.
pub data ObjectCall : Type 0 where
  create : World → Principal → ObjectBody → ObjectCall
  patch : World → Principal → Bytes → Option ObjectPatchBody → ObjectCall

unfoldable pub run_object_call : ObjectCall → Store → Store
run_object_call (create w p body) db = (create_object w p body db).0
run_object_call (patch w p id body) db = (patch_object w p id body db).0

unfoldable pub run_object_calls : List ObjectCall → Store → Store
unfolding run_object_call
run_object_calls [] db = db
run_object_calls (c ∷ cs) db = run_object_calls cs (run_object_call c db)

abbrev Kept : Store → Result ObjectError (Store × Object) → Type 0
Kept db r = QrUnique (written db r).0.objects

run_object_call-QrUnique :
    (c : ObjectCall) (db : Store) → QrUnique db.objects → QrUnique (run_object_call c db).objects
unfolding run_object_call create_object patch_object
run_object_call-QrUnique (create w p body) db inv = elim (Result-cases (insert_call w p body db)) [
  | inr (e, h) ↦ subst (Kept db) (sym h) inv
  | inl (r, h) ↦
      let made = insert_call_lem w p body db r h in
      subst (Kept db) (sym (h ∙ ap ok made.1.1))
        (insert_object-QrUnique (new_object w p.tenant_id body) db.objects made.0 inv made.1.0)
]
run_object_call-QrUnique (patch w p text body) db inv =
    elim (Result-cases (update_call w p text body db)) [
      | inr (e, h) ↦ subst (Kept db) (sym h) inv
      | inl (r, h) ↦
          let found = update_call_lem w p text body db r h in
          let params = patch_params found.0 p.tenant_id (patch_body body) in
          subst (Kept db) (sym (h ∙ ap (λ d. ok (d, r.1)) found.2.1))
            (update_object-QrUnique params db.objects inv found.1 r.1 found.2.0)
    ]

-- Whatever calls create and patch objects, for whatever tenants and with whatever failures, ids
-- stay unique and at most one object, of all tenants, has a given QR token.
pub qr_stays_unique :
    (cs : List ObjectCall) (db : Store)
    → QrUnique db.objects
    → QrUnique (run_object_calls cs db).objects
unfolding run_object_calls
qr_stays_unique [] db inv = inv
qr_stays_unique (c ∷ cs) db inv =
    qr_stays_unique cs (run_object_call c db) (run_object_call-QrUnique c db inv)
