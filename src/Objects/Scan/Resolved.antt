-- ===== src/Objects/Scan/Resolved.antt =====
-- An object can be scanned once it is created (object/http.go, `createStaffObject` and
-- `workerObjectByQR`).
use sdano.Base.{
  ℕ, ◌≡◌, refl, sym, ap, ◌∙◌, true, false, ◌&&◌, Option, none, some, String, List, [], ◌∷◌, ◌==◌,
  ok, Result-cases, inl, inr, arith,
}
use sdano.Base.Texts.{str_eq_refl}
use sdano.Base.Table.{select_one}
use sdano.Base.Table.Laws.{select_one-append}
use sdano.Base.Table.Single.{none_other}
use sdano.Store.{Store, Object}
use sdano.Queries.Objects.{
  has_qr, text_is, get_object_by_qr, get_worker_order_for_object, insert_object,
}
use sdano.Calendar.{tenant_today}
use sdano.Session.{Principal}
use sdano.Objects.{
  World, ObjectStatement, resolve_qr, load_timezone, load_order, ObjectBody, new_object,
  insert_call, create_object, written,
}
use sdano.Objects.Qr.{inserted, token_free}
use sdano.Objects.Changes.{insert_call_lem}
use sdano.Objects.Scan.{qr_object, qr_order, worker_object_by_qr}

none_stricter :
    (tenant_id : ℕ) (token : String) (t : List Object)
    → select_one (has_qr token) t ≡ none
    → select_one (λ o. o.tenant_id == tenant_id && (has_qr token o && o.is_active)) t ≡ none
unfolding select_one
none_stricter tenant_id token [] h = refl
none_stricter tenant_id token (o ∷ t) h = ground (arith, none_stricter tenant_id token t)

scanned :
    (tenant_id : ℕ) (token : String) (o : Object) (t t' : List Object)
    → o.tenant_id ≡ tenant_id
    → o.is_active ≡ true
    → has_qr token o ≡ true
    → insert_object o t ≡ some t'
    → get_object_by_qr tenant_id token t' ≡ some o
unfolding get_object_by_qr
scanned tenant_id token o t t' mine live has made =
    let (fresh, rest) = inserted o t t' made in
    let free =
      none_other (λ x. x.id) (has_qr token) o.id t fresh
        (token_free o.id o.qr_token token t has rest.0) in
    let absent = none_stricter tenant_id token t free in
    let test : (o.tenant_id == tenant_id && (has_qr token o && o.is_active)) ≡ true =
      ground arith in
    ap (select_one (λ x. x.tenant_id == tenant_id && (has_qr token x && x.is_active))) rest.1
    ∙ select_one-append _ t (o ∷ [])
    ∙ rw (absent, test) refl

text_given : (q : Option String) (token : String) → q ≡ some token → text_is q token ≡ true
text_given none token h = absurd (cc)
text_given (some s) token h = let same : s ≡ token = cc in rw same (str_eq_refl token)

read :
    (v : World) (q : Principal) (token : String) (db : Store) (o : Object) (today : ℕ)
    → get_object_by_qr q.tenant_id token db.objects ≡ some o
    → ((s : ObjectStatement) → v.fault s ≡ false)
    → tenant_today v.clock q.tenant_id db ≡ some today
    → worker_object_by_qr v q token db
      ≡ ok (
        qr_object o,
        qr_order (get_worker_order_for_object q.tenant_id q.user_id o.id today db.work_orders),
      )
unfolding worker_object_by_qr
read v q token db o today found healthy zone =
    rw (healthy resolve_qr, found, healthy load_timezone, zone, healthy load_order) refl

-- An object that is created with a token is what a worker of the same tenant finds under that token
-- on the database right after the creation, where no statement of the scan fails and the tenant's
-- date is known, with the worker's order there on that date.
pub created_object_resolves :
    (w v : World) (p q : Principal) (body : ObjectBody) (db db' : Store) (o : Object)
    (token : String) (today : ℕ)
    → create_object w p body db ≡ (db', ok o)
    → body.qr_token ≡ some token
    → q.tenant_id ≡ p.tenant_id
    → ((s : ObjectStatement) → v.fault s ≡ false)
    → tenant_today v.clock q.tenant_id db' ≡ some today
    → worker_object_by_qr v q token db'
      ≡ ok (
        qr_object o,
        qr_order (get_worker_order_for_object q.tenant_id q.user_id o.id today db'.work_orders),
      )
unfolding create_object
created_object_resolves w v p q body db db' o token today made given same healthy zone =
    elim (Result-cases (insert_call w p body db)) [
      | inr (e, h) ↦ absurd (cc (rw h at made))
      | inl (r, h) ↦
          let made' = insert_call_lem w p body db r h in
          let call : (r.0, ok r.1) ≡ (db', ok o) = ap (written db) (sym h) ∙ made in
          let kept : r.0 ≡ db' = ap (λ x. x.0) call in
          let got : r.1 ≡ o = cc (ap (λ x. x.1) call) in
          let stored = ap (λ (d : Store). d.objects) (sym kept ∙ ap (λ x. x.0) made'.1.1) in
          let row = sym got ∙ ap (λ x. x.1) made'.1.1 in
          let found =
            scanned q.tenant_id token (new_object w p.tenant_id body) db.objects made'.0 (sym same)
              refl (text_given body.qr_token token given) made'.1.0 in
          read v q token db' o today
            (ap (get_object_by_qr q.tenant_id token) stored ∙ found ∙ ap some (sym row)) healthy
            zone
    ]
