-- ===== src/Objects/Qr.antt =====
-- A QR token belongs to one object, whatever calls change the objects (object/http.go).
use sdano.Base.{
  ℕ, ◌≤◌, ◌≡◌, refl, sym, ap, ◌∙◌, subst, true, false, ◌&&◌, not, Option, none, some, String, List,
  ◌==◌, str_eq, eq_iff, is_some, coalesce, Bool-cases, Option-cases, inl, inr, arith,
}
use sdano.Base.Table.{select_one, update, insert, matching}
use sdano.Base.Table.Keys.{Unique, update-Unique}
use sdano.Base.Table.Counts.{matching-insert, matching-update, matching-none}
use sdano.Base.Table.Single.{none_other, matching-update_one, matching-update_less, insert-Unique}
use sdano.Store.{Object}
use sdano.Queries.Objects.{
  has_qr, text_is, qr_taken, is_object_of, insert_object, update_object, UpdateObjectParams,
  patched, updated,
}

-- Ids are unique, and at most one object has a token.
pub record QrUnique (t : List Object) : Type 0 where
  pub ids : Unique (λ o. o.id) t
  pub tokens : (token : String) → matching (has_qr token) t ≤ 1

-- No object has a token that another row was looked up for in vain.
pub token_free :
    (id : ℕ) (qr : Option String) (token : String) (t : List Object)
    → text_is qr token ≡ true
    → qr_taken id qr t ≡ false
    → select_one (λ o. not (o.id == id) && has_qr token o) t ≡ none
token_free id none token t e h = absurd (cc)
token_free id (some q) token t e h =
    subst (λ s. select_one (λ o. not (o.id == id) && has_qr s o) t ≡ none) ((eq_iff q token).0 e)
      (none_of_some _ h)
  where
    none_of_some : (r : Option Object) → is_some r ≡ false → r ≡ none
    none_of_some none e = refl
    none_of_some (some o) e = cc

pub inserted :
    (o : Object) (t t' : List Object)
    → insert_object o t ≡ some t'
    → (select_one (λ x. x.id == o.id) t ≡ none)
      × ((qr_taken o.id o.qr_token t ≡ false) × (t' ≡ insert o t))
unfolding insert_object
inserted o t t' h = elim (Option-cases (select_one (λ (x : Object). x.id == o.id) t)) [
  | inr (x, e) ↦ absurd (cc (rw e at h))
  | inl e ↦ elim (Bool-cases (qr_taken o.id o.qr_token t)) [
    | inl f ↦ absurd (cc (rw (e, f) at h))
    | inr f ↦ (e, (f, (cc (rw (e, f) at h))))
  ]
]

pub insert_object-QrUnique :
    (o : Object) (t t' : List Object) → QrUnique t → insert_object o t ≡ some t' → QrUnique t'
insert_object-QrUnique o t t' inv h =
    let (fresh, (free, same)) = inserted o t t' h in
    subst QrUnique (sym same) (record {
      ids = insert-Unique (λ x. x.id) o t fresh inv.ids;
      tokens = λ token. elim (Bool-cases (has_qr token o)) [
        | inl e ↦
            let alone =
              none_other (λ x. x.id) (has_qr token) o.id t fresh
                (token_free o.id o.qr_token token t e free) in
            rw (matching-insert (has_qr token) o t, e, matching-none (has_qr token) t alone)
              (omega arith)
        | inr e ↦
            let few = inv.tokens token in rw (matching-insert (has_qr token) o t, e) (omega arith)
      ];
    })

found_and_updated :
    (a : UpdateObjectParams) (t t' : List Object) (o : Object)
    → update_object a t ≡ updated t' o
    → (qr_taken a.id a.qr_token t ≡ false)
      × (t' ≡ update (is_object_of a.id a.tenant_id) (patched a) t)
unfolding update_object
found_and_updated a t t' o h = elim (Option-cases (select_one (is_object_of a.id a.tenant_id) t)) [
  | inl e ↦ absurd (cc (rw e at h))
  | inr (x, e) ↦ elim (Bool-cases (qr_taken a.id a.qr_token t)) [
    | inl f ↦ absurd (cc (rw (e, f) at h))
    | inr f ↦ (f, cc (rw (e, f) at h))
  ]
]

kept_qr :
    (q r : Option String) (token : String)
    → q ≡ none
    → text_is (coalesce q r) token ≡ text_is r token
kept_qr none r token e = refl
kept_qr (some s) r token e = absurd (cc)

set_qr :
    (q r : Option String) (s token : String)
    → q ≡ some s
    → text_is (coalesce q r) token ≡ str_eq s token
set_qr none r s token e = absurd (cc)
set_qr (some x) r s token e = let same : x ≡ s = cc in ap (λ y. str_eq y token) same

module _ (a : UpdateObjectParams) (t : List Object) (inv : QrUnique t) where
  patched_tokens :
      qr_taken a.id a.qr_token t ≡ false
      → (token : String)
      → matching (has_qr token) (update (is_object_of a.id a.tenant_id) (patched a) t) ≤ 1
  patched_tokens free token =
      let few = inv.tokens token in
      elim (Option-cases a.qr_token) [
        | inl e ↦
            let same =
              matching-update (has_qr token) (is_object_of a.id a.tenant_id) (patched a) t
                (λ r. kept_qr a.qr_token r.qr_token token e) in
            omega arith
        | inr (s, e) ↦ elim (Bool-cases (str_eq s token)) [
          | inl f ↦
              let asked = set_qr a.qr_token none s token e ∙ f in
              let alone =
                matching-none _ t
                  (token_free a.id a.qr_token token t (given a.qr_token token asked) free) in
              let more =
                matching-update_one (λ x. x.id) (is_object_of a.id a.tenant_id) (has_qr token)
                  (patched a) a.id t (λ r h. ground arith) inv.ids in
              omega arith
          | inr f ↦
              let less =
                matching-update_less (λ x. x.id) (is_object_of a.id a.tenant_id) (has_qr token)
                  (patched a) t (λ r. set_qr a.qr_token r.qr_token s token e ∙ f) in
              omega arith
        ]
      ]
    where
      given :
          (q : Option String) (token : String)
          → text_is (coalesce q none) token ≡ true
          → text_is q token ≡ true
      given none token h = h
      given (some s) token h = h

  pub update_object-QrUnique :
      (t' : List Object) (o : Object) → update_object a t ≡ updated t' o → QrUnique t'
  update_object-QrUnique t' o h =
      let (free, same) = found_and_updated a t t' o h in
      subst QrUnique (sym same) (record {
        ids =
            update-Unique (λ x. x.id) (is_object_of a.id a.tenant_id) (patched a) t (λ r. refl)
              inv.ids;
        tokens = patched_tokens free;
      })
