-- ===== src/Orders/Detail/Evidence.antt =====
-- Which photos a detail view shows, and with a link (workorder/http.go, `registerStaffExecutionDetail`).
use mathlib.Core.List.{append_assoc, append-nil}
use sdano.Base.{
  ℕ, Bool, true, ◌≡◌, refl, sym, ap, ◌∙◌, Option, none, some, String, List, [], ◌∷◌, ◌++◌, is_some,
  map, ok, Bool-cases, Option-cases, Result-cases, inl, inr,
}
use sdano.Base.Table.{select_one}
use sdano.Store.{Store, Photo}
use sdano.Queries.Evidence.{get_execution_detail, is_execution_of}
use sdano.Execution.Handler.{list_execution_photos}
use sdano.Session.{Principal}
use sdano.Orders.{
  World, OrderError, load_execution, list_execution_items, store_failed, run_statement,
}
use sdano.Orders as Orders
use sdano.Orders.Detail.{
  StaffExecutionPhotoView, StaffExecutionDetailView, link_url, photo_view, link_of, photo_views,
  staff_execution_detail,
}

-- The photo, whether it is shown as uploaded, and whether with a link.
abbrev pub seen_photo : StaffExecutionPhotoView → ℕ × (Bool × Bool)
seen_photo v = (v.id, (v.uploaded, is_some v.url))

abbrev pub stored_photo : Photo → ℕ × (Bool × Bool)
stored_photo ph = (ph.id, (is_some ph.uploaded_at, is_some ph.uploaded_at))

map-append {ℓ κ} :
    {A : Type ℓ} {B : Type κ} (f : A → B) (s t : List A) → map f (s ++ t) ≡ map f s ++ map f t
map-append f [] t = refl
map-append f (a ∷ s) t = ap (λ u. f a ∷ u) (map-append f s t)

module _ (w : World) where
  link_seen :
      (ph : Photo) (at : Option ℕ) (link : Option (String × ℕ))
      → link_of w ph at ≡ ok link
      → is_some (link_url link) ≡ is_some at
  link_seen ph none none h = refl
  link_seen ph none (some l) h = absurd (cc)
  link_seen ph (some t) link h = elim (Option-cases (w.presign_get ph.s3_key)) [
    | inl n ↦ absurd (cc (rw n at h))
    | inr (l, n) ↦
        let made : some l ≡ link = cc (rw n at h) in ap (λ x. is_some (link_url x)) (sym made)
  ]

  views_seen :
      (photos : List Photo) (views out : List StaffExecutionPhotoView)
      → photo_views w photos views ≡ ok out
      → map seen_photo out ≡ map seen_photo views ++ map stored_photo photos
  unfolding photo_views
  views_seen [] views out h =
      let same : views ≡ out = cc in
      ap (map seen_photo) (sym same) ∙ sym (append-nil (map seen_photo views))
  views_seen (ph ∷ photos) views out h = elim (Result-cases (link_of w ph ph.uploaded_at)) [
    | inr (e, n) ↦ absurd (cc (rw n at h))
    | inl (link, n) ↦
        let url = link_seen ph ph.uploaded_at link n in
        let more = views ++ photo_view ph link ∷ [] in
        views_seen photos more out (rw n at h)
        ∙ ap (λ t. t ++ map stored_photo photos)
            (map-append seen_photo views (photo_view ph link ∷ [])
              ∙ ap (λ b. map seen_photo views ++ (ph.id, (is_some ph.uploaded_at, b)) ∷ []) url)
        ∙ append_assoc (map seen_photo views) (stored_photo ph ∷ []) (map stored_photo photos)
  ]

-- An execution that is found is the tenant's.
detail-own :
    (id tenant_id : ℕ) (db : Store)
    → is_some (get_execution_detail id tenant_id db) ≡ true
    → is_some (select_one (is_execution_of id tenant_id) db.executions) ≡ true
unfolding get_execution_detail
detail-own id tenant_id db h =
    elim (Option-cases (select_one (is_execution_of id tenant_id) db.executions)) [
      | inl n ↦ absurd (cc (rw n at h))
      | inr (e, n) ↦ ap is_some n
    ]

-- A detail view that is answered is of an execution of the caller's own tenant, and it shows the
-- stored photos of that execution, all of them and in their order; a photo is shown as uploaded,
-- and with a link, exactly if its upload is confirmed.
pub evidence_shown :
    (w : World) (p : Principal) (text : String) (db : Store) (v : StaffExecutionDetailView)
    → staff_execution_detail w p text db ≡ ok v
    → (id : ℕ) × ((w.parse_uuid text ≡ some id)
        × ((is_some (select_one (is_execution_of id p.tenant_id) db.executions) ≡ true)
            × (map seen_photo v.photos
                ≡ map stored_photo (list_execution_photos id p.tenant_id db.photos))))
unfolding staff_execution_detail
evidence_shown w p text db v h = elim (Option-cases (w.parse_uuid text)) [
  | inl n ↦ absurd (cc (rw n at h))
  | inr (id, n) ↦ elim (Bool-cases (w.fault load_execution)) [
    | inl f ↦ absurd (cc (rw (n, f) at h))
    | inr f ↦ elim (Option-cases (get_execution_detail id p.tenant_id db)) [
      | inl q ↦ absurd (cc (rw (n, f, q) at h))
      | inr (e, q) ↦ elim (Bool-cases (w.fault list_execution_items)) [
        | inl g ↦ absurd (cc (rw (n, f, q, g) at h))
        | inr g ↦ elim (Bool-cases (w.fault Orders.list_execution_photos)) [
          | inl k ↦ absurd (cc (rw (n, f, q, g, k) at h))
          | inr k ↦
              let photos = list_execution_photos id p.tenant_id db.photos in
              elim (Result-cases (photo_views w photos [])) [
                | inr (e, m) ↦ absurd (cc (rw (n, f, q, g, k, m) at h))
                | inl (views, m) ↦
                    let made = rw (n, f, q, g, k, m) at h in
                    let same : views ≡ v.photos = cc in
                    (
                      id,
                      (
                        n,
                        (
                          detail-own id p.tenant_id db (ap is_some q),
                          ap (map seen_photo) (sym same) ∙ views_seen w photos [] views m,
                        ),
                      ),
                    )
              ]
        ]
      ]
    ]
  ]
]
