-- ===== src/Platform/Orphans.antt =====
-- Which photos the sweep deletes (platform/scheduler.go).
use sdano.Base.{
  ℕ, ◌-◌, ◌≤◌, Bool, true, false, ◌&&◌, ◌≡◌, ◌≢◌, ap, sym, subst, zero, suc, leb, ◌⊎◌, some, List,
  [], ◌∷◌, ◌==◌, is_some, is_none, Option-cases, Bool-cases, inl, inr, arith, All,
}
use sdano.Base.Table.{select_one}
use sdano.Base.Table.Laws.{row-delete, select_one_fits, All-select}
use sdano.Base.Table.Keys.{Unique, only_row}
use sdano.Store.{Store, Photo}
use sdano.Queries.Photos.{
  delete_photo_row, list_orphan_photos, ListOrphanPhotosRow, is_orphan, orphan_rows, insert_by_age,
  sort_by_age, limit,
}
use sdano.Platform.{Run, gc_photo, gc_photos, gc_orphan_photos, orphan_photo_age}

module _ (w : Run) (id : ℕ) (ph : Photo) where
  abbrev has_id : Photo → Bool
  has_id r = r.id == id

  -- A row under another id, or one whose object is there or cannot be checked.
  abbrev Spares : ListOrphanPhotosRow → Type 0
  Spares row = ((row.id == id) ≡ false) ⊎ (w.exists row.s3_key ≢ some false)

  gc_photo-Spares :
      (row : ListOrphanPhotosRow) (db : Store)
      → select_one has_id db.photos ≡ some ph
      → ph.id ≡ id
      → Spares row
      → select_one has_id (gc_photo w row db).photos ≡ some ph
  unfolding gc_photo delete_photo_row
  gc_photo-Spares row db h same (inl other) =
      ground
        (arith, row-delete has_id (λ r. r.id == row.id && is_none r.uploaded_at) db.photos ph h)
  gc_photo-Spares row db h same (inr there) = elim (Option-cases (w.exists row.s3_key)) [
    | inl f ↦ ground arith
    | inr (b, f) ↦ ground arith
  ]

  gc_photos-Spares :
      (rows : List ListOrphanPhotosRow) (db : Store)
      → select_one has_id db.photos ≡ some ph
      → ph.id ≡ id
      → All Spares rows
      → select_one has_id (gc_photos w rows db).photos ≡ some ph
  unfolding gc_photos
  gc_photos-Spares [] db h same a = h
  gc_photos-Spares (row ∷ rows) db h same a =
      gc_photos-Spares rows (gc_photo w row db) (gc_photo-Spares row db h same a.0) same a.1

  -- What keeps a photo from the sweep: it is confirmed, it is too young, or the object store does
  -- not say that its object is missing.
  pub data Protected : Type 0 where
    confirmed : is_some ph.uploaded_at ≡ true → Protected
    young : w.now - orphan_photo_age ≤ ph.created_at → Protected
    maybe_stored : w.exists ph.s3_key ≢ some false → Protected

  abbrev RowSpares : Photo → Type 0
  RowSpares r = Spares (record { id = r.id; s3_key = r.s3_key })

  Protected-RowSpares :
      (r : Photo)
      → Protected
      → ((r.id == id) ≡ false) ⊎ (r ≡ ph)
      → is_orphan (w.now - orphan_photo_age) r ≡ true
      → RowSpares r
  Protected-RowSpares r protected (inl other) orphan = inl other
  Protected-RowSpares r (confirmed c) (inr same) orphan =
      absurd (ground (arith, ap (λ (x : Photo). x.uploaded_at) same))
  Protected-RowSpares r (young y) (inr same) orphan =
      absurd (ground (arith, ap (λ (x : Photo). x.created_at) same))
  Protected-RowSpares r (maybe_stored m) (inr same) orphan =
      inr (subst (λ (x : Photo). w.exists x.s3_key ≢ some false) (sym same) m)

  insert_by_age-All :
      (r : Photo) (t : List Photo)
      → RowSpares r
      → All RowSpares t
      → All RowSpares (insert_by_age r t)
  insert_by_age-All r [] h a = (h, tt)
  insert_by_age-All r (s ∷ t) h a = elim (Bool-cases (leb r.created_at s.created_at)) [
    | inl e ↦ rw e (h, a)
    | inr e ↦ rw e (a.0, insert_by_age-All r t h a.1)
  ]

  sort_by_age-All : (t : List Photo) → All RowSpares t → All RowSpares (sort_by_age t)
  sort_by_age-All [] a = tt
  sort_by_age-All (r ∷ t) a = insert_by_age-All r (sort_by_age t) a.0 (sort_by_age-All t a.1)

  limit-All : (n : ℕ) (t : List Photo) → All RowSpares t → All RowSpares (limit n t)
  limit-All zero t a = tt
  limit-All (suc n) [] a = tt
  limit-All (suc n) (r ∷ t) a = (a.0, limit-All n t a.1)

  orphan_rows-All : (t : List Photo) → All RowSpares t → All Spares (orphan_rows t)
  orphan_rows-All [] a = tt
  orphan_rows-All (r ∷ t) a = (a.0, orphan_rows-All t a.1)

  list_orphan_photos-Spares :
      (t : List Photo)
      → Protected
      → All (λ r. ((r.id == id) ≡ false) ⊎ (r ≡ ph)) t
      → All Spares (list_orphan_photos (w.now - orphan_photo_age) t)
  unfolding list_orphan_photos
  list_orphan_photos-Spares t protected a = orphan_rows-All _ (
      limit-All 100 _ (
        sort_by_age-All _ (
          All-select _ RowSpares (is_orphan (w.now - orphan_photo_age)) t
            (λ r. Protected-RowSpares r protected) a)))

  -- The sweep never deletes a photo that is confirmed, or that was created within the last 14
  -- days, or whose object the store does not report as missing (a check that fails included).
  pub gc_spares :
      (db : Store)
      → Unique (λ (r : Photo). r.id) db.photos
      → select_one has_id db.photos ≡ some ph
      → Protected
      → select_one has_id (gc_orphan_photos w db).photos ≡ some ph
  unfolding gc_orphan_photos gc_photos gc_photo
  gc_spares db u h protected = elim (Bool-cases w.list_photos_fails) [
    | inl f ↦ rw f h
    | inr f ↦ rw f (
        gc_photos-Spares _ db h (eq_sound (select_one_fits has_id db.photos h)) (
          list_orphan_photos-Spares db.photos protected
            (only_row (λ (r : Photo). r.id) id db.photos ph u h)))
  ]
    where
      eq_sound : (ph.id == id) ≡ true → ph.id ≡ id
      eq_sound e = ground arith
