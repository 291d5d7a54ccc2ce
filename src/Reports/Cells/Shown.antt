-- ===== src/Reports/Cells/Shown.antt =====
-- Which photos a report shows (report/data.go, `loadPhotosByExecution` and `buildPhotoCell`).
use mathlib.Core.List.{append_assoc, append-nil}
use sdano.Base.{
  ℕ, Bool, true, false, ◌≡◌, refl, sym, ap, ◌∙◌, Option, none, some, String, List, [], ◌∷◌, ◌++◌,
  ◌==◌, map, is_none, opt_eq, Result, ok, ◌>>=◌, if◌then◌else◌,
}
use sdano.Base.Bytes.{Bytes}
use sdano.Base.Table.{select}
use sdano.Reports.Summary.{PhotoCell}
use sdano.Reports.Cells.{
  ReportExecutionPhotosRow, Grid, cell_if_uploaded, loaded_cell, build_photo_cell, build_cells,
  Groups, add_photo, group_photos,
}

abbrev pub is_of : ℕ → ReportExecutionPhotosRow → Bool
is_of k p = opt_eq p.execution_id k

abbrev pub not_uploaded : ReportExecutionPhotosRow → Bool
not_uploaded p = is_none p.uploaded_at

grouped_hit :
    (hit : Bool) (p : ReportExecutionPhotosRow) (xs ys : List ReportExecutionPhotosRow)
    → (if hit then xs ++ (p ∷ []) else xs) ++ ys ≡ xs ++ (if hit then p ∷ ys else ys)
grouped_hit true p xs ys = append_assoc xs (p ∷ []) ys
grouped_hit false p xs ys = refl

grouped_step :
    (e : Option ℕ) (p : ReportExecutionPhotosRow) (groups : Groups) (k : ℕ)
    (ys : List ReportExecutionPhotosRow)
    → add_photo p e groups k ++ ys ≡ groups k ++ (if opt_eq e k then p ∷ ys else ys)
grouped_step none p groups k ys = refl
grouped_step (some e) p groups k ys = grouped_hit (e == k) p (groups k) ys

-- The loop appends to each group the rows of its execution, in their order.
group_photos-select :
    (photos : List ReportExecutionPhotosRow) (groups : Groups) (k : ℕ)
    → group_photos photos groups k ≡ groups k ++ select (is_of k) photos
unfolding group_photos select
group_photos-select [] groups k = sym (append-nil (groups k))
group_photos-select (p ∷ photos) groups k =
    group_photos-select photos (add_photo p p.execution_id groups) k
    ∙ grouped_step p.execution_id p groups k (select (is_of k) photos)

module _ (g : Grid) (loads : (key : String) → (uri : String) × (g.photo_load key ≡ ok uri)) where
  loaded_shown :
      (p : ReportExecutionPhotosRow) (r : Result Bytes String) (uri : String)
      → r ≡ ok uri
      → (cell : PhotoCell) × ((loaded_cell g p r ≡ ok cell) × (cell.missing ≡ false))
  loaded_shown p r uri found = (_, (ap (loaded_cell g p) found, refl))

  uploaded_shown :
      (p : ReportExecutionPhotosRow) (at : Option ℕ)
      → (cell : PhotoCell) × ((cell_if_uploaded g p at ≡ ok cell) × (cell.missing ≡ is_none at))
  uploaded_shown p none = (_, (refl, refl))
  uploaded_shown p (some at) =
      let l = loads p.s3_key in loaded_shown p (g.photo_load p.s3_key) l.0 l.1

  build_cells-missing :
      (photos : List ReportExecutionPhotosRow) (before : List PhotoCell)
      → (cells : List PhotoCell) × ((build_cells g photos before ≡ ok (before ++ cells))
          × (map (λ c. c.missing) cells ≡ map not_uploaded photos))
  unfolding build_cells build_photo_cell
  build_cells-missing [] before = ([], (ap ok (sym (append-nil before)), refl))
  build_cells-missing (p ∷ photos) before =
      let one = uploaded_shown p p.uploaded_at in
      let rest = build_cells-missing photos (before ++ (one.0 ∷ [])) in
      (
        one.0 ∷ rest.0,
        (
          ap (λ r. r >>= λ cell. build_cells g photos (before ++ (cell ∷ []))) one.1.0
              ∙ rest.1.0
              ∙ ap ok (append_assoc before (one.0 ∷ []) rest.0),
          (λ i. one.1.1 i ∷ rest.1.1 i),
        ),
      )

  -- Where the loader fails on no key, the grid of an execution has one cell for each of its photo
  -- rows, in their order, and a cell is marked as missing exactly if its upload is not confirmed.
  photos_shown :
      (photos : List ReportExecutionPhotosRow) (k : ℕ)
      → (cells : List PhotoCell) × ((build_cells g (group_photos photos (λ e. []) k) [] ≡ ok cells)
          × (map (λ c. c.missing) cells ≡ map not_uploaded (select (is_of k) photos)))
  photos_shown photos k =
      let all = build_cells-missing (group_photos photos (λ e. []) k) [] in
      (all.0, (all.1.0, all.1.1 ∙ ap (map not_uploaded) (group_photos-select photos (λ e. []) k)))
