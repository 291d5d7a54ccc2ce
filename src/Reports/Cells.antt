-- ===== src/Reports/Cells.antt =====
-- apps/api/internal/report/data.go: the photo grid of a job. The loader of the photos, the error
-- with the photo's id and the formats of the `time` and `fmt` packages are the fields of `Grid`; a
-- coordinate is a float64 by its bits.

pub mod Shown
use sdano.Base.{
  ℕ, Bool, true, false, Option, none, some, String, List, [], ◌∷◌, ◌++◌, ◌==◌, Result, ok, err,
  ◌>>=◌, if◌then◌else◌,
}
use sdano.Base.Bytes.{Bytes}
use sdano.Store.{PhotoKind}
use sdano.Reports.Summary.{PhotoCell}

pub record ReportExecutionPhotosRow : Type 0 where
  pub execution_id : Option ℕ
  pub id : ℕ
  pub kind : PhotoKind
  pub s3_key : String
  pub taken_at : Option ℕ
  pub lat : Option ℕ
  pub lon : Option ℕ
  pub uploaded_at : Option ℕ

pub record Grid : Type 0 where
  pub photo_load : String → Result Bytes String
  pub loading_photo : ℕ → Bytes → Bytes
  pub clock : ℕ → Bytes
  pub coordinates : ℕ → ℕ → Bytes

-- " · " in UTF-8.
abbrev pub caption_separator : Bytes
caption_separator = 32 ∷ 194 ∷ 183 ∷ 32 ∷ []

-- `coords` alone if the caption is empty.
abbrev pub with_coords : Bytes → Bytes → Bytes
with_coords [] coords = coords
with_coords (c ∷ caption) coords = (c ∷ caption) ++ (caption_separator ++ coords)

abbrev pub taken_text : Grid → Option ℕ → Bytes
taken_text g none = []
taken_text g (some at) = g.clock at

abbrev pub place_text : Grid → Option ℕ → Option ℕ → Bytes → Bytes
place_text g (some lat) (some lon) caption = with_coords caption (g.coordinates lat lon)
place_text g (some lat) none caption = caption
place_text g none lon caption = caption

abbrev pub photo_caption : Grid → ReportExecutionPhotosRow → Bytes
photo_caption g p = place_text g p.lat p.lon (taken_text g p.taken_at)

abbrev pub loaded_cell :
    Grid → ReportExecutionPhotosRow → Result Bytes String → Result Bytes PhotoCell
loaded_cell g p (err e) = err (g.loading_photo p.id e)
loaded_cell g p (ok uri) =
    ok (record { data_uri = uri; caption = photo_caption g p; missing = false })

abbrev pub cell_if_uploaded : Grid → ReportExecutionPhotosRow → Option ℕ → Result Bytes PhotoCell
cell_if_uploaded g p none = ok (record { data_uri = ""; caption = []; missing = true })
cell_if_uploaded g p (some at) = loaded_cell g p (g.photo_load p.s3_key)

unfoldable pub build_photo_cell : Grid → ReportExecutionPhotosRow → Result Bytes PhotoCell
build_photo_cell g p = cell_if_uploaded g p p.uploaded_at

-- The inner loop of `BuildReportData`: the first error ends it.
unfoldable pub build_cells :
    Grid → List ReportExecutionPhotosRow → List PhotoCell → Result Bytes (List PhotoCell)
unfolding build_photo_cell
build_cells g [] cells = ok cells
build_cells g (p ∷ photos) cells =
    build_photo_cell g p >>= λ cell. build_cells g photos (cells ++ (cell ∷ []))

abbrev pub Groups : Type 0
Groups = ℕ → List ReportExecutionPhotosRow

-- A row without an execution is skipped.
abbrev pub add_photo : ReportExecutionPhotosRow → Option ℕ → Groups → Groups
add_photo p none groups = groups
add_photo p (some e) groups = λ k. if e == k then groups k ++ (p ∷ []) else groups k

-- The loop of `loadPhotosByExecution` over the rows of its query.
unfoldable pub group_photos : List ReportExecutionPhotosRow → Groups → Groups
group_photos [] groups = groups
group_photos (p ∷ photos) groups = group_photos photos (add_photo p p.execution_id groups)
