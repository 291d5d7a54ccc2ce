-- ===== src/Examples/Summaries.antt =====
-- A summary page of two objects and the photos of one job (report/data.go).
use sdano.Base.{ℕ, ◌≤◌, ◌<◌, ◌≡◌, refl, ◌↔◌, none, some, List, [], ◌∷◌, All, arith}
use sdano.Base.{Option, ok, false, true}
use sdano.Store.{before}
use sdano.Reports.Cells.{
  ReportExecutionPhotosRow, Grid, build_cells, group_photos, build_photo_cell,
}
use sdano.Reports.Summary.{ReportSummaryRow, add_rows, build_summary}
use sdano.Reports.Summary.Percent.{IsFinished, completion_honest}

abbrev page : List ReportSummaryRow
page =
    record {
      object_id = 7;
      object_name = "Mill";
      address = some "North road 1";
      planned = 2;
      done = 2;
      missed = 0;
    }
    ∷ record {
      object_id = 9;
      object_name = "Yard";
      address = none;
      planned = 3;
      done = 1;
      missed = 1;
    }
    ∷ []

page_percent : (build_summary page).summary.completion_pct ≡ 60
unfolding build_summary add_rows
page_percent = refl

completion_honest_example :
    ((build_summary page).summary.completion_pct ≤ 100)
    × (((build_summary page).summary.completion_pct ≡ 100)
        ↔ ((0 < (build_summary page).summary.planned) × All IsFinished page))
completion_honest_example = completion_honest page (omega arith, (omega arith, tt))

abbrev shot : ℕ → ℕ → Option ℕ → ReportExecutionPhotosRow
shot id execution uploaded = record {
  execution_id = some execution;
  id = id;
  kind = before;
  s3_key = "photo";
  taken_at = none;
  lat = none;
  lon = none;
  uploaded_at = uploaded;
}

abbrev shots : List ReportExecutionPhotosRow
shots = shot 1 4 (some 100) ∷ shot 2 5 none ∷ shot 3 4 none ∷ []

abbrev grid : Grid
grid = record {
  photo_load = λ key. ok "data:";
  loading_photo = λ id e. e;
  clock = λ at. [];
  coordinates = λ lat lon. [];
}

one_missing :
    build_cells grid (group_photos shots (λ e. []) 4) []
    ≡ ok (
        record { data_uri = "data:"; caption = []; missing = false }
        ∷ record { data_uri = ""; caption = []; missing = true }
        ∷ [])
unfolding build_cells group_photos build_photo_cell
one_missing = refl
