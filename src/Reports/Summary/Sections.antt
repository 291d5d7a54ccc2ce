-- ===== src/Reports/Summary/Sections.antt =====
-- The order of a report's objects and the lookups of their sections (report/data.go,
-- `buildSummary`, whose map `BuildReportData` reads without a check).
use mathlib.Core.List.{append_assoc, append-nil}
use sdano.Base.{
  ℕ, ◌≡◌, refl, sym, ◌∙◌, List, [], ◌∷◌, ◌++◌, ◌==◌, map, All, All-append, All-mono, true, false,
  Bool, arith, if◌then◌else◌, Option, some, is_some, ==_refl,
}
use sdano.Reports.Summary.{
  ReportSummaryRow, Built, ObjectAccum, summary_row, add_row, add_rows, start, build_summary,
}

abbrev pub IsKnown : Built → ℕ → Type 0
IsKnown b id = is_some (b.meta id) ≡ true

kept_some :
    (hit : Bool) (new : ObjectAccum) (old : Option ObjectAccum)
    → is_some old ≡ true
    → is_some (if hit then some new else old) ≡ true
kept_some true new old known = refl
kept_some false new old known = known

hit_some :
    (hit : Bool) (new : ObjectAccum) (old : Option ObjectAccum)
    → hit ≡ true
    → is_some (if hit then some new else old) ≡ true
hit_some true new old found = refl
hit_some false new old found = ground arith

add_rows-IsKnown :
    (rows : List ReportSummaryRow) (b : Built)
    → All (IsKnown b) b.order
    → All (IsKnown (add_rows rows b)) (add_rows rows b).order
unfolding add_rows
add_rows-IsKnown [] b known = known
add_rows-IsKnown (s ∷ rows) b known = add_rows-IsKnown rows (add_row s b) (
    All-append (IsKnown (add_row s b)) b.order (s.object_id ∷ [])
      (All-mono (IsKnown b) (IsKnown (add_row s b)) b.order
        (λ id. kept_some (id == s.object_id) _ (b.meta id)) known)
      (hit_some (s.object_id == s.object_id) _ (b.meta s.object_id) (==_refl s.object_id), tt))

add_rows-order :
    (rows : List ReportSummaryRow) (b : Built)
    → (add_rows rows b).order ≡ b.order ++ map (λ s. s.object_id) rows
unfolding add_rows
add_rows-order [] b = sym (append-nil b.order)
add_rows-order (s ∷ rows) b =
    add_rows-order rows (add_row s b) ∙ append_assoc b.order (s.object_id ∷ []) _

add_rows-per_object :
    (rows : List ReportSummaryRow) (b : Built)
    → (add_rows rows b).summary.per_object ≡ b.summary.per_object ++ map summary_row rows
unfolding add_rows
add_rows-per_object [] b = sym (append-nil b.summary.per_object)
add_rows-per_object (s ∷ rows) b =
    add_rows-per_object rows (add_row s b)
    ∙ append_assoc b.summary.per_object (summary_row s ∷ []) _

-- The summary table has the rows of the query in their order, the sections follow the same order,
-- and the map has an entry for each of them: no lookup of a section meets a nil pointer.
sections_found :
    (rows : List ReportSummaryRow)
    → ((build_summary rows).summary.per_object ≡ map summary_row rows)
      × (((build_summary rows).order ≡ map (λ s. s.object_id) rows)
          × All (IsKnown (build_summary rows)) (build_summary rows).order)
unfolding build_summary
sections_found rows = (
  add_rows-per_object rows (start rows),
  (add_rows-order rows (start rows), add_rows-IsKnown rows (start rows) tt),
)
