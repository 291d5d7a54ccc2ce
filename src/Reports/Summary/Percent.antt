-- ===== src/Reports/Summary/Percent.antt =====
-- What the headline percentage of a report says (report/data.go, `buildSummary`).
use sdano.Base.{
  ℕ, ◌*◌, ◌/◌, ◌≤◌, ◌<◌, ◌≡◌, refl, ◌↔◌, List, [], ◌∷◌, All, true, false, ltb, Bool, arith,
  if◌then◌else◌,
}
use native.Mathlib.Nat.{div-le_of_le-mul, le-div_iff_mul-le}
use sdano.Reports.Summary.{ReportSummaryRow, Built, add_row, add_rows, start, build_summary}

abbrev pub IsCounted : ReportSummaryRow → Type 0
IsCounted s = s.done ≤ s.planned

abbrev pub IsFinished : ReportSummaryRow → Type 0
IsFinished s = s.done ≡ s.planned

-- The loop keeps the jobs done within those planned.
add_rows-bounded :
    (rows : List ReportSummaryRow) (b : Built)
    → All IsCounted rows
    → b.summary.done ≤ b.summary.planned
    → (add_rows rows b).summary.done ≤ (add_rows rows b).summary.planned
unfolding add_rows
add_rows-bounded [] b all bound = bound
add_rows-bounded (s ∷ rows) b all bound =
    let first = all.0 in add_rows-bounded rows (add_row s b) all.1 (omega arith)

-- It ends with all planned jobs done only if the rows it added had theirs done.
add_rows-IsFinished :
    (rows : List ReportSummaryRow) (b : Built)
    → All IsCounted rows
    → b.summary.done ≤ b.summary.planned
    → (add_rows rows b).summary.done ≡ (add_rows rows b).summary.planned
    → (b.summary.done ≡ b.summary.planned) × All IsFinished rows
unfolding add_rows
add_rows-IsFinished [] b all bound same = (same, tt)
add_rows-IsFinished (s ∷ rows) b all bound same =
    let first = all.0 in
    let rest = add_rows-IsFinished rows (add_row s b) all.1 (omega arith) same in
    let sums = rest.0 in (omega arith, (omega arith, rest.1))

add_rows-total :
    (rows : List ReportSummaryRow) (b : Built)
    → All IsFinished rows
    → b.summary.done ≡ b.summary.planned
    → (add_rows rows b).summary.done ≡ (add_rows rows b).summary.planned
unfolding add_rows
add_rows-total [] b all same = same
add_rows-total (s ∷ rows) b all same =
    let first = all.0 in add_rows-total rows (add_row s b) all.1 (omega arith)

percent_bound : (d p : ℕ) → d ≤ p → d * 100 / p ≤ 100
percent_bound d p bound = div-le_of_le-mul p (omega arith)

percent_full : (d p : ℕ) → 0 < p → d ≤ p → (d * 100 / p ≡ 100) ↔ (d ≡ p)
percent_full d p some_planned bound = (to, from)
  where
    limit : d * 100 / p ≤ 100
    limit = percent_bound d p bound

    to : d * 100 / p ≡ 100 → d ≡ p
    to full =
        let low : 100 ≤ d * 100 / p = omega arith in
        let back = (le-div_iff_mul-le some_planned).0 low in omega arith

    from : d ≡ p → d * 100 / p ≡ 100
    from same =
        let low : 100 * p ≤ d * 100 = omega arith in
        let high = (le-div_iff_mul-le some_planned).1 low in omega (arith, limit)

completed :
    (some_planned : Bool) (d p c : ℕ)
    → ltb 0 p ≡ some_planned
    → d ≤ p
    → c ≡ 0
    → ((if some_planned then d * 100 / p else c) ≤ 100)
      × (((if some_planned then d * 100 / p else c) ≡ 100) ↔ ((0 < p) × (d ≡ p)))
completed false d p c test bound none =
    let idle : p ≡ 0 = ground arith in
    (omega arith, (λ full. omega arith, λ h. (let some_planned = h.0 in omega arith)))
completed true d p c test bound none =
    let some_planned : 0 < p = ground arith in
    let full = percent_full d p some_planned bound in
    (percent_bound d p bound, (λ h. (some_planned, full.0 h), λ h. full.1 h.1))

add_rows-completion_pct :
    (rows : List ReportSummaryRow) (b : Built)
    → (add_rows rows b).summary.completion_pct ≡ b.summary.completion_pct
unfolding add_rows
add_rows-completion_pct [] b = refl
add_rows-completion_pct (s ∷ rows) b = add_rows-completion_pct rows (add_row s b)

-- Where every row counts no more jobs done than planned, the percentage of the summary is at most
-- 100, and it is 100 exactly if some job was planned and every object has all its jobs done.
pub completion_honest :
    (rows : List ReportSummaryRow)
    → All IsCounted rows
    → ((build_summary rows).summary.completion_pct ≤ 100)
      × (((build_summary rows).summary.completion_pct ≡ 100)
          ↔ ((0 < (build_summary rows).summary.planned) × All IsFinished rows))
unfolding build_summary
completion_honest rows all =
    let b = add_rows rows (start rows) in
    let bound = add_rows-bounded rows (start rows) all (omega arith) in
    let unset = add_rows-completion_pct rows (start rows) in
    let pct =
      completed _ b.summary.done b.summary.planned b.summary.completion_pct refl bound unset in
    let finished = add_rows-IsFinished rows (start rows) all (omega arith) in
    (
      pct.0,
      (
        λ full. ((pct.1.0 full).0, (finished (pct.1.0 full).1).1),
        λ h. pct.1.1 (h.0, add_rows-total rows (start rows) h.1 refl),
      ),
    )
