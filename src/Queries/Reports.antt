-- ===== src/Queries/Reports.antt =====
-- apps/api/internal/db/report.sql.go: the statements of the report queue and of its endpoints.
use sdano.Base.{
  ℕ, ◌+◌, Bool, ◌&&◌, true, false, Option, none, some, String, List, [], ◌∷◌, ◌==◌, ltb, leb,
  if◌then◌else◌, is_some,
}
use sdano.Base.Bytes.{Bytes, codes}
use sdano.Base.Table.{select_one, select, update, insert, matching}
use sdano.Base.Sorting.{sort_by, take}
use sdano.Store.{Contract, Report, ReportStatus, generating, ready, failed}

abbrev pub is_generating : ReportStatus → Bool
is_generating generating = true
is_generating _ = false

abbrev pub is_claimable : Report → Bool
is_claimable r = is_generating r.status && ltb r.render_attempts 3

-- `ORDER BY created_at LIMIT 1`.
unfoldable pub oldest : List Report → Option Report
oldest [] = none
oldest (r ∷ t) = elim (oldest t) [
  | none ↦ some r
  | some s ↦ if leb r.created_at s.created_at then some r else some s
]

pub record ClaimNextReportRow : Type 0 where
  pub id : ℕ
  pub tenant_id : ℕ
  pub contract_id : Option ℕ
  pub period_from : ℕ
  pub period_to : ℕ
  pub render_attempts : ℕ

abbrev pub claimed_row : Report → ClaimNextReportRow
claimed_row r = record {
  id = r.id;
  tenant_id = r.tenant_id;
  contract_id = r.contract_id;
  period_from = r.period_from;
  period_to = r.period_to;
  render_attempts = r.render_attempts + 1;
}

abbrev pub count_attempt : Report → Report
count_attempt r = record r { render_attempts = r.render_attempts + 1 }

-- `none` is `pgx.ErrNoRows`. `SKIP LOCKED` skips nothing for the one worker.
unfoldable pub claim_next_report : List Report → Option (List Report × ClaimNextReportRow)
unfolding select update oldest
claim_next_report t = elim (oldest (select is_claimable t)) [
  | none ↦ none
  | some r ↦ some (update (λ s. s.id == r.id) count_attempt t, claimed_row r)
]

unfoldable pub count_generating_reports : ℕ → List Report → ℕ
unfolding matching
count_generating_reports tenant_id =
    matching (λ r. r.tenant_id == tenant_id && is_generating r.status)

abbrev pub swept_reason : Bytes
swept_reason = codes "render failed after 3 attempts (recovered by sweep)"

abbrev pub fail_with : Bytes → Report → Report
fail_with reason r = record r { status = failed; failure_reason = some reason }

abbrev pub finish : ℕ → String → Report → Report
finish now key r = record r { status = ready; s3_key = some key; generated_at = some now }

abbrev pub is_exhausted : Report → Bool
is_exhausted r = is_generating r.status && leb 3 r.render_attempts

unfoldable pub fail_exhausted_reports : List Report → List Report
unfolding update
fail_exhausted_reports = update is_exhausted (fail_with swept_reason)

abbrev pub is_pending : ℕ → ℕ → Report → Bool
is_pending id tenant_id r = r.id == id && (r.tenant_id == tenant_id && is_generating r.status)

unfoldable pub mark_report_failed : ℕ → ℕ → Bytes → List Report → List Report
unfolding update
mark_report_failed id tenant_id reason = update (is_pending id tenant_id) (fail_with reason)

unfoldable pub mark_report_ready : ℕ → ℕ → ℕ → String → List Report → List Report
unfolding update
mark_report_ready now id tenant_id s3_key = update (is_pending id tenant_id) (finish now s3_key)

-- === the endpoints ===

unfoldable pub get_contract_name : ℕ → ℕ → List Contract → Option Contract
unfolding select_one
get_contract_name id tenant_id = select_one (λ c. c.id == id && c.tenant_id == tenant_id)

unfoldable pub get_report : ℕ → ℕ → List Report → Option Report
unfolding select_one
get_report id tenant_id = select_one (λ r. r.id == id && r.tenant_id == tenant_id)

-- `none` is a violation of the primary key.
unfoldable pub insert_report : Report → List Report → Option (List Report)
unfolding select_one
insert_report r t =
    if is_some (select_one (λ (x : Report). x.id == r.id) t) then none else some (insert r t)

-- `ORDER BY created_at DESC LIMIT 100`.
unfoldable pub list_reports : ℕ → List Report → List Report
unfolding sort_by select take
list_reports tenant_id t =
    take 100
      (sort_by (λ a b. ltb b.created_at a.created_at) (select (λ r. r.tenant_id == tenant_id) t))
