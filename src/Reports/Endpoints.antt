-- ===== src/Reports/Endpoints.antt =====
-- apps/api/internal/report/http.go: the endpoints of reports, which enqueue a report and read it.
-- A date is an instant here, its midnight in UTC.
pub mod Capped
use sdano.Base.{
  ℕ, ◌-◌, ◌*◌, Bool, ◌||◌, Option, none, some, String, List, ltb, leb, map, if◌then◌else◌, Result,
  ok, err, ◌>>=◌, ◌>>◌, reject_if, or_err,
}
use sdano.Base.Bytes.{Bytes}
use sdano.Store.{Store, Report, ReportStatus, generating, ready, failed}
use sdano.Queries.Reports.{
  count_generating_reports, get_contract_name, get_report, insert_report, list_reports,
}
use sdano.Session.{Principal, hour}

pub data EndpointStatement : Type 0 where
  count_pending get_contract insert_row load_report list_rows : EndpointStatement

pub data EndpointError : Type 0 where
  invalid_date invalid_period report_queue_full invalid_uuid invalid_reference : EndpointError
  report_not_found store_failed : EndpointError
  failed_statement : EndpointStatement → EndpointError

pub record World : Type 0 where
  pub fault : EndpointStatement → Bool
  pub now : ℕ
  pub new_id : ℕ
  pub parse_uuid : String → Option ℕ
  pub parse_date : String → Option ℕ
  pub presign_get : String → Option (String × ℕ)

abbrev pub run_statement : World → EndpointStatement → Result EndpointError (Unit {0})
run_statement w s = reject_if (w.fault s) (failed_statement s)

abbrev pub max_period_span : ℕ
max_period_span = 92 * (24 * hour)

abbrev pub max_pending_reports : ℕ
max_pending_reports = 5

unfoldable pub parse_period : World → String → String → Result EndpointError (ℕ × ℕ)
parse_period w from_str to_str = do
  from ← or_err (w.parse_date from_str) invalid_date
  to ← or_err (w.parse_date to_str) invalid_date
  reject_if (ltb to from || ltb max_period_span (to - from)) invalid_period
  ok (from, to)

pub record CreateReportInput : Type 0 where
  pub contract_id : Option String
  pub period_from : String
  pub period_to : String

unfoldable pub report_contract : World → ℕ → Option String → Store → Result EndpointError (Option ℕ)
unfolding get_contract_name
report_contract w tenant_id contract_id db = elim contract_id [
  | none ↦ ok none
  | some s ↦ do
    cid ← or_err (w.parse_uuid s) invalid_uuid
    run_statement w get_contract
    c ← or_err (get_contract_name cid tenant_id db.contracts) invalid_reference
    ok (some cid)
]

-- The row that the database makes, with its defaults; who asked for it is left out.
abbrev pub new_report : World → ℕ → Option ℕ → ℕ → ℕ → Report
new_report w tenant_id contract_id from to = record {
  id = w.new_id;
  tenant_id = tenant_id;
  contract_id = contract_id;
  period_from = from;
  period_to = to;
  status = generating;
  failure_reason = none;
  s3_key = none;
  generated_at = none;
  created_at = w.now;
  render_attempts = 0;
}

unfoldable pub create_report_call :
    World → Principal → CreateReportInput → Store → Result EndpointError (List Report × Report)
unfolding parse_period count_generating_reports report_contract insert_report
create_report_call w p input db = do
  (from, to) ← parse_period w input.period_from input.period_to
  run_statement w count_pending
  reject_if (leb max_pending_reports (count_generating_reports p.tenant_id db.reports))
      report_queue_full
  contract_id ← report_contract w p.tenant_id input.contract_id db
  run_statement w insert_row
  let row = new_report w p.tenant_id contract_id from to
  t ← or_err (insert_report row db.reports) (failed_statement insert_row)
  ok (t, row)

-- The database afterwards, with the id and the status of the report.
abbrev pub enqueued :
    Store
    → Result EndpointError (List Report × Report)
    → Store × Result EndpointError (ℕ × ReportStatus)
enqueued db (err e) = (db, err e)
enqueued db (ok (t, r)) = (record db { reports = t }, ok (r.id, r.status))

unfoldable pub create_staff_report :
    World → Principal → CreateReportInput → Store → Store × Result EndpointError (ℕ × ReportStatus)
create_staff_report w p input db = enqueued db (create_report_call w p input db)

pub record ReportView : Type 0 where
  pub id : ℕ
  pub contract_id : Option ℕ
  pub status : ReportStatus
  pub period_from : ℕ
  pub period_to : ℕ
  pub created_at : ℕ
  pub failure_reason : Option Bytes
  pub download_url : Option String
  pub url_expires_at : Option ℕ

abbrev pub view_of : Report → Option Bytes → Option String → Option ℕ → ReportView
view_of r reason url expires = record {
  id = r.id;
  contract_id = r.contract_id;
  status = r.status;
  period_from = r.period_from;
  period_to = r.period_to;
  created_at = r.created_at;
  failure_reason = reason;
  download_url = url;
  url_expires_at = expires;
}

abbrev pub shown_reason : ReportStatus → Option Bytes → Option Bytes
shown_reason failed reason = reason
shown_reason _ reason = none

-- Only a report that is ready and has a key is presigned.
unfoldable pub presigned_view :
    World → Report → ReportStatus → Option String → Result EndpointError ReportView
presigned_view w r ready (some key) = or_err (w.presign_get key) store_failed >>= λ l.
    ok (view_of r (shown_reason r.status r.failure_reason) (some l.0) (some l.1))
presigned_view w r _ _ = ok (view_of r (shown_reason r.status r.failure_reason) none none)

unfoldable pub get_staff_report :
    World → Principal → String → Store → Result EndpointError ReportView
unfolding get_report presigned_view
get_staff_report w p id db = do
  id ← or_err (w.parse_uuid id) invalid_uuid
  run_statement w load_report
  r ← or_err (get_report id p.tenant_id db.reports) report_not_found
  presigned_view w r r.status r.s3_key

unfoldable pub list_staff_reports :
    World → Principal → Store → Result EndpointError (List ReportView)
unfolding list_reports
list_staff_reports w p db = do
  run_statement w list_rows
  ok (map (λ r. view_of r none none none) (list_reports p.tenant_id db.reports))
