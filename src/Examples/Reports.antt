-- ===== src/Examples/Reports.antt =====
-- A queue with a new report and a finished one (report/worker.go).
use sdano.Base.{
  ℕ, ◌≤◌, ◌<◌, false, ◌≡◌, refl, none, some, List, [], ◌∷◌, length, ok, err, arith, str_eq,
  if◌then◌else◌,
}
use sdano.Base.Bytes.{codes}
use sdano.Base.Table.{select_one, matching}
use sdano.Store.{Store, Report, ReportStatus, generating, ready, manager}
use sdano.Queries.Reports.{
  claim_next_report, fail_exhausted_reports, mark_report_failed, count_generating_reports,
  insert_report,
}
use sdano.Reports.{
  World, valid_string, truncate_reason, max_failure_reason_len, render, give_up, render_claimed,
  sweep_exhausted, claim_and_render, tick, drain,
}
use sdano.Reports.Queue.{remaining, drain_ends}
use sdano.Reports.Served.{Settled, Runs, drain_serves}
use sdano.Reports.Endpoints as Endpoints
use sdano.Reports.Endpoints.{
  CreateReportInput, max_pending_reports, parse_period, report_contract, create_report_call,
  create_staff_report, get_staff_report,
}
use sdano.Reports.Endpoints.Capped.{QueueCall, asks, ticks, run_queue_calls, queue_capped}
use sdano.Session.{Principal}
use sdano.Reports.Final.{report_row, finished_stays}
use sdano.Reports.Reasons.{Stored, truncate_reason-valid}
use sdano.Examples.Office.{office}

abbrev report : ℕ → ReportStatus → ℕ → Report
report id status attempts = record {
  id = id;
  tenant_id = 1;
  contract_id = none;
  period_from = 1;
  period_to = 30;
  status = status;
  failure_reason = none;
  s3_key = none;
  generated_at = none;
  created_at = id;
  render_attempts = attempts;
}

abbrev queue : Store
queue = record office { reports = report 1 generating 1 ∷ report 2 ready 1 ∷ [] }

-- A renderer that always fails.
abbrev broken : World ℕ
broken = record {
  now = 20;
  sweep_fails = false;
  claim_fails = false;
  mark_fails = false;
  cancelled = λ c. none;
  build_report_data = λ c db. ok 0;
  render_html = λ d. ok (codes "<html>");
  render_pdf = λ html. err (codes "no browser");
  put = λ key pdf. none;
  mark_ready = none;
  report_key = λ tenant id. "key";
  format_attempts = λ n. codes "3";
}

abbrev evening : List (World ℕ)
evening = broken ∷ broken ∷ broken ∷ []

owed_two : remaining queue.reports < length evening
owed_two = omega arith

stops : (drain evening queue).1 ≡ false
unfolding drain tick claim_and_render sweep_exhausted fail_exhausted_reports claim_next_report
    render_claimed render give_up mark_report_failed truncate_reason valid_string
stops = refl

drain_ends_example : (drain evening queue).1 ≡ false
drain_ends_example = drain_ends evening queue owed_two

ready_found : report_row 2 queue.reports ≡ some (report 2 ready 1)
unfolding select_one
ready_found = refl

finished_stays_example : report_row 2 (drain evening queue).0.reports ≡ some (report 2 ready 1)
finished_stays_example =
    finished_stays evening queue 2 (report 2 ready 1) ((refl, tt), (tt, tt)) ready_found refl

truncate_reason-valid_example :
    (length (truncate_reason (codes "no browser")) ≤ max_failure_reason_len)
    × Stored (codes "no browser") (truncate_reason (codes "no browser"))
truncate_reason-valid_example = truncate_reason-valid (codes "no browser")

runs : Runs broken
runs = record { sweeps = refl; claims = refl }

drain_serves_example : Settled (drain evening queue).0.reports
drain_serves_example = drain_serves evening queue (runs, (runs, (runs, tt))) owed_two

abbrev desk : Endpoints.World
desk = record {
  fault = λ s. false;
  now = 21;
  new_id = 3;
  parse_uuid = λ s. none;
  parse_date = λ s. if str_eq s "from" then some 0 else if str_eq s "to" then some 10 else none;
  presign_get = λ key. some ("url", 99);
}

abbrev boss_principal : Principal
boss_principal = record { user_id = 6; tenant_id = 1; role = manager }

abbrev june : CreateReportInput
june = record { contract_id = none; period_from = "from"; period_to = "to" }

abbrev shift : List (QueueCall ℕ)
shift = asks desk boss_principal june ∷ ticks broken ∷ asks desk boss_principal june ∷ []

one_pending : count_generating_reports 1 queue.reports ≤ max_pending_reports
unfolding count_generating_reports matching
one_pending = omega arith

queue_capped_example :
    count_generating_reports 1 (run_queue_calls shift queue).reports ≤ max_pending_reports
queue_capped_example = queue_capped 1 shift queue one_pending

-- The report is enqueued.
asked_test : (create_staff_report desk boss_principal june queue).1 ≡ ok (3, generating)
unfolding create_staff_report create_report_call parse_period count_generating_reports
    report_contract insert_report matching select_one
asked_test = refl

bad_id_test : get_staff_report desk boss_principal "2" queue ≡ err Endpoints.invalid_uuid
unfolding get_staff_report
bad_id_test = refl
