-- ===== src/Reports/Endpoints/Capped.antt =====
-- How many reports a tenant may have in the queue (report/http.go and report/worker.go).
use sdano.Base.{
  ℕ, ◌≤◌, Bool, true, false, ◌≡◌, refl, ap, subst, ◌&&◌, Option, none, some, String, List, [], ◌∷◌,
  ◌==◌, leb, is_some, Result, ok, err, Bool-cases, Option-cases, Result-cases, inl, inr, arith,
  if◌then◌else◌,
}
use sdano.Base.Bytes.{Bytes}
use sdano.Base.Table.{select_one, select, update, insert, matching}
use sdano.Base.Table.Counts.{matching-insert}
use sdano.Store.{Store, Report}
use sdano.Queries.Reports.{
  is_generating, is_pending, is_exhausted, fail_with, finish, swept_reason, oldest, is_claimable,
  claim_next_report, count_attempt, ClaimNextReportRow, fail_exhausted_reports, mark_report_failed,
  mark_report_ready, count_generating_reports, insert_report,
}
use sdano.Session.{Principal}
use sdano.Reports.{
  failure_reason, render, give_up, render_claimed, render_next, sweep_exhausted, claim_and_render,
  max_render_attempts, tick,
}
use sdano.Reports as Reports
use sdano.Reports.Queue.{render-reports}
use sdano.Reports.Endpoints.{
  World, EndpointError, CreateReportInput, count_pending, insert_row, parse_period, report_contract,
  new_report, max_pending_reports, create_report_call, enqueued, create_staff_report,
}

-- What changes the queue: a report is asked for, or the worker ticks.
pub data QueueCall (Data : Type 0) : Type 0 where
  asks : World → Principal → CreateReportInput → QueueCall Data
  ticks : Reports.World Data → QueueCall Data

module _ {Data : Type 0} where
  unfoldable pub run_queue_call : QueueCall Data → Store → Store
  run_queue_call (asks w p input) db = (create_staff_report w p input db).0
  run_queue_call (ticks w) db = (tick w db).0

  unfoldable pub run_queue_calls : List (QueueCall Data) → Store → Store
  unfolding run_queue_call
  run_queue_calls [] db = db
  run_queue_calls (c ∷ cs) db = run_queue_calls cs (run_queue_call c db)

abbrev pub IsCapped : ℕ → List Report → Type 0
IsCapped tenant_id t = count_generating_reports tenant_id t ≤ max_pending_reports

module _ (tenant : ℕ) where
  abbrev fits : Report → Bool
  fits r = r.tenant_id == tenant && is_generating r.status

  update-fewer :
      (p : Report → Bool) (f : Report → Report) (t : List Report)
      → ((r : Report) → fits (f r) ≡ true → fits r ≡ true)
      → matching fits (update p f t) ≤ matching fits t
  unfolding update matching
  update-fewer p f [] h = omega arith
  update-fewer p f (r ∷ t) h = ground (arith, h r, update-fewer p f t h)

  update-IsCapped :
      (p : Report → Bool) (f : Report → Report) (t : List Report)
      → ((r : Report) → fits (f r) ≡ true → fits r ≡ true)
      → IsCapped tenant t
      → IsCapped tenant (update p f t)
  unfolding count_generating_reports
  update-IsCapped p f t h few = omega (arith, few, update-fewer p f t h)

  failed-IsCapped :
      (id owner : ℕ) (reason : Bytes) (t : List Report)
      → IsCapped tenant t
      → IsCapped tenant (mark_report_failed id owner reason t)
  unfolding mark_report_failed
  failed-IsCapped id owner reason t =
      update-IsCapped (is_pending id owner) (fail_with reason) t (λ r h. ground arith)

  ready-IsCapped :
      (now id owner : ℕ) (key : String) (t : List Report)
      → IsCapped tenant t
      → IsCapped tenant (mark_report_ready now id owner key t)
  unfolding mark_report_ready
  ready-IsCapped now id owner key t =
      update-IsCapped (is_pending id owner) (finish now key) t (λ r h. ground arith)

  swept-IsCapped :
      (t : List Report) → IsCapped tenant t → IsCapped tenant (fail_exhausted_reports t)
  unfolding fail_exhausted_reports
  swept-IsCapped t = update-IsCapped is_exhausted (fail_with swept_reason) t (λ r h. ground arith)

  claim-IsCapped :
      (t t' : List Report) (c : ClaimNextReportRow)
      → claim_next_report t ≡ some (t', c)
      → IsCapped tenant t
      → IsCapped tenant t'
  unfolding claim_next_report
  claim-IsCapped t t' c e few = elim (Option-cases (oldest (select is_claimable t))) [
    | inl o ↦ absurd (ground arith)
    | inr (x, o) ↦
        let written : (update (λ s. s.id == x.id) count_attempt t ≡ t') = ground arith in
        subst (IsCapped tenant) written
          (update-IsCapped (λ s. s.id == x.id) count_attempt t (λ r h. h) few)
  ]

  -- Whichever branch a test takes.
  either-IsCapped :
      {A : Type 0} (reports : A → List Report) (b : Bool) (x y : A)
      → IsCapped tenant (reports x)
      → IsCapped tenant (reports y)
      → IsCapped tenant (reports (if b then x else y))
  either-IsCapped reports true x y h h' = h
  either-IsCapped reports false x y h h' = h'

  module _ {Data : Type 0} (w : Reports.World Data) where
    give_up-IsCapped :
        (c : ClaimNextReportRow) (e : Bytes) (db : Store)
        → IsCapped tenant db.reports
        → IsCapped tenant (give_up w c e db).reports
    unfolding give_up
    give_up-IsCapped c e db few =
        either-IsCapped (λ (d : Store). d.reports) (leb max_render_attempts c.render_attempts) _ _
          (either-IsCapped (λ (d : Store). d.reports) w.mark_fails _ _ few
            (failed-IsCapped c.id c.tenant_id (failure_reason w c e) db.reports few))
          few

    render_claimed-IsCapped :
        (c : ClaimNextReportRow) (db : Store)
        → IsCapped tenant db.reports
        → IsCapped tenant (render_claimed w c db).reports
    unfolding render_claimed
    render_claimed-IsCapped c db few = elim (Result-cases (render w c db)) [
      | inr (e, f) ↦ rw (f, render_claimed) (give_up-IsCapped c e db few)
      | inl (db', f) ↦
          rw (f, render_claimed, render-reports w c db db' f)
            (ready-IsCapped w.now c.id c.tenant_id (w.report_key c.tenant_id c.id) db.reports few)
    ]

    next-IsCapped :
        (db : Store) (m : Option (List Report × ClaimNextReportRow))
        → claim_next_report db.reports ≡ m
        → IsCapped tenant db.reports
        → IsCapped tenant (render_next w db m).0.reports
    next-IsCapped db none e few = few
    next-IsCapped db (some (t, c)) e few =
        render_claimed-IsCapped c (record db { reports = t }) (claim-IsCapped db.reports t c e few)

    claim_and_render-IsCapped :
        (db : Store)
        → IsCapped tenant db.reports
        → IsCapped tenant (claim_and_render w db).0.reports
    unfolding claim_and_render
    claim_and_render-IsCapped db few =
        either-IsCapped (λ (x : Store × Bool). x.0.reports) w.claim_fails _ _ few
          (next-IsCapped db (claim_next_report db.reports) refl few)

    tick-IsCapped :
        (db : Store) → IsCapped tenant db.reports → IsCapped tenant (tick w db).0.reports
    unfolding tick sweep_exhausted
    tick-IsCapped db few = claim_and_render-IsCapped (sweep_exhausted w db) (
        either-IsCapped (λ (d : Store). d.reports) w.sweep_fails _ _ few
          (swept-IsCapped db.reports few))

  insert-IsCapped :
      (r : Report) (t t' : List Report)
      → leb max_pending_reports (count_generating_reports r.tenant_id t) ≡ false
      → insert_report r t ≡ some t'
      → IsCapped tenant t
      → IsCapped tenant t'
  unfolding insert_report count_generating_reports
  insert-IsCapped r t t' room h few =
      elim (Bool-cases (is_some (select_one (λ (x : Report). x.id == r.id) t))) [
        | inl f ↦ absurd (cc (rw f at h))
        | inr f ↦
            let made : insert r t ≡ t' = cc (rw f at h) in
            subst (IsCapped tenant) made (ground (arith, matching-insert fits r t, room, few))
      ]

create-IsCapped :
    (tenant : ℕ) (w : World) (p : Principal) (input : CreateReportInput) (db : Store)
    → IsCapped tenant db.reports
    → (m : Result EndpointError (List Report × Report)) → create_report_call w p input db ≡ m
    → IsCapped tenant (enqueued db m).0.reports
unfolding create_report_call
create-IsCapped tenant w p input db few (err e) h = few
create-IsCapped tenant w p input db few (ok (t, r)) h =
    elim (Result-cases (parse_period w input.period_from input.period_to)) [
      | inr (e, a) ↦ absurd (cc (rw a at h))
      | inl ((from, to), a) ↦ elim (Bool-cases (w.fault count_pending)) [
        | inl f ↦ absurd (cc (rw (a, f) at h))
        | inr b ↦
            elim (Bool-cases
              (leb max_pending_reports (count_generating_reports p.tenant_id db.reports))) [
                | inl full ↦ absurd (cc (rw (a, b, full) at h))
                | inr room ↦
                    elim (Result-cases (report_contract w p.tenant_id input.contract_id db)) [
                      | inr (e, c) ↦ absurd (cc (rw (a, b, room, c) at h))
                      | inl (contract, c) ↦ elim (Bool-cases (w.fault insert_row)) [
                        | inl f ↦ absurd (cc (rw (a, b, room, c, f) at h))
                        | inr d ↦
                            let row = new_report w p.tenant_id contract from to in
                            elim (Option-cases (insert_report row db.reports)) [
                              | inl n ↦ absurd (cc (rw (a, b, room, c, d, n) at h))
                              | inr (t', n) ↦
                                  let made : (t', row) ≡ (t, r) =
                                    cc (rw (a, b, room, c, d, n) at h) in
                                  subst (IsCapped tenant)
                                    (ap (λ (x : List Report × Report). x.0) made)
                                    (insert-IsCapped tenant row db.reports t' room n few)
                            ]
                      ]
                    ]
              ]
      ]
    ]

-- Where a tenant has at most five reports in the queue, it never has more, whatever reports are
-- asked for, by whom, and whatever ticks of the worker come between, with whatever failures, each
-- call on its own.
pub queue_capped :
    {Data : Type 0} (tenant : ℕ) (cs : List (QueueCall Data)) (db : Store)
    → count_generating_reports tenant db.reports ≤ max_pending_reports
    → count_generating_reports tenant (run_queue_calls cs db).reports ≤ max_pending_reports
unfolding run_queue_calls run_queue_call create_staff_report
queue_capped tenant [] db few = few
queue_capped tenant (asks w p input ∷ cs) db few =
    queue_capped tenant cs (create_staff_report w p input db).0
      (create-IsCapped tenant w p input db few (create_report_call w p input db) refl)
queue_capped tenant (ticks w ∷ cs) db few =
    queue_capped tenant cs (tick w db).0 (tick-IsCapped tenant w db few)
