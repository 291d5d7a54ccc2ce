-- ===== src/Reports/Final.antt =====
-- A finished report is never touched again (report/worker.go).
use sdano.Base.{
  ℕ, Bool, true, false, ◌≡◌, refl, subst, Option, none, some, List, [], ◌∷◌, String, ◌==◌, leb,
  if◌then◌else◌, Option-cases, Result-cases, Bool-cases, inl, inr, arith,
}
use sdano.Base.Bytes.{Bytes}
use sdano.Base.Table.{select_one, select, update}
use sdano.Base.Table.Laws.{row-update, select_one_fits}
use sdano.Base.Table.Keys.{Unique, update-Unique, select_one-Unique}
use sdano.Store.{Store, Report}
use sdano.Queries.Reports.{
  is_generating, is_claimable, is_pending, is_exhausted, fail_with, finish, swept_reason, oldest,
  claim_next_report, count_attempt, ClaimNextReportRow, fail_exhausted_reports, mark_report_failed,
  mark_report_ready,
}
use sdano.Reports.{
  World, failure_reason, render, give_up, render_claimed, sweep_exhausted, claim_and_render,
  render_next, max_render_attempts, tick, drain,
}
use sdano.Reports.Queue.{claimed-found, render-reports}

abbrev pub report_row : ℕ → List Report → Option Report
report_row k = select_one (λ r. r.id == k)

-- The report is stored under its id, and ids are unique.
pub record Holds (k : ℕ) (r : Report) (t : List Report) : Type 0 where
  pub unique : Unique (λ (x : Report). x.id) t
  pub row : report_row k t ≡ some r

module _ (k : ℕ) (r : Report) (finished : is_generating r.status ≡ false) where
  update-Holds :
      (p : Report → Bool) (f : Report → Report) (t : List Report)
      → ((x : Report) → (f x).id ≡ x.id)
      → ((x : Report) → ((f x).id == k) ≡ (x.id == k))
      → p r ≡ false
      → Holds k r t
      → Holds k r (update p f t)
  update-Holds p f t same same' spared h = record {
    unique = update-Unique (λ x. x.id) p f t same h.unique;
    row = row-update (λ x. x.id == k) p f t r same' h.row spared;
  }

  not_claimed :
      (c : Report) (t : List Report)
      → Holds k r t
      → oldest (select is_claimable t) ≡ some c
      → (r.id == c.id) ≡ false
  not_claimed c t h o = elim (Bool-cases (r.id == c.id)) [
    | inr e ↦ e
    | inl e ↦
        let same : k ≡ c.id =
          ground (arith, select_one_fits (λ (x : Report). x.id == k) t {r = r} h.row) in
        let at : select_one (λ (x : Report). x.id == c.id) t ≡ some r =
          subst (λ j. select_one (λ (x : Report). x.id == j) t ≡ some r) same h.row in
        absurd (
          ground (
            arith,
            claimed-found t c o,
            select_one-Unique (λ (x : Report). x.id) is_claimable c.id t r h.unique at,
          ))
  ]

  claim-Holds :
      (t t' : List Report) (c : ClaimNextReportRow)
      → claim_next_report t ≡ some (t', c)
      → Holds k r t
      → Holds k r t'
  unfolding claim_next_report
  claim-Holds t t' c e h = elim (Option-cases (oldest (select is_claimable t))) [
    | inl o ↦ absurd (ground arith)
    | inr (x, o) ↦
        let written : update (λ s. s.id == x.id) count_attempt t ≡ t' = ground arith in
        subst (Holds k r) written (
          update-Holds (λ s. s.id == x.id) count_attempt t (λ y. refl) (λ y. refl)
            (not_claimed x t h o) h)
  ]

  failed-Holds :
      (id tenant : ℕ) (reason : Bytes) (t : List Report)
      → Holds k r t
      → Holds k r (mark_report_failed id tenant reason t)
  unfolding mark_report_failed
  failed-Holds id tenant reason t h =
      update-Holds (is_pending id tenant) (fail_with reason) t (λ x. refl) (λ x. refl)
        (ground arith) h

  ready-Holds :
      (now id tenant : ℕ) (key : String) (t : List Report)
      → Holds k r t
      → Holds k r (mark_report_ready now id tenant key t)
  unfolding mark_report_ready
  ready-Holds now id tenant key t h =
      update-Holds (is_pending id tenant) (finish now key) t (λ x. refl) (λ x. refl) (ground arith)
        h

  swept-Holds : (t : List Report) → Holds k r t → Holds k r (fail_exhausted_reports t)
  unfolding fail_exhausted_reports
  swept-Holds t h =
      update-Holds is_exhausted (fail_with swept_reason) t (λ x. refl) (λ x. refl) (ground arith) h

  -- Whichever branch a test takes.
  either-Holds :
      {A : Type 0} (reports : A → List Report) (b : Bool) (x y : A)
      → Holds k r (reports x)
      → Holds k r (reports y)
      → Holds k r (reports (if b then x else y))
  either-Holds reports true x y h h' = h
  either-Holds reports false x y h h' = h'

  module _ {Data : Type 0} where
    give_up-Holds :
        (w : World Data) (c : ClaimNextReportRow) (e : Bytes) (db : Store)
        → Holds k r db.reports
        → Holds k r (give_up w c e db).reports
    unfolding give_up
    give_up-Holds w c e db h =
        either-Holds (λ (d : Store). d.reports) (leb max_render_attempts c.render_attempts) _ _
          (either-Holds (λ (d : Store). d.reports) w.mark_fails _ _ h
            (failed-Holds c.id c.tenant_id (failure_reason w c e) db.reports h))
          h

    render_claimed-Holds :
        (w : World Data) (c : ClaimNextReportRow) (db : Store)
        → Holds k r db.reports
        → Holds k r (render_claimed w c db).reports
    unfolding render_claimed
    render_claimed-Holds w c db h = elim (Result-cases (render w c db)) [
      | inr (e, f) ↦ rw (f, render_claimed) (give_up-Holds w c e db h)
      | inl (db', f) ↦
          rw (f, render_claimed, render-reports w c db db' f)
            (ready-Holds w.now c.id c.tenant_id (w.report_key c.tenant_id c.id) db.reports h)
    ]

    claim-render-Holds :
        (w : World Data) (db : Store) (m : Option (List Report × ClaimNextReportRow))
        → claim_next_report db.reports ≡ m
        → Holds k r db.reports
        → Holds k r (render_next w db m).0.reports
    claim-render-Holds w db none e h = h
    claim-render-Holds w db (some (t, c)) e h =
        render_claimed-Holds w c (record db { reports = t }) (claim-Holds db.reports t c e h)

    tick-Holds :
        (w : World Data) (db : Store) → Holds k r db.reports → Holds k r (tick w db).0.reports
    unfolding tick claim_and_render sweep_exhausted
    tick-Holds w db h =
        let swept =
          either-Holds (λ (d : Store). d.reports) w.sweep_fails db _ h (swept-Holds db.reports h) in
        either-Holds (λ (d : Store × Bool). d.0.reports) w.claim_fails _ _ swept
          (claim-render-Holds w (sweep_exhausted w db) _ refl swept)

    drain-Holds :
        (ws : List (World Data)) (db : Store)
        → Holds k r db.reports
        → Holds k r (drain ws db).0.reports
    unfolding drain
    drain-Holds [] db h = h
    drain-Holds (w ∷ ws) db h =
        either-Holds (λ (d : Store × Bool). d.0.reports) (tick w db).1 _ _
          (drain-Holds ws (tick w db).0 (tick-Holds w db h)) (tick-Holds w db h)

-- A report that is ready or failed stays as it is, whatever the worker does afterwards and whatever
-- fails, where report ids are unique.
pub finished_stays :
    {Data : Type 0} (ws : List (World Data)) (db : Store) (k : ℕ) (r : Report)
    → Unique (λ (x : Report). x.id) db.reports
    → report_row k db.reports ≡ some r
    → is_generating r.status ≡ false
    → report_row k (drain ws db).0.reports ≡ some r
finished_stays ws db k r u h finished =
    (drain-Holds k r finished ws db (record { unique = u; row = h })).row
