-- ===== src/Reports/Queue.antt =====
-- The queue drains (`Run` and `tick` of report/worker.go).
use sdano.Base.{
  ℕ, ◌+◌, ◌-◌, ◌≤◌, ◌<◌, Bool, true, false, ◌&&◌, ◌≡◌, refl, some, List, [], ◌∷◌, String, ◌==◌,
  length, if◌then◌else◌, is_some, Option-cases, Result-cases, Bool-cases, ok, inl, inr, arith,
}
use sdano.Base.Bytes.{Bytes}
use sdano.Base.Table.{select_one, select, update}
use sdano.Store.{Store, Report}
use sdano.Queries.Reports.{
  is_generating, is_claimable, is_pending, is_exhausted, fail_with, finish, swept_reason, oldest,
  claim_next_report, count_attempt, ClaimNextReportRow, fail_exhausted_reports, mark_report_failed,
  mark_report_ready,
}
use sdano.Reports.{
  failure_reason, World, render, give_up, render_claimed, sweep_exhausted, claim_and_render, tick,
  drain,
}

-- The renderings that the queue still owes.
abbrev pub owed : Report → ℕ
owed r = if is_generating r.status then 3 - r.render_attempts else 0

abbrev pub remaining : List Report → ℕ
remaining [] = 0
remaining (r ∷ t) = owed r + remaining t

update-remaining :
    (p : Report → Bool) (f : Report → Report) (t : List Report)
    → ((r : Report) → owed (f r) ≤ owed r)
    → remaining (update p f t) ≤ remaining t
unfolding update
update-remaining p f [] h = omega arith
update-remaining p f (r ∷ t) h = elim (Bool-cases (p r)) [
  | inl e ↦ rw e (omega (arith, h r, update-remaining p f t h))
  | inr e ↦ rw e (omega (arith, update-remaining p f t h))
]

count_attempt-owed : (r : Report) → owed (count_attempt r) ≤ owed r
count_attempt-owed r = ground arith

-- The claimed row is in the table.
pub claimed-found :
    (t : List Report) (c : Report)
    → oldest (select is_claimable t) ≡ some c
    → is_some (select_one (λ r. r.id == c.id && is_claimable r) t) ≡ true
unfolding oldest select select_one
claimed-found [] c h = cc
claimed-found (r ∷ t) c h = elim (Option-cases (oldest (select is_claimable t))) [
  | inl e ↦ ground (arith, claimed-found t c)
  | inr (s, e) ↦ ground (arith, claimed-found t c)
]

claim-update :
    (id : ℕ) (t : List Report)
    → is_some (select_one (λ r. r.id == id && is_claimable r) t) ≡ true
    → remaining (update (λ r. r.id == id) count_attempt t) < remaining t
unfolding select_one update
claim-update id [] h = cc
claim-update id (r ∷ t) h = elim (Bool-cases (r.id == id && is_claimable r)) [
  | inl e ↦ ground (arith, update-remaining (λ r. r.id == id) count_attempt t count_attempt-owed)
  | inr e ↦ ground (arith, claim-update id t, count_attempt-owed r)
]

claim-remaining :
    (t t' : List Report) (c : ClaimNextReportRow)
    → claim_next_report t ≡ some (t', c)
    → remaining t' < remaining t
unfolding claim_next_report
claim-remaining t t' c h = elim (Option-cases (oldest (select is_claimable t))) [
  | inl e ↦ absurd (ground arith)
  | inr (r, e) ↦ ground (arith, claim-update r.id t (claimed-found t r e))
]

failed-remaining :
    (id tenant : ℕ) (reason : Bytes) (t : List Report)
    → remaining (mark_report_failed id tenant reason t) ≤ remaining t
unfolding mark_report_failed
failed-remaining id tenant reason t =
    update-remaining (is_pending id tenant) (fail_with reason) t (λ r. omega arith)

ready-remaining :
    (now id tenant : ℕ) (key : String) (t : List Report)
    → remaining (mark_report_ready now id tenant key t) ≤ remaining t
unfolding mark_report_ready
ready-remaining now id tenant key t =
    update-remaining (is_pending id tenant) (finish now key) t (λ r. omega arith)

swept-remaining : (t : List Report) → remaining (fail_exhausted_reports t) ≤ remaining t
unfolding fail_exhausted_reports
swept-remaining t = update-remaining is_exhausted (fail_with swept_reason) t (λ r. omega arith)

module _ {Data : Type 0} where
  pub render-reports :
      (w : World Data) (c : ClaimNextReportRow) (db db' : Store)
      → render w c db ≡ ok db'
      → db'.reports
        ≡ mark_report_ready w.now c.id c.tenant_id (w.report_key c.tenant_id c.id) db.reports
  unfolding render
  render-reports w c db db' h = elim (Result-cases (w.build_report_data c db)) [
    | inr (e, f) ↦ absurd (ground arith)
    | inl (data', f) ↦ elim (Result-cases (w.render_html data')) [
      | inr (e, g) ↦ absurd (ground arith)
      | inl (html, g) ↦ elim (Result-cases (w.render_pdf html)) [
        | inr (e, k) ↦ absurd (ground arith)
        | inl (pdf, k) ↦ ground arith
      ]
    ]
  ]

  give_up-remaining :
      (w : World Data) (c : ClaimNextReportRow) (e : Bytes) (db : Store)
      → remaining (give_up w c e db).reports ≤ remaining db.reports
  unfolding give_up
  give_up-remaining w c e db =
      ground (arith, failed-remaining c.id c.tenant_id (failure_reason w c e) db.reports)

  render_claimed-remaining :
      (w : World Data) (c : ClaimNextReportRow) (db : Store)
      → remaining (render_claimed w c db).reports ≤ remaining db.reports
  unfolding render_claimed
  render_claimed-remaining w c db = elim (Result-cases (render w c db)) [
    | inl (db', f) ↦
        rw (f, render_claimed, render-reports w c db db' f)
          (ready-remaining w.now c.id c.tenant_id (w.report_key c.tenant_id c.id) db.reports)
    | inr (e, f) ↦ rw (f, render_claimed) (give_up-remaining w c e db)
  ]

  claim_and_render-remaining :
      (w : World Data) (db : Store)
      → (claim_and_render w db).1 ≡ true
      → remaining (claim_and_render w db).0.reports < remaining db.reports
  unfolding claim_and_render
  claim_and_render-remaining w db h = elim (Option-cases (claim_next_report db.reports)) [
    | inl e ↦ absurd (ground arith)
    | inr ((t, c), e) ↦ ground (
      arith,
      claim-remaining db.reports t c e,
      render_claimed-remaining w c (record db { reports = t }),
    )
  ]

  pub tick-remaining :
      (w : World Data) (db : Store)
      → (tick w db).1 ≡ true
      → remaining (tick w db).0.reports < remaining db.reports
  unfolding tick sweep_exhausted
  tick-remaining w db h =
      ground
        (arith, claim_and_render-remaining w (sweep_exhausted w db) h, swept-remaining db.reports)

  -- The loop of `Run` reaches its sleep: it stops within one tick more than the renderings that the
  -- queue owes, at most three to a report, whatever fails in between.
  pub drain_ends :
      (ws : List (World Data)) (db : Store)
      → remaining db.reports < length ws
      → (drain ws db).1 ≡ false
  unfolding drain
  drain_ends [] db h = absurd (omega (arith, h))
  drain_ends (w ∷ ws) db h = elim (Bool-cases (tick w db).1) [
    | inr stopped ↦ rw stopped refl
    | inl went_on ↦
        rw went_on (drain_ends ws (tick w db).0 (omega (arith, h, tick-remaining w db went_on)))
  ]
