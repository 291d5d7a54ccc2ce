-- ===== src/Reports/Served.antt =====
-- What the loop leaves when it sleeps (`Run` and `tick` of report/worker.go).
use sdano.Base.{
  ◌<◌, Bool, true, false, ◌≡◌, refl, sym, ap, ◌∙◌, subst, none, List, [], ◌∷◌, All, length,
  Option-cases, Bool-cases, inl, inr, arith, if◌then◌else◌,
}
use sdano.Base.Table.{select, update}
use sdano.Store.{Store, Report}
use sdano.Queries.Reports.{
  is_generating, is_claimable, is_exhausted, oldest, claim_next_report, fail_exhausted_reports,
}
use sdano.Reports.{World, sweep_exhausted, claim_and_render, render_next, tick, drain}
use sdano.Reports.Queue.{remaining, tick-remaining}

-- Every report is ready or failed.
abbrev pub Settled : List Report → Type 0
Settled = All (λ r. is_generating r.status ≡ false)

none_claimable :
    (t : List Report) → oldest (select is_claimable t) ≡ none → All (λ r. is_claimable r ≡ false) t
unfolding oldest select
none_claimable [] h = tt
none_claimable (r ∷ t) h = elim (Bool-cases (is_claimable r)) [
  | inr e ↦ (e, none_claimable t (rw e at h))
  | inl e ↦ elim (Option-cases (oldest (select is_claimable t))) [
    | inl n ↦ absurd (ground arith)
    | inr (s, n) ↦ absurd (ground arith)
  ]
]

unclaimed : (t : List Report) → claim_next_report t ≡ none → All (λ r. is_claimable r ≡ false) t
unfolding claim_next_report
unclaimed t h = elim (Option-cases (oldest (select is_claimable t))) [
  | inl n ↦ none_claimable t n
  | inr (s, n) ↦ absurd (ground arith)
]

none_exhausted : (t : List Report) → All (λ r. is_exhausted r ≡ false) (fail_exhausted_reports t)
unfolding fail_exhausted_reports update
none_exhausted [] = tt
none_exhausted (r ∷ t) = (ground arith, none_exhausted t)

-- A report that is generating can be claimed or is swept.
both-Settled :
    (t : List Report)
    → All (λ r. is_claimable r ≡ false) t
    → All (λ r. is_exhausted r ≡ false) t
    → Settled t
both-Settled [] c e = tt
both-Settled (r ∷ t) c e = (ground (arith, c.0, e.0), both-Settled t c.1 e.1)

abbrev swept : Store → Store
swept db = record db { reports = fail_exhausted_reports db.reports }

if_false {ℓ} : {A : Type ℓ} (b : Bool) (x y : A) → b ≡ false → (if b then x else y) ≡ y
if_false true x y h = absurd (cc)
if_false false x y h = refl

module _ {Data : Type 0} where
  -- The sweep and the claim run.
  pub record Runs (w : World Data) : Type 0 where
    pub sweeps : w.sweep_fails ≡ false
    pub claims : w.claim_fails ≡ false

  tick-Runs :
      (w : World Data) (db : Store)
      → Runs w
      → tick w db ≡ render_next w (swept db) (claim_next_report (swept db).reports)
  unfolding tick sweep_exhausted claim_and_render
  tick-Runs w db h =
      ap (claim_and_render w) (if_false w.sweep_fails db (swept db) h.sweeps)
      ∙ if_false w.claim_fails (swept db, false) _ h.claims

  -- Where its sweeps and claims run, the loop of `Run` reaches its sleep, within one tick more than
  -- the renderings that the queue owes, with no report left in the queue: each of them is ready or
  -- has failed, whatever renderings fail.
  pub drain_serves :
      (ws : List (World Data)) (db : Store)
      → All Runs ws
      → remaining db.reports < length ws
      → Settled (drain ws db).0.reports
  unfolding drain
  drain_serves [] db runs enough = absurd (omega (arith, enough))
  drain_serves (w ∷ ws) db runs enough =
      let next = tick-Runs w db runs.0 in
      elim (Bool-cases (tick w db).1) [
        | inl went_on ↦ rw went_on (
            drain_serves ws (tick w db).0 runs.1
              (omega (arith, enough, tick-remaining w db went_on)))
        | inr stopped ↦ elim (Option-cases (claim_next_report (swept db).reports)) [
          | inr ((t, c), n) ↦
              let on = ap (λ (x : Store × Bool). x.1) (next ∙ ap (render_next w (swept db)) n) in
              absurd (cc)
          | inl n ↦
              let last =
                ap (λ (x : Store × Bool). x.0.reports) (next ∙ ap (render_next w (swept db)) n) in
              rw stopped (
                subst Settled (sym last) (
                  both-Settled (swept db).reports (unclaimed (swept db).reports n)
                    (none_exhausted db.reports)))
        ]
      ]
