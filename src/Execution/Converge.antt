-- ===== src/Execution/Converge.antt =====
-- "Idempotent by construction: replaying any snapshot converges" (`UpsertExecution` of
-- workorder/execution.go).
use sdano.Base.{ℕ, Bool, false, ◌≡◌, ap, ◌∙◌, none, ok, Result-cases, inl, inr}
use sdano.Store.{Store}
use sdano.Execution.{Statement, ExecutionInput, Caller, upsert_tx, upsert_execution}
use sdano.Execution.Committed.{upsert_execution-ok, upsert_execution-err, upsert_execution-commits}
use sdano.Execution.Replay.{replay_committed, replay_commits}

module _ (fault fault' : Statement → Bool) (now later : ℕ) (c : Caller) (in' : ExecutionInput)
    (db : Store) (committed : (upsert_execution fault now c in' db).1 ≡ none) where
  abbrev db₁ : Store
  db₁ = (upsert_execution fault now c in' db).0

  abbrev first : upsert_tx fault now c in' db ≡ ok db₁
  first = upsert_execution-commits fault now c in' db committed

  -- Once a snapshot is committed, replaying it at any later time, whatever statements then fail,
  -- leaves the whole database as it is.
  pub replay_unchanged :
      (upsert_execution fault' later c in' (upsert_execution fault now c in' db).0).0
      ≡ (upsert_execution fault now c in' db).0
  replay_unchanged = elim (Result-cases (upsert_tx fault' later c in' db₁)) [
    | inr (e, f) ↦ ap (λ r. r.0) (upsert_execution-err fault' later c in' db₁ e f)
    | inl (db₂, g) ↦
        ap (λ r. r.0) (upsert_execution-ok fault' later c in' db₁ db₂ g)
        ∙ replay_committed fault fault' now later c in' db db₁ first db₂ g
  ]

  -- Once a snapshot is committed, its replay at any later time succeeds where no statement fails,
  -- and leaves the database as it is.
  pub replay_succeeds :
      ((s : Statement) → fault' s ≡ false)
      → upsert_execution fault' later c in' (upsert_execution fault now c in' db).0
        ≡ ((upsert_execution fault now c in' db).0, none)
  replay_succeeds no_fault =
      upsert_execution-ok fault' later c in' db₁ db₁
        (replay_commits fault fault' now later c in' db db₁ first no_fault)
