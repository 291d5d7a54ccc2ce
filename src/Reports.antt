-- ===== src/Reports.antt =====
-- apps/api/internal/report/worker.go: the queue of reports that one worker drains. The building of
-- the data, the template, the PDF renderer and the object store are the fields of `World`, each of
-- which may fail with a message; `cancelled` is `ctx.Err()` at a checkpoint of `render`.
pub mod Queue
pub mod Final
pub mod Served
pub mod Reasons
pub mod Summary
pub mod Cells
pub mod Endpoints
use sdano.Base.{
  ℕ, zero, suc, ◌+◌, Bool, true, false, ◌&&◌, ◌||◌, not, Option, none, some, String, List, [], ◌∷◌,
  ◌++◌, ◌==◌, ltb, leb, length, if◌then◌else◌, Result, ok, err, ◌>>=◌, ◌>>◌, reject_if,
}
use sdano.Base.Bytes.{Bytes, codes, take}
use sdano.Store.{Store, Report}
use sdano.Queries.Reports.{
  ClaimNextReportRow, claim_next_report, fail_exhausted_reports, mark_report_failed,
  mark_report_ready,
}

pub data Checkpoint : Type 0 where
  before_build before_html before_pdf before_put : Checkpoint

-- What one tick meets. `DownscaleJPEG` and `BuildReportData` only read.
pub record World (Data : Type 0) : Type 0 where
  pub now : ℕ
  pub sweep_fails : Bool
  pub claim_fails : Bool
  pub mark_fails : Bool
  pub cancelled : Checkpoint → Option Bytes
  pub build_report_data : ClaimNextReportRow → Store → Result Bytes Data
  pub render_html : Data → Result Bytes Bytes
  pub render_pdf : Bytes → Result Bytes Bytes
  pub put : String → Bytes → Option Bytes
  pub mark_ready : Option Bytes
  pub report_key : ℕ → ℕ → String
  pub format_attempts : ℕ → Bytes

abbrev pub max_render_attempts : ℕ
max_render_attempts = 3

abbrev pub max_failure_reason_len : ℕ
max_failure_reason_len = 500

abbrev pub is_continuation : ℕ → Bool
is_continuation b = leb 128 b && leb b 191

abbrev pub in_range : ℕ → ℕ → ℕ → Bool
in_range lo hi b = leb lo b && leb b hi

-- The range of the second byte that a first byte of a three- or four-byte rune allows.
abbrev pub second_of_three : ℕ → ℕ → Bool
second_of_three x y =
    if x == 224
    then in_range 160 191 y
    else if x == 237
    then in_range 128 159 y
    else is_continuation y

abbrev pub second_of_four : ℕ → ℕ → Bool
second_of_four x y =
    if x == 240
    then in_range 144 191 y
    else if x == 244
    then in_range 128 143 y
    else is_continuation y

-- `utf8.ValidString`.
unfoldable pub valid_string : Bytes → Bool
valid_string [] = true
valid_string (x ∷ []) = ltb x 128
valid_string (x ∷ (y ∷ [])) =
    let one = valid_string (y ∷ []) in
    (ltb x 128 && one) || (in_range 194 223 x && is_continuation y)
valid_string (x ∷ (y ∷ (z ∷ []))) =
    let one = valid_string (y ∷ (z ∷ [])) in
    let two = valid_string (z ∷ []) in
    (ltb x 128 && one)
    || ((in_range 194 223 x && (is_continuation y && two))
        || (in_range 224 239 x && (second_of_three x y && is_continuation z)))
valid_string (x ∷ (y ∷ (z ∷ (u ∷ s)))) =
    let one = valid_string (y ∷ (z ∷ (u ∷ s))) in
    let two = valid_string (z ∷ (u ∷ s)) in
    let three = valid_string (u ∷ s) in
    let four = valid_string s in
    (ltb x 128 && one)
    || ((in_range 194 223 x && (is_continuation y && two))
        || ((in_range 224 239 x && (second_of_three x y && (is_continuation z && three)))
            || (in_range 240 244 x
                && (second_of_four x y && (is_continuation z && (is_continuation u && four))))))

-- `for len(s) > 0 && !utf8.ValidString(s) { s = s[:len(s)-1] }` on the first `n` bytes of `s`.
unfoldable pub back_off : ℕ → Bytes → Bytes
back_off zero s = []
back_off (suc n) s =
    let rest = back_off n s in if valid_string (take (suc n) s) then take (suc n) s else rest

unfoldable pub truncate_reason : Bytes → Bytes
unfolding back_off
truncate_reason s =
    if leb (length s) max_failure_reason_len then s else back_off max_failure_reason_len s

-- `fmt.Errorf(prefix + ": %w", err)`.
abbrev pub wrapped : {A : Type 0} → Bytes → Result Bytes A → Result Bytes A
wrapped prefix (ok a) = ok a
wrapped prefix (err e) = err (prefix ++ e)

abbrev pub must : Bytes → Option Bytes → Result Bytes (Unit {0})
must prefix none = ok tt
must prefix (some e) = err (prefix ++ e)

module _ {Data : Type 0} where
  abbrev pub checkpoint : World Data → Checkpoint → Result Bytes (Unit {0})
  checkpoint w c = elim (w.cancelled c) [ none ↦ ok tt | some e ↦ err e ]

  -- The database after the report is marked ready, or the error.
  unfoldable pub render : World Data → ClaimNextReportRow → Store → Result Bytes Store
  render w claimed db = do
    checkpoint w before_build
    data' ← wrapped (codes "building report data: ") (w.build_report_data claimed db)
    checkpoint w before_html
    html ← wrapped (codes "rendering html: ") (w.render_html data')
    checkpoint w before_pdf
    pdf ← wrapped (codes "rendering pdf: ") (w.render_pdf html)
    checkpoint w before_put
    let key = w.report_key claimed.tenant_id claimed.id
    must (codes "uploading pdf: ") (w.put key pdf)
    must (codes "marking report ready: ") w.mark_ready
    ok (record db { reports = mark_report_ready w.now claimed.id claimed.tenant_id key db.reports })

  abbrev pub failure_reason : World Data → ClaimNextReportRow → Bytes → Bytes
  failure_reason w claimed e = truncate_reason (
      codes "render failed after "
      ++ (w.format_attempts claimed.render_attempts ++ (codes " attempts: " ++ e)))

  unfoldable pub give_up : World Data → ClaimNextReportRow → Bytes → Store → Store
  give_up w claimed e db =
      if leb max_render_attempts claimed.render_attempts
      then if w.mark_fails then db else record db {
        reports =
            mark_report_failed claimed.id claimed.tenant_id (failure_reason w claimed e) db.reports;
      }
      else db

  unfoldable pub render_claimed : World Data → ClaimNextReportRow → Store → Store
  render_claimed w claimed db = elim (render w claimed db) [
    | ok db' ↦ db'
    | err e ↦ give_up w claimed e db
  ]

  unfoldable pub sweep_exhausted : World Data → Store → Store
  sweep_exhausted w db =
      if w.sweep_fails then db else record db { reports = fail_exhausted_reports db.reports }

  abbrev pub render_next :
      World Data → Store → Option (List Report × ClaimNextReportRow) → Store × Bool
  render_next w db none = (db, false)
  render_next w db (some (reports, claimed)) =
      (render_claimed w claimed (record db { reports = reports }), true)

  -- The database after the tick, and whether a row was claimed.
  unfoldable pub claim_and_render : World Data → Store → Store × Bool
  claim_and_render w db =
      if w.claim_fails then (db, false) else render_next w db (claim_next_report db.reports)

  unfoldable pub tick : World Data → Store → Store × Bool
  tick w db = claim_and_render w (sweep_exhausted w db)

  -- The loop of `Run` between two sleeps, one world for each tick; with the answer of the last one.
  unfoldable pub drain : List (World Data) → Store → Store × Bool
  drain [] db = (db, true)
  drain (w ∷ ws) db =
      let rest = drain ws (tick w db).0 in if (tick w db).1 then rest else ((tick w db).0, false)
