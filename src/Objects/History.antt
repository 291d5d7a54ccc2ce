-- ===== src/Objects/History.antt =====
-- apps/api/internal/object/http.go: the card of an object and its execution history, page by page.
pub mod Cursor
pub mod Rows
pub mod Walk
pub mod Pages
use sdano.Base.{
  ℕ, ◌+◌, ◌*◌, ◌^◌, ◌-◌, zero, suc, String, Option, none, some, List, [], ◌∷◌, ◌++◌, ◌==◌, ltb, map,
  length, if◌then◌else◌, Result, ok, err, ◌>>=◌, ◌>>◌, or_err,
}
use sdano.Base.Bytes.{Bytes}
use sdano.Base.Int.{ℤ, pos, negsuc}
use sdano.Base.Sorting.{last_row}
use sdano.Store.{Store, Object}
use sdano.Queries.Objects.{get_object, ListObjectExecutionsRow, list_object_executions}
use sdano.Session.{Principal, hour}
use sdano.Objects.{
  World, ObjectError, load_object, list_executions, invalid_uuid, object_not_found, invalid_cursor,
  run_statement,
}

-- === the cursor ===

-- ffffffff-ffff-ffff-ffff-ffffffffffff.
abbrev pub max_cursor_id : ℕ
max_cursor_id = 2 ^ 128 - 1

abbrev pub first_page_cursor : World → ℕ × ℕ
first_page_cursor w = (w.now + 24 * hour, max_cursor_id)

unfoldable pub encode_cursor : World → ℕ → ℕ → Bytes
encode_cursor w t id = w.encode_base64 (w.format_time t ++ b'|' ∷ w.format_uuid id)

-- `strings.SplitN(s, "|", 2)`; `none` where it has one part.
unfoldable pub split_bar : Bytes → Option (Bytes × Bytes)
split_bar [] = none
split_bar (c ∷ s) =
    if c == b'|'
    then some ([], s)
    else elim (split_bar s) [ none ↦ none | some (a, b) ↦ some (c ∷ a, b) ]

unfoldable pub decode_cursor : World → Bytes → Result ObjectError (ℕ × ℕ)
unfolding split_bar
decode_cursor w s = do
  raw ← or_err (w.decode_base64 s) invalid_cursor
  (a, b) ← or_err (split_bar raw) invalid_cursor
  t ← or_err (w.parse_time a) invalid_cursor
  id ← or_err (w.parse_uuid b) invalid_cursor
  ok (t, id)

-- === reads ===

pub record ObjectExecutionView : Type 0 where
  pub id : ℕ
  pub work_order_id : ℕ
  pub created_at : ℕ
  pub started_at : Option ℕ
  pub finished_at : Option ℕ
  pub device_finished_at : Option ℕ
  pub worker_name : String
  pub photo_count : ℕ

abbrev pub to_execution_view : ListObjectExecutionsRow → ObjectExecutionView
to_execution_view r = record {
  id = r.id;
  work_order_id = r.work_order_id;
  created_at = r.created_at;
  started_at = r.started_at;
  finished_at = r.finished_at;
  device_finished_at = r.device_finished_at;
  worker_name = r.worker_name;
  photo_count = r.photo_count;
}

unfoldable pub load_staff_object :
    World → Principal → Bytes → Store → Result ObjectError (ℕ × Object)
unfolding get_object
load_staff_object w p id db = do
  id ← or_err (w.parse_uuid id) invalid_uuid
  run_statement w load_object
  o ← or_err (get_object id p.tenant_id db.objects) object_not_found
  ok (id, o)

unfoldable pub object_card :
    World → Principal → Bytes → Store → Result ObjectError (Object × List ObjectExecutionView)
unfolding load_staff_object list_object_executions
object_card w p id db = do
  (id, o) ← load_staff_object w p id db
  run_statement w list_executions
  ok (o, map to_execution_view (list_object_executions p.tenant_id id (first_page_cursor w) 10 db))

-- `switch { case limit <= 0: limit = 20; case limit > 100: limit = 100 }`.
unfoldable pub page_limit : ℤ → ℕ
page_limit (negsuc n) = 20
page_limit (pos zero) = 20
page_limit (pos (suc n)) = if ltb 100 (suc n) then 100 else suc n

pub record ListExecutionsInput : Type 0 where
  pub id : Bytes
  pub cursor : Bytes
  pub limit : ℤ

abbrev pub page_start : World → Bytes → Result ObjectError (ℕ × ℕ)
page_start w [] = ok (first_page_cursor w)
page_start w (c ∷ s) = decode_cursor w (c ∷ s)

-- Where the page is full, the cursor of its last row; an empty cursor is left out.
abbrev pub next_cursor : World → ℕ → List ListObjectExecutionsRow → Bytes
next_cursor w limit rows =
    if length rows == limit
    then elim (last_row rows) [ none ↦ [] | some last ↦ encode_cursor w last.created_at last.id ]
    else []

unfoldable pub list_staff_object_executions :
    World
    → Principal
    → ListExecutionsInput
    → Store
    → Result ObjectError (List ObjectExecutionView × Bytes)
unfolding load_staff_object page_limit list_object_executions last_row encode_cursor decode_cursor
list_staff_object_executions w p input db = do
  (id, o) ← load_staff_object w p input.id db
  after ← page_start w input.cursor
  run_statement w list_executions
  let rows = list_object_executions p.tenant_id id after (page_limit input.limit) db
  ok (map to_execution_view rows, next_cursor w (page_limit input.limit) rows)
