-- ===== src/Lib.antt =====
-- Verification of the Sdano API (apps/api): a service in which cleaning companies (tenants) hand
-- out work orders, workers execute them against a checklist and upload photos as evidence, and
-- staff read the outcome. All state is in PostgreSQL and in an object store; the request handlers
-- and the background jobs change it by transactions and single statements.
--
-- The parts, and the files that model them:
--   * Store: the rows of db/models.go, and the database as a record of tables (all paths here are
--     relative to apps/api/internal). Base.Table gives the forms of statement (`select_one`,
--     `select`, `update`, `delete`, `insert`) and Base.Table.Laws, Counts and Keys their laws.
--   * Queries: one function for each statement, with its `WHERE`, its `ON CONFLICT` and the unique
--     keys that it can meet: Worker (db/worker.sql.go), Auth (db/auth.sql.go), Photos (the
--     statements on photos of worker.sql.go, staff.sql.go and platform.sql.go), Tenants
--     (db/platform.sql.go), Staff, Objects, Orders, Day and Evidence (db/staff.sql.go,
--     object.sql.go and worker.sql.go). Base.Sorting gives `ORDER BY` and `LIMIT` as an insertion
--     sort and a prefix; References says what the counts of the checks on references prove.
--   * Calendar: `TenantToday` of workorder/http.go.
--   * Objects: object/http.go, the listing of objects and their changes (`create_object`,
--     `patch_object`), with the card and the execution history in History (Cursor, Rows, Walk and
--     Pages are on what a client that follows its cursors reads), the scan of a QR token in Scan,
--     and the uniqueness of the tokens in Qr and Changes.
--   * Orders: the endpoints for orders of workorder/http.go: Creation (`create_staff_work_orders`),
--     Changes (`list_staff_work_orders`, `patch_staff_work_order`), Today (`worker_today`),
--     Dashboard (`staff_dashboard`) and Detail (`staff_execution_detail`). Reassigned joins a
--     reassignment with a later `UpsertExecution`.
--   * Execution: `UpsertExecution` of workorder/execution.go (`upsert_execution`, its transaction
--     `upsert_tx`). Committed says what a committed call has written; Items, Replay and Converge
--     are on replays; Completion, Snapshot and Isolation on what is stored and what is spared.
--     Handler is the endpoint around it in workorder/http.go (`put_execution`), Handled is on it.
--   * Session: auth/service.go (`login`, `logout`; `refresh` in Rotation, `claim_worker` in
--     Invites). `Refresh` and `ClaimWorker` read before their transaction: `rotate` and `claim` are
--     the transactions, on a row that may be stale.
--   * RateLimit: auth/ratelimit.go (`limit_by_ip`, `limit_by_principal`, `allow`, `sweep`).
--   * Middleware: auth/middleware.go and the order of the middlewares in app/app.go
--     (`authenticate`, `authorize`, `serve`).
--   * Photo: photo/http.go (`presign`, `confirm`, `staff_photo_url`), each handler split at its
--     writes, since each statement commits on its own.
--   * Platform: platform/ops.go (`ops_suspend`, `ops_activate`, `ops_set_billing_call`; the creation
--     of a tenant, `ops_create_tenant_call`, in Creation) and platform/scheduler.go
--     (`gc_orphan_photos`, `mark_overdue_missed`, `run_once`).
--   * Reports: the queue of report/worker.go (`tick`, and `drain` for the loop of `Run`), with its
--     statements of db/report.sql.go in Queries.Reports; the summary page and the photo grid of
--     report/data.go (`build_summary`, `group_photos`, `build_photo_cell`) in Summary and Cells.
--     Served is on what the loop leaves when it sleeps. Endpoints is report/http.go
--     (`create_staff_report`, `get_staff_report`, `list_staff_reports`), Capped the queue's cap.
--   * Roster: `CreateInvite` of roster/invite.go (`create_invite`, its loop `issue_code`) and the
--     reinvite handler of roster/http.go (`reinvite`), on Queries.Staff; the other handlers of
--     roster/http.go in Workers (`list_staff_workers`, `create_staff_worker`, `patch_staff_worker`).
--     Claimed joins the roster's calls with those of the auth service.
--   * Examples: tests, and the theorems at concrete inputs.
--
-- How they interact: a request passes `serve`, which reads the rate limiter, the device tokens
-- and the tenant's status; its handler then changes the database. Platform changes the tenant's
-- status and suspension that Middleware and Photo read, and deletes photos that Photo has
-- presigned. Orders are created and reassigned by staff (Orders), executed by workers
-- (Execution) and marked as missed by Platform; the executions are what the history of an
-- object, the dashboard and the detail view show.
--
-- Conventions. A `uuid.UUID`, an instant, a date and a duration are numbers of the native ℕ; a
-- nullable column is an `Option`. A transaction is one step: its result is the new database
-- where it commits and the old one where it fails. Every statement may fail: `fault` (a function
-- of the statement's name) says which do, and a theorem without a condition on it holds for each
-- of them. Loops are structural recursions on lists; that of `Run` is one on the worlds that its
-- ticks meet, so that their number is its fuel. A client that follows the cursors of a history
-- makes as many calls as its fuel; one more than there are rows is enough. A limit of a query
-- parameter is signed (Base.Int). Cryptography, the JWT library, base64, the parsers and formats
-- of UUIDs, times and dates, the database's order of texts, the object store, the time-zone
-- database, the building and rendering of a report and the token bucket of
-- golang.org/x/time/rate are parameters. The uniqueness of primary keys is a hypothesis where a
-- theorem needs it.
--
-- Since a transaction is one step, what other sessions commit between its statements is not seen:
-- in particular, the references of a bulk creation are checked without locks (workorder/http.go),
-- so that under READ COMMITTED a worker or an object may be deactivated between the check and the
-- commit, and the new orders then refer to it. The rows that a call reads before its transaction
-- may be stale, and the theorems on `rotate` and `claim` say so.
--
-- Not modelled: the loop of report/data.go over the executions, which the queue takes as a
-- parameter, the rendering of a report with its images (report/image.go), the
-- password encoding, the commands, and the glue of HTTP, JSON, SQL drivers and S3; the views leave
-- out how an instant or a date is printed.
pub mod Base
pub mod Store
pub mod Queries
pub mod Execution
pub mod Session
pub mod RateLimit
pub mod Middleware
pub mod Photo
pub mod Platform
pub mod Calendar
pub mod Objects
pub mod Orders
pub mod Examples
pub mod Reports
pub mod Roster
