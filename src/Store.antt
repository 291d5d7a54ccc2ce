-- ===== src/Store.antt =====
-- apps/api/internal/db/models.go: the rows of the tables that the modelled code reads or writes,
-- and the database as a record of tables. A `uuid.UUID` is a number, an instant or a date is a
-- number on its time line, and a nullable column (`pgtype.Timestamptz`, `uuid.NullUUID`,
-- `*string`) is an `Option`. A latitude or a longitude is passed on only: it is the number whose 64
-- bits the float has.
use sdano.Base.{ℕ, Bool, String, Option, List}

pub data TenantStatus : Type 0 where
  trial active suspended archived : TenantStatus

pub data UserRole : Type 0 where
  admin manager worker : UserRole

pub data WorkOrderStatus : Type 0 where
  scheduled in_progress done missed : WorkOrderStatus

pub data PhotoKind : Type 0 where
  before after defect resolution : PhotoKind

pub data ReportStatus : Type 0 where
  generating ready failed : ReportStatus

pub record Tenant : Type 0 where
  pub id : ℕ
  pub name : String
  pub status : TenantStatus
  pub trial_ends_at : Option ℕ
  pub plan_note : Option String
  pub billed_until : Option ℕ
  pub timezone : String
  pub suspended_at : Option ℕ

pub record AppUser : Type 0 where
  pub id : ℕ
  pub tenant_id : ℕ
  pub role : UserRole
  pub display_name : String
  pub email : Option String
  pub password_hash : Option String
  pub is_active : Bool
  pub created_at : ℕ

pub record RefreshToken : Type 0 where
  pub id : ℕ
  pub tenant_id : ℕ
  pub user_id : ℕ
  pub token_hash : String
  pub expires_at : ℕ
  pub used_at : Option ℕ
  pub revoked_at : Option ℕ

pub record DeviceToken : Type 0 where
  pub id : ℕ
  pub tenant_id : ℕ
  pub user_id : ℕ
  pub token_hash : String
  pub revoked_at : Option ℕ

pub record WorkerInvite : Type 0 where
  pub id : ℕ
  pub tenant_id : ℕ
  pub user_id : ℕ
  pub code : String
  pub expires_at : ℕ
  pub used_at : Option ℕ

pub record Contract : Type 0 where
  pub id : ℕ
  pub tenant_id : ℕ
  pub name : String
  pub client_name : Option String
  pub created_at : ℕ

pub record Object : Type 0 where
  pub id : ℕ
  pub tenant_id : ℕ
  pub name : String
  pub address : Option String
  pub lat : Option ℕ
  pub lon : Option ℕ
  pub kind : Option String
  pub qr_token : Option String
  pub contract_id : Option ℕ
  pub is_active : Bool
  pub created_at : ℕ

pub record ChecklistTemplate : Type 0 where
  pub id : ℕ
  pub tenant_id : ℕ
  pub name : String

pub record ChecklistTemplateVersion : Type 0 where
  pub id : ℕ
  pub template_id : ℕ
  pub version : ℕ

pub record ChecklistTemplateItem : Type 0 where
  pub id : ℕ
  pub version_id : ℕ
  pub position : ℕ
  pub title : String
  pub requires_photo : Bool

pub record WorkOrder : Type 0 where
  pub id : ℕ
  pub tenant_id : ℕ
  pub object_id : ℕ
  pub version_id : ℕ
  pub assignee_id : Option ℕ
  pub due_date : ℕ
  pub status : WorkOrderStatus
  pub created_at : ℕ

pub record WorkExecution : Type 0 where
  pub id : ℕ
  pub tenant_id : ℕ
  pub work_order_id : ℕ
  pub worker_id : ℕ
  pub started_at : Option ℕ
  pub finished_at : Option ℕ
  pub device_finished_at : Option ℕ
  pub note : Option String
  pub created_at : ℕ

pub record WorkExecutionItem : Type 0 where
  pub id : ℕ
  pub execution_id : ℕ
  pub template_item_id : ℕ
  pub checked : Bool
  pub checked_at : Option ℕ

pub record Photo : Type 0 where
  pub id : ℕ
  pub tenant_id : ℕ
  pub execution_id : Option ℕ
  pub kind : PhotoKind
  pub s3_key : String
  pub taken_at : Option ℕ
  pub lat : Option ℕ
  pub lon : Option ℕ
  pub uploaded_at : Option ℕ
  pub created_at : ℕ

pub record Report : Type 0 where
  pub id : ℕ
  pub tenant_id : ℕ
  pub contract_id : Option ℕ
  pub period_from : ℕ
  pub period_to : ℕ
  pub status : ReportStatus
  pub failure_reason : Option (List ℕ)
  pub s3_key : Option String
  pub generated_at : Option ℕ
  pub created_at : ℕ
  pub render_attempts : ℕ

-- An audit row; its JSON detail is the list of the keys and values recorded.
pub record OpsAudit : Type 0 where
  pub action : String
  pub tenant_id : Option ℕ
  pub detail : List (String × String)

pub record Store : Type 0 where
  pub tenants : List Tenant
  pub users : List AppUser
  pub refresh_tokens : List RefreshToken
  pub device_tokens : List DeviceToken
  pub invites : List WorkerInvite
  pub contracts : List Contract
  pub objects : List Object
  pub checklist_templates : List ChecklistTemplate
  pub checklist_versions : List ChecklistTemplateVersion
  pub checklist_items : List ChecklistTemplateItem
  pub work_orders : List WorkOrder
  pub executions : List WorkExecution
  pub execution_items : List WorkExecutionItem
  pub photos : List Photo
  pub reports : List Report
  pub audits : List OpsAudit
