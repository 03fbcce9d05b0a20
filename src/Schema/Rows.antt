-- ===== src/Schema/Rows.antt =====
-- The rows of the tables of migrations/versions, with the columns that the modelled code reads or
-- writes. Amounts and counters that a CHECK keeps at 0 or more are natural numbers.
use digital_services_platfor.Base.{ℕ, Bool, Option, List}
use digital_services_platfor.Int.{ℤ}
use digital_services_platfor.Text.{Text}
use digital_services_platfor.Schema.Types.{
  RowId, TransactionType, OrderStatus, Currency, JobStatus, AttemptStatus, FileStatus, FileType,
  DeliveryStatus, WorkflowStatus, ChargeStatus, StarEventType, PaymentStatus, ProcessorType,
  InputSchema, RequestStatus, InboxStatus, ReceiptKind,
}

pub record UserRow : Type 0 where
  pub id : RowId
  pub telegram_user_id : Option ℕ

pub record CategoryRow : Type 0 where
  pub id : RowId
  pub slug : Text
  pub name_ar : Text
  pub enabled : Bool

pub record ServiceRow : Type 0 where
  pub id : RowId
  pub category_id : RowId
  pub slug : Text
  pub name_ar : Text
  pub description_ar : Text
  pub processor_type : ProcessorType
  pub base_price_halalas : ℕ
  pub base_price_stars : Option ℕ
  pub processor_key : Option Text
  pub input_schema : InputSchema
  pub enabled : Bool
  pub revision : ℕ

pub record OrderRow : Type 0 where
  pub id : RowId
  pub user_id : RowId
  pub service_id : RowId
  pub client_request_key : Text
  pub channel : Text
  pub price_snapshot_halalas : ℕ
  pub currency : Currency
  pub price_snapshot_stars : Option ℕ
  pub status : OrderStatus
  pub delivery_receipt : Option Text

pub record WalletTransaction : Type 0 where
  pub wallet_user_id : RowId
  pub order_id : Option RowId
  pub transaction_type : TransactionType
  pub amount_halalas : ℤ
  pub idempotency_key : Text
  pub reason : Option Text

pub record JobRow : Type 0 where
  pub id : RowId
  pub order_id : RowId
  pub status : JobStatus
  pub attempt_count : ℕ
  pub max_attempts : ℕ
  pub error_code : Option Text
  pub started_at : Option ℕ
  pub result_file_id : Option RowId

pub record JobAttempt : Type 0 where
  pub job_id : RowId
  pub attempt_number : ℕ
  pub status : AttemptStatus
  pub error_code : Option Text

pub record FileRow : Type 0 where
  pub id : RowId
  pub owner_user_id : RowId
  pub order_id : Option RowId
  pub storage_key : Text
  pub file_name : Text
  pub mime_type : Text
  pub size_bytes : ℕ
  pub file_type : FileType
  pub status : FileStatus
  pub retention_until : ℕ
  pub cleanup_attempted_at : Option ℕ
  pub created_at : ℕ

pub record OrderFile : Type 0 where
  pub order_id : RowId
  pub position : ℕ
  pub file_id : RowId

pub record DeliveryRow : Type 0 where
  pub id : RowId
  pub order_id : RowId
  pub status : DeliveryStatus
  pub attempt_count : ℕ
  pub max_attempts : ℕ
  pub next_attempt_at : ℕ
  pub claimed_at : Option ℕ
  pub error_code : Option Text
  pub external_receipt : Option Text

pub record WorkflowRow : Type 0 where
  pub id : RowId
  pub user_id : RowId
  pub service_id : RowId
  pub status : WorkflowStatus
  pub quoted_price_halalas : Option ℕ
  pub quoted_price_stars : Option ℕ
  pub quoted_terms_digest : Option Text
  pub quote_revision : ℕ
  pub order_id : Option RowId

pub record WorkflowFile : Type 0 where
  pub workflow_id : RowId
  pub position : ℕ
  pub telegram_message_id : ℕ
  pub file_id : RowId

pub record StarInvoiceRow : Type 0 where
  pub id : RowId
  pub user_id : RowId
  pub workflow_id : RowId
  pub quote_revision : ℕ
  pub service_id : RowId
  pub amount_stars : ℕ
  pub file_ids : List RowId
  pub terms_digest : Text
  pub terms_text : Text
  pub input_text_digest : Option Text
  pub checkout_query_id : Option Text
  pub order_id : Option RowId

pub record StarCharge : Type 0 where
  pub charge_id : Text
  pub invoice_id : RowId
  pub status : ChargeStatus
  pub order_id : Option RowId

pub record StarEvent : Type 0 where
  pub charge_id : Text
  pub event_type : StarEventType
  pub receipt : Option Text

pub record PaymentRow : Type 0 where
  pub id : RowId
  pub user_id : RowId
  pub provider : Text
  pub provider_reference : Option Text
  pub amount_halalas : ℕ
  pub currency : Currency
  pub client_request_key : Text
  pub status : PaymentStatus

pub record PaymentEvent : Type 0 where
  pub provider : Text
  pub event_id : Text
  pub payment_id : RowId
  pub provider_reference : Text
  pub amount_halalas : ℕ
  pub currency : Currency

pub record SummaryInput : Type 0 where
  pub workflow_id : RowId
  pub user_id : RowId
  pub telegram_message_id : ℕ
  pub input_text : Text
  pub input_digest : Text
  pub retention_until : ℕ

pub record SummaryResult : Type 0 where
  pub order_id : RowId
  pub result_text : Text
  pub retention_until : ℕ

pub record CustomRequest : Type 0 where
  pub id : RowId
  pub user_id : RowId
  pub channel : Text
  pub status : RequestStatus
  pub revision : ℕ
  pub description : Option Text
  pub source_message_key : Option Text
  pub reviewed_by_admin_id : Option RowId
  pub decision_reason : Option Text

-- The metadata of a triage.
pub record TriageChange : Type 0 where
  pub custom_request_id : RowId
  pub status_before : RequestStatus
  pub status_after : RequestStatus
  pub revision_before : ℕ
  pub revision_after : ℕ

pub record CategoryCreated : Type 0 where
  pub category_id : RowId
  pub slug : Text
  pub name_ar : Text

pub record ServiceCreated : Type 0 where
  pub service_id : RowId
  pub category_id : RowId
  pub slug : Text
  pub processor_type : ProcessorType
  pub processor_key : Option Text
  pub enabled : Bool
  pub base_price_stars : Option ℕ

-- The values of a service that an administrator can change.
pub record ServiceValues : Type 0 where
  pub name_ar : Text
  pub description_ar : Text
  pub base_price_halalas : ℕ
  pub base_price_stars : Option ℕ
  pub enabled : Bool

pub record ServiceChange : Type 0 where
  pub service_id : RowId
  pub revision_before : ℕ
  pub revision_after : ℕ
  pub before : ServiceValues
  pub after : ServiceValues

-- The JSON objects that the code writes into `audit_logs.metadata`; the default is `{}`.
pub data AuditMetadata : Type 0 where
  empty_object : AuditMetadata
  triage : TriageChange → AuditMetadata
  category_created : CategoryCreated → AuditMetadata
  service_created : ServiceCreated → AuditMetadata
  service_change : ServiceChange → AuditMetadata

pub record AuditLog : Type 0 where
  pub actor_admin_id : RowId
  pub action : Text
  pub reason : Option Text
  pub metadata : AuditMetadata

-- The event that the payment inbox keeps of a Telegram update.
pub record Receipt : Type 0 where
  pub kind : ReceiptKind
  pub telegram_user_id : ℕ
  pub payload : Text
  pub currency : Currency
  pub amount : ℕ
  pub charge_id : Text

pub record InboxRow : Type 0 where
  pub bot_id : ℕ
  pub update_id : ℕ
  pub event : Receipt
  pub status : InboxStatus
  pub attempted_at : Option ℕ
  pub created_at : ℕ
