-- ===== src/Schema.antt =====
-- The PostgreSQL database of migrations/versions, as one record of tables.
mod Types
mod Rows
unfoldable pub use Types.*
pub use Rows.*
use digital_services_platfor.Base.{List}

pub record Db : Type 0 where
  pub users : List UserRow
  -- Of `wallets` only the key, `user_id`, is read.
  pub wallets : List RowId
  pub categories : List CategoryRow
  pub services : List ServiceRow
  pub orders : List OrderRow
  pub wallet_transactions : List WalletTransaction
  pub jobs : List JobRow
  pub job_attempts : List JobAttempt
  pub files : List FileRow
  pub order_files : List OrderFile
  pub delivery_outbox : List DeliveryRow
  pub workflows : List WorkflowRow
  pub workflow_files : List WorkflowFile
  pub star_invoices : List StarInvoiceRow
  pub star_charges : List StarCharge
  pub star_events : List StarEvent
  pub payments : List PaymentRow
  pub payment_events : List PaymentEvent
  pub summary_inputs : List SummaryInput
  pub summary_results : List SummaryResult
  pub custom_requests : List CustomRequest
  pub audit_logs : List AuditLog
  pub payment_inbox : List InboxRow
