-- ===== src/Examples.antt =====
-- A small shop on which the theorems are tried: one customer, one merge service, two files.
pub mod Wallets
pub mod Sales
pub mod Receipts
pub mod Requests
pub mod Summaries
pub mod Registry
pub mod Storage
pub mod Access
pub mod Work
use digital_services_platfor.Int.{pos}
use digital_services_platfor.Base.{ℕ, true, Option, none, some, [], ◌∷◌}
use digital_services_platfor.Text.{Text, text}
use digital_services_platfor.Schema.{
  Db, JobRow, OrderStatus, RowId, ServiceRow, StarInvoiceRow, WalletTransaction, WorkflowRow,
  FileRow, JobStatus, OrderRow, WorkflowStatus, FileType, ProcessorType, TransactionType,
  FileStatus,
}
use digital_services_platfor.Ledger.{credit_row, order_transaction}
use digital_services_platfor.Orders.{draft_order}
use digital_services_platfor.Stars.Offers.{pdf_input_schema}

-- The digest of a text, which the code only compares.
abbrev pub digest : Text → Text
digest t = t

abbrev pub file : RowId → FileRow
file id = record {
  id = id;
  owner_user_id = 1;
  order_id = none;
  storage_key = text "key";
  file_name = text "a.pdf";
  mime_type = text "application/pdf";
  size_bytes = 100;
  file_type = FileType.input;
  status = FileStatus.ready;
  retention_until = 1000;
  cleanup_attempted_at = none;
  created_at = 0;
}

abbrev pub merge : ServiceRow
merge = record {
  id = 6;
  category_id = 5;
  slug = text "merge-pdf";
  name_ar = text "merge";
  description_ar = text "merge";
  processor_type = ProcessorType.tool;
  base_price_halalas = 500;
  base_price_stars = some 50;
  processor_key = none;
  input_schema = pdf_input_schema;
  enabled = true;
  revision = 1;
}

abbrev pub conversation : WorkflowRow
conversation = record {
  id = 10;
  user_id = 1;
  service_id = 6;
  status = WorkflowStatus.confirming;
  quoted_price_halalas = none;
  quoted_price_stars = some 50;
  quoted_terms_digest = some (text "terms");
  quote_revision = 3;
  order_id = none;
}

abbrev pub invoice : StarInvoiceRow
invoice = record {
  id = 9;
  user_id = 1;
  workflow_id = 10;
  quote_revision = 3;
  service_id = 6;
  amount_stars = 50;
  file_ids = 21 ∷ 22 ∷ [];
  terms_digest = text "terms";
  terms_text = text "terms";
  input_text_digest = none;
  checkout_query_id = some (text "q");
  order_id = none;
}

abbrev pub bonus : WalletTransaction
bonus = credit_row 1 (pos 1000) (text "b") TransactionType.bonus none

abbrev pub shop : Db
shop = record {
  users = record { id = 1; telegram_user_id = some 77 } ∷ [];
  wallets = 1 ∷ [];
  categories = record { id = 5; slug = text "pdf"; name_ar = text "pdf"; enabled = true } ∷ [];
  services = merge ∷ [];
  orders = [];
  wallet_transactions = bonus ∷ [];
  jobs = [];
  job_attempts = [];
  files = file 21 ∷ file 22 ∷ [];
  order_files = [];
  delivery_outbox = [];
  workflows = conversation ∷ [];
  workflow_files =
      record { workflow_id = 10; position = 1; telegram_message_id = 4; file_id = 22 }
      ∷ record { workflow_id = 10; position = 0; telegram_message_id = 3; file_id = 21 }
      ∷ [];
  star_invoices = invoice ∷ [];
  star_charges = [];
  star_events = [];
  payments = [];
  payment_events = [];
  summary_inputs = [];
  summary_results = [];
  custom_requests = [];
  audit_logs = [];
  payment_inbox = [];
}

-- An order of the customer at the price of the service.
abbrev pub sale : OrderStatus → OrderRow
sale status = record (draft_order 30 1 merge (text "k") (text "telegram")) { status = status }

abbrev pub hold : WalletTransaction
hold = order_transaction 1 30 TransactionType.reserve (pos 500) (text "r")

-- The job of the sale, in its first attempt.
abbrev pub running : JobRow
running = record {
  id = 40;
  order_id = 30;
  status = JobStatus.processing;
  attempt_count = 1;
  max_attempts = 3;
  error_code = none;
  started_at = some 100;
  result_file_id = none;
}

-- The shop after the sale is paid for and its job is started.
abbrev pub working : Db
working = record shop {
  orders = sale OrderStatus.processing ∷ [];
  wallet_transactions = hold ∷ bonus ∷ [];
  jobs = running ∷ [];
}
