-- ===== src/System/Frames.antt =====
-- The operations that are no wallet operations, next to the wallet tables.
use digital_services_platfor.Base.{ℕ, ◌≡◌, inl, inr, Bool, Option, arith, Option-cases, some}
use digital_services_platfor.Text.{Text}
use digital_services_platfor.Exec.{Result-cases}
use digital_services_platfor.Jobs.{claim_job, end_attempt, update_job, Claim}
use digital_services_platfor.Jobs.Complete.{complete_job, enqueue_delivery}
use digital_services_platfor.Delivery.{claim_delivery, update_delivery}
use digital_services_platfor.Orders.{ensure_telegram_user}
use digital_services_platfor.Stars.{approve_star_checkout, create_star_invoice, owned_row}
use digital_services_platfor.Stars.Receipts.{
  accept_star_payment, confirm_star_refund, fulfil, refuse,
}
use digital_services_platfor.Schema.{Currency, Db, RowId}
use digital_services_platfor.Stars.Offers.{offer_row}
use digital_services_platfor.Orders.Insert.{set_order_status}
use digital_services_platfor.Stars.Charges.{event}
use digital_services_platfor.Payments.{
  bind_provider_reference, create_topup_intent, record_event, VerifiedTopup, payment_row,
}
use digital_services_platfor.Workflows.{
  cancel_active, quote_pdf_merge, start_pdf_merge, insert_workflow, update_workflow, active_row,
}
use digital_services_platfor.Workflows.Upload.{
  attach_pdf, finish_pdf_upload, UploadAdmission, insert_file,
}

pub claim_job-frame :
    (job now : ℕ) (db : Db) → (claim_job job now db).1.wallet_transactions ≡ db.wallet_transactions
unfolding claim_job
claim_job-frame job now db = ground arith

pub complete_job-frame :
    (c : Claim) (file id : RowId) (now : ℕ) (db : Db)
    → (complete_job c file id now db).1.wallet_transactions ≡ db.wallet_transactions
unfolding complete_job end_attempt update_job set_order_status enqueue_delivery
complete_job-frame c file id now db = ground arith

pub claim_delivery-frame :
    (now : ℕ) (db : Db) → (claim_delivery now db).1.wallet_transactions ≡ db.wallet_transactions
unfolding claim_delivery update_delivery
claim_delivery-frame now db = ground arith

pub ensure_telegram_user-frame :
    (tg id : ℕ) (db : Db)
    → (ensure_telegram_user tg id db).1.wallet_transactions ≡ db.wallet_transactions
unfolding ensure_telegram_user
ensure_telegram_user-frame tg id db = ground arith

pub create_star_invoice-frame :
    (sha256 : Text → Text) (u w : RowId) (revision : ℕ) (terms : Text) (slug key : Option Text)
    (id now : ℕ) (db : Db)
    → (create_star_invoice sha256 u w revision terms slug key id now db).1.wallet_transactions
      ≡ db.wallet_transactions
unfolding create_star_invoice
create_star_invoice-frame sha256 u w revision terms slug key id now db =
    elim (Option-cases (offer_row u w db)) [
      | inl no_offer ↦ ground arith
      | inr (o, offered) ↦ ground arith
    ]

pub approve_star_checkout-frame :
    (tg : ℕ) (p : Text) (currency : Currency) (amount : ℕ) (query terms : Text)
    (slug key : Option Text) (now : ℕ) (db : Db)
    → (approve_star_checkout tg p currency amount query terms slug key now db).1.wallet_transactions
      ≡ db.wallet_transactions
unfolding approve_star_checkout
approve_star_checkout-frame tg p currency amount query terms slug key now db =
    elim (Result-cases (owned_row tg p db)) [
      | inr (e, failed) ↦ ground arith
      | inl (i, owned) ↦ elim (Option-cases (offer_row i.user_id i.workflow_id db)) [
        | inl no_offer ↦ ground arith
        | inr (o, offered) ↦ ground arith
      ]
    ]

pub accept_star_payment-frame :
    (tg : ℕ) (p : Text) (currency : Currency) (amount : ℕ) (charge : Text) (allow : Bool)
    (slug key : Option Text) (order job now : ℕ) (db : Db)
    → let (_, db') =
        accept_star_payment tg p currency amount charge allow slug key order job now db in
      db'.wallet_transactions ≡ db.wallet_transactions
unfolding accept_star_payment fulfil refuse event
accept_star_payment-frame tg p currency amount charge allow slug key order job now db =
    elim (Result-cases (owned_row tg p db)) [
      | inr (e, failed) ↦ ground arith
      | inl (i, owned) ↦ elim (Option-cases (offer_row i.user_id i.workflow_id db)) [
        | inl no_offer ↦ ground arith
        | inr (o, offered) ↦ ground arith
      ]
    ]

pub confirm_star_refund-frame :
    (tg : ℕ) (p : Text) (currency : Currency) (amount : ℕ) (charge : Text) (db : Db)
    → (confirm_star_refund tg p currency amount charge db).1.wallet_transactions
      ≡ db.wallet_transactions
unfolding confirm_star_refund
confirm_star_refund-frame tg p currency amount charge db = elim (Result-cases (owned_row tg p db)) [
  | inr (e, failed) ↦ ground arith
  | inl (i, owned) ↦ ground arith
]

pub create_topup_intent-frame :
    (u : RowId) (amount : ℕ) (provider key : Text) (id : RowId) (db : Db)
    → (create_topup_intent u amount provider key id db).1.wallet_transactions
      ≡ db.wallet_transactions
unfolding create_topup_intent
create_topup_intent-frame u amount provider key id db = ground arith

pub bind_provider_reference-frame :
    (id : RowId) (reference : Text) (db : Db)
    → (bind_provider_reference id reference db).1.wallet_transactions ≡ db.wallet_transactions
unfolding bind_provider_reference
bind_provider_reference-frame id reference db = elim (Option-cases (payment_row id db.payments)) [
  | inl missing ↦ ground arith
  | inr (p, found) ↦ ground arith
]

pub record_event-frame :
    (e : VerifiedTopup) (db : Db)
    → (record_event e db).1.wallet_transactions ≡ db.wallet_transactions
unfolding record_event
record_event-frame e db = ground arith

pub start_pdf_merge-frame :
    (u w : RowId) (db : Db)
    → (start_pdf_merge u w db).1.wallet_transactions ≡ db.wallet_transactions
unfolding start_pdf_merge insert_workflow
start_pdf_merge-frame u w db = ground arith

pub attach_pdf-frame :
    (u file : RowId) (message : ℕ) (expected : Option RowId) (now : ℕ) (db : Db)
    → (attach_pdf u file message expected now db).1.wallet_transactions ≡ db.wallet_transactions
unfolding attach_pdf insert_file update_workflow
attach_pdf-frame u file message expected now db = elim (Option-cases (active_row u db.workflows)) [
  | inl missing ↦ ground arith
  | inr (r, found) ↦ ground arith
]

pub finish_pdf_upload-frame :
    (u file : RowId) (message : ℕ) (a : UploadAdmission) (days now : ℕ) (db : Db)
    → (finish_pdf_upload u file message a days now db).1.wallet_transactions
      ≡ db.wallet_transactions
unfolding finish_pdf_upload
finish_pdf_upload-frame u file message a days now db =
    ground (arith, attach_pdf-frame u file message (some a.workflow_id) now db)

pub quote_pdf_merge-frame :
    (u : RowId) (currency : Currency) (digest : Option Text) (db : Db)
    → (quote_pdf_merge u currency digest db).1.wallet_transactions ≡ db.wallet_transactions
unfolding quote_pdf_merge update_workflow
quote_pdf_merge-frame u currency digest db = elim (Option-cases (active_row u db.workflows)) [
  | inl missing ↦ ground arith
  | inr (r, found) ↦ ground arith
]

pub cancel_active-frame :
    (u : RowId) (db : Db) → (cancel_active u db).1.wallet_transactions ≡ db.wallet_transactions
unfolding cancel_active
cancel_active-frame u db = ground arith
