-- ===== src/System.antt =====
-- The operations that the bot, the worker and the API run on the database, as the steps of one
-- system.
pub mod Wallets
pub mod Frames
pub mod Answers
pub mod Safety
pub mod Indexes
use digital_services_platfor.Base.{
  ℕ, zero, suc, ◌+◌, ◌-◌, ◌*◌, ◌≤◌, ◌<◌, min, String, ◌≡◌, refl, sym, ap, ◌∙◌, ◌≢◌, ◌↔◌, ◌⊎◌, inl,
  inr, Bool, true, false, not, ◌&&◌, ◌||◌, Option, none, some, List, [], ◌∷◌, ◌++◌, map, arith, ltb,
  leb, ◌==◌, if◌then◌else◌, eqb, Bool-cases, Option-cases, is_some, length, find, exists,
  count_where, update_where, delete_where, order_by, select, member, distinct,
}
use digital_services_platfor.Int.{
  ℤ, pos, negsuc, ◌+ℤ◌, ◌-ℤ◌, ◌≤ℤ◌, ltb_ℤ, leb_ℤ, ℤ-discrete, int_laws,
}
use digital_services_platfor.Text.{Text, Text-discrete, text, strip, is_empty, uuid_text, uuid_hex}
use digital_services_platfor.Exec.{
  Error, value_error, type_error, insufficient_funds, idempotency_conflict, invalid_settlement,
  payment_mismatch, stars_mismatch, stale_quote, not_found, revision_conflict, transition_rejected,
  update_rejected, unique_violation, provider_error, Result, ok, err, Exec, pure, raise, gets,
  or_raise, transaction, ◌>>=◌, ◌>>◌, raise_if, raise_unless, modify, when,
}
use digital_services_platfor.Schema.{Db, RowId, TransactionType, Currency}
use digital_services_platfor.Orders.{ensure_telegram_user, confirm_order}
use digital_services_platfor.Jobs.{Claim, claim_job, fail_job, recover_stale_jobs}
use digital_services_platfor.Ledger.{credit}
use digital_services_platfor.Delivery.{
  DeliveryClaim, claim_delivery, finish_delivery, fail_delivery, recover_stale_deliveries,
}
use digital_services_platfor.Payments.{
  VerifiedTopup, create_topup_intent, bind_provider_reference, apply_verified_topup,
}
use digital_services_platfor.Workflows.Upload.{UploadAdmission, attach_pdf, finish_pdf_upload}
use digital_services_platfor.Jobs.Complete.{complete_job}
use digital_services_platfor.Workflows.{
  start_pdf_merge, quote_pdf_merge, confirm_pdf_merge, cancel_active,
}
use digital_services_platfor.Stars.{create_star_invoice, approve_star_checkout}
use digital_services_platfor.Stars.Receipts.{accept_star_payment, confirm_star_refund}
use digital_services_platfor.Inbox.{process_payment_inbox}
use digital_services_platfor.Summaries.{execute_summary, fail_summary, acknowledge_summary}
use digital_services_platfor.Summaries.Queue.{recover_interrupted_summaries}

-- One call of an operation, with its arguments, the `uuid4()` results and the clock.
pub data Op : Type 0 where
  ensure_user : ℕ → RowId → Op
  credits : RowId → ℤ → Text → TransactionType → Option Text → Op
  confirms : RowId → RowId → Text → Text → List RowId → Option ℕ → RowId → RowId → ℕ → Op
  claims_job : RowId → ℕ → Op
  completes_job : Claim → RowId → RowId → ℕ → Op
  fails_job : Claim → Text → Bool → Op
  recovers_jobs : ℕ → ℕ → Op
  claims_delivery : ℕ → Op
  finishes_delivery : DeliveryClaim → Text → ℕ → Op
  fails_delivery : DeliveryClaim → Text → Bool → ℕ → Op
  recovers_deliveries : ℕ → ℕ → Op
  requests_topup : RowId → ℕ → Text → Text → RowId → Op
  binds_topup : RowId → Text → Op
  applies_topup : VerifiedTopup → Op
  starts_merge : RowId → RowId → Op
  attaches_pdf : RowId → RowId → ℕ → Option RowId → ℕ → Op
  finishes_upload : RowId → RowId → ℕ → UploadAdmission → ℕ → ℕ → Op
  quotes_merge : RowId → Currency → Option Text → Op
  confirms_merge : RowId → RowId → ℕ → RowId → RowId → ℕ → Op
  cancels : RowId → Op
  invoices_stars : RowId → RowId → ℕ → Text → Option Text → Option Text → RowId → ℕ → Op
  approves_stars : ℕ → Text → Currency → ℕ → Text → Text → Option Text → Option Text → ℕ → Op
  accepts_stars :
      ℕ → Text → Currency → ℕ → Text → Bool → Option Text → Option Text → RowId → RowId → ℕ → Op
  refunds_stars : ℕ → Text → Currency → ℕ → Text → Op
  processes_inbox : ℕ → Bool → Option Text → Option Text → ℕ → (ℕ → RowId) → (ℕ → RowId) → Op
  executes_summary : (Text → Result Text) → ℕ → RowId → ℕ → ℕ → Op
  fails_summary : Option ℕ → RowId → ℕ → Op
  acknowledges_summary : ℕ → RowId → Text → ℕ → Op
  recovers_summaries : ℕ → Op

-- The database after a call, whether it returned or raised.
module _ (sha256 : Text → Text) where
  unfoldable pub step : Op → Db → Db
  step (ensure_user tg id) db = (ensure_telegram_user tg id db).1
  step (credits u amount key kind reason) db = (credit u amount key kind reason db).1
  step (confirms u s key channel ids expected o job now) db =
      (confirm_order u s key channel ids expected o job now db).1
  step (claims_job job now) db = (claim_job job now db).1
  step (completes_job c file id now) db = (complete_job c file id now db).1
  step (fails_job c error retryable) db = (fail_job c error retryable db).1
  step (recovers_jobs timeout now) db = (recover_stale_jobs timeout now db).1
  step (claims_delivery now) db = (claim_delivery now db).1
  step (finishes_delivery c receipt now) db = (finish_delivery c receipt now db).1
  step (fails_delivery c error retryable now) db = (fail_delivery c error retryable now db).1
  step (recovers_deliveries timeout now) db = (recover_stale_deliveries timeout now db).1
  step (requests_topup u amount provider key id) db =
      (create_topup_intent u amount provider key id db).1
  step (binds_topup id reference) db = (bind_provider_reference id reference db).1
  step (applies_topup e) db = (apply_verified_topup e db).1
  step (starts_merge u w) db = (start_pdf_merge u w db).1
  step (attaches_pdf u file message expected now) db = (attach_pdf u file message expected now db).1
  step (finishes_upload u file message admission days now) db =
      (finish_pdf_upload u file message admission days now db).1
  step (quotes_merge u currency digest) db = (quote_pdf_merge u currency digest db).1
  step (confirms_merge u w revision o job now) db = (confirm_pdf_merge u w revision o job now db).1
  step (cancels u) db = (cancel_active u db).1
  step (invoices_stars u w revision terms slug key id now) db =
      (create_star_invoice sha256 u w revision terms slug key id now db).1
  step (approves_stars tg p currency amount query terms slug key now) db =
      (approve_star_checkout tg p currency amount query terms slug key now db).1
  step (accepts_stars tg p currency amount charge allow slug key o job now) db =
      (accept_star_payment tg p currency amount charge allow slug key o job now db).1
  step (refunds_stars tg p currency amount charge) db =
      (confirm_star_refund tg p currency amount charge db).1
  step (processes_inbox bot allow slug key now order_ids job_ids) db =
      (process_payment_inbox bot allow slug key now order_ids job_ids db).1
  step (executes_summary summarize tg o now later) db =
      (execute_summary summarize tg o now later db).1
  step (fails_summary tg o now) db = (fail_summary tg o now db).1
  step (acknowledges_summary tg o receipt now) db = (acknowledge_summary tg o receipt now db).1
  step (recovers_summaries now) db = (recover_interrupted_summaries now db).1

  -- The calls one after the other, the first of the list first.
  unfoldable pub run : List Op → Db → Db
  run [] db = db
  run (op ∷ ops) db = run ops (step op db)
