-- ===== src/System/Safety.antt =====
-- What every sequence of operations keeps of the wallets.
use digital_services_platfor.Base.{
  ℕ, ◌≡◌, inl, inr, ◌&&◌, none, List, [], ◌∷◌, ◌++◌, arith, ◌==◌, Option-cases, find,
}
use digital_services_platfor.Int.{pos, ◌≤ℤ◌}
use digital_services_platfor.Text.{Text, text, uuid_text}
use digital_services_platfor.Payments.{
  apply_verified_topup, set_paid, VerifiedTopup, payment_row, payment_key, record_event,
  credit_topup,
}
use digital_services_platfor.Workflows.{confirm_pdf_merge, update_workflow}
use digital_services_platfor.System.{
  processes_inbox, executes_summary, fails_summary, acknowledges_summary, recovers_summaries, Op,
  run, step, ensure_user, credits, confirms, claims_job, completes_job, fails_job, recovers_jobs,
  claims_delivery, finishes_delivery, fails_delivery, recovers_deliveries, requests_topup,
  binds_topup, applies_topup, starts_merge, attaches_pdf, finishes_upload, quotes_merge,
  confirms_merge, cancels, invoices_stars, approves_stars, accepts_stars, refunds_stars,
}
use digital_services_platfor.Schema.{Db, RowId, TransactionType, PaymentRow}
use digital_services_platfor.Ledger.History.{IsHistory, credit-IsHistory}
use digital_services_platfor.Ledger.{available, reserved, balance}
use digital_services_platfor.System.Wallets.{
  confirm_order-IsHistory, fail_job-IsHistory, recover_stale_jobs-IsHistory,
  finish_delivery-IsHistory, fail_delivery-IsHistory, recover_stale_deliveries-IsHistory,
}
use digital_services_platfor.System.Frames.{
  ensure_telegram_user-frame, record_event-frame, claim_job-frame, complete_job-frame,
  claim_delivery-frame, create_topup_intent-frame, bind_provider_reference-frame,
  start_pdf_merge-frame, attach_pdf-frame, finish_pdf_upload-frame, quote_pdf_merge-frame,
  cancel_active-frame, create_star_invoice-frame, approve_star_checkout-frame,
  accept_star_payment-frame, confirm_star_refund-frame,
}
use digital_services_platfor.Stars.Offers.{workflow_file_ids}
use digital_services_platfor.Ledger.Holds.{held, available_nonneg, reserved-eq-held}
use digital_services_platfor.Inbox.{process_payment_inbox}
use digital_services_platfor.System.Answers.{
  process_rounds-frame, execute_summary-frame, fail_summary-frame, acknowledge_summary-frame,
  recover_interrupted_summaries-frame,
}

credit_topup-IsHistory :
    (e : VerifiedTopup) (p : PaymentRow) (db : Db)
    → IsHistory db.wallet_transactions
    → IsHistory (credit_topup e p db).1.wallet_transactions
unfolding credit_topup set_paid balance
credit_topup-IsHistory e p db h = ground (
  arith,
  credit-IsHistory p.user_id (pos e.amount_halalas) (payment_key e.payment_id)
      TransactionType.top_up none db h,
)

apply_verified_topup-IsHistory :
    (e : VerifiedTopup) (db : Db)
    → IsHistory db.wallet_transactions
    → IsHistory (apply_verified_topup e db).1.wallet_transactions
unfolding apply_verified_topup
apply_verified_topup-IsHistory e db h = elim (Option-cases (payment_row e.payment_id db.payments)) [
  | inl missing ↦ ground arith
  | inr (p, found) ↦ ground (
    arith,
    record_event-frame e db,
    credit_topup-IsHistory e p (record_event e db).1 (simp (record_event-frame e db) h),
  )
]

confirm_pdf_merge-IsHistory :
    (u w : RowId) (revision : ℕ) (o job : RowId) (now : ℕ) (db : Db)
    → IsHistory db.wallet_transactions
    → IsHistory (confirm_pdf_merge u w revision o job now db).1.wallet_transactions
unfolding confirm_pdf_merge update_workflow
confirm_pdf_merge-IsHistory u w revision o job now db h =
    elim (Option-cases (find (λ r. r.id == w && r.user_id == u) db.workflows)) [
      | inl missing ↦ ground arith
      | inr (r, found) ↦ ground (
        arith,
        confirm_order-IsHistory u r.service_id (text "telegram:merge:" ++ uuid_text w)
            (text "telegram") (workflow_file_ids w db.workflow_files) r.quoted_price_halalas o job
            now db h,
      )
    ]

module _ (sha256 : Text → Text) where
  -- Every operation keeps the history of the wallets.
  step-IsHistory :
      (op : Op) (db : Db)
      → IsHistory db.wallet_transactions
      → IsHistory (step sha256 op db).wallet_transactions
  unfolding step
  step-IsHistory (ensure_user tg id) db h = simp (ensure_telegram_user-frame tg id db) h
  step-IsHistory (credits u amount key kind reason) db h =
      credit-IsHistory u amount key kind reason db h
  step-IsHistory (confirms u s key channel ids expected o job now) db h =
      confirm_order-IsHistory u s key channel ids expected o job now db h
  step-IsHistory (claims_job job now) db h = rw (claim_job-frame job now db) h
  step-IsHistory (completes_job c file id now) db h = rw (complete_job-frame c file id now db) h
  step-IsHistory (fails_job c error retryable) db h = fail_job-IsHistory c error retryable db h
  step-IsHistory (recovers_jobs timeout now) db h = recover_stale_jobs-IsHistory timeout now db h
  step-IsHistory (claims_delivery now) db h = rw (claim_delivery-frame now db) h
  step-IsHistory (finishes_delivery c receipt now) db h =
      finish_delivery-IsHistory c receipt now db h
  step-IsHistory (fails_delivery c error retryable now) db h =
      fail_delivery-IsHistory c error retryable now db h
  step-IsHistory (recovers_deliveries timeout now) db h =
      recover_stale_deliveries-IsHistory timeout now db h
  step-IsHistory (requests_topup u amount provider key id) db h =
      rw (create_topup_intent-frame u amount provider key id db) h
  step-IsHistory (binds_topup id reference) db h =
      rw (bind_provider_reference-frame id reference db) h
  step-IsHistory (applies_topup e) db h = apply_verified_topup-IsHistory e db h
  step-IsHistory (starts_merge u w) db h = rw (start_pdf_merge-frame u w db) h
  step-IsHistory (attaches_pdf u file message expected now) db h =
      rw (attach_pdf-frame u file message expected now db) h
  step-IsHistory (finishes_upload u file message admission days now) db h =
      rw (finish_pdf_upload-frame u file message admission days now db) h
  step-IsHistory (quotes_merge u currency digest) db h =
      rw (quote_pdf_merge-frame u currency digest db) h
  step-IsHistory (confirms_merge u w revision o job now) db h =
      confirm_pdf_merge-IsHistory u w revision o job now db h
  step-IsHistory (cancels u) db h = rw (cancel_active-frame u db) h
  step-IsHistory (invoices_stars u w revision terms slug key id now) db h =
      rw (create_star_invoice-frame sha256 u w revision terms slug key id now db) h
  step-IsHistory (approves_stars tg p currency amount query terms slug key now) db h =
      rw (approve_star_checkout-frame tg p currency amount query terms slug key now db) h
  step-IsHistory (accepts_stars tg p currency amount charge allow slug key o job now) db h =
      rw (accept_star_payment-frame tg p currency amount charge allow slug key o job now db) h
  step-IsHistory (refunds_stars tg p currency amount charge) db h =
      rw (confirm_star_refund-frame tg p currency amount charge db) h
  step-IsHistory (processes_inbox bot allow slug key now order_ids job_ids) db h =
      unfold process_payment_inbox in
      rw (process_rounds-frame bot allow slug key now 20 order_ids job_ids db) h
  step-IsHistory (executes_summary summarize tg o now later) db h =
      rw (execute_summary-frame summarize tg o now later db) h
  step-IsHistory (fails_summary tg o now) db h = rw (fail_summary-frame tg o now db) h
  step-IsHistory (acknowledges_summary tg o receipt now) db h =
      rw (acknowledge_summary-frame tg o receipt now db) h
  step-IsHistory (recovers_summaries now) db h = rw (recover_interrupted_summaries-frame now db) h

  pub run-IsHistory :
      (ops : List Op) (db : Db)
      → IsHistory db.wallet_transactions
      → IsHistory (run sha256 ops db).wallet_transactions
  unfolding run
  run-IsHistory [] db h = h
  run-IsHistory (op ∷ ops) db h = run-IsHistory ops (step sha256 op db) (step-IsHistory op db h)

  -- After any calls from a database without wallet transactions, no wallet has a negative
  -- available balance, and its reserved balance is the sum of its reservations that are not
  -- settled.
  pub run_solvent :
      (ops : List Op) (u : RowId) (db : Db)
      → db.wallet_transactions ≡ []
      → let ts = (run sha256 ops db).wallet_transactions in
        (pos 0 ≤ℤ available u ts) × (reserved u ts ≡ pos (held u ts ts))
  run_solvent ops u db e =
      let h = run-IsHistory ops db (rw e tt) in
      (
        available_nonneg u (run sha256 ops db).wallet_transactions h,
        reserved-eq-held u (run sha256 ops db).wallet_transactions h,
      )
