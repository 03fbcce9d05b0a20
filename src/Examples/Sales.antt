-- ===== src/Examples/Sales.antt =====
-- The theorems on orders, jobs, deliveries and top-ups on the shop.
use digital_services_platfor.Base.{
  ◌+◌, ◌≤◌, ◌≡◌, refl, true, false, none, some, [], ◌∷◌, arith, find, exists, count_where,
  update_where, order_by, select, member, distinct, ℕ_discrete,
}
use digital_services_platfor.Int.{pos, ◌+ℤ◌, ◌-ℤ◌, ℤ-discrete}
use digital_services_platfor.Text.{
  Text-discrete, text, strip, uuid_text, drop_spaces, is_space, hex_digits, hex_digit,
}
use digital_services_platfor.Exec.{ok, Raised, IfOk}
use digital_services_platfor.Ledger.{
  reserve, settle, credit, key_row, reservation, reserve_row, order_row, settlement_row, same_key,
  lock_wallet, balance,
}
use digital_services_platfor.Schema.{
  Db, DeliveryRow, FileRow, Currency, DeliveryStatus, FileType, JobStatus, OrderStatus,
  ProcessorType-discrete, FileType-discrete, FileStatus-discrete, TransactionType-discrete,
  WorkflowStatus-discrete, RowIds-discrete, OrderStatus-discrete, JobStatus-discrete,
  PaymentStatus-discrete, AttemptStatus-discrete, Currency-discrete, DeliveryStatus-discrete,
}
use digital_services_platfor.Jobs.{
  Claim, claim_job, start_attempt, update_job, end_attempt, fail_job, fail_order, release_price,
  job_row, claim_of,
}
use digital_services_platfor.Delivery.{
  DeliveryClaim, finish_delivery, fail_delivery, outbox_row, update_delivery, user_row,
  claim_delivery, joined_claim, completed_job,
}
use digital_services_platfor.Payments.{
  VerifiedTopup, new_payment, apply_verified_topup, event_valid, valid_provider, valid_text,
  all_chars, event_matches, record_event, credit_topup, set_paid, payment_row,
}
use digital_services_platfor.Workflows.Upload.{
  admit_pdf_upload, upload_service, sum_bytes, attached_to, max_workflow_bytes, retained,
}
use digital_services_platfor.Examples.{file, shop, working, running, sale, merge}
use digital_services_platfor.Workflows.{confirm_pdf_merge, active_row, service_row}
use digital_services_platfor.Orders.Inputs.{schema_get, check_inputs, inputs_valid}
use digital_services_platfor.Orders.{
  confirm_order, place_order, hold_price, acknowledge_delivery, take_payment, complete_order,
  result_ready,
}
use digital_services_platfor.Workflows.Quotes.{admit_pdf_upload_fits}
use digital_services_platfor.Orders.Insert.{
  insert_order, set_order_status, insert_order_files, insert_job,
}
use digital_services_platfor.Jobs.Complete.{complete_job, enqueue_delivery}
use digital_services_platfor.Stars.Charges.{request_star_refund, mark_star_delivery}
use digital_services_platfor.Orders.Placed.{Placed, confirm_order-Confirmed}
use digital_services_platfor.Jobs.Claims.{claim_job-exclusive, lost_claim_rejected}
use digital_services_platfor.Jobs.Attempts.{WithinAttempts, attempts_bounded}
use digital_services_platfor.Payments.Credits.{apply_verified_topup_repeat}
use digital_services_platfor.Jobs.Refunds.{GivenBack, fail_job-GivenBack}
use digital_services_platfor.Delivery.Claims.{finish_delivery-completes, lost_delivery_ignored}
use digital_services_platfor.Jobs.Graph.{Moved, job_calls-Moved}

confirm_order-Confirmed_example :
    Placed 31 1 31 merge
      (text "k")
      (text "telegram")
      (confirm_order 1 6 (text "k") (text "telegram") (21 ∷ 22 ∷ []) (some 500) 31 41 0 shop).1
unfolding reserve settle credit key_row reservation reserve_row order_row settlement_row same_key
    lock_wallet balance find exists Text-discrete ℕ_discrete TransactionType-discrete ℤ-discrete
    ◌+ℤ◌ ◌-ℤ◌ confirm_order place_order insert_order hold_price check_inputs inputs_valid schema_get
    set_order_status insert_order_files insert_job update_where member distinct select order_by
    strip drop_spaces is_space uuid_text hex_digits hex_digit FileStatus-discrete RowIds-discrete
    OrderStatus-discrete
confirm_order-Confirmed_example =
    confirm_order-Confirmed 1 6 (text "k") (text "telegram") (21 ∷ 22 ∷ []) (some 500) 31 41 0 merge
      shop refl refl

-- The shop where the job of the sale waits.
abbrev waiting : Db
waiting = record working {
  jobs = record running { status = JobStatus.pending; attempt_count = 0 } ∷ [];
}

claim_job-exclusive_example :
    claim_job 40 200 (claim_job 40 100 waiting).1 ≡ (ok none, (claim_job 40 100 waiting).1)
unfolding reserve settle credit key_row reservation reserve_row order_row settlement_row same_key
    lock_wallet balance find exists Text-discrete ℕ_discrete TransactionType-discrete ℤ-discrete
    ◌+ℤ◌ ◌-ℤ◌ claim_job start_attempt update_job set_order_status end_attempt fail_job fail_order
    release_price complete_job enqueue_delivery request_star_refund job_row update_where
    JobStatus-discrete AttemptStatus-discrete OrderStatus-discrete uuid_text hex_digits hex_digit
claim_job-exclusive_example =
    claim_job-exclusive 40 100 200 (record { job_id = 40; order_id = 30; attempt_number = 1 })
      waiting (claim_job 40 100 waiting).1 refl

abbrev second : Claim
second = record { job_id = 40; order_id = 30; attempt_number = 2 }

lost_claim_rejected_example :
    let db = (claim_job 40 100 waiting).1 in
    let (r, db1) = complete_job second 50 60 100 db in
    let (s, db2) = fail_job second (text "E") true db in
    (Raised r × (db1 ≡ db)) × (Raised s × (db2 ≡ db))
unfolding reserve settle credit key_row reservation reserve_row order_row settlement_row same_key
    lock_wallet balance find exists Text-discrete ℕ_discrete TransactionType-discrete ℤ-discrete
    ◌+ℤ◌ ◌-ℤ◌ claim_job start_attempt update_job set_order_status end_attempt fail_job fail_order
    release_price complete_job enqueue_delivery request_star_refund job_row update_where
    JobStatus-discrete AttemptStatus-discrete OrderStatus-discrete uuid_text hex_digits hex_digit
lost_claim_rejected_example =
    lost_claim_rejected second (record { job_id = 40; order_id = 30; attempt_number = 1 }) 50 60 100
      100 (text "E") true waiting (claim_job 40 100 waiting).1 refl (omega arith)

attempts_bounded_example :
    WithinAttempts (job_row 40 (claim_job 40 100 working).1.jobs)
    × WithinAttempts (job_row 40 (fail_job (claim_of running) (text "E") true working).1.jobs)
    × WithinAttempts (job_row 40 (complete_job (claim_of running) 50 60 100 working).1.jobs)
unfolding reserve settle credit key_row reservation reserve_row order_row settlement_row same_key
    lock_wallet balance find exists Text-discrete ℕ_discrete TransactionType-discrete ℤ-discrete
    ◌+ℤ◌ ◌-ℤ◌ claim_job start_attempt update_job set_order_status end_attempt fail_job fail_order
    release_price complete_job enqueue_delivery request_star_refund job_row update_where
    JobStatus-discrete AttemptStatus-discrete OrderStatus-discrete uuid_text hex_digits hex_digit
attempts_bounded_example =
    attempts_bounded 40 (claim_of running) 40 50 60 100 (text "E") true working (omega arith)

fail_job-GivenBack_example :
    GivenBack 1 1 30 working.wallet_transactions
      (fail_job (claim_of running) (text "E") false working).1.wallet_transactions
unfolding reserve settle credit key_row reservation reserve_row order_row settlement_row same_key
    lock_wallet balance find exists Text-discrete ℕ_discrete TransactionType-discrete ℤ-discrete
    ◌+ℤ◌ ◌-ℤ◌ claim_job start_attempt update_job set_order_status end_attempt fail_job fail_order
    release_price complete_job enqueue_delivery request_star_refund job_row update_where
    JobStatus-discrete AttemptStatus-discrete OrderStatus-discrete uuid_text hex_digits hex_digit
fail_job-GivenBack_example =
    fail_job-GivenBack (claim_of running) (text "E") false
      (record (sale OrderStatus.processing) { id = 30 }) 1 working refl (omega arith) refl refl

abbrev parcel : DeliveryRow
parcel = record {
  id = 60;
  order_id = 30;
  status = DeliveryStatus.sending;
  attempt_count = 1;
  max_attempts = 3;
  next_attempt_at = 0;
  claimed_at = some 5;
  error_code = none;
  external_receipt = none;
}

abbrev result : FileRow
result = record (file 50) { order_id = some 30; file_type = FileType.output }

-- The shop where the result of the sale is being sent.
abbrev shipping : Db
shipping = record working {
  orders = sale OrderStatus.awaiting_fulfillment ∷ [];
  jobs = record running { status = JobStatus.completed; result_file_id = some 50 } ∷ [];
  files = result ∷ [];
  delivery_outbox = parcel ∷ [];
}

abbrev first_delivery : DeliveryClaim
first_delivery = record {
  id = 60;
  order_id = 30;
  user_id = 1;
  telegram_user_id = some 77;
  result_file_id = some 50;
  attempt_number = 1;
}

finish_delivery-completes_example :
    let db = (finish_delivery first_delivery (text "m") 100 shipping).1 in
    (outbox_row 60 30 db.delivery_outbox
      ≡ some (record parcel { status = DeliveryStatus.sent; external_receipt = some (text "m") }))
    × (order_row 30 db.orders
        ≡ some (record (sale OrderStatus.awaiting_fulfillment) {
          status = OrderStatus.completed;
          delivery_receipt = some (text "m");
        }))
unfolding reserve settle credit key_row reservation reserve_row order_row settlement_row same_key
    lock_wallet balance find exists Text-discrete ℕ_discrete TransactionType-discrete ℤ-discrete
    ◌+ℤ◌ ◌-ℤ◌ claim_job start_attempt update_job set_order_status end_attempt fail_job fail_order
    release_price complete_job enqueue_delivery request_star_refund job_row update_where
    JobStatus-discrete AttemptStatus-discrete OrderStatus-discrete uuid_text hex_digits hex_digit
    finish_delivery fail_delivery acknowledge_delivery outbox_row update_delivery take_payment
    complete_order result_ready mark_star_delivery DeliveryStatus-discrete FileType-discrete
    FileStatus-discrete Currency-discrete strip drop_spaces is_space user_row
finish_delivery-completes_example =
    finish_delivery-completes first_delivery (text "m") 100 parcel
      (sale OrderStatus.awaiting_fulfillment) shipping refl refl refl refl

-- The shop where the result of the sale is not being sent yet.
abbrev unsent : Db
unsent = record shipping {
  delivery_outbox =
      record parcel { status = DeliveryStatus.pending; attempt_count = 0; claimed_at = none } ∷ [];
}

lost_delivery_ignored_example :
    let old = record first_delivery { attempt_number = 0 } in
    let db = (claim_delivery 5 unsent).1 in
    let (r, db1) = finish_delivery old (text "m") 100 db in
    let (s, db2) = fail_delivery old (text "E") true 100 db in
    (Raised r × (db1 ≡ db)) × (IfOk (λ b. b ≡ false) s × (db2 ≡ db))
unfolding reserve settle credit key_row reservation reserve_row order_row settlement_row same_key
    lock_wallet balance find exists Text-discrete ℕ_discrete TransactionType-discrete ℤ-discrete
    ◌+ℤ◌ ◌-ℤ◌ claim_job start_attempt update_job set_order_status end_attempt fail_job fail_order
    release_price complete_job enqueue_delivery request_star_refund job_row update_where
    JobStatus-discrete AttemptStatus-discrete OrderStatus-discrete uuid_text hex_digits hex_digit
    finish_delivery fail_delivery acknowledge_delivery outbox_row update_delivery take_payment
    complete_order result_ready mark_star_delivery DeliveryStatus-discrete FileType-discrete
    FileStatus-discrete Currency-discrete strip drop_spaces is_space user_row claim_delivery
    joined_claim completed_job
lost_delivery_ignored_example =
    lost_delivery_ignored (record first_delivery { attempt_number = 0 }) first_delivery (text "m")
      (text "E") true 5 100 unsent (claim_delivery 5 unsent).1 refl refl (omega arith)

abbrev charge_event : VerifiedTopup
charge_event = record {
  provider = text "bank";
  event_id = text "e";
  payment_id = 70;
  provider_reference = text "ref";
  amount_halalas = 250;
  currency = Currency.sar;
}

abbrev awaiting_topup : Db
awaiting_topup = record shop {
  payments =
      record (new_payment 70 1 250 (text "bank") (text "t")) {
        provider_reference = some (text "ref");
      }
      ∷ [];
}

apply_verified_topup_repeat_example :
    let db = (apply_verified_topup charge_event awaiting_topup).1 in
    apply_verified_topup charge_event db
    ≡ (ok (record { available_halalas = pos 1250; reserved_halalas = pos 0 }), db)
unfolding reserve settle credit key_row reservation reserve_row order_row settlement_row same_key
    lock_wallet balance find exists Text-discrete ℕ_discrete TransactionType-discrete ℤ-discrete
    ◌+ℤ◌ ◌-ℤ◌ apply_verified_topup event_valid valid_provider valid_text all_chars strip drop_spaces
    is_space event_matches record_event credit_topup set_paid payment_row update_where
    PaymentStatus-discrete Currency-discrete uuid_text hex_digits hex_digit
apply_verified_topup_repeat_example =
    apply_verified_topup_repeat charge_event
      (record { available_halalas = pos 1250; reserved_halalas = pos 0 }) awaiting_topup
      (apply_verified_topup charge_event awaiting_topup).1 refl

admit_pdf_upload_fits_example :
    (100 ≤ 10000)
    × (10000 ≤ 10000)
    × (sum_bytes (attached_to 10 shop) shop.files + 100 ≤ max_workflow_bytes)
    × (sum_bytes (retained 1 5) shop.files + 100 ≤ 50000)
unfolding admit_pdf_upload confirm_pdf_merge active_row find exists service_row upload_service
    schema_get sum_bytes count_where Text-discrete ℕ_discrete ℤ-discrete ProcessorType-discrete
    FileType-discrete FileStatus-discrete WorkflowStatus-discrete lock_wallet
admit_pdf_upload_fits_example =
    admit_pdf_upload_fits 1 100 10000 50000 5 (record { workflow_id = 10; byte_limit = 10000 }) shop
      refl

job_calls-Moved_example :
    Moved (some running) (job_row 40 (claim_job 40 100 working).1.jobs)
    × Moved (some running) (job_row 40 (fail_job (claim_of running) (text "E") true working).1.jobs)
    × Moved (some running) (job_row 40 (complete_job (claim_of running) 50 60 100 working).1.jobs)
unfolding reserve settle credit key_row reservation reserve_row order_row settlement_row same_key
    lock_wallet balance find exists Text-discrete ℕ_discrete TransactionType-discrete ℤ-discrete
    ◌+ℤ◌ ◌-ℤ◌ claim_job start_attempt update_job set_order_status end_attempt fail_job fail_order
    release_price complete_job enqueue_delivery request_star_refund job_row update_where
    JobStatus-discrete AttemptStatus-discrete OrderStatus-discrete uuid_text hex_digits hex_digit
job_calls-Moved_example = job_calls-Moved 40 (claim_of running) 40 50 60 100 (text "E") true working
