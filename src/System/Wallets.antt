-- ===== src/System/Wallets.antt =====
-- The wallet history under the operations that use it: orders, jobs and deliveries.
use digital_services_platfor.Base.{
  ℕ, zero, suc, ◌≡◌, refl, inl, inr, Bool, true, ◌&&◌, Option, List, [], ◌∷◌, ◌++◌, arith, ◌==◌,
  Option-cases, find, order_by, update_where, select,
}
use digital_services_platfor.Int.{pos}
use digital_services_platfor.Text.{Text, text, uuid_text}
use digital_services_platfor.Stars.Charges.{mark_star_delivery, request_star_refund}
use digital_services_platfor.Orders.{
  acknowledge_delivery, confirm_order, hold_price, place_order, take_payment, complete_order,
  draft_order,
}
use digital_services_platfor.Orders.Inputs.{check_inputs, enabled_service}
use digital_services_platfor.Jobs.{
  fail_all, fail_job, fail_order, release_price, end_attempt, update_job, Claim, claim_of,
  recover_stale_jobs, started_at_or_zero, stale,
}
use digital_services_platfor.Delivery.{
  fail_delivery, finish_delivery, give_up, fail_unrefunded, update_delivery, DeliveryClaim,
  fail_deliveries, outbox_row, recover_stale_deliveries, attempt_failed, exhausted_by,
}
use digital_services_platfor.Schema.{
  JobRow, OrderRow, RowId, Db, InputSchema, ServiceRow, object, not_object, TransactionType,
}
use digital_services_platfor.Orders.Insert.{set_order_status}
use digital_services_platfor.Ledger.History.{IsHistory, reserve-IsHistory, settle-IsHistory}

pub mark_star_delivery-frame :
    (o : RowId) (receipt : Text) (db : Db)
    → (mark_star_delivery o receipt db).1.wallet_transactions ≡ db.wallet_transactions
unfolding mark_star_delivery
mark_star_delivery-frame o receipt db = ground arith

pub request_star_refund-frame :
    (o : RowId) (db : Db)
    → (request_star_refund o db).1.wallet_transactions ≡ db.wallet_transactions
unfolding request_star_refund
request_star_refund-frame o db = ground arith

hold_price-IsHistory :
    (u o : RowId) (price : ℕ) (db : Db)
    → IsHistory db.wallet_transactions
    → IsHistory (hold_price u o price db).1.wallet_transactions
unfolding hold_price
hold_price-IsHistory u o price db h =
    ground (arith, reserve-IsHistory u o (pos price) (text "reserve:" ++ uuid_text o) db h)

place_order-IsHistory :
    (u : RowId) (s : ServiceRow) (key channel : Text) (ids : List RowId) (o job : RowId) (db : Db)
    → IsHistory db.wallet_transactions
    → IsHistory (place_order u s key channel ids o job db).1.wallet_transactions
unfolding place_order
place_order-IsHistory u s key channel ids o job db h = ground (
  arith,
  hold_price-IsHistory u o s.base_price_halalas
      (record db { orders = draft_order o u s key channel ∷ db.orders }) h,
)

pub check_inputs-frame :
    (u : RowId) (ids : List RowId) (now : ℕ) (schema : InputSchema) (db : Db)
    → (check_inputs u ids now schema db).1 ≡ db
unfolding check_inputs
check_inputs-frame u ids now (object fields) db = ground arith
check_inputs-frame u ids now (not_object t) db = refl

pub confirm_order-IsHistory :
    (u service : RowId) (key channel : Text) (ids : List RowId) (expected : Option ℕ)
    (o job now : ℕ) (db : Db)
    → IsHistory db.wallet_transactions
    → IsHistory
        (confirm_order u service key channel ids expected o job now db).1.wallet_transactions
unfolding confirm_order
confirm_order-IsHistory u service key channel ids expected o job now db h =
    elim (Option-cases (enabled_service service db)) [
      | inl missing ↦ ground arith
      | inr (s, found) ↦ ground (
        arith,
        check_inputs-frame u ids now s.input_schema db,
        place_order-IsHistory u s key channel ids o job db h,
      )
    ]

take_payment-IsHistory :
    (r : OrderRow) (receipt : Text) (db : Db)
    → IsHistory db.wallet_transactions
    → IsHistory (take_payment r receipt db).1.wallet_transactions
unfolding take_payment
take_payment-IsHistory r receipt db h = ground (
  arith,
  mark_star_delivery-frame r.id receipt db,
  settle-IsHistory r.user_id r.id (text "capture:" ++ uuid_text r.id) TransactionType.capture db h,
)

pub acknowledge_delivery-IsHistory :
    (u o : RowId) (receipt : Text) (now : ℕ) (db : Db)
    → IsHistory db.wallet_transactions
    → IsHistory (acknowledge_delivery u o receipt now db).1.wallet_transactions
unfolding acknowledge_delivery complete_order
acknowledge_delivery-IsHistory u o receipt now db h =
    elim (Option-cases (find (λ r. r.id == o && r.user_id == u) db.orders)) [
      | inl missing ↦ ground arith
      | inr (r, found) ↦ ground (arith, take_payment-IsHistory r receipt db h)
    ]

release_price-IsHistory :
    (u o : RowId) (db : Db)
    → IsHistory db.wallet_transactions
    → IsHistory (release_price u o db).1.wallet_transactions
unfolding release_price
release_price-IsHistory u o db h =
    ground
      (arith, settle-IsHistory u o (text "release:" ++ uuid_text o) TransactionType.release db h)

fail_order-IsHistory :
    (r : OrderRow) (db : Db)
    → IsHistory db.wallet_transactions
    → IsHistory (fail_order r db).1.wallet_transactions
unfolding fail_order set_order_status
fail_order-IsHistory r db h = grind (arith, request_star_refund-frame, release_price-IsHistory)

pub fail_job-IsHistory :
    (c : Claim) (error : Text) (retryable : Bool) (db : Db)
    → IsHistory db.wallet_transactions
    → IsHistory (fail_job c error retryable db).1.wallet_transactions
unfolding fail_job end_attempt update_job
fail_job-IsHistory c error retryable db h = grind (arith, fail_order-IsHistory)

pub fail_all-IsHistory :
    (n : ℕ) (js : List JobRow) (db : Db)
    → IsHistory db.wallet_transactions
    → IsHistory (fail_all n js db).1.wallet_transactions
unfolding fail_all
fail_all-IsHistory zero js db h = h
fail_all-IsHistory (suc n) [] db h = h
fail_all-IsHistory (suc n) (j ∷ js) db h = grind (
  arith,
  fail_job-IsHistory (claim_of j) (text "WORKER_TIMEOUT") true db h,
  fail_all-IsHistory n js,
)

give_up-IsHistory :
    (u o : RowId) (db : Db)
    → IsHistory db.wallet_transactions
    → IsHistory (give_up u o db).1.wallet_transactions
unfolding give_up fail_unrefunded
give_up-IsHistory u o db h = grind (arith, request_star_refund-frame, release_price-IsHistory)

pub fail_delivery-IsHistory :
    (c : DeliveryClaim) (error : Text) (retryable : Bool) (now : ℕ) (db : Db)
    → IsHistory db.wallet_transactions
    → IsHistory (fail_delivery c error retryable now db).1.wallet_transactions
unfolding fail_delivery update_delivery
fail_delivery-IsHistory c error retryable now db h =
    elim (Option-cases (outbox_row c.id c.order_id db.delivery_outbox)) [
      | inl missing ↦ ground arith
      | inr (d, found) ↦
          let rows =
            update_where (λ r. r.id == c.id) (attempt_failed (exhausted_by d retryable) error now)
              db.delivery_outbox in
          ground
            (arith, give_up-IsHistory c.user_id c.order_id (record db { delivery_outbox = rows }) h)
    ]

pub finish_delivery-IsHistory :
    (c : DeliveryClaim) (receipt : Text) (now : ℕ) (db : Db)
    → IsHistory db.wallet_transactions
    → IsHistory (finish_delivery c receipt now db).1.wallet_transactions
unfolding finish_delivery update_delivery
finish_delivery-IsHistory c receipt now db h =
    ground (arith, acknowledge_delivery-IsHistory c.user_id c.order_id receipt now db h)

fail_deliveries-IsHistory :
    (cs : List DeliveryClaim) (now : ℕ) (db : Db)
    → IsHistory db.wallet_transactions
    → IsHistory (fail_deliveries cs now db).1.wallet_transactions
unfolding fail_deliveries
fail_deliveries-IsHistory [] now db h = h
fail_deliveries-IsHistory (c ∷ cs) now db h = grind (
  arith,
  fail_delivery-IsHistory c (text "DELIVERY_TIMEOUT") true now db h,
  fail_deliveries-IsHistory cs now,
)

pub recover_stale_deliveries-IsHistory :
    (timeout now : ℕ) (db : Db)
    → IsHistory db.wallet_transactions
    → IsHistory (recover_stale_deliveries timeout now db).1.wallet_transactions
unfolding recover_stale_deliveries
recover_stale_deliveries-IsHistory timeout now db h = grind (arith, fail_deliveries-IsHistory)

pub recover_stale_jobs-IsHistory :
    (timeout now : ℕ) (db : Db)
    → IsHistory db.wallet_transactions
    → IsHistory (recover_stale_jobs timeout now db).1.wallet_transactions
unfolding recover_stale_jobs
recover_stale_jobs-IsHistory timeout now db h = ground (
  arith,
  fail_all-IsHistory 100 (order_by started_at_or_zero (select (stale timeout now) db.jobs)) db h,
)
