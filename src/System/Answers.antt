-- ===== src/System/Answers.antt =====
-- The operations on summaries and the payment inbox, next to the wallet tables.
use digital_services_platfor.Base.{
  ℕ, zero, suc, ◌≡◌, refl, inl, inr, Bool, Option, some, List, [], ◌∷◌, arith, Option-cases,
}
use digital_services_platfor.Text.{Text}
use digital_services_platfor.Exec.{Result, Result-cases}
use digital_services_platfor.Inbox.{
  apply_receipt, process_next, process_rounds, returned, mark_receipt, next_receipt,
}
use digital_services_platfor.Summaries.{
  working, answered, acknowledge_summary, attempt_summary, begin_summary, execute_summary,
  fail_summary, store_summary, insert_result, SummaryOrder, answered, owned_order, checked,
}
use digital_services_platfor.Summaries.Queue.{
  fail_summaries, recover_interrupted_summaries, orders_with, is_processing,
}
use digital_services_platfor.Schema.{Db, Receipt, RowId}
use digital_services_platfor.Orders.Insert.{set_order_status}
use digital_services_platfor.Orders.{complete_order}
use digital_services_platfor.System.Frames.{confirm_star_refund-frame, accept_star_payment-frame}
use digital_services_platfor.Summaries.Execution.{owned_order-frame}
use digital_services_platfor.System.Wallets.{request_star_refund-frame, mark_star_delivery-frame}

apply_receipt-frame :
    (e : Receipt) (allow : Bool) (slug key : Option Text) (o job now : ℕ) (db : Db)
    → (apply_receipt e allow slug key o job now db).1.wallet_transactions ≡ db.wallet_transactions
unfolding apply_receipt
apply_receipt-frame e allow slug key o job now db = ground (
  arith,
  confirm_star_refund-frame e.telegram_user_id e.payload e.currency e.amount e.charge_id db,
  accept_star_payment-frame e.telegram_user_id e.payload e.currency e.amount e.charge_id allow slug
      key o job now db,
)

process_next-frame :
    (bot : ℕ) (allow : Bool) (slug key : Option Text) (now o job : ℕ) (db : Db)
    → (process_next bot allow slug key now o job db).1.wallet_transactions ≡ db.wallet_transactions
unfolding process_next returned mark_receipt
process_next-frame bot allow slug key now o job db =
    elim (Option-cases (next_receipt bot db.payment_inbox)) [
      | inl empty ↦ ground arith
      | inr (r, found) ↦ ground (arith, apply_receipt-frame r.event allow slug key o job now db)
    ]

pub process_rounds-frame :
    (bot : ℕ) (allow : Bool) (slug key : Option Text) (now n : ℕ) (order_ids job_ids : ℕ → RowId)
    (db : Db)
    → (process_rounds bot allow slug key now n order_ids job_ids db).1.wallet_transactions
      ≡ db.wallet_transactions
unfolding process_rounds
process_rounds-frame bot allow slug key now zero order_ids job_ids db = refl
process_rounds-frame bot allow slug key now (suc n) order_ids job_ids db =
    let next = process_next bot allow slug key now (order_ids n) (job_ids n) db in
    ground (
      arith,
      process_next-frame bot allow slug key now (order_ids n) (job_ids n) db,
      process_rounds-frame bot allow slug key now n order_ids job_ids next.1,
    )

pub fail_summary-frame :
    (tg : Option ℕ) (o : RowId) (now : ℕ) (db : Db)
    → (fail_summary tg o now db).1.wallet_transactions ≡ db.wallet_transactions
unfolding fail_summary set_order_status
fail_summary-frame tg o now db =
    grind (arith, owned_order-frame tg o now db, request_star_refund-frame)

attempt_summary-frame :
    (tg o now : ℕ) (s : SummaryOrder) (db : Db)
    → (attempt_summary tg o now s db).1.wallet_transactions ≡ db.wallet_transactions
unfolding attempt_summary set_order_status
attempt_summary-frame tg o now s db = ground (arith, fail_summary-frame (some tg) o now db)

begin_summary-frame :
    (tg o now : ℕ) (db : Db)
    → (begin_summary tg o now db).1.wallet_transactions ≡ db.wallet_transactions
unfolding begin_summary
begin_summary-frame tg o now db = elim (Result-cases (owned_order (some tg) o now db).0) [
  | inr (x, failed) ↦ ground (arith, owned_order-frame (some tg) o now db)
  | inl (s, owned) ↦
      ground (arith, owned_order-frame (some tg) o now db, attempt_summary-frame tg o now s db)
]

store_summary-frame :
    (tg o : ℕ) (result : Text) (retention now : ℕ) (db : Db)
    → (store_summary tg o result retention now db).1.wallet_transactions ≡ db.wallet_transactions
unfolding store_summary insert_result set_order_status
store_summary-frame tg o result retention now db =
    elim (Result-cases (owned_order (some tg) o now db).0) [
      | inr (x, failed) ↦ ground (arith, owned_order-frame (some tg) o now db)
      | inl (s, owned) ↦
          ground
            (arith, owned_order-frame (some tg) o now db, fail_summary-frame (some tg) o now db)
    ]

pub execute_summary-frame :
    (summarize : Text → Result Text) (tg o now later : ℕ) (db : Db)
    → (execute_summary summarize tg o now later db).1.wallet_transactions ≡ db.wallet_transactions
unfolding execute_summary
execute_summary-frame summarize tg o now later db =
    let db1 = (begin_summary tg o now db).1 in
    elim (Result-cases (begin_summary tg o now db).0) [
      | inr (x, failed) ↦ ground (arith, begin_summary-frame tg o now db)
      | inl (answered r, done) ↦ ground (arith, begin_summary-frame tg o now db)
      | inl (working source retention, begun) ↦ elim (Result-cases (checked (summarize source))) [
        | inr (x, failed) ↦
            ground
              (arith, begin_summary-frame tg o now db, fail_summary-frame (some tg) o later db1)
        | inl (result, answer) ↦ ground (
          arith,
          begin_summary-frame tg o now db,
          store_summary-frame tg o result retention later db1,
        )
      ]
    ]

pub acknowledge_summary-frame :
    (tg o : ℕ) (receipt : Text) (now : ℕ) (db : Db)
    → (acknowledge_summary tg o receipt now db).1.wallet_transactions ≡ db.wallet_transactions
unfolding acknowledge_summary complete_order
acknowledge_summary-frame tg o receipt now db =
    elim (Result-cases (owned_order (some tg) o now db).0) [
      | inr (x, failed) ↦ ground (arith, owned_order-frame (some tg) o now db)
      | inl (s, owned) ↦
          ground
            (arith, owned_order-frame (some tg) o now db, mark_star_delivery-frame o receipt db)
    ]

fail_summaries-frame :
    (rows : List (Option ℕ × RowId)) (now : ℕ) (db : Db)
    → (fail_summaries rows now db).1.wallet_transactions ≡ db.wallet_transactions
unfolding fail_summaries
fail_summaries-frame [] now db = refl
fail_summaries-frame ((tg, o) ∷ rows) now db = ground (
  arith,
  fail_summary-frame tg o now db,
  fail_summaries-frame rows now (fail_summary tg o now db).1,
)

pub recover_interrupted_summaries-frame :
    (now : ℕ) (db : Db)
    → (recover_interrupted_summaries now db).1.wallet_transactions ≡ db.wallet_transactions
unfolding recover_interrupted_summaries
recover_interrupted_summaries-frame now db =
    fail_summaries-frame (orders_with is_processing db db.orders) now db
