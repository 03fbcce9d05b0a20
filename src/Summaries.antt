-- ===== src/Summaries.antt =====
-- packages/python/platform_core/summary_orders.py, and the checks of text_summary.py: quotes of
-- text summaries and the execution of paid ones. The provider's answer is an argument.
pub mod Quotes
pub mod Queue
pub mod Execution
pub mod Answers
use digital_services_platfor.Base.{
  ℕ, zero, suc, ◌+◌, ◌-◌, ◌*◌, ◌≤◌, ◌<◌, min, String, ◌≡◌, refl, sym, ap, ◌∙◌, ◌≢◌, ◌↔◌, ◌⊎◌, inl,
  inr, Bool, true, false, not, ◌&&◌, ◌||◌, Option, none, some, List, [], ◌∷◌, ◌++◌, map, arith, ltb,
  leb, ◌==◌, if◌then◌else◌, eqb, Bool-cases, Option-cases, is_some, length, find, exists,
  count_where, update_where, delete_where, order_by, select, member, distinct,
}
use digital_services_platfor.Int.{
  ℤ, pos, negsuc, ◌+ℤ◌, ◌-ℤ◌, ◌≤ℤ◌, ltb_ℤ, leb_ℤ, ℤ-discrete, int_laws,
}
use digital_services_platfor.Text.{Text, Text-discrete, text, strip, is_empty, uuid_text, uuid_hex}
use digital_services_platfor.Exec.{
  Error, value_error, type_error, insufficient_funds, idempotency_conflict, invalid_settlement,
  payment_mismatch, stars_mismatch, stale_quote, not_found, revision_conflict, transition_rejected,
  update_rejected, unique_violation, provider_error, Result, ok, err, Exec, pure, raise, gets,
  or_raise, transaction, ◌>>=◌, ◌>>◌, raise_if, raise_unless, modify, when, invalid_input,
}
use digital_services_platfor.Schema.{
  ChargeStatus-discrete, OrderRow, OrderStatus, RowId, SummaryInput, SummaryResult, ChargeStatus,
  Db, ServiceRow, StarInvoiceRow,
}
use digital_services_platfor.Ledger.{lock_wallet, for_order}
use digital_services_platfor.Stars.Offers.{is_text}
use digital_services_platfor.Catalog.{is_summary}
use digital_services_platfor.Stars.Charges.{
  charge_for_order, mark_star_delivery, request_star_refund,
}
use digital_services_platfor.Stars.{of_telegram_user}
use digital_services_platfor.Orders.Insert.{set_order_status}
use digital_services_platfor.Orders.{order_is, complete_order}

abbrev pub max_text_characters : ℕ
max_text_characters = 4000

abbrev pub max_summary_characters : ℕ
max_summary_characters = 1800

-- `is_alpha` is `str.isalpha` of one character, by the tables of Unicode.
unfoldable pub validate_text : (ℕ → Bool) → Text → Result Text
validate_text is_alpha raw =
    let t = strip raw in
    if leb 20 (length t) && leb (length t) max_text_characters && exists is_alpha t
    then ok t
    else err (invalid_input "text_length_or_content")

unfoldable pub validate_summary : Text → Result Text
validate_summary result =
    if is_empty (strip result) || ltb max_summary_characters (length result)
    then err (provider_error "invalid_summary_output")
    else ok (strip result)

-- The row that `_owned_order` joins.
pub record SummaryOrder : Type 0 where
  pub order : OrderRow
  pub charge_status : ChargeStatus
  pub input : Option SummaryInput
  pub input_available : Bool
  pub result : Option SummaryResult
  pub result_available : Bool

abbrev pub invoice_of : RowId → List StarInvoiceRow → Option StarInvoiceRow
invoice_of o = find λ i. for_order o i.order_id

abbrev pub input_of : RowId → List SummaryInput → Option SummaryInput
input_of w = find λ t. t.workflow_id == w

abbrev pub result_of : RowId → List SummaryResult → Option SummaryResult
result_of o = find λ r. r.order_id == o

-- `t.retention_until>now() AND t.input_digest=i.input_text_digest`
abbrev pub input_usable : Option SummaryInput → StarInvoiceRow → ℕ → Bool
input_usable none i now = false
input_usable (some t) i now =
    ltb now t.retention_until && is_text i.input_text_digest t.input_digest

abbrev pub result_usable : Option SummaryResult → ℕ → Bool
result_usable none now = false
result_usable (some r) now = ltb now r.retention_until

abbrev pub is_summary_service : RowId → List ServiceRow → Bool
is_summary_service s = exists λ r. r.id == s && is_summary r

unfoldable pub summary_order : OrderRow → ℕ → Db → Option SummaryOrder
summary_order o now db =
    if is_summary_service o.service_id db.services
    then elim (invoice_of o.id db.star_invoices) [
      | none ↦ none
      | some i ↦ elim (charge_for_order o.id db.star_charges) [
        | none ↦ none
        | some c ↦ some (record {
          order = o;
          charge_status = c.status;
          input = input_of i.workflow_id db.summary_inputs;
          input_available = input_usable (input_of i.workflow_id db.summary_inputs) i now;
          result = result_of o.id db.summary_results;
          result_available = result_usable (result_of o.id db.summary_results) now;
        })
      ]
    ]
    else none

-- The order, if its customer has that Telegram id, which a NULL never is.
unfoldable pub customer_order : Option ℕ → RowId → Db → Option OrderRow
customer_order none o db = none
customer_order (some tg) o db =
    find (λ r. r.id == o && exists (of_telegram_user tg r.user_id) db.users) db.orders

unfoldable pub owned_order : Option ℕ → RowId → ℕ → Exec Db SummaryOrder
unfolding lock_wallet
owned_order tg o now = do
  found ← gets (customer_order tg o)
  r ← or_raise found (value_error "summary_order_not_owned")
  lock_wallet r.user_id
  joined ← gets (summary_order r now)
  or_raise joined (value_error "not_summary_order")

-- `status in {"QUEUED", "PROCESSING", "AWAITING_FULFILLMENT"}`
abbrev pub refundable : OrderStatus → Bool
refundable OrderStatus.queued = true
refundable OrderStatus.processing = true
refundable OrderStatus.awaiting_fulfillment = true
refundable _ = false

unfoldable pub fail_summary : Option ℕ → RowId → ℕ → Exec Db (Unit {0})
fail_summary tg o now = transaction (do
  s ← owned_order tg o now
  when (refundable s.order.status)
      (do set_order_status o OrderStatus.failed; request_star_refund o))

-- What the first transaction of `execute_summary` decides.
pub data Attempt : Type 0 where
  answered : Option Text → Attempt
  working : Text → ℕ → Attempt

abbrev pub is_paid : SummaryOrder → Bool
is_paid s = eqb ChargeStatus-discrete s.charge_status ChargeStatus.paid

abbrev pub result_text_of : SummaryOrder → Option Text
result_text_of s = elim s.result [ none ↦ none | some r ↦ some r.result_text ]

abbrev pub attempt_of : SummaryOrder → Attempt
attempt_of s = elim s.input [
  | none ↦ answered none
  | some t ↦ working t.input_text t.retention_until
]

-- `row["status"] == … and row["charge_status"] == "PAID"`
abbrev pub paid_in : OrderStatus → SummaryOrder → Bool
paid_in status s = order_is status s.order && is_paid s

-- The part of the first transaction after the row is read.
unfoldable pub attempt_summary : ℕ → RowId → ℕ → SummaryOrder → Exec Db Attempt
attempt_summary tg o now s =
    let refund = fail_summary (some tg) o now in
    if paid_in OrderStatus.awaiting_fulfillment s
    then (if s.result_available
        then pure (answered (result_text_of s))
        else refund >> pure (answered none))
    else if paid_in OrderStatus.queued s
    then (if s.input_available
        then set_order_status o OrderStatus.processing >> pure (attempt_of s)
        else refund >> pure (answered none))
    else pure (answered none)

unfoldable pub begin_summary : ℕ → RowId → ℕ → Exec Db Attempt
begin_summary tg o now = transaction (owned_order (some tg) o now >>= attempt_summary tg o now)

-- INSERT INTO summary_results, with its primary key.
unfoldable pub insert_result : RowId → Text → ℕ → Exec Db (Unit {0})
insert_result o result retention = do
  stored ← gets (λ db. is_some (result_of o db.summary_results))
  raise_if stored (unique_violation "summary_results")
  modify λ db. record db {
    summary_results =
        record { order_id = o; result_text = result; retention_until = retention }
        ∷ db.summary_results;
  }

unfoldable pub store_summary : ℕ → RowId → Text → ℕ → ℕ → Exec Db (Option Text)
store_summary tg o result retention now = transaction (do
  s ← owned_order (some tg) o now
  (if paid_in OrderStatus.processing s
      then (if s.input_available
          then (do
            insert_result o result retention
            set_order_status o OrderStatus.awaiting_fulfillment
            pure (some result))
          else (do fail_summary (some tg) o now; pure none))
      else pure none))

abbrev pub checked : Result Text → Result Text
checked (ok result) = validate_summary result
checked (err e) = err e

-- The provider's answer to a text; `later` is the clock after it.
unfoldable pub execute_summary : (Text → Result Text) → ℕ → RowId → ℕ → ℕ → Exec Db (Option Text)
execute_summary summarize tg o now later = do
  attempt ← begin_summary tg o now
  elim attempt [
    | answered r ↦ pure r
    | working source retention ↦ elim (checked (summarize source)) [
      | err e ↦ do fail_summary (some tg) o later; raise e
      | ok result ↦ store_summary tg o result retention later
    ]
  ]

unfoldable pub acknowledge_summary : ℕ → RowId → Text → ℕ → Exec Db (Unit {0})
acknowledge_summary tg o receipt now = do
  raise_if (is_empty receipt || ltb 200 (length receipt)) (value_error "invalid_summary_receipt")
  transaction (do
    s ← owned_order (some tg) o now
    when (not (order_is OrderStatus.completed s.order)) (do
      raise_unless (order_is OrderStatus.awaiting_fulfillment s.order && s.result_available)
          (value_error "summary_not_deliverable")
      mark_star_delivery o receipt
      complete_order o receipt))
