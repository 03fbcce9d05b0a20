-- ===== src/Examples/Summaries.antt =====
-- The theorems on summaries, on a shop that summarises texts.
use digital_services_platfor.Base.{
  ◌≡◌, refl, Bool, true, false, Option, none, some, [], ◌∷◌, arith, find, exists, update_where,
  ℕ_discrete,
}
use digital_services_platfor.Text.{Text, Text-discrete, text}
use digital_services_platfor.Exec.{provider_error, ok, err}
use digital_services_platfor.Schema.{
  Db, OrderStatus, ServiceRow, SummaryResult, OrderRow, ChargeStatus, Currency,
  OrderStatus-discrete, ChargeStatus-discrete,
}
use digital_services_platfor.Summaries.{
  begin_summary, SummaryOrder, attempt_summary, execute_summary, fail_summary, owned_order,
  customer_order, summary_order, acknowledge_summary,
}
use digital_services_platfor.Examples.{merge, shop, invoice}
use digital_services_platfor.Stars.Offers.{summary_slug, text_input_schema}
use digital_services_platfor.Orders.{draft_order}
use digital_services_platfor.Stars.Receipts.{new_charge}
use digital_services_platfor.Ledger.{lock_wallet}
use digital_services_platfor.Orders.Insert.{set_order_status}
use digital_services_platfor.Stars.Charges.{request_star_refund}
use digital_services_platfor.Summaries.Execution.{
  Refunding, execute_summary_provider_error, fail_summary-Refunding,
}
use digital_services_platfor.Summaries.Answers.{Delivered, acknowledge_summary-Delivered}

abbrev summarize : ServiceRow
summarize = record merge {
  id = 16;
  slug = summary_slug;
  processor_key = some summary_slug;
  input_schema = text_input_schema;
}

abbrev summary_sale : OrderStatus → OrderRow
summary_sale status = record (draft_order 35 1 summarize (text "k") (text "telegram")) {
  price_snapshot_halalas = 0;
  currency = Currency.xtr;
  price_snapshot_stars = some 50;
  status = status;
}

-- The shop after the customer has paid for a summary.
abbrev press : OrderStatus → Db
press status = record shop {
  services = summarize ∷ [];
  orders = summary_sale status ∷ [];
  star_invoices = record invoice { order_id = some 35; input_text_digest = some (text "d") } ∷ [];
  star_charges = record (new_charge (text "ch") 9 ChargeStatus.paid) { order_id = some 35 } ∷ [];
  summary_inputs =
      record {
        workflow_id = 10;
        user_id = 1;
        telegram_message_id = 4;
        input_text = text "long text";
        input_digest = text "d";
        retention_until = 1000;
      }
      ∷ [];
}

abbrev seen : OrderStatus → Option SummaryResult → Bool → SummaryOrder
seen status result available = record {
  order = summary_sale status;
  charge_status = ChargeStatus.paid;
  input = find (λ t. true) (press status).summary_inputs;
  input_available = true;
  result = result;
  result_available = available;
}

fail_summary-Refunding_example :
    let db = press OrderStatus.processing in
    ((fail_summary (some 77) 35 5 db).0 ≡ ok tt) × Refunding 35 (fail_summary (some 77) 35 5 db).1
unfolding begin_summary attempt_summary execute_summary fail_summary owned_order customer_order
    summary_order lock_wallet find exists set_order_status request_star_refund update_where
    Text-discrete ℕ_discrete OrderStatus-discrete ChargeStatus-discrete
fail_summary-Refunding_example =
    fail_summary-Refunding (some 77) 35 5 (seen OrderStatus.processing none false)
      (press OrderStatus.processing) refl refl refl

execute_summary_provider_error_example :
    let db = press OrderStatus.queued in
    let down = (λ (t : Text). err (provider_error "down")) in
    ((execute_summary down 77 35 5 8 db).0 ≡ err (provider_error "down"))
    × Refunding 35 (execute_summary down 77 35 5 8 db).1
unfolding begin_summary attempt_summary execute_summary fail_summary owned_order customer_order
    summary_order lock_wallet find exists set_order_status request_star_refund update_where
    Text-discrete ℕ_discrete OrderStatus-discrete ChargeStatus-discrete
execute_summary_provider_error_example =
    execute_summary_provider_error (λ t. err (provider_error "down")) 77 35 5 8 (text "long text")
      1000 (provider_error "down") (press OrderStatus.queued) refl refl

abbrev answer : SummaryResult
answer = record { order_id = 35; result_text = text "short"; retention_until = 1000 }

abbrev printed : Db
printed = record (press OrderStatus.awaiting_fulfillment) { summary_results = answer ∷ [] }

acknowledge_summary-Delivered_example :
    ((acknowledge_summary 77 35 (text "m") 5 printed).0 ≡ ok tt)
    × Delivered 35 (text "m") (acknowledge_summary 77 35 (text "m") 5 printed).1
unfolding begin_summary attempt_summary execute_summary fail_summary owned_order customer_order
    summary_order lock_wallet find exists set_order_status request_star_refund update_where
    Text-discrete ℕ_discrete OrderStatus-discrete ChargeStatus-discrete
acknowledge_summary-Delivered_example =
    acknowledge_summary-Delivered 77 35 5 (text "m")
      (seen OrderStatus.awaiting_fulfillment (some answer) true) printed refl refl refl refl
      (omega arith) (omega arith)
