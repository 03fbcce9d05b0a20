-- ===== src/Examples/Requests.antt =====
-- The theorems on custom requests and on the payment inbox, on the shop.
use digital_services_platfor.Base.{
  ◌⊎◌, ℕ, ◌+◌, ◌≡◌, refl, true, none, some, [], ◌∷◌, find, exists, count_where, update_where,
  order_by, select, member, distinct, ℕ_discrete,
}
use digital_services_platfor.Int.{ℤ-discrete}
use digital_services_platfor.Text.{
  Text, Text-discrete, text, strip, uuid_hex, drop_spaces, is_space, hex_digits, hex_digit,
}
use digital_services_platfor.Exec.{ok, Raised}
use digital_services_platfor.Schema.{
  CustomRequest, Db, RowId, ReceiptKind, Currency, RequestStatus, InboxStatus,
  RequestStatus-discrete, InputSchema-discrete, RowIds-discrete, Currency-discrete,
  ChargeStatus-discrete, StarEventType-discrete, WorkflowStatus-discrete, ProcessorType-discrete,
  FileType-discrete, FileStatus-discrete, InboxStatus-discrete,
}
use digital_services_platfor.CustomRequests.{
  triage_request, check_action, new_draft, request_row, telegram, submit_request, TriageAction,
}
use digital_services_platfor.Stars.Receipts.{accept_star_payment, eligible, fulfil, refuse}
use digital_services_platfor.Examples.{shop}
use digital_services_platfor.Stars.{owned_row, invoice_row, check_amount}
use digital_services_platfor.Stars.Payload.{
  invoice_id, parse_payload, parse_hex, hex_value, after_prefix, payload,
}
use digital_services_platfor.CustomRequests.Triage.{
  Triaged, triage_request-Triaged, triage_request_stale,
}
use digital_services_platfor.CustomRequests.Drafts.{submit_request_repeat}
use digital_services_platfor.Ledger.{lock_wallet}
use digital_services_platfor.Stars.Offers.{
  offer_row, current_offer, supported, inputs_ready, files_ready,
}
use digital_services_platfor.Stars.Charges.{event, set_charge_status}
use digital_services_platfor.Inbox.{
  process_rounds, process_next, apply_receipt, returned, mark_receipt, next_receipt,
}
use digital_services_platfor.Inbox.Pending.{pending}
use digital_services_platfor.Inbox.Drain.{process_rounds-drains}

abbrev wish : CustomRequest
wish = record (new_draft 80 1 telegram) {
  status = RequestStatus.in_review;
  description = some (text "a new service");
  source_message_key = some (text "5");
  reviewed_by_admin_id = some 90;
}

abbrev asked : Db
asked = record shop { custom_requests = wish ∷ [] }

abbrev why : Text
why = text "out of scope"

triage_request-Triaged_example :
    Triaged TriageAction.decline 90
      (strip why)
      1
      wish
      asked
      (triage_request 80 90 1 TriageAction.decline why asked)
unfolding triage_request check_action request_row submit_request find exists update_where strip
    drop_spaces is_space Text-discrete ℕ_discrete RequestStatus-discrete
triage_request-Triaged_example =
    triage_request-Triaged 80 90 1 TriageAction.decline why wish asked refl

triage_request_stale_example :
    let db = (triage_request 80 90 1 TriageAction.decline why asked).1 in
    let (r, db') = triage_request 80 90 1 TriageAction.decline why db in Raised r × (db' ≡ db)
unfolding triage_request check_action request_row submit_request find exists update_where strip
    drop_spaces is_space Text-discrete ℕ_discrete RequestStatus-discrete
triage_request_stale_example =
    triage_request_stale 80 90 90 1 TriageAction.decline TriageAction.decline why why
      (record { id = 80; status = RequestStatus.declined; revision = 2 }) asked
      (triage_request 80 90 1 TriageAction.decline why asked).1 refl

abbrev drafting : Db
drafting = record shop { custom_requests = new_draft 80 1 telegram ∷ [] }

submit_request_repeat_example :
    let db = (submit_request 1 (text "5") why telegram drafting).1 in
    submit_request 1 (text "5") why telegram db ≡ (ok 80, db)
unfolding triage_request check_action request_row submit_request find exists update_where strip
    drop_spaces is_space Text-discrete ℕ_discrete RequestStatus-discrete
submit_request_repeat_example =
    submit_request_repeat 1 (text "5") why telegram 80 drafting
      (submit_request 1 (text "5") why telegram drafting).1 refl

-- A receipt for an invoice that is not there.
abbrev received : Db
received = record shop {
  payment_inbox =
      record {
        bot_id = 7;
        update_id = 1;
        event = record {
          kind = ReceiptKind.paid;
          telegram_user_id = 77;
          payload = text "other";
          currency = Currency.xtr;
          amount = 50;
          charge_id = text "ch";
        };
        status = InboxStatus.pending;
        attempted_at = none;
        created_at = 3;
      }
      ∷ [];
}

abbrev drawn : ℕ → RowId
drawn n = 100 + n

process_rounds-drains_example :
    let rows = (process_rounds 7 true none none 9 20 drawn drawn received).1.payment_inbox in
    (pending 7 rows + 1 ≡ pending 7 received.payment_inbox)
    × (◌≡◌ {A = ℕ} 1 20 ⊎ (pending 7 rows ≡ 0))
unfolding accept_star_payment owned_row invoice_id parse_payload parse_hex hex_value after_prefix
    payload uuid_hex hex_digits hex_digit invoice_row find exists check_amount lock_wallet offer_row
    select order_by event set_charge_status eligible current_offer supported inputs_ready
    files_ready member distinct count_where fulfil refuse Text-discrete ℕ_discrete ℤ-discrete
    InputSchema-discrete RowIds-discrete Currency-discrete ChargeStatus-discrete
    StarEventType-discrete WorkflowStatus-discrete ProcessorType-discrete FileType-discrete
    FileStatus-discrete update_where process_rounds process_next apply_receipt returned mark_receipt
    next_receipt InboxStatus-discrete
process_rounds-drains_example =
    process_rounds-drains 7 true none none 9 20 drawn drawn 1 received (refl, tt) refl
