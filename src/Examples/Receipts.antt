-- ===== src/Examples/Receipts.antt =====
-- The theorems on Stars invoices and charges on the shop.
use digital_services_platfor.Base.{
  ◌≡◌, refl, true, none, some, [], ◌∷◌, arith, find, exists, count_where, update_where, order_by,
  select, member, distinct, ℕ_discrete, ◌↔◌,
}
use digital_services_platfor.Int.{ℤ-discrete}
use digital_services_platfor.Text.{Text-discrete, text, uuid_hex, hex_digits, hex_digit}
use digital_services_platfor.Exec.{ok, IfOk}
use digital_services_platfor.Stars.Receipts.{
  accept_star_payment, new_charge, eligible, fulfil, refuse, charge_row,
}
use digital_services_platfor.Schema.{
  Db, StarCharge, ChargeStatus, InputSchema-discrete, RowIds-discrete, Currency-discrete,
  ChargeStatus-discrete, StarEventType-discrete, WorkflowStatus-discrete, ProcessorType-discrete,
  FileType-discrete, FileStatus-discrete, Currency,
}
use digital_services_platfor.Stars.Payload.{
  invoice_id, payload, parse_payload, parse_hex, hex_value, after_prefix,
}
use digital_services_platfor.Stars.{owned_row, invoice_row, check_amount, create_star_invoice}
use digital_services_platfor.Examples.{shop, conversation, invoice, merge, digest}
use digital_services_platfor.Stars.RoundTrip.{invoice_id-payload}
use digital_services_platfor.Ledger.{lock_wallet}
use digital_services_platfor.Stars.Offers.{
  offer_row, current_offer, supported, inputs_ready, files_ready, Offer,
}
use digital_services_platfor.Stars.Charges.{event, set_charge_status}
use digital_services_platfor.Stars.Accepted.{
  Accounted, accept_star_payment-Accounted, accept_star_payment_repeat,
}
use digital_services_platfor.Stars.Lifecycle.{
  charges_after, star_calls-Advances, delivers, Advances,
}
use digital_services_platfor.Stars.Checkout.{Created, create_star_invoice-Created}

accept_star_payment-Accounted_example :
    Accounted
      (text "ch")
      invoice
      shop
      (accept_star_payment 77 (payload 9) Currency.xtr 50 (text "ch") true none none 30 40 5 shop)
unfolding accept_star_payment owned_row invoice_id parse_payload parse_hex hex_value after_prefix
    payload uuid_hex hex_digits hex_digit invoice_row find exists check_amount lock_wallet offer_row
    select order_by event set_charge_status eligible current_offer supported inputs_ready
    files_ready member distinct count_where fulfil refuse Text-discrete ℕ_discrete ℤ-discrete
    InputSchema-discrete RowIds-discrete Currency-discrete ChargeStatus-discrete
    StarEventType-discrete WorkflowStatus-discrete ProcessorType-discrete FileType-discrete
    FileStatus-discrete update_where
accept_star_payment-Accounted_example =
    accept_star_payment-Accounted 77 (payload 9) Currency.xtr 50 (text "ch") true none none 30 40 5
      invoice shop refl refl

abbrev charge : StarCharge
charge = record (new_charge (text "ch") 9 ChargeStatus.paid) { order_id = some 30 }

abbrev charged : Db
charged = record shop { star_charges = charge ∷ [] }

accept_star_payment_repeat_example :
    let (r, db') =
      accept_star_payment 77
        (payload 9)
        Currency.xtr
        50
        (text "ch")
        true
        none
        none
        31
        41
        5
        charged in
    IfOk (λ found. found ≡ some 30) r
    × (db'.orders ≡ charged.orders)
    × (db'.jobs ≡ charged.jobs)
    × (db'.star_charges ≡ charged.star_charges)
    × (db'.star_invoices ≡ charged.star_invoices)
unfolding accept_star_payment owned_row invoice_id parse_payload parse_hex hex_value after_prefix
    payload uuid_hex hex_digits hex_digit invoice_row find exists check_amount lock_wallet offer_row
    select order_by event set_charge_status eligible current_offer supported inputs_ready
    files_ready member distinct count_where fulfil refuse Text-discrete ℕ_discrete ℤ-discrete
    InputSchema-discrete RowIds-discrete Currency-discrete ChargeStatus-discrete
    StarEventType-discrete WorkflowStatus-discrete ProcessorType-discrete FileType-discrete
    FileStatus-discrete update_where
accept_star_payment_repeat_example =
    accept_star_payment_repeat 77 (payload 9) Currency.xtr 50 (text "ch") true none none 31 41 5
      charge charged refl

star_calls-Advances_example :
    Advances (some charge) (charge_row (text "ch") (charges_after (delivers 30 (text "m")) charged))
unfolding Text-discrete ℕ_discrete find
star_calls-Advances_example =
    star_calls-Advances (delivers 30 (text "m")) (text "ch") charged (refl, tt)

invoice_id-payload_example : (invoice_id (payload 9) ≡ ok 9) ↔ (payload 9 ≡ payload 9)
invoice_id-payload_example = invoice_id-payload (payload 9) 9 (omega arith)

abbrev offered : Offer
offered = record {
  workflow = conversation;
  service = merge;
  category_enabled = true;
  input = none;
  files = 21 ∷ 22 ∷ [];
}

abbrev unbilled : Db
unbilled = record shop { star_invoices = [] }

create_star_invoice-Created_example :
    Created digest 1 10 3
      (text "terms")
      none
      none
      5
      offered
      9
      unbilled
      (create_star_invoice digest 1 10 3 (text "terms") none none 9 5 unbilled)
unfolding accept_star_payment owned_row invoice_id parse_payload parse_hex hex_value after_prefix
    payload uuid_hex hex_digits hex_digit invoice_row find exists check_amount lock_wallet offer_row
    select order_by event set_charge_status eligible current_offer supported inputs_ready
    files_ready member distinct count_where fulfil refuse Text-discrete ℕ_discrete ℤ-discrete
    InputSchema-discrete RowIds-discrete Currency-discrete ChargeStatus-discrete
    StarEventType-discrete WorkflowStatus-discrete ProcessorType-discrete FileType-discrete
    FileStatus-discrete update_where
create_star_invoice-Created_example =
    create_star_invoice-Created digest 1 10 3 (text "terms") none none 5 offered 9 unbilled refl
