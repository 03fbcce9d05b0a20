-- ===== src/Stars/Receipts.antt =====
-- Paid and refunded receipts of packages/python/platform_core/stars_payments.py:
-- `accept_star_payment` and `confirm_star_refund`.
use digital_services_platfor.Base.{
  ℕ, Bool, false, not, ◌&&◌, ◌||◌, Option, none, some, List, ◌∷◌, ◌++◌, leb, ◌==◌, if◌then◌else◌,
  is_some, length, find, update_where,
}
use digital_services_platfor.Text.{Text, text, uuid_text}
use digital_services_platfor.Exec.{
  stars_mismatch, Exec, pure, gets, transaction, ◌>>=◌, ◌>>◌, raise_unless, modify, when,
}
use digital_services_platfor.Schema.{
  RowId, StarCharge, ChargeStatus, Db, StarInvoiceRow, OrderRow, StarEventType, WorkflowStatus,
  Currency, OrderStatus,
}
use digital_services_platfor.Orders.Insert.{
  insert_order, insert_order_files, insert_job, set_order_status,
}
use digital_services_platfor.Stars.Charges.{set_charge_status, charge_is, event, is_charge}
use digital_services_platfor.Stars.Offers.{
  current_offer, inputs_ready, Offer, is_text, offer, has_query, summary_slug, invoice_terms,
}
use digital_services_platfor.Stars.{owned_invoice, check_amount, agrees}
use digital_services_platfor.Ledger.{lock_wallet}

abbrev pub charge_row : Text → List StarCharge → Option StarCharge
charge_row charge = find (is_charge charge)

abbrev pub charge_paid_for : RowId → StarCharge → StarCharge
charge_paid_for o c = record c { order_id = some o }

-- UPDATE star_charges SET order_id=… WHERE charge_id=…
unfoldable pub set_charge_order : Text → RowId → Exec Db (Unit {0})
set_charge_order charge o = modify λ db. record db {
  star_charges = update_where (is_charge charge) (charge_paid_for o) db.star_charges;
}

unfoldable pub set_invoice_order : RowId → RowId → Exec Db (Unit {0})
set_invoice_order i o = modify λ db. record db {
  star_invoices =
      update_where (λ r. r.id == i) (λ r. record r { order_id = some o }) db.star_invoices;
}

-- UPDATE telegram_workflows SET status='SUBMITTED',order_id=… WHERE id=…
unfoldable pub submit_workflow : RowId → RowId → Exec Db (Unit {0})
submit_workflow w o = modify λ db. record db {
  workflows =
      update_where (λ r. r.id == w)
        (λ r. record r { status = WorkflowStatus.submitted; order_id = some o }) db.workflows;
}

abbrev pub new_charge : Text → RowId → ChargeStatus → StarCharge
new_charge charge i status = record {
  charge_id = charge;
  invoice_id = i;
  status = status;
  order_id = none;
}

-- INSERT INTO star_charges
abbrev pub insert_charge : Text → RowId → ChargeStatus → Exec Db (Unit {0})
insert_charge charge i status =
    modify λ db. record db { star_charges = new_charge charge i status ∷ db.star_charges }

abbrev pub stars_order : RowId → StarInvoiceRow → OrderRow
stars_order o i = record {
  id = o;
  user_id = i.user_id;
  service_id = i.service_id;
  client_request_key = text "stars:" ++ uuid_text i.id;
  channel = text "telegram";
  price_snapshot_halalas = 0;
  currency = Currency.xtr;
  price_snapshot_stars = some i.amount_stars;
  status = OrderStatus.queued;
  delivery_receipt = none;
}

-- The order, its inputs and its job, and the rows that point to it.
unfoldable pub fulfil : Text → StarInvoiceRow → Offer → RowId → RowId → Exec Db (Option RowId)
unfolding insert_order insert_order_files insert_job set_invoice_order set_charge_order
    submit_workflow
fulfil charge i offered o job = do
  insert_order (stars_order o i)
  insert_order_files o i.file_ids
  when (not (is_text offered.service.processor_key summary_slug)) (insert_job job o)
  set_invoice_order i.id o
  set_charge_order charge o
  submit_workflow i.workflow_id o
  pure (some o)

unfoldable pub refuse : Text → Exec Db (Option RowId)
unfolding set_charge_status event
refuse charge = do
  set_charge_status charge ChargeStatus.refund_pending
  event charge StarEventType.refund_requested none
  pure none

-- A charge that was recorded before.
abbrev pub known_order : StarCharge → Option RowId
known_order c =
    if charge_is ChargeStatus.paid c || charge_is ChargeStatus.delivered c then c.order_id else none

unfoldable pub eligible : StarInvoiceRow → Offer → Bool → Option Text → Option Text → ℕ → Db → Bool
unfolding current_offer inputs_ready
eligible i o allow slug key now db =
    allow
    && agrees slug (some o.service.slug)
    && agrees key o.service.processor_key
    && has_query i.checkout_query_id
    && not (is_some i.order_id)
    && current_offer o (invoice_terms i) false
    && inputs_ready i.user_id o now db

unfoldable pub accept_star_payment :
    ℕ
    → Text
    → Currency
    → ℕ
    → Text
    → Bool
    → Option Text
    → Option Text
    → RowId
    → RowId
    → ℕ
    → Exec Db (Option RowId)
unfolding check_amount lock_wallet
accept_star_payment tg p currency amount charge allow slug key order_id job_id now = do
  raise_unless (leb 1 (length charge) && leb (length charge) 200)
      (stars_mismatch "invalid charge identity")
  transaction (do
    i ← owned_invoice tg p
    check_amount i currency amount
    lock_wallet i.user_id
    o ← offer i.user_id i.workflow_id
    prior ← gets (λ db. charge_row charge db.star_charges)
    elim prior [
      | some c ↦ do
        raise_unless (c.invoice_id == i.id) (stars_mismatch "charge reused for another invoice")
        event charge StarEventType.paid none
        pure (known_order c)
      | none ↦ do
        insert_charge charge i.id ChargeStatus.paid
        event charge StarEventType.paid none
        fulfillable ← gets (eligible i o allow slug key now)
        if fulfillable then fulfil charge i o order_id job_id else refuse charge
    ])

abbrev pub order_of_charge : Option StarCharge → Option RowId
order_of_charge none = none
order_of_charge (some c) = c.order_id

unfoldable pub confirm_star_refund : ℕ → Text → Currency → ℕ → Text → Exec Db (Unit {0})
unfolding check_amount lock_wallet event set_charge_status set_order_status
confirm_star_refund tg p currency amount charge = transaction (do
  i ← owned_invoice tg p
  check_amount i currency amount
  lock_wallet i.user_id
  prior ← gets (λ db. charge_row charge db.star_charges)
  elim prior [
    | none ↦ insert_charge charge i.id ChargeStatus.refunded
    | some c ↦ do
      raise_unless (c.invoice_id == i.id) (stars_mismatch "refund charge does not match")
      set_charge_status charge ChargeStatus.refunded
  ]
  event charge StarEventType.refunded none
  elim (order_of_charge prior) [
    | none ↦ pure tt
    | some o ↦ set_order_status o OrderStatus.refunded
  ])
