-- ===== src/Stars/Accepted.antt =====
-- What `accept_star_payment` leaves behind: orders, charges and refund requests.
use digital_services_platfor.Base.{
  ℕ, ◌≡◌, refl, inl, inr, Bool, true, Option, none, some, List, [], ◌∷◌, arith, ◌==◌, find, exists,
  update_where, Bool-cases, Option-cases, ◌++◌,
}
use digital_services_platfor.Text.{Text, text, uuid_text}
use digital_services_platfor.Exec.{Result, ok, err, Result-cases, IfOk}
use digital_services_platfor.Schema.{
  StarCharge, StarInvoiceRow, Currency, Db, StarEventType, RowId, ChargeStatus, StarEvent,
  OrderStatus,
}
use digital_services_platfor.Stars.Charges.{event, is_charge, same_event, set_status}
use digital_services_platfor.Stars.Receipts.{
  accept_star_payment, charge_row, new_charge, charge_paid_for, stars_order, eligible, fulfil,
  refuse, known_order,
}
use digital_services_platfor.Stars.{owned_row, invoice_row, of_telegram_user}
use digital_services_platfor.Stars.Payload.{invoice_id}
use digital_services_platfor.Tables.{find_sound}
use digital_services_platfor.Stars.Offers.{Offer, offer_row}

find-update_self :
    (charge : Text) (new : StarCharge) (f : StarCharge → StarCharge) (cs : List StarCharge)
    → ((c : StarCharge) → (f c).charge_id ≡ c.charge_id)
    → new.charge_id ≡ charge
    → charge_row charge (update_where (is_charge charge) f (new ∷ cs)) ≡ some (f new)
unfolding find update_where
find-update_self charge new f cs keeps e = ground (arith, keeps new)

-- How a charge that was new is accounted for.
abbrev pub Accounted : Text → StarInvoiceRow → Db → Result (Option RowId) × Db → Type 0
Accounted charge i db (err e, db') = db' ≡ db
Accounted charge i db (ok none, db') =
    (charge_row charge db'.star_charges
      ≡ some (record {
        charge_id = charge;
        invoice_id = i.id;
        status = ChargeStatus.refund_pending;
        order_id = none;
      }))
    × (exists (same_event charge StarEventType.refund_requested) db'.star_events ≡ true)
    × (db'.orders ≡ db.orders)
    × (db'.jobs ≡ db.jobs)
Accounted charge i db (ok (some o), db') =
    (charge_row charge db'.star_charges
      ≡ some (record {
        charge_id = charge;
        invoice_id = i.id;
        status = ChargeStatus.paid;
        order_id = some o;
      }))
    × (i.order_id ≡ none)
    × (db'.orders
        ≡ record {
          id = o;
          user_id = i.user_id;
          service_id = i.service_id;
          client_request_key = text "stars:" ++ uuid_text i.id;
          channel = text "telegram";
          price_snapshot_halalas = 0;
          currency = Currency.xtr;
          price_snapshot_stars = some i.amount_stars;
          status = OrderStatus.queued;
          delivery_receipt = none;
        }
          ∷ db.orders)
    × (invoice_row i.id db'.star_invoices ≡ some (record i { order_id = some o }))

event_recorded :
    (charge : Text) (kind : StarEventType) (receipt : Option Text) (db : Db)
    → exists (same_event charge kind) (event charge kind receipt db).1.star_events ≡ true
unfolding event exists
event_recorded charge kind receipt db = ground arith

invoice_row_sound :
    (id : RowId) (i : StarInvoiceRow) (rs : List StarInvoiceRow)
    → invoice_row id rs ≡ some i
    → invoice_row i.id rs ≡ some i
unfolding invoice_row
invoice_row_sound id i rs e =
    let same : i.id ≡ id = ground (arith, find_sound (λ r. r.id == id) i rs e) in simp same e

owned_row_sound :
    (tg : ℕ) (p : Text) (i : StarInvoiceRow) (db : Db)
    → owned_row tg p db ≡ ok i
    → (invoice_row i.id db.star_invoices ≡ some i)
      × (exists (of_telegram_user tg i.user_id) db.users ≡ true)
unfolding owned_row
owned_row_sound tg p i db e = elim (Result-cases (invoice_id p)) [
  | inl (id, parsed) ↦ ground (arith, invoice_row_sound id i db.star_invoices)
  | inr (x, failed) ↦ ground arith
]

abbrev bound_to : RowId → StarInvoiceRow → StarInvoiceRow
bound_to o r = record r { order_id = some o }

invoice_row-bound :
    (o : RowId) (i : StarInvoiceRow) (rs : List StarInvoiceRow)
    → invoice_row i.id rs ≡ some i
    → invoice_row i.id (update_where (λ r. r.id == i.id) (bound_to o) rs) ≡ some (bound_to o i)
unfolding invoice_row find update_where
invoice_row-bound o i [] e = cc
invoice_row-bound o i (r ∷ rs) e = ground (arith, invoice_row-bound o i rs)

-- What `fulfil` has done if it has not raised.
abbrev Fulfilled : Text → StarInvoiceRow → RowId → Db → Result (Option RowId) × Db → Type 0
Fulfilled charge i o db (err e, db') = Unit
Fulfilled charge i o db (ok r, db') =
    (r ≡ some o)
    × (charge_row charge db'.star_charges
        ≡ some (charge_paid_for o (new_charge charge i.id ChargeStatus.paid)))
    × (db'.orders ≡ stars_order o i ∷ db.orders)
    × (invoice_row i.id db'.star_invoices ≡ some (bound_to o i))

fulfil-Fulfilled :
    (charge : Text) (i : StarInvoiceRow) (offered : Offer) (o job : RowId) (cs : List StarCharge)
    (db : Db)
    → db.star_charges ≡ new_charge charge i.id ChargeStatus.paid ∷ cs
    → invoice_row i.id db.star_invoices ≡ some i
    → Fulfilled charge i o db (fulfil charge i offered o job db)
unfolding fulfil
fulfil-Fulfilled charge i offered o job cs db e known = ground (
  arith,
  invoice_row-bound o i db.star_invoices known,
  find-update_self charge (new_charge charge i.id ChargeStatus.paid) (charge_paid_for o) cs
      (λ c. refl) refl,
)

refuse-Refused :
    (charge : Text) (i : StarInvoiceRow) (cs : List StarCharge) (db : Db)
    → db.star_charges ≡ new_charge charge i.id ChargeStatus.paid ∷ cs
    → let (r, db') = refuse charge db in
      (r ≡ ok none)
      × (charge_row charge db'.star_charges
          ≡ some (new_charge charge i.id ChargeStatus.refund_pending))
      × (exists (same_event charge StarEventType.refund_requested) db'.star_events ≡ true)
      × (db'.orders ≡ db.orders)
      × (db'.jobs ≡ db.jobs)
unfolding refuse event exists
refuse-Refused charge i cs db e = ground (
  arith,
  find-update_self charge (new_charge charge i.id ChargeStatus.paid)
      (set_status ChargeStatus.refund_pending) cs (λ c. refl) refl,
)

-- The event log alone differs.
event_frame :
    (charge : Text) (kind : StarEventType) (receipt : Option Text) (db : Db)
    → (events : List StarEvent) × (event charge kind receipt db
        ≡ (ok tt, record db { star_events = events }))
unfolding event
event_frame charge kind receipt db =
    elim (Bool-cases (exists (same_event charge kind) db.star_events)) [
      | inl e ↦ (db.star_events, rw e)
      | inr e ↦ (
        record { charge_id = charge; event_type = kind; receipt = receipt } ∷ db.star_events,
        rw e,
      )
    ]

eligible_unused :
    (i : StarInvoiceRow) (o : Offer) (allow : Bool) (slug key : Option Text) (now : ℕ) (db : Db)
    → eligible i o allow slug key now db ≡ true
    → i.order_id ≡ none
unfolding eligible
eligible_unused i o allow slug key now db e = ground arith

-- A first receipt of a charge, for an invoice of the payer, adds exactly one order, QUEUED, for the
-- invoice's customer, service and price in Stars, and binds charge and invoice to it, which had no
-- order, or sets the charge aside with a refund request and adds no order and no job; if it raises,
-- nothing has changed.
pub accept_star_payment-Accounted :
    (tg : ℕ) (p : Text) (currency : Currency) (amount : ℕ) (charge : Text) (allow : Bool)
    (slug key : Option Text) (order job now : ℕ) (i : StarInvoiceRow) (db : Db)
    → charge_row charge db.star_charges ≡ none
    → owned_row tg p db ≡ ok i
    → Accounted charge i db
        (accept_star_payment tg p currency amount charge allow slug key order job now db)
unfolding accept_star_payment
accept_star_payment-Accounted tg p currency amount charge allow slug key order job now i db new
      owned =
    let cs = new_charge charge i.id ChargeStatus.paid ∷ db.star_charges in
    let db' = record db { star_charges = cs } in
    let (events, recorded) = event_frame charge StarEventType.paid none db' in
    let db'' = record db { star_charges = cs; star_events = events } in
    let known = (owned_row_sound tg p i db owned).0 in
    elim (Option-cases (offer_row i.user_id i.workflow_id db)) [
      | inl no_offer ↦ ground arith
      | inr (o, offered) ↦ ground (
        arith,
        recorded,
        eligible_unused i o allow slug key now db'',
        fulfil-Fulfilled charge i o order job db.star_charges db'' refl known,
        refuse-Refused charge i db.star_charges db'' refl,
      )
    ]

-- A receipt of a charge that is recorded already creates nothing and changes no charge and no
-- invoice, whatever the settings of the call; it returns the order that the charge paid for, unless
-- it is refunded, or raises.
pub accept_star_payment_repeat :
    (tg : ℕ) (p : Text) (currency : Currency) (amount : ℕ) (charge : Text) (allow : Bool)
    (slug key : Option Text) (order job now : ℕ) (c : StarCharge) (db : Db)
    → charge_row charge db.star_charges ≡ some c
    → let (r, db') =
        accept_star_payment tg p currency amount charge allow slug key order job now db in
      IfOk (λ found. found ≡ known_order c) r
      × (db'.orders ≡ db.orders)
      × (db'.jobs ≡ db.jobs)
      × (db'.star_charges ≡ db.star_charges)
      × (db'.star_invoices ≡ db.star_invoices)
unfolding accept_star_payment event
accept_star_payment_repeat tg p currency amount charge allow slug key order job now c db known =
    elim (Result-cases (owned_row tg p db)) [
      | inr (e, failed) ↦ ground arith
      | inl (i, owned) ↦ elim (Option-cases (offer_row i.user_id i.workflow_id db)) [
        | inl no_offer ↦ ground arith
        | inr (o, offered) ↦ ground arith
      ]
    ]
