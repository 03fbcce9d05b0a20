-- ===== src/Stars/Charges.antt =====
-- The charges of packages/python/platform_core/stars_payments.py: `_event`, `mark_star_delivery`
-- and `request_star_refund`.
use digital_services_platfor.Base.{
  Bool, ◌&&◌, Option, none, some, List, ◌∷◌, if◌then◌else◌, eqb, find, exists, update_where,
}
use digital_services_platfor.Text.{Text, Text-discrete}
use digital_services_platfor.Exec.{
  stars_mismatch, Exec, pure, gets, or_raise, ◌>>=◌, ◌>>◌, raise_unless, modify, when,
}
use digital_services_platfor.Schema.{
  ChargeStatus, RowId, StarCharge, StarEventType, ChargeStatus-discrete, Db, StarEvent,
  StarEventType-discrete,
}
use digital_services_platfor.Ledger.{for_order}

abbrev pub same_event : Text → StarEventType → StarEvent → Bool
same_event charge kind e =
    eqb Text-discrete e.charge_id charge && eqb StarEventType-discrete e.event_type kind

-- INSERT INTO star_payment_events … ON CONFLICT (charge_id,event_type) DO NOTHING
unfoldable pub event : Text → StarEventType → Option Text → Exec Db (Unit {0})
event charge kind receipt = modify λ db.
    if exists (same_event charge kind) db.star_events then db else record db {
      star_events =
          record { charge_id = charge; event_type = kind; receipt = receipt } ∷ db.star_events;
    }

abbrev pub is_charge : Text → StarCharge → Bool
is_charge charge c = eqb Text-discrete c.charge_id charge

abbrev pub set_status : ChargeStatus → StarCharge → StarCharge
set_status status c = record c { status = status }

-- UPDATE star_charges SET status=… WHERE charge_id=…
unfoldable pub set_charge_status : Text → ChargeStatus → Exec Db (Unit {0})
set_charge_status charge status = modify λ db. record db {
  star_charges = update_where (is_charge charge) (set_status status) db.star_charges;
}

abbrev pub charge_for_order : RowId → List StarCharge → Option StarCharge
charge_for_order o = find λ c. for_order o c.order_id

abbrev pub charge_is : ChargeStatus → StarCharge → Bool
charge_is status c = eqb ChargeStatus-discrete c.status status

unfoldable pub mark_star_delivery : RowId → Text → Exec Db (Unit {0})
unfolding event set_charge_status
mark_star_delivery o receipt = do
  found ← gets (λ db. charge_for_order o db.star_charges)
  charge ← or_raise found (stars_mismatch "Stars charge is not available for fulfillment")
  raise_unless (charge_is ChargeStatus.paid charge)
      (stars_mismatch "Stars charge is not available for fulfillment")
  event charge.charge_id StarEventType.delivered (some receipt)
  set_charge_status charge.charge_id ChargeStatus.delivered

unfoldable pub request_star_refund : RowId → Exec Db (Unit {0})
unfolding event set_charge_status
request_star_refund o = do
  found ← gets (λ db. charge_for_order o db.star_charges)
  elim found [
    | none ↦ pure tt
    | some charge ↦ when (charge_is ChargeStatus.paid charge) (do
      set_charge_status charge.charge_id ChargeStatus.refund_pending
      event charge.charge_id StarEventType.refund_requested none)
  ]
