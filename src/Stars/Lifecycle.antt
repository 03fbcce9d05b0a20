-- ===== src/Stars/Lifecycle.antt =====
-- The life of a charge in packages/python/platform_core/stars_payments.py.
use mathlib.Core.Option
use digital_services_platfor.Base.{
  ℕ, ◌≡◌, refl, ap, ◌⊎◌, inl, inr, Bool, true, false, Option, none, some, List, [], ◌∷◌, arith, eqb,
  Option-cases, find, update_where,
}
use digital_services_platfor.Text.{Text, Text-discrete}
use digital_services_platfor.Schema.{ChargeStatus, RowId, StarCharge, Db, Currency}
use digital_services_platfor.Stars.Charges.{
  mark_star_delivery, charge_for_order, is_charge, set_status, request_star_refund,
}
use digital_services_platfor.Stars.Receipts.{
  charge_row, confirm_star_refund, accept_star_payment, new_charge, charge_paid_for, fulfil, refuse,
}
use digital_services_platfor.Tables.{updated, find-update_where}
use digital_services_platfor.Exec.{Result-cases}
use digital_services_platfor.Stars.{event, owned_row}

-- What one transaction may do to the status of a charge.
abbrev pub can_advance : ChargeStatus → ChargeStatus → Bool
can_advance s ChargeStatus.refunded = true
can_advance ChargeStatus.paid s = true
can_advance ChargeStatus.delivered ChargeStatus.delivered = true
can_advance ChargeStatus.refund_pending ChargeStatus.refund_pending = true
can_advance _ _ = false

-- What it may do to a charge: its status advances, its invoice stays, and an order that it paid
-- for stays too.
abbrev pub Advances : Option StarCharge → Option StarCharge → Type 0
Advances none after = Unit
Advances (some c) none = ⊥
Advances (some c) (some c') =
    (can_advance c.status c'.status ≡ true)
    × (c'.charge_id ≡ c.charge_id)
    × (c'.invoice_id ≡ c.invoice_id)
    × ((c.order_id ≡ none) ⊎ (c'.order_id ≡ c.order_id))

-- The primary key of `star_charges`.
abbrev pub IsKeyed : List StarCharge → Type 0
IsKeyed [] = Unit
IsKeyed (c ∷ cs) = (charge_row c.charge_id cs ≡ none) × IsKeyed cs

charge_row_unique :
    (o : RowId) (c : StarCharge) (cs : List StarCharge)
    → IsKeyed cs
    → charge_for_order o cs ≡ some c
    → charge_row c.charge_id cs ≡ some c
unfolding find
charge_row_unique o c [] k e = cc
charge_row_unique o c (d ∷ cs) k e = ground (arith, charge_row_unique o c cs k.1)

charge_row_id :
    (charge : Text) (c : StarCharge) (cs : List StarCharge)
    → charge_row charge cs ≡ some c
    → c.charge_id ≡ charge
unfolding find
charge_row_id charge c [] e = cc
charge_row_id charge c (d ∷ cs) e = ground (arith, charge_row_id charge c cs)

charge_row-set_status :
    (x y : Text) (s : ChargeStatus) (cs : List StarCharge)
    → charge_row x (update_where (is_charge y) (set_status s) cs)
      ≡ Option.map (updated (is_charge y) (set_status s)) (charge_row x cs)
charge_row-set_status x y s =
    find-update_where (is_charge x) (is_charge y) (set_status s) (λ c. refl)

Advances-refl : (r : Option StarCharge) → Advances r r
Advances-refl none = tt
Advances-refl (some c) = ground arith

set_status-Advances :
    (x y : Text) (s : ChargeStatus) (c : StarCharge) (cs : List StarCharge)
    → charge_row y cs ≡ some c
    → can_advance c.status s ≡ true
    → Advances (charge_row x cs) (charge_row x (update_where (is_charge y) (set_status s) cs))
set_status-Advances x y s c cs e a = rw charge_row-set_status (go (charge_row x cs) refl)
  where
    go :
        (r : Option StarCharge)
        → charge_row x cs ≡ r
        → Advances r (Option.map (updated (is_charge y) (set_status s)) r)
    go none f = tt
    go (some d) f = ground (arith, charge_row_id x d cs f, e, f, a)

insert-Advances :
    (x : Text) (new : StarCharge) (cs : List StarCharge)
    → charge_row new.charge_id cs ≡ none
    → Advances (charge_row x cs) (charge_row x (new ∷ cs))
unfolding find
insert-Advances x new cs e = ground (arith, Advances-refl (charge_row x cs))

insert_update-Advances :
    (x : Text) (new : StarCharge) (f : StarCharge → StarCharge) (cs : List StarCharge)
    → ((c : StarCharge) → (f c).charge_id ≡ c.charge_id)
    → charge_row new.charge_id cs ≡ none
    → Advances
        (charge_row x cs)
        (charge_row x (update_where (is_charge new.charge_id) f (new ∷ cs)))
insert_update-Advances x new f cs keeps e =
    rw
      (find-update_where (is_charge x) (is_charge new.charge_id) f
        (λ c. ap (λ (t : Text). eqb Text-discrete t x) (keeps c)))
      (go (charge_row x cs) refl)
  where
    go :
        (r : Option StarCharge)
        → charge_row x cs ≡ r
        → Advances r (Option.map (updated (is_charge new.charge_id) f) (charge_row x (new ∷ cs)))
    go none h = tt
    go (some d) h = unfold find in ground (arith, charge_row_id x d cs h, e, h)

mark_star_delivery-Advances :
    (o : RowId) (receipt charge : Text) (db : Db)
    → IsKeyed db.star_charges
    → Advances
        (charge_row charge db.star_charges)
        (charge_row charge (mark_star_delivery o receipt db).1.star_charges)
unfolding mark_star_delivery
mark_star_delivery-Advances o receipt charge db k =
    elim (Option-cases (charge_for_order o db.star_charges)) [
      | inl missing ↦ ground (arith, Advances-refl (charge_row charge db.star_charges))
      | inr (c, found) ↦ ground (
        arith,
        Advances-refl (charge_row charge db.star_charges),
        set_status-Advances charge c.charge_id ChargeStatus.delivered c db.star_charges
            (charge_row_unique o c db.star_charges k found),
      )
    ]

request_star_refund-Advances :
    (o : RowId) (charge : Text) (db : Db)
    → IsKeyed db.star_charges
    → Advances
        (charge_row charge db.star_charges)
        (charge_row charge (request_star_refund o db).1.star_charges)
unfolding request_star_refund
request_star_refund-Advances o charge db k =
    elim (Option-cases (charge_for_order o db.star_charges)) [
      | inl missing ↦ ground (arith, Advances-refl (charge_row charge db.star_charges))
      | inr (c, found) ↦ ground (
        arith,
        Advances-refl (charge_row charge db.star_charges),
        set_status-Advances charge c.charge_id ChargeStatus.refund_pending c db.star_charges
            (charge_row_unique o c db.star_charges k found),
      )
    ]

confirm_star_refund-Advances :
    (tg : ℕ) (p : Text) (currency : Currency) (amount : ℕ) (paid charge : Text) (db : Db)
    → Advances
        (charge_row charge db.star_charges)
        (charge_row charge (confirm_star_refund tg p currency amount paid db).1.star_charges)
unfolding confirm_star_refund
confirm_star_refund-Advances tg p currency amount paid charge db =
    elim (Option-cases (charge_row paid db.star_charges)) [
      | inl new ↦
          grind (arith, Advances-refl (charge_row charge db.star_charges), insert-Advances charge)
      | inr (c, known) ↦ ground (
        arith,
        Advances-refl (charge_row charge db.star_charges),
        set_status-Advances charge paid ChargeStatus.refunded c db.star_charges known,
      )
    ]

accept_star_payment-Advances :
    (tg : ℕ) (p : Text) (currency : Currency) (amount : ℕ) (paid : Text) (allow : Bool)
    (slug key : Option Text) (order job now : ℕ) (charge : Text) (db : Db)
    → Advances (charge_row charge db.star_charges) (
        charge_row charge
          (accept_star_payment tg p currency amount paid allow slug key order job now
            db).1.star_charges)
unfolding accept_star_payment event fulfil refuse
accept_star_payment-Advances tg p currency amount paid allow slug key order job now charge db =
    elim (Result-cases (owned_row tg p db)) [
      | inr (e, failed) ↦ ground (arith, Advances-refl (charge_row charge db.star_charges))
      | inl (i, owned) ↦ ground (
        arith,
        Advances-refl (charge_row charge db.star_charges),
        insert_update-Advances charge (new_charge paid i.id ChargeStatus.paid)
            (set_status ChargeStatus.refund_pending) db.star_charges (λ c. refl),
        insert_update-Advances charge (new_charge paid i.id ChargeStatus.paid)
            (charge_paid_for order) db.star_charges (λ c. refl),
      )
    ]

-- The calls that change charges.
pub data StarCall : Type 0 where
  accepts :
      ℕ
      → Text
      → Currency
      → ℕ
      → Text
      → Bool
      → Option Text
      → Option Text
      → RowId
      → RowId
      → ℕ
      → StarCall
  delivers : RowId → Text → StarCall
  requests_refund : RowId → StarCall
  confirms_refund : ℕ → Text → Currency → ℕ → Text → StarCall

-- The charges after a call.
unfoldable pub charges_after : StarCall → Db → List StarCharge
charges_after (accepts tg p currency amount paid allow slug key order job now) db =
    (accept_star_payment tg p currency amount paid allow slug key order job now db).1.star_charges
charges_after (delivers o receipt) db = (mark_star_delivery o receipt db).1.star_charges
charges_after (requests_refund o) db = (request_star_refund o db).1.star_charges
charges_after (confirms_refund tg p currency amount paid) db =
    (confirm_star_refund tg p currency amount paid db).1.star_charges

-- Accepting a payment, delivering an order, and requesting and confirming a refund keep every charge
-- that is recorded, with its invoice and the order that it paid for, and only advance its status:
-- from PAID to DELIVERED or to REFUND_PENDING, and to REFUNDED.
pub star_calls-Advances :
    (c : StarCall) (charge : Text) (db : Db)
    → IsKeyed db.star_charges
    → Advances (charge_row charge db.star_charges) (charge_row charge (charges_after c db))
unfolding charges_after
star_calls-Advances (accepts tg p currency amount paid allow slug key order job now) charge db k =
    accept_star_payment-Advances tg p currency amount paid allow slug key order job now charge db
star_calls-Advances (delivers o receipt) charge db k =
    mark_star_delivery-Advances o receipt charge db k
star_calls-Advances (requests_refund o) charge db k = request_star_refund-Advances o charge db k
star_calls-Advances (confirms_refund tg p currency amount paid) charge db k =
    confirm_star_refund-Advances tg p currency amount paid charge db
