-- ===== src/Summaries/Execution.antt =====
-- The execution of a paid summary, and its refund.
use digital_services_platfor.Base.{
  ℕ, ◌≡◌, refl, ap, inl, inr, true, ◌&&◌, Option, none, some, List, [], ◌∷◌, arith, ◌==◌,
  Option-cases, is_some, find, exists,
}
use digital_services_platfor.Exec.{ok, Result, err, Error, Result-cases}
use digital_services_platfor.Schema.{RowId, Db, ChargeStatus, OrderRow, OrderStatus, UserRow}
use digital_services_platfor.Summaries.{
  working, owned_order, customer_order, summary_order, SummaryOrder, fail_summary, refundable,
  begin_summary, execute_summary, checked, attempt_summary,
}
use digital_services_platfor.Ledger.{order_row, for_order}
use digital_services_platfor.Stars.Charges.{
  charge_for_order, request_star_refund, is_charge, set_status,
}
use digital_services_platfor.Tables.{find_sound, find-update_where}
use digital_services_platfor.Orders.Insert.{set_order_status}
use digital_services_platfor.Stars.{of_telegram_user}
use digital_services_platfor.Text.{Text}

abbrev pub status_of : RowId → Db → Option OrderStatus
status_of o db = elim (order_row o db.orders) [ none ↦ none | some r ↦ some r.status ]

abbrev pub charge_status_of : RowId → Db → Option ChargeStatus
charge_status_of o db = elim (charge_for_order o db.star_charges) [
  | none ↦ none
  | some c ↦ some c.status
]

-- An order that has failed, with its charge set aside for a refund.
abbrev pub Refunding : RowId → Db → Type 0
Refunding o db =
    (status_of o db ≡ some OrderStatus.failed)
    × (charge_status_of o db ≡ some ChargeStatus.refund_pending)

customer_order-id :
    (tg : Option ℕ) (o : RowId) (r : OrderRow) (db : Db)
    → customer_order tg o db ≡ some r
    → r.id ≡ o
unfolding customer_order
customer_order-id none o r db e = cc
customer_order-id (some tg) o r db e = ground (
  arith,
  find_sound (λ r. r.id == o && exists (of_telegram_user tg r.user_id) db.users) r db.orders e,
)

order_row-customer :
    (o tg : ℕ) (users : List UserRow) (r : OrderRow) (rs : List OrderRow)
    → find (λ r. r.id == o && exists (of_telegram_user tg r.user_id) users) rs ≡ some r
    → is_some (order_row o rs) ≡ true
unfolding order_row find
order_row-customer o tg users r [] e = cc
order_row-customer o tg users r (x ∷ rs) e = ground (arith, order_row-customer o tg users r rs)

customer_order_known :
    (tg : Option ℕ) (o : RowId) (r : OrderRow) (db : Db)
    → customer_order tg o db ≡ some r
    → is_some (order_row o db.orders) ≡ true
unfolding customer_order
customer_order_known none o r db e = cc
customer_order_known (some tg) o r db e = order_row-customer o tg db.users r db.orders e

summary_order-charge :
    (r : OrderRow) (now : ℕ) (s : SummaryOrder) (db : Db)
    → summary_order r now db ≡ some s
    → (charge_status_of r.id db ≡ some s.charge_status) × (s.order ≡ r)
unfolding summary_order
summary_order-charge r now s db e = ground arith

-- A row found by `owned_order` has the state of the order's charge, and the order is there.
pub owned_order_sound :
    (tg : Option ℕ) (o : RowId) (now : ℕ) (s : SummaryOrder) (db : Db)
    → (owned_order tg o now db).0 ≡ ok s
    → (charge_status_of o db ≡ some s.charge_status)
      × (is_some (order_row o db.orders) ≡ true)
      × (s.order.id ≡ o)
unfolding owned_order
owned_order_sound tg o now s db e = elim (Option-cases (customer_order tg o db)) [
  | inl missing ↦ ground arith
  | inr (r, found) ↦
      let same = customer_order-id tg o r db found in
      ground (
        arith,
        same,
        ap (λ k. charge_status_of k db) same,
        customer_order_known tg o r db found,
        summary_order-charge r now s db,
      )
]

pub owned_order-frame :
    (tg : Option ℕ) (o : RowId) (now : ℕ) (db : Db) → (owned_order tg o now db).1 ≡ db
unfolding owned_order
owned_order-frame tg o now db = ground arith

pub status_of-set_order_status :
    (o : RowId) (status : OrderStatus) (db : Db)
    → is_some (order_row o db.orders) ≡ true
    → status_of o (set_order_status o status db).1 ≡ some status
unfolding set_order_status order_row
status_of-set_order_status o status db known =
    elim (Option-cases (find (λ r. r.id == o) db.orders)) [
      | inl missing ↦ ground arith
      | inr (r, found) ↦ ground (
        arith,
        find_sound (λ r. r.id == o) r db.orders found,
        find-update_where (λ r. r.id == o) (λ r. r.id == o) (λ r. record r { status = status })
            (λ r. refl) db.orders,
      )
    ]

request_star_refund-pending :
    (o : RowId) (db : Db)
    → charge_status_of o db ≡ some ChargeStatus.paid
    → ((request_star_refund o db).0 ≡ ok tt)
      × (charge_status_of o (request_star_refund o db).1 ≡ some ChargeStatus.refund_pending)
      × ((request_star_refund o db).1.orders ≡ db.orders)
unfolding request_star_refund
request_star_refund-pending o db paid = elim (Option-cases (charge_for_order o db.star_charges)) [
  | inl missing ↦ ground arith
  | inr (c, found) ↦ ground (
    arith,
    find-update_where (λ c. for_order o c.order_id) (is_charge c.charge_id)
        (set_status ChargeStatus.refund_pending) (λ c. refl) db.star_charges,
  )
]

-- A paid summary that has not ended, and fails, is refunded: the call returns, the order is FAILED
-- and a refund of its charge is requested.
pub fail_summary-Refunding :
    (tg : Option ℕ) (o : RowId) (now : ℕ) (s : SummaryOrder) (db : Db)
    → (owned_order tg o now db).0 ≡ ok s
    → refundable s.order.status ≡ true
    → s.charge_status ≡ ChargeStatus.paid
    → ((fail_summary tg o now db).0 ≡ ok tt) × Refunding o (fail_summary tg o now db).1
unfolding fail_summary set_order_status
fail_summary-Refunding tg o now s db owned open_order paid =
    let failed = (set_order_status o OrderStatus.failed db).1 in
    ground (
      arith,
      owned_order-frame tg o now db,
      owned_order_sound tg o now s db owned,
      status_of-set_order_status o OrderStatus.failed db,
      request_star_refund-pending o failed,
    )

-- A joined row with that state of the charge and of the order.
abbrev Carries : ChargeStatus → OrderStatus → Option SummaryOrder → Type 0
Carries charge status none = ⊥
Carries charge status (some s) = (s.charge_status ≡ charge) × (s.order.status ≡ status)

summary_order-status :
    (r : OrderRow) (now later : ℕ) (status : OrderStatus) (s : SummaryOrder)
    (orders : List OrderRow) (db : Db)
    → summary_order r now db ≡ some s
    → Carries s.charge_status status
        (summary_order (record r { status = status }) later (record db { orders = orders }))
unfolding summary_order
summary_order-status r now later status s orders db e = ground arith

customer_order-status :
    (tg : Option ℕ) (o : RowId) (status : OrderStatus) (r : OrderRow) (db : Db)
    → customer_order tg o db ≡ some r
    → customer_order tg o (set_order_status o status db).1 ≡ some (record r { status = status })
unfolding customer_order set_order_status
customer_order-status none o status r db e = cc
customer_order-status (some tg) o status r db e = ground (
  arith,
  find_sound (λ x. x.id == o && exists (of_telegram_user tg x.user_id) db.users) r db.orders e,
  find-update_where (λ x. x.id == o && exists (of_telegram_user tg x.user_id) db.users)
      (λ x. x.id == o) (λ x. record x { status = status }) (λ x. refl) db.orders,
)

-- The same of a result that may have raised.
abbrev Found : ChargeStatus → OrderStatus → Result SummaryOrder → Type 0
Found charge status (err x) = ⊥
Found charge status (ok s) = (s.charge_status ≡ charge) × (s.order.status ≡ status)

-- `owned_order` finds the order again after its status is set, at any clock.
owned_order-status :
    (tg : Option ℕ) (o : RowId) (now later : ℕ) (status : OrderStatus) (s : SummaryOrder) (db : Db)
    → (owned_order tg o now db).0 ≡ ok s
    → Found s.charge_status status (owned_order tg o later (set_order_status o status db).1).0
unfolding owned_order
owned_order-status tg o now later status s db e = elim (Option-cases (customer_order tg o db)) [
  | inl missing ↦ ground arith
  | inr (r, found) ↦
      let orders = (set_order_status o status db).1.orders in
      unfold set_order_status in
      ground (
        arith,
        customer_order-status tg o status r db found,
        summary_order-status r now later status s orders db,
      )
]

attempt_summary-working :
    (tg o now : ℕ) (source : Text) (retention : ℕ) (s : SummaryOrder) (db : Db)
    → (attempt_summary tg o now s db).0 ≡ ok (working source retention)
    → ((attempt_summary tg o now s db).1 ≡ (set_order_status o OrderStatus.processing db).1)
      × (s.charge_status ≡ ChargeStatus.paid)
unfolding attempt_summary set_order_status
attempt_summary-working tg o now source retention s db e = ground arith

abbrev IsPaid : Result SummaryOrder → Type 0
IsPaid (err x) = ⊥
IsPaid (ok s) = s.charge_status ≡ ChargeStatus.paid

begin_summary-working :
    (tg o now : ℕ) (source : Text) (retention : ℕ) (db : Db)
    → (begin_summary tg o now db).0 ≡ ok (working source retention)
    → ((begin_summary tg o now db).1 ≡ (set_order_status o OrderStatus.processing db).1)
      × IsPaid (owned_order (some tg) o now db).0
unfolding begin_summary
begin_summary-working tg o now source retention db e =
    elim (Result-cases (owned_order (some tg) o now db).0) [
      | inr (x, failed) ↦ ground arith
      | inl (s, owned) ↦ ground (
        arith,
        owned_order-frame (some tg) o now db,
        attempt_summary-working tg o now source retention s db,
      )
    ]

-- If the provider fails a paid summary, or its answer is no valid summary, the execution raises
-- that error, the order is FAILED and a refund of its charge is requested.
pub execute_summary_provider_error :
    (summarize : Text → Result Text) (tg o now later : ℕ) (source : Text) (retention : ℕ)
    (x : Error) (db : Db)
    → (begin_summary tg o now db).0 ≡ ok (working source retention)
    → checked (summarize source) ≡ err x
    → ((execute_summary summarize tg o now later db).0 ≡ err x)
      × Refunding o (execute_summary summarize tg o now later db).1
unfolding execute_summary
execute_summary_provider_error summarize tg o now later source retention x db begun failed =
    let db1 = (set_order_status o OrderStatus.processing db).1 in
    let (moved, at_start) = begin_summary-working tg o now source retention db begun in
    elim (Result-cases (owned_order (some tg) o now db).0) [
      | inr (y, raised) ↦ ground arith
      | inl (s, owned) ↦ elim (Result-cases (owned_order (some tg) o later db1).0) [
        | inr (y, raised) ↦
            ground
              (arith, owned_order-status (some tg) o now later OrderStatus.processing s db owned)
        | inl (s', again) ↦ ground (
          arith,
          owned_order-status (some tg) o now later OrderStatus.processing s db owned,
          fail_summary-Refunding (some tg) o later s' db1 again,
        )
      ]
    ]
