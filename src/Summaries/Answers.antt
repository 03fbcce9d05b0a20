-- ===== src/Summaries/Answers.antt =====
-- The delivery of a summary.
use digital_services_platfor.Base.{
  ℕ, ◌≤◌, ◌≡◌, refl, inl, inr, true, none, some, arith, ◌==◌, Option-cases, is_some, length, find,
}
use digital_services_platfor.Text.{Text}
use digital_services_platfor.Exec.{ok}
use digital_services_platfor.Schema.{RowId, Db, OrderStatus-discrete, ChargeStatus, OrderStatus}
use digital_services_platfor.Stars.Charges.{
  mark_star_delivery, charge_for_order, is_charge, set_status,
}
use digital_services_platfor.Orders.{complete_order}
use digital_services_platfor.Summaries.{acknowledge_summary, SummaryOrder, owned_order}
use digital_services_platfor.Ledger.{order_row, for_order}
use digital_services_platfor.Summaries.Execution.{
  charge_status_of, status_of, owned_order-frame, owned_order_sound,
}
use digital_services_platfor.Tables.{find-update_where, find_sound}

-- What has become of an order that is delivered with a receipt.
abbrev pub Delivered : RowId → Text → Db → Type 0
Delivered o receipt db =
    (elim (order_row o db.orders) [ none ↦ none | some r ↦ r.delivery_receipt ] ≡ some receipt)
    × (status_of o db ≡ some OrderStatus.completed)
    × (charge_status_of o db ≡ some ChargeStatus.delivered)

mark_star_delivery-delivered :
    (o : RowId) (receipt : Text) (db : Db)
    → charge_status_of o db ≡ some ChargeStatus.paid
    → ((mark_star_delivery o receipt db).0 ≡ ok tt)
      × (charge_status_of o (mark_star_delivery o receipt db).1 ≡ some ChargeStatus.delivered)
      × ((mark_star_delivery o receipt db).1.orders ≡ db.orders)
unfolding mark_star_delivery
mark_star_delivery-delivered o receipt db paid =
    elim (Option-cases (charge_for_order o db.star_charges)) [
      | inl missing ↦ ground arith
      | inr (c, found) ↦ ground (
        arith,
        find-update_where (λ c. for_order o c.order_id) (is_charge c.charge_id)
            (set_status ChargeStatus.delivered) (λ c. refl) db.star_charges,
      )
    ]

order_row-complete_order :
    (o : RowId) (receipt : Text) (db : Db)
    → is_some (order_row o db.orders) ≡ true
    → let db' = (complete_order o receipt db).1 in
      (elim (order_row o db'.orders) [ none ↦ none | some r ↦ r.delivery_receipt ] ≡ some receipt)
      × (status_of o db' ≡ some OrderStatus.completed)
      × (db'.star_charges ≡ db.star_charges)
      × ((complete_order o receipt db).0 ≡ ok tt)
unfolding complete_order order_row
order_row-complete_order o receipt db known =
    elim (Option-cases (find (λ r. r.id == o) db.orders)) [
      | inl missing ↦ ground arith
      | inr (r, found) ↦ ground (
        arith,
        find_sound (λ r. r.id == o) r db.orders found,
        find-update_where (λ r. r.id == o) (λ r. r.id == o)
            (λ r. record r { status = OrderStatus.completed; delivery_receipt = some receipt })
            (λ r. refl) db.orders,
      )
    ]

-- A paid summary whose result is there can be acknowledged with a receipt of 1 to 200 characters:
-- the call returns, the order is COMPLETED with the receipt and its charge is DELIVERED.
pub acknowledge_summary-Delivered :
    (tg o now : ℕ) (receipt : Text) (s : SummaryOrder) (db : Db)
    → (owned_order (some tg) o now db).0 ≡ ok s
    → s.order.status ≡ OrderStatus.awaiting_fulfillment
    → s.charge_status ≡ ChargeStatus.paid
    → s.result_available ≡ true
    → 1 ≤ length receipt
    → length receipt ≤ 200
    → ((acknowledge_summary tg o receipt now db).0 ≡ ok tt)
      × Delivered o receipt (acknowledge_summary tg o receipt now db).1
unfolding acknowledge_summary OrderStatus-discrete
acknowledge_summary-Delivered tg o now receipt s db owned ready paid result low high =
    let marked = (mark_star_delivery o receipt db).1 in
    ground (
      arith,
      owned_order-frame (some tg) o now db,
      owned_order_sound (some tg) o now s db owned,
      mark_star_delivery-delivered o receipt db,
      order_row-complete_order o receipt marked,
    )
