-- ===== src/Payments/Credits.antt =====
-- Top-ups and the events that pay for them, sent once or again.
use mathlib.Core.Option
use digital_services_platfor.Base.{
  ◌≡◌, refl, inl, inr, true, none, some, List, [], ◌∷◌, arith, ◌==◌, Option-cases, find, exists,
}
use digital_services_platfor.Int.{ℤ, pos}
use digital_services_platfor.Text.{Text}
use digital_services_platfor.Exec.{ok}
use digital_services_platfor.Payments.{
  apply_verified_topup, record_event, credit_topup, VerifiedTopup, payment_row, same_event_data,
  set_paid, event_row, is_credit, payment_key, event_matches,
}
use digital_services_platfor.Ledger.{credit, Balance, balance, key_row, same_key, balances}
use digital_services_platfor.Schema.{
  Db, Currency-discrete, RowId, PaymentRow, PaymentStatus, TransactionType-discrete,
  WalletTransaction, TransactionType, PaymentStatus-discrete,
}
use digital_services_platfor.Tables.{updated, find-update_where, find_sound}

-- The row of a payment after it is paid.
payment_row-set_paid :
    (id : RowId) (db : Db)
    → payment_row id (set_paid id db).1.payments
      ≡ Option.map
          (updated (λ r. r.id == id) (λ r. record r { status = PaymentStatus.paid }))
          (payment_row id db.payments)
unfolding payment_row set_paid
payment_row-set_paid id db =
    find-update_where (λ r. r.id == id) (λ r. r.id == id)
      (λ r. record r { status = PaymentStatus.paid }) (λ r. refl) db.payments

same_event_data_refl : (e : VerifiedTopup) → same_event_data e (event_row e) ≡ true
unfolding Currency-discrete
same_event_data_refl e = ground arith

record_event-payments : (e : VerifiedTopup) (db : Db) → (record_event e db).1.payments ≡ db.payments
unfolding record_event
record_event-payments e db = ground arith

-- An event that is recorded is recorded again without effect.
record_event_repeat :
    (e : VerifiedTopup) (db db' : Db)
    → (record_event e db).0 ≡ ok tt
    → db'.payment_events ≡ (record_event e db).1.payment_events
    → record_event e db' ≡ (ok tt, db')
unfolding record_event find
record_event_repeat e db db' recorded same = ground (arith, same_event_data_refl e)

key_row-is_credit :
    (u : RowId) (key : Text) (amount : ℤ) (t : WalletTransaction) (ts : List WalletTransaction)
    → key_row u key ts ≡ some t
    → t.transaction_type ≡ TransactionType.top_up
    → t.amount_halalas ≡ amount
    → exists (is_credit u key amount) ts ≡ true
unfolding key_row exists
key_row-is_credit u key amount t [] e kind same = cc
key_row-is_credit u key amount t (x ∷ ts) e kind same =
    ground (arith, key_row-is_credit u key amount t ts)

-- A top-up that was credited is in the wallet, which is all that has changed.
credit-is_credit :
    (u : RowId) (amount : ℤ) (key : Text) (b : Balance) (db : Db)
    → (credit u amount key TransactionType.top_up none db).0 ≡ ok b
    → let db' = (credit u amount key TransactionType.top_up none db).1 in
      (exists (is_credit u key amount) db'.wallet_transactions ≡ true)
      × (b ≡ balances u db')
      × (db'.payments ≡ db.payments)
      × (db'.payment_events ≡ db.payment_events)
unfolding credit same_key balance exists TransactionType-discrete
credit-is_credit u amount key b db e = elim (Option-cases (key_row u key db.wallet_transactions)) [
  | inl fresh ↦ ground arith
  | inr (t, found) ↦ ground (arith, key_row-is_credit u key amount t db.wallet_transactions found)
]

abbrev paid_row : PaymentRow → PaymentRow
paid_row p = record p { status = PaymentStatus.paid }

-- A credited top-up is paid, is in the wallet, and keeps its event.
credit_topup-paid :
    (e : VerifiedTopup) (p : PaymentRow) (b : Balance) (db : Db)
    → payment_row e.payment_id db.payments ≡ some p
    → (credit_topup e p db).0 ≡ ok b
    → let db' = (credit_topup e p db).1 in
      (payment_row e.payment_id db'.payments ≡ some (paid_row p))
      × (exists
            (is_credit p.user_id (payment_key e.payment_id) (pos e.amount_halalas))
            db'.wallet_transactions
          ≡ true)
      × (b ≡ balances p.user_id db')
      × (db'.payment_events ≡ db.payment_events)
unfolding credit_topup balance set_paid payment_row
credit_topup-paid e p b db found credited =
    let key = payment_key e.payment_id in
    let amount = pos e.amount_halalas in
    let after = (credit p.user_id amount key TransactionType.top_up none db).1 in
    ground (
      arith,
      find_sound (λ r. r.id == e.payment_id) p db.payments found,
      credit-is_credit p.user_id amount key b db,
      payment_row-set_paid e.payment_id after,
    )

credit_topup_repeat :
    (e : VerifiedTopup) (p : PaymentRow) (db : Db)
    → exists
        (is_credit p.user_id (payment_key e.payment_id) (pos e.amount_halalas))
        db.wallet_transactions
      ≡ true
    → credit_topup e (paid_row p) db ≡ (ok (balances p.user_id db), db)
unfolding credit_topup balance PaymentStatus-discrete
credit_topup_repeat e p db credited = ground arith

event_matches-paid_row :
    (e : VerifiedTopup) (p : PaymentRow)
    → event_matches e p ≡ true
    → event_matches e (paid_row p) ≡ true
unfolding event_matches PaymentStatus-discrete
event_matches-paid_row e p matched = ground arith

-- An event that was applied is applied again without effect: it returns the same balance and
-- changes nothing.
pub apply_verified_topup_repeat :
    (e : VerifiedTopup) (b : Balance) (db db' : Db)
    → apply_verified_topup e db ≡ (ok b, db')
    → apply_verified_topup e db' ≡ (ok b, db')
unfolding apply_verified_topup
apply_verified_topup_repeat e b db db' applied =
    elim (Option-cases (payment_row e.payment_id db.payments)) [
      | inl missing ↦ ground arith
      | inr (p, found) ↦
          let recorded = (record_event e db).1 in
          ground (
            arith,
            record_event-payments e db,
            record_event_repeat e db db',
            credit_topup-paid e p b recorded,
            credit_topup_repeat e p db',
            event_matches-paid_row e p,
          )
    ]
