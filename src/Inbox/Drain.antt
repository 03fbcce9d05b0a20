-- ===== src/Inbox/Drain.antt =====
-- What the processing of the payment inbox has done.
use digital_services_platfor.Base.{
  ℕ, zero, suc, ◌+◌, ◌≡◌, refl, ◌⊎◌, inl, inr, Bool, true, false, Option, some, arith, eqb,
  update_where, Option-cases, Bool-cases, ◌∙◌, ap,
}
use digital_services_platfor.Text.{Text}
use digital_services_platfor.Exec.{ok, Result-cases}
use digital_services_platfor.Inbox.{
  apply_receipt, process_next, process_rounds, next_receipt, returned, mark_receipt, is_update,
}
use digital_services_platfor.Inbox.Pending.{
  UniqueUpdates, UniqueUpdates-marked, pending, marked, pending-marked, next_receipt-pending,
  next_receipt-none,
}
use digital_services_platfor.Schema.{
  RowId, Db, Currency, Receipt, InboxRow, InboxStatus, InboxStatus-discrete,
}
use digital_services_platfor.Stars.{owned_row}
use digital_services_platfor.Stars.Charges.{event}
use digital_services_platfor.Stars.Offers.{offer_row}
use digital_services_platfor.Stars.Receipts.{
  accept_star_payment, confirm_star_refund, fulfil, refuse,
}

accept_star_payment-inbox :
    (tg : ℕ) (p : Text) (currency : Currency) (amount : ℕ) (charge : Text) (allow : Bool)
    (slug key : Option Text) (order job now : ℕ) (db : Db)
    → let (_, db') =
        accept_star_payment tg p currency amount charge allow slug key order job now db in
      db'.payment_inbox ≡ db.payment_inbox
unfolding accept_star_payment fulfil refuse event
accept_star_payment-inbox tg p currency amount charge allow slug key order job now db =
    elim (Result-cases (owned_row tg p db)) [
      | inr (e, failed) ↦ ground arith
      | inl (i, owned) ↦ elim (Option-cases (offer_row i.user_id i.workflow_id db)) [
        | inl no_offer ↦ ground arith
        | inr (o, offered) ↦ ground arith
      ]
    ]

confirm_star_refund-inbox :
    (tg : ℕ) (p : Text) (currency : Currency) (amount : ℕ) (charge : Text) (db : Db)
    → (confirm_star_refund tg p currency amount charge db).1.payment_inbox ≡ db.payment_inbox
unfolding confirm_star_refund
confirm_star_refund-inbox tg p currency amount charge db = elim (Result-cases (owned_row tg p db)) [
  | inr (e, failed) ↦ ground arith
  | inl (i, owned) ↦ ground arith
]

apply_receipt-inbox :
    (e : Receipt) (allow : Bool) (slug key : Option Text) (o job now : ℕ) (db : Db)
    → (apply_receipt e allow slug key o job now db).1.payment_inbox ≡ db.payment_inbox
unfolding apply_receipt
apply_receipt-inbox e allow slug key o job now db = ground (
  arith,
  confirm_star_refund-inbox e.telegram_user_id e.payload e.currency e.amount e.charge_id db,
  accept_star_payment-inbox e.telegram_user_id e.payload e.currency e.amount e.charge_id allow slug
      key o job now db,
)

module _ (bot : ℕ) (allow : Bool) (slug key : Option Text) (now : ℕ) where
  process_next-none :
      (o job : RowId) (db : Db)
      → (process_next bot allow slug key now o job db).0 ≡ ok false
      → (pending bot (process_next bot allow slug key now o job db).1.payment_inbox ≡ 0)
        × (pending bot db.payment_inbox ≡ 0)
  unfolding process_next
  process_next-none o job db e = elim (Option-cases (next_receipt bot db.payment_inbox)) [
    | inl empty ↦ ground (arith, next_receipt-none bot db.payment_inbox empty)
    | inr (r, found) ↦ absurd (ground arith)
  ]

  -- A round that goes on has marked the receipt that came next.
  process_next-marked :
      (o job : RowId) (r : InboxRow) (db : Db)
      → next_receipt bot db.payment_inbox ≡ some r
      → (process_next bot allow slug key now o job db).0 ≡ ok true
      → (status : InboxStatus) × (eqb InboxStatus-discrete status InboxStatus.pending ≡ false)
        × ((process_next bot allow slug key now o job db).1.payment_inbox
            ≡ update_where (is_update bot r.update_id) (marked status now) db.payment_inbox)
  unfolding process_next returned mark_receipt InboxStatus-discrete
  process_next-marked o job r db found e =
      elim (Result-cases (apply_receipt r.event allow slug key o job now db).0) [
        | inl (t, applied) ↦ (
          InboxStatus.done,
          refl,
          ground (arith, apply_receipt-inbox r.event allow slug key o job now db),
        )
        | inr (x, failed) ↦ (
          InboxStatus.rejected,
          refl,
          ground (arith, apply_receipt-inbox r.event allow slug key o job now db),
        )
      ]

  -- A round that goes on leaves one pending receipt less.
  process_next-pending :
      (o job : RowId) (db : Db)
      → UniqueUpdates db.payment_inbox
      → (process_next bot allow slug key now o job db).0 ≡ ok true
      → let rows = (process_next bot allow slug key now o job db).1.payment_inbox in
        (pending bot rows + 1 ≡ pending bot db.payment_inbox) × UniqueUpdates rows
  process_next-pending o job db unique e = elim (Option-cases (next_receipt bot db.payment_inbox)) [
    | inl empty ↦ absurd (unfold process_next in ground arith)
    | inr (r, found) ↦
        let (status, done, same) = process_next-marked o job r db found e in
        rw same (
          pending-marked bot r.update_id now status db.payment_inbox done unique
              (next_receipt-pending bot r db.payment_inbox found),
          UniqueUpdates-marked bot r.update_id now status db.payment_inbox unique,
        )
  ]

  -- In an inbox that has each update of a bot once, a run of at most `n` rounds that returns leaves
  -- as many fewer pending receipts of its bot as it reports; it has gone through `n` rounds, or no
  -- receipt of the bot is pending any more.
  pub process_rounds-drains :
      (n : ℕ) (order_ids job_ids : ℕ → RowId) (count : ℕ) (db : Db)
      → UniqueUpdates db.payment_inbox
      → (process_rounds bot allow slug key now n order_ids job_ids db).0 ≡ ok count
      → let rows = (process_rounds bot allow slug key now n order_ids job_ids db).1.payment_inbox in
        (pending bot rows + count ≡ pending bot db.payment_inbox)
        × ((count ≡ n) ⊎ (pending bot rows ≡ 0))
  unfolding process_rounds
  process_rounds-drains zero order_ids job_ids count db unique e = (ground arith, ground arith)
  process_rounds-drains (suc n) order_ids job_ids count db unique e =
      let first = process_next bot allow slug key now (order_ids n) (job_ids n) db in
      elim (Result-cases first.0) [
        | inr (x, failed) ↦ absurd (ground arith)
        | inl (b, went) ↦ elim (Bool-cases b) [
          | inr over ↦
              let (after, before) =
                process_next-none (order_ids n) (job_ids n) db (went ∙ ap ok over) in
              (ground arith, ground arith)
          | inl on ↦
              let (less, still) =
                process_next-pending (order_ids n) (job_ids n) db unique (went ∙ ap ok on) in
              elim (Result-cases
                (process_rounds bot allow slug key now n order_ids job_ids first.1).0) [
                  | inr (x, failed) ↦ absurd (ground arith)
                  | inl (m, rest) ↦
                      let (total, ended) =
                        process_rounds-drains n order_ids job_ids m first.1 still rest in
                      (ground arith, ground arith)
                ]
        ]
      ]
