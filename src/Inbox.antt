-- ===== src/Inbox.antt =====
-- packages/python/platform_core/stars_inbox.py: payment updates of Telegram are kept before they
-- are acknowledged, and processed from the database. The draws of `uuid4`, which depend on the
-- round, are arguments.
pub mod Pending
pub mod Drain
use digital_services_platfor.Base.{
  ℕ, zero, suc, ◌+◌, ◌-◌, ◌*◌, ◌≤◌, ◌<◌, min, String, ◌≡◌, refl, sym, ap, ◌∙◌, ◌≢◌, ◌↔◌, ◌⊎◌, inl,
  inr, Bool, true, false, not, ◌&&◌, ◌||◌, Option, none, some, List, [], ◌∷◌, ◌++◌, map, arith, ltb,
  leb, ◌==◌, if◌then◌else◌, eqb, Bool-cases, Option-cases, is_some, length, find, exists,
  count_where, update_where, delete_where, order_by, select, member, distinct,
}
use digital_services_platfor.Int.{
  ℤ, pos, negsuc, ◌+ℤ◌, ◌-ℤ◌, ◌≤ℤ◌, ltb_ℤ, leb_ℤ, ℤ-discrete, int_laws,
}
use digital_services_platfor.Text.{Text, Text-discrete, text, strip, is_empty, uuid_text, uuid_hex}
use digital_services_platfor.Exec.{
  Error, value_error, type_error, insufficient_funds, idempotency_conflict, invalid_settlement,
  payment_mismatch, stars_mismatch, stale_quote, not_found, revision_conflict, transition_rejected,
  update_rejected, unique_violation, provider_error, Result, ok, err, Exec, pure, raise, gets,
  or_raise, transaction, ◌>>=◌, ◌>>◌, raise_if, raise_unless, modify, when,
}
use digital_services_platfor.Schema.{
  Currency, Db, InboxRow, InboxStatus, Receipt, RowId, InboxStatus-discrete, ReceiptKind,
}
use digital_services_platfor.Stars.Offers.{is_number}
use digital_services_platfor.Stars.Receipts.{confirm_star_refund, accept_star_payment}

-- `message.successful_payment` or `message.refunded_payment`.
pub record Payment : Type 0 where
  pub invoice_payload : Text
  pub currency : Currency
  pub total_amount : ℕ
  pub telegram_payment_charge_id : Text

-- The fields that are read of an update; `from_user` is the sender, if there is one.
pub record Message : Type 0 where
  pub private_chat : Bool
  pub chat_id : ℕ
  pub from_user : Option ℕ
  pub successful_payment : Option Payment
  pub refunded_payment : Option Payment

abbrev pub first_payment : Message → Option Payment
first_payment m = elim m.successful_payment [ some p ↦ some p | none ↦ m.refunded_payment ]

abbrev pub payer : Message → Option ℕ
payer m = if is_some m.refunded_payment then some m.chat_id else m.from_user

abbrev pub receipt_of : Message → Payment → Receipt
receipt_of m p = record {
  kind = if is_some m.refunded_payment then ReceiptKind.refunded else ReceiptKind.paid;
  telegram_user_id = m.chat_id;
  payload = p.invoice_payload;
  currency = p.currency;
  amount = p.total_amount;
  charge_id = p.telegram_payment_charge_id;
}

abbrev pub is_update : ℕ → ℕ → InboxRow → Bool
is_update bot update r = r.bot_id == bot && r.update_id == update

-- INSERT INTO telegram_payment_inbox … ON CONFLICT (bot_id,update_id) DO NOTHING
unfoldable pub insert_receipt : ℕ → ℕ → Receipt → ℕ → Exec Db (Unit {0})
insert_receipt bot update event now = modify λ db.
    if exists (is_update bot update) db.payment_inbox then db else record db {
      payment_inbox =
          record {
            bot_id = bot;
            update_id = update;
            event = event;
            status = InboxStatus.pending;
            attempted_at = none;
            created_at = now;
          }
          ∷ db.payment_inbox;
    }

-- The message of an update is optional.
unfoldable pub persist_payment_update : ℕ → ℕ → Option Message → ℕ → Exec Db (Unit {0})
persist_payment_update bot update none now = pure tt
persist_payment_update bot update (some m) now =
    if m.private_chat
    then elim (first_payment m) [
      | none ↦ pure tt
      | some p ↦ do
        raise_unless (is_number (payer m) m.chat_id)
            (stars_mismatch "payment sender and private chat differ")
        insert_receipt bot update (receipt_of m p) now
    ]
    else pure tt

abbrev pub is_pending : ℕ → InboxRow → Bool
is_pending bot r = r.bot_id == bot && eqb InboxStatus-discrete r.status InboxStatus.pending

-- COALESCE(attempted_at,created_at)
abbrev pub queued_at : InboxRow → ℕ
queued_at r = elim r.attempted_at [ none ↦ r.created_at | some t ↦ t ]

-- The first of the pending rows by that time, and by `update_id` where it is the same.
unfoldable pub next_receipt : ℕ → List InboxRow → Option InboxRow
next_receipt bot rows =
    find (is_pending bot) (order_by queued_at (order_by (λ r. r.update_id) rows))

unfoldable pub apply_receipt :
    Receipt → Bool → Option Text → Option Text → RowId → RowId → ℕ → Exec Db (Unit {0})
apply_receipt e allow slug key order_id job_id now = elim e.kind [
  | ReceiptKind.refunded ↦
      confirm_star_refund e.telegram_user_id e.payload e.currency e.amount e.charge_id
  | ReceiptKind.paid ↦
      accept_star_payment e.telegram_user_id e.payload e.currency e.amount e.charge_id allow slug
        key order_id job_id now
      >>= λ _. pure tt
]

-- `try: … except StarsMismatch: … else: …`, as whether the block has returned.
unfoldable pub returned : Exec Db (Unit {0}) → Exec Db Bool
returned m db =
    let (r, db') = m db in
    elim r [
      | ok a ↦ (ok true, db')
      | err e ↦ elim e [ stars_mismatch s ↦ (ok false, db') | failed ↦ (err failed, db') ]
    ]

unfoldable pub mark_receipt : ℕ → ℕ → InboxStatus → ℕ → Exec Db (Unit {0})
mark_receipt bot update status now = modify λ db. record db {
  payment_inbox =
      update_where (is_update bot update)
        (λ r. record r { status = status; attempted_at = some now }) db.payment_inbox;
}

module _ (bot : ℕ) (allow : Bool) (slug key : Option Text) (now : ℕ) where
  -- One round of the loop: false is the `break`.
  unfoldable pub process_next : RowId → RowId → Exec Db Bool
  process_next order_id job_id = transaction (do
    found ← gets (λ db. next_receipt bot db.payment_inbox)
    elim found [
      | none ↦ pure false
      | some r ↦ do
        accepted ← returned (transaction (apply_receipt r.event allow slug key order_id job_id now))
        mark_receipt bot r.update_id (if accepted then InboxStatus.done else InboxStatus.rejected)
            now
        pure true
    ])

  -- At most `rounds` rounds.
  unfoldable pub process_rounds : ℕ → (ℕ → RowId) → (ℕ → RowId) → Exec Db ℕ
  process_rounds zero order_ids job_ids = pure 0
  process_rounds (suc n) order_ids job_ids =
      let rest = process_rounds n order_ids job_ids in
      do
        processed ← process_next (order_ids n) (job_ids n)
        if processed then (do count ← rest; pure (count + 1)) else pure 0

  unfoldable pub process_payment_inbox : (ℕ → RowId) → (ℕ → RowId) → Exec Db ℕ
  process_payment_inbox order_ids job_ids = process_rounds 20 order_ids job_ids
