-- ===== src/Payments.antt =====
-- packages/python/platform_core/payments.py: wallet top-ups. The provider's adapter, which checks
-- signatures, is outside the program: an event that it returns is an argument here.
pub mod Credits
use digital_services_platfor.Base.{
  ℕ, Bool, true, false, not, ◌&&◌, ◌||◌, Option, none, some, List, [], ◌∷◌, ◌++◌, ltb, leb, ◌==◌,
  if◌then◌else◌, eqb, length, find, exists, update_where,
}
use digital_services_platfor.Int.{ℤ, pos, ℤ-discrete}
use digital_services_platfor.Text.{Text, text, strip, is_empty, uuid_text}
use digital_services_platfor.Exec.{
  value_error, idempotency_conflict, payment_mismatch, Exec, pure, gets, or_raise, transaction,
  ◌>>=◌, ◌>>◌, raise_if, raise_unless, modify,
}
use digital_services_platfor.Ledger.{same_text, Balance, balance, same_kind, credit}
use digital_services_platfor.Schema.{
  Currency-discrete, Db, PaymentEvent, PaymentRow, PaymentStatus, RowId, Currency,
  PaymentStatus-discrete, WalletTransaction, TransactionType,
}
use digital_services_platfor.Stars.Offers.{is_text}

-- `PROVIDER.fullmatch`: `[a-z][a-z0-9_-]{1,39}`.
abbrev pub is_lower : ℕ → Bool
is_lower c = leb b'a' c && leb c b'z'

abbrev pub provider_char : ℕ → Bool
provider_char c = is_lower c || (leb b'0' c && leb c b'9') || c == b'_' || c == b'-'

unfoldable pub all_chars : (ℕ → Bool) → Text → Bool
all_chars p [] = true
all_chars p (c ∷ s) = p c && all_chars p s

unfoldable pub valid_provider : Text → Bool
unfolding all_chars
valid_provider [] = false
valid_provider (c ∷ s) =
    is_lower c && leb 1 (length s) && leb (length s) 39 && all_chars provider_char s

-- `_valid_text`
unfoldable pub valid_text : Text → Bool
valid_text t = not (is_empty t) && leb (length t) 200 && same_text t (strip t)

abbrev pub max_topup : ℕ
max_topup = 10000000

unfoldable pub payment_row : RowId → List PaymentRow → Option PaymentRow
payment_row i = find λ r. r.id == i

abbrev pub is_topup_request : RowId → Text → PaymentRow → Bool
is_topup_request u key r = r.user_id == u && same_text r.client_request_key key

abbrev pub new_payment : RowId → RowId → ℕ → Text → Text → PaymentRow
new_payment id u amount provider key = record {
  id = id;
  user_id = u;
  provider = provider;
  provider_reference = none;
  amount_halalas = amount;
  currency = Currency.sar;
  client_request_key = key;
  status = PaymentStatus.pending;
}

unfoldable pub create_topup_intent : RowId → ℕ → Text → Text → RowId → Exec Db RowId
create_topup_intent u amount provider key payment_id = do
  raise_unless (valid_provider provider && valid_text key) (value_error "invalid top-up identity")
  raise_unless (ltb 0 amount && leb amount max_topup) (value_error "invalid top-up amount")
  transaction (do
    user ← gets (λ db. exists (λ r. r.id == u) db.users)
    raise_unless user (value_error "user missing")
    wallet ← gets (λ db. exists (λ w. w == u) db.wallets)
    raise_unless wallet (value_error "wallet missing")
    existing ← gets (λ db. find (is_topup_request u key) db.payments)
    elim existing [
      | some r ↦ do
        raise_unless (r.amount_halalas == amount && same_text r.provider provider)
            (idempotency_conflict "request key reused for different top-up")
        pure r.id
      | none ↦ do
        modify λ db. record db {
          payments = new_payment payment_id u amount provider key ∷ db.payments;
        }
        pure payment_id
    ])

-- UNIQUE (provider, provider_reference)
abbrev pub reference_taken : PaymentRow → Text → PaymentRow → Bool
reference_taken p reference r =
    not (r.id == p.id) && same_text r.provider p.provider && is_text r.provider_reference reference

-- A unique violation is caught and raised again as a conflict.
unfoldable pub bind_provider_reference : RowId → Text → Exec Db (Unit {0})
bind_provider_reference id reference = do
  raise_unless (valid_text reference) (value_error "invalid provider reference")
  transaction (do
    found ← gets (λ db. payment_row id db.payments)
    p ← or_raise found (value_error "top-up missing")
    elim p.provider_reference [
      | some bound ↦
          raise_unless (same_text bound reference)
            (idempotency_conflict "top-up already bound to another checkout")
      | none ↦ do
        raise_unless (eqb PaymentStatus-discrete p.status PaymentStatus.pending)
            (value_error "top-up is not pending")
        taken ← gets (λ db. exists (reference_taken p reference) db.payments)
        raise_if taken (idempotency_conflict "provider reference is already attached")
        modify λ db. record db {
          payments =
              update_where (λ r. r.id == id) (λ r. record r { provider_reference = some reference })
                db.payments;
        }
    ])

-- `VerifiedTopup`; the amount is the natural number that `amount_halalas` must be.
pub record VerifiedTopup : Type 0 where
  pub provider : Text
  pub event_id : Text
  pub payment_id : RowId
  pub provider_reference : Text
  pub amount_halalas : ℕ
  pub currency : Currency

unfoldable pub event_valid : VerifiedTopup → Bool
event_valid e =
    valid_provider e.provider
    && valid_text e.event_id
    && valid_text e.provider_reference
    && eqb Currency-discrete e.currency Currency.sar
    && ltb 0 e.amount_halalas

unfoldable pub event_matches : VerifiedTopup → PaymentRow → Bool
event_matches e p =
    same_text p.provider e.provider
    && is_text p.provider_reference e.provider_reference
    && p.amount_halalas == e.amount_halalas
    && eqb Currency-discrete p.currency e.currency
    && not (eqb PaymentStatus-discrete p.status PaymentStatus.failed)

abbrev pub is_event : VerifiedTopup → PaymentEvent → Bool
is_event e r = same_text r.provider e.provider && same_text r.event_id e.event_id

abbrev pub same_event_data : VerifiedTopup → PaymentEvent → Bool
same_event_data e r =
    r.payment_id == e.payment_id
    && same_text r.provider_reference e.provider_reference
    && r.amount_halalas == e.amount_halalas
    && eqb Currency-discrete r.currency e.currency

abbrev pub event_row : VerifiedTopup → PaymentEvent
event_row e = record {
  provider = e.provider;
  event_id = e.event_id;
  payment_id = e.payment_id;
  provider_reference = e.provider_reference;
  amount_halalas = e.amount_halalas;
  currency = e.currency;
}

-- INSERT … ON CONFLICT DO NOTHING, and the comparison with the earlier row of that event.
unfoldable pub record_event : VerifiedTopup → Exec Db (Unit {0})
record_event e = do
  prior ← gets (λ db. find (is_event e) db.payment_events)
  elim prior [
    | none ↦ modify λ db. record db { payment_events = event_row e ∷ db.payment_events }
    | some r ↦
        raise_unless (same_event_data e r)
          (payment_mismatch "provider event id reused with different data")
  ]

abbrev pub payment_key : RowId → Text
payment_key id = text "payment:" ++ uuid_text id

abbrev pub is_credit : RowId → Text → ℤ → WalletTransaction → Bool
is_credit u key amount t =
    t.wallet_user_id == u
    && same_text t.idempotency_key key
    && same_kind t.transaction_type TransactionType.top_up
    && eqb ℤ-discrete t.amount_halalas amount

abbrev pub payment_is : PaymentStatus → PaymentRow → Bool
payment_is status p = eqb PaymentStatus-discrete p.status status

unfoldable pub set_paid : RowId → Exec Db (Unit {0})
set_paid id = modify λ db. record db {
  payments =
      update_where (λ r. r.id == id) (λ r. record r { status = PaymentStatus.paid }) db.payments;
}

-- The credit of a top-up whose event is recorded, or the check of the earlier credit.
unfoldable pub credit_topup : VerifiedTopup → PaymentRow → Exec Db Balance
credit_topup e p =
    if payment_is PaymentStatus.paid p
    then (do
      credited ← gets (λ db.
          exists (is_credit p.user_id (payment_key e.payment_id) (pos e.amount_halalas))
            db.wallet_transactions)
      raise_unless credited (payment_mismatch "paid top-up missing matching ledger entry")
      balance p.user_id)
    else (do
      updated ←
          credit p.user_id (pos e.amount_halalas) (payment_key e.payment_id) TransactionType.top_up
            none
      set_paid e.payment_id
      pure updated)

unfoldable pub apply_verified_topup : VerifiedTopup → Exec Db Balance
apply_verified_topup e = do
  raise_unless (event_valid e) (payment_mismatch "invalid verified event")
  transaction (do
    found ← gets (λ db. payment_row e.payment_id db.payments)
    p ← or_raise found (payment_mismatch "paid event does not match a pending top-up")
    raise_unless (event_matches e p) (payment_mismatch "paid event does not match a pending top-up")
    record_event e
    credit_topup e p)

-- `accept_verified_webhook`, where `verify` is the provider's adapter: it returns no event for a
-- request that it does not accept.
module _ {Request : Type 0} (verify : Request → Option VerifiedTopup) where
  unfoldable pub accept_verified_webhook : Request → Exec Db Balance
  accept_verified_webhook request = do
    e ← or_raise (verify request) (payment_mismatch "unverified payment event")
    apply_verified_topup e
