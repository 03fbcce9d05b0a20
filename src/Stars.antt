-- ===== src/Stars.antt =====
-- packages/python/platform_core/stars_payments.py: direct XTR invoices and immutable receipts. The
-- identifiers that `uuid4` makes, the clock `now` and the digest are arguments.
pub mod Payload
pub mod Charges
pub mod Offers
pub mod Receipts
pub mod Lifecycle
pub mod Accepted
pub mod RoundTrip
pub mod Checkout
unfoldable pub use Payload.{payload, invoice_id}
unfoldable pub use Charges.{event, mark_star_delivery, request_star_refund}
use digital_services_platfor.Base.{
  ℕ, zero, suc, ◌+◌, ◌-◌, ◌*◌, ◌≤◌, ◌<◌, min, String, ◌≡◌, refl, sym, ap, ◌∙◌, ◌≢◌, ◌↔◌, ◌⊎◌, inl,
  inr, Bool, true, false, not, ◌&&◌, ◌||◌, Option, none, some, List, [], ◌∷◌, ◌++◌, map, arith, ltb,
  leb, ◌==◌, if◌then◌else◌, eqb, Bool-cases, Option-cases, is_some, length, find, exists,
  count_where, update_where, delete_where, order_by, select, member, distinct,
}
use digital_services_platfor.Int.{
  ℤ, pos, negsuc, ◌+ℤ◌, ◌-ℤ◌, ◌≤ℤ◌, ltb_ℤ, leb_ℤ, ℤ-discrete, int_laws,
}
use digital_services_platfor.Text.{Text, Text-discrete, text, strip, is_empty, uuid_text, uuid_hex}
use digital_services_platfor.Exec.{
  Error, value_error, type_error, insufficient_funds, idempotency_conflict, invalid_settlement,
  payment_mismatch, stars_mismatch, stale_quote, not_found, revision_conflict, transition_rejected,
  update_rejected, unique_violation, provider_error, Result, ok, err, Exec, pure, raise, gets,
  or_raise, transaction, ◌>>=◌, ◌>>◌, raise_if, raise_unless, modify, when, reads,
}
use digital_services_platfor.Schema.{
  Db, RowId, ServiceRow, StarInvoiceRow, Currency, UserRow, Currency-discrete,
}
use digital_services_platfor.Stars.Offers.{
  Offer, is_text, Terms, offer, current_offer, input_digest, is_number, inputs_ready, invoice_terms,
  quoted_stars, max_stars,
}
use digital_services_platfor.Ledger.{lock_wallet}

pub record StarInvoice : Type 0 where
  pub id : RowId
  pub amount_stars : ℕ
  pub order_id : Option RowId
  pub title : Text

-- `wanted and actual != wanted`, as the invoice and the checkout test it.
abbrev pub differs : Option Text → Option Text → Bool
differs none actual = false
differs (some wanted) actual = not (is_empty wanted) && not (is_text actual wanted)

-- `wanted is None or actual == wanted`, as the payment tests it.
abbrev pub agrees : Option Text → Option Text → Bool
agrees none actual = true
agrees (some wanted) actual = is_text actual wanted

abbrev pub filter_differs : Option Text → Option Text → ServiceRow → Bool
filter_differs slug key s = differs slug (some s.slug) || differs key s.processor_key

unfoldable pub invoice_for : RowId → ℕ → List StarInvoiceRow → Option StarInvoiceRow
invoice_for w revision = find λ i. i.workflow_id == w && i.quote_revision == revision

-- `existing and existing["order_id"]`: the early return of an invoice that is paid.
abbrev pub already_ordered : Option StarInvoiceRow → Bool
already_ordered none = false
already_ordered (some i) = is_some i.order_id

abbrev pub as_invoice : Offer → StarInvoiceRow → StarInvoice
as_invoice o i = record {
  id = i.id;
  amount_stars = i.amount_stars;
  order_id = i.order_id;
  title = o.service.name_ar;
}

-- `hashlib.sha256(….encode()).hexdigest()`.
module _ (sha256 : Text → Text) where
  -- The dictionary `offer`, where the workflow has a Stars price.
  abbrev pub new_terms : Offer → ℕ → ℕ → Text → Terms
  new_terms o revision stars terms = record {
    service_id = o.workflow.service_id;
    quote_revision = revision;
    file_ids = o.files;
    amount_stars = stars;
    terms_digest = sha256 terms;
    input_text_digest = input_digest o;
  }

  -- The last test of `create_star_invoice`: a price in range and an offer that still stands.
  unfoldable pub offer_valid : Offer → RowId → ℕ → Text → ℕ → Db → Bool
  offer_valid o u revision terms now db =
      let stars = quoted_stars o in
      leb 1 stars
      && leb stars max_stars
      && is_number o.workflow.quoted_price_stars stars
      && current_offer o (new_terms o revision stars terms) true
      && inputs_ready u o now db

  abbrev pub new_invoice : Offer → RowId → RowId → ℕ → Text → RowId → StarInvoiceRow
  new_invoice o u w revision terms id = record {
    id = id;
    user_id = u;
    workflow_id = w;
    quote_revision = revision;
    service_id = o.workflow.service_id;
    amount_stars = quoted_stars o;
    file_ids = o.files;
    terms_digest = sha256 terms;
    terms_text = terms;
    input_text_digest = input_digest o;
    checkout_query_id = none;
    order_id = none;
  }

  unfoldable pub create_star_invoice :
      RowId → RowId → ℕ → Text → Option Text → Option Text → RowId → ℕ → Exec Db StarInvoice
  unfolding lock_wallet
  create_star_invoice u w revision terms_text slug key payment_id now =
      let terms = strip terms_text in
      do
        raise_if (ltb revision 1 || is_empty terms) (stale_quote "invalid Stars offer")
        transaction (do
          lock_wallet u
          o ← offer u w
          raise_if
              (not (o.workflow.quote_revision == revision) || filter_differs slug key o.service)
              (stale_quote "offer changed")
          existing ← gets (λ db. invoice_for w revision db.star_invoices)
          valid ← gets (offer_valid o u revision terms now)
          raise_unless (already_ordered existing || valid)
              (stale_quote "Stars offer unavailable or changed")
          elim existing [
            | some i ↦ pure (as_invoice o i)
            | none ↦ do
              let i = new_invoice o u w revision terms payment_id
              modify λ db. record db { star_invoices = i ∷ db.star_invoices }
              pure (as_invoice o i)
          ])

abbrev pub of_telegram_user : ℕ → RowId → UserRow → Bool
of_telegram_user tg u r = r.id == u && is_number r.telegram_user_id tg

unfoldable pub invoice_row : RowId → List StarInvoiceRow → Option StarInvoiceRow
unfolding find
invoice_row i = find λ r. r.id == i

abbrev pub owner_checked : ℕ → Option StarInvoiceRow → Db → Result StarInvoiceRow
owner_checked tg none db = err (stars_mismatch "invoice not owned")
owner_checked tg (some i) db =
    if exists (of_telegram_user tg i.user_id) db.users
    then ok i
    else err (stars_mismatch "invoice not owned")

unfoldable pub owned_row : ℕ → Text → Db → Result StarInvoiceRow
unfolding invoice_id invoice_row exists
owned_row tg p db = elim (invoice_id p) [
  | err e ↦ err e
  | ok id ↦ owner_checked tg (invoice_row id db.star_invoices) db
]

abbrev pub owned_invoice : ℕ → Text → Exec Db StarInvoiceRow
owned_invoice tg p = reads (owned_row tg p)

abbrev pub amount_matches : StarInvoiceRow → Currency → ℕ → Bool
amount_matches i currency amount =
    eqb Currency-discrete currency Currency.xtr && amount == i.amount_stars

-- `_amount_matches`
unfoldable pub check_amount : StarInvoiceRow → Currency → ℕ → Exec Db (Unit {0})
check_amount i currency amount =
    raise_unless (amount_matches i currency amount)
      (stars_mismatch "invoice currency or amount mismatch")

abbrev pub unasked_or : Text → Option Text → Bool
unasked_or query none = true
unasked_or query (some q) = eqb Text-discrete q query

-- UNIQUE (checkout_query_id)
abbrev pub query_taken : RowId → Text → StarInvoiceRow → Bool
query_taken i query r = not (r.id == i) && is_text r.checkout_query_id query

unfoldable pub approve_star_checkout :
    ℕ → Text → Currency → ℕ → Text → Text → Option Text → Option Text → ℕ → Exec Db (Unit {0})
unfolding check_amount lock_wallet
approve_star_checkout tg p currency amount query terms slug key now = transaction (do
  i ← owned_invoice tg p
  check_amount i currency amount
  lock_wallet i.user_id
  o ← offer i.user_id i.workflow_id
  ready ← gets (inputs_ready i.user_id o now)
  raise_if
      (filter_differs slug key o.service
        || is_some i.order_id
        || not (eqb Text-discrete i.terms_digest terms)
        || not (unasked_or query i.checkout_query_id)
        || not (current_offer o (invoice_terms i) true)
        || not ready)
      (stars_mismatch "checkout unavailable")
  taken ← gets (λ db. exists (query_taken i.id query) db.star_invoices)
  raise_if taken (unique_violation "star_invoices")
  modify λ db. record db {
    star_invoices =
        update_where (λ r. r.id == i.id) (λ r. record r { checkout_query_id = some query })
          db.star_invoices;
  })
