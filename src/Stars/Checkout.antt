-- ===== src/Stars/Checkout.antt =====
-- The way of an invoice from the offer to its row.
use digital_services_platfor.Base.{
  ◌⊎◌, inl, inr, true, is_some, Bool-cases, ◌≤◌, ℕ, ◌≡◌, refl, Option, List, arith, find, ◌∷◌, some,
  none,
}
use digital_services_platfor.Text.{Text, strip}
use digital_services_platfor.Exec.{ok, Result, err}
use digital_services_platfor.Stars.Offers.{
  quoted_stars, input_digest, current_offer, inputs_ready, offer_row, Offer,
}
use digital_services_platfor.Stars.{create_star_invoice, StarInvoice, invoice_for, offer_valid}
use digital_services_platfor.Schema.{
  WorkflowStatus, WorkflowStatus-discrete, RowId, StarInvoiceRow, Db,
}

-- Neither the offer nor its inputs depend on the invoices, the charges or their events.
offer_row-frame :
    (u w : RowId) (invoices : List StarInvoiceRow) (db : Db)
    → offer_row u w (record db { star_invoices = invoices }) ≡ offer_row u w db
unfolding offer_row
offer_row-frame u w invoices db = refl

offer_valid-frame :
    (sha256 : Text → Text) (o : Offer) (u : RowId) (revision : ℕ) (terms : Text) (now : ℕ)
    (invoices : List StarInvoiceRow) (db : Db)
    → offer_valid sha256 o u revision terms now (record db { star_invoices = invoices })
      ≡ offer_valid sha256 o u revision terms now db
unfolding offer_valid inputs_ready
offer_valid-frame sha256 o u revision terms now invoices db = refl

invoice_for-new :
    (w : RowId) (revision : ℕ) (i : StarInvoiceRow) (rs : List StarInvoiceRow)
    → i.workflow_id ≡ w
    → i.quote_revision ≡ revision
    → invoice_for w revision (i ∷ rs) ≡ some i
unfolding invoice_for find
invoice_for-new w revision i rs e f = ground arith

-- The offer stands at a price of `stars`: it awaits its confirmation at this revision, its service and
-- category are enabled, and the quoted price and terms are those of the service and of the caller.
abbrev pub Stands : (Text → Text) → Offer → ℕ → Text → ℕ → Type 0
Stands sha256 o revision terms stars =
    (o.workflow.status ≡ WorkflowStatus.confirming)
    × (o.workflow.quote_revision ≡ revision)
    × (o.service.enabled ≡ true)
    × (o.category_enabled ≡ true)
    × (o.workflow.quoted_price_stars ≡ some stars)
    × (o.service.base_price_stars ≡ some stars)
    × (o.workflow.quoted_terms_digest ≡ some (sha256 terms))
    × (1 ≤ stars)
    × (stars ≤ 100000)

offer_valid_sound :
    (sha256 : Text → Text) (o : Offer) (u : RowId) (revision : ℕ) (terms : Text) (now : ℕ) (db : Db)
    → offer_valid sha256 o u revision terms now db ≡ true
    → Stands sha256 o revision terms (quoted_stars o)
unfolding offer_valid current_offer WorkflowStatus-discrete
offer_valid_sound sha256 o u revision terms now db valid = (
  ground arith,
  ground arith,
  ground arith,
  ground arith,
  ground arith,
  ground arith,
  ground arith,
  ground arith,
  ground arith,
)

module _ (sha256 : Text → Text) (u w : RowId) (revision : ℕ) (terms : Text) (slug key : Option Text)
    (now : ℕ) where
  -- What `create_star_invoice` has done, by the invoice that the workflow has at this revision.
  abbrev pub Invoiced : Offer → RowId → Db → Option StarInvoiceRow → StarInvoice → Db → Type 0
  Invoiced o id db (some i) invoice db' =
      (invoice ≡ record {
        id = i.id;
        amount_stars = i.amount_stars;
        order_id = i.order_id;
        title = o.service.name_ar;
      })
      × (db' ≡ db)
      × ((is_some i.order_id ≡ true) ⊎ Stands sha256 o revision (strip terms) (quoted_stars o))
  Invoiced o id db none invoice db' =
      (invoice ≡ record {
        id = id;
        amount_stars = quoted_stars o;
        order_id = none;
        title = o.service.name_ar;
      })
      × Stands sha256 o revision (strip terms) (quoted_stars o)
      × (db' ≡ record db {
        star_invoices =
            record {
              id = id;
              user_id = u;
              workflow_id = w;
              quote_revision = revision;
              service_id = o.workflow.service_id;
              amount_stars = quoted_stars o;
              file_ids = o.files;
              terms_digest = sha256 (strip terms);
              terms_text = strip terms;
              input_text_digest = input_digest o;
              checkout_query_id = none;
              order_id = none;
            }
            ∷ db.star_invoices;
      })

  abbrev pub Created : Offer → RowId → Db → Result StarInvoice × Db → Type 0
  Created o id db (err e, db') = db' ≡ db
  Created o id db (ok invoice, db') =
      Invoiced o id db (invoice_for w revision db.star_invoices) invoice db'

  -- A call that returns for the offer `o` gives the invoice of this revision as it was, if it has an
  -- order or the offer stands; without one it adds one invoice, unpaid, of the offer's files and
  -- terms, and only for an offer that stands, at the price that is quoted and that the service
  -- still has, from 1 to 100000 Stars. A call that raises changes nothing.
  pub create_star_invoice-Created :
      (o : Offer) (id : RowId) (db : Db)
      → offer_row u w db ≡ some o
      → Created o id db (create_star_invoice sha256 u w revision terms slug key id now db)
  unfolding create_star_invoice
  create_star_invoice-Created o id db offered =
      elim (Bool-cases (offer_valid sha256 o u revision (strip terms) now db)) [
        | inl valid ↦
            ground (arith, offer_valid_sound sha256 o u revision (strip terms) now db valid)
        | inr stale ↦ ground arith
      ]
