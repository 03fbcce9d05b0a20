-- ===== src/Summaries/Quotes.antt =====
-- `quote_summary`, `select_summary_product` and the smaller queries of
-- packages/python/platform_core/summary_orders.py.
use digital_services_platfor.Orders.Inputs.{category_enabled}
use digital_services_platfor.Base.{
  ℕ, ◌+◌, ◌*◌, Bool, false, not, ◌&&◌, ◌||◌, Option, none, some, List, [], ◌∷◌, ltb, leb, ◌==◌,
  if◌then◌else◌, eqb, is_some, find, delete_where,
}
use digital_services_platfor.Text.{Text, strip, is_empty}
use digital_services_platfor.Exec.{
  value_error, Exec, pure, gets, or_raise, transaction, ◌>>=◌, ◌>>◌, raise_if, raise_unless, modify,
  reads,
}
use digital_services_platfor.Schema.{
  Db, RowId, InputSchema-discrete, ServiceRow, SummaryInput, WorkflowRow, WorkflowStatus,
  ProcessorType-discrete, ProcessorType,
}
use digital_services_platfor.Catalog.{
  CatalogService, Listed, available_summary_products, is_summary,
}
use digital_services_platfor.Workflows.{
  cancel_active, is_active, service_row, active_row, insert_workflow, collecting_row,
}
use digital_services_platfor.Ledger.{lock_wallet, same_text}
use digital_services_platfor.Orders.{user_of, ensure_telegram_user}
use digital_services_platfor.Summaries.{is_summary_service, validate_text}
use digital_services_platfor.Stars.Offers.{text_input_schema}

pub record SummaryQuote : Type 0 where
  pub workflow_id : RowId
  pub revision : ℕ
  pub price_stars : Option ℕ
  pub service_name : Text

unfoldable pub purge_expired_summary_text : ℕ → Exec Db (Unit {0})
purge_expired_summary_text now = modify λ db. record db {
  summary_results = delete_where (λ r. leb r.retention_until now) db.summary_results;
  summary_inputs = delete_where (λ t. leb t.retention_until now) db.summary_inputs;
}

-- UPDATE telegram_workflows SET status='CANCELLED' … of the active ones
unfoldable pub cancel_workflows : RowId → Exec Db (Unit {0})
cancel_workflows u = cancel_active u >>= λ _. pure tt

-- The earlier quote of a message, with the service of its workflow.
unfoldable pub quoted_message : RowId → ℕ → Db → Option (SummaryInput × WorkflowRow × ServiceRow)
quoted_message u message db =
    elim (find (λ t. t.user_id == u && t.telegram_message_id == message) db.summary_inputs) [
      | none ↦ none
      | some t ↦ elim (find (λ w. w.id == t.workflow_id) db.workflows) [
        | none ↦ none
        | some w ↦ elim (service_row w.service_id db.services) [
          | none ↦ none
          | some s ↦ some (t, w, s)
        ]
      ]
    ]

unfoldable pub selected_summary : RowId → Db → Option RowId
selected_summary u db =
    elim (find (λ w. is_active u w && is_summary_service w.service_id db.services) db.workflows) [
      | none ↦ none
      | some w ↦ some w.service_id
    ]

abbrev pub priced_summary : RowId → Db → ServiceRow → Bool
priced_summary id db s =
    s.id == id
    && is_summary s
    && eqb ProcessorType-discrete s.processor_type ProcessorType.tool
    && s.enabled
    && category_enabled s.category_id db.categories
    && is_some s.base_price_stars

abbrev pub confirming_row : RowId → RowId → ServiceRow → Text → WorkflowRow
confirming_row w u s digest = record {
  id = w;
  user_id = u;
  service_id = s.id;
  status = WorkflowStatus.confirming;
  quoted_price_halalas = none;
  quoted_price_stars = s.base_price_stars;
  quoted_terms_digest = some digest;
  quote_revision = 1;
  order_id = none;
}

-- `products[0]`, if there is one.
abbrev pub head : List CatalogService → Option CatalogService
head [] = none
head (p ∷ _) = some p

-- `current and current["service_id"] == service_id`
abbrev pub serves : RowId → Option WorkflowRow → Bool
serves service none = false
serves service (some r) = r.service_id == service

abbrev pub only_product : List CatalogService → Option RowId
only_product (p ∷ []) = some p.id
only_product _ = none

module _ (is_alpha : ℕ → Bool) (sha256 : Text → Text) (rank : Listed → ℕ) where
  abbrev pub input_row : RowId → RowId → ℕ → Text → ℕ → SummaryInput
  input_row w u message t until = record {
    workflow_id = w;
    user_id = u;
    telegram_message_id = message;
    input_text = t;
    input_digest = sha256 t;
    retention_until = until;
  }

  -- The service that is selected, or the only product.
  unfoldable pub choose_summary : RowId → Exec Db RowId
  choose_summary u = do
    selected ← gets (selected_summary u)
    elim selected [
      | some s ↦ pure s
      | none ↦ do
        products ← gets (available_summary_products rank none)
        or_raise (only_product products) (value_error "summary_product_selection_required")
    ]

  -- The part of the transaction of `quote_summary` for a new message.
  unfoldable pub offer_summary : RowId → ℕ → Text → Text → ℕ → RowId → Exec Db SummaryQuote
  offer_summary u message t terms until w = do
    selected ← choose_summary u
    found ← gets (λ db. find (priced_summary selected db) db.services)
    s ← or_raise found (value_error "summary_service_unavailable")
    raise_unless (eqb InputSchema-discrete s.input_schema text_input_schema)
        (value_error "summary_schema_unavailable")
    cancel_workflows u
    insert_workflow (confirming_row w u s (sha256 (strip terms)))
    modify λ db. record db { summary_inputs = input_row w u message t until ∷ db.summary_inputs }
    pure (record {
      workflow_id = w;
      revision = 1;
      price_stars = s.base_price_stars;
      service_name = s.name_ar;
    })

  unfoldable pub quote_summary : ℕ → ℕ → Text → Text → ℕ → RowId → RowId → ℕ → Exec Db SummaryQuote
  unfolding lock_wallet
  quote_summary tg message raw terms days user_id w now = do
    t ← reads (λ db. validate_text is_alpha raw)
    purge_expired_summary_text now
    raise_if (is_empty (strip terms) || ltb message 1 || not (leb 1 days && leb days 365))
        (value_error "invalid_summary_offer")
    transaction (do
      u ← ensure_telegram_user tg user_id
      lock_wallet u
      existing ← gets (quoted_message u message)
      elim existing [
        | some (old, r, s) ↦ do
          raise_unless (same_text old.input_text t) (value_error "summary_message_reused")
          pure (record {
            workflow_id = r.id;
            revision = r.quote_revision;
            price_stars = r.quoted_price_stars;
            service_name = s.name_ar;
          })
        | none ↦ offer_summary u message t terms (now + 86400 * days) w
      ])

  unfoldable pub select_summary_product : ℕ → RowId → RowId → RowId → Exec Db CatalogService
  unfolding lock_wallet
  select_summary_product tg service user_id w = transaction (do
    u ← ensure_telegram_user tg user_id
    lock_wallet u
    products ← gets (available_summary_products rank (some service))
    product ← or_raise (head products) (value_error "summary_product_unavailable")
    current ← gets (λ db. active_row u db.workflows)
    (if serves service current
        then pure product
        else (do cancel_workflows u; insert_workflow (collecting_row w u service); pure product)))

abbrev pub offer_user : ℕ → Db → Option RowId
offer_user tg db = elim (user_of tg db.users) [ none ↦ none | some u ↦ some u.id ]

unfoldable pub cancel_summary_offer : ℕ → Exec Db Bool
cancel_summary_offer tg = do
  found ← gets (offer_user tg)
  elim found [ none ↦ pure false | some u ↦ cancel_active u ]
