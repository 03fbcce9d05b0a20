-- ===== src/Workflows.antt =====
-- packages/python/platform_core/telegram_workflow.py: the conversation that collects PDF files,
-- quotes a price and confirms an order.
pub mod Upload
pub mod Quotes
use digital_services_platfor.Base.{
  ℕ, zero, suc, ◌+◌, ◌-◌, ◌*◌, ◌≤◌, ◌<◌, min, String, ◌≡◌, refl, sym, ap, ◌∙◌, ◌≢◌, ◌↔◌, ◌⊎◌, inl,
  inr, Bool, true, false, not, ◌&&◌, ◌||◌, Option, none, some, List, [], ◌∷◌, ◌++◌, map, arith, ltb,
  leb, ◌==◌, if◌then◌else◌, eqb, Bool-cases, Option-cases, is_some, length, find, exists,
  count_where, update_where, delete_where, order_by, select, member, distinct,
}
use digital_services_platfor.Int.{
  ℤ, pos, negsuc, ◌+ℤ◌, ◌-ℤ◌, ◌≤ℤ◌, ltb_ℤ, leb_ℤ, ℤ-discrete, int_laws,
}
use digital_services_platfor.Text.{Text, Text-discrete, text, strip, is_empty, uuid_text, uuid_hex}
use digital_services_platfor.Exec.{
  Error, value_error, type_error, insufficient_funds, idempotency_conflict, invalid_settlement,
  payment_mismatch, stars_mismatch, stale_quote, not_found, revision_conflict, transition_rejected,
  update_rejected, unique_violation, provider_error, Result, ok, err, Exec, pure, raise, gets,
  or_raise, transaction, ◌>>=◌, ◌>>◌, raise_if, raise_unless, modify, when,
}
use digital_services_platfor.Schema.{
  CategoryRow, Currency, InputSchema, RowId, ServiceRow, WorkflowRow, WorkflowStatus,
  Currency-discrete, Db, Scalar, WorkflowFile, ProcessorType-discrete, WorkflowStatus-discrete,
  object, ProcessorType, not_object, integer, boolean,
}
use digital_services_platfor.Ledger.{lock_wallet, same_text}
use digital_services_platfor.Orders.Inputs.{category_enabled, within, int_or_zero, schema_get}
use digital_services_platfor.Stars.Offers.{workflow_file_ids}
use digital_services_platfor.Orders.{confirm_order}

pub record Workflow : Type 0 where
  pub id : RowId
  pub status : WorkflowStatus
  pub file_count : ℕ
  pub quoted_price_halalas : Option ℕ
  pub quote_revision : ℕ
  pub quoted_price_stars : Option ℕ

-- `status IN ('COLLECTING','CONFIRMING')`
abbrev pub open_status : WorkflowStatus → Bool
open_status WorkflowStatus.collecting = true
open_status WorkflowStatus.confirming = true
open_status _ = false

abbrev pub is_active : RowId → WorkflowRow → Bool
is_active u r = r.user_id == u && open_status r.status

unfoldable pub active_row : RowId → List WorkflowRow → Option WorkflowRow
active_row u = find (is_active u)

abbrev pub file_count : RowId → List WorkflowFile → ℕ
file_count w = count_where λ f. f.workflow_id == w

abbrev pub view : WorkflowRow → Db → Workflow
view r db = record {
  id = r.id;
  status = r.status;
  file_count = file_count r.id db.workflow_files;
  quoted_price_halalas = r.quoted_price_halalas;
  quote_revision = r.quote_revision;
  quoted_price_stars = r.quoted_price_stars;
}

unfoldable pub active_workflow : RowId → Db → Option Workflow
active_workflow u db = elim (active_row u db.workflows) [ none ↦ none | some r ↦ some (view r db) ]

abbrev pub merge_service : List CategoryRow → ServiceRow → Bool
merge_service cs s =
    same_text s.slug (text "merge-pdf")
    && eqb ProcessorType-discrete s.processor_type ProcessorType.tool
    && s.enabled
    && category_enabled s.category_id cs

abbrev pub collecting_row : RowId → RowId → RowId → WorkflowRow
collecting_row w u s = record {
  id = w;
  user_id = u;
  service_id = s;
  status = WorkflowStatus.collecting;
  quoted_price_halalas = none;
  quoted_price_stars = none;
  quoted_terms_digest = none;
  quote_revision = 0;
  order_id = none;
}

-- INSERT INTO telegram_workflows, which allows one active row for each user.
unfoldable pub insert_workflow : WorkflowRow → Exec Db (Unit {0})
insert_workflow r = do
  busy ← gets (λ db. open_status r.status && is_some (active_row r.user_id db.workflows))
  raise_if busy (unique_violation "telegram_workflows")
  modify λ db. record db { workflows = r ∷ db.workflows }

unfoldable pub start_pdf_merge : RowId → RowId → Exec Db Workflow
unfolding lock_wallet
start_pdf_merge u workflow_id = transaction (do
  lock_wallet u
  active ← gets (active_workflow u)
  elim active [
    | some w ↦ pure w
    | none ↦ do
      found ← gets (λ db. find (merge_service db.categories) db.services)
      s ← or_raise found (value_error "PDF merge service is unavailable")
      insert_workflow (collecting_row workflow_id u s.id)
      pure (record {
        id = workflow_id;
        status = WorkflowStatus.collecting;
        file_count = 0;
        quoted_price_halalas = none;
        quote_revision = 0;
        quoted_price_stars = none;
      })
  ])

-- UPDATE telegram_workflows SET … WHERE id=…
unfoldable pub update_workflow : RowId → (WorkflowRow → WorkflowRow) → Exec Db (Unit {0})
update_workflow w f =
    modify λ db. record db { workflows = update_where (λ r. r.id == w) f db.workflows }

unfoldable pub service_row : RowId → List ServiceRow → Option ServiceRow
service_row s = find λ r. r.id == s

abbrev pub fields : InputSchema → List (Text × Scalar)
fields (object fs) = fs
fields (not_object _) = []

-- The number that Python compares under a key: `True` is 1 and `False` is 0.
abbrev pub as_number : Option Scalar → Option ℤ
as_number none = some (pos 0)
as_number (some (integer n)) = some n
as_number (some (boolean true)) = some (pos 1)
as_number (some (boolean false)) = some (pos 0)
as_number (some _) = none

-- `minimum <= count <= maximum`, on the integers of a schema.
abbrev pub count_allowed : InputSchema → ℕ → Bool
count_allowed schema n =
    within (as_number (schema_get (text "min_files") (fields schema)))
      (as_number (schema_get (text "max_files") (fields schema))) n

abbrev pub quoted : Currency → ServiceRow → Option Text → WorkflowRow → WorkflowRow
quoted currency s digest r = record r {
  status = WorkflowStatus.confirming;
  quoted_price_halalas =
      if eqb Currency-discrete currency Currency.sar then some s.base_price_halalas else none;
  quoted_price_stars =
      if eqb Currency-discrete currency Currency.xtr then s.base_price_stars else none;
  quoted_terms_digest = if eqb Currency-discrete currency Currency.xtr then digest else none;
  quote_revision = r.quote_revision + 1;
}

abbrev pub supported_currency : Currency → Bool
supported_currency Currency.other_currency = false
supported_currency _ = true

abbrev pub service_open : ServiceRow → Db → Bool
service_open s db = s.enabled && category_enabled s.category_id db.categories

-- A schema that is no object, or whose limits are no numbers, makes the source raise an error of
-- another class, before any change; a limit that is a float is not modelled.
unfoldable pub quote_pdf_merge : RowId → Currency → Option Text → Exec Db Workflow
quote_pdf_merge u currency digest = do
  raise_unless (supported_currency currency) (value_error "unsupported quote currency")
  transaction (do
    found ← gets (λ db. active_row u db.workflows)
    r ← or_raise found (value_error "service or workflow unavailable")
    joined ← gets (λ db. service_row r.service_id db.services)
    s ← or_raise joined (value_error "service or workflow unavailable")
    available ← gets (service_open s)
    raise_unless available (value_error "service or workflow unavailable")
    count ← gets (λ db. file_count r.id db.workflow_files)
    raise_unless (count_allowed s.input_schema count) (value_error "more PDF files are required")
    raise_if
        (eqb Currency-discrete currency Currency.xtr
          && not (is_some s.base_price_stars && is_some digest))
        (value_error "Stars price or terms unavailable")
    update_workflow r.id (quoted currency s digest)
    let q = quoted currency s digest r
    pure (record {
      id = r.id;
      status = WorkflowStatus.confirming;
      file_count = count;
      quoted_price_halalas = q.quoted_price_halalas;
      quote_revision = q.quote_revision;
      quoted_price_stars = q.quoted_price_stars;
    }))

abbrev pub submitted_with : RowId → WorkflowRow → WorkflowRow
submitted_with o r = record r { status = WorkflowStatus.submitted; order_id = some o }

-- `return row["order_id"]`, which a submitted workflow always has.
unfoldable pub confirm_pdf_merge : RowId → RowId → ℕ → RowId → RowId → ℕ → Exec Db (Option RowId)
unfolding lock_wallet
confirm_pdf_merge u w revision order_id job_id now = do
  raise_if (ltb revision 1) (stale_quote "invalid quote revision; review the offer again")
  transaction (do
    lock_wallet u
    found ← gets (λ db. find (λ r. r.id == w && r.user_id == u) db.workflows)
    r ← or_raise found (value_error "workflow not found")
    raise_unless (r.quote_revision == revision)
        (stale_quote "quote changed; review the offer again")
    (if eqb WorkflowStatus-discrete r.status WorkflowStatus.submitted then pure r.order_id else (do
      raise_unless
          (eqb WorkflowStatus-discrete r.status WorkflowStatus.confirming
            && is_some r.quoted_price_halalas)
          (value_error "workflow requires a fresh quote")
      ids ← gets (λ db. workflow_file_ids w db.workflow_files)
      o ←
          confirm_order u r.service_id (text "telegram:merge:" ++ uuid_text w) (text "telegram") ids
            r.quoted_price_halalas order_id job_id now
      update_workflow w (submitted_with o)
      pure (some o))))

-- The result is `result == "UPDATE 1"`: exactly one row was active.
unfoldable pub cancel_active : RowId → Exec Db Bool
cancel_active u = do
  count ← gets (λ db. count_where (is_active u) db.workflows)
  modify λ db. record db {
    workflows =
        update_where (is_active u) (λ r. record r { status = WorkflowStatus.cancelled })
          db.workflows;
  }
  pure (count == 1)
