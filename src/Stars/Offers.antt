-- ===== src/Stars/Offers.antt =====
-- The offer behind an invoice, in packages/python/platform_core/stars_payments.py: `_offer`,
-- `_files_ready`, `_current_offer` and `_inputs_ready`.
use digital_services_platfor.Base.{
  ℕ, Bool, true, false, not, ◌&&◌, ◌||◌, Option, none, some, List, [], ◌∷◌, map, ltb, leb, ◌==◌,
  if◌then◌else◌, eqb, length, find, exists, count_where, order_by, select, member, distinct,
}
use digital_services_platfor.Int.{pos}
use digital_services_platfor.Text.{Text, Text-discrete, text, is_empty}
use digital_services_platfor.Exec.{stars_mismatch, Exec, reads, or_err}
use digital_services_platfor.Schema.{
  InputSchema, InputSchema-discrete, RowId, StarInvoiceRow, WorkflowRow, WorkflowStatus-discrete,
  Db, FileRow, RowIds-discrete, ServiceRow, WorkflowFile, WorkflowStatus, object, FileType-discrete,
  ProcessorType-discrete, SummaryInput, integer, string, FileType, ProcessorType,
  FileStatus-discrete, FileStatus,
}

-- The row that `_offer` joins.
pub record Offer : Type 0 where
  pub workflow : WorkflowRow
  pub service : ServiceRow
  pub category_enabled : Bool
  pub input : Option SummaryInput
  pub files : List RowId

abbrev pub max_stars : ℕ
max_stars = 100000

-- `SLUG` and `TEXT_INPUT_SCHEMA` of packages/python/platform_core/text_summary.py
abbrev pub summary_slug : Text
summary_slug = text "summarize-text"

abbrev pub text_input_schema : InputSchema
text_input_schema = object ((text "max_characters", integer (pos 4000)) ∷ [])

abbrev pub pdf_input_schema : InputSchema
pdf_input_schema = object (
    (text "file_mime", string (text "application/pdf"))
    ∷ (text "max_files", integer (pos 10))
    ∷ (text "min_files", integer (pos 2))
    ∷ [])

abbrev pub workflow_file_ids : RowId → List WorkflowFile → List RowId
workflow_file_ids w fs =
    map (λ f. f.file_id) (order_by (λ f. f.position) (select (λ f. f.workflow_id == w) fs))

-- The JOIN of a workflow with its service and category; the foreign keys give each one row.
unfoldable pub offer_row : RowId → RowId → Db → Option Offer
unfolding find select order_by
offer_row u w db = elim (find (λ r. r.id == w && r.user_id == u) db.workflows) [
  | none ↦ none
  | some r ↦ elim (find (λ s. s.id == r.service_id) db.services) [
    | none ↦ none
    | some s ↦ elim (find (λ c. c.id == s.category_id) db.categories) [
      | none ↦ none
      | some c ↦ some (record {
        workflow = r;
        service = s;
        category_enabled = c.enabled;
        input = find (λ t. t.workflow_id == w) db.summary_inputs;
        files = workflow_file_ids w db.workflow_files;
      })
    ]
  ]
]

abbrev pub offer : RowId → RowId → Exec Db Offer
offer u w = reads λ db. or_err (offer_row u w db) (stars_mismatch "workflow not owned")

abbrev ready_pdf : RowId → List RowId → ℕ → FileRow → Bool
ready_pdf u ids now f =
    member f.id ids
    && f.owner_user_id == u
    && eqb FileType-discrete f.file_type FileType.input
    && eqb Text-discrete f.mime_type (text "application/pdf")
    && eqb FileStatus-discrete f.status FileStatus.ready
    && ltb now f.retention_until

unfoldable pub files_ready : RowId → List RowId → ℕ → Db → Bool
unfolding member distinct count_where
files_ready u ids now db =
    leb 2 (length ids)
    && leb (length ids) 10
    && distinct ids
    && count_where (ready_pdf u ids now) db.files == length ids

-- `a == b` on a nullable column and a value.
abbrev pub is_text : Option Text → Text → Bool
is_text none t = false
is_text (some s) t = eqb Text-discrete s t

abbrev pub same_option_text : Option Text → Option Text → Bool
same_option_text none none = true
same_option_text (some a) (some b) = eqb Text-discrete a b
same_option_text _ _ = false

abbrev pub is_number : Option ℕ → ℕ → Bool
is_number none n = false
is_number (some m) n = m == n

-- `bool(checkout_query_id)`
abbrev pub has_query : Option Text → Bool
has_query none = false
has_query (some q) = not (is_empty q)

abbrev pub quoted_stars : Offer → ℕ
quoted_stars o = elim o.workflow.quoted_price_stars [ none ↦ 0 | some n ↦ n ]

-- What `_current_offer` reads of an invoice, or of the dictionary of a new one.
pub record Terms : Type 0 where
  pub service_id : RowId
  pub quote_revision : ℕ
  pub file_ids : List RowId
  pub amount_stars : ℕ
  pub terms_digest : Text
  pub input_text_digest : Option Text

abbrev pub invoice_terms : StarInvoiceRow → Terms
invoice_terms i = record {
  service_id = i.service_id;
  quote_revision = i.quote_revision;
  file_ids = i.file_ids;
  amount_stars = i.amount_stars;
  terms_digest = i.terms_digest;
  input_text_digest = i.input_text_digest;
}

abbrev pub input_digest : Offer → Option Text
input_digest o = elim o.input [ none ↦ none | some t ↦ some t.input_digest ]

unfoldable pub supported : Offer → Terms → Bool
supported o i =
    (eqb Text-discrete o.service.slug (text "merge-pdf")
      && eqb InputSchema-discrete o.service.input_schema pdf_input_schema)
    || (is_text o.service.processor_key summary_slug
        && eqb InputSchema-discrete o.service.input_schema text_input_schema
        && same_option_text (input_digest o) i.input_text_digest
        && eqb RowIds-discrete o.files [])

unfoldable pub current_offer : Offer → Terms → Bool → Bool
unfolding supported
current_offer o i check_price =
    supported o i
    && o.workflow.service_id == i.service_id
    && eqb WorkflowStatus-discrete o.workflow.status WorkflowStatus.confirming
    && o.workflow.quote_revision == i.quote_revision
    && o.service.enabled
    && o.category_enabled
    && eqb ProcessorType-discrete o.service.processor_type ProcessorType.tool
    && eqb RowIds-discrete o.files i.file_ids
    && is_number o.workflow.quoted_price_stars i.amount_stars
    && is_text o.workflow.quoted_terms_digest i.terms_digest
    && (not check_price || is_number o.service.base_price_stars i.amount_stars)

unfoldable pub inputs_ready : RowId → Offer → ℕ → Db → Bool
unfolding exists files_ready
inputs_ready u o now db =
    if is_text o.service.processor_key summary_slug
    then exists
        (λ t.
          t.workflow_id == o.workflow.id
          && t.user_id == o.workflow.user_id
          && ltb now t.retention_until)
        db.summary_inputs
    else files_ready u o.files now db
