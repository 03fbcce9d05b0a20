-- ===== src/Workflows/Upload.antt =====
-- `has_upload` and `attach_pdf` of packages/python/platform_core/telegram_workflow.py, and the
-- admission of uploads of packages/python/platform_core/telegram_uploads.py.
use digital_services_platfor.Base.{
  ℕ, ◌+◌, ◌-◌, ◌*◌, min, Bool, true, false, not, ◌&&◌, ◌||◌, Option, none, some, List, [], ◌∷◌, ltb,
  leb, ◌==◌, if◌then◌else◌, eqb, find, exists, update_where, is_some,
}
use digital_services_platfor.Int.{pos}
use digital_services_platfor.Text.{text}
use digital_services_platfor.Exec.{
  value_error, upload_rejected, unique_violation, Exec, pure, gets, or_raise, transaction, ◌>>=◌,
  ◌>>◌, raise_if, raise_unless, modify, Result, reads,
}
use digital_services_platfor.Schema.{
  Db, FileRow, InputSchema, RowId, WorkflowRow, FileType-discrete, ServiceRow, WorkflowFile,
  WorkflowStatus, FileType, FileStatus-discrete, integer, FileStatus,
}
use digital_services_platfor.Orders.Inputs.{schema_get}
use digital_services_platfor.Workflows.{
  Workflow, active_row, fields, file_count, merge_service, service_row, view, update_workflow,
  as_number,
}
use digital_services_platfor.Ledger.{same_text}

abbrev pub is_upload : RowId → ℕ → WorkflowFile → Bool
is_upload w message f = f.workflow_id == w && f.telegram_message_id == message

unfoldable pub has_upload : RowId → ℕ → Db → Bool
has_upload u message db =
    exists (λ w. w.user_id == u && exists (is_upload w.id message) db.workflow_files) db.workflows

-- `schema.get("max_files", 0)`, if it is an integer from 1 to 20.
abbrev pub file_limit : InputSchema → Option ℕ
file_limit schema = elim (as_number (schema_get (text "max_files") (fields schema))) [
  | some (pos n) ↦ if leb 1 n && leb n 20 then some n else none
  | _ ↦ none
]

abbrev pub below_limit : Option ℕ → ℕ → Bool
below_limit none n = false
below_limit (some limit) n = ltb n limit

abbrev pub attachable : RowId → RowId → ℕ → FileRow → Bool
attachable file u now f =
    f.id == file
    && f.owner_user_id == u
    && eqb FileType-discrete f.file_type FileType.input
    && same_text f.mime_type (text "application/pdf")
    && eqb FileStatus-discrete f.status FileStatus.ready
    && ltb now f.retention_until

abbrev pub expected_workflow : Option RowId → RowId → Bool
expected_workflow none w = true
expected_workflow (some e) w = w == e

abbrev pub reopened : WorkflowRow → WorkflowRow
reopened r = record r {
  status = WorkflowStatus.collecting;
  quoted_price_halalas = none;
  quoted_price_stars = none;
  quoted_terms_digest = none;
  quote_revision = r.quote_revision + 1;
}

-- INSERT INTO telegram_workflow_files, with UNIQUE (workflow_id, file_id).
unfoldable pub insert_file : RowId → ℕ → ℕ → RowId → Exec Db (Unit {0})
insert_file w position message file = do
  twice ← gets (λ db. exists (λ f. f.workflow_id == w && f.file_id == file) db.workflow_files)
  raise_if twice (unique_violation "telegram_workflow_files")
  modify λ db. record db {
    workflow_files =
        record {
          workflow_id = w;
          position = position;
          telegram_message_id = message;
          file_id = file;
        }
        ∷ db.workflow_files;
  }

unfoldable pub attach_pdf : RowId → RowId → ℕ → Option RowId → ℕ → Exec Db Workflow
attach_pdf u file message expected now = do
  raise_unless (ltb 0 message) (value_error "invalid Telegram message ID")
  transaction (do
    found ← gets (λ db. active_row u db.workflows)
    r ← or_raise found (value_error "no matching active file workflow")
    joined ← gets (λ db. service_row r.service_id db.services)
    s ← or_raise joined (value_error "no matching active file workflow")
    raise_unless (expected_workflow expected r.id) (value_error "no matching active file workflow")
    existing ← gets (λ db. exists (is_upload r.id message) db.workflow_files)
    if existing then gets (view r) else (do
      count ← gets (λ db. file_count r.id db.workflow_files)
      raise_unless (below_limit (file_limit s.input_schema) count)
          (value_error "maximum number of files reached")
      valid ← gets (λ db. exists (attachable file u now) db.files)
      raise_unless valid (value_error "invalid PDF attachment")
      insert_file r.id count message file
      update_workflow r.id reopened
      pure (record {
        id = r.id;
        status = WorkflowStatus.collecting;
        file_count = count + 1;
        quoted_price_halalas = none;
        quote_revision = r.quote_revision + 1;
        quoted_price_stars = none;
      })))

pub record UploadAdmission : Type 0 where
  pub workflow_id : RowId
  pub byte_limit : ℕ

abbrev pub max_workflow_bytes : ℕ
max_workflow_bytes = 40 * 1024 * 1024

-- `schema.get("max_files")`, if it is an integer from 2 to 10.
abbrev pub pdf_limit : InputSchema → Option ℕ
pdf_limit schema = elim (schema_get (text "max_files") (fields schema)) [
  | some (integer (pos n)) ↦ if leb 2 n && leb n 10 then some n else none
  | _ ↦ none
]

-- COALESCE(SUM(size_bytes), 0)
unfoldable pub sum_bytes : (FileRow → Bool) → List FileRow → ℕ
sum_bytes p [] = 0
sum_bytes p (f ∷ fs) = (if p f then f.size_bytes else 0) + sum_bytes p fs

abbrev pub attached_to : RowId → Db → FileRow → Bool
attached_to w db f = exists (λ a. a.workflow_id == w && a.file_id == f.id) db.workflow_files

abbrev pub retained : RowId → ℕ → FileRow → Bool
retained u now f =
    f.owner_user_id == u
    && eqb FileType-discrete f.file_type FileType.input
    && not (eqb FileStatus-discrete f.status FileStatus.expired)
    && ltb now f.retention_until

-- `min(…)` of three budgets. The source's limit may be negative; then no size passes, as with 0.
abbrev pub byte_limit : ℕ → ℕ → ℕ → ℕ → ℕ
byte_limit max_upload max_user used kept =
    min max_upload (min (max_workflow_bytes - used) (max_user - kept))

abbrev pub upload_service : Db → WorkflowRow → Option ServiceRow
upload_service db r = find (λ s. s.id == r.service_id && merge_service db.categories s) db.services

unfoldable pub admit_pdf_upload : RowId → ℕ → ℕ → ℕ → ℕ → Exec Db UploadAdmission
admit_pdf_upload u declared max_upload max_user now = do
  raise_if (ltb declared 1 || ltb max_upload 1 || ltb max_user 1)
      (upload_rejected "invalid upload size or configuration")
  found ← gets (λ db. active_row u db.workflows)
  r ← or_raise found (upload_rejected "no available upload workflow")
  joined ← gets (λ db. upload_service db r)
  s ← or_raise joined (upload_rejected "no available upload workflow")
  maximum ← or_raise (pdf_limit s.input_schema) (upload_rejected "invalid file count policy")
  count ← gets (λ db. file_count r.id db.workflow_files)
  raise_if (leb maximum count) (upload_rejected "maximum number of files reached")
  used ← gets (λ db. sum_bytes (attached_to r.id db) db.files)
  kept ← gets (λ db. sum_bytes (retained u now) db.files)
  raise_if (ltb (byte_limit max_upload max_user used kept) declared)
      (upload_rejected "upload byte budget exceeded")
  pure (record { workflow_id = r.id; byte_limit = byte_limit max_upload max_user used kept })

unfoldable pub finish_pdf_upload : RowId → RowId → ℕ → UploadAdmission → ℕ → ℕ → Exec Db Workflow
finish_pdf_upload u file message admission retention_days now = do
  raise_unless (leb 1 retention_days && leb retention_days 3650)
      (upload_rejected "invalid retention")
  transaction (do
    w ← attach_pdf u file message (some admission.workflow_id) now
    attached ← gets (λ db.
        exists (λ a. is_upload admission.workflow_id message a && a.file_id == file)
          db.workflow_files)
    raise_unless attached (upload_rejected "upload was not attached")
    modify λ db. record db {
      files =
          update_where (λ f. f.id == file)
            (λ f. record f { retention_until = now + 86400 * retention_days }) db.files;
    }
    pure w)

-- `row` and `referenced` of `discard_unattached_input`.
abbrev pub discardable : RowId → RowId → FileRow → Bool
discardable file u f =
    f.id == file
    && f.owner_user_id == u
    && eqb FileType-discrete f.file_type FileType.input
    && not (is_some f.order_id)
    && not (eqb FileStatus-discrete f.status FileStatus.expired)

abbrev pub referenced : RowId → Db → Bool
referenced file db =
    exists (λ f. f.file_id == file) db.order_files
    || exists (λ f. f.file_id == file) db.workflow_files

-- UPDATE files SET … WHERE id=…
unfoldable pub update_file : RowId → (FileRow → FileRow) → Exec Db (Unit {0})
update_file file f = modify λ db. record db { files = update_where (λ r. r.id == file) f db.files }

-- `deletion` is what the storage answers. If it raises, the file keeps its retention date, which is
-- over, for the cleanup.
unfoldable pub discard_unattached_input : RowId → RowId → ℕ → Result (Unit {0}) → Exec Db Bool
discard_unattached_input u file now deletion = do
  marked ← transaction (do
    found ← gets (λ db. exists (discardable file u) db.files)
    used ← gets (referenced file)
    if not found || used
        then pure false
        else (do update_file file (λ f. record f { retention_until = now }); pure true))
  (if marked
      then (do
        reads (λ db. deletion)
        update_file file (λ f. record f { status = FileStatus.expired })
        pure true)
      else pure false)
