-- ===== src/Workflows/Quotes.antt =====
-- What an admitted upload may hold, and when a quote is stale.
use digital_services_platfor.Base.{
  ℕ, ◌+◌, ◌≤◌, ◌≡◌, ◌≢◌, inl, inr, ◌&&◌, some, arith, ◌==◌, Option-cases, find,
}
use digital_services_platfor.Exec.{ok, Raised}
use digital_services_platfor.Workflows.Upload.{
  admit_pdf_upload, UploadAdmission, sum_bytes, attached_to, max_workflow_bytes, retained,
  upload_service,
}
use digital_services_platfor.Workflows.{confirm_pdf_merge, active_row}
use digital_services_platfor.Schema.{RowId, WorkflowRow, Db}

-- An upload that is admitted fits into each of the three byte budgets: of one file, of the
-- workflow, and of the files kept for the customer.
pub admit_pdf_upload_fits :
    (u : RowId) (declared max_upload max_user now : ℕ) (a : UploadAdmission) (db : Db)
    → (admit_pdf_upload u declared max_upload max_user now db).0 ≡ ok a
    → (declared ≤ a.byte_limit)
      × (a.byte_limit ≤ max_upload)
      × (sum_bytes (attached_to a.workflow_id db) db.files + declared ≤ max_workflow_bytes)
      × (sum_bytes (retained u now) db.files + declared ≤ max_user)
unfolding admit_pdf_upload
admit_pdf_upload_fits u declared max_upload max_user now a db e =
    elim (Option-cases (active_row u db.workflows)) [
      | inl missing ↦ ground arith
      | inr (r, found) ↦ elim (Option-cases (upload_service db r)) [
        | inl missing ↦ ground arith
        | inr (s, served) ↦ ground arith
      ]
    ]

-- A confirmation with another revision than the workflow's raises, and changes nothing.
pub confirm_pdf_merge_stale :
    (u w : RowId) (revision : ℕ) (o job : RowId) (now : ℕ) (r : WorkflowRow) (db : Db)
    → find (λ r. r.id == w && r.user_id == u) db.workflows ≡ some r
    → r.quote_revision ≢ revision
    → let (result, db') = confirm_pdf_merge u w revision o job now db in Raised result × (db' ≡ db)
unfolding confirm_pdf_merge
confirm_pdf_merge_stale u w revision o job now r db found ne = ground arith
