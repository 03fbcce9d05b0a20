-- ===== src/Worker/Tasks.antt =====
-- `process_job` and `dispatch_pending` of
-- packages/python/platform_core/worker.py.
use digital_services_platfor.Base.{
  ℕ, Bool, true, false, ◌&&◌, Option, none, some, List, ◌++◌, map, ◌==◌, if◌then◌else◌, eqb, find,
}
use digital_services_platfor.Text.{Text, text, uuid_text}
use digital_services_platfor.Exec.{
  pdf_unavailable, Error, type_error, Result, Exec, pure, gets, or_raise, ◌>>=◌, ◌>>◌,
  is_value_error, try_except,
}
use digital_services_platfor.Schema.{Db, RowId, ServiceRow, ProcessorType-discrete, ProcessorType}
use digital_services_platfor.Jobs.{Claim, claim_job, fail_job, pending_jobs}
use digital_services_platfor.Files.{Client}
use digital_services_platfor.Ledger.{order_row}
use digital_services_platfor.Worker.Processor.{process_pdf_merge}
use digital_services_platfor.CustomRequests.{number_text}
use digital_services_platfor.Jobs.Complete.{complete_job}
use digital_services_platfor.Catalog.{is_processor}

pub record Settings : Type 0 where
  pub max_upload_bytes : ℕ
  pub file_retention_days : ℕ
  pub telegram_bot_token : Text

-- Ids that `uuid4` makes in one run: of the output file and of the delivery.
pub record NewIds : Type 0 where
  pub file : RowId
  pub delivery : RowId

unfoldable pub ordered_service : RowId → Db → Option ServiceRow
ordered_service order db = elim (order_row order db.orders) [
  | none ↦ none
  | some o ↦ find (λ s. s.id == o.service_id) db.services
]

-- `PROCESSORS.get(service["slug"]) if service["processor_type"] == "tool" else None`
abbrev pub has_processor : ServiceRow → Bool
has_processor s =
    eqb ProcessorType-discrete s.processor_type ProcessorType.tool && is_processor s.slug

-- The `except` clauses: what is noted of an error, and whether the job is tried again.
abbrev pub job_error : Error → Text × Bool
job_error e = if is_value_error e then (text "INVALID_INPUT", false) else elim e [
  | pdf_unavailable _ ↦ (text "PDF_PROCESSOR_UNAVAILABLE", true)
  | _ ↦ (text "PROCESSING_ERROR", true)
]

unfoldable pub failed_job : Claim → Error → Exec Db (Unit {0})
failed_job claim e =
    let (code, retryable) = job_error e in do fail_job claim code retryable; pure tt

module _ (c : Client) (merge : List (List ℕ) → Result (List ℕ)) (settings : Settings) where
  unfoldable pub run_processor : NewIds → Claim → ℕ → Exec Db (Unit {0})
  run_processor ids claim now = do
    file ←
        process_pdf_merge c merge ids.file claim.order_id settings.max_upload_bytes
          settings.file_retention_days now
    complete_job claim file ids.delivery now

  -- What follows a claim.
  unfoldable pub process_claim : NewIds → Claim → ℕ → Exec Db (Unit {0})
  process_claim ids claim now = do
    found ← gets (ordered_service claim.order_id)
    s ← or_raise found (type_error "'NoneType' object is not subscriptable")
    if has_processor s
        then try_except (run_processor ids claim now) (failed_job claim)
        else (do fail_job claim (text "PROCESSOR_UNAVAILABLE") false; pure tt)

  unfoldable pub process_job : NewIds → RowId → ℕ → Exec Db (Unit {0})
  process_job ids job now = do
    claimed ← claim_job job now
    elim claimed [ none ↦ pure tt | some claim ↦ process_claim ids claim now ]

-- The jobs that are enqueued: their ids and the keys that keep an attempt from being queued twice.
abbrev pub queue_key : RowId × ℕ → RowId × Text
queue_key (job, attempt) =
    (job, text "platform:" ++ (uuid_text job ++ (text ":" ++ number_text attempt)))

unfoldable pub dispatch_pending : Exec Db (List (RowId × Text))
dispatch_pending = do jobs ← pending_jobs 100; pure (map queue_key jobs)
