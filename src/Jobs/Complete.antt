-- ===== src/Jobs/Complete.antt =====
-- `complete_job` of packages/python/platform_core/jobs.py: a result goes to the delivery outbox.
use digital_services_platfor.Base.{ℕ, Bool, ◌&&◌, none, some, ◌∷◌, ltb, ◌==◌, eqb, exists}
use digital_services_platfor.Text.{text}
use digital_services_platfor.Exec.{
  value_error, unique_violation, Exec, gets, or_raise, transaction, ◌>>=◌, ◌>>◌, raise_if,
  raise_unless, modify,
}
use digital_services_platfor.Schema.{
  RowId, Db, FileRow, JobRow, DeliveryStatus, JobStatus, FileType-discrete, FileType,
  FileStatus-discrete, OrderStatus, FileStatus, AttemptStatus,
}
use digital_services_platfor.Jobs.{Claim, job_row, active, end_attempt, update_job}
use digital_services_platfor.Ledger.{for_order, order_row, same_text}
use digital_services_platfor.Orders.{order_is}
use digital_services_platfor.Orders.Insert.{set_order_status}

abbrev pub output_ready : RowId → RowId → RowId → ℕ → FileRow → Bool
output_ready file u o now f =
    f.id == file
    && f.owner_user_id == u
    && for_order o f.order_id
    && eqb FileType-discrete f.file_type FileType.output
    && eqb FileStatus-discrete f.status FileStatus.ready
    && ltb now f.retention_until

abbrev pub completed_with : RowId → JobRow → JobRow
completed_with file j = record j { status = JobStatus.completed; result_file_id = some file }

-- INSERT INTO delivery_outbox, with the defaults and the UNIQUE (order_id) of the table.
unfoldable pub enqueue_delivery : RowId → RowId → ℕ → Exec Db (Unit {0})
enqueue_delivery id o now = do
  queued ← gets (λ db. exists (λ d. d.order_id == o) db.delivery_outbox)
  raise_if queued (unique_violation "delivery_outbox")
  modify λ db. record db {
    delivery_outbox =
        record {
          id = id;
          order_id = o;
          status = DeliveryStatus.pending;
          attempt_count = 0;
          max_attempts = 3;
          next_attempt_at = now;
          claimed_at = none;
          error_code = none;
          external_receipt = none;
        }
        ∷ db.delivery_outbox;
  }

unfoldable pub complete_job : Claim → RowId → RowId → ℕ → Exec Db (Unit {0})
complete_job c file delivery_id now = transaction (do
  found ← gets (λ db. job_row c.job_id db.jobs)
  j ← or_raise found (value_error "attempt no longer active")
  joined ← gets (λ db. order_row j.order_id db.orders)
  order ← or_raise joined (value_error "attempt no longer active")
  raise_unless (j.order_id == c.order_id && order_is OrderStatus.processing order && active c j)
      (value_error "attempt no longer active")
  valid ← gets (λ db. exists (output_ready file order.user_id c.order_id now) db.files)
  raise_unless valid (value_error "validated output file is not ready")
  raise_unless (same_text order.channel (text "telegram"))
      (value_error "delivery channel unavailable")
  end_attempt c AttemptStatus.completed none
  update_job c.job_id (completed_with file)
  set_order_status c.order_id OrderStatus.awaiting_fulfillment
  enqueue_delivery delivery_id c.order_id now)
