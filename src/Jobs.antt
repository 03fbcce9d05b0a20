-- ===== src/Jobs.antt =====
-- packages/python/platform_core/jobs.py: durable job claiming and failure recovery. Rows stand in
-- the order of `created_at`, the newest first. `now` is the clock in seconds.
pub mod Complete
pub mod Claims
pub mod Attempts
pub mod Graph
pub mod Refunds
pub mod Ends
use mathlib.Core.List.{reverse}
use digital_services_platfor.Base.{
  ℕ, zero, suc, ◌+◌, Bool, true, false, not, ◌&&◌, ◌||◌, Option, none, some, List, [], ◌∷◌, ◌++◌,
  map, ltb, leb, ◌==◌, if◌then◌else◌, eqb, length, find, exists, update_where, order_by, select,
  take,
}
use digital_services_platfor.Text.{Text, text, is_empty, uuid_text}
use digital_services_platfor.Exec.{
  value_error, unique_violation, Exec, pure, gets, or_raise, transaction, ◌>>=◌, ◌>>◌, raise_if,
  raise_unless, modify, when,
}
use digital_services_platfor.Schema.{
  AttemptStatus, Db, JobRow, JobStatus, OrderRow, OrderStatus, RowId, AttemptStatus-discrete,
  DeliveryStatus, FileRow, JobAttempt, JobStatus-discrete, TransactionType, FileType-discrete,
  FileType, FileStatus-discrete, FileStatus,
}
use digital_services_platfor.Ledger.{order_row, settle, for_order, same_text}
use digital_services_platfor.Orders.Insert.{set_order_status}
use digital_services_platfor.Orders.{order_is}
use digital_services_platfor.Stars.Charges.{request_star_refund}

pub record Claim : Type 0 where
  pub job_id : RowId
  pub order_id : RowId
  pub attempt_number : ℕ

unfoldable pub job_row : RowId → List JobRow → Option JobRow
job_row j = find λ r. r.id == j

abbrev pub job_is : JobStatus → JobRow → Bool
job_is status j = eqb JobStatus-discrete j.status status

-- `status IN ('RESERVED','QUEUED','PROCESSING')`
abbrev pub runnable : OrderStatus → Bool
runnable OrderStatus.reserved = true
runnable OrderStatus.queued = true
runnable OrderStatus.processing = true
runnable _ = false

abbrev pub order_runnable : Option OrderRow → Bool
order_runnable none = false
order_runnable (some r) = runnable r.status

abbrev pub dispatchable : Db → JobRow → Bool
dispatchable db j = job_is JobStatus.pending j && order_runnable (order_row j.order_id db.orders)

unfoldable pub pending_jobs : ℕ → Exec Db (List (RowId × ℕ))
unfolding select order_row
pending_jobs limit = do
  raise_if (ltb limit 1 || ltb 1000 limit) (value_error "invalid dispatch batch size")
  gets λ db.
      take limit
        (map (λ j. (j.id, j.attempt_count + 1)) (reverse (select (dispatchable db) db.jobs)))

abbrev pub started : ℕ → ℕ → JobRow → JobRow
started attempt now j = record j {
  status = JobStatus.processing;
  attempt_count = attempt;
  error_code = none;
  started_at = some now;
}

-- UPDATE jobs SET … WHERE id=…
unfoldable pub update_job : RowId → (JobRow → JobRow) → Exec Db (Unit {0})
update_job j f = modify λ db. record db { jobs = update_where (λ r. r.id == j) f db.jobs }

abbrev pub new_attempt : RowId → ℕ → JobAttempt
new_attempt j attempt = record {
  job_id = j;
  attempt_number = attempt;
  status = AttemptStatus.processing;
  error_code = none;
}

abbrev pub claimable : JobRow → Db → Bool
claimable j db = job_is JobStatus.pending j && order_runnable (order_row j.order_id db.orders)

unfoldable pub start_attempt : JobRow → ℕ → Exec Db Claim
unfolding update_job set_order_status
start_attempt j now =
    let attempt = j.attempt_count + 1 in
    do
      raise_if (ltb j.max_attempts attempt)
          (value_error "job exhausted attempts without settlement")
      update_job j.id (started attempt now)
      set_order_status j.order_id OrderStatus.processing
      modify λ db. record db { job_attempts = new_attempt j.id attempt ∷ db.job_attempts }
      pure (record { job_id = j.id; order_id = j.order_id; attempt_number = attempt })

unfoldable pub claim_job : RowId → ℕ → Exec Db (Option Claim)
unfolding start_attempt
claim_job job now = transaction (do
  found ← gets (λ db. job_row job db.jobs)
  elim found [
    | none ↦ pure none
    | some j ↦ do
      free ← gets (claimable j)
      if free then (do c ← start_attempt j now; pure (some c)) else pure none
  ])

-- UPDATE job_attempts SET … WHERE job_id=… AND attempt_number=… AND status='PROCESSING'
unfoldable pub end_attempt : Claim → AttemptStatus → Option Text → Exec Db (Unit {0})
end_attempt c status error = modify λ db. record db {
  job_attempts =
      update_where
        (λ a.
          a.job_id == c.job_id
          && a.attempt_number == c.attempt_number
          && eqb AttemptStatus-discrete a.status AttemptStatus.processing)
        (λ a. record a { status = status; error_code = error }) db.job_attempts;
}

abbrev pub failed_with : Bool → Text → JobRow → JobRow
failed_with exhausted error j = record j {
  status = if exhausted then JobStatus.failed else JobStatus.pending;
  error_code = some error;
}

abbrev pub price_of : Option OrderRow → ℕ
price_of none = 0
price_of (some r) = r.price_snapshot_halalas

-- `if price: await settle(…, kind="RELEASE")`
unfoldable pub release_price : RowId → RowId → Exec Db (Unit {0})
release_price u o = do
  price ← gets (λ db. price_of (order_row o db.orders))
  when (ltb 0 price)
      (settle u o (text "release:" ++ uuid_text o) TransactionType.release >>= λ _. pure tt)

-- The end of a job or a delivery that has no attempt left.
unfoldable pub fail_order : OrderRow → Exec Db (Unit {0})
fail_order r = do
  when (not (order_is OrderStatus.refunded r)) (set_order_status r.id OrderStatus.failed)
  request_star_refund r.id
  release_price r.user_id r.id

abbrev pub active : Claim → JobRow → Bool
active c j = job_is JobStatus.processing j && j.attempt_count == c.attempt_number

unfoldable pub fail_job : Claim → Text → Bool → Exec Db Bool
fail_job c error retryable = do
  raise_if (is_empty error || ltb 100 (length error)) (value_error "invalid error code")
  transaction (do
    found ← gets (λ db. job_row c.job_id db.jobs)
    j ← or_raise found (value_error "job not found")
    joined ← gets (λ db. order_row j.order_id db.orders)
    order ← or_raise joined (value_error "job not found")
    raise_unless (j.order_id == c.order_id) (value_error "job not found")
    raise_unless (active c j) (value_error "attempt no longer active")
    let exhausted = not retryable || leb j.max_attempts j.attempt_count
    end_attempt c AttemptStatus.failed (some error)
    update_job c.job_id (failed_with exhausted error)
    when exhausted (fail_order order)
    pure exhausted)

abbrev pub stale : ℕ → ℕ → JobRow → Bool
stale timeout now j = elim j.started_at [
  | none ↦ false
  | some t ↦ job_is JobStatus.processing j && ltb (t + timeout) now
]

abbrev pub started_at_or_zero : JobRow → ℕ
started_at_or_zero j = elim j.started_at [ none ↦ 0 | some t ↦ t ]

abbrev pub claim_of : JobRow → Claim
claim_of j = record { job_id = j.id; order_id = j.order_id; attempt_number = j.attempt_count }

unfoldable pub fail_all : ℕ → List JobRow → Exec Db ℕ
fail_all zero js = pure 0
fail_all (suc n) [] = pure 0
fail_all (suc n) (j ∷ js) =
    let rest = fail_all n js in
    do fail_job (claim_of j) (text "WORKER_TIMEOUT") true; count ← rest; pure (count + 1)

-- The batch is the 100 stale jobs that started first.
unfoldable pub recover_stale_jobs : ℕ → ℕ → Exec Db ℕ
recover_stale_jobs timeout now = do
  raise_if (ltb timeout 180) (value_error "timeout must exceed the ARQ job execution limit")
  transaction (do
    rows ← gets (λ db. order_by started_at_or_zero (select (stale timeout now) db.jobs))
    fail_all 100 rows)
