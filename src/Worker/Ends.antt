-- ===== src/Worker/Ends.antt =====
-- How a run of a job ends.
use digital_services_platfor.Base.{◌≡◌, Option, some, Bool, false, true, not, none}
use digital_services_platfor.Exec.{Result, ok, ◌>>◌}
use digital_services_platfor.Schema.{Db, RowId, JobRow, OrderRow, JobStatus}
use digital_services_platfor.Ledger.{order_row}
use digital_services_platfor.Jobs.{Claim, job_row, active, job_is}
use digital_services_platfor.Text.{Text}
use digital_services_platfor.Jobs.Ends.{IsReleasable}

-- What an operation on files leaves alone.
abbrev OnlyFiles : Db → Db → Type 0
OnlyFiles db db' =
    (db'.jobs ≡ db.jobs)
    × (db'.orders ≡ db.orders)
    × (db'.wallets ≡ db.wallets)
    × (db'.wallet_transactions ≡ db.wallet_transactions)

-- A job that is there and is not PROCESSING.
abbrev pub has_ended : Option JobRow → Bool
has_ended none = false
has_ended (some j) = not (job_is JobStatus.processing j)

-- What holds of a claim while its job runs.
record IsRunning (claim : Claim) (j : JobRow) (r : OrderRow) (db : Db) : Type 0 where
  found : job_row claim.job_id db.jobs ≡ some j
  same : j.order_id ≡ claim.order_id
  running : active claim j ≡ true
  ordered : order_row claim.order_id db.orders ≡ some r
  releasable : IsReleasable r.user_id claim.order_id db

-- The call returns, and the job is not PROCESSING.
abbrev pub Ends : RowId → Result (Unit {0}) × Db → Type 0
Ends job (result, db') = (result ≡ ok tt) × (has_ended (job_row job db'.jobs) ≡ true)
