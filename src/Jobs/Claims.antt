-- ===== src/Jobs/Claims.antt =====
-- Claims of jobs by several workers.
use digital_services_platfor.Base.{
  ℕ, ◌+◌, ◌≡◌, refl, inl, inr, Bool, false, none, some, arith, ◌==◌, Option-cases, ◌≢◌, true,
}
use digital_services_platfor.Text.{Text}
use digital_services_platfor.Exec.{ok, Raised}
use digital_services_platfor.Jobs.{
  claim_job, fail_job, start_attempt, Claim, update_job, job_row, active, started,
}
use digital_services_platfor.Jobs.Complete.{complete_job}
use digital_services_platfor.Orders.Insert.{set_order_status}
use digital_services_platfor.Schema.{JobRow, RowId, Db, JobStatus-discrete}
use digital_services_platfor.Tables.{find_sound, find-update_where}
use digital_services_platfor.Jobs.Ends.{claim_job-active}

-- A job that was claimed cannot be claimed again: the next claim finds nothing and changes nothing.
pub claim_job-exclusive :
    (job now later : ℕ) (c : Claim) (db db' : Db)
    → claim_job job now db ≡ (ok (some c), db')
    → claim_job job later db' ≡ (ok none, db')
unfolding claim_job start_attempt update_job set_order_status job_row
claim_job-exclusive job now later c db db' e = elim (Option-cases (job_row job db.jobs)) [
  | inl missing ↦ ground arith
  | inr (j, found) ↦ ground (
    arith,
    find_sound (λ r. r.id == job) j db.jobs found,
    find-update_where (λ r. r.id == job) (λ r. r.id == j.id) (started (j.attempt_count + 1) now)
        (λ x. refl) db.jobs,
  )
]

inactive_claim_rejected :
    (c : Claim) (j : JobRow) (file id : RowId) (now : ℕ) (error : Text) (retryable : Bool) (db : Db)
    → job_row c.job_id db.jobs ≡ some j
    → active c j ≡ false
    → let (r, db1) = complete_job c file id now db in
      let (s, db2) = fail_job c error retryable db in
      (Raised r × (db1 ≡ db)) × (Raised s × (db2 ≡ db))
unfolding complete_job fail_job
inactive_claim_rejected c j file id now error retryable db found lost = (ground arith, ground arith)

other_attempt_inactive :
    (c other : Claim) (j : JobRow)
    → active other j ≡ true
    → c.attempt_number ≢ other.attempt_number
    → active c j ≡ false
unfolding JobStatus-discrete
other_attempt_inactive c other j running differs = ground arith

-- Once a job is claimed, a claim of the same job with any other attempt number can neither complete
-- nor fail it: both raise, and change nothing.
pub lost_claim_rejected :
    (c claimed : Claim) (file id : RowId) (claimed_at now : ℕ) (error : Text) (retryable : Bool)
    (db db' : Db)
    → claim_job c.job_id claimed_at db ≡ (ok (some claimed), db')
    → c.attempt_number ≢ claimed.attempt_number
    → let (r, db1) = complete_job c file id now db' in
      let (s, db2) = fail_job c error retryable db' in
      (Raised r × (db1 ≡ db')) × (Raised s × (db2 ≡ db'))
lost_claim_rejected c claimed file id claimed_at now error retryable db db' e differs =
    let (at_job, (j, found, same, running)) =
      claim_job-active c.job_id claimed_at claimed db db' e in
    inactive_claim_rejected c j file id now error retryable db' found
      (other_attempt_inactive c claimed j running differs)
