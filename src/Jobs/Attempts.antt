-- ===== src/Jobs/Attempts.antt =====
-- The attempts of a job against `max_attempts`.
use digital_services_platfor.Base.{
  ℕ, ◌+◌, ◌≤◌, ◌≡◌, refl, ap, inl, inr, Bool, Option, none, some, arith, ◌==◌, Option-cases,
  ℕ_discrete, find, true, false,
}
use digital_services_platfor.Text.{Text}
use digital_services_platfor.Schema.{JobRow, Db, RowId, OrderRow, AttemptStatus}
use digital_services_platfor.Jobs.{
  claim_job, fail_job, fail_order, update_job, end_attempt, job_row, start_attempt, release_price,
  Claim, started, failed_with,
}
use digital_services_platfor.Jobs.Complete.{complete_job, enqueue_delivery, completed_with}
use digital_services_platfor.Orders.Insert.{set_order_status}
use digital_services_platfor.Tables.{find-update_where, find_sound}
use digital_services_platfor.Stars.Charges.{request_star_refund}
use digital_services_platfor.Ledger.{settle, order_row}

-- A job that is there has started no more attempts than it may.
abbrev pub WithinAttempts : Option JobRow → Type 0
WithinAttempts none = Unit
WithinAttempts (some j) = j.attempt_count ≤ j.max_attempts

claim_job-WithinAttempts :
    (i job now : ℕ) (db : Db)
    → WithinAttempts (job_row i db.jobs)
    → WithinAttempts (job_row i (claim_job job now db).1.jobs)
unfolding claim_job start_attempt update_job set_order_status job_row
claim_job-WithinAttempts i job now db h = elim (Option-cases (job_row job db.jobs)) [
  | inl missing ↦ ground arith
  | inr (j, found) ↦
      let moved =
        find-update_where (λ r. r.id == i) (λ r. r.id == j.id) (started (j.attempt_count + 1) now)
          (λ x. refl) db.jobs in
      let at_job = find_sound (λ r. r.id == job) j db.jobs found in
      elim (ℕ_discrete i job) [
        | yes e ↦ ground (arith, at_job, moved, ap (λ k. find (λ r. r.id == k) db.jobs) e)
        | no ne ↦ elim (Option-cases (job_row i db.jobs)) [
          | inl gone ↦ ground (arith, moved)
          | inr (r, there) ↦
              ground (arith, at_job, moved, find_sound (λ x. x.id == i) r db.jobs there)
        ]
      ]
]

update_job-WithinAttempts :
    (i j : RowId) (f : JobRow → JobRow) (db : Db)
    → ((r : JobRow)
        → ((f r).id ≡ r.id)
          × ((f r).attempt_count ≡ r.attempt_count)
          × ((f r).max_attempts ≡ r.max_attempts))
    → WithinAttempts (job_row i db.jobs)
    → WithinAttempts (job_row i (update_job j f db).1.jobs)
unfolding update_job job_row
update_job-WithinAttempts i j f db keeps h =
    let moved =
      find-update_where (λ r. r.id == i) (λ r. r.id == j) f (λ x. ap (λ k. k == i) (keeps x).0)
        db.jobs in
    elim (Option-cases (job_row i db.jobs)) [
      | inl missing ↦ ground (arith, moved)
      | inr (r, found) ↦ ground (arith, moved, keeps r)
    ]

pub fail_order-jobs : (r : OrderRow) (db : Db) → (fail_order r db).1.jobs ≡ db.jobs
unfolding fail_order set_order_status release_price request_star_refund settle
fail_order-jobs r db = ground arith

fail_job-WithinAttempts :
    (i : RowId) (c : Claim) (error : Text) (retryable : Bool) (db : Db)
    → WithinAttempts (job_row i db.jobs)
    → WithinAttempts (job_row i (fail_job c error retryable db).1.jobs)
unfolding fail_job end_attempt
fail_job-WithinAttempts i c error retryable db h =
    let marked = (end_attempt c AttemptStatus.failed (some error) db).1 in
    let ended =
      update_job-WithinAttempts i c.job_id (failed_with true error) marked (λ r. (refl, refl, refl))
        h in
    let again =
      update_job-WithinAttempts i c.job_id (failed_with false error) marked
        (λ r. (refl, refl, refl)) h in
    elim (Option-cases (order_row c.order_id db.orders)) [
      | inl missing ↦ ground (arith, ended, again)
      | inr (r, found) ↦ ground (
        arith,
        ended,
        again,
        fail_order-jobs r (update_job c.job_id (failed_with true error) marked).1,
      )
    ]

complete_job-WithinAttempts :
    (i : RowId) (c : Claim) (file id : RowId) (now : ℕ) (db : Db)
    → WithinAttempts (job_row i db.jobs)
    → WithinAttempts (job_row i (complete_job c file id now db).1.jobs)
unfolding complete_job end_attempt set_order_status enqueue_delivery
complete_job-WithinAttempts i c file id now db h =
    let marked = (end_attempt c AttemptStatus.completed none db).1 in
    ground (
      arith,
      update_job-WithinAttempts i c.job_id (completed_with file) marked (λ r. (refl, refl, refl)) h,
    )

-- No call on a job, not the start, the failure or the completion of an attempt, takes a job beyond
-- the attempts that it may start.
pub attempts_bounded :
    (i : RowId) (c : Claim) (job file id now : ℕ) (error : Text) (retryable : Bool) (db : Db)
    → WithinAttempts (job_row i db.jobs)
    → WithinAttempts (job_row i (claim_job job now db).1.jobs)
      × WithinAttempts (job_row i (fail_job c error retryable db).1.jobs)
      × WithinAttempts (job_row i (complete_job c file id now db).1.jobs)
attempts_bounded i c job file id now error retryable db h = (
  claim_job-WithinAttempts i job now db h,
  fail_job-WithinAttempts i c error retryable db h,
  complete_job-WithinAttempts i c file id now db h,
)
