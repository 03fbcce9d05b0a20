-- ===== src/Jobs/Graph.antt =====
-- The states of a job, and the moves between them.
use digital_services_platfor.Base.{
  ℕ, ◌+◌, ◌≡◌, refl, ap, inl, inr, Bool, true, false, Option, none, some, List, arith, ◌==◌, eqb,
  Option-cases, find, update_where, ℕ_discrete,
}
use digital_services_platfor.Text.{Text}
use digital_services_platfor.Schema.{
  JobRow, JobStatus, JobStatus-discrete, RowId, Db, AttemptStatus,
}
use digital_services_platfor.Jobs.{
  job_row, started, claim_job, fail_job, Claim, end_attempt, start_attempt, update_job, failed_with,
}
use digital_services_platfor.Tables.{find_sound, find-update_where}
use digital_services_platfor.Jobs.Complete.{complete_job, enqueue_delivery, completed_with}
use digital_services_platfor.Orders.Insert.{set_order_status}
use digital_services_platfor.Ledger.{order_row}
use digital_services_platfor.Jobs.Attempts.{fail_order-jobs}

infix 40 ◌⟶◌
pub data ◌⟶◌ : JobStatus → JobStatus → Type 0 where
  stay : {s : JobStatus} → s ⟶ s
  start : JobStatus.pending ⟶ JobStatus.processing
  retry : JobStatus.processing ⟶ JobStatus.pending
  give_up : JobStatus.processing ⟶ JobStatus.failed
  finish : JobStatus.processing ⟶ JobStatus.completed

ruleset moves = (stay, start, retry, give_up, finish)

-- Whether there is a move, decided.
abbrev pub can_move : JobStatus → JobStatus → Bool
can_move JobStatus.pending JobStatus.processing = true
can_move JobStatus.processing JobStatus.pending = true
can_move JobStatus.processing JobStatus.failed = true
can_move JobStatus.processing JobStatus.completed = true
can_move s t = eqb JobStatus-discrete s t

can_move-⟶ : (s t : JobStatus) → can_move s t ≡ true → s ⟶ t
unfolding JobStatus-discrete
can_move-⟶ s t e = grind (arith, moves)

can_move_refl : (s : JobStatus) → can_move s s ≡ true
unfolding JobStatus-discrete
can_move_refl s = ground arith

-- A job that is there stays there, and its status may move as it does.
abbrev Steps : Option JobRow → Option JobRow → Type 0
Steps none after = Unit
Steps (some j) none = ⊥
Steps (some j) (some j') = can_move j.status j'.status ≡ true

Steps-refl : (o : Option JobRow) → Steps o o
Steps-refl none = tt
Steps-refl (some j) = can_move_refl j.status

-- An UPDATE of one job that makes a move.
update_where-Steps :
    (i job : RowId) (j : JobRow) (f : JobRow → JobRow) (js : List JobRow)
    → ((x : JobRow) → (f x).id ≡ x.id)
    → job_row job js ≡ some j
    → can_move j.status (f j).status ≡ true
    → Steps (job_row i js) (job_row i (update_where (λ r. r.id == job) f js))
unfolding job_row
update_where-Steps i job j f js keeps found move =
    let moved =
      find-update_where (λ r. r.id == i) (λ r. r.id == job) f (λ x. ap (λ k. k == i) (keeps x))
        js in
    let at_job = find_sound (λ r. r.id == job) j js found in
    elim (ℕ_discrete i job) [
      | yes e ↦ ground (arith, at_job, moved, ap (λ k. find (λ r. r.id == k) js) e)
      | no ne ↦ elim (Option-cases (job_row i js)) [
        | inl gone ↦ ground (arith, moved)
        | inr (r, there) ↦
            ground (arith, moved, find_sound (λ x. x.id == i) r js there, can_move_refl r.status)
      ]
    ]

job_row-id : (job : ℕ) (j : JobRow) (js : List JobRow) → job_row job js ≡ some j → j.id ≡ job
unfolding job_row
job_row-id job j js e = ground (arith, find_sound (λ r. r.id == job) j js e)

claim_job-Steps :
    (i job now : ℕ) (db : Db) → Steps (job_row i db.jobs) (job_row i (claim_job job now db).1.jobs)
unfolding claim_job start_attempt update_job set_order_status JobStatus-discrete
claim_job-Steps i job now db = elim (Option-cases (job_row job db.jobs)) [
  | inl missing ↦ ground (arith, Steps-refl (job_row i db.jobs))
  | inr (j, found) ↦ ground (
    arith,
    Steps-refl (job_row i db.jobs),
    job_row-id job j db.jobs found,
    update_where-Steps i j.id j (started (j.attempt_count + 1) now) db.jobs (λ x. refl),
    ap (λ k. job_row k db.jobs) (job_row-id job j db.jobs found),
  )
]

fail_job-Steps :
    (i : RowId) (c : Claim) (error : Text) (retryable : Bool) (db : Db)
    → Steps (job_row i db.jobs) (job_row i (fail_job c error retryable db).1.jobs)
unfolding fail_job end_attempt update_job JobStatus-discrete
fail_job-Steps i c error retryable db =
    let same = Steps-refl (job_row i db.jobs) in
    let marked = (end_attempt c AttemptStatus.failed (some error) db).1 in
    let failed = (update_job c.job_id (failed_with true error) marked).1 in
    elim (Option-cases (job_row c.job_id db.jobs)) [
      | inl missing ↦ ground (arith, same)
      | inr (j, found) ↦ elim (Option-cases (order_row j.order_id db.orders)) [
        | inl missing ↦ ground (arith, same)
        | inr (r, ordered) ↦ ground (
          arith,
          same,
          fail_order-jobs r failed,
          update_where-Steps i c.job_id j (failed_with true error) db.jobs (λ x. refl) found,
          update_where-Steps i c.job_id j (failed_with false error) db.jobs (λ x. refl) found,
        )
      ]
    ]

complete_job-Steps :
    (i : RowId) (c : Claim) (file id : RowId) (now : ℕ) (db : Db)
    → Steps (job_row i db.jobs) (job_row i (complete_job c file id now db).1.jobs)
unfolding complete_job end_attempt update_job set_order_status enqueue_delivery JobStatus-discrete
complete_job-Steps i c file id now db =
    let same = Steps-refl (job_row i db.jobs) in
    elim (Option-cases (job_row c.job_id db.jobs)) [
      | inl missing ↦ ground (arith, same)
      | inr (j, found) ↦ ground (
        arith,
        same,
        update_where-Steps i c.job_id j (completed_with file) db.jobs (λ x. refl) found,
      )
    ]

-- A job that is there stays there, and its status follows a move.
abbrev pub Moved : Option JobRow → Option JobRow → Type 0
Moved none after = Unit
Moved (some j) none = ⊥
Moved (some j) (some j') = j.status ⟶ j'.status

Steps-Moved : (o o' : Option JobRow) → Steps o o' → Moved o o'
Steps-Moved none o' h = tt
Steps-Moved (some j) none h = h
Steps-Moved (some j) (some j') h = can_move-⟶ j.status j'.status h

-- A claim, a failure or a completion moves every job along the diagram, or not at all: no job
-- leaves COMPLETED or FAILED, and none skips PROCESSING.
pub job_calls-Moved :
    (i : RowId) (c : Claim) (job file id now : ℕ) (error : Text) (retryable : Bool) (db : Db)
    → Moved (job_row i db.jobs) (job_row i (claim_job job now db).1.jobs)
      × Moved (job_row i db.jobs) (job_row i (fail_job c error retryable db).1.jobs)
      × Moved (job_row i db.jobs) (job_row i (complete_job c file id now db).1.jobs)
job_calls-Moved i c job file id now error retryable db =
    let before = job_row i db.jobs in
    (
      Steps-Moved before (job_row i (claim_job job now db).1.jobs) (claim_job-Steps i job now db),
      Steps-Moved before (job_row i (fail_job c error retryable db).1.jobs)
          (fail_job-Steps i c error retryable db),
      Steps-Moved before (job_row i (complete_job c file id now db).1.jobs)
          (complete_job-Steps i c file id now db),
    )
