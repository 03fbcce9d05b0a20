-- ===== src/Jobs/Ends.antt =====
-- That a job can be failed, and what a call on a claimed job leaves.
use digital_services_platfor.Base.{
  ◌≡◌, refl, ap, ◌∙◌, ◌⊎◌, inl, inr, true, none, ◌++◌, arith, ◌==◌, Option-cases, is_some, exists,
  ℕ, Bool, some, ◌||◌, ltb, length, false, ◌+◌, not, leb, Bool-cases,
}
use digital_services_platfor.Text.{text, uuid_text, Text, is_empty}
use digital_services_platfor.Exec.{ok, Error, err, Result-cases}
use digital_services_platfor.Schema.{
  RowId, Db, OrderRow, OrderStatus, TransactionType, JobStatus-discrete, JobRow, AttemptStatus,
}
use digital_services_platfor.Jobs.{
  fail_order, release_price, price_of, claim_job, fail_job, end_attempt, start_attempt, update_job,
  job_row, Claim, active, started, failed_with,
}
use digital_services_platfor.Stars.Charges.{request_star_refund}
use digital_services_platfor.Orders.Insert.{set_order_status}
use digital_services_platfor.Ledger.{reservation, order_row, settlement_row, key_row}
use digital_services_platfor.Ledger.Effects.{settle_total}
use digital_services_platfor.Jobs.Refunds.{price_of-set_order_status}
use digital_services_platfor.Jobs.Complete.{complete_job, enqueue_delivery, completed_with}
use digital_services_platfor.Tables.{find_sound, find-update_where, eq_of_==}
use digital_services_platfor.Jobs.Attempts.{fail_order-jobs}

-- The wallet holds the reservation of the order, which is not settled.
abbrev pub IsHeld : RowId → RowId → Db → Type 0
IsHeld u o db =
    (exists (λ w. w == u) db.wallets ≡ true)
    × (is_some (reservation u o db.wallet_transactions) ≡ true)
    × (settlement_row o db.wallet_transactions ≡ none)
    × (key_row u (text "release:" ++ uuid_text o) db.wallet_transactions ≡ none)

-- An order that costs no halalas, or whose price is held.
abbrev pub IsReleasable : RowId → RowId → Db → Type 0
IsReleasable u o db = (price_of (order_row o db.orders) ≡ 0) ⊎ IsHeld u o db

release_price-total :
    (u o : RowId) (db : Db) → IsReleasable u o db → (release_price u o db).0 ≡ ok tt
unfolding release_price
release_price-total u o db (inl free) = ground arith
release_price-total u o db (inr (w, held, unsettled, fresh)) =
    elim (Option-cases (reservation u o db.wallet_transactions)) [
      | inl missing ↦ absurd (ground arith)
      | inr (h, found) ↦ ground (
        arith,
        settle_total u o (text "release:" ++ uuid_text o) TransactionType.release h db w refl found
            unsettled fresh,
      )
    ]

request_star_refund-frame :
    (o : RowId) (db : Db)
    → let (r, db') = request_star_refund o db in
      (r ≡ ok tt)
      × (db'.orders ≡ db.orders)
      × (db'.wallets ≡ db.wallets)
      × (db'.wallet_transactions ≡ db.wallet_transactions)
unfolding request_star_refund
request_star_refund-frame o db = ground arith

pub IsReleasable-frame :
    (u o : RowId) (db db' : Db)
    → price_of (order_row o db'.orders) ≡ price_of (order_row o db.orders)
    → db'.wallets ≡ db.wallets
    → db'.wallet_transactions ≡ db.wallet_transactions
    → IsReleasable u o db
    → IsReleasable u o db'
IsReleasable-frame u o db db' p w t (inl free) = inl (p ∙ free)
IsReleasable-frame u o db db' p w t (inr held) = inr (rw (w, t) held)

fail_order-total :
    (r : OrderRow) (db : Db) → IsReleasable r.user_id r.id db → (fail_order r db).0 ≡ ok tt
unfolding fail_order set_order_status
fail_order-total r db h =
    let marked = (set_order_status r.id OrderStatus.failed db).1 in
    let at_once = request_star_refund-frame r.id db in
    let after = request_star_refund-frame r.id marked in
    let priced = price_of-set_order_status r.id r.id OrderStatus.failed db in
    let direct = (request_star_refund r.id db).1 in
    let both = (request_star_refund r.id marked).1 in
    ground (
      arith,
      at_once,
      after,
      release_price-total r.user_id r.id direct (
          IsReleasable-frame r.user_id r.id db direct
            (ap (λ os. price_of (order_row r.id os)) at_once.1) at_once.2 at_once.3 h),
      release_price-total r.user_id r.id both (
          IsReleasable-frame r.user_id r.id db both
            (ap (λ os. price_of (order_row r.id os)) after.1 ∙ priced) after.2 after.3 h),
    )

-- A running attempt of a releasable order can be failed: the call returns whether the job is
-- exhausted, and the job is FAILED or PENDING again.
pub fail_job-total :
    (c : Claim) (code : Text) (retryable : Bool) (j : JobRow) (r : OrderRow) (db : Db)
    → is_empty code || ltb 100 (length code) ≡ false
    → job_row c.job_id db.jobs ≡ some j
    → j.order_id ≡ c.order_id
    → active c j ≡ true
    → order_row c.order_id db.orders ≡ some r
    → IsReleasable r.user_id c.order_id db
    → let exhausted = not retryable || leb j.max_attempts j.attempt_count in
      let (result, db') = fail_job c code retryable db in
      (result ≡ ok exhausted) × (job_row c.job_id db'.jobs ≡ some (failed_with exhausted code j))
unfolding fail_job end_attempt update_job job_row order_row
fail_job-total c code retryable j r db valid found same running ordered releasable =
    let marked = (end_attempt c AttemptStatus.failed (some code) db).1 in
    let exhausted = not retryable || leb j.max_attempts j.attempt_count in
    let failed = (update_job c.job_id (failed_with exhausted code) marked).1 in
    let own = find_sound (λ x. x.id == c.order_id) r db.orders ordered in
    let own_id = eq_of_== r.id c.order_id own in
    let total = fail_order-total r failed (rw own_id releasable) in
    let moved =
      find-update_where (λ x. x.id == c.job_id) (λ x. x.id == c.job_id) (failed_with exhausted code)
        (λ x. refl) db.jobs in
    elim (Bool-cases exhausted) [
      | inr again ↦ ground (arith, moved, find_sound (λ x. x.id == c.job_id) j db.jobs found)
      | inl last ↦ ground (
        arith,
        moved,
        total,
        fail_order-jobs r failed,
        find_sound (λ x. x.id == c.job_id) j db.jobs found,
      )
    ]

-- A completion completes the job, or raises and changes nothing.
pub complete_job-ends :
    (c : Claim) (file id : RowId) (now : ℕ) (j : JobRow) (db : Db)
    → job_row c.job_id db.jobs ≡ some j
    → let (result, db') = complete_job c file id now db in
      ((result ≡ ok tt) × (job_row c.job_id db'.jobs ≡ some (completed_with file j)))
      ⊎ ((x : Error) × (result ≡ err x) × (db' ≡ db))
unfolding complete_job end_attempt update_job set_order_status enqueue_delivery job_row
complete_job-ends c file id now j db found =
    let moved =
      find-update_where (λ x. x.id == c.job_id) (λ x. x.id == c.job_id) (completed_with file)
        (λ x. refl) db.jobs in
    elim (Result-cases (complete_job c file id now db).0) [
      | inr (x, failed) ↦ inr (x, failed, ground arith)
      | inl (t, done) ↦
          inl (done, ground (arith, moved, find_sound (λ x. x.id == c.job_id) j db.jobs found))
    ]

-- What a claim has marked.
pub claim_job-active :
    (job now : ℕ) (c : Claim) (db db' : Db)
    → claim_job job now db ≡ (ok (some c), db')
    → (c.job_id ≡ job)
      × ((j : JobRow) × (job_row job db'.jobs ≡ some j)
          × (j.order_id ≡ c.order_id)
          × (active c j ≡ true))
unfolding claim_job start_attempt update_job set_order_status job_row JobStatus-discrete
claim_job-active job now c db db' e = elim (Option-cases (job_row job db.jobs)) [
  | inl missing ↦ absurd (ground arith)
  | inr (j, found) ↦
      let at_job = find_sound (λ r. r.id == job) j db.jobs found in
      let moved =
        find-update_where (λ r. r.id == job) (λ r. r.id == j.id) (started (j.attempt_count + 1) now)
          (λ x. refl) db.jobs in
      (
        ground (arith, at_job),
        (
          started (j.attempt_count + 1) now j,
          ground (arith, at_job, moved),
          ground (arith, at_job),
          ground (arith, at_job),
        ),
      )
]
