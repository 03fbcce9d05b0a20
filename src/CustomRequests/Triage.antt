-- ===== src/CustomRequests/Triage.antt =====
-- What a triage does to a request.
use digital_services_platfor.Base.{
  ℕ, ◌+◌, ◌≡◌, refl, ap, inl, inr, true, ◌||◌, some, ◌∷◌, arith, ◌==◌, Option-cases, find, Option,
  none,
}
use digital_services_platfor.Text.{Text, strip, text}
use digital_services_platfor.Exec.{Result, ok, err, Raised}
use digital_services_platfor.CustomRequests.{
  TriageAction, triage_request, check_action, request_row, TriageResult, status_before, starts,
  triaged,
}
use digital_services_platfor.Schema.{
  RowId, CustomRequest, RequestStatus-discrete, Db, RequestStatus, AuditMetadata,
}
use digital_services_platfor.Stars.Offers.{is_number}
use digital_services_platfor.Tables.{find_sound, find-update_where}

-- The request `r` has moved to `next`, and one audit row of it was written.
abbrev pub TriagedTo :
    RowId
    → Text
    → ℕ
    → CustomRequest
    → Db
    → RequestStatus
    → Option Text
    → Text
    → TriageResult
    → Db
    → Type 0
TriagedTo actor reason expected r db next decision action t db' =
    (r.revision ≡ expected)
    × (request_row r.id db'.custom_requests
        ≡ some (record r {
          status = next;
          revision = expected + 1;
          reviewed_by_admin_id = some actor;
          decision_reason = decision;
        }))
    × (db'.audit_logs
        ≡ record {
          actor_admin_id = actor;
          action = action;
          reason = some reason;
          metadata = AuditMetadata.triage (record {
            custom_request_id = r.id;
            status_before = r.status;
            status_after = next;
            revision_before = expected;
            revision_after = expected + 1;
          });
        }
          ∷ db.audit_logs)
    × (t ≡ record { id = r.id; status = next; revision = expected + 1 })

-- What has become of the request `r`, with the trimmed `reason`.
abbrev pub Triaged :
    TriageAction → RowId → Text → ℕ → CustomRequest → Db → Result TriageResult × Db → Type 0
Triaged a actor reason expected r db (err e, db') = db' ≡ db
Triaged a actor reason expected r db (ok t, db') = elim a [
  | TriageAction.start_review ↦
      (r.status ≡ RequestStatus.new)
      × TriagedTo actor reason expected r db RequestStatus.in_review none
          (text "CUSTOM_REQUEST_REVIEW_STARTED") t db'
  | TriageAction.decline ↦
      (r.status ≡ RequestStatus.in_review)
      × (r.reviewed_by_admin_id ≡ some actor)
      × TriagedTo actor reason expected r db RequestStatus.declined (some reason)
          (text "CUSTOM_REQUEST_DECLINED") t db'
  | TriageAction.other_action ↦ ⊥
]

check_action_sound :
    (a : TriageAction) (actor : RowId) (r : CustomRequest) (db : Db)
    → (check_action a actor r db).0 ≡ ok tt
    → (r.status ≡ status_before a) × (starts a || is_number r.reviewed_by_admin_id actor ≡ true)
unfolding check_action RequestStatus-discrete
check_action_sound a actor r db e = (ground arith, ground arith)

check_action-frame :
    (a : TriageAction) (actor : RowId) (r : CustomRequest) (db : Db)
    → (check_action a actor r db).1 ≡ db
unfolding check_action
check_action-frame a actor r db = ground arith

-- A triage that returns moves a request of the expected revision one step, from NEW to IN_REVIEW
-- or, by its reviewer, from IN_REVIEW to DECLINED with the reason, raises its revision by one and
-- writes one audit row of it; a triage that raises changes nothing.
pub triage_request-Triaged :
    (request actor : RowId) (expected : ℕ) (a : TriageAction) (reason : Text) (r : CustomRequest)
    (db : Db)
    → request_row request db.custom_requests ≡ some r
    → Triaged a actor
        (strip reason)
        expected
        r
        db
        (triage_request request actor expected a reason db)
unfolding triage_request request_row
triage_request-Triaged request actor expected TriageAction.other_action reason r db found =
    ground arith
triage_request-Triaged request actor expected a reason r db found = ground (
  arith,
  check_action_sound a actor r db,
  check_action-frame a actor r db,
  find_sound (λ x. x.id == request) r db.custom_requests found,
  find-update_where (λ x. x.id == request) (λ x. x.id == request) (triaged a actor (strip reason))
      (λ x. refl) db.custom_requests,
  ap (λ k. find (λ x. x.id == k) db.custom_requests),
)

-- Of two triages that expect the same revision only one can succeed: after one has returned, the
-- other raises and changes nothing.
pub triage_request_stale :
    (request actor other : RowId) (expected : ℕ) (a b : TriageAction) (reason note : Text)
    (t : TriageResult) (db db' : Db)
    → triage_request request actor expected a reason db ≡ (ok t, db')
    → let (r, db'') = triage_request request other expected b note db' in Raised r × (db'' ≡ db')
unfolding triage_request request_row
triage_request_stale request actor other expected a b reason note t db db' e =
    elim (Option-cases (find (λ x. x.id == request) db.custom_requests)) [
      | inl missing ↦ ground arith
      | inr (r, found) ↦ ground (
        arith,
        check_action-frame a actor r db,
        find_sound (λ x. x.id == request) r db.custom_requests found,
        find-update_where (λ x. x.id == request) (λ x. x.id == request)
            (triaged a actor (strip reason)) (λ x. refl) db.custom_requests,
      )
    ]
