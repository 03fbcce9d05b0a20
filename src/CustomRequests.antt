-- ===== src/CustomRequests.antt =====
-- packages/python/platform_core/custom_requests.py: requests for services that are not in the
-- catalog, and their triage by an administrator.
pub mod Triage
pub mod Drafts
use Prim.Native.Nat.{◌/◌, ◌%◌}
use digital_services_platfor.Base.{
  ℕ, zero, suc, ◌+◌, ◌-◌, ◌*◌, ◌≤◌, ◌<◌, min, String, ◌≡◌, refl, sym, ap, ◌∙◌, ◌≢◌, ◌↔◌, ◌⊎◌, inl,
  inr, Bool, true, false, not, ◌&&◌, ◌||◌, Option, none, some, List, [], ◌∷◌, ◌++◌, map, arith, ltb,
  leb, ◌==◌, if◌then◌else◌, eqb, Bool-cases, Option-cases, is_some, length, find, exists,
  count_where, update_where, delete_where, order_by, select, member, distinct,
}
use digital_services_platfor.Int.{
  ℤ, pos, negsuc, ◌+ℤ◌, ◌-ℤ◌, ◌≤ℤ◌, ltb_ℤ, leb_ℤ, ℤ-discrete, int_laws,
}
use digital_services_platfor.Text.{Text, Text-discrete, text, strip, is_empty, uuid_text, uuid_hex}
use digital_services_platfor.Exec.{
  Error, value_error, type_error, insufficient_funds, idempotency_conflict, invalid_settlement,
  payment_mismatch, stars_mismatch, stale_quote, not_found, revision_conflict, transition_rejected,
  update_rejected, unique_violation, provider_error, Result, ok, err, Exec, pure, raise, gets,
  or_raise, transaction, ◌>>=◌, ◌>>◌, raise_if, raise_unless, modify, when,
}
use digital_services_platfor.Schema.{
  CustomRequest, Db, RequestStatus, RowId, AuditLog, AuditMetadata, RequestStatus-discrete,
}
use digital_services_platfor.Stars.Offers.{is_number, is_text}
use digital_services_platfor.Ledger.{same_text}

pub data TriageAction : Type 0 where
  start_review decline other_action : TriageAction

pub record TriageResult : Type 0 where
  pub id : RowId
  pub status : RequestStatus
  pub revision : ℕ

unfoldable pub request_row : RowId → List CustomRequest → Option CustomRequest
request_row i = find λ r. r.id == i

abbrev pub request_is : RequestStatus → CustomRequest → Bool
request_is status r = eqb RequestStatus-discrete r.status status

abbrev pub known_action : TriageAction → Bool
known_action TriageAction.other_action = false
known_action _ = true

abbrev pub starts : TriageAction → Bool
starts TriageAction.start_review = true
starts _ = false

-- The state that an action asks for, and the one that it leads to.
abbrev pub status_before : TriageAction → RequestStatus
status_before a = if starts a then RequestStatus.new else RequestStatus.in_review

abbrev pub status_after : TriageAction → RequestStatus
status_after a = if starts a then RequestStatus.in_review else RequestStatus.declined

unfoldable pub check_action : TriageAction → RowId → CustomRequest → Exec Db (Unit {0})
check_action a actor r =
    if starts a
    then raise_unless (request_is RequestStatus.new r)
        (transition_rejected "only a new request can enter review")
    else (do
      raise_unless (request_is RequestStatus.in_review r)
          (transition_rejected "request cannot be declined in its current state")
      raise_unless (is_number r.reviewed_by_admin_id actor)
          (transition_rejected "request is assigned to another administrator"))

abbrev pub triaged : TriageAction → RowId → Text → CustomRequest → CustomRequest
triaged a actor reason r = record r {
  status = status_after a;
  revision = r.revision + 1;
  reviewed_by_admin_id = some actor;
  decision_reason = if starts a then none else some reason;
}

abbrev pub audit_row : TriageAction → RowId → Text → CustomRequest → AuditLog
audit_row a actor reason r = record {
  actor_admin_id = actor;
  action = text (if starts a then "CUSTOM_REQUEST_REVIEW_STARTED" else "CUSTOM_REQUEST_DECLINED");
  reason = some reason;
  metadata = AuditMetadata.triage (record {
    custom_request_id = r.id;
    status_before = r.status;
    status_after = status_after a;
    revision_before = r.revision;
    revision_after = r.revision + 1;
  });
}

unfoldable pub triage_request : RowId → RowId → ℕ → TriageAction → Text → Exec Db TriageResult
triage_request request actor expected a reason_text =
    let reason = strip reason_text in
    do
      raise_if (ltb expected 1) (transition_rejected "invalid revision")
      raise_unless (known_action a) (transition_rejected "unknown triage action")
      raise_unless (leb 10 (length reason) && leb (length reason) 500)
          (transition_rejected "reason must be 10–500 characters")
      transaction (do
        found ← gets (λ db. request_row request db.custom_requests)
        r ← or_raise found (not_found "custom request not found")
        raise_unless (r.revision == expected)
            (revision_conflict "custom request changed; reload before saving")
        check_action a actor r
        modify λ db. record db {
          custom_requests =
              update_where (λ x. x.id == request) (triaged a actor reason) db.custom_requests;
          audit_logs = audit_row a actor reason r ∷ db.audit_logs;
        }
        pure (record { id = request; status = status_after a; revision = r.revision + 1 }))

abbrev pub is_draft : RowId → Text → CustomRequest → Bool
is_draft u channel r =
    r.user_id == u && same_text r.channel channel && request_is RequestStatus.collecting r

abbrev pub new_draft : RowId → RowId → Text → CustomRequest
new_draft id u channel = record {
  id = id;
  user_id = u;
  channel = channel;
  status = RequestStatus.collecting;
  revision = 1;
  description = none;
  source_message_key = none;
  reviewed_by_admin_id = none;
  decision_reason = none;
}

-- INSERT … ON CONFLICT (user_id,channel) WHERE status='COLLECTING' … RETURNING id
unfoldable pub begin_request : RowId → Text → RowId → Exec Db RowId
begin_request u channel id = do
  raise_if (is_empty channel || ltb 40 (length channel)) (value_error "invalid channel")
  draft ← gets (λ db. find (is_draft u channel) db.custom_requests)
  elim draft [
    | some r ↦ pure r.id
    | none ↦ do
      modify λ db. record db { custom_requests = new_draft id u channel ∷ db.custom_requests }
      pure id
  ]

abbrev pub telegram : Text
telegram = text "telegram"

-- The JOIN of a request with its customer.
abbrev pub of_customer : ℕ → Db → CustomRequest → Bool
of_customer tg db r =
    exists (λ u. u.id == r.user_id && is_number u.telegram_user_id tg) db.users
    && same_text r.channel telegram

unfoldable pub draft_user_id : ℕ → Db → Option RowId
draft_user_id tg db =
    elim (find (λ r. of_customer tg db r && request_is RequestStatus.collecting r)
      db.custom_requests) [ none ↦ none | some r ↦ some r.user_id ]

-- `str(message_id)` of a number below `10 ^ fuel`.
unfoldable pub decimal : ℕ → ℕ → Text → Text
decimal zero n rest = rest
decimal (suc fuel) n rest =
    let digits = (b'0' + n % 10) ∷ rest in
    let more = decimal fuel (n / 10) digits in if ltb n 10 then digits else more

abbrev pub number_text : ℕ → Text
number_text n = decimal (suc n) n []

-- `status IN ('NEW','IN_REVIEW','DECLINED')`
abbrev pub submitted_status : RequestStatus → Bool
submitted_status RequestStatus.new = true
submitted_status RequestStatus.in_review = true
submitted_status RequestStatus.declined = true
submitted_status _ = false

unfoldable pub submitted_telegram_request : ℕ → ℕ → Db → Option RowId
submitted_telegram_request tg message db =
    elim (find
      (λ r.
        of_customer tg db r
        && is_text r.source_message_key (number_text message)
        && submitted_status r.status)
      db.custom_requests) [ none ↦ none | some r ↦ some r.id ]

abbrev pub from_message : RowId → Text → Text → CustomRequest → Bool
from_message u channel message r =
    r.user_id == u && same_text r.channel channel && is_text r.source_message_key message

abbrev pub submitted : Text → Text → CustomRequest → CustomRequest
submitted description message r = record r {
  status = RequestStatus.new;
  description = some description;
  source_message_key = some message;
}

unfoldable pub submit_request : RowId → Text → Text → Text → Exec Db RowId
submit_request u message description_text channel =
    let description = strip description_text in
    do
      raise_if
          (is_empty message
            || ltb 160 (length message)
            || is_empty channel
            || ltb 40 (length channel))
          (value_error "invalid source message key or channel")
      raise_unless (leb 10 (length description) && leb (length description) 2000)
          (value_error "description must be 10–2000 characters")
      transaction (do
        customer ← gets (λ db. exists (λ r. r.id == u) db.users)
        raise_unless customer (value_error "customer not found")
        previous ← gets (λ db. find (from_message u channel message) db.custom_requests)
        elim previous [
          | some r ↦ do
            raise_unless (is_text r.description description) (value_error "message content changed")
            pure r.id
          | none ↦ do
            found ← gets (λ db. find (is_draft u channel) db.custom_requests)
            draft ← or_raise found (value_error "no draft request")
            modify λ db. record db {
              custom_requests =
                  update_where (λ r. r.id == draft.id) (submitted description message)
                    db.custom_requests;
            }
            pure draft.id
        ])

abbrev pub cancelled : CustomRequest → CustomRequest
cancelled r = record r { status = RequestStatus.cancelled }

abbrev pub is_telegram_draft : ℕ → Db → CustomRequest → Bool
is_telegram_draft tg db r = of_customer tg db r && request_is RequestStatus.collecting r

-- The result is `result == "UPDATE 1"`.
unfoldable pub cancel_draft : ℕ → Exec Db Bool
cancel_draft tg = do
  count ← gets (λ db. count_where (is_telegram_draft tg db) db.custom_requests)
  modify λ db. record db {
    custom_requests = update_where (is_telegram_draft tg db) cancelled db.custom_requests;
  }
  pure (count == 1)
