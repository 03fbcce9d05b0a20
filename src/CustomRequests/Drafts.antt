-- ===== src/CustomRequests/Drafts.antt =====
-- Submissions of a draft.
use digital_services_platfor.Base.{
  ◌≡◌, inl, inr, Option, none, some, List, [], ◌∷◌, arith, ◌==◌, Option-cases, find, update_where,
}
use digital_services_platfor.Text.{Text, strip}
use digital_services_platfor.Exec.{ok}
use digital_services_platfor.CustomRequests.{submit_request, from_message, is_draft, submitted}
use digital_services_platfor.Schema.{RowId, Db, CustomRequest}

-- The request that a message has become.
abbrev IsSubmission : RowId → Text → Option CustomRequest → Type 0
IsSubmission id description none = ⊥
IsSubmission id description (some r) = (r.id ≡ id) × (r.description ≡ some description)

submitted-IsSubmission :
    (u : RowId) (channel message description : Text) (d : CustomRequest) (rs : List CustomRequest)
    → find (from_message u channel message) rs ≡ none
    → find (is_draft u channel) rs ≡ some d
    → IsSubmission d.id description (
        find
          (from_message u channel message)
          (update_where (λ r. r.id == d.id) (submitted description message) rs))
unfolding find update_where
submitted-IsSubmission u channel message description d [] new found = cc
submitted-IsSubmission u channel message description d (r ∷ rs) new found =
    ground (arith, submitted-IsSubmission u channel message description d rs)

-- A submission that is delivered again returns the same request, and changes nothing.
pub submit_request_repeat :
    (u : RowId) (message description channel : Text) (id : RowId) (db db' : Db)
    → submit_request u message description channel db ≡ (ok id, db')
    → submit_request u message description channel db' ≡ (ok id, db')
unfolding submit_request
submit_request_repeat u message description channel id db db' e =
    elim (Option-cases (find (from_message u channel message) db.custom_requests)) [
      | inr (r, known) ↦ ground arith
      | inl new ↦ elim (Option-cases (find (is_draft u channel) db.custom_requests)) [
        | inl missing ↦ ground arith
        | inr (d, found) ↦ ground (
          arith,
          submitted-IsSubmission u channel message (strip description) d db.custom_requests new
              found,
        )
      ]
    ]
