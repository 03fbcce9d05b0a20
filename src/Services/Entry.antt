-- ===== src/Services/Entry.antt =====
-- `validate_new_entry` and `create_category` of packages/python/platform_core/service_registry.py.
use digital_services_platfor.Base.{
  ℕ, Bool, true, not, ◌&&◌, ◌||◌, Option, none, some, List, [], ◌∷◌, ltb, leb, ◌==◌, if◌then◌else◌,
  length, find,
}
use digital_services_platfor.Text.{Text, text, strip}
use digital_services_platfor.Exec.{
  revision_conflict, update_rejected, Result, ok, err, Exec, pure, gets, transaction, ◌>>=◌, ◌>>◌,
  raise_unless, modify, reads,
}
use digital_services_platfor.Schema.{CategoryRow, RowId, AuditLog, Db, AuditMetadata}
use digital_services_platfor.Ledger.{same_text}

pub record Entry : Type 0 where
  pub slug : Text
  pub name_ar : Text
  pub reason : Text

-- `[a-z0-9]`
abbrev pub slug_char : ℕ → Bool
slug_char c = (leb b'a' c && leb c b'z') || (leb b'0' c && leb c b'9')

-- `[a-z0-9]+(?:-[a-z0-9]+)*\Z`, where `start` tells that a group has no character yet.
unfoldable pub slug_groups : Bool → Text → Bool
slug_groups start [] = not start
slug_groups start (c ∷ s) =
    let rest = slug_groups (not (slug_char c)) s in
    if slug_char c then rest else (c == b'-' && not start && rest)

abbrev pub length_within : ℕ → ℕ → Text → Bool
length_within low high t = leb low (length t) && leb (length t) high

unfoldable pub validate_new_entry : Text → Text → Text → Result Entry
unfolding slug_groups
validate_new_entry slug_text name_text reason_text =
    let slug = strip slug_text in
    let name = strip name_text in
    let reason = strip reason_text in
    if ltb 60 (length slug) || not (slug_groups true slug)
    then err (update_rejected "invalid slug")
    else if not (length_within 2 120 name)
    then err (update_rejected "name must be 2–120 characters")
    else if not (length_within 10 500 reason)
    then err (update_rejected "reason must be 10–500 characters")
    else ok (record { slug = slug; name_ar = name; reason = reason })

abbrev pub category_of : RowId → Entry → CategoryRow
category_of id e = record { id = id; slug = e.slug; name_ar = e.name_ar; enabled = true }

unfoldable pub category_by_slug : Text → List CategoryRow → Option CategoryRow
category_by_slug slug = find λ c. same_text c.slug slug

abbrev pub category_log : RowId → RowId → Entry → AuditLog
category_log actor id e = record {
  actor_admin_id = actor;
  action = text "CATEGORY_CREATED";
  reason = some e.reason;
  metadata =
      AuditMetadata.category_created
        (record { category_id = id; slug = e.slug; name_ar = e.name_ar });
}

unfoldable pub create_category : RowId → RowId → Text → Text → Text → Exec Db RowId
unfolding validate_new_entry category_by_slug
create_category id actor slug name reason = do
  e ← reads λ _. validate_new_entry slug name reason
  transaction (do
    existing ← gets (λ db. category_by_slug e.slug db.categories)
    elim existing [
      | some c ↦ do
        raise_unless (same_text c.name_ar e.name_ar)
            (revision_conflict "category slug already used")
        pure c.id
      | none ↦ do
        modify λ db. record db {
          categories = category_of id e ∷ db.categories;
          audit_logs = category_log actor id e ∷ db.audit_logs;
        }
        pure id
    ])
