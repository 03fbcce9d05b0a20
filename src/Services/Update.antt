-- ===== src/Services/Update.antt =====
-- `update_service` of packages/python/platform_core/service_registry.py.
use digital_services_platfor.Base.{
  ℕ, ◌+◌, Bool, true, false, not, ◌&&◌, ◌||◌, Option, none, some, List, ◌∷◌, ltb, leb, ◌==◌,
  if◌then◌else◌, eqb, is_some, length, find, update_where,
}
use digital_services_platfor.Int.{ℤ, pos, leb_ℤ, pos_part}
use digital_services_platfor.Text.{Text, text, strip}
use digital_services_platfor.Exec.{
  not_found, revision_conflict, update_rejected, Exec, pure, gets, or_raise, transaction, ◌>>=◌,
  ◌>>◌, raise_if, raise_unless, modify, when,
}
use digital_services_platfor.Schema.{
  Db, RowId, Scalar, ServiceRow, ServiceValues, AuditLog, InputSchema, ProcessorType-discrete,
  integer, string, AuditMetadata, ProcessorType, not_object, InputSchema-discrete, object,
}
use digital_services_platfor.Services.Entry.{length_within}
use digital_services_platfor.Services.Create.{price_valid, stars_valid, same_stars}
use digital_services_platfor.Orders.Inputs.{schema_get}
use digital_services_platfor.Ledger.{same_text}
use digital_services_platfor.Catalog.{is_processor}
use digital_services_platfor.Stars.Offers.{is_text, summary_slug, text_input_schema}

-- The keyword arguments that name new values; `none` leaves a value as it is.
pub record ServiceUpdate : Type 0 where
  pub name_ar : Option Text
  pub description_ar : Option Text
  pub base_price_halalas : Option ℤ
  pub base_price_stars : Option ℤ
  pub enabled : Option Bool

pub record ServiceView : Type 0 where
  pub revision : ℕ
  pub values : ServiceValues

abbrev pub requests_nothing : ServiceUpdate → Bool
requests_nothing u = not (
    is_some u.description_ar
    || is_some u.base_price_halalas
    || is_some u.enabled
    || is_some u.base_price_stars
    || is_some u.name_ar)

abbrev pub name_valid : Option Text → Bool
name_valid none = true
name_valid (some name) = length_within 2 120 (strip name)

abbrev pub description_valid : Option Text → Bool
description_valid none = true
description_valid (some d) = leb (length d) 1000

abbrev pub halalas_valid : Option ℤ → Bool
halalas_valid none = true
halalas_valid (some p) = price_valid p

-- The checks that come before the transaction.
unfoldable pub validate_update : ℕ → Text → ServiceUpdate → Exec Db (Unit {0})
validate_update expected reason u = do
  raise_unless (length_within 10 500 reason) (update_rejected "reason must be 10–500 characters")
  raise_if (ltb expected 1 || requests_nothing u) (update_rejected "no valid update requested")
  raise_unless (name_valid u.name_ar) (update_rejected "name must be 2–120 characters")
  raise_unless (description_valid u.description_ar) (update_rejected "description too long")
  raise_unless (halalas_valid u.base_price_halalas)
      (update_rejected "price must be between 0 and 10000 SAR")
  raise_unless (stars_valid u.base_price_stars)
      (update_rejected "Stars price must be between 1 and 100000")

abbrev pub service_values : ServiceRow → ServiceValues
service_values s = record {
  name_ar = s.name_ar;
  description_ar = s.description_ar;
  base_price_halalas = s.base_price_halalas;
  base_price_stars = s.base_price_stars;
  enabled = s.enabled;
}

abbrev pub or_text : Text → Option Text → Text
or_text old none = old
or_text old (some new) = strip new

abbrev pub or_halalas : ℕ → Option ℤ → ℕ
or_halalas old none = old
or_halalas old (some p) = pos_part p

abbrev pub or_stars : Option ℕ → Option ℤ → Option ℕ
or_stars old none = old
or_stars old (some n) = some (pos_part n)

abbrev pub or_enabled : Bool → Option Bool → Bool
or_enabled old none = old
or_enabled old (some b) = b

-- `name`, `description`, `price`, `stars` and `active`.
abbrev pub new_values : ServiceRow → ServiceUpdate → ServiceValues
new_values s u = record {
  name_ar = or_text s.name_ar u.name_ar;
  description_ar = or_text s.description_ar u.description_ar;
  base_price_halalas = or_halalas s.base_price_halalas u.base_price_halalas;
  base_price_stars = or_stars s.base_price_stars u.base_price_stars;
  enabled = or_enabled s.enabled u.enabled;
}

abbrev pub same_flag : Bool → Bool → Bool
same_flag true b = b
same_flag false b = not b

abbrev pub same_values : ServiceValues → ServiceValues → Bool
same_values v w =
    same_flag v.enabled w.enabled
    && same_text v.description_ar w.description_ar
    && v.base_price_halalas == w.base_price_halalas
    && same_stars v.base_price_stars w.base_price_stars
    && same_text v.name_ar w.name_ar

abbrev pub number_field : Text → ℕ → List (Text × Scalar) → Bool
number_field key n fields = elim (schema_get key fields) [
  | some (integer m) ↦ leb_ℤ m (pos n) && leb_ℤ (pos n) m
  | _ ↦ false
]

abbrev pub text_field : Text → Text → List (Text × Scalar) → Bool
text_field key value fields = elim (schema_get key fields) [
  | some (string s) ↦ same_text s value
  | _ ↦ false
]

unfoldable pub safe_pdf_schema : InputSchema → Bool
unfolding schema_get
safe_pdf_schema (not_object _) = false
safe_pdf_schema (object fields) =
    number_field (text "min_files") 2 fields
    && number_field (text "max_files") 10 fields
    && text_field (text "file_mime") (text "application/pdf") fields

-- A running processor can do the service.
abbrev pub supported_service : ServiceRow → Bool
supported_service s =
    (is_processor s.slug && safe_pdf_schema s.input_schema)
    || (is_text s.processor_key summary_slug
        && eqb InputSchema-discrete s.input_schema text_input_schema)

abbrev pub activatable : Bool → ServiceRow → Bool
activatable category_on s =
    category_on
    && eqb ProcessorType-discrete s.processor_type ProcessorType.tool
    && supported_service s

unfoldable pub check_activation : Bool → Bool → ServiceRow → ServiceValues → Exec Db (Unit {0})
check_activation allow category_on s v = do
  raise_if (is_text s.processor_key summary_slug && not (is_some v.base_price_stars))
      (update_rejected "set a Stars price before activation")
  raise_unless (allow && activatable category_on s)
      (update_rejected "service activation is unavailable")

abbrev pub changes_enabled : Option Bool → Bool → Bool
changes_enabled none old = false
changes_enabled (some b) old = not (same_flag b old)

abbrev pub changed_service : ServiceValues → ServiceRow → ServiceRow
changed_service v s = record s {
  name_ar = v.name_ar;
  description_ar = v.description_ar;
  base_price_halalas = v.base_price_halalas;
  base_price_stars = v.base_price_stars;
  enabled = v.enabled;
  revision = s.revision + 1;
}

abbrev pub update_log : RowId → Text → ServiceRow → ServiceValues → AuditLog
update_log actor reason s v = record {
  actor_admin_id = actor;
  action = text "SERVICE_UPDATED";
  reason = some reason;
  metadata = AuditMetadata.service_change (record {
    service_id = s.id;
    revision_before = s.revision;
    revision_after = s.revision + 1;
    before = service_values s;
    after = v;
  });
}

unfoldable pub service_row_of : RowId → List ServiceRow → Option ServiceRow
service_row_of i = find λ s. s.id == i

-- The UPDATE by `id` and its audit row.
unfoldable pub write_service : RowId → Text → ServiceRow → ServiceValues → Exec Db ServiceView
write_service actor reason s v = do
  modify λ db. record db {
    services =
        update_where (λ x. x.id == s.id)
          (λ x. record (changed_service v x) { revision = s.revision + 1 }) db.services;
    audit_logs = update_log actor reason s v ∷ db.audit_logs;
  }
  pure (record { revision = s.revision + 1; values = v })

-- The row `s` is locked and takes the values `v`; `unconfirmed` is a change of `enabled` that is not
-- confirmed.
unfoldable pub change_service :
    RowId → Text → Bool → Bool → ServiceRow → Bool → ServiceValues → Exec Db ServiceView
unfolding check_activation write_service
change_service actor reason unconfirmed allow s category_on v =
    if same_values v (service_values s)
    then pure (record { revision = s.revision; values = v })
    else (do
      raise_if unconfirmed (update_rejected "confirm availability change explicitly")
      when (v.enabled && not s.enabled) (check_activation allow category_on s v)
      write_service actor reason s v)

-- The transaction of `update_service`.
unfoldable pub locked_update :
    RowId → RowId → ℕ → Text → ServiceUpdate → Bool → Bool → Exec Db ServiceView
unfolding service_row_of
locked_update service actor expected reason u confirm allow = transaction (do
  found ← gets (λ db. service_row_of service db.services)
  s ← or_raise found (not_found "service not found")
  joined ← gets (λ db. find (λ c. c.id == s.category_id) db.categories)
  c ← or_raise joined (not_found "service not found")
  raise_unless (s.revision == expected)
      (revision_conflict "service was changed; reload before saving")
  let unconfirmed = changes_enabled u.enabled s.enabled && not confirm
  change_service actor reason unconfirmed allow s c.enabled (new_values s u))

unfoldable pub update_service :
    RowId → RowId → ℕ → Text → ServiceUpdate → Bool → Bool → Exec Db ServiceView
update_service service actor expected reason_text u confirm allow =
    let reason = strip reason_text in
    do
      validate_update expected reason u
      locked_update service actor expected reason u confirm allow
