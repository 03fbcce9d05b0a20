-- ===== src/Services/Create.antt =====
-- `create_service` of packages/python/platform_core/service_registry.py. `json_size` is the number
-- of bytes of `json.dumps(…).encode("utf-8")`, if it does not raise.
use digital_services_platfor.Base.{
  ℕ, Bool, true, false, not, ◌&&◌, ◌||◌, Option, none, some, List, ◌∷◌, ltb, ◌==◌, if◌then◌else◌,
  eqb, is_some, length, find, exists,
}
use digital_services_platfor.Int.{ℤ, pos, leb_ℤ, pos_part}
use digital_services_platfor.Text.{Text, text, strip, is_empty}
use digital_services_platfor.Exec.{
  not_found, revision_conflict, update_rejected, Exec, pure, gets, or_raise, transaction, ◌>>=◌,
  ◌>>◌, raise_if, raise_unless, modify, reads,
}
use digital_services_platfor.Schema.{
  Db, InputSchema, ProcessorType, RowId, ServiceRow, ProcessorType-discrete, object, AuditLog,
  InputSchema-discrete, not_object, AuditMetadata,
}
use digital_services_platfor.Ledger.{same_text}
use digital_services_platfor.Stars.Offers.{
  is_text, summary_slug, same_option_text, text_input_schema, pdf_input_schema,
}
use digital_services_platfor.Services.Entry.{Entry, validate_new_entry}

-- The keyword arguments of `create_service`. A `processor_type` of `none` is a text that names no
-- type of processor.
pub record NewService : Type 0 where
  pub category_id : RowId
  pub slug : Text
  pub name_ar : Text
  pub description_ar : Text
  pub processor_type : Option ProcessorType
  pub base_price_halalas : ℤ
  pub input_schema : InputSchema
  pub reason : Text
  pub base_price_stars : Option ℤ
  pub processor_key : Option Text

abbrev pub price_valid : ℤ → Bool
price_valid p = leb_ℤ (pos 0) p && leb_ℤ p (pos 1000000)

abbrev pub stars_valid : Option ℤ → Bool
stars_valid none = true
stars_valid (some n) = leb_ℤ (pos 1) n && leb_ℤ n (pos 100000)

abbrev pub is_object : InputSchema → Bool
is_object (object _) = true
is_object (not_object _) = false

abbrev pub merge_slug : Text
merge_slug = text "merge-pdf"

abbrev pub implemented : Text → Bool
implemented slug = same_text slug summary_slug || same_text slug merge_slug

-- `processor_key or (slug if slug in {…} else None)`
abbrev pub chosen_key : Option Text → Text → Option Text
chosen_key none slug = if implemented slug then some slug else none
chosen_key (some key) slug =
    if not (is_empty key) then some key else if implemented slug then some slug else none

abbrev pub known_key : Option Text → Bool
known_key none = true
known_key (some key) = implemented key

unfoldable pub validate_price : ℤ → Option ℤ → Exec Db (Unit {0})
validate_price price stars = do
  raise_unless (price_valid price) (update_rejected "price must be between 0 and 10000 SAR")
  raise_unless (stars_valid stars) (update_rejected "Stars price must be between 1 and 100000")

unfoldable pub validate_schema : (InputSchema → Option ℕ) → InputSchema → Exec Db (Unit {0})
validate_schema json_size schema = do
  raise_unless (is_object schema) (update_rejected "input schema must be an object")
  size ← or_raise (json_size schema) (update_rejected "invalid input schema")
  raise_if (ltb 4000 size) (update_rejected "input schema too large")

unfoldable pub validate_executor : Option Text → ProcessorType → InputSchema → Exec Db (Unit {0})
validate_executor key type schema = do
  raise_unless (known_key key) (update_rejected "unknown executor")
  raise_unless (not (is_some key) || eqb ProcessorType-discrete type ProcessorType.tool)
      (update_rejected "implemented executors require a tool service")
  raise_unless (not (is_text key summary_slug) || eqb InputSchema-discrete schema text_input_schema)
      (update_rejected "summarize-text needs its supported text schema")
  raise_unless (not (is_text key merge_slug) || eqb InputSchema-discrete schema pdf_input_schema)
      (update_rejected "merge-pdf needs its supported PDF schema")

abbrev pub stars_column : Option ℤ → Option ℕ
stars_column none = none
stars_column (some n) = some (pos_part n)

-- The row of a checked service, with the defaults of the table.
abbrev pub service_of : RowId → NewService → Entry → ProcessorType → Option Text → ServiceRow
service_of id n e type key = record {
  id = id;
  category_id = n.category_id;
  slug = e.slug;
  name_ar = e.name_ar;
  description_ar = strip n.description_ar;
  processor_type = type;
  base_price_halalas = pos_part n.base_price_halalas;
  base_price_stars = stars_column n.base_price_stars;
  processor_key = key;
  input_schema = n.input_schema;
  enabled = false;
  revision = 1;
}

abbrev pub service_log : RowId → Entry → ServiceRow → AuditLog
service_log actor e s = record {
  actor_admin_id = actor;
  action = text "SERVICE_CREATED";
  reason = some e.reason;
  metadata = AuditMetadata.service_created (record {
    service_id = s.id;
    category_id = s.category_id;
    slug = s.slug;
    processor_type = s.processor_type;
    processor_key = s.processor_key;
    enabled = false;
    base_price_stars = s.base_price_stars;
  });
}

abbrev pub same_stars : Option ℕ → Option ℕ → Bool
same_stars none none = true
same_stars (some m) (some n) = m == n
same_stars _ _ = false

-- The columns that a repeated creation compares.
abbrev pub same_service : ServiceRow → ServiceRow → Bool
same_service s n =
    s.category_id == n.category_id
    && same_text s.name_ar n.name_ar
    && same_text s.description_ar n.description_ar
    && eqb ProcessorType-discrete s.processor_type n.processor_type
    && s.base_price_halalas == n.base_price_halalas
    && same_stars s.base_price_stars n.base_price_stars
    && same_option_text s.processor_key n.processor_key
    && eqb InputSchema-discrete s.input_schema n.input_schema

unfoldable pub service_by_slug : Text → List ServiceRow → Option ServiceRow
service_by_slug slug = find λ s. same_text s.slug slug

-- The INSERT … ON CONFLICT (slug) DO NOTHING, its audit row, or the check of what is there.
unfoldable pub insert_service : RowId → Entry → ServiceRow → Exec Db RowId
unfolding service_by_slug
insert_service actor e s = do
  known ← gets (λ db. exists (λ c. c.id == s.category_id) db.categories)
  raise_unless known (not_found "category not found")
  existing ← gets (λ db. service_by_slug s.slug db.services)
  elim existing [
    | some old ↦ do
      raise_unless (same_service old s) (revision_conflict "service slug already used")
      pure old.id
    | none ↦ do
      modify λ db. record db {
        services = s ∷ db.services;
        audit_logs = service_log actor e s ∷ db.audit_logs;
      }
      pure s.id
  ]

unfoldable pub create_service :
    (InputSchema → Option ℕ) → RowId → RowId → NewService → Exec Db RowId
unfolding validate_price validate_schema validate_executor insert_service
create_service json_size id actor n = do
  e ← reads λ _. validate_new_entry n.slug n.name_ar n.reason
  raise_if (ltb 1000 (length (strip n.description_ar))) (update_rejected "description too long")
  type ← or_raise n.processor_type (update_rejected "unknown processor type")
  validate_price n.base_price_halalas n.base_price_stars
  validate_schema json_size n.input_schema
  let key = chosen_key n.processor_key e.slug
  validate_executor key type n.input_schema
  transaction (insert_service actor e (service_of id n e type key))
