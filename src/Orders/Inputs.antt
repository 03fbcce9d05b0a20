-- ===== src/Orders/Inputs.antt =====
-- The input files of an order in packages/python/platform_core/orders.py: what `confirm_order`
-- reads of the service's `input_schema` and of the files.
use digital_services_platfor.Base.{
  ℕ, Bool, false, not, ◌&&◌, ◌||◌, Option, none, some, List, [], ◌∷◌, map, ltb, leb, ◌==◌,
  if◌then◌else◌, eqb, length, find, exists, order_by, select, member, distinct,
}
use digital_services_platfor.Int.{ℤ, pos, ltb_ℤ, leb_ℤ}
use digital_services_platfor.Text.{Text, text}
use digital_services_platfor.Exec.{
  value_error, type_error, Exec, raise, gets, ◌>>=◌, ◌>>◌, raise_unless,
}
use digital_services_platfor.Schema.{
  RowId, Scalar, CategoryRow, Db, FileRow, InputSchema, OrderFile, integer, string,
  FileStatus-discrete, ServiceRow, not_object, FileStatus, object,
}
use digital_services_platfor.Ledger.{same_text}

abbrev pub file_ids_of : RowId → List OrderFile → List RowId
file_ids_of o rows =
    map (λ f. f.file_id) (order_by (λ f. f.position) (select (λ f. f.order_id == o) rows))

-- The service and its category are both enabled.
abbrev pub category_enabled : RowId → List CategoryRow → Bool
category_enabled c = exists λ r. r.id == c && r.enabled

abbrev pub enabled_service : RowId → Db → Option ServiceRow
enabled_service s db =
    find (λ r. r.id == s && r.enabled && category_enabled r.category_id db.categories) db.services

-- `schema.get(key)`
unfoldable pub schema_get : Text → List (Text × Scalar) → Option Scalar
schema_get key [] = none
schema_get key ((k, v) ∷ fields) = if same_text k key then some v else schema_get key fields

-- The value, if `type(value) is int`, of `schema.get(key, 0)`.
abbrev pub int_or_zero : Option Scalar → Option ℤ
int_or_zero none = some (pos 0)
int_or_zero (some (integer n)) = some n
int_or_zero (some _) = none

abbrev pub limits_valid : Option ℤ → Option ℤ → Bool
limits_valid (some minimum) (some maximum) =
    not (ltb_ℤ minimum (pos 0) || ltb_ℤ maximum minimum || ltb_ℤ (pos 20) maximum)
limits_valid _ _ = false

abbrev pub within : Option ℤ → Option ℤ → ℕ → Bool
within (some minimum) (some maximum) n = leb_ℤ minimum (pos n) && leb_ℤ (pos n) maximum
within _ _ n = false

abbrev pub mime_is : Option Scalar → Text → Bool
mime_is (some (string expected)) mime = same_text mime expected
mime_is _ mime = false

-- The `files` rows that a confirmation may take as inputs.
abbrev pub ready_file : RowId → List RowId → ℕ → FileRow → Bool
ready_file u ids now f =
    member f.id ids
    && f.owner_user_id == u
    && eqb FileStatus-discrete f.status FileStatus.ready
    && ltb now f.retention_until

-- `len(files) != len(file_ids) or …`, negated.
unfoldable pub inputs_valid : RowId → List RowId → ℕ → List (Text × Scalar) → List FileRow → Bool
inputs_valid u ids now schema files =
    let found = select (ready_file u ids now) files in
    length found == length ids
    && not (exists (λ f. not (mime_is (schema_get (text "file_mime") schema) f.mime_type)) found)

-- The checks of `input_schema` and of the files against it.
unfoldable pub check_inputs : RowId → List RowId → ℕ → InputSchema → Exec Db (Unit {0})
check_inputs u ids now (not_object _) = raise (type_error "invalid service input schema type")
check_inputs u ids now (object fields) =
    let minimum = int_or_zero (schema_get (text "min_files") fields) in
    let maximum = int_or_zero (schema_get (text "max_files") fields) in
    do
      raise_unless (limits_valid minimum maximum) (value_error "invalid service file schema")
      raise_unless (within minimum maximum (length ids) && distinct ids)
          (value_error "invalid number of input files")
      valid ← gets (λ db. inputs_valid u ids now fields db.files)
      raise_unless (leb (length ids) 0 || valid)
          (value_error "input file missing, expired or wrong type")
