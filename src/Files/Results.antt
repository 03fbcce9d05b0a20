-- ===== src/Files/Results.antt =====
-- packages/python/platform_core/customer_files.py: the results that a customer may fetch again. The
-- clock `now` is an argument.
use mathlib.Core.List.{reverse}
use digital_services_platfor.Base.{
  ℕ, Bool, ◌&&◌, Option, some, none, List, map, leb, ltb, ◌==◌, eqb, find, exists, order_by, select,
  take, false,
}
use digital_services_platfor.Text.{Text, text}
use digital_services_platfor.Schema.{
  RowId, Db, FileRow, OrderRow, FileStatus, FileType, OrderStatus, FileStatus-discrete,
  FileType-discrete, OrderStatus-discrete,
}
use digital_services_platfor.Ledger.{same_text}
use digital_services_platfor.Stars.{of_telegram_user}

pub record CustomerFile : Type 0 where
  pub id : RowId
  pub name : Text
  pub retention_until : ℕ

abbrev pub is_order : Option RowId → RowId → Bool
is_order none o = false
is_order (some i) o = i == o

-- An order of the owner of the file is completed.
abbrev pub completed_order : FileRow → OrderRow → Bool
completed_order f o =
    is_order f.order_id o.id
    && o.user_id == f.owner_user_id
    && eqb OrderStatus-discrete o.status OrderStatus.completed

-- The joins with users and orders, by their primary keys, and the conditions on the file.
unfoldable pub is_result : ℕ → ℕ → Db → FileRow → Bool
is_result telegram_user_id now db f =
    exists (of_telegram_user telegram_user_id f.owner_user_id) db.users
    && eqb FileStatus-discrete f.status FileStatus.ready
    && ltb now f.retention_until
    && eqb FileType-discrete f.file_type FileType.output
    && same_text f.mime_type (text "application/pdf")
    && exists (completed_order f) db.orders
    && leb f.size_bytes 20971520

-- The newest first, at most ten.
unfoldable pub result_rows : ℕ → ℕ → Db → List FileRow
unfolding take order_by select is_result
result_rows telegram_user_id now db = take 10 (
    reverse (
      order_by (λ f. f.created_at)
        (order_by (λ f. f.id) (select (is_result telegram_user_id now db) db.files))))

abbrev pub customer_file : FileRow → CustomerFile
customer_file f = record { id = f.id; name = f.file_name; retention_until = f.retention_until }

unfoldable pub recent_results : ℕ → ℕ → Db → List CustomerFile
unfolding result_rows
recent_results telegram_user_id now db = map customer_file (result_rows telegram_user_id now db)

unfoldable pub completed_result_owner : ℕ → RowId → ℕ → Db → Option RowId
unfolding is_result
completed_result_owner telegram_user_id file_id now db =
    elim (find (λ f. f.id == file_id && is_result telegram_user_id now db f) db.files) [
      | none ↦ none
      | some f ↦ some f.owner_user_id
    ]
