-- ===== src/Files/Cleanup.antt =====
-- `cleanup_expired_files` of packages/python/platform_core/files.py.
use digital_services_platfor.Base.{
  ℕ, ◌+◌, Bool, true, false, if◌then◌else◌, not, ◌&&◌, none, some, List, [], ◌∷◌, leb, ◌==◌, eqb,
  update_where, order_by, select, take,
}
use digital_services_platfor.Exec.{
  Error, os_error, file_not_found, raise, ok, err, Exec, pure, gets, transaction, ◌>>=◌, ◌>>◌,
  modify,
}
use digital_services_platfor.Schema.{FileRow, RowId, Db, FileStatus, FileStatus-discrete}
use digital_services_platfor.Files.Storage.{Client, delete_object}

abbrev pub is_expired : FileRow → Bool
is_expired f = eqb FileStatus-discrete f.status FileStatus.expired

-- `status <> 'EXPIRED' AND retention_until<=now()`
abbrev pub due : ℕ → FileRow → Bool
due now f = not (is_expired f) && leb f.retention_until now

-- `COALESCE(cleanup_attempted_at,retention_until)`
abbrev pub waiting_since : FileRow → ℕ
waiting_since f = elim f.cleanup_attempted_at [ none ↦ f.retention_until | some t ↦ t ]

-- The 100 due files that wait longest, by `id` where they wait equally long.
unfoldable pub due_files : ℕ → List FileRow → List FileRow
unfolding take order_by select
due_files now files =
    take 100 (order_by waiting_since (order_by (λ f. f.id) (select (due now) files)))

abbrev pub attempted : ℕ → FileRow → FileRow
attempted now f = record f { cleanup_attempted_at = some now }

abbrev pub expired : FileRow → FileRow
expired f = record f { status = FileStatus.expired }

-- UPDATE files SET … WHERE id=…
unfoldable pub update_file_row : RowId → (FileRow → FileRow) → Exec Db (Unit {0})
update_file_row id g = modify λ db. record db { files = update_where (λ f. f.id == id) g db.files }

-- `except OSError`, of which FileNotFoundError is a subclass.
abbrev pub is_os_error : Error → Bool
is_os_error (os_error _) = true
is_os_error (file_not_found _) = true
is_os_error _ = false

-- One round of the loop; a failure of the provider leaves the file for a later batch, any other
-- exception leaves the loop.
unfoldable pub clean_file : Client → ℕ → FileRow → Exec Db ℕ
unfolding update_file_row delete_object
clean_file c now f = do
  update_file_row f.id (attempted now)
  elim (delete_object c f.storage_key) [
    | ok t ↦ do update_file_row f.id expired; pure 1
    | err e ↦ if is_os_error e then pure 0 else raise e
  ]

unfoldable pub clean_files : Client → ℕ → List FileRow → Exec Db ℕ
clean_files c now [] = pure 0
clean_files c now (f ∷ fs) =
    let rest = clean_files c now fs in do n ← clean_file c now f; m ← rest; pure (n + m)

unfoldable pub cleanup_expired_files : Client → ℕ → Exec Db ℕ
unfolding due_files
cleanup_expired_files c now =
    transaction (do rows ← gets (λ db. due_files now db.files); clean_files c now rows)
