-- ===== src/Files/Access.antt =====
-- `upload_file`, `verify_file` and `read_file` of packages/python/platform_core/files.py. The id that
-- `uuid4` makes and the clock `now` are arguments.
use digital_services_platfor.Base.{
  ℕ, ◌+◌, ◌*◌, Bool, true, false, ◌&&◌, Option, none, some, List, ◌∷◌, ◌++◌, ltb, leb, ◌==◌, eqb,
  length, find, update_where,
}
use digital_services_platfor.Text.{Text, text, uuid_text}
use digital_services_platfor.Exec.{
  Result, ok, err, Exec, pure, raise, gets, or_raise, ◌>>=◌, ◌>>◌, raise_unless, modify,
  file_not_found, file_unavailable, reads, invalid_file,
}
use digital_services_platfor.Schema.{RowId, Db, FileRow, FileStatus, FileType, FileStatus-discrete}
use digital_services_platfor.Files.Storage.{head_object, put_object, read_object, Client}
use digital_services_platfor.Files.Identify.{identify, lower_ascii, path_suffix}
use digital_services_platfor.Ledger.{order_row}

pub record FileRecord : Type 0 where
  pub id : RowId
  pub storage_key : Text
  pub mime_type : Text
  pub size_bytes : ℕ

-- The arguments of `upload_file`; a `file_type` of `none` is a text that names no type.
pub record Upload : Type 0 where
  pub owner_user_id : RowId
  pub file_name : Text
  pub claimed_mime : Text
  pub content : List ℕ
  pub order_id : Option RowId
  pub file_type : Option FileType
  pub limit : ℕ
  pub retention_days : ℕ
  pub intent_retention_seconds : Option ℕ

-- `users/{owner}/{file}{suffix}`
abbrev pub storage_key_of : RowId → RowId → Text → Text
storage_key_of owner file name =
    text "users/"
    ++ (uuid_text owner ++ (text "/" ++ (uuid_text file ++ lower_ascii (path_suffix name))))

abbrev pub order_owner_is : Option RowId → RowId → Db → Bool
order_owner_is none owner db = true
order_owner_is (some o) owner db = elim (order_row o db.orders) [
  | none ↦ false
  | some r ↦ r.user_id == owner
]

abbrev pub intent_valid : Option ℕ → Bool
intent_valid none = true
intent_valid (some seconds) = leb 1 seconds && leb seconds 3600

abbrev pub expires_at : Upload → ℕ → ℕ
expires_at u now = elim u.intent_retention_seconds [
  | none ↦ now + 86400 * u.retention_days
  | some seconds ↦ now + seconds
]

abbrev pub intent_row : RowId → Upload → Text → FileType → ℕ → FileRow
intent_row id u mime type now = record {
  id = id;
  owner_user_id = u.owner_user_id;
  order_id = u.order_id;
  storage_key = storage_key_of u.owner_user_id id u.file_name;
  file_name = u.file_name;
  mime_type = mime;
  size_bytes = length u.content;
  file_type = type;
  status = FileStatus.uploading;
  retention_until = expires_at u now;
  cleanup_attempted_at = none;
  created_at = now;
}

-- UPDATE files SET status=… WHERE id=…
unfoldable pub set_file_status : RowId → FileStatus → Exec Db (Unit {0})
set_file_status id status = modify λ db. record db {
  files = update_where (λ f. f.id == id) (λ f. record f { status = status }) db.files;
}

-- The storing of the object, after the intent row is there.
unfoldable pub store_object : Client → FileRow → Upload → Exec Db FileRecord
unfolding set_file_status put_object
store_object c f u = elim (put_object c f.storage_key u.content f.mime_type) [
  | err e ↦ set_file_status f.id FileStatus.failed >> raise e
  | ok t ↦ do
    set_file_status f.id FileStatus.ready
    pure (record {
      id = f.id;
      storage_key = f.storage_key;
      mime_type = f.mime_type;
      size_bytes = f.size_bytes;
    })
]

-- Each statement commits by itself, so that the intent row survives a raise.
unfoldable pub upload_file : Client → RowId → Upload → ℕ → Exec Db FileRecord
upload_file c id u now = do
  mime ← reads λ _. identify u.content u.file_name u.claimed_mime u.limit
  type ← or_raise u.file_type (invalid_file "invalid retention or file type")
  raise_unless (leb 1 u.retention_days && leb u.retention_days 3650)
      (invalid_file "invalid retention or file type")
  owned ← gets (order_owner_is u.order_id u.owner_user_id)
  raise_unless owned (invalid_file "file order does not belong to owner")
  raise_unless (intent_valid u.intent_retention_seconds)
      (invalid_file "invalid upload intent retention")
  modify λ db. record db { files = intent_row id u mime type now ∷ db.files }
  store_object c (intent_row id u mime type now) u

-- The row that a customer may read now.
unfoldable pub readable_row : RowId → RowId → ℕ → List FileRow → Option FileRow
readable_row owner id now = find λ f.
    f.id == id
    && f.owner_user_id == owner
    && eqb FileStatus-discrete f.status FileStatus.ready
    && ltb now f.retention_until

abbrev pub in_budget : Option ℕ → ℕ → Bool
in_budget none size = true
in_budget (some max) size = ltb 0 size && leb size max

-- `except FileNotFoundError`
abbrev pub missing_unavailable {ℓ} : {A : Type ℓ} → Result A → Result A
missing_unavailable (ok a) = ok a
missing_unavailable (err (file_not_found m)) = err (file_unavailable "object missing from storage")
missing_unavailable (err e) = err e

unfoldable pub verify_file : Client → RowId → RowId → Option ℕ → ℕ → Exec Db FileRecord
unfolding readable_row head_object
verify_file c owner id max now = do
  found ← gets (λ db. readable_row owner id now db.files)
  f ← or_raise found (file_unavailable "file unavailable or expired")
  raise_unless (in_budget max f.size_bytes) (file_unavailable "file exceeds the read byte budget")
  size ← reads λ _. missing_unavailable (head_object c f.storage_key)
  raise_unless (size == f.size_bytes) (file_unavailable "stored object size differs from metadata")
  pure (record {
    id = id;
    storage_key = f.storage_key;
    mime_type = f.mime_type;
    size_bytes = f.size_bytes;
  })

unfoldable pub read_file : Client → RowId → RowId → Option ℕ → ℕ → Exec Db (List ℕ)
unfolding verify_file read_object
read_file c owner id max now = do
  r ← verify_file c owner id max now
  bytes ← reads λ _. missing_unavailable (read_object c r.storage_key r.size_bytes)
  raise_unless (length bytes == r.size_bytes)
      (file_unavailable "stored object changed during download")
  pure bytes
