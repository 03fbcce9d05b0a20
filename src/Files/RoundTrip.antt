-- ===== src/Files/RoundTrip.antt =====
-- What is uploaded can be read back.
use digital_services_platfor.Base.{
  ℕ, suc, ◌<◌, ◌≡◌, refl, inl, inr, true, Option, some, List, [], ◌∷◌, arith, length, find,
  update_where, take, ap, Option-cases, sym, ◌∙◌,
}
use digital_services_platfor.Exec.{ok, Result-cases}
use digital_services_platfor.Files.Access.{
  read_file, store_object, readable_row, verify_file, Upload, FileRecord, in_budget, upload_file,
  expires_at, intent_row,
}
use digital_services_platfor.Schema.{FileStatus-discrete, FileRow, RowId, Db, FileStatus, FileType}
use digital_services_platfor.Files.Storage.{head_object, Client, read_object, answer, put_object}
use digital_services_platfor.Text.{Text}
use digital_services_platfor.Files.Identify.{identify}

take-length : (xs : List ℕ) → take (suc (length xs)) xs ≡ xs
unfolding take
take-length [] = refl
take-length (x ∷ xs) = ground (arith, take-length xs)

-- The row that a customer finds once the object is stored.
stored_row-readable :
    (c : Client) (f : FileRow) (u : Upload) (soon : ℕ) (r : FileRecord) (fs : List FileRow)
    (db db' : Db)
    → db.files ≡ f ∷ fs
    → store_object c f u db ≡ (ok r, db')
    → soon < f.retention_until
    → (r.id ≡ f.id)
      × (r.storage_key ≡ f.storage_key)
      × (readable_row f.owner_user_id f.id soon db'.files
          ≡ some (record f { status = FileStatus.ready }))
unfolding store_object readable_row update_where find FileStatus-discrete
stored_row-readable c f u soon r fs db db' files e before =
    elim (Result-cases (put_object c f.storage_key u.content f.mime_type)) [
      | inr (x, failed) ↦ ground arith
      | inl (t, put) ↦ (ground arith, ground arith, ground arith)
    ]

-- A verified row whose object is as it was stored is read in full.
read_file-stored :
    (c : Client) (owner : RowId) (f : FileRow) (content : List ℕ) (max : Option ℕ) (now : ℕ)
    (db : Db)
    → readable_row owner f.id now db.files ≡ some f
    → f.size_bytes ≡ length content
    → in_budget max (length content) ≡ true
    → c.head f.storage_key ≡ answer (length content)
    → c.get f.storage_key ≡ answer content
    → read_file c owner f.id max now db ≡ (ok content, db)
unfolding read_file verify_file head_object read_object
read_file-stored c owner f content max now db found size budget head body =
    ground (arith, take-length content)

-- Which row an upload that returns has stored.
upload_file-stored :
    (c : Client) (id : RowId) (u : Upload) (now : ℕ) (r : FileRecord) (db db' : Db)
    → upload_file c id u now db ≡ (ok r, db')
    → (mime : Text) × (type : FileType) × (store_object c
          (intent_row id u mime type now)
          u
          (record db { files = intent_row id u mime type now ∷ db.files })
        ≡ (ok r, db'))
unfolding upload_file
upload_file-stored c id u now r db db' e =
    elim (Result-cases (identify u.content u.file_name u.claimed_mime u.limit)) [
      | inr (x, failed) ↦ ground arith
      | inl (mime, known) ↦ elim (Option-cases u.file_type) [
        | inl unknown ↦ ground arith
        | inr (type, named) ↦ (mime, type, ground arith)
      ]
    ]

-- A file that was uploaded is read back by its owner, byte for byte, until its retention ends,
-- while storage holds the object under the key of the record and the budget of the read admits
-- its size; the read changes nothing.
pub read_file-upload_file :
    (c later : Client) (id : RowId) (u : Upload) (max : Option ℕ) (now soon : ℕ) (r : FileRecord)
    (db db' : Db)
    → upload_file c id u now db ≡ (ok r, db')
    → soon < expires_at u now
    → in_budget max (length u.content) ≡ true
    → later.head r.storage_key ≡ answer (length u.content)
    → later.get r.storage_key ≡ answer u.content
    → read_file later u.owner_user_id r.id max soon db' ≡ (ok u.content, db')
read_file-upload_file c later id u max now soon r db db' e before budget head body =
    let (mime, type, stored) = upload_file-stored c id u now r db db' e in
    let f = intent_row id u mime type now in
    let row =
      stored_row-readable c f u soon r db.files (record db { files = f ∷ db.files }) db' refl stored
        before in
    let ready = record f { status = FileStatus.ready } in
    rw row.0 (
      read_file-stored later u.owner_user_id ready u.content max soon db' row.2 refl budget
        (ap later.head (sym row.1) ∙ head) (ap later.get (sym row.1) ∙ body))
