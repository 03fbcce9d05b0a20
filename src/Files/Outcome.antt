-- ===== src/Files/Outcome.antt =====
-- What an upload leaves in the database on every path.
use digital_services_platfor.Base.{
  ℕ, ◌≡◌, ◌⊎◌, refl, inl, inr, Bool, true, false, ◌&&◌, none, some, List, [], ◌∷◌, arith, find,
  update_where, leb, ◌==◌, Bool-cases, Option-cases, is_some,
}
use digital_services_platfor.Exec.{Result, Error, ok, err, is_ok, Result-cases, Raised}
use digital_services_platfor.Files.Access.{
  store_object, set_file_status, Upload, FileRecord, upload_file, intent_row, order_owner_is,
  intent_valid,
}
use digital_services_platfor.Schema.{FileRow, RowId, Db, FileStatus, FileType}
use digital_services_platfor.Files.Storage.{Client, put_object}
use digital_services_platfor.Text.{Text}
use digital_services_platfor.Files.Identify.{identify}

-- What an upload needs before its object is stored.
abbrev pub upload_accepted : Upload → Db → Bool
upload_accepted u db =
    is_ok (identify u.content u.file_name u.claimed_mime u.limit)
    && is_some u.file_type
    && leb 1 u.retention_days
    && leb u.retention_days 3650
    && order_owner_is u.order_id u.owner_user_id db
    && intent_valid u.intent_retention_seconds

abbrev pub with_file : FileRow → FileStatus → Db → Db
with_file f status db = record db { files = record f { status = status } ∷ db.files }

-- The object is stored and the file ready, or storage raises and the intent row has failed.
abbrev pub Settled : Client → FileRow → Upload → Db → Result FileRecord × Db → Type 0
Settled c f u db p =
    ((put_object c f.storage_key u.content f.mime_type ≡ ok tt)
      × (p ≡ (
        ok (record {
          id = f.id;
          storage_key = f.storage_key;
          mime_type = f.mime_type;
          size_bytes = f.size_bytes;
        }),
        with_file f FileStatus.ready db,
      )))
    ⊎ ((e : Error) × (put_object c f.storage_key u.content f.mime_type ≡ err e)
        × (p ≡ (err e, with_file f FileStatus.failed db)))

abbrev pub Uploaded : Client → RowId → Upload → ℕ → Db → Result FileRecord × Db → Type 0
Uploaded c id u now db p =
    ((upload_accepted u db ≡ false) × Raised p.0 × (p.1 ≡ db))
    ⊎ ((mime : Text) × (type : FileType) × (upload_accepted u db ≡ true)
        × (identify u.content u.file_name u.claimed_mime u.limit ≡ ok mime)
        × (u.file_type ≡ some type)
        × Settled c (intent_row id u mime type now) u db p)

update_where_absent :
    (id : RowId) (g : FileRow → FileRow) (fs : List FileRow)
    → find (λ f. f.id == id) fs ≡ none
    → update_where (λ f. f.id == id) g fs ≡ fs
unfolding find update_where
update_where_absent id g [] h = refl
update_where_absent id g (f ∷ fs) h = ground (arith, update_where_absent id g fs)

store_object-Settled :
    (c : Client) (f : FileRow) (u : Upload) (db : Db)
    → find (λ g. g.id == f.id) db.files ≡ none
    → Settled c f u db (store_object c f u (record db { files = f ∷ db.files }))
unfolding store_object set_file_status update_where
store_object-Settled c f u db fresh =
    elim (Result-cases (put_object c f.storage_key u.content f.mime_type)) [
      | inr (e, failed) ↦ inr (
        e,
        failed,
        ground (
          arith,
          update_where_absent f.id (λ g. record g { status = FileStatus.failed }) db.files fresh,
        ),
      )
      | inl (t, put) ↦ inl (
        put,
        ground (
          arith,
          update_where_absent f.id (λ g. record g { status = FileStatus.ready }) db.files fresh,
        ),
      )
    ]

-- The upload of a file under a new id raises and changes nothing unless the file, its type, its
-- retention and its order are accepted. It then leaves one new row: ready, and in the result, if
-- storage has taken the object; failed, and kept for a later cleanup, if storage has raised.
pub upload_file-Uploaded :
    (c : Client) (id : RowId) (u : Upload) (now : ℕ) (db : Db)
    → find (λ f. f.id == id) db.files ≡ none
    → Uploaded c id u now db (upload_file c id u now db)
unfolding upload_file
upload_file-Uploaded c id u now db fresh =
    elim (Result-cases (identify u.content u.file_name u.claimed_mime u.limit)) [
      | inr (x, failed) ↦ inl (ground arith)
      | inl (mime, known) ↦ elim (Option-cases u.file_type) [
        | inl unknown ↦ inl (ground arith)
        | inr (type, named) ↦ elim (Bool-cases (upload_accepted u db)) [
          | inr refused ↦ inl (ground arith)
          | inl accepted ↦ inr (
            mime,
            type,
            accepted,
            known,
            named,
            ground (arith, store_object-Settled c (intent_row id u mime type now) u db fresh),
          )
        ]
      ]
    ]
