-- ===== src/Worker/Processor.antt =====
-- packages/python/platform_core/processors.py. `merge` is the merge in the sandbox or the subprocess.
use digital_services_platfor.Base.{
  ℕ, ◌+◌, ◌-◌, ◌*◌, min, Bool, not, ◌&&◌, ◌||◌, none, some, List, [], ◌∷◌, ltb, leb, ◌==◌, eqb,
  length, find, exists, order_by, select, take,
}
use digital_services_platfor.Text.{text}
use digital_services_platfor.Exec.{
  value_error, Result, Exec, pure, gets, or_raise, ◌>>=◌, ◌>>◌, raise_if, raise_unless, invalid_pdf,
  reads,
}
use digital_services_platfor.Schema.{
  RowId, Db, FileRow, FileType, FileType-discrete, OrderFile, FileStatus-discrete, FileStatus,
}
use digital_services_platfor.Files.{Client, read_file, upload_file}
use digital_services_platfor.Files.{Upload}
use digital_services_platfor.Ledger.{order_row, same_text}

abbrev pub max_input_bytes : ℕ
max_input_bytes = 40 * 1024 * 1024

-- A row of the preflight.
pub record InputFile : Type 0 where
  pub id : RowId
  pub size_bytes : ℕ
  pub available : Bool

abbrev pub pdf_available : RowId → ℕ → FileRow → Bool
pdf_available user now f =
    f.owner_user_id == user
    && eqb FileType-discrete f.file_type FileType.input
    && same_text f.mime_type (text "application/pdf")
    && eqb FileStatus-discrete f.status FileStatus.ready
    && ltb now f.retention_until

-- The JOIN of `order_files` with `files`.
unfoldable pub join_files : RowId → ℕ → List FileRow → List OrderFile → List InputFile
join_files user now files [] = []
join_files user now files (o ∷ os) =
    let rest = join_files user now files os in
    elim (find (λ f. f.id == o.file_id) files) [
      | none ↦ rest
      | some f ↦
          record { id = f.id; size_bytes = f.size_bytes; available = pdf_available user now f }
          ∷ rest
    ]

unfoldable pub input_files : RowId → RowId → ℕ → Db → List InputFile
unfolding join_files
input_files order user now db = take 11 (
    join_files user now db.files
      (order_by (λ o. o.position) (select (λ o. o.order_id == order) db.order_files)))

abbrev pub total_size : List InputFile → ℕ
total_size [] = 0
total_size (f ∷ fs) = f.size_bytes + total_size fs

-- The bounded reads, with the bytes that remain.
unfoldable pub read_documents :
    Client → RowId → ℕ → ℕ → ℕ → List InputFile → Exec Db (List (List ℕ))
read_documents c user limit now remaining [] = pure []
read_documents c user limit now remaining (f ∷ fs) =
    let rest = λ (left : ℕ). read_documents c user limit now left fs in
    do
      d ← read_file c user f.id (some (min limit remaining)) now
      ds ← rest (remaining - length d)
      pure (d ∷ ds)

abbrev pub merged_upload : RowId → RowId → List ℕ → ℕ → ℕ → Upload
merged_upload user order result limit retention = record {
  owner_user_id = user;
  file_name = text "merged.pdf";
  claimed_mime = text "application/pdf";
  content = result;
  order_id = some order;
  file_type = some FileType.output;
  limit = limit;
  retention_days = retention;
  intent_retention_seconds = none;
}

unfoldable pub process_pdf_merge :
    Client → (List (List ℕ) → Result (List ℕ)) → RowId → RowId → ℕ → ℕ → ℕ → Exec Db RowId
unfolding input_files read_documents
process_pdf_merge c merge file order limit retention now = do
  raise_if (ltb limit 1) (value_error "invalid processor byte limit")
  found ← gets (λ db. order_row order db.orders)
  o ← or_raise found (value_error "order missing")
  rows ← gets (input_files order o.user_id now)
  raise_unless (leb 2 (length rows) && leb (length rows) 10) (value_error "PDF input count invalid")
  raise_if (exists (λ f. not f.available) rows) (value_error "PDF input unavailable or wrong type")
  raise_if
      (exists (λ f. not (ltb 0 f.size_bytes && leb f.size_bytes limit)) rows
        || ltb max_input_bytes (total_size rows))
      (invalid_pdf "PDF input byte budget exceeded")
  documents ← read_documents c o.user_id limit now max_input_bytes rows
  result ← reads λ _. merge documents
  r ← upload_file c file (merged_upload o.user_id order result limit retention) now
  pure r.id
