-- ===== src/Examples/Storage.antt =====
-- The theorems on files, tried on the shop.
use digital_services_platfor.Base.{
  ℕ, ◌≡◌, refl, none, some, List, arith, find, exists, update_where, ℕ_discrete, length, ◌≤◌,
  order_by, ◌∷◌, [], insert_by, select, take,
}
use digital_services_platfor.Text.{Text-discrete, text}
use digital_services_platfor.Exec.{ok}
use digital_services_platfor.Files.{
  Client, FileRecord, Upload, upload_file, answer, cleanup_expired_files, storage_key_of,
  store_object, set_file_status, put_object, identify, path_name, path_parts, last_part,
  path_suffix, name_suffix, last_dot, signature_of, starts_with, drop, read_file, recent_results,
  result_rows, is_result,
}
use digital_services_platfor.Files.Expiry.{CleanedUp, cleanup_expired_files-CleanedUp}
use digital_services_platfor.Files.Swept.{file_row}
use digital_services_platfor.Examples.{shop, file, sale}
use digital_services_platfor.Schema.{
  FileType, Db, OrderStatus, FileType-discrete, FileStatus-discrete, OrderStatus-discrete,
}
use digital_services_platfor.Files.RoundTrip.{read_file-upload_file}
use digital_services_platfor.Files.Outcome.{Uploaded, upload_file-Uploaded}
use digital_services_platfor.Tables.Keyed.{All}
use digital_services_platfor.Files.Offered.{IsFetchable, recent_results-IsFetchable}

abbrev content : List ℕ
content = text "%PDF-1.7"

-- A storage that holds the content under every key.
abbrev holding : Client
holding = record {
  put = λ key body mime. answer tt;
  get = λ key. answer content;
  head = λ key. answer 8;
  delete = λ key. answer tt;
}

abbrev upload : Upload
upload = record {
  owner_user_id = 1;
  file_name = text "a.pdf";
  claimed_mime = text "application/pdf";
  content = content;
  order_id = none;
  file_type = some FileType.input;
  limit = 100;
  retention_days = 1;
  intent_retention_seconds = none;
}

abbrev stored : FileRecord
stored = record {
  id = 50;
  storage_key = storage_key_of 1 50 (text "a.pdf");
  mime_type = text "application/pdf";
  size_bytes = 8;
}

read_file-upload_file_example :
    let db = (upload_file holding 50 upload 100 shop).1 in
    read_file holding 1 50 (some 8) 200 db ≡ (ok content, db)
unfolding upload_file store_object set_file_status put_object identify path_name path_parts
    last_part path_suffix name_suffix last_dot signature_of starts_with drop find update_where
    Text-discrete ℕ_discrete
read_file-upload_file_example =
    read_file-upload_file holding holding 50 upload (some 8) 100 200 stored shop
      (upload_file holding 50 upload 100 shop).1 refl (omega arith) refl refl refl

-- The first file of the shop has ended.
cleanup_expired_files-CleanedUp_example :
    CleanedUp holding 2000 21 (file 21) shop (cleanup_expired_files holding 2000 shop)
unfolding exists file_row find
cleanup_expired_files-CleanedUp_example =
    cleanup_expired_files-CleanedUp holding 2000 (file 21) 21 shop (refl, (refl, tt)) refl

upload_file-Uploaded_example :
    Uploaded holding 50 upload 100 shop (upload_file holding 50 upload 100 shop)
unfolding find
upload_file-Uploaded_example = upload_file-Uploaded holding 50 upload 100 shop refl

-- A merge of the customer that is completed, with its output.
abbrev completed : Db
completed = record shop {
  orders = sale OrderStatus.completed ∷ [];
  files = record (file 50) { order_id = some 30; file_type = FileType.output } ∷ shop.files;
}

recent_results-IsFetchable_example :
    (length (recent_results 77 200 completed) ≤ 10)
    × All (IsFetchable 77 200 completed) (recent_results 77 200 completed)
unfolding exists
recent_results-IsFetchable_example =
    recent_results-IsFetchable 77 200 completed (refl, (refl, (refl, tt)))

recent_results_test :
    recent_results 77 200 completed
    ≡ record { id = 50; name = text "a.pdf"; retention_until = 1000 } ∷ []
unfolding recent_results result_rows is_result exists order_by insert_by select take Text-discrete
    ℕ_discrete FileType-discrete FileStatus-discrete OrderStatus-discrete
recent_results_test = refl
