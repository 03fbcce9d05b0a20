-- ===== src/Examples/Work.antt =====
-- The theorems on the worker and on merged documents, tried on the shop.
use digital_services_platfor.Base.{
  ℕ, ◌≤◌, ◌≡◌, refl, true, false, some, List, [], ◌∷◌, ◌==◌, if◌then◌else◌, length, exists,
  ℕ_discrete, arith,
}
use digital_services_platfor.Text.{Text-discrete, text}
use digital_services_platfor.Exec.{ok, err, pdf_read_error}
use digital_services_platfor.Pdf.{
  Pypdf, Reader, merge_pdfs, container, merge_documents, merge_document, write_verified,
  append_reader, reject_active_content, walk, was_seen, extend, has_disallowed, is_disallowed,
  is_pdf,
}
use digital_services_platfor.Schema.{Db, OrderStatus, JobStatus}
use digital_services_platfor.Jobs.{Claim}
use digital_services_platfor.Worker.{NewIds, Settings}
use digital_services_platfor.Files.{Client, boto_failure, starts_with}
use digital_services_platfor.Examples.{shop, sale, hold, bonus, running}
use digital_services_platfor.Pdf.Verified.{pages_of, merge_pdfs-Verified}
use digital_services_platfor.Pdf.Clean.{Reaches}
use digital_services_platfor.Worker.Ends.{Ends}
use digital_services_platfor.Pdf.Returns.{IsMergeable, IsSound, merge_pdfs_returns}

abbrev page : List ℕ
page = text "%PDF-1"

-- A reader of a document with `n` pages and one dictionary.
abbrev reader : ℕ → Reader
reader n = record {
  is_encrypted = false;
  pages = n;
  trailer = container 0;
  get_object = λ i g. err (pdf_read_error "missing");
  dictionary_keys = λ k. some (text "/Root" ∷ []);
  children = λ k. [];
}

-- A library for which a document of six bytes has one page, and any other two.
abbrev pages_by_length : Pypdf
pages_by_length = record {
  read = λ bytes. ok (reader (if length bytes == 6 then 1 else 2));
  append = λ rs r. ok tt;
  write = λ rs. ok (text "%PDF-12");
}

merge_pdfs-Verified_example :
    (v : Reader) × (pages_by_length.read (text "%PDF-12") ≡ ok v)
    × (is_pdf (text "%PDF-12") ≡ true)
    × (v.pages ≡ pages_of pages_by_length (page ∷ page ∷ []))
    × (v.pages ≤ 200)
    × ((k : ℕ) → Reaches v (container k) → has_disallowed (v.dictionary_keys k) ≡ false)
unfolding merge_pdfs merge_documents merge_document write_verified append_reader starts_with
    reject_active_content walk was_seen extend has_disallowed is_disallowed exists Text-discrete
    ℕ_discrete
merge_pdfs-Verified_example =
    merge_pdfs-Verified pages_by_length (page ∷ page ∷ []) (text "%PDF-12") refl

page-IsMergeable : IsMergeable pages_by_length page
unfolding starts_with reject_active_content walk was_seen extend has_disallowed is_disallowed exists
    Text-discrete ℕ_discrete
page-IsMergeable = record {
  reader = reader 1;
  reads_ok = refl;
  signed = refl;
  unencrypted = refl;
  clean = refl;
  has_pages = omega arith;
}

merged-IsSound : IsSound pages_by_length 2 (text "%PDF-12")
unfolding starts_with reject_active_content walk was_seen extend has_disallowed is_disallowed exists
    Text-discrete ℕ_discrete
merged-IsSound = record {
  verified = reader 2;
  reads_ok = refl;
  signed = refl;
  all_pages = refl;
  clean = refl;
}

merge_pdfs_returns_example : merge_pdfs pages_by_length (page ∷ page ∷ []) ≡ ok (text "%PDF-12")
unfolding pages_of
merge_pdfs_returns_example =
    merge_pdfs_returns pages_by_length (page ∷ page ∷ []) (text "%PDF-12") (omega arith)
      (omega arith) (omega arith) (page-IsMergeable, (page-IsMergeable, tt)) (omega arith)
      (λ rs r. refl) refl merged-IsSound

-- The sale, with its price held and its job waiting.
abbrev unstarted : Db
unstarted = record shop {
  orders = sale OrderStatus.reserved ∷ [];
  wallet_transactions = hold ∷ bonus ∷ [];
  jobs = record running { status = JobStatus.pending; attempt_count = 0 } ∷ [];
}

abbrev claim : Claim
claim = record { job_id = 40; order_id = 30; attempt_number = 1 }

abbrev settings : Settings
settings = record {
  max_upload_bytes = 1000;
  file_retention_days = 30;
  telegram_bot_token = text "token";
}

abbrev ids : NewIds
ids = record { file = 60; delivery = 61 }

-- A storage that does not answer.
abbrev broken : Client
broken = record {
  put = λ key body mime. boto_failure;
  get = λ key. boto_failure;
  head = λ key. boto_failure;
  delete = λ key. boto_failure;
}
