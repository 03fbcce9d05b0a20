-- ===== src/Pdf/Merge.antt =====
-- `merge_pdfs` of packages/python/platform_core/pdf_merge.py. pypdf is an argument.
use digital_services_platfor.Base.{
  ℕ, ◌+◌, ◌*◌, Bool, true, false, ◌&&◌, ◌||◌, List, [], ◌∷◌, ltb, ◌==◌, if◌then◌else◌, length,
}
use digital_services_platfor.Exec.{
  file_not_found, is_value_error, pdf_read_error, os_error, type_error, Error, type_error, Result,
  ok, err, Exec, pure, ◌>>=◌, ◌>>◌, raise_if, raise_unless, modify, invalid_pdf, pdf_read_error,
  reads,
}
use digital_services_platfor.Pdf.Content.{reject_active_content, Reader}
use digital_services_platfor.Files.{pdf_signature, starts_with}

-- What pypdf does: `PdfReader(…, strict=True)`, `writer.append` after earlier readers, and
-- `writer.write`.
pub record Pypdf : Type 0 where
  pub read : List ℕ → Result Reader
  pub append : List Reader → Reader → Result (Unit {0})
  pub write : List Reader → Result (List ℕ)

abbrev pub total_bytes : List (List ℕ) → ℕ
total_bytes [] = 0
total_bytes (d ∷ ds) = length d + total_bytes ds

abbrev pub is_pdf : List ℕ → Bool
is_pdf = starts_with pdf_signature

-- The readers that the writer holds are the state, the last first.
module _ (lib : Pypdf) where
  unfoldable pub append_reader : Reader → Exec (List Reader) (Unit {0})
  append_reader r = do reads λ rs. lib.append rs r; modify λ rs. r ∷ rs

  -- One round of the loop: the number of pages after it.
  unfoldable pub merge_document : ℕ → List ℕ → Exec (List Reader) ℕ
  unfolding append_reader
  merge_document total document = do
    raise_unless (is_pdf document) (invalid_pdf "not a PDF")
    r ← reads λ _. lib.read document
    raise_if r.is_encrypted (invalid_pdf "encrypted PDF")
    reads λ _. reject_active_content r
    raise_if (r.pages == 0 || ltb 200 (total + r.pages)) (invalid_pdf "invalid total page count")
    append_reader r
    pure (total + r.pages)

  unfoldable pub merge_documents : ℕ → List (List ℕ) → Exec (List Reader) ℕ
  merge_documents total [] = pure total
  merge_documents total (d ∷ ds) =
      let rest = λ (n : ℕ). merge_documents n ds in do n ← merge_document total d; rest n

  -- The output is read again and checked.
  unfoldable pub write_verified : ℕ → Exec (List Reader) (List ℕ)
  write_verified total = do
    result ← reads lib.write
    verified ← reads λ _. lib.read result
    raise_unless (is_pdf result && verified.pages == total)
        (invalid_pdf "merged PDF failed quality check")
    reads λ _. reject_active_content verified
    pure result

  -- The exceptions that mean an unreadable document.
  abbrev pub unreadable : Error → Bool
  unreadable (pdf_read_error _) = true
  unreadable (os_error _) = true
  unreadable (file_not_found _) = true
  unreadable (type_error _) = true
  unreadable (invalid_pdf _) = false
  unreadable e = is_value_error e

  abbrev pub as_invalid : Result (List ℕ) → Result (List ℕ)
  as_invalid (ok out) = ok out
  as_invalid (err e) = if unreadable e then err (invalid_pdf "unreadable PDF") else err e

  unfoldable pub merge_pdfs : List (List ℕ) → Result (List ℕ)
  unfolding merge_documents write_verified
  merge_pdfs documents =
      if ltb (length documents) 2
        || ltb 10 (length documents)
        || ltb (40 * 1024 * 1024) (total_bytes documents)
      then err (invalid_pdf "invalid number or total size of PDFs")
      else as_invalid ((do total ← merge_documents 0 documents; write_verified total) []).0
