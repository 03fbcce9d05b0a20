-- ===== src/Pdf/Returns.antt =====
-- Which merges return.
use digital_services_platfor.Base.{ℕ, ◌+◌, ◌*◌, ◌≤◌, ◌≡◌, true, false, List, [], ◌∷◌, length, arith}
use digital_services_platfor.Exec.{Result, ok, err}
use digital_services_platfor.Tables.Keyed.{All}
use digital_services_platfor.Pdf.Merge.{
  Pypdf, merge_document, merge_documents, merge_pdfs, write_verified, is_pdf, append_reader,
  total_bytes,
}
use digital_services_platfor.Pdf.Content.{Reader, reject_active_content}
use digital_services_platfor.Pdf.Verified.{pages_of}

module _ (lib : Pypdf) where
  -- A document that may be merged.
  pub record IsMergeable (document : List ℕ) : Type 0 where
    pub reader : Reader
    pub reads_ok : lib.read document ≡ ok reader
    pub signed : is_pdf document ≡ true
    pub unencrypted : reader.is_encrypted ≡ false
    pub clean : reject_active_content reader ≡ ok tt
    pub has_pages : 1 ≤ reader.pages

  abbrev with_reader : Result Reader → List Reader → List Reader
  with_reader (ok r) rs = r ∷ rs
  with_reader (err e) rs = rs

  -- The readers that the writer holds after the documents, the last first.
  unfoldable pub readers_of : List (List ℕ) → List Reader → List Reader
  readers_of [] rs = rs
  readers_of (d ∷ ds) rs = readers_of ds (with_reader (lib.read d) rs)

  merge_document-lem :
      (total : ℕ) (d : List ℕ) (rs : List Reader)
      → ((qs : List Reader) (q : Reader) → lib.append qs q ≡ ok tt)
      → (m : IsMergeable d) → total + m.reader.pages ≤ 200
      → merge_document lib total d rs ≡ (ok (total + m.reader.pages), m.reader ∷ rs)
  unfolding merge_document append_reader
  merge_document-lem total d rs appends m fits =
      let e = m.reads_ok in
      let s = m.signed in
      let p = m.unencrypted in
      let c = m.clean in let h = m.has_pages in ground (arith, appends rs m.reader)

  merge_documents-lem :
      (total : ℕ) (ds : List (List ℕ)) (rs : List Reader)
      → ((qs : List Reader) (q : Reader) → lib.append qs q ≡ ok tt)
      → All IsMergeable ds
      → total + pages_of lib ds ≤ 200
      → merge_documents lib total ds rs ≡ (ok (total + pages_of lib ds), readers_of ds rs)
  unfolding merge_documents readers_of pages_of
  merge_documents-lem total [] rs appends h fits = ground arith
  merge_documents-lem total (d ∷ ds) rs appends (m, h) fits =
      let e = m.reads_ok in
      let n = total + m.reader.pages in
      let bound : n + pages_of lib ds ≤ 200 = ground arith in
      let small : n ≤ 200 = omega (arith, bound) in
      ground (
        arith,
        merge_document-lem total d rs appends m small,
        merge_documents-lem n ds (m.reader ∷ rs) appends h bound,
      )

  -- What the quality check asks of the output.
  pub record IsSound (total : ℕ) (out : List ℕ) : Type 0 where
    pub verified : Reader
    pub reads_ok : lib.read out ≡ ok verified
    pub signed : is_pdf out ≡ true
    pub all_pages : verified.pages ≡ total
    pub clean : reject_active_content verified ≡ ok tt

  write_verified_sound :
      (total : ℕ) (out : List ℕ) (rs : List Reader)
      → lib.write rs ≡ ok out
      → IsSound total out
      → (write_verified lib total rs).0 ≡ ok out
  unfolding write_verified
  write_verified_sound total out rs written s =
      let e = s.reads_ok in
      let g = s.signed in let p = s.all_pages in let c = s.clean in ground arith

  -- A merge of two to ten readable PDFs, unencrypted, with pages and without active content, of at
  -- most 40 MiB and 200 pages together, returns what the writer writes, if pypdf appends each reader
  -- and writes a sound PDF of all pages.
  pub merge_pdfs_returns :
      (documents : List (List ℕ)) (out : List ℕ)
      → 2 ≤ length documents
      → length documents ≤ 10
      → total_bytes documents ≤ 40 * 1024 * 1024
      → All IsMergeable documents
      → pages_of lib documents ≤ 200
      → ((rs : List Reader) (r : Reader) → lib.append rs r ≡ ok tt)
      → lib.write (readers_of documents []) ≡ ok out
      → IsSound (pages_of lib documents) out
      → merge_pdfs lib documents ≡ ok out
  unfolding merge_pdfs
  merge_pdfs_returns documents out two ten small mergeable fits appends written sound =
      let merged = merge_documents-lem 0 documents [] appends mergeable (omega (arith, fits)) in
      let checked =
        write_verified_sound (pages_of lib documents) out (readers_of documents []) written sound in
      ground arith
