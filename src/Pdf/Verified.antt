-- ===== src/Pdf/Verified.antt =====
-- What a merge returns.
use digital_services_platfor.Base.{ℕ, ◌+◌, ◌≤◌, ◌≡◌, inl, inr, true, false, List, [], ◌∷◌, arith}
use digital_services_platfor.Exec.{Result, ok, err, Result-cases}
use digital_services_platfor.Pdf.Merge.{
  Pypdf, merge_document, merge_documents, merge_pdfs, write_verified, is_pdf,
}
use digital_services_platfor.Pdf.Content.{Reader, reject_active_content, container, has_disallowed}
use digital_services_platfor.Pdf.Clean.{Reaches, reject_active_content_sound}

module _ (lib : Pypdf) where
  abbrev pages_in : Result Reader → ℕ
  pages_in (ok r) = r.pages
  pages_in (err e) = 0

  -- The pages of all documents.
  unfoldable pub pages_of : List (List ℕ) → ℕ
  pages_of [] = 0
  pages_of (d ∷ ds) = pages_in (lib.read d) + pages_of ds

  merge_document-pages :
      (total n : ℕ) (d : List ℕ) (rs : List Reader)
      → (merge_document lib total d rs).0 ≡ ok n
      → (n ≡ total + pages_in (lib.read d)) × (n ≤ 200)
  unfolding merge_document
  merge_document-pages total n d rs e = elim (Result-cases (lib.read d)) [
    | inl (r, got) ↦ (ground arith, ground arith)
    | inr (x, failed) ↦ absurd (ground arith)
  ]

  merge_documents-pages :
      (total n : ℕ) (ds : List (List ℕ)) (rs : List Reader)
      → total ≤ 200
      → (merge_documents lib total ds rs).0 ≡ ok n
      → (n ≡ total + pages_of ds) × (n ≤ 200)
  unfolding merge_documents pages_of
  merge_documents-pages total n [] rs h e = (ground arith, ground arith)
  merge_documents-pages total n (d ∷ ds) rs h e =
      elim (Result-cases (merge_document lib total d rs).0) [
        | inr (x, failed) ↦ absurd (ground arith)
        | inl (m, one) ↦
            let (sum, bound) = merge_document-pages total m d rs one in
            let rest =
              merge_documents-pages m n ds (merge_document lib total d rs).1 bound (ground arith) in
            (omega (arith, sum, rest.0), rest.1)
      ]

  -- What the check of the output has seen.
  write_verified-lem :
      (total : ℕ) (out : List ℕ) (rs : List Reader)
      → (write_verified lib total rs).0 ≡ ok out
      → (v : Reader) × (lib.read out ≡ ok v)
        × (is_pdf out ≡ true)
        × (v.pages ≡ total)
        × (reject_active_content v ≡ ok tt)
  unfolding write_verified
  write_verified-lem total out rs e = elim (Result-cases (lib.write rs)) [
    | inr (x, failed) ↦ absurd (ground arith)
    | inl (o, written) ↦ elim (Result-cases (lib.read o)) [
      | inr (x, failed) ↦ absurd (ground arith)
      | inl (v, got) ↦ elim (Result-cases (reject_active_content v)) [
        | inr (x, failed) ↦ absurd (ground arith)
        | inl (t, clean) ↦ (v, ground arith, ground arith, ground arith, ground arith)
      ]
    ]
  ]

  -- A merge that returns returns a PDF that pypdf reads, with all pages of the documents, which are
  -- at most 200, and without a disallowed key in any dictionary that is reached from its trailer.
  pub merge_pdfs-Verified :
      (documents : List (List ℕ)) (out : List ℕ)
      → merge_pdfs lib documents ≡ ok out
      → (v : Reader) × (lib.read out ≡ ok v)
        × (is_pdf out ≡ true)
        × (v.pages ≡ pages_of documents)
        × (v.pages ≤ 200)
        × ((k : ℕ) → Reaches v (container k) → has_disallowed (v.dictionary_keys k) ≡ false)
  unfolding merge_pdfs
  merge_pdfs-Verified documents out e = elim (Result-cases (merge_documents lib 0 documents []).0) [
    | inr (x, failed) ↦ absurd (ground arith)
    | inl (total, merged) ↦
        let rs = (merge_documents lib 0 documents []).1 in
        let (v, got, pdf, pages, clean) = write_verified-lem total out rs (ground arith) in
        let (sum, bound) = merge_documents-pages 0 total documents [] (omega arith) merged in
        (
          v,
          got,
          pdf,
          omega (arith, sum, pages),
          omega (arith, bound, pages),
          λ k reached. reject_active_content_sound v k clean reached,
        )
  ]
