-- ===== src/Files/Batch.antt =====
-- What a batch of the cleanup of files.py leaves of a file.
use mathlib.Core.Path.{subst}
use digital_services_platfor.Base.{
  ℕ, ◌≡◌, refl, sym, ap, ◌∙◌, ◌⊎◌, inl, inr, true, false, some, List, [], ◌∷◌, ◌==◌, if◌then◌else◌,
  Bool-cases, exists,
}
use digital_services_platfor.Files.Storage.{Client}
use digital_services_platfor.Schema.{RowId, FileRow, Db}
use digital_services_platfor.Files.Cleanup.{clean_file, clean_files}
use digital_services_platfor.Files.Swept.{
  file_row, swept, InBatch, Swept, Swept-plus, clean_files-cons, clean_files-raise,
  clean_file-cases, clean_file-other, clean_file-own,
}
use digital_services_platfor.Tables.{eq_of_==}
use digital_services_platfor.Tables.Keyed.{All}

abbrev pub after_batch : Client → ℕ → RowId → List FileRow → FileRow → FileRow → FileRow
after_batch c now i xs r q = if exists (λ x. x.id == i) xs then swept c now r else q

after_batch-swept :
    (c : Client) (now : ℕ) (i : RowId) (xs : List FileRow) (r : FileRow)
    → after_batch c now i xs r (swept c now r) ≡ swept c now r
after_batch-swept c now i xs r = elim (Bool-cases (exists (λ x. x.id == i) xs)) [
  | inl inside ↦ rw inside refl
  | inr outside ↦ rw outside refl
]

after_batch-hit :
    (c : Client) (now : ℕ) (i : RowId) (x : FileRow) (xs : List FileRow) (r q : FileRow)
    → x.id == i ≡ true
    → after_batch c now i (x ∷ xs) r q ≡ swept c now r
unfolding exists
after_batch-hit c now i x xs r q hit = rw hit refl

after_batch-other :
    (c : Client) (now : ℕ) (i : RowId) (x : FileRow) (xs : List FileRow) (r q : FileRow)
    → x.id == i ≡ false
    → after_batch c now i (x ∷ xs) r q ≡ after_batch c now i xs r q
unfolding exists
after_batch-other c now i x xs r q other = rw other refl

-- A row of the batch with the id of the file is the row of the file.
pub batch_row :
    (now : ℕ) (files : List FileRow) (x r : FileRow) (i : RowId)
    → InBatch now files x
    → file_row i files ≡ some r
    → x.id == i ≡ true
    → x ≡ r
batch_row now files x r i batch found hit =
    cc (ap (λ k. file_row k files) (eq_of_== x.id i hit), batch.0, found)

pub clean_files-Swept :
    (c : Client) (now : ℕ) (xs : List FileRow) (r q : FileRow) (i : RowId) (files : List FileRow)
    (db : Db)
    → All (InBatch now files) xs
    → file_row i files ≡ some r
    → file_row i db.files ≡ some q
    → (q ≡ r) ⊎ (q ≡ swept c now r)
    → Swept c now files i (after_batch c now i xs r q) (clean_files c now xs db)
unfolding clean_files exists
clean_files-Swept c now [] r q i files db batch found row h = row
clean_files-Swept c now (x ∷ xs) r q i files db batch found row h =
    let after = (clean_file c now x db).1 in
    elim (clean_file-cases c now x db) [
      | inr (e, failed, other, kept) ↦
          subst (Swept c now files i (after_batch c now i (x ∷ xs) r q))
            (sym (clean_files-raise c now x xs e db failed)) (other, (x, batch.0, kept))
      | inl (n, done) ↦
          subst (Swept c now files i (after_batch c now i (x ∷ xs) r q))
            (sym (clean_files-cons c now n x xs db done))
            (Swept-plus c now n files i (after_batch c now i (x ∷ xs) r q)
              (clean_files c now xs after)
              (elim (Bool-cases (x.id == i)) [
                | inr other ↦
                    subst (λ s. Swept c now files i s (clean_files c now xs after))
                      (sym (after_batch-other c now i x xs r q other))
                      (clean_files-Swept c now xs r q i files after batch.1 found
                        (clean_file-other c now x q i db other row) h)
                | inl hit ↦
                    let same = batch_row now files x r i batch.0 found hit in
                    let at_i = eq_of_== x.id i hit in
                    let own : file_row i after.files ≡ some (swept c now r) =
                      subst (λ y. file_row i after.files ≡ some (swept c now y)) same
                        (subst (λ k. file_row k after.files ≡ some (swept c now x)) at_i
                          (clean_file-own c now n x q db done
                            (subst (λ y. (q ≡ y) ⊎ (q ≡ swept c now y)) (sym same) h)
                            (subst (λ k. file_row k db.files ≡ some q) (sym at_i) row))) in
                    subst (λ s. Swept c now files i s (clean_files c now xs after))
                      (after_batch-swept c now i xs r ∙ sym (after_batch-hit c now i x xs r q hit))
                      (clean_files-Swept c now xs r (swept c now r) i files after batch.1 found own
                        (inr refl))
              ]))
    ]
