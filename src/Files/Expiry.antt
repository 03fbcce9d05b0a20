-- ===== src/Files/Expiry.antt =====
-- What the cleanup does to each file, and when it raises.
use mathlib.Core.Path.{subst}
use digital_services_platfor.Base.{
  ℕ, ◌≡◌, ◌≢◌, ◌<◌, ◌≤◌, refl, ap, ◌∙◌, ◌⊎◌, inl, inr, Bool, true, false, some, List, [], ◌∷◌,
  arith, ◌==◌, ◌&&◌, not, leb, eqb, Bool-cases, find, exists, count_where, select, length, order_by,
  ltb,
}
use digital_services_platfor.Exec.{transaction, Result, ok, err}
use digital_services_platfor.Files.Storage.{Client, delete_object}
use digital_services_platfor.Schema.{RowId, FileRow, Db, FileStatus, FileStatus-discrete}
use digital_services_platfor.Files.Cleanup.{
  due, clean_files, cleanup_expired_files, due_files, waiting_since,
}
use digital_services_platfor.Files.Swept.{was_deleted, file_row, swept, InBatch, Failed, Swept}
use digital_services_platfor.Tables.Keyed.{
  All, IsKeyed, All-select, keyed-All, All-order_by, All-take,
}
use digital_services_platfor.Tables.Order.{
  exists-order_by, length-order_by, take_all, length-select,
}
use digital_services_platfor.Files.Batch.{after_batch, batch_row, clean_files-Swept}

-- Files whose retention has ended and that are not EXPIRED.
abbrev pub overdue : ℕ → List FileRow → ℕ
overdue now =
    count_where
      λ f. not (eqb FileStatus-discrete f.status FileStatus.expired) && leb f.retention_until now

-- What a cleanup that returns makes of the file `i`, whose row is `r`.
abbrev pub Cleaned : Client → ℕ → RowId → FileRow → Db → Db → Type 0
Cleaned c now i r db db' =
    ((file_row i db'.files ≡ some r)
      × ((r.status ≡ FileStatus.expired)
          ⊎ (now < r.retention_until)
          ⊎ (100 < overdue now db.files)))
    ⊎ ((r.status ≢ FileStatus.expired)
        × (r.retention_until ≤ now)
        × (((was_deleted (delete_object c r.storage_key) ≡ true)
              × (file_row i db'.files
                  ≡ some
                      (record r { cleanup_attempted_at = some now; status = FileStatus.expired })))
            ⊎ ((was_deleted (delete_object c r.storage_key) ≡ false)
                × (file_row i db'.files ≡ some (record r { cleanup_attempted_at = some now })))))

abbrev pub CleanedUp : Client → ℕ → RowId → FileRow → Db → Result ℕ × Db → Type 0
CleanedUp c now i r db (err e, db') = Failed c now db.files e × (db' ≡ db)
CleanedUp c now i r db (ok n, db') = Cleaned c now i r db db'

-- A due file is in the batch, if no more than 100 files are due.
selected :
    (now : ℕ) (r : FileRow) (i : RowId) (files : List FileRow)
    → file_row i files ≡ some r
    → due now r ≡ true
    → exists (λ x. x.id == i) (select (due now) files) ≡ true
unfolding file_row find select exists
selected now r i [] found is_due = cc
selected now r i (x ∷ xs) found is_due = ground (arith, selected now r i xs)

due_files-all :
    (now : ℕ) (i : RowId) (files : List FileRow)
    → overdue now files ≤ 100
    → exists (λ x. x.id == i) (due_files now files)
      ≡ exists (λ x. x.id == i) (select (due now) files)
unfolding due_files
due_files-all now i files small =
    let p : FileRow → Bool = λ x. x.id == i in
    let picked = select (due now) files in
    let by_id = order_by (λ f. f.id) picked in
    let sorted = order_by waiting_since by_id in
    let fits : length sorted ≤ 100 = omega (
      arith,
      length-order_by waiting_since by_id,
      length-order_by (λ f. f.id) picked,
      length-select (due now) files,
      small,
    ) in
    ap (exists p) (take_all 100 sorted fits)
    ∙ exists-order_by waiting_since p by_id
    ∙ exists-order_by (λ f. f.id) p picked

-- A file of the batch is due.
batch_due :
    (now : ℕ) (files xs : List FileRow) (r : FileRow) (i : RowId)
    → All (InBatch now files) xs
    → file_row i files ≡ some r
    → exists (λ x. x.id == i) xs ≡ true
    → due now r ≡ true
unfolding exists
batch_due now files [] r i batch found inside = cc
batch_due now files (x ∷ xs) r i batch found inside = elim (Bool-cases (x.id == i)) [
  | inl hit ↦ subst (λ y. due now y ≡ true) (batch_row now files x r i batch.0 found hit) batch.0.1
  | inr other ↦ batch_due now files xs r i batch.1 found (ground arith)
]

due_files-InBatch :
    (now : ℕ) (files : List FileRow)
    → IsKeyed ◌==◌ (λ f. f.id) files
    → All (InBatch now files) (due_files now files)
unfolding due_files file_row
due_files-InBatch now files keyed =
    let P : FileRow → Type 0 = λ x. file_row x.id files ≡ some x in
    let picked =
      All-select P (due now) files (keyed-All ◌==◌ (λ f. f.id) (λ k. ground arith) files keyed) in
    let sorted =
      All-order_by (InBatch now files) waiting_since _
        (All-order_by (InBatch now files) (λ f. f.id) _ picked) in
    All-take (InBatch now files) 100 _ sorted

swept_row-Cleaned :
    (c : Client) (now : ℕ) (i : RowId) (r : FileRow) (db db' : Db)
    → due now r ≡ true
    → file_row i db'.files ≡ some (swept c now r)
    → Cleaned c now i r db db'
unfolding FileStatus-discrete
swept_row-Cleaned c now i r db db' is_due row =
    elim (Bool-cases (was_deleted (delete_object c r.storage_key))) [
      | inl gone ↦ inr (ground arith, ground arith, inl (gone, ground arith))
      | inr kept ↦ inr (ground arith, ground arith, inr (kept, ground arith))
    ]

kept_row-Cleaned :
    (c : Client) (now : ℕ) (i : RowId) (r : FileRow) (db db' : Db)
    → file_row i db.files ≡ some r
    → exists (λ x. x.id == i) (due_files now db.files) ≡ false
    → file_row i db'.files ≡ some r
    → Cleaned c now i r db db'
unfolding FileStatus-discrete
kept_row-Cleaned c now i r db db' found outside row = elim (Bool-cases (due now r)) [
  | inr quiet ↦ ground arith
  | inl is_due ↦ elim (Bool-cases (ltb 100 (overdue now db.files))) [
    | inl many ↦ inl (row, inr (inr (ground arith)))
    | inr few ↦
        absurd
          (ground (arith, due_files-all now i db.files, selected now r i db.files found is_due))
  ]
]

Swept-Cleaned :
    (c : Client) (now : ℕ) (i : RowId) (r : FileRow) (db db' : Db)
    → file_row i db.files ≡ some r
    → IsKeyed ◌==◌ (λ f. f.id) db.files
    → file_row i db'.files ≡ some (after_batch c now i (due_files now db.files) r r)
    → Cleaned c now i r db db'
Swept-Cleaned c now i r db db' found keyed row =
    elim (Bool-cases (exists (λ x. x.id == i) (due_files now db.files))) [
      | inl inside ↦
          swept_row-Cleaned c now i r db db'
            (batch_due now db.files (due_files now db.files) r i
              (due_files-InBatch now db.files keyed) found inside)
            (ground arith)
      | inr outside ↦ kept_row-Cleaned c now i r db db' found outside (ground arith)
    ]

-- The transaction around the batch.
rolled_back-CleanedUp :
    (c : Client) (now : ℕ) (i : RowId) (r : FileRow) (db : Db) (p : Result ℕ × Db)
    → file_row i db.files ≡ some r
    → IsKeyed ◌==◌ (λ f. f.id) db.files
    → Swept c now db.files i (after_batch c now i (due_files now db.files) r r) p
    → CleanedUp c now i r db (transaction (λ s. p) db)
rolled_back-CleanedUp c now i r db (err e, db') found keyed h = (h, refl)
rolled_back-CleanedUp c now i r db (ok n, db') found keyed h =
    Swept-Cleaned c now i r db db' found keyed h

-- In a table of files with unique ids, a cleanup raises only the exception of the deletion of a due
-- file, if that is no OSError, and then changes nothing. Otherwise it returns; a file whose retention
-- has ended and that is not EXPIRED has an attempt noted, and becomes EXPIRED exactly if the deletion
-- of its object succeeds; every other file stays as it was, and where more than 100 files are due,
-- some of them may stay too.
pub cleanup_expired_files-CleanedUp :
    (c : Client) (now : ℕ) (r : FileRow) (i : RowId) (db : Db)
    → IsKeyed ◌==◌ (λ f. f.id) db.files
    → file_row i db.files ≡ some r
    → CleanedUp c now i r db (cleanup_expired_files c now db)
unfolding cleanup_expired_files
cleanup_expired_files-CleanedUp c now r i db keyed found =
    rolled_back-CleanedUp c now i r db (clean_files c now (due_files now db.files) db) found keyed (
      clean_files-Swept c now (due_files now db.files) r r i db.files db
        (due_files-InBatch now db.files keyed) found found (inl refl))
