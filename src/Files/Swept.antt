-- ===== src/Files/Swept.antt =====
-- What the loop of the cleanup does to each file.
use digital_services_platfor.Base.{
  ℕ, ◌+◌, ◌≡◌, refl, ◌⊎◌, inl, inr, Bool, true, false, Option, some, List, ◌∷◌, arith, ◌==◌,
  if◌then◌else◌, Bool-cases, find, update_where,
}
use digital_services_platfor.Exec.{Error, Result, ok, err, Result-cases}
use digital_services_platfor.Files.Storage.{Client, delete_object}
use digital_services_platfor.Schema.{RowId, FileRow, FileStatus, Db}
use digital_services_platfor.Files.Cleanup.{
  clean_file, update_file_row, due, attempted, expired, clean_files, is_os_error,
}
use digital_services_platfor.Tables.{find-update_where, find_sound}

abbrev pub was_deleted : Result (Unit {0}) → Bool
was_deleted (ok t) = true
was_deleted (err e) = false

unfoldable pub file_row : RowId → List FileRow → Option FileRow
file_row i = find λ f. f.id == i

-- A file after an attempt.
abbrev pub swept : Client → ℕ → FileRow → FileRow
swept c now r =
    if was_deleted (delete_object c r.storage_key)
    then record r { cleanup_attempted_at = some now; status = FileStatus.expired }
    else record r { cleanup_attempted_at = some now }

-- A row of the batch: it is due, and what a SELECT by its `id` finds.
abbrev pub InBatch : ℕ → List FileRow → FileRow → Type 0
InBatch now files x = (file_row x.id files ≡ some x) × (due now x ≡ true)

-- The exception of a deletion of a row of the batch that is no OSError.
abbrev pub Failed : Client → ℕ → List FileRow → Error → Type 0
Failed c now files e =
    (is_os_error e ≡ false)
    × ((x : FileRow) × InBatch now files x × (delete_object c x.storage_key ≡ err e))

abbrev pub Swept : Client → ℕ → List FileRow → RowId → FileRow → Result ℕ × Db → Type 0
Swept c now files i q (err e, db') = Failed c now files e
Swept c now files i q (ok n, db') = file_row i db'.files ≡ some q

abbrev plus : ℕ → Result ℕ × Db → Result ℕ × Db
plus n (ok m, db) = (ok (n + m), db)
plus n (err e, db) = (err e, db)

pub Swept-plus :
    (c : Client) (now n : ℕ) (files : List FileRow) (i : RowId) (q : FileRow) (p : Result ℕ × Db)
    → Swept c now files i q p
    → Swept c now files i q (plus n p)
Swept-plus c now n files i q (ok m, db) h = h
Swept-plus c now n files i q (err e, db) h = h

pub clean_files-cons :
    (c : Client) (now n : ℕ) (x : FileRow) (xs : List FileRow) (db : Db)
    → (clean_file c now x db).0 ≡ ok n
    → clean_files c now (x ∷ xs) db ≡ plus n (clean_files c now xs (clean_file c now x db).1)
unfolding clean_files
clean_files-cons c now n x xs db e = ground arith

pub clean_files-raise :
    (c : Client) (now : ℕ) (x : FileRow) (xs : List FileRow) (e : Error) (db : Db)
    → (clean_file c now x db).0 ≡ err e
    → clean_files c now (x ∷ xs) db ≡ (err e, (clean_file c now x db).1)
unfolding clean_files
clean_files-raise c now x xs e db h = ground arith

-- A round either raises what is no OSError, or goes on.
pub clean_file-cases :
    (c : Client) (now : ℕ) (x : FileRow) (db : Db)
    → ((n : ℕ) × ((clean_file c now x db).0 ≡ ok n))
      ⊎ ((e : Error) × ((clean_file c now x db).0 ≡ err e)
          × (is_os_error e ≡ false)
          × (delete_object c x.storage_key ≡ err e))
unfolding clean_file update_file_row
clean_file-cases c now x db = elim (Result-cases (delete_object c x.storage_key)) [
  | inl (t, gone) ↦ inl (1, ground arith)
  | inr (e, kept) ↦ elim (Bool-cases (is_os_error e)) [
    | inl os ↦ inl (0, ground arith)
    | inr other ↦ inr (e, ground arith, other, kept)
  ]
]

-- A round of another file.
pub clean_file-other :
    (c : Client) (now : ℕ) (x q : FileRow) (i : RowId) (db : Db)
    → x.id == i ≡ false
    → file_row i db.files ≡ some q
    → file_row i (clean_file c now x db).1.files ≡ some q
unfolding clean_file update_file_row file_row
clean_file-other c now x q i db other found =
    let once = find-update_where (λ f. f.id == i) (λ f. f.id == x.id) (attempted now) (λ f. refl) in
    let ends = find-update_where (λ f. f.id == i) (λ f. f.id == x.id) expired (λ f. refl) in
    let own = find_sound (λ f. f.id == i) q db.files found in
    elim (Result-cases (delete_object c x.storage_key)) [
      | inl (t, gone) ↦
          ground
            (arith, once db.files, ends (update_where (λ f. f.id == x.id) (attempted now) db.files))
      | inr (e, kept) ↦ elim (Bool-cases (is_os_error e)) [
        | inl os ↦ ground (arith, once db.files)
        | inr none_os ↦ ground (arith, once db.files)
      ]
    ]

-- A round of the file itself, which goes on.
pub clean_file-own :
    (c : Client) (now n : ℕ) (x q : FileRow) (db : Db)
    → (clean_file c now x db).0 ≡ ok n
    → (q ≡ x) ⊎ (q ≡ swept c now x)
    → file_row x.id db.files ≡ some q
    → file_row x.id (clean_file c now x db).1.files ≡ some (swept c now x)
unfolding clean_file update_file_row file_row
clean_file-own c now n x q db e before found =
    let once =
      find-update_where (λ f. f.id == x.id) (λ f. f.id == x.id) (attempted now) (λ f. refl) in
    let ends = find-update_where (λ f. f.id == x.id) (λ f. f.id == x.id) expired (λ f. refl) in
    elim (Result-cases (delete_object c x.storage_key)) [
      | inl (t, gone) ↦
          ground
            (arith, once db.files, ends (update_where (λ f. f.id == x.id) (attempted now) db.files))
      | inr (y, kept) ↦ elim (Bool-cases (is_os_error y)) [
        | inl os ↦ ground (arith, once db.files)
        | inr none_os ↦ ground (arith, once db.files)
      ]
    ]
