-- ===== src/Files/Offered.antt =====
-- The results that are shown can be fetched.
use digital_services_platfor.Base.{
  ℕ, ◌≤◌, ◌≡◌, ◌&&◌, eqb, ltb, true, some, List, arith, ◌==◌, find, length, exists, Bool, refl,
  ◌&&◌, ◌∷◌, [],
}
use digital_services_platfor.Tables.Keyed.{
  All, IsKeyed, keyed-All, All-select, All-order_by, All-take, length-map-take, All-map,
  All-reverse,
}
use digital_services_platfor.Schema.{FileStatus, FileStatus-discrete, Db, FileRow}
use digital_services_platfor.Stars.{of_telegram_user}
use digital_services_platfor.Files.Access.{readable_row}
use digital_services_platfor.Files.Results.{
  CustomerFile, customer_file, is_result, result_rows, recent_results, completed_result_owner,
}

-- What a result that is shown gives when it is asked for.
pub record IsFetchable (telegram_user_id now : ℕ) (db : Db) (r : CustomerFile) : Type 0 where
  file : FileRow
  shown : customer_file file ≡ r
  owned : completed_result_owner telegram_user_id r.id now db ≡ some file.owner_user_id
  own_user : exists (of_telegram_user telegram_user_id file.owner_user_id) db.users ≡ true
  readable : readable_row file.owner_user_id r.id now db.files ≡ some file
  small : file.size_bytes ≤ 20971520

-- A row that is found by its key is found with what it meets besides.
find_narrower :
    (q r : FileRow → Bool) (x : FileRow) (xs : List FileRow)
    → find q xs ≡ some x
    → r x ≡ true
    → find (λ z. q z && r z) xs ≡ some x
unfolding find
find_narrower q r x [] e h = cc
find_narrower q r x (y ∷ ys) e h = ground (arith, find_narrower q r x ys)

row-IsFetchable :
    (tg now : ℕ) (db : Db) (f : FileRow)
    → find (λ z. z.id == f.id) db.files ≡ some f
    → is_result tg now db f ≡ true
    → IsFetchable tg now db (customer_file f)
unfolding is_result readable_row completed_result_owner
row-IsFetchable tg now db f found result = record {
  file = f;
  shown = refl;
  owned =
      ground
        (arith, find_narrower (λ z. z.id == f.id) (is_result tg now db) f db.files found result);
  own_user = ground arith;
  readable = ground (
    arith,
    find_narrower (λ z. z.id == f.id)
        (λ z.
          z.owner_user_id == f.owner_user_id
          && eqb FileStatus-discrete z.status FileStatus.ready
          && ltb now z.retention_until)
        f db.files found,
  );
  small = ground arith;
}

-- At most ten results are shown. Each is a file of a user with that Telegram id, at most 20 MiB
-- large, whose owner is found again when it is asked for and may read it.
pub recent_results-IsFetchable :
    (telegram_user_id now : ℕ) (db : Db)
    → IsKeyed ◌==◌ (λ f. f.id) db.files
    → (length (recent_results telegram_user_id now db) ≤ 10)
      × All (IsFetchable telegram_user_id now db) (recent_results telegram_user_id now db)
unfolding recent_results result_rows
recent_results-IsFetchable tg now db keyed =
    let P : FileRow → Type 0 = λ x. find (λ z. z.id == x.id) db.files ≡ some x in
    let R : FileRow → Type 0 = λ x. P x × (is_result tg now db x ≡ true) in
    let picked =
      All-select P (is_result tg now db) db.files
        (keyed-All ◌==◌ (λ f. f.id) (λ k. ground arith) db.files keyed) in
    let sorted = All-order_by R (λ f. f.created_at) _ (All-order_by R (λ f. f.id) _ picked) in
    (
      length-map-take customer_file 10 _,
      All-map R (IsFetchable tg now db) customer_file (λ x h. row-IsFetchable tg now db x h.0 h.1) _
          (All-take R 10 _ (All-reverse R _ sorted)),
    )
