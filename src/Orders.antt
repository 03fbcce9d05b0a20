-- ===== src/Orders.antt =====
-- packages/python/platform_core/orders.py: idempotent order confirmation and delivery.
pub mod Insert
pub mod Inputs
pub mod Placed
use digital_services_platfor.Base.{
  ℕ, zero, suc, ◌+◌, ◌-◌, ◌*◌, ◌≤◌, ◌<◌, min, String, ◌≡◌, refl, sym, ap, ◌∙◌, ◌≢◌, ◌↔◌, ◌⊎◌, inl,
  inr, Bool, true, false, not, ◌&&◌, ◌||◌, Option, none, some, List, [], ◌∷◌, ◌++◌, map, arith, ltb,
  leb, ◌==◌, if◌then◌else◌, eqb, Bool-cases, Option-cases, is_some, length, find, exists,
  count_where, update_where, delete_where, order_by, select, member, distinct,
}
use digital_services_platfor.Int.{
  ℤ, pos, negsuc, ◌+ℤ◌, ◌-ℤ◌, ◌≤ℤ◌, ltb_ℤ, leb_ℤ, ℤ-discrete, int_laws,
}
use digital_services_platfor.Text.{Text, Text-discrete, text, strip, is_empty, uuid_text, uuid_hex}
use digital_services_platfor.Exec.{
  Error, value_error, type_error, insufficient_funds, idempotency_conflict, invalid_settlement,
  payment_mismatch, stars_mismatch, stale_quote, not_found, revision_conflict, transition_rejected,
  update_rejected, unique_violation, provider_error, Result, ok, err, Exec, pure, raise, gets,
  or_raise, transaction, ◌>>=◌, ◌>>◌, raise_if, raise_unless, modify, when,
}
use digital_services_platfor.Schema.{
  OrderRow, OrderStatus, RowId, UserRow, Db, JobRow, OrderStatus-discrete, ServiceRow, Currency,
  Currency-discrete, FileRow, JobStatus-discrete, FileType-discrete, JobStatus, RowIds-discrete,
  FileType, TransactionType, FileStatus-discrete, FileStatus,
}
use digital_services_platfor.Orders.Insert.{
  insert_order, set_order_status, insert_order_files, insert_job,
}
use digital_services_platfor.Ledger.{lock_wallet, same_text, reserve, settle, for_order}
use digital_services_platfor.Stars.Offers.{is_number, is_text}
use digital_services_platfor.Orders.Inputs.{file_ids_of, enabled_service, check_inputs}
use digital_services_platfor.Stars.Charges.{mark_star_delivery}

abbrev pub has_telegram_id : ℕ → UserRow → Bool
has_telegram_id tg r = is_number r.telegram_user_id tg

unfoldable pub user_of : ℕ → List UserRow → Option UserRow
unfolding find
user_of tg = find (has_telegram_id tg)

-- `new_id` is the `uuid4()` of the INSERT, which ON CONFLICT may leave unused.
unfoldable pub ensure_telegram_user : ℕ → RowId → Exec Db RowId
unfolding exists user_of
ensure_telegram_user tg new_id = do
  raise_unless (ltb 0 tg) (value_error "invalid Telegram user id")
  transaction (do
    modify λ db.
        if exists (has_telegram_id tg) db.users
        then db
        else record db { users = record { id = new_id; telegram_user_id = some tg } ∷ db.users }
    found ← gets (λ db. user_of tg db.users)
    u ← or_raise found (value_error "user missing")
    modify λ db.
        if exists (λ w. w == u.id) db.wallets then db else record db { wallets = u.id ∷ db.wallets }
    pure u.id)

abbrev pub draft_order : RowId → RowId → ServiceRow → Text → Text → OrderRow
draft_order o u s key channel = record {
  id = o;
  user_id = u;
  service_id = s.id;
  client_request_key = key;
  channel = channel;
  price_snapshot_halalas = s.base_price_halalas;
  currency = Currency.sar;
  price_snapshot_stars = none;
  status = OrderStatus.draft;
  delivery_receipt = none;
}

abbrev pub is_request : RowId → Text → OrderRow → Bool
is_request u key r = r.user_id == u && same_text r.client_request_key key

abbrev pub price_expected : Option ℕ → ℕ → Bool
price_expected none price = true
price_expected (some expected) price = price == expected

-- `if price: await reserve(…)`
unfoldable pub hold_price : RowId → RowId → ℕ → Exec Db (Unit {0})
hold_price u o price =
    when (ltb 0 price) (reserve u o (pos price) (text "reserve:" ++ uuid_text o) >>= λ _. pure tt)

-- The part of `confirm_order` after the inputs are checked.
unfoldable pub place_order :
    RowId → ServiceRow → Text → Text → List RowId → RowId → RowId → Exec Db RowId
unfolding insert_order set_order_status insert_order_files insert_job
place_order u s key channel ids o job = do
  insert_order (draft_order o u s key channel)
  hold_price u o s.base_price_halalas
  set_order_status o OrderStatus.reserved
  insert_order_files o ids
  insert_job job o
  pure o

unfoldable pub confirm_order :
    RowId → RowId → Text → Text → List RowId → Option ℕ → RowId → RowId → ℕ → Exec Db RowId
unfolding lock_wallet
confirm_order u service key channel ids expected order_id job_id now = do
  raise_if (is_empty (strip key) || ltb 160 (length key)) (value_error "invalid request key")
  transaction (do
    lock_wallet u
    existing ← gets (λ db. find (is_request u key) db.orders)
    elim existing [
      | some r ↦ do
        raise_unless (r.service_id == service && same_text r.channel channel)
            (idempotency_conflict "request key already used for a different order")
        prior ← gets (λ db. file_ids_of r.id db.order_files)
        raise_unless (eqb RowIds-discrete prior ids)
            (idempotency_conflict "request key already used with different inputs")
        pure r.id
      | none ↦ do
        found ← gets (enabled_service service)
        s ← or_raise found (value_error "service unavailable")
        check_inputs u ids now s.input_schema
        raise_unless (price_expected expected s.base_price_halalas)
            (value_error "service price changed; new confirmation required")
        place_order u s key channel ids order_id job_id
    ])

-- The SELECT of a deliverable result.
abbrev pub deliverable_file : RowId → RowId → ℕ → JobRow → FileRow → Bool
deliverable_file u o now j f =
    is_number j.result_file_id f.id
    && eqb FileType-discrete f.file_type FileType.output
    && for_order o f.order_id
    && f.owner_user_id == u
    && eqb FileStatus-discrete f.status FileStatus.ready
    && ltb now f.retention_until

unfoldable pub result_ready : RowId → RowId → ℕ → Db → Bool
unfolding exists
result_ready u o now db =
    exists
      (λ j.
        j.order_id == o
        && eqb JobStatus-discrete j.status JobStatus.completed
        && exists (deliverable_file u o now j) db.files)
      db.jobs

-- UPDATE orders SET status='COMPLETED',…,delivery_receipt=… WHERE id=…
unfoldable pub complete_order : RowId → Text → Exec Db (Unit {0})
complete_order o receipt = modify λ db. record db {
  orders =
      update_where (λ r. r.id == o)
        (λ r. record r { status = OrderStatus.completed; delivery_receipt = some receipt })
        db.orders;
}

abbrev pub order_is : OrderStatus → OrderRow → Bool
order_is status r = eqb OrderStatus-discrete r.status status

-- The Stars charge is marked delivered, or the held halalas are captured.
unfoldable pub take_payment : OrderRow → Text → Exec Db (Unit {0})
take_payment order receipt =
    if eqb Currency-discrete order.currency Currency.xtr
    then mark_star_delivery order.id receipt
    else when (ltb 0 order.price_snapshot_halalas) (
        settle order.user_id order.id (text "capture:" ++ uuid_text order.id)
          TransactionType.capture
        >>= λ _. pure tt)

unfoldable pub acknowledge_delivery : RowId → RowId → Text → ℕ → Exec Db (Unit {0})
unfolding lock_wallet
acknowledge_delivery u o receipt now = do
  raise_if (is_empty (strip receipt) || ltb 200 (length receipt))
      (value_error "invalid delivery receipt")
  transaction (do
    lock_wallet u
    found ← gets (λ db. find (λ r. r.id == o && r.user_id == u) db.orders)
    order ← or_raise found (value_error "order not found")
    (if order_is OrderStatus.completed order
        then raise_unless (is_text order.delivery_receipt receipt)
            (idempotency_conflict "order delivered with different receipt")
        else (do
          raise_unless (order_is OrderStatus.awaiting_fulfillment order)
              (value_error "order not ready for delivery")
          ready ← gets (result_ready u o now)
          raise_unless ready (value_error "result unavailable")
          take_payment order receipt
          complete_order o receipt)))
