-- ===== src/Jobs/Refunds.antt =====
-- What the customer gets back when a job has failed for good.
use digital_services_platfor.Base.{
  if◌then◌else◌, none, ◌<◌, ◌≡◌, refl, inl, inr, Bool, true, some, List, ◌++◌, arith, ◌==◌,
  Option-cases, none, Option, is_some,
}
use digital_services_platfor.Text.{Text, text, uuid_text}
use digital_services_platfor.Exec.{ok, Result-cases}
use digital_services_platfor.Jobs.{
  fail_job, fail_order, Claim, release_price, price_of, end_attempt, update_job, failed_with,
}
use digital_services_platfor.Schema.{
  OrderRow, Db, RowId, TransactionType, WalletTransaction, OrderStatus, AttemptStatus,
  TransactionType-discrete,
}
use digital_services_platfor.Ledger.{
  reservation, available, reserved, order_row, key_row, settle, Balance,
}
use digital_services_platfor.Int.{pos, ◌+ℤ◌, ◌-ℤ◌, ℤ}
use digital_services_platfor.Ledger.Effects.{settle-Shifts}
use digital_services_platfor.Orders.Insert.{set_order_status}
use digital_services_platfor.Tables.{find-update_where, find_sound}
use digital_services_platfor.Stars.Charges.{request_star_refund}

abbrev amount_of : Option WalletTransaction → ℤ
amount_of none = pos 0
amount_of (some h) = h.amount_halalas

-- The reservation of the order `o` by `u` goes back: its amount leaves the reserved balance of `u` and
-- returns to the available one, and no other wallet `w` moves.
abbrev pub GivenBack :
    RowId → RowId → RowId → List WalletTransaction → List WalletTransaction → Type 0
GivenBack u w o ts ts' =
    let amount = amount_of (reservation u o ts) in
    (is_some (reservation u o ts) ≡ true)
    × (available w ts' ≡ available w ts +ℤ (if w == u then amount else pos 0))
    × (reserved w ts' ≡ reserved w ts +ℤ (if w == u then pos 0 -ℤ amount else pos 0))

settle-GivenBack :
    (u w o : RowId) (key : Text) (b : Balance) (db db' : Db)
    → key_row u key db.wallet_transactions ≡ none
    → settle u o key TransactionType.release db ≡ (ok b, db')
    → GivenBack u w o db.wallet_transactions db'.wallet_transactions
unfolding settle TransactionType-discrete
settle-GivenBack u w o key b db db' fresh e =
    elim (Option-cases (reservation u o db.wallet_transactions)) [
      | inl missing ↦ absurd (ground arith)
      | inr (h, held) ↦
          let shifts = settle-Shifts u w o key TransactionType.release b h db db' fresh held e in
          (rw held refl, rw held shifts.0, rw held shifts.1)
    ]

release_price-GivenBack :
    (u w o : RowId) (db : Db)
    → 0 < price_of (order_row o db.orders)
    → key_row u (text "release:" ++ uuid_text o) db.wallet_transactions ≡ none
    → (release_price u o db).0 ≡ ok tt
    → GivenBack u w o db.wallet_transactions (release_price u o db).1.wallet_transactions
unfolding release_price
release_price-GivenBack u w o db positive fresh e =
    let key = text "release:" ++ uuid_text o in
    let kind = TransactionType.release in
    elim (Result-cases (settle u o key kind db).0) [
      | inl (b, settled) ↦
          ground
            (arith, settle-GivenBack u w o key b db (settle u o key kind db).1 fresh (ground arith))
      | inr (x, failed) ↦ absurd (ground arith)
    ]

-- An UPDATE of the status of orders leaves the price of each.
pub price_of-set_order_status :
    (o o' : RowId) (status : OrderStatus) (db : Db)
    → price_of (order_row o (set_order_status o' status db).1.orders)
      ≡ price_of (order_row o db.orders)
unfolding set_order_status order_row
price_of-set_order_status o o' status db = ground (
  arith,
  find-update_where (λ r. r.id == o) (λ r. r.id == o') (λ r. record r { status = status })
      (λ r. refl) db.orders,
)

request_star_refund-orders : (o : RowId) (db : Db) → (request_star_refund o db).1.orders ≡ db.orders
unfolding request_star_refund
request_star_refund-orders o db = ground arith

request_star_refund-wallets :
    (o : RowId) (db : Db)
    → (request_star_refund o db).1.wallet_transactions ≡ db.wallet_transactions
unfolding request_star_refund
request_star_refund-wallets o db = ground arith

fail_order-GivenBack :
    (r : OrderRow) (w : RowId) (db : Db)
    → 0 < price_of (order_row r.id db.orders)
    → key_row r.user_id (text "release:" ++ uuid_text r.id) db.wallet_transactions ≡ none
    → (fail_order r db).0 ≡ ok tt
    → GivenBack r.user_id w r.id db.wallet_transactions (fail_order r db).1.wallet_transactions
unfolding fail_order set_order_status
fail_order-GivenBack r w db positive fresh e =
    let failed = (set_order_status r.id OrderStatus.failed db).1 in
    let refunded = (request_star_refund r.id db).1 in
    let both = (request_star_refund r.id failed).1 in
    ground (
      arith,
      price_of-set_order_status r.id r.id OrderStatus.failed db,
      request_star_refund-orders r.id db,
      request_star_refund-orders r.id failed,
      request_star_refund-wallets r.id db,
      request_star_refund-wallets r.id failed,
      release_price-GivenBack r.user_id w r.id refunded,
      release_price-GivenBack r.user_id w r.id both,
    )

-- A call of `fail_job` that returns true, the last failure of a job, whose order has a price in
-- halalas and was not released before, gives the customer the reservation back: the order is
-- reserved, the amount moves from the reserved to the available balance of its wallet, and no other
-- wallet's balances move.
pub fail_job-GivenBack :
    (c : Claim) (error : Text) (retryable : Bool) (r : OrderRow) (w : RowId) (db : Db)
    → order_row c.order_id db.orders ≡ some r
    → 0 < r.price_snapshot_halalas
    → key_row r.user_id (text "release:" ++ uuid_text r.id) db.wallet_transactions ≡ none
    → (fail_job c error retryable db).0 ≡ ok true
    → GivenBack r.user_id w c.order_id db.wallet_transactions
        (fail_job c error retryable db).1.wallet_transactions
unfolding fail_job end_attempt update_job order_row
fail_job-GivenBack c error retryable r w db found positive fresh e =
    let marked = (end_attempt c AttemptStatus.failed (some error) db).1 in
    let failed = (update_job c.job_id (failed_with true error) marked).1 in
    ground (
      arith,
      find_sound (λ x. x.id == c.order_id) r db.orders found,
      fail_order-GivenBack r w failed,
    )
