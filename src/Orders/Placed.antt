-- ===== src/Orders/Placed.antt =====
-- What a confirmation of an order has done.
use digital_services_platfor.Base.{
  ℕ, ◌≡◌, inl, inr, Bool, true, ◌&&◌, Option, none, some, List, [], ◌∷◌, ◌++◌, arith, ◌==◌, eqb,
  Option-cases, find, exists, update_where, ◌||◌,
}
use digital_services_platfor.Int.{ℤ, pos, ℤ-discrete}
use digital_services_platfor.Text.{Text, text, uuid_text}
use digital_services_platfor.Exec.{ok, Result-cases, Error, err, Result}
use digital_services_platfor.Schema.{
  RowId, Db, WalletTransaction, ServiceRow, TransactionType, OrderStatus, JobStatus,
  TransactionType-discrete,
}
use digital_services_platfor.Ledger.{
  key_row, order_row, for_order, reserve, same_key, same_kind, Balance,
}
use digital_services_platfor.Orders.{
  confirm_order, hold_price, place_order, is_request, draft_order,
}
use digital_services_platfor.Orders.Inputs.{enabled_service}
use digital_services_platfor.Jobs.{job_is}
use digital_services_platfor.Orders.Insert.{set_order_status, insert_job, insert_order}
use digital_services_platfor.System.Wallets.{check_inputs-frame}

abbrev pub is_hold : RowId → RowId → ℤ → WalletTransaction → Bool
is_hold u o amount t =
    t.wallet_user_id == u
    && for_order o t.order_id
    && same_kind t.transaction_type TransactionType.reserve
    && eqb ℤ-discrete t.amount_halalas amount

-- A wallet holds an order's price, which for a free order is nothing.
abbrev pub Held : RowId → RowId → ℕ → List WalletTransaction → Type 0
Held u o price ts = price == 0 || exists (is_hold u o (pos price)) ts ≡ true

key_row-is_hold :
    (u o : RowId) (key : Text) (amount : ℤ) (t : WalletTransaction) (ts : List WalletTransaction)
    → key_row u key ts ≡ some t
    → t.order_id ≡ some o
    → t.transaction_type ≡ TransactionType.reserve
    → t.amount_halalas ≡ amount
    → exists (is_hold u o amount) ts ≡ true
unfolding key_row exists
key_row-is_hold u o key amount t [] e same kind hold = cc
key_row-is_hold u o key amount t (x ∷ ts) e same kind hold =
    ground (arith, key_row-is_hold u o key amount t ts)

reserve-is_hold :
    (u o : RowId) (amount : ℤ) (key : Text) (b : Balance) (db : Db)
    → (reserve u o amount key db).0 ≡ ok b
    → exists (is_hold u o amount) (reserve u o amount key db).1.wallet_transactions ≡ true
unfolding reserve same_key exists TransactionType-discrete
reserve-is_hold u o amount key b db e = elim (Option-cases (key_row u key db.wallet_transactions)) [
  | inl fresh ↦ ground arith
  | inr (t, found) ↦ ground (arith, key_row-is_hold u o key amount t db.wallet_transactions found)
]

hold_price-Held :
    (u o : RowId) (price : ℕ) (db : Db)
    → (hold_price u o price db).0 ≡ ok tt
    → Held u o price (hold_price u o price db).1.wallet_transactions
unfolding hold_price
hold_price-Held u o price db e =
    let key = text "reserve:" ++ uuid_text o in
    elim (Result-cases (reserve u o (pos price) key db).0) [
      | inl (b, reserved) ↦ ground (arith, reserve-is_hold u o (pos price) key b db reserved)
      | inr (x, failed) ↦ ground arith
    ]

hold_price-orders :
    (u o : RowId) (price : ℕ) (db : Db) → (hold_price u o price db).1.orders ≡ db.orders
unfolding hold_price reserve
hold_price-orders u o price db = ground arith

-- The order is there, RESERVED at the price of the service, the price is held, and a job is pending.
abbrev pub Placed : RowId → RowId → RowId → ServiceRow → Text → Text → Db → Type 0
Placed placed u o s key channel db =
    (placed ≡ o)
    × (order_row o db.orders
        ≡ some (record (draft_order o u s key channel) { status = OrderStatus.reserved }))
    × Held u o s.base_price_halalas db.wallet_transactions
    × (exists (λ j. j.order_id == o && job_is JobStatus.pending j) db.jobs ≡ true)

place_order-Placed :
    (u : RowId) (s : ServiceRow) (key channel : Text) (ids : List RowId) (o job placed : RowId)
    (db : Db)
    → (place_order u s key channel ids o job db).0 ≡ ok placed
    → Placed placed u o s key channel (place_order u s key channel ids o job db).1
unfolding place_order set_order_status order_row find update_where exists insert_job insert_order
place_order-Placed u s key channel ids o job placed db e =
    let price = s.base_price_halalas in
    let drafted = record db { orders = draft_order o u s key channel ∷ db.orders } in
    ground (arith, hold_price-Held u o price drafted, hold_price-orders u o price drafted)

confirm_order-Placed :
    (u service : RowId) (key channel : Text) (ids : List RowId) (expected : Option ℕ)
    (o job now placed : ℕ) (s : ServiceRow) (db : Db)
    → find (is_request u key) db.orders ≡ none
    → enabled_service service db ≡ some s
    → (confirm_order u service key channel ids expected o job now db).0 ≡ ok placed
    → Placed placed u o s key channel
        (confirm_order u service key channel ids expected o job now db).1
unfolding confirm_order
confirm_order-Placed u service key channel ids expected o job now placed s db fresh found e =
    ground (
      arith,
      check_inputs-frame u ids now s.input_schema db,
      place_order-Placed u s key channel ids o job placed db,
    )

confirm_order-rollback :
    (u service : RowId) (key channel : Text) (ids : List RowId) (expected : Option ℕ)
    (o job now : ℕ) (x : Error) (db : Db)
    → (confirm_order u service key channel ids expected o job now db).0 ≡ err x
    → (confirm_order u service key channel ids expected o job now db).1 ≡ db
unfolding confirm_order
confirm_order-rollback u service key channel ids expected o job now x db e = ground arith

abbrev pub Confirmed : RowId → RowId → ServiceRow → Text → Text → Db → Result RowId × Db → Type 0
Confirmed u o s key channel db (err e, db') = db' ≡ db
Confirmed u o s key channel db (ok placed, db') = Placed placed u o s key channel db'

-- A confirmation of a new request that returns has inserted the order, RESERVED and at the price
-- of the service, holds that price in the customer's wallet, and has a job pending for it; one
-- that raises, at whatever step, changes nothing.
pub confirm_order-Confirmed :
    (u service : RowId) (key channel : Text) (ids : List RowId) (expected : Option ℕ)
    (o job now : ℕ) (s : ServiceRow) (db : Db)
    → find (is_request u key) db.orders ≡ none
    → enabled_service service db ≡ some s
    → Confirmed u o s key channel db (confirm_order u service key channel ids expected o job now db)
confirm_order-Confirmed u service key channel ids expected o job now s db fresh found =
    elim (Result-cases (confirm_order u service key channel ids expected o job now db).0) [
      | inl (placed, e) ↦ ground (
        arith,
        confirm_order-Placed u service key channel ids expected o job now placed s db fresh found e,
      )
      | inr (x, e) ↦
          ground (arith, confirm_order-rollback u service key channel ids expected o job now x db e)
    ]
