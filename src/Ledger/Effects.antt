-- ===== src/Ledger/Effects.antt =====
-- What a wallet operation does to the balances, on success and on a raise.
use digital_services_platfor.Base.{
  ◌≡◌, true, Option, none, some, arith, ◌==◌, exists, if◌then◌else◌, ap, find, refl,
}
use digital_services_platfor.Int.{ℤ, pos, ◌+ℤ◌, ◌-ℤ◌, int_laws}
use digital_services_platfor.Text.{Text}
use digital_services_platfor.Exec.{Result, ok, err}
use digital_services_platfor.Schema.{
  RowId, Db, WalletTransaction, TransactionType, TransactionType-discrete,
}
use digital_services_platfor.Ledger.{
  Balance, available, reserved, key_row, reservation, settlement_row, credit, reserve, settle,
  settles, same_kind, with_row, order_transaction, balances,
}

-- How one wallet's balances move; those of every other wallet `w` stay.
abbrev pub Shifts : RowId → RowId → ℤ → ℤ → Db → Db → Type 0
Shifts u w to_available to_reserved db db' =
    (available w db'.wallet_transactions
      ≡ available w db.wallet_transactions +ℤ (if w == u then to_available else pos 0))
    × (reserved w db'.wallet_transactions
        ≡ reserved w db.wallet_transactions +ℤ (if w == u then to_reserved else pos 0))

-- A first reservation that succeeds only appends its row.
reserve_appends :
    (u o : RowId) (amount : ℤ) (key : Text) (b : Balance) (db db' : Db)
    → key_row u key db.wallet_transactions ≡ none
    → reserve u o amount key db ≡ (ok b, db')
    → db' ≡ with_row (order_transaction u o TransactionType.reserve amount key) db
unfolding reserve
reserve_appends u o amount key b db db' fresh e = ground arith

-- A first reservation that succeeds moves its amount from the available to the reserved balance,
-- and touches no other wallet's balances.
pub reserve-Shifts :
    (u w o : RowId) (amount : ℤ) (key : Text) (b : Balance) (db db' : Db)
    → key_row u key db.wallet_transactions ≡ none
    → reserve u o amount key db ≡ (ok b, db')
    → Shifts u w (pos 0 -ℤ amount) amount db db'
reserve-Shifts u w o amount key b db db' fresh e =
    rw (reserve_appends u o amount key b db db' fresh e) (grind int_laws, grind int_laws)

settle_appends :
    (u o : RowId) (key : Text) (kind : TransactionType) (b : Balance) (h : WalletTransaction)
    (db db' : Db)
    → key_row u key db.wallet_transactions ≡ none
    → reservation u o db.wallet_transactions ≡ some h
    → settle u o key kind db ≡ (ok b, db')
    → (settles kind ≡ true) × (db' ≡ with_row (order_transaction u o kind h.amount_halalas key) db)
unfolding settle
settle_appends u o key kind b h db db' fresh r e = ground arith

-- A first capture takes the reserved amount out of the wallet, a first release gives it back to
-- the available balance, and no other wallet's balances are touched.
pub settle-Shifts :
    (u w o : RowId) (key : Text) (kind : TransactionType) (b : Balance) (h : WalletTransaction)
    (db db' : Db)
    → key_row u key db.wallet_transactions ≡ none
    → reservation u o db.wallet_transactions ≡ some h
    → settle u o key kind db ≡ (ok b, db')
    → Shifts u w
        (if same_kind kind TransactionType.release then h.amount_halalas else pos 0)
        (pos 0 -ℤ h.amount_halalas)
        db
        db'
unfolding TransactionType-discrete
settle-Shifts u w o key kind b h db db' fresh r e =
    let (k, appended) = settle_appends u o key kind b h db db' fresh r e in
    rw appended (grind int_laws, grind int_laws)

-- What a raise has changed: nothing.
abbrev pub RaiseKeeps : Db → Result Balance × Db → Type 0
RaiseKeeps db (ok b, db') = Unit
RaiseKeeps db (err x, db') = db' ≡ db

-- A wallet operation that raises has changed nothing.
pub raise_unchanged :
    (u o : RowId) (amount : ℤ) (key : Text) (kind : TransactionType) (reason : Option Text)
    (db : Db)
    → RaiseKeeps db (credit u amount key kind reason db)
      × RaiseKeeps db (reserve u o amount key db)
      × RaiseKeeps db (settle u o key kind db)
unfolding credit reserve settle
raise_unchanged u o amount key kind reason db = (ground arith, ground arith, ground arith)

-- The wallet that reserved an order that is not settled can settle it under a new key: the
-- operation returns, with the balances after the row it appends.
pub settle_total :
    (u o : RowId) (key : Text) (kind : TransactionType) (h : WalletTransaction) (db : Db)
    → exists (λ w. w == u) db.wallets ≡ true
    → settles kind ≡ true
    → reservation u o db.wallet_transactions ≡ some h
    → settlement_row o db.wallet_transactions ≡ none
    → key_row u key db.wallet_transactions ≡ none
    → let db' = with_row (order_transaction u o kind h.amount_halalas key) db in
      settle u o key kind db ≡ (ok (balances u db'), db')
unfolding settle
settle_total u o key kind h db w k r n f = ground arith

-- What a first reservation leaves for the settlement of its order.
reserve_settleable :
    (u o : RowId) (amount : ℤ) (key : Text) (b : Balance) (db db' : Db)
    → key_row u key db.wallet_transactions ≡ none
    → settlement_row o db.wallet_transactions ≡ none
    → reserve u o amount key db ≡ (ok b, db')
    → (exists (λ w. w == u) db'.wallets ≡ true)
      × (reservation u o db'.wallet_transactions
          ≡ some (order_transaction u o TransactionType.reserve amount key))
      × (settlement_row o db'.wallet_transactions ≡ none)
unfolding reserve reservation settlement_row find TransactionType-discrete
reserve_settleable u o amount key b db db' fresh open_order e =
    (ground arith, ground arith, ground arith)

-- A reservation and its release leave every wallet's balances as they were.
balances-released :
    (u w o : RowId) (amount : ℤ) (key key' : Text) (db : Db)
    → let reserved_db = with_row (order_transaction u o TransactionType.reserve amount key) db in
      balances w (with_row (order_transaction u o TransactionType.release amount key') reserved_db)
      ≡ balances w db
unfolding TransactionType-discrete
balances-released u w o amount key key' db = grind int_laws

-- After a first reservation of an order that is not settled, a release of the order under a new key
-- always returns, with the balance that the wallet had before the reservation, and leaves every
-- wallet's balances as they were before it.
pub settle-reserve :
    (u w o : RowId) (amount : ℤ) (key key' : Text) (b : Balance) (db db' : Db)
    → key_row u key db.wallet_transactions ≡ none
    → settlement_row o db.wallet_transactions ≡ none
    → reserve u o amount key db ≡ (ok b, db')
    → key_row u key' db'.wallet_transactions ≡ none
    → let (r, db'') = settle u o key' TransactionType.release db' in
      (r ≡ ok (balances u db)) × (balances w db'' ≡ balances w db)
settle-reserve u w o amount key key' b db db' fresh open_order e unused =
    let (known, held, unsettled) = reserve_settleable u o amount key b db db' fresh open_order e in
    let released =
      settle_total u o key' TransactionType.release
        (order_transaction u o TransactionType.reserve amount key) db' known refl held unsettled
        unused in
    rw (released, reserve_appends u o amount key b db db' fresh e)
      (
        ap ok (balances-released u u o amount key key' db),
        balances-released u w o amount key key' db,
      )
