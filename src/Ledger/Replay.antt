-- ===== src/Ledger/Replay.antt =====
-- Wallet operations that are sent again under their key.
use digital_services_platfor.Base.{◌≡◌, Option, arith}
use digital_services_platfor.Int.{ℤ}
use digital_services_platfor.Text.{Text}
use digital_services_platfor.Exec.{ok, Exec}
use digital_services_platfor.Schema.{RowId, Db, TransactionType}
use digital_services_platfor.Ledger.{Balance, key_row, reservation, credit, reserve, settle}

credit-credit :
    (u : RowId) (amount : ℤ) (key : Text) (kind : TransactionType) (reason : Option Text)
    (b : Balance) (db db' : Db)
    → credit u amount key kind reason db ≡ (ok b, db')
    → credit u amount key kind reason db' ≡ (ok b, db')
unfolding credit key_row
credit-credit u amount key kind reason b db db' e = ground arith

reserve-reserve :
    (u o : RowId) (amount : ℤ) (key : Text) (b : Balance) (db db' : Db)
    → reserve u o amount key db ≡ (ok b, db')
    → reserve u o amount key db' ≡ (ok b, db')
unfolding reserve key_row
reserve-reserve u o amount key b db db' e = ground arith

settle-settle :
    (u o : RowId) (key : Text) (kind : TransactionType) (b : Balance) (db db' : Db)
    → settle u o key kind db ≡ (ok b, db')
    → settle u o key kind db' ≡ (ok b, db')
unfolding settle key_row reservation
settle-settle u o key kind b db db' e = ground arith

-- The operations on wallets with their arguments.
pub data WalletCall : Type 0 where
  credit_call : RowId → ℤ → Text → TransactionType → Option Text → WalletCall
  reserve_call : RowId → RowId → ℤ → Text → WalletCall
  settle_call : RowId → RowId → Text → TransactionType → WalletCall

unfoldable pub wallet_call : WalletCall → Exec Db Balance
wallet_call (credit_call u amount key kind reason) = credit u amount key kind reason
wallet_call (reserve_call u o amount key) = reserve u o amount key
wallet_call (settle_call u o key kind) = settle u o key kind

-- A credit, a reservation or a settlement that succeeded returns the same balance when it is sent
-- again, and changes nothing.
pub wallet_call_repeat :
    (c : WalletCall) (b : Balance) (db db' : Db)
    → wallet_call c db ≡ (ok b, db')
    → wallet_call c db' ≡ (ok b, db')
unfolding wallet_call
wallet_call_repeat (credit_call u amount key kind reason) b db db' e =
    credit-credit u amount key kind reason b db db' e
wallet_call_repeat (reserve_call u o amount key) b db db' e =
    reserve-reserve u o amount key b db db' e
wallet_call_repeat (settle_call u o key kind) b db db' e = settle-settle u o key kind b db db' e
