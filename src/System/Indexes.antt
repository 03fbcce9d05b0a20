-- ===== src/System/Indexes.antt =====
-- The unique indexes of migrations/versions/0002_core_ledger.py, on runs of the program.
use digital_services_platfor.Base.{◌≤◌, ◌≡◌, List, []}
use digital_services_platfor.Text.{Text}
use digital_services_platfor.Schema.{RowId, Db}
use digital_services_platfor.Ledger.Indexes.{with_key, reserves_of, settlements_of, history_indexes}
use digital_services_platfor.System.{Op, run}
use digital_services_platfor.System.Safety.{run-IsHistory}

-- After any calls from a database without wallet transactions, a wallet has used each key at most
-- once, and each order has at most one reservation and at most one settlement.
pub run_indexes :
    (sha256 : Text → Text) (ops : List Op) (u o : RowId) (key : Text) (db : Db)
    → db.wallet_transactions ≡ []
    → let ts = (run sha256 ops db).wallet_transactions in
      (with_key u key ts ≤ 1) × (reserves_of o ts ≤ 1) × (settlements_of o ts ≤ 1)
run_indexes sha256 ops u o key db e =
    history_indexes u o key (run sha256 ops db).wallet_transactions
      (run-IsHistory sha256 ops db (rw e tt))
