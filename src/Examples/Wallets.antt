-- ===== src/Examples/Wallets.antt =====
-- The wallet theorems on the shop.
use digital_services_platfor.Exec.{ok}
use digital_services_platfor.System.{credits, confirms, claims_job, run}
use digital_services_platfor.Base.{refl, [], ◌∷◌, find, exists, ℕ_discrete, none, ◌≡◌, ◌≤◌}
use digital_services_platfor.Int.{pos, ◌-ℤ◌, ℤ-discrete, ◌+ℤ◌, ◌≤ℤ◌}
use digital_services_platfor.Text.{text, Text-discrete}
use digital_services_platfor.Ledger.{
  reserve, settle, key_row, reservation, reserve_row, order_row, settlement_row, same_key,
  lock_wallet, balance, credit, balances, available, reserved,
}
use digital_services_platfor.Examples.{shop, sale, working, hold, digest}
use digital_services_platfor.Ledger.Effects.{Shifts, reserve-Shifts, settle-Shifts, settle-reserve}
use digital_services_platfor.Schema.{OrderStatus, TransactionType, TransactionType-discrete}
use digital_services_platfor.Ledger.Indexes.{with_key, reserves_of, settlements_of}
use digital_services_platfor.Ledger.Replay.{wallet_call, wallet_call_repeat, settle_call}
use digital_services_platfor.Ledger.Holds.{held}
use digital_services_platfor.System.Safety.{run_solvent}
use digital_services_platfor.System.Indexes.{run_indexes}

reserve-Shifts_example :
    let db = record shop { orders = sale OrderStatus.draft ∷ [] } in
    Shifts 1 1 (pos 0 -ℤ pos 500) (pos 500) db (reserve 1 30 (pos 500) (text "r") db).1
unfolding reserve settle key_row reservation reserve_row order_row settlement_row same_key
    lock_wallet balance find exists Text-discrete ℕ_discrete TransactionType-discrete ℤ-discrete
    ◌+ℤ◌ ◌-ℤ◌
reserve-Shifts_example =
    let db = record shop { orders = sale OrderStatus.draft ∷ [] } in
    reserve-Shifts 1 1 30 (pos 500) (text "r")
      (record { available_halalas = pos 500; reserved_halalas = pos 500 }) db
      (reserve 1 30 (pos 500) (text "r") db).1 refl refl

settle-Shifts_example :
    Shifts 1 1
      (pos 0)
      (pos 0 -ℤ pos 500)
      working
      (settle 1 30 (text "c") TransactionType.capture working).1
unfolding reserve settle key_row reservation reserve_row order_row settlement_row same_key
    lock_wallet balance find exists Text-discrete ℕ_discrete TransactionType-discrete ℤ-discrete
    ◌+ℤ◌ ◌-ℤ◌
settle-Shifts_example =
    settle-Shifts 1 1 30 (text "c") TransactionType.capture
      (record { available_halalas = pos 500; reserved_halalas = pos 0 }) hold working
      (settle 1 30 (text "c") TransactionType.capture working).1 refl refl refl

settle-reserve_example :
    let db = record shop { orders = sale OrderStatus.draft ∷ [] } in
    let (r, db'') =
      settle 1 30 (text "c") TransactionType.release (reserve 1 30 (pos 500) (text "r") db).1 in
    (r ≡ ok (balances 1 db)) × (balances 1 db'' ≡ balances 1 db)
unfolding reserve settle credit key_row reservation reserve_row order_row settlement_row same_key
    lock_wallet balance find exists Text-discrete ℕ_discrete TransactionType-discrete ℤ-discrete
    ◌+ℤ◌ ◌-ℤ◌
settle-reserve_example =
    let db = record shop { orders = sale OrderStatus.draft ∷ [] } in
    settle-reserve 1 1 30 (pos 500) (text "r") (text "c")
      (record { available_halalas = pos 500; reserved_halalas = pos 500 }) db
      (reserve 1 30 (pos 500) (text "r") db).1 refl refl refl refl

wallet_call_repeat_example :
    let release = settle_call 1 30 (text "c") TransactionType.release in
    let db = (wallet_call release working).1 in
    wallet_call release db
    ≡ (ok (record { available_halalas = pos 1000; reserved_halalas = pos 0 }), db)
unfolding wallet_call reserve settle credit key_row reservation reserve_row order_row settlement_row
    same_key lock_wallet balance find exists Text-discrete ℕ_discrete TransactionType-discrete
    ℤ-discrete ◌+ℤ◌ ◌-ℤ◌
wallet_call_repeat_example =
    wallet_call_repeat (settle_call 1 30 (text "c") TransactionType.release)
      (record { available_halalas = pos 1000; reserved_halalas = pos 0 }) working
      (wallet_call (settle_call 1 30 (text "c") TransactionType.release) working).1 refl

run_indexes_example :
    let db = record shop { wallet_transactions = [] } in
    let calls =
      credits 1 (pos 1000) (text "b") TransactionType.bonus none
      ∷ confirms 1 6 (text "k") (text "telegram") (21 ∷ 22 ∷ []) none 30 40 0
      ∷ [] in
    let ts = (run digest calls db).wallet_transactions in
    (with_key 1 (text "b") ts ≤ 1) × (reserves_of 30 ts ≤ 1) × (settlements_of 30 ts ≤ 1)
run_indexes_example =
    run_indexes digest
      (credits 1 (pos 1000) (text "b") TransactionType.bonus none
        ∷ confirms 1 6 (text "k") (text "telegram") (21 ∷ 22 ∷ []) none 30 40 0
        ∷ [])
      1 30 (text "b") (record shop { wallet_transactions = [] }) refl

run_solvent_example :
    let db = record shop { wallet_transactions = [] } in
    let calls =
      credits 1 (pos 1000) (text "b") TransactionType.bonus none
      ∷ confirms 1 6 (text "k") (text "telegram") (21 ∷ 22 ∷ []) none 30 40 0
      ∷ claims_job 40 10
      ∷ [] in
    let ts = (run digest calls db).wallet_transactions in
    (pos 0 ≤ℤ available 1 ts) × (reserved 1 ts ≡ pos (held 1 ts ts))
run_solvent_example =
    run_solvent digest
      (credits 1 (pos 1000) (text "b") TransactionType.bonus none
        ∷ confirms 1 6 (text "k") (text "telegram") (21 ∷ 22 ∷ []) none 30 40 0
        ∷ claims_job 40 10
        ∷ [])
      1 (record shop { wallet_transactions = [] }) refl
