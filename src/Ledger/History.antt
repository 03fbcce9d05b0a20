-- ===== src/Ledger/History.antt =====
-- The histories that the wallet operations of ledger.py can write: what each row of
-- `wallet_transactions` had to find in the table that it was appended to.
use digital_services_platfor.Base.{◌≡◌, Option, none, some, List, [], ◌∷◌, arith}
use digital_services_platfor.Int.{ℤ, pos, ◌+ℤ◌, ◌≤ℤ◌}
use digital_services_platfor.Text.{Text}
use digital_services_platfor.Schema.{RowId, Db, WalletTransaction, TransactionType}
use digital_services_platfor.Ledger.{
  available, key_row, reserve_row, reservation, settlement_row, credit, reserve, settle,
}

-- A new reservation: of its order the first, positive, and covered.
abbrev pub CanReserve : List WalletTransaction → WalletTransaction → Type 0
CanReserve ts t = elim t.order_id [
  | none ↦ ⊥
  | some o ↦
      (reserve_row o ts ≡ none)
      × (pos 1 ≤ℤ t.amount_halalas)
      × (t.amount_halalas ≤ℤ available t.wallet_user_id ts)
]

abbrev pub HoldsAmount : Option WalletTransaction → ℤ → Type 0
HoldsAmount none a = ⊥
HoldsAmount (some h) a = h.amount_halalas ≡ a

-- A settlement: of its order the first, for the amount that the same wallet reserved.
abbrev pub CanSettle : List WalletTransaction → WalletTransaction → Type 0
CanSettle ts t = elim t.order_id [
  | none ↦ ⊥
  | some o ↦
      HoldsAmount (reservation t.wallet_user_id o ts) t.amount_halalas
      × (settlement_row o ts ≡ none)
]

-- A credit belongs to no order and leaves the available balance at 0 or more.
abbrev pub CanCredit : List WalletTransaction → WalletTransaction → Type 0
CanCredit ts t = (t.order_id ≡ none) × (pos 0 ≤ℤ available t.wallet_user_id ts +ℤ t.amount_halalas)

abbrev pub CanAppend : List WalletTransaction → WalletTransaction → Type 0
CanAppend ts t = elim t.transaction_type [
  | TransactionType.reserve ↦ CanReserve ts t
  | TransactionType.capture ↦ CanSettle ts t
  | TransactionType.release ↦ CanSettle ts t
  | TransactionType.refund ↦ ⊥
  | _ ↦ CanCredit ts t
]

-- Every row could be appended to those before it, and its key was new to its wallet.
abbrev pub IsHistory : List WalletTransaction → Type 0
IsHistory [] = Unit
IsHistory (t ∷ ts) =
    (key_row t.wallet_user_id t.idempotency_key ts ≡ none) × CanAppend ts t × IsHistory ts

pub credit-IsHistory :
    (u : RowId) (amount : ℤ) (key : Text) (kind : TransactionType) (reason : Option Text) (db : Db)
    → IsHistory db.wallet_transactions
    → IsHistory (credit u amount key kind reason db).1.wallet_transactions
unfolding credit
credit-IsHistory u amount key kind reason db h = ground arith

pub reserve-IsHistory :
    (u o : RowId) (amount : ℤ) (key : Text) (db : Db)
    → IsHistory db.wallet_transactions
    → IsHistory (reserve u o amount key db).1.wallet_transactions
unfolding reserve
reserve-IsHistory u o amount key db h = ground arith

pub settle-IsHistory :
    (u o : RowId) (key : Text) (kind : TransactionType) (db : Db)
    → IsHistory db.wallet_transactions
    → IsHistory (settle u o key kind db).1.wallet_transactions
unfolding settle
settle-IsHistory u o key kind db h = ground arith
