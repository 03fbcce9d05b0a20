-- ===== src/Ledger.antt =====
-- packages/python/platform_core/ledger.py: SAR wallet operations. Amounts are halalas. A wallet
-- lock serialises the writers of one wallet, so each transaction here is one atomic step.
pub mod History
pub mod Holds
pub mod Replay
pub mod Effects
pub mod Indexes
use digital_services_platfor.Base.{
  Bool, true, false, not, ◌&&◌, ◌||◌, Option, none, some, List, [], ◌∷◌, ◌==◌, eqb, find, exists,
  is_some, if◌then◌else◌,
}
use digital_services_platfor.Int.{ℤ, pos, ◌+ℤ◌, ◌-ℤ◌, ltb_ℤ, leb_ℤ, ℤ-discrete}
use digital_services_platfor.Text.{Text, Text-discrete, strip, is_empty}
use digital_services_platfor.Exec.{
  Error, value_error, insufficient_funds, idempotency_conflict, invalid_settlement, Exec, pure,
  gets, or_raise, transaction, ◌>>=◌, ◌>>◌, raise_if, raise_unless, modify,
}
use digital_services_platfor.Schema.{
  RowId, Db, WalletTransaction, TransactionType, TransactionType-discrete, OrderRow, OrderStatus,
}

pub record Balance : Type 0 where
  pub available_halalas : ℤ
  pub reserved_halalas : ℤ

abbrev pub same_kind : TransactionType → TransactionType → Bool
same_kind = eqb TransactionType-discrete

-- `order_id = o`, which is never true of a NULL.
abbrev pub for_order : RowId → Option RowId → Bool
for_order o none = false
for_order o (some o') = o' == o

-- `(a, b) == (a', b')` of two optional ids in Python, where `None == None`.
abbrev pub same_id : Option RowId → Option RowId → Bool
same_id none none = true
same_id (some a) (some b) = a == b
same_id _ _ = false

abbrev pub same_text : Text → Text → Bool
same_text = eqb Text-discrete

abbrev pub same_reason : Option Text → Option Text → Bool
same_reason none none = true
same_reason (some a) (some b) = same_text a b
same_reason _ _ = false

-- The two CASE expressions of `balance`.
abbrev pub available_change : WalletTransaction → ℤ
available_change t = elim t.transaction_type [
  | TransactionType.reserve ↦ pos 0 -ℤ t.amount_halalas
  | TransactionType.capture ↦ pos 0
  | _ ↦ t.amount_halalas
]

abbrev pub reserved_change : WalletTransaction → ℤ
reserved_change t = elim t.transaction_type [
  | TransactionType.reserve ↦ t.amount_halalas
  | TransactionType.capture ↦ pos 0 -ℤ t.amount_halalas
  | TransactionType.release ↦ pos 0 -ℤ t.amount_halalas
  | _ ↦ pos 0
]

-- COALESCE(SUM(…), 0) over the rows of one wallet.
abbrev pub available : RowId → List WalletTransaction → ℤ
available u [] = pos 0
available u (t ∷ ts) =
    if t.wallet_user_id == u then available u ts +ℤ available_change t else available u ts

abbrev pub reserved : RowId → List WalletTransaction → ℤ
reserved u [] = pos 0
reserved u (t ∷ ts) =
    if t.wallet_user_id == u then reserved u ts +ℤ reserved_change t else reserved u ts

unfoldable pub lock_wallet : RowId → Exec Db (Unit {0})
unfolding exists
lock_wallet u db =
    raise_unless (exists (λ w. w == u) db.wallets) (value_error "wallet not found") db

abbrev pub balances : RowId → Db → Balance
balances u db = record {
  available_halalas = available u db.wallet_transactions;
  reserved_halalas = reserved u db.wallet_transactions;
}

unfoldable pub balance : RowId → Exec Db Balance
balance u = gets (balances u)

unfoldable pub key_row : RowId → Text → List WalletTransaction → Option WalletTransaction
unfolding find
key_row u key = find λ t. t.wallet_user_id == u && same_text t.idempotency_key key

unfoldable pub same_key :
    RowId → Text → TransactionType → ℤ → Option RowId → Option Text → Exec Db Bool
same_key u key kind amount order reason = do
  existing ← gets (λ db. key_row u key db.wallet_transactions)
  elim existing [
    | none ↦ pure false
    | some t ↦ do
      raise_unless
          (same_kind t.transaction_type kind
            && eqb ℤ-discrete t.amount_halalas amount
            && same_id t.order_id order)
          (idempotency_conflict "same key used for a different wallet operation")
      raise_if
          (same_kind kind TransactionType.admin_adjustment && not (same_reason t.reason reason))
          (idempotency_conflict "same key used for a different adjustment reason")
      pure true
  ]

-- INSERT INTO wallet_transactions
abbrev pub with_row : WalletTransaction → Db → Db
with_row t db = record db { wallet_transactions = t ∷ db.wallet_transactions }

abbrev pub insert : WalletTransaction → Exec Db (Unit {0})
insert t = modify (with_row t)

-- The rows that `credit`, and that `reserve` and `settle` insert.
abbrev pub credit_row : RowId → ℤ → Text → TransactionType → Option Text → WalletTransaction
credit_row u amount key kind reason = record {
  wallet_user_id = u;
  order_id = none;
  transaction_type = kind;
  amount_halalas = amount;
  idempotency_key = key;
  reason = reason;
}

abbrev pub order_transaction : RowId → RowId → TransactionType → ℤ → Text → WalletTransaction
order_transaction u o kind amount key = record {
  wallet_user_id = u;
  order_id = some o;
  transaction_type = kind;
  amount_halalas = amount;
  idempotency_key = key;
  reason = none;
}

-- `reason and reason.strip()`
abbrev pub has_reason : Option Text → Bool
has_reason none = false
has_reason (some r) = not (is_empty r) && not (is_empty (strip r))

-- `kind in {"TOP_UP", "BONUS", "ADMIN_ADJUSTMENT"}`
abbrev pub creditable : TransactionType → Bool
creditable TransactionType.top_up = true
creditable TransactionType.bonus = true
creditable TransactionType.admin_adjustment = true
creditable _ = false

unfoldable pub credit : RowId → ℤ → Text → TransactionType → Option Text → Exec Db Balance
unfolding lock_wallet balance same_key
credit u amount key kind reason = do
  raise_unless (creditable kind) (value_error "unsupported credit type")
  raise_if
      (eqb ℤ-discrete amount (pos 0)
        || (ltb_ℤ amount (pos 0) && not (same_kind kind TransactionType.admin_adjustment)))
      (value_error "invalid credit amount")
  raise_if (same_kind kind TransactionType.admin_adjustment && not (has_reason reason))
      (value_error "administrative adjustment requires a reason")
  transaction (do
    lock_wallet u
    repeated ← same_key u key kind amount none reason
    if repeated then balance u else do
      current ← balance u
      raise_if (ltb_ℤ (current.available_halalas +ℤ amount) (pos 0))
          (insufficient_funds "adjustment exceeds available balance")
      insert (credit_row u amount key kind reason)
      balance u)

unfoldable pub order_row : RowId → List OrderRow → Option OrderRow
unfolding find
order_row o = find λ r. r.id == o

-- `status in {"DRAFT", "AWAITING_PAYMENT", "RESERVED"}`
abbrev pub reservable : OrderStatus → Bool
reservable OrderStatus.draft = true
reservable OrderStatus.awaiting_payment = true
reservable OrderStatus.reserved = true
reservable _ = false

unfoldable pub reserve_row : RowId → List WalletTransaction → Option WalletTransaction
unfolding find
reserve_row o =
    find λ t. for_order o t.order_id && same_kind t.transaction_type TransactionType.reserve

abbrev pub matches_order : Option OrderRow → RowId → ℤ → Bool
matches_order none u amount = false
matches_order (some r) u amount =
    r.user_id == u && eqb ℤ-discrete (pos r.price_snapshot_halalas) amount

abbrev pub order_reservable : Option OrderRow → Bool
order_reservable none = false
order_reservable (some r) = reservable r.status

unfoldable pub reserve : RowId → RowId → ℤ → Text → Exec Db Balance
unfolding lock_wallet balance same_key order_row reserve_row
reserve u o amount key = do
  raise_if (leb_ℤ amount (pos 0)) (value_error "reservation must be positive")
  transaction (do
    lock_wallet u
    repeated ← same_key u key TransactionType.reserve amount (some o) none
    if repeated then balance u else do
      order ← gets (λ db. order_row o db.orders)
      raise_unless (matches_order order u amount) (value_error "reservation does not match order")
      raise_unless (order_reservable order) (value_error "order cannot be reserved")
      prior ← gets (λ db. reserve_row o db.wallet_transactions)
      raise_if (is_some prior) (idempotency_conflict "order already reserved with another key")
      current ← balance u
      raise_if (ltb_ℤ current.available_halalas amount)
          (insufficient_funds "insufficient available balance")
      insert (order_transaction u o TransactionType.reserve amount key)
      balance u)

-- `kind in {"CAPTURE", "RELEASE"}`
abbrev pub settles : TransactionType → Bool
settles TransactionType.capture = true
settles TransactionType.release = true
settles _ = false

unfoldable pub reservation : RowId → RowId → List WalletTransaction → Option WalletTransaction
unfolding find
reservation u o = find λ t.
    t.wallet_user_id == u
    && for_order o t.order_id
    && same_kind t.transaction_type TransactionType.reserve

unfoldable pub settlement_row : RowId → List WalletTransaction → Option WalletTransaction
unfolding find
settlement_row o = find λ t. for_order o t.order_id && settles t.transaction_type

abbrev pub settled_as : Option WalletTransaction → Error
settled_as none = invalid_settlement "order already settled"
settled_as (some t) = elim t.transaction_type [
  | TransactionType.capture ↦ invalid_settlement "order already settled as CAPTURE"
  | _ ↦ invalid_settlement "order already settled as RELEASE"
]

unfoldable pub settle : RowId → RowId → Text → TransactionType → Exec Db Balance
unfolding lock_wallet balance same_key reservation settlement_row
settle u o key kind = do
  raise_unless (settles kind) (value_error "unsupported settlement")
  transaction (do
    lock_wallet u
    found ← gets (λ db. reservation u o db.wallet_transactions)
    held ← or_raise found (invalid_settlement "order has no reservation")
    repeated ← same_key u key kind held.amount_halalas (some o) none
    if repeated then balance u else do
      settled ← gets (λ db. settlement_row o db.wallet_transactions)
      raise_if (is_some settled) (settled_as settled)
      insert (order_transaction u o kind held.amount_halalas key)
      balance u)
