-- ===== src/Ledger/Indexes.antt =====
-- The unique indexes of migrations/versions/0002_core_ledger.py, on histories.
use digital_services_platfor.Base.{ℕ, ◌≤◌, ◌≡◌, ◌&&◌, none, List, [], ◌∷◌, arith, ◌==◌, count_where}
use digital_services_platfor.Text.{Text}
use digital_services_platfor.Schema.{RowId, WalletTransaction, TransactionType}
use digital_services_platfor.Ledger.{
  same_kind, same_text, for_order, settles, key_row, reserve_row, settlement_row,
}
use digital_services_platfor.Ledger.History.{IsHistory}

-- wallet_idempotency_unique
abbrev pub with_key : RowId → Text → List WalletTransaction → ℕ
with_key u key = count_where λ t. t.wallet_user_id == u && same_text t.idempotency_key key

-- wallet_one_reserve_per_order
abbrev pub reserves_of : RowId → List WalletTransaction → ℕ
reserves_of o =
    count_where λ t. for_order o t.order_id && same_kind t.transaction_type TransactionType.reserve

-- wallet_one_settlement_per_order
abbrev pub settlements_of : RowId → List WalletTransaction → ℕ
settlements_of o = count_where λ t. for_order o t.order_id && settles t.transaction_type

with_key-none :
    (u : RowId) (key : Text) (ts : List WalletTransaction)
    → key_row u key ts ≡ none
    → with_key u key ts ≡ 0
unfolding key_row count_where
with_key-none u key [] e = omega arith
with_key-none u key (t ∷ ts) e = ground (arith, with_key-none u key ts)

reserves_of-none :
    (o : RowId) (ts : List WalletTransaction) → reserve_row o ts ≡ none → reserves_of o ts ≡ 0
unfolding reserve_row count_where
reserves_of-none o [] e = omega arith
reserves_of-none o (t ∷ ts) e = ground (arith, reserves_of-none o ts)

settlements_of-none :
    (o : RowId) (ts : List WalletTransaction) → settlement_row o ts ≡ none → settlements_of o ts ≡ 0
unfolding settlement_row count_where
settlements_of-none o [] e = omega arith
settlements_of-none o (t ∷ ts) e = ground (arith, settlements_of-none o ts)

-- In a history a wallet uses a key once, an order is reserved at most once, and an order is settled
-- at most once.
pub history_indexes :
    (u o : RowId) (key : Text) (ts : List WalletTransaction)
    → IsHistory ts
    → (with_key u key ts ≤ 1) × (reserves_of o ts ≤ 1) × (settlements_of o ts ≤ 1)
unfolding count_where
history_indexes u o key [] v = omega arith
history_indexes u o key (t ∷ ts) v = ground (
  arith,
  history_indexes u o key ts v.2,
  with_key-none u key ts,
  reserves_of-none o ts,
  settlements_of-none o ts,
)
