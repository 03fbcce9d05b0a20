-- ===== src/Ledger/Holds.antt =====
-- The two parts of a wallet's balance against its history of transactions.
use digital_services_platfor.Base.{
  ℕ, ◌+◌, ◌≡◌, refl, inl, inr, true, false, ◌&&◌, none, some, List, [], ◌∷◌, arith, ◌==◌,
  if◌then◌else◌, Option-cases, Bool-cases,
}
use digital_services_platfor.Int.{pos, pos_part, ◌+ℤ◌, ◌-ℤ◌, ◌≤ℤ◌, int_laws}
use digital_services_platfor.Schema.{RowId, WalletTransaction, TransactionType}
use digital_services_platfor.Ledger.{
  same_kind, available, reserved, reserve_row, reservation, settlement_row, settles,
}
use digital_services_platfor.Ledger.History.{IsHistory}

reservation_positive :
    (u o : RowId) (h : WalletTransaction) (ts : List WalletTransaction)
    → IsHistory ts
    → reservation u o ts ≡ some h
    → pos 1 ≤ℤ h.amount_halalas
unfolding reservation
reservation_positive u o h [] v e = cc
reservation_positive u o h (t ∷ ts) v e = ground (arith, reservation_positive u o h ts v.2)

-- In a history no wallet has a negative available balance.
pub available_nonneg :
    (u : RowId) (ts : List WalletTransaction) → IsHistory ts → pos 0 ≤ℤ available u ts
available_nonneg u [] h = omega arith
available_nonneg u (t ∷ ts) v = grind (int_laws, available_nonneg u ts v.2, reservation_positive)

-- The amount of a row that reserves for `u` and is not settled in `s`.
abbrev pub held_amount : RowId → List WalletTransaction → WalletTransaction → ℕ
held_amount u s t =
    if t.wallet_user_id == u && same_kind t.transaction_type TransactionType.reserve
    then elim t.order_id [
      | none ↦ 0
      | some o ↦ elim (settlement_row o s) [ none ↦ pos_part t.amount_halalas | some _ ↦ 0 ]
    ]
    else 0

-- The sum of the reservations of `u` among the rows that are not settled in `s`.
abbrev pub held : RowId → List WalletTransaction → List WalletTransaction → ℕ
held u s [] = 0
held u s (t ∷ ts) = held_amount u s t + held u s ts

-- A row that settles nothing leaves the sum as it was.
held-other :
    (u : RowId) (t : WalletTransaction) (s ts : List WalletTransaction)
    → ((o : RowId) → settlement_row o (t ∷ s) ≡ settlement_row o s)
    → held u (t ∷ s) ts ≡ held u s ts
held-other u t s [] h = refl
held-other u t s (x ∷ ts) h = grind (arith, h, held-other u t s ts h)

reservation_of_none :
    (u o : RowId) (ts : List WalletTransaction)
    → reserve_row o ts ≡ none
    → reservation u o ts ≡ none
unfolding reserve_row reservation
reservation_of_none u o [] e = refl
reservation_of_none u o (t ∷ ts) e = ground (arith, reservation_of_none u o ts)

settlement_needs_reserve :
    (o : RowId) (ts : List WalletTransaction)
    → IsHistory ts
    → reserve_row o ts ≡ none
    → settlement_row o ts ≡ none
unfolding settlement_row reserve_row
settlement_needs_reserve o [] v e = refl
settlement_needs_reserve o (t ∷ ts) v e =
    ground (arith, settlement_needs_reserve o ts v.2, reservation_of_none t.wallet_user_id o ts)

-- A settlement of an order that the rows do not reserve takes nothing off.
held-settle_other :
    (u o : RowId) (t : WalletTransaction) (s ts : List WalletTransaction)
    → t.order_id ≡ some o
    → reserve_row o ts ≡ none
    → held u (t ∷ s) ts ≡ held u s ts
unfolding settlement_row reserve_row
held-settle_other u o t s [] e n = refl
held-settle_other u o t s (x ∷ ts) e n = grind (arith, held-settle_other u o t s ts e)

-- A settlement takes exactly the reserved amount off, at the wallet that reserved it.
held-settle :
    (u v o : RowId) (t h : WalletTransaction) (s ts : List WalletTransaction)
    → IsHistory ts
    → t.order_id ≡ some o
    → settles t.transaction_type ≡ true
    → settlement_row o s ≡ none
    → reservation v o ts ≡ some h
    → held u s ts ≡ held u (t ∷ s) ts + (if v == u then pos_part h.amount_halalas else 0)
unfolding settlement_row reservation
held-settle u v o t h s [] w e k n r = cc
held-settle u v o t h s (x ∷ ts) w e k n r = grind (
  arith,
  held-settle u v o t h s ts w.2 e k n,
  held-settle_other u o t s ts e,
  reservation_of_none v o ts,
)

settlement_row-cons_other :
    (o : RowId) (t : WalletTransaction) (ts : List WalletTransaction)
    → settles t.transaction_type ≡ false
    → settlement_row o (t ∷ ts) ≡ settlement_row o ts
unfolding settlement_row
settlement_row-cons_other o t ts e = ground arith

-- The step of `reserved-eq-held` at a row that settles nothing.
reserved-cons_other :
    (u : RowId) (t : WalletTransaction) (ts : List WalletTransaction)
    → IsHistory (t ∷ ts)
    → settles t.transaction_type ≡ false
    → reserved u ts ≡ pos (held u ts ts)
    → reserved u (t ∷ ts) ≡ pos (held u (t ∷ ts) (t ∷ ts))
reserved-cons_other u t ts v e ih = grind (
  int_laws,
  ih,
  held-other u t ts ts (λ o. settlement_row-cons_other o t ts e),
  settlement_row-cons_other,
  settlement_needs_reserve,
)

-- The step at a settlement.
reserved-cons_settle :
    (u : RowId) (t : WalletTransaction) (ts : List WalletTransaction)
    → IsHistory (t ∷ ts)
    → settles t.transaction_type ≡ true
    → reserved u ts ≡ pos (held u ts ts)
    → reserved u (t ∷ ts) ≡ pos (held u (t ∷ ts) (t ∷ ts))
unfolding ◌+ℤ◌ ◌-ℤ◌
reserved-cons_settle u t ts v e ih = elim (Option-cases t.order_id) [
  | inl none_id ↦ ground arith
  | inr (o, at_o) ↦ elim (Option-cases (reservation t.wallet_user_id o ts)) [
    | inl missing ↦ ground arith
    | inr (h, found) ↦ ground (
      arith,
      reservation_positive t.wallet_user_id o h ts v.2 found,
      held-settle u t.wallet_user_id o t h ts ts v.2 at_o e,
    )
  ]
]

-- In a history the reserved balance is the sum of the reservations that are not settled.
pub reserved-eq-held :
    (u : RowId) (ts : List WalletTransaction) → IsHistory ts → reserved u ts ≡ pos (held u ts ts)
reserved-eq-held u [] v = refl
reserved-eq-held u (t ∷ ts) v = elim (Bool-cases (settles t.transaction_type)) [
  | inl e ↦ reserved-cons_settle u t ts v e (reserved-eq-held u ts v.2)
  | inr e ↦ reserved-cons_other u t ts v e (reserved-eq-held u ts v.2)
]
