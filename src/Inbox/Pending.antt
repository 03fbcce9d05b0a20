-- ===== src/Inbox/Pending.antt =====
-- The pending receipts of the payment inbox.
use mathlib.Core.Path.{subst}
use digital_services_platfor.Base.{
  ℕ, ◌+◌, ◌≡◌, refl, inl, inr, Bool, true, false, none, some, List, [], ◌∷◌, arith, ◌==◌, ◌&&◌, eqb,
  Bool-cases, find, exists, count_where, update_where, order_by, ◌∙◌, sym,
}
use digital_services_platfor.Schema.{InboxRow, InboxStatus, InboxStatus-discrete}
use digital_services_platfor.Inbox.{is_update, is_pending, next_receipt, queued_at}
use digital_services_platfor.Tables.{exists-update_where, eq_of_==}
use digital_services_platfor.Tables.Order.{exists-order_by}

-- UNIQUE (bot_id,update_id)
abbrev pub UniqueUpdates : List InboxRow → Type 0
UniqueUpdates [] = Unit
UniqueUpdates (x ∷ xs) = (exists (is_update x.bot_id x.update_id) xs ≡ false) × UniqueUpdates xs

-- The receipts of the bot that are to be processed.
abbrev pub pending : ℕ → List InboxRow → ℕ
pending bot =
    count_where λ r. r.bot_id == bot && eqb InboxStatus-discrete r.status InboxStatus.pending

abbrev pub marked : InboxStatus → ℕ → InboxRow → InboxRow
marked status now r = record r { status = status; attempted_at = some now }

pub UniqueUpdates-marked :
    (bot u now : ℕ) (status : InboxStatus) (xs : List InboxRow)
    → UniqueUpdates xs
    → UniqueUpdates (update_where (is_update bot u) (marked status now) xs)
unfolding update_where
UniqueUpdates-marked bot u now status [] h = tt
UniqueUpdates-marked bot u now status (x ∷ xs) h = ground (
  arith,
  exists-update_where (is_update x.bot_id x.update_id) (is_update bot u) (marked status now)
      (λ r. refl) xs,
  UniqueUpdates-marked bot u now status xs h.1,
)

pending-absent :
    (bot u now : ℕ) (status : InboxStatus) (xs : List InboxRow)
    → exists (is_update bot u) xs ≡ false
    → pending bot (update_where (is_update bot u) (marked status now) xs) ≡ pending bot xs
unfolding update_where exists count_where
pending-absent bot u now status [] h = refl
pending-absent bot u now status (x ∷ xs) h = ground (arith, pending-absent bot u now status xs)

absent_pending :
    (bot u : ℕ) (xs : List InboxRow)
    → exists (is_update bot u) xs ≡ false
    → exists (λ x. is_update bot u x && is_pending bot x) xs ≡ false
unfolding exists
absent_pending bot u [] h = refl
absent_pending bot u (x ∷ xs) h = ground (arith, absent_pending bot u xs)

-- No other receipt has the key of the first.
first_unique :
    (bot u : ℕ) (x : InboxRow) (xs : List InboxRow)
    → UniqueUpdates (x ∷ xs)
    → is_update bot u x ≡ true
    → exists (is_update bot u) xs ≡ false
first_unique bot u x xs h hit =
    let at_bot = eq_of_== x.bot_id bot (ground arith) in
    let at_u = eq_of_== x.update_id u (ground arith) in
    subst (λ k. exists (is_update k u) xs ≡ false) at_bot
      (subst (λ k. exists (is_update x.bot_id k) xs ≡ false) at_u h.0)

-- A pending receipt that is marked is one pending receipt less.
pub pending-marked :
    (bot u now : ℕ) (status : InboxStatus) (xs : List InboxRow)
    → eqb InboxStatus-discrete status InboxStatus.pending ≡ false
    → UniqueUpdates xs
    → exists (λ x. is_update bot u x && is_pending bot x) xs ≡ true
    → pending bot (update_where (is_update bot u) (marked status now) xs) + 1 ≡ pending bot xs
unfolding update_where exists count_where
pending-marked bot u now status [] done h inside = cc
pending-marked bot u now status (x ∷ xs) done h inside = elim (Bool-cases (is_update bot u x)) [
  | inl hit ↦
      let alone = first_unique bot u x xs h hit in
      ground (arith, pending-absent bot u now status xs alone, absent_pending bot u xs alone)
  | inr other ↦ ground (arith, pending-marked bot u now status xs done h.1)
]

found_pending :
    (bot : ℕ) (r : InboxRow) (xs : List InboxRow)
    → find (is_pending bot) xs ≡ some r
    → exists (λ x. is_update bot r.update_id x && is_pending bot x) xs ≡ true
unfolding find exists
found_pending bot r [] e = cc
found_pending bot r (x ∷ xs) e = ground (arith, found_pending bot r xs)

-- The receipt that comes next is pending.
pub next_receipt-pending :
    (bot : ℕ) (r : InboxRow) (xs : List InboxRow)
    → next_receipt bot xs ≡ some r
    → exists (λ x. is_update bot r.update_id x && is_pending bot x) xs ≡ true
unfolding next_receipt
next_receipt-pending bot r xs e =
    let p : InboxRow → Bool = λ x. is_update bot r.update_id x && is_pending bot x in
    let by_id = order_by (λ x. x.update_id) xs in
    sym (exists-order_by (λ x. x.update_id) p xs)
    ∙ sym (exists-order_by queued_at p by_id)
    ∙ found_pending bot r (order_by queued_at by_id) e

none_found :
    (bot : ℕ) (xs : List InboxRow)
    → find (is_pending bot) xs ≡ none
    → exists (is_pending bot) xs ≡ false
unfolding find exists
none_found bot [] e = refl
none_found bot (x ∷ xs) e = ground (arith, none_found bot xs)

none_pending :
    (bot : ℕ) (xs : List InboxRow) → exists (is_pending bot) xs ≡ false → pending bot xs ≡ 0
unfolding exists count_where
none_pending bot [] e = refl
none_pending bot (x ∷ xs) e = ground (arith, none_pending bot xs)

-- Where no receipt comes next, none is pending.
pub next_receipt-none :
    (bot : ℕ) (xs : List InboxRow) → next_receipt bot xs ≡ none → pending bot xs ≡ 0
unfolding next_receipt
next_receipt-none bot xs e =
    let p = is_pending bot in
    let by_id = order_by (λ x. x.update_id) xs in
    none_pending bot xs (
      sym (exists-order_by (λ x. x.update_id) p xs)
      ∙ sym (exists-order_by queued_at p by_id)
      ∙ none_found bot (order_by queued_at by_id) e)
