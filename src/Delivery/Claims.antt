-- ===== src/Delivery/Claims.antt =====
-- Delivery attempts of several workers, and what a finished delivery has done.
use mathlib.Core.List.{reverse}
use digital_services_platfor.Base.{
  ℕ, ◌≡◌, refl, Bool, false, ◌&&◌, some, List, [], ◌∷◌, arith, ◌==◌, find, update_where,
  Option-cases, ◌≢◌, sym, inl, inr, ◌+◌,
}
use digital_services_platfor.Text.{Text}
use digital_services_platfor.Exec.{ok, Raised, IfOk}
use digital_services_platfor.Delivery.{
  finish_delivery, fail_delivery, DeliveryClaim, claim_active, outbox_row, sent, update_delivery,
  joined_claim, sending, claim_delivery, sendable,
}
use digital_services_platfor.Orders.{acknowledge_delivery, complete_order, take_payment}
use digital_services_platfor.Schema.{
  Db, DeliveryRow, OrderRow, OrderStatus, RowId, DeliveryStatus, DeliveryStatus-discrete,
}
use digital_services_platfor.Ledger.{order_row, settle}
use digital_services_platfor.Stars.Charges.{mark_star_delivery}
use digital_services_platfor.Tables.{find_sound, find-update_where}

inactive_delivery_ignored :
    (c : DeliveryClaim) (receipt error : Text) (retryable : Bool) (now : ℕ) (db : Db)
    → claim_active c (outbox_row c.id c.order_id db.delivery_outbox) ≡ false
    → let (r, db1) = finish_delivery c receipt now db in
      let (s, db2) = fail_delivery c error retryable now db in
      (Raised r × (db1 ≡ db)) × (IfOk (λ b. b ≡ false) s × (db2 ≡ db))
unfolding finish_delivery fail_delivery
inactive_delivery_ignored c receipt error retryable now db lost = (ground arith, ground arith)

joined_claim-of :
    (db : Db) (d : DeliveryRow) (attempt : ℕ) (c : DeliveryClaim)
    → joined_claim db d attempt ≡ some c
    → (c.id ≡ d.id) × (c.order_id ≡ d.order_id) × (c.attempt_number ≡ attempt)
unfolding joined_claim
joined_claim-of db d attempt c e = ground arith

-- What a claim has left is no longer active for another attempt.
other_attempt_inactive :
    (c : DeliveryClaim) (attempt now : ℕ) (ds : List DeliveryRow)
    → c.attempt_number ≢ attempt
    → claim_active c
        (outbox_row c.id c.order_id (update_where (λ d. d.id == c.id) (sending attempt now) ds))
      ≡ false
unfolding outbox_row find update_where DeliveryStatus-discrete
other_attempt_inactive c attempt now [] differs = refl
other_attempt_inactive c attempt now (d ∷ ds) differs =
    ground (arith, other_attempt_inactive c attempt now ds differs)

-- The outbox after a claim.
claim_delivery-outbox :
    (now : ℕ) (claimed : DeliveryClaim) (db db' : Db)
    → claim_delivery now db ≡ (ok (some claimed), db')
    → db'.delivery_outbox
      ≡ update_where
          (λ d. d.id == claimed.id)
          (sending claimed.attempt_number now)
          db.delivery_outbox
unfolding claim_delivery update_delivery
claim_delivery-outbox now claimed db db' e =
    elim (Option-cases (find (sendable db now) (reverse db.delivery_outbox))) [
      | inl nothing ↦ ground arith
      | inr (d, found) ↦
          let (at, order, attempt) =
            joined_claim-of db d (d.attempt_count + 1) claimed (ground arith) in
          rw (at, attempt) (ground arith)
    ]

-- Once a delivery is claimed, a claim of the same delivery with any other attempt number neither
-- finishes nor fails it: the first raises, the second raises or returns false, and neither changes
-- anything.
pub lost_delivery_ignored :
    (c claimed : DeliveryClaim) (receipt error : Text) (retryable : Bool) (claimed_at now : ℕ)
    (db db' : Db)
    → claim_delivery claimed_at db ≡ (ok (some claimed), db')
    → c.id ≡ claimed.id
    → c.attempt_number ≢ claimed.attempt_number
    → let (r, db1) = finish_delivery c receipt now db' in
      let (s, db2) = fail_delivery c error retryable now db' in
      (Raised r × (db1 ≡ db')) × (IfOk (λ b. b ≡ false) s × (db2 ≡ db'))
lost_delivery_ignored c claimed receipt error retryable claimed_at now db db' e same differs =
    inactive_delivery_ignored c receipt error retryable now db' (
      rw (claim_delivery-outbox claimed_at claimed db db' e, sym same)
        (other_attempt_inactive c claimed.attempt_number claimed_at db.delivery_outbox differs))

order_row-owned :
    (u o : RowId) (r : OrderRow) (rs : List OrderRow)
    → order_row o rs ≡ some r
    → r.user_id ≡ u
    → find (λ x. x.id == o && x.user_id == u) rs ≡ some r
unfolding order_row find
order_row-owned u o r [] e owned = cc
order_row-owned u o r (x ∷ rs) e owned = ground (arith, order_row-owned u o r rs)

take_payment-frame :
    (r : OrderRow) (receipt : Text) (db : Db)
    → let db' = (take_payment r receipt db).1 in
      (db'.orders ≡ db.orders) × (db'.delivery_outbox ≡ db.delivery_outbox)
unfolding take_payment mark_star_delivery settle
take_payment-frame r receipt db = ground arith

-- What has become of an order that is acknowledged: its row, and the outbox as it was.
acknowledge_delivery-completes :
    (u o : RowId) (receipt : Text) (now : ℕ) (r : OrderRow) (db : Db)
    → order_row o db.orders ≡ some r
    → r.user_id ≡ u
    → (acknowledge_delivery u o receipt now db).0 ≡ ok tt
    → let db' = (acknowledge_delivery u o receipt now db).1 in
      (order_row o db'.orders
        ≡ some (record r { status = OrderStatus.completed; delivery_receipt = some receipt }))
      × (db'.delivery_outbox ≡ db.delivery_outbox)
unfolding acknowledge_delivery complete_order order_row
acknowledge_delivery-completes u o receipt now r db ordered owned e = ground (
  arith,
  order_row-owned u o r db.orders ordered owned,
  take_payment-frame r receipt db,
  find_sound (λ x. x.id == o) r db.orders ordered,
  find-update_where (λ x. x.id == o) (λ x. x.id == o)
      (λ x. record x { status = OrderStatus.completed; delivery_receipt = some receipt })
      (λ x. refl) db.orders,
)

-- A delivery that has finished leaves its outbox row SENT with the receipt, and its order
-- COMPLETED with the same receipt, if the order is the customer's.
pub finish_delivery-completes :
    (c : DeliveryClaim) (receipt : Text) (now : ℕ) (d : DeliveryRow) (r : OrderRow) (db : Db)
    → outbox_row c.id c.order_id db.delivery_outbox ≡ some d
    → order_row c.order_id db.orders ≡ some r
    → r.user_id ≡ c.user_id
    → (finish_delivery c receipt now db).0 ≡ ok tt
    → let db' = (finish_delivery c receipt now db).1 in
      (outbox_row c.id c.order_id db'.delivery_outbox
        ≡ some (record d { status = DeliveryStatus.sent; external_receipt = some receipt }))
      × (order_row c.order_id db'.orders
          ≡ some (record r { status = OrderStatus.completed; delivery_receipt = some receipt }))
unfolding finish_delivery update_delivery outbox_row
finish_delivery-completes c receipt now d r db row ordered owned e = ground (
  arith,
  acknowledge_delivery-completes c.user_id c.order_id receipt now r db ordered owned,
  find_sound (λ x. x.id == c.id && x.order_id == c.order_id) d db.delivery_outbox row,
  find-update_where (λ x. x.id == c.id && x.order_id == c.order_id) (λ x. x.id == c.id)
      (sent receipt) (λ x. refl) db.delivery_outbox,
)
