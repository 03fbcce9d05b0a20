-- ===== src/Delivery.antt =====
-- packages/python/platform_core/delivery.py: the transitions of the delivery outbox. Rows stand in
-- the order of `created_at`, the newest first. `now` is the clock in seconds.
pub mod Claims
use mathlib.Core.List.{reverse}
use digital_services_platfor.Base.{
  ℕ, zero, suc, ◌+◌, ◌*◌, Bool, true, false, not, ◌&&◌, ◌||◌, Option, none, some, List, [], ◌∷◌,
  ltb, leb, ◌==◌, if◌then◌else◌, eqb, is_some, length, find, update_where, order_by, select,
}
use digital_services_platfor.Text.{Text, text, is_empty}
use digital_services_platfor.Exec.{
  value_error, Exec, pure, gets, transaction, ◌>>=◌, ◌>>◌, raise_if, raise_unless, modify, when,
}
use digital_services_platfor.Schema.{
  Db, DeliveryRow, DeliveryStatus, RowId, DeliveryStatus-discrete, JobRow, UserRow, OrderStatus,
  JobStatus,
}
use digital_services_platfor.Ledger.{lock_wallet, order_row}
use digital_services_platfor.Orders.{acknowledge_delivery, order_is}
use digital_services_platfor.Stars.Charges.{request_star_refund}
use digital_services_platfor.Jobs.{job_is, release_price}

pub record DeliveryClaim : Type 0 where
  pub id : RowId
  pub order_id : RowId
  pub user_id : RowId
  pub telegram_user_id : Option ℕ
  pub result_file_id : Option RowId
  pub attempt_number : ℕ

abbrev pub delivery_is : DeliveryStatus → DeliveryRow → Bool
delivery_is status d = eqb DeliveryStatus-discrete d.status status

unfoldable pub user_row : RowId → List UserRow → Option UserRow
user_row u = find λ r. r.id == u

unfoldable pub completed_job : RowId → List JobRow → Option JobRow
completed_job o = find λ j. j.order_id == o && job_is JobStatus.completed j

-- The JOIN of an outbox row with its order, its customer and its completed job.
unfoldable pub joined_claim : Db → DeliveryRow → ℕ → Option DeliveryClaim
joined_claim db d attempt = elim (order_row d.order_id db.orders) [
  | none ↦ none
  | some o ↦
      if order_is OrderStatus.awaiting_fulfillment o
      then elim (user_row o.user_id db.users) [
        | none ↦ none
        | some u ↦ elim (completed_job o.id db.jobs) [
          | none ↦ none
          | some j ↦ some (record {
            id = d.id;
            order_id = d.order_id;
            user_id = o.user_id;
            telegram_user_id = u.telegram_user_id;
            result_file_id = j.result_file_id;
            attempt_number = attempt;
          })
        ]
      ]
      else none
]

abbrev pub sendable : Db → ℕ → DeliveryRow → Bool
sendable db now d =
    delivery_is DeliveryStatus.pending d
    && leb d.next_attempt_at now
    && is_some (joined_claim db d 0)

-- UPDATE delivery_outbox SET … WHERE id=…
unfoldable pub update_delivery : RowId → (DeliveryRow → DeliveryRow) → Exec Db (Unit {0})
update_delivery id f =
    modify λ db. record db { delivery_outbox = update_where (λ d. d.id == id) f db.delivery_outbox }

abbrev pub sending : ℕ → ℕ → DeliveryRow → DeliveryRow
sending attempt now d = record d {
  status = DeliveryStatus.sending;
  attempt_count = attempt;
  claimed_at = some now;
  error_code = none;
}

unfoldable pub claim_delivery : ℕ → Exec Db (Option DeliveryClaim)
claim_delivery now = transaction (do
  found ← gets (λ db. find (sendable db now) (reverse db.delivery_outbox))
  elim found [
    | none ↦ pure none
    | some d ↦ do
      let attempt = d.attempt_count + 1
      claim ← gets (λ db. joined_claim db d attempt)
      raise_if (ltb d.max_attempts attempt) (value_error "delivery exhausted without settlement")
      update_delivery d.id (sending attempt now)
      pure claim
  ])

unfoldable pub outbox_row : RowId → RowId → List DeliveryRow → Option DeliveryRow
outbox_row id o = find λ d. d.id == id && d.order_id == o

-- The attempt that the claim was made for is still being sent.
abbrev pub claim_active : DeliveryClaim → Option DeliveryRow → Bool
claim_active c none = false
claim_active c (some d) =
    delivery_is DeliveryStatus.sending d && d.attempt_count == c.attempt_number

abbrev pub sent : Text → DeliveryRow → DeliveryRow
sent receipt d = record d { status = DeliveryStatus.sent; external_receipt = some receipt }

unfoldable pub finish_delivery : DeliveryClaim → Text → ℕ → Exec Db (Unit {0})
unfolding lock_wallet
finish_delivery c receipt now = transaction (do
  lock_wallet c.user_id
  state ← gets (λ db. outbox_row c.id c.order_id db.delivery_outbox)
  raise_unless (claim_active c state) (value_error "delivery attempt no longer active")
  acknowledge_delivery c.user_id c.order_id receipt now
  update_delivery c.id (sent receipt))

abbrev pub attempt_failed : Bool → Text → ℕ → DeliveryRow → DeliveryRow
attempt_failed exhausted error now d = record d {
  status = if exhausted then DeliveryStatus.failed else DeliveryStatus.pending;
  error_code = some error;
  next_attempt_at = now + 30 * d.attempt_count;
}

-- UPDATE orders SET status='FAILED' WHERE id=… AND status<>'REFUNDED'
unfoldable pub fail_unrefunded : RowId → Exec Db (Unit {0})
fail_unrefunded o = modify λ db. record db {
  orders =
      update_where (λ r. r.id == o && not (order_is OrderStatus.refunded r))
        (λ r. record r { status = OrderStatus.failed }) db.orders;
}

unfoldable pub give_up : RowId → RowId → Exec Db (Unit {0})
give_up u o = do fail_unrefunded o; request_star_refund o; release_price u o

abbrev pub exhausted_by : DeliveryRow → Bool → Bool
exhausted_by d retryable = not retryable || leb d.max_attempts d.attempt_count

unfoldable pub fail_delivery : DeliveryClaim → Text → Bool → ℕ → Exec Db Bool
unfolding lock_wallet
fail_delivery c error retryable now = do
  raise_if (is_empty error || ltb 100 (length error)) (value_error "invalid delivery error")
  transaction (do
    lock_wallet c.user_id
    state ← gets (λ db. outbox_row c.id c.order_id db.delivery_outbox)
    elim state [
      | none ↦ pure false
      | some d ↦
          if claim_active c (some d)
          then (do
            update_delivery c.id (attempt_failed (exhausted_by d retryable) error now)
            when (exhausted_by d retryable) (give_up c.user_id c.order_id)
            pure (exhausted_by d retryable))
          else pure false
    ])

abbrev pub claimed_at_or_zero : DeliveryRow → ℕ
claimed_at_or_zero d = elim d.claimed_at [ none ↦ 0 | some t ↦ t ]

abbrev pub stale_sending : ℕ → ℕ → DeliveryRow → Bool
stale_sending timeout now d = elim d.claimed_at [
  | none ↦ false
  | some t ↦ delivery_is DeliveryStatus.sending d && ltb (t + timeout) now
]

-- The JOIN of `recover_stale_deliveries` asks for no status of the order or the job.
unfoldable pub stale_claim : Db → DeliveryRow → Option DeliveryClaim
stale_claim db d = elim (order_row d.order_id db.orders) [
  | none ↦ none
  | some o ↦ elim (user_row o.user_id db.users) [
    | none ↦ none
    | some u ↦ elim (find (λ j. j.order_id == o.id) db.jobs) [
      | none ↦ none
      | some j ↦ some (record {
        id = d.id;
        order_id = d.order_id;
        user_id = o.user_id;
        telegram_user_id = u.telegram_user_id;
        result_file_id = j.result_file_id;
        attempt_number = d.attempt_count;
      })
    ]
  ]
]

unfoldable pub stale_claims : Db → ℕ → List DeliveryRow → List DeliveryClaim
stale_claims db zero ds = []
stale_claims db (suc n) [] = []
stale_claims db (suc n) (d ∷ ds) = elim (stale_claim db d) [
  | none ↦ stale_claims db (suc n) ds
  | some c ↦ c ∷ stale_claims db n ds
]

-- Each delivery fails in a transaction of its own, so a raise keeps the earlier ones.
unfoldable pub fail_deliveries : List DeliveryClaim → ℕ → Exec Db ℕ
fail_deliveries [] now = pure 0
fail_deliveries (c ∷ cs) now =
    let rest = fail_deliveries cs now in
    do fail_delivery c (text "DELIVERY_TIMEOUT") true now; count ← rest; pure (count + 1)

unfoldable pub recover_stale_deliveries : ℕ → ℕ → Exec Db ℕ
recover_stale_deliveries timeout now = do
  raise_if (ltb timeout 120) (value_error "delivery timeout too short")
  rows ← gets (λ db.
      stale_claims db 100
        (order_by claimed_at_or_zero (select (stale_sending timeout now) db.delivery_outbox)))
  fail_deliveries rows now
