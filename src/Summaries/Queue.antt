-- ===== src/Summaries/Queue.antt =====
-- The queue of paid summaries and its recovery in packages/python/platform_core/summary_orders.py.
use mathlib.Core.List.{reverse}
use digital_services_platfor.Base.{
  ℕ, Bool, true, false, not, ◌&&◌, Option, none, some, List, [], ◌∷◌, ltb, ◌==◌, if◌then◌else◌,
  exists, count_where, select, take,
}
use digital_services_platfor.Exec.{Exec, pure, gets, ◌>>=◌, ◌>>◌, raise_if, runtime_error}
use digital_services_platfor.Schema.{Db, OrderStatus, RowId, OrderRow}
use digital_services_platfor.Stars.Offers.{is_number}
use digital_services_platfor.Summaries.{fail_summary, is_summary_service}
use digital_services_platfor.Catalog.{is_summary}
use digital_services_platfor.Delivery.{user_row}

-- The orders of summaries with a status, in the order of the rows, with their customers' Telegram
-- ids.
unfoldable pub orders_with : (OrderStatus → Bool) → Db → List OrderRow → List (Option ℕ × RowId)
orders_with p db [] = []
orders_with p db (o ∷ os) =
    let rest = orders_with p db os in
    if p o.status && is_summary_service o.service_id db.services
    then elim (user_row o.user_id db.users) [
      | none ↦ rest
      | some u ↦ (u.telegram_user_id, o.id) ∷ rest
    ]
    else rest

abbrev pub awaits_work : OrderStatus → Bool
awaits_work OrderStatus.queued = true
awaits_work OrderStatus.awaiting_fulfillment = true
awaits_work _ = false

-- `$2::bigint IS NULL OR u.telegram_user_id=$2`
abbrev pub of_telegram : Option ℕ → Option ℕ × RowId → Bool
of_telegram none row = true
of_telegram (some tg) row = is_number row.0 tg

unfoldable pub paid_summary_orders : Option ℕ → Db → List (Option ℕ × RowId)
paid_summary_orders tg db =
    take 20 (select (of_telegram tg) (orders_with awaits_work db (reverse db.orders)))

abbrev pub is_processing : OrderStatus → Bool
is_processing OrderStatus.processing = true
is_processing _ = false

unfoldable pub fail_summaries : List (Option ℕ × RowId) → ℕ → Exec Db (Unit {0})
fail_summaries [] now = pure tt
fail_summaries ((tg, o) ∷ rows) now = fail_summary tg o now >> fail_summaries rows now

unfoldable pub recover_interrupted_summaries : ℕ → Exec Db (Unit {0})
recover_interrupted_summaries now = do
  rows ← gets (λ db. orders_with is_processing db db.orders)
  fail_summaries rows now

-- `status IN ('RESERVED','QUEUED','PROCESSING','AWAITING_FULFILLMENT','FULFILLING')`
abbrev pub outstanding : OrderStatus → Bool
outstanding OrderStatus.reserved = true
outstanding OrderStatus.queued = true
outstanding OrderStatus.processing = true
outstanding OrderStatus.awaiting_fulfillment = true
outstanding OrderStatus.fulfilling = true
outstanding _ = false

-- `s.processor_key IS DISTINCT FROM $1`
abbrev pub legacy_order : Db → OrderRow → Bool
legacy_order db o =
    outstanding o.status && exists (λ s. s.id == o.service_id && not (is_summary s)) db.services

unfoldable pub require_no_legacy_work : Exec Db (Unit {0})
require_no_legacy_work = do
  active ← gets (λ db. count_where (legacy_order db) db.orders)
  raise_if (ltb 0 active)
      (runtime_error "Resolve outstanding legacy orders before switching the active bot")
