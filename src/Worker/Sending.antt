-- ===== src/Worker/Sending.antt =====
-- `dispatch_deliveries` of packages/python/platform_core/worker.py and `send_result` of
-- apps/telegram_bot/delivery.py.
use digital_services_platfor.Base.{
  ℕ, zero, suc, Bool, true, false, none, some, List, ◌++◌, if◌then◌else◌,
}
use digital_services_platfor.Text.{Text, text, is_empty}
use digital_services_platfor.Exec.{
  Error, value_error, Result, ok, err, Exec, pure, raise, or_raise, ◌>>=◌, ◌>>◌, telegram_rejected,
  is_value_error, telegram_error, file_unavailable, reads, try_except,
}
use digital_services_platfor.CustomRequests.{number_text}
use digital_services_platfor.Files.{Client}
use digital_services_platfor.Delivery.{
  DeliveryClaim, claim_delivery, fail_delivery, finish_delivery,
}
use digital_services_platfor.Schema.{Db}
use digital_services_platfor.Files.{read_file}

-- What Telegram makes of `bot.send_document`: a message, a `TelegramBadRequest` or a
-- `TelegramForbiddenError`, or another error.
pub data Sent : Type 0 where
  message : ℕ → Sent
  rejected : Sent
  unreachable : Sent

abbrev pub message_id : Sent → Result ℕ
message_id (message m) = ok m
message_id rejected = err (telegram_rejected "TelegramBadRequest")
message_id unreachable = err (telegram_error "TelegramNetworkError")

-- `telegram:{chat}:{message}`
abbrev pub receipt_text : ℕ → ℕ → Text
receipt_text chat m = text "telegram:" ++ (number_text chat ++ (text ":" ++ number_text m))

-- The file of a claim; a NULL id finds no row.
unfoldable pub read_result : Client → DeliveryClaim → ℕ → Exec Db (List ℕ)
read_result c claim now = elim claim.result_file_id [
  | none ↦ raise (file_unavailable "file unavailable or expired")
  | some file ↦ read_file c claim.user_id file none now
]

module _ (c : Client) (send : ℕ → List ℕ → Sent) where
  unfoldable pub send_result : DeliveryClaim → ℕ → Exec Db Text
  unfolding read_result
  send_result claim now = do
    chat ← or_raise claim.telegram_user_id (value_error "customer has no Telegram recipient")
    content ← read_result c claim now
    m ← reads λ _. message_id (send chat content)
    pure (receipt_text chat m)

  -- Whether an error of the sending is permanent.
  abbrev pub is_permanent : Error → Bool
  is_permanent (telegram_rejected _) = true
  is_permanent e = is_value_error e

  unfoldable pub failed_delivery : DeliveryClaim → ℕ → Error → Exec Db (Unit {0})
  failed_delivery claim now e =
      if is_permanent e
      then (do fail_delivery claim (text "DELIVERY_REJECTED") false now; pure tt)
      else (do fail_delivery claim (text "DELIVERY_ERROR") true now; pure tt)

  unfoldable pub deliver : Text → DeliveryClaim → ℕ → Exec Db (Unit {0})
  unfolding send_result failed_delivery
  deliver token claim now =
      if is_empty token
      then (do fail_delivery claim (text "TELEGRAM_NOT_CONFIGURED") false now; pure tt)
      else try_except (do receipt ← send_result claim now; finish_delivery claim receipt now)
          (failed_delivery claim now)

  -- `for _ in range(10)`; `clock` is the time in each round that is left.
  unfoldable pub dispatch_rounds : ℕ → Text → (ℕ → ℕ) → Exec Db (Unit {0})
  unfolding deliver
  dispatch_rounds zero token clock = pure tt
  dispatch_rounds (suc n) token clock =
      let rest = dispatch_rounds n token clock in
      do
        claimed ← claim_delivery (clock n)
        elim claimed [ none ↦ pure tt | some claim ↦ deliver token claim (clock n) >> rest ]

  unfoldable pub dispatch_deliveries : Text → (ℕ → ℕ) → Exec Db (Unit {0})
  unfolding dispatch_rounds
  dispatch_deliveries token clock = dispatch_rounds 10 token clock
