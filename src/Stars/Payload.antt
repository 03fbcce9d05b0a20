-- ===== src/Stars/Payload.antt =====
-- `StarInvoice.payload` and `invoice_id` of packages/python/platform_core/stars_payments.py: the
-- text that names an invoice to Telegram.
use digital_services_platfor.Base.{
  ℕ, ◌+◌, ◌-◌, ◌*◌, ◌&&◌, Option, none, some, [], ◌∷◌, ◌++◌, leb, ◌==◌, if◌then◌else◌, eqb, length,
}
use digital_services_platfor.Text.{Text, Text-discrete, text, uuid_hex}
use digital_services_platfor.Exec.{stars_mismatch, Result, err, ok}
use digital_services_platfor.Schema.{RowId}

unfoldable pub payload : RowId → Text
payload id = text "stars:" ++ uuid_hex id

-- A hexadecimal digit, of either case.
unfoldable pub hex_value : ℕ → Option ℕ
hex_value c =
    if leb b'0' c && leb c b'9'
    then some (c - b'0')
    else if leb b'a' c && leb c b'f'
    then some (c - b'a' + 10)
    else if leb b'A' c && leb c b'F'
    then some (c - b'A' + 10)
    else none

abbrev times_16 : ℕ → Option ℕ → Option ℕ
times_16 acc none = none
times_16 acc (some d) = some (acc * 16 + d)

unfoldable pub parse_hex : ℕ → Text → Option ℕ
unfolding hex_value
parse_hex acc [] = some acc
parse_hex acc (c ∷ s) = elim (times_16 acc (hex_value c)) [
  | none ↦ none
  | some acc' ↦ parse_hex acc' s
]

-- `payload[6:]` of a text that starts with "stars:".
unfoldable pub after_prefix : Text → Text → Option Text
after_prefix [] s = some s
after_prefix (c ∷ p) [] = none
after_prefix (c ∷ p) (d ∷ s) = let rest = after_prefix p s in if c == d then rest else none

unfoldable pub parse_payload : Text → Option ℕ
unfolding parse_hex after_prefix
parse_payload p = elim (after_prefix (text "stars:") p) [
  | none ↦ none
  | some digits ↦ parse_hex 0 digits
]

abbrev pub canonical : Text → Option ℕ → Result RowId
canonical p none = err (stars_mismatch "invalid invoice payload")
canonical p (some id) =
    if eqb Text-discrete p (payload id)
    then ok id
    else err (stars_mismatch "noncanonical invoice payload")

-- `UUID(hex=…)` is modelled on 32 hexadecimal digits. On other texts of 32 characters that Python
-- reads too (with dashes, braces or underscores) the source raises the same exception class, since
-- they are not canonical, and so does the model, with the other message.
unfoldable pub invoice_id : Text → Result RowId
invoice_id p =
    if length p == 38
    then canonical p (parse_payload p)
    else err (stars_mismatch "invalid invoice payload")
