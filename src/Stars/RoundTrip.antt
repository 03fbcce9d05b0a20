-- ===== src/Stars/RoundTrip.antt =====
-- `StarInvoice.payload` against `invoice_id`.
use Prim.Native.Nat.{◌/◌, ◌%◌, ◌^◌}
use native.Mathlib.Nat.{pow-suc}
use digital_services_platfor.Base.{
  ℕ, zero, suc, ◌+◌, ◌*◌, ◌<◌, ◌≡◌, ◌↔◌, ap, ◌∙◌, some, [], ◌∷◌, arith, length,
}
use digital_services_platfor.Text.{Text, uuid_hex, hex_digits, hex_digit}
use digital_services_platfor.Exec.{ok}
use digital_services_platfor.Stars.Payload.{
  hex_value, invoice_id, parse_hex, payload, parse_payload, after_prefix,
}
use digital_services_platfor.Schema.{RowId}

hex_value-hex_digit : (d : ℕ) → d < 16 → hex_value (hex_digit d) ≡ some d
unfolding hex_value hex_digit
hex_value-hex_digit d h = ground arith

length-hex_digits : (k v : ℕ) (rest : Text) → length (hex_digits k v rest) ≡ k + length rest
unfolding hex_digits
length-hex_digits zero v rest = omega arith
length-hex_digits (suc k) v rest =
    omega (arith, length-hex_digits k (v / 16) (hex_digit (v % 16) ∷ rest))

parse_hex-cons_digit :
    (acc d : ℕ) (rest : Text)
    → d < 16
    → parse_hex acc (hex_digit d ∷ rest) ≡ parse_hex (acc * 16 + d) rest
unfolding parse_hex
parse_hex-cons_digit acc d rest h = rw (hex_value-hex_digit d h, parse_hex)

-- Reading the digits of a number gives the number.
parse_hex-hex_digits :
    (k v acc : ℕ) (rest : Text)
    → v < 16 ^ k
    → parse_hex acc (hex_digits k v rest) ≡ parse_hex (acc * 16 ^ k + v) rest
unfolding hex_digits
parse_hex-hex_digits zero v acc rest h =
    ap (λ n. parse_hex n rest) (let z : acc ≡ acc * 1 + v = omega arith in z)
parse_hex-hex_digits (suc k) v acc rest h =
    parse_hex-hex_digits k (v / 16) acc (hex_digit (v % 16) ∷ rest) (omega (arith, pow-suc 16 k))
    ∙ parse_hex-cons_digit (acc * 16 ^ k + v / 16) (v % 16) rest (omega arith)
    ∙ ap (λ n. parse_hex n rest) (omega (arith, ap (λ (t : ℕ). acc * t) (pow-suc 16 k)))

length-payload : (id : RowId) → length (payload id) ≡ 38
unfolding payload uuid_hex
length-payload id = omega (arith, length-hex_digits 32 id [])

parse_payload-payload : (id : RowId) → id < 2 ^ 128 → parse_payload (payload id) ≡ some id
unfolding parse_payload payload after_prefix uuid_hex
parse_payload-payload id h =
    parse_hex-hex_digits 32 id 0 [] h
    ∙ unfold parse_hex in ap some (let z : 0 * 16 ^ 32 + id ≡ id = omega arith in z)

-- A text is read as the id of an invoice, below 2 ^ 128, exactly if it is the payload of that
-- invoice.
pub invoice_id-payload :
    (p : Text) (id : RowId) → id < 2 ^ 128 → (invoice_id p ≡ ok id) ↔ (p ≡ payload id)
unfolding invoice_id
invoice_id-payload p id h =
    (λ e. ground arith, λ e. rw e (ground (arith, length-payload id, parse_payload-payload id h)))
