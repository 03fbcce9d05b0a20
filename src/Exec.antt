-- ===== src/Exec.antt =====
-- Coroutines that run SQL on one connection and may raise. The database comes back after a raise
-- too: what was committed before stays; `transaction` is what rolls back.
use digital_services_platfor.Base.{
  refl, String, Bool, true, false, Option, none, some, if◌then◌else◌, ◌≡◌, ◌⊎◌, inl, inr,
}

-- The exception classes of the package, with their messages.
pub data Error : Type 0 where
  value_error type_error insufficient_funds idempotency_conflict : String → Error
  invalid_settlement payment_mismatch stars_mismatch stale_quote : String → Error
  not_found revision_conflict transition_rejected update_rejected : String → Error
  unique_violation provider_error upload_rejected invalid_input runtime_error : String → Error
  invalid_file file_unavailable invalid_pdf pdf_unavailable file_not_found : String → Error
  os_error client_error boto_error redis_error pdf_read_error : String → Error
  telegram_rejected telegram_error : String → Error

pub data Result {ℓ} (A : Type ℓ) : Type ℓ where
  ok : A → Result A
  err : Error → Result A

-- A coroutine over the database `S`.
abbrev pub Exec {ℓ} : Type ℓ → Type ℓ → Type ℓ
Exec S A = S → Result A × S

module _ {ℓ} {S A : Type ℓ} where
  abbrev pub pure : A → Exec S A
  pure a s = (ok a, s)

  abbrev pub raise : Error → Exec S A
  raise e s = (err e, s)

  abbrev pub gets : (S → A) → Exec S A
  gets f s = (ok (f s), s)

  -- A SELECT that may raise.
  abbrev pub reads : (S → Result A) → Exec S A
  reads f s = (f s, s)

  abbrev pub or_raise : Option A → Error → Exec S A
  or_raise none e = raise e
  or_raise (some a) _ = pure a

  -- `async with connection.transaction()`: a raise restores the tables. A nested block is a
  -- savepoint and behaves the same way.
  abbrev pub transaction : Exec S A → Exec S A
  transaction m s = let (r, s') = m s in elim r [ ok a ↦ (ok a, s') | err e ↦ (err e, s) ]

module _ {ℓ} {S A B : Type ℓ} where
  infixl 5 ◌>>=◌
  abbrev pub ◌>>=◌ : Exec S A → (A → Exec S B) → Exec S B
  ◌>>=◌ m f s = let (r, s') = m s in elim r [ ok a ↦ f a s' | err e ↦ raise e s' ]

  infixl 5 ◌>>◌
  abbrev pub ◌>>◌ : Exec S A → Exec S B → Exec S B
  m >> k = m >>= λ _. k

module _ {S A : Type 0} where
  -- `try: … except Exception as e: …`
  abbrev pub try_except : Exec S A → (Error → Exec S A) → Exec S A
  try_except m handler s = let (r, s') = m s in elim r [ ok a ↦ (ok a, s') | err e ↦ handler e s' ]

module _ {S : Type 0} where
  abbrev pub raise_if : Bool → Error → Exec S (Unit {0})
  raise_if c e s = (if c then err e else ok tt, s)

  abbrev pub raise_unless : Bool → Error → Exec S (Unit {0})
  raise_unless c e s = (if c then ok tt else err e, s)

  abbrev pub modify : (S → S) → Exec S (Unit {0})
  modify f s = (ok tt, f s)

  -- `if c: …` with no `else`.
  abbrev pub when : Bool → Exec S (Unit {0}) → Exec S (Unit {0})
  when c m = if c then m else pure tt

abbrev pub or_err {ℓ} : {A : Type ℓ} → Option A → Error → Result A
or_err none e = err e
or_err (some a) _ = ok a

-- `except ValueError`: the class and the subclasses that the package declares.
abbrev pub is_value_error : Error → Bool
is_value_error (type_error _) = false
is_value_error (unique_violation _) = false
is_value_error (provider_error _) = false
is_value_error (runtime_error _) = false
is_value_error (pdf_unavailable _) = false
is_value_error (file_not_found _) = false
is_value_error (os_error _) = false
is_value_error (client_error _) = false
is_value_error (boto_error _) = false
is_value_error (redis_error _) = false
is_value_error (pdf_read_error _) = false
is_value_error (telegram_rejected _) = false
is_value_error (telegram_error _) = false
is_value_error _ = true

-- What a result is, if it is no raise.
abbrev pub IfOk {ℓ κ} : {A : Type ℓ} → (A → Type κ) → Result A → Type κ
IfOk P (ok a) = P a
IfOk P (err e) = Unit

pub Result-cases {ℓ} :
    {A : Type ℓ} (r : Result A) → ((a : A) × (r ≡ ok a)) ⊎ ((e : Error) × (r ≡ err e))
Result-cases (ok a) = inl (a, refl)
Result-cases (err e) = inr (e, refl)

abbrev pub is_ok {ℓ} : {A : Type ℓ} → Result A → Bool
is_ok (ok a) = true
is_ok (err e) = false

abbrev pub Raised {ℓ} : {A : Type ℓ} → Result A → Type 0
Raised (ok a) = ⊥
Raised (err e) = Unit
