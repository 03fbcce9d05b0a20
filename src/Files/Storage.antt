-- ===== src/Files/Storage.antt =====
-- packages/python/platform_core/storage_s3.py: the errors of the S3 client, translated.
use digital_services_platfor.Base.{ℕ, suc, Bool, ◌||◌, List, if◌then◌else◌, take}
use digital_services_platfor.Text.{Text, text}
use digital_services_platfor.Exec.{
  Error, Result, ok, err, client_error, file_not_found, os_error, boto_error,
}
use digital_services_platfor.Ledger.{same_text}

-- What a call of the client gives: an answer, a `ClientError` with its code, another error of
-- botocore, or an exception of any other class.
pub data Answer (A : Type 0) : Type 0 where
  answer : A → Answer A
  client_failure : Text → Answer A
  boto_failure : Answer A
  other_failure : Error → Answer A

-- The boto3 client while an operation runs: what each call answers, by the key of the object.
pub record Client : Type 0 where
  pub put : Text → List ℕ → Text → Answer (Unit {0})
  pub get : Text → Answer (List ℕ)
  pub head : Text → Answer ℕ
  pub delete : Text → Answer (Unit {0})

abbrev pub code_missing : Text → Bool
code_missing code =
    same_text code (text "404")
    || same_text code (text "NoSuchKey")
    || same_text code (text "NotFound")

-- `except ClientError` of `read_object` and `head_object`.
unfoldable pub translated : {A : Type 0} → Answer A → Result A
translated (answer a) = ok a
translated (client_failure code) =
    err (if code_missing code then file_not_found "object" else client_error "ClientError")
translated boto_failure = err (boto_error "BotoCoreError")
translated (other_failure e) = err e

unfoldable pub put_object : Client → Text → List ℕ → Text → Result (Unit {0})
put_object c key body mime = elim (c.put key body mime) [
  | answer a ↦ ok tt
  | client_failure code ↦ err (client_error "ClientError")
  | boto_failure ↦ err (boto_error "BotoCoreError")
  | other_failure e ↦ err e
]

-- `response["Body"].read(MaxBytes + 1)`
abbrev pub body_read : ℕ → Result (List ℕ) → Result (List ℕ)
body_read max (ok body) = ok (take (suc max) body)
body_read max (err e) = err e

unfoldable pub read_object : Client → Text → ℕ → Result (List ℕ)
unfolding translated
read_object c key max = body_read max (translated (c.get key))

unfoldable pub head_object : Client → Text → Result ℕ
unfolding translated
head_object c key = translated (c.head key)

unfoldable pub delete_object : Client → Text → Result (Unit {0})
delete_object c key = elim (c.delete key) [
  | answer a ↦ ok tt
  | client_failure code ↦ err (os_error "storage deletion unavailable")
  | boto_failure ↦ err (os_error "storage deletion unavailable")
  | other_failure e ↦ err e
]
