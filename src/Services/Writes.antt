-- ===== src/Services/Writes.antt =====
-- The activation check and the write of a service update.
use digital_services_platfor.Base.{
  ◌+◌, ◌≡◌, refl, ◌⊎◌, inl, inr, Bool, true, not, ◌&&◌, ◌||◌, some, ◌∷◌, arith, ◌==◌, Bool-cases,
  false, is_some,
}
use digital_services_platfor.Text.{Text}
use digital_services_platfor.Exec.{Result, ok, err, transaction, when, ◌>>◌, Error}
use digital_services_platfor.Schema.{RowId, ServiceRow, ServiceValues, Db}
use digital_services_platfor.Services.Update.{
  change_service, check_activation, write_service, service_row_of, activatable, ServiceView,
  changed_service, update_log, same_values, service_values,
}
use digital_services_platfor.Tables.{find-update_where}
use digital_services_platfor.Stars.Offers.{is_text, summary_slug}

-- No service becomes available but by a confirmed, allowed change to one that a processor can do.
abbrev pub activation_checked : Bool → Bool → Bool → ServiceRow → ServiceValues → Bool
activation_checked confirm allow category_on s v =
    s.enabled || not v.enabled || (confirm && allow && activatable category_on s)

-- What a service needs to become available.
abbrev pub activation_allowed : Bool → Bool → ServiceRow → ServiceValues → Bool
activation_allowed allow category_on s v =
    not (is_text s.processor_key summary_slug && not (is_some v.base_price_stars))
    && allow
    && activatable category_on s

-- A change is accepted if the values are the old ones, or if it is not unconfirmed and makes no
-- service available that may not be.
abbrev pub change_accepted : Bool → Bool → Bool → ServiceRow → ServiceValues → Bool
change_accepted unconfirmed allow category_on s v =
    same_values v (service_values s)
    || (not unconfirmed && (not v.enabled || s.enabled || activation_allowed allow category_on s v))

-- The row and the log after an update to the values `v`, or what they were.
abbrev pub Written : RowId → Text → ServiceRow → ServiceValues → Db → ServiceView → Db → Type 0
Written actor reason s v db w db' =
    ((same_values v (service_values s) ≡ true) × (w.revision ≡ s.revision) × (db' ≡ db))
    ⊎ ((same_values v (service_values s) ≡ false)
        × (w.revision ≡ s.revision + 1)
        × (service_row_of s.id db'.services ≡ some (changed_service v s))
        × (db'.audit_logs ≡ update_log actor reason s v ∷ db.audit_logs))

-- The check of an activation passes, for a service that a processor can do, or raises.
check_activation-cases :
    (allow category_on : Bool) (s : ServiceRow) (v : ServiceValues) (db : Db)
    → ((check_activation allow category_on s v db ≡ (ok tt, db))
        × (activation_allowed allow category_on s v ≡ true))
      ⊎ ((x : Error) × (check_activation allow category_on s v db ≡ (err x, db))
          × (activation_allowed allow category_on s v ≡ false))
unfolding check_activation
check_activation-cases allow category_on s v db =
    elim (Bool-cases (is_text s.processor_key summary_slug && not (is_some v.base_price_stars))) [
      | inl unpriced ↦ rw unpriced (inr (_, refl, refl))
      | inr priced ↦ elim (Bool-cases (allow && activatable category_on s)) [
        | inl can ↦ rw (priced, can) (inl (refl, refl))
        | inr cannot ↦ rw (priced, cannot) (inr (_, refl, refl))
      ]
    ]

write_service-Written :
    (actor : RowId) (reason : Text) (s : ServiceRow) (v : ServiceValues) (db : Db)
    → service_row_of s.id db.services ≡ some s
    → let db' = (write_service actor reason s v db).1 in
      (service_row_of s.id db'.services ≡ some (changed_service v s))
      × (db'.audit_logs ≡ update_log actor reason s v ∷ db.audit_logs)
unfolding write_service service_row_of
write_service-Written actor reason s v db found = ground (
  arith,
  find-update_where (λ x. x.id == s.id) (λ x. x.id == s.id)
      (λ x. record (changed_service v x) { revision = s.revision + 1 }) (λ x. refl) db.services,
)

write_service-view :
    (actor : RowId) (reason : Text) (s : ServiceRow) (v : ServiceValues) (db : Db)
    → (write_service actor reason s v db).0 ≡ ok (record { revision = s.revision + 1; values = v })
unfolding write_service
write_service-view actor reason s v db = refl

same_values-enabled : (v w : ServiceValues) → same_values v w ≡ true → v.enabled ≡ w.enabled
same_values-enabled v w e = ground arith

-- The transaction of `change_service`.
abbrev pub Changed :
    RowId
    → Text
    → Bool
    → Bool
    → ServiceRow
    → Bool
    → ServiceValues
    → Db
    → Result ServiceView × Db
    → Type 0
Changed actor reason unconfirmed allow s category_on v db (err e, db') =
    (change_accepted unconfirmed allow category_on s v ≡ false) × (db' ≡ db)
Changed actor reason unconfirmed allow s category_on v db (ok w, db') =
    (change_accepted unconfirmed allow category_on s v ≡ true)
    × (w.values ≡ v)
    × (activation_checked (not unconfirmed) allow category_on s v ≡ true)
    × Written actor reason s v db w db'

-- What the check of an activation, where one is due, leaves to the write.
checked_write-Changed :
    (actor : RowId) (reason : Text) (allow : Bool) (s : ServiceRow) (category_on : Bool)
    (v : ServiceValues) (db : Db)
    → service_row_of s.id db.services ≡ some s
    → same_values v (service_values s) ≡ false
    → Changed actor reason false allow s category_on v db (
        transaction
          (when (v.enabled && not s.enabled) (check_activation allow category_on s v)
            >> write_service actor reason s v)
          db)
checked_write-Changed actor reason allow s category_on v db found differs =
    let written = write_service-Written actor reason s v db found in
    let view = write_service-view actor reason s v db in
    elim (Bool-cases (v.enabled && not s.enabled)) [
      | inr quiet ↦ ground (arith, view, written)
      | inl due ↦ elim (check_activation-cases allow category_on s v db) [
        | inr (x, failed, cannot) ↦ ground arith
        | inl (passed, can) ↦ ground (arith, view, written)
      ]
    ]

-- A change to the values that the service has.
same_change-Changed :
    (actor : RowId) (reason : Text) (unconfirmed allow : Bool) (s : ServiceRow) (category_on : Bool)
    (v : ServiceValues) (db : Db)
    → same_values v (service_values s) ≡ true
    → Changed actor reason unconfirmed allow s category_on v db
        (transaction (change_service actor reason unconfirmed allow s category_on v) db)
unfolding change_service
same_change-Changed actor reason unconfirmed allow s category_on v db same =
    ground (arith, same_values-enabled v (service_values s))

pub change_service-Changed :
    (actor : RowId) (reason : Text) (unconfirmed allow : Bool) (s : ServiceRow) (category_on : Bool)
    (v : ServiceValues) (db : Db)
    → service_row_of s.id db.services ≡ some s
    → Changed actor reason unconfirmed allow s category_on v db
        (transaction (change_service actor reason unconfirmed allow s category_on v) db)
unfolding change_service
change_service-Changed actor reason unconfirmed allow s category_on v db found =
    elim (Bool-cases (same_values v (service_values s))) [
      | inl same ↦ same_change-Changed actor reason unconfirmed allow s category_on v db same
      | inr differs ↦ elim (Bool-cases unconfirmed) [
        | inl u ↦ ground arith
        | inr c ↦
            ground
              (arith, checked_write-Changed actor reason allow s category_on v db found differs)
      ]
    ]
