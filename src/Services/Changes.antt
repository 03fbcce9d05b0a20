-- ===== src/Services/Changes.antt =====
-- What an update does to a service.
use mathlib.Core.Path.{subst}
use digital_services_platfor.Base.{
  ℕ, ◌+◌, ◌≡◌, refl, ◌⊎◌, inl, inr, Bool, true, not, ◌&&◌, ◌||◌, some, arith, ◌==◌, Bool-cases,
  false, find, Option, none, if◌then◌else◌, sym, ap, ◌∙◌, ◌≢◌,
}
use digital_services_platfor.Text.{Text, strip}
use digital_services_platfor.Exec.{
  Result, ok, err, transaction, Error, Result-cases, revision_conflict, Raised, is_ok,
}
use digital_services_platfor.Schema.{RowId, ServiceRow, Db, CategoryRow}
use digital_services_platfor.Services.Update.{
  change_service, validate_update, ServiceUpdate, service_row_of, activatable, ServiceView,
  changed_service, new_values, update_service, locked_update, or_enabled, changes_enabled,
}
use digital_services_platfor.Tables.{eq_of_==, find_sound}
use digital_services_platfor.Services.Writes.{
  activation_checked, Changed, Written, change_accepted, change_service-Changed,
}

-- An update is accepted if it is valid, expects the service's revision and its change is accepted.
abbrev pub update_accepted : ℕ → Text → ServiceUpdate → Bool → Bool → ServiceRow → Bool → Db → Bool
update_accepted expected reason u confirm allow s category_on db =
    is_ok (validate_update expected reason u db).0
    && s.revision == expected
    && change_accepted (changes_enabled u.enabled s.enabled && not confirm) allow category_on s
        (new_values s u)

abbrev pub Updated :
    RowId
    → ℕ
    → Text
    → ServiceUpdate
    → Bool
    → Bool
    → ServiceRow
    → Bool
    → Db
    → Result ServiceView × Db
    → Type 0
Updated actor expected reason u confirm allow s category_on db (err e, db') =
    (update_accepted expected reason u confirm allow s category_on db ≡ false) × (db' ≡ db)
Updated actor expected reason u confirm allow s category_on db (ok w, db') =
    (update_accepted expected reason u confirm allow s category_on db ≡ true)
    × (s.revision ≡ expected)
    × (w.values ≡ new_values s u)
    × (activation_checked confirm allow category_on s (new_values s u) ≡ true)
    × Written actor reason s (new_values s u) db w db'

validate_update-cases :
    (expected : ℕ) (reason : Text) (u : ServiceUpdate) (db : Db)
    → (validate_update expected reason u db ≡ (ok tt, db))
      ⊎ ((x : Error) × (validate_update expected reason u db ≡ (err x, db)))
unfolding validate_update
validate_update-cases expected reason u db =
    elim (Result-cases (validate_update expected reason u db).0) [
      | inl (t, passed) ↦ inl (ground arith)
      | inr (x, failed) ↦ inr (x, ground arith)
    ]

-- A change of `enabled` that makes a service available is confirmed, if it is not unconfirmed.
confirmed :
    (e : Option Bool) (old confirm a b : Bool)
    → (old || not (or_enabled old e) || (not (changes_enabled e old && not confirm) && a && b))
      ≡ true
    → (old || not (or_enabled old e) || (confirm && a && b)) ≡ true
confirmed none true confirm a b h = refl
confirmed none false confirm a b h = refl
confirmed (some true) true confirm a b h = refl
confirmed (some false) true confirm a b h = refl
confirmed (some true) false true a b h = h
confirmed (some true) false false a b h = h
confirmed (some false) false confirm a b h = refl

-- Which change an update of a service makes that is there.
locked_update-eq :
    (service actor : RowId) (expected : ℕ) (reason : Text) (u : ServiceUpdate)
    (confirm allow : Bool) (s : ServiceRow) (c : CategoryRow) (db : Db)
    → service_row_of service db.services ≡ some s
    → find (λ x. x.id == s.category_id) db.categories ≡ some c
    → locked_update service actor expected reason u confirm allow db ≡ (
        if s.revision == expected
        then transaction
            (change_service actor reason
              (changes_enabled u.enabled s.enabled && not confirm)
              allow
              s
              c.enabled
              (new_values s u))
            db
        else (err (revision_conflict "service was changed; reload before saving"), db))
unfolding locked_update
locked_update-eq service actor expected reason u confirm allow s c db found joined = ground arith

Updated-of_Changed :
    (actor : RowId) (expected : ℕ) (reason : Text) (u : ServiceUpdate) (confirm allow : Bool)
    (s : ServiceRow) (category_on : Bool) (db : Db) (p : Result ServiceView × Db)
    → is_ok (validate_update expected reason u db).0 ≡ true
    → (s.revision == expected) ≡ true
    → Changed actor reason
        (changes_enabled u.enabled s.enabled && not confirm)
        allow
        s
        category_on
        (new_values s u)
        db
        p
    → Updated actor expected reason u confirm allow s category_on db p
Updated-of_Changed actor expected reason u confirm allow s on db (err x, db') valid current h =
    rw (valid, current) h
Updated-of_Changed actor expected reason u confirm allow s on db (ok w, db') valid current
      (accepted, same, checked, written) =
    (
      rw (valid, current) accepted,
      eq_of_== s.revision expected current,
      same,
      confirmed u.enabled s.enabled confirm allow (activatable on s) checked,
      written,
    )

locked_update-Updated :
    (service actor : RowId) (expected : ℕ) (reason : Text) (u : ServiceUpdate)
    (confirm allow : Bool) (s : ServiceRow) (c : CategoryRow) (db : Db)
    → service_row_of service db.services ≡ some s
    → find (λ x. x.id == s.category_id) db.categories ≡ some c
    → is_ok (validate_update expected reason u db).0 ≡ true
    → Updated actor expected reason u confirm allow s c.enabled db
        (locked_update service actor expected reason u confirm allow db)
unfolding service_row_of
locked_update-Updated service actor expected reason u confirm allow s c db found joined valid =
    let flip = changes_enabled u.enabled s.enabled && not confirm in
    let own = eq_of_== s.id service (find_sound (λ x. x.id == service) s db.services found) in
    let changed =
      change_service-Changed actor reason flip allow s c.enabled (new_values s u) db
        (ap (λ k. find (λ x. x.id == k) db.services) own ∙ found) in
    rw (locked_update-eq service actor expected reason u confirm allow s c db found joined)
      (elim (Bool-cases (s.revision == expected)) [
        | inr stale ↦ ground arith
        | inl current ↦ rw current (
            Updated-of_Changed actor expected reason u confirm allow s c.enabled db _ valid current
              changed)
      ])

pub update_service-Updated :
    (service actor : RowId) (expected : ℕ) (reason : Text) (u : ServiceUpdate)
    (confirm allow : Bool) (s : ServiceRow) (c : CategoryRow) (db : Db)
    → service_row_of service db.services ≡ some s
    → find (λ x. x.id == s.category_id) db.categories ≡ some c
    → Updated actor expected
        (strip reason)
        u
        confirm
        allow
        s
        c.enabled
        db
        (update_service service actor expected reason u confirm allow db)
unfolding update_service
update_service-Updated service actor expected reason u confirm allow s c db found joined =
    elim (validate_update-cases expected (strip reason) u db) [
      | inl passed ↦ ground (
        arith,
        locked_update-Updated service actor expected (strip reason) u confirm allow s c db found
            joined (ap (λ p. is_ok p.0) passed),
      )
      | inr (x, failed) ↦ ground (arith, ap (λ p. is_ok p.0) failed)
    ]

-- An update that expects another revision than the service's raises and changes nothing.
update_service-stale :
    (service actor : RowId) (expected : ℕ) (reason : Text) (u : ServiceUpdate)
    (confirm allow : Bool) (s : ServiceRow) (db : Db)
    → service_row_of service db.services ≡ some s
    → s.revision ≢ expected
    → let (r, db') = update_service service actor expected reason u confirm allow db in
      Raised r × (db' ≡ db)
unfolding update_service locked_update
update_service-stale service actor expected reason u confirm allow s db found other =
    elim (validate_update-cases expected (strip reason) u db) [
      | inl passed ↦ ground arith
      | inr (x, failed) ↦ ground arith
    ]

-- Of two updates that expect the same revision only one can change the service: after one has
-- raised the revision, the other raises and changes nothing.
pub update_service_stale :
    (service actor other : RowId) (expected : ℕ) (reason note : Text) (u v : ServiceUpdate)
    (confirm allow sure able : Bool) (s : ServiceRow) (c : CategoryRow) (w : ServiceView)
    (db db' : Db)
    → service_row_of service db.services ≡ some s
    → find (λ x. x.id == s.category_id) db.categories ≡ some c
    → update_service service actor expected reason u confirm allow db ≡ (ok w, db')
    → w.revision ≡ expected + 1
    → let (r, db'') = update_service service other expected note v sure able db' in
      Raised r × (db'' ≡ db')
unfolding service_row_of
update_service_stale service actor other expected reason note u v confirm allow sure able s c w db
      db' found joined e raised =
    let own = eq_of_== s.id service (find_sound (λ x. x.id == service) s db.services found) in
    let updated =
      subst (λ p. Updated actor expected (strip reason) u confirm allow s c.enabled db p) e
        (update_service-Updated service actor expected reason u confirm allow s c db found
          joined) in
    elim updated.4 [
      | inl (_, same, _) ↦ absurd (omega (arith, updated.1))
      | inr (_, _, row, _) ↦
          update_service-stale service other expected note v sure able
            (changed_service (new_values s u) s) db'
            (ap (λ k. find (λ x. x.id == k) db'.services) (sym own) ∙ row)
            (λ h. absurd (omega (arith, updated.1)))
    ]
