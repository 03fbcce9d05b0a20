-- ===== src/Admins/Sessions.antt =====
-- Sessions from their creation to their end.
use digital_services_platfor.Base.{
  ℕ, ◌+◌, ◌≡◌, refl, ◌≢◌, inl, inr, false, ◌&&◌, ◌||◌, none, some, List, [], ◌∷◌, arith, ltb, ◌==◌,
  if◌then◌else◌, Option-cases, length, find, exists, update_where, Option,
}
use digital_services_platfor.Text.{Text, is_empty}
use digital_services_platfor.Exec.{ok, Result, err}
use digital_services_platfor.Admins.Accounts.{
  create_session, revoke_session, load_session, AdminIdentity, AdminDb, AdminRow, session_seconds,
  identity_of, SessionRow, revocable, session_identity, live_session, audit,
}
use digital_services_platfor.Ledger.{same_text}
use digital_services_platfor.Tables.{find_sound}
use digital_services_platfor.Schema.{RowId}

-- A load that returns nobody or another administrator.
abbrev pub GivesOther : RowId → Result (Option AdminIdentity) → Type 0
GivesOther admin (err e) = ⊥
GivesOther admin (ok none) = Unit
GivesOther admin (ok (some a)) = a.id ≢ admin

module _ (digest : Text → Text) where
  -- A token that no session has opens none.
  find-absent :
      (token : Text) (now : ℕ) (ss : List SessionRow)
      → exists (λ s. same_text s.token_hash (digest token)) ss ≡ false
      → find (live_session digest token now) ss ≡ none
  unfolding exists find
  find-absent token now [] h = refl
  find-absent token now (s ∷ ss) h = ground (arith, find-absent token now ss)

  -- A session of the administrator that is found open was not revoked.
  find-revoked :
      (token : Text) (admin : AdminIdentity) (now later : ℕ) (s : SessionRow) (ss : List SessionRow)
      → find
          (live_session digest token later)
          (update_where (revocable digest token admin) (λ s. record s { revoked_at = some now }) ss)
        ≡ some s
      → s.admin_id ≢ admin.id
  unfolding find update_where
  find-revoked token admin now later s [] e own = cc
  find-revoked token admin now later s (x ∷ ss) e own =
      ground (arith, find-revoked token admin now later s ss)

  -- The identity of a session is that of its administrator.
  session_identity-id :
      (token : Text) (now : ℕ) (a : AdminIdentity) (s : SessionRow) (db : AdminDb)
      → find (live_session digest token now) db.admin_sessions ≡ some s
      → session_identity digest token now db ≡ some a
      → a.id ≡ s.admin_id
  unfolding session_identity
  session_identity-id token now a s db found named =
      elim (Option-cases (find (λ x. x.id == s.admin_id && x.enabled) db.admins)) [
        | inl missing ↦ ground arith
        | inr (row, e) ↦
            ground (arith, find_sound (λ x. x.id == s.admin_id && x.enabled) row db.admins e)
      ]

  -- A session under a new token is created; it names its administrator until it ends, and nobody
  -- after.
  pub load_session-create_session :
      (token : Text) (admin : AdminIdentity) (a : AdminRow) (now later : ℕ) (db : AdminDb)
      → is_empty token || ltb 128 (length token) ≡ false
      → exists (λ s. same_text s.token_hash (digest token)) db.admin_sessions ≡ false
      → find (λ x. x.id == admin.id && x.enabled) db.admins ≡ some a
      → let (created, db') = create_session digest token admin now db in
        (created ≡ ok token)
        × ((load_session digest token later db').0
            ≡ ok (if ltb later (now + session_seconds) then some (identity_of a) else none))
  unfolding create_session load_session find audit
  load_session-create_session token admin a now later db short fresh enabled =
      (ground arith, ground (arith, find-absent token later db.admin_sessions))

  -- An administrator can always revoke a token. After that, a load of the token always returns, and
  -- gives nobody or another administrator.
  pub load_session-revoke_session :
      (token : Text) (admin : AdminIdentity) (now later : ℕ) (db : AdminDb)
      → let (revoked, db') = revoke_session digest token admin now db in
        (revoked ≡ ok tt) × GivesOther admin.id (load_session digest token later db').0
  unfolding revoke_session load_session audit
  load_session-revoke_session token admin now later db =
      let ss =
        update_where (revocable digest token admin) (λ s. record s { revoked_at = some now })
          db.admin_sessions in
      let db' = (revoke_session digest token admin now db).1 in
      (
        refl,
        elim (Option-cases (session_identity digest token later db')) [
          | inl nobody ↦ ground arith
          | inr (a, named) ↦ elim (Option-cases (find (live_session digest token later) ss)) [
            | inl closed ↦ ground arith
            | inr (s, found) ↦ ground (
              arith,
              find-revoked token admin now later s db.admin_sessions found,
              session_identity-id token later a s db' found named,
            )
          ]
        ],
      )
