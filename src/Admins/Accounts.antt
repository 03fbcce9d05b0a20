-- ===== src/Admins/Accounts.antt =====
-- packages/python/platform_core/admin_auth.py and admin_bootstrap.py. Arguments are `str.lower`,
-- argon2's `hash` and `verify`, the digest of hashlib, what `uuid4` and `secrets` make, and the clock
-- in seconds.
use digital_services_platfor.Base.{
  ℕ, ◌+◌, ◌*◌, Bool, true, false, not, ◌&&◌, ◌||◌, Option, none, some, List, [], ◌∷◌, ltb, leb,
  ◌==◌, if◌then◌else◌, eqb, is_some, length, find, exists, update_where,
}
use digital_services_platfor.Text.{Text, text, strip, is_empty}
use digital_services_platfor.Exec.{
  value_error, unique_violation, Result, ok, err, Exec, pure, gets, or_raise, transaction, ◌>>=◌,
  ◌>>◌, raise_if, modify, reads,
}
use digital_services_platfor.Schema.{AuditLog, RowId, AuditMetadata}
use digital_services_platfor.Services.{slug_char}
use digital_services_platfor.Ledger.{same_text}

pub data Role : Type 0 where
  owner operator : Role

unfoldable pub Role-discrete : Discrete Role
Role-discrete = hlevel

pub record AdminRow : Type 0 where
  pub id : RowId
  pub username : Text
  pub password_hash : Text
  pub role_code : Role
  pub enabled : Bool

pub record SessionRow : Type 0 where
  pub token_hash : Text
  pub admin_id : RowId
  pub expires_at : ℕ
  pub revoked_at : Option ℕ

pub record Permission : Type 0 where
  pub role_code : Role
  pub permission : Text

-- The tables of migration 0008.
pub record AdminDb : Type 0 where
  pub admins : List AdminRow
  pub admin_sessions : List SessionRow
  pub role_permissions : List Permission
  pub audit_logs : List AuditLog

pub record AdminIdentity : Type 0 where
  pub id : RowId
  pub username : Text
  pub role_code : Role

abbrev pub session_seconds : ℕ
session_seconds = 12 * 60 * 60

abbrev pub username_char : ℕ → Bool
username_char c = slug_char c || c == b'.' || c == b'_' || c == b'-'

unfoldable pub all_username : Text → Bool
all_username [] = true
all_username (c ∷ s) = username_char c && all_username s

-- `[a-z0-9][a-z0-9._-]{2,63}\Z`
unfoldable pub username_valid : Text → Bool
unfolding all_username
username_valid [] = false
username_valid (c ∷ s) = slug_char c && all_username s && leb 2 (length s) && leb (length s) 63

abbrev pub identity_of : AdminRow → AdminIdentity
identity_of a = record { id = a.id; username = a.username; role_code = a.role_code }

abbrev pub enabled_named : Text → AdminRow → Bool
enabled_named username a = same_text a.username username && a.enabled

module _ (lower : Text → Text) where
  unfoldable pub validate_credentials : Text → Text → Result Text
  unfolding username_valid
  validate_credentials username_text password =
      let username = lower (strip username_text) in
      if not (username_valid username) || ltb (length password) 12 || ltb 1024 (length password)
      then err (value_error "invalid admin credentials")
      else ok username

  -- A `role_code` of `none` is a text that names no role; `admins.username` is UNIQUE.
  unfoldable pub create_admin :
      (Text → Text) → RowId → Text → Text → Option Role → Exec AdminDb RowId
  unfolding validate_credentials
  create_admin hash id username_text password role_code = do
    username ← reads λ _. validate_credentials username_text password
    role ← or_raise role_code (value_error "unknown role")
    taken ← gets (λ db. exists (λ a. same_text a.username username) db.admins)
    raise_if taken (unique_violation "admins")
    modify λ db. record db {
      admins =
          record {
            id = id;
            username = username;
            password_hash = hash password;
            role_code = role;
            enabled = true;
          }
          ∷ db.admins;
    }
    pure id

  unfoldable pub authenticate :
      (Text → Text → Bool) → Text → Text → Exec AdminDb (Option AdminIdentity)
  unfolding username_valid
  authenticate verify username_text password =
      let username = lower (strip username_text) in
      if not (username_valid username) || is_empty password || ltb 1024 (length password)
      then pure none
      else gets λ db. elim (find (enabled_named username) db.admins) [
        | none ↦ none
        | some a ↦ if verify a.password_hash password then some (identity_of a) else none
      ]

  -- `bootstrap` of admin_bootstrap.py.
  unfoldable pub bootstrap : (Text → Text) → RowId → Text → Text → Exec AdminDb (Unit {0})
  unfolding create_admin
  bootstrap hash id username password = transaction (do
    owned ← gets (λ db. exists (λ a. eqb Role-discrete a.role_code Role.owner) db.admins)
    raise_if owned (value_error "Owner already exists; bootstrap is disabled")
    create_admin hash id username password (some Role.owner)
    pure tt)

unfoldable pub audit : RowId → Text → Option Text → Exec AdminDb (Unit {0})
audit admin action reason = do
  raise_if (is_empty action || ltb 100 (length action)) (value_error "invalid audit action")
  modify λ db. record db {
    audit_logs =
        record {
          actor_admin_id = admin;
          action = action;
          reason = reason;
          metadata = AuditMetadata.empty_object;
        }
        ∷ db.audit_logs;
  }

-- `revoked_at IS NULL`
abbrev pub unrevoked : SessionRow → Bool
unrevoked s = not (is_some s.revoked_at)

unfoldable pub has_permission : AdminIdentity → Text → Exec AdminDb Bool
has_permission admin permission = gets λ db.
    exists (λ p. eqb Role-discrete p.role_code admin.role_code && same_text p.permission permission)
      db.role_permissions

module _ (digest : Text → Text) where
  -- `token_hash` is the primary key of `admin_sessions`.
  unfoldable pub create_session : Text → AdminIdentity → ℕ → Exec AdminDb Text
  unfolding audit
  create_session token admin now = do
    transaction (do
      taken ← gets (λ db. exists (λ s. same_text s.token_hash (digest token)) db.admin_sessions)
      raise_if taken (unique_violation "admin_sessions")
      modify λ db. record db {
        admin_sessions =
            record {
              token_hash = digest token;
              admin_id = admin.id;
              expires_at = now + session_seconds;
              revoked_at = none;
            }
            ∷ db.admin_sessions;
      }
      audit admin.id (text "ADMIN_LOGIN") none)
    pure token

  abbrev pub live_session : Text → ℕ → SessionRow → Bool
  live_session token now s =
      same_text s.token_hash (digest token) && unrevoked s && ltb now s.expires_at

  -- The JOIN of the session with its administrator; the foreign key gives it one row.
  unfoldable pub session_identity : Text → ℕ → AdminDb → Option AdminIdentity
  session_identity token now db = elim (find (live_session token now) db.admin_sessions) [
    | none ↦ none
    | some s ↦ elim (find (λ a. a.id == s.admin_id && a.enabled) db.admins) [
      | none ↦ none
      | some a ↦ some (identity_of a)
    ]
  ]

  unfoldable pub load_session : Text → ℕ → Exec AdminDb (Option AdminIdentity)
  unfolding session_identity
  load_session token now =
      if is_empty token || ltb 128 (length token)
      then pure none
      else gets (session_identity token now)

  abbrev pub revocable : Text → AdminIdentity → SessionRow → Bool
  revocable token admin s =
      same_text s.token_hash (digest token) && s.admin_id == admin.id && unrevoked s

  unfoldable pub revoke_session : Text → AdminIdentity → ℕ → Exec AdminDb (Unit {0})
  unfolding audit
  revoke_session token admin now = transaction (do
    modify λ db. record db {
      admin_sessions =
          update_where (revocable token admin) (λ s. record s { revoked_at = some now })
            db.admin_sessions;
    }
    audit admin.id (text "ADMIN_LOGOUT") none)
