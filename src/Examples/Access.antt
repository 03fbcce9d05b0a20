-- ===== src/Examples/Access.antt =====
-- The theorems on administrators, tried on one of them.
use digital_services_platfor.Base.{ℕ, ◌≡◌, refl, true, none, some, List, [], ◌∷◌, find, exists}
use digital_services_platfor.Text.{Text, text}
use digital_services_platfor.Exec.{ok}
use digital_services_platfor.Admins.{
  AdminDb, AdminRow, LoginCounter, create_session, login_keys, revoke_session, Role, load_session,
  identity_of, default_limits, postgres_login_allowed, login_allowed,
}
use digital_services_platfor.Examples.{digest}
use digital_services_platfor.Admins.Counters.{count_keys, windows}
use digital_services_platfor.Admins.Sessions.{
  GivesOther, load_session-create_session, load_session-revoke_session,
}
use digital_services_platfor.Admins.Limits.{allows, redis_answer, postgres_login_allowed-counts}

abbrev ascii : Text → Text
ascii s = s

abbrev rank : Text → ℕ
rank s = 0

-- A counter of another account, which has lapsed.
abbrev counters : List LoginCounter
counters = record { login_key = text "old"; attempts = 4; expires_at = 10 } ∷ []

postgres_login_allowed-counts_example :
    let keys = login_keys digest ascii (text "ip") (text "owner") in
    let w = count_keys default_limits keys 20 (windows counters 20) in
    let (r, cs) = postgres_login_allowed rank default_limits keys 20 counters in
    (r ≡ ok (allows default_limits keys w))
    × ((k : Text) → windows cs 20 k ≡ w k)
    × (login_allowed default_limits (some (λ _. some (redis_answer keys w))) keys ≡ r)
unfolding exists
postgres_login_allowed-counts_example =
    postgres_login_allowed-counts rank default_limits digest ascii (text "ip") (text "owner") 20
      counters refl (refl, tt)

abbrev boss : AdminRow
boss = record {
  id = 2;
  username = text "owner";
  password_hash = text "hash";
  role_code = Role.owner;
  enabled = true;
}

abbrev clerk : AdminRow
clerk = record {
  id = 3;
  username = text "clerk";
  password_hash = text "hash";
  role_code = Role.operator;
  enabled = true;
}

abbrev office : AdminDb
office = record {
  admins = boss ∷ clerk ∷ [];
  admin_sessions = [];
  role_permissions = [];
  audit_logs = [];
}

load_session-create_session_example :
    let (created, db) = create_session digest (text "token") (identity_of boss) 100 office in
    (created ≡ ok (text "token"))
    × ((load_session digest (text "token") 200 db).0 ≡ ok (some (identity_of boss)))
unfolding exists find
load_session-create_session_example =
    load_session-create_session digest (text "token") (identity_of boss) boss 100 200 office refl
      refl refl

-- A session of the clerk, which the owner cannot revoke.
abbrev logged_in : AdminDb
logged_in = record office {
  admin_sessions =
      record { token_hash = text "token"; admin_id = 3; expires_at = 1000; revoked_at = none } ∷ [];
}

load_session-revoke_session_example :
    let (revoked, db) = revoke_session digest (text "token") (identity_of boss) 100 logged_in in
    (revoked ≡ ok tt) × GivesOther 2 (load_session digest (text "token") 200 db).0
load_session-revoke_session_example =
    load_session-revoke_session digest (text "token") (identity_of boss) 100 200 logged_in
