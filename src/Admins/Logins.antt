-- ===== src/Admins/Logins.antt =====
-- packages/python/platform_core/login_limits.py. Arguments are `str.lower`, the hexadecimal digest of
-- hashlib, and `rank`, the place of a key in `ORDER BY … login_key`.
use digital_services_platfor.Base.{
  ℕ, ◌+◌, Bool, not, ◌&&◌, ◌||◌, Option, none, some, List, [], ◌∷◌, ◌++◌, ltb, leb, if◌then◌else◌,
  find, exists, update_where, delete_where, order_by, select, take,
}
use digital_services_platfor.Text.{Text, text, strip}
use digital_services_platfor.Exec.{
  value_error, Result, ok, err, Exec, pure, gets, transaction, ◌>>=◌, ◌>>◌, raise_unless, modify,
  redis_error,
}
use digital_services_platfor.Ledger.{same_text}

pub record LoginCounter : Type 0 where
  pub login_key : Text
  pub attempts : ℕ
  pub expires_at : ℕ

pub record Limits : Type 0 where
  pub source_limit : ℕ
  pub account_limit : ℕ
  pub pair_limit : ℕ
  pub window_seconds : ℕ

-- The three keys of an attempt.
pub record LoginKeys : Type 0 where
  pub source : Text
  pub account : Text
  pub pair : Text

abbrev pub default_limits : Limits
default_limits = record {
  source_limit = 30;
  account_limit = 10;
  pair_limit = 5;
  window_seconds = 900;
}

abbrev pub limits_positive : Limits → Bool
limits_positive l =
    leb 1 l.source_limit && leb 1 l.account_limit && leb 1 l.pair_limit && leb 1 l.window_seconds

module _ (sha256 : Text → Text) where
  abbrev pub scoped_key : Text → Text → Text
  scoped_key scope value =
      text "admin:login:{admin-login}:" ++ (scope ++ (text ":" ++ sha256 value))

  unfoldable pub login_keys : (Text → Text) → Text → Text → LoginKeys
  login_keys lower source username_text =
      let username = lower (strip username_text) in
      record {
        source = scoped_key (text "source") source;
        account = scoped_key (text "account") username;
        pair = scoped_key (text "pair") (source ++ (0 ∷ username));
      }

abbrev pub within_limits : Limits → ℕ → ℕ → ℕ → Bool
within_limits l source account pair =
    leb source l.source_limit && leb account l.account_limit && leb pair l.pair_limit

-- What `login_allowed` makes of the answer of Redis, which is a list of counts or something else.
unfoldable pub check_counts : Limits → Option (List ℕ) → Result Bool
check_counts l (some (source ∷ account ∷ pair ∷ [])) =
    if ltb source 1 || ltb account 1 || ltb pair 1
    then err (redis_error "invalid login limiter response")
    else ok (within_limits l source account pair)
check_counts l _ = err (redis_error "invalid login limiter response")

-- `counts` answers `redis.eval(COUNTERS, …)`; without it there is no Redis.
unfoldable pub login_allowed :
    Limits → Option (LoginKeys → Option (List ℕ)) → LoginKeys → Result Bool
unfolding check_counts
login_allowed l counts keys =
    if not (limits_positive l) then err (value_error "invalid login limits") else elim counts [
      | none ↦ err (redis_error "login limiter unavailable")
      | some answer ↦ check_counts l (answer keys)
    ]

abbrev pub lapsed : ℕ → LoginCounter → Bool
lapsed now c = leb c.expires_at now

abbrev pub has_key : Text → LoginCounter → Bool
has_key k c = same_text c.login_key k

-- The 100 counters of the housekeeping, which no other login holds.
unfoldable pub lapsed_counters : (Text → ℕ) → ℕ → List LoginCounter → List LoginCounter
unfolding take order_by select
lapsed_counters rank now cs =
    take 100
      (order_by (λ c. c.expires_at) (order_by (λ c. rank c.login_key) (select (lapsed now) cs)))

-- DELETE … WHERE login_key IN …
unfoldable pub delete_keys : List LoginCounter → List LoginCounter → List LoginCounter
delete_keys gone = delete_where (λ c. exists (λ g. same_text g.login_key c.login_key) gone)

abbrev pub counted : ℕ → ℕ → LoginCounter → LoginCounter
counted window now c = record c {
  attempts = if lapsed now c then 1 else c.attempts + 1;
  expires_at = if lapsed now c then now + window else c.expires_at;
}

abbrev pub attempts_of : Option LoginCounter → ℕ
attempts_of none = 1
attempts_of (some c) = c.attempts

-- INSERT … ON CONFLICT (login_key) DO UPDATE … RETURNING attempts
unfoldable pub count_attempt : ℕ → ℕ → Text → Exec (List LoginCounter) ℕ
count_attempt window now k = do
  known ← gets (λ cs. exists (has_key k) cs)
  modify λ cs.
      if known
      then update_where (has_key k) (counted window now) cs
      else record { login_key = k; attempts = 1; expires_at = now + window } ∷ cs
  gets (λ cs. attempts_of (find (has_key k) cs))

-- The keys sort by their scopes: account, pair, source.
unfoldable pub count_all : Limits → LoginKeys → ℕ → Exec (List LoginCounter) Bool
unfolding count_attempt
count_all l keys now = do
  account ← count_attempt l.window_seconds now keys.account
  pair ← count_attempt l.window_seconds now keys.pair
  source ← count_attempt l.window_seconds now keys.source
  pure (within_limits l source account pair)

unfoldable pub postgres_login_allowed :
    (Text → ℕ) → Limits → LoginKeys → ℕ → Exec (List LoginCounter) Bool
unfolding lapsed_counters delete_keys count_all
postgres_login_allowed rank l keys now = do
  raise_unless (limits_positive l) (value_error "invalid login limits")
  modify λ cs. delete_keys (lapsed_counters rank now cs) cs
  transaction (count_all l keys now)
