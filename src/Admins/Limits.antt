-- ===== src/Admins/Limits.antt =====
-- The login limits of the database, against an abstract limiter and against that on Redis.
use mathlib.Core.Path.{fun_ext}
use digital_services_platfor.Base.{
  ℕ, ◌<◌, ◌≡◌, refl, sym, ap, ◌∙◌, Bool, true, false, none, some, List, [], ◌∷◌, arith, find,
  ℕ_discrete,
}
use digital_services_platfor.Text.{Text, Text-discrete}
use digital_services_platfor.Exec.{ok, transaction}
use digital_services_platfor.Admins.Logins.{
  Limits, LoginKeys, count_all, lapsed_counters, login_allowed, login_keys, postgres_login_allowed,
  LoginCounter, limits_positive, within_limits, delete_keys, count_attempt, has_key, lapsed,
}
use digital_services_platfor.Admins.Counters.{
  Window, attempts_in, count_keys, counted_window, same_text_refl, windows, windows-delete_keys,
  InBatch, attempts-count_attempt, windows-count_attempt,
}
use digital_services_platfor.Ledger.{same_text}
use digital_services_platfor.Tables.Keyed.{
  IsKeyed, All, All-select, keyed-All, All-take, All-order_by,
}

-- The limits, on the windows after an attempt.
abbrev pub allows : Limits → LoginKeys → (Text → Window) → Bool
allows l keys w =
    within_limits l (attempts_in (w keys.source)) (attempts_in (w keys.account))
      (attempts_in (w keys.pair))

-- The keys of one attempt differ.
abbrev AreApart : LoginKeys → Type 0
AreApart keys =
    (same_text keys.account keys.pair ≡ false)
    × (same_text keys.pair keys.account ≡ false)
    × (same_text keys.account keys.source ≡ false)
    × (same_text keys.source keys.account ≡ false)
    × (same_text keys.pair keys.source ≡ false)
    × (same_text keys.source keys.pair ≡ false)

windows-count_all :
    (l : Limits) (keys : LoginKeys) (now : ℕ) (cs : List LoginCounter) (j : Text)
    → 0 < l.window_seconds
    → windows (count_all l keys now cs).1 now j ≡ count_keys l keys now (windows cs now) j
unfolding count_all
windows-count_all l keys now cs j positive =
    let first = (count_attempt l.window_seconds now keys.account cs).1 in
    let second = (count_attempt l.window_seconds now keys.pair first).1 in
    ground (
      arith,
      attempts-count_attempt l.window_seconds now keys.account cs,
      attempts-count_attempt l.window_seconds now keys.pair first,
      attempts-count_attempt l.window_seconds now keys.source second,
      windows-count_attempt l.window_seconds now keys.account j cs,
      windows-count_attempt l.window_seconds now keys.pair j first,
      windows-count_attempt l.window_seconds now keys.source j second,
    )

count_all-allows :
    (l : Limits) (keys : LoginKeys) (now : ℕ) (cs : List LoginCounter)
    → 0 < l.window_seconds
    → AreApart keys
    → (count_all l keys now cs).0 ≡ ok (allows l keys (count_keys l keys now (windows cs now)))
unfolding count_all
count_all-allows l keys now cs positive apart =
    let w = l.window_seconds in
    let first = (count_attempt w now keys.account cs).1 in
    let second = (count_attempt w now keys.pair first).1 in
    ground (
      arith,
      attempts-count_attempt w now keys.account cs,
      attempts-count_attempt w now keys.pair first,
      attempts-count_attempt w now keys.source second,
      windows-count_attempt w now keys.account keys.pair cs,
      windows-count_attempt w now keys.account keys.source cs,
      windows-count_attempt w now keys.pair keys.source first,
      same_text_refl keys.account,
      same_text_refl keys.pair,
      same_text_refl keys.source,
    )

login_keys-AreApart :
    (sha256 lower : Text → Text) (source username : Text)
    → AreApart (login_keys sha256 lower source username)
unfolding login_keys Text-discrete ℕ_discrete
login_keys-AreApart sha256 lower source username = (refl, refl, refl, refl, refl, refl)

batch-InBatch :
    (rank : Text → ℕ) (now : ℕ) (cs : List LoginCounter)
    → IsKeyed same_text (λ c. c.login_key) cs
    → All (InBatch now cs) (lapsed_counters rank now cs)
unfolding lapsed_counters
batch-InBatch rank now cs keyed =
    let picked =
      All-select (λ x. find (has_key x.login_key) cs ≡ some x) (lapsed now) cs
        (keyed-All same_text (λ c. c.login_key) same_text_refl cs keyed) in
    All-take (InBatch now cs) 100 _ (
      All-order_by (InBatch now cs) (λ c. c.expires_at) _
        (All-order_by (InBatch now cs) (λ c. rank c.login_key) _ picked))

-- The answer of Redis that the windows `w` stand for.
abbrev pub redis_answer : LoginKeys → (Text → Window) → List ℕ
redis_answer keys w =
    attempts_in (w keys.source) ∷ attempts_in (w keys.account) ∷ attempts_in (w keys.pair) ∷ []

attempts_in-counted_window :
    (window now : ℕ) (v : Window) → 0 < attempts_in (counted_window window now v)
attempts_in-counted_window window now none = omega arith
attempts_in-counted_window window now (some (n, until)) = omega arith

-- Each of the three counts is positive after an attempt.
counts_positive :
    (l : Limits) (keys : LoginKeys) (now : ℕ) (w : Text → Window)
    → AreApart keys
    → let w' = count_keys l keys now w in
      (0 < attempts_in (w' keys.source))
      × (0 < attempts_in (w' keys.account))
      × (0 < attempts_in (w' keys.pair))
counts_positive l keys now w apart =
    let pos = attempts_in-counted_window l.window_seconds now in
    (
      ground (arith, same_text_refl keys.source, pos (w keys.source)),
      ground (arith, same_text_refl keys.account, pos (w keys.account)),
      ground (arith, same_text_refl keys.pair, pos (w keys.pair)),
    )

login_allowed-eq :
    (l : Limits) (keys : LoginKeys) (source account pair : ℕ)
    → limits_positive l ≡ true
    → 0 < source
    → 0 < account
    → 0 < pair
    → login_allowed l (some (λ _. some (source ∷ account ∷ pair ∷ []))) keys
      ≡ ok (within_limits l source account pair)
unfolding login_allowed
login_allowed-eq l keys source account pair valid s a p = ground arith

postgres_login_allowed-eq :
    (rank : Text → ℕ) (l : Limits) (keys : LoginKeys) (now : ℕ) (cs : List LoginCounter)
    → limits_positive l ≡ true
    → let cleaned = delete_keys (lapsed_counters rank now cs) cs in
      ((postgres_login_allowed rank l keys now cs).0
        ≡ (transaction (count_all l keys now) cleaned).0)
      × ((postgres_login_allowed rank l keys now cs).1
          ≡ (transaction (count_all l keys now) cleaned).1)
unfolding postgres_login_allowed
postgres_login_allowed-eq rank l keys now cs valid = (rw valid refl, rw valid refl)

window_positive : (l : Limits) → limits_positive l ≡ true → 0 < l.window_seconds
window_positive l valid = ground arith

-- The limits of the database are those of an abstract limiter: an attempt counts its source, its
-- account and their pair, each in a window that begins with its first attempt, and no other key,
-- and it is allowed exactly if none of the three counts exceeds its limit; the limiter on Redis,
-- when Redis answers the same counts, decides the same.
pub postgres_login_allowed-counts :
    (rank : Text → ℕ) (l : Limits) (sha256 lower : Text → Text) (source username : Text) (now : ℕ)
    (cs : List LoginCounter)
    → limits_positive l ≡ true
    → IsKeyed same_text (λ c. c.login_key) cs
    → let keys = login_keys sha256 lower source username in
      let w = count_keys l keys now (windows cs now) in
      let (r, cs') = postgres_login_allowed rank l keys now cs in
      let answer =
        attempts_in (w keys.source)
        ∷ attempts_in (w keys.account)
        ∷ attempts_in (w keys.pair)
        ∷ [] in
      (r ≡ ok (allows l keys w))
      × ((k : Text) → windows cs' now k ≡ w k)
      × (login_allowed l (some (λ _. some (redis_answer keys w))) keys ≡ r)
postgres_login_allowed-counts rank l sha256 lower source username now cs valid keyed =
    let keys = login_keys sha256 lower source username in
    let apart = login_keys-AreApart sha256 lower source username in
    let gone = lapsed_counters rank now cs in
    let cleaned = delete_keys gone cs in
    let same : windows cleaned now ≡ windows cs now =
      fun_ext (λ k. windows-delete_keys now gone cs k (batch-InBatch rank now cs keyed)) in
    let w = count_keys l keys now (windows cs now) in
    let positive = window_positive l valid in
    let decided : (count_all l keys now cleaned).0 ≡ ok (allows l keys w) =
      rw (← same) (count_all-allows l keys now cleaned positive apart) in
    let (r, table) = postgres_login_allowed-eq rank l keys now cs valid in
    let (s, a, p) = counts_positive l keys now (windows cs now) apart in
    let answer : (postgres_login_allowed rank l keys now cs).0 ≡ ok (allows l keys w) =
      ground (arith, r, decided) in
    (
      answer,
      λ k. ground (
        arith,
        table,
        decided,
        windows-count_all l keys now cleaned k positive,
        ap (λ v. count_keys l keys now v k) same,
      ),
      login_allowed-eq l keys _ _ _ valid s a p ∙ sym answer,
    )
