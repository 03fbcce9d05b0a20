-- ===== src/Admins/Counters.antt =====
-- The login counters of the database, against windows of attempts.
use digital_services_platfor.Base.{
  ℕ, ◌+◌, ◌<◌, ◌≡◌, refl, inl, inr, true, Option, none, some, List, ◌∷◌, arith, if◌then◌else◌,
  Bool-cases, Option-cases, find, delete_where, exists, Bool, false, [], ap,
}
use digital_services_platfor.Text.{Text}
use digital_services_platfor.Ledger.{same_text}
use digital_services_platfor.Exec.{ok}
use digital_services_platfor.Admins.Logins.{
  Limits, LoginCounter, count_attempt, LoginKeys, has_key, lapsed, counted, delete_keys,
}
use digital_services_platfor.Tables.{find-update_where, find_sound, exists-is_some-find}
use digital_services_platfor.Tables.Keyed.{All}

-- The attempts of a key in its window, with the end of the window.
abbrev pub Window : Type 0
Window = Option (ℕ × ℕ)

-- An abstract limiter counts the attempts of each key in a window that begins with the first.
abbrev pub counted_window : ℕ → ℕ → Window → Window
counted_window window now none = some (1, now + window)
counted_window window now (some (n, until)) = some (n + 1, until)

abbrev pub count_key : ℕ → ℕ → Text → (Text → Window) → Text → Window
count_key window now k w j = if same_text k j then counted_window window now (w j) else w j

abbrev pub count_keys : Limits → LoginKeys → ℕ → (Text → Window) → Text → Window
count_keys l keys now w =
    count_key l.window_seconds now keys.source
      (count_key l.window_seconds now keys.pair (count_key l.window_seconds now keys.account w))

abbrev pub attempts_in : Window → ℕ
attempts_in none = 0
attempts_in (some (n, until)) = n

-- The counter that is live at `now`.
abbrev window_of : ℕ → Option LoginCounter → Window
window_of now none = none
window_of now (some c) = if lapsed now c then none else some (c.attempts, c.expires_at)

unfoldable pub windows : List LoginCounter → ℕ → Text → Window
windows cs now k = window_of now (find (has_key k) cs)

pub same_text_refl : (k : Text) → same_text k k ≡ true
same_text_refl k = ground arith

eq_of_same_text : (j k : Text) → same_text j k ≡ true → j ≡ k
eq_of_same_text j k e = ground arith

find-insert :
    (c : LoginCounter) (k : Text) (cs : List LoginCounter)
    → find (has_key k) (c ∷ cs) ≡ (if has_key k c then some c else find (has_key k) cs)
unfolding find
find-insert c k cs = refl

-- An attempt counts its key, and no other.
pub windows-count_attempt :
    (window now : ℕ) (k j : Text) (cs : List LoginCounter)
    → 0 < window
    → windows (count_attempt window now k cs).1 now j ≡ count_key window now k (windows cs now) j
unfolding count_attempt windows
windows-count_attempt window now k j cs positive =
    let kept = find-update_where (has_key j) (has_key k) (counted window now) (λ c. refl) cs in
    elim (Bool-cases (same_text k j)) [
      | inr other ↦ elim (Option-cases (find (has_key j) cs)) [
        | inl none_j ↦ ground (
          arith,
          kept,
          find-insert (record { login_key = k; attempts = 1; expires_at = now + window }) j cs,
        )
        | inr (c, found) ↦ ground (
          arith,
          kept,
          find_sound (has_key j) c cs,
          eq_of_same_text c.login_key j,
          same_text_refl j,
          find-insert (record { login_key = k; attempts = 1; expires_at = now + window }) j cs,
        )
      ]
      | inl hit ↦
          let e = eq_of_same_text k j hit in
          elim (Option-cases (find (has_key k) cs)) [
            | inl fresh ↦ ground (
              arith,
              exists-is_some-find (has_key k) cs,
              find-insert (record { login_key = k; attempts = 1; expires_at = now + window }) j cs,
            )
            | inr (c, found) ↦
                ground
                  (arith, kept, exists-is_some-find (has_key k) cs, find_sound (has_key k) c cs)
          ]
    ]

-- The count that an attempt answers is that of the window after it.
pub attempts-count_attempt :
    (window now : ℕ) (k : Text) (cs : List LoginCounter)
    → (count_attempt window now k cs).0
      ≡ ok (attempts_in (count_key window now k (windows cs now) k))
unfolding count_attempt windows
attempts-count_attempt window now k cs =
    let kept = find-update_where (has_key k) (has_key k) (counted window now) (λ c. refl) cs in
    elim (Option-cases (find (has_key k) cs)) [
      | inl fresh ↦ ground (
        arith,
        same_text_refl k,
        exists-is_some-find (has_key k) cs,
        find-insert (record { login_key = k; attempts = 1; expires_at = now + window }) k cs,
      )
      | inr (c, found) ↦ ground (
        arith,
        same_text_refl k,
        kept,
        exists-is_some-find (has_key k) cs,
        find_sound (has_key k) c cs,
      )
    ]

-- The counters of a batch have lapsed, and are what a SELECT by their key finds.
abbrev pub InBatch : ℕ → List LoginCounter → LoginCounter → Type 0
InBatch now cs g = (find (has_key g.login_key) cs ≡ some g) × (lapsed now g ≡ true)

-- A batch holds no key whose counter is live.
batch-live :
    (now : ℕ) (gone cs : List LoginCounter) (k : Text) (c : LoginCounter)
    → All (InBatch now cs) gone
    → find (has_key k) cs ≡ some c
    → lapsed now c ≡ false
    → exists (λ g. same_text g.login_key k) gone ≡ false
unfolding exists
batch-live now [] cs k c h found live = refl
batch-live now (g ∷ gs) cs k c h found live = elim (Bool-cases (same_text g.login_key k)) [
  | inr other ↦ rw other (batch-live now gs cs k c h.1 found live)
  | inl hit ↦
      absurd
        (ground (arith, ap (λ j. find (has_key j) cs) (eq_of_same_text g.login_key k hit), h.0))
]

-- A DELETE by keys takes all rows of a key or none.
find-delete_where :
    (q : Text → Bool) (k : Text) (cs : List LoginCounter)
    → find (has_key k) (delete_where (λ c. q c.login_key) cs)
      ≡ (if q k then none else find (has_key k) cs)
unfolding find delete_where
find-delete_where q k [] = ground arith
find-delete_where q k (x ∷ xs) = elim (Bool-cases (same_text x.login_key k)) [
  | inr other ↦ ground (arith, find-delete_where q k xs)
  | inl hit ↦ ground (arith, find-delete_where q k xs, ap q (eq_of_same_text x.login_key k hit))
]

-- The housekeeping leaves every window as it is.
pub windows-delete_keys :
    (now : ℕ) (gone cs : List LoginCounter) (k : Text)
    → All (InBatch now cs) gone
    → windows (delete_keys gone cs) now k ≡ windows cs now k
unfolding delete_keys windows
windows-delete_keys now gone cs k h =
    let q : Text → Bool = λ j. exists (λ g. same_text g.login_key j) gone in
    elim (Option-cases (find (has_key k) cs)) [
      | inl absent ↦ ground (arith, find-delete_where q k cs)
      | inr (c, found) ↦ elim (Bool-cases (lapsed now c)) [
        | inl over ↦ ground (arith, find-delete_where q k cs)
        | inr live ↦
            ground (arith, find-delete_where q k cs, batch-live now gone cs k c h found live)
      ]
    ]
