-- ===== src/Pdf/Clean.antt =====
-- What an accepted object graph holds.
use mathlib.Core.Path.{subst}
use digital_services_platfor.Pdf.Content.{
  plain, indirect, container, has_disallowed, reject_active_content, max_pdf_objects,
}
use digital_services_platfor.Base.{
  ℕ, zero, suc, ◌+◌, ◌≡◌, ◌⊎◌, inl, inr, true, false, List, [], ◌∷◌, arith, Bool-cases, sym, ◌∙◌,
  ◌*◌,
}
use digital_services_platfor.Exec.{ok, Result-cases}
use digital_services_platfor.Pdf.Content.{
  Reader, SeenKey, Value, extend, key_is, reference, walk, was_seen, indirect, object_id, container,
}
use digital_services_platfor.Tables.Keyed.{All}

eq_of_key_is : (j k : SeenKey) → key_is j k ≡ true → j ≡ k
eq_of_key_is (reference i g) (reference j h) e = ground arith
eq_of_key_is (object_id i) (object_id j) e = ground arith
eq_of_key_is (reference i g) (object_id j) e = cc
eq_of_key_is (object_id i) (reference j h) e = cc

key_is_refl : (k : SeenKey) → key_is k k ≡ true
key_is_refl (reference i g) = ground arith
key_is_refl (object_id i) = ground arith

abbrev Covered : List SeenKey → Value → Type 0
Covered seen plain = Unit
Covered seen (indirect i g) = was_seen (reference i g) seen ≡ true
Covered seen (container k) = was_seen (object_id k) seen ≡ true

-- The members of a dictionary or an array.
pub data IsChild (v : Value) : List Value → Type 0 where
  first : (vs : List Value) → IsChild v (v ∷ vs)
  later : (w : Value) (vs : List Value) → IsChild v vs → IsChild v (w ∷ vs)

IsChild-All : (P : Value → Type 0) (v : Value) (vs : List Value) → IsChild v vs → All P vs → P v
IsChild-All P v _ (first vs) h = h.0
IsChild-All P v _ (later w vs inside) h = IsChild-All P v vs inside h.1

ok-injective : {v w : Value} → ok v ≡ ok w → v ≡ w
ok-injective e = cc

module _ (r : Reader) where
  -- What stands behind the key of a set that is closed.
  abbrev IsClosed : List SeenKey → SeenKey → Type 0
  IsClosed seen (reference i g) = (v : Value) × (r.get_object i g ≡ ok v) × Covered seen v
  IsClosed seen (object_id k) =
      (has_disallowed (r.dictionary_keys k) ≡ false) × All (Covered seen) (r.children k)

  -- The keys of a walk that ends: they hold those seen before and cover what was pending, and
  -- those not seen before are closed.
  record Closure (pending : List (Value × ℕ)) (seen final : List SeenKey) : Type 0 where
    keeps : (k : SeenKey) → was_seen k seen ≡ true → was_seen k final ≡ true
    covers : All (λ p. Covered final p.0) pending
    closes : (k : SeenKey) → was_seen k final ≡ true → (was_seen k seen ≡ true) ⊎ IsClosed final k

  extend-covers :
      (final : List SeenKey) (vs : List Value) (depth : ℕ) (pending : List (Value × ℕ))
      → All (λ p. Covered final p.0) (extend vs depth pending)
      → All (Covered final) vs × All (λ p. Covered final p.0) pending
  unfolding extend
  extend-covers final [] depth pending h = (tt, h)
  extend-covers final (v ∷ vs) depth pending h =
      let rest = extend-covers final vs depth ((v, depth + 1) ∷ pending) h in
      ((rest.1.0, rest.0), rest.1.1)

  -- A key that was not seen before, with what it stands for.
  closes-cons :
      (new : SeenKey) (seen final : List SeenKey)
      → IsClosed final new
      → ((k : SeenKey)
          → was_seen k final ≡ true
          → (was_seen k (new ∷ seen) ≡ true) ⊎ IsClosed final k)
      → (k : SeenKey) → was_seen k final ≡ true
      → (was_seen k seen ≡ true) ⊎ IsClosed final k
  unfolding was_seen
  closes-cons new seen final closed before k h = elim (before k h) [
    | inr c ↦ inr c
    | inl old ↦ elim (Bool-cases (key_is new k)) [
      | inl same ↦ inr (subst (λ j. IsClosed final j) (eq_of_key_is new k same) closed)
      | inr other ↦ inl (ground arith)
    ]
  ]

  seen-cons :
      (k new : SeenKey) (seen : List SeenKey)
      → was_seen k seen ≡ true
      → was_seen k (new ∷ seen) ≡ true
  unfolding was_seen
  seen-cons k new seen h = ground arith

  seen_head : (k : SeenKey) (seen : List SeenKey) → was_seen k (k ∷ seen) ≡ true
  unfolding was_seen
  seen_head k seen = ground (arith, key_is_refl k)

  walk-Closure :
      (left : ℕ) (pending : List (Value × ℕ)) (seen : List SeenKey)
      → walk r left pending seen ≡ ok tt
      → (final : List SeenKey) × Closure pending seen final
  unfolding walk
  walk-Closure left [] seen e =
      (seen, record { keeps = λ k h. h; covers = tt; closes = λ k h. inl h })
  walk-Closure zero (v ∷ pending) seen e = cc
  walk-Closure (suc left) ((plain, depth) ∷ pending) seen e =
      let (final, c) = walk-Closure left pending seen (ground arith) in
      (final, record { keeps = c.keeps; covers = (tt, c.covers); closes = c.closes })
  walk-Closure (suc left) ((indirect i g, depth) ∷ pending) seen e =
      elim (Bool-cases (was_seen (reference i g) seen)) [
        | inl known ↦
            let (final, c) = walk-Closure left pending seen (ground arith) in
            (
              final,
              record { keeps = c.keeps; covers = (c.keeps _ known, c.covers); closes = c.closes },
            )
        | inr fresh ↦ elim (Result-cases (r.get_object i g)) [
          | inr (x, failed) ↦ absurd (ground arith)
          | inl (v, found) ↦
              let new = reference i g in
              let (final, c) =
                walk-Closure left ((v, depth + 1) ∷ pending) (new ∷ seen) (ground arith) in
              (
                final,
                record {
                  keeps = λ k h. c.keeps k (seen-cons k new seen h);
                  covers = (c.keeps new (seen_head new seen), c.covers.1);
                  closes = closes-cons new seen final (v, found, c.covers.0) c.closes;
                },
              )
        ]
      ]
  walk-Closure (suc left) ((container k, depth) ∷ pending) seen e =
      elim (Bool-cases (was_seen (object_id k) seen)) [
        | inl known ↦
            let (final, c) = walk-Closure left pending seen (ground arith) in
            (
              final,
              record { keeps = c.keeps; covers = (c.keeps _ known, c.covers); closes = c.closes },
            )
        | inr fresh ↦
            let new = object_id k in
            let (final, c) =
              walk-Closure left (extend (r.children k) depth pending) (new ∷ seen) (ground arith) in
            let (inner, outer) = extend-covers final (r.children k) depth pending c.covers in
            (
              final,
              record {
                keeps = λ j h. c.keeps j (seen-cons j new seen h);
                covers = (c.keeps new (seen_head new seen), outer);
                closes = closes-cons new seen final (ground arith, inner) c.closes;
              },
            )
      ]

  -- The values that a reader reaches from the trailer.
  pub data Reaches : Value → Type 0 where
    start : (v : Value) → r.trailer ≡ v → Reaches v
    resolved : (i g : ℕ) (v : Value) → Reaches (indirect i g) → r.get_object i g ≡ ok v → Reaches v
    child : (k : ℕ) (v : Value) → Reaches (container k) → IsChild v (r.children k) → Reaches v

  Reaches-Covered :
      (final : List SeenKey)
      → Covered final r.trailer
      → ((k : SeenKey) → was_seen k final ≡ true → IsClosed final k)
      → (v : Value) → Reaches v
      → Covered final v
  Reaches-Covered final begun closed v (start _ e) = subst (Covered final) e begun
  Reaches-Covered final begun closed v (resolved i g _ before found) =
      let (w, got, covered) =
        closed (reference i g) (Reaches-Covered final begun closed (indirect i g) before) in
      subst (Covered final) (ok-injective (sym got ∙ found)) covered
  Reaches-Covered final begun closed v (child k _ before inside) =
      IsChild-All (Covered final) v (r.children k) inside
        (closed (object_id k) (Reaches-Covered final begun closed (container k) before)).1

  -- An object graph that is accepted has no dictionary with a disallowed key, however it is reached
  -- from the trailer, through references, dictionaries and arrays.
  pub reject_active_content_sound :
      (k : ℕ)
      → reject_active_content r ≡ ok tt
      → Reaches (container k)
      → has_disallowed (r.dictionary_keys k) ≡ false
  unfolding reject_active_content was_seen
  reject_active_content_sound k accepted reached =
      let (final, c) = walk-Closure (max_pdf_objects * 2) ((r.trailer, 0) ∷ []) [] accepted in
      let closed : (j : SeenKey) → was_seen j final ≡ true → IsClosed final j = λ j h.
        elim (c.closes j h) [ inl none_seen ↦ absurd (cc none_seen) | inr closed_j ↦ closed_j ] in
      (closed (object_id k) (Reaches-Covered final c.covers.0 closed (container k) reached)).0
