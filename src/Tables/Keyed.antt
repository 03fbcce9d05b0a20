-- ===== src/Tables/Keyed.antt =====
-- Tables with a primary key, and what holds of all rows of a SELECT.
use digital_services_platfor.Base.{
  ℕ, zero, suc, ◌≡◌, inl, inr, Bool, true, false, some, List, [], ◌∷◌, arith, leb, Bool-cases, find,
  order_by, select, insert_by, take, exists, map, length, ◌≤◌,
}
use mathlib.Core.List.{reverse, reverse_aux}

module _ {A : Type 0} where
  abbrev pub All : (A → Type 0) → List A → Type 0
  All P [] = Unit
  All P (x ∷ xs) = P x × All P xs

  module _ (P : A → Type 0) where
    pub All-select :
        (p : A → Bool) (xs : List A) → All P xs → All (λ x. P x × (p x ≡ true)) (select p xs)
    unfolding select
    All-select p [] h = tt
    All-select p (x ∷ xs) h = elim (Bool-cases (p x)) [
      | inl kept ↦ rw kept ((h.0, kept), All-select p xs h.1)
      | inr dropped ↦ rw dropped (All-select p xs h.1)
    ]

    pub All-take : (n : ℕ) (xs : List A) → All P xs → All P (take n xs)
    unfolding take
    All-take zero xs h = tt
    All-take (suc n) [] h = tt
    All-take (suc n) (x ∷ xs) h = (h.0, All-take n xs h.1)

    All-insert_by :
        (key : A → ℕ) (x : A) (xs : List A) → P x → All P xs → All P (insert_by key x xs)
    unfolding insert_by
    All-insert_by key x [] p h = (p, tt)
    All-insert_by key x (y ∷ ys) p h = elim (Bool-cases (leb (key x) (key y))) [
      | inl before ↦ rw before (p, h)
      | inr after ↦ rw after (h.0, All-insert_by key x ys p h.1)
    ]

    pub All-order_by : (key : A → ℕ) (xs : List A) → All P xs → All P (order_by key xs)
    unfolding order_by
    All-order_by key [] h = tt
    All-order_by key (x ∷ xs) h =
        All-insert_by key x (order_by key xs) h.0 (All-order_by key xs h.1)

    All-reverse_aux : (xs ys : List A) → All P xs → All P ys → All P (reverse_aux xs ys)
    All-reverse_aux [] ys h g = g
    All-reverse_aux (x ∷ xs) ys h g = All-reverse_aux xs (x ∷ ys) h.1 (h.0, g)

    pub All-reverse : (xs : List A) → All P xs → All P (reverse xs)
    All-reverse xs h = All-reverse_aux xs [] h tt

module _ {A B : Type 0} (P : A → Type 0) (Q : B → Type 0) (g : A → B) where
  pub All-map : ((x : A) → P x → Q (g x)) → (xs : List A) → All P xs → All Q (map g xs)
  All-map step [] h = tt
  All-map step (x ∷ xs) h = (step x h.0, All-map step xs h.1)

module _ {A B : Type 0} (g : A → B) where
  pub length-map-take : (n : ℕ) (xs : List A) → length (map g (take n xs)) ≤ n
  unfolding take length
  length-map-take zero xs = omega arith
  length-map-take (suc n) [] = omega arith
  length-map-take (suc n) (x ∷ xs) = omega (arith, length-map-take n xs)

-- Keys of a type `K`, which `same` compares.
module _ {A K : Type 0} (same : K → K → Bool) (key : A → K) where
  -- The rows have keys of their own.
  abbrev pub IsKeyed : List A → Type 0
  IsKeyed [] = Unit
  IsKeyed (x ∷ xs) = (exists (λ y. same (key x) (key y)) xs ≡ false) × IsKeyed xs

  absent-All :
      (k : K) (xs : List A)
      → exists (λ y. same k (key y)) xs ≡ false
      → All (λ y. same k (key y) ≡ false) xs
  unfolding exists
  absent-All k [] h = tt
  absent-All k (x ∷ xs) h = (ground arith, absent-All k xs (ground arith))

  -- A row before them with another key does not change what is found.
  shadow :
      (x : A) (xs ys : List A)
      → All (λ y. same (key x) (key y) ≡ false) ys
      → All (λ y. find (λ z. same (key z) (key y)) xs ≡ some y) ys
      → All (λ y. find (λ z. same (key z) (key y)) (x ∷ xs) ≡ some y) ys
  unfolding find
  shadow x xs [] h g = tt
  shadow x xs (y ∷ ys) h g = (rw h.0 g.0, shadow x xs ys h.1 g.1)

  -- A SELECT by the key of a row finds that row.
  pub keyed-All :
      ((k : K) → same k k ≡ true)
      → (xs : List A) → IsKeyed xs
      → All (λ y. find (λ z. same (key z) (key y)) xs ≡ some y) xs
  unfolding find
  keyed-All same_refl [] h = tt
  keyed-All same_refl (x ∷ xs) h = (
    ground (arith, same_refl (key x)),
    shadow x xs xs (absent-All (key x) xs h.0) (keyed-All same_refl xs h.1),
  )
