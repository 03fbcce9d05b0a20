-- ===== src/Tables/Order.antt =====
-- What an ORDER BY and a LIMIT keep of the rows.
use digital_services_platfor.Base.{
  ℕ, zero, suc, ◌≤◌, ◌≡◌, refl, Bool, List, [], ◌∷◌, arith, length, exists, count_where, order_by,
  insert_by, select, take, ◌||◌,
}

module _ {A : Type 0} (key : A → ℕ) where
  module _ (p : A → Bool) where
    exists-insert_by : (x : A) (xs : List A) → exists p (insert_by key x xs) ≡ (p x || exists p xs)
    unfolding insert_by exists
    exists-insert_by x [] = refl
    exists-insert_by x (y ∷ ys) = ground (arith, exists-insert_by x ys)

    pub exists-order_by : (xs : List A) → exists p (order_by key xs) ≡ exists p xs
    unfolding order_by exists
    exists-order_by [] = refl
    exists-order_by (x ∷ xs) =
        ground (arith, exists-insert_by x (order_by key xs), exists-order_by xs)

  length-insert_by : (x : A) (xs : List A) → length (insert_by key x xs) ≡ suc (length xs)
  unfolding insert_by
  length-insert_by x [] = refl
  length-insert_by x (y ∷ ys) = ground (arith, length-insert_by x ys)

  pub length-order_by : (xs : List A) → length (order_by key xs) ≡ length xs
  unfolding order_by
  length-order_by [] = refl
  length-order_by (x ∷ xs) =
      ground (arith, length-insert_by x (order_by key xs), length-order_by xs)

module _ {A : Type 0} where
  pub take_all : (n : ℕ) (xs : List A) → length xs ≤ n → take n xs ≡ xs
  unfolding take
  take_all zero [] h = refl
  take_all (suc n) [] h = refl
  take_all zero (x ∷ xs) h = absurd (omega (arith, h))
  take_all (suc n) (x ∷ xs) h = ground (arith, take_all n xs)

  pub length-select : (p : A → Bool) (xs : List A) → length (select p xs) ≡ count_where p xs
  unfolding select count_where
  length-select p [] = refl
  length-select p (x ∷ xs) = ground (arith, length-select p xs)
