-- ===== src/Tables.antt =====
-- Laws of the table helpers of Base: what an UPDATE does to the row that a SELECT finds.
pub mod Keyed
pub mod Order
use mathlib.Core.Option
use digital_services_platfor.Base.{
  ℕ, ◌==◌, ◌≡◌, refl, Bool, true, some, List, [], ◌∷◌, arith, if◌then◌else◌, is_some, find, exists,
  update_where,
}

abbrev pub updated {ℓ} : {A : Type ℓ} → (A → Bool) → (A → A) → A → A
updated q f x = if q x then f x else x

module _ {A : Type 0} (p q : A → Bool) (f : A → A) (keeps : (x : A) → p (f x) ≡ p x) where
  -- An UPDATE of columns that the SELECT does not test changes the row found in place.
  pub find-update_where :
      (xs : List A) → find p (update_where q f xs) ≡ Option.map (updated q f) (find p xs)
  unfolding find update_where
  find-update_where [] = refl
  find-update_where (x ∷ xs) = ground (arith, keeps x, find-update_where xs)

  pub exists-update_where : (xs : List A) → exists p (update_where q f xs) ≡ exists p xs
  unfolding exists update_where
  exists-update_where [] = refl
  exists-update_where (x ∷ xs) = ground (arith, keeps x, exists-update_where xs)

module _ {A : Type 0} (p : A → Bool) where
  -- The row that a SELECT finds meets its condition.
  pub find_sound : (x : A) (xs : List A) → find p xs ≡ some x → p x ≡ true
  unfolding find
  find_sound x [] e = cc
  find_sound x (y ∷ ys) e = ground (arith, find_sound x ys)

  pub exists-is_some-find : (xs : List A) → exists p xs ≡ is_some (find p xs)
  unfolding find exists
  exists-is_some-find [] = refl
  exists-is_some-find (x ∷ xs) = ground (arith, exists-is_some-find xs)

pub eq_of_== : (a b : ℕ) → a == b ≡ true → a ≡ b
eq_of_== a b e = ground arith
