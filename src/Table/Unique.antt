-- ===== src/Table/Unique.antt =====
-- The UNIQUE constraints and primary keys of the tables (internal/db/migrations): no two rows that a test
-- takes for the same.
use an.Prelude.{
  ◌≡◌, refl, Option, none, some, Bool, true, false, not, ◌&&◌, List, [], ◌∷◌, arith, ◌=ℕ=◌,
  if◌then◌else◌,
}
use an.Table.{count, any, update, delete, find}

module _ {ℓ} {A : Type ℓ} (same : A → A → Bool) where
  unfoldable pub unique : List A → Bool
  unfolding any
  unique [] = true
  unique (x ∷ xs) = not (any (same x) xs) && unique xs

  any-delete :
      (x : A) (p : A → Bool) (xs : List A)
      → any (same x) xs ≡ false
      → any (same x) (delete p xs) ≡ false
  unfolding any delete
  any-delete x p [] h = refl
  any-delete x p (y ∷ xs) h = ground (arith, any-delete x p xs)

  pub unique-delete : (p : A → Bool) (xs : List A) → unique xs ≡ true → unique (delete p xs) ≡ true
  unfolding unique delete
  unique-delete p [] h = refl
  unique-delete p (x ∷ xs) h = ground (arith, unique-delete p xs, any-delete x p xs)

  pub unique-insert :
      (x : A) (xs : List A) → any (same x) xs ≡ false → unique xs ≡ true → unique (x ∷ xs) ≡ true
  unfolding unique
  unique-insert x xs h k = ground arith

  -- A change that leaves the key alone
  module _ (f : A → A) (left : (x y : A) → same (f x) y ≡ same x y)
      (right : (x y : A) → same x (f y) ≡ same x y) where
    any-update :
        (x : A) (p : A → Bool) (xs : List A) → any (same x) (update p f xs) ≡ any (same x) xs
    unfolding any update
    any-update x p [] = refl
    any-update x p (y ∷ xs) = ground (arith, any-update x p xs, right x y)

    any-changed : (x : A) (xs : List A) → any (same (f x)) xs ≡ any (same x) xs
    unfolding any
    any-changed x [] = refl
    any-changed x (y ∷ xs) = ground (arith, any-changed x xs, left x y)

    pub unique-update :
        (p : A → Bool) (xs : List A) → unique xs ≡ true → unique (update p f xs) ≡ true
    unfolding unique update
    unique-update p [] h = refl
    unique-update p (x ∷ xs) h =
        ground
          (arith, unique-update p xs, any-update x p xs, any-update (f x) p xs, any-changed x xs)

-- What a DELETE leaves of the row that is found
unfoldable pub unless {ℓ} : {A : Type ℓ} → (A → Bool) → Option A → Option A
unless p none = none
unless p (some x) = if p x then none else some x

module _ {ℓ} {A : Type ℓ} (same : A → A → Bool) (p q : A → Bool)
    (key : (x y : A) → q x ≡ true → q y ≡ true → same x y ≡ true) where
  -- No second row meets the test of a key.
  find-none :
      (x : A) (xs : List A) → q x ≡ true → any (same x) xs ≡ false → find q (delete p xs) ≡ none
  unfolding any find delete
  find-none x [] h k = refl
  find-none x (y ∷ xs) h k = ground (arith, find-none x xs, key x y)

  pub find-delete-unique :
      (xs : List A) → unique same xs ≡ true → find q (delete p xs) ≡ unless p (find q xs)
  unfolding unique find delete unless
  find-delete-unique [] h = refl
  find-delete-unique (x ∷ xs) h = ground (arith, find-delete-unique xs, find-none x xs)

-- Does the row that is found meet a test
unfoldable pub meets {ℓ} : {A : Type ℓ} → (A → Bool) → Option A → Bool
meets p none = false
meets p (some x) = p x

module _ {ℓ} {A : Type ℓ} (same : A → A → Bool) (p q : A → Bool)
    (key : (x y : A) → q x ≡ true → q y ≡ true → same x y ≡ true)
    (narrow : (x : A) → p x ≡ true → q x ≡ true) where
  -- At most one row meets a narrower test.
  count-none : (x : A) (xs : List A) → q x ≡ true → any (same x) xs ≡ false → count p xs ≡ 0
  unfolding any count
  count-none x [] h k = refl
  count-none x (y ∷ xs) h k = ground (arith, count-none x xs, key x y, narrow y)

  pub count-find : (xs : List A) → unique same xs ≡ true → (count p xs =ℕ= 1) ≡ meets p (find q xs)
  unfolding unique find count meets
  count-find [] h = refl
  count-find (x ∷ xs) h = ground (arith, count-find xs, count-none x xs, narrow x)

-- A test that no row meets
module _ {ℓ} {A : Type ℓ} (p q : A → Bool) where
  pub any-none :
      ((x : A) → p x ≡ true → q x ≡ true) → (xs : List A) → find q xs ≡ none → any p xs ≡ false
  unfolding any find
  any-none narrow [] h = refl
  any-none narrow (x ∷ xs) h = ground (arith, any-none narrow xs, narrow x)

-- What an UPDATE that keeps a test does to the row that is found by it
unfoldable pub changed {ℓ} : {A : Type ℓ} → (A → Bool) → (A → A) → Option A → Option A
changed p f none = none
changed p f (some x) = some (if p x then f x else x)

module _ {ℓ} {A : Type ℓ} (p q : A → Bool) (f : A → A) (keeps : (x : A) → q (f x) ≡ q x) where
  pub find-update : (xs : List A) → find q (update p f xs) ≡ changed p f (find q xs)
  unfolding find update changed
  find-update [] = refl
  find-update (x ∷ xs) = ground (arith, find-update xs, keeps x)
