-- ===== src/Table/Laws.antt =====
-- How the statements act on each other. A test is a function, and the lemmas say which facts about
-- it they need: that a change keeps it, or that two tests exclude each other.
use an.Prelude.{◌=ℕ=◌, ◌≡◌, ◌≢◌, refl, Bool, true, false, not, none, some, List, [], ◌∷◌, arith}
use an.Table.{find, any, select, update, delete, count}

module _ {ℓ} {A : Type ℓ} (p : A → Bool) where
  pub find-delete_self : (xs : List A) → find p (delete p xs) ≡ none
  unfolding find delete
  find-delete_self [] = refl
  find-delete_self (x ∷ xs) = ground (arith, find-delete_self xs)

  pub any-delete_self : (xs : List A) → any p (delete p xs) ≡ false
  unfolding any delete
  any-delete_self [] = refl
  any-delete_self (x ∷ xs) = ground (arith, any-delete_self xs)

  pub any-find : (xs : List A) → any p xs ≡ true → find p xs ≢ none
  unfolding any find
  any-find [] h = cc
  any-find (x ∷ xs) h = ground (arith, any-find xs)

  pub find-any-false : (xs : List A) → any p xs ≡ false → find p xs ≡ none
  unfolding any find
  find-any-false [] h = refl
  find-any-false (x ∷ xs) h = ground (arith, find-any-false xs)

  pub any-find-some : (xs : List A) {x : A} → find p xs ≡ some x → any p xs ≡ true
  unfolding any find
  any-find-some [] h = cc
  any-find-some (y ∷ xs) {x} h = ground (arith, any-find-some xs {x = x})

  -- What is found meets the test.
  pub find_sound : (xs : List A) {x : A} → find p xs ≡ some x → p x ≡ true
  unfolding find
  find_sound [] h = cc
  find_sound (y ∷ xs) {x} h = ground (arith, find_sound xs {x = x})

  -- RowsAffected is 0 when there is no such row.
  pub count-any : (xs : List A) → (count p xs =ℕ= 0) ≡ not (any p xs)
  unfolding any count
  count-any [] = refl
  count-any (x ∷ xs) = ground (arith, count-any xs)

  pub delete_none : (xs : List A) → any p xs ≡ false → delete p xs ≡ xs
  unfolding any delete
  delete_none [] h = refl
  delete_none (x ∷ xs) h = ground (arith, delete_none xs)

  -- A change that keeps the test changes the row that is found.
  pub find-update_self :
      (f : A → A) (xs : List A) {x : A}
      → p (f x) ≡ true
      → find p xs ≡ some x
      → find p (update p f xs) ≡ some (f x)
  unfolding find update
  find-update_self f [] k h = cc
  find-update_self f (y ∷ xs) {x} k h = ground (arith, find-update_self f xs {x = x} k)

module _ {ℓ} {A : Type ℓ} (p q : A → Bool) where
  -- Rows that `p` selects are not those that `q` selects.
  pub find-delete_other :
      ((x : A) → p x ≡ true → q x ≡ false) → (xs : List A) → find q (delete p xs) ≡ find q xs
  unfolding find delete
  find-delete_other apart [] = refl
  find-delete_other apart (x ∷ xs) = ground (arith, find-delete_other apart xs, apart x)

  pub find-update_other :
      (f : A → A)
      → ((x : A) → p x ≡ true → q x ≡ false)
      → ((x : A) → p x ≡ true → q (f x) ≡ false)
      → (xs : List A) → find q (update p f xs) ≡ find q xs
  unfolding find update
  find-update_other f apart still [] = refl
  find-update_other f apart still (x ∷ xs) =
      ground (arith, find-update_other f apart still xs, apart x, still x)

  pub select-delete_other :
      ((x : A) → p x ≡ true → q x ≡ false) → (xs : List A) → select q (delete p xs) ≡ select q xs
  unfolding select delete
  select-delete_other apart [] = refl
  select-delete_other apart (x ∷ xs) = ground (arith, select-delete_other apart xs, apart x)

  pub select-update_other :
      (f : A → A)
      → ((x : A) → p x ≡ true → q x ≡ false)
      → ((x : A) → p x ≡ true → q (f x) ≡ false)
      → (xs : List A) → select q (update p f xs) ≡ select q xs
  unfolding select update
  select-update_other f apart still [] = refl
  select-update_other f apart still (x ∷ xs) =
      ground (arith, select-update_other f apart still xs, apart x, still x)

  -- No row of a narrower test is left after a delete by a wider one.
  pub find-delete_narrow :
      ((x : A) → q x ≡ true → p x ≡ true) → (xs : List A) → find q (delete p xs) ≡ none
  unfolding find delete
  find-delete_narrow narrow [] = refl
  find-delete_narrow narrow (x ∷ xs) = ground (arith, find-delete_narrow narrow xs, narrow x)
