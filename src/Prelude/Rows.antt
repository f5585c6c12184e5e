-- ===== src/Prelude/Rows.antt =====
-- A table as the list of its rows: selection, update and removal of the rows that pass a test.
use mathlib.Core.Logic.{◌⊎◌}
use Prim.Native.Nat.{ℕ, suc, ◌+◌, ◌≤◌}
use mathlib.Core.Path.{◌≡◌, refl}
use mathlib.Core.Bool.{Bool, true, false}
use mathlib.Core.Option
use mathlib.Core.Option.{Option, none, some}
use mathlib.Core.List.{List, [], ◌∷◌, ◌++◌}
use native.Mathlib.Omega.{arith}
use mitra.Prelude.Tests.{if◌then◌else◌}
use mitra.Prelude.Lists.{any}

module _ {ℓ} {A : Type ℓ} where
  -- The first row that passes.
  unfoldable pub find : (A → Bool) → List A → Option A
  find p [] = none
  find p (x ∷ xs) = if p x then some x else find p xs

  -- The rows that pass.
  unfoldable pub select : (A → Bool) → List A → List A
  select p [] = []
  select p (x ∷ xs) = let rest = select p xs in if p x then x ∷ rest else rest

  -- The rows that do not pass.
  unfoldable pub remove : (A → Bool) → List A → List A
  remove p [] = []
  remove p (x ∷ xs) = let rest = remove p xs in if p x then rest else x ∷ rest

  -- Every row that passes is replaced.
  unfoldable pub modify : (A → Bool) → (A → A) → List A → List A
  modify p f [] = []
  modify p f (x ∷ xs) = (if p x then f x else x) ∷ modify p f xs

  -- How many rows pass.
  unfoldable pub tally : (A → Bool) → List A → ℕ
  tally p [] = 0
  tally p (x ∷ xs) = let rest = tally p xs in if p x then suc rest else rest

module _ {ℓ} {A : Type ℓ} (p : A → Bool) (f : A → A)
    (keeps : (x : A) → p x ≡ true → p (f x) ≡ true) where
  pub find-modify : (xs : List A) → find p (modify p f xs) ≡ Option.map f (find p xs)
  unfolding find modify
  find-modify [] = refl
  find-modify (x ∷ xs) = ground (arith, keeps x, find-modify xs)

  pub modify-modify :
      (g : A → A) (xs : List A) → modify p g (modify p f xs) ≡ modify p (λ x. g (f x)) xs
  unfolding modify
  modify-modify g [] = refl
  modify-modify g (x ∷ xs) = ground (arith, keeps x, modify-modify g xs)

module _ {ℓ} {A : Type ℓ} (p q : A → Bool) (f : A → A)
    (apart : (x : A) → p x ≡ true → (q x ≡ false) × (q (f x) ≡ false)) where
  pub find-modify_ne : (xs : List A) → find q (modify p f xs) ≡ find q xs
  unfolding find modify
  find-modify_ne [] = refl
  find-modify_ne (x ∷ xs) = ground (arith, apart x, find-modify_ne xs)

module _ {ℓ} {A : Type ℓ} (p : A → Bool) where
  -- A row that is found passes.
  pub find_passes : (xs : List A) (x : A) → find p xs ≡ some x → p x ≡ true
  unfolding find
  find_passes [] x e = cc
  find_passes (y ∷ xs) x e = ground (arith, find_passes xs x)

  pub find-append :
      (xs ys : List A) → find p (xs ++ ys) ≡ elim (find p xs) [ none ↦ find p ys | some x ↦ some x ]
  unfolding find
  find-append [] ys = refl
  find-append (x ∷ xs) ys = ground (arith, find-append xs ys)

  pub find-none_of_any : (xs : List A) → any p xs ≡ false → find p xs ≡ none
  unfolding find
  find-none_of_any [] h = refl
  find-none_of_any (x ∷ xs) h = ground (arith, find-none_of_any xs)

  pub tally-append : (xs ys : List A) → tally p (xs ++ ys) ≡ tally p xs + tally p ys
  unfolding tally
  tally-append [] ys = omega arith
  tally-append (x ∷ xs) ys = ground (arith, tally-append xs ys)

  pub found_appended :
      (xs : List A) (y x : A) → find p (xs ++ y ∷ []) ≡ some x → (find p xs ≡ some x) ⊎ (y ≡ x)
  unfolding find
  found_appended [] y x e = ground arith
  found_appended (z ∷ xs) y x e = ground (arith, found_appended xs y x)

  pub tally-zero_of_any : (xs : List A) → any p xs ≡ false → tally p xs ≡ 0
  unfolding tally
  tally-zero_of_any [] h = refl
  tally-zero_of_any (x ∷ xs) h = ground (arith, tally-zero_of_any xs)

  pub any-zero_of_tally : (xs : List A) → tally p xs ≡ 0 → any p xs ≡ false
  unfolding tally
  any-zero_of_tally [] h = refl
  any-zero_of_tally (x ∷ xs) h = ground (arith, any-zero_of_tally xs)

module _ {ℓ} {A : Type ℓ} (p q : A → Bool) where
  -- What is removed of the rows that pass `p`, where all removed rows pass it.
  pub tally-remove :
      (inside : (x : A) → q x ≡ true → p x ≡ true) (xs : List A)
      → tally p (remove q xs) + tally q xs ≡ tally p xs
  unfolding tally remove
  tally-remove inside [] = refl
  tally-remove inside (x ∷ xs) = ground (arith, inside x, tally-remove inside xs)

  -- Where no removed row passes `p`, nothing changes.
  pub tally-remove_disjoint :
      (outside : (x : A) → q x ≡ true → p x ≡ false) (xs : List A)
      → tally p (remove q xs) ≡ tally p xs
  unfolding tally remove
  tally-remove_disjoint outside [] = refl
  tally-remove_disjoint outside (x ∷ xs) =
      ground (arith, outside x, tally-remove_disjoint outside xs)

  pub tally-remove-le : (xs : List A) → tally p (remove q xs) ≤ tally p xs
  unfolding tally remove
  tally-remove-le [] = omega arith
  tally-remove-le (x ∷ xs) = ground (arith, tally-remove-le xs)

module _ {ℓ} {A : Type ℓ} (q : A → Bool) where
  -- Where no row passes, none is removed.
  pub remove-none : (xs : List A) → tally q xs ≡ 0 → remove q xs ≡ xs
  unfolding tally remove
  remove-none [] h = refl
  remove-none (x ∷ xs) h = ground (arith, remove-none xs)
