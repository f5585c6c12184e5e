-- ===== src/Prelude/Members.antt =====
-- What holds of all rows, and of a row that passes a test.
use Prim.Native.Nat.{◌+◌, ◌≤◌}
use mathlib.Core.Path.{◌≡◌, refl}
use mathlib.Core.Logic.{inl, inr}
use mathlib.Core.Bool.{Bool, true, false, ◌&&◌, ◌||◌}
use mathlib.Core.Option.{some}
use mathlib.Core.List.{List, [], ◌∷◌, ◌++◌, map}
use native.Mathlib.Omega.{arith}
use mitra.Prelude.Tests.{Bool-cases}
use mitra.Prelude.Lists.{length, any, All}
use mitra.Prelude.Rows.{select, find, tally, remove, modify}

module _ {ℓ κ} {A : Type ℓ} (P : A → Type κ) where
  pub All-select : (p : A → Bool) (xs : List A) → All P xs → All P (select p xs)
  unfolding select
  All-select p [] h = tt
  All-select p (x ∷ xs) h = elim (Bool-cases (p x)) [
    | inl hit ↦ rw (hit, select) (h.0, All-select p xs h.1)
    | inr miss ↦ rw (miss, select) (All-select p xs h.1)
  ]

  -- What holds of the rows that pass.
  pub All-selected :
      (p : A → Bool) (xs : List A) → All (λ x. p x ≡ true → P x) xs → All P (select p xs)
  unfolding select
  All-selected p [] h = tt
  All-selected p (x ∷ xs) h = elim (Bool-cases (p x)) [
    | inl hit ↦ rw (hit, select) (h.0 hit, All-selected p xs h.1)
    | inr miss ↦ rw (miss, select) (All-selected p xs h.1)
  ]

  pub All-every : ((x : A) → P x) → (xs : List A) → All P xs
  All-every h [] = tt
  All-every h (x ∷ xs) = (h x, All-every h xs)

  pub All-append : (xs ys : List A) → All P xs → All P ys → All P (xs ++ ys)
  All-append [] ys h k = k
  All-append (x ∷ xs) ys h k = (h.0, All-append xs ys h.1 k)

  pub All-remove : (p : A → Bool) (xs : List A) → All P xs → All P (remove p xs)
  unfolding remove
  All-remove p [] h = tt
  All-remove p (x ∷ xs) h = elim (Bool-cases (p x)) [
    | inl hit ↦ rw (hit, remove) (All-remove p xs h.1)
    | inr miss ↦ rw (miss, remove) (h.0, All-remove p xs h.1)
  ]

  -- A row that passes is one of which `P` holds.
  pub passing_one :
      (p : A → Bool) (xs : List A) → All P xs → any p xs ≡ true → (x : A) × (p x ≡ true) × P x
  passing_one p [] h e = cc
  passing_one p (x ∷ xs) h e = elim (Bool-cases (p x)) [
    | inl hit ↦ (x, hit, h.0)
    | inr miss ↦ passing_one p xs h.1 (ground arith)
  ]

  pub found_one : (p : A → Bool) (xs : List A) (x : A) → All P xs → find p xs ≡ some x → P x
  unfolding find
  found_one p [] x h e = cc
  found_one p (y ∷ xs) x h e = elim (Bool-cases (p y)) [
    | inl hit ↦ let same : y ≡ x = ground arith in rw (← same) h.0
    | inr miss ↦ found_one p xs x h.1 (ground arith)
  ]

module _ {ℓ κ μ} {A : Type ℓ} (P : A → Type κ) (Q : A → Type μ) where
  pub All-weaken : ((x : A) → P x → Q x) → (xs : List A) → All P xs → All Q xs
  All-weaken k [] h = tt
  All-weaken k (x ∷ xs) h = (k x h.0, All-weaken k xs h.1)

  pub All-both : (xs : List A) → All P xs → All Q xs → All (λ x. P x × Q x) xs
  All-both [] h k = tt
  All-both (x ∷ xs) h k = ((h.0, k.0), All-both xs h.1 k.1)

module _ {ℓ κ μ} {A : Type ℓ} {B : Type μ} (P : B → Type κ) (f : A → B) where
  pub All-map : (xs : List A) → All (λ x. P (f x)) xs → All P (map f xs)
  All-map [] h = tt
  All-map (x ∷ xs) h = (h.0, All-map xs h.1)

module _ {ℓ μ} {A : Type ℓ} {B : Type μ} (f : A → B) where
  pub length-map : (xs : List A) → length (map f xs) ≡ length xs
  length-map [] = refl
  length-map (x ∷ xs) = ground (arith, length-map xs)

  pub any-map : (p : B → Bool) (xs : List A) → any p (map f xs) ≡ any (λ x. p (f x)) xs
  any-map p [] = refl
  any-map p (x ∷ xs) = ground (arith, any-map p xs)

module _ {ℓ} {A : Type ℓ} (p : A → Bool) where
  pub select_passes : (xs : List A) → All (λ x. p x ≡ true) (select p xs)
  unfolding select
  select_passes [] = tt
  select_passes (x ∷ xs) = elim (Bool-cases (p x)) [
    | inl hit ↦ rw (hit, select) (hit, select_passes xs)
    | inr miss ↦ rw (miss, select) (select_passes xs)
  ]

  pub any-false-All : (xs : List A) → any p xs ≡ false → All (λ x. p x ≡ false) xs
  any-false-All [] h = tt
  any-false-All (x ∷ xs) h = (ground arith, any-false-All xs (ground arith))

  pub length-select : (xs : List A) → length (select p xs) ≡ tally p xs
  unfolding select tally
  length-select [] = refl
  length-select (x ∷ xs) = ground (arith, length-select xs)

  pub tally-or-le :
      (q r : A → Bool)
      → ((x : A) → p x ≡ true → (q x || r x) ≡ true)
      → (xs : List A) → tally p xs ≤ tally q xs + tally r xs
  unfolding tally
  tally-or-le q r h [] = omega arith
  tally-or-le q r h (x ∷ xs) = ground (arith, h x, tally-or-le q r h xs)

  pub any-append_hit : (xs : List A) (x : A) → p x ≡ true → any p (xs ++ x ∷ []) ≡ true
  any-append_hit [] x h = ground arith
  any-append_hit (y ∷ xs) x h = ground (arith, any-append_hit xs x)

  pub any-append : (xs ys : List A) → any p (xs ++ ys) ≡ (any p xs || any p ys)
  any-append [] ys = refl
  any-append (x ∷ xs) ys = ground (arith, any-append xs ys)

  pub find_appended :
      (xs : List A) (y : A) → any p xs ≡ false → p y ≡ true → find p (xs ++ y ∷ []) ≡ some y
  unfolding find
  find_appended [] y h e = ground arith
  find_appended (x ∷ xs) y h e = ground (arith, find_appended xs y)

  pub any-select : (q : A → Bool) (xs : List A) → any p (select q xs) ≡ any (λ x. q x && p x) xs
  unfolding select
  any-select q [] = refl
  any-select q (x ∷ xs) = ground (arith, any-select q xs)

  pub any-same : (q : A → Bool) → ((x : A) → p x ≡ q x) → (xs : List A) → any p xs ≡ any q xs
  any-same q h [] = refl
  any-same q h (x ∷ xs) = ground (arith, h x, any-same q h xs)

  pub any-none : ((x : A) → p x ≡ false) → (xs : List A) → any p xs ≡ false
  any-none h [] = refl
  any-none h (x ∷ xs) = ground (arith, h x, any-none h xs)

-- A replacement that leaves the test alone.
module _ {ℓ} {A : Type ℓ} (p q : A → Bool) (f : A → A) (same : (x : A) → q (f x) ≡ q x) where
  pub find-modify_within :
      (xs : List A) (x : A) → find q xs ≡ some x → p x ≡ true → find q (modify p f xs) ≡ some (f x)
  unfolding find modify
  find-modify_within [] x e h = cc
  find-modify_within (y ∷ xs) x e h = elim (Bool-cases (q y)) [
    | inl hit ↦
        let y_is_x : y ≡ x = ground arith in
        let hit_x : q x ≡ true = rw (← y_is_x) hit in rw (y_is_x, h, same x, hit_x) refl
    | inr miss ↦ ground (arith, same y, find-modify_within xs x)
  ]

module _ {ℓ κ μ} {A : Type ℓ} (P : A → Type κ) (Q : A → Type μ) (p : A → Bool) (f : A → A) where
  -- What holds after the rows that pass have been replaced.
  pub All-modify :
      ((x : A) → p x ≡ true → P x → Q (f x))
      → ((x : A) → p x ≡ false → P x → Q x)
      → (xs : List A) → All P xs
      → All Q (modify p f xs)
  unfolding modify
  All-modify hit miss [] h = tt
  All-modify hit miss (x ∷ xs) h = elim (Bool-cases (p x)) [
    | inl e ↦ rw (e, modify) (hit x e h.0, All-modify hit miss xs h.1)
    | inr e ↦ rw (e, modify) (miss x e h.0, All-modify hit miss xs h.1)
  ]

-- A replacement that a test does not notice.
module _ {ℓ} {A : Type ℓ} (q : A → Bool) (f : A → A) (p : A → Bool)
    (same : (x : A) → p (f x) ≡ p x) where
  pub tally-modify : (xs : List A) → tally p (modify q f xs) ≡ tally p xs
  unfolding tally modify
  tally-modify [] = refl
  tally-modify (x ∷ xs) = ground (arith, same x, tally-modify xs)

  pub any-modify : (xs : List A) → any p (modify q f xs) ≡ any p xs
  unfolding modify
  any-modify [] = refl
  any-modify (x ∷ xs) = ground (arith, same x, any-modify xs)
