-- ===== src/Prelude/Keyed.antt =====
-- Rows with a numeric key: what a lookup finds after one key's rows have been replaced.
use Prim.Native.Nat.{ℕ}
use mathlib.Core.Path.{◌≡◌, refl, sym, ◌∙◌}
use mathlib.Core.Logic.{◌⊎◌, inl, inr}
use mathlib.Core.Bool.{Bool, false}
use mathlib.Core.Option
use mathlib.Core.Option.{Option, none, some}
use mathlib.Core.List.{List}
use native.Mathlib.Omega.{arith}
use mitra.Prelude.Tests.{◌==◌, ==_iff, Bool-cases}
use mitra.Prelude.Rows.{find, modify, find-modify, find-modify_ne}

module _ {ℓ} {A : Type ℓ} (key : A → ℕ) where
  abbrev pub has_key : ℕ → A → Bool
  has_key k x = key x == k

  module _ (f : A → A) (keeps : (x : A) → key (f x) ≡ key x) (rows : List A) (id : ℕ) where
    mapped_some :
        (o : Option A) (j : A) → Option.map f o ≡ some j → (x : A) × (o ≡ some x) × (f x ≡ j)
    mapped_some none j e = cc
    mapped_some (some x) j e = (x, refl, cc)

    found_same :
        (j : A)
        → find (has_key id) (modify (has_key id) f rows) ≡ some j
        → (x : A) × (find (has_key id) rows ≡ some x) × (f x ≡ j)
    found_same j e =
        mapped_some (find (has_key id) rows) j
          (sym (find-modify (has_key id) f (λ x h. rw (keeps x) h) rows) ∙ e)

    pub found_other :
        (k : ℕ)
        → (id == k) ≡ false
        → find (has_key k) (modify (has_key id) f rows) ≡ find (has_key k) rows
    found_other k other =
        find-modify_ne (has_key id) (has_key k) f (λ x h. (ground arith, ground (arith, keeps x)))
          rows

    -- A row found after the replacement is a replaced one, or was there before.
    pub found_after :
        (k : ℕ) (j : A)
        → find (has_key k) (modify (has_key id) f rows) ≡ some j
        → ((k ≡ id) × ((x : A) × (find (has_key id) rows ≡ some x) × (f x ≡ j)))
          ⊎ (((k == id) ≡ false) × (find (has_key k) rows ≡ some j))
    found_after k j e = elim (Bool-cases (id == k)) [
      | inl same ↦ let q = (==_iff id k).0 same in inl (sym q, found_same j (rw (sym q) at e))
      | inr other ↦ inr (ground arith, sym (found_other k other) ∙ e)
    ]
