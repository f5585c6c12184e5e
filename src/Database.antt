-- ===== src/Database.antt =====
-- mitra_models/src/database: the errors of a query, queries as actions on the stored tables, and
-- transactions.
pub mod Triples
use mitra.Prelude.{Bool, true, false, Option, none, some, String}

-- `DatabaseError`. What the driver reports inside an error is left out.
pub data DatabaseError : Type 0 where
  pool_error query_error client_error type_error : DatabaseError
  not_found already_exists : String → DatabaseError

-- What a call ends in: a value, an error that `?` passes on, or a panic.
pub data Result {ℓ} (A : Type ℓ) : Type ℓ where
  ok : A → Result A
  err : DatabaseError → Result A
  panicked : String → Result A

-- A call that reads and changes the stored state `S`.
abbrev pub Query {ℓ} : Type ℓ → Type ℓ → Type ℓ
Query S A = S → Result A × S

module _ {ℓ} {A : Type ℓ} where
  abbrev pub ok_or : DatabaseError → Option A → Result A
  ok_or e none = err e
  ok_or e (some a) = ok a

module _ {ℓ} {S A : Type ℓ} where
  abbrev pub pure : A → Query S A
  pure a s = (ok a, s)

  abbrev pub throw : DatabaseError → Query S A
  throw e s = (err e, s)

  abbrev pub lift : Result A → Query S A
  lift r s = (r, s)

  abbrev pub gets : (S → A) → Query S A
  gets f s = (ok (f s), s)

  abbrev pub settle : Result A → S → S → Result A × S
  settle (ok a) before after = (ok a, after)
  settle (err e) before after = (err e, before)
  settle (panicked m) before after = (panicked m, before)

  -- `transaction()` up to its `commit()`: what does not end well is rolled back.
  unfoldable pub transaction : Query S A → Query S A
  transaction m s = let (r, s') = m s in settle r s s'

module _ {ℓ} {S A B : Type ℓ} where
  abbrev pub continue : Result A → (A → Query S B) → Query S B
  continue (ok a) f s = f a s
  continue (err e) f s = (err e, s)
  continue (panicked m) f s = (panicked m, s)

  infixl 10 ◌>>=◌ ◌>>◌
  -- An `.await?` and what follows it.
  unfoldable pub ◌>>=◌ : Query S A → (A → Query S B) → Query S B
  ◌>>=◌ m f s = let (r, s') = m s in continue r f s'

  abbrev pub ◌>>◌ : Query S A → Query S B → Query S B
  m >> n = m >>= λ _. n

-- An early `return Err(e)` unless the test passes.
abbrev pub ensure : {S : Type 0} → Bool → DatabaseError → Query S (Unit {0})
ensure true e s = (ok tt, s)
ensure false e s = (err e, s)
