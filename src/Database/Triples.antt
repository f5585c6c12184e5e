-- ===== src/Database/Triples.antt =====
-- Reasoning about a query step by step: what it ensures if it returns a value. An error or a panic
-- is of no interest inside a transaction, which is then rolled back.
use mitra.Prelude.{◌≡◌}
use mitra.Database.{
  DatabaseError, Query, Result, ok, err, panicked, transaction, continue, ◌>>=◌, settle,
}

module _ {S A : Type 0} where
  abbrev pub Ensures : (A → S → Type 0) → Result A × S → Type 0
  Ensures Q (ok a, s) = Q a s
  Ensures Q (err e, s) = Unit
  Ensures Q (panicked m, s) = Unit

module _ {S A B : Type 0} (R : A → S → Type 0) (Q : B → S → Type 0) (f : A → Query S B) where
  Ensures-continue :
      (r : Result A) (s : S)
      → Ensures R (r, s)
      → ((a : A) (s' : S) → R a s' → Ensures Q (f a s'))
      → Ensures Q (continue r f s)
  Ensures-continue (ok a) s h k = k a s h
  Ensures-continue (err e) s h k = tt
  Ensures-continue (panicked m) s h k = tt

  pub Ensures-bind :
      (m : Query S A) (s : S)
      → Ensures R (m s)
      → ((a : A) (s' : S) → R a s' → Ensures Q (f a s'))
      → Ensures Q ((m >>= f) s)
  unfolding ◌>>=◌
  Ensures-bind m s h k = let (r, s') = m s in Ensures-continue r s' h k

module _ {S A : Type 0} (I : S → Type 0) where
  settle-keeps :
      (r : Result A) (s s' : S) → I s → Ensures (λ _ x. I x) (r, s') → I (settle r s s').1
  settle-keeps (ok a) s s' h k = k
  settle-keeps (err e) s s' h k = h
  settle-keeps (panicked m) s s' h k = h

  -- A transaction keeps what its body ensures whenever it returns.
  pub transaction-keeps :
      (m : Query S A) (s : S) → I s → Ensures (λ _ x. I x) (m s) → I (transaction m s).1
  unfolding transaction
  transaction-keeps m s h k = let (r, s') = m s in settle-keeps r s s' h k

module _ {S A : Type 0} (Q : A → S → Type 0) where
  settle-Ensures : (r : Result A) (s s' : S) → Ensures Q (r, s') → Ensures Q (settle r s s')
  settle-Ensures (ok a) s s' k = k
  settle-Ensures (err e) s s' k = tt
  settle-Ensures (panicked m) s s' k = tt

  pub Ensures-transaction : (m : Query S A) (s : S) → Ensures Q (m s) → Ensures Q (transaction m s)
  unfolding transaction
  Ensures-transaction m s k = let (r, s') = m s in settle-Ensures r s s' k

module _ {S A : Type 0} (Q R : A → S → Type 0) where
  pub Ensures-weaken :
      (x : Result A × S) → ((a : A) (s : S) → Q a s → R a s) → Ensures Q x → Ensures R x
  Ensures-weaken (ok a, s) k h = k a s h
  Ensures-weaken (err e, s) k h = tt
  Ensures-weaken (panicked m, s) k h = tt

module _ {A : Type 0} where
  -- A result that returns one value returns no other.
  pub returned : (a b : A) → ok a ≡ ok b → a ≡ b
  returned a b e = cc

module _ {S A C : Type 0} where
  -- A query that fails does not return a value.
  pub refuted :
      (e : DatabaseError) (a : A) (s s' : S) → ◌≡◌ {A = Result A × S} (err e, s) (ok a, s') → C
  refuted e a s s' q = cc
