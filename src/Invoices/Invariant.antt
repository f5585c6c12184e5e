-- ===== src/Invoices/Invariant.antt =====
-- The stored invoices after the steps of `Spec` and after an invoice is created.
use mitra.Prelude.Int.{ℤ, to_i64}
use mitra.Invoices.Soundness.{IsSound}
use mitra.Chain.{ChainId, is_monero}
use mathlib.Core.Path.{subst}
use mitra.Prelude.{
  ℕ, ◌≡◌, refl, inl, inr, some, false, List, arith, find, find-modify, find-modify_ne, modify,
  Option-cases, Bool-cases, ◌==◌, ==_iff, sym, ◌∙◌, ◌++◌, ◌∷◌, [], found_appended, true, ◌⊎◌,
  String, ◌&&◌, not, none, Option, Bool,
}
use mitra.Database.{Result, ok, err, panicked, ◌>>=◌}
use mitra.Invoices.Types.{Invoice, check_consistency, is_local, PaymentType}
use mitra.Invoices.Queries.{
  by_id, insert_invoice, new_local, new_remote, create_local_invoice, create_remote_invoice,
}
use mitra.Invoices.Spec.{replace, change}
use mitra.Schema.{Tables, is_account}

-- `P` holds of each invoice that can be loaded by its identifier.
abbrev pub Loaded : (Invoice → Type 0) → Tables → Type 0
Loaded P t = (k : ℕ) (i : Invoice) → find (by_id k) t.invoice ≡ some i → P i

module _ (id : ℕ) (f : Invoice → Invoice) (keeps : (x : Invoice) → (f x).id ≡ x.id)
    (rows : List Invoice) where
  -- The row that is written is the one that a later query finds.
  found_modified :
      (i : Invoice)
      → find (by_id id) rows ≡ some i
      → find (by_id id) (modify (by_id id) f rows) ≡ some (f i)
  found_modified i found = rw (find-modify (by_id id) f (λ x h. rw (keeps x) h) rows, found)

  -- The other rows are as they were.
  found_other :
      (k : ℕ) → (id == k) ≡ false → find (by_id k) (modify (by_id id) f rows) ≡ find (by_id k) rows
  found_other k other =
      find-modify_ne (by_id id) (by_id k) f (λ x h. (ground arith, ground (arith, keeps x))) rows

module _ (P : Invoice → Type 0) (id : ℕ) (f : Invoice → Invoice)
    (keeps : (x : Invoice) → (f x).id ≡ x.id) (t : Tables) (h : Loaded P t) where
  Loaded-modify :
      (i : Invoice)
      → find (by_id id) t.invoice ≡ some i
      → P (f i)
      → Loaded P (record t { invoice = modify (by_id id) f t.invoice })
  Loaded-modify i found p k j e = elim (Bool-cases (id == k)) [
    | inl same ↦
        let e' = rw (sym ((==_iff id k).0 same)) at e in
        let same_row : f i ≡ j = cc (found_modified id f keeps t.invoice i found, e') in
        subst P same_row p
    | inr other ↦ h k j (sym (found_other id f keeps t.invoice k other) ∙ e)
  ]

  Loaded-replace :
      (i : Invoice)
      → find (by_id id) t.invoice ≡ some i
      → (r : Result Invoice) → ((u : Invoice) → r ≡ ok u → P (f i))
      → Loaded P (replace id f t r).1
  Loaded-replace i found (ok u) p = Loaded-modify i found (p u refl)
  Loaded-replace i found (err e) p = h
  Loaded-replace i found (panicked m) p = h

  pub Loaded-change :
      (step : Invoice → Result Invoice)
      → ((i u : Invoice) → P i → step i ≡ ok u → P (f i))
      → Loaded P (change id f step t).1
  unfolding change
  Loaded-change step p = elim (Option-cases (find (by_id id) t.invoice)) [
    | inl missing ↦ rw (missing, change) h
    | inr (i, found) ↦
        rw (found, change) (Loaded-replace i found (step i) (λ u e. p i u (h id i found) e))
  ]

-- A refused row leaves the table alone, and an accepted one is added at its end.
insert_outcome :
    (new : Invoice) (t : Tables)
    → ((insert_invoice new t).1.invoice ≡ t.invoice)
      ⊎ ((insert_invoice new t).1.invoice ≡ t.invoice ++ new ∷ [])
unfolding insert_invoice
insert_outcome new t = ground arith

module _ (P : Invoice → Type 0) (new : Invoice) (p : P new) (t : Tables) (h : Loaded P t) where
  Loaded-insert : Loaded P (insert_invoice new t).1
  Loaded-insert k i e = elim (insert_outcome new t) [
    | inl same ↦ h k i (rw same at e)
    | inr longer ↦ elim (found_appended (by_id k) t.invoice new i (rw longer at e)) [
      | inl old ↦ h k i old
      | inr new_row ↦ subst P new_row p
    ]
  ]

-- Every invoice that can be loaded is sound.
abbrev pub AllSound : Tables → Type 0
AllSound = Loaded IsSound

new_local-IsSound :
    (id sender recipient : ℕ) (type : PaymentType) (chain : ChainId) (address : String) (amount : ℤ)
    (now : ℕ)
    → is_monero chain ≡ true
    → IsSound (new_local id sender recipient type chain address amount now)
unfolding check_consistency is_local
new_local-IsSound id sender recipient type chain address amount now m = record {
  consistent = ground arith;
  settled = refl;
}

new_remote-IsSound :
    (id sender recipient : ℕ) (chain : ChainId) (amount : ℤ) (now : ℕ)
    → IsSound (new_remote id sender recipient chain amount now)
unfolding check_consistency is_local
new_remote-IsSound id sender recipient chain amount now = record {
  consistent = refl;
  settled = refl;
}

module _ (id sender recipient : ℕ) (chain : ChainId) (amount : ℕ) (t : Tables)
    (h : AllSound t) where
  create_local-AllSound_by :
      (type : PaymentType) (address : String)
      → is_monero chain ≡ true
      → (o : Option ℤ) → to_i64 amount ≡ o
      → (b : Bool) → is_account t recipient ≡ b
      → AllSound (create_local_invoice id sender recipient type chain address amount t).1
  unfolding create_local_invoice
  create_local-AllSound_by type address m none e b account = rw (e, create_local_invoice, ◌>>=◌) h
  create_local-AllSound_by type address m (some a) e false account =
      rw (e, create_local_invoice, ◌>>=◌, account) h
  create_local-AllSound_by type address m (some a) e true account =
      rw (e, create_local_invoice, ◌>>=◌, account)
        (Loaded-insert IsSound _
          (new_local-IsSound id sender recipient type chain address a t.clock m) t h)

  pub create_local_invoice-AllSound :
      (type : PaymentType) (address : String)
      → is_monero chain ≡ true
      → AllSound (create_local_invoice id sender recipient type chain address amount t).1
  create_local_invoice-AllSound type address m =
      create_local-AllSound_by type address m _ refl _ refl

  create_remote-AllSound_by :
      (o : Option ℤ)
      → to_i64 amount ≡ o
      → (b : Bool) → (is_account t sender && not (is_account t recipient)) ≡ b
      → AllSound (create_remote_invoice id sender recipient chain amount t).1
  unfolding create_remote_invoice
  create_remote-AllSound_by none e b account = rw (e, create_remote_invoice, ◌>>=◌) h
  create_remote-AllSound_by (some a) e false account =
      rw (e, create_remote_invoice, ◌>>=◌, account) h
  create_remote-AllSound_by (some a) e true account =
      rw (e, create_remote_invoice, ◌>>=◌, account)
        (Loaded-insert IsSound _ (new_remote-IsSound id sender recipient chain a t.clock) t h)

  pub create_remote_invoice-AllSound :
      AllSound (create_remote_invoice id sender recipient chain amount t).1
  create_remote_invoice-AllSound = create_remote-AllSound_by _ refl _ refl
