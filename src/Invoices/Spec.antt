-- ===== src/Invoices/Spec.antt =====
-- What a change of an invoice amounts to: one step of a machine on one row, and a table in which
-- that row alone is replaced.
use mitra.Prelude.{
  ℕ, String, none, some, Bool, true, false, ◌≡◌, refl, if◌then◌else◌, find, modify, Option-cases,
  inl, inr, ◌⊎◌, find-modify, modify-modify,
}
use mitra.Database.{
  ◌>>=◌, Query, Result, ok, err, panicked, type_error, client_error, DatabaseError, not_found, ◌>>◌,
  transaction,
}
use mitra.Invoices.Types.{Invoice, InvoiceStatus, can_change_status, check_consistency}
use mitra.Invoices.Queries.{by_id, update_invoice, passes_checks, with_status, set_invoice_status}
use mitra.Schema.{Tables}

decide_change : Result Bool → Result (Unit {0}) → Invoice → Result Invoice
decide_change (ok false) checked u = err type_error
decide_change (ok true) (ok _) u = if passes_checks u then ok u else err client_error
decide_change (ok true) (err e) u = if passes_checks u then err e else err client_error
decide_change (ok true) (panicked m) u = if passes_checks u then panicked m else err client_error
decide_change (err e) checked u = err e
decide_change (panicked m) checked u = panicked m

-- The row after its status is set, or why it is refused.
unfoldable pub advance : InvoiceStatus → ℕ → Invoice → Result Invoice
unfolding decide_change
advance status now i =
    decide_change (can_change_status i status) (check_consistency (with_status status now i))
      (with_status status now i)

-- The same after `f` has written other columns.
unfoldable pub attempt : (Invoice → Invoice) → InvoiceStatus → ℕ → Invoice → Result Invoice
attempt f status now i = if passes_checks (f i) then advance status now (f i) else err client_error

abbrev pub replace : ℕ → (Invoice → Invoice) → Tables → Result Invoice → Result Invoice × Tables
replace id f t (ok u) = (ok u, record t { invoice = modify (by_id id) f t.invoice })
replace id f t (err e) = (err e, t)
replace id f t (panicked m) = (panicked m, t)

-- The whole query: the row is looked up, the step decides, and that row alone is replaced.
unfoldable pub change : ℕ → (Invoice → Invoice) → (Invoice → Result Invoice) → Query Tables Invoice
change id f step t = elim (find (by_id id) t.invoice) [
  | none ↦ (err (not_found "invoice"), t)
  | some i ↦ replace id f t (step i)
]

Result-cases {ℓ} :
    {A : Type ℓ} (r : Result A)
    → ((a : A) × (r ≡ ok a))
      ⊎ (((e : DatabaseError) × (r ≡ err e)) ⊎ ((m : String) × (r ≡ panicked m)))
Result-cases (ok a) = inl (a, refl)
Result-cases (err e) = inr (inl (e, refl))
Result-cases (panicked m) = inr (inr (m, refl))

module _ (id : ℕ) (status : InvoiceStatus) (t : Tables) (i : Invoice)
    (found : find (by_id id) t.invoice ≡ some i) where
  set_status_found :
      (r : Result Bool)
      → can_change_status i status ≡ r
      → (b : Bool) → passes_checks i ≡ b
      → (c : Result (Unit {0})) → check_consistency (with_status status t.clock i) ≡ c
      → set_invoice_status id status t
        ≡ replace id
            (with_status status t.clock)
            t
            (decide_change r c (with_status status t.clock i))
  unfolding set_invoice_status decide_change
  set_status_found (ok false) e b p c k = rw (found, e)
  set_status_found (ok true) e false p (ok _) k = rw (found, e, ◌>>=◌, update_invoice, found, p)
  set_status_found (ok true) e false p (err _) k = rw (found, e, ◌>>=◌, update_invoice, found, p)
  set_status_found (ok true) e false p (panicked _) k =
      rw (found, e, ◌>>=◌, update_invoice, found, p)
  set_status_found (ok true) e true p (ok _) k = rw (found, e, ◌>>=◌, update_invoice, found, p, k)
  set_status_found (ok true) e true p (err _) k = rw (found, e, ◌>>=◌, update_invoice, found, p, k)
  set_status_found (ok true) e true p (panicked _) k =
      rw (found, e, ◌>>=◌, update_invoice, found, p, k)
  set_status_found (err x) e b p c k = rw (found, e)
  set_status_found (panicked m) e b p c k = rw (found, e)

set_status_missing :
    (id : ℕ) (status : InvoiceStatus) (t : Tables)
    → find (by_id id) t.invoice ≡ none
    → set_invoice_status id status t ≡ (err (not_found "invoice"), t)
unfolding set_invoice_status
set_status_missing id status t missing = rw missing

-- `set_invoice_status` is the step `advance` on the row.
pub set_invoice_status-refines :
    (id : ℕ) (status : InvoiceStatus) (t : Tables)
    → set_invoice_status id status t
      ≡ change id (with_status status t.clock) (advance status t.clock) t
unfolding change advance
set_invoice_status-refines id status t = elim (Option-cases (find (by_id id) t.invoice)) [
  | inl missing ↦ rw (missing, change) (set_status_missing id status t missing)
  | inr (i, found) ↦
      rw (found, change, advance) (set_status_found id status t i found _ refl _ refl _ refl)
]

-- A row written by `f`, then given a status, in one transaction.
module _ (id : ℕ) (f : Invoice → Invoice) (keeps : (x : Invoice) → (f x).id ≡ x.id)
    (status : InvoiceStatus) (t : Tables) where
  pub keeps_by_id : (x : Invoice) → by_id id x ≡ true → by_id id (f x) ≡ true
  keeps_by_id x h = rw (keeps x) h

  abbrev pub written : Tables
  written = record t { invoice = modify (by_id id) f t.invoice }

  pub status_written :
      (i : Invoice)
      → find (by_id id) t.invoice ≡ some i
      → (r : Result Invoice) → advance status t.clock (f i) ≡ r
      → set_invoice_status id status written ≡ replace id (with_status status t.clock) written r
  unfolding change
  status_written i found r e =
      rw
        (
          set_invoice_status-refines,
          change,
          find-modify (by_id id) f keeps_by_id t.invoice,
          found,
          e,
        )
        refl

  write_found :
      (i : Invoice)
      → find (by_id id) t.invoice ≡ some i
      → (b : Bool) → passes_checks (f i) ≡ b
      → (r : Result Invoice) → advance status t.clock (f i) ≡ r
      → transaction (update_invoice id f >> set_invoice_status id status) t
        ≡ replace id (λ x. with_status status t.clock (f x)) t (if b then r else err client_error)
  unfolding transaction ◌>>=◌ update_invoice
  write_found i found false p r e = rw (found, p, update_invoice, ◌>>=◌)
  write_found i found true p (ok u) e = rw (
    found,
    p,
    update_invoice,
    ◌>>=◌,
    status_written i found (ok u) e,
    modify-modify (by_id id) f keeps_by_id (with_status status t.clock) t.invoice,
  )
  write_found i found true p (err x) e =
      rw (found, p, update_invoice, ◌>>=◌, status_written i found (err x) e)
  write_found i found true p (panicked m) e =
      rw (found, p, update_invoice, ◌>>=◌, status_written i found (panicked m) e)

  write_missing :
      find (by_id id) t.invoice ≡ none
      → transaction (update_invoice id f >> set_invoice_status id status) t
        ≡ (err (not_found "invoice"), t)
  unfolding transaction ◌>>=◌ update_invoice
  write_missing missing = rw (missing, update_invoice, ◌>>=◌)

  pub write_then_status :
      transaction (update_invoice id f >> set_invoice_status id status) t
      ≡ change id (λ x. with_status status t.clock (f x)) (attempt f status t.clock) t
  unfolding change attempt
  write_then_status = elim (Option-cases (find (by_id id) t.invoice)) [
    | inl missing ↦ rw (missing, change) (write_missing missing)
    | inr (i, found) ↦ rw (found, change, attempt) (write_found i found _ refl _ refl)
  ]
