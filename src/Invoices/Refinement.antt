-- ===== src/Invoices/Refinement.antt =====
-- The helpers of helpers.rs, each a transaction of several queries, and the steps of `Spec`.
use mitra.Prelude.{
  ℕ, String, none, some, Bool, true, false, ◌≡◌, refl, if◌then◌else◌, find, modify, Option,
  find-modify, modify-modify, ◌∙◌, Option-cases, inl, inr,
}
use mitra.Prelude.Int.{ℤ, to_i64}
use mitra.Database.{
  ◌>>=◌, ◌>>◌, Query, Result, ok, err, panicked, type_error, client_error, transaction, not_found,
}
use mitra.Invoices.Types.{Invoice, InvoiceStatus, forwarded, completed, paid, open_status}
use mitra.Invoices.Queries.{
  by_id, update_invoice, passes_checks, with_status, set_invoice_status, object_taken, with_object,
}
use mitra.Invoices.Helpers.{
  local_invoice_forwarded, local_invoice_completed, local_monero_light_invoice_paid,
  local_invoice_reopened, remote_invoice_opened,
}
use mitra.Invoices.Spec.{
  advance, attempt, replace, change, keeps_by_id, written, status_written, write_then_status,
}
use mitra.Schema.{Tables}

abbrev pub with_tx_id : Option String → Invoice → Invoice
with_tx_id tx i = record i { payout_tx_id = tx }

abbrev pub with_payout : Option ℤ → Invoice → Invoice
with_payout amount i = record i { payout_amount = amount }

-- Recording a payout is the step to `forwarded` after the transaction id is written.
pub local_invoice_forwarded-refines :
    (id : ℕ) (tx : String) (t : Tables)
    → local_invoice_forwarded id tx t
      ≡ change id
          (λ i. with_status forwarded t.clock (with_tx_id (some tx) i))
          (attempt (with_tx_id (some tx)) forwarded t.clock)
          t
unfolding local_invoice_forwarded
local_invoice_forwarded-refines id tx t = write_then_status id _ (λ x. refl) forwarded t

-- Recording a payment of the light type is the step to `paid` after the transaction id is written.
pub local_monero_light_invoice_paid-refines :
    (id : ℕ) (tx : String) (t : Tables)
    → local_monero_light_invoice_paid id tx t
      ≡ change id
          (λ i. with_status paid t.clock (with_tx_id (some tx) i))
          (attempt (with_tx_id (some tx)) paid t.clock)
          t
unfolding local_monero_light_invoice_paid
local_monero_light_invoice_paid-refines id tx t = write_then_status id _ (λ x. refl) paid t

abbrev pub complete_with : ℕ → Option ℤ → Query Tables Invoice
complete_with id none t = (err type_error, t)
complete_with id (some a) t =
    change id (λ i. with_status completed t.clock (with_payout (some a) i))
      (attempt (with_payout (some a)) completed t.clock) t

completed_by :
    (id amount : ℕ) (t : Tables) (o : Option ℤ)
    → to_i64 amount ≡ o
    → local_invoice_completed id amount t ≡ complete_with id o t
unfolding local_invoice_completed transaction
completed_by id amount t none e = rw (e, ◌>>=◌)
completed_by id amount t (some a) e = rw (e, ◌>>=◌) (write_then_status id _ (λ x. refl) completed t)

-- Completing is a type error on an amount of 2^63 or more, and otherwise the step to `completed` after
-- the amount is written.
pub local_invoice_completed-refines :
    (id amount : ℕ) (t : Tables)
    → local_invoice_completed id amount t ≡ complete_with id (to_i64 amount) t
local_invoice_completed-refines id amount t = completed_by id amount t _ refl

-- Two writes and a status, in one transaction.
module _ (id : ℕ) (f g : Invoice → Invoice) (keeps_f : (x : Invoice) → (f x).id ≡ x.id)
    (keeps_g : (x : Invoice) → (g x).id ≡ x.id) (status : InvoiceStatus) (t : Tables) where
  found_again :
      (i : Invoice)
      → find (by_id id) t.invoice ≡ some i
      → find (by_id id) (modify (by_id id) f t.invoice) ≡ some (f i)
  found_again i found = rw (find-modify (by_id id) f (keeps_by_id id f keeps_f status t), found)

  fused :
      modify (by_id id) g (modify (by_id id) f t.invoice)
      ≡ modify (by_id id) (λ x. g (f x)) t.invoice
  fused = modify-modify (by_id id) f (keeps_by_id id f keeps_f status t) g t.invoice

  last :
      (i : Invoice)
      → find (by_id id) t.invoice ≡ some i
      → (r : Result Invoice) → advance status t.clock (g (f i)) ≡ r
      → set_invoice_status id status
          (written id (λ x. g (f x)) (λ x. keeps_g (f x) ∙ keeps_f x) status t)
        ≡ replace id
            (with_status status t.clock)
            (written id (λ x. g (f x)) (λ x. keeps_g (f x) ∙ keeps_f x) status t)
            r
  last i found = status_written id (λ x. g (f x)) (λ x. keeps_g (f x) ∙ keeps_f x) status t i found

  fuse_status :
      modify (by_id id) (with_status status t.clock) (modify (by_id id) (λ x. g (f x)) t.invoice)
      ≡ modify (by_id id) (λ x. with_status status t.clock (g (f x))) t.invoice
  fuse_status =
      modify-modify (by_id id) (λ x. g (f x))
        (keeps_by_id id (λ x. g (f x)) (λ x. keeps_g (f x) ∙ keeps_f x) status t)
        (with_status status t.clock) t.invoice

  twice_found :
      (i : Invoice)
      → find (by_id id) t.invoice ≡ some i
      → (a b : Bool) → passes_checks (f i) ≡ a
      → passes_checks (g (f i)) ≡ b
      → (r : Result Invoice) → advance status t.clock (g (f i)) ≡ r
      → transaction (update_invoice id f >> (update_invoice id g >> set_invoice_status id status)) t
        ≡ replace id
            (λ x. with_status status t.clock (g (f x)))
            t
            (if a then (if b then r else err client_error) else err client_error)
  unfolding transaction ◌>>=◌ update_invoice
  twice_found i found false b p q r e = rw (found, p, update_invoice, ◌>>=◌)
  twice_found i found true false p q r e =
      rw (found, p, update_invoice, ◌>>=◌, found_again i found, q)
  twice_found i found true true p q (ok u) e = rw (
    found,
    p,
    update_invoice,
    ◌>>=◌,
    found_again i found,
    q,
    fused,
    last i found (ok u) e,
    fuse_status,
  )
  twice_found i found true true p q (err x) e =
      rw (found, p, update_invoice, ◌>>=◌, found_again i found, q, fused, last i found (err x) e)
  twice_found i found true true p q (panicked m) e =
      rw (
        found,
        p,
        update_invoice,
        ◌>>=◌,
        found_again i found,
        q,
        fused,
        last i found (panicked m) e,
      )

  twice_missing :
      find (by_id id) t.invoice ≡ none
      → transaction (update_invoice id f >> (update_invoice id g >> set_invoice_status id status)) t
        ≡ (err (not_found "invoice"), t)
  unfolding transaction ◌>>=◌ update_invoice
  twice_missing missing = rw (missing, update_invoice, ◌>>=◌)

  twice_then_status :
      transaction (update_invoice id f >> (update_invoice id g >> set_invoice_status id status)) t
      ≡ change id
          (λ x. with_status status t.clock (g (f x)))
          (λ i. if passes_checks (f i) then attempt g status t.clock (f i) else err client_error)
          t
  unfolding change attempt
  twice_then_status = elim (Option-cases (find (by_id id) t.invoice)) [
    | inl missing ↦ rw (missing, change) (twice_missing missing)
    | inr (i, found) ↦ rw (found, change) (twice_found i found _ _ refl refl _ refl)
  ]

abbrev pub reopened_row : ℕ → Invoice → Invoice
reopened_row now i = with_status paid now (with_payout none (with_tx_id none i))

-- Re-opening clears both payout columns before the step to `paid`.
pub local_invoice_reopened-refines :
    (id : ℕ) (t : Tables)
    → local_invoice_reopened id t
      ≡ change id
          (reopened_row t.clock)
          (λ i.
            if passes_checks (with_tx_id none i)
            then attempt (with_payout none) paid t.clock (with_tx_id none i)
            else err client_error)
          t
unfolding local_invoice_reopened
local_invoice_reopened-refines id t =
    twice_then_status id (with_tx_id none) (with_payout none) (λ x. refl) (λ x. refl) paid t

module _ (id : ℕ) (address object : String) (t : Tables) where
  written_then :
      (i : Invoice)
      → find (by_id id) t.invoice ≡ some i
      → (r : Result Invoice) → advance open_status t.clock (with_object address object i) ≡ r
      → set_invoice_status id open_status
          (written id (with_object address object) (λ x. refl) open_status t)
        ≡ replace id
            (with_status open_status t.clock)
            (written id (with_object address object) (λ x. refl) open_status t)
            r
  written_then = status_written id (with_object address object) (λ x. refl) open_status t

  fuse_open :
      modify
        (by_id id)
        (with_status open_status t.clock)
        (modify (by_id id) (with_object address object) t.invoice)
      ≡ modify
          (by_id id)
          (λ x. with_status open_status t.clock (with_object address object x))
          t.invoice
  fuse_open =
      modify-modify (by_id id) (with_object address object)
        (keeps_by_id id (with_object address object) (λ x. refl) open_status t)
        (with_status open_status t.clock) t.invoice

  open_found :
      (i : Invoice)
      → find (by_id id) t.invoice ≡ some i
      → (a b : Bool) → object_taken id object t ≡ a
      → passes_checks (with_object address object i) ≡ b
      → (r : Result Invoice) → advance open_status t.clock (with_object address object i) ≡ r
      → remote_invoice_opened id address object t
        ≡ replace id
            (λ x. with_status open_status t.clock (with_object address object x))
            t
            (if a then err client_error else if b then r else err client_error)
  unfolding remote_invoice_opened
  open_found i found true b p q r e = rw (found, ◌>>=◌, p)
  open_found i found false false p q r e = rw (found, ◌>>=◌, p, update_invoice, found, q)
  open_found i found false true p q (ok u) e =
      rw (found, ◌>>=◌, p, update_invoice, found, q, written_then i found (ok u) e, fuse_open)
  open_found i found false true p q (err x) e =
      rw (found, ◌>>=◌, p, update_invoice, found, q, written_then i found (err x) e)
  open_found i found false true p q (panicked m) e =
      rw (found, ◌>>=◌, p, update_invoice, found, q, written_then i found (panicked m) e)

  open_missing :
      find (by_id id) t.invoice ≡ none
      → remote_invoice_opened id address object t ≡ (err (not_found "invoice"), t)
  unfolding remote_invoice_opened
  open_missing missing = rw (missing, ◌>>=◌)

  -- Opening a remote invoice is refused if its object is known under another identifier, and
  -- otherwise the step to `open` after the address and the object are written.
  pub remote_invoice_opened-refines :
      remote_invoice_opened id address object t
      ≡ change id
          (λ x. with_status open_status t.clock (with_object address object x))
          (λ i.
            if object_taken id object t
            then err client_error
            else attempt (with_object address object) open_status t.clock i)
          t
  unfolding change attempt
  remote_invoice_opened-refines = elim (Option-cases (find (by_id id) t.invoice)) [
    | inl missing ↦ rw (missing, change) (open_missing missing)
    | inr (i, found) ↦ rw (found, change) (open_found i found _ _ refl refl _ refl)
  ]
