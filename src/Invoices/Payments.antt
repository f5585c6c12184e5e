-- ===== src/Invoices/Payments.antt =====
-- Payments at the level of the queries: what a late payment, a payout and a cancellation do.
use mitra.Prelude.Int.{pos, to_i64}
use mitra.Prelude.{
  ℕ, ◌≡◌, none, some, true, arith, find, modify, if◌then◌else◌, ltb, zero, suc, Bool, ◌^◌, false,
  refl, ◌∙◌,
}
use mitra.Database.{Result, ok, err, client_error, type_error}
use mitra.Invoices.Types.{
  Invoice, monero, paid, is_final, is_local, check_consistency, can_change_status, requested,
  monero_light, forwarded, cancelled, completed,
}
use mitra.Invoices.Queries.{by_id, passes_checks, with_status, set_invoice_status}
use mitra.Invoices.Helpers.{local_invoice_reopened, local_invoice_completed}
use mitra.Invoices.Spec.{advance, attempt, change, replace, set_invoice_status-refines}
use mitra.Invoices.Refinement.{
  with_payout, with_tx_id, reopened_row, local_invoice_reopened-refines, complete_with,
  local_invoice_completed-refines,
}
use mitra.Schema.{Tables}

-- The result of a step on a row that is found, once the step is known.
pub change_found :
    (id : ℕ) (f : Invoice → Invoice) (step : Invoice → Result Invoice) (t : Tables) (i : Invoice)
    (r : Result Invoice)
    → find (by_id id) t.invoice ≡ some i
    → step i ≡ r
    → change id f step t ≡ replace id f t r
unfolding change
change_found id f step t i r found e = rw (found, change, e)

-- The row as it is stored: it passes `check_consistency`, and the constraints of its table hold.
pub record IsStored (id : ℕ) (i : Invoice) (t : Tables) : Type 0 where
  pub found : find (by_id id) t.invoice ≡ some i
  pub consistent : check_consistency i ≡ ok tt
  pub checked : passes_checks i ≡ true

reopen_row :
    (now : ℕ) (i : Invoice)
    → check_consistency i ≡ ok tt
    → passes_checks i ≡ true
    → is_local i ≡ true
    → i.payment_type ≡ some monero
    → is_final i.invoice_status ≡ true
    → (if passes_checks (with_tx_id none i)
        then attempt (with_payout none) paid now (with_tx_id none i)
        else err client_error)
      ≡ ok (reopened_row now i)
unfolding attempt advance can_change_status check_consistency is_final
reopen_row now i c p l m f = ground arith

-- A payment to a closed local invoice of the type `Monero` always re-opens it: whatever its final
-- status is, it is paid again and its payout columns are empty; the other rows are kept.
pub reopen_monero :
    (id : ℕ) (i : Invoice) (t : Tables)
    → IsStored id i t
    → is_local i ≡ true
    → i.payment_type ≡ some monero
    → is_final i.invoice_status ≡ true
    → local_invoice_reopened id t ≡ (
      ok (reopened_row t.clock i),
      record t { invoice = modify (by_id id) (reopened_row t.clock) t.invoice },
    )
reopen_monero id i t s l m f =
    rw (local_invoice_reopened-refines id t)
      (change_found id _ _ t i _ s.found (reopen_row t.clock i s.consistent s.checked l m f))

reopen_light_row :
    (now : ℕ) (i : Invoice)
    → passes_checks i ≡ true
    → is_local i ≡ true
    → i.payment_type ≡ some monero_light
    → (if passes_checks (with_tx_id none i)
        then attempt (with_payout none) paid now (with_tx_id none i)
        else err client_error)
      ≡ err type_error
unfolding attempt advance can_change_status
reopen_light_row now i p l m = ground arith

-- A local invoice of the light type is never re-opened: the call fails and all is as it was.
pub reopen_light :
    (id : ℕ) (i : Invoice) (t : Tables)
    → IsStored id i t
    → is_local i ≡ true
    → i.payment_type ≡ some monero_light
    → local_invoice_reopened id t ≡ (err type_error, t)
reopen_light id i t s l m =
    rw (local_invoice_reopened-refines id t)
      (change_found id _ _ t i _ s.found (reopen_light_row t.clock i s.checked l m))

cancel_row :
    (now : ℕ) (i : Invoice)
    → check_consistency i ≡ ok tt
    → passes_checks i ≡ true
    → i.invoice_status ≡ requested
    → i.object_id ≡ none
    → (can_change_status i cancelled ≡ ok true) × (advance cancelled now i ≡ err type_error)
unfolding advance can_change_status check_consistency
cancel_row now i c p r o = (ground arith, ground arith)

-- A remote invoice that was requested and is not yet known to the recipient may go to `cancelled`
-- by the rules of `can_change_status`, and yet setting that status always fails, since the
-- cancelled invoice would count as a local one; the tables are left as they were.
pub cancel_requested_fails :
    (id : ℕ) (i : Invoice) (t : Tables)
    → IsStored id i t
    → i.invoice_status ≡ requested
    → i.object_id ≡ none
    → (can_change_status i cancelled ≡ ok true)
      × (set_invoice_status id cancelled t ≡ (err type_error, t))
cancel_requested_fails id i t s r o =
    let (allowed, refused) = cancel_row t.clock i s.consistent s.checked r o in
    (
      allowed,
      rw (set_invoice_status-refines id cancelled t) (change_found id _ _ t i _ s.found refused),
    )

abbrev pub completed_row : ℕ → ℕ → Invoice → Invoice
completed_row amount now i = with_status completed now (with_payout (some (pos amount)) i)

complete_row :
    (amount now : ℕ) (i : Invoice)
    → check_consistency i ≡ ok tt
    → passes_checks i ≡ true
    → is_local i ≡ true
    → i.payment_type ≡ some monero
    → i.invoice_status ≡ forwarded
    → attempt (with_payout (some (pos amount))) completed now i
      ≡ (if ltb 0 amount then ok (completed_row amount now i) else err client_error)
unfolding attempt advance can_change_status check_consistency
complete_row zero now i c p l m f = ground arith
complete_row (suc amount) now i c p l m f = ground arith

replace_if :
    (id : ℕ) (f : Invoice → Invoice) (t : Tables) (u : Invoice) (b : Bool)
    → replace id f t (if b then ok u else err client_error) ≡ (
        if b
        then (ok u, record t { invoice = modify (by_id id) f t.invoice })
        else (err client_error, t))
replace_if id f t u true = refl
replace_if id f t u false = refl

complete_by :
    (id amount : ℕ) (i : Invoice) (t : Tables)
    → IsStored id i t
    → is_local i ≡ true
    → i.payment_type ≡ some monero
    → i.invoice_status ≡ forwarded
    → (b : Bool)
    → complete_with id (if b then some (pos amount) else none) t ≡ (
        if b
        then (if ltb 0 amount
            then (
              ok (completed_row amount t.clock i),
              record t { invoice = modify (by_id id) (completed_row amount t.clock) t.invoice },
            )
            else (err client_error, t))
        else (err type_error, t))
complete_by id amount i t s l m f false = refl
complete_by id amount i t s l m f true =
    change_found id _ _ t i _ s.found (complete_row amount t.clock i s.consistent s.checked l m f)
    ∙ replace_if id (completed_row amount t.clock) t (completed_row amount t.clock i) (ltb 0 amount)

-- A forwarded payment is completed with the amount that was paid out, on every amount: one that
-- does not fit a signed column is a type error, and zero breaks a constraint of the table.
pub complete_forwarded :
    (id amount : ℕ) (i : Invoice) (t : Tables)
    → IsStored id i t
    → is_local i ≡ true
    → i.payment_type ≡ some monero
    → i.invoice_status ≡ forwarded
    → local_invoice_completed id amount t ≡ (
        if ltb amount (2 ^ 63)
        then (if ltb 0 amount
            then (
              ok (completed_row amount t.clock i),
              record t { invoice = modify (by_id id) (completed_row amount t.clock) t.invoice },
            )
            else (err client_error, t))
        else (err type_error, t))
unfolding to_i64
complete_forwarded id amount i t s l m f =
    rw (local_invoice_completed-refines id amount t)
      (complete_by id amount i t s l m f (ltb amount (2 ^ 63)))
