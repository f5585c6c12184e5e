-- ===== src/Invoices/Reachable.antt =====
-- The states that the operations on invoices can reach, in any order and with any arguments.
use mitra.Prelude.{ℕ, ◌≡◌, refl, Option, none, some, true, String, arith, if◌then◌else◌}
use mathlib.Core.Path.{subst}
use mitra.Prelude.Int.{ℤ, to_i64}
use mitra.Database.{ok, err, client_error}
use mitra.Chain.{ChainId, is_monero}
use mitra.Invoices.Types.{
  Invoice, InvoiceStatus, PaymentType, paid, forwarded, completed, open_status,
}
use mitra.Invoices.Queries.{
  with_status, with_object, set_invoice_status, create_local_invoice, create_remote_invoice,
  passes_checks, object_taken,
}
use mitra.Invoices.Helpers.{
  local_invoice_forwarded, local_invoice_completed, local_invoice_reopened,
  local_monero_light_invoice_paid, remote_invoice_opened,
}
use mitra.Invoices.Spec.{advance, attempt, set_invoice_status-refines}
use mitra.Invoices.Refinement.{
  with_tx_id, with_payout, reopened_row, complete_with, local_invoice_forwarded-refines,
  local_invoice_completed-refines, local_invoice_reopened-refines,
  local_monero_light_invoice_paid-refines, remote_invoice_opened-refines,
}
use mitra.Invoices.Soundness.{
  IsSettled, IsSound, advance_result, attempt_result, advance-IsSound, advance-paid-IsSound,
  with_tx_id-IsSettled, with_payout-IsSettled, with_object-IsSettled,
}
use mitra.Invoices.Invariant.{
  AllSound, Loaded-change, create_local_invoice-AllSound, create_remote_invoice-AllSound,
}
use mitra.Schema.{Tables}

-- The written row, once the step has accepted it.
stored :
    (status : InvoiceStatus) (now : ℕ) (j u : Invoice)
    → advance status now j ≡ ok u
    → IsSettled j
    → IsSound (with_status status now j)
stored status now j u e h =
    subst IsSound (advance_result status now j u e).0 (advance-IsSound status now j u h e)

stored_paid :
    (now : ℕ) (j u : Invoice) → advance paid now j ≡ ok u → IsSound (with_status paid now j)
stored_paid now j u e =
    subst IsSound (advance_result paid now j u e).0 (advance-paid-IsSound now j u e)

module _ (id : ℕ) (t : Tables) (h : AllSound t) where
  pub set_invoice_status-AllSound :
      (status : InvoiceStatus) → AllSound (set_invoice_status id status t).1
  set_invoice_status-AllSound status = rw (set_invoice_status-refines id status t) (
      Loaded-change IsSound id _ (λ x. refl) t h _
        (λ i u s e. stored status t.clock i u e s.settled))

  pub local_invoice_forwarded-AllSound :
      (tx : String) → AllSound (local_invoice_forwarded id tx t).1
  local_invoice_forwarded-AllSound tx = rw (local_invoice_forwarded-refines id tx t) (
      Loaded-change IsSound id _ (λ x. refl) t h _
        (λ i u s e.
          stored forwarded t.clock (with_tx_id (some tx) i) u
            (attempt_result _ forwarded t.clock i u e) (with_tx_id-IsSettled tx i s.settled)))

  pub local_monero_light_invoice_paid-AllSound :
      (tx : String) → AllSound (local_monero_light_invoice_paid id tx t).1
  local_monero_light_invoice_paid-AllSound tx =
      rw (local_monero_light_invoice_paid-refines id tx t) (
        Loaded-change IsSound id _ (λ x. refl) t h _
          (λ i u s e.
            stored_paid t.clock (with_tx_id (some tx) i) u (attempt_result _ paid t.clock i u e)))

  complete_with-AllSound : (a : Option ℤ) → AllSound (complete_with id a t).1
  complete_with-AllSound none = h
  complete_with-AllSound (some a) =
      Loaded-change IsSound id _ (λ x. refl) t h _
        (λ i u s e.
          stored completed t.clock (with_payout (some a) i) u
            (attempt_result _ completed t.clock i u e) (with_payout-IsSettled a i s.settled))

  pub local_invoice_completed-AllSound :
      (amount : ℕ) → AllSound (local_invoice_completed id amount t).1
  local_invoice_completed-AllSound amount =
      rw (local_invoice_completed-refines id amount t) (complete_with-AllSound (to_i64 amount))

  reopen_result :
      (i u : Invoice)
      → (if passes_checks (with_tx_id none i)
          then attempt (with_payout none) paid t.clock (with_tx_id none i)
          else err client_error)
        ≡ ok u
      → advance paid t.clock (with_payout none (with_tx_id none i)) ≡ ok u
  unfolding attempt
  reopen_result i u e = ground arith

  pub local_invoice_reopened-AllSound : AllSound (local_invoice_reopened id t).1
  local_invoice_reopened-AllSound = rw (local_invoice_reopened-refines id t) (
      Loaded-change IsSound id (reopened_row t.clock) (λ x. refl) t h _
        (λ i u s e.
          stored_paid t.clock (with_payout none (with_tx_id none i)) u (reopen_result i u e)))

  open_result :
      (address object : String) (i u : Invoice)
      → (if object_taken id object t
          then err client_error
          else attempt (with_object address object) open_status t.clock i)
        ≡ ok u
      → advance open_status t.clock (with_object address object i) ≡ ok u
  unfolding attempt
  open_result address object i u e = ground arith

  pub remote_invoice_opened-AllSound :
      (address object : String) → AllSound (remote_invoice_opened id address object t).1
  remote_invoice_opened-AllSound address object =
      rw (remote_invoice_opened-refines id address object t) (
        Loaded-change IsSound id _ (λ x. refl) t h _
          (λ i u s e.
            stored open_status t.clock (with_object address object i) u
              (open_result address object i u e) (with_object-IsSettled address object i)))

-- One operation on the invoices, whether it returns or fails, or a change of the other tables and
-- the clock. Local invoices are created on Monero chains.
pub data Step (t : Tables) : Tables → Type 0 where
  create_local :
      (id sender recipient : ℕ) (type : PaymentType) (chain : ChainId) (address : String)
      (amount : ℕ)
      → is_monero chain ≡ true
      → Step t (create_local_invoice id sender recipient type chain address amount t).1
  create_remote :
      (id sender recipient : ℕ) (chain : ChainId) (amount : ℕ)
      → Step t (create_remote_invoice id sender recipient chain amount t).1
  set_status : (id : ℕ) (status : InvoiceStatus) → Step t (set_invoice_status id status t).1
  forward : (id : ℕ) (tx : String) → Step t (local_invoice_forwarded id tx t).1
  complete : (id amount : ℕ) → Step t (local_invoice_completed id amount t).1
  reopen : (id : ℕ) → Step t (local_invoice_reopened id t).1
  pay_light : (id : ℕ) (tx : String) → Step t (local_monero_light_invoice_paid id tx t).1
  open_remote :
      (id : ℕ) (address object : String) → Step t (remote_invoice_opened id address object t).1
  elsewhere : (u : Tables) → u.invoice ≡ t.invoice → Step t u

pub data Reach (s : Tables) : Tables → Type 0 where
  here : Reach s s
  next : {t u : Tables} → Reach s t → Step t u → Reach s u

Step-AllSound : {t u : Tables} → Step t u → AllSound t → AllSound u
Step-AllSound {t} (create_local id sender recipient type chain address amount m) h =
    create_local_invoice-AllSound id sender recipient chain amount t h type address m
Step-AllSound {t} (create_remote id sender recipient chain amount) h =
    create_remote_invoice-AllSound id sender recipient chain amount t h
Step-AllSound {t} (set_status id status) h = set_invoice_status-AllSound id t h status
Step-AllSound {t} (forward id tx) h = local_invoice_forwarded-AllSound id t h tx
Step-AllSound {t} (complete id amount) h = local_invoice_completed-AllSound id t h amount
Step-AllSound {t} (reopen id) h = local_invoice_reopened-AllSound id t h
Step-AllSound {t} (pay_light id tx) h = local_monero_light_invoice_paid-AllSound id t h tx
Step-AllSound {t} (open_remote id address object) h =
    remote_invoice_opened-AllSound id t h address object
Step-AllSound (elsewhere u same) h = λ k i e. h k i (rw same at e)

-- From a state whose invoices are sound, any sequence of operations, with local invoices created on
-- Monero chains, leads to states whose invoices are sound: each passes `check_consistency`, and each
-- local one that is forwarded or completed, or paid by the light type, has the payout columns that
-- this status needs.
pub Reach-AllSound : {s t : Tables} → AllSound s → Reach s t → AllSound t
Reach-AllSound h here = h
Reach-AllSound h (next r st) = Step-AllSound st (Reach-AllSound h r)
