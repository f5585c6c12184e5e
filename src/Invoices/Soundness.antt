-- ===== src/Invoices/Soundness.antt =====
-- What a stored invoice should be, and the steps of `Spec`.
use mitra.Prelude.{
  Bool, true, ◌≡◌, some, String, is_some, not, ◌||◌, ◌&&◌, ℕ, arith, Option, false, refl,
}
use mitra.Prelude.Int.{ℤ}
use mitra.Database.{ok}
use mitra.Invoices.Types.{
  PaymentType, monero_light, InvoiceStatus, paid, forwarded, completed, open_status, Invoice,
  is_local, check_consistency, can_change_status,
}
use mitra.Invoices.Queries.{with_status, with_object}
use mitra.Invoices.Spec.{advance, attempt}
use mitra.Invoices.Refinement.{with_tx_id, with_payout}

abbrev is_light : Option PaymentType → Bool
is_light (some monero_light) = true
is_light _ = false

-- The payout columns that a local invoice has filled in when it is in a status.
abbrev payouts_recorded : Invoice → InvoiceStatus → Bool
payouts_recorded i forwarded = is_some i.payout_tx_id
payouts_recorded i completed = is_some i.payout_tx_id && is_some i.payout_amount
payouts_recorded i paid = not (is_light i.payment_type) || is_some i.payout_tx_id
payouts_recorded i _ = true

-- A forwarded invoice has its payout transaction, and a completed one its amount as well; one of
-- the light type has the transaction from the payment on.
abbrev pub IsSettled : Invoice → Type 0
IsSettled i = (not (is_local i) || payouts_recorded i i.invoice_status) ≡ true

pub record IsSound (i : Invoice) : Type 0 where
  pub consistent : check_consistency i ≡ ok tt
  pub settled : IsSettled i

-- What an accepted step yields: the row with its status, which passes the consistency check.
pub advance_result :
    (status : InvoiceStatus) (now : ℕ) (i u : Invoice)
    → advance status now i ≡ ok u
    → (u ≡ with_status status now i)
      × (check_consistency u ≡ ok tt)
      × (can_change_status i status ≡ ok true)
unfolding advance
advance_result status now i u e = ground arith

advance-IsSettled :
    (status : InvoiceStatus) (now : ℕ) (i u : Invoice)
    → IsSettled i
    → advance status now i ≡ ok u
    → IsSettled u
unfolding advance can_change_status
advance-IsSettled open_status now i u h e = ground arith
advance-IsSettled status now i u h e = ground arith

-- A step to `paid` needs no more than its own guard.
advance-paid-IsSettled : (now : ℕ) (i u : Invoice) → advance paid now i ≡ ok u → IsSettled u
unfolding advance can_change_status
advance-paid-IsSettled now i u e = ground arith

pub advance-IsSound :
    (status : InvoiceStatus) (now : ℕ) (i u : Invoice)
    → IsSettled i
    → advance status now i ≡ ok u
    → IsSound u
advance-IsSound status now i u h e = record {
  consistent = (advance_result status now i u e).1;
  settled = advance-IsSettled status now i u h e;
}

pub advance-paid-IsSound : (now : ℕ) (i u : Invoice) → advance paid now i ≡ ok u → IsSound u
advance-paid-IsSound now i u e = record {
  consistent = (advance_result paid now i u e).1;
  settled = advance-paid-IsSettled now i u e;
}

pub attempt_result :
    (f : Invoice → Invoice) (status : InvoiceStatus) (now : ℕ) (i u : Invoice)
    → attempt f status now i ≡ ok u
    → advance status now (f i) ≡ ok u
unfolding attempt
attempt_result f status now i u e = ground arith

pub with_tx_id-IsSettled :
    (tx : String) (i : Invoice) → IsSettled i → IsSettled (with_tx_id (some tx) i)
unfolding is_local
with_tx_id-IsSettled tx i h = ground arith

pub with_payout-IsSettled : (a : ℤ) (i : Invoice) → IsSettled i → IsSettled (with_payout (some a) i)
unfolding is_local
with_payout-IsSettled a i h = ground arith

pub with_object-IsSettled :
    (address object : String) (i : Invoice) → IsSettled (with_object address object i)
unfolding is_local
with_object-IsSettled address object i = refl
