-- ===== src/Invoices/Transitions.antt =====
-- The life of an invoice: the codes of its statuses, and which statuses can follow which.
use mitra.Prelude.{ℕ, ◌<◌, ◌≡◌, refl, none, some, Bool, true, false, arith, ◌&&◌}
use mitra.Prelude.Int.{ℤ, pos, negsuc}
use mitra.Database.{ok}
use mitra.Invoices.Types.{
  Invoice, InvoiceStatus, monero, monero_light, open_status, paid, timeout, cancelled, completed,
  requested, status_code, status_of_code, is_local, can_change_status,
}

-- Every status is read back from the code that it is stored under, and a code that is read is the
-- one under which the status is stored.
pub status_code_roundtrip :
    ((s : InvoiceStatus) → status_of_code (status_code s) ≡ ok s)
    × ((n : ℤ) (s : InvoiceStatus) → status_of_code n ≡ ok s → status_code s ≡ n)
unfolding status_code status_of_code
status_code_roundtrip = (encode, decode)
  where
    encode : (s : InvoiceStatus) → status_of_code (status_code s) ≡ ok s
    encode open_status = refl
    encode _ = refl

    decode : (n : ℤ) (s : InvoiceStatus) → status_of_code n ≡ ok s → status_code s ≡ n
    decode (pos n) s e = ground arith
    decode (negsuc n) s e = cc

-- How far an invoice of the light type, or a remote one, has come.
abbrev pub stage : InvoiceStatus → ℕ
stage requested = 0
stage open_status = 1
stage timeout = 2
stage cancelled = 2
stage paid = 3
stage completed = 4
stage _ = 0

abbrev pub is_monero_type : Invoice → Bool
is_monero_type i = elim i.payment_type [
  | some monero ↦ true
  | some monero_light ↦ false
  | none ↦ false
]

-- Unless it is local and of the type `Monero`, an invoice only goes forward: a change of status
-- that is allowed raises its stage.
pub stage-lt-change :
    (i : Invoice) (to : InvoiceStatus)
    → (is_local i && is_monero_type i) ≡ false
    → can_change_status i to ≡ ok true
    → stage i.invoice_status < stage to
unfolding can_change_status
stage-lt-change i open_status h e = ground arith
stage-lt-change i to h e = ground arith
