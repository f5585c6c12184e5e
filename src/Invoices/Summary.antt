-- ===== src/Invoices/Summary.antt =====
-- The report on the stored invoices: the count by status.
use mitra.Prelude.{ℕ, ◌+◌, ◌≡◌, refl, List, [], ◌∷◌, Bool, arith, tally, length}
use mitra.Database.{ok}
use mitra.Invoices.Types.{
  Invoice, InvoiceStatus, open_status, paid, forwarded, timeout, cancelled, underpaid, completed,
  failed, requested, status_eq,
}
use mitra.Invoices.Queries.{get_invoice_summary, groups, statuses}
use mitra.Schema.{Tables}

abbrev pub total : List (InvoiceStatus × ℕ) → ℕ
total [] = 0
total ((s, n) ∷ rest) = n + total rest

abbrev with : InvoiceStatus → Invoice → Bool
with s i = status_eq i.invoice_status s

-- Each invoice is counted under one of the nine statuses.
counted :
    (is : List Invoice)
    → tally (with open_status) is
        + tally (with paid) is
        + tally (with forwarded) is
        + tally (with timeout) is
        + tally (with cancelled) is
        + tally (with underpaid) is
        + tally (with completed) is
        + tally (with failed) is
        + tally (with requested) is
      ≡ length is
unfolding tally status_eq
counted [] = refl
counted (i ∷ is) = ground (arith, counted is)

sum_over : List InvoiceStatus → List Invoice → ℕ
sum_over [] is = 0
sum_over (s ∷ ss) is = tally (with s) is + sum_over ss is

total-groups : (ss : List InvoiceStatus) (is : List Invoice) → total (groups ss is) ≡ sum_over ss is
unfolding groups sum_over
total-groups [] is = refl
total-groups (s ∷ ss) is = ground (arith, total-groups ss is)

-- The summary reads the table without changing it, and its counts add up to the number of stored
-- invoices: no invoice is left out and none is counted twice.
pub total-get_invoice_summary :
    (t : Tables)
    → (s : List (InvoiceStatus × ℕ)) × (get_invoice_summary t ≡ (ok s, t))
      × (total s ≡ length t.invoice)
unfolding get_invoice_summary sum_over
total-get_invoice_summary t = (
  groups statuses t.invoice,
  refl,
  omega (arith, total-groups statuses t.invoice, counted t.invoice),
)
