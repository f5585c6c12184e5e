-- ===== src/Invoices/Expiry.antt =====
-- mitra_adapters/src/payments/common.rs: open remote invoices whose time is over.
use mitra.Prelude.{ℕ, ◌+◌, ◌*◌, Bool, true, false, List, [], ◌∷◌, leb}
use mitra.Database.{Query, pure, gets, ◌>>=◌, ◌>>◌}
use mitra.Invoices.Types.{Invoice, open_status, timeout, expires_at}
use mitra.Invoices.Queries.{get_remote_invoices_by_status, set_invoice_status}
use mitra.Schema.{Tables}

-- `BLOCK_TIME`, in seconds.
abbrev block_time : ℕ
block_time = 120

abbrev monero_invoice_timeout : ℕ
monero_invoice_timeout = 3 * 60 * 60 + 2 * 20 * block_time

abbrev pub remote_invoice_timeout : ℕ
remote_invoice_timeout = monero_invoice_timeout

abbrev pub is_overdue : ℕ → Invoice → Bool
is_overdue now i = leb (expires_at i remote_invoice_timeout) now

abbrev pub time_out_if : Bool → ℕ → Query Tables (Unit {0})
time_out_if true id = do set_invoice_status id timeout; pure tt
time_out_if false id = pure tt

-- The loop over the open invoices.
unfoldable pub time_out : List Invoice → Query Tables (Unit {0})
unfolding expires_at
time_out [] = pure tt
time_out (invoice ∷ invoices) = do
  now ← gets (λ t. t.clock)
  time_out_if (is_overdue now invoice) invoice.id
  time_out invoices

unfoldable pub check_open_remote_invoices : Query Tables (Unit {0})
unfolding time_out get_remote_invoices_by_status
check_open_remote_invoices = do
  open_invoices ← get_remote_invoices_by_status open_status
  time_out open_invoices
