-- ===== src/Invoices/Helpers.antt =====
-- mitra_models/src/invoices/helpers.rs: the changes of an invoice that take several queries.
use mitra.Prelude.{ℕ, String, none, some, not, ◌||◌, is_some}
use mitra.Prelude.Int.{to_i64}
use mitra.Database.{
  Query, type_error, not_found, pure, lift, ok_or, transaction, ◌>>=◌, ◌>>◌, ensure,
}
use mitra.Chain.{ChainId, chain_eq}
use mitra.Invoices.Types.{PaymentType, Invoice, open_status, paid, forwarded, completed}
use mitra.Invoices.Queries.{
  has_type, get_invoice_by_id, set_invoice_status, set_invoice_payout_tx_id,
  set_invoice_payout_amount, set_remote_invoice_data,
}
use mitra.Schema.{Tables}

unfoldable pub get_local_invoice_by_id : PaymentType → ChainId → ℕ → Query Tables Invoice
unfolding ◌>>=◌ get_invoice_by_id
get_local_invoice_by_id type chain id = do
  invoice ← get_invoice_by_id id
  ensure
      (not (
        is_some invoice.object_id
        || not (has_type type invoice)
        || not (chain_eq invoice.chain_id chain)))
      (not_found "invoice")
  pure invoice

unfoldable pub local_invoice_forwarded : ℕ → String → Query Tables Invoice
unfolding transaction ◌>>=◌ set_invoice_payout_tx_id set_invoice_status
local_invoice_forwarded id payout_tx_id =
    transaction
      (do set_invoice_payout_tx_id id (some payout_tx_id); set_invoice_status id forwarded)

unfoldable pub local_invoice_completed : ℕ → ℕ → Query Tables Invoice
unfolding transaction ◌>>=◌ set_invoice_payout_amount set_invoice_status
local_invoice_completed id payout_amount = transaction (do
  amount ← lift (ok_or type_error (to_i64 payout_amount))
  set_invoice_payout_amount id (some amount)
  set_invoice_status id completed)

unfoldable pub local_invoice_reopened : ℕ → Query Tables Invoice
unfolding transaction ◌>>=◌ set_invoice_payout_tx_id set_invoice_payout_amount set_invoice_status
local_invoice_reopened id = transaction (do
  set_invoice_payout_tx_id id none
  set_invoice_payout_amount id none
  set_invoice_status id paid)

unfoldable pub local_monero_light_invoice_paid : ℕ → String → Query Tables Invoice
unfolding transaction ◌>>=◌ set_invoice_payout_tx_id set_invoice_status
local_monero_light_invoice_paid id payout_tx_id =
    transaction (do set_invoice_payout_tx_id id (some payout_tx_id); set_invoice_status id paid)

unfoldable pub remote_invoice_opened : ℕ → String → String → Query Tables Invoice
unfolding transaction ◌>>=◌ set_remote_invoice_data set_invoice_status
remote_invoice_opened id payment_address object_id =
    transaction
      (do set_remote_invoice_data id payment_address object_id; set_invoice_status id open_status)
