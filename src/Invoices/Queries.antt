-- ===== src/Invoices/Queries.antt =====
-- mitra_models/src/invoices/queries.rs: the queries on the table `invoice`.
use mitra.Prelude.{
  ℕ, zero, suc, ◌++◌, String, Option, none, some, Bool, true, false, not, ◌&&◌, List, [], ◌∷◌,
  is_some, is_none, any, ltb, str_eq, ◌==◌, if◌then◌else◌, find, select, modify, tally,
}
use mitra.Prelude.Int.{ℤ, pos, negsuc, to_i64}
use mitra.Database.{
  Query, ok, err, type_error, client_error, not_found, already_exists, pure, lift, gets, ok_or,
  transaction, ◌>>=◌, ◌>>◌, ensure,
}
use mitra.Chain.{ChainId, chain_eq}
use mitra.Invoices.Types.{
  PaymentType, payment_type_eq, InvoiceStatus, open_status, paid, forwarded, timeout, cancelled,
  underpaid, completed, failed, requested, status_eq, Invoice, check_consistency, can_change_status,
}
use mitra.Schema.{Tables, is_account, is_profile}

-- `WHERE id = $1`.
abbrev pub by_id : ℕ → Invoice → Bool
by_id id i = i.id == id

-- The CHECK constraints of the table.
abbrev nonnegative : ℤ → Bool
nonnegative (pos n) = true
nonnegative (negsuc n) = false

abbrev positive : ℤ → Bool
positive (pos zero) = false
positive (pos (suc n)) = true
positive (negsuc n) = false

abbrev positive_if_some : Option ℤ → Bool
positive_if_some none = true
positive_if_some (some a) = positive a

abbrev pub passes_checks : Invoice → Bool
passes_checks i =
    nonnegative i.amount && positive_if_some i.payout_amount && not (i.sender_id == i.recipient_id)

-- INSERT of one row, with the constraints in the order in which the server tests them; the errors
-- go through `catch_unique_violation`.
unfoldable pub insert_invoice : Invoice → Query Tables Invoice
insert_invoice i t =
    if not (passes_checks i)
    then (err client_error, t)
    else if any (by_id i.id) t.invoice
    then (err (already_exists "invoice"), t)
    else if not (is_profile t i.sender_id && is_profile t i.recipient_id)
    then (err client_error, t)
    else (ok i, record t { invoice = t.invoice ++ i ∷ [] })

abbrev pub new_local : ℕ → ℕ → ℕ → PaymentType → ChainId → String → ℤ → ℕ → Invoice
new_local id sender recipient payment_type chain address amount now = record {
  id = id;
  sender_id = sender;
  recipient_id = recipient;
  chain_id = chain;
  amount = amount;
  invoice_status = open_status;
  payment_type = some payment_type;
  payment_address = some address;
  payout_tx_id = none;
  payout_amount = none;
  object_id = none;
  created_at = now;
  updated_at = now;
}

abbrev pub new_remote : ℕ → ℕ → ℕ → ChainId → ℤ → ℕ → Invoice
new_remote id sender recipient chain amount now = record {
  id = id;
  sender_id = sender;
  recipient_id = recipient;
  chain_id = chain;
  amount = amount;
  invoice_status = requested;
  payment_type = none;
  payment_address = none;
  payout_tx_id = none;
  payout_amount = none;
  object_id = none;
  created_at = now;
  updated_at = now;
}

-- The identifier is the one that `generate_ulid` returns. `INSERT … SELECT … WHERE` that selects
-- nothing returns no row, which `query_one` refuses.
unfoldable pub create_local_invoice :
    ℕ → ℕ → ℕ → PaymentType → ChainId → String → ℕ → Query Tables Invoice
unfolding ◌>>=◌ insert_invoice
create_local_invoice invoice_id sender recipient payment_type chain address amount = do
  db_amount ← lift (ok_or type_error (to_i64 amount))
  now ← gets (λ t. t.clock)
  has_account ← gets (λ t. is_account t recipient)
  ensure has_account client_error
  insert_invoice (new_local invoice_id sender recipient payment_type chain address db_amount now)

unfoldable pub create_remote_invoice : ℕ → ℕ → ℕ → ChainId → ℕ → Query Tables Invoice
unfolding ◌>>=◌ insert_invoice
create_remote_invoice invoice_id sender recipient chain amount = do
  db_amount ← lift (ok_or type_error (to_i64 amount))
  now ← gets (λ t. t.clock)
  allowed ← gets (λ t. is_account t sender && not (is_account t recipient))
  ensure allowed client_error
  insert_invoice (new_remote invoice_id sender recipient chain db_amount now)

unfoldable pub get_invoice_by_id : ℕ → Query Tables Invoice
get_invoice_by_id id t = (ok_or (not_found "invoice") (find (by_id id) t.invoice), t)

-- `ORDER BY created_at DESC LIMIT 1`; of rows with one time, the one that stands first.
newer : Invoice → Option Invoice → Invoice
newer i none = i
newer i (some j) = if ltb i.created_at j.created_at then j else i

unfoldable pub newest : List Invoice → Option Invoice
unfolding newer
newest [] = none
newest (i ∷ is) = some (newer i (newest is))

abbrev pub has_type : PaymentType → Invoice → Bool
has_type type i = elim i.payment_type [ none ↦ false | some p ↦ payment_type_eq p type ]

abbrev has_text : Option String → String → Bool
has_text none s = false
has_text (some a) s = str_eq a s

unfoldable pub get_local_invoice_by_address : PaymentType → ChainId → String → Query Tables Invoice
unfolding newest
get_local_invoice_by_address type chain address t = (
  ok_or (not_found "invoice") (
      newest (
        select
          (λ i.
            is_account t i.recipient_id
            && has_type type i
            && chain_eq i.chain_id chain
            && has_text i.payment_address address)
          t.invoice)),
  t,
)

unfoldable pub get_local_invoice_by_participants :
    ℕ → ℕ → PaymentType → ChainId → Query Tables Invoice
unfolding newest
get_local_invoice_by_participants sender recipient type chain t = (
  ok_or (not_found "invoice") (
      newest (
        select
          (λ i.
            i.sender_id == sender
            && i.recipient_id == recipient
            && has_type type i
            && chain_eq i.chain_id chain
            && is_none i.object_id)
          t.invoice)),
  t,
)

unfoldable pub get_remote_invoice_by_object_id : String → Query Tables Invoice
get_remote_invoice_by_object_id object t =
    (ok_or (not_found "invoice") (find (λ i. has_text i.object_id object) t.invoice), t)

abbrev pub is_local_with_status : PaymentType → ChainId → InvoiceStatus → Invoice → Bool
is_local_with_status type chain status i =
    has_type type i
    && chain_eq i.chain_id chain
    && status_eq i.invoice_status status
    && is_none i.object_id

unfoldable pub get_local_invoices_by_status :
    PaymentType → ChainId → InvoiceStatus → Query Tables (List Invoice)
get_local_invoices_by_status type chain status t =
    (ok (select (is_local_with_status type chain status) t.invoice), t)

unfoldable pub get_remote_invoices_by_status : InvoiceStatus → Query Tables (List Invoice)
get_remote_invoices_by_status status t =
    (ok (select (λ i. status_eq i.invoice_status status && is_some i.object_id) t.invoice), t)

-- `UPDATE invoice SET … WHERE id = $1 RETURNING invoice` by `query_opt`, then `ok_or`.
unfoldable pub update_invoice : ℕ → (Invoice → Invoice) → Query Tables Invoice
update_invoice id f t = elim (find (by_id id) t.invoice) [
  | none ↦ (err (not_found "invoice"), t)
  | some i ↦
      if passes_checks (f i)
      then (ok (f i), record t { invoice = modify (by_id id) f t.invoice })
      else (err client_error, t)
]

abbrev pub with_status : InvoiceStatus → ℕ → Invoice → Invoice
with_status status now i = record i { invoice_status = status; updated_at = now }

unfoldable pub set_invoice_status : ℕ → InvoiceStatus → Query Tables Invoice
unfolding transaction ◌>>=◌ get_invoice_by_id update_invoice
set_invoice_status id status = transaction (do
  invoice ← get_invoice_by_id id
  allowed ← lift (can_change_status invoice status)
  ensure allowed type_error
  now ← gets (λ t. t.clock)
  updated ← update_invoice id (with_status status now)
  lift (check_consistency updated)
  pure updated)

unfoldable pub set_invoice_payout_tx_id : ℕ → Option String → Query Tables Invoice
unfolding update_invoice
set_invoice_payout_tx_id id tx_id = update_invoice id (λ i. record i { payout_tx_id = tx_id })

unfoldable pub set_invoice_payout_amount : ℕ → Option ℤ → Query Tables Invoice
unfolding update_invoice
set_invoice_payout_amount id amount = update_invoice id (λ i. record i { payout_amount = amount })

-- The UNIQUE constraint on `object_id`.
unfoldable pub object_taken : ℕ → String → Tables → Bool
object_taken id object t = any (λ i. not (i.id == id) && has_text i.object_id object) t.invoice

abbrev pub with_object : String → String → Invoice → Invoice
with_object address object i = record i { payment_address = some address; object_id = some object }

unfoldable pub set_remote_invoice_data : ℕ → String → String → Query Tables (Unit {0})
unfolding ◌>>=◌ update_invoice get_invoice_by_id
set_remote_invoice_data id address object = do
  get_invoice_by_id id
  taken ← gets (object_taken id object)
  ensure (not taken) client_error
  update_invoice id (with_object address object)
  pure tt

abbrev pub statuses : List InvoiceStatus
statuses =
    open_status ∷ paid ∷ forwarded ∷ timeout ∷ cancelled ∷ underpaid ∷ completed ∷ failed
    ∷ requested ∷ []

-- `GROUP BY invoice_status`: a status with no invoice has no entry.
unfoldable pub groups : List InvoiceStatus → List Invoice → List (InvoiceStatus × ℕ)
groups [] is = []
groups (s ∷ ss) is =
    let n = tally (λ i. status_eq i.invoice_status s) is in
    let rest = groups ss is in if ltb 0 n then (s, n) ∷ rest else rest

unfoldable pub get_invoice_summary : Query Tables (List (InvoiceStatus × ℕ))
unfolding groups
get_invoice_summary t = (ok (groups statuses t.invoice), t)
