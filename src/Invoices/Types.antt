-- ===== src/Invoices/Types.antt =====
-- mitra_models/src/invoices/types.rs and payment_methods/types.rs: invoices, their status codes,
-- and the rules for a change of status.
use mitra.Prelude.{
  ℕ, ◌+◌, ◌*◌, String, Option, none, some, Bool, true, false, not, ◌&&◌, ◌||◌, List, [], ◌∷◌,
  is_some, is_none, any, if◌then◌else◌, ◌==◌,
}
use mitra.Prelude.Int.{ℤ, pos, negsuc, to_unsigned}
use mitra.Database.{Result, ok, err, panicked, type_error, ok_or}
use mitra.Chain.{ChainId, is_monero}

pub data PaymentType : Type 0 where
  monero monero_light : PaymentType

abbrev pub payment_type_eq : PaymentType → PaymentType → Bool
payment_type_eq monero monero = true
payment_type_eq monero_light monero_light = true
payment_type_eq _ _ = false

pub data InvoiceStatus : Type 0 where
  open_status paid forwarded timeout cancelled underpaid completed failed requested : InvoiceStatus

unfoldable pub is_final : InvoiceStatus → Bool
is_final timeout = true
is_final cancelled = true
is_final underpaid = true
is_final completed = true
is_final failed = true
is_final _ = false

-- `From<InvoiceStatus> for i16`.
unfoldable pub status_code : InvoiceStatus → ℤ
status_code open_status = pos 1
status_code paid = pos 2
status_code forwarded = pos 3
status_code timeout = pos 4
status_code cancelled = pos 5
status_code underpaid = pos 6
status_code completed = pos 7
status_code failed = pos 8
status_code requested = pos 9

-- `TryFrom<i16> for InvoiceStatus`; the tests on the number are the patterns of the source.
unfoldable pub status_of_code : ℤ → Result InvoiceStatus
status_of_code (negsuc n) = err type_error
status_of_code (pos n) =
    if n == 1
    then ok open_status
    else if n == 2
    then ok paid
    else if n == 3
    then ok forwarded
    else if n == 4
    then ok timeout
    else if n == 5
    then ok cancelled
    else if n == 6
    then ok underpaid
    else if n == 7
    then ok completed
    else if n == 8
    then ok failed
    else if n == 9
    then ok requested
    else err type_error

-- The derived `==` of `InvoiceStatus`.
abbrev pub is_requested : InvoiceStatus → Bool
is_requested requested = true
is_requested _ = false

unfoldable pub status_eq : InvoiceStatus → InvoiceStatus → Bool
status_eq open_status open_status = true
status_eq paid paid = true
status_eq forwarded forwarded = true
status_eq timeout timeout = true
status_eq cancelled cancelled = true
status_eq underpaid underpaid = true
status_eq completed completed = true
status_eq failed failed = true
status_eq requested requested = true
status_eq _ _ = false

-- Identifiers are numbers, and times count microseconds.
pub record Invoice : Type 0 where
  pub id : ℕ
  pub sender_id : ℕ
  pub recipient_id : ℕ
  pub chain_id : ChainId
  pub amount : ℤ
  pub invoice_status : InvoiceStatus
  pub payment_type : Option PaymentType
  pub payment_address : Option String
  pub payout_tx_id : Option String
  pub payout_amount : Option ℤ
  pub object_id : Option String
  pub created_at : ℕ
  pub updated_at : ℕ

unfoldable pub is_local : Invoice → Bool
is_local i = is_none i.object_id && not (is_requested i.invoice_status)

check_local : Invoice → Option PaymentType → Result (Unit {0})
check_local i none = err type_error
check_local i (some _) =
    if not (is_monero i.chain_id)
    then err type_error
    else if is_none i.payment_address
    then err type_error
    else ok tt

check_remote : Invoice → Result (Unit {0})
check_remote i =
    if is_some i.payment_type
    then err type_error
    else if is_some i.payout_tx_id || is_some i.payout_amount
    then err type_error
    else if is_none i.payment_address && not (is_requested i.invoice_status)
    then err type_error
    else ok tt

unfoldable pub check_consistency : Invoice → Result (Unit {0})
unfolding is_local check_local check_remote
check_consistency i = if is_local i then check_local i i.payment_type else check_remote i

-- The statuses that an invoice of the type `Monero` may go to.
allowed_monero : Invoice → InvoiceStatus → List InvoiceStatus
allowed_monero i open_status = paid ∷ timeout ∷ cancelled ∷ []
allowed_monero i paid = if is_some i.payout_tx_id then forwarded ∷ [] else underpaid ∷ []
allowed_monero i forwarded = if is_some i.payout_amount then completed ∷ [] else failed ∷ []
allowed_monero i timeout = paid ∷ []
allowed_monero i cancelled = paid ∷ []
allowed_monero i underpaid = paid ∷ []
allowed_monero i completed =
    if is_none i.payout_tx_id && is_none i.payout_amount then paid ∷ [] else []
allowed_monero i failed = if is_none i.payout_tx_id then paid ∷ [] else []
allowed_monero i requested = []

allowed_monero_light : Invoice → InvoiceStatus → List InvoiceStatus
allowed_monero_light i open_status =
    if is_some i.payout_tx_id then paid ∷ [] else timeout ∷ cancelled ∷ []
allowed_monero_light i paid = if is_some i.payout_amount then completed ∷ [] else []
allowed_monero_light i completed = []
allowed_monero_light i _ = []

allowed_remote : Invoice → InvoiceStatus → List InvoiceStatus
allowed_remote i open_status = paid ∷ completed ∷ timeout ∷ cancelled ∷ []
allowed_remote i paid = completed ∷ []
allowed_remote i forwarded = []
allowed_remote i timeout = completed ∷ []
allowed_remote i cancelled = paid ∷ []
allowed_remote i underpaid = []
allowed_remote i completed = []
allowed_remote i failed = []
allowed_remote i requested =
    if is_some i.payment_address then open_status ∷ cancelled ∷ [] else cancelled ∷ []

-- `payment_type.expect(…)` panics on a local invoice with no payment type.
allowed_local : Invoice → Option PaymentType → Result (List InvoiceStatus)
allowed_local i none = panicked "payment type should be specified"
allowed_local i (some monero) = ok (allowed_monero i i.invoice_status)
allowed_local i (some monero_light) = ok (allowed_monero_light i i.invoice_status)

contains : InvoiceStatus → Result (List InvoiceStatus) → Result Bool
contains to (ok allowed) = ok (any (λ s. status_eq s to) allowed)
contains to (err e) = err e
contains to (panicked m) = panicked m

unfoldable pub can_change_status : Invoice → InvoiceStatus → Result Bool
unfolding is_local allowed_local allowed_monero allowed_monero_light allowed_remote contains
    status_eq
can_change_status i to =
    contains to (
      if is_local i then allowed_local i i.payment_type else ok (allowed_remote i i.invoice_status))

unfoldable pub amount_u64 : Invoice → Result ℕ
amount_u64 i = ok_or type_error (to_unsigned i.amount)

unfoldable pub try_payment_address : Invoice → Result String
try_payment_address i =
    if is_requested i.invoice_status
    then panicked "payment address is not known"
    else ok_or type_error i.payment_address

bind_amount : Option ℤ → Result ℕ
bind_amount none = err type_error
bind_amount (some a) = ok_or type_error (to_unsigned a)

unfoldable pub try_payout_amount_u64 : Invoice → Result ℕ
unfolding bind_amount
try_payout_amount_u64 i = bind_amount i.payout_amount

-- `timeout` is in seconds.
unfoldable pub expires_at : Invoice → ℕ → ℕ
expires_at i timeout_secs = i.created_at + timeout_secs * 1_000_000
