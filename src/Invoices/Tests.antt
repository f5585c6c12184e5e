-- ===== src/Invoices/Tests.antt =====
-- The theorems on invoices at concrete tables.
use mitra.Prelude.{
  ℕ, String, ◌≡◌, ◌<◌, refl, none, some, true, false, List, [], ◌∷◌, if◌then◌else◌, find, modify,
  Option,
}
use mitra.Prelude.Int.{pos, to_i64}
use mitra.Database.{ok, err, client_error, type_error, transaction}
use mitra.Chain.{monero_mainnet}
use mitra.Profiles.Types.{DbActorProfile, policy_none}
use mitra.Invoices.Types.{
  Invoice, InvoiceStatus, PaymentType, underpaid, is_local, is_final, check_consistency, monero,
  monero_light, open_status, paid, forwarded, completed, timeout, cancelled, requested,
  can_change_status,
}
use mitra.Invoices.Queries.{
  with_status, with_object, set_invoice_status, get_invoice_summary, object_taken, passes_checks,
  create_local_invoice,
}
use mitra.Invoices.Helpers.{
  local_invoice_forwarded, local_monero_light_invoice_paid, local_invoice_completed,
  local_invoice_reopened, remote_invoice_opened,
}
use mitra.Invoices.Spec.{advance, attempt, change, set_invoice_status-refines}
use mitra.Invoices.Refinement.{
  with_tx_id, with_payout, complete_with, reopened_row, local_monero_light_invoice_paid-refines,
  local_invoice_completed-refines, local_invoice_reopened-refines, remote_invoice_opened-refines,
}
use mitra.Invoices.Invariant.{AllSound}
use mitra.Invoices.Reachable.{create_local, forward, set_status, here, next, Reach-AllSound}
use mitra.Invoices.Transitions.{stage-lt-change}
use mitra.Invoices.Payments.{
  IsStored, completed_row, reopen_monero, reopen_light, cancel_requested_fails, complete_forwarded,
}
use mitra.Invoices.Summary.{total, total-get_invoice_summary}
use mitra.Prelude.{All}
use mitra.Invoices.Types.{timeout}
use mitra.Invoices.Expiry.{check_open_remote_invoices}
use mitra.Invoices.Overdue.{check_open_remote_invoices_lem}
use mitra.Schema.{Tables, empty_tables}

abbrev profile : ℕ → DbActorProfile
profile id = record {
  id = id;
  user_id = some id;
  manually_approves_followers = false;
  follower_count = 0;
  following_count = 0;
  subscriber_count = 0;
  post_count = 0;
  actor_json = none;
  mention_policy = policy_none;
  created_at = 0;
  consistent = true;
}

-- Profile 1 pays, profile 2 has an account.
abbrev shop : List Invoice → Tables
shop invoices = record empty_tables {
  clock = 50;
  user_account = 2 ∷ [];
  actor_profile = profile 1 ∷ profile 2 ∷ [];
  invoice = invoices;
}

abbrev invoice_with : InvoiceStatus → Option PaymentType → Option String → Option String → Invoice
invoice_with status type tx object = record {
  id = 7;
  sender_id = 1;
  recipient_id = 2;
  chain_id = monero_mainnet;
  amount = pos 100;
  invoice_status = status;
  payment_type = type;
  payment_address = some "8xyz";
  payout_tx_id = tx;
  payout_amount = none;
  object_id = object;
  created_at = 10;
  updated_at = 10;
}

abbrev paid_invoice : Invoice
paid_invoice = invoice_with paid (some monero) none none

abbrev forwarded_invoice : Invoice
forwarded_invoice = invoice_with forwarded (some monero) (some "abcd") none

abbrev late_invoice : Invoice
late_invoice = invoice_with timeout (some monero) none none

abbrev light_invoice : Invoice
light_invoice = invoice_with timeout (some monero_light) none none

abbrev open_light_invoice : Invoice
open_light_invoice = invoice_with open_status (some monero_light) none none

abbrev requested_invoice : Invoice
requested_invoice = record (invoice_with requested none none none) { payment_address = none }

forwarded_run : local_invoice_forwarded 7 "abcd" (shop (paid_invoice ∷ [])) ≡ (
  ok (record forwarded_invoice { updated_at = 50 }),
  shop (record forwarded_invoice { updated_at = 50 } ∷ []),
)
unfolding local_invoice_forwarded transaction find modify can_change_status check_consistency
forwarded_run = refl

set_invoice_status-refines_example :
    set_invoice_status 7 underpaid (shop (paid_invoice ∷ []))
    ≡ change 7 (with_status underpaid 50) (advance underpaid 50) (shop (paid_invoice ∷ []))
set_invoice_status-refines_example =
    set_invoice_status-refines 7 underpaid (shop (paid_invoice ∷ []))

local_monero_light_invoice_paid-refines_example :
    local_monero_light_invoice_paid 7 "abcd" (shop (open_light_invoice ∷ []))
    ≡ change 7
        (λ i. with_status paid 50 (with_tx_id (some "abcd") i))
        (attempt (with_tx_id (some "abcd")) paid 50)
        (shop (open_light_invoice ∷ []))
local_monero_light_invoice_paid-refines_example =
    local_monero_light_invoice_paid-refines 7 "abcd" (shop (open_light_invoice ∷ []))

local_invoice_completed-refines_example :
    local_invoice_completed 7 90 (shop (forwarded_invoice ∷ []))
    ≡ complete_with 7 (to_i64 90) (shop (forwarded_invoice ∷ []))
local_invoice_completed-refines_example =
    local_invoice_completed-refines 7 90 (shop (forwarded_invoice ∷ []))

local_invoice_reopened-refines_example :
    local_invoice_reopened 7 (shop (late_invoice ∷ []))
    ≡ change 7
        (reopened_row 50)
        (λ i.
          if passes_checks (with_tx_id none i)
          then attempt (with_payout none) paid 50 (with_tx_id none i)
          else err client_error)
        (shop (late_invoice ∷ []))
local_invoice_reopened-refines_example = local_invoice_reopened-refines 7 (shop (late_invoice ∷ []))

remote_invoice_opened-refines_example :
    remote_invoice_opened 7 "8xyz" "https://a.example/7" (shop (requested_invoice ∷ []))
    ≡ change 7
        (λ x. with_status open_status 50 (with_object "8xyz" "https://a.example/7" x))
        (λ i.
          if object_taken 7 "https://a.example/7" (shop (requested_invoice ∷ []))
          then err client_error
          else attempt (with_object "8xyz" "https://a.example/7") open_status 50 i)
        (shop (requested_invoice ∷ []))
remote_invoice_opened-refines_example =
    remote_invoice_opened-refines 7 "8xyz" "https://a.example/7" (shop (requested_invoice ∷ []))

shop-AllSound : AllSound (shop [])
unfolding find
shop-AllSound k i e = absurd (none_not_some i e)
  where
    none_not_some : (i : Invoice) → none ≡ some i → ⊥
    none_not_some i e = cc

Reach-AllSound_example :
    AllSound
      (local_invoice_forwarded 7 "abcd"
        (set_invoice_status 7 paid
          (create_local_invoice 7 1 2 monero monero_mainnet "8xyz" 100 (shop [])).1).1).1
Reach-AllSound_example = Reach-AllSound shop-AllSound (
    next
      (next (next here (create_local 7 1 2 monero monero_mainnet "8xyz" 100 refl))
        (set_status 7 paid))
      (forward 7 "abcd"))

stage-lt-change_example : 1 < 4
unfolding is_local can_change_status
stage-lt-change_example =
    stage-lt-change (invoice_with open_status none none (some "https://a.example/7")) completed
      allowed_goes refl
  where
    allowed_goes : false ≡ false
    allowed_goes = refl

late-IsStored : IsStored 7 late_invoice (shop (late_invoice ∷ []))
unfolding find check_consistency
late-IsStored = record { found = refl; consistent = refl; checked = refl }

reopen_monero_example :
    local_invoice_reopened 7 (shop (late_invoice ∷ []))
    ≡ (ok (reopened_row 50 late_invoice), shop (reopened_row 50 late_invoice ∷ []))
unfolding is_local is_final modify
reopen_monero_example =
    reopen_monero 7 late_invoice (shop (late_invoice ∷ [])) late-IsStored refl refl refl

light-IsStored : IsStored 7 light_invoice (shop (light_invoice ∷ []))
unfolding find check_consistency
light-IsStored = record { found = refl; consistent = refl; checked = refl }

reopen_light_example :
    local_invoice_reopened 7 (shop (light_invoice ∷ []))
    ≡ (err type_error, shop (light_invoice ∷ []))
unfolding is_local
reopen_light_example =
    reopen_light 7 light_invoice (shop (light_invoice ∷ [])) light-IsStored refl refl

requested-IsStored : IsStored 7 requested_invoice (shop (requested_invoice ∷ []))
unfolding find check_consistency
requested-IsStored = record { found = refl; consistent = refl; checked = refl }

cancel_requested_fails_example :
    (can_change_status requested_invoice cancelled ≡ ok true)
    × (set_invoice_status 7 cancelled (shop (requested_invoice ∷ []))
        ≡ (err type_error, shop (requested_invoice ∷ [])))
cancel_requested_fails_example =
    cancel_requested_fails 7 requested_invoice (shop (requested_invoice ∷ [])) requested-IsStored
      refl refl

forwarded-IsStored : IsStored 7 forwarded_invoice (shop (forwarded_invoice ∷ []))
unfolding find check_consistency
forwarded-IsStored = record { found = refl; consistent = refl; checked = refl }

complete_forwarded_example : local_invoice_completed 7 90 (shop (forwarded_invoice ∷ [])) ≡ (
  ok (completed_row 90 50 forwarded_invoice),
  shop (completed_row 90 50 forwarded_invoice ∷ []),
)
unfolding is_local modify
complete_forwarded_example =
    complete_forwarded 7 90 forwarded_invoice (shop (forwarded_invoice ∷ [])) forwarded-IsStored
      refl refl refl

total-get_invoice_summary_example :
    (s : List (InvoiceStatus × ℕ)) × (get_invoice_summary
        (shop (late_invoice ∷ requested_invoice ∷ []))
      ≡ (ok s, shop (late_invoice ∷ requested_invoice ∷ [])))
    × (total s ≡ 2)
total-get_invoice_summary_example =
    total-get_invoice_summary (shop (late_invoice ∷ requested_invoice ∷ []))

-- The time of the first invoice is over, that of the second is not.
abbrev old_invoice : Invoice
old_invoice = record (invoice_with open_status none none (some "https://a.io/1")) { id = 8 }

abbrev new_invoice : Invoice
new_invoice = record (invoice_with open_status none none (some "https://a.io/2")) {
  id = 9;
  created_at = 19_000_000_000;
}

abbrev later_shop : List Invoice → Tables
later_shop invoices = record empty_tables { clock = 20_000_000_000; invoice = invoices }

open_invoices-IsStored :
    All
      (λ i. IsStored i.id i (later_shop (old_invoice ∷ new_invoice ∷ [])))
      (old_invoice ∷ new_invoice ∷ [])
unfolding find check_consistency
open_invoices-IsStored = (
  record { found = refl; consistent = refl; checked = refl },
  (record { found = refl; consistent = refl; checked = refl }, tt),
)

check_open_remote_invoices_lem_example :
    check_open_remote_invoices (later_shop (old_invoice ∷ new_invoice ∷ [])) ≡ (
      ok tt,
      later_shop (
          record old_invoice { invoice_status = timeout; updated_at = 20_000_000_000 }
          ∷ new_invoice
          ∷ []),
    )
unfolding modify mitra.Invoices.Types.status_eq mitra.Invoices.Types.expires_at
check_open_remote_invoices_lem_example =
    check_open_remote_invoices_lem (later_shop (old_invoice ∷ new_invoice ∷ [])) (refl, (refl, tt))
      open_invoices-IsStored
