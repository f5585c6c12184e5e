-- ===== src/Subscriptions/Payments.antt =====
-- mitra_adapters/src/payments/subscriptions.rs: what a payment does to a subscription.
use mitra.Prelude.{ℕ, ◌*◌, ◌^◌, Option, none, some, ltb, if◌then◌else◌}
use mitra.Prelude.Int.{ℤ}
use mitra.Database.{Query, Result, ok, err, panicked, not_found, lift, gets, ◌>>=◌}
use mitra.Subscriptions.Types.{Subscription}
use mitra.Subscriptions.Queries.{
  get_subscription_by_participants, create_subscription, update_subscription,
}
use mitra.Schema.{Tables}

abbrev monero_payment_amount_min : ℕ
monero_payment_amount_min = 1_000_000_000

abbrev seconds_in_month : ℕ
seconds_in_month = 30 * 24 * 3600

pub data ValidationError : Type 0 where
  price_too_high price_too_low : ValidationError

-- The price per second is a 64-bit number; `none` is `Ok(())`.
unfoldable pub validate_subscription_price : ℕ → Option ValidationError
validate_subscription_price price_per_second =
    if ltb (price_per_second * seconds_in_month) (2 ^ 64)
    then (if ltb (price_per_second * seconds_in_month) monero_payment_amount_min
        then some price_too_low
        else none)
    else some price_too_high

-- The branches of the `match` on the subscription that is looked up.
abbrev pub update_or_create :
    (Option ℕ → Result ℕ) → ℕ → ℕ → Result Subscription × Tables → Result Subscription × Tables
update_or_create next_expires_at sender recipient (ok s, t) =
    (do
      expires_at ← lift (next_expires_at (some s.expires_at))
      now ← gets (λ t. t.clock)
      update_subscription s.id expires_at now)
      t
update_or_create next_expires_at sender recipient (err (not_found m), t) =
    (do
      expires_at ← lift (next_expires_at none)
      now ← gets (λ t. t.clock)
      create_subscription sender recipient expires_at now)
      t
update_or_create next_expires_at sender recipient (err e, t) = (err e, t)
update_or_create next_expires_at sender recipient (panicked m, t) = (panicked m, t)

-- `next_expires_at` may panic, as the arithmetic on dates does.
unfoldable pub create_or_update_subscription :
    ℕ → ℕ → (Option ℕ → Result ℕ) → Query Tables Subscription
unfolding get_subscription_by_participants
create_or_update_subscription sender recipient next_expires_at t =
    update_or_create next_expires_at sender recipient
      (get_subscription_by_participants sender recipient t)

abbrev pub max : ℕ → ℕ → ℕ
max a b = if ltb a b then b else a

-- `DateTime + TimeDelta::seconds` is a parameter: `none` is its panic on a date out of range. The number
-- of seconds is an `i64`, and may be negative.
module _ (plus_seconds : ℕ → ℤ → Option ℕ) where
  abbrev pub or_panic : Option ℕ → Result ℕ
  or_panic none = panicked "`DateTime + TimeDelta` overflowed"
  or_panic (some t) = ok t

  abbrev pub next_local_expiry : ℕ → ℤ → Option ℕ → Result ℕ
  next_local_expiry now duration_secs none = or_panic (plus_seconds now duration_secs)
  next_local_expiry now duration_secs (some expires_at) =
      or_panic (plus_seconds (max expires_at now) duration_secs)

  unfoldable pub create_or_update_local_subscription : ℕ → ℕ → ℤ → Query Tables Subscription
  unfolding create_or_update_subscription
  create_or_update_local_subscription sender recipient duration_secs t =
      create_or_update_subscription sender recipient (next_local_expiry t.clock duration_secs) t
