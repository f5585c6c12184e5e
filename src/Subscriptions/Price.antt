-- ===== src/Subscriptions/Price.antt =====
-- The bounds on the price of a subscription.
use mitra.Prelude.{ℕ, ◌≡◌, ◌≤◌, none, arith, ◌↔◌}
use mitra.Subscriptions.Payments.{validate_subscription_price}

-- A price per second is valid exactly if it is at least 386 and at most 7116799411153, which is where
-- the price of a month stops to fit in 64 bits.
pub validate_subscription_price_lem :
    (price_per_second : ℕ)
    → (validate_subscription_price price_per_second ≡ none)
      ↔ (386 ≤ price_per_second) × (price_per_second ≤ 7_116_799_411_153)
unfolding validate_subscription_price
validate_subscription_price_lem p = (λ e. ground arith, λ (a, b). ground arith)
