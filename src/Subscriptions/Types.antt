-- ===== src/Subscriptions/Types.antt =====
-- mitra_models/src/subscriptions/types.rs: subscriptions, alone and with their senders.
use mitra.Prelude.{ℕ}
use mitra.Profiles.Types.{DbActorProfile}

-- A row of the table `subscription`.
pub record Subscription : Type 0 where
  pub id : ℕ
  pub sender_id : ℕ
  pub recipient_id : ℕ
  pub expires_at : ℕ
  pub updated_at : ℕ

pub record SubscriptionDetailed : Type 0 where
  pub id : ℕ
  pub sender : DbActorProfile
  pub expires_at : ℕ
