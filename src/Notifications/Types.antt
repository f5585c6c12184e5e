-- ===== src/Notifications/Types.antt =====
-- mitra_models/src/notifications/types.rs: events and the rows that report them.
use mitra.Prelude.{ℕ, Option}

pub data EventType : Type 0 where
  follow_event follow_request_event reply reaction mention repost subscriber_payment
        subscription_start subscription_expiration move sign_up subscriber_leaving :
      EventType

-- A row of the table `notification`, as `create_notification` writes it.
pub record Notification : Type 0 where
  pub sender_id : ℕ
  pub recipient_id : ℕ
  pub post_id : Option ℕ
  pub reaction_id : Option ℕ
  pub invoice_id : Option ℕ
  pub event_type : EventType
