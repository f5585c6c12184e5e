-- ===== src/Notifications/Queries.antt =====
-- mitra_models/src/notifications/queries.rs and helpers.rs: telling a user of a follower.
use mitra.Prelude.{ℕ, ◌&&◌, Option, none, some, [], ◌∷◌, ◌++◌, if◌then◌else◌}
use mitra.Database.{Query, ok, err, client_error, pure, ◌>>=◌}
use mitra.Notifications.Types.{
  EventType, follow_event, follow_request_event, reply, mention, repost,
}
use mitra.Relationships.Types.{mute_type}
use mitra.Relationships.Table.{has_relationship}
use mitra.Schema.{Tables, is_account, is_profile, is_post, fits_null}

-- INSERT with its foreign keys; those to reactions and invoices are null in the calls here.
unfoldable pub create_notification :
    ℕ → ℕ → Option ℕ → Option ℕ → Option ℕ → EventType → Query Tables (Unit {0})
create_notification sender recipient post reaction invoice event t =
    if fits_null (is_post t) post && is_profile t sender && is_account t recipient
    then (
      ok tt,
      record t {
        notification =
            t.notification
            ++ record {
              sender_id = sender;
              recipient_id = recipient;
              post_id = post;
              reaction_id = reaction;
              invoice_id = invoice;
              event_type = event;
            }
              ∷ [];
      },
    )
    else (err client_error, t)

unfoldable pub create_follow_notification : ℕ → ℕ → Query Tables (Unit {0})
unfolding ◌>>=◌ has_relationship create_notification
create_follow_notification sender recipient = do
  muted ← has_relationship recipient sender mute_type
  if muted then pure tt else create_notification sender recipient none none none follow_event

unfoldable pub create_follow_request_notification : ℕ → ℕ → Query Tables (Unit {0})
unfolding ◌>>=◌ has_relationship create_notification
create_follow_request_notification sender recipient = do
  muted ← has_relationship recipient sender mute_type
  if muted
      then pure tt
      else create_notification sender recipient none none none follow_request_event

unfoldable pub create_reply_notification : ℕ → ℕ → ℕ → Query Tables (Unit {0})
unfolding ◌>>=◌ has_relationship create_notification
create_reply_notification sender recipient post_id = do
  muted ← has_relationship recipient sender mute_type
  if muted then pure tt else create_notification sender recipient (some post_id) none none reply

unfoldable pub create_mention_notification : ℕ → ℕ → ℕ → Query Tables (Unit {0})
unfolding ◌>>=◌ has_relationship create_notification
create_mention_notification sender recipient post_id = do
  muted ← has_relationship recipient sender mute_type
  if muted then pure tt else create_notification sender recipient (some post_id) none none mention

unfoldable pub create_repost_notification : ℕ → ℕ → ℕ → Query Tables (Unit {0})
unfolding ◌>>=◌ has_relationship create_notification
create_repost_notification sender recipient post_id = do
  muted ← has_relationship recipient sender mute_type
  if muted then pure tt else create_notification sender recipient (some post_id) none none repost
