-- ===== src/Schema.antt =====
-- mitra_models/migrations/schema.sql: the stored tables, as far as the modelled queries use them.
use mitra.Prelude.{ℕ, String, Option, none, some, true, List, [], Bool, any, ◌==◌}
use mitra.Invoices.Types.{Invoice}
use mitra.Relationships.Types.{Relationship, FollowRequest}
use mitra.Profiles.Types.{DbActorProfile}
use mitra.Notifications.Types.{Notification}
use mitra.Subscriptions.Types.{Subscription}
use mitra.Polls.Types.{Poll, PollVote}
use mitra.Posts.Types.{
  Post, Conversation, MediaAttachment, CustomEmoji, PostMention, PostTag, PostLink, PostEmoji,
}

-- `clock` is CURRENT_TIMESTAMP of the running statement, `user_account` holds the identifiers of
-- that table, and `next_relationship_id` and `next_subscription_id` are identity sequences.
pub record Tables : Type 0 where
  pub clock : ℕ
  pub user_account : List ℕ
  pub actor_profile : List DbActorProfile
  pub invoice : List Invoice
  pub relationship : List Relationship
  pub next_relationship_id : ℕ
  pub follow_request : List FollowRequest
  pub notification : List Notification
  pub subscription : List Subscription
  pub next_subscription_id : ℕ
  pub post : List Post
  pub conversation : List Conversation
  pub media_attachment : List MediaAttachment
  pub emoji : List CustomEmoji
  pub tag : List String
  pub post_mention : List PostMention
  pub post_tag : List PostTag
  pub post_link : List PostLink
  pub post_emoji : List PostEmoji
  pub poll : List Poll
  pub poll_vote : List PollVote

-- A foreign key to `user_account`.
abbrev pub is_account : Tables → ℕ → Bool
is_account t id = any (λ a. a == id) t.user_account

-- A foreign key to `actor_profile`.
abbrev pub is_profile : Tables → ℕ → Bool
is_profile t id = any (λ (p : DbActorProfile). p.id == id) t.actor_profile

-- A foreign key to `post`.
abbrev pub is_post : Tables → ℕ → Bool
is_post t id = any (λ (p : Post). p.id == id) t.post

-- A foreign key that may be null.
abbrev pub fits_null : (ℕ → Bool) → Option ℕ → Bool
fits_null test none = true
fits_null test (some id) = test id

abbrev pub empty_tables : Tables
empty_tables = record {
  clock = 0;
  user_account = [];
  actor_profile = [];
  invoice = [];
  relationship = [];
  next_relationship_id = 1;
  follow_request = [];
  notification = [];
  subscription = [];
  next_subscription_id = 1;
  post = [];
  conversation = [];
  media_attachment = [];
  emoji = [];
  tag = [];
  post_mention = [];
  post_tag = [];
  post_link = [];
  post_emoji = [];
  poll = [];
  poll_vote = [];
}
