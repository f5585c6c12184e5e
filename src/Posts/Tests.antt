-- ===== src/Posts/Tests.antt =====
-- The theorems on posts at concrete tables.
mod Deletions
use mitra.Posts.Detailed.{PostDetailed}
use mitra.Prelude.{
  ℕ, ◌≡◌, refl, Option, none, some, Bool, true, false, List, [], ◌∷◌, arith, Bool-cases, inl, inr,
  find, ◌==◌, map, ◌||◌, ◌++◌, ◌≤◌, tally, any, ◌↔◌, ◌&&◌, not, All, ==_refl, select,
}
use mitra.Database.{Result, ok, err, not_found}
use mitra.Profiles.Types.{DbActorProfile, policy_none, only_contacts}
use mitra.Posts.Types.{
  Visibility, public, followers, subscribers, Post, Conversation, ap_public, PostContext, top,
  reply, PostCreateData, repost_data,
}
use mitra.Posts.Queries.{original, repost_with, post_key, refers_to}
use mitra.Posts.Create.{create_post, notify}
use mitra.Posts.Delete.{delete_repost, post_context, delete_post, DeletionQueue}
use mitra.Posts.Visibility.{
  get_post_by_id, can_view_post, visibility_filter, get_post_by_id_for_view,
}
use mitra.Posts.Views.{
  by_subscription, can_view_post-visibility_filter, get_post_by_id_for_view-visibility_filter,
}
use mitra.Posts.Counts.{IsTallied}
use mitra.Posts.Tallied.{create_post-IsTallied}
use mitra.Posts.Deleted.{delete_repost-IsTallied}
use mitra.Database.Triples.{Ensures}
use mitra.Notifications.Types.{Notification}
use mitra.Posts.Told.{for_user}
use mitra.Posts.Notified.{notify_once}
use mitra.Posts.Related.{contains}
use mitra.Posts.Descent.{Descends, post_context-Descends}
use mitra.Posts.Reached.{All-mem, any-mem}
use mitra.Posts.Authored.{IsThreaded, ShowsPosts, delete_post-ShowsPosts}
use mitra.Posts.Erased.{Removed, delete_post-Removed}
use mitra.Posts.Mentions.{get_profiles_by_ids, filter_mentions}
use mitra.Posts.Allowed.{is_kept, filter_mentions_lem}
use mitra.Schema.{Tables, empty_tables}

abbrev profile : ℕ → DbActorProfile
profile id = record {
  id = id;
  user_id = some id;
  manually_approves_followers = false;
  mention_policy = policy_none;
  follower_count = 0;
  following_count = 0;
  subscriber_count = 0;
  post_count = 1;
  actor_json = none;
  created_at = 0;
  consistent = true;
}

abbrev note : ℕ → ℕ → Visibility → Post
note id author visibility = record {
  id = id;
  author_id = author;
  title = none;
  content = "tea";
  content_source = none;
  language = none;
  conversation_id = some 100;
  in_reply_to_id = none;
  repost_of_id = none;
  repost_has_deprecated_ap_id = false;
  group_id = none;
  visibility = visibility;
  is_sensitive = false;
  is_pinned = false;
  reply_count = 0;
  reaction_count = 0;
  repost_count = 0;
  url = none;
  object_id = none;
  ipfs_cid = none;
  created_at = 5;
  updated_at = none;
}

abbrev talk : Conversation
talk = record {
  id = 100;
  root_id = 10;
  group_id = none;
  is_managed = true;
  object_id = none;
  audience = some ap_public;
}

-- One post of the first of two users.
abbrev one_note : Visibility → Tables
one_note visibility = record empty_tables {
  user_account = 1 ∷ 2 ∷ [];
  actor_profile = profile 1 ∷ profile 2 ∷ [];
  post = note 10 1 visibility ∷ [];
  conversation = talk ∷ [];
}

abbrev answer : PostCreateData
answer = record (repost_data 10 public none 7) {
  context = reply 100 10;
  content = "coffee";
  mentions = 1 ∷ [];
}

-- The reply is created, is counted, and notifies the author of the parent once.
abbrev after_answer : Tables
after_answer = (create_post 11 101 2 answer (one_note public)).1

answer_counted : map (λ (p : Post). p.reply_count) after_answer.post ≡ 1 ∷ 0 ∷ []
unfolding mitra.Posts.Create.create_post mitra.Posts.Create.store_post
    mitra.Posts.Create.finish_post mitra.Posts.Create.find_conversation
    mitra.Posts.Create.find_group mitra.Posts.Types.check_post_data mitra.Posts.Types.reply_target
    mitra.Posts.Types.repost_target mitra.Posts.Types.repost_data mitra.Posts.Queries.insert_post
    mitra.Database.transaction mitra.Database.◌>>=◌ mitra.Prelude.find
    mitra.Posts.Create.create_related mitra.Posts.Related.create_post_attachments
    mitra.Prelude.select mitra.Posts.Related.create_post_mentions
    mitra.Notifications.Queries.create_mention_notification
    mitra.Notifications.Queries.create_notification
    mitra.Notifications.Queries.create_reply_notification mitra.Posts.Create.count_reply
    mitra.Posts.Create.count_repost mitra.Posts.Create.notify mitra.Posts.Create.notify_mentioned
    mitra.Posts.Create.tell_parent mitra.Posts.Detailed.belong_together
    mitra.Posts.Detailed.new_detailed mitra.Posts.Queries.get_post_author
    mitra.Posts.Queries.update_post_counter mitra.Posts.Queries.update_reply_count
    mitra.Posts.Related.create_post_emojis mitra.Posts.Related.create_post_links
    mitra.Posts.Related.create_post_poll mitra.Posts.Related.create_post_tags
    mitra.Posts.Related.get_conversation mitra.Posts.Related.profiles_of mitra.Posts.Types.is_public
    mitra.Prelude.Int.add_count mitra.Prelude.modify mitra.Prelude.insert mitra.Prelude.sort
    mitra.Profiles.Queries.get_profile_by_id mitra.Profiles.Queries.update_count
    mitra.Profiles.Queries.update_post_count mitra.Relationships.Lists.read_all
    mitra.Relationships.Table.has_relationship
answer_counted = refl

one_note-IsTallied : IsTallied (one_note public).post
unfolding mitra.Prelude.tally
one_note-IsTallied = record {
  shown = (λ _. (refl, refl), tt);
  unique = λ k. ground arith;
  single = refl;
  targets = λ k. inr (refl, refl);
}

create_post-IsTallied_example : IsTallied (create_post 11 101 2 answer (one_note public)).1.post
create_post-IsTallied_example =
    create_post-IsTallied 11 101 2 answer (one_note public) one_note-IsTallied

abbrev seen_note : Visibility → PostDetailed
seen_note visibility = record {
  id = 10;
  author = profile 1;
  title = none;
  content = "tea";
  content_source = none;
  language = none;
  conversation = some talk;
  in_reply_to_id = none;
  repost_of_id = none;
  group = none;
  visibility = visibility;
  is_sensitive = false;
  is_pinned = false;
  reply_count = 0;
  reaction_count = 0;
  repost_count = 0;
  poll = none;
  attachments = [];
  mentions = [];
  tags = [];
  links = [];
  emojis = [];
  url = none;
  object_id = none;
  ipfs_cid = none;
  created_at = 5;
  updated_at = none;
}

-- Posts for subscribers, and a viewer who is none.
stored_note : (v : Visibility) → find (original 10) (one_note v).post ≡ some (note 10 1 v)
unfolding find
stored_note v = refl

read_note :
    get_post_by_id 10 (one_note subscribers) ≡ (ok (seen_note subscribers), one_note subscribers)
unfolding get_post_by_id find mitra.Posts.Detailed.new_detailed
    mitra.Posts.Visibility.post_subqueries mitra.Prelude.sort mitra.Prelude.select
read_note = refl

can_view_post-visibility_filter_example :
    (b : Bool) × (can_view_post (some (profile 2)) (seen_note subscribers) (one_note subscribers)
      ≡ (ok b, one_note subscribers))
    × (visibility_filter (some 2) (note 10 1 subscribers) (one_note subscribers)
        ≡ (b || by_subscription (some (profile 2)) (note 10 1 subscribers) (one_note subscribers)))
can_view_post-visibility_filter_example =
    can_view_post-visibility_filter (note 10 1 subscribers) (seen_note subscribers)
      (one_note subscribers) 10 (stored_note subscribers) read_note (some (profile 2)) refl

shown_note :
    get_post_by_id_for_view (some (profile 2)) 10 (one_note public)
    ≡ (ok (seen_note public), one_note public)
unfolding get_post_by_id_for_view mitra.Database.◌>>=◌ get_post_by_id find
    mitra.Posts.Detailed.new_detailed mitra.Posts.Visibility.post_subqueries mitra.Prelude.sort
    mitra.Prelude.select can_view_post
shown_note = refl

get_post_by_id_for_view-visibility_filter_example :
    (row : Post) × (find (original 10) (one_note public).post ≡ some row)
    × (visibility_filter (some 2) row (one_note public) ≡ true)
get_post_by_id_for_view-visibility_filter_example =
    get_post_by_id_for_view-visibility_filter (one_note public) (some (profile 2)) refl 10
      (seen_note public) shown_note

-- A post and its repost.
abbrev reposted : Tables
reposted = record (one_note public) {
  post =
      record (note 10 1 public) { repost_count = 1 }
      ∷ record (note 12 2 public) { content = ""; conversation_id = none; repost_of_id = some 10 }
      ∷ [];
}

reposted-IsTallied : IsTallied reposted.post
unfolding mitra.Prelude.tally
reposted-IsTallied = record {
  shown = (λ _. (refl, refl), (λ _. (refl, refl), tt));
  unique = λ k. ground arith;
  single = refl;
  targets = λ k. elim (Bool-cases (10 == k)) [
    | inl same ↦ inl (ground arith, ground arith)
    | inr other ↦ inr (refl, ground arith)
  ];
}

delete_repost-IsTallied_example : IsTallied (delete_repost 12 reposted).1.post
delete_repost-IsTallied_example = delete_repost-IsTallied 12 reposted reposted-IsTallied (refl, tt)

notify_once_example :
    Ensures
      (λ _ t'.
        (new : List Notification) × (t'.notification ≡ [] ++ new)
        × ((k : ℕ) → tally (for_user k) new ≤ 1)
        × (tally (for_user 2) new ≡ 0))
      (notify
        (record (note 11 2 public) { in_reply_to_id = some 10 })
        (profile 1 ∷ profile 2 ∷ [])
        (one_note public))
notify_once_example =
    notify_once (record (note 11 2 public) { in_reply_to_id = some 10 })
      (profile 1 ∷ profile 2 ∷ []) (one_note public)

-- The first user accepts mentions by contacts alone, and the second is none.
abbrev guarded : Tables
guarded = record (one_note public) {
  actor_profile = record (profile 1) { mention_policy = only_contacts } ∷ profile 2 ∷ [];
}

abbrev guarded_profiles : List DbActorProfile
guarded_profiles = record (profile 1) { mention_policy = only_contacts } ∷ profile 2 ∷ []

mentions_found : get_profiles_by_ids (1 ∷ 2 ∷ []) guarded ≡ (ok guarded_profiles, guarded)
unfolding get_profiles_by_ids mitra.Database.◌>>=◌ mitra.Relationships.Lists.read_all
    mitra.Posts.Related.profiles_of find
mentions_found = refl

filter_mentions_lem_example :
    filter_mentions (1 ∷ 2 ∷ []) (profile 2) none guarded
    ≡ (ok (select (is_kept (profile 2) [] guarded) guarded_profiles), guarded)
filter_mentions_lem_example =
    filter_mentions_lem (1 ∷ 2 ∷ []) (profile 2) none guarded_profiles [] guarded mentions_found
      refl
