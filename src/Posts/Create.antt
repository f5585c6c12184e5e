-- ===== src/Posts/Create.antt =====
-- mitra_models/src/posts/queries.rs: the creation of a post, a reply or a repost.
use mitra.Prelude.{
  ℕ, String, Option, none, some, Bool, not, ◌&&◌, List, [], ◌∷◌, ◌++◌, ◌==◌, if◌then◌else◌, is_none,
}
use mitra.Prelude.Int.{pos}
use mitra.Database.{Query, pure, lift, transaction, ◌>>=◌, ◌>>◌}
use mitra.Profiles.Types.{DbActorProfile, has_user_account}
use mitra.Profiles.Queries.{update_post_count, get_profile_by_id}
use mitra.Notifications.Queries.{
  create_reply_notification, create_repost_notification, create_mention_notification,
}
use mitra.Posts.Types.{
  Post, Conversation, PostContext, top, reply, repost, PostCreateData, check_post_data,
}
use mitra.Posts.Detailed.{PostDetailed, RelatedRows, new_detailed}
use mitra.Posts.Related.{
  contains, create_conversation, get_conversation, create_post_attachments, create_post_mentions,
  create_post_tags, create_post_links, create_post_emojis, create_post_poll,
}
use mitra.Schema.{Tables}
use mitra.Posts.Queries.{
  update_reply_count, update_repost_count, get_post_author, insert_post, new_post,
  conversation_group,
}

unfoldable pub find_conversation :
    ℕ → ℕ → Option String → PostContext → Query Tables (Option Conversation)
unfolding ◌>>=◌ create_conversation get_conversation
find_conversation ulid post_id post_object_id (top group_id object_id audience) = do
  c ← create_conversation ulid post_id group_id (is_none post_object_id) object_id audience
  pure (some c)
find_conversation ulid post_id post_object_id (reply conversation_id _) = do
  c ← get_conversation conversation_id
  pure (some c)
find_conversation ulid post_id post_object_id (repost _) = pure none

unfoldable pub find_group : Option ℕ → Query Tables (Option DbActorProfile)
unfolding ◌>>=◌ get_profile_by_id
find_group none = pure none
find_group (some id) = do group ← get_profile_by_id id; pure (some group)

unfoldable pub create_related :
    Option Conversation → Option DbActorProfile → Post → PostCreateData → Query Tables RelatedRows
create_related conversation group p d = do
  attachments ← create_post_attachments p.id p.author_id d.attachments
  mentions ← create_post_mentions p.id d.mentions
  tags ← create_post_tags p.id d.tags
  links ← create_post_links p.id d.links
  emojis ← create_post_emojis p.id d.emojis
  poll ← create_post_poll p.id d.poll
  pure (record {
    conversation = conversation;
    group = group;
    poll = poll;
    attachments = attachments;
    mentions = mentions;
    tags = tags;
    links = links;
    emojis = emojis;
  })

-- Whom an event on a post concerns: a user other than the author who has not been told of it yet.
abbrev pub is_told : Post → List ℕ → DbActorProfile → Bool
is_told p notified a =
    has_user_account a && not (a.id == p.author_id) && not (contains notified a.id)

-- The author of the parent, or of the reposted post, is told of the new post. The users that have been
-- notified are passed on.
unfoldable pub tell_parent : Post → ℕ → Query Tables (List ℕ)
unfolding ◌>>=◌ get_post_author create_reply_notification
tell_parent p parent = do
  author ← get_post_author parent
  if is_told p [] author
      then (do create_reply_notification p.author_id author.id p.id; pure (author.id ∷ []))
      else pure []

unfoldable pub tell_reposted : Post → List ℕ → ℕ → Query Tables (List ℕ)
unfolding ◌>>=◌ get_post_author create_repost_notification
tell_reposted p notified target = do
  author ← get_post_author target
  if is_told p notified author
      then (do
        create_repost_notification p.author_id author.id target
        pure (notified ++ author.id ∷ []))
      else pure notified

unfoldable pub count_reply : Post → Option ℕ → Query Tables (List ℕ)
unfolding ◌>>=◌ update_reply_count tell_parent
count_reply p none = pure []
count_reply p (some parent) = do update_reply_count parent (pos 1); tell_parent p parent

unfoldable pub count_repost : Post → List ℕ → Option ℕ → Query Tables (List ℕ)
unfolding ◌>>=◌ update_repost_count tell_reposted
count_repost p notified none = pure notified
count_repost p notified (some target) = do
  update_repost_count target (pos 1)
  tell_reposted p notified target

unfoldable pub notify_mentioned : Post → List ℕ → List DbActorProfile → Query Tables (List ℕ)
unfolding ◌>>=◌ create_mention_notification
notify_mentioned p notified [] = pure notified
notify_mentioned p notified (m ∷ ms) =
    let others = notify_mentioned p notified ms in
    let next = notify_mentioned p (notified ++ m.id ∷ []) ms in
    if is_told p notified m
    then (do create_mention_notification p.author_id m.id p.id; next)
    else others

unfoldable pub notify : Post → List DbActorProfile → Query Tables (List ℕ)
notify p mentions = do
  notified ← count_reply p p.in_reply_to_id
  notified ← count_repost p notified p.repost_of_id
  notify_mentioned p notified mentions

abbrev pub or_new : ℕ → Option ℕ → ℕ
or_new ulid none = ulid
or_new ulid (some id) = id

-- The related rows, the counters and the notifications of a row that has been inserted.
unfoldable pub finish_post :
    Option Conversation → Option DbActorProfile → PostCreateData → Post → Query Tables PostDetailed
finish_post conversation group d p = do
  related ← create_related conversation group p d
  author ← update_post_count p.author_id (pos 1)
  notify p related.mentions
  lift (new_detailed p author related)

unfoldable pub store_post : ℕ → ℕ → ℕ → PostCreateData → Query Tables PostDetailed
store_post post_id conversation_ulid author_id d = do
  conversation ← find_conversation conversation_ulid post_id d.object_id d.context
  group ← find_group (conversation_group conversation)
  p ← insert_post (new_post post_id author_id conversation d)
  finish_post conversation group d p

-- `ulid` and `conversation_ulid` are the identifiers that are generated.
unfoldable pub create_post : ℕ → ℕ → ℕ → PostCreateData → Query Tables PostDetailed
create_post ulid conversation_ulid author_id d = do
  lift (check_post_data d)
  transaction (store_post (or_new ulid d.id) conversation_ulid author_id d)
