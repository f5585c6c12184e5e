-- ===== src/Posts/Visibility.antt =====
-- mitra_models/src/posts/helpers.rs and the parts of posts/queries.rs and conversations/queries.rs that
-- say who may see a post.
use mitra.Prelude.{
  ℕ, Option, none, some, Bool, true, false, not, ◌&&◌, ◌||◌, List, any, find, select, map, str_eq,
  ◌==◌, if◌then◌else◌, is_some, sort,
}
use mitra.Database.{Query, Result, ok, err, not_found, pure, lift, ensure, ◌>>=◌, ◌>>◌}
use mitra.Profiles.Types.{DbActorProfile, is_managed}
use mitra.Profiles.Queries.{profile_id}
use mitra.Relationships.Types.{Relationship, type_eq, follow_type, subscription, mute_type}
use mitra.Relationships.Table.{has_relationship, by_key}
use mitra.Polls.Queries.{poll_key}
use mitra.Posts.Types.{
  Visibility, public, direct, followers, subscribers, conversation, visibility_eq, Post,
  Conversation, MediaAttachment, CustomEmoji, PostMention, PostTag, PostLink, PostEmoji,
}
use mitra.Posts.Detailed.{PostDetailed, RelatedRows, new_detailed, expect_conversation}
use mitra.Posts.Related.{profiles_of, earlier}
use mitra.Posts.Queries.{original, refers_to}
use mitra.Schema.{Tables}

-- `RELATED_MENTIONS`: the profiles of the rows, in their order.
abbrev pub mention_on : ℕ → PostMention → Bool
mention_on id m = m.post_id == id

abbrev pub mentioned : PostMention → ℕ
mentioned m = m.profile_id

-- The subqueries `RELATED_CONVERSATION` to `RELATED_EMOJIS`.
abbrev pub related_conversation : Option ℕ → List Conversation → Option Conversation
related_conversation none rows = none
related_conversation (some id) rows = find (λ (c : Conversation). c.id == id) rows

abbrev related_group : Option ℕ → List DbActorProfile → Option DbActorProfile
related_group none rows = none
related_group (some id) rows = find (profile_id id) rows

abbrev attached_to : ℕ → MediaAttachment → Bool
attached_to id a = refers_to id a.post_id

unfoldable pub post_subqueries : Post → Tables → RelatedRows
unfolding profiles_of
post_subqueries p t = record {
  conversation = related_conversation p.conversation_id t.conversation;
  group = related_group p.group_id t.actor_profile;
  poll = find (poll_key p.id) t.poll;
  attachments = sort earlier (select (attached_to p.id) t.media_attachment);
  mentions = profiles_of t.actor_profile (map mentioned (select (mention_on p.id) t.post_mention));
  tags =
      select (λ name. any (λ (r : PostTag). r.post_id == p.id && str_eq r.tag_name name) t.post_tag)
        t.tag;
  links =
      map (λ (l : PostLink). l.target_id)
        (select (λ (l : PostLink). l.source_id == p.id) t.post_link);
  emojis =
      select
        (λ (e : CustomEmoji).
          any (λ (r : PostEmoji). r.post_id == p.id && r.emoji_id == e.id) t.post_emoji)
        t.emoji;
}

-- Reading the joined row back.
abbrev pub read_joined : Post → Option DbActorProfile → RelatedRows → Result PostDetailed
read_joined p none r = err (not_found "post")
read_joined p (some author) r = new_detailed p author r

unfoldable pub read_post : Post → Tables → Result PostDetailed
read_post p t = read_joined p (find (profile_id p.author_id) t.actor_profile) (post_subqueries p t)

unfoldable pub get_post_by_id : ℕ → Query Tables PostDetailed
unfolding read_post
get_post_by_id id t = elim (find (original id) t.post) [
  | none ↦ (err (not_found "post"), t)
  | some p ↦ (read_post p t, t)
]

-- The relationship that lets a user see what is limited to followers or to subscribers.
abbrev pub lets_in : ℕ → ℕ → Visibility → Relationship → Bool
lets_in user author v r =
    r.source_id == user
    && r.target_id == author
    && ((visibility_eq v followers && type_eq r.relationship_type follow_type)
        || (visibility_eq v subscribers && type_eq r.relationship_type subscription))

abbrev is_root_for : ℕ → Tables → Conversation → Post → Bool
is_root_for user t c root =
    c.root_id == root.id
    && (root.author_id == user || any (lets_in user root.author_id root.visibility) t.relationship)

abbrev pub participates : ℕ → ℕ → Tables → Bool
participates user conversation_id t =
    any (λ (c : Conversation). c.id == conversation_id && any (is_root_for user t c) t.post)
      t.conversation

unfoldable pub is_conversation_participant : ℕ → ℕ → Query Tables Bool
is_conversation_participant user conversation_id t = (ok (participates user conversation_id t), t)

abbrev pub in_conversation : ℕ → Option ℕ → Tables → Bool
in_conversation user none t = false
in_conversation user (some id) t = participates user id t

-- `build_visibility_filter`, as a test of one row; no comparison with a user that is NULL is true.
unfoldable pub visibility_filter : Option ℕ → Post → Tables → Bool
visibility_filter none p t = visibility_eq p.visibility public
visibility_filter (some user) p t =
    p.author_id == user
    || visibility_eq p.visibility public
    || any (λ (m : PostMention). m.post_id == p.id && m.profile_id == user) t.post_mention
    || any (λ (q : Post). refers_to q.id p.repost_of_id && q.author_id == user) t.post
    || any (lets_in user p.author_id p.visibility) t.relationship
    || (visibility_eq p.visibility conversation && in_conversation user p.conversation_id t)

-- `build_mute_filter`, as a test of one row.
unfoldable pub mute_filter : Option ℕ → Post → Tables → Bool
mute_filter none p t = true
mute_filter (some user) p t =
    not (any (by_key user p.author_id mute_type) t.relationship)
    && not (
        any
          (λ (q : Post).
            refers_to q.id p.repost_of_id && any (by_key user q.author_id mute_type) t.relationship)
          t.post)

abbrev pub is_author_or_mentioned : PostDetailed → DbActorProfile → Bool
is_author_or_mentioned p viewer = p.author.id == viewer.id || any (profile_id viewer.id) p.mentions

abbrev pub can_view : Visibility → Option DbActorProfile → PostDetailed → Query Tables Bool
can_view public viewer p = pure true
can_view followers none p = pure false
can_view followers (some viewer) p = do
  is_following ← has_relationship viewer.id p.author.id follow_type
  pure (is_following || is_author_or_mentioned p viewer)
can_view subscribers none p = pure false
can_view subscribers (some viewer) p = pure (is_author_or_mentioned p viewer)
can_view conversation none p = pure false
can_view conversation (some viewer) p = do
  c ← lift (expect_conversation p)
  is_participant ← is_conversation_participant viewer.id c.id
  pure (is_participant || is_author_or_mentioned p viewer)
can_view direct none p = pure false
can_view direct (some viewer) p = pure (is_author_or_mentioned p viewer)

unfoldable pub can_view_post : Option DbActorProfile → PostDetailed → Query Tables Bool
unfolding ◌>>=◌ has_relationship expect_conversation is_conversation_participant
can_view_post viewer p = can_view p.visibility viewer p

unfoldable pub can_link_post : PostDetailed → Bool
can_link_post p =
    if is_some p.repost_of_id
    then false
    else if not (visibility_eq p.visibility public)
    then false
    else true

unfoldable pub get_local_post_by_id : ℕ → Query Tables PostDetailed
get_local_post_by_id id = do
  p ← get_post_by_id id
  ensure (is_managed p.author) (not_found "post")
  pure p

unfoldable pub get_post_by_id_for_view : Option DbActorProfile → ℕ → Query Tables PostDetailed
get_post_by_id_for_view viewer id = do
  p ← get_post_by_id id
  visible ← can_view_post viewer p
  ensure visible (not_found "post")
  pure p
