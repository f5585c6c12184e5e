-- ===== src/Posts/Detailed.antt =====
-- mitra_models/src/posts/types.rs: a post with its related rows, and when they belong together.
-- `actions`, `related_posts` and `parent_visible`, which no query here fills in, are left out.
use mitra.Prelude.{
  ℕ, String, Option, none, some, Bool, true, false, not, ◌&&◌, ◌||◌, List, any, is_some, is_none,
  str_eq, ◌==◌, if◌then◌else◌,
}
use mitra.Database.{Result, ok, err, panicked, type_error}
use mitra.Profiles.Types.{DbActorProfile, is_managed}
use mitra.Polls.Types.{Poll}
use mitra.Polls.Queries.{is_empty, bool_eq}
use mitra.Posts.Types.{
  Visibility, public, visibility_eq, Post, Conversation, is_public, MediaAttachment, CustomEmoji,
  is_file,
}

pub record PostDetailed : Type 0 where
  pub id : ℕ
  pub author : DbActorProfile
  pub title : Option String
  pub content : String
  pub content_source : Option String
  pub language : Option String
  pub conversation : Option Conversation
  pub in_reply_to_id : Option ℕ
  pub repost_of_id : Option ℕ
  pub group : Option DbActorProfile
  pub visibility : Visibility
  pub is_sensitive : Bool
  pub is_pinned : Bool
  pub reply_count : ℕ
  pub reaction_count : ℕ
  pub repost_count : ℕ
  pub poll : Option Poll
  pub attachments : List MediaAttachment
  pub mentions : List DbActorProfile
  pub tags : List String
  pub links : List ℕ
  pub emojis : List CustomEmoji
  pub url : Option String
  pub object_id : Option String
  pub ipfs_cid : Option String
  pub created_at : ℕ
  pub updated_at : Option ℕ

-- What the subqueries add to a row.
pub record RelatedRows : Type 0 where
  pub conversation : Option Conversation
  pub group : Option DbActorProfile
  pub poll : Option Poll
  pub attachments : List MediaAttachment
  pub mentions : List DbActorProfile
  pub tags : List String
  pub links : List ℕ
  pub emojis : List CustomEmoji

abbrev pub same_id : Option ℕ → Option ℕ → Bool
same_id none none = true
same_id (some a) (some b) = a == b
same_id _ _ = false

-- A repost has nothing of its own.
abbrev is_bare : Post → RelatedRows → Bool
is_bare p r = not (
    is_some p.title
    || not (str_eq p.content "")
    || is_some p.content_source
    || is_some p.language
    || is_some p.conversation_id
    || p.is_sensitive
    || p.is_pinned
    || is_some p.in_reply_to_id
    || is_some p.group_id
    || is_some p.url
    || is_some p.ipfs_cid
    || is_some r.poll
    || not (is_empty r.attachments)
    || not (is_empty r.mentions)
    || not (is_empty r.tags)
    || not (is_empty r.links)
    || not (is_empty r.emojis))

abbrev suits : Post → ℕ → Conversation → Bool
suits p conversation_id c =
    c.id == conversation_id
    && same_id p.group_id c.group_id
    && not (c.is_managed && is_some c.object_id)
    && not (c.root_id == p.id && not (bool_eq c.is_managed (is_none p.object_id)))
    && not (p.id == c.root_id && visibility_eq p.visibility public && not (is_public c))

abbrev pub conversation_matches : Post → Option ℕ → Option Conversation → Bool
conversation_matches p (some id) (some c) = suits p id c
conversation_matches p (some id) none = false
conversation_matches p none c = is_none c

abbrev poll_matches : Post → Option Poll → Bool
poll_matches p none = true
poll_matches p (some poll) = poll.id == p.id

abbrev group_id : Option DbActorProfile → Option ℕ
group_id none = none
group_id (some g) = some g.id

-- The consistency checks of `PostDetailed::new`.
unfoldable pub belong_together : Post → DbActorProfile → RelatedRows → Bool
unfolding is_public
belong_together p author r =
    author.consistent
    && p.author_id == author.id
    && bool_eq (is_managed author) (is_none p.object_id)
    && not (is_none p.repost_of_id && is_none p.conversation_id)
    && not (is_some p.repost_of_id && not (is_bare p r))
    && conversation_matches p p.conversation_id r.conversation
    && same_id p.group_id (group_id r.group)
    && poll_matches p r.poll
    && not (
        is_managed author
        && (any (λ (a : MediaAttachment). not (is_file a.media)) r.attachments
            || any (λ (e : CustomEmoji). not (is_file e.image)) r.emojis))

abbrev pub detailed : Post → DbActorProfile → RelatedRows → PostDetailed
detailed p author r = record {
  id = p.id;
  author = author;
  title = p.title;
  content = p.content;
  content_source = p.content_source;
  language = p.language;
  conversation = r.conversation;
  in_reply_to_id = p.in_reply_to_id;
  repost_of_id = p.repost_of_id;
  group = r.group;
  visibility = p.visibility;
  is_sensitive = p.is_sensitive;
  is_pinned = p.is_pinned;
  reply_count = p.reply_count;
  reaction_count = p.reaction_count;
  repost_count = p.repost_count;
  poll = r.poll;
  attachments = r.attachments;
  mentions = r.mentions;
  tags = r.tags;
  links = r.links;
  emojis = r.emojis;
  url = p.url;
  object_id = p.object_id;
  ipfs_cid = p.ipfs_cid;
  created_at = p.created_at;
  updated_at = p.updated_at;
}

-- `PostDetailed::new`, for a post whose reactions are not looked at.
unfoldable pub new_detailed : Post → DbActorProfile → RelatedRows → Result PostDetailed
unfolding belong_together
new_detailed p author r =
    if belong_together p author r then ok (detailed p author r) else err type_error

-- `PostDetailed::expect_conversation`, which asserts that the post is not a repost.
unfoldable pub expect_conversation : PostDetailed → Result Conversation
expect_conversation p =
    if is_some p.repost_of_id
    then panicked "should not be a repost"
    else elim p.conversation [ none ↦ panicked "conversation should not be null" | some c ↦ ok c ]
