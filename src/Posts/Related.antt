-- ===== src/Posts/Related.antt =====
-- mitra_models/src/posts/queries.rs and conversations/queries.rs: the rows that belong to a post.
use mitra.Prelude.{
  ℕ, String, Option, none, some, Bool, not, ◌&&◌, ◌||◌, List, [], ◌∷◌, ◌++◌, any, find, select,
  modify, map, length, leb, sort, str_eq, ◌==◌, if◌then◌else◌, is_none,
}
use mitra.Database.{
  Query, ok, err, client_error, already_exists, not_found, ok_or, pure, lift, ensure, ◌>>=◌, ◌>>◌,
}
use mitra.Profiles.Types.{DbActorProfile}
use mitra.Profiles.Queries.{profile_id}
use mitra.Relationships.Lists.{read_all}
use mitra.Polls.Types.{Poll, PollData, Polls}
use mitra.Polls.Queries.{create_poll, is_empty}
use mitra.Posts.Types.{
  Post, public, visibility_eq, Conversation, MediaAttachment, CustomEmoji, PostMention, PostTag,
  PostLink, PostEmoji,
}
use mitra.Schema.{Tables, is_profile, is_post, fits_null}

abbrev pub contains : List ℕ → ℕ → Bool
contains ids id = any (λ x. x == id) ids

-- INSERT … RETURNING; the foreign key to the root is only tested when the transaction ends.
unfoldable pub create_conversation :
    ℕ → ℕ → Option ℕ → Bool → Option String → Option String → Query Tables Conversation
create_conversation ulid root_id group_id is_managed object_id audience t =
    let c : Conversation = record {
      id = ulid;
      root_id = root_id;
      group_id = group_id;
      is_managed = is_managed;
      object_id = object_id;
      audience = audience;
    } in
    if any (λ (x : Conversation). x.id == ulid || x.root_id == root_id) t.conversation
    then (err (already_exists "conversation"), t)
    else if not (fits_null (is_profile t) group_id)
    then (err client_error, t)
    else (ok c, record t { conversation = t.conversation ++ c ∷ [] })

unfoldable pub get_conversation : ℕ → Query Tables Conversation
get_conversation id t =
    (ok_or (not_found "conversation") (find (λ (c : Conversation). c.id == id) t.conversation), t)

-- UPDATE … WHERE owner_id = $2 AND id = ANY($3) RETURNING.
abbrev is_attached : ℕ → List ℕ → MediaAttachment → Bool
is_attached author ids a = a.owner_id == author && contains ids a.id

abbrev with_post : ℕ → MediaAttachment → MediaAttachment
with_post post_id a = record a { post_id = some post_id }

abbrev attach : ℕ → ℕ → List ℕ → Query Tables (List MediaAttachment)
attach post_id author ids t = (
  ok (map (with_post post_id) (select (is_attached author ids) t.media_attachment)),
  record t {
    media_attachment = modify (is_attached author ids) (with_post post_id) t.media_attachment;
  },
)

abbrev pub earlier : MediaAttachment → MediaAttachment → Bool
earlier a b = leb a.created_at b.created_at

unfoldable pub create_post_attachments : ℕ → ℕ → List ℕ → Query Tables (List MediaAttachment)
create_post_attachments post_id author ids = do
  rows ← attach post_id author ids
  ensure (length rows == length ids) (not_found "attachment")
  pure (sort earlier rows)

-- INSERT of rows into a table with a primary key; `none` if it is broken.
abbrev add_distinct : {A : Type 0} → (A → A → Bool) → List A → List A → Option (List A)
add_distinct same [] stored = some stored
add_distinct same (x ∷ xs) stored =
    let rest = add_distinct same xs (stored ++ x ∷ []) in if any (same x) stored then none else rest

-- JOIN of the identifiers with the profiles.
unfoldable pub profiles_of : List DbActorProfile → List ℕ → List DbActorProfile
profiles_of profiles [] = []
profiles_of profiles (id ∷ ids) =
    let rest = profiles_of profiles ids in
    elim (find (profile_id id) profiles) [ none ↦ rest | some p ↦ p ∷ rest ]

abbrev same_mention : PostMention → PostMention → Bool
same_mention a b = a.post_id == b.post_id && a.profile_id == b.profile_id

abbrev mention_of : ℕ → DbActorProfile → PostMention
mention_of post_id p = record { post_id = post_id; profile_id = p.id }

abbrev insert_mentions : ℕ → List ℕ → Query Tables (List DbActorProfile)
insert_mentions post_id ids t =
    let profiles = profiles_of t.actor_profile ids in
    elim (add_distinct same_mention (map (mention_of post_id) profiles) t.post_mention) [
      | none ↦ (err client_error, t)
      | some rows ↦
          if is_post t post_id || is_empty profiles
          then (ok profiles, record t { post_mention = rows })
          else (err client_error, t)
    ]

unfoldable pub create_post_mentions : ℕ → List ℕ → Query Tables (List DbActorProfile)
unfolding profiles_of
create_post_mentions post_id ids = do
  profiles ← insert_mentions post_id ids
  ensure (length profiles == length ids) (not_found "profile")
  lift (read_all profiles)

-- INSERT … ON CONFLICT (tag_name) DO NOTHING.
abbrev add_tags : List String → List String → List String
add_tags [] stored = stored
add_tags (x ∷ xs) stored =
    if any (str_eq x) stored then add_tags xs stored else add_tags xs (stored ++ x ∷ [])

abbrev insert_tags : List String → Query Tables (Unit {0})
insert_tags tags t = (ok tt, record t { tag = add_tags tags t.tag })

abbrev same_tag : PostTag → PostTag → Bool
same_tag a b = a.post_id == b.post_id && str_eq a.tag_name b.tag_name

abbrev tag_of : ℕ → String → PostTag
tag_of post_id name = record { post_id = post_id; tag_name = name }

abbrev insert_post_tags : ℕ → List String → Query Tables (List String)
insert_post_tags post_id tags t =
    let names = select (λ name. any (str_eq name) tags) t.tag in
    elim (add_distinct same_tag (map (tag_of post_id) names) t.post_tag) [
      | none ↦ (err client_error, t)
      | some rows ↦
          if is_post t post_id || is_empty names
          then (ok names, record t { post_tag = rows })
          else (err client_error, t)
    ]

unfoldable pub create_post_tags : ℕ → List String → Query Tables (List String)
create_post_tags post_id tags = do
  insert_tags tags
  names ← insert_post_tags post_id tags
  ensure (length names == length tags) (not_found "tag")
  pure names

abbrev pub is_linkable : List ℕ → Post → Bool
is_linkable ids p = contains ids p.id && is_none p.repost_of_id && visibility_eq p.visibility public

abbrev same_link : PostLink → PostLink → Bool
same_link a b = a.source_id == b.source_id && a.target_id == b.target_id

abbrev link_to : ℕ → ℕ → PostLink
link_to post_id id = record { source_id = post_id; target_id = id }

abbrev pub id_of : Post → ℕ
id_of p = p.id

abbrev insert_links : ℕ → List ℕ → Query Tables (List ℕ)
insert_links post_id ids t =
    let targets = map id_of (select (is_linkable ids) t.post) in
    if contains targets post_id
    then (err client_error, t)
    else elim (add_distinct same_link (map (link_to post_id) targets) t.post_link) [
      | none ↦ (err client_error, t)
      | some rows ↦
          if is_post t post_id || is_empty targets
          then (ok targets, record t { post_link = rows })
          else (err client_error, t)
    ]

unfoldable pub create_post_links : ℕ → List ℕ → Query Tables (List ℕ)
create_post_links post_id ids = do
  targets ← insert_links post_id ids
  ensure (length targets == length ids) (not_found "post")
  pure targets

abbrev same_emoji : PostEmoji → PostEmoji → Bool
same_emoji a b = a.post_id == b.post_id && a.emoji_id == b.emoji_id

abbrev emoji_of : ℕ → CustomEmoji → PostEmoji
emoji_of post_id e = record { post_id = post_id; emoji_id = e.id }

abbrev insert_emojis : ℕ → List ℕ → Query Tables (List CustomEmoji)
insert_emojis post_id ids t =
    let emojis = select (λ (e : CustomEmoji). contains ids e.id) t.emoji in
    elim (add_distinct same_emoji (map (emoji_of post_id) emojis) t.post_emoji) [
      | none ↦ (err client_error, t)
      | some rows ↦
          if is_post t post_id || is_empty emojis
          then (ok emojis, record t { post_emoji = rows })
          else (err client_error, t)
    ]

unfoldable pub create_post_emojis : ℕ → List ℕ → Query Tables (List CustomEmoji)
create_post_emojis post_id ids = do
  emojis ← insert_emojis post_id ids
  ensure (length emojis == length ids) (not_found "emoji")
  pure emojis

-- The tables of polls among the others.
abbrev pub polls_of : Tables → Polls
polls_of t = record {
  actor_profile = t.actor_profile;
  post = map id_of t.post;
  poll = t.poll;
  poll_vote = t.poll_vote;
}

abbrev pub with_polls : Polls → Tables → Tables
with_polls p t = record t { poll = p.poll; poll_vote = p.poll_vote }

unfoldable pub on_polls : {A : Type 0} → Query Polls A → Query Tables A
on_polls m t = let (r, p) = m (polls_of t) in (r, with_polls p t)

-- The branch of `create_post` for a poll.
unfoldable pub create_post_poll : ℕ → Option PollData → Query Tables (Option Poll)
unfolding ◌>>=◌ create_poll on_polls
create_post_poll post_id none = pure none
create_post_poll post_id (some d) = do poll ← on_polls (create_poll post_id d); pure (some poll)
