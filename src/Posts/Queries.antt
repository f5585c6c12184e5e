-- ===== src/Posts/Queries.antt =====
-- mitra_models/src/posts/queries.rs: the counters and lookups of posts, and their creation.
use mitra.Prelude.{
  ℕ, String, Option, none, some, Bool, false, not, ◌&&◌, ◌||◌, List, [], ◌∷◌, ◌++◌, any, find,
  select, modify, map, str_eq, ◌==◌, if◌then◌else◌, is_none, is_some,
}
use mitra.Prelude.Int.{ℤ, add_count}
use mitra.Database.{
  Query, ok, err, client_error, already_exists, not_found, ok_or, lift, gets, ◌>>=◌,
}
use mitra.Profiles.Types.{DbActorProfile}
use mitra.Profiles.Queries.{profile_id, read_profile}
use mitra.Posts.Types.{
  Post, public, visibility_eq, Conversation, reply_target, repost_target, PostCreateData, Repost,
  repost_of_row,
}
use mitra.Posts.Related.{contains}
use mitra.Schema.{Tables, is_profile, fits_null}

abbrev pub post_key : ℕ → Post → Bool
post_key id p = p.id == id

-- `WHERE id = $1 AND repost_of_id IS NULL`.
abbrev pub is_original : Post → Bool
is_original p = is_none p.repost_of_id

abbrev pub original : ℕ → Post → Bool
original id p = p.id == id && is_original p

abbrev pub repost_with : ℕ → Post → Bool
repost_with id p = p.id == id && is_some p.repost_of_id

-- `UPDATE post SET c = c + $1 WHERE id = $2 AND repost_of_id IS NULL`, as for profiles.
module _ (count : Post → ℕ) (put : ℕ → Post → Post) where
  unfoldable pub update_post_counter : ℕ → ℤ → Query Tables (Unit {0})
  update_post_counter id change t = elim (find (original id) t.post) [
    | none ↦ (err (not_found "post"), t)
    | some p ↦ elim (add_count (count p) change) [
      | none ↦ (err client_error, t)
      | some n ↦ (ok tt, record t { post = modify (original id) (put n) t.post })
    ]
  ]

abbrev pub with_replies : ℕ → Post → Post
with_replies n p = record p { reply_count = n }

abbrev pub with_reactions : ℕ → Post → Post
with_reactions n p = record p { reaction_count = n }

abbrev pub with_reposts : ℕ → Post → Post
with_reposts n p = record p { repost_count = n }

unfoldable pub update_reply_count : ℕ → ℤ → Query Tables (Unit {0})
update_reply_count = update_post_counter (λ p. p.reply_count) with_replies

unfoldable pub update_reaction_count : ℕ → ℤ → Query Tables (Unit {0})
update_reaction_count = update_post_counter (λ p. p.reaction_count) with_reactions

unfoldable pub update_repost_count : ℕ → ℤ → Query Tables (Unit {0})
update_repost_count = update_post_counter (λ p. p.repost_count) with_reposts

abbrev with_pin : Bool → Post → Post
with_pin b p = record p { is_pinned = b }

unfoldable pub set_pinned_flag : ℕ → Bool → Query Tables (Unit {0})
set_pinned_flag id b t =
    if any (original id) t.post
    then (ok tt, record t { post = modify (original id) (with_pin b) t.post })
    else (err (not_found "post"), t)

-- JOIN of the post with its author.
unfoldable pub get_post_author : ℕ → Query Tables DbActorProfile
get_post_author id t = elim (find (post_key id) t.post) [
  | none ↦ (err (not_found "post"), t)
  | some p ↦ elim (find (profile_id p.author_id) t.actor_profile) [
    | none ↦ (err (not_found "post"), t)
    | some author ↦ (read_profile author, t)
  ]
]

abbrev pub refers_to : ℕ → Option ℕ → Bool
refers_to id none = false
refers_to id (some target) = target == id

abbrev repost_by : ℕ → ℕ → Post → Bool
repost_by post_id author_id p = refers_to post_id p.repost_of_id && p.author_id == author_id

unfoldable pub get_repost_by_author : ℕ → ℕ → Query Tables Repost
get_repost_by_author post_id author_id = do
  rows ← gets (λ t. find (repost_by post_id author_id) t.post)
  row ← lift (ok_or (not_found "post") rows)
  lift (repost_of_row row)

unfoldable pub find_reposted_by_user : ℕ → List ℕ → Query Tables (List ℕ)
find_reposted_by_user user posts_ids t = (
  ok (
      map (λ (p : Post). p.id)
        (select (λ (p : Post). contains posts_ids p.id && any (repost_by p.id user) t.post)
          t.post)),
  t,
)

-- What INSERT refuses without an error: a reply to a repost, and a repost of a repost or of a post
-- that is not public.
abbrev pub reply_refused : Option ℕ → Post → Bool
reply_refused target p = refers_to p.id target && is_some p.repost_of_id

abbrev pub repost_refused : Option ℕ → Post → Bool
repost_refused target p =
    refers_to p.id target && (is_some p.repost_of_id || not (visibility_eq p.visibility public))

abbrev same_text : Option String → Option String → Bool
same_text (some a) (some b) = str_eq a b
same_text _ _ = false

-- UNIQUE: the identifier, the object, and the author and what is reposted (where not null).
abbrev same_target : Option ℕ → Option ℕ → Bool
same_target (some a) (some b) = a == b
same_target _ _ = false

abbrev pub collides : Post → Post → Bool
collides p q =
    q.id == p.id
    || same_text q.object_id p.object_id
    || (q.author_id == p.author_id && same_target q.repost_of_id p.repost_of_id)

abbrev pub is_conversation : Tables → ℕ → Bool
is_conversation t id = any (λ (c : Conversation). c.id == id) t.conversation

-- A row may refer to itself.
abbrev pub is_post_or_new : Tables → Post → ℕ → Bool
is_post_or_new t p id = any (post_key id) (t.post ++ p ∷ [])

abbrev pub foreign_keys : Post → Tables → Bool
foreign_keys p t =
    is_profile t p.author_id
    && fits_null (is_conversation t) p.conversation_id
    && fits_null (is_post_or_new t p) p.in_reply_to_id
    && fits_null (is_post_or_new t p) p.repost_of_id
    && fits_null (is_profile t) p.group_id

abbrev pub exclusive : Post → Bool
exclusive p =
    (is_none p.conversation_id && is_some p.repost_of_id)
    || (is_some p.conversation_id && is_none p.repost_of_id)

unfoldable pub insert_post : Post → Query Tables Post
insert_post p t =
    if any (reply_refused p.in_reply_to_id) t.post || any (repost_refused p.repost_of_id) t.post
    then (err (not_found "post"), t)
    else if not (exclusive p)
    then (err client_error, t)
    else if any (collides p) t.post
    then (err (already_exists "post"), t)
    else if foreign_keys p t
    then (ok p, record t { post = t.post ++ p ∷ [] })
    else (err client_error, t)

abbrev conversation_id : Option Conversation → Option ℕ
conversation_id none = none
conversation_id (some c) = some c.id

abbrev pub conversation_group : Option Conversation → Option ℕ
conversation_group none = none
conversation_group (some c) = c.group_id

abbrev pub new_post : ℕ → ℕ → Option Conversation → PostCreateData → Post
new_post id author_id conversation d = record {
  id = id;
  author_id = author_id;
  title = d.title;
  content = d.content;
  content_source = d.content_source;
  language = d.language;
  conversation_id = conversation_id conversation;
  in_reply_to_id = reply_target d.context;
  repost_of_id = repost_target d.context;
  repost_has_deprecated_ap_id = false;
  group_id = conversation_group conversation;
  visibility = d.visibility;
  is_sensitive = d.is_sensitive;
  is_pinned = false;
  reply_count = 0;
  reaction_count = 0;
  repost_count = 0;
  url = d.url;
  object_id = d.object_id;
  ipfs_cid = none;
  created_at = d.created_at;
  updated_at = none;
}
